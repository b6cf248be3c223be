-- ===== src/Tests/Lives.antt =====
-- The theorems on the life of a context in application/gssapi at work.
use kerberos.Base.{length, ◌≡◌, refl, ◌⊎◌, Bool, true, false, none, some, [], ◌∷◌, if◌then◌else◌}
use kerberos.World.{success, failure, Trace, Event, Gss, continue_needed, complete}
use kerberos.Wire.{
  send_token, recv_token, read_all, write_all, read_loop, write_loop, store_at, load_at, to_network,
  from_network, size_sub, to_int,
}
use kerberos.Display.{display_context_flags}
use kerberos.Client.Connect.{connect_to_server, try_addresses, print_found_address}
use kerberos.Client.Call.{
  verify_reply, exchange, show_names, show_limits, inquire, request_mech, call_server,
}
use kerberos.Client.Call.Follows.{call_server-Follows}
use kerberos.Client.Context
use kerberos.Server.Context as Accept
use kerberos.Server.Talk.{delete_if_failed, send_mic, sign_token, sign_message, serve}
use kerberos.Server.Talk.Lives.{serve-Follows}
use kerberos.Server.Talk.Misuse.{sign_message-not-Follows}
use kerberos.Server.Context.Twice.{establish_context-not-Follows}
use kerberos.Session.{Life, gone, Follows, start}
use kerberos.Tests.{clamp, clamp_lt, zeros, agreeable, trace_of}
use kerberos.Tests.Client.{service, called_trace}
use kerberos.Tests.Server.{accepted, refusing, signed_trace}

call_server-Follows_example :
    (l : Life) × Follows called_trace l × ((success ≡ failure) ⊎ (l ≡ gone))
unfolding call_server request_mech connect_to_server try_addresses print_found_address
    Context.establish_context Context.establish_loop Context.establish_round Context.offer_token
    Context.await_token Context.record_if send_token write_all write_loop load_at to_network
    size_sub to_int inquire display_context_flags show_limits show_names exchange recv_token
    read_all read_loop store_at from_network verify_reply
call_server-Follows_example =
    call_server-Follows zeros agreeable 9 (b'h' ∷ []) (b'1' ∷ []) none service (b'm' ∷ []) false []
      called_trace success start refl

abbrev pub served_trace : Trace
served_trace = trace_of (serve zeros agreeable 9 4 6 false [])

serve-Follows_example : (l : Life) × Follows served_trace l × ((success ≡ failure) ⊎ (l ≡ gone))
unfolding serve Accept.establish_context Accept.establish_loop Accept.establish_round
    Accept.offer_token Accept.record_if Accept.finish send_token write_all write_loop load_at
    to_network size_sub to_int display_context_flags recv_token read_all read_loop store_at
    from_network sign_message sign_token delete_if_failed send_mic
serve-Follows_example =
    serve-Follows zeros agreeable 9 4 6 false (λ _ _. refl) (λ _ _ _. refl) (λ _ _ _. refl)
      (λ t b. (clamp (length b), refl, clamp_lt (length b))) [] served_trace success start refl

sign_message-not-Follows_example : ¬ Follows signed_trace gone
unfolding sign_message sign_token delete_if_failed send_mic send_token write_all write_loop load_at
    to_network size_sub to_int recv_token read_all read_loop store_at from_network
sign_message-not-Follows_example =
    sign_message-not-Follows zeros refusing 9 4 accepted [] [] (trace_of (recv_token zeros 9 4 []))
      signed_trace success gone refl refl refl

-- Whether gss_accept_sec_context has not been called yet.
abbrev is_first : Trace → Bool
is_first [] = true
is_first (Event.gss_accept_sec_context _ _ ∷ t) = false
is_first (_ ∷ t) = is_first t

-- A GSS-API that asks for a second token.
abbrev asking : Gss
asking = record agreeable {
  accept_sec_context = λ t args. record {
    major = if is_first t then continue_needed else complete;
    minor = 0;
    context = some 9;
    client = 5;
    output = 1 ∷ [];
    flags = 16;
  };
}

abbrev twice_trace : Trace
twice_trace = trace_of (Accept.establish_context zeros asking 9 4 6 false [])

establish_context-not-Follows_example : ¬ Follows twice_trace gone
unfolding Accept.establish_context Accept.establish_loop Accept.establish_round Accept.offer_token
    Accept.record_if Accept.finish send_token write_all write_loop load_at to_network size_sub
    to_int display_context_flags recv_token read_all read_loop store_at from_network
establish_context-not-Follows_example =
    establish_context-not-Follows zeros asking 9 4 6 false [] 9 0 []
      (trace_of (recv_token zeros 9 4 [])) (trace_of (recv_token zeros 9 4 [])) twice_trace accepted
      (b'x' ∷ []) gone start refl refl refl refl refl
