-- ===== src/Tests/Server.antt =====
-- The theorems on application/gssapi/server.c at work.
use kerberos.Base.{ℕ, false, ◌++◌, replicate, ◌≡◌, refl, true, some, none, [], ◌∷◌, ◌⊎◌}
use kerberos.World.{
  success, done, other_status, Gss, deleted, Bytes, Trace, complete, Context, AcceptReply,
  newest_accept,
}
use kerberos.Wire.{
  send_token, recv_token, read_all, write_all, read_loop, write_loop, store_at, load_at, to_network,
  from_network, size_sub, to_int,
}
use kerberos.Display.{display_context_flags}
use kerberos.Recording.{token_filename, record_token, decimal, decimal_loop}
use kerberos.Server.Context.{
  record_if, offer_token, establish_round, finish, establish_loop, establish_context,
}
use kerberos.Server.Context.Accepted.{establish_context-newest_accept}
use kerberos.Server.Talk.{delete_if_failed, send_mic, sign_token, sign_message}
use kerberos.Server.Talk.Deleted.{sign_message-deleted}
use kerberos.Server.Talk.Signed.{sign_message-recv_token}
use kerberos.Tests.{zeros, unreadable, agreeable, trace_of}

abbrev pub accepted : Context
accepted = some 9

abbrev accepted_trace : Trace
accepted_trace = trace_of (establish_context zeros agreeable 9 4 6 true [])

establish_context-newest_accept_example :
    (input : Bytes) × (r : AcceptReply) × (newest_accept accepted_trace
      ≡ some (record { context = none; cred = 6; input = input }, r))
    × (r.major ≡ complete)
    × ((accepted ≡ r.context) ⊎ (accepted ≡ none))
unfolding establish_context establish_loop establish_round offer_token record_if token_filename
    record_token decimal decimal_loop send_token write_all write_loop load_at to_network size_sub
    to_int recv_token read_all read_loop store_at from_network finish display_context_flags
    newest_accept
establish_context-newest_accept_example =
    establish_context-newest_accept zeros agreeable 9 4 6 true [] accepted_trace accepted
      (b'x' ∷ []) refl

sign_message-recv_token_example : (v : Trace) × (recv_token unreadable 9 4 [] ≡ done none v)
unfolding sign_message recv_token read_all read_loop
sign_message-recv_token_example =
    sign_message-recv_token unreadable agreeable 9 4 (some 9) []
      (trace_of (sign_message unreadable agreeable 9 4 (some 9) [])) refl

-- A GSS-API that refuses every message.
abbrev pub refusing : Gss
refusing = record agreeable {
  unwrap = λ t context input. record {
    major = other_status 1;
    minor = 0;
    output = some [];
    conf = false;
  };
}

abbrev pub signed_trace : Trace
signed_trace = trace_of (sign_message zeros refusing 9 4 accepted [])

sign_message-deleted_example :
    (success ≡ success)
    × ((n : ℕ) × (deleted signed_trace ≡ replicate n none ++ (accepted ∷ deleted [])))
unfolding sign_message sign_token delete_if_failed send_mic send_token write_all write_loop load_at
    to_network size_sub to_int recv_token read_all read_loop store_at from_network
sign_message-deleted_example =
    sign_message-deleted zeros refusing 9 4 accepted [] [] (trace_of (recv_token zeros 9 4 []))
      signed_trace success (λ _. refl) refl refl refl
