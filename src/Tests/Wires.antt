-- ===== src/Tests/Wires.antt =====
-- The theorems on what is sent and what is closed, at work.
use kerberos.Base.{ap, length, ℕ, ◌≡◌, refl, ◌⊎◌, none, [], ◌∷◌, false, arith}
use kerberos.World.{wrote, success, failure, sockets}
use kerberos.Wire.{
  send_token, recv_token, read_all, write_all, read_loop, write_loop, store_at, load_at, to_network,
  from_network, size_sub, to_int,
}
use kerberos.Wire.Writes.{sent}
use kerberos.Wire.Outbox.{spoken}
use kerberos.Display.{display_context_flags}
use kerberos.Client.Connect.{connect_to_server, try_addresses, print_found_address}
use kerberos.Client.Call.{
  verify_reply, exchange, show_names, show_limits, inquire, request_mech, call_server,
}
use kerberos.Client.Call.Closed.{Shuts, call_server-closed}
use kerberos.Client.Call.Delivered.{call_server-spoken}
use kerberos.Client.Context
use kerberos.Server.Context as Accept
use kerberos.Server.Talk.{delete_if_failed, send_mic, sign_token, sign_message, serve}
use kerberos.Server.Talk.Closed.{serve-closed}
use kerberos.Server.Talk.Spoken.{serve-spoken}
use kerberos.Tests.{clamp_lem, zeros, agreeable}
use kerberos.Tests.Client.{service, called_trace}
use kerberos.Tests.Lives.{served_trace}

call_server-spoken_example :
    (sock : ℕ) × ((sockets called_trace).closed ≡ sock ∷ (sockets []).closed)
    × (sent sock called_trace ≡ spoken called_trace)
unfolding call_server request_mech connect_to_server try_addresses print_found_address
    Context.establish_context Context.establish_loop Context.establish_round Context.offer_token
    Context.await_token Context.record_if send_token write_all write_loop load_at to_network
    size_sub to_int inquire display_context_flags show_limits show_names exchange recv_token
    read_all read_loop store_at from_network verify_reply sent spoken
call_server-spoken_example =
    call_server-spoken zeros agreeable 9 (b'h' ∷ []) (b'1' ∷ []) none service (b'm' ∷ []) false
      (λ fd t bytes h. ap wrote (clamp_lem (length bytes) h)) (λ _ _. omega arith)
      (λ _ _ _. omega arith) [] called_trace (λ _. refl) refl

call_server-closed_example :
    ((success ≡ success) × Shuts (sockets []).closed (sockets called_trace))
    ⊎ ((success ≡ failure)
        × (((sockets called_trace).closed ≡ (sockets []).closed)
            ⊎ Shuts (sockets []).closed (sockets called_trace)))
unfolding call_server request_mech connect_to_server try_addresses print_found_address
    Context.establish_context Context.establish_loop Context.establish_round Context.offer_token
    Context.await_token Context.record_if send_token write_all write_loop load_at to_network
    size_sub to_int inquire display_context_flags show_limits show_names exchange recv_token
    read_all read_loop store_at from_network verify_reply
call_server-closed_example =
    call_server-closed zeros agreeable 9 (b'h' ∷ []) (b'1' ∷ []) none service (b'm' ∷ []) false []
      called_trace success refl

serve-spoken_example : sent 4 served_trace ≡ spoken served_trace
unfolding serve Accept.establish_context Accept.establish_loop Accept.establish_round
    Accept.offer_token Accept.record_if Accept.finish send_token write_all write_loop load_at
    to_network size_sub to_int display_context_flags recv_token read_all read_loop store_at
    from_network sign_message sign_token delete_if_failed send_mic sent spoken
serve-spoken_example =
    serve-spoken zeros agreeable 9 4 (λ t bytes h. ap wrote (clamp_lem (length bytes) h))
      (λ _ _. omega arith) (λ _ _ _. omega arith) 6 false [] served_trace refl refl

serve-closed_example :
    ((success ≡ success) × ((sockets served_trace).closed ≡ 4 ∷ (sockets []).closed))
    ⊎ ((success ≡ failure) × ((sockets served_trace).closed ≡ (sockets []).closed))
unfolding serve Accept.establish_context Accept.establish_loop Accept.establish_round
    Accept.offer_token Accept.record_if Accept.finish send_token write_all write_loop load_at
    to_network size_sub to_int display_context_flags recv_token read_all read_loop store_at
    from_network sign_message sign_token delete_if_failed send_mic
serve-closed_example = serve-closed zeros agreeable 9 4 6 false [] served_trace success refl
