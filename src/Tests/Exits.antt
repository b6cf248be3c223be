-- ===== src/Tests/Exits.antt =====
-- The theorems on the exit statuses of application/gssapi at work.
use kerberos.Base.{ℕ, ◌≡◌, refl, ◌⊎◌, List, [], ◌∷◌}
use kerberos.World.{Bytes, Getopt, Trace, done, sockets}
use kerberos.Wire.{
  send_token, recv_token, read_all, write_all, read_loop, write_loop, store_at, load_at, to_network,
  from_network, size_sub, to_int,
}
use kerberos.Display.{display_context_flags}
use kerberos.Client.Connect.{connect_to_server, try_addresses, print_found_address}
use kerberos.Client.Args as ClientArgs
use kerberos.Client.Call as Call
use kerberos.Client.Call.Exits.{IsConfirmed, main-IsConfirmed}
use kerberos.Client.Context as Init
use kerberos.Server.Args as ServerArgs
use kerberos.Server.Listen.{create_socket, bind_socket, receive_connection, acquire_creds}
use kerberos.Server.Context as Accept
use kerberos.Server.Talk as Talk
use kerberos.Server.Talk.Exits.{IsServed, main-IsServed}
use kerberos.Tests.{zeros, agreeable, trace_of}

-- The option `-p 1`, and three operands.
abbrev getopt : Getopt
getopt = λ text argv. (record { ch = b'p'; optarg = b'1' ∷ []; optopt = 0 } ∷ [], argv)

abbrev operands : List Bytes
operands = (b'h' ∷ []) ∷ (b's' ∷ []) ∷ (b'm' ∷ []) ∷ []

-- The exit status of a run that succeeds.
abbrev no_error : ℕ
no_error = 0

abbrev client_trace : Trace
client_trace = trace_of (Call.main zeros agreeable 9 getopt operands [])

main-IsConfirmed_example :
    ((no_error ≡ 0) × IsConfirmed zeros agreeable 9 getopt operands [] client_trace)
    ⊎ (no_error ≡ 1)
unfolding Call.main ClientArgs.parse_args ClientArgs.apply_options ClientArgs.apply_option
    ClientArgs.take_operands Call.call_server Call.request_mech connect_to_server try_addresses
    print_found_address Init.establish_context Init.establish_loop Init.establish_round
    Init.offer_token Init.await_token Init.record_if send_token write_all write_loop load_at
    to_network size_sub to_int Call.inquire display_context_flags Call.show_limits Call.show_names
    Call.exchange recv_token read_all read_loop store_at from_network Call.verify_reply
main-IsConfirmed_example = main-IsConfirmed zeros agreeable 9 getopt operands [] client_trace 0 refl

abbrev server_trace : Trace
server_trace = trace_of (Talk.main zeros agreeable 9 getopt operands [])

main-IsServed_example :
    ((no_error ≡ 0)
      × ((a : ServerArgs.Arguments) × (v : Trace) × (ServerArgs.parse_args zeros getopt operands []
            ≡ done a v)
          × IsServed zeros agreeable 9 a.service (sockets []).closed server_trace))
    ⊎ (no_error ≡ 255)
unfolding Talk.main ServerArgs.parse_args ServerArgs.apply_options ServerArgs.apply_option
    ServerArgs.take_operands Talk.talk_to_client acquire_creds create_socket bind_socket
    receive_connection Talk.serve Accept.establish_context Accept.establish_loop
    Accept.establish_round Accept.offer_token Accept.record_if Accept.finish send_token write_all
    write_loop load_at to_network size_sub to_int display_context_flags recv_token read_all
    read_loop store_at from_network Talk.sign_message Talk.sign_token Talk.delete_if_failed
    Talk.send_mic
main-IsServed_example = main-IsServed zeros agreeable 9 getopt operands [] server_trace 0 refl
