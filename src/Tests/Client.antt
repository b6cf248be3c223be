-- ===== src/Tests/Client.antt =====
-- The theorems on application/gssapi/client.c, and on what it shares with the server, at work.
use kerberos.Base.{◌≡◌, refl, arith, true, false, some, none, [], ◌∷◌, ◌++◌, ◌⊎◌, Bool}
use kerberos.World.{Bytes, Trace, success, complete, Context, Oid, Event, done, released, protocol}
use kerberos.Wire.{
  send_token, recv_token, read_all, write_all, read_loop, write_loop, store_at, load_at, to_network,
  from_network, size_sub, to_int,
}
use kerberos.Display.{is_complete, display_context_flags}
use kerberos.Mechs.{
  translate_mech_to_oid, test_mech_str, find_mech, test_mech_oid, spnego_name, spnego_mech_oid,
  kerberos_name, krbv5_mech_oid,
}
use kerberos.Mechs.Translated.{translate_mech_to_oid-supported}
use kerberos.Recording.{token_filename, record_token, decimal, decimal_loop}
use kerberos.Recording.Names.{read_decimal, token_filename-fits}
use kerberos.Client.Connect.{connect_to_server, try_addresses, print_found_address}
use kerberos.Client.Context.{
  send_prefix, record_if, await_token, offer_token, establish_round, establish_loop,
  establish_context,
}
use kerberos.Client.Context.Names.{establish_context-released}
use kerberos.Client.Call.{
  verify_reply, exchange, show_names, show_limits, inquire, request_mech, call_server,
}
use kerberos.Client.Call.Confirmed.{call_server-Confirmed}
use kerberos.Tests.{zeros, agreeable, trace_of}

abbrev pub service : Bytes
service = b's' ∷ []

-- A context established in one round, with tokens recorded.
abbrev established_trace : Trace
established_trace = trace_of (establish_context zeros agreeable 9 3 service none true [])

establish_context-released_example : released established_trace ≡ some 5 ∷ []
unfolding establish_context establish_loop establish_round offer_token await_token record_if
    token_filename record_token decimal decimal_loop send_token write_all write_loop load_at
    to_network size_sub to_int released
establish_context-released_example =
    establish_context-released zeros agreeable 9 3 service none true [] established_trace
      (success, some 8) refl

-- A whole call.
abbrev pub called_trace : Trace
called_trace =
    trace_of
      (call_server zeros agreeable 9 (b'h' ∷ []) (b'1' ∷ []) none service (b'm' ∷ []) false [])

call_server-Confirmed_example :
    (ctx : Context) × ((protocol called_trace).init ≡ some (ctx, complete))
    × ((conf : Bool) × ((protocol called_trace).wrapped ≡ some (ctx, conf, b'm' ∷ 0 ∷ [])))
    × ((protocol called_trace).verified ≡ some (ctx, b'm' ∷ 0 ∷ [], complete))
unfolding call_server request_mech connect_to_server try_addresses print_found_address
    establish_context establish_loop establish_round offer_token await_token record_if send_token
    write_all write_loop load_at to_network size_sub to_int inquire display_context_flags
    show_limits show_names exchange recv_token read_all read_loop store_at from_network verify_reply
call_server-Confirmed_example =
    call_server-Confirmed zeros agreeable 9 (b'h' ∷ []) (b'1' ∷ []) none service (b'm' ∷ []) false
      [] called_trace refl

translate_mech_to_oid-supported_example :
    (oid : Oid) × (some spnego_mech_oid ≡ some oid)
    × (((spnego_name ≡ kerberos_name) × (oid ≡ krbv5_mech_oid))
        ⊎ ((spnego_name ≡ spnego_name) × (oid ≡ spnego_mech_oid)))
    × (let r = agreeable.indicate_mechs [] in
        let m = agreeable.test_oid_set_member (Event.gss_indicate_mechs r ∷ []) oid r.mechs in
        (is_complete r.major ≡ false) ⊎ ((is_complete m.major ≡ false) ⊎ (m.present ≡ true)))
unfolding translate_mech_to_oid test_mech_str find_mech test_mech_oid
translate_mech_to_oid-supported_example =
    translate_mech_to_oid-supported agreeable 9 spnego_name (some spnego_mech_oid) []
      (trace_of (translate_mech_to_oid agreeable 9 spnego_name [])) refl

token_filename-fits_example :
    (digits : Bytes) × (token_filename send_prefix 12 [] ≡ done (send_prefix ++ digits) [])
    × (read_decimal 0 digits ≡ 12)
token_filename-fits_example = token_filename-fits send_prefix 12 [] refl (omega arith)
