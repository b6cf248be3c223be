-- ===== src/Tests/Dialogue.antt =====
-- The theorems on the client and the server over one connection at work: a link that carries one
-- and the same token each time, and a library that makes no other.
use kerberos.Base.{ℕ, ◌≡◌, refl, true, false, none, some, [], ◌∷◌, ◌++◌, arith}
use kerberos.World.{
  Bytes, Trace, Gss, success, complete, continue_needed, Context, done, protocol, newest_mic,
}
use kerberos.Wire.{to_network, from_network}
use kerberos.Wire.Chunks.{flatten}
use kerberos.Wire.Tokens.{frame}
use kerberos.Wire.Transfer.{Carries}
use kerberos.Client.Connect.{connect_to_server, try_addresses, print_found_address}
use kerberos.Client.Call.{call_server, exchange}
use kerberos.Server.Context.{established}
use kerberos.Server.Talk.{sign_message, serve}
use kerberos.Client.Context as Client
use kerberos.Server.Context as Server
use kerberos.Dialogue.{Agrees, Delivers, exchange-sign_message}
use kerberos.Dialogue.Handshake.{Negotiates, Connects, establish_context-establish_context}
use kerberos.Dialogue.Conversation.{Describes, call_server-serve}
use kerberos.Tests.{agreeable, trace_of}
use kerberos.Tests.Transfers.{peer, token}

abbrev message : Bytes
message = b'm' ∷ []

abbrev secure : Gss
secure = record agreeable {
  init_sec_context = λ t args. record {
    major = elim args.input [ none ↦ continue_needed | some _ ↦ complete ];
    minor = 0;
    context = some 8;
    output = elim args.input [ none ↦ token | some _ ↦ [] ];
    flags = 16;
  };
  accept_sec_context = λ t args. record {
    major = complete;
    minor = 0;
    context = some 9;
    client = 5;
    output = token;
    flags = 16;
  };
  wrap =
      λ t context conf input. record { major = complete; minor = 0; output = token; conf = true };
  unwrap = λ t context input. record {
    major = complete;
    minor = 0;
    output = some (message ++ (0 ∷ []));
    conf = true;
  };
  get_mic = λ t context input. record { major = complete; minor = 0; output = token };
}

peer-Carries : (fd fd' : ℕ) (t t' : Trace) → Carries peer peer fd fd' token t t'
unfolding to_network from_network flatten frame
peer-Carries fd fd' t t' = record {
  header_sizes = 4 ∷ [];
  value_sizes = 2 ∷ [];
  header = (0 ∷ 0 ∷ 0 ∷ 2 ∷ []) ∷ [];
  value = token ∷ [];
  takes = record {
    header = (refl, omega arith, omega arith, omega arith);
    header_two = omega arith;
    value = (refl, omega arith, omega arith, omega arith);
    value_two = omega arith;
  };
  delivers = record {
    header_reads = (refl, omega arith, omega arith, omega arith);
    header_two = omega arith;
    scratch_size = refl;
    block_size = refl;
    value_reads = (refl, omega arith, omega arith, omega arith);
    value_two = omega arith;
  };
  carried = refl;
}

abbrev held : Context
held = some 8

abbrev held' : Context
held' = some 9

secure-Agrees : (x y : Trace) → Agrees peer peer secure secure 9 3 4 held held' 16 message token x y
secure-Agrees x y = record {
  wraps = refl;
  conceals = refl;
  unwraps = λ _. refl;
  concealed = λ _. refl;
  restores = λ _. refl;
  signs = λ _. refl;
  tags = λ _. refl;
  verifies = λ _. refl;
  deletes = λ _. refl;
}

peer-Delivers :
    (x y : Trace) → Delivers peer peer secure secure 9 3 4 held held' 16 message token x y
peer-Delivers x y = record {
  short_message = omega arith;
  short_tag = omega arith;
  there = peer-Carries 3 4 _ _;
  back = λ uc vs _ _. peer-Carries 4 3 _ _;
}

exchange-sign_message_example :
    (u u' : Trace) × (exchange peer secure 9 3 held 16 message [] ≡ done success u)
    × (sign_message peer secure 9 4 held' [] ≡ done success u')
    × ((protocol u).verified ≡ some (held, message ++ (0 ∷ []), complete))
    × (newest_mic u' ≡ some (held', message ++ (0 ∷ []), token))
exchange-sign_message_example =
    exchange-sign_message peer peer secure secure 9 3 4 held held' 16 message token [] []
      (secure-Agrees [] []) (peer-Delivers [] []) (omega arith)

abbrev service : Bytes
service = b's' ∷ []

secure-Negotiates :
    (t t' : Trace) → Negotiates peer peer secure secure 9 3 4 service none 6 held held' token t t'
secure-Negotiates t t' = record {
  imports = refl;
  begins = refl;
  asks = omega arith;
  accepts = λ _. refl;
  replies = λ _. refl;
  hands_out = λ _. refl;
  answers = omega arith;
  displays = λ _ _. refl;
  confirms = λ _. refl;
  is_over = λ _. refl;
  gives = λ _. refl;
}

peer-Connects :
    (t t' : Trace) → Connects peer peer secure secure 9 3 4 service none 6 held held' token t t'
peer-Connects t t' = record {
  short_request = omega arith;
  short_reply = omega arith;
  there = peer-Carries 3 4 _ _;
  back = λ uc vs _ _. peer-Carries 4 3 _ _;
}

establish_context-establish_context_example :
    (name : Bytes) × (u u' : Trace) × (Client.establish_context peer secure 9 3 service none false
        []
      ≡ done (success, held) u)
    × (Server.establish_context peer secure 9 4 6 false [] ≡ done (established held' name) u')
establish_context-establish_context_example =
    establish_context-establish_context peer peer secure secure 9 3 4 service none 6 held held'
      token [] [] (secure-Negotiates [] []) (peer-Connects [] []) (omega arith)

secure-Describes : Describes secure held 16
secure-Describes = record {
  inquires = λ _. refl;
  has_flags = λ _. refl;
  limits = λ _ _ _. refl;
  displays = λ _ _. refl;
}

abbrev connected_trace : Trace
connected_trace = trace_of (connect_to_server peer (b'h' ∷ []) (b'1' ∷ []) [])

call_server-serve_example :
    (u u' : Trace) × (call_server peer secure 9
        (b'h' ∷ [])
        (b'1' ∷ [])
        none
        service
        message
        false
        []
      ≡ done success u)
    × (serve peer secure 9 4 6 false [] ≡ done success u')
    × ((protocol u).verified ≡ some (held, message ++ (0 ∷ []), complete))
    × (newest_mic u' ≡ some (held', message ++ (0 ∷ []), token))
unfolding connect_to_server try_addresses print_found_address
call_server-serve_example =
    call_server-serve peer peer secure secure 9 3 4 service 6 held held' token 16 message token
      connected_trace [] (b'h' ∷ []) (b'1' ∷ []) [] refl (secure-Negotiates connected_trace [])
      (peer-Connects connected_trace []) secure-Describes
      (λ x y m. (secure-Agrees x y, peer-Delivers x y)) (omega arith)
