-- ===== src/Tests/Programs.antt =====
-- The theorems on the command lines, on how the programs end, and on what they print, at work.
use kerberos.Base.{ℕ, zero, suc, ◌≡◌, refl, ◌⊎◌, true, false, some, List, [], ◌∷◌, ◌++◌, arith}
use kerberos.World.{
  Bytes, Getopt, Trace, Event, Os, Gss, Asn, other_status, complete, gss_code, mech_code,
  StatusValue, done, exited,
}
use kerberos.Args.{outcome}
use kerberos.Client.Args as ClientArgs
use kerberos.Server.Args as ServerArgs
use kerberos.Client.Args.Reading as ClientReading
use kerberos.Server.Args.Reading as ServerReading
use kerberos.Mechs.{spnego_name, test_mech_oid, spnego_mech_oid, test_mech_str, Support, supported}
use kerberos.Mechs
use kerberos.MechTest
use kerberos.MechTest.{test_mech, print_verdict}
use kerberos.MechTest.Same.{print_mechs-same, queried, claims, test_mech-test_mech_oid}
use kerberos.Display.{display_status}
use kerberos.Display.Order.{lines, report, display_status-report}
use kerberos.Decoder
use kerberos.Decoder.Exits.{newest_decode, names_parser, main-newest_decode}
use kerberos.Tests.{zeros, agreeable, trace_of}

-- The options `-p 1 -p 2 -r`, and three operands.
abbrev getopt : Getopt
getopt = λ text argv. (
  record { ch = b'p'; optarg = b'1' ∷ []; optopt = 0 }
      ∷ record { ch = b'p'; optarg = b'2' ∷ []; optopt = 0 }
      ∷ record { ch = b'r'; optarg = []; optopt = 0 }
      ∷ [],
  argv,
)

abbrev operands : List Bytes
operands = (b'h' ∷ []) ∷ (b's' ∷ []) ∷ (b'm' ∷ []) ∷ []

parse_args-reading_example :
    (u : Trace) × (ClientArgs.parse_args getopt operands []
      ≡ outcome (ClientReading.reading (getopt ClientArgs.option_string operands).0 operands) u)
parse_args-reading_example = ClientReading.parse_args-reading getopt operands []

parse_args-outcome_example :
    (u : Trace) × (ServerArgs.parse_args zeros getopt operands []
      ≡ outcome
          (ServerReading.reading zeros (getopt ServerArgs.option_string operands).0 operands)
          u)
parse_args-outcome_example = ServerReading.parse_args-outcome zeros getopt operands []

-- A library with two mechanisms.
abbrev two_mechs : Gss
two_mechs = record agreeable {
  indicate_mechs =
      λ t. record { major = complete; minor = 0; mechs = spnego_mech_oid ∷ (42 ∷ []) ∷ [] };
}

print_mechs-same_example : MechTest.print_mechs two_mechs 9 [] ≡ Mechs.print_mechs two_mechs 9 []
print_mechs-same_example = print_mechs-same two_mechs 9 []

abbrev tested_trace : Trace
tested_trace = trace_of (test_mech_oid two_mechs 9 spnego_mech_oid [])

test_mech-test_mech_oid_example :
    (tested_trace
      ≡ Event.gss_release_oid_set (spnego_mech_oid ∷ (42 ∷ []) ∷ []) ∷ queried two_mechs 9 [])
    × (test_mech two_mechs 9 [] ≡ print_verdict (claims supported) (queried two_mechs 9 []))
unfolding test_mech_oid
test_mech-test_mech_oid_example =
    test_mech-test_mech_oid two_mechs 9 [] tested_trace supported refl (λ e. cc)

-- The texts for a status and a message context: two for the status of the GSS-API, and an empty one
-- for that of the mechanism.
abbrev status_text : StatusValue → ℕ → Bytes
status_text (gss_code _) zero = b'a' ∷ []
status_text (gss_code _) (suc _) = b'b' ∷ []
status_text (mech_code _) _ = []

abbrev status_more : StatusValue → ℕ → ℕ
status_more (gss_code _) zero = 1
status_more (gss_code _) (suc _) = 0
status_more (mech_code _) _ = 0

abbrev talkative : Gss
talkative = record agreeable {
  display_status = λ t value more. record {
    major = complete;
    more = status_more value more;
    text = status_text value more;
  };
}

display_status-report_example :
    (u : Trace) × (display_status talkative 9 "call" (other_status 1) 2 [] ≡ done tt u)
    × (lines u
        ≡ report talkative "call" (mech_code 2) ([] ∷ [])
          ++ (report talkative "call" (gss_code (other_status 1)) ((b'a' ∷ []) ∷ (b'b' ∷ []) ∷ [])
              ++ []))
unfolding lines
display_status-report_example =
    display_status-report talkative 9 "call" (other_status 1) 2 (b'a' ∷ []) [] ((b'b' ∷ []) ∷ []) []
      [] (refl, refl, omega arith, (refl, refl, refl)) (λ u _. (refl, refl, refl)) (omega arith)
      (omega arith)

-- A file of two bytes.
abbrev file : Os
file = record zeros { fread = λ t count. 1 ∷ 2 ∷ [] }

abbrev decodes : Asn
decodes = record {
  ber_decode = λ t schema bytes. record {
    is_ok = true;
    consumed = 2;
    this_mech = spnego_mech_oid;
    inner = bytes;
  };
}

abbrev decoder_arguments : List Bytes
decoder_arguments = (b'd' ∷ []) ∷ (b'f' ∷ []) ∷ Decoder.gssapi_word ∷ []

main-newest_decode_example :
    ((u : Trace) × (Decoder.main file decodes decoder_arguments [] ≡ exited 1 u))
    ⊎ ((u : Trace) × (Decoder.main file decodes decoder_arguments [] ≡ done 0 u)
        × ((names_parser decoder_arguments ≡ false) ⊎ (newest_decode u ≡ some true)))
main-newest_decode_example = main-newest_decode file decodes decoder_arguments []
