-- ===== src/Client/Args.antt =====
-- usage and parse_args of application/gssapi/client.c.
pub mod Reading
use kerberos.Base.{Bool, true, false, Option, none, some, List, [], ◌∷◌, ◌==◌, if◌then◌else◌}
use kerberos.World.{Bytes, Opt, Getopt, Prog, pure, exit, ◌>>=◌, ◌>>◌, printf}

-- The variables of `main` that the options set.
pub record Options : Type 0 where
  pub port : Option Bytes
  pub delegate : Bool
  pub mech : Option Bytes
  pub record_tokens : Bool

pub record Arguments : Type 0 where
  pub options : Options
  pub port : Bytes
  pub host : Bytes
  pub service : Bytes
  pub message : Bytes

unfoldable pub usage : Prog (Unit {0})
usage = printf "client -p <port> [-r] [-d] [-m <mech>] host service [-f] message\n" []

-- One round of the loop over the options.
unfoldable pub apply_option : Opt → Options → Prog Options
apply_option o options =
    if o.ch == b'p'
    then pure (record options { port = some o.optarg })
    else if o.ch == b'd'
    then pure (record options { delegate = true })
    else if o.ch == b'm'
    then pure (record options { mech = some o.optarg })
    else if o.ch == b'r'
    then pure (record options { record_tokens = true })
    else if o.ch == b'?'
    then (if o.optopt == b'p'
        then printf "option p requires an argumet\n" [] >> pure options
        else pure options)
    else pure options

unfoldable pub apply_options : List Opt → Options → Prog Options
apply_options [] options = pure options
apply_options (o ∷ rest) options = apply_option o options >>= apply_options rest

abbrev pub defaults : Options
defaults = record { port = none; delegate = false; mech = none; record_tokens = false }

-- The tests behind the loop, on the operands.
unfoldable pub take_operands : Options → List Bytes → Prog Arguments
take_operands options (host ∷ service ∷ message ∷ _) = elim options.port [
  | none ↦ printf "You didn't provide a port\n" [] >> usage >> exit 1
  | some port ↦
      pure (record {
        options = options;
        port = port;
        host = host;
        service = service;
        message = message;
      })
]
take_operands options _ = usage >> exit 1

-- "p:m:dr"
abbrev pub option_string : Bytes
option_string = b'p' ∷ b':' ∷ b'm' ∷ b':' ∷ b'd' ∷ b'r' ∷ []

unfoldable pub parse_args : Getopt → List Bytes → Prog Arguments
parse_args getopt argv =
    let (opts, operands) = getopt option_string argv in
    apply_options opts defaults >>= λ options. take_operands options operands
