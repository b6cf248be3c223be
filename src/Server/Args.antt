-- ===== src/Server/Args.antt =====
-- usage and parse_args of application/gssapi/server.c.
pub mod Reading
use kerberos.Base.{ℕ, Bool, true, false, Option, none, some, List, [], ◌∷◌, ◌==◌, if◌then◌else◌}
use kerberos.World.{Bytes, Opt, Getopt, Os, Prog, pure, exit, ◌>>=◌, ◌>>◌, printf}

-- The variables of `main` that the options set.
pub record Options : Type 0 where
  pub port : ℕ
  pub mech : Option Bytes
  pub record_tokens : Bool

pub record Arguments : Type 0 where
  pub options : Options
  pub service : Bytes

unfoldable pub usage : Prog (Unit {0})
usage = printf "server -p <port> [-m <mech>] [-r] service\n" []

abbrev pub defaults : Options
defaults = record { port = 0; mech = none; record_tokens = false }

-- "p:m:r"
abbrev pub option_string : Bytes
option_string = b'p' ∷ b':' ∷ b'm' ∷ b':' ∷ b'r' ∷ []

unfoldable pub take_operands : Options → List Bytes → Prog Arguments
take_operands options operands = if options.port == 0 then usage >> exit 1 else elim operands [
  | [] ↦ usage >> exit 1
  | service ∷ _ ↦ pure (record { options = options; service = service })
]

module _ (os : Os) where
  -- One round of the loop over the options.
  unfoldable pub apply_option : Opt → Options → Prog Options
  apply_option o options =
      if o.ch == b'p'
      then pure (record options { port = os.atoi o.optarg })
      else if o.ch == b'm'
      then pure (record options { mech = some o.optarg })
      else if o.ch == b'r'
      then pure (record options { record_tokens = true })
      else if o.ch == b'?'
      then (if o.optopt == b'p' then printf "option p requires an argumet\n" [] else pure tt)
        >> (if o.optopt == b'm' then printf "option m requires an argument\n" [] else pure tt)
        >> pure options
      else pure options

  unfoldable pub apply_options : List Opt → Options → Prog Options
  apply_options [] options = pure options
  apply_options (o ∷ rest) options = apply_option o options >>= apply_options rest

  unfoldable pub parse_args : Getopt → List Bytes → Prog Arguments
  parse_args getopt argv =
      let (opts, operands) = getopt option_string argv in
      apply_options opts defaults >>= λ options. take_operands options operands
