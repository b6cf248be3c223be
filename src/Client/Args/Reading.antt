-- ===== src/Client/Args/Reading.antt =====
-- parse_args of application/gssapi/client.c against a plain reading of the command line.
use kerberos.Base.{◌≡◌, refl, ◌||◌, Option, none, List, [], ◌∷◌, arith}
use kerberos.World.{Bytes, Opt, Getopt, Trace}
use mathlib.Core.Option
use kerberos.Args.{first_of, last_arg, given, Gives, Gives-bind, outcome, Meets, outcome-of_Meets}
use kerberos.Client.Args.{
  Options, Arguments, usage, apply_option, apply_options, defaults, take_operands, option_string,
  parse_args,
}

-- The options on top of those that were set before.
abbrev settle : List Opt → Options → Options
settle opts options = record {
  port = first_of (last_arg b'p' opts) options.port;
  delegate = given b'd' opts || options.delegate;
  mech = first_of (last_arg b'm' opts) options.mech;
  record_tokens = given b'r' opts || options.record_tokens;
}

apply_option-settle :
    (o : Opt) (options : Options) (t : Trace)
    → Gives (settle (o ∷ []) options) (apply_option o options t)
unfolding apply_option last_arg given
apply_option-settle o options t = grind arith

settle-settle :
    (o : Opt) (rest : List Opt) (options : Options)
    → settle rest (settle (o ∷ []) options) ≡ settle (o ∷ rest) options
unfolding last_arg given
settle-settle o rest options = grind arith

apply_options-settle :
    (opts : List Opt) (options : Options) (t : Trace)
    → Gives (settle opts options) (apply_options opts options t)
unfolding apply_options last_arg given
apply_options-settle [] options t = refl
apply_options-settle (o ∷ rest) options t =
    Gives-bind _ (apply_option o options t) (apply_options rest) (Gives (settle (o ∷ rest) options))
      (apply_option-settle o options t)
      (λ u.
        rw (settle-settle o rest options) at
          (apply_options-settle rest (settle (o ∷ []) options) u))

-- The arguments that a command line stands for: none without a port, or with fewer than three
-- operands.
abbrev pub reading : List Opt → List Bytes → Option Arguments
reading opts (host ∷ service ∷ message ∷ _) =
    Option.map
      (λ port. record {
        options = settle opts defaults;
        port = port;
        host = host;
        service = service;
        message = message;
      })
      (last_arg b'p' opts)
reading opts _ = none

take_operands-reading :
    (opts : List Opt) (operands : List Bytes) (t : Trace)
    → Meets (reading opts operands) (take_operands (settle opts defaults) operands t)
unfolding take_operands usage
take_operands-reading opts (host ∷ service ∷ message ∷ _) t = grind arith
take_operands-reading opts (host ∷ service ∷ []) t = refl
take_operands-reading opts (host ∷ []) t = refl
take_operands-reading opts [] t = refl

-- `parse_args` of the client ends as a plain reading of the answers of getopt says: it exits with
-- 1 if there is no -p or there are fewer than three operands, and otherwise returns the argument
-- of the last -p, the one of the last -m, whether -d and -r are given, and the first three
-- operands.
pub parse_args-reading :
    (getopt : Getopt) (argv : List Bytes) (t : Trace)
    → (u : Trace) × (parse_args getopt argv t
        ≡ outcome (reading (getopt option_string argv).0 (getopt option_string argv).1) u)
unfolding parse_args
parse_args-reading getopt argv t =
    let (opts, operands) = getopt option_string argv in
    outcome-of_Meets (reading opts operands) _ (
      Gives-bind _ (apply_options opts defaults t) (λ options. take_operands options operands)
        (Meets (reading opts operands)) (apply_options-settle opts defaults t)
        (take_operands-reading opts operands))
