-- ===== src/Server/Args/Reading.antt =====
-- parse_args of application/gssapi/server.c against a plain reading of the command line.
use mathlib.Core.Option
use kerberos.Base.{◌≡◌, refl, ◌||◌, Option, none, some, List, [], ◌∷◌, ◌==◌, arith, if◌then◌else◌}
use kerberos.World.{Bytes, Opt, Getopt, Os, Trace}
use kerberos.Args.{first_of, last_arg, given, Gives, Gives-bind, outcome, Meets, outcome-of_Meets}
use kerberos.Server.Args.{
  Options, Arguments, usage, apply_option, apply_options, defaults, take_operands, option_string,
  parse_args,
}

module _ (os : Os) where
  -- The options on top of those that were set before.
  abbrev settle : List Opt → Options → Options
  settle opts options = record {
    port = Option.get_or (Option.map os.atoi (last_arg b'p' opts)) options.port;
    mech = first_of (last_arg b'm' opts) options.mech;
    record_tokens = given b'r' opts || options.record_tokens;
  }

  apply_option-settle :
      (o : Opt) (options : Options) (t : Trace)
      → Gives (settle (o ∷ []) options) (apply_option os o options t)
  unfolding apply_option last_arg given
  apply_option-settle o options t = grind arith

  settle-settle :
      (o : Opt) (rest : List Opt) (options : Options)
      → settle rest (settle (o ∷ []) options) ≡ settle (o ∷ rest) options
  unfolding last_arg given
  settle-settle o rest options = grind arith

  apply_options-settle :
      (opts : List Opt) (options : Options) (t : Trace)
      → Gives (settle opts options) (apply_options os opts options t)
  unfolding apply_options last_arg given
  apply_options-settle [] options t = refl
  apply_options-settle (o ∷ rest) options t =
      Gives-bind _ (apply_option os o options t) (apply_options os rest)
        (Gives (settle (o ∷ rest) options)) (apply_option-settle o options t)
        (λ u.
          rw (settle-settle o rest options) at
            (apply_options-settle rest (settle (o ∷ []) options) u))

  -- The arguments that a command line stands for: none without an operand, or if the last -p is
  -- missing or reads as 0.
  abbrev pub reading : List Opt → List Bytes → Option Arguments
  reading opts [] = none
  reading opts (service ∷ _) =
      let options = settle opts defaults in
      if options.port == 0 then none else some (record { options = options; service = service })

  take_operands-reading :
      (opts : List Opt) (operands : List Bytes) (t : Trace)
      → Meets (reading opts operands) (take_operands (settle opts defaults) operands t)
  unfolding take_operands usage
  take_operands-reading opts [] t = grind arith
  take_operands-reading opts (service ∷ _) t = grind arith

  -- `parse_args` of the server ends as a plain reading of the answers of getopt says: it exits
  -- with 1 if there is no operand or the last -p is missing or reads as 0, and otherwise returns
  -- the number of the last -p, the argument of the last -m, whether -r is given, and the first
  -- operand.
  pub parse_args-outcome :
      (getopt : Getopt) (argv : List Bytes) (t : Trace)
      → (u : Trace) × (parse_args os getopt argv t
          ≡ outcome (reading (getopt option_string argv).0 (getopt option_string argv).1) u)
  unfolding parse_args
  parse_args-outcome getopt argv t =
      let (opts, operands) = getopt option_string argv in
      outcome-of_Meets (reading opts operands) _ (
        Gives-bind _ (apply_options os opts defaults t) (λ options. take_operands options operands)
          (Meets (reading opts operands)) (apply_options-settle opts defaults t)
          (take_operands-reading opts operands))
