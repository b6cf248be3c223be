-- ===== src/Decoder/Exits.antt =====
-- How main of gssapi-parser/decoder.c ends.
use kerberos.Base.{
  ℕ, ◌≡◌, refl, ap, ◌⊎◌, inl, inr, Bool, true, false, ◌||◌, Option, none, some, List, [], ◌∷◌,
  arith, bytes_eq,
}
use kerberos.World.{
  Bytes, Event, Trace, Schema, Os, Asn, Run, done, exited, fault, hung, and_then, asn_struct_free,
  pure,
}
use kerberos.Decoder.{
  gssapi_word, spnego_word, usage, parse_spnego, parse_gssapi, dispatch, decode_file, main,
}
use kerberos.Decoder.Printed.{print_bytes-prints}

-- Whether the newest `ber_decode` returned RC_OK.
unfoldable pub newest_decode : Trace → Option Bool
newest_decode [] = none
newest_decode (Event.ber_decode _ _ r ∷ t) = some r.is_ok
newest_decode (_ ∷ t) = newest_decode t

-- A parser that returns has decoded; otherwise it exits with 1.
abbrev Decodes : Run (Unit {0}) → Type 0
Decodes (done _ u) = newest_decode u ≡ some true
Decodes (exited n u) = n ≡ 1
Decodes fault = ⊥
Decodes hung = ⊥

Decodes-free :
    (schema : Schema) (r : Run (Unit {0}))
    → Decodes r
    → Decodes (and_then r (λ _. asn_struct_free schema))
unfolding newest_decode
Decodes-free schema (done _ u) h = h
Decodes-free schema (exited n u) h = h
Decodes-free schema fault h = h
Decodes-free schema hung h = h

module _ (asn : Asn) where
  parse_spnego-Decodes : (buffer : Bytes) (t : Trace) → Decodes (parse_spnego asn buffer t)
  unfolding parse_spnego newest_decode
  parse_spnego-Decodes buffer t = let (u, e, _, _) = print_bytes-prints buffer t in grind (arith, e)

  parse_gssapi-Decodes : (buffer : Bytes) (t : Trace) → Decodes (parse_gssapi asn buffer t)
  unfolding parse_gssapi newest_decode
  parse_gssapi-Decodes buffer t = grind (arith, parse_spnego-Decodes, Decodes-free)

-- Whether the third argument names a parser.
abbrev pub names_parser : List Bytes → Bool
names_parser (_ ∷ _ ∷ kind ∷ _) = bytes_eq gssapi_word kind || bytes_eq spnego_word kind
names_parser _ = false

-- A program that returns 0 has decoded, if a parser is named; otherwise it exits with 1.
abbrev Exits : Bool → Run ℕ → Type 0
Exits named (done n u) = (n ≡ 0) × ((named ≡ false) ⊎ (newest_decode u ≡ some true))
Exits named (exited n u) = n ≡ 1
Exits named fault = ⊥
Exits named hung = ⊥

Exits-of_Decodes :
    (named : Bool) (r : Run (Unit {0})) → Decodes r → Exits named (and_then r (λ _. pure 0))
Exits-of_Decodes named (done _ u) h = (refl, inr h)
Exits-of_Decodes named (exited n u) h = h
Exits-of_Decodes named fault h = h
Exits-of_Decodes named hung h = h

dispatch-Exits :
    (asn : Asn) (prog kind buff : Bytes) (t : Trace)
    → Exits
        (bytes_eq gssapi_word kind || bytes_eq spnego_word kind)
        (and_then (dispatch asn prog kind buff t) (λ _. pure 0))
unfolding dispatch usage
dispatch-Exits asn prog kind buff t =
    grind
      (arith, Exits-of_Decodes, parse_gssapi-Decodes asn buff t, parse_spnego-Decodes asn buff t)

module _ (os : Os) (asn : Asn) where
  main-Exits : (argv : List Bytes) (t : Trace) → Exits (names_parser argv) (main os asn argv t)
  unfolding main decode_file usage
  main-Exits (prog ∷ filename ∷ kind ∷ _) t = grind (arith, dispatch-Exits asn prog kind)
  main-Exits (prog ∷ _ ∷ []) t = refl
  main-Exits (prog ∷ []) t = refl
  main-Exits [] t = refl

  ended :
      (named : Bool) (r : Run ℕ)
      → Exits named r
      → ((u : Trace) × (r ≡ exited 1 u))
        ⊎ ((u : Trace) × (r ≡ done 0 u) × ((named ≡ false) ⊎ (newest_decode u ≡ some true)))
  ended named (done n u) h = inr (u, ap (λ m. done m u) h.0, h.1)
  ended named (exited n u) h = inl (u, ap (λ m. exited m u) h)
  ended named fault h = absurd h
  ended named hung h = absurd h

  -- Whatever the file and the codec, `main` of the decoder exits with 1 or returns 0, without an
  -- access outside of a buffer; if it returns, the third of its arguments names no parser, or the
  -- newest ber_decode returned RC_OK.
  pub main-newest_decode :
      (argv : List Bytes) (t : Trace)
      → ((u : Trace) × (main os asn argv t ≡ exited 1 u))
        ⊎ ((u : Trace) × (main os asn argv t ≡ done 0 u)
            × ((names_parser argv ≡ false) ⊎ (newest_decode u ≡ some true)))
  main-newest_decode argv t = ended (names_parser argv) _ (main-Exits argv t)
