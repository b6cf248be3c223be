-- ===== src/Mechs/Translated.antt =====
-- Which mechanisms translate_mech_to_oid of application/gssapi/client.c lets through.
use kerberos.Base.{
  ℕ, ◌≡◌, refl, ◌⊎◌, true, false, Option, none, some, [], ◌∷◌, arith, eq_of_bytes_eq, if◌then◌else◌,
}
use kerberos.World.{
  Bytes, Status, success, failure, Oid, Event, Trace, Gss, Run, done, exited, fault, hung, Prog,
  and_then, pure, printf, ◌>>=◌, ◌>>◌,
}
use kerberos.Display.{is_complete}
use kerberos.Mechs.{
  krbv5_mech_oid, spnego_mech_oid, kerberos_name, spnego_name, test_mech_str, find_mech, Support,
  supported, unsupported, query_failed, denies, test_mech_oid, translate_mech_to_oid,
}

-- test_mech_str knows exactly two names: "kerberos", with the identifier of Kerberos 5, and
-- "spnego", with the identifier of SPNEGO.
pub test_mech_str-known :
    (name : Bytes) (oid : Oid)
    → test_mech_str name ≡ some oid
    → ((name ≡ kerberos_name) × (oid ≡ krbv5_mech_oid))
      ⊎ ((name ≡ spnego_name) × (oid ≡ spnego_mech_oid))
unfolding test_mech_str find_mech
test_mech_str-known name oid h =
    ground (arith, eq_of_bytes_eq kerberos_name name, eq_of_bytes_eq spnego_name name)

-- Support for a mechanism is claimed, or one of the two queries failed.
abbrev Queried : Gss → Oid → Trace → Type 0
Queried gss oid t =
    let r = gss.indicate_mechs t in
    let m = gss.test_oid_set_member (Event.gss_indicate_mechs r ∷ t) oid r.mechs in
    (is_complete r.major ≡ false) ⊎ ((is_complete m.major ≡ false) ⊎ (m.present ≡ true))

module _ (gss : Gss) (fuel : ℕ) where
  abbrev Answers : Oid → Trace → Run Support → Type 0
  Answers oid t (done supported u) = Queried gss oid t
  Answers oid t (done unsupported u) = Unit
  Answers oid t (done query_failed u) = Queried gss oid t
  Answers oid t (exited n u) = Unit
  Answers oid t fault = Unit
  Answers oid t hung = Unit

  test_mech_oid-Answers : (oid : Oid) (t : Trace) → Answers oid t (test_mech_oid gss fuel oid t)
  unfolding test_mech_oid
  test_mech_oid-Answers oid t = grind arith

  -- translate_mech_to_oid with the name already looked up.
  abbrev Translates : Bytes → Trace → Run (Status × Option Oid) → Type 0
  Translates name t (done (success, o) u) =
      (oid : Oid) × (o ≡ some oid) × (test_mech_str name ≡ some oid) × Queried gss oid t
  Translates name t (done (failure, o) u) = Unit
  Translates name t (exited n u) = Unit
  Translates name t fault = Unit
  Translates name t hung = Unit

  Translates-of_Answers :
      (name : Bytes) (oid : Oid) (t : Trace) (r : Run Support)
      (k : Support → Prog (Status × Option Oid))
      → test_mech_str name ≡ some oid
      → Answers oid t r
      → ((u : Trace) → Translates name t (k unsupported u))
      → ((s : Support) (u : Trace) → Queried gss oid t → Translates name t (k s u))
      → Translates name t (and_then r k)
  Translates-of_Answers name oid t (done supported u) k e h f g = g supported u h
  Translates-of_Answers name oid t (done unsupported u) k e h f g = f u
  Translates-of_Answers name oid t (done query_failed u) k e h f g = g query_failed u h
  Translates-of_Answers name oid t (exited n u) k e h f g = tt
  Translates-of_Answers name oid t fault k e h f g = tt
  Translates-of_Answers name oid t hung k e h f g = tt

  -- What follows the lookup of the name.
  found-Translates :
      (name : Bytes) (o : Option Oid) (t : Trace)
      → test_mech_str name ≡ o
      → Translates name t (
          (elim o as (λ _. Prog (Status × Option Oid)) [
            | none ↦ printf "Requested mechanism in unknown\n" [] >> pure (failure, none)
            | some oid ↦ test_mech_oid gss fuel oid >>= λ s.
                if denies gss fuel s
                then printf "Desired mechanism is not supported by the implemenation\n" []
                  >> pure (failure, some oid)
                else pure (success, some oid)
          ])
            t)
  found-Translates name none t e = tt
  found-Translates name (some oid) t e =
      Translates-of_Answers name oid t (test_mech_oid gss fuel oid t) _ e
        (test_mech_oid-Answers oid t) (λ u. tt)
        (elim [
          | supported ↦ λ u q. (oid, refl, e, q)
          | unsupported ↦ λ u q. tt
          | query_failed ↦ λ u q. (oid, refl, e, q)
        ])

  translate_mech_to_oid-Translates :
      (name : Bytes) (t : Trace) → Translates name t (translate_mech_to_oid gss fuel name t)
  unfolding translate_mech_to_oid
  translate_mech_to_oid-Translates name t = found-Translates name (test_mech_str name) t refl

  -- If `translate_mech_to_oid` returns 0, the name is "kerberos" or "spnego", the result is the
  -- identifier of that mechanism, and gss_indicate_mechs did not return GSS_S_COMPLETE, or
  -- gss_test_oid_set_member did not, or gss_test_oid_set_member found the identifier among the
  -- mechanisms indicated.
  pub translate_mech_to_oid-supported :
      (name : Bytes) (o : Option Oid) (t u : Trace)
      → translate_mech_to_oid gss fuel name t ≡ done (success, o) u
      → (oid : Oid) × (o ≡ some oid)
        × (((name ≡ kerberos_name) × (oid ≡ krbv5_mech_oid))
            ⊎ ((name ≡ spnego_name) × (oid ≡ spnego_mech_oid)))
        × (let r = gss.indicate_mechs t in
            let m = gss.test_oid_set_member (Event.gss_indicate_mechs r ∷ t) oid r.mechs in
            (is_complete r.major ≡ false) ⊎ ((is_complete m.major ≡ false) ⊎ (m.present ≡ true)))
  translate_mech_to_oid-supported name o t u e =
      let (oid, same, known, q) = rw e at (translate_mech_to_oid-Translates name t) in
      (oid, same, test_mech_str-known name oid known, q)
