-- ===== src/Client/Call/Plain.antt =====
-- The choice of a mechanism in call_server of application/gssapi/client.c, as a sequence of plain
-- calls.
use kerberos.Base.{ℕ, ◌≡◌, refl, Option, none, some, List, [], ◌∷◌, arith, if◌then◌else◌}
use kerberos.World.{
  Bytes, Status, success, failure, Oid, MechsReply, MemberReply, Event, Trace, Os, Gss, Prog, pure,
  printf, ◌>>=◌, ◌>>◌, IgnoresInput, Keeps,
}
use kerberos.Display.Plain.{display_status-KeepsInput}
use kerberos.Mechs.{test_mech_str, test_mech_oid, denies, translate_mech_to_oid}
use kerberos.Client.Call.{request_mech}

-- `f` is not read off the queries about mechanisms.
pub record IgnoresMechs {C : Type 0} (f : Trace → C) : Type 0 where
  pub indicate : (r : MechsReply) (t : Trace) → f (Event.gss_indicate_mechs r ∷ t) ≡ f t
  pub member :
      (oid : Oid) (mechs : List Oid) (r : MemberReply) (t : Trace)
      → f (Event.gss_test_oid_set_member oid mechs r ∷ t) ≡ f t
  pub release_set : (mechs : List Oid) (t : Trace) → f (Event.gss_release_oid_set mechs ∷ t) ≡ f t

module _ {C : Type 0} (f : Trace → C) (I : IgnoresInput f) (M : IgnoresMechs f) (os : Os)
    (gss : Gss) (fuel : ℕ) where
  test_mech_oid-Keeps : (oid : Oid) (t : Trace) → Keeps f t (test_mech_oid gss fuel oid t)
  unfolding test_mech_oid
  test_mech_oid-Keeps oid t =
      grind (arith, display_status-KeepsInput f I gss fuel, M.indicate, M.member, M.release_set)

  found-Keeps :
      (o : Option Oid) (t : Trace)
      → Keeps f t (
          (elim o as (λ _. Prog (Status × Option Oid)) [
            | none ↦ printf "Requested mechanism in unknown\n" [] >> pure (failure, none)
            | some oid ↦ test_mech_oid gss fuel oid >>= λ s.
                if denies gss fuel s
                then printf "Desired mechanism is not supported by the implemenation\n" []
                  >> pure (failure, some oid)
                else pure (success, some oid)
          ])
            t)
  found-Keeps none t = I.printf _ _ t
  found-Keeps (some oid) t = grind (arith, test_mech_oid-Keeps, I.printf)

  pub request_mech-Keeps :
      (mech_str : Option Bytes) (t : Trace) → Keeps f t (request_mech os gss fuel mech_str t)
  unfolding request_mech translate_mech_to_oid
  request_mech-Keeps none t = refl
  request_mech-Keeps (some name) t = found-Keeps (test_mech_str name) t
