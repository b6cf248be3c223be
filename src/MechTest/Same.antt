-- ===== src/MechTest/Same.antt =====
-- How the functions of application/gssapi/test.c compare with those of utils.c.
use kerberos.Base.{
  ℕ, ◌+◌, Bool, ◌≡◌, ◌≢◌, refl, Option, none, some, List, [], ◌∷◌, true, false, arith,
}
use kerberos.World.{Bytes, Oid, Event, Trace, Gss, done, Run}
use kerberos.Display.{print_octets, print_oid}
use kerberos.Mechs.{
  MechOid, available_mechs, find_mech, test_mech_str, Support, supported, unsupported, query_failed,
  test_mech_oid, print_each, spnego_mech_oid,
}
use kerberos.Mechs
use kerberos.MechTest.{
  spnego, print_each_octet, print_mech, print_each_mech, find_available, test_available_mech,
  print_verdict, print_mechs, test_mech,
}

print_each_octet-print_octets :
    (oid : Oid) (t : Trace) → print_each_octet oid t ≡ print_octets oid t
unfolding print_each_octet print_octets
print_each_octet-print_octets [] t = refl
print_each_octet-print_octets (octet ∷ rest) t = print_each_octet-print_octets rest _

print_mech-print_oid : (oid : Oid) (t : Trace) → print_mech oid t ≡ print_oid oid t
unfolding print_mech print_oid
print_mech-print_oid oid t = rw print_each_octet-print_octets

-- The run that answers what was found, and says so if it is nothing.
pub told : Option Oid → Trace → Run (Option Oid)
told none t = done none (Event.printf "NOT FOUND\n" [] ∷ t)
told (some oid) t = done (some oid) t

find_available-find_mech :
    (entries : List MechOid) (name : Bytes) (t : Trace)
    → find_available entries name t ≡ told (find_mech entries name) t
unfolding find_available find_mech told
find_available-find_mech [] name t = refl
find_available-find_mech (entry ∷ rest) name t = grind (arith, find_available-find_mech rest name t)

-- Whether support is claimed.
abbrev pub claims : Support → Bool
claims supported = true
claims unsupported = false
claims query_failed = false

module _ (gss : Gss) (fuel : ℕ) where
  print_each_mech-print_each :
      (i : ℕ) (oids : List Oid) (t : Trace)
      → print_each_mech i oids t ≡ print_each gss fuel i oids t
  unfolding print_each_mech print_each
  print_each_mech-print_each i [] t = refl
  print_each_mech-print_each i (oid ∷ rest) t =
      grind (arith, print_mech-print_oid, print_each_mech-print_each (i + 1) rest)

  -- `print_mechs` of test.c and `print_mechs` of utils.c make the same calls and print the same
  -- lines.
  pub print_mechs-same : (t : Trace) → print_mechs gss fuel t ≡ Mechs.print_mechs gss fuel t
  unfolding print_mechs Mechs.print_mechs
  print_mechs-same t = grind (arith, print_each_mech-print_each 0)

  -- The trace behind the two queries.
  abbrev pub queried : Trace → Trace
  queried t =
      let r = gss.indicate_mechs t in
      let v = Event.gss_indicate_mechs r ∷ t in
      Event.gss_test_oid_set_member spnego r.mechs (gss.test_oid_set_member v spnego r.mechs) ∷ v

  abbrev Agrees : Trace → Run Support → Type 0
  Agrees t (done supported u) =
      (u ≡ Event.gss_release_oid_set (gss.indicate_mechs t).mechs ∷ queried t)
      × (test_mech gss fuel t ≡ print_verdict true (queried t))
  Agrees t (done unsupported u) =
      (u ≡ Event.gss_release_oid_set (gss.indicate_mechs t).mechs ∷ queried t)
      × (test_mech gss fuel t ≡ print_verdict false (queried t))
  Agrees t _ = Unit

  test_mech_oid-Agrees : (t : Trace) → Agrees t (test_mech_oid gss fuel spnego_mech_oid t)
  unfolding test_mech_oid test_mech
  test_mech_oid-Agrees t = grind arith

  -- If `test_mech_oid` of utils.c, asked for SPNEGO, returns 1 or 0, it has made its two queries
  -- and released the set of mechanisms, and `test_mech` of test.c makes the same two queries,
  -- prints the verdict that this result means, and does no more: the set is not released.
  pub test_mech-test_mech_oid :
      (t u : Trace) (s : Support)
      → test_mech_oid gss fuel spnego_mech_oid t ≡ done s u
      → s ≢ query_failed
      → (u ≡ Event.gss_release_oid_set (gss.indicate_mechs t).mechs ∷ queried t)
        × (test_mech gss fuel t ≡ print_verdict (claims s) (queried t))
  test_mech-test_mech_oid t u supported run ok = rw run at (test_mech_oid-Agrees t)
  test_mech-test_mech_oid t u unsupported run ok = rw run at (test_mech_oid-Agrees t)
  test_mech-test_mech_oid t u query_failed run ok = absurd (ok refl)

-- `test_available_mech` of test.c returns what `test_mech_str` of utils.c returns, and prints that
-- a name is not found exactly if that is NULL.
pub test_available_mech-test_mech_str :
    (name : Bytes) (t : Trace) → test_available_mech name t ≡ told (test_mech_str name) t
unfolding test_available_mech test_mech_str
test_available_mech-test_mech_str name t = find_available-find_mech available_mechs name t
