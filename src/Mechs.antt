-- ===== src/Mechs.antt =====
-- application/gssapi/utils.h and utils.c: the mechanisms known by name, and the test of what the
-- GSS-API implementation supports; translate_mech_to_oid of application/gssapi/client.c.
pub mod Translated
use kerberos.Base.{
  ℕ, zero, suc, ◌+◌, Bool, true, false, not, Option, none, some, List, [], ◌∷◌, if◌then◌else◌,
  bytes_eq, length,
}
use kerberos.World.{
  Argument, Bytes, Status, success, failure, Oid, Gss, Prog, pure, ◌>>=◌, ◌>>◌, printf,
  gss_indicate_mechs, gss_test_oid_set_member, gss_release_oid_set,
}
use kerberos.Display.{is_complete, display_status, print_oid}

pub record MechOid : Type 0 where
  pub name : Bytes
  pub oid : Oid

abbrev pub spnego_mech_oid : Oid
spnego_mech_oid = 0x2b ∷ 0x06 ∷ 0x01 ∷ 0x05 ∷ 0x05 ∷ 0x02 ∷ []

abbrev pub krbv5_mech_oid : Oid
krbv5_mech_oid = 0x2a ∷ 0x86 ∷ 0x48 ∷ 0x86 ∷ 0xf7 ∷ 0x12 ∷ 0x1 ∷ 0x2 ∷ 0x2 ∷ []

-- "kerberos" and "spnego"
abbrev pub kerberos_name : Bytes
kerberos_name = b'k' ∷ b'e' ∷ b'r' ∷ b'b' ∷ b'e' ∷ b'r' ∷ b'o' ∷ b's' ∷ []

abbrev pub spnego_name : Bytes
spnego_name = b's' ∷ b'p' ∷ b'n' ∷ b'e' ∷ b'g' ∷ b'o' ∷ []

abbrev pub available_mechs : List MechOid
available_mechs =
    record { name = kerberos_name; oid = krbv5_mech_oid }
    ∷ record { name = spnego_name; oid = spnego_mech_oid }
    ∷ []

-- The loop of `test_mech_str` over the entries that are left.
unfoldable pub find_mech : List MechOid → Bytes → Option Oid
find_mech [] requested_mech = none
find_mech (entry ∷ rest) requested_mech =
    if bytes_eq entry.name requested_mech then some entry.oid else find_mech rest requested_mech

-- `none` is NULL.
unfoldable pub test_mech_str : Bytes → Option Oid
test_mech_str requested_mech = find_mech available_mechs requested_mech

-- The values of `test_mech_oid`: 1, 0 and -1.
pub data Support : Type 0 where
  supported unsupported query_failed : Support

module _ (gss : Gss) (fuel : ℕ) where
  unfoldable pub test_mech_oid : Oid → Prog Support
  test_mech_oid mech_oid = gss_indicate_mechs gss >>= λ r.
      if not (is_complete r.major)
      then display_status gss fuel "gss_indicate_mechs" r.major r.minor >> pure query_failed
      else gss_test_oid_set_member gss mech_oid r.mechs >>= λ m.
          if not (is_complete m.major)
          then display_status gss fuel "gss_test_oid_set_member" m.major m.minor
            >> pure query_failed
          else gss_release_oid_set r.mechs >> pure (if m.present then supported else unsupported)

  -- `!test_mech_oid(oid)`: C takes -1 for true as well.
  abbrev pub denies : Support → Bool
  denies supported = false
  denies unsupported = true
  denies query_failed = false

  -- The loop of `print_mechs` over the mechanisms that are left, the next one at index `i`.
  unfoldable pub print_each : ℕ → List Oid → Prog (Unit {0})
  print_each i [] = pure tt
  print_each i (oid ∷ rest) =
      printf "mech number: %d\n" (Argument.number i ∷ [])
      >> print_oid oid
      >> print_each (i + 1) rest

  unfoldable pub print_mechs : Prog (Unit {0})
  print_mechs = gss_indicate_mechs gss >>= λ r.
      if not (is_complete r.major)
      then display_status gss fuel "gss_indicate_mechs" r.major r.minor
      else printf "number of mechs: %lu\n" (Argument.number (length r.mechs) ∷ [])
        >> print_each 0 r.mechs
        >> gss_release_oid_set r.mechs

  -- The result is the return value and `*res_oid`.
  unfoldable pub translate_mech_to_oid : Bytes → Prog (Status × Option Oid)
  translate_mech_to_oid mech_str = elim (test_mech_str mech_str) [
    | none ↦ printf "Requested mechanism in unknown\n" [] >> pure (failure, none)
    | some oid ↦ test_mech_oid oid >>= λ s.
        if denies s
        then printf "Desired mechanism is not supported by the implemenation\n" []
          >> pure (failure, some oid)
        else pure (success, some oid)
  ]
