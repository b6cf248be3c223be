-- ===== src/MechTest.antt =====
-- application/gssapi/test.c: the test program of the mechanism functions. It has functions of its
-- own that are much like some of utils.c.
pub mod Same
use kerberos.Base.{
  ℕ, ◌+◌, Bool, true, false, not, Option, none, some, List, [], ◌∷◌, if◌then◌else◌, bytes_eq,
  length,
}
use kerberos.World.{
  Argument, Bytes, Oid, Gss, Prog, pure, ◌>>=◌, ◌>>◌, printf, gss_indicate_mechs,
  gss_test_oid_set_member, gss_release_oid_set,
}
use kerberos.Display.{is_complete, display_status}
use kerberos.Mechs.{MechOid, available_mechs, spnego_name}

-- The loop of `print_mech` over the octets that are left.
unfoldable pub print_each_octet : Oid → Prog (Unit {0})
print_each_octet [] = pure tt
print_each_octet (curr_octet ∷ rest) =
    printf "0x%x " (Argument.number curr_octet ∷ []) >> print_each_octet rest

unfoldable pub print_mech : Oid → Prog (Unit {0})
print_mech oid = do
  printf "length: %d\n" (Argument.number (length oid) ∷ [])
  printf "content: " []
  print_each_octet oid
  printf "\n" []

-- The loop of `print_mechs` over the mechanisms that are left, the next one at index `i`.
unfoldable pub print_each_mech : ℕ → List Oid → Prog (Unit {0})
print_each_mech i [] = pure tt
print_each_mech i (oid ∷ rest) = do
  printf "mech number: %d\n" (Argument.number i ∷ [])
  print_mech oid
  print_each_mech (i + 1) rest

-- The loop of `test_available_mech` over the entries that are left.
unfoldable pub find_available : List MechOid → Bytes → Prog (Option Oid)
find_available [] requested_mech = printf "NOT FOUND\n" [] >> pure none
find_available (entry ∷ rest) requested_mech =
    if bytes_eq entry.name requested_mech
    then pure (some entry.oid)
    else find_available rest requested_mech

unfoldable pub test_available_mech : Bytes → Prog (Option Oid)
test_available_mech requested_mech = find_available available_mechs requested_mech

-- The local variable `spnego` of `test_mech`.
abbrev pub spnego : Oid
spnego = 0x2b ∷ 0x06 ∷ 0x01 ∷ 0x05 ∷ 0x05 ∷ 0x02 ∷ []

-- The last line of `test_mech`.
unfoldable pub print_verdict : Bool → Prog (Unit {0})
print_verdict present =
    printf "mechanism is %s\n"
      (Argument.text (if present then "supported" else "unsuppoerted") ∷ [])

module _ (gss : Gss) (fuel : ℕ) where
  unfoldable pub print_mechs : Prog (Unit {0})
  print_mechs = gss_indicate_mechs gss >>= λ r.
      if not (is_complete r.major)
      then display_status gss fuel "gss_indicate_mechs" r.major r.minor
      else do
        printf "number of mechs: %lu\n" (Argument.number (length r.mechs) ∷ [])
        print_each_mech 0 r.mechs
        gss_release_oid_set r.mechs

  unfoldable pub test_mech : Prog (Unit {0})
  test_mech = gss_indicate_mechs gss >>= λ r.
      if not (is_complete r.major)
      then display_status gss fuel "gss_indicate_mechs" r.major r.minor
      else gss_test_oid_set_member gss spnego r.mechs >>= λ m.
          (if not (is_complete m.major)
            then display_status gss fuel "gss_test_oid_set_member" m.major m.minor
            else pure tt)
          >> print_verdict m.present

  unfoldable pub main : Prog ℕ
  main = do print_mechs; test_mech; test_available_mech spnego_name; pure 0
