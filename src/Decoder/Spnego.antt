-- ===== src/Decoder/Spnego.antt =====
-- check_if_spnego of gssapi-parser/decoder.c compares with the object identifier of SPNEGO.
use kerberos.Base.{◌≡◌, refl, ◌↔◌, true, [], ◌∷◌, arith, length}
use kerberos.World.{Oid}
use kerberos.Decoder.{spnego_oid, same_octets, check_if_spnego}

eq_of_same_octets : (a b : Oid) → length b ≡ length a → same_octets a b ≡ true → b ≡ a
unfolding same_octets
eq_of_same_octets [] [] l h = refl
eq_of_same_octets [] (y ∷ ys) l h = absurd (omega arith)
eq_of_same_octets (x ∷ xs) [] l h = cc
eq_of_same_octets (x ∷ xs) (y ∷ ys) l h = ground (arith, eq_of_same_octets xs ys)

-- `check_if_spnego` accepts an object identifier exactly if its octets are those of 1.3.6.1.5.5.2.
pub check_if_spnego-spnego_oid : (oid : Oid) → (check_if_spnego oid ≡ true) ↔ (oid ≡ spnego_oid)
unfolding check_if_spnego same_octets
check_if_spnego-spnego_oid oid = (there, back)
  where
    there : check_if_spnego oid ≡ true → oid ≡ spnego_oid
    there h = ground (arith, eq_of_same_octets spnego_oid oid)

    back : oid ≡ spnego_oid → check_if_spnego oid ≡ true
    back e = rw e refl
