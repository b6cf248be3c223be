-- ===== src/Recording/Names.antt =====
-- The names of the recorded files fit into their array.
use kerberos.Base.{
  ℕ, zero, suc, ◌+◌, ◌-◌, ◌*◌, ◌/◌, ◌%◌, ◌≤◌, ◌<◌, ◌≡◌, refl, ◌∙◌, ap, [], ◌∷◌, ◌++◌, arith, length,
  length-append, ltb, lt→ltb, true, false, Bool-cases, inl, inr,
}
use kerberos.World.{Bytes, Trace, done}
use kerberos.Recording.{decimal_loop, decimal, token_filename}

-- The number that decimal digits stand for, behind the digits of `high`.
unfoldable pub read_decimal : ℕ → Bytes → ℕ
read_decimal high [] = high
read_decimal high (d ∷ digits) = read_decimal (high * 10 + (d - 48)) digits

-- `bound digits` is 10 to the power of `digits`.
unfoldable bound : ℕ → ℕ
bound zero = 1
bound (suc digits) = 10 * bound digits

ge_of : (n : ℕ) → ltb n 10 ≡ false → 10 ≤ n
ge_of n e = ground arith

length-decimal_loop :
    (fuel n k : ℕ) (digits : Bytes)
    → n < fuel
    → n < bound (suc k)
    → length (decimal_loop fuel n digits) ≤ suc k + length digits
unfolding decimal_loop bound
length-decimal_loop zero n k digits h b = absurd (omega arith)
length-decimal_loop (suc fuel) n zero digits h b = rw (lt→ltb n 10 (omega (arith, b))) (omega arith)
length-decimal_loop (suc fuel) n (suc k) digits h b = elim (Bool-cases (ltb n 10)) [
  | inl e ↦ rw e (omega arith)
  | inr e ↦ rw e (
      omega (
        arith,
        length-decimal_loop fuel (n / 10) k ((48 + n % 10) ∷ digits) (omega (arith, ge_of n e))
            (omega (arith, b)),
      ))
]

value-decimal_loop :
    (fuel n : ℕ) (digits : Bytes)
    → n < fuel
    → read_decimal 0 (decimal_loop fuel n digits) ≡ read_decimal n digits
unfolding decimal_loop read_decimal
value-decimal_loop zero n digits h = absurd (omega arith)
value-decimal_loop (suc fuel) n digits h = elim (Bool-cases (ltb n 10)) [
  | inl e ↦
      let d : 0 * 10 + (48 + n - 48) ≡ n = omega arith in rw e (ap (λ m. read_decimal m digits) d)
  | inr e ↦
      let d : n / 10 * 10 + (48 + n % 10 - 48) ≡ n = omega arith in
      rw e (
        value-decimal_loop fuel (n / 10) ((48 + n % 10) ∷ digits) (omega (arith, ge_of n e))
        ∙ ap (λ m. read_decimal m digits) d)
]

-- Reading the digits that are printed for a number gives the number back.
pub decimal-read_decimal : (n : ℕ) → read_decimal 0 (decimal n) ≡ n
unfolding decimal read_decimal
decimal-read_decimal n = value-decimal_loop (suc n) n [] (omega arith)

-- With a prefix of 18 bytes and a count below 100,000,000,000, the name is formed inside its array
-- of 30 bytes, and what follows the prefix reads as the count.
pub token_filename-fits :
    (prefix : Bytes) (count : ℕ) (t : Trace)
    → length prefix ≡ 18
    → count < 100000000000
    → (digits : Bytes) × (token_filename prefix count t ≡ done (prefix ++ digits) t)
      × (read_decimal 0 digits ≡ count)
unfolding token_filename decimal bound
token_filename-fits prefix count t l h =
    let d : length (decimal count) ≤ 11 =
      omega (arith, length-decimal_loop (suc count) count 10 [] (omega arith) (omega (arith, h))) in
    let e : ltb (length (prefix ++ decimal count)) 30 ≡ true =
      lt→ltb _ 30 (omega (arith, length-append prefix (decimal count), d, l)) in
    (decimal count, rw e refl, decimal-read_decimal count)
