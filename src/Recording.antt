-- ===== src/Recording.antt =====
-- record_token of application/gssapi/utils.c, and the names of the files that the two programs
-- record tokens in.
pub mod Plain
pub mod Names
use kerberos.Base.{
  ℕ, zero, suc, ◌+◌, ◌/◌, ◌%◌, Bool, true, false, List, [], ◌∷◌, ◌++◌, ◌==◌, ltb, if◌then◌else◌,
  length,
}
use kerberos.World.{
  Bytes, Status, success, failure, Os, fault, Prog, pure, ◌>>=◌, ◌>>◌, fopen, fwrite, fclose,
}

-- `%d` of a count that is not negative; a number has no more digits than its value plus one.
unfoldable pub decimal_loop : ℕ → ℕ → Bytes → Bytes
decimal_loop zero n digits = digits
decimal_loop (suc fuel) n digits =
    let rest = decimal_loop fuel (n / 10) ((48 + n % 10) ∷ digits) in
    if ltb n 10 then (48 + n) ∷ digits else rest

unfoldable pub decimal : ℕ → Bytes
decimal n = decimal_loop (suc n) n []

-- `sprintf(filename, "<prefix>%d", count)` into an array of 30 bytes; a longer text is a fault.
unfoldable pub token_filename : Bytes → ℕ → Prog Bytes
token_filename prefix count =
    let name = prefix ++ decimal count in if ltb (length name) 30 then pure name else λ _. fault

module _ (os : Os) where
  -- The stream is used without a look at the result of `fopen`: a null stream is a fault.
  unfoldable pub record_token : Bytes → Bytes → Prog Status
  record_token token filename = fopen os filename >>= λ opened.
      if opened
      then (fwrite os token >>= λ written_bytes.
          fclose >> pure (if written_bytes == length token then success else failure))
      else λ _. fault
