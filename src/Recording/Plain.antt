-- ===== src/Recording/Plain.antt =====
-- Recording a token makes plain calls alone.
use kerberos.Base.{ℕ, arith}
use kerberos.World.{Bytes, Trace, Os, IgnoresInput, Keeps}
use kerberos.Recording.{token_filename, record_token}

module _ {C : Type 0} (f : Trace → C) (J : IgnoresInput f) where
  pub token_filename-Keeps :
      (prefix : Bytes) (count : ℕ) (t : Trace) → Keeps f t (token_filename prefix count t)
  unfolding token_filename
  token_filename-Keeps prefix count t = ground arith

  pub record_token-Keeps :
      (os : Os) (token filename : Bytes) (t : Trace) → Keeps f t (record_token os token filename t)
  unfolding record_token
  record_token-Keeps os token filename t = grind (arith, J.fopen, J.fwrite, J.fclose)
