-- ===== src/Wire/Whole.antt =====
-- What send_token of application/gssapi/utils.c sends when the kernel takes every buffer whole.
use kerberos.Base.{
  ◌^◌, ◌<◌, ℕ, zero, suc, ◌+◌, ◌≡◌, sym, ap, ◌∙◌, true, false, [], ◌∷◌, ◌++◌, append-nil,
  append_assoc, arith, ◌==◌, leb, le→leb, length, take_all,
}
use kerberos.World.{
  Bytes, Status, success, failure, wrote, Event, Trace, Os, Run, done, exited, fault, hung, Prog,
  and_then, ◌>>=◌, printf, pure, ◌>>◌,
}
use kerberos.Wire.Reads.{to_int_lem}
use kerberos.Wire.{minus_one, load_at, size_sub, write_loop, write_all, to_network, send_token}
use kerberos.Wire.Writes.{sent}
use kerberos.Wire.Tokens.{frame}

-- The kernel takes whole whatever it is given, below 2^31 bytes.
abbrev pub TakesWhole : Os → ℕ → Type 0
TakesWhole os fd =
    (t : Trace) (bytes : Bytes) → length bytes < 2 ^ 31 → os.write t fd bytes ≡ wrote (length bytes)

-- If the run returns, it has sent `bytes` and succeeds.
abbrev pub SendsBytes : ℕ → Bytes → Trace → Run Status → Type 0
SendsBytes fd bytes t (done success u) = sent fd u ≡ sent fd t ++ bytes
SendsBytes fd bytes t (done failure u) = ⊥
SendsBytes fd bytes t _ = Unit

module _ (os : Os) (fd : ℕ) (whole : TakesWhole os fd) where
  nothing_left : (n : ℕ) → size_sub n n ≡ 0
  unfolding size_sub
  nothing_left n = omega arith

  -- The first call takes all of a buffer that is not empty.
  write_loop-whole :
      (fuel b : ℕ) (rest : Bytes) (t : Trace)
      → length (b ∷ rest) < 2 ^ 31
      → write_loop os (suc fuel) fd (b ∷ rest) 0 (length (b ∷ rest)) t
        ≡ write_loop os fuel fd
            (b ∷ rest)
            (length (b ∷ rest))
            0
            (Event.write fd (b ∷ rest) (wrote (length (b ∷ rest))) ∷ t)
  unfolding write_loop load_at
  write_loop-whole fuel b rest t short =
      let all = take_all (length (b ∷ rest)) (b ∷ rest) (omega arith) in
      let test : (length (b ∷ rest) == 0) ≡ false = ground arith in
      let fits : leb (0 + length (b ∷ rest)) (length (b ∷ rest)) ≡ true =
        le→leb _ _ (omega arith) in
      let positive : (length (b ∷ rest) == minus_one) ≡ false = ground arith in
      let taken = whole t (b ∷ rest) short in
      simp (test, fits, all, taken, to_int_lem (length (b ∷ rest)) short, positive, nothing_left)

  sent-whole :
      (bytes : Bytes) (t : Trace)
      → sent fd (Event.write fd bytes (wrote (length bytes)) ∷ t) ≡ sent fd t ++ bytes
  unfolding sent
  sent-whole bytes t = grind (arith, take_all (length bytes) bytes)

  write_all-SendsBytes :
      (fuel : ℕ) (buffer : Bytes) (t : Trace)
      → length buffer < 2 ^ 31
      → SendsBytes fd buffer t (write_all os fuel fd buffer (length buffer) t)
  unfolding write_all write_loop
  write_all-SendsBytes zero buffer t short = tt
  write_all-SendsBytes (suc fuel) [] t short = sym (append-nil (sent fd t))
  write_all-SendsBytes (suc zero) (b ∷ rest) t short = rw (write_loop-whole zero b rest t short) tt
  write_all-SendsBytes (suc (suc fuel)) (b ∷ rest) t short =
      rw (write_loop-whole (suc fuel) b rest t short) (sent-whole (b ∷ rest) t)

  SendsBytes-bind :
      (bytes more : Bytes) (t : Trace) (r : Run Status) (k : Status → Prog Status)
      → SendsBytes fd bytes t r
      → ((u : Trace)
          → sent fd u ≡ sent fd t ++ bytes
          → SendsBytes fd (bytes ++ more) t (k success u))
      → SendsBytes fd (bytes ++ more) t (and_then r k)
  SendsBytes-bind bytes more t (done success u) k h g = g u h
  SendsBytes-bind bytes more t (done failure u) k h g = absurd h
  SendsBytes-bind bytes more t (exited n u) k h g = tt
  SendsBytes-bind bytes more t fault k h g = tt
  SendsBytes-bind bytes more t hung k h g = tt

  SendsBytes-from :
      (header bytes : Bytes) (t u : Trace) (r : Run Status)
      → sent fd u ≡ sent fd t ++ header
      → SendsBytes fd bytes u r
      → SendsBytes fd (header ++ bytes) t r
  SendsBytes-from header bytes t u (done success v) e h =
      h ∙ ap (λ b. b ++ bytes) e ∙ append_assoc (sent fd t) header bytes
  SendsBytes-from header bytes t u (done failure v) e h = h
  SendsBytes-from header bytes t u (exited n v) e h = tt
  SendsBytes-from header bytes t u fault e h = tt
  SendsBytes-from header bytes t u hung e h = tt

  value-SendsBytes :
      (fuel : ℕ) (token : Bytes) (t : Trace)
      → length token < 2 ^ 31
      → SendsBytes fd token t (
          (write_all os fuel fd token (length token) >>= λ st. elim st as (λ _. Prog Status) [
            | failure ↦ printf "send_token: couldn't send token value" [] >> pure failure
            | success ↦ pure success
          ])
            t)
  value-SendsBytes fuel token t short = grind (arith, write_all-SendsBytes fuel token)

  pub send_token-SendsBytes :
      (fuel : ℕ) (token : Bytes) (t : Trace)
      → length token < 2 ^ 31
      → SendsBytes fd (frame token) t (send_token os fuel fd token t)
  unfolding send_token frame write_all to_network
  send_token-SendsBytes fuel token t short =
      SendsBytes-bind (to_network (length token)) token t _ _
        (write_all-SendsBytes fuel (to_network (length token)) t (omega arith))
        (λ u e.
          SendsBytes-from (to_network (length token)) token t u _ e
            (value-SendsBytes fuel token u short))
