-- ===== src/Wire/Sends.antt =====
-- send_token does not fail while no write does.
use kerberos.Base.{
  ◌^◌, ◌<◌, ◌≡◌, false, arith, if◌then◌else◌, ℕ, zero, suc, [], ◌∷◌, ◌==◌, length, leb, take, drop,
  ◌+◌,
}
use kerberos.World.{
  Bytes, Status, success, failure, write_error, wrote, Trace, Os, Run, done, exited, fault, hung,
  Prog, and_then, if_rule, WriteResult, Event, printf, pure, ◌>>◌,
}
use kerberos.Wire.Reads.{to_int_lem}
use kerberos.Wire.{
  to_int, minus_one, load_at, size_sub, write_loop, write_all, send_token, to_network,
}

-- The run does not return -1.
abbrev pub Sends : Run Status → Type 0
Sends (done success u) = Unit
Sends (done failure u) = ⊥
Sends (exited n u) = Unit
Sends fault = Unit
Sends hung = Unit

Sends-bind :
    (r : Run Status) (k : Status → Prog Status)
    → Sends r
    → ((u : Trace) → Sends (k success u))
    → Sends (and_then r k)
Sends-bind (done success u) k h next = next u
Sends-bind (done failure u) k h next = absurd h
Sends-bind (exited n u) k h next = tt
Sends-bind fault k h next = tt
Sends-bind hung k h next = tt

load_at-Sends :
    (offset count : ℕ) (buffer : Bytes) (t : Trace) (k : Bytes → Prog Status)
    → Sends (k (take count (drop offset buffer)) t)
    → Sends (and_then (load_at offset count buffer t) k)
unfolding load_at
load_at-Sends offset count buffer t k h =
    if_rule (λ r. Sends (and_then r k)) t (leb (offset + count) (length buffer)) _ _ (λ _. h)
      (λ _. tt)

-- No `write` reports an error: each takes fewer than 2^31 bytes.
abbrev pub AcceptsWrites : Os → ℕ → Type 0
AcceptsWrites os fd = (t : Trace) (b : Bytes) → (n : ℕ) × (os.write t fd b ≡ wrote n) × (n < 2 ^ 31)

module _ (os : Os) (fd : ℕ) (accepted : AcceptsWrites os fd) where
  -- What follows the call of `write`.
  answered-Sends :
      (fuel : ℕ) (buffer : Bytes) (len : ℕ) (bytes : Bytes) (r : WriteResult) (t : Trace) (n : ℕ)
      → r ≡ wrote n
      → n < 2 ^ 31
      → ((count : ℕ) (u : Trace)
          → Sends (write_loop os fuel fd buffer count (size_sub len count) u))
      → Sends (
          (elim r as (λ _. Prog Status) [
            | write_error ↦ printf "write_all" [] >> pure failure
            | wrote count ↦
                if to_int count == minus_one
                then printf "write_all" [] >> pure failure
                else write_loop os fuel fd buffer (to_int count) (size_sub len (to_int count))
          ])
            (Event.write fd bytes r ∷ t))
  answered-Sends fuel buffer len bytes r t n e short next =
      let positive : (n == minus_one) ≡ false = ground arith in
      rw (e, to_int_lem n short, positive) (next n _)

  write_loop-Sends :
      (fuel : ℕ) (buffer : Bytes) (offset len : ℕ) (t : Trace)
      → Sends (write_loop os fuel fd buffer offset len t)
  unfolding write_loop
  write_loop-Sends zero buffer offset len t = tt
  write_loop-Sends (suc fuel) buffer offset len t =
      if_rule Sends t (len == 0) _ _ (λ _. tt)
        (λ _.
          let bytes = take len (drop offset buffer) in
          load_at-Sends offset len buffer t _ (
            let (n, e, short) = accepted t bytes in
            answered-Sends fuel buffer len bytes (os.write t fd bytes) t n e short
              (λ count u. write_loop-Sends fuel buffer count (size_sub len count) u)))

  pub send_token-Sends :
      (fuel : ℕ) (token : Bytes) (t : Trace) → Sends (send_token os fuel fd token t)
  unfolding send_token write_all
  send_token-Sends fuel token t =
      Sends-bind (write_loop os fuel fd (to_network (length token)) 0 4 t) _
        (write_loop-Sends fuel (to_network (length token)) 0 4 t)
        λ u.
          Sends-bind (write_loop os fuel fd token 0 (length token) u) _
            (write_loop-Sends fuel token 0 (length token) u) (λ v. tt)
