-- ===== src/Wire/Returns.antt =====
-- Whether send_token and recv_token of application/gssapi/utils.c return.
use kerberos.Base.{
  Bool, Bool-cases, if◌then◌else◌, leb, ◌+◌, ◌==◌, inl, inr, Option, none, some, ℕ, zero, suc, ◌<◌,
  ◌≤◌, ◌^◌, ◌≡◌, [], ◌∷◌, ◌++◌, arith, length, take, drop,
}
use kerberos.World.{
  if_rule, malloc, ◌>>=◌, Bytes, Status, success, failure, Event, got, wrote, Trace, Os, Run, done,
  Prog, Returns, Returns-bind, printf, pure, ◌>>◌,
}
use kerberos.Wire.{
  to_int, minus_one, size_sub, store_at, read_loop, read_all, write_all, to_network, from_network,
  send_token, recv_token,
}
use kerberos.Wire.Reads.{ReadResult-cases}
use kerberos.Wire.Reads as Reads
use kerberos.Wire.Writes as Writes

-- Each number is a byte.
abbrev pub AreBytes : Bytes → Type 0
AreBytes [] = Unit
AreBytes (b ∷ rest) = (b < 256) × AreBytes rest

AreBytes-append : (xs ys : Bytes) → AreBytes xs → AreBytes ys → AreBytes (xs ++ ys)
AreBytes-append [] ys h k = k
AreBytes-append (x ∷ xs) ys (b, h) k = (b, AreBytes-append xs ys h k)

AreBytes-take : (n : ℕ) (xs : Bytes) → AreBytes xs → AreBytes (take n xs)
AreBytes-take zero xs h = tt
AreBytes-take (suc n) [] h = tt
AreBytes-take (suc n) (x ∷ xs) (b, h) = (b, AreBytes-take n xs h)

AreBytes-drop : (n : ℕ) (xs : Bytes) → AreBytes xs → AreBytes (drop n xs)
AreBytes-drop zero xs h = h
AreBytes-drop (suc n) [] h = tt
AreBytes-drop (suc n) (x ∷ xs) (b, h) = AreBytes-drop n xs h

from_network-AreBytes : (header : Bytes) → AreBytes header → from_network header < 2 ^ 32
unfolding from_network
from_network-AreBytes (a ∷ b ∷ c ∷ d ∷ []) (p, (q, (r, (s, _)))) = omega (arith, p, q, r, s)
from_network-AreBytes [] h = omega arith
from_network-AreBytes (a ∷ []) h = omega arith
from_network-AreBytes (a ∷ b ∷ []) h = omega arith
from_network-AreBytes (a ∷ b ∷ c ∷ []) h = omega arith
from_network-AreBytes (a ∷ b ∷ c ∷ d ∷ e ∷ rest) h = omega arith

-- A connected peer and memory enough: a call of `read` or of `write` moves at least one byte, at
-- most what it was asked to and less than 2^31, or reports -1, and the blocks have the sizes asked
-- for.
pub record Progresses (os : Os) (fd : ℕ) : Type 0 where
  pub delivers :
      (t : Trace) (count : ℕ) (bytes : Bytes)
      → 0 < count
      → os.read t fd count ≡ got bytes
      → (0 < length bytes) × (length bytes ≤ count) × (length bytes < 2 ^ 31)
  pub delivers_bytes :
      (t : Trace) (count : ℕ) (bytes : Bytes) → os.read t fd count ≡ got bytes → AreBytes bytes
  pub takes :
      (t : Trace) (bytes : Bytes) (n : ℕ)
      → 0 < length bytes
      → os.write t fd bytes ≡ wrote n
      → (0 < n) × (n ≤ length bytes) × (n < 2 ^ 31)
  pub block_size : (t : Trace) (n : ℕ) → length (os.malloc t n) ≡ n
  pub scratch_size : (t : Trace) (n : ℕ) → length (os.scratch t n) ≡ n
  pub scratch_bytes : (t : Trace) (n : ℕ) → AreBytes (os.scratch t n)

-- If the run returns a buffer, it holds bytes.
abbrev HoldsBytes : Run (Status × Bytes) → Type 0
HoldsBytes (done (st, buffer) u) = AreBytes buffer
HoldsBytes _ = Unit

module _ (os : Os) (fd : ℕ) (p : Progresses os fd) where
  -- What follows a store of bytes.
  stored-HoldsBytes :
      (offset : ℕ) (bytes buffer : Bytes) (b : Bool) (m : Bytes → Prog (Status × Bytes)) (t : Trace)
      → AreBytes bytes
      → AreBytes buffer
      → ((buffer' : Bytes) → AreBytes buffer' → HoldsBytes (m buffer' t))
      → HoldsBytes (
          (store_at offset bytes buffer >>= λ buffer'.
          if b then printf "read_all" [] >> pure (failure, buffer') else m buffer')
            t)
  unfolding store_at
  stored-HoldsBytes offset bytes buffer b m t h k next =
      let all : AreBytes (take offset buffer ++ (bytes ++ drop (offset + length bytes) buffer)) =
        AreBytes-append (take offset buffer) (bytes ++ drop (offset + length bytes) buffer)
          (AreBytes-take offset buffer k)
          (AreBytes-append bytes (drop (offset + length bytes) buffer) h
            (AreBytes-drop (offset + length bytes) buffer k)) in
      elim (Bool-cases (leb (offset + length bytes) (length buffer))) [
        | inl e ↦ rw e (if_rule HoldsBytes t b _ _ (λ _. all) (λ _. next _ all))
        | inr e ↦ rw e tt
      ]

  read_loop-HoldsBytes :
      (fuel : ℕ) (buffer : Bytes) (offset len : ℕ) (t : Trace)
      → AreBytes buffer
      → HoldsBytes (read_loop os fuel fd buffer offset len t)
  unfolding read_loop store_at
  read_loop-HoldsBytes zero buffer offset len t h = tt
  read_loop-HoldsBytes (suc fuel) buffer offset len t h =
      if_rule HoldsBytes t (len == 0) _ _ (λ _. h)
        (λ _. elim (ReadResult-cases (os.read t fd len)) [
          | inl e ↦ rw e h
          | inr (bytes, e) ↦ rw e (
              stored-HoldsBytes offset bytes buffer (to_int (length bytes) == minus_one)
                (λ buffer'.
                  read_loop os fuel fd buffer' (to_int (length bytes))
                    (size_sub len (to_int (length bytes))))
                (Event.read fd len (got bytes) ∷ t) (p.delivers_bytes t len bytes e) h
                (λ buffer' k.
                  read_loop-HoldsBytes fuel buffer' (to_int (length bytes))
                    (size_sub len (to_int (length bytes))) (Event.read fd len (got bytes) ∷ t) k))
        ])

  -- What follows the header.
  received-Returns :
      (fuel : ℕ) (st : Status) (header : Bytes) (t : Trace)
      → 2 ^ 32 ≤ fuel
      → AreBytes header
      → Returns (
          (elim st as (λ _. Prog (Option Bytes)) [
            | failure ↦ printf "recv_token: couldn't read token length" [] >> pure none
            | success ↦ do
              let len = from_network header
              block ← malloc os len
              value ← read_all os fuel fd block len
              elim value.0 [
                | failure ↦ printf "recv_token: couldn't send token length" [] >> pure none
                | success ↦ pure (some value.1)
              ]
          ])
            t)
  received-Returns fuel failure header t enough h = tt
  received-Returns fuel success header t enough h =
      let len = from_network header in
      let small = from_network-AreBytes header h in
      let block = os.malloc t len in
      let (st, value, u, e, _, _) =
        Reads.read_all-Ends os fd fuel len block (Event.malloc len ∷ t) p.delivers
          (p.block_size t len) (omega (arith, small)) (omega (arith, small, enough)) in
      rw e
        (elim st
          as (λ st. Returns (
            (elim st as (λ _. Prog (Option Bytes)) [
              | failure ↦ printf "recv_token: couldn't send token length" [] >> pure none
              | success ↦ pure (some value)
            ])
              u)) [ failure ↦ tt | success ↦ tt ])

  pub recv_token-Returns :
      (fuel : ℕ) (t : Trace) → 2 ^ 32 ≤ fuel → Returns (recv_token os fuel fd t)
  unfolding recv_token read_all
  recv_token-Returns fuel t enough =
      let (st, header, u, e, _, _) =
        Reads.read_all-Ends os fd fuel 4 (os.scratch t 4) t p.delivers (p.scratch_size t 4)
          (omega arith) (omega (arith, enough)) in
      let h : AreBytes header =
        rw e at (read_loop-HoldsBytes fuel (os.scratch t 4) 0 4 t (p.scratch_bytes t 4)) in
      rw e (received-Returns fuel st header u enough h)

  write_all-Returns :
      (fuel : ℕ) (buffer : Bytes) (t : Trace)
      → 2 ^ 32 ≤ fuel
      → length buffer < 2 ^ 32
      → Returns (write_all os fuel fd buffer (length buffer) t)
  write_all-Returns fuel buffer t enough small =
      let (st, u, e, _) =
        Writes.write_all-Ends os fd buffer fuel t p.takes (omega (arith, small))
          (omega (arith, small, enough)) in
      rw e tt

  pub send_token-Returns :
      (fuel : ℕ) (token : Bytes) (t : Trace)
      → 2 ^ 32 ≤ fuel
      → length token < 2 ^ 32
      → Returns (send_token os fuel fd token t)
  unfolding send_token to_network
  send_token-Returns fuel token t enough small =
      Returns-bind _ _ (write_all-Returns fuel (to_network (length token)) t enough (omega arith))
        (elim [
          | failure ↦ λ u. tt
          | success ↦ λ u.
              Returns-bind _ _ (write_all-Returns fuel token u enough small)
                (elim [ failure ↦ λ v. tt | success ↦ λ v. tt ])
        ])
