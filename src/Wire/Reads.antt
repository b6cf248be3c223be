-- ===== src/Wire/Reads.antt =====
-- `read_all`: termination and memory safety, and what its buffer holds for each way in which the
-- kernel may cut the stream into chunks.
use kerberos.Base.{
  ℕ, zero, suc, ◌+◌, ◌-◌, ◌^◌, ◌≤◌, ◌<◌, ◌≡◌, refl, ◌⊎◌, inl, inr, false, [], ◌∷◌, ◌++◌, arith,
  ◌==◌, le→leb, Bool-cases, length, take, drop, length-append, length-take, length-drop,
}
use kerberos.World.{
  Bytes, Status, success, failure, ReadResult, read_error, got, Event, Trace, Os, Run, done, hung,
}
use kerberos.Wire.{size_sub, to_int, minus_one, store_at, read_loop, read_all}

pub size_sub-eq-sub : (a b : ℕ) → b ≤ a → a < 2 ^ 64 → size_sub a b ≡ a - b
unfolding size_sub
size_sub-eq-sub a b h k = omega arith

-- A count below 2^31 is kept by an `int`.
pub to_int_lem : (n : ℕ) → n < 2 ^ 31 → to_int n ≡ n
unfolding to_int
to_int_lem n h = ground arith

-- The buffer after `bytes` are stored at `offset`.
abbrev pub overwrite : ℕ → Bytes → Bytes → Bytes
overwrite offset bytes buffer = take offset buffer ++ (bytes ++ drop (offset + length bytes) buffer)

pub length-overwrite :
    (offset : ℕ) (bytes buffer : Bytes)
    → offset + length bytes ≤ length buffer
    → length (overwrite offset bytes buffer) ≡ length buffer
length-overwrite offset bytes buffer h = omega (
  arith,
  length-append (take offset buffer) (bytes ++ drop (offset + length bytes) buffer),
  length-append bytes (drop (offset + length bytes) buffer),
  length-take offset buffer,
  length-drop (offset + length bytes) buffer,
)

pub store_at_lem :
    (offset : ℕ) (bytes buffer : Bytes) (t : Trace)
    → offset + length bytes ≤ length buffer
    → store_at offset bytes buffer t ≡ done (overwrite offset bytes buffer) t
unfolding store_at
store_at_lem offset bytes buffer t h = rw (le→leb _ _ h)

pub ReadResult-cases : (r : ReadResult) → (r ≡ read_error) ⊎ ((bytes : Bytes) × (r ≡ got bytes))
ReadResult-cases read_error = inl refl
ReadResult-cases (got bytes) = inr (bytes, refl)

module _ (os : Os) (fd : ℕ) where
  pub read_loop-zero :
      (fuel offset : ℕ) (buffer : Bytes) (t : Trace)
      → read_loop os (suc fuel) fd buffer offset 0 t ≡ done (success, buffer) t
  unfolding read_loop
  read_loop-zero fuel offset buffer t = refl

  read_loop-read_error :
      (fuel offset len : ℕ) (buffer : Bytes) (t : Trace)
      → 0 < len
      → os.read t fd len ≡ read_error
      → read_loop os (suc fuel) fd buffer offset len t
        ≡ done (failure, buffer) (Event.printf "read_all" [] ∷ Event.read fd len read_error ∷ t)
  unfolding read_loop
  read_loop-read_error fuel offset len buffer t pos e =
      let test : (len == 0) ≡ false = ground arith in rw (test, e)

  pub read_loop-got :
      (fuel offset len : ℕ) (buffer bytes : Bytes) (t : Trace)
      → 0 < len
      → os.read t fd len ≡ got bytes
      → length bytes ≤ len
      → length bytes < 2 ^ 31
      → offset + len ≤ length buffer
      → length buffer < 2 ^ 64
      → read_loop os (suc fuel) fd buffer offset len t
        ≡ read_loop os fuel fd
            (overwrite offset bytes buffer)
            (length bytes)
            (len - length bytes)
            (Event.read fd len (got bytes) ∷ t)
  unfolding read_loop
  read_loop-got fuel offset len buffer bytes t pos e le short fits small =
      let test : (len == 0) ≡ false = ground arith in
      let sub = size_sub-eq-sub len (length bytes) le (omega arith) in
      let positive : (length bytes == minus_one) ≡ false = ground arith in
      rw (
        test,
        e,
        store_at_lem offset bytes buffer _ (omega arith),
        to_int_lem (length bytes) short,
        positive,
        sub,
      )

  -- `read` reports -1, or at least one byte, at most as many as it was asked for, and fewer than
  -- 2^31: the peer stays connected.
  abbrev pub Delivers : Type 0
  Delivers =
      (t : Trace) (count : ℕ) (bytes : Bytes)
      → 0 < count
      → os.read t fd count ≡ got bytes
      → (0 < length bytes) × (length bytes ≤ count) × (length bytes < 2 ^ 31)

  -- How `read_all` ends: in success, or right after a failed `read`.
  abbrev pub Ends : ℕ → Run (Status × Bytes) → Type 0
  Ends size r =
      (st : Status) × (buffer : Bytes) × (u : Trace) × (r ≡ done (st, buffer) u)
      × (length buffer ≡ size)
      × ((st ≡ success)
          ⊎ ((count : ℕ) × (rest : Trace) × (st ≡ failure)
              × (u ≡ Event.printf "read_all" [] ∷ Event.read fd count read_error ∷ rest)))

  read_loop-Ends :
      (fuel offset len : ℕ) (buffer : Bytes) (t : Trace)
      → Delivers
      → offset + len ≤ length buffer
      → length buffer < 2 ^ 64
      → len < fuel
      → Ends (length buffer) (read_loop os fuel fd buffer offset len t)
  read_loop-Ends zero offset len buffer t d fits small enough = elim enough [ ]
  read_loop-Ends (suc fuel) offset len buffer t d fits small enough = elim (Bool-cases (len == 0)) [
    | inl zero_left ↦
        let e : len ≡ 0 = ground arith in
        (success, buffer, t, rw (e, read_loop-zero fuel offset buffer t), refl, inl refl)
    | inr more ↦ elim (ReadResult-cases (os.read t fd len)) [
      | inl bad ↦ (
        failure,
        buffer,
        Event.printf "read_all" [] ∷ Event.read fd len read_error ∷ t,
        read_loop-read_error fuel offset len buffer t (ground arith) bad,
        refl,
        inr (len, t, refl, refl),
      )
      | inr (bytes, e) ↦
          let (pos, le, short) = d t len bytes (ground arith) e in
          rw (read_loop-got fuel offset len buffer bytes t (ground arith) e le short fits small) (
            rw (length-overwrite offset bytes buffer (omega arith)) at (
              read_loop-Ends fuel (length bytes) (len - length bytes)
                (overwrite offset bytes buffer) (Event.read fd len (got bytes) ∷ t) d
                (omega (arith, length-overwrite offset bytes buffer))
                (omega (arith, length-overwrite offset bytes buffer)) (omega arith)))
    ]
  ]

  -- With a kernel that delivers at least one byte, at most as many as asked for and fewer than
  -- 2^31, or reports -1, and with fuel above `len`, `read_all` into a buffer of `len` bytes, fewer
  -- than 2^64, returns without an access outside of the buffer, leaves the buffer its size, and
  -- either reports success, or reports -1 as the last `read` has failed and its message has been
  -- printed.
  pub read_all-Ends :
      (fuel len : ℕ) (buffer : Bytes) (t : Trace)
      → Delivers
      → length buffer ≡ len
      → len < 2 ^ 64
      → len < fuel
      → Ends len (read_all os fuel fd buffer len t)
  unfolding read_all
  read_all-Ends fuel len buffer t d e small enough =
      rw e at (read_loop-Ends fuel 0 len buffer t d (omega arith) (omega arith) enough)

  read_loop-hung :
      (fuel offset len : ℕ) (buffer : Bytes) (t : Trace)
      → ((u : Trace) (count : ℕ) → os.read u fd count ≡ got [])
      → 0 < len
      → offset + len ≤ length buffer
      → length buffer < 2 ^ 64
      → read_loop os fuel fd buffer offset len t ≡ hung
  unfolding read_loop
  read_loop-hung zero offset len buffer t eof pos fits small = refl
  read_loop-hung (suc fuel) offset len buffer t eof pos fits small =
      rw
        (read_loop-got fuel offset len buffer [] t pos (eof t len) (omega arith) (omega arith) fits
          small)
        (read_loop-hung fuel 0 (len - 0) (overwrite offset [] buffer)
          (Event.read fd len (got []) ∷ t) eof (omega arith)
          (omega (arith, length-overwrite offset [] buffer))
          (omega (arith, length-overwrite offset [] buffer)))

  -- If every `read` returns 0, as at the end of the stream, a `read_all` of at least one byte and
  -- fewer than 2^64 does not return, whatever the fuel.
  pub read_all-hung :
      (fuel len : ℕ) (buffer : Bytes) (t : Trace)
      → ((u : Trace) (count : ℕ) → os.read u fd count ≡ got [])
      → 0 < len
      → length buffer ≡ len
      → len < 2 ^ 64
      → read_all os fuel fd buffer len t ≡ hung
  unfolding read_all
  read_all-hung fuel len buffer t eof pos e small =
      read_loop-hung fuel 0 len buffer t eof pos (omega arith) (omega arith)
