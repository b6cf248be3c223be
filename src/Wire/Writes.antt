-- ===== src/Wire/Writes.antt =====
-- `write_all`: termination and memory safety, and what reaches the socket for each way in which the
-- kernel may take the buffer in parts.
use kerberos.Base.{
  ℕ, zero, suc, ◌+◌, ◌-◌, ◌^◌, ◌≤◌, ◌<◌, ◌≡◌, refl, sym, ◌∙◌, ap, ◌⊎◌, inl, inr, true, false, List,
  [], ◌∷◌, ◌++◌, append-nil, append_assoc, arith, ◌==◌, le→leb, Bool-cases, if◌then◌else◌, length,
  take, drop, length-take, length-drop, take_all, take-append-drop, take-take, eq_nil_of_length,
}
use kerberos.World.{
  Bytes, Status, success, failure, WriteResult, write_error, wrote, Event, Trace, Os, Run, done,
}
use kerberos.Wire.{minus_one, load_at, write_loop, write_all}
use kerberos.Wire.Reads.{size_sub-eq-sub, to_int_lem}

-- The bytes that the kernel has taken from the program on `fd`, in order.
unfoldable pub sent : ℕ → Trace → Bytes
sent fd [] = []
sent fd (Event.write f bytes (wrote n) ∷ t) =
    if f == fd then sent fd t ++ take n bytes else sent fd t
sent fd (_ ∷ t) = sent fd t

WriteResult-cases : (r : WriteResult) → (r ≡ write_error) ⊎ ((n : ℕ) × (r ≡ wrote n))
WriteResult-cases write_error = inl refl
WriteResult-cases (wrote n) = inr (n, refl)

abbrev pub part : ℕ → ℕ → Bytes → Bytes
part offset count buffer = take count (drop offset buffer)

module _ (os : Os) (fd : ℕ) (buffer : Bytes) where
  write_loop-zero :
      (fuel offset : ℕ) (t : Trace) → write_loop os (suc fuel) fd buffer offset 0 t ≡ done success t
  unfolding write_loop
  write_loop-zero fuel offset t = refl

  write_loop-write_error :
      (fuel offset len : ℕ) (t : Trace)
      → 0 < len
      → offset + len ≤ length buffer
      → os.write t fd (part offset len buffer) ≡ write_error
      → write_loop os (suc fuel) fd buffer offset len t
        ≡ done failure
            (Event.printf "write_all" [] ∷ Event.write fd (part offset len buffer) write_error ∷ t)
  unfolding write_loop load_at
  write_loop-write_error fuel offset len t pos fits e =
      let test : (len == 0) ≡ false = ground arith in rw (test, le→leb _ _ fits, e)

  write_loop-wrote :
      (fuel offset len n : ℕ) (t : Trace)
      → 0 < len
      → offset + len ≤ length buffer
      → length buffer < 2 ^ 64
      → os.write t fd (part offset len buffer) ≡ wrote n
      → n ≤ len
      → n < 2 ^ 31
      → write_loop os (suc fuel) fd buffer offset len t
        ≡ write_loop os fuel fd buffer n
            (len - n)
            (Event.write fd (part offset len buffer) (wrote n) ∷ t)
  unfolding write_loop load_at
  write_loop-wrote fuel offset len n t pos fits small e le short =
      let test : (len == 0) ≡ false = ground arith in
      let sub = size_sub-eq-sub len n le (omega arith) in
      let positive : (n == minus_one) ≡ false = ground arith in
      rw (test, le→leb _ _ fits, e, to_int_lem n short, positive, sub)

  -- `write` reports -1, or that it took at least one byte, at most as many as it was given, and
  -- fewer than 2^31.
  abbrev pub Takes : Type 0
  Takes =
      (t : Trace) (bytes : Bytes) (n : ℕ)
      → 0 < length bytes
      → os.write t fd bytes ≡ wrote n
      → (0 < n) × (n ≤ length bytes) × (n < 2 ^ 31)

  -- How `write_all` ends: in success, or right after a failed `write`.
  abbrev pub Ends : Run Status → Type 0
  Ends r =
      (st : Status) × (u : Trace) × (r ≡ done st u)
      × ((st ≡ success)
          ⊎ ((bytes : Bytes) × (rest : Trace) × (st ≡ failure)
              × (u ≡ Event.printf "write_all" [] ∷ Event.write fd bytes write_error ∷ rest)))

  length-part :
      (offset len : ℕ) → offset + len ≤ length buffer → length (part offset len buffer) ≡ len
  length-part offset len h =
      omega (arith, length-take len (drop offset buffer), length-drop offset buffer)

  write_loop-Ends :
      (fuel offset len : ℕ) (t : Trace)
      → Takes
      → offset + len ≤ length buffer
      → length buffer < 2 ^ 64
      → len < fuel
      → Ends (write_loop os fuel fd buffer offset len t)
  write_loop-Ends zero offset len t d fits small enough = elim enough [ ]
  write_loop-Ends (suc fuel) offset len t d fits small enough = elim (Bool-cases (len == 0)) [
    | inl zero_left ↦
        let e : len ≡ 0 = ground arith in
        (success, t, rw (e, write_loop-zero fuel offset t), inl refl)
    | inr more ↦ elim (WriteResult-cases (os.write t fd (part offset len buffer))) [
      | inl bad ↦ (
        failure,
        Event.printf "write_all" [] ∷ Event.write fd (part offset len buffer) write_error ∷ t,
        write_loop-write_error fuel offset len t (ground arith) fits bad,
        inr (part offset len buffer, t, refl, refl),
      )
      | inr (n, e) ↦
          let size = length-part offset len fits in
          let (pos, le, short) = d t (part offset len buffer) n (ground arith) e in
          rw (write_loop-wrote fuel offset len n t (ground arith) fits small e (omega arith) short)
            (write_loop-Ends fuel n (len - n)
              (Event.write fd (part offset len buffer) (wrote n) ∷ t) d (omega arith) small
              (omega arith))
    ]
  ]

  -- With a kernel that takes at least one byte, at most as many as offered and fewer than 2^31, or
  -- reports -1, and with fuel above the size of the buffer, which is below 2^64, `write_all` of
  -- the whole buffer returns without an access outside of the buffer, and either reports success,
  -- or reports -1 as the last `write` has failed and its message has been printed.
  pub write_all-Ends :
      (fuel : ℕ) (t : Trace)
      → Takes
      → length buffer < 2 ^ 64
      → length buffer < fuel
      → Ends (write_all os fuel fd buffer (length buffer) t)
  unfolding write_all
  write_all-Ends fuel t d small enough =
      write_loop-Ends fuel 0 (length buffer) t d (omega arith) small enough

  -- The kernel takes a `write_all` of `len` bytes in parts of these sizes, none of them 0, each
  -- below 2^31.
  abbrev pub Accepts : Trace → ℕ → ℕ → List ℕ → Type 0
  Accepts t offset len [] = len ≡ 0
  Accepts t offset len (n ∷ ns) =
      (os.write t fd (part offset len buffer) ≡ wrote n)
      × ((0 < n) × (n < 2 ^ 31))
      × (n ≤ len)
      × Accepts (Event.write fd (part offset len buffer) (wrote n) ∷ t) n (len - n) ns

  abbrev pub after_writes : Trace → ℕ → ℕ → List ℕ → Trace
  after_writes t offset len [] = t
  after_writes t offset len (n ∷ ns) =
      after_writes (Event.write fd (part offset len buffer) (wrote n) ∷ t) n (len - n) ns

  -- What is sent in parts of these sizes, each taken from the size of the part before it.
  abbrev pub pieces : ℕ → List ℕ → Bytes
  pieces offset [] = []
  pieces offset (n ∷ ns) = part offset n buffer ++ pieces n ns

  sent-after_writes :
      (t : Trace) (offset len : ℕ) (ns : List ℕ)
      → Accepts t offset len ns
      → sent fd (after_writes t offset len ns) ≡ sent fd t ++ pieces offset ns
  unfolding sent
  sent-after_writes t offset len [] a = sym (append-nil (sent fd t))
  sent-after_writes t offset len (n ∷ ns) (e, pos, le, a) =
      let same : (fd == fd) ≡ true = ground arith in
      sent-after_writes (Event.write fd (part offset len buffer) (wrote n) ∷ t) n (len - n) ns a
      ∙ rw (same, take-take n len (drop offset buffer) le, append_assoc)

  write_loop-Accepts :
      (fuel offset len : ℕ) (ns : List ℕ) (t : Trace)
      → Accepts t offset len ns
      → offset + len ≤ length buffer
      → length buffer < 2 ^ 64
      → length ns < fuel
      → write_loop os fuel fd buffer offset len t ≡ done success (after_writes t offset len ns)
  write_loop-Accepts zero offset len ns t a fits small enough = elim enough [ ]
  write_loop-Accepts (suc fuel) offset len [] t a fits small enough =
      rw a (write_loop-zero fuel offset t)
  write_loop-Accepts (suc fuel) offset len (n ∷ ns) t (e, pos, le, a) fits small enough =
      rw (write_loop-wrote fuel offset len n t (omega arith) fits small e le pos.1) (
        write_loop-Accepts fuel n (len - n) ns
          (Event.write fd (part offset len buffer) (wrote n) ∷ t) a (omega arith) small
          (omega arith))

  -- If the kernel takes the buffer, below 2^64 bytes, in parts of the sizes `ns`, none of them 0
  -- or 2^31 and more, and the fuel is above their number, `write_all` returns success, and the
  -- bytes that it has sent are these parts, each cut from the buffer at the size of the one
  -- before.
  pub write_all-pieces :
      (fuel : ℕ) (ns : List ℕ) (t : Trace)
      → Accepts t 0 (length buffer) ns
      → length buffer < 2 ^ 64
      → length ns < fuel
      → (write_all os fuel fd buffer (length buffer) t
          ≡ done success (after_writes t 0 (length buffer) ns))
        × (sent fd (after_writes t 0 (length buffer) ns) ≡ sent fd t ++ pieces 0 ns)
  unfolding write_all
  write_all-pieces fuel ns t a small enough = (
    write_loop-Accepts fuel 0 (length buffer) ns t a (omega arith) small enough,
    sent-after_writes t 0 (length buffer) ns a,
  )

  pieces_of_two :
      (ns : List ℕ) (t : Trace)
      → Accepts t 0 (length buffer) ns
      → length ns ≤ 2
      → pieces 0 ns ≡ buffer
  pieces_of_two [] t a two = sym (eq_nil_of_length buffer a)
  pieces_of_two (n ∷ []) t (e, pos, le, a) two =
      append-nil (take n buffer) ∙ take_all n buffer (omega arith)
  pieces_of_two (n ∷ m ∷ []) t (e, pos, le, (e', pos', le', a)) two = rw (
    append-nil (part n m buffer),
    take_all m (drop n buffer) (omega (arith, length-drop n buffer)),
    take-append-drop n buffer,
  )
  pieces_of_two (n ∷ m ∷ k ∷ ns) t a two = absurd (omega arith)

  -- If the kernel takes the buffer, below 2^64 bytes, in at most two parts, none of them empty or
  -- of 2^31 bytes or more, and the fuel is above their number, `write_all` returns success and has
  -- sent exactly the buffer.
  pub write_all-sent :
      (fuel : ℕ) (ns : List ℕ) (t : Trace)
      → Accepts t 0 (length buffer) ns
      → length ns ≤ 2
      → length buffer < 2 ^ 64
      → length ns < fuel
      → (write_all os fuel fd buffer (length buffer) t
          ≡ done success (after_writes t 0 (length buffer) ns))
        × (sent fd (after_writes t 0 (length buffer) ns) ≡ sent fd t ++ buffer)
  write_all-sent fuel ns t a two small enough =
      let (run, bytes) = write_all-pieces fuel ns t a small enough in
      (run, bytes ∙ ap (λ r. sent fd t ++ r) (pieces_of_two ns t a two))
