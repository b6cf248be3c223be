-- ===== src/Wire/Chunks.antt =====
-- What the buffer of `read_all` holds for each way in which the kernel cuts the stream into chunks.
use kerberos.Base.{
  ℕ, zero, suc, ◌+◌, ◌-◌, ◌^◌, ◌≤◌, ◌<◌, ◌≡◌, refl, sym, ◌∙◌, ap, List, [], ◌∷◌, ◌++◌, append-nil,
  arith, length, get_or, take, drop, length-append, length-take, length-drop, take-append,
  get_or-append, get_or-drop, drop_all,
}
use kerberos.World.{Bytes, success, got, Event, Trace, Os, done}
use kerberos.Wire.{read_loop, read_all}
use kerberos.Wire.Reads.{overwrite, length-overwrite, read_loop-zero, read_loop-got}

unfoldable pub flatten : List Bytes → Bytes
flatten [] = []
flatten (c ∷ cs) = c ++ flatten cs

-- The buffer after the chunks are stored, each at the length of the chunk before it.
pub lay : ℕ → List Bytes → Bytes → Bytes
lay offset [] buffer = buffer
lay offset (c ∷ cs) buffer = lay (length c) cs (overwrite offset c buffer)

module _ (os : Os) (fd : ℕ) where
  -- The kernel answers a `read_all` of `len` bytes with these chunks, none of them empty, each
  -- below 2^31 bytes.
  abbrev pub Answers : Trace → ℕ → List Bytes → Type 0
  Answers t len [] = len ≡ 0
  Answers t len (c ∷ cs) =
      (os.read t fd len ≡ got c)
      × ((0 < length c) × (length c < 2 ^ 31))
      × (length c ≤ len)
      × Answers (Event.read fd len (got c) ∷ t) (len - length c) cs

  -- The trace after these reads.
  abbrev pub after_reads : Trace → ℕ → List Bytes → Trace
  after_reads t len [] = t
  after_reads t len (c ∷ cs) = after_reads (Event.read fd len (got c) ∷ t) (len - length c) cs

  pub length-flatten :
      (t : Trace) (len : ℕ) (cs : List Bytes) → Answers t len cs → length (flatten cs) ≡ len
  unfolding flatten
  length-flatten t len [] a = omega arith
  length-flatten t len (c ∷ cs) (e, pos, le, a) = omega (
    arith,
    length-append c (flatten cs),
    length-flatten (Event.read fd len (got c) ∷ t) (len - length c) cs a,
  )

  read_loop-lay :
      (fuel offset len : ℕ) (buffer : Bytes) (cs : List Bytes) (t : Trace)
      → Answers t len cs
      → offset + len ≤ length buffer
      → length buffer < 2 ^ 64
      → length cs < fuel
      → read_loop os fuel fd buffer offset len t
        ≡ done (success, lay offset cs buffer) (after_reads t len cs)
  unfolding lay
  read_loop-lay zero offset len buffer cs t a fits small enough = elim enough [ ]
  read_loop-lay (suc fuel) offset len buffer [] t a fits small enough =
      rw a (read_loop-zero os fd fuel offset buffer t)
  read_loop-lay (suc fuel) offset len buffer (c ∷ cs) t (e, pos, le, a) fits small enough =
      rw (read_loop-got os fd fuel offset len buffer c t (omega arith) e le pos.1 fits small) (
        read_loop-lay fuel (length c) (len - length c) (overwrite offset c buffer) cs _ a
          (omega (arith, length-overwrite offset c buffer))
          (omega (arith, length-overwrite offset c buffer)) (omega arith))

  pub read_all-lay :
      (fuel len : ℕ) (buffer : Bytes) (cs : List Bytes) (t : Trace)
      → Answers t len cs
      → length buffer ≡ len
      → len < 2 ^ 64
      → length cs < fuel
      → read_all os fuel fd buffer len t ≡ done (success, lay 0 cs buffer) (after_reads t len cs)
  unfolding read_all
  read_all-lay fuel len buffer cs t a e small enough =
      read_loop-lay fuel 0 len buffer cs t a (omega arith) (omega arith) enough

overwrite_whole : (c buffer : Bytes) → length c ≡ length buffer → overwrite 0 c buffer ≡ c
overwrite_whole c buffer e = rw (drop_all (0 + length c) buffer (omega arith)) (append-nil c)

overwrite-overwrite :
    (c d buffer : Bytes)
    → length c + length d ≡ length buffer
    → overwrite (length c) d (overwrite 0 c buffer) ≡ c ++ d
overwrite-overwrite c d buffer e = rw (
  take-append (length c) c (drop (0 + length c) buffer) refl,
  drop_all (length c + length d) (c ++ drop (0 + length c) buffer) (
      omega
        (arith, length-append c (drop (0 + length c) buffer), length-drop (0 + length c) buffer)),
  append-nil d,
)

-- Up to two chunks are stored one behind the other.
lay_of_two :
    (os : Os) (fd len : ℕ) (buffer : Bytes) (cs : List Bytes) (t : Trace)
    → Answers os fd t len cs
    → length buffer ≡ len
    → length cs ≤ 2
    → lay 0 cs buffer ≡ flatten cs
unfolding lay flatten
lay_of_two os fd len [] [] t a e two = refl
lay_of_two os fd len (b ∷ buffer) [] t a e two = absurd (omega arith)
lay_of_two os fd len buffer (c ∷ []) t (_, pos, le, a) e two =
    overwrite_whole c buffer (omega arith) ∙ sym (append-nil c)
lay_of_two os fd len buffer (c ∷ d ∷ []) t (_, _, le, (_, _, le', a)) e two =
    overwrite-overwrite c d buffer (omega arith) ∙ ap (λ r. c ++ r) (sym (append-nil d))
lay_of_two os fd len buffer (c ∷ d ∷ x ∷ cs) t a e two = absurd (omega arith)

-- If the kernel delivers the bytes of a buffer below 2^64 bytes in at most two chunks, none of
-- them empty or of 2^31 bytes or more, and the fuel is above their number, `read_all` returns
-- success and its buffer holds exactly the bytes delivered, in order.
pub read_all-flatten :
    (os : Os) (fd fuel len : ℕ) (buffer : Bytes) (cs : List Bytes) (t : Trace)
    → Answers os fd t len cs
    → length cs ≤ 2
    → length buffer ≡ len
    → len < 2 ^ 64
    → length cs < fuel
    → read_all os fuel fd buffer len t ≡ done (success, flatten cs) (after_reads os fd t len cs)
read_all-flatten os fd fuel len buffer cs t a two e small enough =
    rw (← lay_of_two os fd len buffer cs t a e two)
      (read_all-lay os fd fuel len buffer cs t a e small enough)

get_or-overwrite :
    (offset : ℕ) (c buffer : Bytes) (i : ℕ)
    → offset + length c ≤ i
    → offset + length c ≤ length buffer
    → get_or (overwrite offset c buffer) i 0 ≡ get_or buffer i 0
get_or-overwrite offset c buffer i h fits =
    get_or-append (take offset buffer) (c ++ drop (offset + length c) buffer) i 0
      (omega (arith, length-take offset buffer))
    ∙ get_or-append c (drop (offset + length c) buffer) (i - length (take offset buffer)) 0
        (omega (arith, length-take offset buffer))
    ∙ rw (cut) (get_or-drop (offset + length c) buffer i 0 h)
  where
    cut : i - length (take offset buffer) - length c ≡ i - (offset + length c)
    cut = omega (arith, length-take offset buffer)

lay-get_or :
    (os : Os) (fd offset len i : ℕ) (buffer : Bytes) (cs : List Bytes) (t : Trace)
    → Answers os fd t len cs
    → offset + len ≤ i
    → i < length buffer
    → get_or (lay offset cs buffer) i 0 ≡ get_or buffer i 0
unfolding lay
lay-get_or os fd offset len i buffer [] t a h inside = refl
lay-get_or os fd offset len i buffer (c ∷ cs) t (e, pos, le, a) h inside =
    lay-get_or os fd (length c) (len - length c) i (overwrite offset c buffer) cs
      (Event.read fd len (got c) ∷ t) a (omega arith)
      (omega (arith, length-overwrite offset c buffer))
    ∙ get_or-overwrite offset c buffer i (omega arith) (omega arith)

-- If the bytes of a buffer below 2^64 bytes arrive in three chunks or more, none of them empty or
-- of 2^31 bytes or more, and the fuel is above their number, `read_all` still returns success, and
-- the last byte of its buffer is the one that was there before.
pub read_all-keeps_last :
    (os : Os) (fd fuel len : ℕ) (buffer c d x : Bytes) (cs : List Bytes) (t : Trace)
    → Answers os fd t len (c ∷ d ∷ x ∷ cs)
    → length buffer ≡ len
    → len < 2 ^ 64
    → length cs + 3 < fuel
    → (result : Bytes) × (u : Trace) × (read_all os fuel fd buffer len t ≡ done (success, result) u)
      × (get_or result (len - 1) 0 ≡ get_or buffer (len - 1) 0)
unfolding lay
read_all-keeps_last os fd fuel len buffer c d x cs t a size small enough = (
  _,
  _,
  read_all-lay os fd fuel len buffer (c ∷ d ∷ x ∷ cs) t a size small (omega arith),
  lay-get_or os fd (length d) (len - length c - length d) (len - 1) two (x ∷ cs) _ a.3.3
        (omega (arith, a.3, a.3.3))
        (omega (arith, length-overwrite 0 c buffer, length-overwrite (length c) d one))
      ∙ get_or-overwrite (length c) d one (len - 1) (omega (arith, a.3, a.3.3))
          (omega (arith, a.3, a.3.3, length-overwrite 0 c buffer))
      ∙ get_or-overwrite 0 c buffer (len - 1) (omega (arith, a.3, a.3.3)) (omega arith),
)
  where
    one : Bytes
    one = overwrite 0 c buffer

    two : Bytes
    two = overwrite (length c) d one
