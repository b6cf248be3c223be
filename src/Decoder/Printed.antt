-- ===== src/Decoder/Printed.antt =====
-- What print_bytes of gssapi-parser/decoder.c prints.
use kerberos.Base.{
  ℕ, zero, suc, ◌+◌, ◌-◌, ◌*◌, ◌/◌, ◌≤◌, ◌≡◌, refl, sym, ap, ◌∙◌, [], ◌∷◌, ◌++◌, append_assoc,
  append-nil, arith, length, take, drop, leb, take_all, drop_all, Bool-cases, inl, inr, leb→le,
}
use kerberos.World.{Bytes, Event, Trace, Run, done, exited, fault, hung, Prog, and_then}
use kerberos.Decoder.{byte_at, print_row, print_rows, print_bytes}

-- The bytes printed, the oldest first, and the number of line ends.
unfoldable pub printed : Trace → Bytes
printed [] = []
printed (Event.put_byte b ∷ t) = printed t ++ (b ∷ [])
printed (_ ∷ t) = printed t

unfoldable pub line_ends : Trace → ℕ
line_ends [] = 0
line_ends (Event.put_newline ∷ t) = suc (line_ends t)
line_ends (_ ∷ t) = line_ends t

-- The run returns, has printed `bytes` and ended `lines` lines.
abbrev Prints : {A : Type 0} → Bytes → ℕ → Trace → Run A → Type 0
Prints bytes lines t (done a u) =
    (printed u ≡ printed t ++ bytes) × (line_ends u ≡ lines + line_ends t)
Prints bytes lines t (exited n u) = ⊥
Prints bytes lines t fault = ⊥
Prints bytes lines t hung = ⊥

Prints-after :
    {B : Type 0} (xs ys zs : Bytes) (m n l : ℕ) (t u : Trace) (r : Run B)
    → xs ++ ys ≡ zs
    → m + n ≡ l
    → printed u ≡ printed t ++ xs
    → line_ends u ≡ m + line_ends t
    → Prints ys n u r
    → Prints zs l t r
Prints-after xs ys zs m n l t u (done b v) e f p q h = (
  h.0
      ∙ ap (λ bytes. bytes ++ ys) p
      ∙ append_assoc (printed t) xs ys
      ∙ ap (λ bytes. printed t ++ bytes) e,
  omega (arith, h.1, q, f),
)
Prints-after xs ys zs m n l t u (exited c v) e f p q h = h
Prints-after xs ys zs m n l t u fault e f p q h = h
Prints-after xs ys zs m n l t u hung e f p q h = h

Prints-bind :
    {A B : Type 0} (xs ys zs : Bytes) (m n l : ℕ) (t : Trace) (r : Run A) (k : A → Prog B)
    → xs ++ ys ≡ zs
    → m + n ≡ l
    → Prints xs m t r
    → ((a : A) (u : Trace) → Prints ys n u (k a u))
    → Prints zs l t (and_then r k)
Prints-bind xs ys zs m n l t (done a u) k e f h next =
    Prints-after xs ys zs m n l t u (k a u) e f h.0 h.1 (next a u)
Prints-bind xs ys zs m n l t (exited c u) k e f h next = absurd h
Prints-bind xs ys zs m n l t fault k e f h next = absurd h
Prints-bind xs ys zs m n l t hung k e f h next = absurd h

byte_at-drop :
    (index : ℕ) (buff : Bytes) (t : Trace)
    → suc index ≤ length buff
    → (b : ℕ) × (byte_at index buff t ≡ done b t) × (drop index buff ≡ b ∷ drop (suc index) buff)
unfolding byte_at
byte_at-drop index [] t h = absurd (omega arith)
byte_at-drop zero (b ∷ rest) t h = (b, refl, refl)
byte_at-drop (suc index) (b ∷ rest) t h = byte_at-drop index rest t (omega arith)

-- A row inside the buffer prints its bytes.
print_row-Prints :
    (count index : ℕ) (buff : Bytes) (t : Trace)
    → index + count ≤ length buff
    → Prints (take count (drop index buff)) 0 t (print_row count index buff t)
unfolding print_row printed line_ends
print_row-Prints zero index buff t h = (sym (append-nil _), omega arith)
print_row-Prints (suc count) index buff t h =
    let (b, e, d) = byte_at-drop index buff t (omega arith) in
    let n : index + 1 ≡ suc index = omega arith in
    rw e (
      rw d (
        Prints-after (b ∷ []) (take count (drop (suc index) buff)) _ 0 0 0 t (Event.put_byte b ∷ t)
          _ refl refl refl (omega arith)
          (rw n (print_row-Prints count (suc index) buff (Event.put_byte b ∷ t) (omega arith)))))

-- Without bytes left, a row is a line end.
print_rows-empty :
    (rounds i : ℕ) (buff : Bytes) (t : Trace) → Prints [] rounds t (print_rows rounds i buff 0 t)
unfolding print_rows print_row printed line_ends
print_rows-empty zero i buff t = (sym (append-nil _), omega arith)
print_rows-empty (suc rounds) i buff t =
    Prints-after [] [] [] 1 rounds (suc rounds) t (Event.put_newline ∷ t) _ refl (omega arith)
      (sym (append-nil _)) (omega arith)
      (print_rows-empty rounds (i + 1) buff (Event.put_newline ∷ t))

-- A row and its line end, and the rows that follow.
row-Prints :
    (xs ys zs : Bytes) (n : ℕ) (t : Trace) (r : Run (Unit {0})) (k : Prog (Unit {0}))
    → xs ++ ys ≡ zs
    → Prints xs 0 t r
    → ((u : Trace) → Prints ys n u (k u))
    → Prints zs (suc n) t (and_then r (λ _ u. k (Event.put_newline ∷ u)))
unfolding printed line_ends
row-Prints xs ys zs n t r k e h next =
    Prints-bind xs ys zs 0 (suc n) (suc n) t r _ e (omega arith) h λ _ u.
      Prints-after [] ys ys 1 n (suc n) u (Event.put_newline ∷ u) _ refl (omega arith)
        (sym (append-nil _)) (omega arith) (next (Event.put_newline ∷ u))

take_nil : (n : ℕ) → let empty : Bytes = [] in take n empty ≡ empty
take_nil n = take_all n [] (omega arith)

take-drop :
    (c n k : ℕ) (xs : Bytes)
    → take c (drop k xs) ++ take n (drop (k + c) xs) ≡ take (c + n) (drop k xs)
take-drop zero n k xs =
    let e : k + 0 ≡ k = omega arith in let f : 0 + n ≡ n = omega arith in rw (e, f) refl
take-drop (suc c) n zero [] =
    let e : drop {A = ℕ} (0 + suc c) [] ≡ [] = drop_all (0 + suc c) [] (omega arith) in
    rw e (take_nil n ∙ sym (take_nil (suc c + n)))
take-drop (suc c) n zero (x ∷ xs) =
    let e : 0 + suc c ≡ suc (0 + c) = omega arith in
    let f : suc c + n ≡ suc (c + n) = omega arith in
    rw (e, f) (ap (λ l. x ∷ l) (take-drop c n 0 xs))
take-drop (suc c) n (suc k) [] =
    let e : drop {A = ℕ} (suc k + suc c) [] ≡ [] = drop_all (suc k + suc c) [] (omega arith) in
    rw e (take_nil n ∙ sym (take_nil (suc c + n)))
take-drop (suc c) n (suc k) (x ∷ xs) =
    let e : suc k + suc c ≡ suc (k + suc c) = omega arith in rw e (take-drop (suc c) n k xs)

print_rows-Prints :
    (rounds i : ℕ) (buff : Bytes) (size : ℕ) (t : Trace)
    → size ≤ rounds * 16
    → i * 16 + size ≤ length buff
    → Prints (take size (drop (i * 16) buff)) rounds t (print_rows rounds i buff size t)
unfolding print_rows
print_rows-Prints zero i buff size t h k =
    let e : size ≡ 0 = omega arith in rw e (sym (append-nil _), omega arith)
print_rows-Prints (suc rounds) i buff size t h k = elim (Bool-cases (leb 16 size)) [
  | inl e ↦
      let s : size ≡ 16 + (size - 16) = omega (arith, leb→le 16 size e) in
      let j : i * 16 + 16 ≡ (i + 1) * 16 = omega arith in
      rw e (
        row-Prints (take 16 (drop (i * 16) buff)) (take (size - 16) (drop ((i + 1) * 16) buff)) _
          rounds t _ _
          (rw (sym j) (
            take-drop 16 (size - 16) (i * 16) buff ∙ ap (λ n. take n (drop (i * 16) buff)) (sym s)))
          (print_row-Prints 16 (i * 16) buff t (omega arith))
          (λ u. print_rows-Prints rounds (i + 1) buff (size - 16) u (omega arith) (omega arith)))
  | inr e ↦
      let s : size - 16 ≡ 0 = ground arith in
      rw (e, s)
        (row-Prints (take size (drop (i * 16) buff)) [] _ rounds t _ _ (append-nil _)
          (print_row-Prints size (i * 16) buff t k) (print_rows-empty rounds (i + 1) buff))
]

of_Prints :
    (bytes : Bytes) (lines : ℕ) (t : Trace) (r : Run (Unit {0}))
    → Prints bytes lines t r
    → (u : Trace) × (r ≡ done tt u)
      × (printed u ≡ printed t ++ bytes)
      × (line_ends u ≡ lines + line_ends t)
of_Prints bytes lines t (done tt u) h = (u, refl, h.0, h.1)
of_Prints bytes lines t (exited c u) h = absurd h
of_Prints bytes lines t fault h = absurd h
of_Prints bytes lines t hung h = absurd h

-- `print_bytes`, called with the number of bytes of its buffer, returns without an access outside
-- of the buffer, has printed the bytes of the buffer in their order, and has ended one line more
-- than a sixteenth of their number, rounded down.
pub print_bytes-prints :
    (buff : Bytes) (t : Trace)
    → (u : Trace) × (print_bytes buff (length buff) t ≡ done tt u)
      × (printed u ≡ printed t ++ buff)
      × (line_ends u ≡ length buff / 16 + 1 + line_ends t)
unfolding print_bytes
print_bytes-prints buff t = of_Prints buff (length buff / 16 + 1) t _ (
    rw (take_all (length buff) buff (omega arith)) at
      (print_rows-Prints (length buff / 16 + 1) 0 buff (length buff) t (omega arith) (omega arith)))
