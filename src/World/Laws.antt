-- ===== src/World/Laws.antt =====
-- Observations of a trace that plain calls leave alone.
use Prim.Native.String.{String}
use kerberos.Base.{ℕ, ◌≡◌, refl, ◌∙◌, Bool, true, false, List, ◌∷◌, if◌then◌else◌}
use kerberos.World.Data.{Argument, Bytes, ReadResult, WriteResult, StatusValue, StatusReply}
use kerberos.World.Events.{Event, Trace}
use kerberos.World.Runs.{Run, done, exited, fault, hung, Prog, and_then}

-- `f` is read off the calls other than the plain ones: input and output, memory, diagnostics, and
-- the release of buffers.
pub record Ignores {C : Type 0} (f : Trace → C) : Type 0 where
  pub read : (fd n : ℕ) (r : ReadResult) (t : Trace) → f (Event.read fd n r ∷ t) ≡ f t
  pub write : (fd : ℕ) (b : Bytes) (r : WriteResult) (t : Trace) → f (Event.write fd b r ∷ t) ≡ f t
  pub malloc : (n : ℕ) (t : Trace) → f (Event.malloc n ∷ t) ≡ f t
  pub fopen : (name : Bytes) (b : Bool) (t : Trace) → f (Event.fopen name b ∷ t) ≡ f t
  pub fwrite : (b : Bytes) (n : ℕ) (t : Trace) → f (Event.fwrite b n ∷ t) ≡ f t
  pub fclose : (t : Trace) → f (Event.fclose ∷ t) ≡ f t
  pub printf :
      (format : String) (args : List Argument) (t : Trace) → f (Event.printf format args ∷ t) ≡ f t
  pub display :
      (v : StatusValue) (n : ℕ) (r : StatusReply) (t : Trace)
      → f (Event.gss_display_status v n r ∷ t) ≡ f t
  pub release : (b : Bytes) (t : Trace) → f (Event.gss_release_buffer b ∷ t) ≡ f t

-- `f` is not read off plain calls other than `write`.
pub record IgnoresInput {C : Type 0} (f : Trace → C) : Type 0 where
  pub read : (fd n : ℕ) (r : ReadResult) (t : Trace) → f (Event.read fd n r ∷ t) ≡ f t
  pub malloc : (n : ℕ) (t : Trace) → f (Event.malloc n ∷ t) ≡ f t
  pub fopen : (name : Bytes) (b : Bool) (t : Trace) → f (Event.fopen name b ∷ t) ≡ f t
  pub fwrite : (b : Bytes) (n : ℕ) (t : Trace) → f (Event.fwrite b n ∷ t) ≡ f t
  pub fclose : (t : Trace) → f (Event.fclose ∷ t) ≡ f t
  pub printf :
      (format : String) (args : List Argument) (t : Trace) → f (Event.printf format args ∷ t) ≡ f t
  pub display :
      (v : StatusValue) (n : ℕ) (r : StatusReply) (t : Trace)
      → f (Event.gss_display_status v n r ∷ t) ≡ f t
  pub release : (b : Bytes) (t : Trace) → f (Event.gss_release_buffer b ∷ t) ≡ f t

pub IgnoresInput-of_Ignores : {C : Type 0} (f : Trace → C) → Ignores f → IgnoresInput f
IgnoresInput-of_Ignores f I = record {
  read = I.read;
  malloc = I.malloc;
  fopen = I.fopen;
  fwrite = I.fwrite;
  fclose = I.fclose;
  printf = I.printf;
  display = I.display;
  release = I.release;
}

-- The run does not exit, and if it returns, `f` is what it was at `t`.
abbrev pub Keeps : {A C : Type 0} → (Trace → C) → Trace → Run A → Type 0
Keeps f t (done a u) = f u ≡ f t
Keeps f t (exited n u) = ⊥
Keeps f t fault = Unit
Keeps f t hung = Unit

-- The rule for a sequence.
pub Keeps-bind :
    {A B C : Type 0} (f : Trace → C) (t : Trace) (r : Run A) (k : A → Prog B)
    → Keeps f t r
    → ((a : A) (u : Trace) → f u ≡ f t → Keeps f t (k a u))
    → Keeps f t (and_then r k)
Keeps-bind f t (done a u) k h next = next a u h
Keeps-bind f t (exited n u) k h next = absurd h
Keeps-bind f t fault k h next = tt
Keeps-bind f t hung k h next = tt

-- What is kept from a later trace on is kept from an earlier one on.
pub Keeps-from :
    {A C : Type 0} (f : Trace → C) (t u : Trace) (r : Run A) → f u ≡ f t → Keeps f u r → Keeps f t r
Keeps-from f t u (done a v) e h = h ∙ e
Keeps-from f t u (exited n v) e h = h
Keeps-from f t u fault e h = tt
Keeps-from f t u hung e h = tt

-- The rule for a sequence whose second part keeps `f` wherever it starts.
pub Keeps-then :
    {A B C : Type 0} (f : Trace → C) (t : Trace) (r : Run A) (k : A → Prog B)
    → Keeps f t r
    → ((a : A) (u : Trace) → Keeps f u (k a u))
    → Keeps f t (and_then r k)
Keeps-then f t r k h next = Keeps-bind f t r k h (λ a u e. Keeps-from f t u (k a u) e (next a u))

-- The rule for a test.
pub Keeps-if :
    {A C : Type 0} (f : Trace → C) (t u : Trace) (b : Bool) (m n : Prog A)
    → Keeps f t (m u)
    → Keeps f t (n u)
    → Keeps f t ((if b then m else n) u)
Keeps-if f t u true m n h k = h
Keeps-if f t u false m n h k = k

-- The rule for a test, for any property of the outcome.
pub if_rule :
    {A : Type 0} (P : Run A → Type 0) (t : Trace) (b : Bool) (m n : Prog A)
    → (b ≡ true → P (m t))
    → (b ≡ false → P (n t))
    → P ((if b then m else n) t)
if_rule P t true m n h k = h refl
if_rule P t false m n h k = k refl

-- The run returns.
abbrev pub Returns : {A : Type 0} → Run A → Type 0
Returns (done a t) = Unit
Returns _ = ⊥

pub Returns-bind :
    {A B : Type 0} (r : Run A) (k : A → Prog B)
    → Returns r
    → ((a : A) (u : Trace) → Returns (k a u))
    → Returns (and_then r k)
Returns-bind (done a u) k h next = next a u
Returns-bind (exited n u) k h next = absurd h
Returns-bind fault k h next = absurd h
Returns-bind hung k h next = absurd h

pub done-of_Returns : {A : Type 0} (r : Run A) → Returns r → (a : A) × (u : Trace) × (r ≡ done a u)
done-of_Returns (done a u) h = (a, u, refl)
done-of_Returns (exited n u) h = absurd h
done-of_Returns fault h = absurd h
done-of_Returns hung h = absurd h

-- The run returns, and `f` is then what it was at `t`.
abbrev pub Settles : {A C : Type 0} → (Trace → C) → Trace → Run A → Type 0
Settles f t (done a u) = f u ≡ f t
Settles f t _ = ⊥

pub Settles-of_Returns :
    {A C : Type 0} (f : Trace → C) (t : Trace) (r : Run A) → Returns r → Keeps f t r → Settles f t r
Settles-of_Returns f t (done a u) h k = k
Settles-of_Returns f t (exited n u) h k = h
Settles-of_Returns f t fault h k = h
Settles-of_Returns f t hung h k = h

-- The rule for a sequence, for any property of the outcome that a run which does not return has.
pub bind_rule :
    {A B : Type 0} (P : Run B → Type 0) (r : Run A) (k : A → Prog B)
    → ((n : ℕ) (u : Trace) → P (exited n u))
    → P fault
    → P hung
    → ((a : A) (u : Trace) → r ≡ done a u → P (k a u))
    → P (and_then r k)
bind_rule P (done a u) k x f h next = next a u refl
bind_rule P (exited n u) k x f h next = x n u
bind_rule P fault k x f h next = f
bind_rule P hung k x f h next = h
