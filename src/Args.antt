-- ===== src/Args.antt =====
-- A plain reading of a command line, for the parse_args of the four programs of application: which
-- options are given, and what the last one of a letter says.
use kerberos.Base.{
  ℕ, ◌≡◌, sym, ap, Bool, false, ◌||◌, Option, none, some, List, [], ◌∷◌, ◌==◌, if◌then◌else◌,
}
use mathlib.Core.Path.{subst}
use kerberos.World.{Bytes, Opt, Trace, Run, done, exited, fault, hung, Prog, and_then}

abbrev pub first_of {ℓ} : {A : Type ℓ} → Option A → Option A → Option A
first_of none o = o
first_of (some a) o = some a

-- The argument of the last option `ch`.
unfoldable pub last_arg : ℕ → List Opt → Option Bytes
last_arg ch [] = none
last_arg ch (o ∷ rest) = first_of (last_arg ch rest) (if o.ch == ch then some o.optarg else none)

unfoldable pub given : ℕ → List Opt → Bool
given ch [] = false
given ch (o ∷ rest) = (o.ch == ch) || given ch rest

-- A program that returns what the reading says, or exits with 1 if it says nothing.
abbrev pub outcome : {A : Type 0} → Option A → Trace → Run A
outcome none t = exited 1 t
outcome (some a) t = done a t

-- The run returns this value.
abbrev pub Gives : {A : Type 0} → A → Run A → Type 0
Gives a (done b t) = b ≡ a
Gives a (exited n t) = ⊥
Gives a fault = ⊥
Gives a hung = ⊥

pub Gives-bind :
    {A B : Type 0} (a : A) (r : Run A) (k : A → Prog B) (P : Run B → Type 0)
    → Gives a r
    → ((u : Trace) → P (k a u))
    → P (and_then r k)
Gives-bind a (done b t) k P e next = subst (λ c. P (k c t)) (sym e) (next t)
Gives-bind a (exited n t) k P e next = absurd e
Gives-bind a fault k P e next = absurd e
Gives-bind a hung k P e next = absurd e

-- The run ends as the reading says.
abbrev pub Meets : {A : Type 0} → Option A → Run A → Type 0
Meets (some a) r = Gives a r
Meets none (exited n t) = n ≡ 1
Meets none _ = ⊥

pub outcome-of_Meets :
    {A : Type 0} (o : Option A) (r : Run A) → Meets o r → (u : Trace) × (r ≡ outcome o u)
outcome-of_Meets (some a) (done b t) e = (t, ap (λ c. done c t) e)
outcome-of_Meets (some a) (exited n t) e = absurd e
outcome-of_Meets (some a) fault e = absurd e
outcome-of_Meets (some a) hung e = absurd e
outcome-of_Meets none (done b t) e = absurd e
outcome-of_Meets none (exited n t) e = (t, ap (λ m. exited m t) e)
outcome-of_Meets none fault e = absurd e
outcome-of_Meets none hung e = absurd e
