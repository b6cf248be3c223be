-- ===== src/World/Runs.antt =====
-- A program is a function from the trace so far to an outcome.
use kerberos.Base.{ℕ, ◌∷◌}
use kerberos.World.Events.{Event, Trace}

-- `done a t`: the function returned `a`. `exited n t`: the process ended by `exit(n)`. `fault`: an
-- access outside of an object. `hung`: the fuel of a loop ran out.
pub data Run (A : Type 0) : Type 0 where
  done : A → Trace → Run A
  exited : ℕ → Trace → Run A
  fault : Run A
  hung : Run A

abbrev pub Prog : Type 0 → Type 0
Prog A = Trace → Run A

module _ {A B : Type 0} where
  abbrev pub and_then : Run A → (A → Prog B) → Run B
  and_then (done a t) k = k a t
  and_then (exited n t) k = exited n t
  and_then fault k = fault
  and_then hung k = hung

  infixr 5 ◌>>=◌ ◌>>◌
  abbrev pub ◌>>=◌ : Prog A → (A → Prog B) → Prog B
  m >>= k = λ t. and_then (m t) k

  abbrev pub ◌>>◌ : Prog A → Prog B → Prog B
  m >> n = m >>= λ _. n

module _ {A : Type 0} where
  abbrev pub pure : A → Prog A
  pure a = λ t. done a t

  abbrev pub exit : ℕ → Prog A
  exit n = λ t. exited n t

  -- An external call: the answer is looked up, and the call is recorded with it.
  abbrev pub call : (Trace → A) → (A → Event) → Prog A
  call answer event = λ t. done (answer t) (event (answer t) ∷ t)

-- A call whose answer is of no interest.
abbrev pub emit : Event → Prog (Unit {0})
emit e = λ t. done tt (e ∷ t)
