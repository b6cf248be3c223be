-- ===== src/Session/Runs.antt =====
-- What a run of a whole conversation says of the life of its context.
use kerberos.Base.{◌≡◌, ◌≢◌, refl, ◌⊎◌, inl, inr, none, some, Option-cases}
use kerberos.World.{
  Status, success, failure, Trace, Run, done, exited, fault, hung, Prog, and_then, Keeps,
}
use kerberos.Session.{Life, gone, Follows}
use kerberos.Session.Monitor.{life}
use kerberos.Session.Paths.{life-Follows}

-- No call so far is against the relation.
abbrev pub IsLawful : Trace → Type 0
IsLawful t = life t ≢ none

-- Success leaves the context deleted, and nothing that was called is against the relation.
abbrev pub Ends : Run Status → Type 0
Ends (done success u) = life u ≡ some gone
Ends (done failure u) = IsLawful u
Ends (exited n u) = ⊥
Ends fault = Unit
Ends hung = Unit

pub Ends-bind :
    {A : Type 0} (t : Trace) (r : Run A) (k : A → Prog Status)
    → Keeps life t r
    → ((a : A) (u : Trace) → life u ≡ life t → Ends (k a u))
    → Ends (and_then r k)
Ends-bind t (done a u) k h next = next a u h
Ends-bind t (exited n u) k h next = absurd h
Ends-bind t fault k h next = tt
Ends-bind t hung k h next = tt

pub of_Ends :
    (st : Status) (u : Trace)
    → Ends (done st u)
    → (l : Life) × Follows u l × ((st ≡ failure) ⊎ (l ≡ gone))
of_Ends success u h = (gone, life-Follows u gone h, inr refl)
of_Ends failure u h = elim (Option-cases (life u)) [
  | inl n ↦ absurd (h n)
  | inr (l, e) ↦ (l, life-Follows u l e, inl refl)
]
