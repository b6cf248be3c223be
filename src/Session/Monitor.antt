-- ===== src/Session/Monitor.antt =====
-- The life of a context, read off a trace; it is none once a call was made that the relation of
-- Session does not allow.
use kerberos.Base.{
  ◌≡◌, refl, Bool, true, false, Option, none, some, [], ◌∷◌, ◌==◌, arith, if◌then◌else◌,
}
use kerberos.World.{Major, Context, Event, Trace, Ignores}
use kerberos.Session.{Life, fresh, pending, ready, broken, gone, after}

abbrev pub same_context : Context → Context → Bool
same_context none none = true
same_context (some a) (some b) = a == b
same_context _ _ = false

pub same_context_refl : (c : Context) → same_context c c ≡ true
same_context_refl none = refl
same_context_refl (some a) = ground arith

pub eq_of_same_context : (c d : Context) → same_context c d ≡ true → c ≡ d
eq_of_same_context none none h = refl
eq_of_same_context none (some b) h = cc
eq_of_same_context (some a) none h = cc
eq_of_same_context (some a) (some b) h = ground arith

-- A call that establishes a context, given `context`, with its answer.
unfoldable pub establishes : Context → Major → Context → Option Life → Option Life
establishes context major result (some fresh) =
    if same_context context none then some (after major result) else none
establishes context major result (some (pending held)) =
    if same_context context held then some (after major result) else none
establishes context major result _ = none

unfoldable pub uses : Context → Option Life → Option Life
uses context (some (ready held)) = if same_context held context then some (ready held) else none
uses context _ = none

unfoldable pub deletes : Context → Option Life → Option Life
deletes context (some (pending held)) = if same_context held context then some gone else none
deletes context (some (ready held)) = if same_context held context then some gone else none
deletes context (some (broken held)) = if same_context held context then some gone else none
deletes context _ = none

unfoldable pub life : Trace → Option Life
life [] = some fresh
life (Event.gss_init_sec_context args r ∷ t) = establishes args.context r.major r.context (life t)
life (Event.gss_accept_sec_context args r ∷ t) = establishes args.context r.major r.context (life t)
life (Event.gss_inquire_context context r ∷ t) = uses context (life t)
life (Event.gss_wrap_size_limit context conf n r ∷ t) = uses context (life t)
life (Event.gss_wrap context conf input r ∷ t) = uses context (life t)
life (Event.gss_unwrap context input r ∷ t) = uses context (life t)
life (Event.gss_get_mic context message r ∷ t) = uses context (life t)
life (Event.gss_verify_mic context message mic r ∷ t) = uses context (life t)
life (Event.gss_delete_sec_context context major ∷ t) = deletes context (life t)
life (_ ∷ t) = life t

pub life-Ignores : Ignores life
unfolding life
life-Ignores = record {
  read = λ _ _ _ _. refl;
  write = λ _ _ _ _. refl;
  malloc = λ _ _. refl;
  fopen = λ _ _ _. refl;
  fwrite = λ _ _ _. refl;
  fclose = λ _. refl;
  printf = λ _ _ _. refl;
  display = λ _ _ _ _. refl;
  release = λ _ _. refl;
}

-- What a call changes, one lemma for each kind of call.
pub establishes-fresh :
    (major : Major) (result : Context)
    → establishes none major result (some fresh) ≡ some (after major result)
unfolding establishes
establishes-fresh major result = refl

pub establishes-pending :
    (context : Context) (major : Major) (result : Context)
    → establishes context major result (some (pending context)) ≡ some (after major result)
unfolding establishes
establishes-pending context major result = rw (same_context_refl context)

pub uses-ready : (context : Context) → uses context (some (ready context)) ≡ some (ready context)
unfolding uses
uses-ready context = rw (same_context_refl context)

pub deletes-ready : (context : Context) → deletes context (some (ready context)) ≡ some gone
unfolding deletes
deletes-ready context = rw (same_context_refl context)

pub deletes-pending : (context : Context) → deletes context (some (pending context)) ≡ some gone
unfolding deletes
deletes-pending context = rw (same_context_refl context)

-- `some` is undone.
pub some_inj {ℓ} : {A : Type ℓ} (a b : A) → some a ≡ some b → a ≡ b
some_inj a b e = cc
