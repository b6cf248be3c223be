-- ===== src/Session/Paths.antt =====
-- The monitor of Session.Monitor and the relation of Session.
use kerberos.Base.{◌≡◌, refl, ◌∙◌, true, Option, none, some, [], ◌∷◌, arith, inl, inr, ◌⊎◌}
use kerberos.World.{Major, Context, Event, Trace}
use kerberos.Session.{
  Life, fresh, pending, ready, broken, gone, after, Holds, Step, begin_init, resume_init,
  begin_accept, resume_accept, inquire, limit, wrap, unwrap, get_mic, verify_mic, delete, is_silent,
  Follows, start, silent, moves,
}
use kerberos.Session.Monitor.{
  same_context_refl, eq_of_same_context, establishes, uses, deletes, life, establishes-fresh,
  establishes-pending, uses-ready, deletes-ready, deletes-pending, some_inj,
}

-- What is accepted, is accepted from a life that allows it.
uses_inv :
    (context : Context) (o : Option Life) (l : Life)
    → uses context o ≡ some l
    → (o ≡ some (ready context)) × (l ≡ ready context)
unfolding uses
uses_inv context none l h = cc
uses_inv context (some fresh) l h = cc
uses_inv context (some (pending held)) l h = cc
uses_inv context (some (broken held)) l h = cc
uses_inv context (some gone) l h = cc
uses_inv context (some (ready held)) l h = ground (arith, eq_of_same_context held context)

establishes_inv :
    (context : Context) (major : Major) (result : Context) (o : Option Life) (l : Life)
    → establishes context major result o ≡ some l
    → (l ≡ after major result)
      × (((o ≡ some fresh) × (context ≡ none)) ⊎ (o ≡ some (pending context)))
unfolding establishes
establishes_inv context major result none l h = cc
establishes_inv context major result (some fresh) l h =
    ground (arith, eq_of_same_context context none)
establishes_inv context major result (some (pending held)) l h =
    ground (arith, eq_of_same_context context held)
establishes_inv context major result (some (ready held)) l h = cc
establishes_inv context major result (some (broken held)) l h = cc
establishes_inv context major result (some gone) l h = cc

deletes_inv :
    (context : Context) (o : Option Life) (l : Life)
    → deletes context o ≡ some l
    → (l ≡ gone) × ((m : Life) × (o ≡ some m) × Holds m context)
unfolding deletes
deletes_inv context none l h = cc
deletes_inv context (some fresh) l h = cc
deletes_inv context (some (pending held)) l h =
    (ground arith, (pending held, refl, ground (arith, eq_of_same_context held context)))
deletes_inv context (some (ready held)) l h =
    (ground arith, (ready held, refl, ground (arith, eq_of_same_context held context)))
deletes_inv context (some (broken held)) l h =
    (ground arith, (broken held, refl, ground (arith, eq_of_same_context held context)))
deletes_inv context (some gone) l h = cc

-- A call of each kind, behind a path to what it needs.
Follows-use :
    (t : Trace) (e : Event) (context : Context) (l : Life)
    → ((m : Life) → life t ≡ some m → Follows t m)
    → Step (ready context) e (ready context)
    → uses context (life t) ≡ some l
    → Follows (e ∷ t) l
Follows-use t e context l ih step h =
    let (before, now) = uses_inv context (life t) l h in
    rw now (moves e t (ready context) (ready context) (ih (ready context) before) step)

Follows-establish :
    (t : Trace) (e : Event) (context : Context) (major : Major) (result : Context) (l : Life)
    → ((m : Life) → life t ≡ some m → Follows t m)
    → (context ≡ none → Step fresh e (after major result))
    → Step (pending context) e (after major result)
    → establishes context major result (life t) ≡ some l
    → Follows (e ∷ t) l
Follows-establish t e context major result l ih begin resume h =
    let (now, before) = establishes_inv context major result (life t) l h in
    elim before [
      | inl (b, n) ↦ rw now (moves e t fresh (after major result) (ih fresh b) (begin n))
      | inr b ↦
          rw now (moves e t (pending context) (after major result) (ih (pending context) b) resume)
    ]

-- The monitor accepts only paths of the relation.
pub life-Follows : (t : Trace) (l : Life) → life t ≡ some l → Follows t l
unfolding life
life-Follows [] l h = rw (← some_inj fresh l h) start
life-Follows (Event.gss_init_sec_context args r ∷ t) l h =
    Follows-establish t _ args.context r.major r.context l (λ m. life-Follows t m)
      (λ n. begin_init args r n) (resume_init args.context args r refl) h
life-Follows (Event.gss_accept_sec_context args r ∷ t) l h =
    Follows-establish t _ args.context r.major r.context l (λ m. life-Follows t m)
      (λ n. begin_accept args r n) (resume_accept args.context args r refl) h
life-Follows (Event.gss_inquire_context context r ∷ t) l h =
    Follows-use t _ context l (λ m. life-Follows t m) (inquire context r) h
life-Follows (Event.gss_wrap_size_limit context conf n r ∷ t) l h =
    Follows-use t _ context l (λ m. life-Follows t m) (limit context conf n r) h
life-Follows (Event.gss_wrap context conf input r ∷ t) l h =
    Follows-use t _ context l (λ m. life-Follows t m) (wrap context conf input r) h
life-Follows (Event.gss_unwrap context input r ∷ t) l h =
    Follows-use t _ context l (λ m. life-Follows t m) (unwrap context input r) h
life-Follows (Event.gss_get_mic context message r ∷ t) l h =
    Follows-use t _ context l (λ m. life-Follows t m) (get_mic context message r) h
life-Follows (Event.gss_verify_mic context message mic r ∷ t) l h =
    Follows-use t _ context l (λ m. life-Follows t m) (verify_mic context message mic r) h
life-Follows (Event.gss_delete_sec_context context major ∷ t) l h =
    let (now, (m, before, holds)) = deletes_inv context (life t) l h in
    rw now (moves _ t m gone (life-Follows t m before) (delete m context major holds))
life-Follows (e ∷ t) l h = silent e t l refl (life-Follows t l h)

silent_life : (e : Event) (t : Trace) → is_silent e ≡ true → life (e ∷ t) ≡ life t
unfolding life
silent_life (Event.gss_init_sec_context args r) t h = cc
silent_life (Event.gss_accept_sec_context args r) t h = cc
silent_life (Event.gss_inquire_context context r) t h = cc
silent_life (Event.gss_wrap_size_limit context conf n r) t h = cc
silent_life (Event.gss_wrap context conf input r) t h = cc
silent_life (Event.gss_unwrap context input r) t h = cc
silent_life (Event.gss_get_mic context message r) t h = cc
silent_life (Event.gss_verify_mic context message mic r) t h = cc
silent_life (Event.gss_delete_sec_context context major) t h = cc
silent_life e t h = refl

deletes-Holds :
    (l : Life) (context : Context) → Holds l context → deletes context (some l) ≡ some gone
unfolding deletes
deletes-Holds fresh context h = absurd h
deletes-Holds (pending held) context h = rw (← h) (deletes-pending held)
deletes-Holds (ready held) context h = rw (← h) (deletes-ready held)
deletes-Holds (broken held) context h = rw (← h, same_context_refl held)
deletes-Holds gone context h = absurd h

step_life :
    {l m : Life} {e : Event} (t : Trace) → Step l e m → life t ≡ some l → life (e ∷ t) ≡ some m
unfolding life
step_life t (begin_init args r n) h = rw (n, h) (establishes-fresh r.major r.context)
step_life t (resume_init context args r n) h =
    rw (n, h) (establishes-pending context r.major r.context)
step_life t (begin_accept args r n) h = rw (n, h) (establishes-fresh r.major r.context)
step_life t (resume_accept context args r n) h =
    rw (n, h) (establishes-pending context r.major r.context)
step_life t (inquire context r) h = rw h (uses-ready context)
step_life t (limit context conf n r) h = rw h (uses-ready context)
step_life t (wrap context conf input r) h = rw h (uses-ready context)
step_life t (unwrap context input r) h = rw h (uses-ready context)
step_life t (get_mic context message r) h = rw h (uses-ready context)
step_life t (verify_mic context message mic r) h = rw h (uses-ready context)
step_life t (delete l context major holds) h = rw h (deletes-Holds l context holds)

-- The monitor accepts every path of the relation.
pub Follows-life : {t : Trace} {l : Life} → Follows t l → life t ≡ some l
unfolding life
Follows-life start = refl
Follows-life (silent e t l h f) = silent_life e t h ∙ Follows-life f
Follows-life (moves e t l m f s) = step_life t s (Follows-life f)
