-- ===== src/Client/Context/Lives.antt =====
-- establish_context of application/gssapi/client.c leads the life of a context as the step relation
-- of Session lets it.
use kerberos.Base.{
  ℕ, zero, suc, ◌≡◌, refl, ◌∙◌, ap, Bool, true, false, not, ◌||◌, Option, none, some, [], ◌∷◌, ◌++◌,
  if◌then◌else◌, arith, inl, inr, ◌⊎◌,
}
use kerberos.World.{
  Bytes, Status, success, failure, Major, complete, continue_needed, no_context, other_status,
  Context, Oid, InitReply, Event, Trace, Os, Gss, Run, done, exited, fault, hung, Prog, pure, ◌>>◌,
  and_then, gss_release_name, if_rule,
}
use kerberos.Wire.Plain.{send_token-Keeps, recv_token-Keeps}
use kerberos.Display.{is_complete, is_continue, display_status}
use kerberos.Display.Plain.{display_status-Keeps}
use kerberos.Session.{Life, fresh, pending, ready, gone, after}
use kerberos.Session.Runs.{IsLawful}
use kerberos.Session.Monitor.{
  life, life-Ignores, establishes, establishes-fresh, establishes-pending, deletes, deletes-ready,
  deletes-pending,
}
use kerberos.Client.Context.{
  Round, stop, over, reject, await_token, offer_token, establish_round, establish_loop,
  establish_context,
}
use kerberos.Client.Context.Names.{record_if-Keeps}

deletes-after :
    (major : Major) (context : Context)
    → (is_complete major || is_continue major) ≡ true
    → deletes context (some (after major context)) ≡ some gone
deletes-after complete context h = deletes-ready context
deletes-after continue_needed context h = deletes-pending context
deletes-after no_context context h = cc
deletes-after (other_status n) context h = cc

-- What the whole function leaves: an established context, or at least nothing unlawful.
abbrev pub Lives : Run (Status × Context) → Type 0
Lives (done (success, ctx) u) = life u ≡ some (ready ctx)
Lives (done (failure, ctx) u) = IsLawful u
Lives (exited n u) = ⊥
Lives fault = Unit
Lives hung = Unit

pending_of :
    (major : Major) (ctx : Context) → is_continue major ≡ true → after major ctx ≡ pending ctx
pending_of major ctx h = ground arith

ready_of :
    (major : Major) (ctx : Context)
    → (is_complete major || is_continue major) ≡ true
    → is_continue major ≡ false
    → after major ctx ≡ ready ctx
ready_of major ctx h k = ground arith

-- The life before a round: none on the first one, or one that goes on.
abbrev Waits : Context → Option Life → Type 0
Waits ctx l = ((l ≡ some fresh) × (ctx ≡ none)) ⊎ (l ≡ some (pending ctx))

establishes-Waits :
    (ctx : Context) (major : Major) (result : Context) (l : Option Life)
    → Waits ctx l
    → establishes ctx major result l ≡ some (after major result)
establishes-Waits ctx major result l (inl (e, n)) = rw (e, n) (establishes-fresh major result)
establishes-Waits ctx major result l (inr e) = rw e (establishes-pending ctx major result)

module _ (os : Os) (gss : Gss) (fuel fd target : ℕ) (on : Bool) where
  abbrev AfterRound : Run Round → Type 0
  AfterRound (done (stop ctx) u) = IsLawful u
  AfterRound (done (over ctx major input count) u) =
      (life u ≡ some (after major ctx)) × ((is_complete major || is_continue major) ≡ true)
  AfterRound (exited n u) = ⊥
  AfterRound fault = Unit
  AfterRound hung = Unit

  module _ (r : InitReply) (good : (is_complete r.major || is_continue r.major) ≡ true) where
    await_token-AfterRound :
        (input : Option Bytes) (count : ℕ) (t : Trace)
        → life t ≡ some (after r.major r.context)
        → AfterRound (await_token os gss fuel fd target on r input count t)
    unfolding await_token life
    await_token-AfterRound input count t h = grind (
      arith,
      recv_token-Keeps life life-Ignores os fuel fd,
      record_if-Keeps life life-Ignores os gss fuel on,
    )

    offer_token-AfterRound :
        (input : Option Bytes) (count : ℕ) (t : Trace)
        → life t ≡ some (after r.major r.context)
        → AfterRound (offer_token os gss fuel fd target on r input count t)
    unfolding offer_token life
    offer_token-AfterRound input count t h = grind (
      arith,
      send_token-Keeps life life-Ignores os fuel fd,
      record_if-Keeps life life-Ignores os gss fuel on,
      await_token-AfterRound,
      deletes-after r.major r.context,
    )

  reject-AfterRound :
      (r : InitReply) (minor : ℕ) (t : Trace)
      → IsLawful t
      → AfterRound (reject os gss fuel target r minor t)
  unfolding reject life
  reject-AfterRound r minor t h = grind (arith, display_status-Keeps life life-Ignores gss fuel)

  dispatch-AfterRound :
      (r : InitReply) (minor : ℕ) (input : Option Bytes) (count : ℕ) (u : Trace)
      → life u ≡ some (after r.major r.context)
      → AfterRound (
          (if not (is_complete r.major || is_continue r.major)
              then reject os gss fuel target r minor
              else offer_token os gss fuel fd target on r input count)
            u)
  dispatch-AfterRound r minor input count u e =
      if_rule AfterRound u (not (is_complete r.major || is_continue r.major))
        (reject os gss fuel target r minor) (offer_token os gss fuel fd target on r input count)
        (λ _. reject-AfterRound r minor u (λ n. cc))
        (λ ok. offer_token-AfterRound r (ground arith) input count u e)

  establish_round-AfterRound :
      (mech : Option Oid) (ctx : Context) (input : Option Bytes) (count : ℕ) (t : Trace)
      → Waits ctx (life t)
      → AfterRound (establish_round os gss fuel fd target mech on ctx input count t)
  unfolding establish_round life
  establish_round-AfterRound mech ctx none count t w =
      dispatch-AfterRound _ _ none count _ (establishes-Waits ctx _ _ (life t) w)
  establish_round-AfterRound mech ctx (some token) count t w =
      dispatch-AfterRound _ _ (some []) count _ (establishes-Waits ctx _ _ (life t) w)

  AfterRound-bind :
      (r : Run Round) (k : Round → Prog (Status × Context))
      → AfterRound r
      → ((ctx : Context) (u : Trace) → IsLawful u → Lives (k (stop ctx) u))
      → ((ctx : Context) (major : Major) (input : Option Bytes) (count : ℕ) (u : Trace)
          → life u ≡ some (after major ctx)
          → (is_complete major || is_continue major) ≡ true
          → Lives (k (over ctx major input count) u))
      → Lives (and_then r k)
  AfterRound-bind (done (stop ctx) u) k h f g = f ctx u h
  AfterRound-bind (done (over ctx major input count) u) k (h, h') f g =
      g ctx major input count u h h'
  AfterRound-bind (exited n u) k h f g = absurd h
  AfterRound-bind fault k h f g = tt
  AfterRound-bind hung k h f g = tt

  establish_loop-Lives :
      (rounds : ℕ) (mech : Option Oid) (ctx : Context) (input : Option Bytes) (count : ℕ)
      (t : Trace)
      → Waits ctx (life t)
      → Lives (establish_loop os gss fuel rounds fd target mech on ctx input count t)
  unfolding establish_loop life
  establish_loop-Lives zero mech ctx input count t w = tt
  establish_loop-Lives (suc rounds) mech ctx input count t w =
      AfterRound-bind (establish_round os gss fuel fd target mech on ctx input count t) _
        (establish_round-AfterRound mech ctx input count t w) (λ ctx' u h. h)
        (λ ctx' major next count' u h good.
          if_rule Lives u (is_continue major)
            (establish_loop os gss fuel rounds fd target mech on ctx' next count')
            (gss_release_name target >> pure (success, ctx'))
            (λ e.
              establish_loop-Lives rounds mech ctx' next count' u
                (inr (h ∙ ap (λ l. some l) (pending_of major ctx' e))))
            (λ e. h ∙ ap (λ l. some l) (ready_of major ctx' good e)))

module _ (os : Os) (gss : Gss) (fuel fd : ℕ) (service_name : Bytes) (mech : Option Oid)
    (on : Bool) where
  pub establish_context-Lives :
      (t : Trace)
      → life t ≡ some fresh
      → Lives (establish_context os gss fuel fd service_name mech on t)
  unfolding establish_context life
  establish_context-Lives t h =
      let n = gss.import_name t (service_name ++ (0 ∷ [])) in
      if_rule Lives (Event.gss_import_name (service_name ++ (0 ∷ [])) n ∷ t)
        (not (is_complete n.major))
        (display_status gss fuel "client gss_import_name" n.major n.minor >> pure (failure, none))
        (establish_loop os gss fuel fuel fd n.name mech on none none 0)
        (λ _. grind (arith, display_status-Keeps life life-Ignores gss fuel))
        (λ _. establish_loop-Lives os gss fuel fd n.name on fuel mech none none 0 _ (inl (h, refl)))
