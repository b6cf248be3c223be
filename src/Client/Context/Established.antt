-- ===== src/Client/Context/Established.antt =====
-- When establish_context of application/gssapi/client.c reports success, GSS-API has.
use kerberos.Base.{
  ℕ, zero, suc, ◌≡◌, refl, Bool, true, not, ◌||◌, Option, none, some, [], ◌∷◌, ◌++◌, if◌then◌else◌,
  arith,
}
use kerberos.World.{
  Bytes, Status, success, failure, Major, complete, Context, Oid, InitReply, Event, Trace, Os, Gss,
  Run, done, exited, fault, hung, Prog, pure, ◌>>◌, and_then, gss_release_name, if_rule,
  newest_init, newest_init-Ignores,
}
use kerberos.Wire.Plain.{send_token-Keeps, recv_token-Keeps}
use kerberos.Display.{is_complete, is_continue, display_status}
use kerberos.Display.Plain.{display_status-Keeps}
use kerberos.Client.Context.{
  Round, stop, over, reject, await_token, offer_token, establish_round, establish_loop,
  establish_context,
}
use kerberos.Client.Context.Names.{record_if-Keeps}

-- Success means that the newest call of `gss_init_sec_context` completed the context returned.
abbrev pub Established : Run (Status × Context) → Type 0
Established (done (success, ctx) u) = newest_init u ≡ some (ctx, complete)
Established (done (failure, ctx) u) = Unit
Established (exited n u) = ⊥
Established fault = Unit
Established hung = Unit

module _ (os : Os) (gss : Gss) (fuel fd target : ℕ) (on : Bool) where
  -- A round that reaches its end holds the context and the status of the newest call, and the
  -- status is GSS_S_COMPLETE or GSS_S_CONTINUE_NEEDED.
  abbrev AfterRound : Run Round → Type 0
  AfterRound (done (stop ctx) u) = Unit
  AfterRound (done (over ctx major input count) u) =
      (newest_init u ≡ some (ctx, major)) × ((is_complete major || is_continue major) ≡ true)
  AfterRound (exited n u) = ⊥
  AfterRound fault = Unit
  AfterRound hung = Unit

  module _ (r : InitReply) (good : (is_complete r.major || is_continue r.major) ≡ true) where
    await_token-AfterRound :
        (input : Option Bytes) (count : ℕ) (t : Trace)
        → newest_init t ≡ some (r.context, r.major)
        → AfterRound (await_token os gss fuel fd target on r input count t)
    unfolding await_token newest_init
    await_token-AfterRound input count t h = grind (
      arith,
      recv_token-Keeps newest_init newest_init-Ignores os fuel fd,
      record_if-Keeps newest_init newest_init-Ignores os gss fuel on,
    )

    offer_token-AfterRound :
        (input : Option Bytes) (count : ℕ) (t : Trace)
        → newest_init t ≡ some (r.context, r.major)
        → AfterRound (offer_token os gss fuel fd target on r input count t)
    unfolding offer_token newest_init
    offer_token-AfterRound input count t h = grind (
      arith,
      send_token-Keeps newest_init newest_init-Ignores os fuel fd,
      record_if-Keeps newest_init newest_init-Ignores os gss fuel on,
      await_token-AfterRound,
    )

  reject-AfterRound :
      (r : InitReply) (minor : ℕ) (t : Trace) → AfterRound (reject os gss fuel target r minor t)
  unfolding reject
  reject-AfterRound r minor t =
      grind (arith, display_status-Keeps newest_init newest_init-Ignores gss fuel)

  dispatch-AfterRound :
      (r : InitReply) (minor : ℕ) (input : Option Bytes) (count : ℕ) (u : Trace)
      → newest_init u ≡ some (r.context, r.major)
      → AfterRound (
          (if not (is_complete r.major || is_continue r.major)
              then reject os gss fuel target r minor
              else offer_token os gss fuel fd target on r input count)
            u)
  dispatch-AfterRound r minor input count u e =
      if_rule AfterRound u (not (is_complete r.major || is_continue r.major))
        (reject os gss fuel target r minor) (offer_token os gss fuel fd target on r input count)
        (λ _. reject-AfterRound r minor u)
        (λ ok. offer_token-AfterRound r (ground arith) input count u e)

  establish_round-AfterRound :
      (mech : Option Oid) (ctx : Context) (input : Option Bytes) (count : ℕ) (t : Trace)
      → AfterRound (establish_round os gss fuel fd target mech on ctx input count t)
  unfolding establish_round newest_init
  establish_round-AfterRound mech ctx none count t = dispatch-AfterRound _ _ none count _ refl
  establish_round-AfterRound mech ctx (some token) count t =
      dispatch-AfterRound _ _ (some []) count _ refl

  AfterRound-bind :
      (r : Run Round) (k : Round → Prog (Status × Context))
      → AfterRound r
      → ((ctx : Context) (u : Trace) → Established (k (stop ctx) u))
      → ((ctx : Context) (major : Major) (input : Option Bytes) (count : ℕ) (u : Trace)
          → newest_init u ≡ some (ctx, major)
          → (is_complete major || is_continue major) ≡ true
          → Established (k (over ctx major input count) u))
      → Established (and_then r k)
  AfterRound-bind (done (stop ctx) u) k h f g = f ctx u
  AfterRound-bind (done (over ctx major input count) u) k (h, h') f g =
      g ctx major input count u h h'
  AfterRound-bind (exited n u) k h f g = absurd h
  AfterRound-bind fault k h f g = tt
  AfterRound-bind hung k h f g = tt

  pub establish_loop-Established :
      (rounds : ℕ) (mech : Option Oid) (ctx : Context) (input : Option Bytes) (count : ℕ)
      (t : Trace)
      → Established (establish_loop os gss fuel rounds fd target mech on ctx input count t)
  unfolding establish_loop newest_init
  establish_loop-Established zero mech ctx input count t = tt
  establish_loop-Established (suc rounds) mech ctx input count t =
      AfterRound-bind (establish_round os gss fuel fd target mech on ctx input count t) _
        (establish_round-AfterRound mech ctx input count t) (λ ctx' u. tt)
        (λ ctx' major next count' u h good.
          if_rule Established u (is_continue major)
            (establish_loop os gss fuel rounds fd target mech on ctx' next count')
            (gss_release_name target >> pure (success, ctx'))
            (λ _. establish_loop-Established rounds mech ctx' next count' u)
            (λ done_now. ground arith))

module _ (os : Os) (gss : Gss) (fuel fd : ℕ) (service_name : Bytes) (mech : Option Oid)
    (on : Bool) where
  establish_context_lem :
      (t : Trace) → Established (establish_context os gss fuel fd service_name mech on t)
  unfolding establish_context
  establish_context_lem t =
      let n = gss.import_name t (service_name ++ (0 ∷ [])) in
      if_rule Established (Event.gss_import_name (service_name ++ (0 ∷ [])) n ∷ t)
        (not (is_complete n.major))
        (display_status gss fuel "client gss_import_name" n.major n.minor >> pure (failure, none))
        (establish_loop os gss fuel fuel fd n.name mech on none none 0)
        (λ _. grind (arith, display_status-Keeps newest_init newest_init-Ignores gss fuel))
        (λ _. establish_loop-Established os gss fuel fd n.name on fuel mech none none 0 _)

  -- If the client's `establish_context` returns 0, the newest call of gss_init_sec_context
  -- returned GSS_S_COMPLETE and the context that `establish_context` hands out.
  pub establish_context-newest_init :
      (t u : Trace) (ctx : Context)
      → establish_context os gss fuel fd service_name mech on t ≡ done (success, ctx) u
      → newest_init u ≡ some (ctx, complete)
  establish_context-newest_init t u ctx e = rw e at (establish_context_lem t)
