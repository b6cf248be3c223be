-- ===== src/Client/Context/Names.antt =====
-- Each way out of establish_context of application/gssapi/client.c, by the names that it releases.
use kerberos.Base.{
  ℕ, zero, suc, ◌≡◌, refl, ◌∙◌, ap, Bool, true, false, not, ◌||◌, Option, none, some, [], ◌∷◌, ◌++◌,
  if◌then◌else◌, arith,
}
use kerberos.World.{
  Bytes, Status, success, failure, Major, Context, Oid, InitReply, Event, Trace, Os, Gss, Run, done,
  exited, fault, hung, Prog, pure, ◌>>◌, and_then, gss_release_name, Ignores, IgnoresInput,
  IgnoresInput-of_Ignores, Keeps, Keeps-bind, if_rule, released, released-Ignores,
}
use kerberos.Wire.Plain.{send_token-Keeps, recv_token-Keeps}
use kerberos.Display.{is_complete, is_continue, display_status}
use kerberos.Display.Plain.{display_status-Keeps}
use kerberos.Recording.{token_filename}
use kerberos.Recording.Plain.{token_filename-Keeps, record_token-Keeps}
use kerberos.Client.Context.{
  Round, stop, over, record_if, reject, await_token, offer_token, establish_round, establish_loop,
  establish_context,
}

pub record_if-KeepsInput :
    {C : Type 0} (f : Trace → C) (J : IgnoresInput f) (os : Os) (gss : Gss) (fuel : ℕ) (on : Bool)
    (prefix : Bytes) (count : ℕ) (token : Bytes) (t : Trace)
    → Keeps f t (record_if os gss fuel on prefix count token t)
unfolding record_if
record_if-KeepsInput f J os gss fuel false prefix count token t = refl
record_if-KeepsInput f J os gss fuel true prefix count token t =
    Keeps-bind f t (token_filename prefix count t) _ (token_filename-Keeps f J prefix count t)
      λ name u h. grind (arith, J.printf, record_token-Keeps f J os token name)

pub record_if-Keeps :
    {C : Type 0} (f : Trace → C) (I : Ignores f) (os : Os) (gss : Gss) (fuel : ℕ) (on : Bool)
    (prefix : Bytes) (count : ℕ) (token : Bytes) (t : Trace)
    → Keeps f t (record_if os gss fuel on prefix count token t)
record_if-Keeps f I = record_if-KeepsInput f (IgnoresInput-of_Ignores f I)

-- The function releases the target name once.
abbrev ReleasesTarget : ℕ → Trace → Run (Status × Context) → Type 0
ReleasesTarget target t (done result u) = released u ≡ some target ∷ released t
ReleasesTarget target t (exited n u) = ⊥
ReleasesTarget target t fault = Unit
ReleasesTarget target t hung = Unit

module _ (os : Os) (gss : Gss) (fuel fd target : ℕ) (on : Bool) where
  -- A round of the loop releases the target name exactly if it makes the function return -1.
  abbrev AfterRound : Trace → Run Round → Type 0
  AfterRound t (done (stop ctx) u) = released u ≡ some target ∷ released t
  AfterRound t (done (over ctx major input count) u) = released u ≡ released t
  AfterRound t (exited n u) = ⊥
  AfterRound t fault = Unit
  AfterRound t hung = Unit

  await_token-AfterRound :
      (r : InitReply) (input : Option Bytes) (count : ℕ) (t : Trace)
      → AfterRound t (await_token os gss fuel fd target on r input count t)
  unfolding await_token released
  await_token-AfterRound r input count t = grind (
    arith,
    recv_token-Keeps released released-Ignores os fuel fd,
    record_if-Keeps released released-Ignores os gss fuel on,
  )

  offer_token-AfterRound :
      (r : InitReply) (input : Option Bytes) (count : ℕ) (t : Trace)
      → AfterRound t (offer_token os gss fuel fd target on r input count t)
  unfolding offer_token released
  offer_token-AfterRound r input count t = grind (
    arith,
    send_token-Keeps released released-Ignores os fuel fd,
    record_if-Keeps released released-Ignores os gss fuel on,
    await_token-AfterRound,
  )

  reject-AfterRound :
      (r : InitReply) (minor : ℕ) (t : Trace) → AfterRound t (reject os gss fuel target r minor t)
  unfolding reject released
  reject-AfterRound r minor t =
      grind (arith, display_status-Keeps released released-Ignores gss fuel)

  AfterRound-from :
      (t u : Trace) (r : Run Round) → released u ≡ released t → AfterRound u r → AfterRound t r
  AfterRound-from t u (done (stop ctx) v) e h = cc
  AfterRound-from t u (done (over ctx major input count) v) e h = cc
  AfterRound-from t u (exited n v) e h = h
  AfterRound-from t u fault e h = tt
  AfterRound-from t u hung e h = tt

  -- What follows the call of `gss_init_sec_context`.
  dispatch-AfterRound :
      (r : InitReply) (minor : ℕ) (input : Option Bytes) (count : ℕ) (t u : Trace)
      → released u ≡ released t
      → AfterRound t (
          (if not (is_complete r.major || is_continue r.major)
              then reject os gss fuel target r minor
              else offer_token os gss fuel fd target on r input count)
            u)
  dispatch-AfterRound r minor input count t u e =
      if_rule (AfterRound t) u (not (is_complete r.major || is_continue r.major))
        (reject os gss fuel target r minor) (offer_token os gss fuel fd target on r input count)
        (λ _. AfterRound-from t u _ e (reject-AfterRound r minor u))
        (λ _. AfterRound-from t u _ e (offer_token-AfterRound r input count u))

  establish_round-AfterRound :
      (mech : Option Oid) (ctx : Context) (input : Option Bytes) (count : ℕ) (t : Trace)
      → AfterRound t (establish_round os gss fuel fd target mech on ctx input count t)
  unfolding establish_round released
  establish_round-AfterRound mech ctx none count t = dispatch-AfterRound _ _ none count t _ refl
  establish_round-AfterRound mech ctx (some token) count t =
      dispatch-AfterRound _ _ (some []) count t _ refl

  ReleasesTarget-from :
      (t u : Trace) (r : Run (Status × Context))
      → released u ≡ released t
      → ReleasesTarget target u r
      → ReleasesTarget target t r
  ReleasesTarget-from t u (done result v) e h = cc
  ReleasesTarget-from t u (exited n v) e h = h
  ReleasesTarget-from t u fault e h = tt
  ReleasesTarget-from t u hung e h = tt

  AfterRound-bind :
      (t : Trace) (r : Run Round) (k : Round → Prog (Status × Context))
      → AfterRound t r
      → ((ctx : Context) (u : Trace)
          → released u ≡ some target ∷ released t
          → ReleasesTarget target t (k (stop ctx) u))
      → ((ctx : Context) (major : Major) (input : Option Bytes) (count : ℕ) (u : Trace)
          → released u ≡ released t
          → ReleasesTarget target t (k (over ctx major input count) u))
      → ReleasesTarget target t (and_then r k)
  AfterRound-bind t (done (stop ctx) u) k h f g = f ctx u h
  AfterRound-bind t (done (over ctx major input count) u) k h f g = g ctx major input count u h
  AfterRound-bind t (exited n u) k h f g = absurd h
  AfterRound-bind t fault k h f g = tt
  AfterRound-bind t hung k h f g = tt

  establish_loop-ReleasesTarget :
      (rounds : ℕ) (mech : Option Oid) (ctx : Context) (input : Option Bytes) (count : ℕ)
      (t : Trace)
      → ReleasesTarget target t
          (establish_loop os gss fuel rounds fd target mech on ctx input count t)
  unfolding establish_loop released
  establish_loop-ReleasesTarget zero mech ctx input count t = tt
  establish_loop-ReleasesTarget (suc rounds) mech ctx input count t =
      AfterRound-bind t (establish_round os gss fuel fd target mech on ctx input count t) _
        (establish_round-AfterRound mech ctx input count t) (λ ctx' u h. h)
        (λ ctx' major next count' u h.
          if_rule (ReleasesTarget target t) u (is_continue major)
            (establish_loop os gss fuel rounds fd target mech on ctx' next count')
            (gss_release_name target >> pure (success, ctx'))
            (λ _.
              ReleasesTarget-from t u _ h
                (establish_loop-ReleasesTarget rounds mech ctx' next count' u))
            (λ _. ap (λ l. some target ∷ l) h))

module _ (os : Os) (gss : Gss) (fuel fd : ℕ) (service_name : Bytes) (mech : Option Oid)
    (on : Bool) where
  abbrev ReleasesImported : Trace → Run (Status × Context) → Type 0
  ReleasesImported t (done result u) =
      let n = gss.import_name t (service_name ++ (0 ∷ [])) in
      released u ≡ (if is_complete n.major then some n.name ∷ released t else released t)
  ReleasesImported t (exited n u) = ⊥
  ReleasesImported t fault = Unit
  ReleasesImported t hung = Unit

  of_ReleasesTarget :
      (t u : Trace) (r : Run (Status × Context))
      → let n = gss.import_name t (service_name ++ (0 ∷ [])) in
        is_complete n.major ≡ true
        → released u ≡ released t
        → ReleasesTarget n.name u r
        → ReleasesImported t r
  of_ReleasesTarget t u (done result v) ok e h =
      rw ok (h ∙ ap (λ l. some (gss.import_name t (service_name ++ (0 ∷ []))).name ∷ l) e)
  of_ReleasesTarget t u (exited n v) ok e h = h
  of_ReleasesTarget t u fault ok e h = tt
  of_ReleasesTarget t u hung ok e h = tt

  establish_context-ReleasesImported :
      (t : Trace) → ReleasesImported t (establish_context os gss fuel fd service_name mech on t)
  unfolding establish_context released
  establish_context-ReleasesImported t =
      let n = gss.import_name t (service_name ++ (0 ∷ [])) in
      let t' = Event.gss_import_name (service_name ++ (0 ∷ [])) n ∷ t in
      if_rule (ReleasesImported t) t' (not (is_complete n.major))
        (display_status gss fuel "client gss_import_name" n.major n.minor >> pure (failure, none))
        (establish_loop os gss fuel fuel fd n.name mech on none none 0)
        (λ bad. grind (arith, display_status-Keeps released released-Ignores gss fuel))
        (λ ok.
          of_ReleasesTarget t t' _ (ground arith) refl
            (establish_loop-ReleasesTarget os gss fuel fd n.name on fuel mech none none 0 t'))

  -- Whenever the client's `establish_context` returns, with 0 or with -1, it has released the name
  -- that it imported exactly once, and no other name; if the import failed it has released none.
  pub establish_context-released :
      (t u : Trace) (result : Status × Context)
      → establish_context os gss fuel fd service_name mech on t ≡ done result u
      → let n = gss.import_name t (service_name ++ (0 ∷ [])) in
        released u ≡ (if is_complete n.major then some n.name ∷ released t else released t)
  establish_context-released t u result e = rw e at (establish_context-ReleasesImported t)
