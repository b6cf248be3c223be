-- ===== src/Client/Context/Spoken.antt =====
-- What establish_context of application/gssapi/client.c has sent when it succeeds.
use kerberos.Base.{
  ◌^◌, ◌<◌, ℕ, zero, suc, ◌≡◌, refl, sym, ◌∙◌, Bool, true, false, not, ◌||◌, ◌&&◌, ◌==◌, Option,
  none, some, [], ◌∷◌, ◌++◌, if◌then◌else◌, arith, length,
}
use kerberos.World.{
  InitArgs, bind_rule, Bytes, Status, success, failure, Major, Context, Oid, InitReply, Event,
  Trace, Os, Gss, Run, done, exited, fault, hung, Prog, pure, ◌>>◌, and_then, gss_release_name,
  if_rule, Keeps,
}
use kerberos.Wire.{send_token, recv_token}
use kerberos.Wire.Plain.{recv_token-KeepsInput, recv_token-Keeps}
use kerberos.Wire.Writes.{sent}
use kerberos.Wire.Tokens.{frame}
use kerberos.Wire.Whole.{TakesWhole}
use kerberos.Wire.Outbox.{
  spoken, spoken-Ignores, sent-IgnoresInput, IsPaid, Owes, send_token-Pays, Pays-rule, Owes-Keeps,
  IsPaid-Keeps,
}
use kerberos.Display.{is_complete, is_continue, display_status}
use kerberos.Client.Context.{
  Round, stop, over, record_if, recv_prefix, send_prefix, reject, await_token, offer_token,
  establish_round, establish_loop, establish_context,
}
use kerberos.Client.Context.Names.{record_if-KeepsInput, record_if-Keeps}

-- With success nothing is owed to the peer.
abbrev pub Spoken : ℕ → Run (Status × Context) → Type 0
Spoken fd (done (success, ctx) u) = IsPaid fd u
Spoken fd _ = Unit

Spoken-failing :
    {A : Type 0} (fd : ℕ) (r : Run A) (ctx : Context)
    → Spoken fd (and_then r (λ _. pure (failure, ctx)))
Spoken-failing fd r ctx = bind_rule (Spoken fd) r _ (λ _ _. tt) tt tt (λ _ _ _. tt)

-- At the end of a round nothing is owed.
abbrev AfterRound : ℕ → Run Round → Type 0
AfterRound fd (done (over ctx major input count) u) = IsPaid fd u
AfterRound fd _ = Unit

module _ (os : Os) (gss : Gss) (fuel fd target : ℕ) (on : Bool) (whole : TakesWhole os fd)
    (short : (t : Trace) (args : InitArgs)
      → length (gss.init_sec_context t args).output < 2 ^ 31) where
  AfterRound-Keeps :
      {A : Type 0} (t : Trace) (r : Run A) (k : A → Prog Round)
      → IsPaid fd t
      → Keeps (sent fd) t r
      → Keeps spoken t r
      → ((a : A) (u : Trace) → IsPaid fd u → AfterRound fd (k a u))
      → AfterRound fd (and_then r k)
  AfterRound-Keeps t r k = IsPaid-Keeps fd t r k (AfterRound fd) (λ n u. tt) tt tt

  await_token-AfterRound :
      (r : InitReply) (input : Option Bytes) (count : ℕ) (t : Trace)
      → IsPaid fd t
      → AfterRound fd (await_token os gss fuel fd target on r input count t)
  unfolding await_token sent spoken
  await_token-AfterRound r input count t paid =
      if_rule (AfterRound fd) t (not (is_continue r.major)) _ _ (λ _. paid)
        (λ _.
          let t' = Event.printf "Continue needed...\n" [] ∷ t in
          AfterRound-Keeps t' (recv_token os fuel fd t') _ paid
            (recv_token-KeepsInput (sent fd) (sent-IgnoresInput fd) os fuel fd t')
            (recv_token-Keeps spoken spoken-Ignores os fuel fd t')
            (elim [
              | none ↦ λ u p. tt
              | some token ↦ λ u p.
                  AfterRound-Keeps u (record_if os gss fuel on recv_prefix count token u) _ p
                    (record_if-KeepsInput (sent fd) (sent-IgnoresInput fd) os gss fuel on
                      recv_prefix count token u)
                    (record_if-Keeps spoken spoken-Ignores os gss fuel on recv_prefix count token u)
                    (λ n v q. q)
            ]))

  offer_token-AfterRound :
      (r : InitReply) (input : Option Bytes) (count : ℕ) (t : Trace)
      → length r.output < 2 ^ 31
      → ((length r.output == 0) ≡ true → IsPaid fd t)
      → ((length r.output == 0) ≡ false → Owes fd r.output t)
      → AfterRound fd (offer_token os gss fuel fd target on r input count t)
  unfolding offer_token sent spoken
  offer_token-AfterRound r input count t small paid owed =
      if_rule (AfterRound fd) t (length r.output == 0) _ _ paid (λ e.
        let t' = Event.printf "client: Sending token to server\n" [] ∷ t in
        Owes-Keeps fd r.output t' (record_if os gss fuel on send_prefix count r.output t') _
          (AfterRound fd) (λ n u. tt) tt tt (owed e)
          (record_if-KeepsInput (sent fd) (sent-IgnoresInput fd) os gss fuel on send_prefix count
            r.output t')
          (record_if-Keeps spoken spoken-Ignores os gss fuel on send_prefix count r.output t')
          (λ n u owed'.
            Pays-rule fd (send_token os fuel fd r.output u) _ (AfterRound fd) (λ n v. tt) tt tt
              (send_token-Pays os fd fuel r.output u whole small owed')
              (λ v p. await_token-AfterRound r input n (Event.gss_release_buffer r.output ∷ v) p)))

  reject-AfterRound :
      (r : InitReply) (minor : ℕ) (t : Trace) → AfterRound fd (reject os gss fuel target r minor t)
  unfolding reject
  reject-AfterRound r minor t =
      elim (display_status gss fuel "client gss_init_sec_context" r.major minor t)
        as (λ x.
          AfterRound fd (and_then x (λ _. gss_release_name target >> pure (stop r.context)))) [
            | done a u ↦ tt
            | exited n u ↦ tt
            | fault ↦ tt
            | hung ↦ tt
          ]

  -- What follows the call of `gss_init_sec_context`.
  dispatch-AfterRound :
      (r : InitReply) (minor : ℕ) (input : Option Bytes) (count : ℕ) (t u : Trace)
      → length r.output < 2 ^ 31
      → IsPaid fd t
      → sent fd u ≡ sent fd t
      → spoken u ≡ (
          if (is_complete r.major || is_continue r.major) && not (length r.output == 0)
          then spoken t ++ frame r.output
          else spoken t)
      → AfterRound fd (
          (if not (is_complete r.major || is_continue r.major)
              then reject os gss fuel target r minor
              else offer_token os gss fuel fd target on r input count)
            u)
  dispatch-AfterRound r minor input count t u small paid e e' =
      if_rule (AfterRound fd) u (not (is_complete r.major || is_continue r.major)) _ _
        (λ _. reject-AfterRound r minor u)
        (λ ok.
          let good : (is_complete r.major || is_continue r.major) ≡ true = ground arith in
          offer_token-AfterRound r input count u small
            (λ empty. e ∙ paid ∙ sym (rw (good, empty) at e'))
            (λ full. rw e (rw paid (sym (rw (good, full) at e')))))

  establish_round-AfterRound :
      (mech : Option Oid) (ctx : Context) (input : Option Bytes) (count : ℕ) (t : Trace)
      → IsPaid fd t
      → AfterRound fd (establish_round os gss fuel fd target mech on ctx input count t)
  unfolding establish_round sent spoken
  establish_round-AfterRound mech ctx none count t paid =
      dispatch-AfterRound _ _ none count t _ (short _ _) paid refl refl
  establish_round-AfterRound mech ctx (some token) count t paid =
      dispatch-AfterRound _ _ (some []) count t _ (short _ _) paid refl refl

  AfterRound-bind :
      (r : Run Round) (k : Round → Prog (Status × Context))
      → AfterRound fd r
      → ((ctx : Context) (u : Trace) → Spoken fd (k (stop ctx) u))
      → ((ctx : Context) (major : Major) (input : Option Bytes) (count : ℕ) (u : Trace)
          → IsPaid fd u
          → Spoken fd (k (over ctx major input count) u))
      → Spoken fd (and_then r k)
  AfterRound-bind r k h f g =
      bind_rule (Spoken fd) r k (λ _ _. tt) tt tt
        (elim [
          | stop ctx ↦ λ u e. f ctx u
          | over ctx major input n ↦ λ u e. g ctx major input n u (rw e at h)
        ])

  establish_loop-Spoken :
      (rounds : ℕ) (mech : Option Oid) (ctx : Context) (input : Option Bytes) (count : ℕ)
      (t : Trace)
      → IsPaid fd t
      → Spoken fd (establish_loop os gss fuel rounds fd target mech on ctx input count t)
  unfolding establish_loop sent spoken
  establish_loop-Spoken zero mech ctx input count t paid = tt
  establish_loop-Spoken (suc rounds) mech ctx input count t paid =
      AfterRound-bind (establish_round os gss fuel fd target mech on ctx input count t) _
        (establish_round-AfterRound mech ctx input count t paid) (λ ctx' u. tt)
        (λ ctx' major next count' u p.
          if_rule (Spoken fd) u (is_continue major)
            (establish_loop os gss fuel rounds fd target mech on ctx' next count')
            (gss_release_name target >> pure (success, ctx'))
            (λ _. establish_loop-Spoken rounds mech ctx' next count' u p) (λ _. p))

pub establish_context-Spoken :
    (os : Os) (gss : Gss) (fuel fd : ℕ) (service_name : Bytes) (mech : Option Oid) (on : Bool)
    (t : Trace)
    → TakesWhole os fd
    → ((t : Trace) (args : InitArgs) → length (gss.init_sec_context t args).output < 2 ^ 31)
    → IsPaid fd t
    → Spoken fd (establish_context os gss fuel fd service_name mech on t)
unfolding establish_context sent spoken
establish_context-Spoken os gss fuel fd service_name mech on t whole short paid =
    let n = gss.import_name t (service_name ++ (0 ∷ [])) in
    if_rule (Spoken fd) (Event.gss_import_name (service_name ++ (0 ∷ [])) n ∷ t)
      (not (is_complete n.major))
      (display_status gss fuel "client gss_import_name" n.major n.minor >> pure (failure, none))
      (establish_loop os gss fuel fuel fd n.name mech on none none 0)
      (λ _.
        Spoken-failing fd (display_status gss fuel "client gss_import_name" n.major n.minor _) none)
      (λ _. establish_loop-Spoken os gss fuel fd n.name on whole short fuel mech none none 0 _ paid)
