-- ===== src/Server/Context/Spoken.antt =====
-- What establish_context of application/gssapi/server.c has sent when it succeeds.
use kerberos.Base.{
  ◌^◌, ◌<◌, ℕ, zero, suc, ◌≡◌, refl, sym, ◌∙◌, Bool, true, false, not, ◌||◌, ◌&&◌, ◌==◌, none, some,
  [], ◌∷◌, ◌++◌, if◌then◌else◌, arith, length,
}
use kerberos.World.{
  AcceptArgs, bind_rule, Context, AcceptReply, Event, Trace, Os, Gss, Run, done, Prog, pure, ◌>>◌,
  and_then, if_rule, printf, gss_release_cred,
}
use kerberos.Wire.{send_token, recv_token}
use kerberos.Wire.Plain.{recv_token-KeepsInput, recv_token-Keeps}
use kerberos.Wire.Writes.{sent}
use kerberos.Wire.Tokens.{frame}
use kerberos.Wire.Whole.{TakesWhole}
use kerberos.Wire.Outbox.{
  spoken, spoken-Ignores, sent-IgnoresInput, IsPaid, Owes, send_token-Pays, Pays-rule, Owes-Keeps,
  IsPaid-Keeps,
}
use kerberos.Display.{is_complete, is_continue, display_status, display_context_flags}
use kerberos.Display.Plain.{
  display_status-Keeps, display_status-KeepsInput, display_context_flags-Keeps,
  display_context_flags-KeepsInput,
}
use kerberos.Server.Context.{
  Round, stop, over, Established, established, record_if, offer_token, establish_round, finish,
  establish_loop, recv_prefix, send_prefix,
}
use kerberos.Server.Context.Accepted.{record_if-KeepsInput, record_if-Keeps}

-- With success nothing is owed to the peer.
abbrev pub Spoken : ℕ → Run Established → Type 0
Spoken fd (done (established context name) u) = IsPaid fd u
Spoken fd _ = Unit

-- At the end of a round nothing is owed.
abbrev AfterRound : ℕ → Run Round → Type 0
AfterRound fd (done (over context r count) u) = IsPaid fd u
AfterRound fd _ = Unit

AfterRound-failing : {A : Type 0} (fd : ℕ) (r : Run A) → AfterRound fd (and_then r (λ _. pure stop))
AfterRound-failing fd r = bind_rule (AfterRound fd) r _ (λ _ _. tt) tt tt (λ _ _ _. tt)

module _ (os : Os) (gss : Gss) (fuel fd creds : ℕ) (on : Bool) (whole : TakesWhole os fd)
    (short : (t : Trace) (args : AcceptArgs)
      → length (gss.accept_sec_context t args).output < 2 ^ 31) where
  offer_token-AfterRound :
      (r : AcceptReply) (count : ℕ) (t : Trace)
      → length r.output < 2 ^ 31
      → ((length r.output == 0) ≡ true → IsPaid fd t)
      → ((length r.output == 0) ≡ false → Owes fd r.output t)
      → AfterRound fd (offer_token os gss fuel fd on r count t)
  unfolding offer_token sent spoken
  offer_token-AfterRound r count t small paid owed =
      if_rule (AfterRound fd) t (length r.output == 0) _ _ paid (λ e.
        Owes-Keeps fd r.output t (record_if os gss fuel on send_prefix count r.output t) _
          (AfterRound fd) (λ n u. tt) tt tt (owed e)
          (record_if-KeepsInput (sent fd) (sent-IgnoresInput fd) os gss fuel on send_prefix count
            r.output t)
          (record_if-Keeps spoken spoken-Ignores os gss fuel on send_prefix count r.output t)
          (λ n u owed'.
            let u' = Event.printf "server: establish_context: sending token to client\n" [] ∷ u in
            Pays-rule fd (send_token os fuel fd r.output u') _ (AfterRound fd) (λ n v. tt) tt tt
              (send_token-Pays os fd fuel r.output u' whole small owed') (λ v p. p)))

  -- What follows the call of `gss_accept_sec_context`.
  dispatch-AfterRound :
      (r : AcceptReply) (minor count : ℕ) (t u : Trace)
      → length r.output < 2 ^ 31
      → IsPaid fd t
      → sent fd u ≡ sent fd t
      → spoken u ≡ (
          if (is_complete r.major || is_continue r.major) && not (length r.output == 0)
          then spoken t ++ frame r.output
          else spoken t)
      → AfterRound fd (
          (if not (is_complete r.major || is_continue r.major)
              then display_status gss fuel "server gss_accept_sec_context" r.major minor
                >> pure stop
              else printf "server: establish_context: continue needed..\n" []
                >> offer_token os gss fuel fd on r count)
            u)
  unfolding sent spoken
  dispatch-AfterRound r minor count t u small paid e e' =
      if_rule (AfterRound fd) u (not (is_complete r.major || is_continue r.major)) _ _
        (λ _.
          AfterRound-failing fd
            (display_status gss fuel "server gss_accept_sec_context" r.major minor u))
        (λ ok.
          let good : (is_complete r.major || is_continue r.major) ≡ true = ground arith in
          offer_token-AfterRound r count
            (Event.printf "server: establish_context: continue needed..\n" [] ∷ u) small
            (λ empty. e ∙ paid ∙ sym (rw (good, empty) at e'))
            (λ full. rw e (rw paid (sym (rw (good, full) at e')))))

  establish_round-AfterRound :
      (count : ℕ) (t : Trace)
      → IsPaid fd t
      → AfterRound fd (establish_round os gss fuel fd creds on count t)
  unfolding establish_round sent spoken
  establish_round-AfterRound count t paid =
      IsPaid-Keeps fd t (recv_token os fuel fd t) _ (AfterRound fd) (λ n u. tt) tt tt paid
        (recv_token-KeepsInput (sent fd) (sent-IgnoresInput fd) os fuel fd t)
        (recv_token-Keeps spoken spoken-Ignores os fuel fd t)
        (elim [
          | none ↦ λ u p. tt
          | some recv_tok ↦ λ u p.
              IsPaid-Keeps fd u (record_if os gss fuel on recv_prefix count recv_tok u) _
                (AfterRound fd) (λ n u. tt) tt tt p
                (record_if-KeepsInput (sent fd) (sent-IgnoresInput fd) os gss fuel on recv_prefix
                  count recv_tok u)
                (record_if-Keeps spoken spoken-Ignores os gss fuel on recv_prefix count recv_tok u)
                (λ n v q. dispatch-AfterRound _ _ n v _ (short _ _) q refl refl)
        ])

  finish-Spoken :
      (context : Context) (r : AcceptReply) (t : Trace)
      → IsPaid fd t
      → Spoken fd (finish os gss fuel creds context r t)
  unfolding finish sent spoken
  finish-Spoken context r t paid =
      let t' = Event.printf "server: context established !\n" [] ∷ t in
      IsPaid-Keeps fd t' (display_context_flags gss r.flags t') _ (Spoken fd) (λ n u. tt) tt tt paid
        (display_context_flags-KeepsInput (sent fd) (sent-IgnoresInput fd) gss r.flags t')
        (display_context_flags-Keeps spoken spoken-Ignores gss r.flags t')
        (λ _ u p.
          let shown = gss.display_name u r.client in
          let u' = Event.gss_display_name r.client shown ∷ u in
          let k : Prog Established =
            gss_release_cred creds >> pure (established context shown.text) in
          if_rule (λ x. Spoken fd (and_then x (λ _. k))) u' (not (is_complete shown.major)) _ _
            (λ _.
              let v = Event.gss_release_name (some r.client) ∷ u' in
              let minor = gss.release_name u' r.client in
              IsPaid-Keeps fd v
                (display_status gss fuel "server gss_display_name" shown.major minor v) _
                (λ x. Spoken fd (and_then x (λ _. k))) (λ n u. tt) tt tt p
                (display_status-KeepsInput (sent fd) (sent-IgnoresInput fd) gss fuel
                  "server gss_display_name" shown.major minor v)
                (display_status-Keeps spoken spoken-Ignores gss fuel "server gss_display_name"
                  shown.major minor v)
                (λ _ w q. q))
            (λ _. p))

  AfterRound-bind :
      (r : Run Round) (k : Round → Prog Established)
      → AfterRound fd r
      → ((u : Trace) → Spoken fd (k stop u))
      → ((context : Context) (r : AcceptReply) (count : ℕ) (u : Trace)
          → IsPaid fd u
          → Spoken fd (k (over context r count) u))
      → Spoken fd (and_then r k)
  AfterRound-bind r k h f g =
      bind_rule (Spoken fd) r k (λ _ _. tt) tt tt
        (elim [ stop ↦ λ u e. f u | over context r n ↦ λ u e. g context r n u (rw e at h) ])

  pub establish_loop-Spoken :
      (rounds count : ℕ) (t : Trace)
      → IsPaid fd t
      → Spoken fd (establish_loop os gss fuel rounds fd creds on count t)
  unfolding establish_loop
  establish_loop-Spoken zero count t paid = tt
  establish_loop-Spoken (suc rounds) count t paid =
      AfterRound-bind (establish_round os gss fuel fd creds on count t) _
        (establish_round-AfterRound count t paid) (λ u. tt)
        (λ context r n u p.
          if_rule (Spoken fd) u (not (is_complete r.major)) _ _
            (λ _. establish_loop-Spoken rounds n u p) (λ _. finish-Spoken context r u p))
