-- ===== src/Server/Context/Lives.antt =====
-- establish_context of application/gssapi/server.c against the step relation of Session, with a
-- mechanism that needs one token from the client, and while no write fails.
use kerberos.Base.{
  ℕ, zero, suc, ◌≡◌, refl, ap, ◌∙◌, Bool, true, false, not, ◌||◌, none, some, [], ◌∷◌, arith,
  if◌then◌else◌, length, ◌==◌,
}
use kerberos.World.{
  Bytes, Status, success, failure, Major, complete, continue_needed, no_context, other_status,
  Context, AcceptArgs, AcceptReply, Event, Trace, Os, Gss, Run, done, exited, fault, hung, Prog,
  and_then, pure, printf, ◌>>◌, Keeps, if_rule,
}
use kerberos.Wire.{send_token, recv_token}
use kerberos.Wire.Plain.{send_token-Keeps, recv_token-Keeps}
use kerberos.Wire.Sends.{Sends, AcceptsWrites, send_token-Sends}
use kerberos.Display.{is_complete, is_continue, display_status}
use kerberos.Display.Plain.{display_status-Keeps, display_context_flags-Keeps}
use kerberos.Session.{fresh, ready, after}
use kerberos.Session.Runs.{IsLawful}
use kerberos.Session.Monitor.{life, life-Ignores, establishes-fresh}
use kerberos.Server.Context.{
  send_prefix, recv_prefix, Round, stop, over, Established, refused, established, record_if,
  offer_token, establish_round, finish, establish_loop, establish_context,
}
use kerberos.Server.Context.Accepted.{record_if-Keeps}

-- What `establish_context` leaves: an established context, or at least nothing unlawful.
abbrev pub Lives : Run Established → Type 0
Lives (done refused u) = IsLawful u
Lives (done (established context name) u) = life u ≡ some (ready context)
Lives (exited n u) = ⊥
Lives fault = Unit
Lives hung = Unit

-- A token that is sent without fail, and leaves the life alone.
pub sent-bind :
    {A : Type 0} (P : Run A → Type 0) (t : Trace) (r : Run Status) (k : Status → Prog A)
    → P fault
    → P hung
    → Keeps life t r
    → Sends r
    → ((u : Trace) → life u ≡ life t → P (k success u))
    → P (and_then r k)
sent-bind P t (done success u) k f g h s next = next u h
sent-bind P t (done failure u) k f g h s next = absurd s
sent-bind P t (exited n u) k f g h s next = absurd h
sent-bind P t fault k f g h s next = f
sent-bind P t hung k f g h s next = g

complete_of :
    (m : Major)
    → (is_complete m || is_continue m) ≡ true
    → is_continue m ≡ false
    → is_complete m ≡ true
complete_of m h k = ground arith

after_complete :
    (major : Major) (context : Context)
    → is_complete major ≡ true
    → after major context ≡ ready context
after_complete complete context h = refl
after_complete continue_needed context h = cc
after_complete no_context context h = cc
after_complete (other_status n) context h = cc

-- What follows the loop returns the context that it is given, and leaves its life alone.
abbrev pub Finishes : Context → Trace → Run Established → Type 0
Finishes context t (done refused u) = ⊥
Finishes context t (done (established c name) u) = (c ≡ context) × (life u ≡ life t)
Finishes context t (exited n u) = ⊥
Finishes context t fault = Unit
Finishes context t hung = Unit

module _ (os : Os) (gss : Gss) (fuel server_creds : ℕ) where
  pub finish-Finishes :
      (context : Context) (r : AcceptReply) (t : Trace)
      → Finishes context t (finish os gss fuel server_creds context r t)
  unfolding finish life
  finish-Finishes context r t = grind (
    arith,
    display_context_flags-Keeps life life-Ignores gss,
    display_status-Keeps life life-Ignores gss fuel,
  )

module _ (os : Os) (gss : Gss) (fuel fd server_creds : ℕ) (on : Bool)
    (single : (t : Trace) (args : AcceptArgs)
      → is_continue (gss.accept_sec_context t args).major ≡ false)
    (accepted : AcceptsWrites os fd) where
  abbrev AfterRound : Run Round → Type 0
  AfterRound (done stop u) = IsLawful u
  AfterRound (done (over context r count) u) =
      (is_complete r.major ≡ true) × (life u ≡ some (ready context))
  AfterRound (exited n u) = ⊥
  AfterRound fault = Unit
  AfterRound hung = Unit

  AfterRound-bind :
      {A : Type 0} (t : Trace) (r : Run A) (k : A → Prog Round)
      → Keeps life t r
      → ((a : A) (u : Trace) → life u ≡ life t → AfterRound (k a u))
      → AfterRound (and_then r k)
  AfterRound-bind t (done a u) k h next = next a u h
  AfterRound-bind t (exited n u) k h next = absurd h
  AfterRound-bind t fault k h next = tt
  AfterRound-bind t hung k h next = tt

  offer_token-AfterRound :
      (r : AcceptReply) (count : ℕ) (t : Trace)
      → is_complete r.major ≡ true
      → life t ≡ some (ready r.context)
      → AfterRound (offer_token os gss fuel fd on r count t)
  unfolding offer_token life
  offer_token-AfterRound r count t ok h =
      if_rule AfterRound t (length r.output == 0) _ _ (λ _. (ok, h))
        (λ _.
          AfterRound-bind t (record_if os gss fuel on send_prefix count r.output t) _
            (record_if-Keeps life life-Ignores os gss fuel on send_prefix count r.output t)
            λ n u e.
              let t' = Event.printf "server: establish_context: sending token to client\n" [] ∷ u in
              sent-bind AfterRound t' (send_token os fuel fd r.output t') _ tt tt
                (send_token-Keeps life life-Ignores os fuel fd r.output t')
                (send_token-Sends os fd accepted fuel r.output t') (λ v e'. (ok, e' ∙ e ∙ h)))

  -- What follows the receipt of a token.
  accepted-AfterRound :
      (recv_tok : Bytes) (count : ℕ) (t : Trace)
      → life t ≡ some fresh
      → let args : AcceptArgs = record { context = none; cred = server_creds; input = recv_tok } in
        let r = gss.accept_sec_context t args in
        let minor = gss.release_buffer (Event.gss_accept_sec_context args r ∷ t) recv_tok in
        AfterRound (
          (if not (is_complete r.major || is_continue r.major)
              then display_status gss fuel "server gss_accept_sec_context" r.major minor
                >> pure stop
              else printf "server: establish_context: continue needed..\n" []
                >> offer_token os gss fuel fd on r count)
            (Event.gss_release_buffer recv_tok ∷ Event.gss_accept_sec_context args r ∷ t))
  unfolding life
  accepted-AfterRound recv_tok count t h =
      let args : AcceptArgs = record { context = none; cred = server_creds; input = recv_tok } in
      let r = gss.accept_sec_context t args in
      let minor = gss.release_buffer (Event.gss_accept_sec_context args r ∷ t) recv_tok in
      let t' = Event.gss_release_buffer recv_tok ∷ Event.gss_accept_sec_context args r ∷ t in
      let now : life t' ≡ some (after r.major r.context) =
        rw h (establishes-fresh r.major r.context) in
      if_rule AfterRound t' (not (is_complete r.major || is_continue r.major)) _ _
        (λ _.
          AfterRound-bind t'
            (display_status gss fuel "server gss_accept_sec_context" r.major minor t') _
            (display_status-Keeps life life-Ignores gss fuel _ r.major minor t') (λ _ u e n. cc))
        (λ good.
          let ok = complete_of r.major (ground arith) (single t args) in
          offer_token-AfterRound r count _ ok
            (now ∙ ap (λ l. some l) (after_complete r.major r.context ok)))

  establish_round-AfterRound :
      (count : ℕ) (t : Trace)
      → life t ≡ some fresh
      → AfterRound (establish_round os gss fuel fd server_creds on count t)
  unfolding establish_round life
  establish_round-AfterRound count t h =
      AfterRound-bind t (recv_token os fuel fd t) _
        (recv_token-Keeps life life-Ignores os fuel fd t)
        (elim [
          | none ↦ λ u e n. cc
          | some recv_tok ↦ λ u e.
              AfterRound-bind u (record_if os gss fuel on recv_prefix count recv_tok u) _
                (record_if-Keeps life life-Ignores os gss fuel on recv_prefix count recv_tok u)
                λ n v e'. accepted-AfterRound recv_tok n v (e' ∙ e ∙ h)
        ])

  Lives-of_Finishes :
      (context : Context) (t : Trace) (e : Run Established)
      → life t ≡ some (ready context)
      → Finishes context t e
      → Lives e
  Lives-of_Finishes context t (done refused u) h f = absurd f
  Lives-of_Finishes context t (done (established c name) u) h f = rw f.0 (f.1 ∙ h)
  Lives-of_Finishes context t (exited n u) h f = absurd f
  Lives-of_Finishes context t fault h f = tt
  Lives-of_Finishes context t hung h f = tt

  Lives-bind :
      (b : Run Round) (k : Round → Prog Established)
      → AfterRound b
      → ((u : Trace) → IsLawful u → Lives (k stop u))
      → ((context : Context) (r : AcceptReply) (count : ℕ) (u : Trace)
          → is_complete r.major ≡ true
          → life u ≡ some (ready context)
          → Lives (k (over context r count) u))
      → Lives (and_then b k)
  Lives-bind (done stop u) k h f g = f u h
  Lives-bind (done (over context r count) u) k h f g = g context r count u h.0 h.1
  Lives-bind (exited n u) k h f g = absurd h
  Lives-bind fault k h f g = tt
  Lives-bind hung k h f g = tt

  establish_loop-Lives :
      (rounds count : ℕ) (t : Trace)
      → life t ≡ some fresh
      → Lives (establish_loop os gss fuel rounds fd server_creds on count t)
  unfolding establish_loop
  establish_loop-Lives zero count t h = tt
  establish_loop-Lives (suc rounds) count t h =
      Lives-bind (establish_round os gss fuel fd server_creds on count t) _
        (establish_round-AfterRound count t h) (λ u l. l)
        (λ context r n u ok l.
          if_rule Lives u (not (is_complete r.major)) _ _ (λ e. cc)
            (λ e.
              Lives-of_Finishes context u _ l
                (finish-Finishes os gss fuel server_creds context r u)))

  pub establish_context-Lives :
      (t : Trace) → life t ≡ some fresh → Lives (establish_context os gss fuel fd server_creds on t)
  unfolding establish_context
  establish_context-Lives t h = establish_loop-Lives fuel 0 t h
