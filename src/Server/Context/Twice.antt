-- ===== src/Server/Context/Twice.antt =====
-- The first of two calls of gss_accept_sec_context in establish_context of
-- application/gssapi/server.c, with a mechanism that needs a second token from the client.
use kerberos.Base.{
  ℕ, zero, suc, ◌≡◌, ◌∙◌, Bool, false, not, ◌||◌, none, some, [], ◌∷◌, arith, if◌then◌else◌,
}
use kerberos.World.{
  Bytes, continue_needed, Context, AcceptArgs, AcceptReply, Event, Trace, Os, Gss, Run, done,
  exited, fault, hung, Prog, and_then, pure, printf, ◌>>◌, if_rule,
}
use kerberos.Wire.{recv_token}
use kerberos.Wire.Plain.{send_token-Keeps, recv_token-Keeps}
use kerberos.Display.{is_complete, is_continue, display_status}
use kerberos.Session.{Life, fresh, pending, Follows}
use kerberos.Session.Monitor.{life, life-Ignores, establishes, establishes-fresh, deletes-pending}
use kerberos.Session.Paths.{Follows-life}
use kerberos.Server.Context.{
  recv_prefix, Round, stop, over, Established, established, record_if, offer_token, establish_round,
  establish_loop, establish_context,
}
use kerberos.Server.Context.Accepted.{record_if-Keeps}
use kerberos.Server.Context.Misuse.{Doomed, Misuses, establish_loop-Misuses}

module _ (os : Os) (gss : Gss) (fuel fd server_creds : ℕ) (on : Bool) where
  -- The first round, if its call asks for another one.
  abbrev Goes : Run Round → Type 0
  Goes (done stop u) = Unit
  Goes (done (over context r count) u) = (is_complete r.major ≡ false) × Doomed (life u)
  Goes (exited n u) = Unit
  Goes fault = Unit
  Goes hung = Unit

  Goes-bind :
      (b : Run Round) (k : Round → Prog Established)
      → Goes b
      → ((u : Trace) → Misuses (k stop u))
      → ((context : Context) (r : AcceptReply) (count : ℕ) (u : Trace)
          → is_complete r.major ≡ false
          → Doomed (life u)
          → Misuses (k (over context r count) u))
      → Misuses (and_then b k)
  Goes-bind (done stop u) k h f g = f u
  Goes-bind (done (over context r count) u) k h f g = g context r count u h.0 h.1
  Goes-bind (exited n u) k h f g = tt
  Goes-bind fault k h f g = tt
  Goes-bind hung k h f g = tt

  offer_token-Goes :
      (r : AcceptReply) (held count : ℕ) (t : Trace)
      → r.major ≡ continue_needed
      → r.context ≡ some held
      → life t ≡ some (pending (some held))
      → Goes (offer_token os gss fuel fd on r count t)
  unfolding offer_token life
  offer_token-Goes r held count t m c h = grind (
    arith,
    send_token-Keeps life life-Ignores os fuel fd,
    record_if-Keeps life life-Ignores os gss fuel on,
    deletes-pending (some held),
  )

  -- The first round, from the call of gss_accept_sec_context on.
  first-Goes :
      (tok : Bytes) (held count : ℕ) (t : Trace)
      → life t ≡ some fresh
      → let args : AcceptArgs = record { context = none; cred = server_creds; input = tok } in
        let r = gss.accept_sec_context t args in
        let minor = gss.release_buffer (Event.gss_accept_sec_context args r ∷ t) tok in
        r.major ≡ continue_needed
        → r.context ≡ some held
        → Goes (
            (if not (is_complete r.major || is_continue r.major)
                then display_status gss fuel "server gss_accept_sec_context" r.major minor
                  >> pure stop
                else printf "server: establish_context: continue needed..\n" []
                  >> offer_token os gss fuel fd on r count)
              (Event.gss_release_buffer tok ∷ Event.gss_accept_sec_context args r ∷ t))
  unfolding life
  first-Goes tok held count t h m c =
      let args : AcceptArgs = record { context = none; cred = server_creds; input = tok } in
      let r = gss.accept_sec_context t args in
      let now : establishes none r.major r.context (life t) ≡ some (pending (some held)) =
        rw (h, m, c) (establishes-fresh continue_needed (some held)) in
      if_rule Goes _ (not (is_complete r.major || is_continue r.major)) _ _
        (λ e. absurd (ground arith)) (λ _. offer_token-Goes r held count _ m c now)

  first_round-Goes :
      (tok : Bytes) (held n count : ℕ) (t v w : Trace)
      → life t ≡ some fresh
      → recv_token os fuel fd t ≡ done (some tok) v
      → record_if os gss fuel on recv_prefix count tok v ≡ done n w
      → let args : AcceptArgs = record { context = none; cred = server_creds; input = tok } in
        let r = gss.accept_sec_context w args in
        r.major ≡ continue_needed
        → r.context ≡ some held
        → Goes (establish_round os gss fuel fd server_creds on count t)
  unfolding establish_round
  first_round-Goes tok held n count t v w h received recorded m c =
      let e : life v ≡ life t = rw received at (recv_token-Keeps life life-Ignores os fuel fd t) in
      let e' : life w ≡ life v =
        rw recorded at (record_if-Keeps life life-Ignores os gss fuel on recv_prefix count tok v) in
      rw (received, recorded) (first-Goes tok held n w (e' ∙ e ∙ h) m c)

  establish_loop-Goes :
      (rounds : ℕ) (t : Trace)
      → Goes (establish_round os gss fuel fd server_creds on 0 t)
      → Misuses (establish_loop os gss fuel rounds fd server_creds on 0 t)
  unfolding establish_loop
  establish_loop-Goes zero t g = tt
  establish_loop-Goes (suc rounds) t g =
      Goes-bind (establish_round os gss fuel fd server_creds on 0 t) _ g (λ u. tt)
        (λ context r count u m d.
          if_rule Misuses u (not (is_complete r.major)) _ _
            (λ _. establish_loop-Misuses os gss fuel fd server_creds on rounds count u d)
            (λ e. absurd (ground arith)))

  -- If no context has been begun before, the first token is received and recorded if tokens are,
  -- gss_accept_sec_context asks for a further token and returns a context to go on with, and
  -- `establish_context` of the server still returns 0, then its calls have not led the context a
  -- life that the relation of Session allows.
  pub establish_context-not-Follows :
      (tok : Bytes) (held n : ℕ) (t v w u : Trace) (context : Context) (name : Bytes) (l : Life)
      → Follows t fresh
      → recv_token os fuel fd t ≡ done (some tok) v
      → record_if os gss fuel on recv_prefix 0 tok v ≡ done n w
      → (gss.accept_sec_context w
          (record { context = none; cred = server_creds; input = tok })).major
        ≡ continue_needed
      → (gss.accept_sec_context w
          (record { context = none; cred = server_creds; input = tok })).context
        ≡ some held
      → establish_context os gss fuel fd server_creds on t ≡ done (established context name) u
      → ¬ Follows u l
  unfolding establish_context
  establish_context-not-Follows tok held n t v w u context name l f received recorded m c e g =
      let first = first_round-Goes tok held n 0 t v w (Follows-life f) received recorded m c in
      let misused : life u ≡ none = rw e at (establish_loop-Goes fuel t first) in
      cc (Follows-life g)
