-- ===== src/Server/Context/Accepted.antt =====
-- When establish_context of application/gssapi/server.c reports success, one call of
-- gss_accept_sec_context has completed a context from nothing.
use kerberos.Base.{
  ℕ, zero, suc, ◌≡◌, refl, ◌∙◌, Bool, true, false, not, ◌||◌, none, some, ◌∷◌, ◌⊎◌, arith,
}
use kerberos.World.{
  bind_rule, Bytes, Major, complete, Context, AcceptReply, Event, Trace, Os, Gss, Run, done, exited,
  fault, hung, Prog, and_then, Ignores, IgnoresInput, IgnoresInput-of_Ignores, Keeps, Keeps-bind,
  if_rule, newest_accept, newest_accept-Ignores,
}
use kerberos.Wire.Plain.{send_token-Keeps}
use kerberos.Wire.{recv_token}
use kerberos.Display.{is_complete, is_continue, display_status}
use kerberos.Display.Plain.{display_status-Keeps, display_context_flags-Keeps}
use kerberos.Recording.{token_filename}
use kerberos.Recording.Plain.{token_filename-Keeps, record_token-Keeps}
use kerberos.Server.Context.{
  Round, stop, over, Established, refused, established, record_if, offer_token, establish_round,
  finish, establish_loop, establish_context, recv_prefix,
}

module _ {C : Type 0} (f : Trace → C) (J : IgnoresInput f) (os : Os) (gss : Gss) (fuel : ℕ) where
  pub record_if-KeepsInput :
      (on : Bool) (prefix : Bytes) (count : ℕ) (token : Bytes) (t : Trace)
      → Keeps f t (record_if os gss fuel on prefix count token t)
  unfolding record_if
  record_if-KeepsInput false prefix count token t = refl
  record_if-KeepsInput true prefix count token t =
      Keeps-bind f t (token_filename prefix count t) _ (token_filename-Keeps f J prefix count t)
        λ name u h. grind (arith, J.printf, record_token-Keeps f J os token name)

pub record_if-Keeps :
    {C : Type 0} (f : Trace → C) (I : Ignores f) (os : Os) (gss : Gss) (fuel : ℕ) (on : Bool)
    (prefix : Bytes) (count : ℕ) (token : Bytes) (t : Trace)
    → Keeps f t (record_if os gss fuel on prefix count token t)
record_if-Keeps f I = record_if-KeepsInput f (IgnoresInput-of_Ignores f I)

module _ (os : Os) (gss : Gss) (fuel fd server_creds : ℕ) (on : Bool) where
  -- The newest call that accepts was given no context, and answered `r`; `context` is what it
  -- answered with, or none if the token could not be sent.
  abbrev Accepted : Context → AcceptReply → Trace → Type 0
  Accepted context r u =
      ((input : Bytes) × (newest_accept u
          ≡ some (record { context = none; cred = server_creds; input = input }, r)))
      × ((context ≡ r.context) ⊎ (context ≡ none))

  abbrev AfterRound : Run Round → Type 0
  AfterRound (done stop u) = Unit
  AfterRound (done (over context r count) u) = Accepted context r u
  AfterRound (exited n u) = Unit
  AfterRound fault = Unit
  AfterRound hung = Unit

  AfterRound-bind :
      {A : Type 0} (r : Run A) (k : A → Prog Round)
      → ((a : A) (u : Trace) → AfterRound (k a u))
      → AfterRound (and_then r k)
  AfterRound-bind r k next = bind_rule AfterRound r k (λ _ _. tt) tt tt (λ a u _. next a u)

  offer_token-AfterRound :
      (r : AcceptReply) (input : Bytes) (count : ℕ) (t : Trace)
      → newest_accept t ≡ some (record { context = none; cred = server_creds; input = input }, r)
      → AfterRound (offer_token os gss fuel fd on r count t)
  unfolding offer_token newest_accept
  offer_token-AfterRound r input count t h = grind (
    arith,
    send_token-Keeps newest_accept newest_accept-Ignores os fuel fd,
    record_if-Keeps newest_accept newest_accept-Ignores os gss fuel on,
  )

  establish_round-AfterRound :
      (count : ℕ) (t : Trace) → AfterRound (establish_round os gss fuel fd server_creds on count t)
  unfolding establish_round newest_accept
  establish_round-AfterRound count t = AfterRound-bind (recv_token os fuel fd t) _ (elim [
    | none ↦ λ u. tt
    | some recv_tok ↦ λ u.
        AfterRound-bind (record_if os gss fuel on recv_prefix count recv_tok u) _ λ n v.
          let r =
            gss.accept_sec_context v
              (record { context = none; cred = server_creds; input = recv_tok }) in
          let t' =
            Event.gss_release_buffer recv_tok
            ∷ Event.gss_accept_sec_context
                (record { context = none; cred = server_creds; input = recv_tok }) r
            ∷ v in
          if_rule AfterRound t' (not (is_complete r.major || is_continue r.major)) _ _
            (λ _.
              AfterRound-bind (display_status gss fuel "server gss_accept_sec_context" r.major _ t')
                _ (λ _ _. tt))
            (λ _. offer_token-AfterRound r recv_tok n _ refl)
  ])

  -- What success of the whole function means.
  abbrev Succeeds : Run Established → Type 0
  Succeeds (done refused u) = Unit
  Succeeds (done (established context name) u) =
      (r : AcceptReply) × (r.major ≡ complete) × Accepted context r u
  Succeeds (exited n u) = Unit
  Succeeds fault = Unit
  Succeeds hung = Unit

  complete_of : (m : Major) → not (is_complete m) ≡ false → m ≡ complete
  complete_of m h = ground arith

  -- What follows the loop returns the context that it is given.
  abbrev Finishes : Context → Trace → Run Established → Type 0
  Finishes context t (done refused u) = ⊥
  Finishes context t (done (established c name) u) =
      (c ≡ context) × (newest_accept u ≡ newest_accept t)
  Finishes context t (exited n u) = Unit
  Finishes context t fault = Unit
  Finishes context t hung = Unit

  finish-Finishes :
      (context : Context) (r : AcceptReply) (t : Trace)
      → Finishes context t (finish os gss fuel server_creds context r t)
  unfolding finish newest_accept
  finish-Finishes context r t = grind (
    arith,
    display_context_flags-Keeps newest_accept newest_accept-Ignores gss,
    display_status-Keeps newest_accept newest_accept-Ignores gss fuel,
  )

  Succeeds-of_Finishes :
      (context : Context) (r : AcceptReply) (t : Trace) (e : Run Established)
      → r.major ≡ complete
      → Accepted context r t
      → Finishes context t e
      → Succeeds e
  Succeeds-of_Finishes context r t (done refused u) m h f = tt
  Succeeds-of_Finishes context r t (done (established c name) u) m ((input, h), g) f =
      (r, m, ((input, f.1 ∙ h), rw f.0 g))
  Succeeds-of_Finishes context r t (exited n u) m h f = tt
  Succeeds-of_Finishes context r t fault m h f = tt
  Succeeds-of_Finishes context r t hung m h f = tt

  Succeeds-bind :
      (b : Run Round) (k : Round → Prog Established)
      → AfterRound b
      → ((u : Trace) → Succeeds (k stop u))
      → ((context : Context) (r : AcceptReply) (count : ℕ) (u : Trace)
          → Accepted context r u
          → Succeeds (k (over context r count) u))
      → Succeeds (and_then b k)
  Succeeds-bind (done stop u) k h f g = f u
  Succeeds-bind (done (over context r count) u) k h f g = g context r count u h
  Succeeds-bind (exited n u) k h f g = tt
  Succeeds-bind fault k h f g = tt
  Succeeds-bind hung k h f g = tt

  establish_loop-Succeeds :
      (rounds count : ℕ) (t : Trace)
      → Succeeds (establish_loop os gss fuel rounds fd server_creds on count t)
  unfolding establish_loop
  establish_loop-Succeeds zero count t = tt
  establish_loop-Succeeds (suc rounds) count t =
      Succeeds-bind (establish_round os gss fuel fd server_creds on count t) _
        (establish_round-AfterRound count t) (λ u. tt)
        (λ context r n u h.
          if_rule Succeeds u (not (is_complete r.major)) _ _
            (λ _. establish_loop-Succeeds rounds n u)
            (λ e.
              Succeeds-of_Finishes context r u _ (complete_of r.major e) h
                (finish-Finishes context r u)))

  -- If the server's `establish_context` returns 0, the newest call of gss_accept_sec_context was
  -- given no context and the credentials of the server, and returned GSS_S_COMPLETE; the context
  -- handed on is the one that this call returned, or none.
  pub establish_context-newest_accept :
      (t u : Trace) (context : Context) (name : Bytes)
      → establish_context os gss fuel fd server_creds on t ≡ done (established context name) u
      → (input : Bytes) × (r : AcceptReply) × (newest_accept u
          ≡ some (record { context = none; cred = server_creds; input = input }, r))
        × (r.major ≡ complete)
        × ((context ≡ r.context) ⊎ (context ≡ none))
  unfolding establish_context
  establish_context-newest_accept t u context name e =
      let (r, m, ((input, h), g)) = rw e at (establish_loop-Succeeds fuel 0 t) in
      (input, r, h, m, g)
