-- ===== src/Server/Talk/Closed.antt =====
-- Which descriptors the part of talk_to_client of application/gssapi/server.c on its connection
-- closes.
use kerberos.Base.{ℕ, zero, suc, ◌≡◌, refl, ◌⊎◌, inl, inr, Bool, not, ◌∷◌, arith}
use kerberos.World.{
  Status, success, failure, Context, AcceptReply, Trace, Os, Gss, Run, done, if_rule, Keeps,
  Keeps-then, sockets, sockets-Ignores,
}
use kerberos.Wire.Plain.{send_token-Keeps, recv_token-Keeps}
use kerberos.Display.{is_complete}
use kerberos.Display.Plain.{display_status-Keeps, display_context_flags-Keeps}
use kerberos.Server.Context.{
  stop, over, offer_token, establish_round, finish, establish_loop, establish_context,
}
use kerberos.Server.Context.Accepted.{record_if-Keeps}
use kerberos.Server.Talk.Plain.{IgnoresSigning, sign_message-Keeps}
use kerberos.Server.Talk.{serve}

sockets-IgnoresSigning : IgnoresSigning sockets
unfolding sockets
sockets-IgnoresSigning = record {
  unwrap = λ _ _ _ _. refl;
  get_mic = λ _ _ _ _. refl;
  delete = λ _ _ _. refl;
}

module _ (os : Os) (gss : Gss) (fuel fd : ℕ) where
  offer_token-Keeps :
      (on : Bool) (r : AcceptReply) (count : ℕ) (t : Trace)
      → Keeps sockets t (offer_token os gss fuel fd on r count t)
  unfolding offer_token sockets
  offer_token-Keeps on r count t = grind (
    arith,
    send_token-Keeps sockets sockets-Ignores os fuel fd,
    record_if-Keeps sockets sockets-Ignores os gss fuel on,
  )

  establish_round-Keeps :
      (creds : ℕ) (on : Bool) (count : ℕ) (t : Trace)
      → Keeps sockets t (establish_round os gss fuel fd creds on count t)
  unfolding establish_round sockets
  establish_round-Keeps creds on count t = grind (
    arith,
    recv_token-Keeps sockets sockets-Ignores os fuel fd,
    record_if-Keeps sockets sockets-Ignores os gss fuel on,
    display_status-Keeps sockets sockets-Ignores gss fuel,
    offer_token-Keeps,
  )

  finish-Keeps :
      (creds : ℕ) (context : Context) (r : AcceptReply) (t : Trace)
      → Keeps sockets t (finish os gss fuel creds context r t)
  unfolding finish sockets
  finish-Keeps creds context r t = grind (
    arith,
    display_context_flags-Keeps sockets sockets-Ignores gss,
    display_status-Keeps sockets sockets-Ignores gss fuel,
  )

  establish_loop-Keeps :
      (rounds creds : ℕ) (on : Bool) (count : ℕ) (t : Trace)
      → Keeps sockets t (establish_loop os gss fuel rounds fd creds on count t)
  unfolding establish_loop
  establish_loop-Keeps zero creds on count t = tt
  establish_loop-Keeps (suc rounds) creds on count t =
      Keeps-then sockets t _ _ (establish_round-Keeps creds on count t) (elim [
        | stop ↦ λ u. refl
        | over context r n ↦ λ u.
            if_rule (Keeps sockets u) u (not (is_complete r.major)) _ _
              (λ _. establish_loop-Keeps rounds creds on n u) (λ _. finish-Keeps creds context r u)
      ])

  -- The connection is closed with success, and nothing is closed with a failure.
  abbrev Closes : Trace → Run Status → Type 0
  Closes t (done success u) = (sockets u).closed ≡ fd ∷ (sockets t).closed
  Closes t (done failure u) = (sockets u).closed ≡ (sockets t).closed
  Closes t _ = Unit

  serve-Closes : (creds : ℕ) (on : Bool) (t : Trace) → Closes t (serve os gss fuel fd creds on t)
  unfolding serve sockets establish_context
  serve-Closes creds on t = grind (
    arith,
    establish_loop-Keeps fuel creds on,
    sign_message-Keeps sockets sockets-Ignores sockets-IgnoresSigning os gss fuel fd,
  )

  -- If `serve` returns 0, the connection is the one descriptor that it has closed; if it returns
  -- -1, it has closed none.
  pub serve-closed :
      (creds : ℕ) (on : Bool) (t u : Trace) (st : Status)
      → serve os gss fuel fd creds on t ≡ done st u
      → ((st ≡ success) × ((sockets u).closed ≡ fd ∷ (sockets t).closed))
        ⊎ ((st ≡ failure) × ((sockets u).closed ≡ (sockets t).closed))
  serve-closed creds on t u success e = inl (refl, rw e at (serve-Closes creds on t))
  serve-closed creds on t u failure e = inr (refl, rw e at (serve-Closes creds on t))
