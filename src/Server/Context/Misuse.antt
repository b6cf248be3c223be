-- ===== src/Server/Context/Misuse.antt =====
-- A mechanism that needs a second token from the client, with establish_context of
-- application/gssapi/server.c: the rounds behind the first one.
use kerberos.Base.{
  ℕ, zero, suc, ◌≡◌, ◌≢◌, refl, ◌∙◌, Bool, not, ◌||◌, Option, none, some, ◌∷◌, arith,
}
use kerberos.World.{
  Major, Context, AcceptArgs, AcceptReply, Event, Trace, Os, Gss, Run, done, exited, fault, hung,
  Prog, and_then, Keeps, if_rule,
}
use kerberos.Wire.{recv_token}
use kerberos.Wire.Plain.{send_token-Keeps, recv_token-Keeps}
use kerberos.Display.{is_complete, is_continue, display_status}
use kerberos.Display.Plain.{display_status-Keeps}
use kerberos.Session.{Life, fresh, pending, ready, broken, gone}
use kerberos.Session.Monitor.{life, life-Ignores, establishes, deletes}
use kerberos.Server.Context.{
  recv_prefix, Round, stop, over, Established, refused, established, record_if, offer_token,
  establish_round, establish_loop,
}
use kerberos.Server.Context.Accepted.{record_if-Keeps}
use kerberos.Server.Context.Lives.{Finishes, finish-Finishes}

pub deletes-none : (context : Context) → deletes context none ≡ none
unfolding deletes
deletes-none context = refl

-- A life in which a call that is given no context is against the relation.
abbrev pub Doomed : Option Life → Type 0
Doomed o = (o ≢ some fresh) × (o ≢ some (pending none))

establishes-Doomed :
    (major : Major) (result : Context) (o : Option Life)
    → Doomed o
    → establishes none major result o ≡ none
unfolding establishes
establishes-Doomed major result none d = refl
establishes-Doomed major result (some fresh) d = absurd (d.0 refl)
establishes-Doomed major result (some (pending none)) d = absurd (d.1 refl)
establishes-Doomed major result (some (pending (some held))) d = refl
establishes-Doomed major result (some (ready held)) d = refl
establishes-Doomed major result (some (broken held)) d = refl
establishes-Doomed major result (some gone) d = refl

none-Doomed : (o : Option Life) → o ≡ none → Doomed o
none-Doomed o h = ((λ e. cc), (λ e. cc))

-- A round, and a run of the loop, that are against the relation if they come to their end.
abbrev pub RoundMisuses : Run Round → Type 0
RoundMisuses (done stop u) = Unit
RoundMisuses (done (over context r count) u) = life u ≡ none
RoundMisuses (exited n u) = Unit
RoundMisuses fault = Unit
RoundMisuses hung = Unit

abbrev pub Misuses : Run Established → Type 0
Misuses (done refused u) = Unit
Misuses (done (established context name) u) = life u ≡ none
Misuses (exited n u) = Unit
Misuses fault = Unit
Misuses hung = Unit

RoundMisuses-bind :
    {A : Type 0} (t : Trace) (r : Run A) (k : A → Prog Round)
    → Keeps life t r
    → ((a : A) (u : Trace) → life u ≡ life t → RoundMisuses (k a u))
    → RoundMisuses (and_then r k)
RoundMisuses-bind t (done a u) k h next = next a u h
RoundMisuses-bind t (exited n u) k h next = tt
RoundMisuses-bind t fault k h next = tt
RoundMisuses-bind t hung k h next = tt

pub Misuses-bind :
    (b : Run Round) (k : Round → Prog Established)
    → RoundMisuses b
    → ((u : Trace) → Misuses (k stop u))
    → ((context : Context) (r : AcceptReply) (count : ℕ) (u : Trace)
        → life u ≡ none
        → Misuses (k (over context r count) u))
    → Misuses (and_then b k)
Misuses-bind (done stop u) k h f g = f u
Misuses-bind (done (over context r count) u) k h f g = g context r count u h
Misuses-bind (exited n u) k h f g = tt
Misuses-bind fault k h f g = tt
Misuses-bind hung k h f g = tt

Misuses-of_Finishes :
    (context : Context) (t : Trace) (e : Run Established)
    → life t ≡ none
    → Finishes context t e
    → Misuses e
Misuses-of_Finishes context t (done refused u) h f = absurd f
Misuses-of_Finishes context t (done (established c name) u) h f = f.1 ∙ h
Misuses-of_Finishes context t (exited n u) h f = absurd f
Misuses-of_Finishes context t fault h f = tt
Misuses-of_Finishes context t hung h f = tt

module _ (os : Os) (gss : Gss) (fuel fd server_creds : ℕ) (on : Bool) where
  offer_token-RoundMisuses :
      (r : AcceptReply) (count : ℕ) (t : Trace)
      → life t ≡ none
      → RoundMisuses (offer_token os gss fuel fd on r count t)
  unfolding offer_token life
  offer_token-RoundMisuses r count t h = grind (
    arith,
    send_token-Keeps life life-Ignores os fuel fd,
    record_if-Keeps life life-Ignores os gss fuel on,
    deletes-none,
  )

  establish_round-RoundMisuses :
      (count : ℕ) (t : Trace)
      → Doomed (life t)
      → RoundMisuses (establish_round os gss fuel fd server_creds on count t)
  unfolding establish_round life
  establish_round-RoundMisuses count t d =
      RoundMisuses-bind t (recv_token os fuel fd t) _
        (recv_token-Keeps life life-Ignores os fuel fd t)
        (elim [
          | none ↦ λ u e. tt
          | some recv_tok ↦ λ u e.
              RoundMisuses-bind u (record_if os gss fuel on recv_prefix count recv_tok u) _
                (record_if-Keeps life life-Ignores os gss fuel on recv_prefix count recv_tok u)
                λ n v e'.
                  let args : AcceptArgs = record {
                    context = none;
                    cred = server_creds;
                    input = recv_tok;
                  } in
                  let r = gss.accept_sec_context v args in
                  let t' =
                    Event.gss_release_buffer recv_tok ∷ Event.gss_accept_sec_context args r ∷ v in
                  let minor =
                    gss.release_buffer (Event.gss_accept_sec_context args r ∷ v) recv_tok in
                  let now : life t' ≡ none =
                    rw (e' ∙ e) (establishes-Doomed r.major r.context (life t) d) in
                  if_rule RoundMisuses t' (not (is_complete r.major || is_continue r.major)) _ _
                    (λ _.
                      RoundMisuses-bind t'
                        (display_status gss fuel "server gss_accept_sec_context" r.major minor t') _
                        (display_status-Keeps life life-Ignores gss fuel _ r.major minor t')
                        (λ _ _ _. tt))
                    (λ _. offer_token-RoundMisuses r n _ now)
        ])

  pub establish_loop-Misuses :
      (rounds count : ℕ) (t : Trace)
      → Doomed (life t)
      → Misuses (establish_loop os gss fuel rounds fd server_creds on count t)
  unfolding establish_loop
  establish_loop-Misuses zero count t d = tt
  establish_loop-Misuses (suc rounds) count t d =
      Misuses-bind (establish_round os gss fuel fd server_creds on count t) _
        (establish_round-RoundMisuses count t d) (λ u. tt)
        (λ context r n u h.
          if_rule Misuses u (not (is_complete r.major)) _ _
            (λ _. establish_loop-Misuses rounds n u (none-Doomed (life u) h))
            (λ _.
              Misuses-of_Finishes context u _ h
                (finish-Finishes os gss fuel server_creds context r u)))
