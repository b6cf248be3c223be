-- ===== src/Server/Context/Returns.antt =====
-- Whether establish_context of application/gssapi/server.c returns.
use kerberos.Base.{
  ◌≢◌, ℕ, suc, ◌<◌, ◌≤◌, ◌^◌, ◌≡◌, true, false, not, ◌||◌, none, some, arith, length,
}
use kerberos.World.{
  Bytes, Major, complete, StatusValue, Context, AcceptArgs, AcceptReply, Trace, Os, Gss, Run, done,
  exited, fault, hung, Prog, and_then, if_rule, Returns, Returns-bind,
}
use kerberos.Wire.Returns.{Progresses, send_token-Returns, recv_token-Returns}
use kerberos.Display.{is_complete, is_continue}
use kerberos.Display.Flags.{display_context_flags-Returns, display_status-Returns}
use kerberos.Server.Context.{
  Round, stop, over, Established, record_if, offer_token, establish_round, finish, establish_loop,
  establish_context,
}

-- A library that never asks for a further token, can display the name of the client, makes tokens
-- shorter than 2^32 bytes, sets the message also where it refuses to unwrap it, and has one text
-- for each status.
pub record IsBrief (gss : Gss) : Type 0 where
  pub single :
      (t : Trace) (args : AcceptArgs) → is_continue (gss.accept_sec_context t args).major ≡ false
  pub short_token :
      (t : Trace) (args : AcceptArgs) → length (gss.accept_sec_context t args).output < 2 ^ 32
  pub short_mic :
      (t : Trace) (context : Context) (message : Bytes)
      → length (gss.get_mic t context message).output < 2 ^ 32
  pub displays : (t : Trace) (name : ℕ) → (gss.display_name t name).major ≡ complete
  pub readable :
      (t : Trace) (context : Context) (input : Bytes) → (gss.unwrap t context input).output ≢ none
  pub one_text : (t : Trace) (value : StatusValue) → (gss.display_status t value 0).more ≡ 0

-- A round that returns, and is the last one.
abbrev EndsLoop : Run Round → Type 0
EndsLoop (done stop u) = Unit
EndsLoop (done (over context r count) u) = is_complete r.major ≡ true
EndsLoop _ = ⊥

EndsLoop-bind :
    {A : Type 0} (r : Run A) (k : A → Prog Round)
    → Returns r
    → ((a : A) (u : Trace) → EndsLoop (k a u))
    → EndsLoop (and_then r k)
EndsLoop-bind (done a u) k h next = next a u
EndsLoop-bind (exited n u) k h next = absurd h
EndsLoop-bind fault k h next = absurd h
EndsLoop-bind hung k h next = absurd h

Returns-loop :
    (b : Run Round) (k : Round → Prog Established)
    → EndsLoop b
    → ((u : Trace) → Returns (k stop u))
    → ((context : Context) (r : AcceptReply) (count : ℕ) (u : Trace)
        → is_complete r.major ≡ true
        → Returns (k (over context r count) u))
    → Returns (and_then b k)
Returns-loop (done stop u) k h f g = f u
Returns-loop (done (over context r count) u) k h f g = g context r count u h
Returns-loop (exited n u) k h f g = absurd h
Returns-loop fault k h f g = absurd h
Returns-loop hung k h f g = absurd h

completed :
    (m : Major)
    → not (is_complete m || is_continue m) ≡ false
    → is_continue m ≡ false
    → is_complete m ≡ true
completed m h k = ground arith

module _ (os : Os) (gss : Gss) (fuel fd server_creds : ℕ) (p : Progresses os fd)
    (brief : IsBrief gss) (enough : 2 ^ 32 ≤ suc fuel) where
  finish-Returns :
      (context : Context) (r : AcceptReply) (t : Trace)
      → Returns (finish os gss (suc fuel) server_creds context r t)
  unfolding finish
  finish-Returns context r t =
      Returns-bind _ _ (display_context_flags-Returns gss r.flags _)
        (λ _ u. grind (arith, Returns-bind, display_status-Returns gss fuel, brief.one_text))

  offer_token-EndsLoop :
      (r : AcceptReply) (count : ℕ) (t : Trace)
      → is_complete r.major ≡ true
      → length r.output < 2 ^ 32
      → EndsLoop (offer_token os gss (suc fuel) fd false r count t)
  unfolding offer_token record_if
  offer_token-EndsLoop r count t ok small =
      grind (arith, EndsLoop-bind, send_token-Returns os fd p (suc fuel))

  establish_round-EndsLoop :
      (t : Trace) → EndsLoop (establish_round os gss (suc fuel) fd server_creds false 0 t)
  unfolding establish_round record_if
  establish_round-EndsLoop t =
      EndsLoop-bind _ _ (recv_token-Returns os fd p (suc fuel) t enough) (elim [
        | none ↦ λ u. tt
        | some tok ↦ λ u.
            let args : AcceptArgs = record { context = none; cred = server_creds; input = tok } in
            let r = gss.accept_sec_context u args in
            if_rule EndsLoop _ (not (is_complete r.major || is_continue r.major)) _ _
              (λ _.
                EndsLoop-bind _ _ (display_status-Returns gss fuel _ r.major _ _ brief.one_text)
                  (λ _ _. tt))
              (λ e.
                offer_token-EndsLoop r 0 _ (completed r.major e (brief.single u args))
                  (brief.short_token u args))
      ])

  pub establish_context-Returns :
      (t : Trace) → Returns (establish_context os gss (suc fuel) fd server_creds false t)
  unfolding establish_context establish_loop
  establish_context-Returns t =
      Returns-loop _ _ (establish_round-EndsLoop t) (λ u. tt)
        (λ context r count u e. rw e (finish-Returns context r u))
