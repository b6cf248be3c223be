-- ===== src/Client/Context/Closed.antt =====
-- establish_context of application/gssapi/client.c neither closes nor connects a socket.
use kerberos.Base.{
  ℕ, zero, suc, ◌≡◌, refl, Bool, not, ◌||◌, Option, none, some, [], ◌∷◌, ◌++◌, arith, if◌then◌else◌,
}
use kerberos.World.{
  Bytes, success, failure, Context, Oid, InitReply, Event, Trace, Os, Gss, pure, ◌>>◌, if_rule,
  Keeps, Keeps-then, Keeps-from, sockets, sockets-Ignores, gss_release_name,
}
use kerberos.Wire.Plain.{send_token-Keeps, recv_token-Keeps}
use kerberos.Display.{is_complete, is_continue, display_status}
use kerberos.Display.Plain.{display_status-Keeps}
use kerberos.Client.Context.{
  stop, over, reject, await_token, offer_token, establish_round, establish_loop, establish_context,
}
use kerberos.Client.Context.Names.{record_if-Keeps}

module _ (os : Os) (gss : Gss) (fuel fd target : ℕ) (on : Bool) where
  await_token-Keeps :
      (r : InitReply) (input : Option Bytes) (count : ℕ) (t : Trace)
      → Keeps sockets t (await_token os gss fuel fd target on r input count t)
  unfolding await_token sockets
  await_token-Keeps r input count t = grind (
    arith,
    recv_token-Keeps sockets sockets-Ignores os fuel fd,
    record_if-Keeps sockets sockets-Ignores os gss fuel on,
  )

  offer_token-Keeps :
      (r : InitReply) (input : Option Bytes) (count : ℕ) (t : Trace)
      → Keeps sockets t (offer_token os gss fuel fd target on r input count t)
  unfolding offer_token sockets
  offer_token-Keeps r input count t = grind (
    arith,
    send_token-Keeps sockets sockets-Ignores os fuel fd,
    record_if-Keeps sockets sockets-Ignores os gss fuel on,
    await_token-Keeps,
  )

  reject-Keeps :
      (r : InitReply) (minor : ℕ) (t : Trace)
      → Keeps sockets t (reject os gss fuel target r minor t)
  unfolding reject sockets
  reject-Keeps r minor t = grind (arith, display_status-Keeps sockets sockets-Ignores gss fuel)

  dispatch-Keeps :
      (r : InitReply) (minor : ℕ) (input : Option Bytes) (count : ℕ) (t u : Trace)
      → sockets u ≡ sockets t
      → Keeps sockets t (
          (if not (is_complete r.major || is_continue r.major)
              then reject os gss fuel target r minor
              else offer_token os gss fuel fd target on r input count)
            u)
  dispatch-Keeps r minor input count t u e = Keeps-from sockets t u _ e (
      if_rule (Keeps sockets u) u (not (is_complete r.major || is_continue r.major)) _ _
        (λ _. reject-Keeps r minor u) (λ _. offer_token-Keeps r input count u))

  establish_round-Keeps :
      (mech : Option Oid) (ctx : Context) (input : Option Bytes) (count : ℕ) (t : Trace)
      → Keeps sockets t (establish_round os gss fuel fd target mech on ctx input count t)
  unfolding establish_round sockets
  establish_round-Keeps mech ctx none count t = dispatch-Keeps _ _ none count t _ refl
  establish_round-Keeps mech ctx (some token) count t = dispatch-Keeps _ _ (some []) count t _ refl

  establish_loop-Keeps :
      (rounds : ℕ) (mech : Option Oid) (ctx : Context) (input : Option Bytes) (count : ℕ)
      (t : Trace)
      → Keeps sockets t (establish_loop os gss fuel rounds fd target mech on ctx input count t)
  unfolding establish_loop sockets
  establish_loop-Keeps zero mech ctx input count t = tt
  establish_loop-Keeps (suc rounds) mech ctx input count t =
      Keeps-then sockets t _ _ (establish_round-Keeps mech ctx input count t) (elim [
        | stop ctx' ↦ λ u. refl
        | over ctx' major next count' ↦ λ u.
            if_rule (Keeps sockets u) u (is_continue major)
              (establish_loop os gss fuel rounds fd target mech on ctx' next count')
              (gss_release_name target >> pure (success, ctx'))
              (λ _. establish_loop-Keeps rounds mech ctx' next count' u) (λ _. refl)
      ])

pub establish_context-Keeps :
    (os : Os) (gss : Gss) (fuel fd : ℕ) (service_name : Bytes) (mech : Option Oid) (on : Bool)
    (t : Trace)
    → Keeps sockets t (establish_context os gss fuel fd service_name mech on t)
unfolding establish_context sockets
establish_context-Keeps os gss fuel fd service_name mech on t =
    let n = gss.import_name t (service_name ++ (0 ∷ [])) in
    let u = Event.gss_import_name (service_name ++ (0 ∷ [])) n ∷ t in
    Keeps-from sockets t u _ refl (
      if_rule (Keeps sockets u) u (not (is_complete n.major))
        (display_status gss fuel "client gss_import_name" n.major n.minor >> pure (failure, none))
        (establish_loop os gss fuel fuel fd n.name mech on none none 0)
        (λ _.
          Keeps-then sockets u _ _
            (display_status-Keeps sockets sockets-Ignores gss fuel _ n.major n.minor u)
            (λ _ _. refl))
        (λ _. establish_loop-Keeps os gss fuel fd n.name on fuel mech none none 0 u))
