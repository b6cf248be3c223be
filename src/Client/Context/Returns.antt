-- ===== src/Client/Context/Returns.antt =====
-- Whether establish_context of application/gssapi/client.c returns.
use kerberos.Base.{
  ℕ, zero, suc, ◌-◌, ◌<◌, ◌≤◌, ◌^◌, ◌≡◌, refl, Bool, true, false, not, ◌||◌, Option, none, some, [],
  ◌∷◌, ◌++◌, arith, length, bit_or, if◌then◌else◌,
}
use kerberos.World.{
  Bytes, Status, success, failure, Major, StatusValue, Context, Oid, InitArgs, InitReply, Event,
  Trace, Os, Gss, Run, done, exited, fault, hung, Prog, pure, ◌>>◌, and_then, if_rule, Returns,
  Settles, Settles-of_Returns, inits, inits-Ignores, gss_release_name,
}
use kerberos.Wire.{send_token, recv_token}
use kerberos.Wire.Plain.{send_token-Keeps, recv_token-Keeps}
use kerberos.Wire.Returns.{Progresses, send_token-Returns, recv_token-Returns}
use kerberos.Display.{is_complete, is_continue, display_status}
use kerberos.Display.Flags.{display_status-Returns}
use kerberos.Client.Context.{
  Round, stop, over, record_if, reject, await_token, offer_token, establish_round, establish_loop,
  establish_context,
}

-- A library that asks for no further token once gss_init_sec_context has been called `limit` times,
-- makes tokens shorter than 2^32 bytes, of `message` too, and has one text for each status.
pub record IsBounded (gss : Gss) (limit : ℕ) (message : Bytes) : Type 0 where
  pub stops :
      (t : Trace) (args : InitArgs)
      → limit ≤ inits t
      → is_continue (gss.init_sec_context t args).major ≡ false
  pub short_token :
      (t : Trace) (args : InitArgs) → length (gss.init_sec_context t args).output < 2 ^ 32
  pub short_message :
      (t : Trace) (context : Context) (conf : Bool)
      → length (gss.wrap t context conf (message ++ (0 ∷ []))).output < 2 ^ 32
  pub one_text : (t : Trace) (value : StatusValue) → (gss.display_status t value 0).more ≡ 0

module _ (os : Os) (gss : Gss) (fuel fd limit : ℕ) (message : Bytes) (p : Progresses os fd)
    (bounded : IsBounded gss limit message) (enough : 2 ^ 32 ≤ suc fuel) where
  recv_token-Settles : (t : Trace) → Settles inits t (recv_token os (suc fuel) fd t)
  recv_token-Settles t =
      Settles-of_Returns inits t _ (recv_token-Returns os fd p (suc fuel) t enough)
        (recv_token-Keeps inits inits-Ignores os (suc fuel) fd t)

  send_token-Settles :
      (token : Bytes) (t : Trace)
      → length token < 2 ^ 32
      → Settles inits t (send_token os (suc fuel) fd token t)
  send_token-Settles token t small =
      Settles-of_Returns inits t _ (send_token-Returns os fd p (suc fuel) token t enough small)
        (send_token-Keeps inits inits-Ignores os (suc fuel) fd token t)

  -- A round that returns, and goes on only with the reply `r` of its call, the call counted by `n`.
  abbrev Goes : ℕ → InitReply → Run Round → Type 0
  Goes n r (done (stop ctx) u) = Unit
  Goes n r (done (over ctx major input count) u) = (major ≡ r.major) × (inits u ≡ n)
  Goes n r _ = ⊥

  module _ (target : ℕ) (r : InitReply) (n : ℕ) where
    await_token-Goes :
        (input : Option Bytes) (count : ℕ) (t : Trace)
        → inits t ≡ n
        → Goes n r (await_token os gss (suc fuel) fd target false r input count t)
    unfolding await_token record_if inits
    await_token-Goes input count t h = grind (arith, recv_token-Settles)

    offer_token-Goes :
        (input : Option Bytes) (count : ℕ) (t : Trace)
        → length r.output < 2 ^ 32
        → inits t ≡ n
        → Goes n r (offer_token os gss (suc fuel) fd target false r input count t)
    unfolding offer_token record_if inits
    offer_token-Goes input count t small h = grind (arith, send_token-Settles, await_token-Goes)

    reject-Goes : (minor : ℕ) (t : Trace) → Goes n r (reject os gss (suc fuel) target r minor t)
    unfolding reject
    reject-Goes minor t = grind (arith, display_status-Returns gss fuel, bounded.one_text)

  -- A round that returns, and goes on only while the library may ask for more.
  abbrev Advances : ℕ → Run Round → Type 0
  Advances n (done (stop ctx) u) = Unit
  Advances n (done (over ctx major input count) u) =
      (inits u ≡ suc n) × (limit ≤ n → is_continue major ≡ false)
  Advances n _ = ⊥

  Advances-of_Goes :
      (n : ℕ) (r : InitReply) (b : Run Round)
      → (limit ≤ n → is_continue r.major ≡ false)
      → Goes (suc n) r b
      → Advances n b
  Advances-of_Goes n r (done (stop ctx) u) h g = tt
  Advances-of_Goes n r (done (over ctx major input count) u) h g = (g.1, λ k. rw g.0 (h k))
  Advances-of_Goes n r (exited c u) h g = g
  Advances-of_Goes n r fault h g = g
  Advances-of_Goes n r hung h g = g

  dispatch-Goes :
      (target : ℕ) (r : InitReply) (minor : ℕ) (input : Option Bytes) (n count : ℕ) (t : Trace)
      → length r.output < 2 ^ 32
      → inits t ≡ n
      → Goes n r (
          (if not (is_complete r.major || is_continue r.major)
              then reject os gss (suc fuel) target r minor
              else offer_token os gss (suc fuel) fd target false r input count)
            t)
  dispatch-Goes target r minor input n count t small h =
      if_rule (Goes n r) t (not (is_complete r.major || is_continue r.major))
        (reject os gss (suc fuel) target r minor)
        (offer_token os gss (suc fuel) fd target false r input count)
        (λ _. reject-Goes target r n minor t)
        (λ _. offer_token-Goes target r n input count t small h)

  abbrev round_args : ℕ → Option Oid → Context → Option Bytes → InitArgs
  round_args target mech ctx input = record {
    context = ctx;
    target = target;
    mech = mech;
    request = bit_or gss.mutual_flag gss.replay_flag;
    input = input;
  }

  establish_round-Advances :
      (target : ℕ) (mech : Option Oid) (ctx : Context) (input : Option Bytes) (count : ℕ)
      (t : Trace)
      → Advances
          (inits t)
          (establish_round os gss (suc fuel) fd target mech false ctx input count t)
  unfolding establish_round inits
  establish_round-Advances target mech ctx none count t =
      let args = round_args target mech ctx none in
      Advances-of_Goes (inits t) (gss.init_sec_context t args) _ (bounded.stops t args) (
        dispatch-Goes target (gss.init_sec_context t args) _ none (suc (inits t)) count _
          (bounded.short_token t args) refl)
  establish_round-Advances target mech ctx (some token) count t =
      let args = round_args target mech ctx (some token) in
      Advances-of_Goes (inits t) (gss.init_sec_context t args) _ (bounded.stops t args) (
        dispatch-Goes target (gss.init_sec_context t args) _ (some []) (suc (inits t)) count _
          (bounded.short_token t args) refl)

  Returns-loop :
      (n : ℕ) (b : Run Round) (k : Round → Prog (Status × Context))
      → Advances n b
      → ((ctx : Context) (u : Trace) → Returns (k (stop ctx) u))
      → ((ctx : Context) (major : Major) (input : Option Bytes) (count : ℕ) (u : Trace)
          → inits u ≡ suc n
          → (limit ≤ n → is_continue major ≡ false)
          → Returns (k (over ctx major input count) u))
      → Returns (and_then b k)
  Returns-loop n (done (stop ctx) u) k h f g = f ctx u
  Returns-loop n (done (over ctx major input count) u) k h f g = g ctx major input count u h.0 h.1
  Returns-loop n (exited c u) k h f g = absurd h
  Returns-loop n fault k h f g = absurd h
  Returns-loop n hung k h f g = absurd h

  may_ask :
      (major : Major) (n : ℕ)
      → (limit ≤ n → is_continue major ≡ false)
      → is_continue major ≡ true
      → n < limit
  may_ask major n h asked = ground (arith, h)

  establish_loop-Returns :
      (rounds target : ℕ) (mech : Option Oid) (ctx : Context) (input : Option Bytes) (count : ℕ)
      (t : Trace)
      → limit - inits t < rounds
      → Returns (establish_loop os gss (suc fuel) rounds fd target mech false ctx input count t)
  unfolding establish_loop
  establish_loop-Returns zero target mech ctx input count t h = elim h [ ]
  establish_loop-Returns (suc rounds) target mech ctx input count t h =
      Returns-loop (inits t) _ _ (establish_round-Advances target mech ctx input count t)
        (λ ctx' u. tt)
        (λ ctx' major next count' u e asks.
          if_rule Returns u (is_continue major)
            (establish_loop os gss (suc fuel) rounds fd target mech false ctx' next count')
            (gss_release_name target >> pure (success, ctx'))
            (λ more.
              establish_loop-Returns rounds target mech ctx' next count' u
                (omega (arith, e, may_ask major (inits t) asks more)))
            (λ _. tt))

  pub establish_context-Returns :
      (service_name : Bytes) (mech : Option Oid) (t : Trace)
      → limit - inits t < suc fuel
      → Returns (establish_context os gss (suc fuel) fd service_name mech false t)
  unfolding establish_context inits
  establish_context-Returns service_name mech t h =
      let n = gss.import_name t (service_name ++ (0 ∷ [])) in
      if_rule Returns (Event.gss_import_name (service_name ++ (0 ∷ [])) n ∷ t)
        (not (is_complete n.major))
        (display_status gss (suc fuel) "client gss_import_name" n.major n.minor
          >> pure (failure, none))
        (establish_loop os gss (suc fuel) (suc fuel) fd n.name mech false none none 0)
        (λ _. grind (arith, display_status-Returns gss fuel, bounded.one_text))
        (λ _. establish_loop-Returns (suc fuel) n.name mech none none 0 _ h)
