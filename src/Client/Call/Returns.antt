-- ===== src/Client/Call/Returns.antt =====
-- Whether call_server of application/gssapi/client.c returns.
use kerberos.Base.{
  ℕ, suc, ◌-◌, ◌<◌, ◌≤◌, ◌^◌, ◌≡◌, Bool, false, not, Option, none, some, [], ◌∷◌, ◌++◌, arith,
  if◌then◌else◌,
}
use mathlib.Core.Path.{subst}
use kerberos.World.{
  Bytes, Status, success, failure, Context, Oid, InquireReply, Event, Trace, Os, if_rule, Gss, done,
  Prog, pure, ◌>>=◌, ◌>>◌, printf, close, Returns, Returns-bind, done-of_Returns,
}
use kerberos.Wire.Returns.{Progresses, send_token-Returns, recv_token-Returns}
use kerberos.Display.{is_complete, has_flag}
use kerberos.Display.Flags.{display_status-Returns, display_context_flags-Returns}
use kerberos.Mechs.{test_mech_oid, translate_mech_to_oid}
use kerberos.Client.Connect.{connect_to_server}
use kerberos.Client.Connect.Connected.{connect_to_server-newest_connect}
use kerberos.Client.Context.{establish_context}
use kerberos.Client.Context.Returns.{IsBounded, establish_context-Returns}
use kerberos.Client.Call.{
  verify_reply, exchange, abandon, show_names, show_limits, inquire, request_mech, call_server,
}

module _ (os : Os) (gss : Gss) (fuel sock limit : ℕ) (ctx : Context) (message : Bytes)
    (p : Progresses os sock) (bounded : IsBounded gss limit message)
    (enough : 2 ^ 32 ≤ suc fuel) where
  verify_reply-Returns :
      (input mic : Bytes) (t : Trace)
      → Returns (verify_reply os gss (suc fuel) sock ctx input mic t)
  unfolding verify_reply
  verify_reply-Returns input mic t =
      grind (arith, display_status-Returns gss fuel, bounded.one_text)

  warned :
      (conf : Bool) (t : Trace)
      → Returns (
          (if not conf
              then printf "client: Warning! No confidentiality provided !\n" []
              else pure tt)
            t)
  warned conf t = ground arith

  exchange-Returns :
      (flags : ℕ) (t : Trace) → Returns (exchange os gss (suc fuel) sock ctx flags message t)
  unfolding exchange
  exchange-Returns flags t =
      let input = message ++ (0 ∷ []) in
      let conf = has_flag flags gss.conf_flag in
      let w = gss.wrap t ctx conf input in
      let t' = Event.gss_wrap ctx conf input w ∷ t in
      if_rule Returns t' (not (is_complete w.major)) _ _
        (λ _. grind (arith, display_status-Returns gss fuel, bounded.one_text))
        (λ _. Returns-bind _ _ (warned w.conf t') λ _ u.
          Returns-bind _ _
            (send_token-Returns os sock p (suc fuel) w.output u enough
              (bounded.short_message t ctx conf))
            (elim [
              | failure ↦ λ v. tt
              | success ↦ λ v.
                  Returns-bind _ _ (recv_token-Returns os sock p (suc fuel) _ enough)
                    (elim [ none ↦ λ x. tt | some mic ↦ λ x. verify_reply-Returns input mic x ])
            ]))

  abandon-Returns :
      (src target : ℕ) (t : Trace) → Returns (abandon os gss (suc fuel) ctx src target t)
  unfolding abandon
  abandon-Returns src target t = tt

  show_names-Returns :
      (q : InquireReply) (t : Trace) → Returns (show_names os gss (suc fuel) sock ctx q message t)
  unfolding show_names
  show_names-Returns q t =
      grind (
        arith,
        display_status-Returns gss fuel,
        bounded.one_text,
        abandon-Returns,
        exchange-Returns,
      )

  show_limits-Returns :
      (q : InquireReply) (t : Trace) → Returns (show_limits os gss (suc fuel) sock ctx q message t)
  unfolding show_limits
  show_limits-Returns q t = grind (
    arith,
    display_status-Returns gss fuel,
    bounded.one_text,
    abandon-Returns,
    show_names-Returns,
  )

  inquire-Returns : (t : Trace) → Returns (inquire os gss (suc fuel) sock ctx message t)
  unfolding inquire
  inquire-Returns t = grind (
    arith,
    display_status-Returns gss fuel,
    bounded.one_text,
    display_context_flags-Returns gss,
    show_limits-Returns,
  )

module _ (os : Os) (gss : Gss) (fuel limit : ℕ) (message : Bytes) (p : (fd : ℕ) → Progresses os fd)
    (bounded : IsBounded gss limit message) (enough : 2 ^ 32 ≤ suc fuel)
    (patient : limit < suc fuel) where
  test_mech_oid-Returns : (oid : Oid) (t : Trace) → Returns (test_mech_oid gss (suc fuel) oid t)
  unfolding test_mech_oid
  test_mech_oid-Returns oid t = grind (arith, display_status-Returns gss fuel, bounded.one_text)

  request_mech-Returns :
      (mech : Option Bytes) (t : Trace) → Returns (request_mech os gss (suc fuel) mech t)
  unfolding request_mech translate_mech_to_oid
  request_mech-Returns none t = tt
  request_mech-Returns (some mech) t = grind (arith, test_mech_oid-Returns)

  connect_to_server-Returns :
      (host port : Bytes) (t : Trace) → Returns (connect_to_server os host port t)
  connect_to_server-Returns host port t =
      let (s, u, e, _) = connect_to_server-newest_connect os host port t in rw e tt

  module _ (host port service : Bytes) where
    requested-Returns :
        (st : Status) (oid : Option Oid) (t : Trace)
        → Returns (
            (elim st as (λ _. Prog Status) [
              | failure ↦ pure failure
              | success ↦ connect_to_server os host port >>= λ s. elim s [
                | none ↦ printf "failed to connect to server\n" [] >> pure failure
                | some sock ↦ establish_context os gss (suc fuel) sock service oid false >>= λ c.
                    elim c.0 [
                      | failure ↦
                          printf "context establishment failed\n" [] >> close sock >> pure failure
                      | success ↦ inquire os gss (suc fuel) sock c.1 message
                    ]
              ]
            ])
              t)
    requested-Returns failure oid t = tt
    requested-Returns success oid t =
        Returns-bind _ _ (connect_to_server-Returns host port t) (elim [
          | none ↦ λ u. tt
          | some sock ↦ λ u.
              Returns-bind _ _
                (establish_context-Returns os gss fuel sock limit message (p sock) bounded enough
                  service oid u (omega (arith, patient)))
                (λ c v. established-Returns sock c.0 c.1 v)
        ])
      where
        established-Returns :
            (sock : ℕ) (st : Status) (ctx : Context) (v : Trace)
            → Returns (
                (elim st as (λ _. Prog Status) [
                  | failure ↦
                      printf "context establishment failed\n" [] >> close sock >> pure failure
                  | success ↦ inquire os gss (suc fuel) sock ctx message
                ])
                  v)
        established-Returns sock failure ctx v = tt
        established-Returns sock success ctx v =
            inquire-Returns os gss fuel sock limit ctx message (p sock) bounded enough v

    call_server-Returns :
        (mech : Option Bytes) (t : Trace)
        → Returns (call_server os gss (suc fuel) host port mech service message false t)
    unfolding call_server
    call_server-Returns mech t =
        Returns-bind _ _ (request_mech-Returns mech t) (λ m u. requested-Returns m.0 m.1 u)

-- With a peer that stays connected and a kernel that moves fewer than 2^31 bytes at a time and has
-- the blocks asked for (`Progresses`) on every descriptor, a library that asks for no further
-- token after `limit` calls of gss_init_sec_context, makes tokens shorter than 2^32 bytes and has
-- one text for each status (`IsBounded`), fuel above `limit` and of at least 2^32, and tokens that
-- are not recorded, `call_server` returns.
pub call_server-done :
    (os : Os) (gss : Gss) (fuel limit : ℕ) (host port : Bytes) (mech : Option Bytes)
    (service message : Bytes) (t : Trace)
    → ((fd : ℕ) → Progresses os fd)
    → IsBounded gss limit message
    → limit < fuel
    → 2 ^ 32 ≤ fuel
    → (st : Status) × (u : Trace) × (call_server os gss fuel host port mech service message false t
        ≡ done st u)
call_server-done os gss fuel limit host port mech service message t p bounded patient enough =
    let same : suc (fuel - 1) ≡ fuel = omega (arith, enough) in
    done-of_Returns (call_server os gss fuel host port mech service message false t) (
      subst (λ n. Returns (call_server os gss n host port mech service message false t)) same
        (call_server-Returns os gss (fuel - 1) limit message p bounded (omega (arith, enough))
          (omega (arith, patient)) host port service mech t))
