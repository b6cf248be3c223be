-- ===== src/Dialogue/Handshake.antt =====
-- The two establish_context of application/gssapi over one connection, with a mechanism that needs
-- one token from each end, as Kerberos with mutual authentication does.
use kerberos.Base.{
  zero_test, ℕ, ◌<◌, ◌^◌, ◌≡◌, false, Option, none, some, [], ◌∷◌, ◌++◌, arith, length, bit_or, suc,
  ◌-◌,
}
use mathlib.Core.Path.{subst}
use kerberos.World.{
  Bytes, success, complete, continue_needed, Context, Oid, InitArgs, AcceptArgs, Event, Trace, Os,
  Gss, done,
}
use kerberos.Wire.{send_token, recv_token}
use kerberos.Wire.Transfer.{Carries, carry}
use kerberos.Server.Context.Finished.{finish-established}
use kerberos.Client.Context as Client
use kerberos.Server.Context as Server
use kerberos.Server.Context.{Established, established}

module _ (client server : Os) (gss gss' : Gss) (fuel sock cfd : ℕ) (service : Bytes)
    (mech : Option Oid) (cred : ℕ) (ctx ctx' : Context) (reply : Bytes) (t t' : Trace) where
  -- The name imported by the client.
  abbrev target : ℕ
  target = (gss.import_name t (service ++ (0 ∷ []))).name

  abbrev imported : Trace
  imported =
      Event.gss_import_name (service ++ (0 ∷ [])) (gss.import_name t (service ++ (0 ∷ []))) ∷ t

  -- The first call of `gss_init_sec_context`, and the token that it makes.
  abbrev first_args : InitArgs
  first_args = record {
    context = none;
    target = target;
    mech = mech;
    request = bit_or gss.mutual_flag gss.replay_flag;
    input = none;
  }

  abbrev request : Bytes
  request = (gss.init_sec_context imported first_args).output

  -- The trace of the client right before it sends its token.
  abbrev requesting : Trace
  requesting =
      Event.printf "client: Sending token to server\n" []
      ∷ Event.gss_init_sec_context first_args (gss.init_sec_context imported first_args)
      ∷ imported

  -- The second call of `gss_init_sec_context`.
  abbrev second_args : InitArgs
  second_args = record {
    context = (gss.init_sec_context imported first_args).context;
    target = target;
    mech = mech;
    request = bit_or gss.mutual_flag gss.replay_flag;
    input = some reply;
  }

  -- The trace of the client that waits for the token of the server, after `u`.
  abbrev waiting : Trace → Trace
  waiting u = Event.printf "Continue needed...\n" [] ∷ Event.gss_release_buffer request ∷ u

  abbrev accept_args : AcceptArgs
  accept_args = record { context = none; cred = cred; input = request }

  -- The trace of the server right before it sends its token, if it has received the client's at
  -- `v`.
  abbrev replying : Trace → Trace
  replying v =
      Event.printf "server: establish_context: sending token to client\n" []
      ∷ Event.printf "server: establish_context: continue needed..\n" []
      ∷ Event.gss_release_buffer request
      ∷ Event.gss_accept_sec_context accept_args (gss'.accept_sec_context v accept_args)
      ∷ v

  -- The mechanism takes one token from each end, and neither library reports an error.
  pub record Negotiates : Type 0 where
    pub imports : (gss.import_name t (service ++ (0 ∷ []))).major ≡ complete
    pub begins : (gss.init_sec_context imported first_args).major ≡ continue_needed
    pub asks : 0 < length request
    pub accepts : (v : Trace) → (gss'.accept_sec_context v accept_args).major ≡ complete
    pub replies : (v : Trace) → (gss'.accept_sec_context v accept_args).output ≡ reply
    pub hands_out : (v : Trace) → (gss'.accept_sec_context v accept_args).context ≡ ctx'
    pub answers : 0 < length reply
    pub displays : (v : Trace) (name : ℕ) → (gss'.display_name v name).major ≡ complete
    pub confirms : (v : Trace) → (gss.init_sec_context v second_args).major ≡ complete
    pub is_over : (v : Trace) → (gss.init_sec_context v second_args).output ≡ []
    pub gives : (v : Trace) → (gss.init_sec_context v second_args).context ≡ ctx

  server_round-over :
      (vs ws : Trace)
      → Negotiates
      → recv_token server fuel cfd t' ≡ done (some request) vs
      → send_token server fuel cfd reply (replying vs) ≡ done success ws
      → Server.establish_round server gss' fuel cfd cred false 0 t'
        ≡ done
            (Server.over ctx' (gss'.accept_sec_context vs accept_args) 0)
            (Event.gss_release_buffer reply ∷ ws)
  unfolding Server.establish_round Server.offer_token Server.record_if
  server_round-over vs ws n hears says =
      simp (hears, n.accepts, n.replies, n.hands_out, zero_test (length reply) n.answers, says)

  server_loop-established :
      (rounds : ℕ) (vs ws : Trace)
      → Negotiates
      → recv_token server fuel cfd t' ≡ done (some request) vs
      → send_token server fuel cfd reply (replying vs) ≡ done success ws
      → (name : Bytes) × (u : Trace) × (Server.establish_loop server gss' fuel
            (suc rounds)
            cfd
            cred
            false
            0
            t'
          ≡ done (established ctx' name) u)
  unfolding Server.establish_loop
  server_loop-established rounds vs ws n hears says =
      let q = gss'.accept_sec_context vs accept_args in
      let (name, u, e) =
        finish-established server gss' fuel cred ctx' q (Event.gss_release_buffer reply ∷ ws)
          (λ v. n.displays v q.client) in
      (name, u, simp (server_round-over vs ws n hears says, n.accepts, e))

  client_first-over :
      (uc vc : Trace)
      → Negotiates
      → send_token client fuel sock request requesting ≡ done success uc
      → recv_token client fuel sock (waiting uc) ≡ done (some reply) vc
      → Client.establish_round client gss fuel sock target mech false none none 0 imported
        ≡ done
            (Client.over
              (gss.init_sec_context imported first_args).context
              continue_needed
              (some reply)
              0)
            vc
  unfolding Client.establish_round Client.offer_token Client.await_token Client.record_if
  client_first-over uc vc n asks gets =
      simp (n.begins, zero_test (length request) n.asks, asks, gets)

  client_second-over :
      (v : Trace)
      → Negotiates
      → Client.establish_round client gss fuel sock target mech false second_args.context
          (some reply)
          0
          v
        ≡ done (Client.over ctx complete (some []) 0) (
            Event.gss_release_buffer reply
            ∷ Event.gss_init_sec_context second_args (gss.init_sec_context v second_args)
            ∷ v)
  unfolding Client.establish_round Client.offer_token
  client_second-over v n = simp (n.confirms, n.is_over, n.gives)

  client_loop-success :
      (rounds : ℕ) (uc vc : Trace)
      → Negotiates
      → send_token client fuel sock request requesting ≡ done success uc
      → recv_token client fuel sock (waiting uc) ≡ done (some reply) vc
      → (u : Trace) × (Client.establish_loop client gss fuel
            (suc (suc rounds))
            sock
            target
            mech
            false
            none
            none
            0
            imported
          ≡ done (success, ctx) u)
  unfolding Client.establish_loop
  client_loop-success rounds uc vc n asks gets = (
    Event.gss_release_name (some target)
        ∷ Event.gss_release_buffer reply
        ∷ Event.gss_init_sec_context second_args (gss.init_sec_context vc second_args)
        ∷ vc,
    simp (client_first-over uc vc n asks gets, client_second-over vc n),
  )

  client-success :
      (uc vc : Trace)
      → Negotiates
      → 2 < fuel
      → send_token client fuel sock request requesting ≡ done success uc
      → recv_token client fuel sock (waiting uc) ≡ done (some reply) vc
      → (u : Trace) × (Client.establish_context client gss fuel sock service mech false t
          ≡ done (success, ctx) u)
  unfolding Client.establish_context
  client-success uc vc n enough asks gets =
      let same : suc (suc (fuel - 2)) ≡ fuel = omega (arith, enough) in
      let (u, e) =
        subst
          (λ m.
            (u : Trace) × (Client.establish_loop client gss fuel m sock target mech false none none
                0 imported
              ≡ done (success, ctx) u))
          same (client_loop-success (fuel - 2) uc vc n asks gets) in
      (u, simp (n.imports, e))

  server-established :
      (vs ws : Trace)
      → Negotiates
      → 2 < fuel
      → recv_token server fuel cfd t' ≡ done (some request) vs
      → send_token server fuel cfd reply (replying vs) ≡ done success ws
      → (name : Bytes) × (u : Trace) × (Server.establish_context server gss' fuel cfd cred false t'
          ≡ done (established ctx' name) u)
  unfolding Server.establish_context
  server-established vs ws n enough hears says =
      let same : suc (fuel - 1) ≡ fuel = omega (arith, enough) in
      subst
        (λ m.
          (name : Bytes) × (u : Trace) × (Server.establish_loop server gss' fuel m cfd cred false 0
              t'
            ≡ done (established ctx' name) u))
        same (server_loop-established (fuel - 1) vs ws n hears says)

  -- Both tokens are shorter than 2^32 bytes, and the link carries them.
  pub record Connects : Type 0 where
    pub short_request : length request < 2 ^ 32
    pub short_reply : length reply < 2 ^ 32
    pub there : Carries client server sock cfd request requesting t'
    pub back :
        (uc vs : Trace)
        → send_token client fuel sock request requesting ≡ done success uc
        → recv_token server fuel cfd t' ≡ done (some request) vs
        → Carries server client cfd sock reply (replying vs) (waiting uc)

  -- With a mechanism that takes one token from each end, libraries that report no error with them,
  -- tokens that are not recorded, a link that carries the two tokens, each shorter than 2^32
  -- bytes, in at most two pieces shorter than 2^31 bytes for each header and each value, and fuel
  -- above 2, both `establish_context` return 0: the client's with the context of the second call
  -- of gss_init_sec_context, the server's with the one of its call of gss_accept_sec_context.
  pub establish_context-establish_context :
      Negotiates
      → Connects
      → 2 < fuel
      → (name : Bytes) × (u u' : Trace) × (Client.establish_context client gss fuel sock service
            mech false t
          ≡ done (success, ctx) u)
        × (Server.establish_context server gss' fuel cfd cred false t'
            ≡ done (established ctx' name) u')
  establish_context-establish_context n c enough =
      let (uc, vs, asks, hears) =
        carry client server sock cfd fuel request requesting t' c.there c.short_request enough in
      let (ws, vc, says, gets) =
        carry server client cfd sock fuel reply (replying vs) (waiting uc) (c.back uc vs asks hears)
          c.short_reply enough in
      let (u, e) = client-success uc vc n enough asks gets in
      let (name, u', e') = server-established vs ws n enough hears says in (name, u, u', e, e')
