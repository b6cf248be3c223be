-- ===== src/Dialogue.antt =====
-- The client and the server of application/gssapi over one connection: the message that the client
-- wraps, and the tag that the server makes of it.
pub mod Handshake
pub mod Conversation
use kerberos.Base.{
  ℕ, ◌<◌, ◌^◌, ◌≡◌, refl, sym, ap, ◌∙◌, true, false, some, [], ◌∷◌, ◌++◌, arith, length,
  if◌then◌else◌,
}
use kerberos.World.{
  Argument, Bytes, Status, success, complete, Context, Event, Trace, Os, Gss, done, Run, Prog,
  newest_mic, newest_mic-Ignores, protocol,
}
use kerberos.Wire.Plain.{send_token-Keeps}
use kerberos.Wire.{send_token, recv_token}
use kerberos.Wire.Transfer.{Carries, carry}
use kerberos.Display.{is_complete, has_flag}
use kerberos.Client.Call.{exchange, verify_reply}
use kerberos.Server.Talk.{delete_if_failed, send_mic, sign_token, sign_message}

-- The client at `t`, in the context `ctx`; the server at `t'`, in its context `ctx'`.
module _ (client server : Os) (gss gss' : Gss) (fuel sock cfd : ℕ) (ctx ctx' : Context) (flags : ℕ)
    (message tag : Bytes) (t t' : Trace) where
  abbrev input : Bytes
  input = message ++ (0 ∷ [])

  abbrev wrapped_trace : Trace
  wrapped_trace =
      let conf = has_flag flags gss.conf_flag in
      Event.gss_wrap ctx conf input (gss.wrap t ctx conf input) ∷ t

  abbrev sealed : Bytes
  sealed = (gss.wrap t ctx (has_flag flags gss.conf_flag) input).output

  -- The trace of the server right before it sends the tag, if it has received the message at `v`.
  abbrev signed_trace : Trace → Trace
  signed_trace v =
      let u = gss'.unwrap v ctx' sealed in
      let shown =
        Event.printf "%s\n" (Argument.bytes input ∷ [])
        ∷ Event.printf "server: received message:\n" []
        ∷ Event.gss_release_buffer sealed
        ∷ Event.gss_unwrap ctx' sealed u
        ∷ v in
      Event.gss_release_buffer input
      ∷ Event.gss_get_mic ctx' input (gss'.get_mic shown ctx' input)
      ∷ shown

  -- The libraries of the two ends agree on this context: a message is wrapped with confidentiality,
  -- and unwrapped to what it was; its tag is `tag`, and is accepted.
  pub record Agrees : Type 0 where
    pub wraps : (gss.wrap t ctx (has_flag flags gss.conf_flag) input).major ≡ complete
    pub conceals : (gss.wrap t ctx (has_flag flags gss.conf_flag) input).conf ≡ true
    pub unwraps : (v : Trace) → (gss'.unwrap v ctx' sealed).major ≡ complete
    pub concealed : (v : Trace) → (gss'.unwrap v ctx' sealed).conf ≡ true
    pub restores : (v : Trace) → (gss'.unwrap v ctx' sealed).output ≡ some input
    pub signs : (v : Trace) → (gss'.get_mic v ctx' input).major ≡ complete
    pub tags : (v : Trace) → (gss'.get_mic v ctx' input).output ≡ tag
    pub verifies : (v : Trace) → (gss.verify_mic v ctx input tag).major ≡ complete
    pub deletes : (v : Trace) → gss.delete_sec_context v ctx ≡ complete

  -- What the server does with the message.
  sign_token-sends :
      (v w : Trace)
      → Agrees
      → send_token server fuel cfd tag (signed_trace v) ≡ done success w
      → sign_token server gss' fuel cfd ctx' sealed v
        ≡ done success (Event.gss_release_buffer tag ∷ w)
  unfolding sign_token delete_if_failed send_mic
  sign_token-sends v w a sends =
      simp (a.unwraps v, a.concealed v, a.restores v, a.signs, a.tags, sends)

  -- The trace of the client that has verified the tag at `v`, and is done.
  abbrev verified_trace : Trace → Trace
  verified_trace v =
      let w =
        Event.gss_release_buffer tag
        ∷ Event.gss_verify_mic ctx input tag (gss.verify_mic v ctx input tag)
        ∷ v in
      Event.close sock ∷ Event.gss_delete_sec_context ctx (gss.delete_sec_context w ctx) ∷ w

  verify_reply-done :
      (v : Trace)
      → Agrees
      → verify_reply client gss fuel sock ctx input tag v ≡ done success (verified_trace v)
  unfolding verify_reply
  verify_reply-done v a = simp (a.verifies, a.deletes)

  -- What the run of the server leaves in its trace, whatever the sending of the tag adds.
  newest_mic-signed_trace :
      (vs ws : Trace)
      → Agrees
      → send_token server fuel cfd tag (signed_trace vs) ≡ done success ws
      → newest_mic ws ≡ some (ctx', input, tag)
  unfolding newest_mic
  newest_mic-signed_trace vs ws a answers =
      let kept : newest_mic ws ≡ newest_mic (signed_trace vs) =
        rw answers at
          (send_token-Keeps newest_mic newest_mic-Ignores server fuel cfd tag (signed_trace vs)) in
      kept ∙ rw a.tags

  -- Both tokens are shorter than 2^32 bytes, and the link carries them: the sealed message from
  -- where the client is to where the server is, and the tag from where they are when it is sent.
  pub record Delivers : Type 0 where
    pub short_message : length sealed < 2 ^ 32
    pub short_tag : length tag < 2 ^ 32
    pub there : Carries client server sock cfd sealed wrapped_trace t'
    pub back :
        (uc vs : Trace)
        → send_token client fuel sock sealed wrapped_trace ≡ done success uc
        → recv_token server fuel cfd t' ≡ done (some sealed) vs
        → Carries server client cfd sock tag
            (signed_trace vs)
            (Event.gss_release_buffer sealed ∷ uc)

  -- For a context on which the two libraries agree, a link that carries the sealed message and its
  -- tag, each shorter than 2^32 bytes, in at most two pieces shorter than 2^31 bytes for each
  -- header and each value, and fuel above 2, `exchange` of the client and `sign_message` of the
  -- server both return 0, the newest gss_verify_mic of the client was for the message with its NUL
  -- and returned GSS_S_COMPLETE, and the newest gss_get_mic of the server was for that very
  -- message and made that tag.
  pub exchange-sign_message :
      Agrees
      → Delivers
      → 2 < fuel
      → (u u' : Trace) × (exchange client gss fuel sock ctx flags message t ≡ done success u)
        × (sign_message server gss' fuel cfd ctx' t' ≡ done success u')
        × ((protocol u).verified ≡ some (ctx, input, complete))
        × (newest_mic u' ≡ some (ctx', input, tag))
  unfolding exchange sign_message protocol newest_mic
  exchange-sign_message a d enough =
      let (uc, vs, asks, hears) =
        carry client server sock cfd fuel sealed wrapped_trace t' d.there d.short_message enough in
      let (ws, vc, answers, gets) =
        carry server client cfd sock fuel tag (signed_trace vs)
          (Event.gss_release_buffer sealed ∷ uc) (d.back uc vs asks hears) d.short_tag enough in
      (
        verified_trace vc,
        Event.gss_release_buffer tag ∷ ws,
        simp (a.wraps, a.conceals, asks, gets, verify_reply-done vc a),
        simp (hears, sign_token-sends vs ws a answers),
        rw a.verifies,
        newest_mic-signed_trace vs ws a answers,
      )
