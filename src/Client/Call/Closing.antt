-- ===== src/Client/Call/Closing.antt =====
-- What each stage of call_server of application/gssapi/client.c closes.
use kerberos.Base.{
  ℕ, ◌≡◌, refl, ◌∙◌, ◌⊎◌, inl, not, none, some, [], ◌∷◌, ◌++◌, arith, if◌then◌else◌,
}
use kerberos.World.{
  bind_rule, Bytes, Status, success, failure, Context, InquireReply, Event, Trace, Os, Gss, Run,
  done, Prog, pure, printf, and_then, if_rule, Keeps, Sockets, sockets, sockets-Ignores,
}
use kerberos.Wire.{send_token, recv_token}
use kerberos.Wire.Plain.{send_token-Keeps, recv_token-Keeps}
use kerberos.Display.{is_complete, has_flag}
use kerberos.Display.Plain.{display_status-Keeps, display_context_flags-Keeps}
use kerberos.Client.Call.{verify_reply, exchange, abandon, show_names, show_limits, inquire}

abbrev pub shut : ℕ → Sockets → Sockets
shut sock s = record s { closed = sock ∷ s.closed }

-- The socket is closed with success, and closed or left open with a failure; no other is.
abbrev pub Closes : ℕ → Sockets → Run Status → Type 0
Closes sock s (done success u) = sockets u ≡ shut sock s
Closes sock s (done failure u) = (sockets u ≡ s) ⊎ (sockets u ≡ shut sock s)
Closes sock s _ = Unit

Closes-bind :
    {A : Type 0} (sock : ℕ) (s : Sockets) (t : Trace) (r : Run A) (k : A → Prog Status)
    → Keeps sockets t r
    → ((a : A) (u : Trace) → sockets u ≡ sockets t → Closes sock s (k a u))
    → Closes sock s (and_then r k)
Closes-bind sock s t r k h next =
    bind_rule (Closes sock s) r k (λ _ _. tt) tt tt (λ a u e. next a u (rw e at h))

module _ (os : Os) (gss : Gss) (fuel sock : ℕ) (ctx : Context) (s : Sockets) where
  verify_reply-Closes :
      (input mic : Bytes) (t : Trace)
      → sockets t ≡ s
      → Closes sock s (verify_reply os gss fuel sock ctx input mic t)
  unfolding verify_reply sockets
  verify_reply-Closes input mic t h =
      grind (arith, display_status-Keeps sockets sockets-Ignores gss fuel)

  exchange-Closes :
      (flags : ℕ) (message : Bytes) (t : Trace)
      → sockets t ≡ s
      → Closes sock s (exchange os gss fuel sock ctx flags message t)
  unfolding exchange sockets
  exchange-Closes flags message t h =
      let input = message ++ (0 ∷ []) in
      let conf = has_flag flags gss.conf_flag in
      let w = gss.wrap t ctx conf input in
      let t' = Event.gss_wrap ctx conf input w ∷ t in
      if_rule (Closes sock s) t' (not (is_complete w.major)) _ _
        (λ bad. grind (arith, display_status-Keeps sockets sockets-Ignores gss fuel))
        (λ ok.
          Closes-bind sock s t'
            ((if not w.conf
                then printf "client: Warning! No confidentiality provided !\n" []
                else pure tt)
              t')
            _ (if_rule (Keeps sockets t') t' (not w.conf) _ _ (λ _. refl) (λ _. refl))
            λ _ u e.
              Closes-bind sock s u (send_token os fuel sock w.output u) _
                (send_token-Keeps sockets sockets-Ignores os fuel sock w.output u)
                (elim [
                  | failure ↦ λ v e'. inl (e' ∙ e ∙ h)
                  | success ↦ λ v e'.
                      let v' = Event.gss_release_buffer w.output ∷ v in
                      Closes-bind sock s v' (recv_token os fuel sock v') _
                        (recv_token-Keeps sockets sockets-Ignores os fuel sock v')
                        (elim [
                          | none ↦ λ x e''. inl (e'' ∙ e' ∙ e ∙ h)
                          | some mic ↦ λ x e''. verify_reply-Closes input mic x (e'' ∙ e' ∙ e ∙ h)
                        ])
                ]))

  abandon-Closes :
      (src target : ℕ) (t : Trace)
      → sockets t ≡ s
      → Closes sock s (abandon os gss fuel ctx src target t)
  unfolding abandon sockets
  abandon-Closes src target t h = inl h

  show_names-Closes :
      (q : InquireReply) (message : Bytes) (t : Trace)
      → sockets t ≡ s
      → Closes sock s (show_names os gss fuel sock ctx q message t)
  unfolding show_names sockets
  show_names-Closes q message t h = grind (
    arith,
    display_status-Keeps sockets sockets-Ignores gss fuel,
    abandon-Closes,
    exchange-Closes,
  )

  show_limits-Closes :
      (q : InquireReply) (message : Bytes) (t : Trace)
      → sockets t ≡ s
      → Closes sock s (show_limits os gss fuel sock ctx q message t)
  unfolding show_limits sockets
  show_limits-Closes q message t h = grind (
    arith,
    display_status-Keeps sockets sockets-Ignores gss fuel,
    abandon-Closes,
    show_names-Closes,
  )

  pub inquire-Closes :
      (message : Bytes) (t : Trace)
      → sockets t ≡ s
      → Closes sock s (inquire os gss fuel sock ctx message t)
  unfolding inquire sockets
  inquire-Closes message t h = grind (
    arith,
    display_status-Keeps sockets sockets-Ignores gss fuel,
    display_context_flags-Keeps sockets sockets-Ignores gss,
    show_limits-Closes,
  )
