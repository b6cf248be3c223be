-- ===== src/Client/Call/Lives.antt =====
-- call_server of application/gssapi/client.c leads the life of its context as the step relation of
-- Session lets it, and ends it.
use kerberos.Base.{ℕ, ◌≡◌, refl, ◌∙◌, not, none, some, [], ◌∷◌, ◌++◌, if◌then◌else◌, arith}
use kerberos.World.{
  Bytes, success, failure, Context, InquireReply, Event, Trace, Os, Gss, pure, printf, Keeps,
  if_rule,
}
use kerberos.Wire.{send_token, recv_token}
use kerberos.Wire.Plain.{send_token-Keeps, recv_token-Keeps}
use kerberos.Display.{is_complete, has_flag}
use kerberos.Display.Plain.{display_status-Keeps, display_context_flags-Keeps}
use kerberos.Session.{ready}
use kerberos.Session.Monitor.{life, life-Ignores, uses-ready, deletes-ready}
use kerberos.Client.Call.{verify_reply, exchange, abandon, show_names, show_limits, inquire}
use kerberos.Session.Runs.{Ends, Ends-bind}

module _ (os : Os) (gss : Gss) (fuel sock : ℕ) (ctx : Context) where
  verify_reply-Ends :
      (input mic : Bytes) (t : Trace)
      → life t ≡ some (ready ctx)
      → Ends (verify_reply os gss fuel sock ctx input mic t)
  unfolding verify_reply life
  verify_reply-Ends input mic t h =
      grind
        (arith, display_status-Keeps life life-Ignores gss fuel, uses-ready ctx, deletes-ready ctx)

  exchange-Ends :
      (flags : ℕ) (message : Bytes) (t : Trace)
      → life t ≡ some (ready ctx)
      → Ends (exchange os gss fuel sock ctx flags message t)
  unfolding exchange life
  exchange-Ends flags message t h =
      let input = message ++ (0 ∷ []) in
      let conf = has_flag flags gss.conf_flag in
      let w = gss.wrap t ctx conf input in
      let t' = Event.gss_wrap ctx conf input w ∷ t in
      let now : life t' ≡ some (ready ctx) = rw h (uses-ready ctx) in
      if_rule Ends t' (not (is_complete w.major)) _ _
        (λ bad. grind (arith, display_status-Keeps life life-Ignores gss fuel))
        (λ ok.
          Ends-bind t'
            ((if not w.conf
                then printf "client: Warning! No confidentiality provided !\n" []
                else pure tt)
              t')
            _ (if_rule (Keeps life t') t' (not w.conf) _ _ (λ _. refl) (λ _. refl))
            λ _ u e.
              Ends-bind u (send_token os fuel sock w.output u) _
                (send_token-Keeps life life-Ignores os fuel sock w.output u)
                (elim [
                  | failure ↦ λ v e' n. cc
                  | success ↦ λ v e'.
                      Ends-bind v (recv_token os fuel sock (Event.gss_release_buffer w.output ∷ v))
                        _
                        (recv_token-Keeps life life-Ignores os fuel sock
                          (Event.gss_release_buffer w.output ∷ v))
                        (elim [
                          | none ↦ λ x e'' n. cc (deletes-ready ctx)
                          | some mic ↦ λ x e''. verify_reply-Ends input mic x (e'' ∙ e' ∙ e ∙ now)
                        ])
                ]))

  abandon-Ends :
      (src target : ℕ) (t : Trace)
      → life t ≡ some (ready ctx)
      → Ends (abandon os gss fuel ctx src target t)
  unfolding abandon life
  abandon-Ends src target t h = grind (arith, deletes-ready ctx)

  show_names-Ends :
      (q : InquireReply) (message : Bytes) (t : Trace)
      → life t ≡ some (ready ctx)
      → Ends (show_names os gss fuel sock ctx q message t)
  unfolding show_names life
  show_names-Ends q message t h = grind (
    arith,
    display_status-Keeps life life-Ignores gss fuel,
    deletes-ready ctx,
    abandon-Ends,
    exchange-Ends,
  )

  show_limits-Ends :
      (q : InquireReply) (message : Bytes) (t : Trace)
      → life t ≡ some (ready ctx)
      → Ends (show_limits os gss fuel sock ctx q message t)
  unfolding show_limits life
  show_limits-Ends q message t h = grind (
    arith,
    display_status-Keeps life life-Ignores gss fuel,
    uses-ready ctx,
    deletes-ready ctx,
    abandon-Ends,
    show_names-Ends,
  )

  pub inquire-Ends :
      (message : Bytes) (t : Trace)
      → life t ≡ some (ready ctx)
      → Ends (inquire os gss fuel sock ctx message t)
  unfolding inquire life
  inquire-Ends message t h = grind (
    arith,
    display_status-Keeps life life-Ignores gss fuel,
    display_context_flags-Keeps life life-Ignores gss,
    uses-ready ctx,
    deletes-ready ctx,
    show_limits-Ends,
  )
