-- ===== src/Client/Call/Spoken.antt =====
-- What call_server of application/gssapi/client.c has sent when it succeeds.
use kerberos.Base.{
  length, ◌^◌, ◌<◌, ℕ, ◌≡◌, refl, sym, ap, ◌∙◌, Bool, true, false, not, arith, none, some, [], ◌∷◌,
  ◌++◌, if◌then◌else◌,
}
use kerberos.World.{
  bind_rule, Bytes, Status, failure, Context, InquireReply, Event, Trace, Os, Gss, Run, Prog, pure,
  ◌>>◌, printf, close, and_then, if_rule,
}
use kerberos.Wire.{send_token, recv_token}
use kerberos.Wire.Plain.{recv_token-KeepsInput, recv_token-Keeps}
use kerberos.Wire.Writes.{sent}
use kerberos.Wire.Tokens.{frame}
use kerberos.Wire.Whole.{TakesWhole}
use kerberos.Wire.Outbox.{
  spoken, spoken-Ignores, sent-IgnoresInput, IsPaid, EndsPaid, Owes, send_token-Pays, Pays-rule,
  IsPaid-Keeps,
}
use kerberos.Display.{is_complete, has_flag, is_no_context, display_status, display_context_flags}
use kerberos.Display.Plain.{display_context_flags-Keeps, display_context_flags-KeepsInput}
use kerberos.Client.Call.{verify_reply, exchange, abandon, show_names, show_limits, inquire}

EndsPaid-failing :
    {A : Type 0} (fd : ℕ) (r : Run A) (m : Prog Status)
    → ((u : Trace) → EndsPaid fd (m u))
    → EndsPaid fd (and_then r (λ _. m))
EndsPaid-failing fd r m h = bind_rule (EndsPaid fd) r _ (λ _ _. tt) tt tt (λ _ u _. h u)

module _ (os : Os) (gss : Gss) (fuel sock : ℕ) (ctx : Context) (message : Bytes)
    (whole : TakesWhole os sock)
    (sealed : (t : Trace) (conf : Bool)
      → length (gss.wrap t ctx conf (message ++ (0 ∷ []))).output < 2 ^ 31) where
  verify_reply-EndsPaid :
      (input mic : Bytes) (t : Trace)
      → IsPaid sock t
      → EndsPaid sock (verify_reply os gss fuel sock ctx input mic t)
  unfolding verify_reply sent spoken
  verify_reply-EndsPaid input mic t p =
      let v = gss.verify_mic t ctx input mic in
      let t' = Event.gss_verify_mic ctx input mic v ∷ t in
      if_rule (EndsPaid sock) t' (not (is_complete v.major)) _ _
        (λ _.
          EndsPaid-failing sock (display_status gss fuel "client gss_verify_mic" v.major v.minor t')
            (close sock >> pure failure) (λ u. tt))
        (λ _. ground arith)

  EndsPaid-warned :
      (conf : Bool) (t : Trace) (k : Prog Status)
      → ((u : Trace) → sent sock u ≡ sent sock t → spoken u ≡ spoken t → EndsPaid sock (k u))
      → EndsPaid sock (
          ((if not conf
                then printf "client: Warning! No confidentiality provided !\n" []
                else pure tt)
              >> k)
            t)
  unfolding sent spoken
  EndsPaid-warned true t k next = next _ refl refl
  EndsPaid-warned false t k next = next _ refl refl

  abandon-EndsPaid :
      (src target : ℕ) (t : Trace) → EndsPaid sock (abandon os gss fuel ctx src target t)
  unfolding abandon
  abandon-EndsPaid src target t = tt

  exchange-EndsPaid :
      (flags : ℕ) (t : Trace)
      → IsPaid sock t
      → EndsPaid sock (exchange os gss fuel sock ctx flags message t)
  unfolding exchange sent spoken
  exchange-EndsPaid flags t p =
      let input = message ++ (0 ∷ []) in
      let conf = has_flag flags gss.conf_flag in
      let w = gss.wrap t ctx conf input in
      let t' = Event.gss_wrap ctx conf input w ∷ t in
      if_rule (EndsPaid sock) t' (not (is_complete w.major)) _ _
        (λ _.
          EndsPaid-failing sock (display_status gss fuel "client gss_wrap" w.major w.minor t')
            (pure failure) (λ u. tt))
        (λ ok.
          let good : is_complete w.major ≡ true = ground arith in
          let owed : Owes sock w.output t' = rw good (ap (λ b. b ++ frame w.output) p) in
          EndsPaid-warned w.conf t' _ (λ u e e'.
            Pays-rule sock (send_token os fuel sock w.output u) _ (EndsPaid sock) (λ n v. tt) tt tt
              (send_token-Pays os sock fuel w.output u whole (sealed t conf) (rw e (owed ∙ sym e')))
              (λ v p'.
                let v' = Event.gss_release_buffer w.output ∷ v in
                IsPaid-Keeps sock v' (recv_token os fuel sock v') _ (EndsPaid sock) (λ n x. tt) tt
                  tt p' (recv_token-KeepsInput (sent sock) (sent-IgnoresInput sock) os fuel sock v')
                  (recv_token-Keeps spoken spoken-Ignores os fuel sock v')
                  (elim [
                    | none ↦ λ x q. tt
                    | some mic ↦ λ x q. verify_reply-EndsPaid input mic x q
                  ]))))

  show_names-EndsPaid :
      (q : InquireReply) (t : Trace)
      → IsPaid sock t
      → EndsPaid sock (show_names os gss fuel sock ctx q message t)
  unfolding show_names sent spoken
  show_names-EndsPaid q t p =
      grind (arith, EndsPaid-failing sock, abandon-EndsPaid, exchange-EndsPaid)

  show_limits-EndsPaid :
      (q : InquireReply) (t : Trace)
      → IsPaid sock t
      → EndsPaid sock (show_limits os gss fuel sock ctx q message t)
  unfolding show_limits sent spoken
  show_limits-EndsPaid q t p =
      grind (arith, EndsPaid-failing sock, abandon-EndsPaid, show_names-EndsPaid)

  pub inquire-EndsPaid :
      (t : Trace) → IsPaid sock t → EndsPaid sock (inquire os gss fuel sock ctx message t)
  unfolding inquire sent spoken
  inquire-EndsPaid t p =
      let q = gss.inquire_context t ctx in
      let t' = Event.gss_inquire_context ctx q ∷ t in
      if_rule (EndsPaid sock) t' (is_no_context q.major) _ _ (λ _. tt)
        (λ _.
          if_rule (EndsPaid sock) t' (not (is_complete q.major)) _ _
            (λ _.
              EndsPaid-failing sock
                (display_status gss fuel "client gss_inquire_context" q.major q.minor t') _
                (λ u. tt))
            (λ _.
              let t'' = Event.printf "client: context flags:\n" [] ∷ t' in
              IsPaid-Keeps sock t'' (display_context_flags gss q.flags t'') _ (EndsPaid sock)
                (λ n x. tt) tt tt p
                (display_context_flags-KeepsInput (sent sock) (sent-IgnoresInput sock) gss q.flags
                  t'')
                (display_context_flags-Keeps spoken spoken-Ignores gss q.flags t'')
                (λ _ u p'. show_limits-EndsPaid q u p')))
