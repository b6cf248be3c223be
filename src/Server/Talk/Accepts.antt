-- ===== src/Server/Talk/Accepts.antt =====
-- With which credentials the server of application/gssapi/server.c has accepted a context on a
-- connection that it serves with success.
use kerberos.Base.{ℕ, ◌≡◌, refl, ◌∙◌, Bool, none, some, [], ◌∷◌}
use kerberos.World.{
  Argument, Bytes, Status, success, failure, complete, AcceptReply, Event, Trace, Os, Gss, Run,
  done, Prog, and_then, Keeps, bind_rule, newest_accept, newest_accept-Ignores,
}
use kerberos.Server.Context.{refused, established, establish_context}
use kerberos.Server.Context.Accepted.{establish_context-newest_accept}
use kerberos.Server.Talk.{sign_message, serve}
use kerberos.Server.Talk.Plain.{IgnoresSigning, sign_message-Keeps}

newest_accept-IgnoresSigning : IgnoresSigning newest_accept
unfolding newest_accept
newest_accept-IgnoresSigning = record {
  unwrap = λ _ _ _ _. refl;
  get_mic = λ _ _ _ _. refl;
  delete = λ _ _ _. refl;
}

-- A context was accepted with these credentials, from nothing and by one call.
abbrev pub IsAccepted : ℕ → Trace → Type 0
IsAccepted creds u =
    (input : Bytes) × (r : AcceptReply) × (newest_accept u
      ≡ some (record { context = none; cred = creds; input = input }, r))
    × (r.major ≡ complete)

abbrev pub Accepts : ℕ → Run Status → Type 0
Accepts creds (done success u) = IsAccepted creds u
Accepts creds _ = Unit

module _ (os : Os) (gss : Gss) (fuel cfd creds : ℕ) (on : Bool) where
  Accepts-signed :
      (t : Trace) (r : Run Status) (k : Status → Prog Status)
      → IsAccepted creds t
      → Keeps newest_accept t r
      → ((u : Trace) → Accepts creds (k failure u))
      → ((u : Trace) → IsAccepted creds u → Accepts creds (k success u))
      → Accepts creds (and_then r k)
  Accepts-signed t r k (input, reply, a, c) e f g =
      bind_rule (Accepts creds) r k (λ _ _. tt) tt tt
        (elim [
          | failure ↦ λ u run. f u
          | success ↦ λ u run. g u (input, reply, rw run at e ∙ a, c)
        ])

  pub serve-Accepts : (t : Trace) → Accepts creds (serve os gss fuel cfd creds on t)
  unfolding serve newest_accept
  serve-Accepts t =
      bind_rule (Accepts creds) (establish_context os gss fuel cfd creds on t) _ (λ _ _. tt) tt tt
        (elim [
          | refused ↦ λ u _. tt
          | established context name ↦ λ u e.
              let u' =
                Event.gss_release_buffer name
                ∷ Event.printf "server: context established with: %s\n" (Argument.bytes name ∷ [])
                ∷ u in
              let (input, r, h, c, _) =
                establish_context-newest_accept os gss fuel cfd creds on t u context name e in
              Accepts-signed u' (sign_message os gss fuel cfd context u') _ (input, r, h, c)
                (sign_message-Keeps newest_accept newest_accept-Ignores newest_accept-IgnoresSigning
                  os gss fuel cfd context u')
                (λ v. tt) (λ v a. a)
        ])
