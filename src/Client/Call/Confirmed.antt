-- ===== src/Client/Call/Confirmed.antt =====
-- When call_server of application/gssapi/client.c reports success, the server has confirmed the
-- message over the context that was established.
use kerberos.Base.{ℕ, ◌≡◌, refl, ◌∙◌, Bool, Option, none, some, [], ◌∷◌, ◌++◌}
use kerberos.World.{
  bind_rule, Bytes, Status, success, failure, complete, Context, Trace, Os, Gss, Run, done, exited,
  fault, hung, Prog, and_then, protocol, protocol-init,
}
use kerberos.Client.Connect.{connect_to_server}
use kerberos.Client.Context.{establish_context}
use kerberos.Client.Context.Established.{establish_context-newest_init}
use kerberos.Client.Call.{request_mech, call_server}
use kerberos.Client.Call.Stages.{Confirmed, inquire-Confirmed}

module _ (os : Os) (gss : Gss) (fuel : ℕ) (host port : Bytes) (mech_str : Option Bytes)
    (service message : Bytes) (on : Bool) where
  -- What success of the whole call means, for some context.
  abbrev Confirms : Run Status → Type 0
  Confirms (done success u) = (ctx : Context) × Confirmed ctx (message ++ (0 ∷ [])) (done success u)
  Confirms _ = Unit

  of_Confirmed :
      (ctx : Context) (r : Run Status) → Confirmed ctx (message ++ (0 ∷ [])) r → Confirms r
  of_Confirmed ctx (done success u) h = (ctx, h)
  of_Confirmed ctx (done failure u) h = tt
  of_Confirmed ctx (exited n u) h = tt
  of_Confirmed ctx fault h = tt
  of_Confirmed ctx hung h = tt

  Confirms-bind :
      {A : Type 0} (r : Run A) (k : A → Prog Status)
      → ((a : A) (u : Trace) → r ≡ done a u → Confirms (k a u))
      → Confirms (and_then r k)
  Confirms-bind r k = bind_rule Confirms r k (λ _ _. tt) tt tt

  -- The same where the result is a status and a value, and the continuation gives up on failure.
  Confirms-bind_status :
      {A : Type 0} (r : Run (Status × A)) (k : Status × A → Prog Status)
      → ((a : A) (u : Trace) → Confirms (k (failure, a) u))
      → ((a : A) (u : Trace) → r ≡ done (success, a) u → Confirms (k (success, a) u))
      → Confirms (and_then r k)
  Confirms-bind_status (done (failure, a) u) k bad next = bad a u
  Confirms-bind_status (done (success, a) u) k bad next = next a u refl
  Confirms-bind_status (exited n u) k bad next = tt
  Confirms-bind_status fault k bad next = tt
  Confirms-bind_status hung k bad next = tt

  call_server-Confirms :
      (t : Trace) → Confirms (call_server os gss fuel host port mech_str service message on t)
  unfolding call_server
  call_server-Confirms t =
      Confirms-bind_status (request_mech os gss fuel mech_str t) _ (λ _ _. tt)
        λ oid u _. Confirms-bind (connect_to_server os host port u) _ (elim [
          | none ↦ λ v _. tt
          | some sock ↦ λ v _.
              Confirms-bind_status (establish_context os gss fuel sock service oid on v) _
                (λ _ _. tt)
                (λ ctx x e. of_Confirmed ctx _ (
                  inquire-Confirmed os gss fuel sock ctx message x (
                    protocol-init x
                    ∙ establish_context-newest_init os gss fuel sock service oid on v x ctx e)))
        ])

  -- If `call_server` returns 0, then for some context: the newest call of gss_init_sec_context
  -- returned that context with GSS_S_COMPLETE, the newest call of gss_wrap was given that context
  -- and the message with its terminating NUL, and the newest call of gss_verify_mic, with that
  -- context and that message, returned GSS_S_COMPLETE.
  pub call_server-Confirmed :
      (t u : Trace)
      → call_server os gss fuel host port mech_str service message on t ≡ done success u
      → (ctx : Context) × ((protocol u).init ≡ some (ctx, complete))
        × ((conf : Bool) × ((protocol u).wrapped ≡ some (ctx, conf, message ++ (0 ∷ []))))
        × ((protocol u).verified ≡ some (ctx, message ++ (0 ∷ []), complete))
  call_server-Confirmed t u e =
      let (ctx, h) = rw e at (call_server-Confirms t) in (ctx, h.0, h.1, h.2)
