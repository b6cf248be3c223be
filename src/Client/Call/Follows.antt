-- ===== src/Client/Call/Follows.antt =====
-- The whole of call_server of application/gssapi/client.c against the step relation of Session.
use kerberos.Base.{ℕ, ◌≡◌, refl, ◌∙◌, Bool, Option, none, some, [], ◌⊎◌}
use kerberos.World.{
  Bytes, Status, success, failure, Context, Oid, Trace, Os, Gss, Run, done, exited, fault, hung,
  Prog, pure, printf, close, ◌>>=◌, ◌>>◌, and_then, IgnoresInput-of_Ignores,
}
use kerberos.Session.{Life, fresh, ready, gone, Follows}
use kerberos.Session.Monitor.{life, life-Ignores}
use kerberos.Session.Paths.{Follows-life}
use kerberos.Client.Connect.{connect_to_server}
use kerberos.Client.Connect.Plain.{IgnoresConnecting, connect_to_server-Keeps}
use kerberos.Client.Context.{establish_context}
use kerberos.Client.Context.Lives.{Lives, establish_context-Lives}
use kerberos.Client.Call.{request_mech, inquire, call_server}
use kerberos.Client.Call.Plain.{IgnoresMechs, request_mech-Keeps}
use kerberos.Client.Call.Lives.{inquire-Ends}
use kerberos.Session.Runs.{IsLawful, Ends, Ends-bind, of_Ends}

life-IgnoresMechs : IgnoresMechs life
unfolding life
life-IgnoresMechs = record {
  indicate = λ _ _. refl;
  member = λ _ _ _ _. refl;
  release_set = λ _ _. refl;
}

life-IgnoresConnecting : IgnoresConnecting life
unfolding life
life-IgnoresConnecting = record {
  getaddrinfo = λ _ _ _ _. refl;
  freeaddrinfo = λ _ _. refl;
  socket = λ _ _. refl;
  connect = λ _ _ _ _. refl;
  printf = λ _ _ _. refl;
}

module _ (os : Os) (gss : Gss) (fuel : ℕ) (host port : Bytes) (mech_str : Option Bytes)
    (service message : Bytes) (on : Bool) where
  Ends-bind_status :
      (r : Run (Status × Context)) (k : Status × Context → Prog Status)
      → Lives r
      → ((ctx : Context) (u : Trace) → IsLawful u → Ends (k (failure, ctx) u))
      → ((ctx : Context) (u : Trace) → life u ≡ some (ready ctx) → Ends (k (success, ctx) u))
      → Ends (and_then r k)
  Ends-bind_status (done (failure, ctx) u) k h f g = f ctx u h
  Ends-bind_status (done (success, ctx) u) k h f g = g ctx u h
  Ends-bind_status (exited n u) k h f g = absurd h
  Ends-bind_status fault k h f g = tt
  Ends-bind_status hung k h f g = tt

  -- What follows the choice of the mechanism.
  requested-Ends :
      (st : Status) (oid : Option Oid) (t : Trace)
      → life t ≡ some fresh
      → Ends (
          (elim st as (λ _. Prog Status) [
            | failure ↦ pure failure
            | success ↦ connect_to_server os host port >>= λ s. elim s [
              | none ↦ printf "failed to connect to server\n" [] >> pure failure
              | some sock ↦ establish_context os gss fuel sock service oid on >>= λ c. elim c.0 [
                | failure ↦ printf "context establishment failed\n" [] >> close sock >> pure failure
                | success ↦ inquire os gss fuel sock c.1 message
              ]
            ]
          ])
            t)
  unfolding life
  requested-Ends failure oid t h = λ n. cc
  requested-Ends success oid t h =
      Ends-bind t (connect_to_server os host port t) _
        (connect_to_server-Keeps life life-IgnoresConnecting os host port t)
        (elim [
          | none ↦ λ u e n. cc
          | some sock ↦ λ u e.
              Ends-bind_status (establish_context os gss fuel sock service oid on u) _
                (establish_context-Lives os gss fuel sock service oid on u (e ∙ h)) (λ ctx v l. l)
                (λ ctx v r. inquire-Ends os gss fuel sock ctx message v r)
        ])

  call_server-Ends :
      (t : Trace)
      → life t ≡ some fresh
      → Ends (call_server os gss fuel host port mech_str service message on t)
  unfolding call_server
  call_server-Ends t h =
      Ends-bind t (request_mech os gss fuel mech_str t) _
        (request_mech-Keeps life (IgnoresInput-of_Ignores life life-Ignores) life-IgnoresMechs os
          gss fuel mech_str t)
        λ m u e. requested-Ends m.0 m.1 u (e ∙ h)

  -- If no context has been begun before, and `call_server` returns, then its calls of the GSS-API
  -- have led the context a life that the relation of Session allows, and with the result 0 the
  -- context has been deleted at the end.
  pub call_server-Follows :
      (t u : Trace) (st : Status)
      → Follows t fresh
      → call_server os gss fuel host port mech_str service message on t ≡ done st u
      → (l : Life) × Follows u l × ((st ≡ failure) ⊎ (l ≡ gone))
  call_server-Follows t u st f e = of_Ends st u (rw e at (call_server-Ends t (Follows-life f)))
