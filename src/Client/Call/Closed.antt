-- ===== src/Client/Call/Closed.antt =====
-- Which descriptors call_server of application/gssapi/client.c closes.
use kerberos.Base.{
  ℕ, ◌≡◌, refl, ap, ◌∙◌, ◌⊎◌, inl, inr, Bool, true, Option, none, some, List, [], ◌∷◌,
}
use kerberos.World.{
  bind_rule, Bytes, Status, success, failure, Context, Oid, Trace, Os, Gss, Run, done, exited,
  fault, hung, Prog, pure, ◌>>=◌, ◌>>◌, printf, close, and_then, Keeps, IgnoresInput-of_Ignores,
  Sockets, sockets, sockets-Ignores,
}
use kerberos.Client.Connect.{connect_to_server}
use kerberos.Client.Connect.Opened.{Opens, connect_to_server-Opens}
use kerberos.Client.Context.{establish_context}
use kerberos.Client.Context.Closed.{establish_context-Keeps}
use kerberos.Client.Call.Plain.{IgnoresMechs, request_mech-Keeps}
use kerberos.Client.Call.Closing.{shut, Closes, inquire-Closes}
use kerberos.Client.Call.{inquire, request_mech, call_server}

-- A socket has been connected and then closed, and no other descriptor is closed.
abbrev pub Shuts : List ℕ → Sockets → Type 0
Shuts before s =
    (sock : ℕ) × (addr : ℕ) × (s
      ≡ record { closed = sock ∷ before; connected = some (sock, addr, true) })

abbrev Ends : List ℕ → Run Status → Type 0
Ends before (done success u) = Shuts before (sockets u)
Ends before (done failure u) = ((sockets u).closed ≡ before) ⊎ Shuts before (sockets u)
Ends before _ = Unit

Ends-of_Closes :
    (sock addr : ℕ) (before : List ℕ) (r : Run Status)
    → Closes sock (record { closed = before; connected = some (sock, addr, true) }) r
    → Ends before r
Ends-of_Closes sock addr before (done success u) h = (sock, addr, h)
Ends-of_Closes sock addr before (done failure u) (inl h) = inl (ap (λ s. s.closed) h)
Ends-of_Closes sock addr before (done failure u) (inr h) = inr (sock, addr, h)
Ends-of_Closes sock addr before (exited n u) h = tt
Ends-of_Closes sock addr before fault h = tt
Ends-of_Closes sock addr before hung h = tt

Opens-bind :
    (before : List ℕ) (r : Run (Option ℕ)) (k : Option ℕ → Prog Status)
    → Opens before r
    → ((u : Trace) → (sockets u).closed ≡ before → Ends before (k none u))
    → ((sock addr : ℕ) (u : Trace)
        → sockets u ≡ record { closed = before; connected = some (sock, addr, true) }
        → Ends before (k (some sock) u))
    → Ends before (and_then r k)
Opens-bind before r k h f g =
    bind_rule (Ends before) r k (λ _ _. tt) tt tt
      (elim [
        | none ↦ λ u e. f u (rw e at h)
        | some sock ↦ λ u e. let (addr, opened) = rw e at h in g sock addr u opened
      ])

Ends-bind :
    {A : Type 0} (before : List ℕ) (t : Trace) (r : Run A) (k : A → Prog Status)
    → Keeps sockets t r
    → ((a : A) (u : Trace) → sockets u ≡ sockets t → Ends before (k a u))
    → Ends before (and_then r k)
Ends-bind before t r k h next =
    bind_rule (Ends before) r k (λ _ _. tt) tt tt (λ a u e. next a u (rw e at h))

pub sockets-IgnoresMechs : IgnoresMechs sockets
unfolding sockets
sockets-IgnoresMechs = record {
  indicate = λ _ _. refl;
  member = λ _ _ _ _. refl;
  release_set = λ _ _. refl;
}

module _ (os : Os) (gss : Gss) (fuel : ℕ) (host port : Bytes) (mech_str : Option Bytes)
    (service message : Bytes) (on : Bool) where
  pub established-Closes :
      (sock : ℕ) (st : Status) (ctx : Context) (s : Sockets) (t : Trace)
      → sockets t ≡ s
      → Closes sock s (
          (elim st as (λ _. Prog Status) [
            | failure ↦ printf "context establishment failed\n" [] >> close sock >> pure failure
            | success ↦ inquire os gss fuel sock ctx message
          ])
            t)
  unfolding sockets
  established-Closes sock failure ctx s t h = inr (ap (shut sock) h)
  established-Closes sock success ctx s t h = inquire-Closes os gss fuel sock ctx s message t h

  requested-Ends :
      (st : Status) (oid : Option Oid) (before : List ℕ) (t : Trace)
      → (sockets t).closed ≡ before
      → Ends before (
          (elim st as (λ _. Prog Status) [
            | failure ↦ pure failure
            | success ↦ connect_to_server os host port >>= λ s. elim s [
              | none ↦ printf "failed to connect to server\n" [] >> pure failure
              | some sock ↦ establish_context os gss fuel sock service oid on >>= λ c. elim c.0 [
                | failure ↦ printf "context establishment failed\n" [] >> close sock >> pure failure
                | success ↦ inquire os gss fuel sock c.1 message
              ]
            ]
          ])
            t)
  unfolding sockets
  requested-Ends failure oid before t h = inl h
  requested-Ends success oid before t h =
      Opens-bind before (connect_to_server os host port t) _
        (rw h at (connect_to_server-Opens os host port t)) (λ u e. inl e)
        (λ sock addr u e.
          Ends-bind before u (establish_context os gss fuel sock service oid on u) _
            (establish_context-Keeps os gss fuel sock service oid on u)
            (λ c v e'.
              Ends-of_Closes sock addr before _ (established-Closes sock c.0 c.1 _ v (e' ∙ e))))

  call_server-Ends :
      (t : Trace)
      → Ends (sockets t).closed (call_server os gss fuel host port mech_str service message on t)
  unfolding call_server
  call_server-Ends t =
      Ends-bind (sockets t).closed t (request_mech os gss fuel mech_str t) _
        (request_mech-Keeps sockets (IgnoresInput-of_Ignores sockets sockets-Ignores)
          sockets-IgnoresMechs os gss fuel mech_str t)
        λ m u e. requested-Ends m.0 m.1 (sockets t).closed u (ap (λ s. s.closed) e)

  -- If `call_server` returns 0, the newest call of connect succeeded, and the socket that it
  -- connected is the one descriptor that has been closed. If it returns -1, no descriptor has been
  -- closed, or that one.
  pub call_server-closed :
      (t u : Trace) (st : Status)
      → call_server os gss fuel host port mech_str service message on t ≡ done st u
      → ((st ≡ success) × Shuts (sockets t).closed (sockets u))
        ⊎ ((st ≡ failure)
            × (((sockets u).closed ≡ (sockets t).closed) ⊎ Shuts (sockets t).closed (sockets u)))
  call_server-closed t u success e = inl (refl, rw e at (call_server-Ends t))
  call_server-closed t u failure e = inr (refl, rw e at (call_server-Ends t))
