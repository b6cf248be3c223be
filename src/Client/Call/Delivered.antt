-- ===== src/Client/Call/Delivered.antt =====
-- What has been sent, and what closed, when call_server of application/gssapi/client.c succeeds.
use kerberos.Base.{
  ◌++◌, ◌^◌, ◌<◌, length, ℕ, ◌≡◌, refl, sym, ap, ◌∙◌, Bool, Option, none, some, List, [], ◌∷◌,
}
use kerberos.World.{
  InitArgs, bind_rule, Bytes, Status, success, failure, Context, Oid, Trace, Os, Gss, Run, done,
  exited, fault, hung, Prog, pure, ◌>>=◌, ◌>>◌, printf, close, and_then, Keeps,
  IgnoresInput-of_Ignores, Sockets, sockets, sockets-Ignores,
}
use kerberos.Wire.Writes.{sent}
use kerberos.Wire.Whole.{TakesWhole}
use kerberos.Wire.Outbox.{spoken, spoken-Ignores, sent-IgnoresInput, IsPaid, EndsPaid}
use kerberos.Client.Connect.{connect_to_server}
use kerberos.Client.Connect.Opened.{Opens, connect_to_server-Opens}
use kerberos.Client.Connect.Plain.{IgnoresConnecting, connect_to_server-Keeps}
use kerberos.Client.Context.{establish_context}
use kerberos.Client.Context.Closed.{establish_context-Keeps}
use kerberos.Client.Context.Spoken.{Spoken, establish_context-Spoken}
use kerberos.Client.Call.Plain.{IgnoresMechs, request_mech-Keeps}
use kerberos.Client.Call.Closing.{Closes}
use kerberos.Client.Call.Closed.{established-Closes, sockets-IgnoresMechs}
use kerberos.Client.Call.Spoken.{inquire-EndsPaid}
use kerberos.Client.Call.{inquire, request_mech, call_server}

-- With success one socket has been closed, and what it was sent is what the library has made for
-- the peer.
abbrev Delivers : List ℕ → Run Status → Type 0
Delivers before (done success u) =
    (sock : ℕ) × ((sockets u).closed ≡ sock ∷ before) × (sent sock u ≡ spoken u)
Delivers before _ = Unit

Delivers-of_EndsPaid :
    (sock : ℕ) (s : Sockets) (r : Run Status)
    → Closes sock s r
    → EndsPaid sock r
    → Delivers s.closed r
Delivers-of_EndsPaid sock s (done success u) c p = (sock, ap (λ s. s.closed) c, p)
Delivers-of_EndsPaid sock s (done failure u) c p = tt
Delivers-of_EndsPaid sock s (exited n u) c p = tt
Delivers-of_EndsPaid sock s fault c p = tt
Delivers-of_EndsPaid sock s hung c p = tt

-- On no descriptor anything is owed, and the descriptors closed are `before`.
abbrev IsIdle : List ℕ → Trace → Type 0
IsIdle before t = ((fd : ℕ) → IsPaid fd t) × ((sockets t).closed ≡ before)

-- A run that sends nothing and is asked for nothing.
abbrev KeepsTraffic : {A : Type 0} → Trace → Run A → Type 0
KeepsTraffic t r = ((fd : ℕ) → Keeps (sent fd) t r) × Keeps spoken t r

Delivers-bind :
    {A : Type 0} (before : List ℕ) (t : Trace) (r : Run A) (k : A → Prog Status)
    → IsIdle before t
    → KeepsTraffic t r
    → Keeps sockets t r
    → ((a : A) (u : Trace) → IsIdle before u → Delivers before (k a u))
    → Delivers before (and_then r k)
Delivers-bind before t r k (p, c) (e, e') e'' next =
    bind_rule (Delivers before) r k (λ _ _. tt) tt tt
      λ a u run. next a u (
        (λ fd. rw run at (e fd) ∙ p fd ∙ sym (rw run at e')),
        ap (λ s. s.closed) (rw run at e'') ∙ c,
      )

Delivers-opened :
    (before : List ℕ) (t : Trace) (r : Run (Option ℕ)) (k : Option ℕ → Prog Status)
    → IsIdle before t
    → KeepsTraffic t r
    → Opens before r
    → ((u : Trace) → Delivers before (k none u))
    → ((sock : ℕ) (u : Trace) → IsIdle before u → Delivers before (k (some sock) u))
    → Delivers before (and_then r k)
Delivers-opened before t (done none u) k i e o f g = f u
Delivers-opened before t (done (some sock) u) k (p, c) (e, e') (addr, o) f g =
    g sock u ((λ fd. e fd ∙ p fd ∙ sym e'), ap (λ s. s.closed) o)
Delivers-opened before t (exited n u) k i e o f g = tt
Delivers-opened before t fault k i e o f g = tt
Delivers-opened before t hung k i e o f g = tt

Delivers-established :
    (sock : ℕ) (t : Trace) (r : Run (Status × Context)) (k : Status × Context → Prog Status)
    → Spoken sock r
    → Keeps sockets t r
    → ((ctx : Context) (u : Trace) → Delivers (sockets t).closed (k (failure, ctx) u))
    → ((ctx : Context) (u : Trace)
        → IsPaid sock u
        → sockets u ≡ sockets t
        → Delivers (sockets t).closed (k (success, ctx) u))
    → Delivers (sockets t).closed (and_then r k)
Delivers-established sock t (done (success, ctx) u) k p e f g = g ctx u p e
Delivers-established sock t (done (failure, ctx) u) k p e f g = f ctx u
Delivers-established sock t (exited n u) k p e f g = tt
Delivers-established sock t fault k p e f g = tt
Delivers-established sock t hung k p e f g = tt

sent-IgnoresMechs : (fd : ℕ) → IgnoresMechs (sent fd)
unfolding sent
sent-IgnoresMechs fd = record {
  indicate = λ _ _. refl;
  member = λ _ _ _ _. refl;
  release_set = λ _ _. refl;
}

spoken-IgnoresMechs : IgnoresMechs spoken
unfolding spoken
spoken-IgnoresMechs = record {
  indicate = λ _ _. refl;
  member = λ _ _ _ _. refl;
  release_set = λ _ _. refl;
}

sent-IgnoresConnecting : (fd : ℕ) → IgnoresConnecting (sent fd)
unfolding sent
sent-IgnoresConnecting fd = record {
  getaddrinfo = λ _ _ _ _. refl;
  freeaddrinfo = λ _ _. refl;
  socket = λ _ _. refl;
  connect = λ _ _ _ _. refl;
  printf = λ _ _ _. refl;
}

spoken-IgnoresConnecting : IgnoresConnecting spoken
unfolding spoken
spoken-IgnoresConnecting = record {
  getaddrinfo = λ _ _ _ _. refl;
  freeaddrinfo = λ _ _. refl;
  socket = λ _ _. refl;
  connect = λ _ _ _ _. refl;
  printf = λ _ _ _. refl;
}

module _ (os : Os) (gss : Gss) (fuel : ℕ) (host port : Bytes) (mech_str : Option Bytes)
    (service message : Bytes) (on : Bool) (whole : (fd : ℕ) → TakesWhole os fd)
    (short : (t : Trace) (args : InitArgs) → length (gss.init_sec_context t args).output < 2 ^ 31)
    (sealed : (t : Trace) (ctx : Context) (conf : Bool)
      → length (gss.wrap t ctx conf (message ++ (0 ∷ []))).output < 2 ^ 31) where
  established-Delivers :
      (sock : ℕ) (oid : Option Oid) (before : List ℕ) (t : Trace)
      → IsIdle before t
      → Delivers before (
          (establish_context os gss fuel sock service oid on >>= λ c. elim c.0 [
            | failure ↦ printf "context establishment failed\n" [] >> close sock >> pure failure
            | success ↦ inquire os gss fuel sock c.1 message
          ])
            t)
  established-Delivers sock oid before t (p, c) = rw (sym c) (
      Delivers-established sock t (establish_context os gss fuel sock service oid on t) _
        (establish_context-Spoken os gss fuel sock service oid on t (whole sock) short (p sock))
        (establish_context-Keeps os gss fuel sock service oid on t) (λ ctx u. tt)
        (λ ctx u q e. rw (sym e) (
          Delivers-of_EndsPaid sock (sockets u) _
            (established-Closes os gss fuel host port mech_str service message on sock success ctx
              (sockets u) u refl)
            (inquire-EndsPaid os gss fuel sock ctx message (whole sock)
              (λ t conf. sealed t ctx conf) u q))))

  requested-Delivers :
      (st : Status) (oid : Option Oid) (before : List ℕ) (t : Trace)
      → IsIdle before t
      → Delivers before (
          (elim st as (λ _. Prog Status) [
            | failure ↦ pure failure
            | success ↦ connect_to_server os host port >>= λ s. elim s [
              | none ↦ printf "failed to connect to server\n" [] >> pure failure
              | some sock ↦ establish_context os gss fuel sock service oid on >>= λ c. elim c.0 [
                | failure ↦ printf "context establishment failed\n" [] >> close sock >> pure failure
                | success ↦ inquire os gss fuel sock c.1 message
              ]
            ]
          ])
            t)
  requested-Delivers failure oid before t i = tt
  requested-Delivers success oid before t i =
      Delivers-opened before t (connect_to_server os host port t) _ i
        (
          (λ fd. connect_to_server-Keeps (sent fd) (sent-IgnoresConnecting fd) os host port t),
          connect_to_server-Keeps spoken spoken-IgnoresConnecting os host port t,
        )
        (rw (i.1) at (connect_to_server-Opens os host port t)) (λ u. tt)
        (λ sock u i'. established-Delivers sock oid before u i')

  call_server-Delivers :
      (before : List ℕ) (t : Trace)
      → IsIdle before t
      → Delivers before (call_server os gss fuel host port mech_str service message on t)
  unfolding call_server
  call_server-Delivers before t i =
      Delivers-bind before t (request_mech os gss fuel mech_str t) _ i
        (
          (λ fd.
              request_mech-Keeps (sent fd) (sent-IgnoresInput fd) (sent-IgnoresMechs fd) os gss fuel
                mech_str t),
          request_mech-Keeps spoken (IgnoresInput-of_Ignores spoken spoken-Ignores)
              spoken-IgnoresMechs os gss fuel mech_str t,
        )
        (request_mech-Keeps sockets (IgnoresInput-of_Ignores sockets sockets-Ignores)
          sockets-IgnoresMechs os gss fuel mech_str t)
        (λ m u i'. requested-Delivers m.0 m.1 before u i')

  -- With a kernel that takes whole what it is given to write, below 2^31 bytes, and a library
  -- whose tokens and sealed message are shorter than that: if nothing was owed to the peer on any
  -- descriptor before, and `call_server` returns 0, then it has closed one socket more, and what
  -- that socket has been sent in all is what the library has made for the peer in all (`spoken`):
  -- tokens of the establishment that are not empty and the wrapped message, each in its frame, in
  -- the order in which they were made.
  pub call_server-spoken :
      (t u : Trace)
      → ((fd : ℕ) → sent fd t ≡ spoken t)
      → call_server os gss fuel host port mech_str service message on t ≡ done success u
      → (sock : ℕ) × ((sockets u).closed ≡ sock ∷ (sockets t).closed) × (sent sock u ≡ spoken u)
  call_server-spoken t u idle e = rw e at (call_server-Delivers (sockets t).closed t (idle, refl))
