-- ===== src/Client/Connect/Opened.antt =====
-- Which descriptors connect_to_server of application/gssapi/client.c closes, and which it connects.
use kerberos.Base.{
  ℕ, ◌≡◌, refl, Bool, true, false, Option, none, some, List, [], ◌∷◌, arith, if◌then◌else◌,
}
use kerberos.World.{
  Bytes, Event, Argument, freeaddrinfo, Trace, Os, Run, done, exited, fault, hung, pure, ◌>>◌,
  and_then, if_rule, Sockets, sockets,
}
use kerberos.Client.Connect.{connect_to_server, try_addresses, print_found_address}

-- What the descriptors are when `sock` has just been connected.
abbrev pub Connected : ℕ → List ℕ → Sockets → Type 0
Connected sock before s =
    (addr : ℕ) × (s ≡ record { closed = before; connected = some (sock, addr, true) })

-- The connection closes no descriptor, and a socket that it returns has just been connected.
abbrev pub Opens : List ℕ → Run (Option ℕ) → Type 0
Opens before (done none u) = (sockets u).closed ≡ before
Opens before (done (some sock) u) = Connected sock before (sockets u)
Opens before _ = Unit

-- The loop over the addresses.
abbrev Tries : ℕ → List ℕ → Run Bool → Type 0
Tries sock before (done false u) = (sockets u).closed ≡ before
Tries sock before (done true u) = Connected sock before (sockets u)
Tries sock before _ = Unit

Tries-bind :
    (sock : ℕ) (before : List ℕ) (r : Run Bool) (addresses : List ℕ)
    → Tries sock before r
    → Opens before (
        and_then r
          (λ connected. freeaddrinfo addresses >> pure (if connected then some sock else none)))
unfolding sockets
Tries-bind sock before (done true u) addresses h = h
Tries-bind sock before (done false u) addresses h = h
Tries-bind sock before (exited n u) addresses h = tt
Tries-bind sock before fault addresses h = tt
Tries-bind sock before hung addresses h = tt

module _ (os : Os) where
  try_addresses-Tries :
      (sock : ℕ) (addresses : List ℕ) (t : Trace)
      → Tries sock (sockets t).closed (try_addresses os sock addresses t)
  unfolding try_addresses print_found_address sockets
  try_addresses-Tries sock [] t = refl
  try_addresses-Tries sock (runner ∷ rest) t =
      let t₁ =
        Event.printf "IP: %s, Port: %d, Family: %d, Type: %d\n" (Argument.number runner ∷ [])
        ∷ Event.printf "Trying to connect to:\n" []
        ∷ t in
      let ok = os.connect t₁ sock runner in
      if_rule (Tries sock (sockets t).closed) (Event.connect sock runner ok ∷ t₁) ok _ _
        (λ e. (runner, rw e refl)) (λ _. try_addresses-Tries sock rest _)

  pub connect_to_server-Opens :
      (host port : Bytes) (t : Trace) → Opens (sockets t).closed (connect_to_server os host port t)
  unfolding connect_to_server sockets
  connect_to_server-Opens host port t = grind (arith, Tries-bind, try_addresses-Tries)
