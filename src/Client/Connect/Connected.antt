-- ===== src/Client/Connect/Connected.antt =====
-- The socket that connect_to_server of application/gssapi/client.c returns is connected.
use kerberos.Base.{
  ℕ, ◌≡◌, refl, ap, ◌⊎◌, inl, inr, Bool, true, false, Option, none, some, List, [], ◌∷◌,
  if◌then◌else◌,
}
use kerberos.World.{
  Argument, printf, pure, ◌>>=◌, ◌>>◌, socket, freeaddrinfo, Bytes, Event, Trace, Os, Run, done,
  exited, fault, hung, Prog, and_then, if_rule,
}
use kerberos.Client.Connect.{print_found_address, try_addresses, connect_to_server}

-- The newest call of `connect`: the socket, the address, and whether it succeeded.
unfoldable pub newest_connect : Trace → Option (ℕ × ℕ × Bool)
newest_connect [] = none
newest_connect (Event.connect fd addr ok ∷ t) = some (fd, addr, ok)
newest_connect (_ ∷ t) = newest_connect t

module _ (os : Os) where
  -- The loop succeeds right after a `connect` of its socket to one of its addresses.
  abbrev Tries : ℕ → Run Bool → Type 0
  Tries sock (done true u) = (addr : ℕ) × (newest_connect u ≡ some (sock, addr, true))
  Tries sock (done false u) = Unit
  Tries sock (exited n u) = ⊥
  Tries sock fault = ⊥
  Tries sock hung = ⊥

  try_addresses-Tries :
      (sock : ℕ) (addresses : List ℕ) (t : Trace) → Tries sock (try_addresses os sock addresses t)
  unfolding try_addresses print_found_address newest_connect
  try_addresses-Tries sock [] t = tt
  try_addresses-Tries sock (runner ∷ rest) t =
      let t₁ =
        Event.printf "IP: %s, Port: %d, Family: %d, Type: %d\n" (Argument.number runner ∷ [])
        ∷ Event.printf "Trying to connect to:\n" []
        ∷ t in
      let connected = os.connect t₁ sock runner in
      if_rule (Tries sock) (Event.connect sock runner connected ∷ t₁) connected _ _
        (λ e. (runner, ap (λ ok. some (sock, runner, ok)) e)) (λ _. try_addresses-Tries sock rest _)

  -- `connect_to_server` returns, with -1 or with a socket that was just connected.
  abbrev Connects : Run (Option ℕ) → Type 0
  Connects (done none u) = Unit
  Connects (done (some sock) u) = (addr : ℕ) × (newest_connect u ≡ some (sock, addr, true))
  Connects (exited n u) = ⊥
  Connects fault = ⊥
  Connects hung = ⊥

  Connects-bind :
      (sock : ℕ) (r : Run Bool) (k : Bool → Prog (Option ℕ))
      → Tries sock r
      → ((addr : ℕ) (u : Trace) → newest_connect u ≡ some (sock, addr, true) → Connects (k true u))
      → ((u : Trace) → Connects (k false u))
      → Connects (and_then r k)
  Connects-bind sock (done true u) k (addr, h) f g = f addr u h
  Connects-bind sock (done false u) k h f g = g u
  Connects-bind sock (exited n u) k h f g = absurd h
  Connects-bind sock fault k h f g = absurd h
  Connects-bind sock hung k h f g = absurd h

  -- What follows `socket`.
  opened-Connects :
      (opened : Option ℕ) (addresses : List ℕ) (t : Trace)
      → Connects (
          (elim opened as (λ _. Prog (Option ℕ)) [
            | none ↦ printf "socket\n" [] >> pure none
            | some sock ↦ try_addresses os sock addresses >>= λ connected.
                freeaddrinfo addresses >> pure (if connected then some sock else none)
          ])
            t)
  unfolding newest_connect
  opened-Connects none addresses t = tt
  opened-Connects (some sock) addresses t =
      Connects-bind sock (try_addresses os sock addresses t) _
        (try_addresses-Tries sock addresses t) (λ addr u h. (addr, h)) (λ u. tt)

  -- What follows `getaddrinfo`.
  found-Connects :
      (found : Option (List ℕ)) (t : Trace)
      → Connects (
          (elim found as (λ _. Prog (Option ℕ)) [
            | none ↦ printf "%s\n" [] >> pure none
            | some addresses ↦ socket os >>= λ opened. elim opened [
              | none ↦ printf "socket\n" [] >> pure none
              | some sock ↦ try_addresses os sock addresses >>= λ connected.
                  freeaddrinfo addresses >> pure (if connected then some sock else none)
            ]
          ])
            t)
  found-Connects none t = tt
  found-Connects (some addresses) t = opened-Connects (os.socket t) addresses _

  of_Connects :
      (r : Run (Option ℕ))
      → Connects r
      → (s : Option ℕ) × (u : Trace) × (r ≡ done s u)
        × ((s ≡ none)
            ⊎ ((sock : ℕ) × (addr : ℕ) × (s ≡ some sock)
                × (newest_connect u ≡ some (sock, addr, true))))
  of_Connects (done none u) h = (none, u, refl, inl refl)
  of_Connects (done (some sock) u) (addr, h) = (some sock, u, refl, inr (sock, addr, refl, h))
  of_Connects (exited n u) h = absurd h
  of_Connects fault h = absurd h
  of_Connects hung h = absurd h

  -- `connect_to_server` returns, with -1, or with a socket for which the newest call of connect
  -- succeeded.
  pub connect_to_server-newest_connect :
      (host port : Bytes) (t : Trace)
      → (s : Option ℕ) × (u : Trace) × (connect_to_server os host port t ≡ done s u)
        × ((s ≡ none)
            ⊎ ((sock : ℕ) × (addr : ℕ) × (s ≡ some sock)
                × (newest_connect u ≡ some (sock, addr, true))))
  unfolding connect_to_server
  connect_to_server-newest_connect host port t =
      of_Connects _ (found-Connects (os.getaddrinfo t (some host) (some port)) _)
