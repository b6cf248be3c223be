-- ===== src/Client/Connect.antt =====
-- print_found_address and connect_to_server of application/gssapi/client.c.
pub mod Connected
pub mod Opened
pub mod Plain
use kerberos.Base.{ℕ, Bool, true, false, Option, none, some, List, [], ◌∷◌, if◌then◌else◌}
use kerberos.World.{
  Argument, Bytes, Os, Prog, pure, ◌>>=◌, ◌>>◌, printf, getaddrinfo, freeaddrinfo, socket, connect,
}

-- The address is opaque, so the line names it by its handle.
unfoldable pub print_found_address : ℕ → Prog (Unit {0})
print_found_address entry =
    printf "IP: %s, Port: %d, Family: %d, Type: %d\n" (Argument.number entry ∷ [])

module _ (os : Os) where
  -- The loop over the addresses that are left: whether one of them was connected to. All attempts
  -- are made with the one socket.
  unfoldable pub try_addresses : ℕ → List ℕ → Prog Bool
  try_addresses sock [] = pure false
  try_addresses sock (runner ∷ rest) = do
    printf "Trying to connect to:\n" []
    print_found_address runner
    connected ← connect os sock runner
    if connected
        then printf "connected !\n" [] >> pure true
        else printf "connect failed, trying the next\n" [] >> try_addresses sock rest

  -- `none` is the return value -1.
  unfoldable pub connect_to_server : Bytes → Bytes → Prog (Option ℕ)
  connect_to_server host port = getaddrinfo os (some host) (some port) >>= λ found. elim found [
    | none ↦ printf "%s\n" [] >> pure none
    | some res_addresses ↦ socket os >>= λ opened. elim opened [
      | none ↦ printf "socket\n" [] >> pure none
      | some sock ↦ try_addresses sock res_addresses >>= λ connected.
          freeaddrinfo res_addresses >> pure (if connected then some sock else none)
    ]
  ]
