-- ===== src/Server/Listen.antt =====
-- create_socket, bind_socket, receive_connection and acquire_creds of application/gssapi/server.c.
use kerberos.Base.{ℕ, ◌%◌, ◌^◌, not, Option, none, some, [], ◌∷◌, ◌++◌, if◌then◌else◌}
use kerberos.World.{
  Argument, Bytes, Status, success, failure, Os, Gss, Prog, pure, exit, ◌>>=◌, ◌>>◌, printf, socket,
  setsockopt, bind, listen, accept, gss_import_name, gss_display_name, gss_acquire_cred,
  gss_release_name, gss_release_name_status, gss_release_buffer,
}
use kerberos.Display.{is_complete, display_status}

module _ (os : Os) where
  unfoldable pub create_socket : Prog ℕ
  create_socket = socket os >>= λ opened. elim opened [
    | none ↦ printf "socket creation" [] >> exit 1
    | some sockfd ↦ setsockopt os sockfd >>= λ set.
        if set then pure sockfd else printf "setsockopt" [] >> exit 1
  ]

  -- An address `none` is INADDR_ANY; `htons` keeps the low 16 bits of the port.
  unfoldable pub bind_socket : ℕ → Option Bytes → ℕ → Prog Status
  bind_socket sockfd addr port = bind os sockfd addr (port % 2 ^ 16) >>= λ bound.
      if bound
      then printf "server: Bound to %s\n" [] >> pure success
      else printf "bind" [] >> pure failure

  unfoldable pub receive_connection : ℕ → Prog ℕ
  receive_connection sockfd = listen os sockfd >>= λ listening.
      if not listening
      then printf "listen" [] >> exit 1
      else printf "server: Waiting for connection...\n" [] >> accept os sockfd >>= λ accepted.
          elim accepted [
            | none ↦ printf "accept" [] >> exit 1
            | some cfd ↦ printf "server: Received connection from: %s:%d\n" [] >> pure cfd
          ]

module _ (gss : Gss) (fuel : ℕ) where
  -- `none` is the return value -1; otherwise the credentials.
  unfoldable pub acquire_creds : Bytes → Prog (Option ℕ)
  acquire_creds service_name = gss_import_name gss (service_name ++ (0 ∷ [])) >>= λ n.
      if not (is_complete n.major)
      then display_status gss fuel "server gss_import_name" n.major n.minor >> pure none
      else gss_display_name gss n.name >>= λ shown.
          if not (is_complete shown.major)
          then gss_release_name n.name >> pure none
          else printf "name of service %s:\n" (Argument.bytes shown.text ∷ [])
            >> gss_release_buffer shown.text
            >> gss_acquire_cred gss n.name
            >>= λ c. gss_release_name_status gss n.name >>= λ min_stat.
                if not (is_complete c.major)
                then display_status gss fuel "server gss_acquire_cred" c.major min_stat >> pure none
                else pure (some c.cred)
