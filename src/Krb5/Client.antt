-- ===== src/Krb5/Client.antt =====
-- application/krb5-api/client.c
pub mod Authenticated
use kerberos.Base.{
  ℕ, ◌+◌, Bool, true, false, not, Option, none, some, List, [], ◌∷◌, ◌==◌, ltb, if◌then◌else◌,
  length,
}
use kerberos.World.{
  Argument, Bytes, Opt, Getopt, Os, Krb, Prog, pure, exit, fault, unparsed, ◌>>=◌, ◌>>◌, printf,
  getaddrinfo, freeaddrinfo, socket, connect, krb5_init_context, krb5_sname_to_principal,
  krb5_unparse_name, krb5_cc_default, krb5_cc_get_principal, krb5_sendauth, krb5_free,
}

pub record Options : Type 0 where
  pub host : Option Bytes
  pub port : Option Bytes
  pub service : Option Bytes

unfoldable pub usage : Prog (Unit {0})
usage = printf "Usage: %s -h <host> -p <port> [-s <service>]\n" []

-- One round of the loop over the options.
unfoldable pub apply_option : Opt → Options → Prog Options
apply_option o options =
    if o.ch == b'p'
    then pure (record options { port = some o.optarg })
    else if o.ch == b's'
    then pure (record options { service = some o.optarg })
    else if o.ch == b'h'
    then pure (record options { host = some o.optarg })
    else usage >> exit 1

unfoldable pub apply_options : List Opt → Options → Prog Options
apply_options [] options = pure options
apply_options (o ∷ rest) options = apply_option o options >>= apply_options rest

-- "h:p:s:"
abbrev pub option_string : Bytes
option_string = b'h' ∷ b':' ∷ b'p' ∷ b':' ∷ b's' ∷ b':' ∷ []

unfoldable pub parse_args : Getopt → List Bytes → Prog Options
parse_args getopt argv =
    apply_options (getopt option_string argv).0
      (record { host = none; port = none; service = none })

-- The address is opaque, so the line names it by its handle.
unfoldable pub print_found_address : ℕ → Prog (Unit {0})
print_found_address entry =
    printf "IP: %s, Port: %d, Family: %d, Type: %d\n" (Argument.number entry ∷ [])

-- The loop over the addresses that are left, the next one with number `count`.
unfoldable pub printf_found_addresses : ℕ → List ℕ → Prog (Unit {0})
printf_found_addresses count [] = pure tt
printf_found_addresses count (runner ∷ rest) =
    printf "Found address %d:\n" (Argument.number count ∷ [])
    >> print_found_address runner
    >> printf_found_addresses (count + 1) rest

-- "Kukuriku"
abbrev pub greeting : Bytes
greeting = b'K' ∷ b'u' ∷ b'k' ∷ b'u' ∷ b'r' ∷ b'i' ∷ b'k' ∷ b'u' ∷ []

module _ (os : Os) where
  -- The loop over the addresses that are left, with a new socket for each. The result is `sock`:
  -- the one that is connected, or the last one tried.
  unfoldable pub try_addresses : ℕ → List ℕ → Prog ℕ
  try_addresses sock [] = pure sock
  try_addresses sock (runner ∷ rest) =
      printf "Trying to connect to:\n" [] >> print_found_address runner >> socket os >>= λ opened.
      elim opened [
        | none ↦ printf "socket failed" [] >> exit 1
        | some fd ↦ connect os fd runner >>= λ connected.
            if connected
            then printf "connected !\n" [] >> pure fd
            else printf "connect failed, trying the next\n" [] >> try_addresses fd rest
      ]

module _ (krb : Krb) where
  -- From the credentials cache on. The result is the exit status.
  unfoldable pub authenticate : ℕ → ℕ → ℕ → Argument → List ℕ → Prog ℕ
  authenticate context sock server service_principal_name res_addresses =
      krb5_cc_default krb >>= λ ccdef.
      if not (ccdef.code == 0)
      then printf "while getting default ccache" [] >> exit 1
      else krb5_cc_get_principal krb ccdef.handle >>= λ client.
          if not (client.code == 0)
          then printf "while getting client principal name" [] >> exit 1
          else krb5_unparse_name krb client.handle >>= λ shown.
              if not (shown.code == 0)
              then printf "while parsing client principal name" [] >> exit 1
              else printf "client: client principal name: %s\n" (Argument.bytes shown.name ∷ [])
                >> krb5_sendauth krb sock client.handle server greeting
                >>= λ sent.
                    if not (sent.code == 0) then printf "after sentauth" [] >> exit 1 else do
                      printf "client: Authenticated successfully!\n" []
                      krb5_free "krb5_free_unparsed_name" (Argument.bytes shown.name)
                      krb5_free "krb5_free_unparsed_name" service_principal_name
                      krb5_free "krb5_cc_close" (Argument.number ccdef.handle)
                      krb5_free "krb5_auth_con_free" (Argument.number sent.handle)
                      krb5_free "krb5_free_principal" (Argument.number client.handle)
                      krb5_free "krb5_free_principal" (Argument.number server)
                      freeaddrinfo res_addresses
                      krb5_free "krb5_free_context" (Argument.number context)
                      pure 0

module _ (os : Os) (krb : Krb) where
  -- The error codes of `krb5_sname_to_principal` and of the first `krb5_unparse_name` are not
  -- looked at: with a failed `krb5_sname_to_principal` an uninitialised pointer is dereferenced.
  -- `sock` is 0 before the first address.
  unfoldable pub main : Getopt → List Bytes → Prog ℕ
  main getopt argv = parse_args getopt argv >>= λ options.
      if ltb (length argv) 2
      then usage >> exit 1
      else krb5_init_context krb >>= λ context.
          if not (context.code == 0)
          then exit 1
          else getaddrinfo os options.host options.port >>= λ found. elim found [
            | none ↦ printf "%s\n" [] >> exit 1
            | some res_addresses ↦
                krb5_sname_to_principal krb options.host options.service >>= λ server.
                if not (server.code == 0) then (λ _. fault) else do
                  shown ← krb5_unparse_name krb server.handle
                  printf "client: canonicalized service name: %s\n" (unparsed shown ∷ [])
                  sock ← try_addresses os 0 res_addresses
                  authenticate krb context.handle sock server.handle (unparsed shown) res_addresses
          ]
