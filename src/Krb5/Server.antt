-- ===== src/Krb5/Server.antt =====
-- application/krb5-api/server.c
pub mod Authenticated
use kerberos.Base.{
  ℕ, ◌%◌, ◌^◌, Bool, true, false, not, Option, none, some, List, [], ◌∷◌, ◌==◌, if◌then◌else◌,
}
use kerberos.World.{
  Argument, Bytes, Opt, Getopt, HandleReply, Os, Krb, Prog, pure, exit, fault, unparsed, ◌>>=◌,
  ◌>>◌, printf, socket, setsockopt, bind, listen, accept, krb5_init_context, krb5_kt_resolve,
  krb5_sname_to_principal, krb5_unparse_name, krb5_recvauth, krb5_free,
}

pub record Options : Type 0 where
  pub port : ℕ
  pub service : Option Bytes
  pub keytab : Option Bytes
  pub host : Option Bytes

unfoldable pub usage : Prog (Unit {0})
usage = printf "Usage: %s [-h host] [-p port] [-s service] [-S keytab] \n" []

-- "p:s:S:h:"
abbrev pub option_string : Bytes
option_string = b'p' ∷ b':' ∷ b's' ∷ b':' ∷ b'S' ∷ b':' ∷ b'h' ∷ b':' ∷ []

module _ (os : Os) where
  unfoldable pub create_socket : Prog ℕ
  create_socket = socket os >>= λ opened. elim opened [
    | none ↦ printf "socket creation" [] >> exit 1
    | some sockfd ↦ setsockopt os sockfd >>= λ set.
        if set then pure sockfd else printf "setsockopt" [] >> exit 1
  ]

  -- An address `none` is INADDR_ANY; `htons` keeps the low 16 bits of the port.
  unfoldable pub bind_socket : ℕ → Option Bytes → ℕ → Prog (Unit {0})
  bind_socket sockfd addr port = bind os sockfd addr (port % 2 ^ 16) >>= λ bound.
      if bound then printf "server: Bound to %s\n" [] else printf "bind" [] >> exit 1

  unfoldable pub receive_connection : ℕ → Prog ℕ
  receive_connection sockfd = listen os sockfd >>= λ listening.
      if not listening
      then printf "listen" [] >> exit 1
      else printf "Waiting for connection...\n" [] >> accept os sockfd >>= λ accepted.
          elim accepted [
            | none ↦ printf "accept" [] >> exit 1
            | some cfd ↦ printf "server: Received connection from: %s:%d\n" [] >> pure cfd
          ]

  -- One round of the loop over the options.
  unfoldable pub apply_option : Opt → Options → Prog Options
  apply_option o options =
      if o.ch == b'p'
      then pure (record options { port = os.atoi o.optarg })
      else if o.ch == b's'
      then pure (record options { service = some o.optarg })
      else if o.ch == b'S'
      then pure (record options { keytab = some o.optarg })
      else if o.ch == b'h'
      then pure (record options { host = some o.optarg })
      else usage >> exit 1

  unfoldable pub apply_options : List Opt → Options → Prog Options
  apply_options [] options = pure options
  apply_options (o ∷ rest) options = apply_option o options >>= apply_options rest

  unfoldable pub parse_args : Getopt → List Bytes → Prog Options
  parse_args getopt argv =
      apply_options (getopt option_string argv).0
        (record { port = 0; service = none; keytab = none; host = none })

module _ (krb : Krb) where
  -- `krb5_init_context`, and `krb5_kt_resolve` if a keytab is named, whose error code then takes
  -- the place of the first one: the context, the keytab, and `retval`. A context that could not be
  -- made cannot be given to `krb5_kt_resolve`: the pointer is not initialised.
  unfoldable pub open_keytab : Option Bytes → Prog (ℕ × Option ℕ × ℕ)
  open_keytab keytab_str = krb5_init_context krb >>= λ context. elim keytab_str [
    | none ↦ pure (context.handle, none, context.code)
    | some name ↦
        if not (context.code == 0)
        then (λ _. fault)
        else krb5_kt_resolve krb name >>= λ keytab.
            pure (context.handle, some keytab.handle, keytab.code)
  ]

  abbrev pub close_keytab : Option ℕ → Prog (Unit {0})
  close_keytab none = pure tt
  close_keytab (some keytab) = krb5_free "krb5_kt_close" (Argument.number keytab)

  -- From `krb5_recvauth` on. The result is the exit status.
  unfoldable pub authenticate : ℕ → ℕ → ℕ → Option ℕ → Prog ℕ
  authenticate context cfd server keytab = krb5_recvauth krb cfd server keytab >>= λ r.
      if not (r.code == 0) then printf "after recvauth" [] >> exit 1 else do
        client_name ← krb5_unparse_name krb r.client
        printf "server: Authenticated !!!\n" []
        printf "server: You are: %s\n" (unparsed client_name ∷ [])
        krb5_free "krb5_free_ticket" (Argument.number r.ticket)
        krb5_free "krb5_free_principal" (Argument.number server)
        close_keytab keytab
        krb5_free "krb5_auth_con_free" (Argument.number r.auth_context)
        krb5_free "krb5_free_context" (Argument.number context)
        pure 0

module _ (os : Os) (krb : Krb) where
  -- A name that `krb5_unparse_name` has not set cannot be printed: its address is not initialised.
  unfoldable pub main : Getopt → List Bytes → Prog ℕ
  main getopt argv = parse_args os getopt argv >>= λ options.
      if options.port == 0
      then usage >> exit 1
      else open_keytab krb options.keytab >>= λ k.
          if not (k.2 == 0)
          then printf "krb5_init_context" [] >> exit 1
          else krb5_sname_to_principal krb options.host options.service >>= λ server.
              if not (server.code == 0) then printf "krb5_sname_to_principal" [] >> exit 1 else do
                shown ← krb5_unparse_name krb server.handle
                if not (shown.code == 0) then (λ _. fault) else do
                  printf "server: canonicalized: %s\n" (Argument.bytes shown.name ∷ [])
                  sock ← create_socket os
                  bind_socket os sock none options.port
                  cfd ← receive_connection os sock
                  authenticate krb k.0 cfd server.handle k.1
