-- ===== src/Krb5/Ends.antt =====
-- How the two programs of application/krb5-api end.
use kerberos.Base.{ℕ, ◌≡◌, refl, ap, ◌⊎◌, inl, inr, Option, none, some, List, [], ◌∷◌, arith}
use kerberos.World.{
  Argument, Bytes, Opt, Getopt, Trace, Os, Krb, Run, done, exited, fault, hung, Prog, and_then,
}
use kerberos.Krb5.Client.Authenticated.{newest_sendauth, main-sendauth}
use kerberos.Krb5.Server.Authenticated.{newest_recvauth, main-recvauth}
use kerberos.Krb5.Client.{greeting}
use kerberos.Krb5.Client
use kerberos.Krb5.Server

-- The run returns, or exits with 1.
abbrev Ends : {A : Type 0} → Run A → Type 0
Ends (done a u) = Unit
Ends (exited n u) = n ≡ 1
Ends fault = ⊥
Ends hung = ⊥

Ends-bind :
    {A B : Type 0} (r : Run A) (k : A → Prog B)
    → Ends r
    → ((a : A) (u : Trace) → Ends (k a u))
    → Ends (and_then r k)
Ends-bind (done a u) k h next = next a u
Ends-bind (exited n u) k h next = h
Ends-bind fault k h next = h
Ends-bind hung k h next = h

client_option-Ends :
    (o : Opt) (options : Client.Options) (t : Trace) → Ends (Client.apply_option o options t)
unfolding Client.apply_option Client.usage
client_option-Ends o options t = grind arith

client_options-Ends :
    (opts : List Opt) (options : Client.Options) (t : Trace)
    → Ends (Client.apply_options opts options t)
unfolding Client.apply_options
client_options-Ends [] options t = tt
client_options-Ends (o ∷ rest) options t =
    Ends-bind (Client.apply_option o options t) (Client.apply_options rest)
      (client_option-Ends o options t) (client_options-Ends rest)

server_option-Ends :
    (os : Os) (o : Opt) (options : Server.Options) (t : Trace)
    → Ends (Server.apply_option os o options t)
unfolding Server.apply_option Server.usage
server_option-Ends os o options t = grind arith

server_options-Ends :
    (os : Os) (opts : List Opt) (options : Server.Options) (t : Trace)
    → Ends (Server.apply_options os opts options t)
unfolding Server.apply_options
server_options-Ends os [] options t = tt
server_options-Ends os (o ∷ rest) options t =
    Ends-bind (Server.apply_option os o options t) (Server.apply_options os rest)
      (server_option-Ends os o options t) (server_options-Ends os rest)

try_addresses-Ends :
    (os : Os) (addresses : List ℕ) (sock : ℕ) (t : Trace)
    → Ends (Client.try_addresses os sock addresses t)
unfolding Client.try_addresses Client.print_found_address
try_addresses-Ends os [] sock t = tt
try_addresses-Ends os (runner ∷ rest) sock t = grind (arith, try_addresses-Ends os rest)

client_authenticate-Ends :
    (krb : Krb) (context sock server : ℕ) (name : Argument) (addresses : List ℕ) (t : Trace)
    → Ends (Client.authenticate krb context sock server name addresses t)
unfolding Client.authenticate
client_authenticate-Ends krb context sock server name addresses t = grind arith

receive_connection-Ends :
    (os : Os) (sock : ℕ) (t : Trace) → Ends (Server.receive_connection os sock t)
unfolding Server.receive_connection
receive_connection-Ends os sock t = grind arith

create_socket-Ends : (os : Os) (t : Trace) → Ends (Server.create_socket os t)
unfolding Server.create_socket
create_socket-Ends os t = grind arith

bind_socket-Ends :
    (os : Os) (sock : ℕ) (addr : Option Bytes) (port : ℕ) (t : Trace)
    → Ends (Server.bind_socket os sock addr port t)
unfolding Server.bind_socket
bind_socket-Ends os sock addr port t = grind arith

server_authenticate-Ends :
    (krb : Krb) (context cfd server : ℕ) (keytab : Option ℕ) (t : Trace)
    → Ends (Server.authenticate krb context cfd server keytab t)
unfolding Server.authenticate
server_authenticate-Ends krb context cfd server none t = grind arith
server_authenticate-Ends krb context cfd server (some keytab) t = grind arith

open_keytab-Ends :
    (krb : Krb) (makes : (t : Trace) → (krb.init_context t).code ≡ 0) (keytab : Option Bytes)
    (t : Trace)
    → Ends (Server.open_keytab krb keytab t)
unfolding Server.open_keytab
open_keytab-Ends krb makes none t = tt
open_keytab-Ends krb makes (some name) t = rw makes tt

module _ (os : Os) (krb : Krb) where
  client-Ends :
      (names : (t : Trace) (host service : Option Bytes)
        → (krb.sname_to_principal t host service).code ≡ 0)
      (getopt : Getopt) (argv : List Bytes) (t : Trace)
      → Ends (Client.main os krb getopt argv t)
  unfolding Client.main Client.parse_args Client.usage
  client-Ends names getopt argv t =
      Ends-bind (Client.parse_args getopt argv t) _ (client_options-Ends _ _ t) (λ options u.
        grind (arith, Ends-bind, try_addresses-Ends os, client_authenticate-Ends krb, names))

  server-Ends :
      (makes : (t : Trace) → (krb.init_context t).code ≡ 0)
      (shows : (t : Trace) (principal : ℕ) → (krb.unparse_name t principal).code ≡ 0)
      (getopt : Getopt) (argv : List Bytes) (t : Trace)
      → Ends (Server.main os krb getopt argv t)
  unfolding Server.main Server.parse_args Server.usage
  server-Ends makes shows getopt argv t =
      Ends-bind (Server.parse_args os getopt argv t) _ (server_options-Ends os _ _ t) (λ options u.
        grind (
          arith,
          Ends-bind,
          open_keytab-Ends krb makes,
          shows,
          create_socket-Ends os,
          bind_socket-Ends os,
          receive_connection-Ends os,
          server_authenticate-Ends krb,
        ))

  -- `P` is what a run that returns has.
  of_Ends :
      (P : Trace → Type 0) (r : Run ℕ)
      → Ends r
      → ((n : ℕ) (u : Trace) → r ≡ done n u → (n ≡ 0) × P u)
      → (u : Trace) × (((r ≡ done 0 u) × P u) ⊎ (r ≡ exited 1 u))
  of_Ends P (done n u) h zero_if =
      let (e, p) = zero_if n u refl in (u, inl (ap (λ m. done m u) e, p))
  of_Ends P (exited n u) h zero_if = (u, inr (ap (λ m. exited m u) h))
  of_Ends P fault h zero_if = absurd h
  of_Ends P hung h zero_if = absurd h

  -- If krb5_sname_to_principal succeeds, then, whatever the kernel and libkrb5 answer otherwise,
  -- `main` of the krb5 client exits with 1, or returns 0 after the newest call of krb5_sendauth
  -- was given "Kukuriku" and returned 0.
  pub client_main-ends :
      (names : (t : Trace) (host service : Option Bytes)
        → (krb.sname_to_principal t host service).code ≡ 0)
      (getopt : Getopt) (argv : List Bytes) (t : Trace)
      → (u : Trace) × (((Client.main os krb getopt argv t ≡ done 0 u)
            × ((fd : ℕ) × (client : ℕ) × (server : ℕ) × (newest_sendauth u
                  ≡ some (fd, client, server, greeting, 0))))
          ⊎ (Client.main os krb getopt argv t ≡ exited 1 u))
  client_main-ends names getopt argv t =
      of_Ends _ _ (client-Ends names getopt argv t)
        (λ n u e. main-sendauth os krb getopt argv t u n e)

  -- If krb5_init_context and krb5_unparse_name succeed, then, whatever the kernel and libkrb5
  -- answer otherwise, `main` of the krb5 server exits with 1, or returns 0 after the newest call
  -- of krb5_recvauth returned 0.
  pub server_main-ends :
      (makes : (t : Trace) → (krb.init_context t).code ≡ 0)
      (shows : (t : Trace) (principal : ℕ) → (krb.unparse_name t principal).code ≡ 0)
      (getopt : Getopt) (argv : List Bytes) (t : Trace)
      → (u : Trace) × (((Server.main os krb getopt argv t ≡ done 0 u)
            × ((fd : ℕ) × (server : ℕ) × (keytab : Option ℕ) × (newest_recvauth u
                  ≡ some (fd, server, keytab, 0))))
          ⊎ (Server.main os krb getopt argv t ≡ exited 1 u))
  server_main-ends makes shows getopt argv t =
      of_Ends _ _ (server-Ends makes shows getopt argv t)
        (λ n u e. main-recvauth os krb getopt argv t u n e)
