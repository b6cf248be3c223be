-- ===== src/Tests/Kerberos.antt =====
-- The theorems on application/krb5-api and on gssapi-parser/decoder.c at work.
use kerberos.Base.{ℕ, ◌+◌, ◌/◌, ◌≡◌, refl, true, some, ◌⊎◌, Option, List, [], ◌∷◌, ◌++◌, ◌↔◌}
use kerberos.World.{Bytes, Getopt, Trace, done, exited}
use kerberos.Krb5.Client.{greeting}
use kerberos.Krb5.Client.Authenticated.{newest_sendauth}
use kerberos.Krb5.Server.Authenticated.{newest_recvauth}
use kerberos.Krb5.Ends.{client_main-ends, server_main-ends}
use kerberos.Decoder.{print_bytes, check_if_spnego, spnego_oid}
use kerberos.Decoder.Printed.{printed, line_ends, print_bytes-prints}
use kerberos.Decoder.Spnego.{check_if_spnego-spnego_oid}
use kerberos.Tests.{zeros, trusting}
use kerberos.Krb5.Client
use kerberos.Krb5.Server

-- The options `-p 1`.
abbrev with_port : Getopt
with_port = λ text argv. (record { ch = b'p'; optarg = b'1' ∷ []; optopt = 0 } ∷ [], [])

abbrev arguments : List Bytes
arguments = [] ∷ [] ∷ []

client_main-ends_example :
    (u : Trace) × (((Client.main zeros trusting with_port arguments [] ≡ done 0 u)
        × ((fd : ℕ) × (client : ℕ) × (server : ℕ) × (newest_sendauth u
              ≡ some (fd, client, server, greeting, 0))))
      ⊎ (Client.main zeros trusting with_port arguments [] ≡ exited 1 u))
client_main-ends_example = client_main-ends zeros trusting (λ _ _ _. refl) with_port arguments []

server_main-ends_example :
    (u : Trace) × (((Server.main zeros trusting with_port arguments [] ≡ done 0 u)
        × ((fd : ℕ) × (server : ℕ) × (keytab : Option ℕ) × (newest_recvauth u
              ≡ some (fd, server, keytab, 0))))
      ⊎ (Server.main zeros trusting with_port arguments [] ≡ exited 1 u))
server_main-ends_example =
    server_main-ends zeros trusting (λ _. refl) (λ _ _. refl) with_port arguments []

print_bytes-prints_example :
    (u : Trace) × (print_bytes (1 ∷ 2 ∷ 3 ∷ []) 3 [] ≡ done tt u)
    × (printed u ≡ printed [] ++ (1 ∷ 2 ∷ 3 ∷ []))
    × (line_ends u ≡ 3 / 16 + 1 + line_ends [])
print_bytes-prints_example = print_bytes-prints (1 ∷ 2 ∷ 3 ∷ []) []

check_if_spnego-spnego_oid_example : (check_if_spnego spnego_oid ≡ true) ↔ (spnego_oid ≡ spnego_oid)
check_if_spnego-spnego_oid_example = check_if_spnego-spnego_oid spnego_oid
