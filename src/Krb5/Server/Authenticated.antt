-- ===== src/Krb5/Server/Authenticated.antt =====
-- The exit status 0 of application/krb5-api/server.c.
use kerberos.Base.{zero_of, ℕ, ◌≡◌, refl, ap, not, Option, none, some, List, [], ◌∷◌, ◌==◌}
use kerberos.World.{
  bind_rule, Argument, Bytes, Getopt, Event, Trace, Os, Krb, Run, done, exited, fault, hung, Prog,
  exit, and_then, if_rule,
}
use kerberos.Krb5.Server.{
  usage, create_socket, bind_socket, receive_connection, parse_args, open_keytab, authenticate,
  main,
}

-- The newest call of `krb5_recvauth`: the descriptor, the server, the keytab, and the error code.
unfoldable pub newest_recvauth : Trace → Option (ℕ × ℕ × Option ℕ × ℕ)
newest_recvauth [] = none
newest_recvauth (Event.krb5_recvauth fd server keytab r ∷ t) = some (fd, server, keytab, r.code)
newest_recvauth (_ ∷ t) = newest_recvauth t

-- A run that returns has authenticated the client, and returns 0.
abbrev Received : Run ℕ → Type 0
Received (done n u) =
    (n ≡ 0)
    × ((fd : ℕ) × (server : ℕ) × (keytab : Option ℕ) × (newest_recvauth u
          ≡ some (fd, server, keytab, 0)))
Received (exited n u) = Unit
Received fault = Unit
Received hung = Unit

Received-bind :
    {A : Type 0} (r : Run A) (k : A → Prog ℕ)
    → ((a : A) (u : Trace) → Received (k a u))
    → Received (and_then r k)
Received-bind r k next = bind_rule Received r k (λ _ _. tt) tt tt (λ a u _. next a u)

module _ (krb : Krb) (context cfd server : ℕ) where
  authenticate-Received :
      (keytab : Option ℕ) (t : Trace) → Received (authenticate krb context cfd server keytab t)
  unfolding authenticate newest_recvauth
  authenticate-Received none t =
      let r = krb.recvauth t cfd server none in
      if_rule Received (Event.krb5_recvauth cfd server none r ∷ t) (not (r.code == 0)) _ _ (λ _. tt)
        (λ e. (refl, (cfd, server, none, ap (λ c. some (cfd, server, none, c)) (zero_of r.code e))))
  authenticate-Received (some keytab) t =
      let r = krb.recvauth t cfd server (some keytab) in
      if_rule Received (Event.krb5_recvauth cfd server (some keytab) r ∷ t) (not (r.code == 0)) _ _
        (λ _. tt)
        (λ e. (
          refl,
          (
            cfd,
            server,
            some keytab,
            ap (λ c. some (cfd, server, some keytab, c)) (zero_of r.code e),
          ),
        ))

module _ (os : Os) (krb : Krb) where
  main-Received :
      (getopt : Getopt) (argv : List Bytes) (t : Trace) → Received (main os krb getopt argv t)
  unfolding main
  main-Received getopt argv t = Received-bind (parse_args os getopt argv t) _ λ options u.
      if_rule Received u (options.port == 0) _ _
        (λ _. Received-bind (usage u) (λ _. exit 1) (λ _ _. tt))
        (λ _. Received-bind (open_keytab krb options.keytab u) _ λ k v.
          let server = krb.sname_to_principal v options.host options.service in
          let t₁ = Event.krb5_sname_to_principal options.host options.service server ∷ v in
          let shown = krb.unparse_name t₁ server.handle in
          let s = Event.krb5_unparse_name server.handle shown ∷ t₁ in
          let t₂ =
            Event.printf "server: canonicalized: %s\n" (Argument.bytes shown.name ∷ []) ∷ s in
          if_rule Received v (not (k.2 == 0)) _ _ (λ _. tt)
            (λ _.
              if_rule Received t₁ (not (server.code == 0)) _ _ (λ _. tt)
                (λ _.
                  if_rule Received s (not (shown.code == 0)) _ _ (λ _. tt)
                    (λ _. Received-bind (create_socket os t₂) _ λ sock w.
                      Received-bind (bind_socket os sock none options.port w) _ λ _ x.
                        Received-bind (receive_connection os sock x) _
                          λ cfd y. authenticate-Received krb k.0 cfd server.handle k.1 y))))

  -- If `main` of the krb5 server returns, it returns 0, and the newest call of krb5_recvauth
  -- returned 0.
  pub main-recvauth :
      (getopt : Getopt) (argv : List Bytes) (t u : Trace) (n : ℕ)
      → main os krb getopt argv t ≡ done n u
      → (n ≡ 0)
        × ((fd : ℕ) × (server : ℕ) × (keytab : Option ℕ) × (newest_recvauth u
              ≡ some (fd, server, keytab, 0)))
  main-recvauth getopt argv t u n e = rw e at (main-Received getopt argv t)
