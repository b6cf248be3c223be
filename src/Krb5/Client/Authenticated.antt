-- ===== src/Krb5/Client/Authenticated.antt =====
-- The exit status 0 of application/krb5-api/client.c.
use kerberos.Base.{
  zero_of, ℕ, ◌≡◌, refl, ap, not, if◌then◌else◌, Option, none, some, List, [], ◌∷◌, ◌==◌, length,
  ltb,
}
use kerberos.World.{
  bind_rule, Argument, krb5_sname_to_principal, krb5_unparse_name, Bytes, Getopt, Event, Trace, Os,
  Krb, Run, done, exited, fault, hung, Prog, exit, unparsed, ◌>>=◌, ◌>>◌, and_then, printf, if_rule,
}
use kerberos.Krb5.Client.{Options, usage, greeting, parse_args, try_addresses, authenticate, main}

-- The newest call of `krb5_sendauth`: the descriptor, the client, the server, the bytes of the
-- checksum data, and the error code.
unfoldable pub newest_sendauth : Trace → Option (ℕ × ℕ × ℕ × Bytes × ℕ)
newest_sendauth [] = none
newest_sendauth (Event.krb5_sendauth fd client server checksum r ∷ t) =
    some (fd, client, server, checksum, r.code)
newest_sendauth (_ ∷ t) = newest_sendauth t

-- A run that returns has authenticated, and returns 0.
abbrev Sent : Run ℕ → Type 0
Sent (done n u) =
    (n ≡ 0)
    × ((fd : ℕ) × (client : ℕ) × (server : ℕ) × (newest_sendauth u
          ≡ some (fd, client, server, greeting, 0)))
Sent (exited n u) = Unit
Sent fault = Unit
Sent hung = Unit

Sent-bind :
    {A : Type 0} (r : Run A) (k : A → Prog ℕ)
    → ((a : A) (u : Trace) → Sent (k a u))
    → Sent (and_then r k)
Sent-bind r k next = bind_rule Sent r k (λ _ _. tt) tt tt (λ a u _. next a u)

module _ (krb : Krb) where
  authenticate-Sent :
      (context sock server : ℕ) (name : Argument) (addresses : List ℕ) (t : Trace)
      → Sent (authenticate krb context sock server name addresses t)
  unfolding authenticate newest_sendauth
  authenticate-Sent context sock server name addresses t =
      let ccdef = krb.cc_default t in
      let t₁ = Event.krb5_cc_default ccdef ∷ t in
      let client = krb.cc_get_principal t₁ ccdef.handle in
      let t₂ = Event.krb5_cc_get_principal ccdef.handle client ∷ t₁ in
      let shown = krb.unparse_name t₂ client.handle in
      let t₃ = Event.krb5_unparse_name client.handle shown ∷ t₂ in
      let t₄ =
        Event.printf "client: client principal name: %s\n" (Argument.bytes shown.name ∷ []) ∷ t₃ in
      let sent = krb.sendauth t₄ sock client.handle server greeting in
      let t₅ = Event.krb5_sendauth sock client.handle server greeting sent ∷ t₄ in
      if_rule Sent t₁ (not (ccdef.code == 0)) _ _ (λ _. tt)
        (λ _.
          if_rule Sent t₂ (not (client.code == 0)) _ _ (λ _. tt)
            (λ _.
              if_rule Sent t₃ (not (shown.code == 0)) _ _ (λ _. tt)
                (λ _.
                  if_rule Sent t₅ (not (sent.code == 0)) _ _ (λ _. tt)
                    (λ e. (
                      refl,
                      (
                        sock,
                        client.handle,
                        server,
                        ap (λ c. some (sock, client.handle, server, greeting, c))
                            (zero_of sent.code e),
                      ),
                    )))))

module _ (os : Os) (krb : Krb) where
  -- What follows the call of `getaddrinfo`.
  main_found-Sent :
      (options : Options) (context : ℕ) (found : Option (List ℕ)) (t : Trace)
      → Sent (
          (elim found as (λ _. Prog ℕ) [
            | none ↦ printf "%s\n" [] >> exit 1
            | some addresses ↦
                krb5_sname_to_principal krb options.host options.service >>= λ server.
                if not (server.code == 0) then (λ _. fault) else do
                  shown ← krb5_unparse_name krb server.handle
                  printf "client: canonicalized service name: %s\n" (unparsed shown ∷ [])
                  sock ← try_addresses os 0 addresses
                  authenticate krb context sock server.handle (unparsed shown) addresses
          ])
            t)
  main_found-Sent options context none t = tt
  main_found-Sent options context (some addresses) t =
      let server = krb.sname_to_principal t options.host options.service in
      let t₁ = Event.krb5_sname_to_principal options.host options.service server ∷ t in
      let shown = krb.unparse_name t₁ server.handle in
      let t₂ =
        Event.printf "client: canonicalized service name: %s\n" (unparsed shown ∷ [])
        ∷ Event.krb5_unparse_name server.handle shown
        ∷ t₁ in
      if_rule Sent t₁ (not (server.code == 0)) _ _ (λ _. tt)
        (λ _.
          Sent-bind (try_addresses os 0 addresses t₂) _
            λ sock u. authenticate-Sent krb context sock server.handle (unparsed shown) addresses u)

  main-Sent : (getopt : Getopt) (argv : List Bytes) (t : Trace) → Sent (main os krb getopt argv t)
  unfolding main
  main-Sent getopt argv t = Sent-bind (parse_args getopt argv t) _ λ options u.
      let context = krb.init_context u in
      let t₁ = Event.krb5_init_context context ∷ u in
      let found = os.getaddrinfo t₁ options.host options.port in
      if_rule Sent u (ltb (length argv) 2) _ _ (λ _. Sent-bind (usage u) (λ _. exit 1) (λ _ _. tt))
        (λ _.
          if_rule Sent t₁ (not (context.code == 0)) _ _ (λ _. tt)
            (λ _.
              main_found-Sent options context.handle found
                (Event.getaddrinfo options.host options.port found ∷ t₁)))

  -- If `main` of the krb5 client returns, it returns 0, and the newest call of krb5_sendauth was
  -- given "Kukuriku" and returned 0.
  pub main-sendauth :
      (getopt : Getopt) (argv : List Bytes) (t u : Trace) (n : ℕ)
      → main os krb getopt argv t ≡ done n u
      → (n ≡ 0)
        × ((fd : ℕ) × (client : ℕ) × (server : ℕ) × (newest_sendauth u
              ≡ some (fd, client, server, greeting, 0)))
  main-sendauth getopt argv t u n e = rw e at (main-Sent getopt argv t)
