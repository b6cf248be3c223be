-- ===== src/Server/Talk/Exits.antt =====
-- The exit status of the server of application/gssapi/server.c.
use kerberos.Base.{ℕ, ◌≡◌, refl, ap, ◌∙◌, ◌⊎◌, inl, inr, Bool, none, some, List, ◌∷◌}
use kerberos.World.{
  bind_rule, Bytes, Status, success, failure, Getopt, Trace, Os, Gss, Run, done, exited, fault,
  hung, Prog, and_then, Sockets, sockets, pure,
}
use kerberos.Server.Args.{Arguments, parse_args}
use kerberos.Server.Listen.{acquire_creds, create_socket, bind_socket, receive_connection}
use kerberos.Server.Talk.{serve, talk_to_client, main}
use kerberos.Server.Talk.Accepts.{IsAccepted, Accepts, serve-Accepts}
use kerberos.Server.Talk.Closed.{serve-closed}
use kerberos.Server.Talk.Started.{
  LeavesOpen, parse_args-LeavesOpen, acquire_creds-LeavesOpen, create_socket-LeavesOpen,
  bind_socket-LeavesOpen, receive_connection-LeavesOpen,
}

module _ (os : Os) (gss : Gss) (fuel : ℕ) where
  -- A client was served, with credentials that were acquired for the service; of the descriptors
  -- only the connection has been closed.
  abbrev pub IsServed : Bytes → List ℕ → Trace → Type 0
  IsServed service before u =
      ((creds : ℕ) × ((x : Trace) × (y : Trace) × (acquire_creds gss fuel service x
            ≡ done (some creds) y))
        × IsAccepted creds u)
      × ((cfd : ℕ) × ((sockets u).closed ≡ cfd ∷ before))

  abbrev Talks : Bytes → List ℕ → Run Status → Type 0
  Talks service before (done success u) = IsServed service before u
  Talks service before _ = Unit

  Talks-bind :
      {A : Type 0} (service : Bytes) (s : Sockets) (r : Run A) (k : A → Prog Status)
      → LeavesOpen s r
      → ((a : A) (u : Trace) → r ≡ done a u → sockets u ≡ s → Talks service s.closed (k a u))
      → Talks service s.closed (and_then r k)
  Talks-bind service s r k h next =
      bind_rule (Talks service s.closed) r k (λ _ _. tt) tt tt (λ a u e. next a u e (rw e at h))

  served-Talks :
      (service : Bytes) (s : Sockets) (cfd creds : ℕ) (on : Bool) (t x y : Trace) (r : Run Status)
      → serve os gss fuel cfd creds on t ≡ r
      → acquire_creds gss fuel service x ≡ done (some creds) y
      → sockets t ≡ s
      → Accepts creds r
      → Talks service s.closed r
  served-Talks service s cfd creds on t x y (done success u) run got_creds e a = (
    (creds, (x, y, got_creds), a),
    (cfd, closes (serve-closed os gss fuel cfd creds on t u success run)),
  )
    where
      closes :
          ((success ≡ success) × ((sockets u).closed ≡ cfd ∷ (sockets t).closed))
            ⊎ ((success ≡ failure) × ((sockets u).closed ≡ (sockets t).closed))
          → (sockets u).closed ≡ cfd ∷ s.closed
      closes (inl (_, h)) = h ∙ ap (λ l. cfd ∷ l.closed) e
      closes (inr (h, _)) = cc
  served-Talks service s cfd creds on t x y (done failure u) run got_creds e a = tt
  served-Talks service s cfd creds on t x y (exited n u) run got_creds e a = tt
  served-Talks service s cfd creds on t x y fault run got_creds e a = tt
  served-Talks service s cfd creds on t x y hung run got_creds e a = tt

  talk_to_client-Talks :
      (port : ℕ) (service : Bytes) (on : Bool) (s : Sockets) (t : Trace)
      → sockets t ≡ s
      → Talks service s.closed (talk_to_client os gss fuel port service on t)
  unfolding talk_to_client sockets
  talk_to_client-Talks port service on s t h =
      Talks-bind service s (acquire_creds gss fuel service t) _
        (acquire_creds-LeavesOpen os s gss fuel service t h)
        (elim [
          | none ↦ λ u run e. tt
          | some creds ↦ λ u run e.
              Talks-bind service s (create_socket os u) _ (create_socket-LeavesOpen os s u e)
                (λ sock v _ e'.
                  Talks-bind service s (bind_socket os sock none port v) _
                    (bind_socket-LeavesOpen os s sock none port v e')
                    (elim [
                      | failure ↦ λ w _ e''. tt
                      | success ↦ λ w _ e''.
                          Talks-bind service s (receive_connection os sock w) _
                            (receive_connection-LeavesOpen os s sock w e'')
                            (λ cfd x _ e₃.
                              served-Talks service s cfd creds on x t u _ refl run e₃
                                (serve-Accepts os gss fuel cfd creds on x))
                    ]))
        ])

  -- The server ends with 0 having served a client with the service of its command line, or with
  -- 255.
  abbrev Exits : Getopt → List Bytes → Trace → Run ℕ → Type 0
  Exits getopt argv t (done n u) =
      ((n ≡ 0)
        × ((a : Arguments) × (v : Trace) × (parse_args os getopt argv t ≡ done a v)
            × IsServed a.service (sockets t).closed u))
      ⊎ (n ≡ 255)
  Exits getopt argv t _ = Unit

  Exits-parsed :
      (getopt : Getopt) (argv : List Bytes) (t : Trace) (r : Run Arguments) (k : Arguments → Prog ℕ)
      → LeavesOpen (sockets t) r
      → ((a : Arguments) (u : Trace)
          → r ≡ done a u
          → sockets u ≡ sockets t
          → Exits getopt argv t (k a u))
      → Exits getopt argv t (and_then r k)
  Exits-parsed getopt argv t r k h next =
      bind_rule (Exits getopt argv t) r k (λ _ _. tt) tt tt (λ a u e. next a u e (rw e at h))

  Exits-talked :
      (getopt : Getopt) (argv : List Bytes) (t v : Trace) (a : Arguments) (r : Run Status)
      → parse_args os getopt argv t ≡ done a v
      → Talks a.service (sockets t).closed r
      → Exits getopt argv t
          (and_then r (λ st. elim st as (λ _. Prog ℕ) [ failure ↦ pure 255 | success ↦ pure 0 ]))
  Exits-talked getopt argv t v a (done success u) parsed h = inl (refl, (a, v, parsed, h))
  Exits-talked getopt argv t v a (done failure u) parsed h = inr refl
  Exits-talked getopt argv t v a (exited n u) parsed h = tt
  Exits-talked getopt argv t v a fault parsed h = tt
  Exits-talked getopt argv t v a hung parsed h = tt

  main-Exits :
      (getopt : Getopt) (argv : List Bytes) (t : Trace)
      → Exits getopt argv t (main os gss fuel getopt argv t)
  unfolding main sockets
  main-Exits getopt argv t =
      Exits-parsed getopt argv t (parse_args os getopt argv t) _
        (parse_args-LeavesOpen os (sockets t) getopt argv t refl)
        (λ a v parsed e.
          Exits-talked getopt argv t v a _ parsed
            (talk_to_client-Talks a.options.port a.service a.options.record_tokens (sockets t) _ e))

  -- If `main` of the GSS-API server returns, it returns 255, or it returns 0 and: acquire_creds,
  -- given the service that parse_args read from the command line, returned credentials; the newest
  -- call of gss_accept_sec_context was given these and no context, and returned GSS_S_COMPLETE;
  -- and exactly one descriptor has been closed.
  pub main-IsServed :
      (getopt : Getopt) (argv : List Bytes) (t u : Trace) (n : ℕ)
      → main os gss fuel getopt argv t ≡ done n u
      → ((n ≡ 0)
          × ((a : Arguments) × (v : Trace) × (parse_args os getopt argv t ≡ done a v)
              × IsServed a.service (sockets t).closed u))
        ⊎ (n ≡ 255)
  main-IsServed getopt argv t u n e = rw e at (main-Exits getopt argv t)
