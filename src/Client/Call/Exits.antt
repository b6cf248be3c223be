-- ===== src/Client/Call/Exits.antt =====
-- The exit status of the client of application/gssapi/client.c.
use kerberos.Base.{ℕ, ◌≡◌, refl, ◌⊎◌, inl, inr, Bool, some, List, [], ◌∷◌, ◌++◌}
use kerberos.World.{
  Bytes, success, failure, Context, complete, Getopt, Trace, Os, Gss, Run, done, bind_rule,
  protocol,
}
use kerberos.Client.Args.{Arguments, parse_args}
use kerberos.Client.Call.{call_server, main}
use kerberos.Client.Call.Confirmed.{call_server-Confirmed}

module _ (os : Os) (gss : Gss) (fuel : ℕ) (getopt : Getopt) (argv : List Bytes) where
  -- The server has confirmed the message of the command line that was read from `t`.
  abbrev pub IsConfirmed : Trace → Trace → Type 0
  IsConfirmed t u =
      (a : Arguments) × (v : Trace) × (parse_args getopt argv t ≡ done a v)
      × ((ctx : Context) × ((protocol u).init ≡ some (ctx, complete))
          × ((conf : Bool) × ((protocol u).wrapped ≡ some (ctx, conf, a.message ++ (0 ∷ []))))
          × ((protocol u).verified ≡ some (ctx, a.message ++ (0 ∷ []), complete)))

  abbrev Exits : Trace → Run ℕ → Type 0
  Exits t (done n u) = ((n ≡ 0) × IsConfirmed t u) ⊎ (n ≡ 1)
  Exits t _ = Unit

  main-Exits : (t : Trace) → Exits t (main os gss fuel getopt argv t)
  unfolding main
  main-Exits t =
      bind_rule (Exits t) (parse_args getopt argv t) _ (λ _ _. tt) tt tt
        λ a v parsed.
          bind_rule (Exits t)
            (call_server os gss fuel a.host a.port a.options.mech a.service a.message
              a.options.record_tokens _)
            _ (λ _ _. tt) tt tt
            (elim [
              | failure ↦ λ u _. inr refl
              | success ↦ λ u run. inl (
                refl,
                (
                  a,
                  v,
                  parsed,
                  call_server-Confirmed os gss fuel a.host a.port a.options.mech a.service a.message
                      a.options.record_tokens _ u run,
                ),
              )
            ])

  -- If `main` of the GSS-API client returns, it returns 1, or it returns 0 and, with the message
  -- that parse_args read from the command line, for some context: the newest call of
  -- gss_init_sec_context returned that context with GSS_S_COMPLETE, the newest call of gss_wrap
  -- was given it and the message with its terminating NUL, and the newest call of gss_verify_mic,
  -- with both, returned GSS_S_COMPLETE.
  pub main-IsConfirmed :
      (t u : Trace) (n : ℕ)
      → main os gss fuel getopt argv t ≡ done n u
      → ((n ≡ 0) × IsConfirmed t u) ⊎ (n ≡ 1)
  main-IsConfirmed t u n e = rw e at (main-Exits t)
