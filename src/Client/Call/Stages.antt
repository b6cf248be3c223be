-- ===== src/Client/Call/Stages.antt =====
-- How the stages of call_server of application/gssapi/client.c record what they have done: each
-- one that succeeds has wrapped the message, and verified the server's tag for it, with the
-- context given.
use Prim.Native.String.{String}
use kerberos.Base.{
  ℕ, ◌≡◌, refl, ◌∙◌, ap, Bool, true, false, not, none, some, [], ◌∷◌, ◌++◌, if◌then◌else◌, arith,
}
use kerberos.World.{
  Argument, Bytes, Status, success, failure, Major, complete, Context, InquireReply, Event, Trace,
  Os, Gss, Run, done, exited, fault, hung, Prog, pure, ◌>>◌, and_then, printf, Keeps, if_rule,
  Protocol, protocol, protocol-Ignores,
}
use kerberos.Wire.{send_token, recv_token}
use kerberos.Wire.Plain.{send_token-Keeps, recv_token-Keeps}
use kerberos.Display.{is_complete, is_no_context, has_flag, display_context_flags, display_status}
use kerberos.Display.Plain.{display_status-Keeps, display_context_flags-Keeps}
use kerberos.Client.Call.{
  req_output_size, verify_reply, exchange, abandon, show_names, show_limits, inquire,
}

-- Success means that the context is the one of the newest `gss_init_sec_context`, which completed,
-- that the message was wrapped with it, and that it accepted the tag for that message.
abbrev pub Confirmed : Context → Bytes → Run Status → Type 0
Confirmed ctx input (done success u) =
    ((protocol u).init ≡ some (ctx, complete))
    × ((conf : Bool) × ((protocol u).wrapped ≡ some (ctx, conf, input)))
    × ((protocol u).verified ≡ some (ctx, input, complete))
Confirmed ctx input (done failure u) = Unit
Confirmed ctx input (exited n u) = ⊥
Confirmed ctx input fault = Unit
Confirmed ctx input hung = Unit

complete_of : (m : Major) → not (is_complete m) ≡ false → m ≡ complete
complete_of m h = ground arith

module _ (os : Os) (gss : Gss) (fuel sock : ℕ) (ctx : Context) where
  verify_reply-Confirmed :
      (conf : Bool) (input mic : Bytes) (t : Trace)
      → (protocol t).init ≡ some (ctx, complete)
      → (protocol t).wrapped ≡ some (ctx, conf, input)
      → Confirmed ctx input (verify_reply os gss fuel sock ctx input mic t)
  unfolding verify_reply protocol
  verify_reply-Confirmed conf input mic t h w =
      let v = gss.verify_mic t ctx input mic in
      let t' = Event.gss_verify_mic ctx input mic v ∷ t in
      let maj_stat = gss.delete_sec_context (Event.gss_release_buffer mic ∷ t') ctx in
      if_rule (Confirmed ctx input) t' (not (is_complete v.major)) _ _
        (λ bad. grind (arith, display_status-Keeps protocol protocol-Ignores gss fuel))
        (λ ok.
          if_rule (Confirmed ctx input)
            (Event.gss_delete_sec_context ctx maj_stat ∷ Event.gss_release_buffer mic ∷ t')
            (not (is_complete maj_stat)) _ _ (λ _. tt)
            (λ _. (h, (conf, w), ap (λ m. some (ctx, input, m)) (complete_of v.major ok))))

  -- The rule for a part that leaves the three calls alone.
  Confirmed-bind :
      {A : Type 0} (input : Bytes) (t : Trace) (r : Run A) (k : A → Prog Status)
      → Keeps protocol t r
      → ((a : A) (u : Trace) → protocol u ≡ protocol t → Confirmed ctx input (k a u))
      → Confirmed ctx input (and_then r k)
  Confirmed-bind input t (done a u) k h next = next a u h
  Confirmed-bind input t (exited n u) k h next = absurd h
  Confirmed-bind input t fault k h next = tt
  Confirmed-bind input t hung k h next = tt

  exchange-Confirmed :
      (flags : ℕ) (message : Bytes) (t : Trace)
      → (protocol t).init ≡ some (ctx, complete)
      → Confirmed ctx (message ++ (0 ∷ [])) (exchange os gss fuel sock ctx flags message t)
  unfolding exchange protocol
  exchange-Confirmed flags message t h =
      let input = message ++ (0 ∷ []) in
      let conf = has_flag flags gss.conf_flag in
      let w = gss.wrap t ctx conf input in
      let t' = Event.gss_wrap ctx conf input w ∷ t in
      if_rule (Confirmed ctx input) t' (not (is_complete w.major)) _ _
        (λ bad. grind (arith, display_status-Keeps protocol protocol-Ignores gss fuel))
        (λ ok.
          Confirmed-bind input t'
            ((if not w.conf
                then printf "client: Warning! No confidentiality provided !\n" []
                else pure tt)
              t')
            _ (if_rule (Keeps protocol t') t' (not w.conf) _ _ (λ _. refl) (λ _. refl))
            λ _ u e.
              Confirmed-bind input u (send_token os fuel sock w.output u) _
                (send_token-Keeps protocol protocol-Ignores os fuel sock w.output u)
                (elim [
                  | failure ↦ λ v e'. tt
                  | success ↦ λ v e'.
                      Confirmed-bind input v
                        (recv_token os fuel sock (Event.gss_release_buffer w.output ∷ v)) _
                        (recv_token-Keeps protocol protocol-Ignores os fuel sock
                          (Event.gss_release_buffer w.output ∷ v))
                        (elim [
                          | none ↦ λ x e''. tt
                          | some mic ↦ λ x e''.
                              let same : protocol x ≡ protocol t' = e'' ∙ e' ∙ e in
                              verify_reply-Confirmed conf input mic x
                                (ap (λ (p : Protocol). p.init) same ∙ h)
                                (ap (λ (p : Protocol). p.wrapped) same)
                        ])
                ]))

  -- A part that never returns 0.
  abbrev Fails : Run Status → Type 0
  Fails (done success u) = ⊥
  Fails (done failure u) = Unit
  Fails (exited n u) = ⊥
  Fails fault = Unit
  Fails hung = Unit

  Confirmed-of_Fails : (input : Bytes) (r : Run Status) → Fails r → Confirmed ctx input r
  Confirmed-of_Fails input (done success u) h = absurd h
  Confirmed-of_Fails input (done failure u) h = tt
  Confirmed-of_Fails input (exited n u) h = h
  Confirmed-of_Fails input fault h = tt
  Confirmed-of_Fails input hung h = tt

  -- An error is displayed, and what follows never returns 0.
  display_then :
      (input : Bytes) (msg : String) (major : Major) (minor : ℕ) (k : Prog Status) (t : Trace)
      → ((u : Trace) → Fails (k u))
      → Confirmed ctx input ((display_status gss fuel msg major minor >> k) t)
  display_then input msg major minor k t h =
      Confirmed-bind input t (display_status gss fuel msg major minor t) _
        (display_status-Keeps protocol protocol-Ignores gss fuel msg major minor t)
        λ _ u e. Confirmed-of_Fails input _ (h u)

  show_names-Confirmed :
      (q : InquireReply) (message : Bytes) (t : Trace)
      → (protocol t).init ≡ some (ctx, complete)
      → Confirmed ctx (message ++ (0 ∷ [])) (show_names os gss fuel sock ctx q message t)
  unfolding show_names protocol abandon
  show_names-Confirmed q message t h =
      let input = message ++ (0 ∷ []) in
      let s = gss.display_name t q.source in
      let t' = Event.gss_display_name q.source s ∷ t in
      let d = gss.display_name t' q.target in
      let t'' = Event.gss_display_name q.target d ∷ t' in
      if_rule (Confirmed ctx input) t' (not (is_complete s.major)) _ _
        (λ _. display_then input _ _ _ _ t' (λ u. tt))
        (λ _.
          if_rule (Confirmed ctx input) t'' (not (is_complete d.major)) _ _
            (λ _. display_then input _ _ _ _ t'' (λ u. tt))
            (λ _. exchange-Confirmed q.flags message _ h))

  show_limits-Confirmed :
      (q : InquireReply) (message : Bytes) (t : Trace)
      → (protocol t).init ≡ some (ctx, complete)
      → Confirmed ctx (message ++ (0 ∷ [])) (show_limits os gss fuel sock ctx q message t)
  unfolding show_limits protocol abandon
  show_limits-Confirmed q message t h =
      let input = message ++ (0 ∷ []) in
      let p = gss.wrap_size_limit t ctx false req_output_size in
      let t' = Event.gss_wrap_size_limit ctx false req_output_size p ∷ t in
      let t'' =
        Event.printf "client: max input size without confidentiality: %d\n"
          (Argument.number p.max_input ∷ [])
        ∷ t' in
      let s = gss.wrap_size_limit t'' ctx true req_output_size in
      let t''' = Event.gss_wrap_size_limit ctx true req_output_size s ∷ t'' in
      if_rule (Confirmed ctx input) t' (not (is_complete p.major)) _ _
        (λ _. display_then input _ _ _ _ t' (λ u. tt))
        (λ _.
          if_rule (Confirmed ctx input) t''' (not (is_complete s.major)) _ _
            (λ _. display_then input _ _ _ _ t''' (λ u. tt))
            (λ _. show_names-Confirmed q message _ h))

  pub inquire-Confirmed :
      (message : Bytes) (t : Trace)
      → (protocol t).init ≡ some (ctx, complete)
      → Confirmed ctx (message ++ (0 ∷ [])) (inquire os gss fuel sock ctx message t)
  unfolding inquire protocol
  inquire-Confirmed message t h =
      let input = message ++ (0 ∷ []) in
      let q = gss.inquire_context t ctx in
      let t' = Event.gss_inquire_context ctx q ∷ t in
      let t'' = Event.printf "client: context flags:\n" [] ∷ t' in
      if_rule (Confirmed ctx input) t' (is_no_context q.major) _ _ (λ _. tt)
        (λ _.
          if_rule (Confirmed ctx input) t' (not (is_complete q.major)) _ _
            (λ _. display_then input _ _ _ _ t' (λ u. tt))
            (λ _.
              Confirmed-bind input t'' (display_context_flags gss q.flags t'') _
                (display_context_flags-Keeps protocol protocol-Ignores gss q.flags t'')
                λ _ u e. show_limits-Confirmed q message u (ap (λ (p : Protocol). p.init) e ∙ h)))
