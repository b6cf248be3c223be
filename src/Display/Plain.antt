-- ===== src/Display/Plain.antt =====
-- Printing flags and status codes makes plain calls alone.
use Prim.Native.String.{String}
use kerberos.Base.{ℕ, zero, suc, ◌∙◌, inl, inr, ◌∷◌, arith, ◌==◌, Bool-cases}
use kerberos.World.{
  pure, Bytes, Major, StatusValue, Event, Trace, Gss, Ignores, IgnoresInput,
  IgnoresInput-of_Ignores, Keeps, Keeps-bind, Keeps-from, Keeps-if,
}
use kerberos.Display.{
  is_complete, show_message, display_context_flags, display_status_loop, display_status_aux,
  display_status,
}

module _ {C : Type 0} (f : Trace → C) (I : IgnoresInput f) (gss : Gss) where
  pub display_context_flags-KeepsInput :
      (flags : ℕ) (t : Trace) → Keeps f t (display_context_flags gss flags t)
  unfolding display_context_flags
  display_context_flags-KeepsInput flags t = grind (arith, I.printf)

  show_message-Keeps :
      (msg : String) (value : StatusValue) (text : Bytes) (t : Trace)
      → Keeps f t (show_message gss msg value text t)
  unfolding show_message
  show_message-Keeps msg value text t = grind (arith, I.printf)

  display_status_loop-Keeps :
      (fuel : ℕ) (msg : String) (value : StatusValue) (more : ℕ) (t : Trace)
      → Keeps f t (display_status_loop gss fuel msg value more t)
  unfolding display_status_loop
  display_status_loop-Keeps zero msg value more t = tt
  display_status_loop-Keeps (suc fuel) msg value more t =
      let r = gss.display_status t value more in
      let u = Event.gss_display_status value more r ∷ t in
      elim (Bool-cases (is_complete r.major)) [
        | inl e ↦ rw e (
            Keeps-from f t u _ (I.display value more r t) (
              Keeps-bind f u (show_message gss msg value r.text u) _
                (show_message-Keeps msg value r.text u)
                λ a v h.
                  Keeps-if f u (Event.gss_release_buffer r.text ∷ v) (r.more == 0) (pure tt)
                    (display_status_loop gss fuel msg value r.more) (I.release r.text v ∙ h)
                    (Keeps-from f u (Event.gss_release_buffer r.text ∷ v) _ (I.release r.text v ∙ h)
                      (display_status_loop-Keeps fuel msg value r.more
                        (Event.gss_release_buffer r.text ∷ v)))))
        | inr e ↦ rw e (I.printf _ _ u ∙ I.display value more r t)
      ]

  pub display_status-KeepsInput :
      (fuel : ℕ) (msg : String) (major : Major) (minor : ℕ) (t : Trace)
      → Keeps f t (display_status gss fuel msg major minor t)
  unfolding display_status display_status_aux
  display_status-KeepsInput fuel msg major minor t = grind (arith, display_status_loop-Keeps fuel)

module _ {C : Type 0} (f : Trace → C) (I : Ignores f) (gss : Gss) where
  pub display_context_flags-Keeps :
      (flags : ℕ) (t : Trace) → Keeps f t (display_context_flags gss flags t)
  display_context_flags-Keeps = display_context_flags-KeepsInput f (IgnoresInput-of_Ignores f I) gss

  pub display_status-Keeps :
      (fuel : ℕ) (msg : String) (major : Major) (minor : ℕ) (t : Trace)
      → Keeps f t (display_status gss fuel msg major minor t)
  display_status-Keeps = display_status-KeepsInput f (IgnoresInput-of_Ignores f I) gss
