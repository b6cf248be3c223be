-- ===== src/Display/Order.antt =====
-- The order in which display_status of application/gssapi/utils.c shows the messages of a status.
use Prim.Native.String.{String}
use kerberos.Base.{
  zero_test, ℕ, zero, suc, ◌<◌, ◌≡◌, refl, sym, ap, ◌∙◌, List, [], ◌∷◌, ◌++◌, append_assoc, arith,
  ◌==◌, if◌then◌else◌, length,
}
use kerberos.World.{
  Argument, Bytes, Major, StatusValue, gss_code, mech_code, complete, Event, Trace, Gss, done, pure,
}
use kerberos.Display.{
  api_name, show_message, display_status_loop, display_status_aux, display_status,
}

-- The arguments of the lines printed, the newest first.
unfoldable pub lines : Trace → List (List Argument)
lines [] = []
lines (Event.printf _ arguments ∷ t) = arguments ∷ lines t
lines (_ ∷ t) = lines t

module _ (gss : Gss) (msg : String) (value : StatusValue) where
  -- The line for one text: an empty text has none.
  abbrev pub line : Bytes → List (List Argument)
  line text =
      if length text == 0
      then []
      else (Argument.text (api_name gss value) ∷ Argument.text msg ∷ Argument.bytes text ∷ []) ∷ []

  -- The lines for the texts of a status, the newest first.
  unfoldable pub report : List Bytes → List (List Argument)
  report [] = []
  report (text ∷ rest) = report rest ++ line text

  -- The trace behind one text.
  abbrev pub after_text : Trace → ℕ → Trace
  after_text t more =
      let r = gss.display_status t value more in
      let v = Event.gss_display_status value more r ∷ t in
      Event.gss_release_buffer r.text
      ∷ (if length r.text == 0
          then v
          else Event.printf "GSS-API ERROR (%s): %s: %s\n"
              (Argument.text (api_name gss value) ∷ Argument.text msg ∷ Argument.bytes r.text ∷ [])
            ∷ v)

  -- The library has these texts for the status, from the message context `more` on: the message
  -- context that it returns is 0 with the last text, and only with the last text.
  abbrev pub Texts : Trace → ℕ → Bytes → List Bytes → Type 0
  Texts t more text [] =
      let r = gss.display_status t value more in
      (r.major ≡ complete) × (r.text ≡ text) × (r.more ≡ 0)
  Texts t more text (next ∷ rest) =
      let r = gss.display_status t value more in
      (r.major ≡ complete)
      × (r.text ≡ text)
      × (0 < r.more)
      × Texts (after_text t more) r.more next rest

  lines-after_text :
      (t : Trace) (more : ℕ)
      → lines (after_text t more) ≡ line (gss.display_status t value more).text ++ lines t
  unfolding lines
  lines-after_text t more = grind arith

  display_status_loop-next :
      (fuel more : ℕ) (t : Trace)
      → (gss.display_status t value more).major ≡ complete
      → display_status_loop gss (suc fuel) msg value more t
        ≡ (if (gss.display_status t value more).more == 0
              then pure tt
              else display_status_loop gss fuel msg value (gss.display_status t value more).more)
            (after_text t more)
  unfolding display_status_loop show_message
  display_status_loop-next fuel more t e = grind arith

  display_status_loop-report :
      (fuel more : ℕ) (text : Bytes) (rest : List Bytes) (t : Trace)
      → Texts t more text rest
      → length rest < fuel
      → (u : Trace) × (display_status_loop gss fuel msg value more t ≡ done tt u)
        × (lines u ≡ report (text ∷ rest) ++ lines t)
  unfolding report
  display_status_loop-report zero more text rest t k enough = absurd (omega (arith, enough))
  display_status_loop-report (suc fuel) more text [] t (ok, same, last) enough = (
    after_text t more,
    simp (display_status_loop-next fuel more t ok, last),
    lines-after_text t more ∙ rw same refl,
  )
  display_status_loop-report (suc fuel) more text (next ∷ rest) t (ok, same, onward, k) enough =
      let r = gss.display_status t value more in
      let (u, run, shown) =
        display_status_loop-report fuel r.more next rest (after_text t more) k (omega arith) in
      (
        u,
        simp (display_status_loop-next fuel more t ok, zero_test r.more onward, run),
        shown
            ∙ ap (λ ls. report (next ∷ rest) ++ ls) (lines-after_text t more ∙ rw same refl)
            ∙ sym (append_assoc (report (next ∷ rest)) (line text) (lines t)),
      )

-- If the library has the texts `text ∷ rest` for the major status and then `text' ∷ rest'` for the
-- minor status, each with the message contexts that lead through them, and the fuel is above the
-- lengths of `rest` and `rest'`, `display_status` returns, and has printed one line for each of
-- the texts that is not empty, in their order, those of the major status first.
pub display_status-report :
    (gss : Gss) (fuel : ℕ) (msg : String) (major : Major) (minor : ℕ) (text text' : Bytes)
    (rest rest' : List Bytes) (t : Trace)
    → Texts gss msg (gss_code major) t 0 text rest
    → ((u : Trace)
        → display_status_aux gss fuel msg (gss_code major) t ≡ done tt u
        → Texts gss msg (mech_code minor) u 0 text' rest')
    → length rest < fuel
    → length rest' < fuel
    → (u : Trace) × (display_status gss fuel msg major minor t ≡ done tt u)
      × (lines u
          ≡ report gss msg (mech_code minor) (text' ∷ rest')
            ++ (report gss msg (gss_code major) (text ∷ rest) ++ lines t))
unfolding display_status display_status_aux
display_status-report gss fuel msg major minor text text' rest rest' t k k' enough enough' =
    let (u, run, shown) =
      display_status_loop-report gss msg (gss_code major) fuel 0 text rest t k enough in
    let (u', run', shown') =
      display_status_loop-report gss msg (mech_code minor) fuel 0 text' rest' u (k' u run)
        enough' in
    (
      u',
      rw (run, run'),
      shown' ∙ ap (λ ls. report gss msg (mech_code minor) (text' ∷ rest') ++ ls) shown,
    )
