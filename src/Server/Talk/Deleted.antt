-- ===== src/Server/Talk/Deleted.antt =====
-- What sign_message of application/gssapi/server.c deletes when it cannot unwrap the message.
use Prim.Native.String.{String}
use kerberos.Base.{
  ℕ, suc, ◌≡◌, refl, ap, ◌∙◌, Bool, Option, true, false, not, none, some, List, [], ◌∷◌, ◌++◌,
  replicate, if◌then◌else◌,
}
use kerberos.World.{
  Argument, Bytes, Status, success, failure, Major, complete, Context, Event, Trace, Os, Gss, Run,
  done, exited, fault, hung, Prog, pure, gss_get_mic, gss_release_buffer, ◌>>=◌, ◌>>◌, printf,
  and_then, Keeps, if_rule, deleted, deleted-Ignores,
}
use kerberos.Wire.{send_token, recv_token}
use kerberos.Wire.Plain.{send_token-Keeps, recv_token-Keeps}
use kerberos.Display.{is_complete}
use kerberos.Server.Talk.{delete_if_failed, send_mic, sign_token, sign_message}

-- Behind the contexts `base`, only handles of no context have been deleted.
abbrev NonesOver : List Context → Trace → Type 0
NonesOver base u = (n : ℕ) × (deleted u ≡ replicate n none ++ base)

one_more :
    (base : List Context) (t : Trace) (m : Major)
    → NonesOver base t
    → NonesOver base (Event.gss_delete_sec_context none m ∷ t)
unfolding deleted
one_more base t m (n, e) = (suc n, ap (λ l. none ∷ l) e)

-- A run that returns returns 0 and deletes nothing else.
abbrev Leaves : List Context → Run Status → Type 0
Leaves base (done success u) = NonesOver base u
Leaves base (done failure u) = ⊥
Leaves base (exited n u) = ⊥
Leaves base fault = Unit
Leaves base hung = Unit

Leaves-of_Keeps :
    {A : Type 0} (base : List Context) (t : Trace) (r : Run A) (k : A → Prog Status)
    → NonesOver base t
    → Keeps deleted t r
    → ((a : A) (u : Trace) → NonesOver base u → Leaves base (k a u))
    → Leaves base (and_then r k)
Leaves-of_Keeps base t (done a u) k (n, e) h next = next a u (n, h ∙ e)
Leaves-of_Keeps base t (exited n u) k d h next = absurd h
Leaves-of_Keeps base t fault k d h next = tt
Leaves-of_Keeps base t hung k d h next = tt

module _ (os : Os) (gss : Gss) (fuel fd : ℕ) (base : List Context) where
  send_mic-Leaves :
      (mic : Bytes) (t : Trace)
      → NonesOver base t
      → Leaves base (send_mic os gss fuel fd none mic t)
  unfolding send_mic deleted
  send_mic-Leaves mic t d =
      Leaves-of_Keeps base t (send_token os fuel fd mic t) _ d
        (send_token-Keeps deleted deleted-Ignores os fuel fd mic t)
        (elim [ failure ↦ λ u (n, e). (suc n, ap (λ l. none ∷ l) e) | success ↦ λ u d'. d' ])

  -- A handle of no context stays one, whether it could be deleted or not.
  kept_none : (b : Bool) (c : Context) → c ≡ none → (if b then none else c) ≡ none
  kept_none false c e = e
  kept_none true c e = refl

  -- A deletion of no context, or none.
  delete_if_failed-Leaves :
      (major : Major) (text : String) (k : Context → Prog Status) (t : Trace)
      → NonesOver base t
      → ((c : Context) (u : Trace) → c ≡ none → NonesOver base u → Leaves base (k c u))
      → Leaves base (and_then (delete_if_failed os gss fuel major text none t) k)
  unfolding delete_if_failed deleted
  delete_if_failed-Leaves major text k t (n, e) next =
      if_rule (λ r. Leaves base (and_then r k)) t (not (is_complete major)) _ _
        (λ _. next _ _ (kept_none _ none refl) (suc n, ap (λ l. none ∷ l) e))
        (λ _. next none t refl (n, e))

module _ (os : Os) (gss : Gss) (fuel fd : ℕ) (context : Context) where
  -- What follows the deletion of the context in `sign_token`.
  rest-Leaves :
      (after : Context) (conf : Bool) (tok : Bytes) (output : Option Bytes) (base : List Context)
      (t : Trace)
      → after ≡ none
      → NonesOver base t
      → Leaves base (
          (do
            if not conf then printf "Warning ! message not encrypted!\n" [] else pure tt
            gss_release_buffer tok
            printf "server: received message:\n" []
            elim output [
              | none ↦ λ _. fault
              | some message ↦ do
                printf "%s\n" (Argument.bytes message ∷ [])
                m ← gss_get_mic gss after message
                gss_release_buffer message
                after_mic ←
                    delete_if_failed os gss fuel m.major "server: gss_get_mic failed\n" after
                send_mic os gss fuel fd after_mic m.output
            ])
            t)
  unfolding deleted
  rest-Leaves after conf tok none base t e d =
      Leaves-of_Keeps base t
        ((if not conf then printf "Warning ! message not encrypted!\n" [] else pure tt) t) _ d
        (if_rule (Keeps deleted t) t (not conf) _ _ (λ _. refl) (λ _. refl)) (λ _ u d'. tt)
  rest-Leaves after conf tok (some message) base t e d =
      Leaves-of_Keeps base t
        ((if not conf then printf "Warning ! message not encrypted!\n" [] else pure tt) t) _ d
        (if_rule (Keeps deleted t) t (not conf) _ _ (λ _. refl) (λ _. refl))
        λ _ u d'. rw e (
          delete_if_failed-Leaves os gss fuel fd base _ _ _ _ d'
            (λ c v e' h. rw e' (send_mic-Leaves os gss fuel fd base _ v h)))

  sign_token-Leaves :
      (tok : Bytes) (t : Trace)
      → ((s : Trace) → gss.delete_sec_context s context ≡ complete)
      → is_complete (gss.unwrap t context tok).major ≡ false
      → Leaves (context ∷ deleted t) (sign_token os gss fuel fd context tok t)
  unfolding sign_token delete_if_failed deleted
  sign_token-Leaves tok t deletes bad =
      let w = gss.unwrap t context tok in
      rw bad (rest-Leaves _ w.conf tok w.output (context ∷ deleted t) _ (rw deletes refl) (0, refl))

  of_Leaves :
      (base : List Context) (st : Status) (u : Trace)
      → Leaves base (done st u)
      → (st ≡ success) × NonesOver base u
  of_Leaves base success u h = (refl, h)
  of_Leaves base failure u h = absurd h

  -- If `recv_token` delivers a message that gss_unwrap refuses, and gss_delete_sec_context
  -- succeeds on the context, `sign_message`, if it returns, returns 0, and the contexts that it
  -- has deleted are the one it was given and, after that, only handles of no context.
  pub sign_message-deleted :
      (tok : Bytes) (t v u : Trace) (st : Status)
      → ((s : Trace) → gss.delete_sec_context s context ≡ complete)
      → recv_token os fuel fd t ≡ done (some tok) v
      → is_complete (gss.unwrap v context tok).major ≡ false
      → sign_message os gss fuel fd context t ≡ done st u
      → (st ≡ success) × ((n : ℕ) × (deleted u ≡ replicate n none ++ (context ∷ deleted t)))
  unfolding sign_message
  sign_message-deleted tok t v u st deletes received bad e =
      let same : deleted v ≡ deleted t =
        rw received at (recv_token-Keeps deleted deleted-Ignores os fuel fd t) in
      let run : sign_token os gss fuel fd context tok v ≡ done st u = rw received at e in
      let (ok, (n, d)) = of_Leaves _ st u (rw run at (sign_token-Leaves tok v deletes bad)) in
      (ok, (n, d ∙ ap (λ l. replicate n none ++ (context ∷ l)) same))
