-- ===== src/Server/Talk/Plain.antt =====
-- sign_message of application/gssapi/server.c as a sequence of plain calls.
use kerberos.Base.{ℕ, ◌≡◌, ◌∙◌, none, some, ◌∷◌, arith}
use kerberos.World.{
  Bytes, Major, Context, UnwrapReply, MicReply, Event, Trace, Os, Gss, Ignores, Keeps, Keeps-then,
}
use kerberos.Wire.Plain.{send_token-Keeps, recv_token-Keeps}
use kerberos.Server.Talk.{delete_if_failed, send_mic, sign_token, sign_message}

-- `f` is not read off the calls that take an established context.
pub record IgnoresSigning {C : Type 0} (f : Trace → C) : Type 0 where
  pub unwrap :
      (context : Context) (input : Bytes) (r : UnwrapReply) (t : Trace)
      → f (Event.gss_unwrap context input r ∷ t) ≡ f t
  pub get_mic :
      (context : Context) (input : Bytes) (r : MicReply) (t : Trace)
      → f (Event.gss_get_mic context input r ∷ t) ≡ f t
  pub delete :
      (context : Context) (r : Major) (t : Trace)
      → f (Event.gss_delete_sec_context context r ∷ t) ≡ f t

module _ {C : Type 0} (f : Trace → C) (I : Ignores f) (G : IgnoresSigning f) (os : Os) (gss : Gss)
    (fuel fd : ℕ) where
  send_mic-Keeps :
      (context : Context) (mic : Bytes) (t : Trace)
      → Keeps f t (send_mic os gss fuel fd context mic t)
  unfolding send_mic
  send_mic-Keeps context mic t =
      grind (arith, send_token-Keeps f I os fuel fd, I.printf, I.release, G.delete)

  sign_token-Keeps :
      (context : Context) (tok : Bytes) (t : Trace)
      → Keeps f t (sign_token os gss fuel fd context tok t)
  unfolding sign_token delete_if_failed
  sign_token-Keeps context tok t =
      grind (arith, send_mic-Keeps, I.printf, I.release, G.unwrap, G.get_mic, G.delete)

  pub sign_message-Keeps :
      (context : Context) (t : Trace) → Keeps f t (sign_message os gss fuel fd context t)
  unfolding sign_message
  sign_message-Keeps context t = Keeps-then f t _ _ (recv_token-Keeps f I os fuel fd t) (elim [
    | none ↦ λ u. G.delete _ _ _ ∙ I.printf _ _ u
    | some tok ↦ λ u. sign_token-Keeps context tok u
  ])
