-- ===== src/Server/Talk/Signed.antt =====
-- What the status of sign_message of application/gssapi/server.c tells.
use kerberos.Base.{ℕ, ◌≡◌, refl, Option, none, some, arith}
use kerberos.World.{
  Bytes, Status, success, failure, Context, Trace, Os, Gss, Run, done, exited, fault, hung, Prog,
  and_then, Keeps, deleted, deleted-Ignores,
}
use kerberos.Wire.{recv_token}
use kerberos.Wire.Plain.{send_token-Keeps, recv_token-Keeps}
use kerberos.Server.Talk.{delete_if_failed, send_mic, sign_token, sign_message}

module _ (os : Os) (gss : Gss) (fuel fd : ℕ) where
  -- A run that returns returns 0.
  abbrev Succeeds : Run Status → Type 0
  Succeeds (done success u) = Unit
  Succeeds (done failure u) = ⊥
  Succeeds (exited n u) = ⊥
  Succeeds fault = Unit
  Succeeds hung = Unit

  send_mic-Succeeds :
      (context : Context) (mic : Bytes) (t : Trace)
      → Succeeds (send_mic os gss fuel fd context mic t)
  unfolding send_mic
  send_mic-Succeeds context mic t =
      grind (arith, send_token-Keeps deleted deleted-Ignores os fuel fd)

  Succeeds-bind :
      {A : Type 0} (t : Trace) (r : Run A) (k : A → Prog Status)
      → Keeps deleted t r
      → ((a : A) (u : Trace) → Succeeds (k a u))
      → Succeeds (and_then r k)
  Succeeds-bind t (done a u) k h next = next a u
  Succeeds-bind t (exited n u) k h next = absurd h
  Succeeds-bind t fault k h next = tt
  Succeeds-bind t hung k h next = tt

  -- `sign_message` fails only if `recv_token` does.
  abbrev Reports : Trace → Run Status → Type 0
  Reports t (done success u) = Unit
  Reports t (done failure u) = (v : Trace) × (recv_token os fuel fd t ≡ done none v)
  Reports t (exited n u) = ⊥
  Reports t fault = Unit
  Reports t hung = Unit

  Reports-of_Succeeds : (t : Trace) (r : Run Status) → Succeeds r → Reports t r
  Reports-of_Succeeds t (done success u) h = h
  Reports-of_Succeeds t (done failure u) h = absurd h
  Reports-of_Succeeds t (exited n u) h = h
  Reports-of_Succeeds t fault h = h
  Reports-of_Succeeds t hung h = h

  -- Once there is a token, the function returns 0.
  after_unwrap-Succeeds :
      (context : Context) (tok : Bytes) (t : Trace)
      → Succeeds ((sign_token os gss fuel fd context tok) t)
  unfolding sign_token delete_if_failed
  after_unwrap-Succeeds context tok t = grind (arith, send_mic-Succeeds)

  Reports-of_recv :
      (t : Trace) (r : Run (Option Bytes)) (k : Option Bytes → Prog Status)
      → recv_token os fuel fd t ≡ r
      → Keeps deleted t r
      → ((u : Trace) → recv_token os fuel fd t ≡ done none u → Reports t (k none u))
      → ((tok : Bytes) (u : Trace) → Reports t (k (some tok) u))
      → Reports t (and_then r k)
  Reports-of_recv t (done none u) k e h f g = f u e
  Reports-of_recv t (done (some tok) u) k e h f g = g tok u
  Reports-of_recv t (exited n u) k e h f g = absurd h
  Reports-of_recv t fault k e h f g = tt
  Reports-of_recv t hung k e h f g = tt

  sign_message-Reports :
      (context : Context) (t : Trace) → Reports t (sign_message os gss fuel fd context t)
  unfolding sign_message
  sign_message-Reports context t =
      Reports-of_recv t (recv_token os fuel fd t) _ refl
        (recv_token-Keeps deleted deleted-Ignores os fuel fd t) (λ u e. (u, e))
        (λ tok u. Reports-of_Succeeds t _ (after_unwrap-Succeeds context tok u))

  -- If `sign_message` returns -1, then `recv_token`, its first call, has returned -1.
  pub sign_message-recv_token :
      (context : Context) (t u : Trace)
      → sign_message os gss fuel fd context t ≡ done failure u
      → (v : Trace) × (recv_token os fuel fd t ≡ done none v)
  sign_message-recv_token context t u e = rw e at (sign_message-Reports context t)
