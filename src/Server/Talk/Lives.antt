-- ===== src/Server/Talk/Lives.antt =====
-- The conversation of application/gssapi/server.c against the step relation of Session, with a
-- mechanism that needs one token from the client, while no write and no call on the message fails.
use kerberos.Base.{ℕ, ◌≡◌, ◌∙◌, Bool, true, false, ◌⊎◌, some, arith}
use kerberos.World.{
  Bytes, Status, success, failure, Context, AcceptArgs, Trace, Os, Gss, Run, done, exited, fault,
  hung, Prog, and_then,
}
use kerberos.Wire.{send_token}
use kerberos.Wire.Plain.{send_token-Keeps, recv_token-Keeps}
use kerberos.Wire.Sends.{AcceptsWrites, send_token-Sends}
use kerberos.Display.{is_complete, is_continue}
use kerberos.Session.{Life, fresh, ready, gone, Follows}
use kerberos.Session.Monitor.{life, life-Ignores, uses-ready, deletes-ready}
use kerberos.Session.Paths.{Follows-life}
use kerberos.Server.Context.{Established, refused, established, establish_context}
use kerberos.Session.Runs.{IsLawful, Ends, of_Ends}
use kerberos.Server.Context.Lives.{Lives, sent-bind, establish_context-Lives}
use kerberos.Server.Talk.{delete_if_failed, send_mic, sign_token, sign_message, serve}

module _ (os : Os) (gss : Gss) (fuel fd : ℕ) (ctx : Context) (accepted : AcceptsWrites os fd)
    (unwrapped : (t : Trace) (c : Context) (b : Bytes)
      → is_complete (gss.unwrap t c b).major ≡ true)
    (signed : (t : Trace) (c : Context) (b : Bytes)
      → is_complete (gss.get_mic t c b).major ≡ true) where
  -- With a token signed the context is still there, otherwise it is deleted.
  abbrev Signs : Run Status → Type 0
  Signs (done success u) = life u ≡ some (ready ctx)
  Signs (done failure u) = life u ≡ some gone
  Signs (exited n u) = ⊥
  Signs fault = Unit
  Signs hung = Unit

  send_mic-Signs :
      (mic : Bytes) (t : Trace)
      → life t ≡ some (ready ctx)
      → Signs (send_mic os gss fuel fd ctx mic t)
  unfolding send_mic life
  send_mic-Signs mic t h =
      sent-bind Signs t (send_token os fuel fd mic t) _ tt tt
        (send_token-Keeps life life-Ignores os fuel fd mic t)
        (send_token-Sends os fd accepted fuel mic t) (λ u e. e ∙ h)

  sign_token-Signs :
      (tok : Bytes) (t : Trace)
      → life t ≡ some (ready ctx)
      → Signs (sign_token os gss fuel fd ctx tok t)
  unfolding sign_token delete_if_failed life
  sign_token-Signs tok t h = grind (arith, unwrapped, signed, uses-ready ctx, send_mic-Signs)

  sign_message-Signs :
      (t : Trace) → life t ≡ some (ready ctx) → Signs (sign_message os gss fuel fd ctx t)
  unfolding sign_message life
  sign_message-Signs t h =
      grind
        (arith, recv_token-Keeps life life-Ignores os fuel fd, deletes-ready ctx, sign_token-Signs)

module _ (os : Os) (gss : Gss) (fuel cfd server_creds : ℕ) (on : Bool)
    (single : (t : Trace) (args : AcceptArgs)
      → is_continue (gss.accept_sec_context t args).major ≡ false)
    (unwrapped : (t : Trace) (c : Context) (b : Bytes)
      → is_complete (gss.unwrap t c b).major ≡ true)
    (signed : (t : Trace) (c : Context) (b : Bytes) → is_complete (gss.get_mic t c b).major ≡ true)
    (accepted : AcceptsWrites os cfd) where
  Signs-bind :
      (ctx : Context) (r : Run Status) (k : Status → Prog Status)
      → Signs os gss fuel cfd ctx accepted unwrapped signed r
      → ((u : Trace) → life u ≡ some (ready ctx) → Ends (k success u))
      → ((u : Trace) → life u ≡ some gone → Ends (k failure u))
      → Ends (and_then r k)
  Signs-bind ctx (done success u) k h f g = f u h
  Signs-bind ctx (done failure u) k h f g = g u h
  Signs-bind ctx (exited n u) k h f g = absurd h
  Signs-bind ctx fault k h f g = tt
  Signs-bind ctx hung k h f g = tt

  Lives-bind :
      (r : Run Established) (k : Established → Prog Status)
      → Lives r
      → ((u : Trace) → IsLawful u → Ends (k refused u))
      → ((ctx : Context) (name : Bytes) (u : Trace)
          → life u ≡ some (ready ctx)
          → Ends (k (established ctx name) u))
      → Ends (and_then r k)
  Lives-bind (done refused u) k h f g = f u h
  Lives-bind (done (established ctx name) u) k h f g = g ctx name u h
  Lives-bind (exited n u) k h f g = absurd h
  Lives-bind fault k h f g = tt
  Lives-bind hung k h f g = tt

  serve-Ends : (t : Trace) → life t ≡ some fresh → Ends (serve os gss fuel cfd server_creds on t)
  unfolding serve life
  serve-Ends t h =
      Lives-bind (establish_context os gss fuel cfd server_creds on t) _
        (establish_context-Lives os gss fuel cfd server_creds on single accepted t h) (λ u l. l)
        (λ ctx name u r.
          Signs-bind ctx (sign_message os gss fuel cfd ctx _) _
            (sign_message-Signs os gss fuel cfd ctx accepted unwrapped signed _ r)
            (λ v l. rw l (deletes-ready ctx)) (λ v l n. cc))

  -- With a mechanism that never asks for a further token, a library that never refuses to unwrap
  -- or to sign, and a kernel whose `write` never reports an error on the connection and takes
  -- fewer than 2^31 bytes at a time: if no context has been begun before, and `serve` returns,
  -- then its calls of the GSS-API have led the context a life that the relation of Session allows,
  -- and with the result 0 the context has been deleted at the end.
  pub serve-Follows :
      (t u : Trace) (st : Status)
      → Follows t fresh
      → serve os gss fuel cfd server_creds on t ≡ done st u
      → (l : Life) × Follows u l × ((st ≡ failure) ⊎ (l ≡ gone))
  serve-Follows t u st f e = of_Ends st u (rw e at (serve-Ends t (Follows-life f)))
