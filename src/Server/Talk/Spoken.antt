-- ===== src/Server/Talk/Spoken.antt =====
-- What the server of application/gssapi/server.c has sent on a connection that it serves with
-- success.
use kerberos.Base.{◌^◌, ◌<◌, length, ℕ, ◌≡◌, none, some, [], ◌∷◌, Bool, arith}
use kerberos.World.{
  AcceptArgs, bind_rule, Argument, Bytes, Status, success, failure, Context, Event, Trace, Os, Gss,
  Run, done, Prog, and_then,
}
use kerberos.Wire.{recv_token}
use kerberos.Wire.Plain.{recv_token-KeepsInput, recv_token-Keeps}
use kerberos.Wire.Writes.{sent}
use kerberos.Wire.Whole.{TakesWhole}
use kerberos.Wire.Outbox.{
  spoken, spoken-Ignores, sent-IgnoresInput, IsPaid, Owes, Pays-rule, send_token-Pays, IsPaid-Keeps,
  EndsPaid,
}
use kerberos.Server.Context.{Established, refused, established, establish_context}
use kerberos.Server.Context.Spoken.{Spoken, establish_loop-Spoken}
use kerberos.Server.Talk.{delete_if_failed, send_mic, sign_token, sign_message, serve}

module _ (os : Os) (gss : Gss) (fuel fd : ℕ) (whole : TakesWhole os fd)
    (short : (t : Trace) (args : AcceptArgs)
      → length (gss.accept_sec_context t args).output < 2 ^ 31)
    (tagged : (t : Trace) (ctx : Context) (input : Bytes)
      → length (gss.get_mic t ctx input).output < 2 ^ 31) where
  send_mic-EndsPaid :
      (context : Context) (mic : Bytes) (t : Trace)
      → length mic < 2 ^ 31
      → Owes fd mic t
      → EndsPaid fd (send_mic os gss fuel fd context mic t)
  unfolding send_mic sent spoken
  send_mic-EndsPaid context mic t small owed =
      Pays-rule fd _ _ (EndsPaid fd) (λ n u. tt) tt tt
        (send_token-Pays os fd fuel mic t whole small owed) (λ u p. p)

  sign_token-EndsPaid :
      (context : Context) (tok : Bytes) (t : Trace)
      → IsPaid fd t
      → EndsPaid fd (sign_token os gss fuel fd context tok t)
  unfolding sign_token delete_if_failed sent spoken
  sign_token-EndsPaid context tok t paid = grind (arith, tagged, send_mic-EndsPaid)

  sign_message-EndsPaid :
      (context : Context) (t : Trace)
      → IsPaid fd t
      → EndsPaid fd (sign_message os gss fuel fd context t)
  unfolding sign_message sent spoken
  sign_message-EndsPaid context t paid =
      IsPaid-Keeps fd t (recv_token os fuel fd t) _ (EndsPaid fd) (λ n u. tt) tt tt paid
        (recv_token-KeepsInput (sent fd) (sent-IgnoresInput fd) os fuel fd t)
        (recv_token-Keeps spoken spoken-Ignores os fuel fd t)
        (elim [ none ↦ λ u p. tt | some tok ↦ λ u p. sign_token-EndsPaid context tok u p ])

  Spoken-bind :
      (r : Run Established) (k : Established → Prog Status)
      → Spoken fd r
      → ((u : Trace) → EndsPaid fd (k refused u))
      → ((context : Context) (name : Bytes) (u : Trace)
          → IsPaid fd u
          → EndsPaid fd (k (established context name) u))
      → EndsPaid fd (and_then r k)
  Spoken-bind r k h f g =
      bind_rule (EndsPaid fd) r k (λ _ _. tt) tt tt
        (elim [
          | refused ↦ λ u e. f u
          | established context name ↦ λ u e. g context name u (rw e at h)
        ])

  EndsPaid-bind :
      (r : Run Status) (k : Status → Prog Status)
      → EndsPaid fd r
      → ((u : Trace) → EndsPaid fd (k failure u))
      → ((u : Trace) → IsPaid fd u → EndsPaid fd (k success u))
      → EndsPaid fd (and_then r k)
  EndsPaid-bind r k h f g =
      bind_rule (EndsPaid fd) r k (λ _ _. tt) tt tt
        (elim [ failure ↦ λ u e. f u | success ↦ λ u e. g u (rw e at h) ])

  serve-EndsPaid :
      (creds : ℕ) (on : Bool) (t : Trace)
      → IsPaid fd t
      → EndsPaid fd (serve os gss fuel fd creds on t)
  unfolding serve establish_context sent spoken
  serve-EndsPaid creds on t paid =
      Spoken-bind (establish_context os gss fuel fd creds on t) _
        (establish_loop-Spoken os gss fuel fd creds on whole short fuel 0 t paid) (λ u. tt)
        (λ context name u p.
          EndsPaid-bind
            (sign_message os gss fuel fd context (
              Event.gss_release_buffer name
              ∷ Event.printf "server: context established with: %s\n" (Argument.bytes name ∷ [])
              ∷ u))
            _ (sign_message-EndsPaid context _ p) (λ v. tt) (λ v q. q))

  -- With a kernel that takes whole what it is given to write on the connection, below 2^31 bytes,
  -- and a library whose tokens and tags are shorter than that: if nothing was owed to the peer
  -- before, and `serve` returns 0, then what the connection has been sent in all is what the
  -- library has made for the peer in all (`spoken`): tokens of the establishment that are not
  -- empty and the tag, each in its frame, in the order in which they were made.
  pub serve-spoken :
      (creds : ℕ) (on : Bool) (t u : Trace)
      → sent fd t ≡ spoken t
      → serve os gss fuel fd creds on t ≡ done success u
      → sent fd u ≡ spoken u
  serve-spoken creds on t u paid e = rw e at (serve-EndsPaid creds on t paid)
