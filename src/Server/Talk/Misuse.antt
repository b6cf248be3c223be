-- ===== src/Server/Talk/Misuse.antt =====
-- What sign_message of application/gssapi/server.c does with a context once it cannot unwrap the
-- message is against the step relation of Session.
use kerberos.Base.{ℕ, ◌≡◌, refl, false, Option, none, some, arith}
use kerberos.World.{Bytes, Status, Context, Trace, Os, Gss, Run, done, exited, fault, hung}
use kerberos.Wire.{recv_token}
use kerberos.Wire.Plain.{send_token-Keeps}
use kerberos.Display.{is_complete}
use kerberos.Session.{Life, fresh, pending, ready, broken, gone, Follows}
use kerberos.Session.Monitor.{life, life-Ignores, uses, deletes}
use kerberos.Session.Paths.{Follows-life}
use kerberos.Server.Talk.{delete_if_failed, send_mic, sign_token, sign_message}

uses-gone : (context : Context) → uses context (some gone) ≡ none
unfolding uses
uses-gone context = refl

uses-none : (context : Context) → uses context none ≡ none
unfolding uses
uses-none context = refl

deletes-none : (context : Context) → deletes context none ≡ none
unfolding deletes
deletes-none context = refl

-- No context can be used right after a deletion.
uses-deletes : (c d : Context) (o : Option Life) → uses d (deletes c o) ≡ none
unfolding uses deletes
uses-deletes c d none = refl
uses-deletes c d (some fresh) = refl
uses-deletes c d (some (pending held)) = ground arith
uses-deletes c d (some (ready held)) = ground arith
uses-deletes c d (some (broken held)) = ground arith
uses-deletes c d (some gone) = refl

-- If the run returns, some call is against the relation.
abbrev Misuses : Run Status → Type 0
Misuses (done st u) = life u ≡ none
Misuses (exited n u) = Unit
Misuses fault = Unit
Misuses hung = Unit

module _ (os : Os) (gss : Gss) (fuel fd : ℕ) where
  send_mic-Misuses :
      (context : Context) (mic : Bytes) (t : Trace)
      → life t ≡ none
      → Misuses (send_mic os gss fuel fd context mic t)
  unfolding send_mic life
  send_mic-Misuses context mic t h =
      grind (arith, send_token-Keeps life life-Ignores os fuel fd, deletes-none)

  sign_token-Misuses :
      (context : Context) (tok : Bytes) (t : Trace)
      → is_complete (gss.unwrap t context tok).major ≡ false
      → Misuses (sign_token os gss fuel fd context tok t)
  unfolding sign_token delete_if_failed life
  sign_token-Misuses context tok t bad = grind (arith, uses-deletes, deletes-none, send_mic-Misuses)

  -- If `recv_token` delivers a message that gss_unwrap refuses, and `sign_message` returns, then
  -- the calls so far have not led the context a life that the relation of Session allows.
  pub sign_message-not-Follows :
      (context : Context) (tok : Bytes) (t v u : Trace) (st : Status) (l : Life)
      → recv_token os fuel fd t ≡ done (some tok) v
      → is_complete (gss.unwrap v context tok).major ≡ false
      → sign_message os gss fuel fd context t ≡ done st u
      → ¬ Follows u l
  unfolding sign_message
  sign_message-not-Follows context tok t v u st l received bad e f =
      let run : sign_token os gss fuel fd context tok v ≡ done st u = rw received at e in
      let n : life u ≡ none = rw run at (sign_token-Misuses context tok v bad) in
      cc (Follows-life f)
