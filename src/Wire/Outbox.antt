-- ===== src/Wire/Outbox.antt =====
-- What the programs of application/gssapi have to say to each other, and what they have sent.
use kerberos.Base.{
  ◌^◌, ◌<◌, ℕ, ◌≡◌, refl, sym, ◌∙◌, not, ◌&&◌, ◌||◌, [], ◌∷◌, ◌++◌, ◌==◌, if◌then◌else◌, length,
}
use kerberos.World.{
  Bytes, Status, success, failure, Event, Trace, Os, Run, done, exited, fault, hung, Prog, and_then,
  Keeps, Ignores, IgnoresInput,
}
use kerberos.Display.{is_complete, is_continue}
use kerberos.Wire.{send_token}
use kerberos.Wire.Plain.{send_token-Keeps}
use kerberos.Wire.Writes.{sent}
use kerberos.Wire.Tokens.{frame}
use kerberos.Wire.Whole.{SendsBytes, TakesWhole, send_token-SendsBytes}

-- The tokens that the library has made for the peer, each in its frame, the oldest first: those of
-- the establishment of a context that are not empty and come without an error, wrapped messages,
-- and tags.
unfoldable pub spoken : Trace → Bytes
spoken [] = []
spoken (Event.gss_init_sec_context _ r ∷ t) =
    if (is_complete r.major || is_continue r.major) && not (length r.output == 0)
    then spoken t ++ frame r.output
    else spoken t
spoken (Event.gss_wrap _ _ _ r ∷ t) =
    if is_complete r.major then spoken t ++ frame r.output else spoken t
spoken (Event.gss_accept_sec_context _ r ∷ t) =
    if (is_complete r.major || is_continue r.major) && not (length r.output == 0)
    then spoken t ++ frame r.output
    else spoken t
spoken (Event.gss_get_mic _ _ r ∷ t) = spoken t ++ frame r.output
spoken (_ ∷ t) = spoken t

pub spoken-Ignores : Ignores spoken
unfolding spoken
spoken-Ignores = record {
  read = λ _ _ _ _. refl;
  write = λ _ _ _ _. refl;
  malloc = λ _ _. refl;
  fopen = λ _ _ _. refl;
  fwrite = λ _ _ _. refl;
  fclose = λ _. refl;
  printf = λ _ _ _. refl;
  display = λ _ _ _ _. refl;
  release = λ _ _. refl;
}

pub sent-IgnoresInput : (fd : ℕ) → IgnoresInput (sent fd)
unfolding sent
sent-IgnoresInput fd = record {
  read = λ _ _ _ _. refl;
  malloc = λ _ _. refl;
  fopen = λ _ _ _. refl;
  fwrite = λ _ _ _. refl;
  fclose = λ _. refl;
  printf = λ _ _ _. refl;
  display = λ _ _ _ _. refl;
  release = λ _ _. refl;
}

-- Nothing is owed: what has been sent is what the library has made for the peer.
abbrev pub IsPaid : ℕ → Trace → Type 0
IsPaid fd t = sent fd t ≡ spoken t

-- The token is owed, and nothing else.
abbrev pub Owes : ℕ → Bytes → Trace → Type 0
Owes fd token t = sent fd t ++ frame token ≡ spoken t

-- If the run returns, nothing is owed, and it succeeds.
abbrev pub Pays : ℕ → Run Status → Type 0
Pays fd (done success u) = IsPaid fd u
Pays fd (done failure u) = ⊥
Pays fd _ = Unit

Pays-of_SendsBytes :
    (fd : ℕ) (token : Bytes) (t : Trace) (r : Run Status)
    → Owes fd token t
    → SendsBytes fd (frame token) t r
    → Keeps spoken t r
    → Pays fd r
Pays-of_SendsBytes fd token t (done success u) owed h k = h ∙ owed ∙ sym k
Pays-of_SendsBytes fd token t (done failure u) owed h k = h
Pays-of_SendsBytes fd token t (exited n u) owed h k = tt
Pays-of_SendsBytes fd token t fault owed h k = tt
Pays-of_SendsBytes fd token t hung owed h k = tt

-- A token that is owed is paid by sending it.
pub send_token-Pays :
    (os : Os) (fd fuel : ℕ) (token : Bytes) (t : Trace)
    → TakesWhole os fd
    → length token < 2 ^ 31
    → Owes fd token t
    → Pays fd (send_token os fuel fd token t)
send_token-Pays os fd fuel token t whole short owed =
    Pays-of_SendsBytes fd token t (send_token os fuel fd token t) owed
      (send_token-SendsBytes os fd whole fuel token t short)
      (send_token-Keeps spoken spoken-Ignores os fuel fd token t)

-- With success nothing is owed.
abbrev pub EndsPaid : ℕ → Run Status → Type 0
EndsPaid fd (done success u) = IsPaid fd u
EndsPaid fd _ = Unit

-- The rule for what sends a token, in a program that may not succeed.
pub Pays-rule :
    {B : Type 0} (fd : ℕ) (r : Run Status) (k : Status → Prog B) (P : Run B → Type 0)
    → ((n : ℕ) (u : Trace) → P (exited n u))
    → P fault
    → P hung
    → Pays fd r
    → ((u : Trace) → IsPaid fd u → P (k success u))
    → P (and_then r k)
Pays-rule fd (done success u) k P x f h paid next = next u paid
Pays-rule fd (done failure u) k P x f h paid next = absurd paid
Pays-rule fd (exited n u) k P x f h paid next = x n u
Pays-rule fd fault k P x f h paid next = f
Pays-rule fd hung k P x f h paid next = h

-- What makes no calls but those that bring input in leaves nothing owed.
pub IsPaid-Keeps :
    {A B : Type 0} (fd : ℕ) (t : Trace) (r : Run A) (k : A → Prog B) (P : Run B → Type 0)
    → ((n : ℕ) (u : Trace) → P (exited n u))
    → P fault
    → P hung
    → IsPaid fd t
    → Keeps (sent fd) t r
    → Keeps spoken t r
    → ((a : A) (u : Trace) → IsPaid fd u → P (k a u))
    → P (and_then r k)
IsPaid-Keeps fd t (done a u) k P x f h paid e e' next = next a u (e ∙ paid ∙ sym e')
IsPaid-Keeps fd t (exited n u) k P x f h paid e e' next = x n u
IsPaid-Keeps fd t fault k P x f h paid e e' next = f
IsPaid-Keeps fd t hung k P x f h paid e e' next = h

-- The same with a token that is owed.
pub Owes-Keeps :
    {A B : Type 0} (fd : ℕ) (token : Bytes) (t : Trace) (r : Run A) (k : A → Prog B)
    (P : Run B → Type 0)
    → ((n : ℕ) (u : Trace) → P (exited n u))
    → P fault
    → P hung
    → Owes fd token t
    → Keeps (sent fd) t r
    → Keeps spoken t r
    → ((a : A) (u : Trace) → Owes fd token u → P (k a u))
    → P (and_then r k)
Owes-Keeps fd token t (done a u) k P x f h owed e e' next = next a u (rw e (owed ∙ sym e'))
Owes-Keeps fd token t (exited n u) k P x f h owed e e' next = x n u
Owes-Keeps fd token t fault k P x f h owed e e' next = f
Owes-Keeps fd token t hung k P x f h owed e e' next = h
