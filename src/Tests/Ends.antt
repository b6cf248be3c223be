-- ===== src/Tests/Ends.antt =====
-- The theorems on the end of the two conversations at work.
use kerberos.Base.{
  ℕ, zero, suc, ◌<◌, ◌≡◌, ◌^◌, arith, refl, sym, false, none, [], ◌∷◌, replicate, length-replicate,
}
use kerberos.World.{Status, Trace, done}
use kerberos.Wire.Returns.{AreBytes, Progresses}
use kerberos.Client.Context.Returns.{IsBounded}
use kerberos.Client.Call.{call_server}
use kerberos.Client.Call.Returns.{call_server-done}
use kerberos.Tests.Client.{service}
use kerberos.Tests.{zeros, agreeable, clamp}
use kerberos.Tests.Transfers.{zeros_delivers, zeros_takes, got_injective}

replicate-AreBytes : (n b : ℕ) → b < 256 → AreBytes (replicate n b)
replicate-AreBytes zero b h = tt
replicate-AreBytes (suc n) b h = (h, replicate-AreBytes n b h)

zeros-Progresses : (fd : ℕ) → Progresses zeros fd
zeros-Progresses fd = record {
  delivers = zeros_delivers fd;
  delivers_bytes = λ t count bytes e.
      rw (sym (got_injective _ _ e)) (replicate-AreBytes (clamp count) 0 (omega arith));
  takes = zeros_takes fd;
  block_size = λ t n. length-replicate n 7;
  scratch_size = λ t n. length-replicate n 9;
  scratch_bytes = λ t n. replicate-AreBytes n 9 (omega arith);
}

agreeable-IsBounded : IsBounded agreeable 0 (b'm' ∷ [])
agreeable-IsBounded = record {
  stops = λ _ _ _. refl;
  short_token = λ _ _. omega arith;
  short_message = λ _ _ _. omega arith;
  one_text = λ _ _. refl;
}

call_server-done_example :
    (st : Status) × (u : Trace) × (call_server zeros agreeable
        (2 ^ 32)
        (b'h' ∷ [])
        (b'1' ∷ [])
        none
        service
        (b'm' ∷ [])
        false
        []
      ≡ done st u)
call_server-done_example =
    call_server-done zeros agreeable (2 ^ 32) 0 (b'h' ∷ []) (b'1' ∷ []) none service (b'm' ∷ []) []
      zeros-Progresses agreeable-IsBounded (omega arith) (omega arith)
