-- ===== src/Wire/Transfer.antt =====
-- A token that one program sends and the other receives, on a link that carries it.
use kerberos.Base.{ℕ, ◌<◌, ◌^◌, ◌≡◌, sym, ap, ◌∙◌, some, List, [], ◌++◌, append-nil, arith, length}
use kerberos.World.{Bytes, Status, success, Trace, Os, Run, done}
use kerberos.Wire.{send_token, recv_token}
use kerberos.Wire.Chunks.{flatten}
use kerberos.Wire.Writes.{sent}
use kerberos.Wire.Tokens.{frame, TakesToken, DeliversToken, send_token-sent, send_token-recv_token}

-- The kernel of the sender takes the header and the value of the token, and the kernel of the
-- receiver delivers the same bytes, each of the two in at most two pieces.
pub record Carries (sender receiver : Os) (fd fd' : ℕ) (token : Bytes) (t t' : Trace) : Type 0 where
  pub header_sizes : List ℕ
  pub value_sizes : List ℕ
  pub header : List Bytes
  pub value : List Bytes
  pub takes : TakesToken sender fd token t header_sizes value_sizes
  pub delivers : DeliversToken receiver fd' header value t'
  pub carried : flatten header ++ flatten value ≡ frame token

same_end : (r : Run Status) (u w : Trace) → r ≡ done success u → r ≡ done success w → w ≡ u
same_end r u w p q = cc

pub carry :
    (sender receiver : Os) (fd fd' fuel : ℕ) (token : Bytes) (t t' : Trace)
    → Carries sender receiver fd fd' token t t'
    → length token < 2 ^ 32
    → 2 < fuel
    → (u u' : Trace) × (send_token sender fuel fd token t ≡ done success u)
      × (recv_token receiver fuel fd' t' ≡ done (some token) u')
carry sender receiver fd fd' fuel token t t' c small enough =
    let (u, run, bytes) =
      send_token-sent sender fd fuel token t c.header_sizes c.value_sizes c.takes (omega arith)
        enough in
    let (v, v', sends, receives, _) =
      send_token-recv_token sender receiver fd fd' fuel token t t' c.header_sizes c.value_sizes
        c.header c.value [] [] c.takes c.delivers small enough
        (λ w e.
          append-nil (sent fd w)
          ∙ ap (sent fd) (same_end (send_token sender fuel fd token t) u w run e)
          ∙ bytes
          ∙ ap (λ r. sent fd t ++ r)
              (sym (ap (λ r. flatten c.header ++ r) (append-nil (flatten c.value)) ∙ c.carried))) in
    (v, v', sends, receives)
