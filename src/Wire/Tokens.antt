-- ===== src/Wire/Tokens.antt =====
-- The framing of tokens: a length of four bytes in network order, then the value.
use kerberos.Base.{
  ℕ, ◌%◌, ◌^◌, ◌≤◌, ◌<◌, ◌≡◌, refl, sym, ◌∙◌, ap, some, List, ◌∷◌, ◌++◌, append_assoc, arith,
  length, take, drop, take-append, drop-append,
}
use kerberos.World.{Bytes, success, Event, Trace, Os, done}
use kerberos.Wire.{to_network, from_network, send_token, recv_token}
use kerberos.Wire.Chunks.{flatten, Answers, after_reads, read_all-flatten, length-flatten}
use kerberos.Wire.Writes.{sent, Accepts, after_writes, write_all-sent}

-- The four length bytes carry the low 32 bits of a length.
pub from_network-to_network : (n : ℕ) → from_network (to_network n) ≡ n % 2 ^ 32
unfolding from_network to_network
from_network-to_network n = omega arith

length-to_network : (n : ℕ) → length (to_network n) ≡ 4
unfolding to_network
length-to_network n = refl

-- What `send_token` puts on the wire for a token.
unfoldable pub frame : Bytes → Bytes
frame token = to_network (length token) ++ token

module _ (os : Os) (fd : ℕ) where
  -- The kernel takes the header and the value of a token, each in at most two parts.
  pub record TakesToken (token : Bytes) (t : Trace) (hs ns : List ℕ) : Type 0 where
    pub header : Accepts os fd (to_network (length token)) t 0 4 hs
    pub header_two : length hs ≤ 2
    pub value :
        Accepts os fd token
          (after_writes os fd (to_network (length token)) t 0 4 hs)
          0
          (length token)
          ns
    pub value_two : length ns ≤ 2

  pub send_token-sent :
      (fuel : ℕ) (token : Bytes) (t : Trace) (hs ns : List ℕ)
      → TakesToken token t hs ns
      → length token < 2 ^ 64
      → 2 < fuel
      → (u : Trace) × (send_token os fuel fd token t ≡ done success u)
        × (sent fd u ≡ sent fd t ++ frame token)
  unfolding send_token frame to_network
  send_token-sent fuel token t hs ns k small enough =
      let (run, bytes) =
        write_all-sent os fd (to_network (length token)) fuel hs t k.header k.header_two
          (omega arith) (omega (arith, k.header_two)) in
      let (run', bytes') =
        write_all-sent os fd token fuel ns (after_writes os fd (to_network (length token)) t 0 4 hs)
          k.value k.value_two small (omega (arith, k.value_two)) in
      (
        after_writes os fd token (after_writes os fd (to_network (length token)) t 0 4 hs) 0
            (length token) ns,
        rw (run, run'),
        bytes'
            ∙ ap (λ b. b ++ token) bytes
            ∙ append_assoc (sent fd t) (to_network (length token)) token,
      )

  -- The kernel delivers the header and the value of a token, each in at most two chunks.
  pub record DeliversToken (header value : List Bytes) (t : Trace) : Type 0 where
    pub header_reads : Answers os fd t 4 header
    pub header_two : length header ≤ 2
    pub scratch_size : length (os.scratch t 4) ≡ 4
    pub block_size :
        length (os.malloc (after_reads os fd t 4 header) (from_network (flatten header)))
        ≡ from_network (flatten header)
    pub value_reads :
        Answers os fd
          (Event.malloc (from_network (flatten header)) ∷ after_reads os fd t 4 header)
          (from_network (flatten header))
          value
    pub value_two : length value ≤ 2

  recv_token-flatten :
      (fuel : ℕ) (header value : List Bytes) (t : Trace)
      → DeliversToken header value t
      → from_network (flatten header) < 2 ^ 64
      → 2 < fuel
      → (u : Trace) × (recv_token os fuel fd t ≡ done (some (flatten value)) u)
  unfolding recv_token
  recv_token-flatten fuel header value t k small enough =
      let run =
        read_all-flatten os fd fuel 4 (os.scratch t 4) header t k.header_reads k.header_two
          k.scratch_size (omega arith) (omega (arith, k.header_two)) in
      let run' =
        read_all-flatten os fd fuel (from_network (flatten header))
          (os.malloc (after_reads os fd t 4 header) (from_network (flatten header))) value
          (Event.malloc (from_network (flatten header)) ∷ after_reads os fd t 4 header)
          k.value_reads k.value_two k.block_size small (omega (arith, k.value_two)) in
      (
        after_reads os fd
            (Event.malloc (from_network (flatten header)) ∷ after_reads os fd t 4 header)
            (from_network (flatten header)) value,
        rw (run, run'),
      )

-- What arrives as `frame token` and more, read as a header of four bytes and a value, is that
-- token.
split_frame :
    (token h v rest rest' : Bytes)
    → length h ≡ 4
    → length v ≡ from_network h
    → length token < 2 ^ 32
    → frame token ++ rest ≡ h ++ (v ++ rest')
    → (h ≡ to_network (length token)) × (v ≡ token) × (rest' ≡ rest)
unfolding frame
split_frame token h v rest rest' four size small e = (sym head, sym value, sym tail)
  where
    all : to_network (length token) ++ (token ++ rest) ≡ h ++ (v ++ rest')
    all = sym (append_assoc (to_network (length token)) token rest) ∙ e

    head : to_network (length token) ≡ h
    head =
        sym (take-append 4 (to_network (length token)) (token ++ rest) (length-to_network _))
        ∙ ap (take 4) all
        ∙ take-append 4 h (v ++ rest') four

    body : token ++ rest ≡ v ++ rest'
    body =
        sym (drop-append 4 (to_network (length token)) (token ++ rest) (length-to_network _))
        ∙ ap (drop 4) all
        ∙ drop-append 4 h (v ++ rest') four

    same : length token ≡ length v
    same = omega (arith, size, ap from_network head, from_network-to_network (length token))

    value : token ≡ v
    value =
        sym (take-append (length token) token rest refl)
        ∙ ap (take (length token)) body
        ∙ take-append (length token) v rest' (sym same)

    tail : rest ≡ rest'
    tail =
        sym (drop-append (length token) token rest refl)
        ∙ ap (drop (length token)) body
        ∙ drop-append (length token) v rest' (sym same)

append_cancel : (xs ys zs : Bytes) → xs ++ ys ≡ xs ++ zs → ys ≡ zs
append_cancel xs ys zs e =
    sym (drop-append (length xs) xs ys refl)
    ∙ ap (drop (length xs)) e
    ∙ drop-append (length xs) xs zs refl

-- The round trip of a token shorter than 2^32 bytes, with fuel above 2. If the kernel of the
-- sender takes its header and its value in at most two parts each, that of the receiver delivers
-- them in at most two chunks each, every part and every chunk being shorter than 2^31 bytes, and
-- the receiver's bytes are those that `send_token` sent with whatever follows them, then
-- `send_token` succeeds, `recv_token` returns the very token, and what follows is left to be read.
pub send_token-recv_token :
    (sender receiver : Os) (fd fd' fuel : ℕ) (token : Bytes) (t t' : Trace) (hs ns : List ℕ)
    (header value : List Bytes) (rest rest' : Bytes)
    → TakesToken sender fd token t hs ns
    → DeliversToken receiver fd' header value t'
    → length token < 2 ^ 32
    → 2 < fuel
    → ((u : Trace)
        → send_token sender fuel fd token t ≡ done success u
        → sent fd u ++ rest ≡ sent fd t ++ (flatten header ++ (flatten value ++ rest')))
    → (u u' : Trace) × (send_token sender fuel fd token t ≡ done success u)
      × (recv_token receiver fuel fd' t' ≡ done (some token) u')
      × (rest' ≡ rest)
send_token-recv_token sender receiver fd fd' fuel token t t' hs ns header value rest rest' k d small
      enough stream =
    let (u, run, bytes) = send_token-sent sender fd fuel token t hs ns k (omega arith) enough in
    let arrived : frame token ++ rest ≡ flatten header ++ (flatten value ++ rest') =
      append_cancel (sent fd t) _ _
        (sym (append_assoc (sent fd t) (frame token) rest) ∙ rw bytes at (stream u run)) in
    let four = length-flatten receiver fd' t' 4 header d.header_reads in
    let (same, equal, left) =
      split_frame token (flatten header) (flatten value) rest rest' four
        (length-flatten receiver fd' _ _ value d.value_reads) small arrived in
    let short : from_network (flatten header) < 2 ^ 64 =
      omega (arith, ap from_network same, from_network-to_network (length token)) in
    let (u', run') = recv_token-flatten receiver fd' fuel header value t' d short enough in
    (u, u', run, run' ∙ ap (λ v. done (some v) u') equal, left)
