-- ===== src/Tests/Transfers.antt =====
-- The theorems on application/gssapi/utils.c at work.
use kerberos.Base.{
  ◌^◌, ◌<◌, ◌≤◌, ℕ, ◌-◌, ◌≤◌, ◌<◌, ◌≡◌, refl, ap, sym, ◌∙◌, some, List, [], ◌∷◌, ◌++◌, length,
  length-replicate, get_or, arith, ◌==◌, if◌then◌else◌,
}
use kerberos.World.{Bytes, Trace, success, done, hung, got, wrote, Os}
use kerberos.Wire.{
  send_token, recv_token, read_all, write_all, to_network, from_network, size_sub, to_int,
  write_loop, load_at,
}
use kerberos.Wire.Reads
use kerberos.Wire.Writes
use kerberos.Wire.Reads.{read_all-Ends, read_all-hung}
use kerberos.Wire.Chunks.{flatten, after_reads, Answers, read_all-flatten, read_all-keeps_last}
use kerberos.Wire.Writes.{
  sent, Accepts, after_writes, pieces, write_all-Ends, write_all-pieces, write_all-sent,
}
use kerberos.Wire.Tokens.{TakesToken, DeliversToken, send_token-recv_token}
use kerberos.Tests.{clamp, clamp_le, clamp_lt, clamp_pos, zeros, at_end, trace_of}

pub got_injective : (a b : Bytes) → got a ≡ got b → a ≡ b
got_injective a b e = cc

wrote_injective : (m n : ℕ) → wrote m ≡ wrote n → m ≡ n
wrote_injective m n e = cc

pub zeros_delivers :
    (fd : ℕ) (t : Trace) (count : ℕ) (bytes : Bytes)
    → 0 < count
    → zeros.read t fd count ≡ got bytes
    → (0 < length bytes) × (length bytes ≤ count) × (length bytes < 2 ^ 31)
zeros_delivers fd t count bytes pos e =
    let n : length bytes ≡ clamp count =
      sym (ap length (got_injective _ _ e)) ∙ length-replicate (clamp count) 0 in
    (
      omega (arith, n, clamp_pos count pos),
      omega (arith, n, clamp_le count),
      omega (arith, n, clamp_lt count),
    )

read_all-Ends_example : kerberos.Wire.Reads.Ends zeros 3 2 (read_all zeros 9 3 (7 ∷ 8 ∷ []) 2 [])
read_all-Ends_example =
    read_all-Ends zeros 3 9 2 (7 ∷ 8 ∷ []) [] (zeros_delivers 3) refl (omega arith) (omega arith)

read_all-hung_example : read_all at_end 9 3 (7 ∷ 8 ∷ []) 2 [] ≡ hung
read_all-hung_example =
    read_all-hung at_end 3 9 2 (7 ∷ 8 ∷ []) [] (λ _ _. refl) (omega arith) refl (omega arith)

pub zeros_takes :
    (fd : ℕ) (t : Trace) (bytes : Bytes) (n : ℕ)
    → 0 < length bytes
    → zeros.write t fd bytes ≡ wrote n
    → (0 < n) × (n ≤ length bytes) × (n < 2 ^ 31)
zeros_takes fd t bytes n pos e =
    let same : clamp (length bytes) ≡ n = wrote_injective _ _ e in
    (
      omega (arith, same, clamp_pos (length bytes) pos),
      omega (arith, same, clamp_le (length bytes)),
      omega (arith, same, clamp_lt (length bytes)),
    )

write_all-Ends_example :
    kerberos.Wire.Writes.Ends zeros 3 (7 ∷ 8 ∷ []) (write_all zeros 9 3 (7 ∷ 8 ∷ []) 2 [])
write_all-Ends_example =
    write_all-Ends zeros 3 (7 ∷ 8 ∷ []) 9 [] (zeros_takes 3) (omega arith) (omega arith)

-- A kernel that delivers and takes bytes one at a time; each read delivers a 5.
abbrev slow : Os
slow = record zeros { read = λ t fd n. got (5 ∷ []); write = λ t fd bytes. wrote 1 }

slow_two : Answers slow 3 [] 2 ((5 ∷ []) ∷ (5 ∷ []) ∷ [])
slow_two = (
  refl,
  (omega arith, omega arith),
  omega arith,
  (refl, (omega arith, omega arith), omega arith, omega arith),
)

read_all-flatten_example :
    read_all slow 9 3 (7 ∷ 8 ∷ []) 2 []
    ≡ done
        (success, flatten ((5 ∷ []) ∷ (5 ∷ []) ∷ []))
        (after_reads slow 3 [] 2 ((5 ∷ []) ∷ (5 ∷ []) ∷ []))
read_all-flatten_example =
    read_all-flatten slow 3 9 2 (7 ∷ 8 ∷ []) ((5 ∷ []) ∷ (5 ∷ []) ∷ []) [] slow_two (omega arith)
      refl (omega arith) (omega arith)

abbrev fives : List Bytes
fives = (5 ∷ []) ∷ (5 ∷ []) ∷ (5 ∷ []) ∷ []

slow_three : Answers slow 3 [] 3 fives
slow_three = (
  refl,
  omega arith,
  omega arith,
  (
    refl,
    (omega arith, omega arith),
    omega arith,
    (refl, (omega arith, omega arith), omega arith, omega arith),
  ),
)

read_all-keeps_last_example :
    (result : Bytes) × (u : Trace) × (read_all slow 9 3 (7 ∷ 8 ∷ 9 ∷ []) 3 []
      ≡ done (success, result) u)
    × (get_or result (3 - 1) 0 ≡ get_or (7 ∷ 8 ∷ 9 ∷ []) (3 - 1) 0)
read_all-keeps_last_example =
    read_all-keeps_last slow 3 9 3 (7 ∷ 8 ∷ 9 ∷ []) (5 ∷ []) (5 ∷ []) (5 ∷ []) [] [] slow_three refl
      (omega arith) (omega arith)

slow_takes_two : Accepts slow 3 (7 ∷ 8 ∷ []) [] 0 2 (1 ∷ 1 ∷ [])
slow_takes_two = (
  refl,
  (omega arith, omega arith),
  omega arith,
  (refl, (omega arith, omega arith), omega arith, omega arith),
)

write_all-sent_example :
    (write_all slow 9 3 (7 ∷ 8 ∷ []) 2 []
      ≡ done success (after_writes slow 3 (7 ∷ 8 ∷ []) [] 0 2 (1 ∷ 1 ∷ [])))
    × (sent 3 (after_writes slow 3 (7 ∷ 8 ∷ []) [] 0 2 (1 ∷ 1 ∷ [])) ≡ sent 3 [] ++ (7 ∷ 8 ∷ []))
write_all-sent_example =
    write_all-sent slow 3 (7 ∷ 8 ∷ []) 9 (1 ∷ 1 ∷ []) [] slow_takes_two (omega arith) (omega arith)
      (omega arith)

slow_takes_three : Accepts slow 3 (7 ∷ 8 ∷ 9 ∷ []) [] 0 3 (1 ∷ 1 ∷ 1 ∷ [])
slow_takes_three = (
  refl,
  omega arith,
  omega arith,
  (
    refl,
    (omega arith, omega arith),
    omega arith,
    (refl, (omega arith, omega arith), omega arith, omega arith),
  ),
)

-- Three writes of one byte each send the first byte and the second one twice.
write_all-pieces_example :
    (write_all slow 9 3 (7 ∷ 8 ∷ 9 ∷ []) 3 []
      ≡ done success (after_writes slow 3 (7 ∷ 8 ∷ 9 ∷ []) [] 0 3 (1 ∷ 1 ∷ 1 ∷ [])))
    × (sent 3 (after_writes slow 3 (7 ∷ 8 ∷ 9 ∷ []) [] 0 3 (1 ∷ 1 ∷ 1 ∷ []))
        ≡ sent 3 [] ++ (7 ∷ 8 ∷ 8 ∷ []))
write_all-pieces_example =
    write_all-pieces slow 3 (7 ∷ 8 ∷ 9 ∷ []) 9 (1 ∷ 1 ∷ 1 ∷ []) [] slow_takes_three (omega arith)
      (omega arith)

-- A kernel that delivers the token `5, 6` behind its header.
abbrev pub peer : Os
peer = record zeros { read = λ t fd n. got (if n == 4 then 0 ∷ 0 ∷ 0 ∷ 2 ∷ [] else 5 ∷ 6 ∷ []) }

abbrev pub token : Bytes
token = 5 ∷ 6 ∷ []

abbrev header_chunks : List Bytes
header_chunks = (0 ∷ 0 ∷ 0 ∷ 2 ∷ []) ∷ []

abbrev value_chunks : List Bytes
value_chunks = token ∷ []

zeros-TakesToken : TakesToken zeros 3 token [] (4 ∷ []) (2 ∷ [])
unfolding to_network
zeros-TakesToken = record {
  header = (refl, (omega arith, omega arith), omega arith, omega arith);
  header_two = omega arith;
  value = (refl, (omega arith, omega arith), omega arith, omega arith);
  value_two = omega arith;
}

peer-DeliversToken : DeliversToken peer 4 header_chunks value_chunks []
unfolding from_network flatten
peer-DeliversToken = record {
  header_reads = (refl, (omega arith, omega arith), omega arith, omega arith);
  header_two = omega arith;
  scratch_size = refl;
  block_size = refl;
  value_reads = (refl, (omega arith, omega arith), omega arith, omega arith);
  value_two = omega arith;
}

token_stream :
    (u : Trace)
    → send_token zeros 9 3 token [] ≡ done success u
    → sent 3 u ++ [] ≡ sent 3 [] ++ (flatten header_chunks ++ (flatten value_chunks ++ []))
unfolding send_token write_all write_loop load_at to_network size_sub to_int sent flatten
token_stream u e = rw (sym (ap (λ r. trace_of r) e)) refl

send_token-recv_token_example :
    (u u' : Trace) × (send_token zeros 9 3 token [] ≡ done success u)
    × (recv_token peer 9 4 [] ≡ done (some token) u')
    × (◌≡◌ {A = Bytes} [] [])
send_token-recv_token_example =
    send_token-recv_token zeros peer 3 4 9 token [] [] (4 ∷ []) (2 ∷ []) header_chunks value_chunks
      [] [] zeros-TakesToken peer-DeliversToken (omega arith) (omega arith) token_stream
