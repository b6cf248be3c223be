-- ===== src/Wire.antt =====
-- application/gssapi/utils.c: whole reads and writes, and the framing of tokens.
pub mod Chunks
pub mod Plain
pub mod Reads
pub mod Writes
pub mod Tokens
pub mod Sends
pub mod Transfer
pub mod Whole
pub mod Outbox
pub mod Returns
use kerberos.Base.{
  ℕ, zero, suc, ◌+◌, ◌-◌, ◌*◌, ◌-◌, ltb, ◌/◌, ◌%◌, ◌^◌, Option, none, some, [], ◌∷◌, ◌++◌, ◌==◌,
  leb, if◌then◌else◌, length, take, drop,
}
use kerberos.World.{
  Bytes, Status, success, failure, read_error, got, write_error, wrote, Os, fault, hung, Prog, pure,
  ◌>>=◌, ◌>>◌, printf, sys_read, sys_write, malloc, uninitialised,
}

-- `a -= b` on a `size_t` of 64 bits.
unfoldable pub size_sub : ℕ → ℕ → ℕ
size_sub a b = (a + 2 ^ 64 - b) % 2 ^ 64

-- The value of an `int` of 32 bits that a count is stored in, converted to 64 bits: a negative
-- value is counted down from 2^64.
unfoldable pub to_int : ℕ → ℕ
to_int n = if ltb (n % 2 ^ 32) (2 ^ 31) then n % 2 ^ 32 else n % 2 ^ 32 + (2 ^ 64 - 2 ^ 32)

abbrev pub minus_one : ℕ
minus_one = 2 ^ 64 - 1

-- A store of `bytes` at `buffer + offset`, in bounds or a fault.
unfoldable pub store_at : ℕ → Bytes → Bytes → Prog Bytes
store_at offset bytes buffer =
    if leb (offset + length bytes) (length buffer)
    then pure (take offset buffer ++ (bytes ++ drop (offset + length bytes) buffer))
    else λ _. fault

-- The `count` bytes at `buffer + offset`, in bounds or a fault.
unfoldable pub load_at : ℕ → ℕ → Bytes → Prog Bytes
load_at offset count buffer =
    if leb (offset + count) (length buffer) then pure (take count (drop offset buffer)) else λ _.
    fault

-- The four bytes that `htonl` leaves in memory, for a length of any width: the conversion to
-- `uint32_t` drops what is above 32 bits.
unfoldable pub to_network : ℕ → Bytes
to_network n = n / 2 ^ 24 % 256 ∷ n / 2 ^ 16 % 256 ∷ n / 2 ^ 8 % 256 ∷ n % 256 ∷ []

-- `ntohl` of the four bytes in memory.
unfoldable pub from_network : Bytes → ℕ
from_network (a ∷ b ∷ c ∷ d ∷ []) = a * 2 ^ 24 + b * 2 ^ 16 + c * 2 ^ 8 + d
from_network _ = 0

module _ (os : Os) where
  -- The loop of `read_all`. `offset` is the variable `bytes_read`, an `int` which holds the count
  -- of the last call of `read`, and which the address of the next call is computed from.
  unfoldable pub read_loop : ℕ → ℕ → Bytes → ℕ → ℕ → Prog (Status × Bytes)
  unfolding store_at
  read_loop zero fd buffer offset len = λ _. hung
  read_loop (suc fuel) fd buffer offset len =
      if len == 0
      then pure (success, buffer)
      else sys_read os fd len >>= λ r. elim r [
        | read_error ↦ printf "read_all" [] >> pure (failure, buffer)
        | got bytes ↦ do
          buffer' ← store_at offset bytes buffer
          let bytes_read = to_int (length bytes)
          if bytes_read == minus_one
              then printf "read_all" [] >> pure (failure, buffer')
              else read_loop fuel fd buffer' bytes_read (size_sub len bytes_read)
      ]

  unfoldable pub read_all : ℕ → ℕ → Bytes → ℕ → Prog (Status × Bytes)
  unfolding read_loop
  read_all fuel fd buffer len = read_loop fuel fd buffer 0 len

  -- The loop of `write_all`, with `offset` for `bytes_written`.
  unfoldable pub write_loop : ℕ → ℕ → Bytes → ℕ → ℕ → Prog Status
  unfolding load_at
  write_loop zero fd buffer offset len = λ _. hung
  write_loop (suc fuel) fd buffer offset len =
      if len == 0
      then pure success
      else load_at offset len buffer >>= λ bytes. sys_write os fd bytes >>= λ r. elim r [
        | write_error ↦ printf "write_all" [] >> pure failure
        | wrote count ↦
            let bytes_written = to_int count in
            if bytes_written == minus_one
            then printf "write_all" [] >> pure failure
            else write_loop fuel fd buffer bytes_written (size_sub len bytes_written)
      ]

  unfoldable pub write_all : ℕ → ℕ → Bytes → ℕ → Prog Status
  unfolding write_loop
  write_all fuel fd buffer len = write_loop fuel fd buffer 0 len

  unfoldable pub send_token : ℕ → ℕ → Bytes → Prog Status
  send_token fuel fd token = write_all fuel fd (to_network (length token)) 4 >>= λ st. elim st [
    | failure ↦ printf "send_token: couldn't send token length" [] >> pure failure
    | success ↦ write_all fuel fd token (length token) >>= λ st'. elim st' [
      | failure ↦ printf "send_token: couldn't send token value" [] >> pure failure
      | success ↦ pure success
    ]
  ]

  -- `none` is the return value -1; the block that was allocated for the value is then lost.
  unfoldable pub recv_token : ℕ → ℕ → Prog (Option Bytes)
  recv_token fuel fd = do
    scratch ← uninitialised os 4
    header ← read_all fuel fd scratch 4
    elim header.0 [
      | failure ↦ printf "recv_token: couldn't read token length" [] >> pure none
      | success ↦ do
        let len = from_network header.1
        block ← malloc os len
        value ← read_all fuel fd block len
        elim value.0 [
          | failure ↦ printf "recv_token: couldn't send token length" [] >> pure none
          | success ↦ pure (some value.1)
        ]
    ]
