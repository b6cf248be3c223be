-- ===== src/Decoder.antt =====
-- gssapi-parser/decoder.c
pub mod Printed
pub mod Spnego
pub mod Exits
use kerberos.Base.{
  ℕ, zero, suc, ◌+◌, ◌-◌, ◌*◌, ◌/◌, Bool, true, false, not, ◌&&◌, Option, none, some, List, [], ◌∷◌,
  ◌==◌, ltb, leb, bytes_eq, if◌then◌else◌, length, take, drop,
}
use kerberos.World.{
  Argument, Bytes, Oid, Schema, initial_context_token, negotiation_token, Os, Asn, fault, Prog,
  pure, exit, ◌>>=◌, ◌>>◌, printf, fopen, fread, fclose, ber_decode, asn_fprint, asn_struct_free,
  put_byte, put_newline,
}

unfoldable pub usage : Bytes → Prog (Unit {0})
usage prog = printf "Usage: %s <file> gssapi/spnego\n" (Argument.bytes prog ∷ [])

-- `buff[index]`, in bounds or a fault.
unfoldable pub byte_at : ℕ → Bytes → Prog ℕ
byte_at index [] = λ _. fault
byte_at zero (b ∷ rest) = pure b
byte_at (suc index) (b ∷ rest) = byte_at index rest

-- The inner loop of `print_bytes`: `count` more bytes from `index` on.
unfoldable pub print_row : ℕ → ℕ → Bytes → Prog (Unit {0})
print_row zero index buff = pure tt
print_row (suc count) index buff =
    byte_at index buff >>= λ b. put_byte b >> print_row count (index + 1) buff

-- The outer loop: `rounds` more lines from line `i` on. `size` stops at 0 where the source's
-- becomes negative; either way the inner loop does nothing.
unfoldable pub print_rows : ℕ → ℕ → Bytes → ℕ → Prog (Unit {0})
print_rows zero i buff size = pure tt
print_rows (suc rounds) i buff size =
    print_row (if leb 16 size then 16 else size) (i * 16) buff
    >> put_newline
    >> print_rows rounds (i + 1) buff (size - 16)

unfoldable pub print_bytes : Bytes → ℕ → Prog (Unit {0})
print_bytes buff size = print_rows (size / 16 + 1) 0 buff size

-- 1.3.6.1.5.5.2, the first two numbers in one octet
abbrev pub spnego_oid : Oid
spnego_oid = 43 ∷ 6 ∷ 1 ∷ 5 ∷ 5 ∷ 2 ∷ []

-- The loop of `check_if_spnego`, on arrays of one length.
unfoldable pub same_octets : Oid → Oid → Bool
same_octets [] buf = true
same_octets (a ∷ rest) [] = false
same_octets (a ∷ rest) (b ∷ buf) = let same = same_octets rest buf in if a == b then same else false

unfoldable pub check_if_spnego : Oid → Bool
check_if_spnego oid = if not (length oid == 6) then false else same_octets spnego_oid oid

module _ (asn : Asn) where
  unfoldable pub parse_spnego : Bytes → Prog (Unit {0})
  parse_spnego buffer = do
    print_bytes buffer (length buffer)
    status ← ber_decode asn negotiation_token buffer
    if not status.is_ok
        then printf "Broken NegotiationToken encoding at byte: %ld with status: %s\n"
            (Argument.number status.consumed ∷ [])
          >> asn_fprint negotiation_token status
          >> exit 1
        else asn_fprint negotiation_token status >> asn_struct_free negotiation_token

  unfoldable pub parse_gssapi : Bytes → Prog (Unit {0})
  parse_gssapi buffer = do
    status ← ber_decode asn initial_context_token buffer
    if not status.is_ok
        then printf "Broken InitialContextToken encoding at byte: %ld\n"
            (Argument.number status.consumed ∷ [])
          >> asn_fprint initial_context_token status
          >> asn_struct_free initial_context_token
          >> exit 1
        else asn_fprint initial_context_token status
          >> (if check_if_spnego status.this_mech
              then printf "------------- SPNEGO ----------------- !\n" []
                >> parse_spnego status.inner
              else pure tt)
          >> asn_struct_free initial_context_token

-- "gssapi" and "spnego"
abbrev pub gssapi_word : Bytes
gssapi_word = b'g' ∷ b's' ∷ b's' ∷ b'a' ∷ b'p' ∷ b'i' ∷ []

abbrev pub spnego_word : Bytes
spnego_word = b's' ∷ b'p' ∷ b'n' ∷ b'e' ∷ b'g' ∷ b'o' ∷ []

-- Which parser the second argument asks for.
unfoldable pub dispatch : Asn → Bytes → Bytes → Bytes → Prog (Unit {0})
dispatch asn prog kind buff =
    if bytes_eq gssapi_word kind
    then parse_gssapi asn buff
    else if bytes_eq spnego_word kind
    then parse_spnego asn buff
    else printf "Must supply gsspi or spnego\n" [] >> usage prog

module _ (os : Os) (asn : Asn) where
  unfoldable pub decode_file : Bytes → Bytes → Bytes → Prog ℕ
  decode_file prog filename kind = fopen os filename >>= λ opened.
      if not opened
      then printf "%s" (Argument.bytes filename ∷ []) >> exit 1
      else fread os 2048 >>= λ buff.
          fclose
          >> (if length buff == 0
              then printf "couldn't read from file\n" [] >> exit 1
              else printf "Bytes read: %lu\n" (Argument.number (length buff) ∷ [])
                >> dispatch asn prog kind buff
                >> pure 0)

  -- `argv`, the program's name first; the exit status of the process.
  unfoldable pub main : List Bytes → Prog ℕ
  main (prog ∷ filename ∷ kind ∷ _) = decode_file prog filename kind
  main (prog ∷ _) = usage prog >> exit 1
  main [] = usage [] >> exit 1
