-- ===== src/World/Env.antt =====
-- What answers the external calls. Nothing is assumed of the answers here; a theorem that relies on
-- documented behaviour of a call has it among its hypotheses.
use kerberos.Base.{ℕ, Bool, Option, List}
use kerberos.World.Data.{
  Bytes, ReadResult, WriteResult, Major, StatusValue, Context, Oid, NameReply, TextReply,
  StatusReply, CredReply, InitArgs, InitReply, AcceptArgs, AcceptReply, InquireReply, LimitReply,
  WrapReply, UnwrapReply, MicReply, VerifyReply, MechsReply, MemberReply, HandleReply,
  RecvauthReply, UnparseReply, DecodeReply, Schema,
}
use kerberos.World.Events.{Trace}

-- libc and the kernel. A result `true` of `fopen`, `setsockopt`, `connect`, `bind` and `listen` is
-- success. `malloc` answers the contents that the fresh block happens to have, none if there is no
-- block, and `scratch` those of a local array that is not initialised. `atoi` answers the 32 bits
-- of its result.
pub record Os : Type 0 where
  pub read : Trace → ℕ → ℕ → ReadResult
  pub write : Trace → ℕ → Bytes → WriteResult
  pub malloc : Trace → ℕ → Bytes
  pub scratch : Trace → ℕ → Bytes
  pub fopen : Trace → Bytes → Bool
  pub fread : Trace → ℕ → Bytes
  pub fwrite : Trace → Bytes → ℕ
  pub getaddrinfo : Trace → Option Bytes → Option Bytes → Option (List ℕ)
  pub socket : Trace → Option ℕ
  pub setsockopt : Trace → ℕ → Bool
  pub connect : Trace → ℕ → ℕ → Bool
  pub bind : Trace → ℕ → Option Bytes → ℕ → Bool
  pub listen : Trace → ℕ → Bool
  pub accept : Trace → ℕ → Option ℕ
  pub atoi : Bytes → ℕ

-- libgssapi, with the constants of its header that the programs pass or test. `release_name` and
-- `release_buffer` answer the minor status.
pub record Gss : Type 0 where
  pub deleg_flag : ℕ
  pub mutual_flag : ℕ
  pub replay_flag : ℕ
  pub sequence_flag : ℕ
  pub conf_flag : ℕ
  pub integ_flag : ℕ
  pub import_name : Trace → Bytes → NameReply
  pub release_name : Trace → ℕ → ℕ
  pub release_buffer : Trace → Bytes → ℕ
  pub display_name : Trace → ℕ → TextReply
  pub display_status : Trace → StatusValue → ℕ → StatusReply
  pub acquire_cred : Trace → ℕ → CredReply
  pub init_sec_context : Trace → InitArgs → InitReply
  pub accept_sec_context : Trace → AcceptArgs → AcceptReply
  pub delete_sec_context : Trace → Context → Major
  pub inquire_context : Trace → Context → InquireReply
  pub wrap_size_limit : Trace → Context → Bool → ℕ → LimitReply
  pub wrap : Trace → Context → Bool → Bytes → WrapReply
  pub unwrap : Trace → Context → Bytes → UnwrapReply
  pub get_mic : Trace → Context → Bytes → MicReply
  pub verify_mic : Trace → Context → Bytes → Bytes → VerifyReply
  pub indicate_mechs : Trace → MechsReply
  pub test_oid_set_member : Trace → Oid → List Oid → MemberReply

-- libkrb5. An error code 0 is success.
pub record Krb : Type 0 where
  pub init_context : Trace → HandleReply
  pub kt_resolve : Trace → Bytes → HandleReply
  pub sname_to_principal : Trace → Option Bytes → Option Bytes → HandleReply
  pub unparse_name : Trace → ℕ → UnparseReply
  pub cc_default : Trace → HandleReply
  pub cc_get_principal : Trace → ℕ → HandleReply
  pub sendauth : Trace → ℕ → ℕ → ℕ → Bytes → HandleReply
  pub recvauth : Trace → ℕ → ℕ → Option ℕ → RecvauthReply

-- The codec library that is generated from gssapi-parser/gssapi.asn1.
pub record Asn : Type 0 where
  pub ber_decode : Trace → Schema → Bytes → DecodeReply
