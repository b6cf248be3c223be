-- ===== src/World/Data.antt =====
-- The arguments and the answers of the external calls.
use Prim.Native.String.{String}
use kerberos.Base.{ℕ, Bool, Option, List, ◌==◌, if◌then◌else◌}

-- A C string without its terminator, and the contents of a buffer, as bytes.
abbrev pub Bytes : Type 0
Bytes = List ℕ

-- An argument of `printf`: a text of the source, a string at run time, a number, or a null pointer.
pub data Argument : Type 0 where
  text : String → Argument
  bytes : Bytes → Argument
  number : ℕ → Argument
  null : Argument

-- One answer of `getopt`: the option's character, or `?`, with `optarg` and `optopt`.
pub record Opt : Type 0 where
  pub ch : ℕ
  pub optarg : Bytes
  pub optopt : ℕ

-- `getopt`, called until it answers -1: its answers for an option string and the arguments, and the
-- operands, which then stand from `optind` on.
abbrev pub Getopt : Type 0
Getopt = Bytes → List Bytes → List Opt × List Bytes

-- What a function of the programs returns that returns 0 or -1.
pub data Status : Type 0 where
  success failure : Status

-- `read`: -1, or the bytes delivered, none of them at the end of the stream.
pub data ReadResult : Type 0 where
  read_error : ReadResult
  got : Bytes → ReadResult

-- `write`: -1, or the number of bytes taken.
pub data WriteResult : Type 0 where
  write_error : WriteResult
  wrote : ℕ → WriteResult

-- The major status of a GSS-API call, as far as the programs tell its values apart:
-- GSS_S_COMPLETE, GSS_S_CONTINUE_NEEDED, GSS_S_NO_CONTEXT, or any other value.
pub data Major : Type 0 where
  complete continue_needed no_context : Major
  other_status : ℕ → Major

-- The value given to `gss_display_status` with GSS_C_GSS_CODE or GSS_C_MECH_CODE.
pub data StatusValue : Type 0 where
  gss_code : Major → StatusValue
  mech_code : ℕ → StatusValue

-- A context handle; `none` is GSS_C_NO_CONTEXT.
abbrev pub Context : Type 0
Context = Option ℕ

-- An object identifier by its DER contents; as a parameter `none` is GSS_C_NULL_OID.
abbrev pub Oid : Type 0
Oid = Bytes

pub record NameReply : Type 0 where
  pub major : Major
  pub minor : ℕ
  pub name : ℕ

pub record TextReply : Type 0 where
  pub major : Major
  pub minor : ℕ
  pub text : Bytes

pub record StatusReply : Type 0 where
  pub major : Major
  pub more : ℕ
  pub text : Bytes

pub record CredReply : Type 0 where
  pub major : Major
  pub minor : ℕ
  pub cred : ℕ

-- `input` is `none` for GSS_C_NO_BUFFER.
pub record InitArgs : Type 0 where
  pub context : Context
  pub target : ℕ
  pub mech : Option Oid
  pub request : ℕ
  pub input : Option Bytes

pub record InitReply : Type 0 where
  pub major : Major
  pub minor : ℕ
  pub context : Context
  pub output : Bytes
  pub flags : ℕ

pub record AcceptArgs : Type 0 where
  pub context : Context
  pub cred : ℕ
  pub input : Bytes

pub record AcceptReply : Type 0 where
  pub major : Major
  pub minor : ℕ
  pub context : Context
  pub client : ℕ
  pub output : Bytes
  pub flags : ℕ

pub record InquireReply : Type 0 where
  pub major : Major
  pub minor : ℕ
  pub source : ℕ
  pub target : ℕ
  pub flags : ℕ
  pub lifetime : ℕ
  pub is_open : Bool

pub record LimitReply : Type 0 where
  pub major : Major
  pub minor : ℕ
  pub max_input : ℕ

-- `gss_wrap` and `gss_unwrap`: the buffer produced, and whether confidentiality applied.
pub record WrapReply : Type 0 where
  pub major : Major
  pub minor : ℕ
  pub output : Bytes
  pub conf : Bool

-- `output` is what the buffer of the caller holds after the call, none if the library has not set
-- it.
pub record UnwrapReply : Type 0 where
  pub major : Major
  pub minor : ℕ
  pub output : Option Bytes
  pub conf : Bool

pub record MicReply : Type 0 where
  pub major : Major
  pub minor : ℕ
  pub output : Bytes

pub record VerifyReply : Type 0 where
  pub major : Major
  pub minor : ℕ

pub record MechsReply : Type 0 where
  pub major : Major
  pub minor : ℕ
  pub mechs : List Oid

pub record MemberReply : Type 0 where
  pub major : Major
  pub minor : ℕ
  pub present : Bool

-- A record of libkrb5's answers that hand out a handle: the error code (0 is success) and it.
pub record HandleReply : Type 0 where
  pub code : ℕ
  pub handle : ℕ

-- `krb5_recvauth`: the error code, the authentication context, the ticket and its client.
pub record RecvauthReply : Type 0 where
  pub code : ℕ
  pub auth_context : ℕ
  pub ticket : ℕ
  pub client : ℕ

-- `krb5_unparse_name`: the error code and the name.
pub record UnparseReply : Type 0 where
  pub code : ℕ
  pub name : Bytes

-- A pointer that is initialised with NULL, after `krb5_unparse_name`, which sets it if it succeeds.
unfoldable pub unparsed : UnparseReply → Argument
unparsed r = if r.code == 0 then Argument.bytes r.name else Argument.null

-- The two types that the decoder decodes.
pub data Schema : Type 0 where
  initial_context_token negotiation_token : Schema

-- `ber_decode` with the codec library that is generated from gssapi.asn1: whether the code is
-- RC_OK, and of an InitialContextToken its mechanism and its inner token.
pub record DecodeReply : Type 0 where
  pub is_ok : Bool
  pub consumed : ℕ
  pub this_mech : Oid
  pub inner : Bytes
