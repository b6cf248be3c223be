-- ===== src/World/Events.antt =====
-- The external calls, each with its arguments and the answer that it got.
use Prim.Native.String.{String}
use kerberos.Base.{ℕ, Bool, Option, List}
use kerberos.World.Data.{
  Bytes, Argument, ReadResult, WriteResult, Major, StatusValue, Context, Oid, NameReply, TextReply,
  StatusReply, CredReply, InitArgs, InitReply, AcceptArgs, AcceptReply, InquireReply, LimitReply,
  WrapReply, UnwrapReply, MicReply, VerifyReply, MechsReply, MemberReply, HandleReply,
  RecvauthReply, UnparseReply, DecodeReply, Schema,
}

pub data Event : Type 0 where
  -- libc and the kernel
  read : ℕ → ℕ → ReadResult → Event
  write : ℕ → Bytes → WriteResult → Event
  malloc : ℕ → Event
  fopen : Bytes → Bool → Event
  fread : Bytes → Event
  fwrite : Bytes → ℕ → Event
  fclose : Event
  printf : String → List Argument → Event
  put_byte : ℕ → Event
  put_newline : Event
  getaddrinfo : Option Bytes → Option Bytes → Option (List ℕ) → Event
  freeaddrinfo : List ℕ → Event
  socket : Option ℕ → Event
  setsockopt : ℕ → Bool → Event
  connect : ℕ → ℕ → Bool → Event
  bind : ℕ → Option Bytes → ℕ → Bool → Event
  listen : ℕ → Bool → Event
  accept : ℕ → Option ℕ → Event
  close : ℕ → Event
  -- libgssapi
  gss_import_name : Bytes → NameReply → Event
  gss_display_name : ℕ → TextReply → Event
  gss_display_status : StatusValue → ℕ → StatusReply → Event
  -- A name variable holds GSS_C_NO_NAME, here `none`, once it is released.
  gss_release_name : Option ℕ → Event
  gss_release_buffer : Bytes → Event
  gss_release_cred : ℕ → Event
  gss_release_oid_set : List Oid → Event
  gss_acquire_cred : ℕ → CredReply → Event
  gss_init_sec_context : InitArgs → InitReply → Event
  gss_accept_sec_context : AcceptArgs → AcceptReply → Event
  gss_delete_sec_context : Context → Major → Event
  gss_inquire_context : Context → InquireReply → Event
  gss_wrap_size_limit : Context → Bool → ℕ → LimitReply → Event
  gss_wrap : Context → Bool → Bytes → WrapReply → Event
  gss_unwrap : Context → Bytes → UnwrapReply → Event
  gss_get_mic : Context → Bytes → MicReply → Event
  gss_verify_mic : Context → Bytes → Bytes → VerifyReply → Event
  gss_indicate_mechs : MechsReply → Event
  gss_test_oid_set_member : Oid → List Oid → MemberReply → Event
  -- libkrb5; `krb5_free` stands for each of its functions that release something
  krb5_init_context : HandleReply → Event
  krb5_kt_resolve : Bytes → HandleReply → Event
  krb5_sname_to_principal : Option Bytes → Option Bytes → HandleReply → Event
  krb5_unparse_name : ℕ → UnparseReply → Event
  krb5_cc_default : HandleReply → Event
  krb5_cc_get_principal : ℕ → HandleReply → Event
  krb5_sendauth : ℕ → ℕ → ℕ → Bytes → HandleReply → Event
  krb5_recvauth : ℕ → ℕ → Option ℕ → RecvauthReply → Event
  krb5_free : String → Argument → Event
  -- the codec library of the decoder
  ber_decode : Schema → Bytes → DecodeReply → Event
  asn_fprint : Schema → DecodeReply → Event
  asn_struct_free : Schema → Event

-- The calls made so far, the newest first.
abbrev pub Trace : Type 0
Trace = List Event
