-- ===== src/World/Calls.antt =====
-- The external calls as programs, under the names of the functions called.
use Prim.Native.String.{String}
use kerberos.Base.{ℕ, Bool, Option, none, some, List}
use kerberos.World.Data.{
  Bytes, Argument, ReadResult, WriteResult, Major, StatusValue, Context, Oid, NameReply, TextReply,
  StatusReply, CredReply, InitArgs, InitReply, AcceptArgs, AcceptReply, InquireReply, LimitReply,
  WrapReply, UnwrapReply, MicReply, VerifyReply, MechsReply, MemberReply, HandleReply,
  RecvauthReply, UnparseReply, DecodeReply, Schema,
}
use kerberos.World.Events.{Event}
use kerberos.World.Env.{Os, Gss, Krb, Asn}
use kerberos.World.Runs.{Prog, pure, call, emit}

abbrev pub printf : String → List Argument → Prog (Unit {0})
printf format arguments = emit (Event.printf format arguments)

abbrev pub fclose : Prog (Unit {0})
fclose = emit Event.fclose

abbrev pub close : ℕ → Prog (Unit {0})
close fd = emit (Event.close fd)

abbrev pub freeaddrinfo : List ℕ → Prog (Unit {0})
freeaddrinfo addresses = emit (Event.freeaddrinfo addresses)

module _ (os : Os) where
  abbrev pub sys_read : ℕ → ℕ → Prog ReadResult
  sys_read fd count = call (λ t. os.read t fd count) (Event.read fd count)

  abbrev pub sys_write : ℕ → Bytes → Prog WriteResult
  sys_write fd bytes = call (λ t. os.write t fd bytes) (Event.write fd bytes)

  abbrev pub malloc : ℕ → Prog Bytes
  malloc count = call (λ t. os.malloc t count) (λ _. Event.malloc count)

  -- The contents of a local array before anything is stored in it.
  abbrev pub uninitialised : ℕ → Prog Bytes
  uninitialised count = λ t. pure (os.scratch t count) t

  abbrev pub fopen : Bytes → Prog Bool
  fopen name = call (λ t. os.fopen t name) (Event.fopen name)

  abbrev pub fread : ℕ → Prog Bytes
  fread count = call (λ t. os.fread t count) Event.fread

  abbrev pub fwrite : Bytes → Prog ℕ
  fwrite bytes = call (λ t. os.fwrite t bytes) (Event.fwrite bytes)

  abbrev pub getaddrinfo : Option Bytes → Option Bytes → Prog (Option (List ℕ))
  getaddrinfo host port = call (λ t. os.getaddrinfo t host port) (Event.getaddrinfo host port)

  abbrev pub socket : Prog (Option ℕ)
  socket = call os.socket Event.socket

  abbrev pub setsockopt : ℕ → Prog Bool
  setsockopt fd = call (λ t. os.setsockopt t fd) (Event.setsockopt fd)

  abbrev pub connect : ℕ → ℕ → Prog Bool
  connect fd address = call (λ t. os.connect t fd address) (Event.connect fd address)

  abbrev pub bind : ℕ → Option Bytes → ℕ → Prog Bool
  bind fd address port = call (λ t. os.bind t fd address port) (Event.bind fd address port)

  abbrev pub listen : ℕ → Prog Bool
  listen fd = call (λ t. os.listen t fd) (Event.listen fd)

  abbrev pub accept : ℕ → Prog (Option ℕ)
  accept fd = call (λ t. os.accept t fd) (Event.accept fd)

abbrev pub gss_release_name : ℕ → Prog (Unit {0})
gss_release_name name = emit (Event.gss_release_name (some name))

abbrev pub gss_release_no_name : Prog (Unit {0})
gss_release_no_name = emit (Event.gss_release_name none)

abbrev pub gss_release_buffer : Bytes → Prog (Unit {0})
gss_release_buffer buffer = emit (Event.gss_release_buffer buffer)

abbrev pub gss_release_cred : ℕ → Prog (Unit {0})
gss_release_cred cred = emit (Event.gss_release_cred cred)

abbrev pub gss_release_oid_set : List Oid → Prog (Unit {0})
gss_release_oid_set mechs = emit (Event.gss_release_oid_set mechs)

module _ (gss : Gss) where
  -- The two releases where the minor status is looked at afterwards.
  abbrev pub gss_release_name_status : ℕ → Prog ℕ
  gss_release_name_status name =
      call (λ t. gss.release_name t name) (λ _. Event.gss_release_name (some name))

  abbrev pub gss_release_buffer_status : Bytes → Prog ℕ
  gss_release_buffer_status buffer =
      call (λ t. gss.release_buffer t buffer) (λ _. Event.gss_release_buffer buffer)

  abbrev pub gss_import_name : Bytes → Prog NameReply
  gss_import_name value = call (λ t. gss.import_name t value) (Event.gss_import_name value)

  abbrev pub gss_display_name : ℕ → Prog TextReply
  gss_display_name name = call (λ t. gss.display_name t name) (Event.gss_display_name name)

  abbrev pub gss_display_status : StatusValue → ℕ → Prog StatusReply
  gss_display_status value more =
      call (λ t. gss.display_status t value more) (Event.gss_display_status value more)

  abbrev pub gss_acquire_cred : ℕ → Prog CredReply
  gss_acquire_cred name = call (λ t. gss.acquire_cred t name) (Event.gss_acquire_cred name)

  abbrev pub gss_init_sec_context : InitArgs → Prog InitReply
  gss_init_sec_context args =
      call (λ t. gss.init_sec_context t args) (Event.gss_init_sec_context args)

  abbrev pub gss_accept_sec_context : AcceptArgs → Prog AcceptReply
  gss_accept_sec_context args =
      call (λ t. gss.accept_sec_context t args) (Event.gss_accept_sec_context args)

  abbrev pub gss_delete_sec_context : Context → Prog Major
  gss_delete_sec_context context =
      call (λ t. gss.delete_sec_context t context) (Event.gss_delete_sec_context context)

  abbrev pub gss_inquire_context : Context → Prog InquireReply
  gss_inquire_context context =
      call (λ t. gss.inquire_context t context) (Event.gss_inquire_context context)

  abbrev pub gss_wrap_size_limit : Context → Bool → ℕ → Prog LimitReply
  gss_wrap_size_limit context conf size =
      call (λ t. gss.wrap_size_limit t context conf size)
        (Event.gss_wrap_size_limit context conf size)

  abbrev pub gss_wrap : Context → Bool → Bytes → Prog WrapReply
  gss_wrap context conf input =
      call (λ t. gss.wrap t context conf input) (Event.gss_wrap context conf input)

  abbrev pub gss_unwrap : Context → Bytes → Prog UnwrapReply
  gss_unwrap context input = call (λ t. gss.unwrap t context input) (Event.gss_unwrap context input)

  abbrev pub gss_get_mic : Context → Bytes → Prog MicReply
  gss_get_mic context message =
      call (λ t. gss.get_mic t context message) (Event.gss_get_mic context message)

  abbrev pub gss_verify_mic : Context → Bytes → Bytes → Prog VerifyReply
  gss_verify_mic context message mic =
      call (λ t. gss.verify_mic t context message mic) (Event.gss_verify_mic context message mic)

  abbrev pub gss_indicate_mechs : Prog MechsReply
  gss_indicate_mechs = call gss.indicate_mechs Event.gss_indicate_mechs

  abbrev pub gss_test_oid_set_member : Oid → List Oid → Prog MemberReply
  gss_test_oid_set_member oid mechs =
      call (λ t. gss.test_oid_set_member t oid mechs) (Event.gss_test_oid_set_member oid mechs)

abbrev pub krb5_free : String → Argument → Prog (Unit {0})
krb5_free function argument = emit (Event.krb5_free function argument)

module _ (krb : Krb) where
  abbrev pub krb5_init_context : Prog HandleReply
  krb5_init_context = call krb.init_context Event.krb5_init_context

  abbrev pub krb5_kt_resolve : Bytes → Prog HandleReply
  krb5_kt_resolve name = call (λ t. krb.kt_resolve t name) (Event.krb5_kt_resolve name)

  abbrev pub krb5_sname_to_principal : Option Bytes → Option Bytes → Prog HandleReply
  krb5_sname_to_principal host service =
      call (λ t. krb.sname_to_principal t host service) (Event.krb5_sname_to_principal host service)

  abbrev pub krb5_unparse_name : ℕ → Prog UnparseReply
  krb5_unparse_name principal =
      call (λ t. krb.unparse_name t principal) (Event.krb5_unparse_name principal)

  abbrev pub krb5_cc_default : Prog HandleReply
  krb5_cc_default = call krb.cc_default Event.krb5_cc_default

  abbrev pub krb5_cc_get_principal : ℕ → Prog HandleReply
  krb5_cc_get_principal cache =
      call (λ t. krb.cc_get_principal t cache) (Event.krb5_cc_get_principal cache)

  -- The socket, the client and the server, and the application data.
  abbrev pub krb5_sendauth : ℕ → ℕ → ℕ → Bytes → Prog HandleReply
  krb5_sendauth sock client server input =
      call (λ t. krb.sendauth t sock client server input)
        (Event.krb5_sendauth sock client server input)

  -- The socket, the server, and the keytab, `none` for the default one.
  abbrev pub krb5_recvauth : ℕ → ℕ → Option ℕ → Prog RecvauthReply
  krb5_recvauth sock server keytab =
      call (λ t. krb.recvauth t sock server keytab) (Event.krb5_recvauth sock server keytab)

abbrev pub asn_fprint : Schema → DecodeReply → Prog (Unit {0})
asn_fprint schema r = emit (Event.asn_fprint schema r)

abbrev pub asn_struct_free : Schema → Prog (Unit {0})
asn_struct_free schema = emit (Event.asn_struct_free schema)

abbrev pub put_byte : ℕ → Prog (Unit {0})
put_byte byte = emit (Event.put_byte byte)

abbrev pub put_newline : Prog (Unit {0})
put_newline = emit Event.put_newline

abbrev pub ber_decode : Asn → Schema → Bytes → Prog DecodeReply
ber_decode asn schema buffer =
    call (λ t. asn.ber_decode t schema buffer) (Event.ber_decode schema buffer)
