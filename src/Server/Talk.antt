-- ===== src/Server/Talk.antt =====
-- sign_message, talk_to_client and main of application/gssapi/server.c.
pub mod Deleted
pub mod Signed
pub mod Misuse
pub mod Accepts
pub mod Exits
pub mod Started
pub mod Lives
pub mod Spoken
pub mod Plain
pub mod Closed
pub mod Returns
use Prim.Native.String.{String}
use kerberos.Base.{ℕ, Bool, true, false, not, Option, none, some, List, [], ◌∷◌, if◌then◌else◌}
use kerberos.World.{
  Argument, Bytes, Status, success, failure, Major, Context, Getopt, Os, Gss, fault, Prog, pure,
  exit, ◌>>=◌, ◌>>◌, printf, close, gss_unwrap, gss_get_mic, gss_release_buffer,
  gss_delete_sec_context,
}
use kerberos.Wire.{send_token, recv_token}
use kerberos.Display.{is_complete}
use kerberos.Server.Args.{Options, Arguments, parse_args}
use kerberos.Server.Listen.{acquire_creds, create_socket, bind_socket, receive_connection}
use kerberos.Server.Context.{refused, established, establish_context}

module _ (os : Os) (gss : Gss) (fuel : ℕ) where
  -- An error test of `sign_message` that deletes its copy of the handle, and goes on. The library
  -- sets the handle to GSS_C_NO_CONTEXT if it could delete the context.
  unfoldable pub delete_if_failed : Major → String → Context → Prog Context
  delete_if_failed maj_stat text context =
      if not (is_complete maj_stat)
      then (printf text [] >> gss_delete_sec_context gss context >>= λ deleted.
          pure (if is_complete deleted then none else context))
      else pure context

  -- The last part of `sign_message`: the tag is sent.
  unfoldable pub send_mic : ℕ → Context → Bytes → Prog Status
  send_mic fd context mic = send_token os fuel fd mic >>= λ st. elim st [
    | failure ↦ do
      printf "server: couldn't send verification message to client\n" []
      gss_release_buffer mic
      gss_delete_sec_context gss context
      gss_release_buffer []
      pure success
    | success ↦ gss_release_buffer mic >> pure success
  ]

  -- The part of `sign_message` behind the receipt of the token. A message that the library has not
  -- set cannot be printed: its address is not initialised.
  unfoldable pub sign_token : ℕ → Context → Bytes → Prog Status
  sign_token fd context recv_tok = do
    u ← gss_unwrap gss context recv_tok
    after_unwrap ← delete_if_failed u.major "server: gss_unwrap failed !\n" context
    if not u.conf then printf "Warning ! message not encrypted!\n" [] else pure tt
    gss_release_buffer recv_tok
    printf "server: received message:\n" []
    elim u.output [
      | none ↦ λ _. fault
      | some message ↦ do
        printf "%s\n" (Argument.bytes message ∷ [])
        m ← gss_get_mic gss after_unwrap message
        gss_release_buffer message
        after_mic ← delete_if_failed m.major "server: gss_get_mic failed\n" after_unwrap
        send_mic fd after_mic m.output
    ]

  unfoldable pub sign_message : ℕ → Context → Prog Status
  sign_message fd context = recv_token os fuel fd >>= λ received. elim received [
    | none ↦ do
      printf "server: couldn't receive token from client" []
      gss_delete_sec_context gss context
      pure failure
    | some recv_tok ↦ sign_token fd context recv_tok
  ]

  -- The part of `talk_to_client` on the connection. The handle is passed to `sign_message` by
  -- value, so that what is deleted at the end is the handle that the context was established with.
  unfoldable pub serve : ℕ → ℕ → Bool → Prog Status
  serve cfd server_creds record_tokens =
      establish_context os gss fuel cfd server_creds record_tokens >>= λ e. elim e [
        | refused ↦ printf "server: couldn't establish context\n" [] >> pure failure
        | established context client_name ↦
            printf "server: context established with: %s\n" (Argument.bytes client_name ∷ [])
            >> gss_release_buffer client_name
            >> sign_message cfd context
            >>= λ st. elim st [
              | failure ↦ printf "server: talk_to_client failed\n" [] >> pure failure
              | success ↦ gss_delete_sec_context gss context >> close cfd >> pure success
            ]
      ]

  unfoldable pub talk_to_client : ℕ → Bytes → Bool → Prog Status
  talk_to_client port service record_tokens = acquire_creds gss fuel service >>= λ acquired.
      elim acquired [
        | none ↦ printf "server: couldn't acquire creds\n" [] >> exit 1
        | some server_creds ↦ create_socket os >>= λ sock.
            bind_socket os sock none port >>= λ bound. elim bound [
              | failure ↦ printf "server: couldn't bind socket\n" [] >> pure failure
              | success ↦ receive_connection os sock >>= λ cfd. serve cfd server_creds record_tokens
            ]
      ]

  -- The exit status of the process; -1 is 255.
  unfoldable pub main : Getopt → List Bytes → Prog ℕ
  main getopt argv = do
    a ← parse_args os getopt argv
    printf "port: %d, service: %s\n"
        (Argument.number a.options.port ∷ Argument.bytes a.service ∷ [])
    st ← talk_to_client a.options.port a.service a.options.record_tokens
    elim st [ failure ↦ pure 255 | success ↦ pure 0 ]
