-- ===== src/Client/Call.antt =====
-- call_server and main of application/gssapi/client.c. call_server is cut into the stages that
-- follow one another in it.
pub mod Confirmed
pub mod Spoken
pub mod Delivered
pub mod Exits
pub mod Lives
pub mod Plain
pub mod Closing
pub mod Closed
pub mod Returns
pub mod Follows
pub mod Stages
use kerberos.Base.{
  ℕ, ◌+◌, Bool, true, false, not, Option, none, some, List, [], ◌∷◌, ◌++◌, if◌then◌else◌,
}
use kerberos.World.{
  Argument, Bytes, Status, success, failure, Major, Context, Oid, InquireReply, Getopt, Os, Gss,
  Prog, pure, exit, ◌>>=◌, ◌>>◌, printf, close, gss_inquire_context, gss_wrap_size_limit,
  gss_display_name, gss_wrap, gss_verify_mic, gss_release_name, gss_release_buffer,
  gss_delete_sec_context,
}
use kerberos.Wire.{send_token, recv_token}
use kerberos.Display.{is_complete, is_no_context, has_flag, display_context_flags, display_status}
use kerberos.Mechs.{translate_mech_to_oid}
use kerberos.Client.Args.{Arguments, parse_args}
use kerberos.Client.Connect.{connect_to_server}
use kerberos.Client.Context.{establish_context}

-- "not sure why, this is TCP.."
abbrev pub req_output_size : ℕ
req_output_size = 1012

-- What `%s` prints of a string that may be null.
abbrev pub mech_argument : Option Bytes → Argument
mech_argument none = Argument.text "(null)"
mech_argument (some mech) = Argument.bytes mech

module _ (os : Os) (gss : Gss) (fuel : ℕ) where
  -- The verification of the tag that the server sent back, and the orderly end.
  unfoldable pub verify_reply : ℕ → Context → Bytes → Bytes → Prog Status
  verify_reply sock context in_buff out_buffer =
      gss_verify_mic gss context in_buff out_buffer >>= λ v.
      if not (is_complete v.major)
      then display_status gss fuel "client gss_verify_mic" v.major v.minor
        >> close sock
        >> pure failure
      else gss_release_buffer out_buffer >> gss_delete_sec_context gss context >>= λ maj_stat.
          if not (is_complete maj_stat)
          then printf "gss_delete_sec_context failed\n" [] >> pure failure
          else close sock >> pure success

  -- From the choice of confidentiality on: the message is wrapped and sent, and the reply received.
  unfoldable pub exchange : ℕ → Context → ℕ → Bytes → Prog Status
  exchange sock context context_flags message =
      let in_buff = message ++ (0 ∷ []) in
      gss_wrap gss context (has_flag context_flags gss.conf_flag) in_buff >>= λ w.
      if not (is_complete w.major)
      then display_status gss fuel "client gss_wrap" w.major w.minor >> pure failure
      else (if not w.conf
          then printf "client: Warning! No confidentiality provided !\n" []
          else pure tt)
        >> send_token os fuel sock w.output
        >>= λ st. elim st [
          | failure ↦
              printf "couldn't send message to peer\n" []
              >> gss_release_buffer w.output
              >> pure failure
          | success ↦ gss_release_buffer w.output >> recv_token os fuel sock >>= λ received.
              elim received [
                | none ↦
                    printf "couldn't receive verification message from peer\n" []
                    >> gss_delete_sec_context gss context
                    >> pure failure
                | some out_buffer ↦ verify_reply sock context in_buff out_buffer
              ]
        ]

  -- An error of the queries about the context: both names are released, and the context deleted.
  unfoldable pub abandon : Context → ℕ → ℕ → Prog Status
  abandon context src_name target_name = do
    gss_release_name src_name
    gss_release_name target_name
    gss_delete_sec_context gss context
    pure failure

  -- The names of the two ends, the line about the context, and the release of all four.
  unfoldable pub show_names : ℕ → Context → InquireReply → Bytes → Prog Status
  show_names sock context q message = gss_display_name gss q.source >>= λ sname.
      if not (is_complete sname.major)
      then display_status gss fuel "client gss_display_name" sname.major sname.minor
        >> abandon context q.source q.target
      else gss_display_name gss q.target >>= λ tname.
          if not (is_complete tname.major)
          then display_status gss fuel "client gss_display_name" tname.major tname.minor
            >> gss_release_name q.source
            >> gss_release_name q.target
            >> gss_release_buffer sname.text
            >> gss_delete_sec_context gss context
            >> pure failure
          else do
            printf "client: %s to %s, lifetime: %u, %s\n" (
                Argument.bytes sname.text
                ∷ Argument.bytes tname.text
                ∷ Argument.number q.lifetime
                ∷ Argument.text (if q.is_open then "open" else "close")
                ∷ [])
            gss_release_name q.source
            gss_release_name q.target
            gss_release_buffer sname.text
            gss_release_buffer tname.text
            exchange sock context q.flags message

  -- The two limits for a wrapped message, without and with confidentiality.
  unfoldable pub show_limits : ℕ → Context → InquireReply → Bytes → Prog Status
  show_limits sock context q message =
      gss_wrap_size_limit gss context false req_output_size >>= λ plain.
      if not (is_complete plain.major)
      then display_status gss fuel "client gss_wrap_size_limit" plain.major plain.minor
        >> abandon context q.source q.target
      else printf "client: max input size without confidentiality: %d\n"
          (Argument.number plain.max_input ∷ [])
        >> gss_wrap_size_limit gss context true req_output_size
        >>= λ sealed.
            if not (is_complete sealed.major)
            then display_status gss fuel "client gss_wrap_size_limit" sealed.major sealed.minor
              >> abandon context q.source q.target
            else printf "client: max input size with confidentiality: %d\n"
                (Argument.number sealed.max_input ∷ [])
              >> show_names sock context q message

  -- `gss_inquire_context`, its two error tests, and all that follows.
  unfoldable pub inquire : ℕ → Context → Bytes → Prog Status
  inquire sock context message = gss_inquire_context gss context >>= λ q.
      if is_no_context q.major
      then printf "context could not be accessed\n" []
        >> gss_delete_sec_context gss context
        >> pure failure
      else if not (is_complete q.major)
      then display_status gss fuel "client gss_inquire_context" q.major q.minor
        >> gss_delete_sec_context gss context
        >> pure failure
      else do
        printf "client: context flags:\n" []
        display_context_flags gss q.flags
        show_limits sock context q message

  -- The mechanism asked for; none is the default one.
  unfoldable pub request_mech : Option Bytes → Prog (Status × Option Oid)
  request_mech none = pure (success, none)
  request_mech (some mech_str) = translate_mech_to_oid gss fuel mech_str

  unfoldable pub call_server : Bytes → Bytes → Option Bytes → Bytes → Bytes → Bool → Prog Status
  call_server host port mech_str service message record_tokens = request_mech mech_str >>= λ m.
      elim m.0 [
        | failure ↦ pure failure
        | success ↦ connect_to_server os host port >>= λ s. elim s [
          | none ↦ printf "failed to connect to server\n" [] >> pure failure
          | some sock ↦ establish_context os gss fuel sock service m.1 record_tokens >>= λ c.
              elim c.0 [
                | failure ↦ printf "context establishment failed\n" [] >> close sock >> pure failure
                | success ↦ inquire sock c.1 message
              ]
        ]
      ]

  -- The exit status of the process.
  unfoldable pub main : Getopt → List Bytes → Prog ℕ
  main getopt argv = do
    a ← parse_args getopt argv
    printf "host: %s, port: %s, service: %s, mech: %s, message: %s\n" (
        Argument.bytes a.host
        ∷ Argument.bytes a.port
        ∷ Argument.bytes a.service
        ∷ mech_argument a.options.mech
        ∷ Argument.bytes a.message
        ∷ [])
    st ← call_server a.host a.port a.options.mech a.service a.message a.options.record_tokens
    elim st [ failure ↦ printf "call server failed !\n" [] >> pure 1 | success ↦ pure 0 ]
