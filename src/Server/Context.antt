-- ===== src/Server/Context.antt =====
-- establish_context of application/gssapi/server.c.
pub mod Accepted
pub mod Lives
pub mod Spoken
pub mod Finished
pub mod Misuse
pub mod Twice
pub mod Returns
use kerberos.Base.{
  ℕ, zero, suc, ◌+◌, Bool, true, false, not, ◌||◌, Option, none, some, List, [], ◌∷◌, ◌==◌,
  if◌then◌else◌, length,
}
use kerberos.World.{
  Argument, Bytes, Status, success, failure, Context, AcceptReply, Os, Gss, hung, Prog, pure, ◌>>=◌,
  ◌>>◌, printf, gss_accept_sec_context, gss_display_name, gss_release_name, gss_release_name_status,
  gss_release_buffer_status, gss_release_no_name, gss_release_buffer, gss_release_cred,
  gss_delete_sec_context,
}
use kerberos.Wire.{send_token, recv_token}
use kerberos.Display.{is_complete, is_continue, display_context_flags, display_status}
use kerberos.Recording.{token_filename, record_token}

-- "server_token_send_" and "server_token_recv_"
abbrev pub send_prefix : Bytes
send_prefix =
    b's' ∷ b'e' ∷ b'r' ∷ b'v' ∷ b'e' ∷ b'r' ∷ b'_' ∷ b't' ∷ b'o' ∷ b'k' ∷ b'e' ∷ b'n' ∷ b'_' ∷ b's'
    ∷ b'e' ∷ b'n' ∷ b'd' ∷ b'_' ∷ []

abbrev pub recv_prefix : Bytes
recv_prefix =
    b's' ∷ b'e' ∷ b'r' ∷ b'v' ∷ b'e' ∷ b'r' ∷ b'_' ∷ b't' ∷ b'o' ∷ b'k' ∷ b'e' ∷ b'n' ∷ b'_' ∷ b'r'
    ∷ b'e' ∷ b'c' ∷ b'v' ∷ b'_' ∷ []

-- What one round of the loop leaves: the function returns -1, or the body is at its end, with
-- `*context`, the reply of the last call, and `token_count`.
pub data Round : Type 0 where
  stop : Round
  over : Context → AcceptReply → ℕ → Round

-- What `establish_context` leaves: -1, or 0 with the context and the client's name.
pub data Established : Type 0 where
  refused : Established
  established : Context → Bytes → Established

module _ (os : Os) (gss : Gss) (fuel : ℕ) where
  -- `if(record_tokens)`: the result is `token_count`.
  unfoldable pub record_if : Bool → Bytes → ℕ → Bytes → Prog ℕ
  record_if false prefix token_count token = pure token_count
  record_if true prefix token_count token = do
    filename ← token_filename prefix token_count
    printf "server: recording token in %s\n" (Argument.bytes filename ∷ [])
    record_token os token filename
    pure (token_count + 1)

  -- `if(send_tok.length > 0)`. A failure to send deletes the context and releases the token, and
  -- the function goes on; the release behind it finds the buffer empty.
  unfoldable pub offer_token : ℕ → Bool → AcceptReply → ℕ → Prog Round
  offer_token fd record_tokens r token_count =
      if length r.output == 0
      then pure (over r.context r token_count)
      else record_if record_tokens send_prefix token_count r.output >>= λ count.
          printf "server: establish_context: sending token to client\n" []
          >> send_token os fuel fd r.output
          >>= λ st. elim st [
            | failure ↦ do
              printf "server: establish_context: couldn't send token to client\n" []
              gss_release_buffer r.output
              deleted ← gss_delete_sec_context gss r.context
              gss_release_buffer []
              pure (over (if is_complete deleted then none else r.context) r count)
            | success ↦ gss_release_buffer r.output >> pure (over r.context r count)
          ]

  -- The body of the loop. `*context` is set to GSS_C_NO_CONTEXT in every round. The test of the
  -- constant GSS_S_CONTINUE_NEEDED, which is not 0, always passes.
  unfoldable pub establish_round : ℕ → ℕ → Bool → ℕ → Prog Round
  establish_round fd server_creds record_tokens token_count = recv_token os fuel fd >>= λ received.
      elim received [
        | none ↦ printf "server: establish_context: couldn't receive token" [] >> pure stop
        | some recv_tok ↦ record_if record_tokens recv_prefix token_count recv_tok >>= λ count.
            gss_accept_sec_context gss
              (record { context = none; cred = server_creds; input = recv_tok })
            >>= λ r. gss_release_buffer_status gss recv_tok >>= λ min_stat.
                if not (is_complete r.major || is_continue r.major)
                then display_status gss fuel "server gss_accept_sec_context" r.major min_stat
                  >> pure stop
                else printf "server: establish_context: continue needed..\n" []
                  >> offer_token fd record_tokens r count
      ]

  -- What follows the loop. A name that could not be displayed is released twice, the second time as
  -- GSS_C_NO_NAME.
  unfoldable pub finish : ℕ → Context → AcceptReply → Prog Established
  finish server_creds context r = do
    printf "server: context established !\n" []
    display_context_flags gss r.flags
    shown ← gss_display_name gss r.client
    if not (is_complete shown.major)
        then (gss_release_name_status gss r.client >>= λ min_stat.
            display_status gss fuel "server gss_display_name" shown.major min_stat
            >> gss_release_no_name)
        else gss_release_name r.client
    gss_release_cred server_creds
    pure (established context shown.text)

  unfoldable pub establish_loop : ℕ → ℕ → ℕ → Bool → ℕ → Prog Established
  establish_loop zero fd server_creds record_tokens token_count = λ _. hung
  establish_loop (suc rounds) fd server_creds record_tokens token_count =
      establish_round fd server_creds record_tokens token_count >>= λ b. elim b [
        | stop ↦ pure refused
        | over context r count ↦
            if not (is_complete r.major)
            then establish_loop rounds fd server_creds record_tokens count
            else finish server_creds context r
      ]

  unfoldable pub establish_context : ℕ → ℕ → Bool → Prog Established
  establish_context fd server_creds record_tokens =
      establish_loop fuel fd server_creds record_tokens 0
