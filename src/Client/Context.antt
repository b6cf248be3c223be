-- ===== src/Client/Context.antt =====
-- establish_context of application/gssapi/client.c.
pub mod Lives
pub mod Closed
pub mod Returns
pub mod Names
pub mod Spoken
pub mod Established
use kerberos.Base.{
  ℕ, zero, suc, ◌+◌, Bool, true, false, not, ◌||◌, Option, none, some, List, [], ◌∷◌, ◌++◌, ◌==◌,
  if◌then◌else◌, length, bit_or,
}
use kerberos.World.{
  Argument, Bytes, Status, success, failure, Major, Context, Oid, InitArgs, InitReply, Os, Gss,
  hung, Prog, pure, ◌>>=◌, ◌>>◌, printf, gss_import_name, gss_init_sec_context, gss_release_name,
  gss_release_buffer, gss_release_buffer_status, gss_delete_sec_context,
}
use kerberos.Wire.{send_token, recv_token}
use kerberos.Display.{is_complete, is_continue, display_status}
use kerberos.Recording.{token_filename, record_token}

-- "client_token_send_" and "client_token_recv_"
abbrev pub send_prefix : Bytes
send_prefix =
    b'c' ∷ b'l' ∷ b'i' ∷ b'e' ∷ b'n' ∷ b't' ∷ b'_' ∷ b't' ∷ b'o' ∷ b'k' ∷ b'e' ∷ b'n' ∷ b'_' ∷ b's'
    ∷ b'e' ∷ b'n' ∷ b'd' ∷ b'_' ∷ []

abbrev pub recv_prefix : Bytes
recv_prefix =
    b'c' ∷ b'l' ∷ b'i' ∷ b'e' ∷ b'n' ∷ b't' ∷ b'_' ∷ b't' ∷ b'o' ∷ b'k' ∷ b'e' ∷ b'n' ∷ b'_' ∷ b'r'
    ∷ b'e' ∷ b'c' ∷ b'v' ∷ b'_' ∷ []

-- What one round of the loop leaves: the function returns -1, or the body is at its end, with the
-- context, `maj_stat`, what `recv_tok_ptr` points at, and `token_count`.
pub data Round : Type 0 where
  stop : Context → Round
  over : Context → Major → Option Bytes → ℕ → Round

module _ (os : Os) (gss : Gss) (fuel : ℕ) where
  -- `if(record_tokens)`: the result is `token_count`.
  unfoldable pub record_if : Bool → Bytes → ℕ → Bytes → Prog ℕ
  record_if false prefix token_count token = pure token_count
  record_if true prefix token_count token = do
    filename ← token_filename prefix token_count
    printf "client: recording token in %s\n" (Argument.bytes filename ∷ [])
    record_token os token filename
    pure (token_count + 1)

  -- A buffer keeps its address when it is released, and is empty then. The result is `min_stat`.
  abbrev pub release_input : Option Bytes → ℕ → Prog ℕ
  release_input none min_stat = pure min_stat
  release_input (some token) min_stat = gss_release_buffer_status gss token

  abbrev pub emptied : Option Bytes → Option Bytes
  emptied none = none
  emptied (some token) = some []

  -- `if(GSS_S_CONTINUE_NEEDED == maj_stat)` behind a token that was sent.
  unfoldable pub await_token : ℕ → ℕ → Bool → InitReply → Option Bytes → ℕ → Prog Round
  await_token fd target_name record_tokens r input token_count =
      if not (is_continue r.major)
      then pure (over r.context r.major input token_count)
      else printf "Continue needed...\n" [] >> recv_token os fuel fd >>= λ received. elim received [
        | none ↦ gss_release_name target_name >> pure (stop r.context)
        | some token ↦ record_if record_tokens recv_prefix token_count token >>= λ count.
            pure (over r.context r.major (some token) count)
      ]

  -- `if(send_tok.length > 0)`
  unfoldable pub offer_token : ℕ → ℕ → Bool → InitReply → Option Bytes → ℕ → Prog Round
  offer_token fd target_name record_tokens r input token_count =
      if length r.output == 0
      then pure (over r.context r.major input token_count)
      else printf "client: Sending token to server\n" []
        >> record_if record_tokens send_prefix token_count r.output
        >>= λ count. send_token os fuel fd r.output >>= λ st. elim st [
          | failure ↦ do
            gss_release_name target_name
            gss_release_buffer r.output
            deleted ← gss_delete_sec_context gss r.context
            pure (stop (if is_complete deleted then none else r.context))
          | success ↦ do
            gss_release_buffer r.output
            await_token fd target_name record_tokens r input count
        ]

  -- The error branch behind `gss_init_sec_context`.
  unfoldable pub reject : ℕ → InitReply → ℕ → Prog Round
  reject target_name r min_stat = do
    display_status gss fuel "client gss_init_sec_context" r.major min_stat
    gss_release_name target_name
    pure (stop r.context)

  -- The body of the loop. The test of `ctx`, a pointer that is never null, is left out.
  unfoldable pub establish_round :
      ℕ → ℕ → Option Oid → Bool → Context → Option Bytes → ℕ → Prog Round
  establish_round fd target_name mech_type record_tokens context input token_count = do
    r ← gss_init_sec_context gss (record {
      context = context;
      target = target_name;
      mech = mech_type;
      request = bit_or gss.mutual_flag gss.replay_flag;
      input = input;
    })
    min_stat ← release_input input r.minor
    if not (is_complete r.major || is_continue r.major)
        then reject target_name r min_stat
        else offer_token fd target_name record_tokens r (emptied input) token_count

  unfoldable pub establish_loop :
      ℕ → ℕ → ℕ → Option Oid → Bool → Context → Option Bytes → ℕ → Prog (Status × Context)
  establish_loop zero fd target_name mech_type record_tokens context input token_count = λ _. hung
  establish_loop (suc rounds) fd target_name mech_type record_tokens context input token_count =
      establish_round fd target_name mech_type record_tokens context input token_count >>= λ b.
      elim b [
        | stop ctx ↦ pure (failure, ctx)
        | over ctx major next count ↦
            if is_continue major
            then establish_loop rounds fd target_name mech_type record_tokens ctx next count
            else gss_release_name target_name >> pure (success, ctx)
      ]

  -- The result is the return value and `*ctx`, which nothing has set if the import fails.
  unfoldable pub establish_context : ℕ → Bytes → Option Oid → Bool → Prog (Status × Context)
  establish_context fd service_name mech_type record_tokens = do
    n ← gss_import_name gss (service_name ++ (0 ∷ []))
    if not (is_complete n.major)
        then display_status gss fuel "client gss_import_name" n.major n.minor
          >> pure (failure, none)
        else establish_loop fuel fd n.name mech_type record_tokens none none 0
