-- ===== src/Display.antt =====
-- application/gssapi/utils.c: the functions that print flags, status codes and OIDs.
pub mod Plain
pub mod Order
pub mod Flags
use Prim.Native.String.{String}
use kerberos.Base.{
  ℕ, zero, suc, ◌+◌, Bool, true, false, not, List, [], ◌∷◌, ◌==◌, if◌then◌else◌, length, bit_and,
}
use kerberos.World.{
  Argument, Bytes, Major, complete, continue_needed, no_context, other_status, StatusValue,
  gss_code, mech_code, Oid, Gss, hung, Prog, pure, ◌>>=◌, ◌>>◌, printf, gss_display_status,
  gss_release_buffer,
}

-- `GSS_S_COMPLETE == maj_stat`
abbrev pub is_complete : Major → Bool
is_complete complete = true
is_complete _ = false

-- `GSS_S_CONTINUE_NEEDED == maj_stat`
abbrev pub is_continue : Major → Bool
is_continue continue_needed = true
is_continue _ = false

-- `GSS_S_NO_CONTEXT == maj_stat`
abbrev pub is_no_context : Major → Bool
is_no_context no_context = true
is_no_context _ = false

-- `flags & bit`, as a condition.
abbrev pub has_flag : ℕ → ℕ → Bool
has_flag flags bit = not (bit_and flags bit == 0)

abbrev pub print_if : Bool → String → Prog (Unit {0})
print_if true text = printf text []
print_if false text = pure tt

module _ (gss : Gss) where
  unfoldable pub display_context_flags : ℕ → Prog (Unit {0})
  display_context_flags flags = do
    print_if (has_flag flags gss.deleg_flag) "context flag: GSS_C_DELEG_FLAG\n"
    print_if (has_flag flags gss.mutual_flag) "context flag: GSS_C_MUTUAL_FLAG\n"
    print_if (has_flag flags gss.replay_flag) "context flag: GSS_C_REPLAY_FLAG\n"
    print_if (has_flag flags gss.sequence_flag) "context flag: GSS_C_SEQUENCE_FLAG\n"
    print_if (has_flag flags gss.conf_flag) "context flag: GSS_C_CONF_FLAG\n"
    print_if (has_flag flags gss.integ_flag) "context flag: GSS_C_INTEG_FLAG\n"

  abbrev pub api_name : StatusValue → String
  api_name (gss_code _) = "GSS-API"
  api_name (mech_code _) = "MECHANISM"

  -- `if(status_message.length > 0)`
  unfoldable pub show_message : String → StatusValue → Bytes → Prog (Unit {0})
  show_message msg value status_message =
      if length status_message == 0
      then pure tt
      else printf "GSS-API ERROR (%s): %s: %s\n"
          (Argument.text (api_name value) ∷ Argument.text msg ∷ Argument.bytes status_message ∷ [])

  -- The loop, with `should_continue` for the message context that goes in and comes out.
  unfoldable pub display_status_loop : ℕ → String → StatusValue → ℕ → Prog (Unit {0})
  display_status_loop zero msg value should_continue = λ _. hung
  display_status_loop (suc fuel) msg value should_continue =
      gss_display_status gss value should_continue >>= λ r.
      if not (is_complete r.major)
      then printf "gss_display_status failed ! %s\n" (Argument.text msg ∷ [])
      else show_message msg value r.text
        >> gss_release_buffer r.text
        >> (if r.more == 0 then pure tt else display_status_loop fuel msg value r.more)

  unfoldable pub display_status_aux : ℕ → String → StatusValue → Prog (Unit {0})
  display_status_aux fuel msg value = display_status_loop fuel msg value 0

  unfoldable pub display_status : ℕ → String → Major → ℕ → Prog (Unit {0})
  display_status fuel msg maj_stat min_stat = do
    display_status_aux fuel msg (gss_code maj_stat)
    display_status_aux fuel msg (mech_code min_stat)

-- The loop of `print_oid`: each octet of what is left.
unfoldable pub print_octets : Oid → Prog (Unit {0})
print_octets [] = pure tt
print_octets (octet ∷ rest) = printf "0x%x " (Argument.number octet ∷ []) >> print_octets rest

unfoldable pub print_oid : Oid → Prog (Unit {0})
print_oid oid = do
  printf "length: %d\n" (Argument.number (length oid) ∷ [])
  printf "content: " []
  print_octets oid
  printf "\n" []
