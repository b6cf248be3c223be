-- ===== src/Session.antt =====
-- The life of one security context, as RFC 2743 lets a caller of the GSS-API lead it: a step
-- relation on the calls that take a context. The programs of application/gssapi are held against
-- it.
pub mod Monitor
pub mod Paths
pub mod Runs
use kerberos.Base.{ℕ, ◌≡◌, Bool, true, false, none, List, [], ◌∷◌}
use kerberos.World.{
  Bytes, Major, complete, continue_needed, no_context, other_status, Context, InitArgs, InitReply,
  AcceptArgs, AcceptReply, InquireReply, LimitReply, WrapReply, UnwrapReply, MicReply, VerifyReply,
  Event, Trace,
}

-- `fresh`: there is none yet. `pending`: the last call asked for another one. `ready`: the last
-- call completed it. `broken`: the last call failed. `gone`: it has been deleted.
pub data Life : Type 0 where
  fresh : Life
  pending : Context → Life
  ready : Context → Life
  broken : Context → Life
  gone : Life

-- What a call that establishes a context makes of it.
abbrev pub after : Major → Context → Life
after complete context = ready context
after continue_needed context = pending context
after no_context context = broken context
after (other_status n) context = broken context

-- A call may delete the context that there is.
abbrev pub Holds : Life → Context → Type 0
Holds fresh context = ⊥
Holds (pending held) context = held ≡ context
Holds (ready held) context = held ≡ context
Holds (broken held) context = held ≡ context
Holds gone context = ⊥

-- The first call is given no context, each further one the context that the call before it
-- returned; messages are protected by an established context alone; a context is deleted once.
pub data Step : Life → Event → Life → Type 0 where
  begin_init :
      (args : InitArgs) (r : InitReply)
      → args.context ≡ none
      → Step fresh (Event.gss_init_sec_context args r) (after r.major r.context)
  resume_init :
      (context : Context) (args : InitArgs) (r : InitReply)
      → args.context ≡ context
      → Step (pending context) (Event.gss_init_sec_context args r) (after r.major r.context)
  begin_accept :
      (args : AcceptArgs) (r : AcceptReply)
      → args.context ≡ none
      → Step fresh (Event.gss_accept_sec_context args r) (after r.major r.context)
  resume_accept :
      (context : Context) (args : AcceptArgs) (r : AcceptReply)
      → args.context ≡ context
      → Step (pending context) (Event.gss_accept_sec_context args r) (after r.major r.context)
  inquire :
      (context : Context) (r : InquireReply)
      → Step (ready context) (Event.gss_inquire_context context r) (ready context)
  limit :
      (context : Context) (conf : Bool) (n : ℕ) (r : LimitReply)
      → Step (ready context) (Event.gss_wrap_size_limit context conf n r) (ready context)
  wrap :
      (context : Context) (conf : Bool) (input : Bytes) (r : WrapReply)
      → Step (ready context) (Event.gss_wrap context conf input r) (ready context)
  unwrap :
      (context : Context) (input : Bytes) (r : UnwrapReply)
      → Step (ready context) (Event.gss_unwrap context input r) (ready context)
  get_mic :
      (context : Context) (message : Bytes) (r : MicReply)
      → Step (ready context) (Event.gss_get_mic context message r) (ready context)
  verify_mic :
      (context : Context) (message mic : Bytes) (r : VerifyReply)
      → Step (ready context) (Event.gss_verify_mic context message mic r) (ready context)
  delete :
      (l : Life) (context : Context) (major : Major)
      → Holds l context
      → Step l (Event.gss_delete_sec_context context major) gone

-- A call that takes no context.
abbrev pub is_silent : Event → Bool
is_silent (Event.gss_init_sec_context _ _) = false
is_silent (Event.gss_accept_sec_context _ _) = false
is_silent (Event.gss_inquire_context _ _) = false
is_silent (Event.gss_wrap_size_limit _ _ _ _) = false
is_silent (Event.gss_wrap _ _ _ _) = false
is_silent (Event.gss_unwrap _ _ _) = false
is_silent (Event.gss_get_mic _ _ _) = false
is_silent (Event.gss_verify_mic _ _ _ _) = false
is_silent (Event.gss_delete_sec_context _ _) = false
is_silent _ = true

-- The calls of a trace, the newest first, are a path of the relation from `fresh`.
pub data Follows : Trace → Life → Type 0 where
  start : Follows [] fresh
  silent : (e : Event) (t : Trace) (l : Life) → is_silent e ≡ true → Follows t l → Follows (e ∷ t) l
  moves : (e : Event) (t : Trace) (l m : Life) → Follows t l → Step l e m → Follows (e ∷ t) m
