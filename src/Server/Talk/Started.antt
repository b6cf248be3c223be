-- ===== src/Server/Talk/Started.antt =====
-- What the server of application/gssapi/server.c does before it serves a connection closes nothing.
use kerberos.Base.{ℕ, ◌≡◌, Option, List, [], ◌∷◌, arith}
use kerberos.World.{
  bind_rule, Bytes, Opt, Getopt, Trace, Os, Gss, Run, done, Prog, and_then, Sockets, sockets,
  sockets-Ignores,
}
use kerberos.Display.Plain.{display_status-Keeps}
use kerberos.Server.Args.{
  Options, take_operands, apply_option, apply_options, parse_args, usage, option_string, defaults,
}
use kerberos.Server.Listen.{acquire_creds, create_socket, bind_socket, receive_connection}

-- If the run returns, the descriptors are as they were.
abbrev pub LeavesOpen : {A : Type 0} → Sockets → Run A → Type 0
LeavesOpen s (done a u) = sockets u ≡ s
LeavesOpen s _ = Unit

pub LeavesOpen-bind :
    {A B : Type 0} (s : Sockets) (r : Run A) (k : A → Prog B)
    → LeavesOpen s r
    → ((a : A) (u : Trace) → sockets u ≡ s → LeavesOpen s (k a u))
    → LeavesOpen s (and_then r k)
LeavesOpen-bind s r k h next =
    bind_rule (LeavesOpen s) r k (λ _ _. tt) tt tt (λ a u e. next a u (rw e at h))

module _ (os : Os) (s : Sockets) where
  apply_options-LeavesOpen :
      (opts : List Opt) (options : Options) (t : Trace)
      → sockets t ≡ s
      → LeavesOpen s (apply_options os opts options t)
  unfolding apply_options apply_option usage sockets
  apply_options-LeavesOpen [] options t h = h
  apply_options-LeavesOpen (o ∷ rest) options t h = grind (arith, apply_options-LeavesOpen rest)

  take_operands-LeavesOpen :
      (options : Options) (operands : List Bytes) (t : Trace)
      → sockets t ≡ s
      → LeavesOpen s (take_operands options operands t)
  unfolding take_operands usage sockets
  take_operands-LeavesOpen options operands t h = ground arith

  pub parse_args-LeavesOpen :
      (getopt : Getopt) (argv : List Bytes) (t : Trace)
      → sockets t ≡ s
      → LeavesOpen s (parse_args os getopt argv t)
  unfolding parse_args
  parse_args-LeavesOpen getopt argv t h =
      LeavesOpen-bind s (apply_options os (getopt option_string argv).0 defaults t) _
        (apply_options-LeavesOpen _ _ t h) (λ options u e. take_operands-LeavesOpen options _ u e)

  pub acquire_creds-LeavesOpen :
      (gss : Gss) (fuel : ℕ) (service : Bytes) (t : Trace)
      → sockets t ≡ s
      → LeavesOpen s (acquire_creds gss fuel service t)
  unfolding acquire_creds sockets
  acquire_creds-LeavesOpen gss fuel service t h =
      grind (arith, display_status-Keeps sockets sockets-Ignores gss fuel)

  pub create_socket-LeavesOpen : (t : Trace) → sockets t ≡ s → LeavesOpen s (create_socket os t)
  unfolding create_socket sockets
  create_socket-LeavesOpen t h = grind arith

  pub bind_socket-LeavesOpen :
      (fd : ℕ) (addr : Option Bytes) (port : ℕ) (t : Trace)
      → sockets t ≡ s
      → LeavesOpen s (bind_socket os fd addr port t)
  unfolding bind_socket sockets
  bind_socket-LeavesOpen fd addr port t h = grind arith

  pub receive_connection-LeavesOpen :
      (fd : ℕ) (t : Trace) → sockets t ≡ s → LeavesOpen s (receive_connection os fd t)
  unfolding receive_connection sockets
  receive_connection-LeavesOpen fd t h = grind arith
