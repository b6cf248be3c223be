-- ===== src/Tests.antt =====
-- Concrete answers of the external calls, with which the theorems are applied to whole runs.
mod Transfers
mod Client
mod Server
mod Kerberos
mod Lives
mod Dialogue
mod Programs
mod Ends
mod Wires
mod Exits
use kerberos.Base.{
  ◌<◌, ◌≤◌, ◌≡◌, arith, ◌^◌, ◌-◌, ltb, if◌then◌else◌, ℕ, true, false, some, none, List, [], ◌∷◌,
  length, replicate,
}
use kerberos.World.{
  Bytes, Trace, Run, done, exited, fault, hung, Os, Gss, Krb, complete, read_error, got, wrote,
}

-- At most 2^31 - 1.
abbrev pub clamp : ℕ → ℕ
clamp n = if ltb n (2 ^ 31) then n else 2 ^ 31 - 1

pub clamp_le : (n : ℕ) → clamp n ≤ n
clamp_le n = ground arith

pub clamp_lt : (n : ℕ) → clamp n < 2 ^ 31
clamp_lt n = ground arith

pub clamp_pos : (n : ℕ) → 0 < n → 0 < clamp n
clamp_pos n h = ground arith

pub clamp_lem : (n : ℕ) → n < 2 ^ 31 → clamp n ≡ n
clamp_lem n h = ground arith

-- A kernel that delivers zeros, as many as are asked for, and takes what it is given whole, up to
-- 2^31 - 1 bytes.
abbrev pub zeros : Os
zeros = record {
  read = λ t fd n. got (replicate (clamp n) 0);
  write = λ t fd bytes. wrote (clamp (length bytes));
  malloc = λ t n. replicate n 7;
  scratch = λ t n. replicate n 9;
  fopen = λ t name. true;
  fread = λ t n. [];
  fwrite = λ t bytes. length bytes;
  getaddrinfo = λ t host port. some (1 ∷ 2 ∷ []);
  socket = λ t. some 3;
  setsockopt = λ t fd. true;
  connect = λ t fd addr. true;
  bind = λ t fd addr port. true;
  listen = λ t fd. true;
  accept = λ t fd. some 4;
  atoi = λ text. 4444;
}

-- The same kernel, where every read fails.
abbrev pub unreadable : Os
unreadable = record zeros { read = λ t fd n. read_error }

-- The same kernel, at the end of every stream.
abbrev pub at_end : Os
at_end = record zeros { read = λ t fd n. got [] }

-- A GSS-API that completes whatever it is asked for.
abbrev pub agreeable : Gss
agreeable = record {
  deleg_flag = 1;
  mutual_flag = 2;
  replay_flag = 4;
  sequence_flag = 8;
  conf_flag = 16;
  integ_flag = 32;
  release_name = λ t name. 0;
  release_buffer = λ t buffer. 0;
  import_name = λ t name. record { major = complete; minor = 0; name = 5 };
  display_name = λ t name. record { major = complete; minor = 0; text = b'x' ∷ [] };
  display_status = λ t value more. record { major = complete; more = 0; text = [] };
  acquire_cred = λ t name. record { major = complete; minor = 0; cred = 6 };
  init_sec_context = λ t args. record {
    major = complete;
    minor = 0;
    context = some 8;
    output = 1 ∷ [];
    flags = 16;
  };
  accept_sec_context = λ t args. record {
    major = complete;
    minor = 0;
    context = some 9;
    client = 5;
    output = 1 ∷ [];
    flags = 16;
  };
  delete_sec_context = λ t context. complete;
  inquire_context = λ t context. record {
    major = complete;
    minor = 0;
    source = 1;
    target = 2;
    flags = 16;
    lifetime = 0;
    is_open = true;
  };
  wrap_size_limit = λ t context conf size. record { major = complete; minor = 0; max_input = 900 };
  wrap =
      λ t context conf input. record { major = complete; minor = 0; output = input; conf = conf };
  unwrap =
      λ t context input. record { major = complete; minor = 0; output = some input; conf = true };
  get_mic = λ t context input. record { major = complete; minor = 0; output = 1 ∷ [] };
  verify_mic = λ t context input mic. record { major = complete; minor = 0 };
  indicate_mechs = λ t. record { major = complete; minor = 0; mechs = [] };
  test_oid_set_member = λ t oid mechs. record { major = complete; minor = 0; present = true };
}

-- A Kerberos library whose calls all succeed.
abbrev pub trusting : Krb
trusting = record {
  init_context = λ t. record { code = 0; handle = 1 };
  kt_resolve = λ t name. record { code = 0; handle = 2 };
  sname_to_principal = λ t host service. record { code = 0; handle = 3 };
  unparse_name = λ t principal. record { code = 0; name = b'x' ∷ [] };
  cc_default = λ t. record { code = 0; handle = 4 };
  cc_get_principal = λ t cache. record { code = 0; handle = 5 };
  sendauth = λ t fd client server checksum. record { code = 0; handle = 6 };
  recvauth = λ t fd server keytab. record { code = 0; auth_context = 6; ticket = 7; client = 5 };
}

-- The trace that a run ends with.
abbrev pub trace_of : {A : Type 0} → Run A → Trace
trace_of (done a t) = t
trace_of (exited n t) = t
trace_of fault = []
trace_of hung = []
