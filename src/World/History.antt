-- ===== src/World/History.antt =====
-- What the theorems read off a trace.
use kerberos.Base.{ℕ, suc, ◌≡◌, refl, Bool, Option, none, some, List, [], ◌∷◌}
use kerberos.World.Data.{Bytes, Major, Context, AcceptArgs, AcceptReply}
use kerberos.World.Events.{Event, Trace}
use kerberos.World.Laws.{Ignores}

-- The names released, the newest first.
unfoldable pub released : Trace → List (Option ℕ)
released [] = []
released (Event.gss_release_name name ∷ t) = name ∷ released t
released (_ ∷ t) = released t

-- The context and the major status that the newest `gss_init_sec_context` returned.
unfoldable pub newest_init : Trace → Option (Context × Major)
newest_init [] = none
newest_init (Event.gss_init_sec_context _ r ∷ t) = some (r.context, r.major)
newest_init (_ ∷ t) = newest_init t

-- The newest call of `gss_accept_sec_context`.
unfoldable pub newest_accept : Trace → Option (AcceptArgs × AcceptReply)
newest_accept [] = none
newest_accept (Event.gss_accept_sec_context args r ∷ t) = some (args, r)
newest_accept (_ ∷ t) = newest_accept t

-- The contexts given to `gss_delete_sec_context`, the newest first.
unfoldable pub deleted : Trace → List Context
deleted [] = []
deleted (Event.gss_delete_sec_context context _ ∷ t) = context ∷ deleted t
deleted (_ ∷ t) = deleted t

-- The newest tag made of a message: the context, the message and the tag.
unfoldable pub newest_mic : Trace → Option (Context × Bytes × Bytes)
newest_mic [] = none
newest_mic (Event.gss_get_mic context message r ∷ t) = some (context, message, r.output)
newest_mic (_ ∷ t) = newest_mic t

-- The number of calls of `gss_init_sec_context`.
unfoldable pub inits : Trace → ℕ
inits [] = 0
inits (Event.gss_init_sec_context _ _ ∷ t) = suc (inits t)
inits (_ ∷ t) = inits t

pub released-Ignores : Ignores released
unfolding released
released-Ignores = record {
  read = λ _ _ _ _. refl;
  write = λ _ _ _ _. refl;
  malloc = λ _ _. refl;
  fopen = λ _ _ _. refl;
  fwrite = λ _ _ _. refl;
  fclose = λ _. refl;
  printf = λ _ _ _. refl;
  display = λ _ _ _ _. refl;
  release = λ _ _. refl;
}

pub newest_init-Ignores : Ignores newest_init
unfolding newest_init
newest_init-Ignores = record {
  read = λ _ _ _ _. refl;
  write = λ _ _ _ _. refl;
  malloc = λ _ _. refl;
  fopen = λ _ _ _. refl;
  fwrite = λ _ _ _. refl;
  fclose = λ _. refl;
  printf = λ _ _ _. refl;
  display = λ _ _ _ _. refl;
  release = λ _ _. refl;
}

pub newest_accept-Ignores : Ignores newest_accept
unfolding newest_accept
newest_accept-Ignores = record {
  read = λ _ _ _ _. refl;
  write = λ _ _ _ _. refl;
  malloc = λ _ _. refl;
  fopen = λ _ _ _. refl;
  fwrite = λ _ _ _. refl;
  fclose = λ _. refl;
  printf = λ _ _ _. refl;
  display = λ _ _ _ _. refl;
  release = λ _ _. refl;
}

pub deleted-Ignores : Ignores deleted
unfolding deleted
deleted-Ignores = record {
  read = λ _ _ _ _. refl;
  write = λ _ _ _ _. refl;
  malloc = λ _ _. refl;
  fopen = λ _ _ _. refl;
  fwrite = λ _ _ _. refl;
  fclose = λ _. refl;
  printf = λ _ _ _. refl;
  display = λ _ _ _ _. refl;
  release = λ _ _. refl;
}

pub inits-Ignores : Ignores inits
unfolding inits
inits-Ignores = record {
  read = λ _ _ _ _. refl;
  write = λ _ _ _ _. refl;
  malloc = λ _ _. refl;
  fopen = λ _ _ _. refl;
  fwrite = λ _ _ _. refl;
  fclose = λ _. refl;
  printf = λ _ _ _. refl;
  display = λ _ _ _ _. refl;
  release = λ _ _. refl;
}

pub newest_mic-Ignores : Ignores newest_mic
unfolding newest_mic
newest_mic-Ignores = record {
  read = λ _ _ _ _. refl;
  write = λ _ _ _ _. refl;
  malloc = λ _ _. refl;
  fopen = λ _ _ _. refl;
  fwrite = λ _ _ _. refl;
  fclose = λ _. refl;
  printf = λ _ _ _. refl;
  display = λ _ _ _ _. refl;
  release = λ _ _. refl;
}

-- The newest calls by which the client establishes the context, wraps a message, and verifies the
-- tag that the server made of it.
pub record Protocol : Type 0 where
  pub init : Option (Context × Major)
  pub wrapped : Option (Context × Bool × Bytes)
  pub verified : Option (Context × Bytes × Major)

unfoldable pub protocol : Trace → Protocol
protocol [] = record { init = none; wrapped = none; verified = none }
protocol (Event.gss_init_sec_context _ r ∷ t) = record (protocol t) {
  init = some (r.context, r.major);
}
protocol (Event.gss_wrap context conf input _ ∷ t) = record (protocol t) {
  wrapped = some (context, conf, input);
}
protocol (Event.gss_verify_mic context message _ r ∷ t) = record (protocol t) {
  verified = some (context, message, r.major);
}
protocol (_ ∷ t) = protocol t

pub protocol-init : (t : Trace) → (protocol t).init ≡ newest_init t
unfolding protocol newest_init
protocol-init [] = refl
protocol-init (Event.gss_init_sec_context _ r ∷ t) = refl
protocol-init (Event.gss_wrap _ _ _ _ ∷ t) = protocol-init t
protocol-init (Event.gss_verify_mic _ _ _ _ ∷ t) = protocol-init t
protocol-init (_ ∷ t) = protocol-init t

pub protocol-Ignores : Ignores protocol
unfolding protocol
protocol-Ignores = record {
  read = λ _ _ _ _. refl;
  write = λ _ _ _ _. refl;
  malloc = λ _ _. refl;
  fopen = λ _ _ _. refl;
  fwrite = λ _ _ _. refl;
  fclose = λ _. refl;
  printf = λ _ _ _. refl;
  display = λ _ _ _ _. refl;
  release = λ _ _. refl;
}
