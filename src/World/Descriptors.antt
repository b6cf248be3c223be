-- ===== src/World/Descriptors.antt =====
-- What a trace says of the descriptors.
use kerberos.Base.{ℕ, refl, Bool, Option, none, some, List, [], ◌∷◌}
use kerberos.World.Events.{Event, Trace}
use kerberos.World.Laws.{Ignores}

-- The descriptors closed, the newest first, and the newest call of `connect`: the socket, the
-- address, and whether it succeeded.
pub record Sockets : Type 0 where
  pub closed : List ℕ
  pub connected : Option (ℕ × ℕ × Bool)

unfoldable pub sockets : Trace → Sockets
sockets [] = record { closed = []; connected = none }
sockets (Event.close fd ∷ t) = record (sockets t) { closed = fd ∷ (sockets t).closed }
sockets (Event.connect fd addr ok ∷ t) = record (sockets t) { connected = some (fd, addr, ok) }
sockets (_ ∷ t) = sockets t

pub sockets-Ignores : Ignores sockets
unfolding sockets
sockets-Ignores = record {
  read = λ _ _ _ _. refl;
  write = λ _ _ _ _. refl;
  malloc = λ _ _. refl;
  fopen = λ _ _ _. refl;
  fwrite = λ _ _ _. refl;
  fclose = λ _. refl;
  printf = λ _ _ _. refl;
  display = λ _ _ _ _. refl;
  release = λ _ _. refl;
}
