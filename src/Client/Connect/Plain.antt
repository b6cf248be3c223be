-- ===== src/Client/Connect/Plain.antt =====
-- connect_to_server of application/gssapi/client.c as a sequence of plain calls.
use kerberos.Base.{ℕ, ◌≡◌, refl, Bool, Option, List, [], ◌∷◌, arith}
use kerberos.World.{Argument, Bytes, Event, Trace, Os, Keeps}
use Prim.Native.String.{String}
use kerberos.Client.Connect.{connect_to_server, try_addresses, print_found_address}

-- `f` is not read off the calls that make a connection, nor off diagnostics.
pub record IgnoresConnecting {C : Type 0} (f : Trace → C) : Type 0 where
  pub getaddrinfo :
      (host port : Option Bytes) (r : Option (List ℕ)) (t : Trace)
      → f (Event.getaddrinfo host port r ∷ t) ≡ f t
  pub freeaddrinfo : (l : List ℕ) (t : Trace) → f (Event.freeaddrinfo l ∷ t) ≡ f t
  pub socket : (r : Option ℕ) (t : Trace) → f (Event.socket r ∷ t) ≡ f t
  pub connect : (fd addr : ℕ) (ok : Bool) (t : Trace) → f (Event.connect fd addr ok ∷ t) ≡ f t
  pub printf :
      (format : String) (args : List Argument) (t : Trace) → f (Event.printf format args ∷ t) ≡ f t

module _ {C : Type 0} (f : Trace → C) (I : IgnoresConnecting f) (os : Os) where
  try_addresses-Keeps :
      (sock : ℕ) (addresses : List ℕ) (t : Trace) → Keeps f t (try_addresses os sock addresses t)
  unfolding try_addresses print_found_address
  try_addresses-Keeps sock [] t = refl
  try_addresses-Keeps sock (runner ∷ rest) t =
      grind (arith, try_addresses-Keeps sock rest, I.connect, I.printf)

  pub connect_to_server-Keeps :
      (host port : Bytes) (t : Trace) → Keeps f t (connect_to_server os host port t)
  unfolding connect_to_server
  connect_to_server-Keeps host port t =
      grind (arith, try_addresses-Keeps, I.getaddrinfo, I.freeaddrinfo, I.socket, I.printf)
