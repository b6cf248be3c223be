-- ===== src/World.antt =====
-- What the programs call and do not implement: libc with the kernel below it, libgssapi and
-- libkrb5. A run is described by the trace of its external calls, each with the answer that it
-- got; what answers a call is a parameter (`Os`, `Gss`, `Krb`), a function of the calls made so
-- far.
mod Data
mod Events
mod Env
mod Runs
mod Calls
mod Laws
mod History
mod Descriptors
pub use Data.*
pub use Events.{Event, Trace}
pub use Env.*
pub use Runs.*
pub use Calls.*
pub use Laws.*
unfoldable pub use History.*
unfoldable pub use Descriptors.*
