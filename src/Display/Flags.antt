-- ===== src/Display/Flags.antt =====
-- For display_context_flags and display_status of application/gssapi/utils.c.
use Prim.Native.String.{String}
use kerberos.Base.{ℕ, suc, ◌≡◌, refl, arith}
use kerberos.World.{Major, StatusValue, Trace, Gss, Run, done, exited, fault, hung, Returns}
use kerberos.Display.{
  display_context_flags, display_status, display_status_aux, display_status_loop, show_message,
}

pub returned : (r : Run (Unit {0})) → Returns r → (u : Trace) × (r ≡ done tt u)
returned (done tt u) h = (u, refl)
returned (exited n u) h = absurd h
returned fault h = absurd h
returned hung h = absurd h

pub display_context_flags-Returns :
    (gss : Gss) (flags : ℕ) (t : Trace) → Returns (display_context_flags gss flags t)
unfolding display_context_flags
display_context_flags-Returns gss flags t = grind arith

-- A library with one text for each status.
pub display_status-Returns :
    (gss : Gss) (fuel : ℕ) (msg : String) (major : Major) (minor : ℕ) (t : Trace)
    → ((v : Trace) (value : StatusValue) → (gss.display_status v value 0).more ≡ 0)
    → Returns (display_status gss (suc fuel) msg major minor t)
unfolding display_status display_status_aux display_status_loop show_message
display_status-Returns gss fuel msg major minor t one = grind (arith, one)
