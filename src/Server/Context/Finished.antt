-- ===== src/Server/Context/Finished.antt =====
-- What follows the loop of establish_context of application/gssapi/server.c, with a name that can
-- be displayed.
use kerberos.Base.{ℕ, ◌≡◌, some, [], ◌∷◌}
use kerberos.World.{Bytes, complete, Context, AcceptReply, Event, Trace, Os, Gss, done}
use kerberos.Display.Flags.{display_context_flags-Returns, returned}
use kerberos.Server.Context.{established, finish}

pub finish-established :
    (server : Os) (gss : Gss) (fuel cred : ℕ) (ctx : Context) (r : AcceptReply) (t : Trace)
    → ((v : Trace) → (gss.display_name v r.client).major ≡ complete)
    → (name : Bytes) × (u : Trace) × (finish server gss fuel cred ctx r t
        ≡ done (established ctx name) u)
unfolding finish
finish-established server gss fuel cred ctx r t shows =
    let v = Event.printf "server: context established !\n" [] ∷ t in
    let (w, e) = returned _ (display_context_flags-Returns gss r.flags v) in
    let shown = gss.display_name w r.client in
    (
      shown.text,
      Event.gss_release_cred cred
          ∷ Event.gss_release_name (some r.client)
          ∷ Event.gss_display_name r.client shown
          ∷ w,
      rw (e, shows),
    )
