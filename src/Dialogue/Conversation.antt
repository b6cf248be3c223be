-- ===== src/Dialogue/Conversation.antt =====
-- The whole conversation of the client and the server of application/gssapi over one connection:
-- call_server from the connection on, and the part of talk_to_client on its connection.
use kerberos.Base.{
  ℕ, ◌<◌, ◌≡◌, refl, ap, ◌∙◌, Bool, true, false, none, some, [], ◌∷◌, ◌++◌, if◌then◌else◌,
}
use kerberos.World.{
  Argument, Bytes, success, complete, Context, InquireReply, Event, Trace, Os, Gss, done,
  newest_mic, protocol,
}
use kerberos.Client.Connect.{connect_to_server}
use kerberos.Client.Call.{
  request_mech, req_output_size, call_server, inquire, show_limits, show_names, exchange,
}
use kerberos.Server.Context.{Established, established}
use kerberos.Server.Talk.{serve, sign_message}
use kerberos.Client.Context as Client
use kerberos.Server.Context as Server
use kerberos.Dialogue.{Agrees, Delivers, exchange-sign_message}
use kerberos.Dialogue.Handshake.{Negotiates, Connects, establish_context-establish_context}
use kerberos.Display.Flags.{display_context_flags-Returns, returned}

-- The queries about the context succeed, and its flags are `flags`.
pub record Describes (gss : Gss) (ctx : Context) (flags : ℕ) : Type 0 where
  pub inquires : (v : Trace) → (gss.inquire_context v ctx).major ≡ complete
  pub has_flags : (v : Trace) → (gss.inquire_context v ctx).flags ≡ flags
  pub limits :
      (v : Trace) (conf : Bool) (size : ℕ) → (gss.wrap_size_limit v ctx conf size).major ≡ complete
  pub displays : (v : Trace) (name : ℕ) → (gss.display_name v name).major ≡ complete

module _ (client : Os) (gss : Gss) (fuel sock : ℕ) (ctx : Context) (flags : ℕ)
    (message : Bytes) where
  show_names-exchange :
      (q : InquireReply) (t : Trace)
      → Describes gss ctx flags
      → (x : Trace) × (show_names client gss fuel sock ctx q message t
          ≡ exchange client gss fuel sock ctx q.flags message x)
  unfolding show_names
  show_names-exchange q t d =
      let source = gss.display_name t q.source in
      let v = Event.gss_display_name q.source source ∷ t in
      let target = gss.display_name v q.target in
      (
        Event.gss_release_buffer target.text
            ∷ Event.gss_release_buffer source.text
            ∷ Event.gss_release_name (some q.target)
            ∷ Event.gss_release_name (some q.source)
            ∷ Event.printf "client: %s to %s, lifetime: %u, %s\n" (
                Argument.bytes source.text
                ∷ Argument.bytes target.text
                ∷ Argument.number q.lifetime
                ∷ Argument.text (if q.is_open then "open" else "close")
                ∷ [])
            ∷ Event.gss_display_name q.target target
            ∷ v,
        simp d.displays,
      )

  show_limits-exchange :
      (q : InquireReply) (t : Trace)
      → Describes gss ctx flags
      → (x : Trace) × (show_limits client gss fuel sock ctx q message t
          ≡ exchange client gss fuel sock ctx q.flags message x)
  unfolding show_limits
  show_limits-exchange q t d =
      let plain = gss.wrap_size_limit t ctx false req_output_size in
      let v =
        Event.printf "client: max input size without confidentiality: %d\n"
          (Argument.number plain.max_input ∷ [])
        ∷ Event.gss_wrap_size_limit ctx false req_output_size plain
        ∷ t in
      let sealed = gss.wrap_size_limit v ctx true req_output_size in
      let w =
        Event.printf "client: max input size with confidentiality: %d\n"
          (Argument.number sealed.max_input ∷ [])
        ∷ Event.gss_wrap_size_limit ctx true req_output_size sealed
        ∷ v in
      let (x, e) = show_names-exchange q w d in (x, simp (d.limits, e))

  inquire-exchange :
      (t : Trace)
      → Describes gss ctx flags
      → (x : Trace) × (inquire client gss fuel sock ctx message t
          ≡ exchange client gss fuel sock ctx flags message x)
  unfolding inquire
  inquire-exchange t d =
      let q = gss.inquire_context t ctx in
      let v = Event.printf "client: context flags:\n" [] ∷ Event.gss_inquire_context ctx q ∷ t in
      let (w, shown) = returned _ (display_context_flags-Returns gss q.flags v) in
      let (x, e) = show_limits-exchange q w d in
      let run : inquire client gss fuel sock ctx message t
          ≡ exchange client gss fuel sock ctx q.flags message x =
        simp (d.inquires, shown, e) in
      (x, run ∙ ap (λ f. exchange client gss fuel sock ctx f message x) (d.has_flags t))

module _ (client server : Os) (gss gss' : Gss) (fuel sock cfd : ℕ) (service : Bytes) (cred : ℕ)
    (ctx ctx' : Context) (reply : Bytes) (flags : ℕ) (message tag : Bytes) (t t' : Trace) where
  -- The trace of the server that waits for the message of `name`, after `u'`.
  abbrev pub welcomed : Bytes → Trace → Trace
  welcomed name u' =
      Event.gss_release_buffer name
      ∷ Event.printf "server: context established with: %s\n" (Argument.bytes name ∷ [])
      ∷ u'

  -- Where the client and the server are, at `x` and `y`, once the context is established and the
  -- client has printed what it knows of it.
  pub record Reaches (x y : Trace) : Type 0 where
    pub client_trace : Trace
    pub server_trace : Trace
    pub name : Bytes
    pub client_established :
        Client.establish_context client gss fuel sock service none false t
        ≡ done (success, ctx) client_trace
    pub server_established :
        Server.establish_context server gss' fuel cfd cred false t'
        ≡ done (established ctx' name) server_trace
    pub asked :
        inquire client gss fuel sock ctx message client_trace
        ≡ exchange client gss fuel sock ctx flags message x
    pub welcome : y ≡ welcomed name server_trace

  serve-signed :
      (name : Bytes) (u w : Trace)
      → Server.establish_context server gss' fuel cfd cred false t' ≡ done (established ctx' name) u
      → sign_message server gss' fuel cfd ctx' (welcomed name u) ≡ done success w
      → serve server gss' fuel cfd cred false t'
        ≡ done success (
            Event.close cfd
            ∷ Event.gss_delete_sec_context ctx' (gss'.delete_sec_context w ctx')
            ∷ w)
  unfolding serve
  serve-signed name u w e signed = simp (e, signed)

  call_server-asked :
      (host port : Bytes) (t₀ u x w : Trace)
      → connect_to_server client host port t₀ ≡ done (some sock) t
      → Client.establish_context client gss fuel sock service none false t ≡ done (success, ctx) u
      → inquire client gss fuel sock ctx message u
        ≡ exchange client gss fuel sock ctx flags message x
      → exchange client gss fuel sock ctx flags message x ≡ done success w
      → call_server client gss fuel host port none service message false t₀ ≡ done success w
  unfolding call_server request_mech
  call_server-asked host port t₀ u x w connected e asked ended = simp (connected, e, asked, ended)

  -- A whole conversation, with the default mechanism, no tokens recorded and fuel above 2. If
  -- `connect_to_server` has connected the client, the mechanism takes one token from each end and
  -- the two libraries report no error with them (`Negotiates`), the link carries these tokens, in
  -- pieces shorter than 2^31 bytes (`Connects`), the queries about the context succeed
  -- (`Describes`), and, wherever the two ends are once the context is established, the libraries
  -- agree on the message (`Agrees`) and the link carries it and its tag in the same way
  -- (`Delivers`), then `call_server` and `serve` both return 0, the newest gss_verify_mic of the
  -- client was for the message with its NUL and returned GSS_S_COMPLETE, and the newest
  -- gss_get_mic of the server was for that very message.
  pub call_server-serve :
      (host port : Bytes) (t₀ : Trace)
      → connect_to_server client host port t₀ ≡ done (some sock) t
      → Negotiates client server gss gss' fuel sock cfd service none cred ctx ctx' reply t t'
      → Connects client server gss gss' fuel sock cfd service none cred ctx ctx' reply t t'
      → Describes gss ctx flags
      → ((x y : Trace)
          → Reaches x y
          → Agrees client server gss gss' fuel sock cfd ctx ctx' flags message tag x y
            × Delivers client server gss gss' fuel sock cfd ctx ctx' flags message tag x y)
      → 2 < fuel
      → (u u' : Trace) × (call_server client gss fuel host port none service message false t₀
          ≡ done success u)
        × (serve server gss' fuel cfd cred false t' ≡ done success u')
        × ((protocol u).verified ≡ some (ctx, message ++ (0 ∷ []), complete))
        × (newest_mic u' ≡ some (ctx', message ++ (0 ∷ []), tag))
  unfolding newest_mic
  call_server-serve host port t₀ connected n c d later enough =
      let (name, u, u', e, e') =
        establish_context-establish_context client server gss gss' fuel sock cfd service none cred
          ctx ctx' reply t t' n c enough in
      let (x, asked) = inquire-exchange client gss fuel sock ctx flags message u d in
      let (a, delivers) = later x (welcomed name u') (record {
        client_trace = u;
        server_trace = u';
        name = name;
        client_established = e;
        server_established = e';
        asked = asked;
        welcome = refl;
      }) in
      let (w, w', ended, signed, verified, tagged) =
        exchange-sign_message client server gss gss' fuel sock cfd ctx ctx' flags message tag x
          (welcomed name u') a delivers enough in
      (
        w,
        _,
        call_server-asked host port t₀ u x w connected e asked ended,
        serve-signed name u' w' e' signed,
        verified,
        tagged,
      )
