-- ===== src/Client/Authorized.antt =====
-- How a connection is authorized (src/ser-helper.cc, src/cli.cc).
use flora.Base.{
  ℕ, ◌≡◌, ◌≢◌, refl, ap, ◌∙◌, true, false, Bool, none, some, ℤ, IsInt32, if◌then◌else◌, ◌==◌,
  int_key, int_beq_iff, arith,
}
use flora.Caps.{CapsApi, CapsLaws}
use flora.Protocol.{cmd_auth_resp}
use flora.Message.Data.{Frame}
use flora.Message.ResponseSerializer.{serialize_auth}
use flora.Message.ResponseParser.{parse_auth}
use flora.Message.ResponseRoundTrip.{auth_resp-received}
use flora.Client.State.{Session, before_auth, after_auth}
use flora.Client.Handlers.{
  handle_message, handle_read, handle_cmd, handle_cmd_before_auth, handle_cmd_after_auth,
  authorized,
}
use flora.Client.Calls.{auth_woken, returned}
use flora.Client.Service.{with_command-split}

module _ {api : CapsApi} (laws : CapsLaws api) (fuel : ℕ) where
  handle_cmd-before_auth :
      (cmd : ℤ) (c : api.Caps) (st : Session api.Caps)
      → st.cmd_handler ≡ before_auth
      → handle_cmd api fuel cmd c st ≡ handle_cmd_before_auth api fuel cmd c st
  unfolding handle_cmd
  handle_cmd-before_auth cmd c st e =
      ap
        (λ h. elim h [
          | before_auth ↦ handle_cmd_before_auth api fuel cmd c st
          | after_auth ↦ handle_cmd_after_auth api fuel cmd c st
        ])
        e

  -- A client that is not authorized yet refuses every message but the answer to its request, and a
  -- refused one changes nothing.
  pub handle_message-unauthorized :
      (st : Session api.Caps) (c : api.Caps) (cmd : ℤ)
      → st.cmd_handler ≡ before_auth
      → (api.read_int32 c).0 ≡ some cmd
      → cmd ≢ cmd_auth_resp
      → handle_message api fuel st c ≡ some (st, false)
  unfolding handle_message handle_read handle_cmd_before_auth
  handle_message-unauthorized st c cmd e command other =
      let miss : (cmd == cmd_auth_resp) ≡ false = ground (arith, int_beq_iff cmd cmd_auth_resp) in
      rw (command, handle_read)
        (handle_cmd-before_auth cmd (api.read_int32 c).1 st e ∙ rw (handle_cmd_before_auth, miss))

  -- The answer to the request of a client that waits for it, as the service serializes it, makes the
  -- thread in `auth` return the result that was put into the answer, and the client take every other
  -- message from then on.
  pub auth_resp-auth_woken :
      (result : ℤ) (version size flags : ℕ) (f : Frame) (st : Session api.Caps)
      → IsInt32 result
      → serialize_auth api result version size flags ≡ some f
      → st.cmd_handler ≡ before_auth
      → st.awaits_auth ≡ true
      → (c : api.Caps) × (st' : Session api.Caps) × (api.parse f.bytes ≡ some c)
        × (handle_message api fuel st c ≡ some (st', true))
        × (auth_woken st' ≡ (record st' { awaits_auth = false }, returned result))
        × (st'.cmd_handler ≡ after_auth)
        × (st'.pending_requests ≡ st.pending_requests)
  unfolding handle_message handle_read handle_cmd_before_auth authorized auth_woken
  auth_resp-auth_woken result version size flags f st small e unready waits =
      let (c, parses, ((k, r), read, (is_cmd, is_resp), _)) =
        auth_resp-received laws result version size flags f small e in
      let (command, text) = with_command-split laws (parse_auth api) c k r read in
      let st' : Session api.Caps = record st {
        ares = record { notified = true; result = result };
        cmd_handler = after_auth;
      } in
      let first : (api.read_int32 c).0 ≡ some cmd_auth_resp = command ∙ ap some is_cmd in
      (
        c,
        st',
        parses,
        rw (first, handle_read)
            (handle_cmd-before_auth cmd_auth_resp (api.read_int32 c).1 st unready
              ∙ ap
                  (λ (b : Bool).
                    if b
                    then authorized api fuel st (parse_auth api (api.read_int32 c).1).0
                    else none)
                  waits
              ∙ ap (authorized api fuel st) (text ∙ ap some is_resp)),
        refl,
        refl,
        refl,
      )
