-- ===== src/Client/Replies.antt =====
-- A reply from the service's serializer to the client's caller (src/ser-helper.cc, src/cli.cc).
use flora.Base.{
  ℕ, suc, ◌≡◌, ap, ◌∙◌, true, [], ◌∷◌, ◌++◌, none, some, ℤ, pos, IsInt32, int_key, arith,
}
use flora.Caps.{CapsApi, CapsLaws}
use flora.Protocol.{cli_success, cmd_reply_resp}
use flora.Message.Data.{Frame, Response, ReplyResp}
use flora.Message.ResponseSerializer.{serialize_reply}
use flora.Message.ResponseParser.{parse_reply}
use flora.Message.ResponseRoundTrip.{reply_resp-received, IsReplyOf}
use flora.Client.State.{Session, PendingRequest, before_auth, after_auth, call_returned}
use flora.Client.Handlers.{
  handle_message, handle_read, handle_cmd, handle_cmd_before_auth, handle_cmd_after_auth,
  handle_reply_resp, handle_reply, take_reply, response_of,
}
use flora.Client.Answers.{IsNumbered, take_reply-own}
use flora.Client.Calls.{find_entry}
use flora.Client.Service.{with_command-split}

module _ {api : CapsApi} (laws : CapsLaws api) (fuel : ℕ) where
  open laws use {values}

  handle_cmd-after_auth :
      (cmd : ℤ) (c : api.Caps) (st : Session api.Caps)
      → st.cmd_handler ≡ after_auth
      → handle_cmd api fuel cmd c st ≡ handle_cmd_after_auth api fuel cmd c st
  unfolding handle_cmd
  handle_cmd-after_auth cmd c st e =
      ap
        (λ h. elim h [
          | before_auth ↦ handle_cmd_before_auth api fuel cmd c st
          | after_auth ↦ handle_cmd_after_auth api fuel cmd c st
        ])
        e

  reply-handle_message :
      (st : Session api.Caps) (c : api.Caps) (r : ReplyResp api.Caps)
      → st.cmd_handler ≡ after_auth
      → (api.read_int32 c).0 ≡ some cmd_reply_resp
      → (parse_reply api (api.read_int32 c).1).0 ≡ some r
      → handle_message api fuel st c ≡ some (handle_reply st r, true)
  unfolding handle_message handle_read handle_cmd_after_auth handle_reply_resp
  reply-handle_message st c r e command text =
      rw (command, handle_read)
        (handle_cmd-after_auth cmd_reply_resp (api.read_int32 c).1 st e
          ∙ ap (handle_reply_resp api fuel st) text)

  pub handle_reply-callback :
      (n cb : ℕ) (st : Session api.Caps) (r : ReplyResp api.Caps) (p : PendingRequest api.Caps)
      → r.id ≡ pos (suc n)
      → IsNumbered st.reqseq st.pending_requests
      → find_entry (suc n) st.pending_requests ≡ some p
      → p.id ≡ pos (suc n)
      → p.result ≡ none
      → p.callback ≡ some cb
      → ((handle_reply st r).events ≡ st.events ++ call_returned cb r.rescode (response_of r) ∷ [])
        × (find_entry (suc n) (handle_reply st r).pending_requests ≡ none)
  unfolding handle_reply
  handle_reply-callback n cb st r p i num found own no_caller has_callback =
      let (left, called) = take_reply-own n r st.reqseq st.pending_requests p i num found own in
      let run : (take_reply r st.pending_requests).1 ≡ some cb =
        called ∙ rw no_caller has_callback in
      (ground arith, ground arith)

  -- What the parser reads of a reply that the service serialized.
  pub reply-handled :
      (id : ℤ) (reply : Response api.Caps) (tag size flags : ℕ) (f : Frame) (st : Session api.Caps)
      → IsInt32 id
      → IsInt32 reply.ret_code
      → serialize_reply api id cli_success (some reply) tag size flags ≡ some f
      → st.cmd_handler ≡ after_auth
      → (c : api.Caps) × (r : ReplyResp api.Caps) × (api.parse f.bytes ≡ some c)
        × (r.id ≡ id)
        × (r.rescode ≡ cli_success)
        × IsReplyOf laws r.reply reply
        × (handle_message api fuel st c ≡ some (handle_reply st r, true))
  reply-handled id reply tag size flags f st small fits e ready =
      let (c, parses, ((k, r), read, (is_cmd, (is_id, is_code, is_reply, is_tag)), _)) =
        reply_resp-received laws id reply tag size flags f small fits e in
      let (command, text) = with_command-split laws (parse_reply api) c k r read in
      (
        c,
        r,
        parses,
        is_id,
        is_code,
        is_reply,
        reply-handle_message st c r ready (command ∙ ap some is_cmd) text,
      )
