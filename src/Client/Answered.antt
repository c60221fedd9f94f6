-- ===== src/Client/Answered.antt =====
-- A call and the answer to it, from the service's serializer to the caller (src/ser-helper.cc,
-- src/cli.cc).
use flora.Base.{
  ℕ, suc, ◌<◌, ◌^◌, ◌≡◌, ap, ◌∙◌, true, false, List, [], ◌∷◌, ◌++◌, Option, none, some, pos,
  IsInt32, if◌then◌else◌, ◌==◌, int_key, or_else,
}
use flora.Caps.{CapsApi, CapsLaws}
use flora.Protocol.{cli_success, cli_etimeout}
use flora.Message.Data.{Frame, Response, ReplyResp}
use flora.Message.ResponseSerializer.{serialize_reply}
use flora.Message.ResponseRoundTrip.{IsReplyOf}
use flora.Client.State.{Session, PendingRequest, after_auth, call_returned, no_response}
use flora.Client.Handlers.{handle_message, handle_reply, response_of}
use flora.Client.Calls.{returns, call_round, find_entry, erase_entry}
use flora.Client.Histories.{Reached, Reached-IsConsistent}
use flora.Client.Returns.{handle_reply-call_round}
use flora.Client.Replies.{reply-handled, handle_reply-callback}

module _ {api : CapsApi} (laws : CapsLaws api) (fuel : ℕ) where
  filled :
      (r : ReplyResp api.Caps) (reply before : Response api.Caps)
      → r.rescode ≡ cli_success
      → IsReplyOf laws r.reply reply
      → IsReplyOf laws
          (some (if r.rescode == cli_success then or_else r.reply before else before))
          reply
  filled r reply before success same = rw success (given r.reply same)
    where
      given :
          (o : Option (Response api.Caps))
          → IsReplyOf laws o reply
          → IsReplyOf laws (some (or_else o before)) reply
      given none h = absurd h
      given (some q) h = h

  -- A success reply that the service serialized for the call of number `n`, whose callback stands in
  -- the list of a client in a state that it reaches, is handled by running the callback once, with
  -- success and the reply's contents, and the call leaves the list.
  pub reply_resp-callback :
      (n cb tag size flags : ℕ) (reply : Response api.Caps) (f : Frame) (st : Session api.Caps)
      (cbs : List (Option ℕ)) (p : PendingRequest api.Caps)
      → suc n < 2 ^ 31
      → IsInt32 reply.ret_code
      → serialize_reply api (pos (suc n)) cli_success (some reply) tag size flags ≡ some f
      → Reached api fuel st cbs
      → st.cmd_handler ≡ after_auth
      → find_entry (suc n) st.pending_requests ≡ some p
      → p.id ≡ pos (suc n)
      → p.result ≡ none
      → p.callback ≡ some cb
      → (c : api.Caps) × (st' : Session api.Caps) × (response : Response api.Caps) × (api.parse
            f.bytes
          ≡ some c)
        × (handle_message api fuel st c ≡ some (st', true))
        × (st'.events ≡ st.events ++ call_returned cb cli_success response ∷ [])
        × IsReplyOf laws (some response) reply
        × (find_entry (suc n) st'.pending_requests ≡ none)
  reply_resp-callback n cb tag size flags reply f st cbs p small fits e reached ready found own
        no_caller has =
      let (c, r, parses, is_id, is_code, is_reply, handled) =
        reply-handled laws fuel (pos (suc n)) reply tag size flags f st small fits e ready in
      let ok = Reached-IsConsistent api fuel st cbs reached in
      let (run, gone) =
        handle_reply-callback laws fuel n cb st r p is_id ok.numbered found own no_caller has in
      (
        c,
        handle_reply st r,
        response_of r,
        parses,
        handled,
        run ∙ ap (λ code. st.events ++ call_returned cb code (response_of r) ∷ []) is_code,
        filled r reply no_response is_code is_reply,
        gone,
      )

  -- A success reply that the service serialized for the call of number `n`, whose caller is blocked
  -- on a client in a state that it reaches, makes the caller return success and the reply's contents
  -- when it is woken; if its wait timed out before it had the mutex again, it returns that instead,
  -- with the reply's contents in its response all the same.
  pub reply_resp-call_round :
      (n tag size flags : ℕ) (reply before : Response api.Caps) (f : Frame) (st : Session api.Caps)
      (cbs : List (Option ℕ)) (p : PendingRequest api.Caps)
      → suc n < 2 ^ 31
      → IsInt32 reply.ret_code
      → serialize_reply api (pos (suc n)) cli_success (some reply) tag size flags ≡ some f
      → Reached api fuel st cbs
      → st.cmd_handler ≡ after_auth
      → find_entry (suc n) st.pending_requests ≡ some p
      → p.id ≡ pos (suc n)
      → p.result ≡ some before
      → (c : api.Caps) × (st' later : Session api.Caps) × (response : Response api.Caps)
        × (api.parse f.bytes ≡ some c)
        × (handle_message api fuel st c ≡ some (st', true))
        × (call_round false (suc n) st' ≡ returns later cli_success (some response))
        × (call_round true (suc n) st' ≡ returns later cli_etimeout (some response))
        × IsReplyOf laws (some response) reply
  reply_resp-call_round n tag size flags reply before f st cbs p small fits e reached ready found
        own waits =
      let (c, r, parses, is_id, is_code, is_reply, handled) =
        reply-handled laws fuel (pos (suc n)) reply tag size flags f st small fits e ready in
      let ok = Reached-IsConsistent api fuel st cbs reached in
      let response = if r.rescode == cli_success then or_else r.reply before else before in
      let later : Session api.Caps = record (handle_reply st r) {
        pending_requests = erase_entry (suc n) (handle_reply st r).pending_requests;
      } in
      (
        c,
        handle_reply st r,
        later,
        response,
        parses,
        handled,
        handle_reply-call_round n st r p before false is_id ok.numbered found own waits
            ∙ ap (λ code. returns later code (some response)) is_code,
        handle_reply-call_round n st r p before true is_id ok.numbered found own waits,
        filled r reply before is_code is_reply,
      )
