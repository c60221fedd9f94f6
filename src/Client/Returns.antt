-- ===== src/Client/Returns.antt =====
-- A blocked `call` and the reply to it (src/cli.cc).
use flora.Base.{ℕ, suc, ◌≡◌, Bool, ap, ◌∙◌, some, pos, if◌then◌else◌, ◌==◌, int_key, arith, or_else}
use flora.Protocol.{cli_success, cli_etimeout}
use flora.Message.Data.{ReplyResp, Response}
use flora.Client.State.{Session, PendingRequest}
use flora.Client.Handlers.{handle_reply, take_reply}
use flora.Client.Calls.{returns, call_round, find_entry, erase_entry}
use flora.Client.Answers.{IsNumbered, take_reply-own, answered}

module _ {C : Type 0} where
  handle_reply-pending :
      (st : Session C) (r : ReplyResp C)
      → (handle_reply st r).pending_requests ≡ (take_reply r st.pending_requests).0
  unfolding handle_reply
  handle_reply-pending st r = ground arith

  -- Once the reply to the request of number `n` was handled, the caller that waits for it returns the
  -- reply's result code, or that its wait timed out; either way a success has put the reply's contents
  -- into its response.
  pub handle_reply-call_round :
      (n : ℕ) (st : Session C) (r : ReplyResp C) (p : PendingRequest C) (reply : Response C)
      (timed_out : Bool)
      → r.id ≡ pos (suc n)
      → IsNumbered st.reqseq st.pending_requests
      → find_entry (suc n) st.pending_requests ≡ some p
      → p.id ≡ pos (suc n)
      → p.result ≡ some reply
      → call_round timed_out (suc n) (handle_reply st r)
        ≡ returns
            (record (handle_reply st r) {
              pending_requests = erase_entry (suc n) (handle_reply st r).pending_requests;
            })
            (if timed_out then cli_etimeout else r.rescode)
            (some (if r.rescode == cli_success then or_else r.reply reply else reply))
  unfolding call_round
  handle_reply-call_round n st r p reply timed_out i num f own waits =
      let found : find_entry (suc n) (handle_reply st r).pending_requests ≡ answered r p =
        ap (find_entry (suc n)) (handle_reply-pending st r)
        ∙ (take_reply-own n r st.reqseq st.pending_requests p i num f own).0 in
      ground (arith, found, waits)
