-- ===== src/Client/Reply.antt =====
-- `ReplyImpl`, the answer that the callee of a call fills and sends (src/cli.cc, src/cli.h).
use flora.Base.{
  ◌≡◌, refl, Bool, true, false, List, [], ◌∷◌, ◌++◌, Option, none, ℤ, pos, if◌then◌else◌, arith,
}
use flora.Caps.{CapsApi}
use flora.Protocol.{call_retcode_noresp}
use flora.Client.Requests.{Client, send_reply}

-- `has_client` is `client != nullptr`; the client comes from `lock` on a weak pointer, and may be null.
pub record Reply (C : Type 0) : Type 0 where
  pub has_client : Bool
  pub ret_code : ℤ
  pub data_of : Option C
  pub callid : ℤ

unfoldable pub new_reply : {C : Type 0} → Bool → ℤ → Reply C
new_reply has_client id = record {
  has_client = has_client;
  ret_code = call_retcode_noresp;
  data_of = none;
  callid = id;
}

module _ {C : Type 0} where
  abbrev pub write_code : ℤ → Reply C → Reply C
  write_code code reply = record reply { ret_code = code }

  abbrev pub write_data : Option C → Reply C → Reply C
  write_data content reply = record reply { data_of = content }

-- The methods of the class; `drop` is the destructor.
pub data ReplyMethod (C : Type 0) : Type 0 where
  write_code_to : ℤ → ReplyMethod C
  write_data_to : Option C → ReplyMethod C
  end : ReplyMethod C
  end_code : ℤ → ReplyMethod C
  end_data : ℤ → Option C → ReplyMethod C
  drop : ReplyMethod C

module _ (api : CapsApi) (takes : Bool) where
  open api use {Caps}

  unfoldable pub send : Reply Caps → Client → Reply Caps × Client
  send reply cl =
      if reply.has_client
      then (
        record reply { has_client = false },
        send_reply api takes cl reply.callid reply.ret_code reply.data_of,
      )
      else (reply, cl)

  unfoldable pub reply_method : ReplyMethod Caps → Reply Caps → Client → Reply Caps × Client
  unfolding send
  reply_method (write_code_to code) reply cl = (write_code code reply, cl)
  reply_method (write_data_to content) reply cl = (write_data content reply, cl)
  reply_method end reply cl = send (write_code (pos 0) reply) cl
  reply_method (end_code code) reply cl = send (write_code code reply) cl
  reply_method (end_data code content) reply cl =
      send (write_data content (write_code code reply)) cl
  reply_method drop reply cl = send reply cl

  abbrev pub run_methods : List (ReplyMethod Caps) → Reply Caps → Client → Reply Caps × Client
  run_methods [] reply cl = (reply, cl)
  run_methods (m ∷ ms) reply cl =
      let (reply', cl') = reply_method m reply cl in run_methods ms reply' cl'

  -- The code and the contents at the first method that ends the reply, or at its destruction; `end`
  -- without an argument sets the code to 0, whatever was written before.
  abbrev pub meant : List (ReplyMethod Caps) → ℤ → Option Caps → ℤ × Option Caps
  meant [] code content = (code, content)
  meant (write_code_to code' ∷ ms) code content = meant ms code' content
  meant (write_data_to content' ∷ ms) code content = meant ms code content'
  meant (end ∷ ms) code content = (pos 0, content)
  meant (end_code code' ∷ ms) code content = (code', content)
  meant (end_data code' content' ∷ ms) code content = (code', content')
  meant (drop ∷ ms) code content = (code, content)

  sent_before :
      (ms : List (ReplyMethod Caps)) (reply : Reply Caps) (cl : Client)
      → reply.has_client ≡ false
      → (run_methods (ms ++ drop ∷ []) reply cl).1 ≡ cl
  unfolding reply_method
  sent_before [] reply cl sent = ground arith
  sent_before (write_code_to code ∷ ms) reply cl sent = sent_before ms _ cl sent
  sent_before (write_data_to content ∷ ms) reply cl sent = sent_before ms _ cl sent
  sent_before (end ∷ ms) reply cl sent = rw sent (sent_before ms _ cl refl)
  sent_before (end_code code ∷ ms) reply cl sent = rw sent (sent_before ms _ cl refl)
  sent_before (end_data code content ∷ ms) reply cl sent = rw sent (sent_before ms _ cl refl)
  sent_before (drop ∷ ms) reply cl sent = rw sent (sent_before ms _ cl refl)

  run_methods-meant :
      (ms : List (ReplyMethod Caps)) (reply : Reply Caps) (cl : Client)
      → reply.has_client ≡ true
      → let (code, content) = meant ms reply.ret_code reply.data_of in
        (run_methods (ms ++ drop ∷ []) reply cl).1
        ≡ send_reply api takes cl reply.callid code content
  unfolding reply_method
  run_methods-meant [] reply cl unsent = rw unsent
  run_methods-meant (write_code_to code ∷ ms) reply cl unsent = run_methods-meant ms _ cl unsent
  run_methods-meant (write_data_to content ∷ ms) reply cl unsent = run_methods-meant ms _ cl unsent
  run_methods-meant (end ∷ ms) reply cl unsent = rw unsent (sent_before ms _ _ refl)
  run_methods-meant (end_code code ∷ ms) reply cl unsent = rw unsent (sent_before ms _ _ refl)
  run_methods-meant (end_data code content ∷ ms) reply cl unsent =
      rw unsent (sent_before ms _ _ refl)
  run_methods-meant (drop ∷ ms) reply cl unsent = rw unsent (sent_before ms _ _ refl)

  -- Whatever methods a callee calls on its reply, in any order and number: if there was a client
  -- when the reply was made, by the time it is destroyed one answer was sent to the call, with the
  -- code and contents at the first method that ended it, of which `end` without an argument sets the
  -- code to 0, or else those at the destruction, which are the code for no response and no contents
  -- unless written; if there was none, nothing was sent.
  pub run_methods-send_reply :
      (has_client : Bool) (ms : List (ReplyMethod Caps)) (id : ℤ) (cl : Client)
      → let (code, content) = meant ms call_retcode_noresp none in
        (run_methods (ms ++ drop ∷ []) (new_reply has_client id) cl).1
        ≡ (if has_client then send_reply api takes cl id code content else cl)
  unfolding new_reply
  run_methods-send_reply true ms id cl = run_methods-meant ms (new_reply true id) cl refl
  run_methods-send_reply false ms id cl = sent_before ms (new_reply false id) cl refl
