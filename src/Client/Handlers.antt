-- ===== src/Client/Handlers.antt =====
-- What the client does with a message (src/cli.cc). `none` is undefined behaviour: a null pointer is
-- followed; or the fuel of a list for monitors is used up.
use flora.Base.{
  ℕ, zero, suc, Bool, true, false, List, [], ◌∷◌, Option, none, some, ℤ, if◌then◌else◌, ◌==◌,
  int_key, ltb, or_else,
}
use flora.Caps.{CapsApi}
use flora.Protocol.{
  cli_success, cmd_auth_resp, cmd_post_resp, cmd_call_resp, cmd_reply_resp, cmd_monitor_resp,
  cmd_pong_resp, monitor_subtype_num,
}
use flora.Message.Data.{AuthResp, PostResp, CallResp, ReplyResp, Response}
use flora.Message.ResponseParser.{parse_auth, parse_post, parse_call, parse_reply}
use flora.Message.MonitorParser.{
  ListParse, parsed, refused, crashed, unfinished, parse_monitor_list_all, parse_monitor_list_add,
  parse_monitor_list_remove, parse_monitor_detail, MonitorDetail, sub_all, sub_add, sub_remove,
  decl_all, decl_add, decl_remove, post_detail, call_detail,
}
use flora.Client.State.{
  Session, PendingRequest, before_auth, after_auth, notify, notify_if, no_response, post_received,
  call_received, call_returned, list_all, list_add, list_remove,
}

abbrev pub Handled : Type 0 → Type 0
Handled C = Option (Session C × Bool)

module _ {C : Type 0} where
  -- A request that waits gets the result; one with a callback leaves the list.
  unfoldable pub answer :
      ReplyResp C → PendingRequest C → List (PendingRequest C) → List (PendingRequest C) × Option ℕ
  answer r p ps = elim p.result [
    | none ↦ (ps, p.callback)
    | some reply ↦ (
      record p {
        id = ℤ.pos 0;
        rcode = r.rescode;
        result = some (if r.rescode == cli_success then or_else r.reply reply else reply);
      }
          ∷ ps,
      none,
    )
  ]

  -- The loop over the requests: the first with the id of the reply is answered.
  unfoldable pub take_reply :
      ReplyResp C → List (PendingRequest C) → List (PendingRequest C) × Option ℕ
  unfolding answer
  take_reply r [] = ([], none)
  take_reply r (p ∷ ps) =
      let rest = take_reply r ps in if p.id == r.id then answer r p ps else (p ∷ rest.0, rest.1)

  abbrev pub response_of : ReplyResp C → Response C
  response_of r = if r.rescode == cli_success then or_else r.reply no_response else no_response

  abbrev pub call_back : Session C → Option ℕ → ℤ → Response C → Session C
  call_back st none rescode response = st
  call_back st (some cb) rescode response = notify st (call_returned cb rescode response)

  unfoldable pub handle_reply : Session C → ReplyResp C → Session C
  unfolding take_reply
  handle_reply st r =
      let taken = take_reply r st.pending_requests in
      call_back (record st { tag = r.tag; pending_requests = taken.0 }) taken.1 r.rescode
        (response_of r)

module _ (api : CapsApi) (fuel : ℕ) where
  open api use {Caps, read_int32, read_uint32}

  unfoldable pub authorized : Session Caps → Option AuthResp → Handled Caps
  authorized st none = some (st, false)
  authorized st (some r) = some (
    record st { ares = record { notified = true; result = r.result }; cmd_handler = after_auth },
    true,
  )

  unfoldable pub handle_cmd_before_auth : ℤ → Caps → Session Caps → Handled Caps
  unfolding authorized
  handle_cmd_before_auth cmd c st =
      if cmd == cmd_auth_resp
      then if st.awaits_auth then authorized st (parse_auth api c).0 else none
      else some (st, false)

  unfoldable pub handle_post_resp : Session Caps → Option (PostResp Caps) → Handled Caps
  handle_post_resp st none = some (st, false)
  handle_post_resp st (some r) = some (
    notify_if st.has_cli_callback (record st { tag = r.tag; sender_name = r.cliname })
        (post_received r),
    true,
  )

  unfoldable pub handle_call_resp : Session Caps → Option (CallResp Caps) → Handled Caps
  handle_call_resp st none = some (st, false)
  handle_call_resp st (some r) = some (
    notify_if st.has_cli_callback (record st { tag = r.tag; sender_name = r.cliname })
        (call_received r),
    true,
  )

  unfoldable pub handle_reply_resp : Session Caps → Option (ReplyResp Caps) → Handled Caps
  unfolding handle_reply
  handle_reply_resp st none = some (st, false)
  handle_reply_resp st (some r) = some (handle_reply st r, true)

  unfoldable pub handle_monitor_list_all : Session Caps → ListParse → Handled Caps
  handle_monitor_list_all st (parsed items) = some (notify st (list_all items), true)
  handle_monitor_list_all st refused = some (st, false)
  handle_monitor_list_all st crashed = none
  handle_monitor_list_all st unfinished = none

  -- The parser's list holds the one item.
  unfoldable pub handle_monitor_list_add : Session Caps → ListParse → Handled Caps
  handle_monitor_list_add st (parsed []) = some (st, false)
  handle_monitor_list_add st (parsed (item ∷ items)) = some (notify st (list_add item), true)
  handle_monitor_list_add st refused = some (st, false)
  handle_monitor_list_add st crashed = none
  handle_monitor_list_add st unfinished = none

  unfoldable pub handle_monitor_list_remove : Session Caps → Option ℕ → Handled Caps
  handle_monitor_list_remove st none = some (st, false)
  handle_monitor_list_remove st (some id) = some (notify st (list_remove id), true)

  -- The handlers of subscriptions, declarations, posts and calls run parsers that always refuse.
  unfoldable pub handle_monitor_detail : MonitorDetail → Caps → Session Caps → Handled Caps
  unfolding parse_monitor_detail
  handle_monitor_detail detail c st = elim (parse_monitor_detail api detail c).0 [
    | none ↦ some (st, false)
    | some item ↦ some (st, true)
  ]

  abbrev pub detail_handler : ℕ → MonitorDetail
  detail_handler zero = sub_all
  detail_handler (suc zero) = sub_add
  detail_handler (suc (suc zero)) = sub_remove
  detail_handler (suc (suc (suc zero))) = decl_all
  detail_handler (suc (suc (suc (suc zero)))) = decl_add
  detail_handler (suc (suc (suc (suc (suc zero))))) = decl_remove
  detail_handler (suc (suc (suc (suc (suc (suc zero)))))) = post_detail
  detail_handler n = call_detail

  -- The table `monitor_handlers`, at an index that is checked before.
  unfoldable pub monitor_handler : ℕ → Caps → Session Caps → Handled Caps
  unfolding handle_monitor_list_all handle_monitor_list_add handle_monitor_list_remove
      handle_monitor_detail
  monitor_handler zero c st = handle_monitor_list_all st (parse_monitor_list_all api fuel c)
  monitor_handler (suc zero) c st = handle_monitor_list_add st (parse_monitor_list_add api c)
  monitor_handler (suc (suc zero)) c st =
      handle_monitor_list_remove st (parse_monitor_list_remove api c).0
  monitor_handler (suc (suc (suc n))) c st = handle_monitor_detail (detail_handler n) c st

  unfoldable pub handle_monitor_resp : Session Caps → Option ℕ × Caps → Handled Caps
  unfolding monitor_handler
  handle_monitor_resp st (none, c) = some (st, false)
  handle_monitor_resp st (some subtype, c) =
      if ltb subtype monitor_subtype_num then monitor_handler subtype c st else some (st, false)

  unfoldable pub handle_cmd_after_auth : ℤ → Caps → Session Caps → Handled Caps
  unfolding handle_post_resp handle_call_resp handle_reply_resp handle_monitor_resp
  handle_cmd_after_auth cmd c st =
      if cmd == cmd_post_resp
      then handle_post_resp st (parse_post api c).0
      else if cmd == cmd_call_resp
      then handle_call_resp st (parse_call api c).0
      else if cmd == cmd_reply_resp
      then handle_reply_resp st (parse_reply api c).0
      else if cmd == cmd_monitor_resp
      then if st.has_mon_callback then handle_monitor_resp st (read_uint32 c) else some (st, true)
      else some (st, cmd == cmd_pong_resp)

  unfoldable pub handle_cmd : ℤ → Caps → Session Caps → Handled Caps
  unfolding handle_cmd_before_auth handle_cmd_after_auth
  handle_cmd cmd c st = elim st.cmd_handler [
    | before_auth ↦ handle_cmd_before_auth cmd c st
    | after_auth ↦ handle_cmd_after_auth cmd c st
  ]

  unfoldable pub handle_read : Session Caps → Option ℤ × Caps → Handled Caps
  unfolding handle_cmd
  handle_read st (none, c) = some (st, false)
  handle_read st (some cmd, c) = handle_cmd cmd c st

  -- A message: its command is read, and its handler run.
  unfoldable pub handle_message : Session Caps → Caps → Handled Caps
  unfolding handle_read
  handle_message st c = handle_read st (read_int32 c)
