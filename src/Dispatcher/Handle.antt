-- ===== src/Dispatcher/Handle.antt =====
-- The queue of packets and the loop that handles it: `put`, `run`, `erase_adapter`, `handle_cmd`,
-- `handle_cmds` and `close` (src/disp.cc). The queue's mutex makes each of them one step.
use flora.Base.{
  ℕ, zero, suc, Bool, true, false, List, [], ◌∷◌, ◌++◌, Option, none, some, ℤ, pos, negsuc,
  if◌then◌else◌, ltb,
}
use flora.Caps.{CapsApi}
use flora.Protocol.{msg_handler_count, has_monitor_flag}
use flora.Message.Data.{Frame}
use flora.Dispatcher.State.{State, no_info, dangling, found, info_of, close_adapter, Written}
use flora.Dispatcher.Subscription.{handle_subscribe_req, handle_unsubscribe_req, handle_post_req}
use flora.Dispatcher.Client.{
  handle_auth_req, do_erase_adapter, handle_declare_method, handle_remove_method, handle_ping_req,
}
use flora.Dispatcher.Call.{handle_call_req, handle_reply_req, discard_pending_calls}

module _ (api : CapsApi) where
  open api use {Caps}

  -- The frame comes from an adapter's buffer.
  unfoldable pub put : Frame → ℕ → State Caps → State Caps × Bool
  put frame sender st = elim (api.parse frame.bytes) [
    | none ↦ (st, false)
    | some c ↦ (record st { cmd_packets = st.cmd_packets ++ (some c, sender) ∷ [] }, true)
  ]

  unfoldable pub erase_adapter : ℕ → State Caps → State Caps
  erase_adapter a st = elim (st.net.heap a).info [
    | none ↦ st
    | some p ↦ record st { cmd_packets = st.cmd_packets ++ (none, a) ∷ [] }
  ]

  -- The thread that runs the loop is not part of the state.
  unfoldable pub run : State Caps → State Caps
  run st = record st { working = true }

  unfoldable pub close : State Caps → State Caps
  close st = record st { working = false }

  abbrev pub close_sender : State Caps → ℕ → State Caps
  close_sender st a = record st { net = close_adapter st.net a }

module _ (api : CapsApi) (os : ℕ → Written) where
  open api use {Caps}

  -- `msg_handlers[cmd]`, for an index in range.
  unfoldable pub msg_handler : ℕ → ℕ → State Caps → Caps → ℕ → Option (State Caps × Bool)
  msg_handler zero now st c a = handle_auth_req api os st c a
  msg_handler (suc zero) now st c a = some (handle_subscribe_req api os st c a)
  msg_handler (suc (suc zero)) now st c a = some (handle_unsubscribe_req api os st c a)
  msg_handler (suc (suc (suc zero))) now st c a = handle_post_req api os st c a
  msg_handler (suc (suc (suc (suc zero)))) now st c a = handle_reply_req api os st c a
  msg_handler (suc (suc (suc (suc (suc zero))))) now st c a = handle_declare_method api os st c a
  msg_handler (suc (suc (suc (suc (suc (suc zero)))))) now st c a =
      handle_remove_method api os st c a
  msg_handler (suc (suc (suc (suc (suc (suc (suc zero))))))) now st c a =
      handle_call_req api os now st c a
  msg_handler (suc (suc (suc (suc (suc (suc (suc (suc zero)))))))) now st c a =
      some (handle_ping_req api os st c a)
  msg_handler _ now st c a = none

  -- A handler that returns false has its sender closed; then the clock is read.
  abbrev pub finish : ℕ → ℕ → Option (State Caps × Bool) → Option (State Caps)
  finish now a none = none
  finish now a (some (st, true)) = some (record st { handle_cmd_tp = now })
  finish now a (some (st, false)) = some (record (close_sender api st a) { handle_cmd_tp = now })

  -- The test is `cmd >= MSG_HANDLER_COUNT` on signed numbers: a command below 0 passes it, and the
  -- table is read out of bounds.
  unfoldable pub dispatch : ℕ → State Caps → ℕ → Option ℤ × Caps → Option (State Caps)
  unfolding msg_handler
  dispatch now st a (none, c) = some (close_sender api st a)
  dispatch now st a (some (negsuc n), c) = none
  dispatch now st a (some (pos n), c) =
      if ltb n msg_handler_count
      then finish now a (msg_handler n now st c a)
      else some (close_sender api st a)

  unfoldable pub handle_message : ℕ → State Caps → Caps → ℕ → Option (State Caps)
  unfolding dispatch info_of
  handle_message now st c a = elim (info_of st a) [
    | no_info ↦ dispatch now st a (api.read_int32 c)
    | dangling ↦ none
    | found info ↦
        if has_monitor_flag info.flags
        then some (close_sender api st a)
        else dispatch now st a (api.read_int32 c)
  ]

  -- A packet with no message erases its adapter.
  unfoldable pub handle_cmd : ℕ → State Caps → Option Caps × ℕ → Option (State Caps)
  unfolding handle_message
  handle_cmd now st (none, a) = do_erase_adapter api os now st a
  handle_cmd now st (some c, a) = handle_message now st c a

  abbrev pub and_then :
      Option (State Caps) → (State Caps → Option (State Caps)) → Option (State Caps)
  and_then none f = none
  and_then (some st) f = f st

  -- `clock n` is the time at which the n-th packet is handled.
  unfoldable pub handle_packets :
      (ℕ → ℕ) → ℕ → List (Option Caps × ℕ) → State Caps → Option (State Caps)
  unfolding handle_cmd
  handle_packets clock n [] st = some st
  handle_packets clock n (p ∷ ps) st =
      and_then (handle_cmd (clock n) st p) (handle_packets clock (suc n) ps)

  -- One round of the loop of `handle_cmds`: the queue is taken over and handled, or, if it is empty,
  -- calls that are due are discarded before the thread waits.
  unfoldable pub handle_cmds_round : (ℕ → ℕ) → State Caps → Option (State Caps)
  unfolding handle_packets
  handle_cmds_round clock st =
      if st.working
      then elim st.cmd_packets [
        | [] ↦ discard_pending_calls api os (clock 0) st
        | p ∷ ps ↦ handle_packets clock 0 (p ∷ ps) (record st { cmd_packets = [] })
      ]
      else some st
