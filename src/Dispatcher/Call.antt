-- ===== src/Dispatcher/Call.antt =====
-- Remote calls: `add_pending_call`, `handle_call_req`, `handle_reply_req`, `pending_call_timeout`
-- and `discard_pending_calls` (src/disp.cc).
use flora.Base.{
  ℕ, suc, ◌+◌, Bool, true, false, ◌&&◌, List, [], ◌∷◌, Option, none, some, String, ℤ, pos,
  if◌then◌else◌, ◌==◌, string_key, nat_key, int_key, lookup, leb, ltb,
}
use flora.Caps.{CapsApi}
use flora.Protocol.{default_call_timeout, cli_success, cli_etimeout, cli_enexists}
use flora.Message.Data.{Frame, CallReq, ReplyReq, Response}
use flora.Message.ResponseSerializer.{serialize_call, serialize_reply}
use flora.Message.RequestParser.{parse_call, parse_reply}
use flora.Dispatcher.State.{
  State, PendingCall, InfoRef, no_info, dangling, found, info_of, write, Written, has_method,
}

-- The loop finds the first call that is due no earlier.
unfoldable pub insert_call : PendingCall → List PendingCall → List PendingCall
insert_call pc [] = pc ∷ []
insert_call pc (q ∷ qs) =
    if leb pc.discard_tp q.discard_tp then pc ∷ q ∷ qs else q ∷ insert_call pc qs

abbrev pub call_timeout : ℕ → ℕ
call_timeout timeout = if timeout == 0 then default_call_timeout else timeout

unfoldable pub add_pending_call : {C : Type 0} → ℕ → ℤ → ℤ → ℕ → ℕ → ℕ → State C → State C
unfolding insert_call
add_pending_call now svrid cliid sender target timeout st = record st {
  pending_calls =
      insert_call
        (record {
          svrid = svrid;
          cliid = cliid;
          sender = sender;
          target = target;
          discard_tp = now + call_timeout timeout;
        })
        st.pending_calls;
}

-- The call that `target` answers, if it is pending, and the calls without it.
abbrev pub answers : ℤ → ℕ → PendingCall → Bool
answers svrid target pc = pc.svrid == svrid && pc.target == target

unfoldable pub find_call : ℤ → ℕ → List PendingCall → Option PendingCall
find_call svrid target [] = none
find_call svrid target (pc ∷ pcs) =
    if answers svrid target pc then some pc else find_call svrid target pcs

unfoldable pub erase_call : ℤ → ℕ → List PendingCall → List PendingCall
erase_call svrid target [] = []
erase_call svrid target (pc ∷ pcs) =
    if answers svrid target pc then pcs else pc ∷ erase_call svrid target pcs

module _ (api : CapsApi) (os : ℕ → Written) where
  open api use {Caps}

  -- `c < 0` ends the handler with false.
  abbrev pub write_or_fail : State Caps → ℕ → Option Frame → State Caps × Bool
  write_or_fail st a none = (st, false)
  write_or_fail st a (some f) = (record st { net = write os a f st.net }, true)

  unfoldable pub refuse_call : State Caps → ℕ → ℤ → State Caps × Bool
  refuse_call st sender cliid = write_or_fail st sender (
      serialize_reply api cliid cli_enexists none 0 st.buf_size
        (st.net.heap sender).serialize_flags)

  -- The call is given the next number of the service and sent on.
  unfoldable pub forward_call : ℕ → State Caps → ℕ → String → ℕ → CallReq Caps → State Caps × Bool
  unfolding add_pending_call
  forward_call now st sender sender_name target r =
      let svrid = pos (suc st.reqseq) in
      let st' =
        add_pending_call now svrid r.id sender target r.timeout
          (record st { reqseq = suc st.reqseq }) in
      write_or_fail st' target (
        serialize_call api r.name r.args svrid (st.net.heap sender).tag sender_name st.buf_size
          (st.net.heap target).serialize_flags)

  abbrev call_target :
      ℕ → State Caps → ℕ → String → ℕ → CallReq Caps → InfoRef → Option (State Caps × Bool)
  call_target now st sender sender_name target r no_info = none
  call_target now st sender sender_name target r dangling = none
  call_target now st sender sender_name target r (found info) = some (
      if has_method info r.name
      then forward_call now st sender sender_name target r
      else refuse_call st sender r.id)

  unfoldable pub call : ℕ → State Caps → ℕ → String → CallReq Caps → Option (State Caps × Bool)
  unfolding info_of refuse_call forward_call has_method
  call now st sender sender_name r = elim (lookup r.target st.named_adapters) [
    | none ↦ some (refuse_call st sender r.id)
    | some target ↦ call_target now st sender sender_name target r (info_of st target)
  ]

  abbrev call_parsed :
      ℕ → State Caps → ℕ → String → Option (CallReq Caps) → Option (State Caps × Bool)
  call_parsed now st sender sender_name none = some (st, false)
  call_parsed now st sender sender_name (some r) = call now st sender sender_name r

  unfoldable pub handle_call_req : ℕ → State Caps → Caps → ℕ → Option (State Caps × Bool)
  unfolding call info_of
  handle_call_req now st msg_caps sender = elim (info_of st sender) [
    | no_info ↦ some (st, false)
    | dangling ↦ none
    | found info ↦ call_parsed now st sender info.name (parse_call api msg_caps).0
  ]

  unfoldable pub send_return :
      State Caps → ℕ → String → ReplyReq Caps → PendingCall → State Caps × Bool
  unfolding erase_call
  send_return st sender sender_name r pc =
      let resp : Response Caps = record {
        ret_code = r.code;
        data_of = r.values;
        extra = sender_name;
      } in
      elim (serialize_reply api pc.cliid cli_success (some resp) (st.net.heap sender).tag
        st.buf_size (st.net.heap pc.sender).serialize_flags) [
          | none ↦ (st, false)
          | some f ↦ (
            record st {
              net = write os pc.sender f st.net;
              pending_calls = erase_call r.id sender st.pending_calls;
            },
            true,
          )
        ]

  unfoldable pub reply : State Caps → ℕ → String → ReplyReq Caps → State Caps × Bool
  unfolding find_call send_return
  reply st sender sender_name r = elim (find_call r.id sender st.pending_calls) [
    | none ↦ (st, true)
    | some pc ↦
        if (st.net.heap pc.sender).is_open
        then send_return st sender sender_name r pc
        else (st, true)
  ]

  abbrev reply_parsed : State Caps → ℕ → String → Option (ReplyReq Caps) → State Caps × Bool
  reply_parsed st sender sender_name none = (st, false)
  reply_parsed st sender sender_name (some r) = reply st sender sender_name r

  unfoldable pub handle_reply_req : State Caps → Caps → ℕ → Option (State Caps × Bool)
  unfolding reply info_of
  handle_reply_req st msg_caps sender = elim (info_of st sender) [
    | no_info ↦ some (st, false)
    | dangling ↦ none
    | found info ↦ some (reply_parsed st sender info.name (parse_reply api msg_caps).0)
  ]

  -- A result of `serialize_reply` below 0 would be written as a size of nearly 2 ^ 32: `none`.
  abbrev write_unchecked : State Caps → ℕ → Option Frame → Option (State Caps)
  write_unchecked st a none = if (st.net.heap a).is_open then none else some st
  write_unchecked st a (some f) = some (record st { net = write os a f st.net })

  unfoldable pub pending_call_timeout : State Caps → PendingCall → Option (State Caps)
  pending_call_timeout st pc = write_unchecked st pc.sender (
      serialize_reply api pc.cliid cli_etimeout none 0 st.buf_size
        (st.net.heap pc.sender).serialize_flags)

  abbrev and_then : Option (State Caps) → (State Caps → Option (State Caps)) → Option (State Caps)
  and_then none f = none
  and_then (some st) f = f st

  -- The loop, over the calls that are pending when it begins.
  unfoldable pub discard_from : ℕ → List PendingCall → State Caps → Option (State Caps)
  unfolding pending_call_timeout
  discard_from tp [] st = some (record st { pending_calls = [] })
  discard_from tp (pc ∷ pcs) st =
      if ltb tp pc.discard_tp
      then some (record st { pending_calls = pc ∷ pcs })
      else and_then (pending_call_timeout st pc) (discard_from tp pcs)

  unfoldable pub discard_pending_calls : ℕ → State Caps → Option (State Caps)
  unfolding discard_from
  discard_pending_calls tp st = discard_from tp st.pending_calls st
