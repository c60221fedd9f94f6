-- ===== src/Dispatcher/Subscription.antt =====
-- Subscriptions and posts: `handle_subscribe_req`, `handle_unsubscribe_req`, `post_msg`,
-- `handle_post_req`, `clear_sub_gabages` and `check_subscriptions` (src/disp.cc). A handler returns
-- its Boolean result with the new state; `none` is undefined behaviour.
use flora.Base.{
  ℕ, ◌+◌, ◌-◌, ◌/◌, Bool, true, false, not, ◌&&◌, ◌||◌, List, [], ◌∷◌, ◌++◌, Option, none, some,
  String, if◌then◌else◌, ◌==◌, string_key, nat_key, lookup, assign, erase, or_else, leb, ltb, keep,
}
use flora.Caps.{CapsApi}
use flora.Protocol.{
  msgtype_persist, clear_subscription_time_threshold, clear_subscription_threshold,
}
use flora.Message.Data.{Frame, is_valid_msgtype, PostReq}
use flora.Message.ResponseSerializer.{serialize_post}
use flora.Message.RequestParser.{parse_subscribe, parse_unsubscribe, parse_post}
use flora.Dispatcher.State.{State, Net, no_info, dangling, found, info_of, write, Written}

abbrev pub is_empty : {A : Type 0} → List A → Bool
is_empty [] = true
is_empty (x ∷ xs) = false

-- The loop over the list of weak pointers: one of them locks to `sender`.
unfoldable pub subscribed : Net → ℕ → List ℕ → Bool
subscribed net sender [] = false
subscribed net sender (a ∷ rest) =
    if (net.heap a).alive && a == sender then true else subscribed net sender rest

-- The loop that erases the sender and what no longer locks.
abbrev pub unsubscribed : Net → ℕ → List ℕ → List ℕ
unsubscribed net sender = keep (λ a. not (not (net.heap a).alive || a == sender))

-- An entry whose list is empty is erased.
abbrev pub put_or_erase : String → List ℕ → List (String × List ℕ) → List (String × List ℕ)
put_or_erase name rest m = if is_empty rest then erase name m else assign name rest m

-- The subscribers that are still there.
abbrev pub receivers : Net → List ℕ → List ℕ
receivers net = keep (λ a. (net.heap a).alive && (net.heap a).is_open)

module _ (api : CapsApi) (os : ℕ → Written) where
  open api use {Caps}

  -- `c > 0`
  abbrev pub write_positive : ℕ → Option Frame → Net → Net
  write_positive a none net = net
  write_positive a (some f) net = if ltb 0 f.size then write os a f net else net

  -- `post persist message to client`
  abbrev pub send_persist : State Caps → ℕ → String → Option (Option Caps) → State Caps
  send_persist st sender name none = st
  send_persist st sender name (some content) = record st {
    net =
        write_positive sender
          (serialize_post api name msgtype_persist content 0 "" st.buf_size
            (st.net.heap sender).serialize_flags)
          st.net;
  }

  unfoldable pub subscribe : State Caps → ℕ → String → State Caps × Bool
  unfolding subscribed
  subscribe st sender name =
      let adapters = or_else (lookup name st.subscriptions) [] in
      if name == ""
      then (st, false)
      else if subscribed st.net sender adapters
      then (st, true)
      else (
        send_persist
            (record st { subscriptions = assign name (adapters ++ sender ∷ []) st.subscriptions })
            sender name (lookup name st.persist_msgs),
        true,
      )

  abbrev with_name : State Caps → Option String → (String → State Caps × Bool) → State Caps × Bool
  with_name st none f = (st, false)
  with_name st (some name) f = f name

  abbrev pub has_info : State Caps → ℕ → Bool
  has_info st a = elim (st.net.heap a).info [ none ↦ false | some p ↦ true ]

  unfoldable pub handle_subscribe_req : State Caps → Caps → ℕ → State Caps × Bool
  unfolding subscribe
  handle_subscribe_req st msg_caps sender =
      if has_info st sender
      then with_name st (parse_subscribe api msg_caps).0 (subscribe st sender)
      else (st, false)

  unfoldable pub unsubscribe : State Caps → ℕ → String → State Caps × Bool
  unsubscribe st sender name =
      if name == "" then (st, false) else elim (lookup name st.subscriptions) [
        | none ↦ (st, true)
        | some adapters ↦ (
          record st {
            subscriptions =
                put_or_erase name (unsubscribed st.net sender adapters) st.subscriptions;
          },
          true,
        )
      ]

  unfoldable pub handle_unsubscribe_req : State Caps → Caps → ℕ → State Caps × Bool
  unfolding unsubscribe
  handle_unsubscribe_req st msg_caps sender =
      if has_info st sender
      then with_name st (parse_unsubscribe api msg_caps).0 (unsubscribe st sender)
      else (st, false)

  -- `write_post_msg_to_adapters`, after the message is serialized.
  unfoldable pub write_to_adapters : Frame → List ℕ → Net → Net
  write_to_adapters f [] net = net
  write_to_adapters f (a ∷ rest) net =
      write_to_adapters f rest (if (net.heap a).alive then write os a f net else net)

  abbrev pub write_to_all : Option Frame → List ℕ → Net → Net
  write_to_all none rest net = net
  write_to_all (some f) rest net = write_to_adapters f rest net

  unfoldable pub write_post_msg_to_adapters :
      State Caps → String → ℕ → Option Caps → ℕ → ℕ → List ℕ → String → State Caps
  unfolding write_to_adapters
  write_post_msg_to_adapters st name type args tag flags adapters sender_name =
      if is_empty adapters then st else record st {
        net =
            write_to_all (serialize_post api name type args tag sender_name st.buf_size flags)
              adapters st.net;
      }

  -- Those that want net byte order.
  abbrev pub net_ordered : Net → ℕ → Bool
  net_ordered net a = (net.heap a).serialize_flags == api.net_byteorder

  unfoldable pub post_to : State Caps → String → ℕ → Option Caps → ℕ → String → List ℕ → State Caps
  unfolding write_post_msg_to_adapters
  post_to st name type args sender cli_name subscribers =
      let rest = receivers st.net subscribers in
      let nobo_adapters = keep (λ a. not (net_ordered st.net a)) rest in
      let bo_adapters = keep (net_ordered st.net) rest in
      let tag = (st.net.heap sender).tag in
      let st₁ = write_post_msg_to_adapters st name type args tag 0 nobo_adapters cli_name in
      let st₂ =
        write_post_msg_to_adapters st₁ name type args tag api.net_byteorder bo_adapters cli_name in
      record st₂ { subscriptions = put_or_erase name rest st.subscriptions }

  abbrev keep_persist : State Caps → String → ℕ → Option Caps → State Caps
  keep_persist st name type args =
      if type == msgtype_persist
      then record st { persist_msgs = assign name args st.persist_msgs }
      else st

  unfoldable pub post_msg : State Caps → String → ℕ → Option Caps → ℕ → String → State Caps × Bool
  unfolding post_to
  post_msg st name type args sender cli_name =
      if not (is_valid_msgtype type) then (st, false) else if name == "" then (st, false) else (
        keep_persist
            (elim (lookup name st.subscriptions) [
              | none ↦ st
              | some subscribers ↦ post_to st name type args sender cli_name subscribers
            ])
            name type args,
        true,
      )

  unfoldable pub post_parsed : State Caps → ℕ → String → Option (PostReq Caps) → State Caps × Bool
  unfolding post_msg
  post_parsed st sender cli_name none = (st, false)
  post_parsed st sender cli_name (some r) = post_msg st r.name r.msgtype r.args sender cli_name

  unfoldable pub handle_post_req : State Caps → Caps → ℕ → Option (State Caps × Bool)
  unfolding post_parsed info_of
  handle_post_req st msg_caps sender = elim (info_of st sender) [
    | no_info ↦ some (st, false)
    | dangling ↦ none
    | found info ↦ some (post_parsed st sender info.name (parse_post api msg_caps).0)
  ]

unfoldable pub clear_sub_gabages : Net → List (String × List ℕ) → List (String × List ℕ)
clear_sub_gabages net [] = []
clear_sub_gabages net ((name, adapters) ∷ m) =
    let living = keep (λ a. (net.heap a).alive) adapters in
    if is_empty living then clear_sub_gabages net m else (name, living) ∷ clear_sub_gabages net m

unfoldable pub check_subscriptions : {C : Type 0} → ℕ → State C → State C
unfolding clear_sub_gabages
check_subscriptions nowtp st =
    let cleared = record st {
      subscriptions = clear_sub_gabages st.net st.subscriptions;
      clear_sub_prio = 0;
      handle_cmd_tp = nowtp;
    } in
    if leb clear_subscription_time_threshold ((nowtp - st.handle_cmd_tp) / 1000)
    then cleared
    else if leb clear_subscription_threshold (st.clear_sub_prio + 1)
    then cleared
    else record st { clear_sub_prio = st.clear_sub_prio + 1 }
