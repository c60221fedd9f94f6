-- ===== src/Dispatcher/Client.antt =====
-- Clients and monitors: `handle_auth_req`, `add_adapter`, `add_monitor`, `do_erase_adapter`, the
-- `write_monitor_*` functions, `handle_declare_method`, `handle_remove_method` and
-- `handle_ping_req` (src/disp.cc).
use flora.Base.{
  ℕ, ◌+◌, ◌%◌, ◌^◌, Bool, true, false, List, [], ◌∷◌, Option, none, some, String, ℤ, pos, to_word,
  if◌then◌else◌, ◌==◌, string_key, nat_key, lookup, insert, assign, erase, ltb, map, int_key,
}
use flora.Caps.{CapsApi}
use flora.Protocol.{flora_version, cli_success, cli_eauth, cli_edupid, has_monitor_flag}
use flora.Message.Data.{Frame, AuthReq, MonitorListItem}
use flora.Message.ResponseSerializer.{
  serialize_auth, serialize_monitor_list_all, serialize_monitor_list_add,
  serialize_monitor_list_remove, serialize_pong,
}
use flora.Message.RequestParser.{parse_auth, parse_declare_method, parse_remove_method}
use flora.Dispatcher.State.{
  State, Net, Adapter, AdapterInfo, InfoPointer, in_adapter_infos, in_monitors, InfoRef, no_info,
  dangling, found, info_of, write, write_if, update, Written, declare_method, remove_method,
}
use flora.Dispatcher.Subscription.{check_subscriptions}

-- `TagHelper::create(uint32_t pid)`
abbrev pub tag_of_pid : ℤ → ℕ
tag_of_pid pid = to_word pid

module _ {C : Type 0} where
  abbrev pub set_adapter : State C → ℕ → Adapter → State C
  set_adapter st a adapter = record st {
    net = record st.net { heap = update st.net.heap a adapter };
  }

  -- `AdapterInfo info; adapter_infos.insert(…)` and, if it is new, its fields and the pointer to it.
  -- Each AdapterInfo takes the next id.
  unfoldable pub insert_info : State C → String → ℕ → ℤ → ℕ → State C
  insert_info st name flags pid a =
      let info : AdapterInfo = record {
        id = (st.idseq + 1) % 2 ^ 32;
        pid = pid;
        name = name;
        declared_methods = [];
        flags = flags;
      } in
      let st' = record st { idseq = (st.idseq + 1) % 2 ^ 32 } in
      elim (lookup a st.adapter_infos) [
        | none ↦
            set_adapter (record st' { adapter_infos = insert a info st.adapter_infos }) a
              (record (st.net.heap a) { info = some in_adapter_infos })
        | some old ↦ st'
      ]

  unfoldable pub add_adapter : State C → String → ℕ → ℤ → ℕ → State C × Bool
  unfolding insert_info
  add_adapter st name flags pid a =
      if name == ""
      then (insert_info st name flags pid a, true)
      else elim (lookup name st.named_adapters) [
        | some other ↦ (st, false)
        | none ↦ (
          insert_info (record st { named_adapters = insert name a st.named_adapters }) name flags
              pid a,
          true,
        )
      ]

  -- The entry's pid is not initialized and not used.
  unfoldable pub add_monitor : State C → String → ℕ → ℕ → State C
  add_monitor st name flags a =
      let info : AdapterInfo = record {
        id = (st.idseq + 1) % 2 ^ 32;
        pid = pos 0;
        name = name;
        declared_methods = [];
        flags = flags;
      } in
      let st' = record st { idseq = (st.idseq + 1) % 2 ^ 32 } in
      elim (lookup a st.monitors) [
        | none ↦
            set_adapter (record st' { monitors = insert a info st.monitors }) a
              (record (st.net.heap a) { info = some in_monitors })
        | some old ↦ st'
      ]

abbrev pub list_item : AdapterInfo → MonitorListItem
list_item info = record { id = info.id; pid = info.pid; name = info.name; flags = info.flags }

module _ (api : CapsApi) (os : ℕ → Written) where
  open api use {Caps}

  unfoldable pub write_monitor_list : State Caps → ℕ → State Caps
  write_monitor_list st a = record st {
    net =
        write_if os a
          (serialize_monitor_list_all api (map (λ e. list_item e.1) st.adapter_infos) st.buf_size
            (st.net.heap a).serialize_flags)
          st.net;
  }

  abbrev pub write_monitor_data : State Caps → ℕ → ℕ → State Caps
  write_monitor_data st flags a = if has_monitor_flag flags then write_monitor_list st a else st

  -- One message to every monitor. Their raw pointers are followed, so `none` if one dangles.
  unfoldable pub write_to_monitors : (ℕ → Option Frame) → List (ℕ × AdapterInfo) → Net → Option Net
  write_to_monitors message [] net = some net
  write_to_monitors message ((monitor, info) ∷ rest) net =
      if (net.heap monitor).alive
      then write_to_monitors message rest
          (write_if os monitor (message (net.heap monitor).serialize_flags) net)
      else none

  abbrev with_net : State Caps → Option Net → Option (State Caps)
  with_net st none = none
  with_net st (some net) = some (record st { net = net })

  -- `*newitem->info`, followed once for each monitor.
  abbrev write_item_to_monitors : State Caps → InfoRef → Option (State Caps)
  write_item_to_monitors st (found info) = with_net st (
      write_to_monitors (serialize_monitor_list_add api (list_item info) st.buf_size) st.monitors
        st.net)
  write_item_to_monitors st no_info = elim st.monitors [ [] ↦ some st | m ∷ ms ↦ none ]
  write_item_to_monitors st dangling = elim st.monitors [ [] ↦ some st | m ∷ ms ↦ none ]

  unfoldable pub write_monitor_list_add : State Caps → ℕ → Option (State Caps)
  unfolding write_to_monitors info_of
  write_monitor_list_add st newitem = write_item_to_monitors st (info_of st newitem)

  unfoldable pub write_monitor_list_remove : State Caps → ℕ → Option (State Caps)
  unfolding write_to_monitors
  write_monitor_list_remove st id =
      with_net st
        (write_to_monitors (serialize_monitor_list_remove api id st.buf_size) st.monitors st.net)

  abbrev with_tag : State Caps → ℤ → ℕ → State Caps
  with_tag st pid a =
      if (st.net.heap a).tag == 0
      then set_adapter st a (record (st.net.heap a) { tag = tag_of_pid pid })
      else st

  -- The new state and the result code.
  unfoldable pub register : State Caps → AuthReq → ℕ → State Caps × ℤ
  unfolding add_adapter add_monitor
  register st r sender =
      if ltb r.version 3
      then (st, cli_eauth)
      else let st' = with_tag st r.pid sender in
        if has_monitor_flag r.flags
        then if has_monitor_flag st.flags
          then (add_monitor st' r.extra r.flags sender, cli_success)
          else (st', cli_eauth)
        else let (st'', fresh) = add_adapter st' r.extra r.flags r.pid sender in
          (st'', if fresh then cli_success else cli_edupid)

  abbrev true_with : Option (State Caps) → Option (State Caps × Bool)
  true_with none = none
  true_with (some st) = some (st, true)

  unfoldable pub after_auth : State Caps → ℤ → ℕ → ℕ → Option (State Caps × Bool)
  unfolding write_monitor_list_add write_monitor_list
  after_auth st result flags sender =
      if result == cli_success
      then (let st' = write_monitor_data st flags sender in
          if has_monitor_flag flags
          then some (st', true)
          else true_with (write_monitor_list_add st' sender))
      else some (st, false)

  abbrev pub answer_auth : ℕ → ℕ → State Caps × ℤ → Option (State Caps × Bool)
  answer_auth flags sender (st, result) =
      elim (serialize_auth api result flora_version st.buf_size
        (st.net.heap sender).serialize_flags) [
          | none ↦ some (st, false)
          | some f ↦ after_auth (record st { net = write os sender f st.net }) result flags sender
        ]

  unfoldable pub auth : State Caps → AuthReq → ℕ → Option (State Caps × Bool)
  unfolding register after_auth
  auth st r sender = answer_auth r.flags sender (register st r sender)

  unfoldable pub handle_auth_req : State Caps → Caps → ℕ → Option (State Caps × Bool)
  unfolding auth
  handle_auth_req st msg_caps sender = elim (parse_auth api msg_caps).0 [
    | none ↦ some (st, false)
    | some r ↦ auth st r sender
  ]

  unfoldable pub erase_info : ℕ → ℕ → AdapterInfo → State Caps → Option (State Caps)
  unfolding write_monitor_list_remove check_subscriptions
  erase_info nowtp sender info st =
      let st' =
        if info.name == ""
        then st
        else record st { named_adapters = erase info.name st.named_adapters } in
      if has_monitor_flag info.flags
      then some (check_subscriptions nowtp (record st' { monitors = erase sender st'.monitors }))
      else elim (write_monitor_list_remove st' info.id) [
        | none ↦ none
        | some st'' ↦ some (
            check_subscriptions nowtp
              (record st'' { adapter_infos = erase sender st''.adapter_infos }))
      ]

  unfoldable pub do_erase_adapter : ℕ → State Caps → ℕ → Option (State Caps)
  unfolding erase_info info_of
  do_erase_adapter nowtp st sender = elim (info_of st sender) [
    | no_info ↦ some st
    | dangling ↦ none
    | found info ↦ erase_info nowtp sender info st
  ]

  -- `sender->info` is written through.
  abbrev store_info : State Caps → ℕ → Option InfoPointer → AdapterInfo → State Caps
  store_info st a none info = st
  store_info st a (some in_adapter_infos) info = record st {
    adapter_infos = assign a info st.adapter_infos;
  }
  store_info st a (some in_monitors) info = record st { monitors = assign a info st.monitors }

  abbrev pub set_info : State Caps → ℕ → AdapterInfo → State Caps
  set_info st a info = store_info st a (st.net.heap a).info info

  abbrev pub declare_named : State Caps → ℕ → AdapterInfo → Option String → State Caps × Bool
  declare_named st a info none = (st, false)
  declare_named st a info (some name) =
      if name == ""
      then (st, false)
      else let (info', fresh) = declare_method info name in (set_info st a info', fresh)

  unfoldable pub handle_declare_method : State Caps → Caps → ℕ → Option (State Caps × Bool)
  unfolding info_of declare_method
  handle_declare_method st msg_caps sender = elim (info_of st sender) [
    | no_info ↦ some (st, false)
    | dangling ↦ none
    | found info ↦ some (declare_named st sender info (parse_declare_method api msg_caps).0)
  ]

  abbrev pub remove_named : State Caps → ℕ → AdapterInfo → Option String → State Caps × Bool
  remove_named st a info none = (st, false)
  remove_named st a info (some name) =
      if name == "" then (st, false) else (set_info st a (remove_method info name), true)

  unfoldable pub handle_remove_method : State Caps → Caps → ℕ → Option (State Caps × Bool)
  unfolding info_of remove_method
  handle_remove_method st msg_caps sender = elim (info_of st sender) [
    | no_info ↦ some (st, false)
    | dangling ↦ none
    | found info ↦ some (remove_named st sender info (parse_remove_method api msg_caps).0)
  ]

  unfoldable pub handle_ping_req : State Caps → Caps → ℕ → State Caps × Bool
  handle_ping_req st msg_caps sender = elim (st.net.heap sender).info [
    | none ↦ (st, false)
    | some p ↦ elim (serialize_pong api st.buf_size (st.net.heap sender).serialize_flags) [
      | none ↦ (st, false)
      | some f ↦ (record st { net = write os sender f st.net }, true)
    ]
  ]
