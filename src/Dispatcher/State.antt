-- ===== src/Dispatcher/State.antt =====
-- The state of `Dispatcher` (src/disp.h) and the adapters that it points to (src/adap.h).
use flora.Base.{
  ℕ, ◌+◌, Bool, true, false, List, [], ◌∷◌, Option, none, some, String, ℤ, if◌then◌else◌, ◌==◌,
  string_key, nat_key, lookup, ltb,
}
use flora.Message.Data.{Frame}
use flora.Protocol.{default_msg_buf_size}

pub record AdapterInfo : Type 0 where
  pub id : ℕ
  pub pid : ℤ
  pub name : String
  pub declared_methods : List String
  pub flags : ℕ

abbrev pub contains : String → List String → Bool
contains name [] = false
contains name (m ∷ ms) = if m == name then true else contains name ms

abbrev pub remove : String → List String → List String
remove name [] = []
remove name (m ∷ ms) = if m == name then remove name ms else m ∷ remove name ms

-- `insert(name).second`
unfoldable pub declare_method : AdapterInfo → String → AdapterInfo × Bool
declare_method info name =
    if contains name info.declared_methods
    then (info, false)
    else (record info { declared_methods = name ∷ info.declared_methods }, true)

unfoldable pub remove_method : AdapterInfo → String → AdapterInfo
remove_method info name = record info { declared_methods = remove name info.declared_methods }

unfoldable pub has_method : AdapterInfo → String → Bool
has_method info name = contains name info.declared_methods

-- `Adapter::info` points to the entry of its adapter in one of the two maps.
pub data InfoPointer : Type 0 where
  in_adapter_infos in_monitors : InfoPointer

-- An adapter as the dispatcher sees it. `is_open` is `!closed()`; `alive` is false once no
-- `shared_ptr` is left, when `weak_ptr::lock` returns null and a raw pointer dangles.
pub record Adapter : Type 0 where
  pub serialize_flags : ℕ
  pub tag : ℕ
  pub info : Option InfoPointer
  pub is_open : Bool
  pub alive : Bool

pub record PendingCall : Type 0 where
  pub svrid : ℤ
  pub cliid : ℤ
  pub sender : ℕ
  pub target : ℕ
  pub discard_tp : ℕ

-- Adapters are named by their addresses. `sent` are the frames that the sockets took, the last one
-- first; `writes` counts the calls of `::write`.
pub record Net : Type 0 where
  pub heap : ℕ → Adapter
  pub sent : List (ℕ × Frame)
  pub writes : ℕ

-- The state is over the type of message objects. Times are in milliseconds. `idseq` is the static
-- member of AdapterInfo.
pub record State (C : Type 0) : Type 0 where
  pub subscriptions : List (String × List ℕ)
  pub persist_msgs : List (String × Option C)
  pub named_adapters : List (String × ℕ)
  pub pending_calls : List PendingCall
  pub reqseq : ℕ
  pub adapter_infos : List (ℕ × AdapterInfo)
  pub monitors : List (ℕ × AdapterInfo)
  pub idseq : ℕ
  pub flags : ℕ
  pub buf_size : ℕ
  pub handle_cmd_tp : ℕ
  pub clear_sub_prio : ℕ
  pub cmd_packets : List (Option C × ℕ)
  pub working : Bool
  pub net : Net

-- The constructor; the clock of a fresh dispatcher stands at its epoch.
unfoldable pub new_dispatcher : {C : Type 0} → ℕ → ℕ → Net → State C
new_dispatcher f bufsize net = record {
  subscriptions = [];
  persist_msgs = [];
  named_adapters = [];
  pending_calls = [];
  reqseq = 0;
  adapter_infos = [];
  monitors = [];
  idseq = 0;
  flags = f;
  buf_size = if ltb default_msg_buf_size bufsize then bufsize else default_msg_buf_size;
  handle_cmd_tp = 0;
  clear_sub_prio = 0;
  cmd_packets = [];
  working = false;
  net = net;
}

abbrev pub update : {A : Type 0} → (ℕ → A) → ℕ → A → ℕ → A
update f k v j = if k == j then v else f j

-- `sender->info`, followed: null, dangling, or the entry.
pub data InfoRef : Type 0 where
  no_info dangling : InfoRef
  found : AdapterInfo → InfoRef

abbrev found_or_dangling : Option AdapterInfo → InfoRef
found_or_dangling none = dangling
found_or_dangling (some i) = found i

abbrev follow : {C : Type 0} → State C → ℕ → Option InfoPointer → InfoRef
follow st a none = no_info
follow st a (some in_adapter_infos) = found_or_dangling (lookup a st.adapter_infos)
follow st a (some in_monitors) = found_or_dangling (lookup a st.monitors)

unfoldable pub info_of : {C : Type 0} → State C → ℕ → InfoRef
info_of st a = follow st a (st.net.heap a).info

-- What `::write` does to the whole frame: it takes it, fails, or runs into the send timeout.
pub data Written : Type 0 where
  taken failed timed_out : Written

unfoldable pub close_adapter : Net → ℕ → Net
close_adapter net a = record net {
  heap = update net.heap a (record (net.heap a) { is_open = false });
}

abbrev after_write : Net → ℕ → Frame → Written → Net
after_write net a f taken = record net { sent = (a, f) ∷ net.sent; writes = net.writes + 1 }
after_write net a f failed = record (close_adapter net a) { writes = net.writes + 1 }
after_write net a f timed_out = record (close_adapter net a) { writes = net.writes + 1 }

-- `SocketAdapter::write`. `os n` is the outcome of the n-th call of `::write`. The result is used for
-- log lines alone, so only the new state is returned.
unfoldable pub write : (ℕ → Written) → ℕ → Frame → Net → Net
write os a f net = if (net.heap a).is_open then after_write net a f (os net.writes) else net

-- `serialize`, then `write` if there is a frame.
abbrev pub write_if : (ℕ → Written) → ℕ → Option Frame → Net → Net
write_if os a none net = net
write_if os a (some f) net = write os a f net
