-- ===== src/Poll/Socket.antt =====
-- `SocketPoll` (src/sock-poll.cc), and what `BeepSocketPoll` (src/beep-sock-poll.h) adds to its
-- functions. `select`, `accept` and the outcome of reading an adapter are inputs of a step.
use flora.Base.{
  ℕ, suc, Bool, true, false, List, [], ◌∷◌, ◌++◌, map, Option, none, some, ℤ, pos, negsuc,
  if◌then◌else◌, ◌==◌, nat_key, ltb, leb, lookup, insert, erase,
}
use flora.Poll.Keepalive.{ActiveAdapter, do_read, shutdown_timeout_adapter}
use flora.Poll.Keepalive

-- What `new_adapter` makes, with the address of the object.
pub record Connection : Type 0 where
  pub address : ℕ
  pub socket : ℕ
  pub buf_size : ℕ
  pub net_byteorder : Bool
  pub write_timeout : ℕ
  pub tag : ℕ

-- Where the run thread stands. `scanning` has the listening socket, the number that is looked at next
-- and the set that `select` left.
pub data Thread : Type 0 where
  absent preparing selecting releasing over : Thread
  scanning : ℕ → ℕ → (ℕ → Bool) → Thread

-- `beep_timeout` is that of a `BeepSocketPoll`, and `active` its list; `started` is whether there is a
-- dispatcher. `made` counts the adapters that were made, and `erased` has those that the dispatcher
-- was told to erase, the last first; `shut` has the sockets that were shut down for silence.
pub record SocketPoll : Type 0 where
  pub is_tcp : Bool
  pub beep_timeout : Option ℕ
  pub started : Bool
  pub listen_fd : Option ℕ
  pub max_fd : ℕ
  pub all_fds : ℕ → Bool
  pub max_msg_size : ℕ
  pub adapters : List (ℕ × Connection)
  pub active : List ActiveAdapter
  pub thread : Thread
  pub made : ℕ
  pub sockets : ℕ → ℕ
  pub erased : List ℕ
  pub shut : List ℕ

abbrev pub fd_setsize : ℕ
fd_setsize = 1024

abbrev pub poll_success : ℤ
poll_success = pos 0

abbrev pub already_start : ℤ
already_start = negsuc 0

abbrev pub syserr : ℤ
syserr = negsuc 1

unfoldable pub new_poll : Bool → Option ℕ → SocketPoll
new_poll is_tcp beep_timeout = record {
  is_tcp = is_tcp;
  beep_timeout = beep_timeout;
  started = false;
  listen_fd = none;
  max_fd = 0;
  all_fds = λ f. false;
  max_msg_size = 0;
  adapters = [];
  active = [];
  thread = absent;
  made = 0;
  sockets = λ a. 0;
  erased = [];
  shut = [];
}

abbrev pub start_on : Option ℕ → ℕ → SocketPoll → SocketPoll × ℤ
start_on none max_msg_size st = (st, syserr)
start_on (some fd) max_msg_size st = (
  record st {
    started = true;
    listen_fd = some fd;
    max_msg_size = max_msg_size;
    thread = preparing;
  },
  poll_success,
)

-- `listening` is what `init_tcp_socket` or `init_unix_socket` comes to.
unfoldable pub start : Option ℕ → ℕ → SocketPoll → SocketPoll × ℤ
start listening max_msg_size st =
    if st.started then (st, already_start) else start_on listening max_msg_size st

-- `stop` up to the join, and after it.
unfoldable pub stop : SocketPoll → SocketPoll
stop st = if st.started then record st { listen_fd = none } else st

unfoldable pub stopped : SocketPoll → SocketPoll
stopped st = record st { started = false; thread = absent }

abbrev pub set_fd : ℕ → Bool → (ℕ → Bool) → ℕ → Bool
set_fd fd b fds f = if fd == f then b else fds f

unfoldable pub connection : SocketPoll → ℕ → ℕ → Connection
connection st fd tag = record {
  address = st.made;
  socket = fd;
  buf_size = st.max_msg_size;
  net_byteorder = st.is_tcp;
  write_timeout = if st.is_tcp then 4000 else 800;
  tag = if st.is_tcp then tag else 0;
}

-- `FD_SET` writes out of bounds from `fd_setsize` on.
unfoldable pub new_adapter : ℕ → ℕ → SocketPoll → Option SocketPoll
unfolding connection
new_adapter fd tag st =
    if leb fd_setsize fd
    then none
    else some (record st {
      max_fd = if leb st.max_fd fd then suc fd else st.max_fd;
      all_fds = set_fd fd true st.all_fds;
      made = suc st.made;
      sockets = λ a. if a == st.made then fd else st.sockets a;
      adapters = insert fd (connection st fd tag) st.adapters;
    })

-- A change of the list of active adapters, which a `BeepSocketPoll` has.
abbrev pub with_active :
    Option ℕ → (List ActiveAdapter → List ActiveAdapter) → SocketPoll → SocketPoll
with_active none f st = st
with_active (some t) f st = record st { active = f st.active }

abbrev pub on_active : (List ActiveAdapter → List ActiveAdapter) → SocketPoll → SocketPoll
on_active f st = with_active st.beep_timeout f st

abbrev pub accept_active : ℕ → ℕ → Option SocketPoll → Option SocketPoll
accept_active now a none = none
accept_active now a (some st) = some (on_active (Keepalive.do_accept now (some a)) st)

unfoldable pub do_accept : Option (ℕ × ℕ) → ℕ → SocketPoll → Option SocketPoll
unfolding new_adapter Keepalive.do_accept
do_accept none now st = some st
do_accept (some (fd, tag)) now st = accept_active now st.made (new_adapter fd tag st)

unfoldable pub delete_adapter : Connection → SocketPoll → SocketPoll
delete_adapter a st = record st {
  all_fds = set_fd a.socket false st.all_fds;
  erased = a.address ∷ st.erased;
}

-- Deleting an adapter and erasing it from the map.
abbrev pub drop_adapter : ℕ → Connection → SocketPoll → SocketPoll
drop_adapter fd a st =
    let st' = delete_adapter a st in record st' { adapters = erase fd st'.adapters }

-- `read` is what reading the adapter comes to.
abbrev pub after_read : ℕ → Connection → Bool → ℕ → SocketPoll → SocketPoll
unfolding do_read delete_adapter
after_read fd a true now st = on_active (do_read now a.address true) st
after_read fd a false now st = drop_adapter fd a (on_active (do_read now a.address false) st)

abbrev pub read_found : ℕ → Option Connection → Bool → ℕ → SocketPoll → Option SocketPoll
unfolding do_read delete_adapter
read_found fd none read now st = some st
read_found fd (some a) read now st = some (after_read fd a read now st)

-- The round of the loop at the number `fd`.
unfoldable pub visit : ℕ → ℕ → Option (ℕ × ℕ) → Bool → ℕ → SocketPoll → Option SocketPoll
unfolding do_accept do_read delete_adapter
visit lfd fd accepted read now st =
    if fd == lfd
    then do_accept accepted now st
    else read_found fd (lookup fd st.adapters) read now st

-- What `select` comes to: an error, `EAGAIN`, a timeout, or the set of those to read.
pub data Selected : Type 0 where
  failed again timed_out : Selected
  readable : (ℕ → Bool) → Selected

-- What one step of the thread finds.
pub record Input : Type 0 where
  pub selected : Selected
  pub accepted : Option (ℕ × ℕ)
  pub read : Bool
  pub now : ℕ

abbrev pub after_sweep : List ActiveAdapter × List ActiveAdapter → SocketPoll → SocketPoll
after_sweep (silent, left) st = record st {
  active = left;
  shut = map (λ x. st.sockets x.adapter) silent ++ st.shut;
}

-- `do_poll` after `select`, of a `BeepSocketPoll`.
abbrev pub sweep_for : Option ℕ → ℕ → SocketPoll → SocketPoll
unfolding shutdown_timeout_adapter
sweep_for none now st = st
sweep_for (some t) now st = after_sweep (shutdown_timeout_adapter t now st.active) st

unfoldable pub sweep : ℕ → SocketPoll → SocketPoll
unfolding shutdown_timeout_adapter
sweep now st = sweep_for st.beep_timeout now st

abbrev pub go_to : Thread → SocketPoll → SocketPoll
go_to t st = record st { thread = t }

abbrev pub go_on : Thread → Option SocketPoll → Option SocketPoll
go_on t none = none
go_on t (some st) = some (go_to t st)

-- The test of the listening socket, after `select` returned without an error.
abbrev pub go_listening : Option ℕ → (ℕ → Thread) → SocketPoll → SocketPoll
go_listening none next st = go_to releasing st
go_listening (some lfd) next st = go_to (next lfd) st

abbrev pub after_select : (ℕ → Thread) → SocketPoll → SocketPoll
after_select next st = go_listening st.listen_fd next st

abbrev pub prepare_on : Option ℕ → SocketPoll → Option SocketPoll
prepare_on none st = none
prepare_on (some fd) st =
    if leb fd_setsize fd
    then none
    else some
        (record st { all_fds = set_fd fd true (λ f. false); max_fd = suc fd; thread = selecting })

unfoldable pub prepare : SocketPoll → Option SocketPoll
prepare st = prepare_on st.listen_fd st

abbrev pub select_step : Selected → ℕ → SocketPoll → SocketPoll
select_step again now st = st
select_step failed now st = go_to releasing (sweep now st)
select_step timed_out now st = after_select (λ lfd. selecting) (sweep now st)
select_step (readable rfds) now st = after_select (λ lfd. scanning lfd 0 rfds) (sweep now st)

abbrev pub release : List (ℕ × Connection) → SocketPoll → SocketPoll
release [] st = go_to over st
release ((fd, a) ∷ rest) st = drop_adapter fd a st

-- What the thread does next, where it stands; `none` is a write out of bounds.
unfoldable pub thread_step : Thread → Input → SocketPoll → Option SocketPoll
unfolding prepare sweep visit delete_adapter
thread_step absent input st = some st
thread_step preparing input st = prepare st
thread_step selecting input st = some (select_step input.selected input.now st)
thread_step (scanning lfd fd rfds) input st =
    if ltb fd st.max_fd
    then go_on (scanning lfd (suc fd) rfds)
        (if rfds fd then visit lfd fd input.accepted input.read input.now st else some st)
    else some (go_to selecting st)
thread_step releasing input st = some (release st.adapters st)
thread_step over input st = some st

unfoldable pub run_step : Input → SocketPoll → Option SocketPoll
unfolding thread_step
run_step input st = thread_step st.thread input st
