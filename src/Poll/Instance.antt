-- ===== src/Poll/Instance.antt =====
-- Making a poll from a URI, and its options (src/poll.cc, src/beep-sock-poll.h).
use flora.Base.{
  ℕ, Bool, true, false, List, [], ◌∷◌, Option, none, some, String, ℤ, negsuc, if◌then◌else◌, ◌==◌,
  nat_key, string_key,
}
use flora.Client.Calls.{Uri}
use flora.Poll.Keepalive.{ActiveAdapter, Timeval, obtain_timeout, default_beep_timeout}
use flora.Poll.Socket.{SocketPoll, new_poll, poll_success}

abbrev poll_inval : ℤ
poll_inval = negsuc 2

abbrev poll_unsupp : ℤ
poll_unsupp = negsuc 3

abbrev opt_keepalive_timeout : ℕ
opt_keepalive_timeout = 1

abbrev instance_of : Option Uri → Option SocketPoll
unfolding new_poll
instance_of none = none
instance_of (some u) =
    if u.scheme == "unix"
    then some (new_poll false none)
    else if u.scheme == "tcp"
    then some (new_poll true (some default_beep_timeout))
    else none

-- `none` is a null pointer.
unfoldable pub new_instance : (String → Option Uri) → String → Option SocketPoll
unfolding new_poll
new_instance parse uri = instance_of (parse uri)

abbrev poll_of : Option Uri → Option SocketPoll × ℤ
unfolding new_poll
poll_of none = (none, poll_inval)
poll_of (some u) =
    if u.scheme == "unix"
    then (some (new_poll false none), poll_success)
    else if u.scheme == "tcp"
    then (some (new_poll true none), poll_success)
    else (none, poll_unsupp)

-- The C function, which makes a `SocketPoll` of either kind; `has_result` is whether the pointer for
-- the result is not null.
unfoldable pub flora_poll_new : (String → Option Uri) → String → Bool → Option SocketPoll × ℤ
unfolding new_poll
flora_poll_new parse uri has_result = if has_result then poll_of (parse uri) else (none, poll_inval)

abbrev configured : ℕ → Option ℕ → Option ℕ
configured value none = none
configured value (some t) = some value

-- `SocketPoll` takes no options.
unfoldable pub config : ℕ → ℕ → SocketPoll → SocketPoll
config opt value st =
    if opt == opt_keepalive_timeout
    then record st { beep_timeout = configured value st.beep_timeout }
    else st

abbrev timeout_of : ℕ → ℕ → List ActiveAdapter → Option Timeval
unfolding obtain_timeout
timeout_of t now [] = none
timeout_of t now (x ∷ active) = obtain_timeout t now (x ∷ active)

-- The timeout that `do_poll` hands to `select`; `none` is a null pointer.
unfoldable pub select_timeout : ℕ → SocketPoll → Option Timeval
unfolding obtain_timeout
select_timeout now st = elim st.beep_timeout [ none ↦ none | some t ↦ timeout_of t now st.active ]
