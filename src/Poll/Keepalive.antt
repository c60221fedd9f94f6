-- ===== src/Poll/Keepalive.antt =====
-- `BeepSocketPoll` (src/beep-sock-poll.h): the list of active adapters. Times are in milliseconds;
-- adapters are named by their addresses.
use flora.Base.{
  ℕ, zero, suc, ◌+◌, ◌-◌, ◌*◌, ◌/◌, ◌%◌, Bool, true, false, List, [], ◌∷◌, ◌++◌, Option, none, some,
  ℤ, pos, negsuc, if◌then◌else◌, ◌==◌, nat_key, leb,
}

pub record ActiveAdapter : Type 0 where
  pub lastest_action_tp : ℕ
  pub adapter : ℕ

abbrev pub default_beep_timeout : ℕ
default_beep_timeout = 60000

abbrev pub add_active : ℕ → ℕ → List ActiveAdapter → List ActiveAdapter
add_active now a active = active ++ record { lastest_action_tp = now; adapter = a } ∷ []

-- `do_accept`, with the new adapter if there is one.
unfoldable pub do_accept : ℕ → Option ℕ → List ActiveAdapter → List ActiveAdapter
do_accept now none active = active
do_accept now (some a) active = add_active now a active

abbrev pub is_active : ℕ → List ActiveAdapter → Bool
is_active a [] = false
is_active a (x ∷ active) = if x.adapter == a then true else is_active a active

-- `erase` at the adapter's first entry.
unfoldable pub erase_active : ℕ → List ActiveAdapter → List ActiveAdapter
erase_active a [] = []
erase_active a (x ∷ active) = if x.adapter == a then active else x ∷ erase_active a active

-- `do_read` after the read itself, whose result is `r`. `splice` moves the entry to the end.
unfoldable pub do_read : ℕ → ℕ → Bool → List ActiveAdapter → List ActiveAdapter
unfolding erase_active
do_read now a r active =
    if is_active a active
    then if r then add_active now a (erase_active a active) else erase_active a active
    else active

-- The adapters whose sockets are shut down, and those that are left. The test is on signed numbers,
-- `nowtp - beep_timeout >= lastest_action_tp`.
unfoldable pub shutdown_timeout_adapter :
    ℕ → ℕ → List ActiveAdapter → List ActiveAdapter × List ActiveAdapter
shutdown_timeout_adapter beep_timeout now [] = ([], [])
shutdown_timeout_adapter beep_timeout now (x ∷ active) =
    let rest = shutdown_timeout_adapter beep_timeout now active in
    if leb (x.lastest_action_tp + beep_timeout) now then (x ∷ rest.0, rest.1) else ([], x ∷ active)

pub record Timeval : Type 0 where
  pub tv_sec : ℤ
  pub tv_usec : ℤ

-- Signed numbers with the division of C, which rounds towards 0.
abbrev pub negated : ℕ → ℤ
negated zero = pos 0
negated (suc n) = negsuc n

abbrev pub sub_int : ℕ → ℕ → ℤ
sub_int a b = if leb b a then pos (a - b) else negated (b - a)

abbrev pub div_int : ℤ → ℕ → ℤ
div_int (pos n) k = pos (n / k)
div_int (negsuc n) k = negated (suc n / k)

abbrev pub rem_times : ℤ → ℕ → ℕ → ℤ
rem_times (pos n) k m = pos (n % k * m)
rem_times (negsuc n) k m = negated (suc n % k * m)

abbrev pub timeval_of : ℤ → Timeval
timeval_of dur = record { tv_sec = div_int dur 1000; tv_usec = rem_times dur 1000 1000 }

-- `front` of an empty list is undefined.
unfoldable pub obtain_timeout : ℕ → ℕ → List ActiveAdapter → Option Timeval
obtain_timeout beep_timeout now [] = none
obtain_timeout beep_timeout now (x ∷ active) =
    some (timeval_of (sub_int (x.lastest_action_tp + beep_timeout) now))

-- What the run thread does to the list.
pub data PollEvent : Type 0 where
  accept_event : Option ℕ → PollEvent
  read_event : ℕ → Bool → PollEvent
  select_event : PollEvent

unfoldable pub poll_event : ℕ → ℕ → PollEvent → List ActiveAdapter → List ActiveAdapter
unfolding do_accept do_read shutdown_timeout_adapter
poll_event beep_timeout now (accept_event o) active = do_accept now o active
poll_event beep_timeout now (read_event a r) active = do_read now a r active
poll_event beep_timeout now select_event active =
    (shutdown_timeout_adapter beep_timeout now active).1
