-- ===== src/Tests/Polls.antt =====
-- A poll of TCP connections with one connection.
use flora.Base.{
  ℕ, ◌≡◌, ◌==◌, nat_key, refl, sym, ap, true, [], ◌∷◌, List, Option, none, some, arith, lookup,
  insert,
}
use flora.Poll.Keepalive.{ActiveAdapter, shutdown_timeout_adapter}
use flora.Poll.Keepalive
use flora.Poll.Socket.{
  SocketPoll, Selected, Input, over, failed, timed_out, readable, new_poll, start, stop, stopped,
  run_step, thread_step, prepare, sweep, visit, do_accept, new_adapter, connection, already_start,
}
use flora.Poll.Serving.{Reached, new, starts, stops, runs, IsServing, Reached-IsServing}
use flora.Poll.Stopping.{run_for, run_for-Reached, IsOver}
use flora.Poll.Stopped.{stopped-IsOver}
use flora.Poll.Failures.{failed-over, restarted-shut}

abbrev input : Selected → Option (ℕ × ℕ) → ℕ → Input
input s o now = record { selected = s; accepted = o; read = true; now = now }

-- The socket 3 is listened on, and the connection gets 5.
abbrev started_poll : SocketPoll
started_poll = (start (some 3) 32768 (new_poll true (some 60000))).0

abbrev or_poll : Option SocketPoll → SocketPoll
or_poll none = started_poll
or_poll (some st) = st

abbrev prepared : SocketPoll
prepared = or_poll (run_step (input timed_out none 0) started_poll)

abbrev asked : SocketPoll
asked = or_poll (run_step (input (readable (λ f. f == 3)) none 10) prepared)

abbrev at_three : SocketPoll
at_three = or_poll (run_for 3 (λ k. input timed_out none 11) asked)

abbrev accepted : SocketPoll
accepted = or_poll (run_step (input timed_out (some (5, 9)) 12) at_three)

-- Three numbers are left to look at.
abbrev looked_at : SocketPoll
looked_at = or_poll (run_for 3 (λ k. input timed_out none 13) accepted)

abbrev number : Option ℕ → ℕ
number none = 3
number (some n) = n

prepared-Reached : Reached prepared
unfolding start new_poll run_for run_step thread_step prepare sweep visit do_accept new_adapter
    connection Keepalive.do_accept shutdown_timeout_adapter lookup insert
prepared-Reached =
    runs (starts (new true (some 60000)) (some 3) 32768) (input timed_out none 0) prepared tt refl

asked-Reached : Reached asked
unfolding start new_poll run_for run_step thread_step prepare sweep visit do_accept new_adapter
    connection Keepalive.do_accept shutdown_timeout_adapter lookup insert
asked-Reached = runs prepared-Reached (input (readable (λ f. f == 3)) none 10) asked tt refl

at_three-Reached : Reached at_three
unfolding start new_poll run_for run_step thread_step prepare sweep visit do_accept new_adapter
    connection Keepalive.do_accept shutdown_timeout_adapter lookup insert
at_three-Reached =
    run_for-Reached 3 (λ k. input timed_out none 11) asked at_three asked-Reached (λ k. refl) refl

accepted-Reached : Reached accepted
unfolding start new_poll run_for run_step thread_step prepare sweep visit do_accept new_adapter
    connection Keepalive.do_accept shutdown_timeout_adapter lookup insert
accepted-Reached =
    runs at_three-Reached (input timed_out (some (5, 9)) 12) accepted
      (refl, λ l e. ap (λ o. 5 == number o) (sym e)) refl

looked_at-Reached : Reached looked_at
unfolding start new_poll run_for run_step thread_step prepare sweep visit do_accept new_adapter
    connection Keepalive.do_accept shutdown_timeout_adapter lookup insert
looked_at-Reached =
    run_for-Reached 3 (λ k. input timed_out none 13) accepted looked_at accepted-Reached (λ k. refl)
      refl

Reached-IsServing_example : IsServing looked_at
Reached-IsServing_example = Reached-IsServing looked_at looked_at-Reached

stopped-IsOver_example : IsOver (run_for 6 (λ k. input timed_out none 14) (stop looked_at))
unfolding start new_poll run_for run_step thread_step prepare sweep visit do_accept new_adapter
    connection Keepalive.do_accept shutdown_timeout_adapter lookup insert stop
stopped-IsOver_example =
    stopped-IsOver 6 (λ k. input timed_out none 14) (stop looked_at) (stops looked_at-Reached) refl
      refl (λ k. refl) (λ k. refl) (omega arith)

failed-over_example :
    (st' : SocketPoll) × (run_for 3 (λ k. input failed none 14) looked_at ≡ some st')
    × (st'.thread ≡ over)
    × (st'.adapters ≡ [])
    × ((listening : Option ℕ) (max_msg_size : ℕ)
        → start listening max_msg_size st' ≡ (st', already_start))
unfolding start new_poll run_for run_step thread_step prepare sweep visit do_accept new_adapter
    connection Keepalive.do_accept shutdown_timeout_adapter lookup insert
failed-over_example = failed-over (λ k. input failed none 14) looked_at looked_at-Reached refl refl

abbrev deleting : SocketPoll
deleting = or_poll (run_step (input timed_out none 14) (stop looked_at))

restarted-shut_example :
    (st' : SocketPoll) × (shut : List ℕ) × (run_for 2 (λ k. input timed_out none 15) deleting
      ≡ some st')
    × (st'.adapters ≡ [])
    × ((sweep 60012 (start (some 3) 32768 (stopped st')).0).shut ≡ 5 ∷ shut)
unfolding start new_poll run_for run_step thread_step prepare sweep visit do_accept new_adapter
    connection Keepalive.do_accept shutdown_timeout_adapter lookup insert stop
restarted-shut_example =
    restarted-shut (λ k. input timed_out none 15) 60000 60012
      (record { lastest_action_tp = 12; adapter = 0 }) [] (some 3) 32768 deleting refl refl refl
      (omega arith)
