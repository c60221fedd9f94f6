-- ===== src/Tests/Activity.antt =====
-- Two connections, of which one falls silent.
use flora.Base.{ℕ, ◌≡◌, refl, List, [], ◌∷◌, some, true, arith, pos, negsuc}
use flora.Poll.Keepalive.{
  ActiveAdapter, accept_event, read_event, poll_event, shutdown_timeout_adapter, obtain_timeout,
}
use flora.Poll.Activity.{
  Reached, start, step, Reached-IsSorted, shutdown_timeout_adapter-keep, IsSorted, Until,
}
use flora.Poll.Timeout.{IsTimeval, obtain_timeout-late}

abbrev at : ℕ → ℕ → ActiveAdapter
at tp a = record { lastest_action_tp = tp; adapter = a }

abbrev after_accept : List ActiveAdapter
after_accept =
    poll_event 600 20 (accept_event (some 2)) (poll_event 600 10 (accept_event (some 1)) [])

-- Adapter 1 speaks again, so it stands behind adapter 2.
abbrev active : List ActiveAdapter
active = poll_event 600 400 (read_event 1 true) after_accept

active-Reached : Reached 600 400 active
active-Reached =
    step 20 400 (read_event 1 true) after_accept
      (step 10 20 (accept_event (some 2)) (poll_event 600 10 (accept_event (some 1)) [])
        (step 0 10 (accept_event (some 1)) [] (start 0) (omega arith)) (omega arith))
      (omega arith)

Reached-IsSorted_example : IsSorted (at 20 2 ∷ at 400 1 ∷ []) × Until 400 (at 20 2 ∷ at 400 1 ∷ [])
unfolding poll_event
Reached-IsSorted_example = Reached-IsSorted 600 400 active active-Reached

shutdown_timeout_adapter-keep_example :
    shutdown_timeout_adapter 600 700 active ≡ (at 20 2 ∷ [], at 400 1 ∷ [])
unfolding poll_event
shutdown_timeout_adapter-keep_example =
    shutdown_timeout_adapter-keep 600 400 700 active active-Reached

obtain_timeout-late_example : ¬ (IsTimeval (record { tv_sec = pos 0; tv_usec = negsuc 199999 }) 0)
unfolding obtain_timeout
obtain_timeout-late_example =
    obtain_timeout-late 600 1200 0 (at 400 1) []
      (record { tv_sec = pos 0; tv_usec = negsuc 199999 }) (omega arith) refl
