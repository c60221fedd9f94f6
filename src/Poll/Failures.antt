-- ===== src/Poll/Failures.antt =====
-- What an error of `select` and a second start come to (src/sock-poll.cc, src/beep-sock-poll.h).
use flora.Base.{
  ℕ, suc, ◌+◌, ◌≤◌, ◌≡◌, refl, ap, ◌∙◌, Bool, true, List, [], ◌∷◌, ◌++◌, map, Option, none, some,
  if◌then◌else◌, leb, length, arith,
}
use flora.Poll.Keepalive.{ActiveAdapter, shutdown_timeout_adapter}
use flora.Poll.Socket.{
  SocketPoll, Input, selecting, releasing, over, failed, start, start_on, stopped, sweep, sweep_for,
  thread_step, run_step, go_to, select_step, already_start,
}
use flora.Poll.Serving.{Reached, Reached-IsServing, is_present}
use flora.Poll.Stopping.{run_for, next_run, releases}
use flora.Poll.Stopped.{swept}

sweep_for-started :
    (o : Option ℕ) (now : ℕ) (st : SocketPoll) → (sweep_for o now st).started ≡ st.started
unfolding shutdown_timeout_adapter
sweep_for-started none now st = refl
sweep_for-started (some t) now st = refl

-- A poll that waits in `select`, in a state that it reaches, and whose `select` fails with anything
-- but `EAGAIN` deletes its adapters, and its thread is over in two steps more than there are
-- adapters; it is still started, and refuses to be started again.
pub failed-over :
    (inputs : ℕ → Input) (st : SocketPoll)
    → Reached st
    → st.thread ≡ selecting
    → (inputs 0).selected ≡ failed
    → (st' : SocketPoll) × (run_for (suc (suc (length st.adapters))) inputs st ≡ some st')
      × (st'.thread ≡ over)
      × (st'.adapters ≡ [])
      × ((listening : Option ℕ) (max_msg_size : ℕ)
          → start listening max_msg_size st' ≡ (st', already_start))
unfolding run_for run_step thread_step start sweep
failed-over inputs st reached e fails =
    let now = (inputs 0).now in
    let swept_st = go_to releasing (sweep now st) in
    let rest = λ (k : ℕ). inputs (suc k) in
    let (st', ran, done, started, active, sockets, timeout, none_left) =
      releases (length st.adapters) rest swept_st.adapters swept_st refl refl
        (ground (arith, ap length (swept now st))) in
    let works : st'.started ≡ true =
      started
      ∙ sweep_for-started st.beep_timeout now st
      ∙ (Reached-IsServing st reached).occupied (ap is_present e) in
    (
      st',
      ap (λ t. next_run (thread_step t (inputs 0) st) (run_for (suc (length st.adapters)) rest)) e
          ∙ ap
              (λ s.
                next_run (some (select_step s now st)) (run_for (suc (length st.adapters)) rest))
              fails
          ∙ ran,
      done,
      none_left,
      λ listening max_msg_size.
          ap (λ b. if b then (st', already_start) else start_on listening max_msg_size st') works,
    )

start_on-same :
    (listening : Option ℕ) (max_msg_size : ℕ) (st : SocketPoll)
    → let st' = (start_on listening max_msg_size st).0 in
      (st'.active ≡ st.active) × (st'.sockets ≡ st.sockets) × (st'.beep_timeout ≡ st.beep_timeout)
start_on-same none max_msg_size st = (refl, refl, refl)
start_on-same (some fd) max_msg_size st = (refl, refl, refl)

sweep_for-shut :
    (o : Option ℕ) (t now : ℕ) (x : ActiveAdapter) (rest : List ActiveAdapter) (st : SocketPoll)
    → o ≡ some t
    → st.active ≡ x ∷ rest
    → x.lastest_action_tp + t ≤ now
    → (shut : List ℕ) × ((sweep_for o now st).shut ≡ st.sockets x.adapter ∷ shut)
unfolding shutdown_timeout_adapter
sweep_for-shut o t now x rest st beeps active silent =
    let late : leb (x.lastest_action_tp + t) now ≡ true = ground (arith, silent) in
    let others = shutdown_timeout_adapter t now rest in
    let chosen : Bool → List ActiveAdapter × List ActiveAdapter =
      λ b. if b then (x ∷ others.0, others.1) else ([], x ∷ rest) in
    (
      map (λ y. st.sockets y.adapter) others.0 ++ st.shut,
      ap (λ o. (sweep_for o now st).shut) beeps
          ∙ ap
              (λ m. map (λ y. st.sockets y.adapter) (shutdown_timeout_adapter t now m).0 ++ st.shut)
              active
          ∙ ap (λ b. map (λ y. st.sockets y.adapter) (chosen b).0 ++ st.shut) late,
    )

-- A `BeepSocketPoll` with an active adapter whose thread deletes what is left, and which is stopped
-- and started again afterwards, shuts the socket number of that adapter down at a sweep after its
-- time is over, although the adapter was deleted.
pub restarted-shut :
    (inputs : ℕ → Input) (t now : ℕ) (x : ActiveAdapter) (rest : List ActiveAdapter)
    (listening : Option ℕ) (max_msg_size : ℕ) (st : SocketPoll)
    → st.thread ≡ releasing
    → st.beep_timeout ≡ some t
    → st.active ≡ x ∷ rest
    → x.lastest_action_tp + t ≤ now
    → (st' : SocketPoll) × (shut : List ℕ) × (run_for (suc (length st.adapters)) inputs st
        ≡ some st')
      × (st'.adapters ≡ [])
      × ((sweep now (start listening max_msg_size (stopped st')).0).shut
          ≡ st.sockets x.adapter ∷ shut)
unfolding start stopped sweep shutdown_timeout_adapter
restarted-shut inputs t now x rest listening max_msg_size st e beeps active silent =
    let (st', ran, done, started, active', sockets, timeout, none_left) =
      releases (length st.adapters) inputs st.adapters st e refl (omega arith) in
    let again_st = (start_on listening max_msg_size (stopped st')).0 in
    let (active'', sockets', timeout') = start_on-same listening max_msg_size (stopped st') in
    let (shut, first) =
      sweep_for-shut again_st.beep_timeout t now x rest again_st (timeout' ∙ timeout ∙ beeps)
        (active'' ∙ active' ∙ active) silent in
    (st', shut, ran, none_left, first ∙ ap (λ f. f x.adapter ∷ shut) (sockets' ∙ sockets))
