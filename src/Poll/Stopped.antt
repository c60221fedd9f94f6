-- ===== src/Poll/Stopped.antt =====
-- The run thread of a poll that is stopped comes to its end (src/sock-poll.cc).
use flora.Base.{
  ℕ, zero, suc, ◌+◌, ◌-◌, ◌≤◌, ◌≡◌, refl, sym, ap, ◌∙◌, Bool, true, false, List, Option, none, some,
  ◌==◌, nat_key, if◌then◌else◌, ltb, lookup, erase, length, arith, Bool-cases, inl, inr, subst,
}
use mathlib.Core.Bool.{false≢true}
use flora.Poll.Keepalive.{ActiveAdapter, do_read, shutdown_timeout_adapter}
use flora.Poll.Socket.{
  Connection, SocketPoll, Thread, Selected, Input, absent, preparing, selecting, releasing, over,
  scanning, failed, again, timed_out, readable, visit, sweep, sweep_for, thread_step, run_step,
  go_to, go_on, select_step, go_listening, after_read, read_found, delete_adapter, do_accept,
  with_active, fd_setsize,
}
use flora.Poll.Watching.{Unused}
use flora.Poll.Serving.{Reached, runs, Reached-IsServing, is_busy}
use flora.Poll.Stopping.{run_for, next_run, length-erase, IsOver, releases-IsOver}

abbrev pub is_again : Selected → Bool
is_again again = true
is_again failed = false
is_again timed_out = false
is_again (readable rfds) = false

-- An upper bound of the steps that are left.
abbrev pub steps_left : Thread → ℕ → ℕ
steps_left (scanning lfd fd rfds) held_now = (fd_setsize - fd) + held_now + 3
steps_left selecting held_now = held_now + 2
steps_left releasing held_now = held_now + 1
steps_left absent held_now = 0
steps_left preparing held_now = 0
steps_left over held_now = 0

-- A round that accepts nothing leaves at most the adapters that there were.
abbrev Shrinks : SocketPoll → Option SocketPoll → Type 0
Shrinks st o =
    (st' : SocketPoll) × (o ≡ some st')
    × (st'.listen_fd ≡ st.listen_fd)
    × (length st'.adapters ≤ length st.adapters)

with_active-Shrinks :
    (o : Option ℕ) (f : List ActiveAdapter → List ActiveAdapter) (st : SocketPoll)
    → ((with_active o f st).listen_fd ≡ st.listen_fd)
      × ((with_active o f st).adapters ≡ st.adapters)
with_active-Shrinks none f st = (refl, refl)
with_active-Shrinks (some t) f st = (refl, refl)

sweep_for-same :
    (o : Option ℕ) (now : ℕ) (st : SocketPoll)
    → ((sweep_for o now st).listen_fd ≡ st.listen_fd)
      × ((sweep_for o now st).adapters ≡ st.adapters)
unfolding shutdown_timeout_adapter
sweep_for-same none now st = (refl, refl)
sweep_for-same (some t) now st = (refl, refl)

after_read-Shrinks :
    (f : ℕ) (c : Connection) (read : Bool) (now : ℕ) (st : SocketPoll)
    → Shrinks st (some (after_read f c read now st))
unfolding do_read delete_adapter
after_read-Shrinks f c true now st =
    let (listens, same) = with_active-Shrinks st.beep_timeout (do_read now c.address true) st in
    (_, refl, listens, ground (arith, ap length same))
after_read-Shrinks f c false now st =
    let (listens, same) = with_active-Shrinks st.beep_timeout (do_read now c.address false) st in
    (
      _,
      refl,
      listens,
      ground (arith, ap (λ m. length (erase f m)) same, length-erase f st.adapters),
    )

read_found-Shrinks :
    (f : ℕ) (o : Option Connection) (read : Bool) (now : ℕ) (st : SocketPoll)
    → Shrinks st (read_found f o read now st)
unfolding do_read delete_adapter
read_found-Shrinks f none read now st = (st, refl, refl, ground arith)
read_found-Shrinks f (some c) read now st = after_read-Shrinks f c read now st

either : {A : Type 0} (P : A → Type 0) (b : Bool) {x y : A} → P x → P y → P (if b then x else y)
either P true p q = p
either P false p q = q

visit-Shrinks :
    (lfd f : ℕ) (accepted : Option (ℕ × ℕ)) (read : Bool) (now : ℕ) (st : SocketPoll)
    → accepted ≡ none
    → Shrinks st (visit lfd f accepted read now st)
unfolding visit do_read delete_adapter do_accept
visit-Shrinks lfd f accepted read now st closed =
    either (Shrinks st) (f == lfd)
      (subst (λ o. Shrinks st (do_accept o now st)) (sym closed) (st, refl, refl, ground arith))
      (read_found-Shrinks f (lookup f st.adapters) read now st)

go_listening-none :
    (o : Option ℕ) (next : ℕ → Thread) (st : SocketPoll)
    → o ≡ none
    → go_listening o next st ≡ go_to releasing st
go_listening-none o next st e = ap (λ o. go_listening o next st) e

select_step-releases :
    (selected : Selected) (now : ℕ) (st : SocketPoll)
    → is_again selected ≡ false
    → st.listen_fd ≡ none
    → select_step selected now st ≡ go_to releasing (sweep now st)
unfolding sweep
select_step-releases again now st e alone = absurd (false≢true (sym e))
select_step-releases failed now st e alone = refl
select_step-releases timed_out now st e alone =
    go_listening-none _ _ (sweep now st) ((sweep_for-same st.beep_timeout now st).0 ∙ alone)
select_step-releases (readable rfds) now st e alone =
    go_listening-none _ _ (sweep now st) ((sweep_for-same st.beep_timeout now st).0 ∙ alone)

pub swept : (now : ℕ) (st : SocketPoll) → (sweep now st).adapters ≡ st.adapters
unfolding sweep
swept now st = (sweep_for-same st.beep_timeout now st).1

after_step :
    (n : ℕ) (inputs : ℕ → Input) (st st' : SocketPoll)
    → run_step (inputs 0) st ≡ some st'
    → IsOver (run_for n (λ k. inputs (suc k)) st')
    → IsOver (run_for (suc n) inputs st)
unfolding run_for
after_step n inputs st st' e done =
    subst (λ o. IsOver (next_run o (λ x. run_for n (λ k. inputs (suc k)) x))) (sym e) done

-- What a round of the loop over the sockets leaves.
scans :
    (lfd f : ℕ) (rfds : ℕ → Bool) (input : Input) (st : SocketPoll)
    → st.thread ≡ scanning lfd f rfds
    → input.accepted ≡ none
    → ltb f st.max_fd ≡ true
    → (st' : SocketPoll) × (run_step input st ≡ some st')
      × (st'.thread ≡ scanning lfd (suc f) rfds)
      × (st'.listen_fd ≡ st.listen_fd)
      × (length st'.adapters ≤ length st.adapters)
unfolding run_step thread_step
scans lfd f rfds input st e closed inside =
    let next = scanning lfd (suc f) rfds in
    let round : Option SocketPoll =
      if rfds f then visit lfd f input.accepted input.read input.now st else some st in
    let (st', came, listens, fewer) : Shrinks st round =
      either (Shrinks st) (rfds f)
        (visit-Shrinks lfd f input.accepted input.read input.now st closed)
        (st, refl, refl, ground arith) in
    (
      go_to next st',
      ap (λ t. thread_step t input st) e
          ∙ ap (λ b. if b then go_on next round else some (go_to selecting st)) inside
          ∙ ap (go_on next) came,
      refl,
      listens,
      fewer,
    )

runs_out :
    (n : ℕ) (inputs : ℕ → Input) (t : Thread) (st : SocketPoll)
    → Reached st
    → st.thread ≡ t
    → is_busy t ≡ true
    → st.listen_fd ≡ none
    → ((k : ℕ) → (inputs k).accepted ≡ none)
    → ((k : ℕ) → is_again (inputs k).selected ≡ false)
    → steps_left t (length st.adapters) ≤ n
    → IsOver (run_for n inputs st)
unfolding run_step thread_step
runs_out n inputs absent st reached e busy alone closed ready h = absurd (false≢true busy)
runs_out n inputs preparing st reached e busy alone closed ready h = absurd (false≢true busy)
runs_out n inputs over st reached e busy alone closed ready h = absurd (false≢true busy)
runs_out n inputs releasing st reached e busy alone closed ready h =
    releases-IsOver n inputs st reached closed e (omega (arith, h))
runs_out zero inputs selecting st reached e busy alone closed ready h = absurd (omega (arith, h))
runs_out (suc n) inputs selecting st reached e busy alone closed ready h =
    let st' = go_to releasing (sweep (inputs 0).now st) in
    let step : run_step (inputs 0) st ≡ some st' =
      ap (λ t. thread_step t (inputs 0) st) e
      ∙ ap some (select_step-releases (inputs 0).selected (inputs 0).now st (ready 0) alone) in
    after_step n inputs st st' step (
      releases-IsOver n (λ k. inputs (suc k)) st'
        (runs reached (inputs 0) st' (subst (Unused st) (sym (closed 0)) tt) step)
        (λ k. closed (suc k)) refl (ground (arith, h, ap length (swept (inputs 0).now st))))
runs_out zero inputs (scanning lfd f rfds) st reached e busy alone closed ready h =
    absurd (omega (arith, h))
runs_out (suc n) inputs (scanning lfd f rfds) st reached e busy alone closed ready h =
    elim (Bool-cases (ltb f st.max_fd)) [
      | inl inside ↦
          let (st', step, goes, listens, fewer) =
            scans lfd f rfds (inputs 0) st e (closed 0) inside in
          let watching = (Reached-IsServing st reached).watching (ap is_busy e) in
          after_step n inputs st st' step (
            runs_out n (λ k. inputs (suc k)) (scanning lfd (suc f) rfds) st'
              (runs reached (inputs 0) st' (subst (Unused st) (sym (closed 0)) tt) step) goes refl
              (listens ∙ alone) (λ k. closed (suc k)) (λ k. ready (suc k))
              (ground (arith, h, fewer, inside, watching.at_most)))
      | inr outside ↦
          let st' = go_to selecting st in
          let step : run_step (inputs 0) st ≡ some st' =
            ap (λ t. thread_step t (inputs 0) st) e
            ∙ ap
                (λ b.
                  if b
                  then go_on (scanning lfd (suc f) rfds) (
                      if rfds f
                      then visit lfd f (inputs 0).accepted (inputs 0).read (inputs 0).now st
                      else some st)
                  else some st')
                outside in
          after_step n inputs st st' step (
            runs_out n (λ k. inputs (suc k)) selecting st'
              (runs reached (inputs 0) st' (subst (Unused st) (sym (closed 0)) tt) step) refl refl
              alone (λ k. closed (suc k)) (λ k. ready (suc k)) (omega (arith, h)))
    ]

-- A poll that is in its loop and has been stopped, in a state that it reaches, comes to the end of
-- its thread in at most as many steps as `steps_left` says, if `accept` returns no connection any
-- more and no `select` fails with `EAGAIN`; then the dispatcher was told to erase each adapter that
-- was ever made, once.
pub stopped-IsOver :
    (n : ℕ) (inputs : ℕ → Input) (st : SocketPoll)
    → Reached st
    → is_busy st.thread ≡ true
    → st.listen_fd ≡ none
    → ((k : ℕ) → (inputs k).accepted ≡ none)
    → ((k : ℕ) → is_again (inputs k).selected ≡ false)
    → steps_left st.thread (length st.adapters) ≤ n
    → IsOver (run_for n inputs st)
stopped-IsOver n inputs st reached busy alone closed ready h =
    runs_out n inputs st.thread st reached refl busy alone closed ready h
