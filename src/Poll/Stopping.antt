-- ===== src/Poll/Stopping.antt =====
-- The run thread comes to its end (src/sock-poll.cc).
use flora.Base.{
  ℕ, zero, suc, ◌≤◌, ◌<◌, ◌≡◌, refl, sym, ap, ◌∙◌, Bool, true, false, List, [], ◌∷◌, Option, none,
  some, nat_key, ==-refl, if◌then◌else◌, ltb, erase, length, arith, Option-cases, inl, inr, subst,
}
use mathlib.Core.Bool.{false≢true}
use flora.Poll.Socket.{
  Connection, SocketPoll, Input, releasing, over, release, thread_step, run_step, go_to,
  drop_adapter, delete_adapter,
}
use flora.Poll.Connections.{times, held}
use flora.Poll.Watching.{Unused}
use flora.Poll.Serving.{Reached, runs, Reached-IsServing, is_busy}

abbrev pub next_run : Option SocketPoll → (SocketPoll → Option SocketPoll) → Option SocketPoll
next_run none k = none
next_run (some st) k = k st

-- That many steps of the thread.
unfoldable pub run_for : ℕ → (ℕ → Input) → SocketPoll → Option SocketPoll
run_for zero inputs st = some st
run_for (suc n) inputs st =
    next_run (run_step (inputs 0) st) (λ st'. run_for n (λ k. inputs (suc k)) st')

pub length-erase : (f : ℕ) (m : List (ℕ × Connection)) → length (erase f m) ≤ length m
unfolding erase
length-erase f [] = ground arith
length-erase f ((g, c) ∷ m) = ground (arith, length-erase f m)

pub over-stays :
    (n : ℕ) (inputs : ℕ → Input) (st : SocketPoll)
    → st.thread ≡ over
    → run_for n inputs st ≡ some st
unfolding run_for run_step thread_step
over-stays zero inputs st e = refl
over-stays (suc n) inputs st e =
    ap (λ t. next_run (thread_step t (inputs 0) st) (λ st'. run_for n (λ k. inputs (suc k)) st')) e
    ∙ over-stays n (λ k. inputs (suc k)) st e

-- The end of the thread: its adapters are gone, and the list of active ones is as it was.
abbrev pub Ends : SocketPoll → Option SocketPoll → Type 0
Ends st o =
    (st' : SocketPoll) × (o ≡ some st')
    × (st'.thread ≡ over)
    × (st'.started ≡ st.started)
    × (st'.active ≡ st.active)
    × (st'.sockets ≡ st.sockets)
    × (st'.beep_timeout ≡ st.beep_timeout)
    × (st'.adapters ≡ [])

pub releases :
    (n : ℕ) (inputs : ℕ → Input) (m : List (ℕ × Connection)) (st : SocketPoll)
    → st.thread ≡ releasing
    → st.adapters ≡ m
    → length m ≤ n
    → Ends st (run_for (suc n) inputs st)
unfolding run_for run_step thread_step delete_adapter erase
releases n inputs [] st e empty h = (
  go_to over st,
  ap (λ t. next_run (thread_step t (inputs 0) st) (λ st'. run_for n (λ k. inputs (suc k)) st')) e
      ∙ ap (λ m. next_run (some (release m st)) (λ st'. run_for n (λ k. inputs (suc k)) st')) empty
      ∙ over-stays n (λ k. inputs (suc k)) (go_to over st) refl,
  refl,
  refl,
  refl,
  refl,
  refl,
  empty,
)
releases zero inputs ((f, c) ∷ m) st e filled h = absurd (omega (arith, h))
releases (suc n) inputs ((f, c) ∷ m) st e filled h =
    let fewer : length (erase f m) ≤ n = omega (arith, h, length-erase f m) in
    let left : (drop_adapter f c st).adapters ≡ erase f m = ap (erase f) filled ∙ rw (==-refl f) in
    let (st', ran, is_over, started, active, sockets, timeout, none_left) =
      releases n (λ k. inputs (suc k)) (erase f m) (drop_adapter f c st) e left fewer in
    (
      st',
      ap
            (λ t.
              next_run (thread_step t (inputs 0) st)
                (λ st'. run_for (suc n) (λ k. inputs (suc k)) st'))
            e
          ∙ ap
              (λ m.
                next_run (some (release m st)) (λ st'. run_for (suc n) (λ k. inputs (suc k)) st'))
              filled
          ∙ ran,
      is_over,
      started,
      active,
      sockets,
      timeout,
      none_left,
    )

abbrev Goes : Option SocketPoll → Type 0
Goes none = Unit {0}
Goes (some st) = Reached st

abbrev is_there : Option SocketPoll → Bool
is_there none = false
is_there (some st) = true

pub run_for-Reached :
    (n : ℕ) (inputs : ℕ → Input) (st st' : SocketPoll)
    → Reached st
    → ((k : ℕ) → (inputs k).accepted ≡ none)
    → run_for n inputs st ≡ some st'
    → Reached st'
unfolding run_for
run_for-Reached zero inputs st st' reached closed e = subst Goes e reached
run_for-Reached (suc n) inputs st st' reached closed e =
    elim (Option-cases (run_step (inputs 0) st)) [
      | inl stuck ↦ absurd (
          false≢true (
            ap is_there
              (sym (ap (λ o. next_run o (λ x. run_for n (λ k. inputs (suc k)) x)) stuck) ∙ e)))
      | inr (x, s) ↦
          run_for-Reached n (λ k. inputs (suc k)) x st'
            (runs reached (inputs 0) x (subst (Unused st) (sym (closed 0)) tt) s)
            (λ k. closed (suc k))
            (sym (ap (λ o. next_run o (λ x. run_for n (λ k. inputs (suc k)) x)) s) ∙ e)
    ]

-- The thread is over, and each adapter that was made was erased once.
abbrev pub IsOver : Option SocketPoll → Type 0
IsOver o =
    (st' : SocketPoll) × (o ≡ some st')
    × (st'.thread ≡ over)
    × ((a : ℕ) → times a st'.erased ≡ (if ltb a st'.made then 1 else 0))

ends-IsOver :
    (n : ℕ) (inputs : ℕ → Input) (st st' : SocketPoll)
    → Reached st
    → ((k : ℕ) → (inputs k).accepted ≡ none)
    → run_for n inputs st ≡ some st'
    → st'.thread ≡ over
    → IsOver (run_for n inputs st)
ends-IsOver n inputs st st' reached closed e done =
    let ok = Reached-IsServing st' (run_for-Reached n inputs st st' reached closed e) in
    let left : (a : ℕ) → held a st'.adapters ≡ 0 = λ a. ap (held a) (ok.empty (ap is_busy done)) in
    (st', e, done, λ a. ground (arith, ok.kept.accounts a, left a))

pub releases-IsOver :
    (n : ℕ) (inputs : ℕ → Input) (st : SocketPoll)
    → Reached st
    → ((k : ℕ) → (inputs k).accepted ≡ none)
    → st.thread ≡ releasing
    → length st.adapters < n
    → IsOver (run_for n inputs st)
releases-IsOver zero inputs st reached closed e h = absurd (omega (arith, h))
releases-IsOver (suc n) inputs st reached closed e h =
    let (st', ran, done, started, active, sockets, timeout, none_left) =
      releases n inputs st.adapters st e refl (omega (arith, h)) in
    ends-IsOver (suc n) inputs st st' reached closed ran done
