-- ===== src/Poll/Serving.antt =====
-- The states that the poll reaches, from one start to the next (src/sock-poll.cc).
use flora.Base.{
  ℕ, suc, ◌≡◌, refl, sym, ap, ◌∙◌, Bool, true, false, List, [], ◌∷◌, Option, none, some, nat_key,
  ==-refl, if◌then◌else◌, ltb, leb, lookup, arith, Bool-cases, inl, inr, subst, ℤ,
}
use mathlib.Core.Bool.{false≢true}
use flora.Poll.Socket.{
  Connection, SocketPoll, Thread, Selected, Input, absent, preparing, selecting, releasing, over,
  scanning, failed, again, timed_out, readable, new_poll, start, stop, stopped, prepare, sweep,
  release, start_on, prepare_on, go_listening, thread_step, run_step, go_to, go_on, select_step,
  delete_adapter, fd_setsize,
}
use flora.Poll.Watching.{
  IsKept, IsWatching, Unused, Keeps, has_fd, sweep_for-Keeps, drop_adapter-Keeps, visit-Keeps,
  unless, either,
}

-- The thread is in the loop, or deletes what is left.
abbrev pub is_busy : Thread → Bool
is_busy absent = false
is_busy preparing = false
is_busy over = false
is_busy selecting = true
is_busy releasing = true
is_busy (scanning lfd fd rfds) = true

abbrev pub is_present : Thread → Bool
is_present absent = false
is_present preparing = true
is_present over = true
is_present selecting = true
is_present releasing = true
is_present (scanning lfd fd rfds) = true

pub record IsServing (st : SocketPoll) : Type 0 where
  pub kept : IsKept st
  pub watching : is_busy st.thread ≡ true → IsWatching st
  pub occupied : is_present st.thread ≡ true → st.started ≡ true
  pub empty : is_busy st.thread ≡ false → st.adapters ≡ []

-- The operations and the steps of the thread in any order, with sockets from `accept` that were not
-- open, and no write out of bounds.
pub data Reached : SocketPoll → Type 0 where
  new : (is_tcp : Bool) (beep_timeout : Option ℕ) → Reached (new_poll is_tcp beep_timeout)
  starts :
      {st : SocketPoll}
      → Reached st
      → (listening : Option ℕ) (max_msg_size : ℕ) → Reached (start listening max_msg_size st).0
  stops : {st : SocketPoll} → Reached st → Reached (stop st)
  joins : {st : SocketPoll} → Reached st → st.thread ≡ over → Reached (stopped st)
  runs :
      {st : SocketPoll}
      → Reached st
      → (input : Input) (st' : SocketPoll) → Unused st input.accepted
      → run_step input st ≡ some st'
      → Reached st'

abbrev pub Serves : Option SocketPoll → Type 0
Serves none = Unit {0}
Serves (some st) = IsServing st

-- The thread goes on inside the loop.
go_to-IsServing :
    (t : Thread) (st : SocketPoll)
    → IsKept st
    → IsWatching st
    → is_busy t ≡ true
    → st.started ≡ true
    → IsServing (go_to t st)
go_to-IsServing t st kept watching busy works = record {
  kept = record {
    distinct = kept.distinct;
    keyed = kept.keyed;
    accounts = kept.accounts;
    apart = kept.apart;
  };
  watching = λ b. record {
    bounded = watching.bounded;
    at_most = watching.at_most;
    watched = watching.watched;
  };
  occupied = λ b. works;
  empty = λ b. absurd (false≢true (sym b ∙ busy));
}

go_on-IsServing :
    (t : Thread) (st : SocketPoll) (o : Option SocketPoll)
    → Keeps st o
    → is_busy t ≡ true
    → st.started ≡ true
    → Serves (go_on t o)
go_on-IsServing t st none k busy works = tt
go_on-IsServing t st (some st') (kept, watching, started, listens) busy works =
    go_to-IsServing t st' kept watching busy (started ∙ works)

prepare_on-IsServing :
    (o : Option ℕ) (st : SocketPoll)
    → IsKept st
    → st.listen_fd ≡ o
    → st.adapters ≡ []
    → st.started ≡ true
    → Serves (prepare_on o st)
unfolding lookup
prepare_on-IsServing none st kept s empty works = tt
prepare_on-IsServing (some fd) st kept s empty works =
    unless Serves (leb fd_setsize fd) tt (λ small. record {
      kept = record {
        distinct = kept.distinct;
        keyed = kept.keyed;
        accounts = kept.accounts;
        apart = kept.apart;
      };
      watching = λ b. record {
        bounded = λ g e. ground (arith, nat_key.equal_iff fd g);
        at_most = ground (arith, small);
        watched = λ l e g.
            let same : fd ≡ l = ap (λ o. elim o [ none ↦ fd | some x ↦ x ]) (sym s ∙ e) in
            let none_else : has_fd g st.adapters ≡ false = ap (has_fd g) empty in
            ground (arith, same, none_else, nat_key.equal_iff fd g, nat_key.equal_iff g l);
      };
      occupied = λ b. works;
      empty = λ b. empty;
    })

go_listening-IsServing :
    (o : Option ℕ) (next : ℕ → Thread) (st : SocketPoll)
    → IsKept st
    → IsWatching st
    → st.started ≡ true
    → ((l : ℕ) → is_busy (next l) ≡ true)
    → IsServing (go_listening o next st)
go_listening-IsServing none next st kept watching works busy =
    go_to-IsServing releasing st kept watching refl works
go_listening-IsServing (some l) next st kept watching works busy =
    go_to-IsServing (next l) st kept watching (busy l) works

select_step-IsServing :
    (selected : Selected) (now : ℕ) (st : SocketPoll)
    → IsServing st
    → IsWatching st
    → st.started ≡ true
    → IsServing (select_step selected now st)
unfolding sweep
select_step-IsServing again now st ok watching works = ok
select_step-IsServing failed now st ok watching works =
    let (kept, watching', started, listens) =
      sweep_for-Keeps st.beep_timeout now st ok.kept watching in
    go_to-IsServing releasing (sweep now st) kept watching' refl (started ∙ works)
select_step-IsServing timed_out now st ok watching works =
    let (kept, watching', started, listens) =
      sweep_for-Keeps st.beep_timeout now st ok.kept watching in
    go_listening-IsServing (sweep now st).listen_fd (λ l. selecting) (sweep now st) kept watching'
      (started ∙ works) (λ l. refl)
select_step-IsServing (readable rfds) now st ok watching works =
    let (kept, watching', started, listens) =
      sweep_for-Keeps st.beep_timeout now st ok.kept watching in
    go_listening-IsServing (sweep now st).listen_fd (λ l. scanning l 0 rfds) (sweep now st) kept
      watching' (started ∙ works) (λ l. refl)

release-IsServing :
    (m : List (ℕ × Connection)) (st : SocketPoll)
    → st.adapters ≡ m
    → st.thread ≡ releasing
    → IsKept st
    → IsWatching st
    → st.started ≡ true
    → IsServing (release m st)
unfolding delete_adapter lookup
release-IsServing [] st e at kept watching works = record {
  kept = record {
    distinct = kept.distinct;
    keyed = kept.keyed;
    accounts = kept.accounts;
    apart = kept.apart;
  };
  watching = λ b. absurd (false≢true b);
  occupied = λ b. works;
  empty = λ b. e;
}
release-IsServing ((fd, c) ∷ m) st e at kept watching works =
    let first : lookup fd st.adapters ≡ some c = ap (lookup fd) e ∙ rw (==-refl fd) in
    let (kept', watching', started, listens) = drop_adapter-Keeps fd c st kept watching first in
    record {
      kept = kept';
      watching = λ b. watching';
      occupied = λ b. started ∙ works;
      empty = λ b. absurd (false≢true (sym b ∙ ap is_busy at));
    }

pub thread_step-IsServing :
    (t : Thread) (input : Input) (st : SocketPoll)
    → st.thread ≡ t
    → Unused st input.accepted
    → IsServing st
    → Serves (thread_step t input st)
unfolding thread_step prepare
thread_step-IsServing absent input st e unused ok = ok
thread_step-IsServing preparing input st e unused ok =
    prepare_on-IsServing st.listen_fd st ok.kept refl (ok.empty (ap is_busy e))
      (ok.occupied (ap is_present e))
thread_step-IsServing selecting input st e unused ok =
    select_step-IsServing input.selected input.now st ok (ok.watching (ap is_busy e))
      (ok.occupied (ap is_present e))
thread_step-IsServing (scanning lfd fd rfds) input st e unused ok =
    let watching = ok.watching (ap is_busy e) in
    let works = ok.occupied (ap is_present e) in
    either Serves (ltb fd st.max_fd)
      (go_on-IsServing (scanning lfd (suc fd) rfds) st _
        (either (Keeps st) (rfds fd)
          (visit-Keeps lfd fd input.accepted input.read input.now st ok.kept watching unused)
          (ok.kept, watching, refl, refl))
        refl works)
      (go_to-IsServing selecting st ok.kept watching refl works)
thread_step-IsServing releasing input st e unused ok =
    release-IsServing st.adapters st refl e ok.kept (ok.watching (ap is_busy e))
      (ok.occupied (ap is_present e))
thread_step-IsServing over input st e unused ok = ok

none-some : {A B : Type 0} {a : A} → ◌≡◌ {A = Option A} none (some a) → B
none-some e = absurd (false≢true (ap (λ o. elim o [ none ↦ false | some x ↦ true ]) e))

if_else :
    {A : Type 0} (P : A → Type 0) (b : Bool) {x y : A}
    → (b ≡ true → P x)
    → (b ≡ false → P y)
    → P (if b then x else y)
if_else P true p q = p refl
if_else P false p q = q refl

absent-busy : (t : Thread) → is_present t ≡ false → is_busy t ≡ false
absent-busy absent h = refl
absent-busy preparing h = refl
absent-busy over h = refl
absent-busy selecting h = h
absent-busy releasing h = h
absent-busy (scanning lfd fd rfds) h = h

resting : (st : SocketPoll) → IsServing st → st.started ≡ false → st.adapters ≡ []
resting st ok idle = elim (Bool-cases (is_present st.thread)) [
  | inl there ↦ absurd (false≢true (sym idle ∙ ok.occupied there))
  | inr gone ↦ ok.empty (absent-busy st.thread gone)
]

start_on-IsServing :
    (listening : Option ℕ) (max_msg_size : ℕ) (st : SocketPoll)
    → IsServing st
    → st.adapters ≡ []
    → IsServing (start_on listening max_msg_size st).0
unfolding lookup
start_on-IsServing none max_msg_size st ok empty = ok
start_on-IsServing (some fd) max_msg_size st ok empty = record {
  kept = record {
    distinct = ok.kept.distinct;
    keyed = ok.kept.keyed;
    accounts = ok.kept.accounts;
    apart = λ l e. ap (lookup l) empty;
  };
  watching = λ b. absurd (false≢true b);
  occupied = λ b. refl;
  empty = λ b. empty;
}

start-IsServing :
    (listening : Option ℕ) (max_msg_size : ℕ) (st : SocketPoll)
    → IsServing st
    → IsServing (start listening max_msg_size st).0
unfolding start
start-IsServing listening max_msg_size st ok =
    if_else (λ (p : SocketPoll × ℤ). IsServing p.0) st.started (λ b. ok)
      (λ idle. start_on-IsServing listening max_msg_size st ok (resting st ok idle))

stop-IsServing : (st : SocketPoll) → IsServing st → IsServing (stop st)
unfolding stop
stop-IsServing st ok =
    if_else IsServing st.started
      (λ b. record {
        kept = record {
          distinct = ok.kept.distinct;
          keyed = ok.kept.keyed;
          accounts = ok.kept.accounts;
          apart = λ l e. none-some e;
        };
        watching = λ busy.
            let watching = ok.watching busy in
            record {
              bounded = watching.bounded;
              at_most = watching.at_most;
              watched = λ l e. none-some e;
            };
        occupied = ok.occupied;
        empty = ok.empty;
      })
      (λ b. ok)

-- In every state that the poll reaches, with sockets from `accept` that were not open and no
-- `FD_SET` out of bounds, each adapter that it made stands in its map once, under its socket, or was
-- erased from the dispatcher once; while the thread is busy and the poll listens, `select` is asked
-- about the listening socket and those of the adapters and no other, all below `max_fd`; and there
-- are no adapters when the thread is not busy.
pub Reached-IsServing : (st : SocketPoll) → Reached st → IsServing st
unfolding new_poll run_step stopped lookup
Reached-IsServing st (new is_tcp beep_timeout) = record {
  kept = record {
    distinct = tt;
    keyed = λ f c e. none-some e;
    accounts = λ a. ground arith;
    apart = λ l e. refl;
  };
  watching = λ b. absurd (false≢true b);
  occupied = λ b. absurd (false≢true b);
  empty = λ b. refl;
}
Reached-IsServing st' (starts {st} before listening max_msg_size) =
    start-IsServing listening max_msg_size st (Reached-IsServing st before)
Reached-IsServing st' (stops {st} before) = stop-IsServing st (Reached-IsServing st before)
Reached-IsServing st' (joins {st} before e) =
    let ok = Reached-IsServing st before in
    record {
      kept = record {
        distinct = ok.kept.distinct;
        keyed = ok.kept.keyed;
        accounts = ok.kept.accounts;
        apart = ok.kept.apart;
      };
      watching = λ b. absurd (false≢true b);
      occupied = λ b. absurd (false≢true b);
      empty = λ b. ok.empty (ap is_busy e);
    }
Reached-IsServing st' (runs {st} before input st'' unused e) =
    subst Serves e
      (thread_step-IsServing st.thread input st refl unused (Reached-IsServing st before))
