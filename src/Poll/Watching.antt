-- ===== src/Poll/Watching.antt =====
-- What the poll keeps while it accepts, reads and deletes (src/sock-poll.cc).
use flora.Base.{
  ℕ, ◌+◌, ◌≤◌, ◌<◌, ◌≡◌, refl, sym, ap, ◌∙◌, Bool, true, false, List, Option, none, some, ◌==◌,
  nat_key, if◌then◌else◌, ltb, leb, lookup, insert, lookup-erase, lookup-insert, arith, Bool-cases,
  Option-cases, inl, inr, subst,
}
use flora.Poll.Keepalive.{ActiveAdapter, do_read, shutdown_timeout_adapter}
use flora.Poll.Keepalive
use flora.Poll.Socket.{
  Connection, SocketPoll, connection, new_adapter, on_active, do_accept, delete_adapter,
  drop_adapter, visit, after_read, read_found, sweep_for, with_active, fd_setsize, accept_active,
}
use flora.Poll.Connections.{
  times, held, Distinct, held-insert, insert-Distinct, held-erase, erase-Distinct,
}

abbrev pub has_fd : ℕ → List (ℕ × Connection) → Bool
has_fd f m = elim (lookup f m) [ none ↦ false | some c ↦ true ]

-- Each adapter that was made stands in the map once, under its socket, or was erased from the
-- dispatcher once.
pub record IsKept (st : SocketPoll) : Type 0 where
  pub distinct : Distinct st.adapters
  pub keyed : (f : ℕ) (c : Connection) → lookup f st.adapters ≡ some c → c.socket ≡ f
  pub accounts : (a : ℕ) → times a st.erased + held a st.adapters ≡ (if ltb a st.made then 1 else 0)
  pub apart : (l : ℕ) → st.listen_fd ≡ some l → lookup l st.adapters ≡ none

-- `select` is asked about the listening socket and those of the adapters, and no other, all of them
-- below `max_fd`.
pub record IsWatching (st : SocketPoll) : Type 0 where
  pub bounded : (f : ℕ) → st.all_fds f ≡ true → f < st.max_fd
  pub at_most : st.max_fd ≤ fd_setsize
  pub watched :
      (l : ℕ)
      → st.listen_fd ≡ some l
      → (f : ℕ) → st.all_fds f ≡ (if f == l then true else has_fd f st.adapters)

-- A socket that `accept` returns is not open yet.
abbrev pub Unused : SocketPoll → Option (ℕ × ℕ) → Type 0
Unused st none = Unit {0}
Unused st (some (f, tag)) =
    (lookup f st.adapters ≡ none) × ((l : ℕ) → st.listen_fd ≡ some l → (f == l) ≡ false)

-- A round keeps both, and whether the poll is started.
abbrev pub Keeps : SocketPoll → Option SocketPoll → Type 0
Keeps st none = Unit {0}
Keeps st (some st') =
    IsKept st' × IsWatching st' × (st'.started ≡ st.started) × (st'.listen_fd ≡ st.listen_fd)

same-Keeps :
    (st : SocketPoll) (active : List ActiveAdapter) (shut : List ℕ)
    → IsKept st
    → IsWatching st
    → Keeps st (some (record st { active = active; shut = shut }))
same-Keeps st active shut kept watching = (
  record {
    distinct = kept.distinct;
    keyed = kept.keyed;
    accounts = kept.accounts;
    apart = kept.apart;
  },
  record { bounded = watching.bounded; at_most = watching.at_most; watched = watching.watched },
  refl,
  refl,
)

pub with_active-Keeps :
    (o : Option ℕ) (f : List ActiveAdapter → List ActiveAdapter) (st : SocketPoll)
    → IsKept st
    → IsWatching st
    → Keeps st (some (with_active o f st))
with_active-Keeps none f st kept watching = (kept, watching, refl, refl)
with_active-Keeps (some t) f st kept watching = same-Keeps st _ _ kept watching

pub sweep_for-Keeps :
    (o : Option ℕ) (now : ℕ) (st : SocketPoll)
    → IsKept st
    → IsWatching st
    → Keeps st (some (sweep_for o now st))
unfolding shutdown_timeout_adapter
sweep_for-Keeps none now st kept watching = (kept, watching, refl, refl)
sweep_for-Keeps (some t) now st kept watching = same-Keeps st _ _ kept watching

pub unless :
    (P : Option SocketPoll → Type 0) (b : Bool) {o : Option SocketPoll}
    → P none
    → (b ≡ false → P o)
    → P (if b then none else o)
unless P true n s = n
unless P false n s = s refl

abbrev socket_of : ℕ → Option Connection → ℕ
socket_of f none = f
socket_of f (some c) = c.socket

new_adapter-Keeps :
    (f tag : ℕ) (st : SocketPoll)
    → IsKept st
    → IsWatching st
    → Unused st (some (f, tag))
    → Keeps st (new_adapter f tag st)
unfolding new_adapter connection
new_adapter-Keeps f tag st kept watching (free, other) =
    let c = connection st f tag in
    unless (Keeps st) (leb fd_setsize f) tt (λ small. (
      record {
        distinct = insert-Distinct f c st.adapters free kept.distinct;
        keyed = λ g d e. elim (Bool-cases (f == g)) [
          | inl same ↦
              let added : lookup g (insert f c st.adapters) ≡ some c =
                lookup-insert f g c st.adapters ∙ rw (same, free) in
              let there : f ≡ g = ground (arith, nat_key.equal_iff f g, same) in
              sym (ap (socket_of f) (sym added ∙ e)) ∙ there
          | inr differs ↦
              kept.keyed g d (ground (arith, lookup-insert f g c st.adapters, differs, e))
        ];
        accounts = λ a. ground (arith, kept.accounts a, held-insert a f c st.adapters free);
        apart = λ l e. ground (arith, kept.apart l e, other l e, lookup-insert f l c st.adapters);
      },
      record {
        bounded = λ g e. ground (arith, watching.bounded g, nat_key.equal_iff f g);
        at_most = ground (arith, watching.at_most, small);
        watched = λ l e g. ground (
          arith,
          watching.watched l e g,
          other l e,
          lookup-insert f g c st.adapters,
          free,
          nat_key.equal_iff g l,
          nat_key.equal_iff f g,
          nat_key.equal_iff f l,
        );
      },
      refl,
      refl,
    ))

pub drop_adapter-Keeps :
    (f : ℕ) (c : Connection) (st : SocketPoll)
    → IsKept st
    → IsWatching st
    → lookup f st.adapters ≡ some c
    → Keeps st (some (drop_adapter f c st))
unfolding delete_adapter
drop_adapter-Keeps f c st kept watching found =
    let socket : c.socket ≡ f = kept.keyed f c found in
    (
      record {
        distinct = erase-Distinct f st.adapters kept.distinct;
        keyed = λ g d e. kept.keyed g d (ground (arith, lookup-erase f g st.adapters, e));
        accounts =
            λ a. ground (arith, kept.accounts a, held-erase a f c st.adapters kept.distinct found);
        apart = λ l e. ground (arith, kept.apart l e, lookup-erase f l st.adapters);
      },
      record {
        bounded = λ g e. ground (arith, watching.bounded g);
        at_most = watching.at_most;
        watched = λ l e g. ground (
          arith,
          watching.watched l e g,
          kept.apart l e,
          found,
          socket,
          lookup-erase f g st.adapters,
          nat_key.equal_iff g l,
          nat_key.equal_iff f g,
          nat_key.equal_iff f l,
          nat_key.equal_iff c.socket g,
        );
      },
      refl,
      refl,
    )

accept_active-Keeps :
    (now a : ℕ) (st : SocketPoll) (o : Option SocketPoll)
    → Keeps st o
    → Keeps st (accept_active now a o)
unfolding Keepalive.do_accept
accept_active-Keeps now a st none k = tt
accept_active-Keeps now a st (some st') (kept, watching, started, listens) =
    let (kept', watching', started', listens') =
      with_active-Keeps st'.beep_timeout (Keepalive.do_accept now (some a)) st' kept watching in
    (kept', watching', started' ∙ started, listens' ∙ listens)

with_active-adapters :
    (o : Option ℕ) (g : List ActiveAdapter → List ActiveAdapter) (st : SocketPoll) (f : ℕ)
    → lookup f (with_active o g st).adapters ≡ lookup f st.adapters
with_active-adapters none g st f = refl
with_active-adapters (some t) g st f = refl

pub either :
    (P : Option SocketPoll → Type 0) (b : Bool) {o o' : Option SocketPoll}
    → P o
    → P o'
    → P (if b then o else o')
either P true p q = p
either P false p q = q

do_accept-Keeps :
    (accepted : Option (ℕ × ℕ)) (now : ℕ) (st : SocketPoll)
    → IsKept st
    → IsWatching st
    → Unused st accepted
    → Keeps st (do_accept accepted now st)
unfolding do_accept
do_accept-Keeps none now st kept watching unused = (kept, watching, refl, refl)
do_accept-Keeps (some (f, tag)) now st kept watching unused =
    accept_active-Keeps now st.made st (new_adapter f tag st)
      (new_adapter-Keeps f tag st kept watching unused)

read-Keeps :
    (f : ℕ) (c : Connection) (read : Bool) (now : ℕ) (st : SocketPoll)
    → IsKept st
    → IsWatching st
    → lookup f st.adapters ≡ some c
    → Keeps st (some (after_read f c read now st))
unfolding do_read delete_adapter
read-Keeps f c true now st kept watching found =
    with_active-Keeps st.beep_timeout (do_read now c.address true) st kept watching
read-Keeps f c false now st kept watching found =
    let (kept', watching', started, listens) =
      with_active-Keeps st.beep_timeout (do_read now c.address false) st kept watching in
    let (kept'', watching'', started', listens') =
      drop_adapter-Keeps f c (on_active (do_read now c.address false) st) kept' watching'
        (with_active-adapters st.beep_timeout _ st f ∙ found) in
    (kept'', watching'', started' ∙ started, listens' ∙ listens)

-- A round at any number keeps both.
pub visit-Keeps :
    (lfd f : ℕ) (accepted : Option (ℕ × ℕ)) (read : Bool) (now : ℕ) (st : SocketPoll)
    → IsKept st
    → IsWatching st
    → Unused st accepted
    → Keeps st (visit lfd f accepted read now st)
unfolding visit do_read delete_adapter
visit-Keeps lfd f accepted read now st kept watching unused =
    either (Keeps st) (f == lfd) (do_accept-Keeps accepted now st kept watching unused)
      (elim (Option-cases (lookup f st.adapters)) [
        | inl n ↦
            subst (λ o. Keeps st (read_found f o read now st)) (sym n) (kept, watching, refl, refl)
        | inr (c, s) ↦
            subst (λ o. Keeps st (read_found f o read now st)) (sym s)
              (read-Keeps f c read now st kept watching s)
      ])
