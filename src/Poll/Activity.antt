-- ===== src/Poll/Activity.antt =====
-- The list of active adapters in every state that the poll reaches.
use flora.Base.{
  ℕ, ◌+◌, ◌≤◌, ◌<◌, ◌≡◌, refl, sym, ap, Bool, false, not, List, [], ◌∷◌, none, some, ◌==◌, nat_key,
  leb, keep, All, arith, Bool-cases, inl, inr,
}
use flora.Poll.Keepalive.{
  ActiveAdapter, add_active, is_active, erase_active, shutdown_timeout_adapter, PollEvent,
  accept_event, read_event, select_event, poll_event,
}

abbrev pub Since : ℕ → List ActiveAdapter → Type 0
Since tp = All (λ x. tp ≤ x.lastest_action_tp)

abbrev pub Until : ℕ → List ActiveAdapter → Type 0
Until tp = All (λ x. x.lastest_action_tp ≤ tp)

-- Sorted by the time of the last action.
abbrev pub IsSorted : List ActiveAdapter → Type 0
IsSorted [] = Unit {0}
IsSorted (x ∷ xs) = Since x.lastest_action_tp xs × IsSorted xs

-- The state after some events, the last of them at the time `now`; the clock does not go back.
pub data Reached (beep_timeout : ℕ) : ℕ → List ActiveAdapter → Type 0 where
  start : (now : ℕ) → Reached beep_timeout now []
  step :
      (before now : ℕ) (event : PollEvent) (active : List ActiveAdapter)
      → Reached beep_timeout before active
      → before ≤ now
      → Reached beep_timeout now (poll_event beep_timeout now event active)

Since-mono : {m n : ℕ} (xs : List ActiveAdapter) → m ≤ n → Since n xs → Since m xs
Since-mono [] h s = tt
Since-mono {m} {n} (x ∷ xs) h s = (omega (arith, s.0), Since-mono xs h s.1)

Until-mono : {m n : ℕ} (xs : List ActiveAdapter) → m ≤ n → Until m xs → Until n xs
Until-mono [] h s = tt
Until-mono {m} {n} (x ∷ xs) h s = (omega (arith, s.0), Until-mono xs h s.1)

add_active-Since :
    (tp now a : ℕ) (xs : List ActiveAdapter)
    → tp ≤ now
    → Since tp xs
    → Since tp (add_active now a xs)
add_active-Since tp now a [] h s = (h, tt)
add_active-Since tp now a (x ∷ xs) h s = (s.0, add_active-Since tp now a xs h s.1)

add_active-IsSorted :
    (now a : ℕ) (xs : List ActiveAdapter)
    → IsSorted xs × Until now xs
    → IsSorted (add_active now a xs) × Until now (add_active now a xs)
add_active-IsSorted now a [] h = ((tt, tt), (omega arith, tt))
add_active-IsSorted now a (x ∷ xs) h =
    let rest = add_active-IsSorted now a xs (h.0.1, h.1.1) in
    ((add_active-Since x.lastest_action_tp now a xs h.1.0 h.0.0, rest.0), (h.1.0, rest.1))

erase_active-Since :
    (tp a : ℕ) (xs : List ActiveAdapter) → Since tp xs → Since tp (erase_active a xs)
unfolding erase_active
erase_active-Since tp a [] s = tt
erase_active-Since tp a (x ∷ xs) s = elim (Bool-cases (x.adapter == a)) [
  | inl same ↦ rw same s.1
  | inr other ↦ rw other (s.0, erase_active-Since tp a xs s.1)
]

erase_active-IsSorted :
    (now a : ℕ) (xs : List ActiveAdapter)
    → IsSorted xs × Until now xs
    → IsSorted (erase_active a xs) × Until now (erase_active a xs)
unfolding erase_active
erase_active-IsSorted now a [] h = (tt, tt)
erase_active-IsSorted now a (x ∷ xs) h =
    let rest = erase_active-IsSorted now a xs (h.0.1, h.1.1) in
    elim (Bool-cases (x.adapter == a)) [
      | inl same ↦ rw same (h.0.1, h.1.1)
      | inr other ↦
          rw other ((erase_active-Since x.lastest_action_tp a xs h.0.0, rest.0), (h.1.0, rest.1))
    ]

sweep-IsSorted :
    (beep_timeout now : ℕ) (xs : List ActiveAdapter)
    → IsSorted xs × Until now xs
    → let left = (shutdown_timeout_adapter beep_timeout now xs).1 in IsSorted left × Until now left
unfolding shutdown_timeout_adapter
sweep-IsSorted beep_timeout now [] h = (tt, tt)
sweep-IsSorted beep_timeout now (x ∷ xs) h =
    elim (Bool-cases (leb (x.lastest_action_tp + beep_timeout) now)) [
      | inl due ↦ rw due (sweep-IsSorted beep_timeout now xs (h.0.1, h.1.1))
      | inr early ↦ rw early h
    ]

poll_event-IsSorted :
    (beep_timeout now : ℕ) (event : PollEvent) (xs : List ActiveAdapter)
    → IsSorted xs × Until now xs
    → let after = poll_event beep_timeout now event xs in IsSorted after × Until now after
unfolding poll_event
poll_event-IsSorted beep_timeout now (accept_event none) xs h = h
poll_event-IsSorted beep_timeout now (accept_event (some a)) xs h = add_active-IsSorted now a xs h
poll_event-IsSorted beep_timeout now (read_event a r) xs h =
    let erased = erase_active-IsSorted now a xs h in
    elim (Bool-cases (is_active a xs)) [
      | inl there ↦ elim (Bool-cases r) [
        | inl good ↦ rw (there, good) (add_active-IsSorted now a (erase_active a xs) erased)
        | inr bad ↦ rw (there, bad) erased
      ]
      | inr gone ↦ rw gone h
    ]
poll_event-IsSorted beep_timeout now select_event xs h = sweep-IsSorted beep_timeout now xs h

-- In every state that the keepalive poll reaches, the list of active adapters is sorted by the times
-- of the last actions, and none of them lies in the future.
pub Reached-IsSorted :
    (beep_timeout now : ℕ) (active : List ActiveAdapter)
    → Reached beep_timeout now active
    → IsSorted active × Until now active
Reached-IsSorted beep_timeout now active (start n) = (tt, tt)
Reached-IsSorted beep_timeout now active (step before n event old r le) =
    let h = Reached-IsSorted beep_timeout before old r in
    poll_event-IsSorted beep_timeout now event old (h.0, Until-mono old le h.1)

abbrev pub is_silent : ℕ → ℕ → ActiveAdapter → Bool
is_silent beep_timeout now x = leb (x.lastest_action_tp + beep_timeout) now

none_silent :
    (beep_timeout now tp : ℕ) (xs : List ActiveAdapter)
    → now < tp + beep_timeout
    → Since tp xs
    → (keep (is_silent beep_timeout now) xs ≡ [])
      × (keep (λ x. not (is_silent beep_timeout now x)) xs ≡ xs)
none_silent beep_timeout now tp [] h s = (refl, refl)
none_silent beep_timeout now tp (x ∷ xs) h s =
    let rest = none_silent beep_timeout now tp xs h s.1 in
    let early : leb (x.lastest_action_tp + beep_timeout) now ≡ false = ground (arith, s.0) in
    (rw early rest.0, rw early (ap (◌∷◌ x) rest.1))

sweep_lem :
    (beep_timeout now : ℕ) (xs : List ActiveAdapter)
    → IsSorted xs
    → shutdown_timeout_adapter beep_timeout now xs
      ≡ (keep (is_silent beep_timeout now) xs, keep (λ x. not (is_silent beep_timeout now x)) xs)
unfolding shutdown_timeout_adapter
sweep_lem beep_timeout now [] s = refl
sweep_lem beep_timeout now (x ∷ xs) s =
    elim (Bool-cases (leb (x.lastest_action_tp + beep_timeout) now)) [
      | inl due ↦
          let rest = sweep_lem beep_timeout now xs s.1 in
          rw due (ap (λ (p : List ActiveAdapter × List ActiveAdapter). (x ∷ p.0, p.1)) rest)
      | inr early ↦
          let rest = none_silent beep_timeout now x.lastest_action_tp xs (ground arith) s.0 in
          rw early (λ i. (sym rest.0 i, x ∷ sym rest.1 i))
    ]

-- In every state that the keepalive poll reaches, a sweep shuts down exactly the adapters whose last
-- action is the timeout or longer ago and keeps the others in order, although it stops at the first
-- that it keeps.
pub shutdown_timeout_adapter-keep :
    (beep_timeout before now : ℕ) (active : List ActiveAdapter)
    → Reached beep_timeout before active
    → shutdown_timeout_adapter beep_timeout now active ≡ (
      keep (is_silent beep_timeout now) active,
      keep (λ x. not (is_silent beep_timeout now x)) active,
    )
shutdown_timeout_adapter-keep beep_timeout before now active r =
    sweep_lem beep_timeout now active (Reached-IsSorted beep_timeout before active r).0
