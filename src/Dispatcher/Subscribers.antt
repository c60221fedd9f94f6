-- ===== src/Dispatcher/Subscribers.antt =====
-- Who is subscribed to a name (src/disp.cc, `handle_subscribe_req` and `handle_unsubscribe_req`).
use flora.Base.{
  ℕ, suc, ◌+◌, ◌≤◌, ◌≡◌, refl, sym, ap, ◌∙◌, Bool, true, false, not, ◌&&◌, ◌||◌, List, [], ◌∷◌,
  ◌++◌, none, some, String, if◌then◌else◌, nat_beq_iff, ◌==◌, string_key, nat_key, lookup, assign,
  or_else, lookup-assign, lookup-erase, keep, arith, Bool-cases, Option-cases, inl, inr, subst,
}
use Prim.Native.Nat.{max}
use text.Mathlib.TextEquality.{eq_iff}
use mathlib.Core.Bool.{false≢true}
use flora.Caps.{CapsApi}
use flora.Dispatcher.State.{State, Net, Written}
use flora.Dispatcher.Subscription.{subscribe, subscribed, unsubscribe, unsubscribed, put_or_erase}

-- How often an adapter stands in a list.
abbrev pub times : ℕ → List ℕ → ℕ
times a [] = 0
times a (b ∷ bs) = if b == a then suc (times a bs) else times a bs

pub times-append : (a : ℕ) (xs ys : List ℕ) → times a (xs ++ ys) ≡ times a xs + times a ys
times-append a [] ys = omega arith
times-append a (x ∷ xs) ys = ground (arith, times-append a xs ys)

pub times-keep :
    (a : ℕ) (p : ℕ → Bool) (xs : List ℕ) → times a (keep p xs) ≡ (if p a then times a xs else 0)
times-keep a p [] = ground arith
times-keep a p (x ∷ xs) = elim (Bool-cases (x == a)) [
  | inl same ↦
      let e : x ≡ a = (nat_beq_iff x a).0 same in
      subst (λ b. times a (keep p (b ∷ xs)) ≡ (if p a then times a (b ∷ xs) else 0)) (sym e)
        (ground (arith, times-keep a p xs))
  | inr other ↦ ground (arith, times-keep a p xs)
]

subscribed-times :
    (net : Net) (a : ℕ) (xs : List ℕ)
    → (net.heap a).alive ≡ true
    → (subscribed net a xs ≡ true → 1 ≤ times a xs) × (subscribed net a xs ≡ false → times a xs ≡ 0)
unfolding subscribed
subscribed-times net a [] h = ((λ e. ground arith), (λ e. refl))
subscribed-times net a (x ∷ xs) h =
    let rest = subscribed-times net a xs h in
    elim (Bool-cases (x == a)) [
      | inl same ↦
          let e : x ≡ a = (nat_beq_iff x a).0 same in
          let live : (net.heap x).alive ≡ true = ap (λ (b : ℕ). (net.heap b).alive) e ∙ h in
          rw (same, live) ((λ t. omega arith), (λ t. absurd (false≢true (sym t))))
      | inr other ↦ rw other (ground (arith, rest))
    ]

abbrev pub subscribers : {C : Type 0} → State C → String → List ℕ
subscribers st name = or_else (lookup name st.subscriptions) []

pub put_or_erase_lem :
    (name other : String) (xs : List ℕ) (m : List (String × List ℕ))
    → or_else (lookup other (put_or_erase name xs m)) []
      ≡ (if name == other then xs else or_else (lookup other m) [])
put_or_erase_lem name other [] m = rw (lookup-erase name other m) (ground arith)
put_or_erase_lem name other (x ∷ xs) m = rw (lookup-assign name other (x ∷ xs) m) (ground arith)

-- The subscribers of `other` after one was added to the list of `name`.
added-times :
    (m : List (String × List ℕ)) (sender : ℕ) (name other : String) (b : ℕ)
    → times sender (or_else (lookup name m) []) ≡ 0
    → times b
        (or_else (lookup other (assign name (or_else (lookup name m) [] ++ sender ∷ []) m)) [])
      ≡ (if name == other && sender == b
          then max 1 (times b (or_else (lookup other m) []))
          else times b (or_else (lookup other m) []))
added-times m sender name other b absent = elim (Bool-cases (name == other)) [
  | inl same ↦
      let e : name ≡ other = (eq_iff name other).0 same in
      rw (lookup-assign name other (or_else (lookup name m) [] ++ sender ∷ []) m, same)
        (rw (← e) (ground (arith, times-append b (or_else (lookup name m) []) (sender ∷ []))))
  | inr differ ↦ rw (lookup-assign name other (or_else (lookup name m) [] ++ sender ∷ []) m, differ)
]

kept-times :
    (m : List (String × List ℕ)) (sender : ℕ) (name other : String) (b : ℕ)
    → 1 ≤ times sender (or_else (lookup name m) [])
    → times b (or_else (lookup other m) []) ≡ (
        if name == other && sender == b
        then max 1 (times b (or_else (lookup other m) []))
        else times b (or_else (lookup other m) []))
kept-times m sender name other b present = elim (Bool-cases (name == other)) [
  | inl same ↦
      let e : name ≡ other = (eq_iff name other).0 same in rw same (rw (← e) (ground arith))
  | inr differ ↦ rw differ
]

missing-times :
    (m : List (String × List ℕ)) (sender : ℕ) (name other : String) (b : ℕ)
    → lookup name m ≡ none
    → times b (or_else (lookup other m) [])
      ≡ (if name == other && sender == b then 0 else times b (or_else (lookup other m) []))
missing-times m sender name other b e = elim (Bool-cases (name == other)) [
  | inl same ↦
      let path : name ≡ other = (eq_iff name other).0 same in
      rw same (rw (← path, e) (ground arith))
  | inr differ ↦ rw differ
]

removed-times :
    (net : Net) (m : List (String × List ℕ)) (sender : ℕ) (name other : String) (b : ℕ)
    (adapters : List ℕ)
    → (net.heap b).alive ≡ true
    → lookup name m ≡ some adapters
    → times b (or_else (lookup other (put_or_erase name (unsubscribed net sender adapters) m)) [])
      ≡ (if name == other && sender == b then 0 else times b (or_else (lookup other m) []))
removed-times net m sender name other b adapters live e =
    let kept = times-keep b (λ a. not (not (net.heap a).alive || a == sender)) adapters in
    rw (put_or_erase_lem name other (unsubscribed net sender adapters) m)
      (elim (Bool-cases (name == other)) [
        | inl same ↦
            let path : name ≡ other = (eq_iff name other).0 same in
            rw same (rw (← path, e) (kept ∙ rw live (ground arith)))
        | inr differ ↦ rw differ
      ])

module _ (api : CapsApi) (os : ℕ → Written) where
  pub subscribe_result :
      (st : State api.Caps) (sender : ℕ) (name : String)
      → (name == "") ≡ false
      → ((subscribe api os st sender name).1 ≡ true)
        × ((subscribe api os st sender name).0.subscriptions ≡ (
            if subscribed st.net sender (subscribers st name)
            then st.subscriptions
            else assign name (subscribers st name ++ sender ∷ []) st.subscriptions))
  unfolding subscribe
  subscribe_result st sender name h =
      elim (Bool-cases (subscribed st.net sender (subscribers st name))) [
        | inl old ↦ (rw (h, old), rw (h, old))
        | inr new ↦ elim (Option-cases (lookup name st.persist_msgs)) [
          | inl e ↦ (rw (h, new), rw (h, new, e))
          | inr (content, e) ↦ (rw (h, new), rw (h, new, e))
        ]
      ]

  -- After a client that is still there has subscribed to a name that is not empty, it stands in the
  -- name's list, once if it was not there before; every other adapter, and every other name, is as
  -- it was.
  pub subscribe-times :
      (st : State api.Caps) (sender : ℕ) (name other : String) (b : ℕ)
      → (st.net.heap sender).alive ≡ true
      → (name == "") ≡ false
      → times b (subscribers (subscribe api os st sender name).0 other) ≡ (
          if name == other && sender == b
          then max 1 (times b (subscribers st other))
          else times b (subscribers st other))
  subscribe-times st sender name other b live h =
      let (_, result) = subscribe_result st sender name h in
      let seen = subscribed-times st.net sender (subscribers st name) live in
      ap (λ (m : List (String × List ℕ)). times b (or_else (lookup other m) [])) result
      ∙ elim (Bool-cases (subscribed st.net sender (subscribers st name))) [
        | inl old ↦ rw old (kept-times st.subscriptions sender name other b (seen.0 old))
        | inr new ↦ rw new (added-times st.subscriptions sender name other b (seen.1 new))
      ]

  -- After a client has unsubscribed from a name that is not empty it stands in the name's list no
  -- more; every other adapter stands in it as before, and in the lists of the other names nothing
  -- has changed; this is said of the adapters that are still there.
  pub unsubscribe-times :
      (st : State api.Caps) (sender : ℕ) (name other : String) (b : ℕ)
      → (st.net.heap b).alive ≡ true
      → (name == "") ≡ false
      → times b (subscribers (unsubscribe api os st sender name).0 other)
        ≡ (if name == other && sender == b then 0 else times b (subscribers st other))
  unfolding unsubscribe
  unsubscribe-times st sender name other b live h =
      elim (Option-cases (lookup name st.subscriptions)) [
        | inl e ↦ rw (h, e, unsubscribe) (missing-times st.subscriptions sender name other b e)
        | inr (adapters, e) ↦
            rw (h, e, unsubscribe)
              (removed-times st.net st.subscriptions sender name other b adapters live e)
      ]
