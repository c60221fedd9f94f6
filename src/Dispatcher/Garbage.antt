-- ===== src/Dispatcher/Garbage.antt =====
-- What is left of the subscriptions of adapters that are gone (src/disp.cc, `check_subscriptions` and
-- `clear_sub_gabages`).
use flora.Base.{
  ℕ, ◌≡◌, refl, sym, ◌∙◌, true, false, List, [], ◌∷◌, none, String, keep, All, lookup, subst,
  or_else, arith, Bool-cases, inl, inr, ◌==◌, string_key,
}
use flora.Dispatcher.State.{State, Net}
use flora.Dispatcher.Subscription.{clear_sub_gabages, check_subscriptions, is_empty}
use flora.Dispatcher.Subscribers.{times, times-keep}

-- No adapter of the list is gone, and the list is not empty.
abbrev pub IsLiving : Net → String × List ℕ → Type 0
IsLiving net e = All (λ a. (net.heap a).alive ≡ true) e.1 × (is_empty e.1 ≡ false)

keep-IsAlive :
    (net : Net) (xs : List ℕ)
    → All (λ a. (net.heap a).alive ≡ true) (keep (λ a. (net.heap a).alive) xs)
keep-IsAlive net [] = tt
keep-IsAlive net (x ∷ xs) = elim (Bool-cases (net.heap x).alive) [
  | inl here ↦ rw here (here, keep-IsAlive net xs)
  | inr gone ↦ rw gone (keep-IsAlive net xs)
]

-- Clearing the garbage leaves no adapter that is gone and no name with an empty list.
pub clear_sub_gabages-IsLiving :
    (net : Net) (m : List (String × List ℕ)) → All (IsLiving net) (clear_sub_gabages net m)
unfolding clear_sub_gabages
clear_sub_gabages-IsLiving net [] = tt
clear_sub_gabages-IsLiving net ((name, xs) ∷ m) =
    elim (Bool-cases (is_empty (keep (λ a. (net.heap a).alive) xs))) [
      | inl empty ↦ rw empty (clear_sub_gabages-IsLiving net m)
      | inr some_left ↦
          rw some_left ((keep-IsAlive net xs, some_left), clear_sub_gabages-IsLiving net m)
    ]

-- The names are the keys of a `std::map`.
abbrev pub HasNo : String → List (String × List ℕ) → Type 0
HasNo name = All (λ e. (e.0 == name) ≡ false)

abbrev pub AreKeys : List (String × List ℕ) → Type 0
AreKeys [] = Unit {0}
AreKeys (e ∷ m) = HasNo e.0 m × AreKeys m

cleared-lookup :
    (net : Net) (name : String) (m : List (String × List ℕ))
    → HasNo name m
    → lookup name (clear_sub_gabages net m) ≡ none
unfolding clear_sub_gabages lookup
cleared-lookup net name [] h = refl
cleared-lookup net name ((n, xs) ∷ m) h =
    elim (Bool-cases (is_empty (keep (λ a. (net.heap a).alive) xs))) [
      | inl empty ↦ rw empty (cleared-lookup net name m h.1)
      | inr some_left ↦ rw (some_left, h.0) (cleared-lookup net name m h.1)
    ]

living-times :
    (net : Net) (b : ℕ) (xs : List ℕ)
    → (net.heap b).alive ≡ true
    → times b (keep (λ a. (net.heap a).alive) xs) ≡ times b xs
living-times net b xs live = times-keep b (λ a. (net.heap a).alive) xs ∙ rw live

no-times : (b : ℕ) (xs : List ℕ) → is_empty xs ≡ true → times b xs ≡ 0
no-times b [] e = refl
no-times b (x ∷ xs) e = ground arith

-- An adapter that is still there stands in the list of every name as often as before.
pub clear_sub_gabages-times :
    (net : Net) (b : ℕ) (name : String) (m : List (String × List ℕ))
    → (net.heap b).alive ≡ true
    → AreKeys m
    → times b (or_else (lookup name (clear_sub_gabages net m)) [])
      ≡ times b (or_else (lookup name m) [])
unfolding clear_sub_gabages lookup
clear_sub_gabages-times net b name [] live keys = refl
clear_sub_gabages-times net b name ((n, xs) ∷ m) live keys =
    let left = keep (λ a. (net.heap a).alive) xs in
    let rest = clear_sub_gabages-times net b name m live keys.1 in
    elim (Bool-cases (n == name)) [
      | inr differ ↦ elim (Bool-cases (is_empty left)) [
        | inl empty ↦ rw (empty, differ) rest
        | inr some_left ↦ rw (some_left, differ) rest
      ]
      | inl same ↦ elim (Bool-cases (is_empty left)) [
        | inl empty ↦
            let path : n ≡ name = (string_key.equal_iff n name).0 same in
            let gone : lookup name (clear_sub_gabages net m) ≡ none =
              cleared-lookup net name m (subst (λ k. HasNo k m) path keys.0) in
            rw (empty, same, gone) (sym (no-times b left empty) ∙ living-times net b xs live)
        | inr some_left ↦ rw (some_left, same) (living-times net b xs live)
      ]
    ]

-- Whether the garbage is cleared or not, an adapter that is still there stands in the list of every
-- name as often as before, the names being the different keys of a map.
pub check_subscriptions-times :
    {C : Type 0} (now b : ℕ) (name : String) (st : State C)
    → (st.net.heap b).alive ≡ true
    → AreKeys st.subscriptions
    → times b (or_else (lookup name (check_subscriptions now st).subscriptions) [])
      ≡ times b (or_else (lookup name st.subscriptions) [])
unfolding check_subscriptions
check_subscriptions-times now b name st live keys =
    ground (arith, clear_sub_gabages-times st.net b name st.subscriptions live keys)
