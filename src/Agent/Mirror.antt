-- ===== src/Agent/Mirror.antt =====
-- The service's view of the agent's client and the agent's handlers (src/flora-agent.cc).
use flora.Base.{
  ℕ, ◌≡◌, refl, sym, ap, ◌∙◌, inl, inr, Bool, true, false, List, [], ◌∷◌, All, Option, none, some,
  String, if◌then◌else◌, ◌==◌, nat_key, string_key, ==-refl, lookup, insert, erase, lookup-insert,
  lookup-erase, arith, Bool-cases, subst,
}
use flora.Agent.Interface.{ClientOps, ClientLaws}
use flora.Agent.Run.{names, for_each}

abbrev pub is_some {ℓ} : {A : Type ℓ} → Option A → Bool
is_some none = false
is_some (some a) = true

-- Whether a name has a handler.
abbrev pub has : String → List (String × ℕ) → Bool
has m handlers = is_some (lookup m handlers)

has-insert :
    (n m : String) (cb : ℕ) (h : List (String × ℕ))
    → has m (insert n cb h) ≡ (if n == m then true else has m h)
has-insert n m cb h = ap is_some (lookup-insert n m cb h) ∙ ground (arith, ==-refl n)

has-erase :
    (n m : String) (h : List (String × ℕ)) → has m (erase n h) ≡ (if n == m then false else has m h)
has-erase n m h = ap is_some (lookup-erase n m h) ∙ ground arith

-- A name that has a handler keeps it when another is inserted.
pub held-insert :
    (n m : String) (cb held : ℕ) (h : List (String × ℕ))
    → lookup n h ≡ some held
    → has m (insert n cb h) ≡ has m h
held-insert n m cb held h e = has-insert n m cb h ∙ elim (Bool-cases (n == m)) [
  | inl same ↦
      let held_too : has m h ≡ true =
        ap (λ k. has k h) (sym ((string_key.equal_iff n m).0 same)) ∙ ap is_some e in
      rw (same, held_too)
  | inr other ↦ rw other
]

module _ {κ} (P : String → Type κ) where
  pub names-insert :
      (n : String) (cb : ℕ) (h : List (String × ℕ))
      → P n
      → All P (names h)
      → All P (names (insert n cb h))
  unfolding insert
  names-insert n cb [] p ok = (p, tt)
  names-insert n cb ((m, c) ∷ h) p ok = elim (Bool-cases (m == n)) [
    | inl same ↦ rw same ok
    | inr other ↦ rw other (ok.0, names-insert n cb h p ok.1)
  ]

  pub names-erase :
      (n : String) (h : List (String × ℕ)) → All P (names h) → All P (names (erase n h))
  unfolding erase
  names-erase n [] ok = tt
  names-erase n ((m, c) ∷ h) ok = elim (Bool-cases (m == n)) [
    | inl same ↦ rw same (names-erase n h ok.1)
    | inr other ↦ rw other (ok.0, names-erase n h ok.1)
  ]

-- No name has two handlers.
abbrev pub IsDistinct : List (String × ℕ) → Type 0
IsDistinct [] = Unit {0}
IsDistinct ((n, cb) ∷ h) = (lookup n h ≡ none) × IsDistinct h

insert-IsDistinct :
    (n : String) (cb : ℕ) (h : List (String × ℕ)) → IsDistinct h → IsDistinct (insert n cb h)
unfolding insert lookup
insert-IsDistinct n cb [] d = (refl, tt)
insert-IsDistinct n cb ((m, c) ∷ h) d = elim (Bool-cases (m == n)) [
  | inl same ↦ rw same d
  | inr other ↦
      let differs : (n == m) ≡ false =
        ground (arith, string_key.equal_iff m n, string_key.equal_iff n m, other) in
      rw other (lookup-insert n m cb h ∙ rw differs d.0, insert-IsDistinct n cb h d.1)
]

erase-IsDistinct : (n : String) (h : List (String × ℕ)) → IsDistinct h → IsDistinct (erase n h)
unfolding erase
erase-IsDistinct n [] d = tt
erase-IsDistinct n ((m, c) ∷ h) d = elim (Bool-cases (m == n)) [
  | inl same ↦ rw same (erase-IsDistinct n h d.1)
  | inr other ↦ rw other (lookup-erase n m h ∙ ground (arith, d), erase-IsDistinct n h d.1)
]

module _ (ops : ClientOps) (laws : ClientLaws ops) where
  open laws use {has_failed, IsName, Knows}

  -- The names of methods, each of them once.
  abbrev pub IsCalls : List (String × ℕ) → Type 0
  IsCalls calls = All IsName (names calls) × IsDistinct calls

  pub insert-IsCalls :
      (n : String) (cb : ℕ) (calls : List (String × ℕ))
      → IsName n
      → IsCalls calls
      → IsCalls (insert n cb calls)
  insert-IsCalls n cb calls named (all, distinct) =
      (names-insert IsName n cb calls named all, insert-IsDistinct n cb calls distinct)

  pub erase-IsCalls :
      (n : String) (calls : List (String × ℕ)) → IsCalls calls → IsCalls (erase n calls)
  erase-IsCalls n calls (all, distinct) =
      (names-erase IsName n calls all, erase-IsDistinct n calls distinct)

  -- Unless one of its requests failed, the service has the client subscribed to the names of the first
  -- handlers, and its methods are the names of the second.
  abbrev pub Mirrors : ops.Client → List (String × ℕ) → List (String × ℕ) → Type 0
  Mirrors cl posts calls = has_failed cl ≡ false → Knows cl (λ m. has m posts) (λ m. has m calls)

  pub Knows-same :
      (cl : ops.Client) (posts posts' calls calls' : String → Bool)
      → ((m : String) → posts m ≡ posts' m)
      → ((m : String) → calls m ≡ calls' m)
      → Knows cl posts calls
      → Knows cl posts' calls'
  Knows-same cl posts posts' calls calls' p c knows =
      subst (λ k. Knows cl posts' k) (λ i m. c m i)
        (subst (λ q. Knows cl q calls) (λ i m. p m i) knows)

  pub subscribe-Mirrors :
      (n : String) (cb : ℕ) (cl : ops.Client) (posts calls : List (String × ℕ))
      → IsName n
      → Mirrors cl posts calls
      → Mirrors (ops.subscribe n cl) (insert n cb posts) calls
  subscribe-Mirrors n cb cl posts calls named mirrors fine =
      let (before, step) = laws.subscribe_lem n cl named fine in
      Knows-same _ _ _ _ _ (λ m. sym (has-insert n m cb posts)) (λ m. refl)
        (step _ _ (mirrors before))

  pub unsubscribe-Mirrors :
      (n : String) (cl : ops.Client) (posts calls : List (String × ℕ))
      → IsName n
      → Mirrors cl posts calls
      → Mirrors (ops.unsubscribe n cl) (erase n posts) calls
  unsubscribe-Mirrors n cl posts calls named mirrors fine =
      let (before, step) = laws.unsubscribe_lem n cl named fine in
      Knows-same _ _ _ _ _ (λ m. sym (has-erase n m posts)) (λ m. refl) (step _ _ (mirrors before))

  pub declare_method-Mirrors :
      (n : String) (cb : ℕ) (cl : ops.Client) (posts calls : List (String × ℕ))
      → IsName n
      → lookup n calls ≡ none
      → Mirrors cl posts calls
      → Mirrors (ops.declare_method n cl) posts (insert n cb calls)
  declare_method-Mirrors n cb cl posts calls named first mirrors fine =
      let (before, step) = laws.declare_method_lem n cl named fine in
      Knows-same _ _ _ _ _ (λ m. refl) (λ m. sym (has-insert n m cb calls))
        (step _ _ (ap is_some first) (mirrors before))

  pub remove_method-Mirrors :
      (n : String) (cl : ops.Client) (posts calls : List (String × ℕ))
      → IsName n
      → Mirrors cl posts calls
      → Mirrors (ops.remove_method n cl) posts (erase n calls)
  remove_method-Mirrors n cl posts calls named mirrors fine =
      let (before, step) = laws.remove_method_lem n cl named fine in
      Knows-same _ _ _ _ _ (λ m. refl) (λ m. sym (has-erase n m calls)) (step _ _ (mirrors before))

  for_each-subscribe :
      (posts : List (String × ℕ)) (cl : ops.Client)
      → All IsName (names posts)
      → let cl' = for_each ops.subscribe (names posts) cl in
        has_failed cl' ≡ false
        → (has_failed cl ≡ false)
          × ((p k : String → Bool)
              → Knows cl p k
              → Knows cl' (λ m. if has m posts then true else p m) k)
  unfolding lookup
  for_each-subscribe [] cl named fine = (fine, λ p k knows. knows)
  for_each-subscribe ((n, cb) ∷ posts) cl named fine =
      let (between, rest) = for_each-subscribe posts (ops.subscribe n cl) named.1 fine in
      let (before, step) = laws.subscribe_lem n cl named.0 between in
      (
        before,
        λ p k knows.
            Knows-same _ _ _ _ _ (λ m. ground arith) (λ m. refl) (rest _ _ (step p k knows)),
      )

  for_each-declare_method :
      (calls : List (String × ℕ)) (cl : ops.Client)
      → IsCalls calls
      → let cl' = for_each ops.declare_method (names calls) cl in
        has_failed cl' ≡ false
        → (has_failed cl ≡ false)
          × ((p k : String → Bool)
              → ((m : String) → has m calls ≡ true → k m ≡ false)
              → Knows cl p k
              → Knows cl' p (λ m. if has m calls then true else k m))
  unfolding lookup
  for_each-declare_method [] cl named fine = (fine, λ p k free knows. knows)
  for_each-declare_method ((n, cb) ∷ calls) cl (named, distinct) fine =
      let (between, rest) =
        for_each-declare_method calls (ops.declare_method n cl) (named.1, distinct.1) fine in
      let (before, step) = laws.declare_method_lem n cl named.0 between in
      (
        before,
        λ p k free knows.
            Knows-same _ _ _ _ _ (λ m. refl) (λ m. ground arith)
              (rest _ _
                (λ m there.
                  ground (arith, string_key.equal_iff n m, free m, there, ap is_some distinct.0))
                (step p k (free n (ground (arith, ==-refl n))) knows)),
      )

  -- A new client, of which the service has no subscription and no method yet.
  abbrev pub IsNew : ops.Client → Type 0
  IsNew cl = Knows cl (λ m. false) (λ m. false)

  -- So a new client is one that mirrors the handlers once their names were gone through.
  pub for_each-Mirrors :
      (cl : ops.Client) (posts calls : List (String × ℕ))
      → IsNew cl
      → All IsName (names posts)
      → IsCalls calls
      → Mirrors
          (for_each ops.declare_method (names calls) (for_each ops.subscribe (names posts) cl))
          posts
          calls
  for_each-Mirrors cl posts calls new posts_named calls_named fine =
      let (between, declared) = for_each-declare_method calls _ calls_named fine in
      let (before, subscribed) = for_each-subscribe posts cl posts_named between in
      Knows-same _ _ _ _ _ (λ m. ground arith) (λ m. ground arith)
        (declared _ _ (λ m there. refl) (subscribed _ _ new))
