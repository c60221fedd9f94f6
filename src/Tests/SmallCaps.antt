-- ===== src/Tests/SmallCaps.antt =====
-- A concrete message library: an object is its items, and its wire form is a header of eight entries
-- and a prefix code. It knows the texts of one table; an object with another one does not serialize.
use flora.Base.{
  ℕ, zero, suc, ◌+◌, ◌≤◌, ◌≡◌, refl, sym, ap, Bool, true, false, ◌&&◌, List, [], ◌∷◌, ◌++◌, Option,
  none, some, String, ℤ, pos, negsuc, to_word, of_word, if◌then◌else◌, ◌==◌, string_key, length,
  leb, arith, Bool-cases, inl, inr, subst,
}
use mathlib.Core.Bool.{false≢true}
use flora.Message.Data.{Frame}
use flora.Caps.{
  Value, Items, nil, cons, word, long, text, null_object, object, snoc, CapsApi, CapsLaws, value_of,
}

abbrev table : List String
table = "" ∷ "ping" ∷ "tv" ∷ "lamp" ∷ "power" ∷ "#" ∷ []

abbrev position : String → List String → ℕ
position s [] = 0
position s (t ∷ ts) = if t == s then 0 else suc (position s ts)

abbrev stands_in : String → List String → Bool
stands_in s [] = false
stands_in s (t ∷ ts) = if t == s then true else stands_in s ts

abbrev entry : ℕ → List String → String
entry n [] = ""
entry zero (t ∷ ts) = t
entry (suc n) (t ∷ ts) = entry n ts

entry-position :
    (s : String) (ts : List String) → stands_in s ts ≡ true → entry (position s ts) ts ≡ s
entry-position s [] h = absurd (false≢true h)
entry-position s (t ∷ ts) h = elim (Bool-cases (t == s)) [
  | inl same ↦ rw same ((string_key.equal_iff t s).0 same)
  | inr other ↦
      let rest : stands_in s ts ≡ true =
        subst (λ b. (if b then true else stands_in s ts) ≡ true) other h in
      rw other (entry-position s ts rest)
]

abbrev mutual
  known_value : Value → Bool
  known_value (word w) = true
  known_value (long n) = true
  known_value (text s) = stands_in s table
  known_value null_object = true
  known_value (object us) = known us

  known : Items → Bool
  known nil = true
  known (cons v vs) = known_value v && known vs

abbrev mutual
  encode_value : Value → List ℕ → List ℕ
  encode_value (word w) more = 1 ∷ w ∷ more
  encode_value (long n) more = 2 ∷ n ∷ more
  encode_value (text s) more = 3 ∷ position s table ∷ more
  encode_value null_object more = 4 ∷ more
  encode_value (object us) more = 5 ∷ encode us more

  encode : Items → List ℕ → List ℕ
  encode nil more = 0 ∷ more
  encode (cons v vs) more = encode_value v (encode vs more)

abbrev prepend : Value → Option (Items × List ℕ) → Option (Items × List ℕ)
prepend v none = none
prepend v (some (vs, more)) = some (cons v vs, more)

abbrev decode : ℕ → List ℕ → Option (Items × List ℕ)
decode zero bytes = none
decode (suc n) [] = none
decode (suc n) (zero ∷ more) = some (nil, more)
decode (suc n) (suc zero ∷ w ∷ more) = prepend (word w) (decode n more)
decode (suc n) (suc (suc zero) ∷ w ∷ more) = prepend (long w) (decode n more)
decode (suc n) (suc (suc (suc zero)) ∷ i ∷ more) = prepend (text (entry i table)) (decode n more)
decode (suc n) (suc (suc (suc (suc zero))) ∷ more) = prepend null_object (decode n more)
decode (suc n) (suc (suc (suc (suc (suc zero)))) ∷ more) = elim (decode n more) [
  | none ↦ none
  | some p ↦ prepend (object p.0) (decode n p.1)
]
decode (suc n) (k ∷ more) = none

abbrev mutual
  weight_value : Value → ℕ
  weight_value (word w) = 0
  weight_value (long n) = 0
  weight_value (text s) = 0
  weight_value null_object = 0
  weight_value (object us) = weight us

  weight : Items → ℕ
  weight nil = 1
  weight (cons v vs) = suc (weight_value v + weight vs)

both : {a b : Bool} → a && b ≡ true → (a ≡ true) × (b ≡ true)
both {a = true} h = (refl, h)
both {a = false} h = absurd (false≢true h)

mutual
  decode-encode_value :
      (v : Value) (n : ℕ) (vs : Items) (more : List ℕ)
      → known_value v ≡ true
      → weight_value v + weight vs ≤ n
      → decode n (encode vs more) ≡ some (vs, more)
      → decode (suc n) (encode_value v (encode vs more)) ≡ some (cons v vs, more)
  decode-encode_value (word w) n vs more k h e = rw e
  decode-encode_value (long w) n vs more k h e = rw e
  decode-encode_value (text s) n vs more k h e = rw (e, entry-position s table k)
  decode-encode_value null_object n vs more k h e = rw e
  decode-encode_value (object us) n vs more k h e =
      rw (decode-encode us n (encode vs more) k (omega arith), e)

  decode-encode :
      (vs : Items) (n : ℕ) (more : List ℕ)
      → known vs ≡ true
      → weight vs ≤ n
      → decode n (encode vs more) ≡ some (vs, more)
  decode-encode nil zero more k h = absurd (omega arith)
  decode-encode nil (suc n) more k h = refl
  decode-encode (cons v vs) zero more k h = absurd (omega arith)
  decode-encode (cons v vs) (suc n) more k h =
      decode-encode_value v n vs more (both k).0 (omega arith)
        (decode-encode vs n more (both k).1 (omega arith))

mutual
  length-encode_value :
      (v : Value) (more : List ℕ)
      → suc (weight_value v + length more) ≤ length (encode_value v more)
  length-encode_value (word w) more = omega arith
  length-encode_value (long n) more = omega arith
  length-encode_value (text s) more = omega arith
  length-encode_value null_object more = omega arith
  length-encode_value (object us) more = omega (arith, length-encode us more)

  length-encode : (vs : Items) (more : List ℕ) → weight vs + length more ≤ length (encode vs more)
  length-encode nil more = omega arith
  length-encode (cons v vs) more =
      omega (arith, length-encode_value v (encode vs more), length-encode vs more)

-- The flags, the length, and the items.
abbrev pub wire : ℕ → Items → List ℕ
wire flags vs = flags ∷ 0 ∷ 0 ∷ 0 ∷ (8 + length (encode vs [])) ∷ 0 ∷ 0 ∷ 0 ∷ encode vs []

abbrev serialize_items : Items → ℕ → ℕ → ℤ × List ℕ
serialize_items vs size flags =
    let bytes = wire flags vs in
    if known vs
    then (if leb (length bytes) size then (pos (length bytes), bytes) else (pos (length bytes), []))
    else (negsuc 0, [])

abbrev first : Option (Items × List ℕ) → Option Items
first none = none
first (some p) = some p.0

abbrev parse_items : List ℕ → Option Items
parse_items (a ∷ b ∷ c ∷ d ∷ e ∷ f ∷ g ∷ h ∷ body) = first (decode (length body) body)
parse_items bytes = none

abbrev info_items : List ℕ → Option (ℕ × ℕ)
info_items (a ∷ b ∷ c ∷ d ∷ e ∷ f ∷ g ∷ h ∷ body) = some (a, e)
info_items bytes = none

abbrev read_word : {A : Type 0} → (ℕ → A) → Items → Option A × Items
read_word f (cons (word w) vs) = (some (f w), vs)
read_word f vs = (none, vs)

abbrev read_long : Items → Option ℕ × Items
read_long (cons (long n) vs) = (some n, vs)
read_long vs = (none, vs)

abbrev read_text : Items → Option String × Items
read_text (cons (text s) vs) = (some s, vs)
read_text vs = (none, vs)

abbrev read_object : Items → Option (Option Items) × Items
read_object (cons (object us) vs) = (some (some us), vs)
read_object (cons null_object vs) = (some none, vs)
read_object vs = (none, vs)

abbrev pub small_caps : CapsApi
small_caps = record {
  Caps = Items;
  net_byteorder = 128;
  new_instance = nil;
  write_int32 = λ z c. snoc c (word (to_word z));
  write_uint32 = λ n c. snoc c (word n);
  write_uint64 = λ n c. snoc c (long n);
  write_string = λ s c. snoc c (text s);
  write_caps = λ o c. snoc c (value_of (λ vs. vs) o);
  read_int32 = read_word of_word;
  read_uint32 = read_word (λ w. w);
  read_uint64 = read_long;
  read_string = read_text;
  read_caps = read_object;
  serialize = serialize_items;
  parse = parse_items;
  binary_info = info_items;
}

abbrev size_of : ℤ → ℕ
size_of (pos n) = n
size_of (negsuc n) = 0

abbrev succeeded : ℤ → Bool
succeeded (pos n) = true
succeeded (negsuc n) = false

too_large : (r size n : ℕ) → r ≡ n → r ≤ size → leb n size ≡ false → ⊥
too_large r size n same h large = ground arith

pub written :
    (vs : Items) (size flags r : ℕ) (bytes : List ℕ)
    → serialize_items vs size flags ≡ (pos r, bytes)
    → r ≤ size
    → (known vs ≡ true) × (bytes ≡ wire flags vs) × (r ≡ length (wire flags vs))
written vs size flags r bytes e h = elim (Bool-cases (known vs)) [
  | inl k ↦
      let bytes' = wire flags vs in
      let n = length bytes' in
      elim (Bool-cases (leb n size)) [
        | inl small ↦
            let at : (pos n, bytes') ≡ (pos r, bytes) =
              subst (λ (p : ℤ × List ℕ). p ≡ (pos r, bytes)) (rw (k, small)) e in
            (
              k,
              ap (λ (p : ℤ × List ℕ). p.1) (sym at),
              ap (λ (p : ℤ × List ℕ). size_of p.0) (sym at),
            )
        | inr large ↦
            let at : (pos n, []) ≡ (pos r, bytes) =
              subst (λ (p : ℤ × List ℕ). p ≡ (pos r, bytes)) (rw (k, large)) e in
            absurd (too_large r size n (ap (λ (p : ℤ × List ℕ). size_of p.0) (sym at)) h large)
      ]
  | inr u ↦
      let at : (negsuc 0, []) ≡ (pos r, bytes) =
        subst (λ (p : ℤ × List ℕ). p ≡ (pos r, bytes)) (rw u) e in
      absurd (false≢true (ap (λ (p : ℤ × List ℕ). succeeded p.0) at))
]

pub decode-wire : (vs : Items) (flags : ℕ) → known vs ≡ true → parse_items (wire flags vs) ≡ some vs
decode-wire vs flags k =
    rw (decode-encode vs (length (encode vs [])) [] k (omega (arith, length-encode vs [])))

pub long_enough :
    (bytes more : List ℕ) → 8 ≤ length bytes → info_items (bytes ++ more) ≡ info_items bytes
long_enough (a ∷ b ∷ c ∷ d ∷ e ∷ f ∷ g ∷ h ∷ body) more le = refl
long_enough bytes more le = absurd (omega arith)

abbrev pub small_laws : CapsLaws small_caps
small_laws = record {
  values = λ c. c;
  new_lem = refl;
  int32_lem = λ z c. refl;
  uint32_lem = λ n c. refl;
  uint64_lem = λ n c. refl;
  string_lem = λ s c. refl;
  caps_lem = λ o c. refl;
  read_int32_lem = λ w vs c e. rw e (of_word w, refl, refl, refl);
  read_uint32_lem = λ w vs c e. rw e (w, refl, refl, refl);
  read_uint64_lem = λ n vs c e. rw e (n, refl, refl, refl);
  read_string_lem = λ s vs c e. rw e (s, refl, refl, refl);
  read_object_lem = λ us vs c e. rw e (some us, refl, refl, refl);
  read_null_lem = λ vs c e. rw e (none, refl, refl, refl);
  end_int32_lem = λ c e. rw e;
  end_uint32_lem = λ c e. rw e;
  end_caps_lem = λ c e. rw e;
  parse_empty = refl;
  parse_lem = λ c size flags r bytes e h.
      let (k, same, n) = written c size flags r bytes e h in
      (c, rw same (decode-wire c flags k), refl);
  info_lem = λ c size flags r bytes e h.
      let (k, same, n) = written c size flags r bytes e h in
      (
        flags,
        rw (same, n),
        omega (arith, n),
        rw (same, n) (ap (λ m. some (flags, m)) (omega arith)),
      );
  header_lem = long_enough;
}

abbrev pub ping : Items
ping = cons (word 5) (cons (text "ping") nil)

-- The frame, where there is one.
abbrev pub frame_of : Option Frame → Frame
frame_of none = record { size = 0; bytes = [] }
frame_of (some f) = f
