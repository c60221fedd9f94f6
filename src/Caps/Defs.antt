-- ===== src/Caps/Defs.antt =====
-- The operations and the laws of the Caps library, and the monad of its reads.
use flora.Base.{
  ℕ, ◌≤◌, ◌≡◌, Option, none, some, List, [], ◌++◌, String, ℤ, pos, to_word, of_word, length,
}

-- What an object holds, nested objects included. A 32-bit integer has one wire type, whatever its
-- sign, and is its pattern.
mutual
  pub data Value : Type 0 where
    word : ℕ → Value
    long : ℕ → Value
    text : String → Value
    null_object : Value
    object : Items → Value

  pub data Items : Type 0 where
    nil : Items
    cons : Value → Items → Items

abbrev pub snoc : Items → Value → Items
snoc nil v = cons v nil
snoc (cons u us) v = cons u (snoc us v)

-- A `write` appends to an object. A `read` returns its value, or none for any code but
-- CAPS_SUCCESS, with the object as it is left. `serialize data size flags` returns its result and
-- the bytes that it puts into the buffer; `binary_info` returns version and length. `net_byteorder` is CAPS_FLAG_NET_BYTEORDER.
pub record CapsApi : Type 1 where
  pub Caps : Type 0
  pub net_byteorder : ℕ
  pub new_instance : Caps
  pub write_int32 : ℤ → Caps → Caps
  pub write_uint32 : ℕ → Caps → Caps
  pub write_uint64 : ℕ → Caps → Caps
  pub write_string : String → Caps → Caps
  pub write_caps : Option Caps → Caps → Caps
  pub read_int32 : Caps → Option ℤ × Caps
  pub read_uint32 : Caps → Option ℕ × Caps
  pub read_uint64 : Caps → Option ℕ × Caps
  pub read_string : Caps → Option String × Caps
  pub read_caps : Caps → Option (Option Caps) × Caps
  pub serialize : Caps → ℕ → ℕ → ℤ × List ℕ
  pub parse : List ℕ → Option Caps
  pub binary_info : List ℕ → Option (ℕ × ℕ)

abbrev pub value_of : {C : Type 0} → (C → Items) → Option C → Value
value_of values none = null_object
value_of values (some c) = object (values c)

infixl 6 ◌▷◌
abbrev pub ◌▷◌ {ℓ κ} : {A : Type ℓ} {B : Type κ} → A → (A → B) → B
x ▷ f = f x

-- A chain of reads, each of which returns early if it fails.
abbrev pub Parse : Type 0 → Type 0 → Type 0
Parse C A = C → Option A × C

abbrev pub next : {C A B : Type 0} → Option A × C → (A → Parse C B) → Option B × C
next (none, c) f = (none, c)
next (some a, c) f = f a c

infixl 5 ◌>>=◌
abbrev pub ◌>>=◌ : {C A B : Type 0} → Parse C A → (A → Parse C B) → Parse C B
◌>>=◌ m f c = next (m c) f

abbrev pub done : {C A : Type 0} → A → Parse C A
done a c = (some a, c)

abbrev pub otherwise : {C A : Type 0} → Option A × C → A → Option A × C
otherwise (none, c) d = (some d, c)
otherwise (some a, c) d = (some a, c)

-- A read whose failure leaves a default.
abbrev pub or_default : {C A : Type 0} → Parse C A → A → Parse C A
or_default m d c = otherwise (m c) d

-- `m` at `c` succeeds with a result of which `P` holds, and leaves the items `rest`.
abbrev pub Reads : {C A : Type 0} → (C → Items) → Parse C A → C → (A → Type 0) → Items → Type 0
Reads {A = A} values m c P rest = (a : A) × ((m c).0 ≡ some a) × P a × (values (m c).1 ≡ rest)

-- `values` is what an object still holds to be read. A write appends a value; a read of the type at
-- the front takes it; a read from an object with nothing left fails and leaves it so; what
-- `serialize` puts into a buffer that is large enough is read back by `parse`, and its header, the
-- first eight bytes, tells its length. Nothing is no message.
pub record CapsLaws (api : CapsApi) : Type 0 where
  pub values : api.Caps → Items
  pub new_lem : values api.new_instance ≡ nil
  pub int32_lem :
      (z : ℤ) (c : api.Caps) → values (api.write_int32 z c) ≡ snoc (values c) (word (to_word z))
  pub uint32_lem : (n : ℕ) (c : api.Caps) → values (api.write_uint32 n c) ≡ snoc (values c) (word n)
  pub uint64_lem : (n : ℕ) (c : api.Caps) → values (api.write_uint64 n c) ≡ snoc (values c) (long n)
  pub string_lem :
      (s : String) (c : api.Caps) → values (api.write_string s c) ≡ snoc (values c) (text s)
  pub caps_lem :
      (o : Option api.Caps) (c : api.Caps)
      → values (api.write_caps o c) ≡ snoc (values c) (value_of values o)
  pub read_int32_lem :
      (w : ℕ) (vs : Items) (c : api.Caps)
      → values c ≡ cons (word w) vs
      → Reads values api.read_int32 c (λ z. z ≡ of_word w) vs
  pub read_uint32_lem :
      (w : ℕ) (vs : Items) (c : api.Caps)
      → values c ≡ cons (word w) vs
      → Reads values api.read_uint32 c (λ n. n ≡ w) vs
  pub read_uint64_lem :
      (n : ℕ) (vs : Items) (c : api.Caps)
      → values c ≡ cons (long n) vs
      → Reads values api.read_uint64 c (λ m. m ≡ n) vs
  pub read_string_lem :
      (s : String) (vs : Items) (c : api.Caps)
      → values c ≡ cons (text s) vs
      → Reads values api.read_string c (λ t. t ≡ s) vs
  pub read_object_lem :
      (us vs : Items) (c : api.Caps)
      → values c ≡ cons (object us) vs
      → Reads values api.read_caps c (λ o. value_of values o ≡ object us) vs
  pub read_null_lem :
      (vs : Items) (c : api.Caps)
      → values c ≡ cons null_object vs
      → Reads values api.read_caps c (λ o. value_of values o ≡ null_object) vs
  pub end_int32_lem : (c : api.Caps) → values c ≡ nil → api.read_int32 c ≡ (none, c)
  pub end_uint32_lem : (c : api.Caps) → values c ≡ nil → api.read_uint32 c ≡ (none, c)
  pub end_caps_lem : (c : api.Caps) → values c ≡ nil → api.read_caps c ≡ (none, c)
  pub parse_empty : api.parse [] ≡ none
  pub parse_lem :
      (c : api.Caps) (size flags r : ℕ) (bytes : List ℕ)
      → api.serialize c size flags ≡ (pos r, bytes)
      → r ≤ size
      → (c' : api.Caps) × (api.parse bytes ≡ some c') × (values c' ≡ values c)
  pub info_lem :
      (c : api.Caps) (size flags r : ℕ) (bytes : List ℕ)
      → api.serialize c size flags ≡ (pos r, bytes)
      → r ≤ size
      → (version : ℕ) × (length bytes ≡ r) × (8 ≤ r) × (api.binary_info bytes ≡ some (version, r))
  pub header_lem :
      (bytes more : List ℕ)
      → 8 ≤ length bytes
      → api.binary_info (bytes ++ more) ≡ api.binary_info bytes
