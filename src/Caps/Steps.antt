-- ===== src/Caps/Steps.antt =====
-- One lemma for each kind of read: the chain goes on with the value that stands at the front.
use flora.Base.{
  ℕ, ◌≡◌, sym, subst, Option, none, some, String, ℤ, to_word, of_word-to_word, IsInt32, ◌∙◌,
}
use flora.Caps.Defs.{
  Items, cons, word, long, text, CapsApi, CapsLaws, value_of, Parse, ◌>>=◌, or_default, Reads,
}
use flora.Caps.Chain.{Reads-bind, Reads-default}

module _ {api : CapsApi} (laws : CapsLaws api) {B : Type 0} (Q : B → Type 0) (vs ws : Items) where
  open api use {Caps}
  open laws use {values}

  pub then_exactly :
      {A : Type 0} (m : Parse Caps A) (f : A → Parse Caps B) (c : Caps) (a : A)
      → Reads values m c (λ b. b ≡ a) vs
      → ((c' : Caps) → values c' ≡ vs → Reads values (f a) c' Q ws)
      → Reads values (m >>= f) c Q ws
  then_exactly m f c a r k =
      Reads-bind values m f c (λ b. b ≡ a) Q vs ws r
        λ b c' same left. subst (λ x. Reads values (f x) c' Q ws) (sym same) (k c' left)

  pub uint32_then :
      (f : ℕ → Parse Caps B) (c : Caps) (n : ℕ)
      → values c ≡ cons (word n) vs
      → ((c' : Caps) → values c' ≡ vs → Reads values (f n) c' Q ws)
      → Reads values (api.read_uint32 >>= f) c Q ws
  uint32_then f c n e k = then_exactly api.read_uint32 f c n (laws.read_uint32_lem n vs c e) k

  pub uint64_then :
      (f : ℕ → Parse Caps B) (c : Caps) (n : ℕ)
      → values c ≡ cons (long n) vs
      → ((c' : Caps) → values c' ≡ vs → Reads values (f n) c' Q ws)
      → Reads values (api.read_uint64 >>= f) c Q ws
  uint64_then f c n e k = then_exactly api.read_uint64 f c n (laws.read_uint64_lem n vs c e) k

  pub string_then :
      (f : String → Parse Caps B) (c : Caps) (s : String)
      → values c ≡ cons (text s) vs
      → ((c' : Caps) → values c' ≡ vs → Reads values (f s) c' Q ws)
      → Reads values (api.read_string >>= f) c Q ws
  string_then f c s e k = then_exactly api.read_string f c s (laws.read_string_lem s vs c e) k

  read_int32 :
      (c : Caps) (z : ℤ)
      → IsInt32 z
      → values c ≡ cons (word (to_word z)) vs
      → Reads values api.read_int32 c (λ k. k ≡ z) vs
  read_int32 c z small e =
      let (k, got, same, left) = laws.read_int32_lem (to_word z) vs c e in
      (k, got, same ∙ of_word-to_word z small, left)

  pub int32_then :
      (f : ℤ → Parse Caps B) (c : Caps) (z : ℤ)
      → IsInt32 z
      → values c ≡ cons (word (to_word z)) vs
      → ((c' : Caps) → values c' ≡ vs → Reads values (f z) c' Q ws)
      → Reads values (api.read_int32 >>= f) c Q ws
  int32_then f c z small e k = then_exactly api.read_int32 f c z (read_int32 c z small e) k

  pub int32_or_then :
      (d : ℤ) (f : ℤ → Parse Caps B) (c : Caps) (z : ℤ)
      → IsInt32 z
      → values c ≡ cons (word (to_word z)) vs
      → ((c' : Caps) → values c' ≡ vs → Reads values (f z) c' Q ws)
      → Reads values (or_default api.read_int32 d >>= f) c Q ws
  int32_or_then d f c z small e k =
      then_exactly (or_default api.read_int32 d) f c z
        (Reads-default values api.read_int32 d c _ vs (read_int32 c z small e)) k

  pub uint32_or_then :
      (d : ℕ) (f : ℕ → Parse Caps B) (c : Caps) (n : ℕ)
      → values c ≡ cons (word n) vs
      → ((c' : Caps) → values c' ≡ vs → Reads values (f n) c' Q ws)
      → Reads values (or_default api.read_uint32 d >>= f) c Q ws
  uint32_or_then d f c n e k =
      then_exactly (or_default api.read_uint32 d) f c n
        (Reads-default values api.read_uint32 d c _ vs (laws.read_uint32_lem n vs c e)) k

  read_caps :
      (c : Caps) (o : Option Caps)
      → values c ≡ cons (value_of values o) vs
      → Reads values api.read_caps c (λ p. value_of values p ≡ value_of values o) vs
  read_caps c none e = laws.read_null_lem vs c e
  read_caps c (some o) e = laws.read_object_lem (values o) vs c e

  -- A nested object is read as one with the same contents.
  pub caps_then :
      (f : Option Caps → Parse Caps B) (c : Caps) (o : Option Caps)
      → values c ≡ cons (value_of values o) vs
      → ((p : Option Caps) (c' : Caps)
          → value_of values p ≡ value_of values o
          → values c' ≡ vs
          → Reads values (f p) c' Q ws)
      → Reads values (api.read_caps >>= f) c Q ws
  caps_then f c o e k = Reads-bind values api.read_caps f c _ Q vs ws (read_caps c o e) k
