-- ===== src/Caps/Chain.antt =====
-- Chains of reads: a chain succeeds when each of its reads does.
use flora.Base.{◌≡◌, Option, none, some, arith}
use flora.Caps.Defs.{Items, Parse, ◌>>=◌, next, or_default, otherwise, Reads}

module _ {C : Type 0} (values : C → Items) where
  next-some :
      {A B : Type 0} (p : Option A × C) (f : A → Parse C B) (a : A)
      → p.0 ≡ some a
      → next p f ≡ f a p.1
  next-some (some b, c) f a e = ground arith
  next-some (none, c) f a e = ground arith

  pub Reads-bind :
      {A B : Type 0} (m : Parse C A) (f : A → Parse C B) (c : C) (P : A → Type 0) (Q : B → Type 0)
      (vs ws : Items)
      → Reads values m c P vs
      → ((a : A) (c' : C) → P a → values c' ≡ vs → Reads values (f a) c' Q ws)
      → Reads values (m >>= f) c Q ws
  Reads-bind m f c P Q vs ws (a, e, p, left) then_f =
      let (b, got, q, rest) = then_f a (m c).1 p left in
      let step : next (m c) f ≡ f a (m c).1 = next-some (m c) f a e in
      (b, rw step got, q, rw step rest)

  otherwise-some :
      {A : Type 0} (p : Option A × C) (d a : A) → p.0 ≡ some a → otherwise p d ≡ (some a, p.1)
  otherwise-some (some b, c) d a e = ground arith
  otherwise-some (none, c) d a e = ground arith

  pub Reads-default :
      {A : Type 0} (m : Parse C A) (d : A) (c : C) (P : A → Type 0) (vs : Items)
      → Reads values m c P vs
      → Reads values (or_default m d) c P vs
  Reads-default m d c P vs (a, e, p, left) =
      let step : otherwise (m c) d ≡ (some a, (m c).1) = otherwise-some (m c) d a e in
      (a, rw step, p, rw step left)

  -- The default is taken where nothing is left to read.
  pub Reads-default_end :
      {A : Type 0} (m : Parse C A) (d : A) (c : C) (P : A → Type 0) (vs : Items)
      → m c ≡ (none, c)
      → P d
      → values c ≡ vs
      → Reads values (or_default m d) c P vs
  Reads-default_end m d c P vs e p left = (d, rw e, p, rw e left)
