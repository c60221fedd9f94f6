-- ===== src/Message/Delivery.antt =====
-- From a serializer to the reader at the other end: what a frame holds, and what it means that a
-- parser receives it.
use flora.Base.{
  ℕ, ◌≤◌, ◌≡◌, refl, sym, ◌∙◌, some, List, ℤ, pos, negsuc, to_word, of_word-to_word, IsInt32, arith,
}
use flora.Caps.{Items, nil, cons, word, CapsApi, CapsLaws, Parse, ◌>>=◌, done, Reads, Reads-bind}
use flora.Message.Data.{Frame, checked, serialized}

pub checked-some :
    (size : ℕ) (r : ℤ) (bytes : List ℕ) (f : Frame)
    → checked size (r, bytes) ≡ some f
    → (r ≡ pos f.size) × (f.bytes ≡ bytes) × (f.size ≤ size)
unfolding checked
checked-some size (negsuc r) bytes f h = ground arith
checked-some size (pos r) bytes f h = ground arith

module _ {api : CapsApi} (laws : CapsLaws api) where
  open api use {Caps}
  open laws use {values}

  -- What was serialized is parsed again.
  pub deliver :
      (c : Caps) (size flags : ℕ) (f : Frame)
      → serialized api c size flags ≡ some f
      → (c' : Caps) × (api.parse f.bytes ≡ some c') × (values c' ≡ values c)
  unfolding serialized
  deliver c size flags f h =
      let s = api.serialize c size flags in
      let (result, same, fits) = checked-some size s.0 s.1 f h in
      laws.parse_lem c size flags f.size f.bytes (λ i. (result i, sym same i)) fits

  -- The command, and the message behind it.
  abbrev pub with_command : {A : Type 0} → Parse Caps A → Parse Caps (ℤ × A)
  with_command parser = do cmd ← api.read_int32; message ← parser; done (cmd, message)

  -- A frame is parsed into the command `cmd` and a message that `parser` reads to its end, with a
  -- result of which `P` holds.
  abbrev pub Received : {A : Type 0} → Frame → ℤ → Parse Caps A → (A → Type 0) → Type 0
  Received f cmd parser P =
      (c : Caps) × (api.parse f.bytes ≡ some c)
      × Reads values (with_command parser) c (λ m. (m.0 ≡ cmd) × P m.1) nil

  pub receive :
      {A : Type 0} (parser : Parse Caps A) (P : A → Type 0) (c : Caps) (size flags : ℕ) (f : Frame)
      (cmd : ℤ) (vs : Items)
      → serialized api c size flags ≡ some f
      → IsInt32 cmd
      → values c ≡ cons (word (to_word cmd)) vs
      → ((c' : Caps) → values c' ≡ vs → Reads values parser c' P nil)
      → Received f cmd parser P
  receive {A} parser P c size flags f cmd vs h small first rest =
      let (c', parsed, same) = deliver c size flags f h in
      let command = laws.read_int32_lem (to_word cmd) vs c' (same ∙ first) in
      (
        c',
        parsed,
        Reads-bind values api.read_int32 _ c' _ _ vs nil command λ k c₁ is_cmd left.
            Reads-bind values parser _ c₁ P _ nil nil (rest c₁ left)
              λ a c₂ p ended. ((k, a), refl, (is_cmd ∙ of_word-to_word cmd small, p), ended),
      )
