-- ===== src/Poll/Connections.antt =====
-- The map from sockets to adapters of the poll (src/sock-poll.h), and the adapters that it holds.
use flora.Base.{
  ℕ, ◌+◌, ◌≡◌, refl, List, [], ◌∷◌, none, some, ◌==◌, nat_key, if◌then◌else◌, lookup, insert, erase,
  lookup-erase, lookup-insert, arith,
}
use flora.Poll.Socket.{Connection}

-- How often the adapter stands in the list of addresses, and in the map.
abbrev pub times : ℕ → List ℕ → ℕ
times a [] = 0
times a (b ∷ bs) = let rest = times a bs in if b == a then 1 + rest else rest

abbrev pub held : ℕ → List (ℕ × Connection) → ℕ
held a [] = 0
held a ((f, c) ∷ m) = let rest = held a m in if c.address == a then 1 + rest else rest

-- No socket has two entries.
abbrev pub Distinct : List (ℕ × Connection) → Type 0
Distinct [] = Unit {0}
Distinct ((f, c) ∷ m) = (lookup f m ≡ none) × Distinct m

pub held-insert :
    (a f : ℕ) (c : Connection) (m : List (ℕ × Connection))
    → lookup f m ≡ none
    → held a (insert f c m) ≡ (if c.address == a then 1 + held a m else held a m)
unfolding lookup insert
held-insert a f c [] h = refl
held-insert a f c ((g, d) ∷ m) h = ground (arith, nat_key.equal_iff g f, held-insert a f c m)

pub insert-Distinct :
    (f : ℕ) (c : Connection) (m : List (ℕ × Connection))
    → lookup f m ≡ none
    → Distinct m
    → Distinct (insert f c m)
unfolding lookup insert
insert-Distinct f c [] h d = (refl, tt)
insert-Distinct f c ((g, e) ∷ m) h d = ground (
  arith,
  nat_key.equal_iff g f,
  nat_key.equal_iff f g,
  lookup-insert f g c m,
  d,
  insert-Distinct f c m,
)

erase-absent : (f : ℕ) (m : List (ℕ × Connection)) → lookup f m ≡ none → erase f m ≡ m
unfolding lookup erase
erase-absent f [] h = refl
erase-absent f ((g, c) ∷ m) h = ground (arith, erase-absent f m)

pub held-erase :
    (a f : ℕ) (c : Connection) (m : List (ℕ × Connection))
    → Distinct m
    → lookup f m ≡ some c
    → held a m ≡ (if c.address == a then 1 + held a (erase f m) else held a (erase f m))
unfolding lookup erase
held-erase a f c [] d h = ground arith
held-erase a f c ((g, e) ∷ m) d h =
    ground (arith, d, nat_key.equal_iff g f, erase-absent f m, held-erase a f c m d.1)

pub erase-Distinct : (f : ℕ) (m : List (ℕ × Connection)) → Distinct m → Distinct (erase f m)
unfolding erase
erase-Distinct f [] d = tt
erase-Distinct f ((g, e) ∷ m) d =
    ground (arith, d, nat_key.equal_iff f g, lookup-erase f g m, erase-Distinct f m d.1)
