-- ===== src/Dispatcher/Orderly.antt =====
-- The pending calls stay in order, whatever the dispatcher handles (src/disp.cc).
use flora.Base.{
  ℕ, suc, ◌≤◌, ◌≡◌, refl, sym, ap, subst, Bool, List, [], ◌∷◌, none, some, ℤ, pos, arith,
  string_key, leb, Bool-cases, inl, inr, ◌⊎◌, All,
}
use flora.Dispatcher.State.{State, PendingCall, AdapterInfo, InfoRef, no_info, dangling, found}
use flora.Dispatcher.Call.{insert_call, answers, erase_call}
use flora.Dispatcher.PendingOrder.{IsSorted}
use flora.Dispatcher.CallReturn.{Issued}
use flora.Dispatcher.Keeps.{Keeps}

-- The pending calls are sorted, and their numbers were given out.
abbrev pub IsOrderly : {C : Type 0} → State C → Type 0
IsOrderly st = IsSorted st.pending_calls × Issued st.reqseq st.pending_calls

pub some_path : {A : Type 0} {a b : A} → some a ≡ some b → a ≡ b
some_path {a = a} e = ap (λ o. elim o [ none ↦ a | some c ↦ c ]) e

pub none-some : {A : Type 0} {a : A} → none ≡ some a → ⊥
none-some e = ground arith

pub InfoRef-cases :
    (r : InfoRef) → (r ≡ no_info) ⊎ ((r ≡ dangling) ⊎ ((info : AdapterInfo) × (r ≡ found info)))
InfoRef-cases no_info = inl refl
InfoRef-cases dangling = inr (inl refl)
InfoRef-cases (found info) = inr (inr (info, refl))

pub ended :
    {C : Type 0} (p : State C × Bool) (st' : State C) (b : Bool)
    → IsOrderly p.0
    → some p ≡ some (st', b)
    → IsOrderly st'
ended p st' b h e = subst (λ (q : State _ × Bool). IsOrderly q.0) (some_path e) h

pub Keeps-IsOrderly : {C : Type 0} (st st' : State C) → Keeps st st' → IsOrderly st → IsOrderly st'
Keeps-IsOrderly st st' keeps h = (
  subst IsSorted (sym keeps.0) h.0,
  subst (λ n. Issued n st'.pending_calls) (sym keeps.1)
      (subst (Issued st.reqseq) (sym keeps.0) h.1),
)

pub Issued-mono : (n : ℕ) (pcs : List PendingCall) → Issued n pcs → Issued (suc n) pcs
Issued-mono n [] h = tt
Issued-mono n (pc ∷ pcs) ((k, e, le), h) = ((k, e, omega arith), Issued-mono n pcs h)

pub insert_call-Issued :
    (n : ℕ) (pc : PendingCall) (pcs : List PendingCall)
    → ((k : ℕ) × (pc.svrid ≡ pos k) × (k ≤ n))
    → Issued n pcs
    → Issued n (insert_call pc pcs)
unfolding insert_call
insert_call-Issued n pc [] h issued = (h, tt)
insert_call-Issued n pc (q ∷ qs) h issued = elim (Bool-cases (leb pc.discard_tp q.discard_tp)) [
  | inl first ↦ rw first (h, issued)
  | inr later ↦ rw later (issued.0, insert_call-Issued n pc qs h issued.1)
]

pub erase_call-All :
    (P : PendingCall → Type 0) (svrid : ℤ) (target : ℕ) (pcs : List PendingCall)
    → All P pcs
    → All P (erase_call svrid target pcs)
unfolding erase_call
erase_call-All P svrid target [] h = tt
erase_call-All P svrid target (pc ∷ pcs) h = elim (Bool-cases (answers svrid target pc)) [
  | inl hit ↦ rw hit h.1
  | inr miss ↦ rw miss (h.0, erase_call-All P svrid target pcs h.1)
]

pub erase_call-IsSorted :
    (svrid : ℤ) (target : ℕ) (pcs : List PendingCall)
    → IsSorted pcs
    → IsSorted (erase_call svrid target pcs)
unfolding erase_call
erase_call-IsSorted svrid target [] h = tt
erase_call-IsSorted svrid target (pc ∷ pcs) h = elim (Bool-cases (answers svrid target pc)) [
  | inl hit ↦ rw hit h.1
  | inr miss ↦
      rw miss (erase_call-All _ svrid target pcs h.0, erase_call-IsSorted svrid target pcs h.1)
]
