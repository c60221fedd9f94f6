-- ===== src/Client/Answers.antt =====
-- Which request a reply answers (src/cli.cc).
use flora.Base.{
  ℕ, suc, ◌≤◌, ◌<◌, ◌≡◌, ◌≢◌, refl, sym, ap, ◌∙◌, ◌⊎◌, inl, inr, List, [], ◌∷◌, ◌++◌, All, Option,
  none, some, pos, if◌then◌else◌, ◌==◌, int_key, nat_key, arith, or_else, int_beq_iff, subst,
  Bool-cases, Option-cases,
}
use flora.Protocol.{cli_success}
use flora.Message.Data.{ReplyResp, Response}
use flora.Client.State.{PendingRequest}
use flora.Client.Handlers.{take_reply, answer}
use flora.Client.Receive.{waiting}
use flora.Client.Calls.{find_entry, erase_entry}

module _ {C : Type 0} where
  -- A request that waits for its answer has its own number; one that is answered has 0, and a caller
  -- that will take the answer.
  abbrev pub IsOwn : PendingRequest C → Type 0
  IsOwn p =
      (0 < p.entry)
      × ((p.id ≡ pos p.entry) ⊎ ((p.id ≡ pos 0) × ((reply : Response C) × (p.result ≡ some reply))))

  -- The numbers increase along the list, and none is above `top`.
  abbrev pub IsNumbered : ℕ → List (PendingRequest C) → Type 0
  IsNumbered top [] = Unit
  IsNumbered top (p ∷ ps) =
      IsOwn p × (p.entry ≤ top) × All (λ q. p.entry < q.entry) ps × IsNumbered top ps

  above-find_entry :
      (e k : ℕ) (ps : List (PendingRequest C))
      → e ≤ k
      → All (λ q. k < q.entry) ps
      → find_entry e ps ≡ none
  above-find_entry e k [] le h = refl
  above-find_entry e k (q ∷ ps) le h = ground (arith, above-find_entry e k ps le h.1)

  -- The reply's text in the request that it answers.
  abbrev pub answered : ReplyResp C → PendingRequest C → Option (PendingRequest C)
  answered r p = elim p.result [
    | none ↦ none
    | some reply ↦ some (record p {
      id = pos 0;
      rcode = r.rescode;
      result = some (if r.rescode == cli_success then or_else r.reply reply else reply);
    })
  ]

  take_reply_above :
      (e : ℕ) (r : ReplyResp C) (ps : List (PendingRequest C))
      → All (λ q. e < q.entry) ps
      → All (λ q. e < q.entry) (take_reply r ps).0
  unfolding take_reply answer
  take_reply_above e r [] h = tt
  take_reply_above e r (p ∷ ps) h = ground (arith, take_reply_above e r ps h.1)

  -- A reply to the request of number `n` leaves every other request as it is.
  pub take_reply-other :
      (e n : ℕ) (r : ReplyResp C) (top : ℕ) (ps : List (PendingRequest C))
      → r.id ≡ pos (suc n)
      → e ≢ suc n
      → IsNumbered top ps
      → find_entry e (take_reply r ps).0 ≡ find_entry e ps
  unfolding take_reply answer
  take_reply-other e n r top [] i other num = refl
  take_reply-other e n r top (p ∷ ps) i other num =
      ground (arith, int_beq_iff p.id r.id, take_reply-other e n r top ps i other num.3)

  -- A reply to the request of number `n` answers that request, if it still waits.
  pub take_reply-own :
      (n : ℕ) (r : ReplyResp C) (top : ℕ) (ps : List (PendingRequest C)) (p : PendingRequest C)
      → r.id ≡ pos (suc n)
      → IsNumbered top ps
      → find_entry (suc n) ps ≡ some p
      → p.id ≡ pos (suc n)
      → (find_entry (suc n) (take_reply r ps).0 ≡ answered r p)
        × ((take_reply r ps).1 ≡ elim p.result [ none ↦ p.callback | some reply ↦ none ])
  unfolding take_reply answer
  take_reply-own n r top [] p i num f own = absurd (ground arith)
  take_reply-own n r top (q ∷ ps) p i num f own = elim (Bool-cases (q.entry == suc n)) [
    | inl here ↦
        let e : suc n ≤ q.entry = ground arith in
        ground (arith, above-find_entry (suc n) q.entry ps e num.2)
    | inr later ↦ ground (arith, take_reply-own n r top ps p i num.3)
  ]

  answer-IsNumbered :
      (r : ReplyResp C) (top : ℕ) (p : PendingRequest C) (ps : List (PendingRequest C))
      → IsNumbered top (p ∷ ps)
      → IsNumbered top (answer r p ps).0
  unfolding answer
  answer-IsNumbered r top p ps num = elim (Option-cases p.result) [
    | inl n ↦ rw n (num.3)
    | inr (reply, s) ↦ rw s ((num.0.0, inr (refl, (_, refl))), num.1, num.2, num.3)
  ]

  -- A reply keeps the list numbered.
  pub take_reply-IsNumbered :
      (r : ReplyResp C) (top : ℕ) (ps : List (PendingRequest C))
      → IsNumbered top ps
      → IsNumbered top (take_reply r ps).0
  unfolding take_reply
  take_reply-IsNumbered r top [] num = tt
  take_reply-IsNumbered r top (p ∷ ps) num = elim (Bool-cases (p.id == r.id)) [
    | inl here ↦ rw here (answer-IsNumbered r top p ps num)
    | inr later ↦
        rw later
          (num.0, num.1, take_reply_above p.entry r ps num.2, take_reply-IsNumbered r top ps num.3)
  ]

  erase_entry_above :
      (e k : ℕ) (ps : List (PendingRequest C))
      → All (λ q. k < q.entry) ps
      → All (λ q. k < q.entry) (erase_entry e ps)
  erase_entry_above e k [] h = tt
  erase_entry_above e k (p ∷ ps) h = elim (Bool-cases (p.entry == e)) [
    | inl here ↦ rw here (h.1)
    | inr later ↦ rw later (h.0, erase_entry_above e k ps h.1)
  ]

  -- The list without one of its entries is numbered.
  pub erase_entry-IsNumbered :
      (e top : ℕ) (ps : List (PendingRequest C))
      → IsNumbered top ps
      → IsNumbered top (erase_entry e ps)
  erase_entry-IsNumbered e top [] num = tt
  erase_entry-IsNumbered e top (p ∷ ps) num = elim (Bool-cases (p.entry == e)) [
    | inl here ↦ rw here (num.3)
    | inr later ↦
        rw later (
          num.0,
          num.1,
          erase_entry_above e p.entry ps num.2,
          erase_entry-IsNumbered e top ps num.3,
        )
  ]

  -- The list with a new request of the next number at its end is numbered.
  pub place-IsNumbered :
      (top : ℕ) (ps : List (PendingRequest C)) (p : PendingRequest C)
      → IsNumbered top ps
      → p.entry ≡ suc top
      → p.id ≡ pos (suc top)
      → IsNumbered (suc top) (ps ++ p ∷ [])
  place-IsNumbered top [] p num e i = ((omega arith, inl (i ∙ ap pos (sym e))), omega arith, tt, tt)
  place-IsNumbered top (q ∷ ps) p num e i = (
    num.0,
    omega (arith, num.1),
    above_append q.entry ps num.2 (omega (arith, num.1)),
    place-IsNumbered top ps p num.3 e i,
  )
    where
      above_append :
          (k : ℕ) (qs : List (PendingRequest C))
          → All (λ x. k < x.entry) qs
          → k < p.entry
          → All (λ x. k < x.entry) (qs ++ p ∷ [])
      above_append k [] h below = (below, tt)
      above_append k (x ∷ qs) h below = (h.0, above_append k qs h.1 below)

  pub IsNumbered-suc :
      (top : ℕ) (ps : List (PendingRequest C)) → IsNumbered top ps → IsNumbered (suc top) ps
  IsNumbered-suc top [] num = tt
  IsNumbered-suc top (p ∷ ps) num =
      (num.0, omega (arith, num.1), num.2, IsNumbered-suc top ps num.3)

  waiting_above :
      (k : ℕ) (ps : List (PendingRequest C))
      → All (λ x. k < x.entry) ps
      → All (λ x. k < x.entry) (waiting ps)
  waiting_above k [] h = tt
  waiting_above k (p ∷ ps) h = elim (Option-cases p.result) [
    | inl n ↦ rw n (waiting_above k ps h.1)
    | inr (reply, s) ↦ rw s (h.0, waiting_above k ps h.1)
  ]

  -- The requests with a caller that waits are numbered.
  pub waiting-IsNumbered :
      (top : ℕ) (ps : List (PendingRequest C)) → IsNumbered top ps → IsNumbered top (waiting ps)
  waiting-IsNumbered top [] num = tt
  waiting-IsNumbered top (p ∷ ps) num = elim (Option-cases p.result) [
    | inl n ↦ rw n (waiting-IsNumbered top ps num.3)
    | inr (reply, s) ↦
        let kept : waiting (p ∷ ps) ≡ p ∷ waiting ps =
          ap (λ o. elim o [ none ↦ waiting ps | some r ↦ p ∷ waiting ps ]) s in
        subst (IsNumbered top) (sym kept)
          (num.0, num.1, waiting_above p.entry ps num.2, waiting-IsNumbered top ps num.3)
  ]
