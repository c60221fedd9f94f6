-- ===== src/Dispatcher/CallReturn.antt =====
-- A call and its answer (src/disp.cc, `handle_call_req` and `handle_reply_req`).
use flora.Base.{
  ℕ, suc, ◌+◌, ◌≤◌, ◌≡◌, ◌≢◌, refl, sym, subst, ap, ◌∙◌, Bool, true, false, List, [], ◌∷◌, none,
  some, String, ℤ, pos, leb, All, arith, ==-refl, int_key, nat_key, Bool-cases, inl, inr,
  nat_beq_iff,
}
use flora.Caps.{CapsApi}
use flora.Protocol.{cli_success}
use flora.Message.Data.{Frame, CallReq, ReplyReq}
use flora.Message.ResponseSerializer.{serialize_call, serialize_reply}
use flora.Dispatcher.State.{State, PendingCall, Written, write}
use flora.Dispatcher.Call.{
  insert_call, answers, find_call, erase_call, forward_call, reply, send_return, call_timeout,
}

-- The calls that are pending have numbers that were given out.
abbrev pub Issued : ℕ → List PendingCall → Type 0
Issued reqseq = All (λ pc. (n : ℕ) × (pc.svrid ≡ pos n) × (n ≤ reqseq))

fresh-answers :
    (reqseq target : ℕ) (pc : PendingCall)
    → ((n : ℕ) × (pc.svrid ≡ pos n) × (n ≤ reqseq))
    → answers (pos (suc reqseq)) target pc ≡ false
fresh-answers reqseq target pc (n, e, le) = rw e (ground arith)

self-answers : (pc : PendingCall) → answers pc.svrid pc.target pc ≡ true
self-answers pc = rw (==-refl pc.svrid, ==-refl pc.target)

-- A new call is found under its number and its target, and taking it out again leaves the others.
find_call-insert_call :
    (reqseq : ℕ) (pc : PendingCall) (pcs : List PendingCall)
    → Issued reqseq pcs
    → pc.svrid ≡ pos (suc reqseq)
    → (find_call pc.svrid pc.target (insert_call pc pcs) ≡ some pc)
      × (erase_call pc.svrid pc.target (insert_call pc pcs) ≡ pcs)
unfolding insert_call find_call erase_call
find_call-insert_call reqseq pc [] issued new = (rw (self-answers pc), rw (self-answers pc))
find_call-insert_call reqseq pc (q ∷ qs) issued new =
    let miss : answers pc.svrid pc.target q ≡ false =
      subst (λ z. answers z pc.target q ≡ false) (sym new)
        (fresh-answers reqseq pc.target q issued.0) in
    let rest = find_call-insert_call reqseq pc qs issued.1 new in
    elim (Bool-cases (leb pc.discard_tp q.discard_tp)) [
      | inl first ↦ (rw (first, self-answers pc), rw (first, self-answers pc))
      | inr later ↦ (rw (later, miss) rest.0, rw (later, miss) (ap (◌∷◌ q) rest.1))
    ]

find_call-none :
    (n target : ℕ) (pcs : List PendingCall)
    → Issued n pcs
    → find_call (pos (suc n)) target pcs ≡ none
unfolding find_call
find_call-none n target [] issued = refl
find_call-none n target (q ∷ qs) issued =
    rw (fresh-answers n target q issued.0) (find_call-none n target qs issued.1)

find_call_other :
    (n other : ℕ) (pc : PendingCall) (pcs : List PendingCall)
    → Issued n pcs
    → pc.svrid ≡ pos (suc n)
    → other ≢ pc.target
    → find_call (pos (suc n)) other (insert_call pc pcs) ≡ none
unfolding insert_call find_call
find_call_other n other pc [] issued new differ = ground (arith, nat_beq_iff pc.target other)
find_call_other n other pc (q ∷ qs) issued new differ =
    let miss = fresh-answers n other q issued.0 in
    let here : answers (pos (suc n)) other pc ≡ false =
      ground (arith, nat_beq_iff pc.target other) in
    elim (Bool-cases (leb pc.discard_tp q.discard_tp)) [
      | inl first ↦ rw (first, here, miss) (find_call-none n other qs issued.1)
      | inr later ↦ rw (later, miss) (find_call_other n other pc qs issued.1 new differ)
    ]

module _ (api : CapsApi) (os : ℕ → Written) where
  -- The call that the dispatcher notes for the request `r`.
  abbrev pub call_of : ℕ → State api.Caps → ℕ → ℕ → CallReq api.Caps → PendingCall
  call_of now st sender target r = record {
    svrid = pos (suc st.reqseq);
    cliid = r.id;
    sender = sender;
    target = target;
    discard_tp = now + call_timeout r.timeout;
  }

  -- A call to a named client that has declared the method is sent to that client under a new number,
  -- with the caller's tag and name, and is pending from then on.
  pub forward_call-frame :
      (now : ℕ) (st : State api.Caps) (sender : ℕ) (name : String) (target : ℕ)
      (r : CallReq api.Caps) (f : Frame)
      → serialize_call api r.name r.args
          (pos (suc st.reqseq))
          (st.net.heap sender).tag
          name
          st.buf_size
          (st.net.heap target).serialize_flags
        ≡ some f
      → forward_call api os now st sender name target r ≡ (
        record st {
          reqseq = suc st.reqseq;
          pending_calls = insert_call (call_of now st sender target r) st.pending_calls;
          net = write os target f st.net;
        },
        true,
      )
  unfolding forward_call
  forward_call-frame now st sender name target r f e = rw e

  send_return-frame :
      (st : State api.Caps) (target : ℕ) (callee : String) (q : ReplyReq api.Caps)
      (pc : PendingCall) (f : Frame)
      → serialize_reply api pc.cliid cli_success
          (some (record { ret_code = q.code; data_of = q.values; extra = callee }))
          (st.net.heap target).tag
          st.buf_size
          (st.net.heap pc.sender).serialize_flags
        ≡ some f
      → send_return api os st target callee q pc ≡ (
        record st {
          pending_calls = erase_call q.id target st.pending_calls;
          net = write os pc.sender f st.net;
        },
        true,
      )
  unfolding send_return
  send_return-frame st target callee q pc f e = rw (send_return, e)

  reply-pending :
      (st : State api.Caps) (pc : PendingCall) (pcs : List PendingCall) (n : ℕ)
      (q : ReplyReq api.Caps) (callee : String) (f : Frame)
      → st.pending_calls ≡ insert_call pc pcs
      → Issued n pcs
      → pc.svrid ≡ pos (suc n)
      → q.id ≡ pc.svrid
      → (st.net.heap pc.sender).is_open ≡ true
      → serialize_reply api pc.cliid cli_success
          (some (record { ret_code = q.code; data_of = q.values; extra = callee }))
          (st.net.heap pc.target).tag
          st.buf_size
          (st.net.heap pc.sender).serialize_flags
        ≡ some f
      → reply api os st pc.target callee q
        ≡ (record st { pending_calls = pcs; net = write os pc.sender f st.net }, true)
  unfolding reply
  reply-pending st pc pcs n q callee f held issued new same opened e =
      let found = find_call-insert_call n pc pcs issued new in
      let hit : find_call q.id pc.target st.pending_calls ≡ some pc =
        (λ i. find_call (same i) pc.target (held i)) ∙ found.0 in
      let left : erase_call q.id pc.target st.pending_calls ≡ pcs =
        (λ i. erase_call (same i) pc.target (held i)) ∙ found.1 in
      rw (hit, reply, opened)
        (send_return-frame st pc.target callee q pc f e
          ∙ ap
              (λ (l : List PendingCall).
                (record st { pending_calls = l; net = write os pc.sender f st.net }, true))
              left)

  -- While the pending calls have numbers that were given out, both messages fit the buffer and the
  -- caller is still open, the called client's answer to a call that was sent on goes to the caller,
  -- under the caller's own number and with the answering client's name, and the pending calls are
  -- again those of before the call.
  pub reply-forward_call :
      (now : ℕ) (st : State api.Caps) (sender : ℕ) (name : String) (target : ℕ)
      (r : CallReq api.Caps) (q : ReplyReq api.Caps) (callee : String) (g f : Frame)
      → Issued st.reqseq st.pending_calls
      → serialize_call api r.name r.args
          (pos (suc st.reqseq))
          (st.net.heap sender).tag
          name
          st.buf_size
          (st.net.heap target).serialize_flags
        ≡ some g
      → q.id ≡ pos (suc st.reqseq)
      → ((write os target g st.net).heap sender).is_open ≡ true
      → serialize_reply api r.id cli_success
          (some (record { ret_code = q.code; data_of = q.values; extra = callee }))
          ((write os target g st.net).heap target).tag
          st.buf_size
          ((write os target g st.net).heap sender).serialize_flags
        ≡ some f
      → reply api os (forward_call api os now st sender name target r).0 target callee q ≡ (
        record st { reqseq = suc st.reqseq; net = write os sender f (write os target g st.net) },
        true,
      )
  reply-forward_call now st sender name target r q callee g f issued sent same opened e =
      let st' : State api.Caps = record st {
        reqseq = suc st.reqseq;
        pending_calls = insert_call (call_of now st sender target r) st.pending_calls;
        net = write os target g st.net;
      } in
      ap (λ (p : State api.Caps × Bool). reply api os p.0 target callee q)
        (forward_call-frame now st sender name target r g sent)
      ∙ reply-pending st' (call_of now st sender target r) st.pending_calls st.reqseq q callee f
          refl issued refl same opened e

  unanswered :
      (st : State api.Caps) (sender : ℕ) (name : String) (q : ReplyReq api.Caps)
      → find_call q.id sender st.pending_calls ≡ none
      → reply api os st sender name q ≡ (st, true)
  unfolding reply
  unanswered st sender name q e = rw (e, reply)

  -- While the pending calls have numbers up to some number, a reply under the next number, which was
  -- not given out yet, changes nothing.
  pub reply-unissued :
      (st : State api.Caps) (n sender : ℕ) (name : String) (q : ReplyReq api.Caps)
      → Issued n st.pending_calls
      → q.id ≡ pos (suc n)
      → reply api os st sender name q ≡ (st, true)
  reply-unissued st n sender name q issued same = unanswered st sender name q (
      ap (λ (z : ℤ). find_call z sender st.pending_calls) same
      ∙ find_call-none n sender st.pending_calls issued)

  -- While the pending calls have numbers that were given out, a client other than the one that was
  -- called cannot answer a call that was sent on: its reply under the call's number changes nothing.
  pub reply-other :
      (now : ℕ) (st : State api.Caps) (sender : ℕ) (name : String) (target : ℕ)
      (r : CallReq api.Caps) (g : Frame) (other : ℕ) (callee : String) (q : ReplyReq api.Caps)
      → Issued st.reqseq st.pending_calls
      → serialize_call api r.name r.args
          (pos (suc st.reqseq))
          (st.net.heap sender).tag
          name
          st.buf_size
          (st.net.heap target).serialize_flags
        ≡ some g
      → q.id ≡ pos (suc st.reqseq)
      → other ≢ target
      → let st' = (forward_call api os now st sender name target r).0 in
        reply api os st' other callee q ≡ (st', true)
  reply-other now st sender name target r g other callee q issued sent same differ =
      unanswered (forward_call api os now st sender name target r).0 other callee q (
        (λ i.
          find_call (same i) other
            (forward_call-frame now st sender name target r g sent i).0.pending_calls)
        ∙ find_call_other st.reqseq other (call_of now st sender target r) st.pending_calls issued
            refl differ)
