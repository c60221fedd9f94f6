-- ===== src/Dispatcher/PendingOrder.antt =====
-- The order of the pending calls, and what `discard_pending_calls` makes of it (src/disp.cc).
use flora.Base.{
  ℕ, ◌+◌, ◌≤◌, ◌<◌, ◌≡◌, refl, sym, ap, ◌∙◌, true, false, List, [], ◌∷◌, ◌++◌, Option, none, some,
  ℤ, leb, ltb, ltb→lt, ltb→le, keep, All, arith, Bool-cases, inl, inr,
}
use flora.Caps.{CapsApi}
use flora.Protocol.{cli_etimeout}
use flora.Message.Data.{Frame}
use flora.Message.ResponseSerializer.{serialize_reply}
use flora.Dispatcher.State.{State, Net, PendingCall, Written, write, write_if}
use flora.Dispatcher.Call.{
  insert_call, add_pending_call, call_timeout, discard_from, discard_pending_calls,
  pending_call_timeout,
}

abbrev pub DueFrom : ℕ → List PendingCall → Type 0
DueFrom tp = All (λ q. tp ≤ q.discard_tp)

-- Sorted by `discard_tp`.
abbrev pub IsSorted : List PendingCall → Type 0
IsSorted [] = Unit {0}
IsSorted (pc ∷ pcs) = DueFrom pc.discard_tp pcs × IsSorted pcs

DueFrom-mono : {m n : ℕ} (pcs : List PendingCall) → m ≤ n → DueFrom n pcs → DueFrom m pcs
DueFrom-mono [] h d = tt
DueFrom-mono {m} {n} (q ∷ qs) h d = (omega (arith, d.0), DueFrom-mono qs h d.1)

insert_call-DueFrom :
    (tp : ℕ) (pc : PendingCall) (pcs : List PendingCall)
    → tp ≤ pc.discard_tp
    → DueFrom tp pcs
    → DueFrom tp (insert_call pc pcs)
unfolding insert_call
insert_call-DueFrom tp pc [] h d = (h, tt)
insert_call-DueFrom tp pc (q ∷ qs) h d = ground (arith, insert_call-DueFrom tp pc qs h d.1)

pub insert_call-IsSorted :
    (pc : PendingCall) (pcs : List PendingCall) → IsSorted pcs → IsSorted (insert_call pc pcs)
unfolding insert_call
insert_call-IsSorted pc [] s = (tt, tt)
insert_call-IsSorted pc (q ∷ qs) s = elim (Bool-cases (leb pc.discard_tp q.discard_tp)) [
  | inl first ↦
      rw first (
        (ground arith, DueFrom-mono {m = pc.discard_tp} {n = q.discard_tp} qs (ground arith) s.0),
        s,
      )
  | inr later ↦
      rw later
        (insert_call-DueFrom q.discard_tp pc qs (ground arith) s.0, insert_call-IsSorted pc qs s.1)
]

keep_due :
    (tp : ℕ) (pcs : List PendingCall) → DueFrom tp pcs → keep (λ q. leb tp q.discard_tp) pcs ≡ pcs
keep_due tp [] d = refl
keep_due tp (q ∷ qs) d = ground (arith, keep_due tp qs d.1)

keep_earlier :
    (tp : ℕ) (pcs : List PendingCall) → DueFrom tp pcs → keep (λ q. ltb q.discard_tp tp) pcs ≡ []
keep_earlier tp [] d = refl
keep_earlier tp (q ∷ qs) d = ground (arith, keep_earlier tp qs d.1)

insert_call-keep :
    (pc : PendingCall) (pcs : List PendingCall)
    → IsSorted pcs
    → insert_call pc pcs
      ≡ keep (λ q. ltb q.discard_tp pc.discard_tp) pcs
        ++ pc ∷ keep (λ q. leb pc.discard_tp q.discard_tp) pcs
unfolding insert_call
insert_call-keep pc [] s = refl
insert_call-keep pc (q ∷ qs) s =
    let mono = DueFrom-mono {m = pc.discard_tp} {n = q.discard_tp} qs in
    ground (
      arith,
      insert_call-keep pc qs s.1,
      mono,
      keep_due pc.discard_tp qs,
      keep_earlier pc.discard_tp qs,
      s.0,
    )

-- A new pending call keeps sorted calls sorted: it stands behind the calls that are due earlier and
-- before those that are due at the same time or later.
pub add_pending_call-IsSorted :
    {C : Type 0} (now : ℕ) (svrid cliid : ℤ) (sender target timeout : ℕ) (st : State C)
    → IsSorted st.pending_calls
    → let due = now + call_timeout timeout in
      let pcs = (add_pending_call now svrid cliid sender target timeout st).pending_calls in
      IsSorted pcs
      × (pcs
          ≡ keep (λ q. ltb q.discard_tp due) st.pending_calls
            ++ record {
              svrid = svrid;
              cliid = cliid;
              sender = sender;
              target = target;
              discard_tp = due;
            }
              ∷ keep (λ q. leb due q.discard_tp) st.pending_calls)
unfolding add_pending_call
add_pending_call-IsSorted now svrid cliid sender target timeout st s =
    (insert_call-IsSorted _ st.pending_calls s, insert_call-keep _ st.pending_calls s)

keep_waiting :
    (tp m : ℕ) (pcs : List PendingCall)
    → tp < m
    → DueFrom m pcs
    → keep (λ q. ltb tp q.discard_tp) pcs ≡ pcs
keep_waiting tp m [] h d = refl
keep_waiting tp m (q ∷ qs) h d = ground (arith, keep_waiting tp m qs h d.1)

keep_expired :
    (tp m : ℕ) (pcs : List PendingCall)
    → tp < m
    → DueFrom m pcs
    → keep (λ q. leb q.discard_tp tp) pcs ≡ []
keep_expired tp m [] h d = refl
keep_expired tp m (q ∷ qs) h d = ground (arith, keep_expired tp m qs h d.1)

not_expired : (tp m : ℕ) → tp < m → leb m tp ≡ false
not_expired tp m h = ground arith

expired : (tp m : ℕ) → m ≤ tp → leb m tp ≡ true
expired tp m h = ground arith

module _ (api : CapsApi) (os : ℕ → Written) where
  -- The timeout reply for `pc` in a dispatcher with this buffer.
  abbrev pub timeout_frame : ℕ → Net → PendingCall → Option Frame
  timeout_frame buf_size net pc =
      serialize_reply api pc.cliid cli_etimeout none 0 buf_size (net.heap pc.sender).serialize_flags

  -- A small reply fits the buffer.
  abbrev pub FitsTimeout : ℕ → Type 0
  FitsTimeout buf_size =
      (cliid : ℤ) (flags : ℕ)
      → (f : Frame) × (serialize_reply api cliid cli_etimeout none 0 buf_size flags ≡ some f)

  -- A timeout reply to each caller, in order.
  pub write_timeouts : ℕ → List PendingCall → Net → Net
  write_timeouts buf_size [] net = net
  write_timeouts buf_size (pc ∷ pcs) net =
      write_timeouts buf_size pcs (write_if os pc.sender (timeout_frame buf_size net pc) net)

  write_timeouts_step :
      (buf_size : ℕ) (pc : PendingCall) (pcs : List PendingCall) (net : Net) (f : Frame)
      → timeout_frame buf_size net pc ≡ some f
      → write_timeouts buf_size (pc ∷ pcs) net
        ≡ write_timeouts buf_size pcs (write os pc.sender f net)
  unfolding write_timeouts
  write_timeouts_step buf_size pc pcs net f e =
      ap (λ (o : Option Frame). write_timeouts buf_size pcs (write_if os pc.sender o net)) e

  pending_call_timeout-write :
      (st : State api.Caps) (pc : PendingCall) (f : Frame)
      → timeout_frame st.buf_size st.net pc ≡ some f
      → pending_call_timeout api os st pc ≡ some (record st { net = write os pc.sender f st.net })
  unfolding pending_call_timeout
  pending_call_timeout-write st pc f e = rw e

  discard_from-keep :
      (tp : ℕ) (pcs : List PendingCall) (st : State api.Caps)
      → FitsTimeout st.buf_size
      → IsSorted pcs
      → discard_from api os tp pcs st
        ≡ some (record st {
          pending_calls = keep (λ q. ltb tp q.discard_tp) pcs;
          net = write_timeouts st.buf_size (keep (λ q. leb q.discard_tp tp) pcs) st.net;
        })
  unfolding discard_from write_timeouts
  discard_from-keep tp [] st fits s = refl
  discard_from-keep tp (pc ∷ pcs) st fits s = elim (Bool-cases (ltb tp pc.discard_tp)) [
    | inl waits ↦
        let later : tp < pc.discard_tp = ltb→lt tp pc.discard_tp waits in
        rw (
          waits,
          keep_waiting tp pc.discard_tp pcs later s.0,
          keep_expired tp pc.discard_tp pcs later s.0,
          not_expired tp pc.discard_tp later,
        )
    | inr due ↦
        let over : pc.discard_tp ≤ tp = ltb→le tp pc.discard_tp due in
        let (f, e) = fits pc.cliid (st.net.heap pc.sender).serialize_flags in
        let once = pending_call_timeout-write st pc f e in
        rw (due, expired tp pc.discard_tp over, once)
          (discard_from-keep tp pcs (record st { net = write os pc.sender f st.net }) fits s.1
            ∙ ap
                (λ (net : Net).
                  some
                    (record st { pending_calls = keep (λ q. ltb tp q.discard_tp) pcs; net = net }))
                (sym (
                  write_timeouts_step st.buf_size pc (keep (λ q. leb q.discard_tp tp) pcs) st.net f
                    e)))
  ]

  -- If the pending calls are sorted and a timeout reply fits the buffer, discarding drops exactly
  -- the calls that are due, writes a timeout reply to each of their callers in order, and keeps the
  -- others.
  pub discard_pending_calls-keep :
      (tp : ℕ) (st : State api.Caps)
      → FitsTimeout st.buf_size
      → IsSorted st.pending_calls
      → discard_pending_calls api os tp st
        ≡ some (record st {
          pending_calls = keep (λ q. ltb tp q.discard_tp) st.pending_calls;
          net =
              write_timeouts st.buf_size (keep (λ q. leb q.discard_tp tp) st.pending_calls) st.net;
        })
  unfolding discard_pending_calls
  discard_pending_calls-keep tp st fits s = discard_from-keep tp st.pending_calls st fits s
