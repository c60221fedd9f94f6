-- ===== src/Dispatcher/CallOrder.antt =====
-- The handlers of calls and replies keep the pending calls in order (src/disp.cc).
use flora.Base.{
  ℕ, suc, ◌+◌, ◌≡◌, refl, sym, subst, Bool, false, List, [], ◌∷◌, Option, none, some, String, ℤ,
  pos, arith, lookup, string_key, ltb, Option-cases, Bool-cases, inl, inr, ◌⊎◌,
}
use flora.Caps.{CapsApi}
use flora.Message.Data.{CallReq, ReplyReq}
use flora.Message.RequestParser.{parse_call, parse_reply}
use flora.Dispatcher.State.{State, Written, PendingCall, info_of, has_method}
use flora.Message.ResponseSerializer.{serialize_call}
use flora.Dispatcher.Call.{
  call_timeout, erase_call, refuse_call, forward_call, call, handle_call_req, send_return, reply,
  handle_reply_req, pending_call_timeout, discard_from,
}
use flora.Dispatcher.PendingOrder.{IsSorted, insert_call-IsSorted}
use flora.Dispatcher.CallReturn.{Issued}
use flora.Dispatcher.Keeps.{Keeps}
use flora.Dispatcher.Orderly.{
  IsOrderly, some_path, none-some, InfoRef-cases, ended, Keeps-IsOrderly, Issued-mono,
  insert_call-Issued, erase_call-All, erase_call-IsSorted,
}

module _ (api : CapsApi) (os : ℕ → Written) where
  refuse_call-Keeps :
      (st : State api.Caps) (sender : ℕ) (cliid : ℤ)
      → Keeps st (refuse_call api os st sender cliid).0
  unfolding refuse_call
  refuse_call-Keeps st sender cliid = ground arith

  forward_call-IsOrderly :
      (now : ℕ) (st : State api.Caps) (sender : ℕ) (name : String) (target : ℕ)
      (r : CallReq api.Caps)
      → IsOrderly st
      → IsOrderly (forward_call api os now st sender name target r).0
  unfolding forward_call
  forward_call-IsOrderly now st sender name target r h =
      let pc : PendingCall = record {
        svrid = pos (suc st.reqseq);
        cliid = r.id;
        sender = sender;
        target = target;
        discard_tp = now + call_timeout r.timeout;
      } in
      let ordered = insert_call-IsSorted pc st.pending_calls h.0 in
      let issued =
        insert_call-Issued (suc st.reqseq) pc st.pending_calls (suc st.reqseq, refl, omega arith)
          (Issued-mono st.reqseq st.pending_calls h.1) in
      elim (Option-cases (
        serialize_call api r.name r.args (pos (suc st.reqseq)) (st.net.heap sender).tag name
          st.buf_size (st.net.heap target).serialize_flags)) [
            | inl n ↦ rw n (ordered, issued)
            | inr (f, s) ↦ rw s (ordered, issued)
          ]

  reply-pending_calls :
      (st : State api.Caps) (sender : ℕ) (name : String) (r : ReplyReq api.Caps)
      → let st' = (reply api os st sender name r).0 in
        (st'.reqseq ≡ st.reqseq)
        × ((st'.pending_calls ≡ st.pending_calls)
            ⊎ (st'.pending_calls ≡ erase_call r.id sender st.pending_calls))
  unfolding reply send_return
  reply-pending_calls st sender name r = ground arith

  reply-IsOrderly :
      (st : State api.Caps) (sender : ℕ) (name : String) (r : ReplyReq api.Caps)
      → IsOrderly st
      → IsOrderly (reply api os st sender name r).0
  reply-IsOrderly st sender name r h =
      let (numbers, pending) = reply-pending_calls st sender name r in
      let kept = Keeps-IsOrderly st (reply api os st sender name r).0 in
      elim pending [
        | inl same ↦ kept (same, numbers) h
        | inr erased ↦
            let less : State api.Caps = record st {
              pending_calls = erase_call r.id sender st.pending_calls;
            } in
            Keeps-IsOrderly less (reply api os st sender name r).0 (erased, numbers)
              (
                erase_call-IsSorted r.id sender st.pending_calls h.0,
                erase_call-All _ r.id sender st.pending_calls h.1,
              )
      ]

  pending_call_timeout-Keeps :
      (st st' : State api.Caps) (pc : PendingCall)
      → pending_call_timeout api os st pc ≡ some st'
      → Keeps st st'
  unfolding pending_call_timeout
  pending_call_timeout-Keeps st st' pc e = ground arith

  pub discard_from-IsOrderly :
      (tp : ℕ) (pcs : List PendingCall) (st st' : State api.Caps)
      → IsSorted pcs
      → Issued st.reqseq pcs
      → discard_from api os tp pcs st ≡ some st'
      → IsOrderly st'
  unfolding discard_from
  discard_from-IsOrderly tp [] st st' s i e = subst IsOrderly (some_path e) (tt, tt)
  discard_from-IsOrderly tp (pc ∷ pcs) st st' s i e = elim (Bool-cases (ltb tp pc.discard_tp)) [
    | inl early ↦
        let stop : State api.Caps = record st { pending_calls = pc ∷ pcs } in
        let end : some stop ≡ some st' = rw (early, discard_from) at e in
        subst IsOrderly (some_path end) (s, i)
    | inr due ↦ elim (Option-cases (pending_call_timeout api os st pc)) [
      | inl crash ↦
          let end : ◌≡◌ {A = Option (State api.Caps)} none (some st') =
            rw (due, crash, discard_from) at e in
          ground arith
      | inr (st₁, t) ↦
          let again : discard_from api os tp pcs st₁ ≡ some st' = rw (due, t, discard_from) at e in
          let (_, numbers) = pending_call_timeout-Keeps st st₁ pc t in
          discard_from-IsOrderly tp pcs st₁ st' s.1 (subst (λ n. Issued n pcs) (sym numbers) i.1)
            again
    ]
  ]

  call-IsOrderly :
      (now : ℕ) (st st' : State api.Caps) (sender : ℕ) (name : String) (r : CallReq api.Caps)
      (b : Bool)
      → IsOrderly st
      → call api os now st sender name r ≡ some (st', b)
      → IsOrderly st'
  unfolding call
  call-IsOrderly now st st' sender name r b h e =
      let refused =
        Keeps-IsOrderly st (refuse_call api os st sender r.id).0 (refuse_call-Keeps st sender r.id)
          h in
      elim (Option-cases (lookup r.target st.named_adapters)) [
        | inl l ↦ ended (refuse_call api os st sender r.id) st' b refused (rw (l, call) at e)
        | inr (target, l) ↦ elim (InfoRef-cases (info_of st target)) [
          | inl i ↦ absurd (none-some (rw (l, i, call) at e))
          | inr (inl i) ↦ absurd (none-some (rw (l, i, call) at e))
          | inr (inr (info, i)) ↦ elim (Bool-cases (has_method info r.name)) [
            | inl m ↦
                ended (forward_call api os now st sender name target r) st' b
                  (forward_call-IsOrderly now st sender name target r h) (rw (l, i, m, call) at e)
            | inr m ↦
                ended (refuse_call api os st sender r.id) st' b refused (rw (l, i, m, call) at e)
          ]
        ]
      ]

  pub handle_call_req-IsOrderly :
      (now : ℕ) (st st' : State api.Caps) (c : api.Caps) (sender : ℕ) (b : Bool)
      → IsOrderly st
      → handle_call_req api os now st c sender ≡ some (st', b)
      → IsOrderly st'
  unfolding handle_call_req
  handle_call_req-IsOrderly now st st' c sender b h e = elim (InfoRef-cases (info_of st sender)) [
    | inl i ↦ ended (st, false) st' b h (rw (i, handle_call_req) at e)
    | inr (inl i) ↦ absurd (none-some (rw (i, handle_call_req) at e))
    | inr (inr (info, i)) ↦ elim (Option-cases (parse_call api c).0) [
      | inl p ↦ ended (st, false) st' b h (rw (i, p, handle_call_req) at e)
      | inr (r, p) ↦
          call-IsOrderly now st st' sender info.name r b h (rw (i, p, handle_call_req) at e)
    ]
  ]

  pub handle_reply_req-IsOrderly :
      (st st' : State api.Caps) (c : api.Caps) (sender : ℕ) (b : Bool)
      → IsOrderly st
      → handle_reply_req api os st c sender ≡ some (st', b)
      → IsOrderly st'
  unfolding handle_reply_req
  handle_reply_req-IsOrderly st st' c sender b h e = elim (InfoRef-cases (info_of st sender)) [
    | inl i ↦ ended (st, false) st' b h (rw (i, handle_reply_req) at e)
    | inr (inl i) ↦ absurd (none-some (rw (i, handle_reply_req) at e))
    | inr (inr (info, i)) ↦ elim (Option-cases (parse_reply api c).0) [
      | inl p ↦ ended (st, false) st' b h (rw (i, p, handle_reply_req) at e)
      | inr (r, p) ↦
          ended (reply api os st sender info.name r) st' b (reply-IsOrderly st sender info.name r h)
            (rw (i, p, handle_reply_req) at e)
    ]
  ]
