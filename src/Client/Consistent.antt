-- ===== src/Client/Consistent.antt =====
-- The list of requests and the callbacks of a client, step by step (src/cli.cc).
use flora.Base.{
  ℕ, ◌+◌, ◌≡◌, refl, sym, ap, ◌∙◌, inl, inr, false, true, Bool, List, [], ◌∷◌, Option, none, some,
  String, ℤ, if◌then◌else◌, int_key, arith, subst, Option-cases,
}
use flora.Caps.{CapsApi}
use flora.Message.Data.{Response, ReplyResp}
use flora.Client.State.{Session, PendingRequest}
use flora.Client.Handlers.{handle_reply, take_reply}
use flora.Client.Receive.{fail_requests, waiting, after_callbacks}
use flora.Client.Calls.{call_nb, call_round, returns, find_entry, erase_entry}
use flora.Client.Answers.{
  IsNumbered, IsNumbered-suc, place-IsNumbered, take_reply-IsNumbered, erase_entry-IsNumbered,
  waiting-IsNumbered,
}
use flora.Client.Callbacks.{
  runs, standing, times, is_callback, stands_once, standing-append, handle_reply-balance,
  erase_entry-standing, fail_requests-runs,
}
use flora.Client.Quiet.{IsEffect}
use flora.Client.Placing.{is_placed, new_request, IsCounted, call_nb-IsCounted}

handle_reply-keeps :
    {C : Type 0} (st : Session C) (r : ReplyResp C)
    → ((handle_reply st r).pending_requests ≡ (take_reply r st.pending_requests).0)
      × ((handle_reply st r).reqseq ≡ st.reqseq)
unfolding handle_reply
handle_reply-keeps st r = ground arith

module _ (api : CapsApi) (fuel : ℕ) where
  open api use {Caps}

  -- The requests are in the order of their numbers, and every callback of a call with one that was
  -- placed was run or still stands in the list, once for each such call.
  pub record IsConsistent (st : Session Caps) (cbs : List (Option ℕ)) : Type 0 where
    pub numbered : IsNumbered st.reqseq st.pending_requests
    pub accounted : (cb : ℕ) → runs cb st.events + standing cb st.pending_requests ≡ times cb cbs

  unfoldable pub owed : Option (Response Caps) → Option ℕ → Option ℕ
  owed none callback = callback
  owed (some reply) callback = none

  new_request-owed :
      (cb : ℕ) (st : Session Caps) (result : Option (Response Caps)) (callback : Option ℕ)
      → stands_once cb (new_request api st result callback) ≡ is_callback cb (owed result callback)
  unfolding owed
  new_request-owed cb st none callback = refl
  new_request-owed cb st (some reply) callback = refl

  pub counted-IsConsistent :
      (st st' : Session Caps) (cbs : List (Option ℕ)) (result : Option (Response Caps))
      (callback : Option ℕ) (r : ℤ)
      → IsConsistent st cbs
      → IsCounted api st result callback st' r
      → IsConsistent st' (if is_placed r then owed result callback ∷ cbs else cbs)
  counted-IsConsistent st st' cbs result callback r ok (events, seq, inl (unplaced, pending)) =
      rw unplaced (record {
        numbered = rw (seq, pending) (IsNumbered-suc st.reqseq st.pending_requests ok.numbered);
        accounted = λ cb. rw (events, pending) (ok.accounted cb);
      })
  counted-IsConsistent st st' cbs result callback r ok (events, seq, inr (placed, pending)) =
      let p = new_request api st result callback in
      rw placed (record {
        numbered =
            rw (seq, pending)
              (place-IsNumbered st.reqseq st.pending_requests p ok.numbered refl refl);
        accounted = λ cb. omega (
          arith,
          ok.accounted cb,
          new_request-owed cb st result callback,
          standing-append cb st.pending_requests (p ∷ []),
          ap (standing cb) pending,
          ap (runs cb) events,
        );
      })

  reply-IsConsistent :
      (st : Session Caps) (cbs : List (Option ℕ)) (r : ReplyResp Caps)
      → IsConsistent st cbs
      → IsConsistent (handle_reply st r) cbs
  reply-IsConsistent st cbs r ok = record {
    numbered =
        rw ((handle_reply-keeps st r).0, (handle_reply-keeps st r).1)
          (take_reply-IsNumbered r st.reqseq st.pending_requests ok.numbered);
    accounted = λ cb. handle_reply-balance cb st r ∙ ok.accounted cb;
  }

  pub effect-IsConsistent :
      (st st' : Session Caps) (cbs : List (Option ℕ))
      → IsConsistent st cbs
      → IsEffect api fuel st st'
      → IsConsistent st' cbs
  effect-IsConsistent st st' cbs ok (inl (pending, seq, closed, same)) = record {
    numbered = rw (pending, seq) ok.numbered;
    accounted = λ cb. omega (arith, ok.accounted cb, same cb, ap (standing cb) pending);
  }
  effect-IsConsistent st st' cbs ok (inr (r, e)) =
      subst (λ s. IsConsistent s cbs) (sym e) (reply-IsConsistent st cbs r ok)

  pub call_nb-IsConsistent :
      (takes : Bool) (st : Session Caps) (name : Option String) (msg : Option Caps)
      (target : String) (cb : Option ℕ) (timeout : ℕ) (cbs : List (Option ℕ))
      → IsConsistent st cbs
      → let (st', r) = call_nb api takes st name msg target cb timeout in
        IsConsistent st' (if is_placed r then cb ∷ cbs else cbs)
  unfolding owed
  call_nb-IsConsistent takes st name msg target cb timeout cbs ok =
      elim (call_nb-IsCounted api takes st name msg target cb timeout) [
        | inl (same, unplaced) ↦ rw unplaced (subst (λ s. IsConsistent s cbs) (sym same) ok)
        | inr counted ↦
            counted-IsConsistent st _ cbs none cb
              (call_nb api takes st name msg target cb timeout).1 ok counted
      ]

  call_round-returns :
      (timed_out : Bool) (entry : ℕ) (st st' : Session Caps) (code : ℤ) (reply : Response Caps)
      → call_round timed_out entry st ≡ returns st' code (some reply)
      → (p : PendingRequest Caps) × (find_entry entry st.pending_requests ≡ some p)
        × (p.result ≡ some reply)
        × (st'.pending_requests ≡ erase_entry entry st.pending_requests)
        × (st'.reqseq ≡ st.reqseq)
        × (st'.events ≡ st.events)
  unfolding call_round
  call_round-returns timed_out entry st st' code reply h =
      elim (Option-cases (find_entry entry st.pending_requests)) [
        | inl n ↦ absurd (ground arith)
        | inr (p, f) ↦ (p, f, ground arith, ground arith, ground arith, ground arith)
      ]

  pub wakes-IsConsistent :
      (timed_out : Bool) (entry : ℕ) (st st' : Session Caps) (cbs : List (Option ℕ)) (code : ℤ)
      (reply : Response Caps)
      → IsConsistent st cbs
      → call_round timed_out entry st ≡ returns st' code (some reply)
      → IsConsistent st' cbs
  wakes-IsConsistent timed_out entry st st' cbs code reply ok h =
      let (p, found, waits, pending, seq, events) =
        call_round-returns timed_out entry st st' code reply h in
      record {
        numbered =
            rw (pending, seq)
              (erase_entry-IsNumbered entry st.reqseq st.pending_requests ok.numbered);
        accounted = λ cb. omega (
          arith,
          ok.accounted cb,
          ap (runs cb) events,
          ap (standing cb) pending,
          erase_entry-standing cb entry st.pending_requests p reply found waits,
        );
      }

  fail_requests-keeps :
      (passive : Bool) (err : ℤ) (st st' : Session Caps)
      → fail_requests passive err st ≡ some st'
      → (st'.pending_requests ≡ waiting st.pending_requests) × (st'.reqseq ≡ st.reqseq)
  unfolding fail_requests after_callbacks
  fail_requests-keeps passive err st st' h = ground arith

  pub fails-IsConsistent :
      (passive : Bool) (err : ℤ) (st st' : Session Caps) (cbs : List (Option ℕ))
      → IsConsistent st cbs
      → fail_requests passive err st ≡ some st'
      → IsConsistent st' cbs
  fails-IsConsistent passive err st st' cbs ok h =
      let (pending, seq) = fail_requests-keeps passive err st st' h in
      record {
        numbered = rw (pending, seq) (waiting-IsNumbered st.reqseq st.pending_requests ok.numbered);
        accounted =
            λ cb. omega (arith, ok.accounted cb, fail_requests-runs cb passive err st st' h);
      }

  pub blocked-IsConsistent :
      (st : Session Caps) (cbs : List (Option ℕ)) (b : Bool)
      → IsConsistent st (if b then none ∷ cbs else cbs)
      → IsConsistent st cbs
  blocked-IsConsistent st cbs true ok = record {
    numbered = ok.numbered;
    accounted = λ cb. omega (arith, ok.accounted cb);
  }
  blocked-IsConsistent st cbs false ok = ok
