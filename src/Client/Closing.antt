-- ===== src/Client/Closing.antt =====
-- The end of a connection: the callbacks and the blocked callers (src/cli.cc).
use flora.Base.{
  ℕ, ◌≡◌, refl, ap, true, false, Bool, List, [], ◌∷◌, ◌++◌, All, Option, none, some, ℤ, pos,
  if◌then◌else◌, ◌==◌, int_key, nat_key, arith, ◌∙◌, Bool-cases, Option-cases, inl, inr,
}
use flora.Caps.{CapsApi}
use flora.Protocol.{cli_success, cli_etimeout}
use flora.Message.Data.{Response}
use flora.Client.State.{Session, PendingRequest, Event, call_returned, no_response}
use flora.Client.Receive.{
  callbacks, waiting, call_back_all, after_callbacks, fail_requests, tell_disconnected,
  close_connection,
}
use flora.Client.Calls.{find_entry, erase_entry, call_round, returns}
use flora.Client.Callbacks.{runs, times, fail_requests-runs}
use flora.Client.Consistent.{IsConsistent}
use flora.Client.Histories.{Reached, Reached-IsConsistent}

module _ {C : Type 0} where
  call_back_all-total :
      (err : ℤ) (cbs : List (Option ℕ)) (es : List (Event C))
      → All (λ o. (cb : ℕ) × (o ≡ some cb)) cbs
      → (es' : List (Event C)) × (call_back_all err cbs es ≡ some es')
  unfolding call_back_all
  call_back_all-total err [] es h = (es, refl)
  call_back_all-total err (none ∷ cbs) es h = absurd (ground arith)
  call_back_all-total err (some cb ∷ cbs) es h =
      call_back_all-total err cbs (es ++ call_returned cb err no_response ∷ []) h.1

  fail_requests-total :
      (passive : Bool) (err : ℤ) (st : Session C)
      → All (λ o. (cb : ℕ) × (o ≡ some cb)) (callbacks st.pending_requests)
      → (st' : Session C) × (fail_requests passive err st ≡ some st')
  unfolding fail_requests after_callbacks
  fail_requests-total passive err st h =
      let (es, s) = call_back_all-total err (callbacks st.pending_requests) st.events h in
      let failed : Session C = record st {
        close_reason = err;
        pending_requests = waiting st.pending_requests;
      } in
      (
        tell_disconnected passive (record failed { events = es }),
        ap (after_callbacks passive failed) s,
      )

  -- Callers that have returned.
  abbrev pub erase_all : List ℕ → List (PendingRequest C) → List (PendingRequest C)
  erase_all [] ps = ps
  erase_all (entry ∷ entries) ps = erase_all entries (erase_entry entry ps)

  find_entry-erase :
      (entry other : ℕ) (ps : List (PendingRequest C))
      → (other == entry) ≡ false
      → find_entry entry (erase_entry other ps) ≡ find_entry entry ps
  find_entry-erase entry other [] differs = refl
  find_entry-erase entry other (p ∷ ps) differs = ground (
    arith,
    nat_key.equal_iff p.entry other,
    nat_key.equal_iff p.entry entry,
    nat_key.equal_iff other entry,
    find_entry-erase entry other ps differs,
  )

  find_entry-erase_all :
      (entry : ℕ) (others : List ℕ) (ps : List (PendingRequest C))
      → All (λ o. (o == entry) ≡ false) others
      → find_entry entry (erase_all others ps) ≡ find_entry entry ps
  find_entry-erase_all entry [] ps h = refl
  find_entry-erase_all entry (o ∷ others) ps h =
      find_entry-erase_all entry others (erase_entry o ps) h.1 ∙ find_entry-erase entry o ps h.0

  find_entry-waiting :
      (entry : ℕ) (ps : List (PendingRequest C)) (p : PendingRequest C) (reply : Response C)
      → find_entry entry ps ≡ some p
      → p.result ≡ some reply
      → find_entry entry (waiting ps) ≡ some p
  find_entry-waiting entry [] p reply f e = f
  find_entry-waiting entry (q ∷ ps) p reply f e = elim (Bool-cases (q.entry == entry)) [
    | inl same ↦
        let first : q ≡ p = ground (arith, f, same) in
        rw (ap (λ x. x.result) first ∙ e, same) (ap some first)
    | inr other ↦
        let rest : find_entry entry ps ≡ some p = ground (arith, f, other) in
        elim (Option-cases q.result) [
          | inl n ↦ rw n (find_entry-waiting entry ps p reply rest e)
          | inr (r, k) ↦ rw (k, other) (find_entry-waiting entry ps p reply rest e)
        ]
  ]

  fail_requests-closed :
      (passive : Bool) (err : ℤ) (st st' : Session C)
      → fail_requests passive err st ≡ some st'
      → (st'.pending_requests ≡ waiting st.pending_requests)
        × (st'.close_reason ≡ err)
        × (st'.closed ≡ st.closed)
  unfolding fail_requests after_callbacks
  fail_requests-closed passive err st st' h = ground arith

  -- Every caller that is blocked on a client whose connection is closed and whose callbacks are not
  -- empty returns once it has the mutex after the closing, whichever other callers have returned
  -- before: with the result of its reply if that has come, with the reason of the closing if not, or
  -- with its timeout if its wait ended so.
  pub closed-call_round :
      (passive timed_out : Bool) (err : ℤ) (entry : ℕ) (others : List ℕ) (st : Session C)
      (p : PendingRequest C) (reply : Response C)
      → All (λ o. (cb : ℕ) × (o ≡ some cb)) (callbacks st.pending_requests)
      → find_entry entry st.pending_requests ≡ some p
      → p.result ≡ some reply
      → All (λ o. (o == entry) ≡ false) others
      → (st' later : Session C) × (fail_requests passive err (close_connection st) ≡ some st')
        × (call_round timed_out entry
              (record st' { pending_requests = erase_all others st'.pending_requests })
            ≡ returns later
                (if timed_out then cli_etimeout else if p.id == pos 0 then p.rcode else err)
                (some reply))
  unfolding call_round
  closed-call_round passive timed_out err entry others st p reply full found waits differ =
      let (st', e) = fail_requests-total passive err (close_connection st) full in
      let (pending, reason, shut) = fail_requests-closed passive err (close_connection st) st' e in
      let there : find_entry entry (erase_all others st'.pending_requests) ≡ some p =
        find_entry-erase_all entry others st'.pending_requests differ
        ∙ ap (find_entry entry) pending
        ∙ find_entry-waiting entry st.pending_requests p reply found waits in
      (
        st',
        record st' { pending_requests = erase_entry entry (erase_all others st'.pending_requests) },
        e,
        ground (arith, there, reason, shut, waits),
      )

  -- A blocked caller without a reply, whose wait has not timed out, on a client whose callbacks are
  -- not empty and whose connection fails for the first time: if it has the mutex between the
  -- shutting of the connection and the failing of the requests, it returns success with the response
  -- that it passed in; if it has it afterwards, it returns the reason of the closing.
  pub shut-call_round :
      (passive : Bool) (err : ℤ) (entry : ℕ) (st : Session C) (p : PendingRequest C)
      (reply : Response C)
      → All (λ o. (cb : ℕ) × (o ≡ some cb)) (callbacks st.pending_requests)
      → st.close_reason ≡ pos 0
      → find_entry entry st.pending_requests ≡ some p
      → p.result ≡ some reply
      → (p.id == pos 0) ≡ false
      → (early st' late : Session C) × (call_round false entry (close_connection st)
          ≡ returns early cli_success (some reply))
        × (fail_requests passive err (close_connection st) ≡ some st')
        × (call_round false entry st' ≡ returns late err (some reply))
  unfolding call_round
  shut-call_round passive err entry st p reply full reason found waits open_request =
      let (st', late, e, after) =
        closed-call_round passive false err entry [] st p reply full found waits tt in
      (
        record st { closed = true; pending_requests = erase_entry entry st.pending_requests },
        st',
        late,
        ground (arith, found, reason, waits, open_request),
        e,
        after ∙ ap (λ b. returns late (if b then p.rcode else err) (some reply)) open_request,
      )

module _ (api : CapsApi) (fuel : ℕ) where
  -- When the requests of a client are failed, in any state that it reaches and with callbacks that
  -- are not empty, the closing ends, and then the callback of every call with one that was placed
  -- was run once for each such call.
  pub fail_requests-times :
      (passive : Bool) (err : ℤ) (st : Session api.Caps) (cbs : List (Option ℕ))
      → Reached api fuel st cbs
      → All (λ o. (cb : ℕ) × (o ≡ some cb)) (callbacks st.pending_requests)
      → (st' : Session api.Caps) × (fail_requests passive err st ≡ some st')
        × ((cb : ℕ) → runs cb st'.events ≡ times cb cbs)
  fail_requests-times passive err st cbs reached full =
      let (st', e) = fail_requests-total passive err st full in
      let ok : IsConsistent api fuel st cbs = Reached-IsConsistent api fuel st cbs reached in
      (st', e, λ cb. omega (arith, fail_requests-runs cb passive err st st' e, ok.accounted cb))
