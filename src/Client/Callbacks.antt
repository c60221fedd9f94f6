-- ===== src/Client/Callbacks.antt =====
-- How often the callback of a call is run, and how often it stands in the list (src/cli.cc).
use flora.Base.{
  ℕ, ◌+◌, ◌≡◌, refl, ◌∙◌, inl, inr, Bool, List, [], ◌∷◌, ◌++◌, Option, none, some, ℤ, if◌then◌else◌,
  ◌==◌, nat_key, arith, Option-cases,
}
use flora.Message.Data.{ReplyResp, Response}
use flora.Client.State.{
  Session, PendingRequest, Event, call_returned, disconnected, monitor_disconnected,
}
use flora.Client.Handlers.{take_reply, answer, handle_reply, response_of, call_back}
use flora.Client.Receive.{
  callbacks, waiting, call_back_all, after_callbacks, fail_requests, tell_disconnected,
}
use flora.Client.Calls.{find_entry, erase_entry}

module _ (cb : ℕ) where
  abbrev pub is_callback : Option ℕ → ℕ
  is_callback none = 0
  is_callback (some c) = if c == cb then 1 else 0

  abbrev pub times : List (Option ℕ) → ℕ
  times [] = 0
  times (o ∷ os) = is_callback o + times os

module _ {C : Type 0} (cb : ℕ) where
  abbrev pub stands_once : PendingRequest C → ℕ
  stands_once p = elim p.result [ none ↦ is_callback cb p.callback | some reply ↦ 0 ]

  -- The requests that will run the callback.
  abbrev pub standing : List (PendingRequest C) → ℕ
  standing [] = 0
  standing (p ∷ ps) = stands_once p + standing ps

  abbrev pub runs_once : Event C → ℕ
  runs_once (call_returned c code response) = if c == cb then 1 else 0
  runs_once e = 0

  -- The times that the callback was run.
  abbrev pub runs : List (Event C) → ℕ
  runs [] = 0
  runs (e ∷ es) = runs_once e + runs es

  pub runs-append : (es fs : List (Event C)) → runs (es ++ fs) ≡ runs es + runs fs
  runs-append [] fs = omega arith
  runs-append (e ∷ es) fs = omega (arith, runs-append es fs)

  pub standing-append :
      (ps qs : List (PendingRequest C)) → standing (ps ++ qs) ≡ standing ps + standing qs
  standing-append [] qs = omega arith
  standing-append (p ∷ ps) qs = omega (arith, standing-append ps qs)

  pub take_reply-standing :
      (r : ReplyResp C) (ps : List (PendingRequest C))
      → standing (take_reply r ps).0 + is_callback cb (take_reply r ps).1 ≡ standing ps
  unfolding take_reply answer
  take_reply-standing r [] = refl
  take_reply-standing r (p ∷ ps) = ground (arith, take_reply-standing r ps)

  pub waiting-standing : (ps : List (PendingRequest C)) → standing (waiting ps) ≡ 0
  waiting-standing [] = refl
  waiting-standing (p ∷ ps) = ground (arith, waiting-standing ps)

  pub callbacks-times : (ps : List (PendingRequest C)) → times cb (callbacks ps) ≡ standing ps
  callbacks-times [] = refl
  callbacks-times (p ∷ ps) = ground (arith, callbacks-times ps)

  pub call_back_all-runs :
      (err : ℤ) (cbs : List (Option ℕ)) (es es' : List (Event C))
      → call_back_all err cbs es ≡ some es'
      → runs es' ≡ runs es + times cb cbs
  unfolding call_back_all
  call_back_all-runs err [] es es' h = ground arith
  call_back_all-runs err (none ∷ cbs) es es' h = absurd (ground arith)
  call_back_all-runs err (some c ∷ cbs) es es' h =
      omega (arith, call_back_all-runs err cbs _ es' h, runs-append es (call_returned c err _ ∷ []))

  pub erase_entry-standing :
      (e : ℕ) (ps : List (PendingRequest C)) (p : PendingRequest C) (reply : Response C)
      → find_entry e ps ≡ some p
      → p.result ≡ some reply
      → standing (erase_entry e ps) ≡ standing ps
  erase_entry-standing e [] p reply f s = absurd (ground arith)
  erase_entry-standing e (q ∷ ps) p reply f s = ground (arith, erase_entry-standing e ps p reply)

  -- The callbacks that were run and those that stand in the list.
  abbrev pub balance : Session C → ℕ
  balance st = runs st.events + standing st.pending_requests

  call_back-balance :
      (st : Session C) (o : Option ℕ) (code : ℤ) (response : Response C)
      → balance (call_back st o code response) ≡ balance st + is_callback cb o
  call_back-balance st none code response = omega arith
  call_back-balance st (some c) code response =
      omega (arith, runs-append st.events (call_returned c code response ∷ []))

  -- A reply moves its request's callback from the list to the callbacks that were run.
  pub handle_reply-balance :
      (st : Session C) (r : ReplyResp C) → balance (handle_reply st r) ≡ balance st
  unfolding handle_reply
  handle_reply-balance st r =
      let taken = take_reply r st.pending_requests in
      call_back-balance (record st { tag = r.tag; pending_requests = taken.0 }) taken.1 r.rescode
        (response_of r)
      ∙ omega (arith, take_reply-standing r st.pending_requests)

  tell_disconnected-runs :
      (passive : Bool) (st : Session C)
      → (runs (tell_disconnected passive st).events ≡ runs st.events)
        × ((tell_disconnected passive st).pending_requests ≡ st.pending_requests)
  tell_disconnected-runs passive st = ground (
    arith,
    runs-append st.events (disconnected ∷ []),
    runs-append st.events (monitor_disconnected ∷ []),
    runs-append (st.events ++ disconnected ∷ []) (monitor_disconnected ∷ []),
  )

  -- When the requests are failed, every callback that stands in the list is run as often as it stands
  -- there, and leaves it.
  pub fail_requests-runs :
      (passive : Bool) (err : ℤ) (st st' : Session C)
      → fail_requests passive err st ≡ some st'
      → (runs st'.events ≡ runs st.events + standing st.pending_requests)
        × (standing st'.pending_requests ≡ 0)
  unfolding fail_requests after_callbacks
  fail_requests-runs passive err st st' h =
      elim (Option-cases (call_back_all err (callbacks st.pending_requests) st.events)) [
        | inl n ↦ absurd (ground arith)
        | inr (es, s) ↦
            let told : tell_disconnected passive (record st {
              close_reason = err;
              pending_requests = waiting st.pending_requests;
              events = es;
            })
                ≡ st' =
              ground arith in
            ground (
              arith,
              call_back_all-runs err (callbacks st.pending_requests) st.events es s,
              callbacks-times st.pending_requests,
              waiting-standing st.pending_requests,
              tell_disconnected-runs passive (record st {
                close_reason = err;
                pending_requests = waiting st.pending_requests;
                events = es;
              }),
            )
      ]
