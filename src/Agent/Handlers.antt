-- ===== src/Agent/Handlers.antt =====
-- The operations on the agent's handlers keep the service's view of them (src/flora-agent.cc).
use flora.Base.{
  ℕ, ◌≡◌, refl, sym, ap, ◌∙◌, inl, inr, Bool, true, false, List, All, Option, none, some, String,
  if◌then◌else◌, nat_key, string_key, ==-refl, lookup, insert, erase, int_key, arith, subst,
  Option-cases,
}
use flora.Agent.Interface.{ClientOps, ClientLaws}
use flora.Agent.State.{
  Agent, Phase, idle, connecting, retrying, waiting, woken, cleaning, ended, connected, initialized,
  update, on_client, subscribe, unsubscribe, declare_method, remove_method,
}
use flora.Agent.Run.{names}
use flora.Agent.Mirror.{
  has, held-insert, names-insert, names-erase, Mirrors, Knows-same, IsCalls, insert-IsCalls,
  erase-IsCalls, subscribe-Mirrors, unsubscribe-Mirrors, declare_method-Mirrors,
  remove_method-Mirrors,
}

-- A thread that has an agent's client waits, or has been woken.
abbrev pub is_in_use : Phase → Bool
is_in_use waiting = true
is_in_use woken = true
is_in_use idle = false
is_in_use connecting = false
is_in_use retrying = false
is_in_use cleaning = false
is_in_use ended = false
is_in_use (connected c) = false
is_in_use (initialized c) = false

abbrev pub is_between : Phase → Bool
is_between (connected c) = true
is_between (initialized c) = true
is_between waiting = false
is_between woken = false
is_between idle = false
is_between connecting = false
is_between retrying = false
is_between cleaning = false
is_between ended = false

module _ (ops : ClientOps) (laws : ClientLaws ops) where
  open laws use {IsName}

  -- If the agent has a client, the service knows exactly the agent's handlers, unless one of the
  -- client's requests failed.
  pub record IsMirrored (st : Agent ops.Client) : Type 0 where
    pub posts_named : All IsName (names st.post_handlers)
    pub calls_named : IsCalls ops laws st.call_handlers
    pub settled : is_between st.phase ≡ false
    pub live :
        (c : ℕ)
        → st.flora_cli ≡ some c
        → (is_in_use st.phase ≡ true)
          × Mirrors ops laws (st.clients c) st.post_handlers st.call_handlers

  pub update-same :
      (c : ℕ) (f : ops.Client → ops.Client) (clients : ℕ → ops.Client)
      → update c f clients c ≡ f (clients c)
  update-same c f clients = ap (λ b. if b then f (clients c) else clients c) (==-refl c)

  -- A request on the agent's client, with the handlers that it is about.
  pub on_client-IsMirrored :
      (f : ops.Client → ops.Client) (st : Agent ops.Client) (posts calls : List (String × ℕ))
      → IsMirrored st
      → All IsName (names posts)
      → IsCalls ops laws calls
      → ((cl : ops.Client)
          → Mirrors ops laws cl st.post_handlers st.call_handlers
          → Mirrors ops laws (f cl) posts calls)
      → IsMirrored (on_client f (record st { post_handlers = posts; call_handlers = calls }))
  on_client-IsMirrored f st posts calls ok posts_named calls_named keeps =
      let st' : Agent ops.Client = record st { post_handlers = posts; call_handlers = calls } in
      elim (Option-cases st.flora_cli) [
        | inl n ↦
            let same : on_client f st' ≡ st' =
              ap
                (λ o. elim o [
                  | none ↦ st'
                  | some c ↦ record st' { clients = update c f st.clients }
                ])
                n in
            subst IsMirrored (sym same) (record {
              posts_named = posts_named;
              calls_named = calls_named;
              settled = ok.settled;
              live = λ c e. absurd (no_client c (sym n ∙ e));
            })
        | inr (c, e) ↦
            let asked : on_client f st' ≡ record st' { clients = update c f st.clients } =
              ap
                (λ o. elim o [
                  | none ↦ st'
                  | some d ↦ record st' { clients = update d f st.clients }
                ])
                e in
            subst IsMirrored (sym asked) (record {
              posts_named = posts_named;
              calls_named = calls_named;
              settled = ok.settled;
              live = λ d i. (
                (ok.live d i).0,
                subst (λ cl. Mirrors ops laws cl posts calls)
                    (sym (update-same d f st.clients)
                      ∙ ap (λ k. update k f st.clients d) (same_client d c (sym i ∙ e)))
                    (keeps (st.clients d) (ok.live d i).1),
              );
            })
      ]
    where
      no_client : (c : ℕ) → ◌≡◌ {A = Option ℕ} none (some c) → ⊥
      no_client c e = ground arith

      same_client : (d c : ℕ) → ◌≡◌ {A = Option ℕ} (some d) (some c) → d ≡ c
      same_client d c e = ground arith

  -- New handlers of which the service need not be told.
  keep-IsMirrored :
      (st : Agent ops.Client) (posts calls : List (String × ℕ))
      → IsMirrored st
      → All IsName (names posts)
      → IsCalls ops laws calls
      → ((m : String)
          → (has m posts ≡ has m st.post_handlers) × (has m calls ≡ has m st.call_handlers))
      → IsMirrored (record st { post_handlers = posts; call_handlers = calls })
  keep-IsMirrored st posts calls ok posts_named calls_named same = record {
    posts_named = posts_named;
    calls_named = calls_named;
    settled = ok.settled;
    live = λ c e.
        let (used, mirrors) = ok.live c e in
        (
          used,
          λ fine.
              Knows-same ops laws _ _ _ _ _ (λ m. sym (same m).0) (λ m. sym (same m).1)
                (mirrors fine),
        );
  }

  pub subscribe-IsMirrored :
      (name : String) (cb : ℕ) (st : Agent ops.Client)
      → IsName name
      → IsMirrored st
      → IsMirrored (subscribe ops name cb st)
  unfolding subscribe
  subscribe-IsMirrored name cb st named ok =
      let posts = insert name cb st.post_handlers in
      let posts_named = names-insert IsName name cb st.post_handlers named ok.posts_named in
      elim (Option-cases (lookup name st.post_handlers)) [
        | inl n ↦
            rw (subscribe, n)
              (on_client-IsMirrored (ops.subscribe name) st posts st.call_handlers ok posts_named
                ok.calls_named
                λ cl. subscribe-Mirrors ops laws name cb cl st.post_handlers st.call_handlers named)
        | inr (held, e) ↦
            rw (subscribe, e)
              (keep-IsMirrored st posts st.call_handlers ok posts_named ok.calls_named
                λ m. (held-insert name m cb held st.post_handlers e, refl))
      ]

  pub unsubscribe-IsMirrored :
      (name : String) (st : Agent ops.Client)
      → IsName name
      → IsMirrored st
      → IsMirrored (unsubscribe ops name st)
  unfolding unsubscribe
  unsubscribe-IsMirrored name st named ok = elim (Option-cases (lookup name st.post_handlers)) [
    | inl n ↦ rw (unsubscribe, n) ok
    | inr (held, e) ↦
        rw (unsubscribe, e)
          (on_client-IsMirrored (ops.unsubscribe name) st (erase name st.post_handlers)
            st.call_handlers ok (names-erase IsName name st.post_handlers ok.posts_named)
            ok.calls_named
            λ cl. unsubscribe-Mirrors ops laws name cl st.post_handlers st.call_handlers named)
  ]

  pub declare_method-IsMirrored :
      (name : String) (cb : ℕ) (st : Agent ops.Client)
      → IsName name
      → IsMirrored st
      → IsMirrored (declare_method ops name cb st)
  unfolding declare_method
  declare_method-IsMirrored name cb st named ok =
      let calls = insert name cb st.call_handlers in
      let calls_named = insert-IsCalls ops laws name cb st.call_handlers named ok.calls_named in
      elim (Option-cases (lookup name st.call_handlers)) [
        | inl n ↦
            rw (declare_method, n)
              (on_client-IsMirrored (ops.declare_method name) st st.post_handlers calls ok
                ok.posts_named calls_named
                λ cl.
                  declare_method-Mirrors ops laws name cb cl st.post_handlers st.call_handlers named
                    n)
        | inr (held, e) ↦
            rw (declare_method, e)
              (keep-IsMirrored st st.post_handlers calls ok ok.posts_named calls_named
                λ m. (refl, held-insert name m cb held st.call_handlers e))
      ]

  pub remove_method-IsMirrored :
      (name : String) (st : Agent ops.Client)
      → IsName name
      → IsMirrored st
      → IsMirrored (remove_method ops name st)
  unfolding remove_method
  remove_method-IsMirrored name st named ok = elim (Option-cases (lookup name st.call_handlers)) [
    | inl n ↦ rw (remove_method, n) ok
    | inr (held, e) ↦
        rw (remove_method, e)
          (on_client-IsMirrored (ops.remove_method name) st st.post_handlers
            (erase name st.call_handlers) ok ok.posts_named
            (erase-IsCalls ops laws name st.call_handlers ok.calls_named)
            λ cl. remove_method-Mirrors ops laws name cl st.post_handlers st.call_handlers named)
  ]
