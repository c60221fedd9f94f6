-- ===== src/Agent/Requests.antt =====
-- What the agent asks of its client leaves the handlers' view alone (src/flora-agent.cc).
use flora.Base.{
  ℕ, ◌≡◌, refl, sym, ap, ◌∙◌, inl, inr, Bool, true, false, All, Option, none, some, String, ◌==◌,
  nat_key, string_key, ℤ, int_key, arith, subst, Option-cases, Bool-cases,
}
use flora.Protocol.{cli_econn}
use flora.Agent.Interface.{ClientOps, ClientLaws}
use flora.Agent.State.{
  Agent, Phase, idle, connecting, retrying, waiting, woken, cleaning, ended, connected, initialized,
  update, destroy_client, notified, after_request, post, call, close, close_client,
}
use flora.Agent.Run.{names}
use flora.Agent.Mirror.{Mirrors, IsCalls}
use flora.Agent.Handlers.{is_in_use, is_between, IsMirrored, update-same}

still_settled : (p : Phase) → is_between p ≡ false → is_between (notified p) ≡ false
still_settled idle h = refl
still_settled connecting h = refl
still_settled retrying h = refl
still_settled waiting h = refl
still_settled woken h = refl
still_settled cleaning h = refl
still_settled ended h = refl
still_settled (connected c) h = h
still_settled (initialized c) h = h

module _ (ops : ClientOps) (laws : ClientLaws ops) where
  open laws use {IsName}

  pub destroy_client-IsMirrored :
      (st : Agent ops.Client) → IsMirrored ops laws st → IsMirrored ops laws (destroy_client st)
  unfolding destroy_client
  destroy_client-IsMirrored st ok = record {
    posts_named = ok.posts_named;
    calls_named = ok.calls_named;
    settled = still_settled st.phase ok.settled;
    live = λ c e. let (used, mirrors) = ok.live c e in (still_used st.phase used, mirrors);
  }
    where
      still_used : (p : Phase) → is_in_use p ≡ true → is_in_use (notified p) ≡ true
      still_used idle h = h
      still_used connecting h = h
      still_used retrying h = h
      still_used waiting h = refl
      still_used woken h = refl
      still_used cleaning h = h
      still_used ended h = h
      still_used (connected c) h = h
      still_used (initialized c) h = h

  -- A request of the client that leaves the service's view of it alone.
  after_request-IsMirrored :
      (st : Agent ops.Client) (c : ℕ) (p : ops.Client × ℤ)
      → IsMirrored ops laws st
      → st.flora_cli ≡ some c
      → (laws.has_failed p.0 ≡ false
          → (laws.has_failed (st.clients c) ≡ false)
            × ((posts calls : String → Bool)
                → laws.Knows (st.clients c) posts calls
                → laws.Knows p.0 posts calls))
      → IsMirrored ops laws (after_request st c p).0
  after_request-IsMirrored st c (cl, r) ok e keeps =
      let st' : Agent ops.Client = record st { clients = update c (λ d. cl) st.clients } in
      let ok' : IsMirrored ops laws st' = record {
        posts_named = ok.posts_named;
        calls_named = ok.calls_named;
        settled = ok.settled;
        live = λ d i.
            let (used, mirrors) = ok.live c e in
            (
              used,
              subst (λ k. Mirrors ops laws k st.post_handlers st.call_handlers)
                  (sym (update-same ops laws c (λ j. cl) st.clients)
                    ∙ ap st'.clients (same_client c d (sym e ∙ i)))
                  (λ fine. let (before, same) = keeps fine in same _ _ (mirrors before)),
            );
      } in
      elim (Bool-cases (r == cli_econn)) [
        | inl lost ↦ rw lost (destroy_client-IsMirrored st' ok')
        | inr fine ↦ rw fine ok'
      ]
    where
      same_client : (d c : ℕ) → ◌≡◌ {A = Option ℕ} (some d) (some c) → d ≡ c
      same_client d c e = ground arith

  pub post-IsMirrored :
      (name : String) (msg : ops.Message) (msgtype : ℕ) (st : Agent ops.Client)
      → IsMirrored ops laws st
      → IsMirrored ops laws (post ops name msg msgtype st).0
  unfolding post
  post-IsMirrored name msg msgtype st ok = elim (Option-cases st.flora_cli) [
    | inl n ↦ subst (λ p. IsMirrored ops laws p.0) (sym (alone n)) ok
    | inr (c, e) ↦
        subst (λ p. IsMirrored ops laws p.0) (sym (asked c e))
          (after_request-IsMirrored st c (ops.post name msg msgtype (st.clients c)) ok e
            (laws.post_lem name msg msgtype (st.clients c)))
  ]
    where
      alone : st.flora_cli ≡ none → post ops name msg msgtype st ≡ (st, cli_econn)
      alone n = ground arith

      asked :
          (c : ℕ)
          → st.flora_cli ≡ some c
          → post ops name msg msgtype st
            ≡ after_request st c (ops.post name msg msgtype (st.clients c))
      asked c e =
          ap
            (λ o. elim o [
              | none ↦ (st, cli_econn)
              | some d ↦ after_request st d (ops.post name msg msgtype (st.clients d))
            ])
            e

  pub call-IsMirrored :
      (name : String) (msg : ops.Message) (target : String) (timeout : ℕ) (st : Agent ops.Client)
      → IsMirrored ops laws st
      → IsMirrored ops laws (call ops name msg target timeout st).0
  unfolding call
  call-IsMirrored name msg target timeout st ok = elim (Option-cases st.flora_cli) [
    | inl n ↦ subst (λ p. IsMirrored ops laws p.0) (sym (alone n)) ok
    | inr (c, e) ↦
        subst (λ p. IsMirrored ops laws p.0) (sym (asked c e))
          (after_request-IsMirrored st c (ops.call name msg target timeout (st.clients c)) ok e
            (laws.call_lem name msg target timeout (st.clients c)))
  ]
    where
      alone : st.flora_cli ≡ none → call ops name msg target timeout st ≡ (st, cli_econn)
      alone n = ground arith

      asked :
          (c : ℕ)
          → st.flora_cli ≡ some c
          → call ops name msg target timeout st
            ≡ after_request st c (ops.call name msg target timeout (st.clients c))
      asked c e =
          ap
            (λ o. elim o [
              | none ↦ (st, cli_econn)
              | some d ↦ after_request st d (ops.call name msg target timeout (st.clients d))
            ])
            e

  -- Nothing is known of an agent that has no client.
  pub without_client-IsMirrored :
      (st : Agent ops.Client)
      → st.flora_cli ≡ none
      → is_between st.phase ≡ false
      → All IsName (names st.post_handlers)
      → IsCalls ops laws st.call_handlers
      → IsMirrored ops laws st
  without_client-IsMirrored st n settled posts_named calls_named = record {
    posts_named = posts_named;
    calls_named = calls_named;
    settled = settled;
    live = λ c e. absurd (no_client c (sym n ∙ e));
  }
    where
      no_client : (c : ℕ) → ◌≡◌ {A = Option ℕ} none (some c) → ⊥
      no_client c e = ground arith

  closed-IsMirrored :
      (o : Option ℕ) (st : Agent ops.Client)
      → st.flora_cli ≡ none
      → is_between st.phase ≡ false
      → All IsName (names st.post_handlers)
      → IsCalls ops laws st.call_handlers
      → IsMirrored ops laws (close_client ops o st)
  closed-IsMirrored none st n settled posts calls =
      without_client-IsMirrored st n settled posts calls
  closed-IsMirrored (some c) st n settled posts calls =
      without_client-IsMirrored (record st { clients = update c ops.close st.clients }) n settled
        posts calls

  pub close-IsMirrored :
      (st : Agent ops.Client) → IsMirrored ops laws st → IsMirrored ops laws (close ops st)
  unfolding close destroy_client
  close-IsMirrored st ok = elim (Bool-cases st.working) [
    | inl working ↦
        rw (close, working)
          (closed-IsMirrored st.flora_cli _ refl (still_settled st.phase ok.settled) tt (tt, tt))
    | inr idles ↦ simp (close, idles) ok
  ]
