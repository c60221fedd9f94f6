-- ===== src/Agent/Races.antt =====
-- What happens when other threads run between two steps of the run thread, and the list of old clients
-- (src/flora-agent.cc).
use flora.Base.{
  ℕ, ◌≤◌, ◌≡◌, sym, ap, ◌∙◌, true, false, List, [], ◌∷◌, ◌++◌, none, some, String, lookup, insert,
  lookup-insert, string_key, nat_key, ==-refl, ◌==◌, if◌then◌else◌, arith, append_assoc, append-nil,
}
use flora.Agent.Interface.{ClientOps, ClientLaws}
use flora.Agent.State.{
  Agent, waiting, connecting, initialized, subscribe, recv_post, close, close_client,
  destroy_client, notified, on_client, update,
}
use flora.Agent.Run.{run_step, step_at, clean_gabages, clean_from, use_count, counted}
use flora.Agent.Steps.{connect_steps, connect_steps-fields}

module _ (ops : ClientOps) (others : ℕ → ℕ) where
  open ops use {Client}

  -- A name that gets its first handler when the new client has been told of the others but is not
  -- the agent's yet, and the agent has no client, is not asked of any client: the agent ends up with
  -- the new client as it was, and the handler.
  pub subscribe-between :
      (name : String) (cb c : ℕ) (cl : Client) (st : Agent Client)
      → st.phase ≡ initialized c
      → st.flora_cli ≡ none
      → lookup name st.post_handlers ≡ none
      → let st' = run_step ops others none cl (subscribe ops name cb st) in
        (st'.flora_cli ≡ some c)
        × (st'.clients ≡ st.clients)
        × (recv_post st' name ≡ some cb)
        × (st'.phase ≡ waiting)
  unfolding run_step step_at subscribe recv_post
  subscribe-between name cb c cl st e alone first =
      let st' : Agent Client = record st { post_handlers = insert name cb st.post_handlers } in
      let kept : subscribe ops name cb st ≡ st' =
        ap (λ o. elim o [ none ↦ on_client (ops.subscribe name) st' | some held ↦ st' ]) first
        ∙ ap
            (λ o. elim o [
              | none ↦ st'
              | some d ↦ record st' { clients = update d (ops.subscribe name) st.clients }
            ])
            alone in
      let end : run_step ops others none cl (subscribe ops name cb st)
          ≡ record st' { phase = waiting; flora_cli = some c; gabages = st.gabages ++ c ∷ [] } =
        ap (run_step ops others none cl) kept ∙ ap (λ p. step_at ops p others none cl st') e in
      (
        ap (λ s. s.flora_cli) end,
        ap (λ s. s.clients) end,
        ap (λ s. recv_post s name) end
            ∙ lookup-insert name name cb st.post_handlers
            ∙ rw (==-refl name, first),
        ap (λ s. s.phase) end,
      )

  -- An agent that works, has no client and is closed while its thread connects one gets that client
  -- all the same, and its thread is blocked: the agent does not work any more, and no step of the
  -- thread's own changes anything.
  pub close-connecting :
      (laws : ClientLaws ops) (c : ℕ) (cl cl' : Client) (st : Agent Client)
      → st.phase ≡ connecting
      → st.working ≡ true
      → st.flora_cli ≡ none
      → let st' = connect_steps ops laws others c cl (close ops st) in
        (st'.working ≡ false) × (st'.flora_cli ≡ some c) × (run_step ops others none cl' st' ≡ st')
  unfolding close destroy_client run_step step_at
  close-connecting laws c cl cl' st e works alone =
      let done : Agent Client = record st {
        phase = notified st.phase;
        working = false;
        flora_cli = none;
        post_handlers = [];
        call_handlers = [];
      } in
      let closed : close ops st ≡ done =
        ap (λ b. if b then close_client ops st.flora_cli done else st) works
        ∙ ap (λ o. close_client ops o done) alone in
      let trying : (close ops st).phase ≡ connecting = ap (λ s. s.phase) closed ∙ ap notified e in
      let (client, waits, posts, calls, working) =
        connect_steps-fields ops laws others c cl (close ops st) trying in
      (
        working ∙ ap (λ s. s.working) closed,
        client,
        ap (λ p. step_at ops p others none cl' (connect_steps ops laws others c cl (close ops st)))
            waits,
      )

  counted-member : (c : ℕ) (kept rest : List ℕ) → 1 ≤ counted c (kept ++ c ∷ rest)
  counted-member c [] rest = ground (arith, ==-refl c)
  counted-member c (d ∷ kept) rest = ground (arith, counted-member c kept rest)

  shared :
      (st : Agent Client) (c : ℕ) (kept rest : List ℕ)
      → (use_count others st (kept ++ c ∷ rest) c == 1) ≡ false
  shared st c kept rest = ground (arith, counted-member c kept rest)

  clean_from-gabages :
      (rest kept : List ℕ) (st : Agent Client)
      → (clean_from ops others kept rest st).gabages ≡ kept ++ rest
  unfolding clean_from
  clean_from-gabages [] kept st = sym (append-nil kept)
  clean_from-gabages (c ∷ rest) kept st =
      let st' : Agent Client = record st { clients = update c ops.close st.clients } in
      ap (λ b. (clean_from ops others (if b then kept else kept ++ c ∷ []) rest st').gabages)
        (shared st' c kept rest)
      ∙ clean_from-gabages rest (kept ++ c ∷ []) st'
      ∙ append_assoc kept (c ∷ []) rest

  -- Cleaning the list of old clients leaves it as it is, whatever other pointers there are to them:
  -- when a client's pointers are counted, the variable of the loop holds it and the list does, so
  -- the count is not 1.
  pub clean_gabages-gabages :
      (st : Agent Client) → (clean_gabages ops others st).gabages ≡ st.gabages
  unfolding clean_gabages
  clean_gabages-gabages st = clean_from-gabages st.gabages [] st
