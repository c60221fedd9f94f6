-- ===== src/Agent/Reconnect.antt =====
-- A connection that is lost is made again (src/flora-agent.cc).
use flora.Base.{ℕ, ◌≡◌, ap, ◌∙◌, true, [], none, some, string_key, if◌then◌else◌}
use flora.Agent.Interface.{ClientOps, ClientLaws}
use flora.Agent.State.{
  Agent, waiting, cleaning, connecting, ended, disconnected, destroy_client, notified,
}
use flora.Agent.Run.{run_step, step_at, clean_gabages}
use flora.Agent.Mirror.{has, Mirrors, IsNew, Knows-same}
use flora.Agent.Handlers.{IsMirrored}
use flora.Agent.Steps.{connect_steps, connect_steps-fields, clean_from-keeps}
use flora.Agent.Histories.{Reached, disconnects, runs, connects, Reached-IsMirrored}

module _ (ops : ClientOps) (laws : ClientLaws ops) (others : ℕ → ℕ) where
  -- The steps from a lost connection to the next attempt.
  abbrev pub lose_steps : ops.Client → Agent ops.Client → Agent ops.Client
  lose_steps cl st = run_step ops others none cl (run_step ops others none cl (disconnected st))

  lose_steps-connecting :
      (cl : ops.Client) (st : Agent ops.Client)
      → st.phase ≡ waiting
      → st.working ≡ true
      → ((lose_steps cl st).phase ≡ connecting)
        × ((lose_steps cl st).post_handlers ≡ st.post_handlers)
        × ((lose_steps cl st).call_handlers ≡ st.call_handlers)
  unfolding run_step step_at disconnected destroy_client clean_gabages
  lose_steps-connecting cl st e works =
      let reset : Agent ops.Client = record st { phase = cleaning; flora_cli = none } in
      let cleaned = clean_gabages ops others reset in
      let end : lose_steps cl st
          ≡ record cleaned { phase = if st.working then connecting else ended } =
        ap
          (λ p.
            run_step ops others none cl
              (run_step ops others none cl (record st { phase = notified p })))
          e in
      let (client, posts, calls, working) = clean_from-keeps ops laws others st.gabages [] reset in
      (
        ap (λ s. s.phase) end ∙ ap (λ b. if b then connecting else ended) works,
        ap (λ s. s.post_handlers) end ∙ posts,
        ap (λ s. s.call_handlers) end ∙ calls,
      )

  -- An agent that was started and waits, in a state that it reaches, and whose connection is lost, tries
  -- to connect again; if that succeeds, it has the new client, and unless a request of that fails the
  -- service has it subscribed to exactly the names of the agent's post handlers, and its methods are
  -- exactly the names of the call handlers, as they were before.
  pub disconnected-Mirrors :
      (cl cl' : ops.Client) (c : ℕ) (st : Agent ops.Client)
      → Reached ops laws st
      → st.phase ≡ waiting
      → st.working ≡ true
      → IsNew ops laws cl'
      → let st' = connect_steps ops laws others c cl' (lose_steps cl st) in
        (st'.flora_cli ≡ some c)
        × (st'.phase ≡ waiting)
        × Mirrors ops laws (st'.clients c) st.post_handlers st.call_handlers
  disconnected-Mirrors cl cl' c st reached e works fresh =
      let (trying, posts, calls) = lose_steps-connecting cl st e works in
      let lost = lose_steps cl st in
      let ok : IsMirrored ops laws (connect_steps ops laws others c cl' lost) =
        Reached-IsMirrored ops laws _ (
          connects (runs (runs (disconnects reached) others cl) others cl) others c cl' trying
            fresh) in
      let (client, waits, posts', calls', working) =
        connect_steps-fields ops laws others c cl' lost trying in
      let (used, mirrors) = ok.live c client in
      (
        client,
        waits,
        λ fine.
            Knows-same ops laws _ _ _ _ _ (λ m. ap (has m) (posts' ∙ posts))
              (λ m. ap (has m) (calls' ∙ calls)) (mirrors fine),
      )
