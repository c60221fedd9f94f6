-- ===== src/Agent/Histories.antt =====
-- The states that an agent reaches while nothing else runs between the connection of a client and the
-- moment at which it becomes the agent's (src/flora-agent.cc).
use flora.Base.{ℕ, ◌≡◌, refl, none, String, nat_key, string_key, int_key}
use flora.Agent.Interface.{ClientOps, ClientLaws}
use flora.Agent.State.{
  Agent, idle, connecting, new_agent, subscribe, unsubscribe, declare_method, remove_method, post,
  call, close, disconnected,
}
use flora.Agent.Run.{start, run_step}
use flora.Agent.Mirror.{IsNew}
use flora.Agent.Handlers.{
  IsMirrored, subscribe-IsMirrored, unsubscribe-IsMirrored, declare_method-IsMirrored,
  remove_method-IsMirrored,
}
use flora.Agent.Requests.{
  destroy_client-IsMirrored, post-IsMirrored, call-IsMirrored, close-IsMirrored,
  without_client-IsMirrored,
}
use flora.Agent.Steps.{connect_steps, connect_steps-IsMirrored, step_at-IsMirrored, dead}

module _ (ops : ClientOps) (laws : ClientLaws ops) where
  open laws use {IsName}

  -- The user's operations, the client's callbacks and the steps of the run thread in any order, with the
  -- three steps that make a new client the agent's as one.
  pub data Reached : Agent ops.Client → Type 0 where
    new : (clients : ℕ → ops.Client) → Reached (new_agent clients)
    starts : {st : Agent ops.Client} → Reached st → st.phase ≡ idle → Reached (start ops st)
    subscribes :
        {st : Agent ops.Client}
        → Reached st
        → (name : String) (cb : ℕ) → IsName name
        → Reached (subscribe ops name cb st)
    unsubscribes :
        {st : Agent ops.Client}
        → Reached st
        → (name : String) → IsName name
        → Reached (unsubscribe ops name st)
    declares :
        {st : Agent ops.Client}
        → Reached st
        → (name : String) (cb : ℕ) → IsName name
        → Reached (declare_method ops name cb st)
    removes :
        {st : Agent ops.Client}
        → Reached st
        → (name : String) → IsName name
        → Reached (remove_method ops name st)
    posts :
        {st : Agent ops.Client}
        → Reached st
        → (name : String) (msg : ops.Message) (msgtype : ℕ)
        → Reached (post ops name msg msgtype st).0
    calls :
        {st : Agent ops.Client}
        → Reached st
        → (name : String) (msg : ops.Message) (target : String) (timeout : ℕ)
        → Reached (call ops name msg target timeout st).0
    disconnects : {st : Agent ops.Client} → Reached st → Reached (disconnected st)
    closes : {st : Agent ops.Client} → Reached st → Reached (close ops st)
    connects :
        {st : Agent ops.Client}
        → Reached st
        → (others : ℕ → ℕ) (c : ℕ) (cl : ops.Client) → st.phase ≡ connecting
        → IsNew ops laws cl
        → Reached (connect_steps ops laws others c cl st)
    runs :
        {st : Agent ops.Client}
        → Reached st
        → (others : ℕ → ℕ) (cl : ops.Client) → Reached (run_step ops others none cl st)

  -- In every state that an agent reaches, with names that the service accepts and nothing between the
  -- connection of a client and the moment at which it becomes the agent's, the service has the agent's
  -- client, if there is one and no request of it that names something has failed, subscribed to exactly
  -- the names of the post handlers, and its methods are exactly the names of the call handlers.
  pub Reached-IsMirrored : (st : Agent ops.Client) → Reached st → IsMirrored ops laws st
  unfolding new_agent start disconnected run_step
  Reached-IsMirrored st (new clients) =
      without_client-IsMirrored ops laws (new_agent clients) refl refl tt (tt, tt)
  Reached-IsMirrored st' (starts {st} before e) =
      let ok = Reached-IsMirrored st before in
      record {
        posts_named = ok.posts_named;
        calls_named = ok.calls_named;
        settled = refl;
        live = λ c i. absurd (dead ops laws st idle c ok e refl i);
      }
  Reached-IsMirrored st' (subscribes {st} before name cb named) =
      subscribe-IsMirrored ops laws name cb st named (Reached-IsMirrored st before)
  Reached-IsMirrored st' (unsubscribes {st} before name named) =
      unsubscribe-IsMirrored ops laws name st named (Reached-IsMirrored st before)
  Reached-IsMirrored st' (declares {st} before name cb named) =
      declare_method-IsMirrored ops laws name cb st named (Reached-IsMirrored st before)
  Reached-IsMirrored st' (removes {st} before name named) =
      remove_method-IsMirrored ops laws name st named (Reached-IsMirrored st before)
  Reached-IsMirrored st' (posts {st} before name msg msgtype) =
      post-IsMirrored ops laws name msg msgtype st (Reached-IsMirrored st before)
  Reached-IsMirrored st' (calls {st} before name msg target timeout) =
      call-IsMirrored ops laws name msg target timeout st (Reached-IsMirrored st before)
  Reached-IsMirrored st' (disconnects {st} before) =
      destroy_client-IsMirrored ops laws st (Reached-IsMirrored st before)
  Reached-IsMirrored st' (closes {st} before) =
      close-IsMirrored ops laws st (Reached-IsMirrored st before)
  Reached-IsMirrored st' (connects {st} before others c cl e fresh) =
      connect_steps-IsMirrored ops laws others c cl st e fresh (Reached-IsMirrored st before)
  Reached-IsMirrored st' (runs {st} before others cl) =
      step_at-IsMirrored ops laws st.phase others cl st refl (Reached-IsMirrored st before)
