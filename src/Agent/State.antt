-- ===== src/Agent/State.antt =====
-- The members of `Agent` and its operations (src/flora-agent.cc). Each is a step under `conn_mutex`
-- with the client's call behind it. A handler has a number.
use flora.Base.{
  ℕ, Bool, false, List, [], Option, none, some, String, ℤ, if◌then◌else◌, ◌==◌, nat_key, int_key,
  string_key, lookup, insert, erase,
}
use flora.Protocol.{cli_econn}
use flora.Agent.Interface.{ClientOps}

-- Where the run thread stands. `connected` and `initialized` hold the client that `connect` made,
-- before and after `init_cli`; `woken` has been notified and not run yet.
pub data Phase : Type 0 where
  idle connecting retrying waiting woken cleaning ended : Phase
  connected initialized : ℕ → Phase

pub record Agent (Client : Type 0) : Type 0 where
  pub post_handlers : List (String × ℕ)
  pub call_handlers : List (String × ℕ)
  pub flora_cli : Option ℕ
  pub working : Bool
  pub phase : Phase
  pub gabages : List ℕ
  pub clients : ℕ → Client

-- `notify_one` wakes the run thread if it waits, and is lost otherwise; a thread that waits to retry
-- goes on anyway.
abbrev pub notified : Phase → Phase
notified idle = idle
notified connecting = connecting
notified retrying = retrying
notified waiting = woken
notified woken = woken
notified cleaning = cleaning
notified ended = ended
notified (connected c) = connected c
notified (initialized c) = initialized c

module _ {Client : Type 0} where
  unfoldable pub new_agent : (ℕ → Client) → Agent Client
  new_agent clients = record {
    post_handlers = [];
    call_handlers = [];
    flora_cli = none;
    working = false;
    phase = idle;
    gabages = [];
    clients = clients;
  }

  -- A call on the object behind a pointer.
  abbrev pub update : ℕ → (Client → Client) → (ℕ → Client) → ℕ → Client
  update c f clients d = if c == d then f (clients d) else clients d

  -- On the agent's client, if it has one.
  abbrev pub on_client : (Client → Client) → Agent Client → Agent Client
  on_client f st = elim st.flora_cli [
    | none ↦ st
    | some c ↦ record st { clients = update c f st.clients }
  ]

  unfoldable pub destroy_client : Agent Client → Agent Client
  destroy_client st = record st { phase = notified st.phase }

  abbrev pub after_request : Agent Client → ℕ → Client × ℤ → Agent Client × ℤ
  after_request st c (cl, r) =
      let st' = record st { clients = update c (λ d. cl) st.clients } in
      (if r == cli_econn then destroy_client st' else st', r)

  -- The handler that gets a post, or a call.
  unfoldable pub recv_post : Agent Client → String → Option ℕ
  recv_post st name = lookup name st.post_handlers

  unfoldable pub recv_call : Agent Client → String → Option ℕ
  recv_call st name = lookup name st.call_handlers

  unfoldable pub disconnected : Agent Client → Agent Client
  unfolding destroy_client
  disconnected st = destroy_client st

module _ (ops : ClientOps) where
  open ops use {Client, Message}

  unfoldable pub subscribe : String → ℕ → Agent Client → Agent Client
  subscribe name cb st =
      let st' = record st { post_handlers = insert name cb st.post_handlers } in
      elim (lookup name st.post_handlers) [
        | none ↦ on_client (ops.subscribe name) st'
        | some held ↦ st'
      ]

  unfoldable pub unsubscribe : String → Agent Client → Agent Client
  unsubscribe name st = elim (lookup name st.post_handlers) [
    | none ↦ st
    | some held ↦
        on_client (ops.unsubscribe name) (record st { post_handlers = erase name st.post_handlers })
  ]

  unfoldable pub declare_method : String → ℕ → Agent Client → Agent Client
  declare_method name cb st =
      let st' = record st { call_handlers = insert name cb st.call_handlers } in
      elim (lookup name st.call_handlers) [
        | none ↦ on_client (ops.declare_method name) st'
        | some held ↦ st'
      ]

  unfoldable pub remove_method : String → Agent Client → Agent Client
  remove_method name st = elim (lookup name st.call_handlers) [
    | none ↦ st
    | some held ↦
        on_client (ops.remove_method name)
          (record st { call_handlers = erase name st.call_handlers })
  ]

  unfoldable pub post : String → Message → ℕ → Agent Client → Agent Client × ℤ
  unfolding destroy_client
  post name msg msgtype st = elim st.flora_cli [
    | none ↦ (st, cli_econn)
    | some c ↦ after_request st c (ops.post name msg msgtype (st.clients c))
  ]

  unfoldable pub call : String → Message → String → ℕ → Agent Client → Agent Client × ℤ
  unfolding destroy_client
  call name msg target timeout st = elim st.flora_cli [
    | none ↦ (st, cli_econn)
    | some c ↦ after_request st c (ops.call name msg target timeout (st.clients c))
  ]

  abbrev pub close_client : Option ℕ → Agent Client → Agent Client
  close_client none st = st
  close_client (some c) st = record st { clients = update c ops.close st.clients }

  -- `close` up to the join; the client that it took is closed at once, or by a thread of its own.
  unfoldable pub close : Agent Client → Agent Client
  unfolding destroy_client
  close st =
      if st.working
      then close_client st.flora_cli (record (destroy_client st) {
        working = false;
        flora_cli = none;
        post_handlers = [];
        call_handlers = [];
      })
      else st
