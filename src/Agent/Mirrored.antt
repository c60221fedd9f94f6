-- ===== src/Agent/Mirrored.antt =====
-- The agent with the client of src/cli.cc and the dispatcher of src/disp.cc.
use flora.Base.{ℕ, ◌≡◌, Bool, true, false, some, String, string_key, nat_key, int_key}
use flora.Caps.{CapsApi, CapsLaws}
use flora.Dispatcher.State.{State, Written}
use flora.Dispatcher.Views.{IsClient, listens, offers}
use flora.Client.Requests.{Client, send_request}
use flora.Client.Requests
use flora.Agent.State.{Agent, waiting}
use flora.Agent.Mirror.{has, IsNew}
use flora.Agent.Steps.{connect_steps}
use flora.Agent.Histories.{Reached, Reached-IsMirrored}
use flora.Agent.Reconnect.{lose_steps, disconnected-Mirrors}
use flora.Agent.Served.{served}
use flora.Agent.Clients.{Line, client_ops, client_laws}

module _ {api : CapsApi} (laws : CapsLaws api) (os : ℕ → Written) (now a : ℕ)
    (start : State api.Caps) where
  -- The dispatcher that has handled the requests that the client sent and that name something, in their
  -- order, from the state `start`.
  abbrev pub Serves : Line api.Caps → (String → Bool) → (String → Bool) → Type 0
  Serves l posts calls =
      (d : State api.Caps) × (served api os now a start l.session.connection.sent ≡ some d)
      × IsClient d a
      × ((m : String) → (listens d a m ≡ posts m) × (offers d a m ≡ calls m))

  -- In every state that an agent of the library's client reaches, with names that are not empty,
  -- nothing between the connection of a client and the moment at which it becomes the agent's, and
  -- new clients that the dispatcher has authorized and that have no subscription and no method: if
  -- the agent has a client, none of whose requests that name something failed, the dispatcher that
  -- has handled those requests in their order has it subscribed to exactly the names of the post
  -- handlers, and its methods are exactly the names of the call handlers.
  pub Reached-Serves :
      (c : ℕ) (st : Agent (Line api.Caps))
      → Reached (client_ops api) (client_laws laws os now a start) st
      → st.flora_cli ≡ some c
      → (st.clients c).failed ≡ false
      → Serves (st.clients c) (λ m. has m st.post_handlers) (λ m. has m st.call_handlers)
  Reached-Serves c st reached e fine =
      let ok = Reached-IsMirrored (client_ops api) (client_laws laws os now a start) st reached in
      let (d, handled, (client, same)) = (ok.live c e).1 fine in (d, handled, client, same)

  -- An agent of the library's client that was started and waits, in a state that it reaches, and
  -- whose connection is lost, tries to connect again; if that succeeds, with a client that the
  -- dispatcher has authorized and that has no subscription and no method, it has that client, and
  -- unless one of its requests that name something failed the dispatcher that has handled them in
  -- their order has it subscribed to exactly the names of the agent's post handlers, and its methods
  -- are exactly the names of the call handlers, as they were before.
  pub disconnected-Serves :
      (others : ℕ → ℕ) (cl cl' : Line api.Caps) (c : ℕ) (st : Agent (Line api.Caps))
      → Reached (client_ops api) (client_laws laws os now a start) st
      → st.phase ≡ waiting
      → st.working ≡ true
      → IsNew (client_ops api) (client_laws laws os now a start) cl'
      → let l = client_laws laws os now a start in
        let st' =
          connect_steps
            (client_ops api)
            l
            others
            c
            cl'
            (lose_steps (client_ops api) l others cl st) in
        (st'.flora_cli ≡ some c)
        × (st'.phase ≡ waiting)
        × ((st'.clients c).failed ≡ false
            → Serves (st'.clients c) (λ m. has m st.post_handlers) (λ m. has m st.call_handlers))
  disconnected-Serves others cl cl' c st reached e works new =
      let (client, waits, mirrors) =
        disconnected-Mirrors (client_ops api) (client_laws laws os now a start) others cl cl' c st
          reached e works new in
      (
        client,
        waits,
        λ fine. let (d, handled, (known, same)) = mirrors fine in (d, handled, known, same),
      )
