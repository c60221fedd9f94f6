-- ===== src/Tests/Agents.antt =====
-- An agent of the library's client, with one post handler and one method.
use flora.Base.{ℕ, ◌≡◌, refl, true, false, [], ◌∷◌, none, some, lookup, insert, String, string_key}
use flora.Caps.{Items}
use flora.Message.Data.{serialized, checked}
use flora.Message.RequestSerializer.{serialize_subscribe, serialize_declare_method}
use flora.Dispatcher.State.{State, info_of, new_dispatcher, has_method}
use flora.Dispatcher.Views.{IsClient, listens, offers}
use flora.Client.Requests
use flora.Agent.Served.{served-none}
use flora.Agent.Mirrored.{Serves, Reached-Serves, disconnected-Serves}
use flora.Tests.Services.{service, os}
use flora.Client.State.{new_session}
use flora.Agent.Interface.{ClientOps, ClientLaws}
use flora.Agent.State.{
  Agent, new_agent, subscribe, declare_method, recv_post, close, waiting, initialized,
}
use flora.Agent.Run.{start, init_cli, run_step, step_at, clean_gabages}
use flora.Agent.Mirror.{has, IsNew}
use flora.Agent.Steps.{connect_steps}
use flora.Agent.Histories.{Reached, new, starts, subscribes, declares, connects}
use flora.Agent.Reconnect.{lose_steps}
use flora.Agent.Races.{subscribe-between, close-connecting, clean_gabages-gabages}
use flora.Agent.Clients.{Line, client_ops, client_laws}
use flora.Tests.SmallCaps.{small_caps, small_laws}
use flora.Tests.EndToEnd.{before, tv_info}

abbrev ops : ClientOps
ops = client_ops small_caps

-- The client is known as "tv", with the adapter 1.
abbrev known : State Items
known = record service { subscriptions = []; adapter_infos = (1, tv_info) ∷ [] }

abbrev laws : ClientLaws ops
laws = client_laws small_laws os 300 1 known

abbrev fresh : Line Items
fresh = record { session = new_session before; takes = λ n. true; sends = 0; failed = false }

abbrev alone : ℕ → ℕ
alone c = 0

known-IsClient : IsClient known 1
unfolding info_of lookup new_dispatcher
known-IsClient = (tv_info, refl, refl, refl)

known_names : (m : String) → (listens known 1 m ≡ false) × (offers known 1 m ≡ false)
unfolding info_of lookup new_dispatcher has_method
known_names m = (refl, refl)

fresh-IsNew : IsNew ops laws fresh
unfolding new_session
fresh-IsNew = (known, served-none small_caps os 300 1 known, (known-IsClient, known_names))

abbrev handling : Agent (Line Items)
handling = declare_method ops "lamp" 5 (subscribe ops "lamp" 4 (start ops (new_agent (λ c. fresh))))

handling-Reached : Reached ops laws handling
unfolding new_agent
handling-Reached =
    declares (subscribes (starts (new (λ c. fresh)) refl) "lamp" 4 refl) "lamp" 5 refl

abbrev running : Agent (Line Items)
running = connect_steps ops laws alone 1 fresh handling

running-Reached : Reached ops laws running
unfolding subscribe declare_method start new_agent lookup
running-Reached = connects handling-Reached alone 1 fresh refl fresh-IsNew

running-client : running.flora_cli ≡ some 1
unfolding connect_steps run_step step_at subscribe declare_method start new_agent lookup
running-client = refl

running-fine : (running.clients 1).failed ≡ false
unfolding connect_steps run_step step_at subscribe declare_method start new_agent lookup
    Requests.subscribe Requests.declare_method serialize_subscribe serialize_declare_method
    serialized checked new_session insert init_cli
running-fine = refl

Reached-Serves_example :
    Serves small_laws os 300 1 known
      (running.clients 1)
      (λ m. has m running.post_handlers)
      (λ m. has m running.call_handlers)
Reached-Serves_example =
    Reached-Serves small_laws os 300 1 known 1 running running-Reached running-client running-fine

running-waiting : running.phase ≡ waiting
unfolding connect_steps run_step step_at subscribe declare_method start new_agent lookup
running-waiting = refl

running-working : running.working ≡ true
unfolding connect_steps run_step step_at subscribe declare_method start new_agent lookup
running-working = refl

disconnected-Serves_example :
    let st' = connect_steps ops laws alone 2 fresh (lose_steps ops laws alone fresh running) in
    (st'.flora_cli ≡ some 2)
    × (st'.phase ≡ waiting)
    × ((st'.clients 2).failed ≡ false
        → Serves small_laws os 300 1 known
            (st'.clients 2)
            (λ m. has m running.post_handlers)
            (λ m. has m running.call_handlers))
disconnected-Serves_example =
    disconnected-Serves small_laws os 300 1 known alone fresh fresh 2 running running-Reached
      running-waiting running-working fresh-IsNew

-- The connection of the client 3 is broken, and the agent does not know yet.
abbrev broken : Agent (Line Items)
broken = record (new_agent (λ c. record fresh { takes = λ n. false })) {
  phase = waiting;
  working = true;
  flora_cli = some 3;
}

-- The client 3 is connected and knows the handlers, of which there are none.
abbrev told_all : Agent (Line Items)
told_all = record (new_agent (λ c. fresh)) { phase = initialized 3; working = true }

subscribe-between_example :
    let st' = run_step ops alone none fresh (subscribe ops "lamp" 4 told_all) in
    (st'.flora_cli ≡ some 3)
    × (st'.clients ≡ told_all.clients)
    × (recv_post st' "lamp" ≡ some 4)
    × (st'.phase ≡ waiting)
unfolding new_agent lookup
subscribe-between_example = subscribe-between ops alone "lamp" 4 3 fresh told_all refl refl refl

close-connecting_example :
    let st' = connect_steps ops laws alone 1 fresh (close ops handling) in
    (st'.working ≡ false) × (st'.flora_cli ≡ some 1) × (run_step ops alone none fresh st' ≡ st')
unfolding subscribe declare_method start new_agent lookup
close-connecting_example = close-connecting ops alone laws 1 fresh fresh handling refl refl refl

clean_gabages-gabages_example :
    (clean_gabages ops alone (record told_all { gabages = 3 ∷ 1 ∷ [] })).gabages ≡ 3 ∷ 1 ∷ []
clean_gabages-gabages_example =
    clean_gabages-gabages ops alone (record told_all { gabages = 3 ∷ 1 ∷ [] })
