-- ===== src/Tests/Histories.antt =====
-- A dispatcher that has taken up calls, clients that register and leave, and a message with a command
-- below 0.
use flora.Base.{
  ℕ, ◌≡◌, refl, true, false, List, [], ◌∷◌, none, some, String, pos, lookup, erase, or_else,
  of_word, string_key,
}
use flora.Caps.{Items, nil, cons, word}
use flora.Message.Data.{Frame, AuthReq}
use flora.Dispatcher.State.{
  close_adapter, State, Net, AdapterInfo, in_monitors, found, info_of, new_dispatcher, update,
}
use flora.Dispatcher.Subscription.{check_subscriptions}
use flora.Dispatcher.Client.{handle_ping_req, register, do_erase_adapter, erase_info}
use flora.Dispatcher.Handle.{
  handle_cmds_round, handle_packets, handle_message, dispatch, msg_handler, put, run, handle_cmd,
}
use flora.Dispatcher.Orderly.{IsOrderly}
use flora.Dispatcher.Reachable.{created, started, putting, round, Reached-IsOrderly}
use flora.Dispatcher.Names.{register-lookup, do_erase_adapter-lookup}
use flora.Dispatcher.Subscribers.{times}
use flora.Dispatcher.Garbage.{check_subscriptions-times}
use flora.Tests.SmallCaps.{small_caps, wire}
use flora.Tests.Services.{client, net, service, os}

abbrev tv_request : AuthReq
tv_request = record { version = 3; extra = "tv"; pid = pos 80; flags = 0 }

-- "tv" is adapter 1's already.
register-lookup_example :
    lookup "tv" (register small_caps os service tv_request 3).0.named_adapters ≡ some 1
unfolding lookup new_dispatcher
register-lookup_example = register-lookup small_caps os service tv_request 3 "tv"

-- A monitor that calls itself "tv" too.
abbrev monitor_info : AdapterInfo
monitor_info = record { id = 5; pid = pos 0; name = "tv"; declared_methods = []; flags = 1 }

abbrev watched : State Items
watched = record service {
  monitors = (4, monitor_info) ∷ [];
  net = record net {
    heap = update net.heap 4 (record (client 0 74 true) { info = some in_monitors });
  };
}

abbrev unwatched : State Items
unwatched = record watched { monitors = []; named_adapters = ("lamp", 2) ∷ []; clear_sub_prio = 1 }

unwatched_lem : do_erase_adapter small_caps os 500 watched 4 ≡ some unwatched
unfolding do_erase_adapter erase_info check_subscriptions lookup erase info_of new_dispatcher
unwatched_lem = refl

watched_info : info_of watched 4 ≡ found monitor_info
unfolding info_of lookup
watched_info = refl

do_erase_adapter-lookup_example : lookup "tv" unwatched.named_adapters ≡ none
do_erase_adapter-lookup_example =
    do_erase_adapter-lookup small_caps os 500 4 monitor_info watched unwatched "tv" watched_info
      unwatched_lem

-- Adapter 6 is gone.
abbrev left_net : Net
left_net = record net { heap = update net.heap 6 (record (client 0 76 false) { alive = false }) }

abbrev subscriptions : List (String × List ℕ)
subscriptions = ("power", 1 ∷ 6 ∷ 2 ∷ []) ∷ ("lamp", 6 ∷ []) ∷ []

abbrev littered : State Items
littered = record service { net = left_net; subscriptions = subscriptions }

check_subscriptions-times_example :
    times 2 (or_else (lookup "power" (check_subscriptions 20000 littered).subscriptions) []) ≡ 1
unfolding lookup
check_subscriptions-times_example =
    check_subscriptions-times 20000 2 "power" littered refl ((refl, tt), (tt, tt))

-- A dispatcher that was started, and that handles a ping of a client that is not authorized: it closes
-- the client.
abbrev fresh : State Items
fresh = new_dispatcher 1 0 net

abbrev ping_request : Items
ping_request = cons (word 8) nil

abbrev ping_frame : Frame
ping_frame = record { size = 11; bytes = wire 128 ping_request }

abbrev queued : State Items
queued = (put small_caps ping_frame 9 (run small_caps fresh)).0

abbrev closed : State Items
closed = record fresh {
  working = true;
  handle_cmd_tp = 300;
  net = record net { heap = update net.heap 9 (record (net.heap 9) { is_open = false }) };
}

closed_lem : handle_cmds_round small_caps os (λ n. 300) queued ≡ some closed
unfolding new_dispatcher run put handle_cmds_round handle_packets handle_cmd handle_message dispatch
    msg_handler info_of handle_ping_req of_word close_adapter
closed_lem = refl

Reached-IsOrderly_example : IsOrderly closed
Reached-IsOrderly_example = Reached-IsOrderly small_caps os 1 0 closed (
    round (λ n. 300) queued closed
      (putting ping_frame 9 (run small_caps fresh) (started fresh (created net))) closed_lem)
