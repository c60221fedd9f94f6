-- ===== src/Tests/Services.antt =====
-- A dispatcher with two clients that are there, one of which wants net byte order, and one that has
-- closed its socket.
use flora.Base.{ℕ, ◌≡◌, ◌≢◌, refl, Bool, true, false, [], ◌∷◌, none, some, pos, arith, lookup}
use flora.Caps.{Items}
use flora.Protocol.{cli_success, cli_etimeout}
use flora.Message.Data.{Frame, CallReq, ReplyReq, Response, checked, serialized}
use flora.Message.ResponseSerializer.{serialize_post, serialize_call, serialize_reply}
use flora.Dispatcher.State.{
  State, Net, Adapter, PendingCall, in_adapter_infos, Written, taken, write, update, new_dispatcher,
}
use flora.Dispatcher.Subscription.{subscribe, unsubscribe, post_msg}
use flora.Dispatcher.Call.{forward_call, reply, add_pending_call, discard_pending_calls}
use flora.Dispatcher.Subscribers.{times, subscribers, subscribe-times, unsubscribe-times}
use flora.Dispatcher.Posts.{received, post_msg-received}
use flora.Dispatcher.PendingOrder.{
  IsSorted, add_pending_call-IsSorted, FitsTimeout, write_timeouts, discard_pending_calls-keep,
}
use flora.Dispatcher.CallReturn.{Issued, reply-forward_call, reply-other}
use flora.Tests.SmallCaps.{small_caps, ping, frame_of}

abbrev pub client : ℕ → ℕ → Bool → Adapter
client flags tag is_open = record {
  serialize_flags = flags;
  tag = tag;
  info = some in_adapter_infos;
  is_open = is_open;
  alive = true;
}

abbrev pub net : Net
net = record {
  heap =
      update
        (update (update (λ a. record (client 0 0 true) { info = none }) 1 (client 0 71 true)) 2
          (client 128 72 true))
        3 (client 0 73 false);
  sent = [];
  writes = 0;
}

abbrev pub service : State Items
service = record (new_dispatcher 0 0 net) {
  subscriptions = ("power", 1 ∷ 2 ∷ 3 ∷ []) ∷ [];
  named_adapters = ("tv", 1) ∷ ("lamp", 2) ∷ [];
}

abbrev pub os : ℕ → Written
os n = taken

abbrev host_frame : Frame
host_frame = frame_of (serialize_post small_caps "power" 0 (some ping) 71 "tv" 32768 0)

abbrev net_frame : Frame
net_frame = frame_of (serialize_post small_caps "power" 0 (some ping) 71 "tv" 32768 128)

host_frame_lem : serialize_post small_caps "power" 0 (some ping) 71 "tv" 32768 0 ≡ some host_frame
unfolding serialize_post serialized checked
host_frame_lem = refl

net_frame_lem : serialize_post small_caps "power" 0 (some ping) 71 "tv" 32768 128 ≡ some net_frame
unfolding serialize_post serialized checked
net_frame_lem = refl

post_msg-received_example :
    received 2 (post_msg small_caps os service "power" 0 (some ping) 1 "tv").0.net.sent
    ≡ net_frame ∷ []
unfolding new_dispatcher lookup
post_msg-received_example =
    post_msg-received small_caps os (λ n. refl) service "power" 0 (some ping) 1 "tv" host_frame
      net_frame 2 refl refl host_frame_lem net_frame_lem

subscribe-times_example :
    times 2 (subscribers (subscribe small_caps os service 2 "lamp").0 "lamp") ≡ 1
unfolding new_dispatcher lookup
subscribe-times_example = subscribe-times small_caps os service 2 "lamp" "lamp" 2 refl refl

unsubscribe-times_example :
    times 2 (subscribers (unsubscribe small_caps os service 2 "power").0 "power") ≡ 0
unfolding new_dispatcher lookup
unsubscribe-times_example = unsubscribe-times small_caps os service 2 "power" "power" 2 refl refl

abbrev old_call : PendingCall
old_call = record { svrid = pos 1; cliid = pos 9; sender = 1; target = 2; discard_tp = 500 }

abbrev late_call : PendingCall
late_call = record { svrid = pos 2; cliid = pos 10; sender = 2; target = 1; discard_tp = 900 }

abbrev busy : State Items
busy = record service { pending_calls = old_call ∷ late_call ∷ []; reqseq = 2 }

busy-IsSorted : IsSorted busy.pending_calls
busy-IsSorted = ((omega arith, tt), (tt, tt))

busy-Issued : Issued 2 busy.pending_calls
busy-Issued = ((1, refl, omega arith), ((2, refl, omega arith), tt))

add_pending_call-IsSorted_example :
    let pcs = (add_pending_call 300 (pos 3) (pos 11) 1 2 400 busy).pending_calls in
    IsSorted pcs
    × (pcs
        ≡ old_call
          ∷ record { svrid = pos 3; cliid = pos 11; sender = 1; target = 2; discard_tp = 700 }
          ∷ late_call
          ∷ [])
unfolding new_dispatcher lookup
add_pending_call-IsSorted_example =
    add_pending_call-IsSorted 300 (pos 3) (pos 11) 1 2 400 busy busy-IsSorted

fits_timeout : FitsTimeout small_caps os 32768
unfolding serialize_reply serialized checked
fits_timeout cliid flags =
    (frame_of (serialize_reply small_caps cliid cli_etimeout none 0 32768 flags), refl)

discard_pending_calls-keep_example :
    discard_pending_calls small_caps os 500 busy
    ≡ some (record busy {
      pending_calls = late_call ∷ [];
      net = write_timeouts small_caps os 32768 (old_call ∷ []) net;
    })
unfolding new_dispatcher lookup
discard_pending_calls-keep_example =
    discard_pending_calls-keep small_caps os 500 busy fits_timeout busy-IsSorted

abbrev request : CallReq Items
request = record { name = "ping"; args = some ping; target = "lamp"; id = pos 7; timeout = 200 }

abbrev answer : ReplyReq Items
answer = record { id = pos 3; code = pos 0; values = some ping }

abbrev call_frame : Frame
call_frame = frame_of (serialize_call small_caps "ping" (some ping) (pos 3) 71 "tv" 32768 128)

call_frame_lem :
    serialize_call small_caps "ping" (some ping) (pos 3) 71 "tv" 32768 128 ≡ some call_frame
unfolding serialize_call serialized checked
call_frame_lem = refl

abbrev returned : Response Items
returned = record { ret_code = pos 0; data_of = some ping; extra = "lamp" }

abbrev return_frame : Frame
return_frame = frame_of (serialize_reply small_caps (pos 7) cli_success (some returned) 72 32768 0)

return_frame_lem :
    serialize_reply small_caps (pos 7) cli_success (some returned) 72 32768 0 ≡ some return_frame
unfolding serialize_reply serialized checked
return_frame_lem = refl

reply-forward_call_example :
    reply small_caps os (forward_call small_caps os 300 busy 1 "tv" 2 request).0 2 "lamp" answer
    ≡ (record busy { reqseq = 3; net = write os 1 return_frame (write os 2 call_frame net) }, true)
unfolding new_dispatcher lookup write
reply-forward_call_example =
    reply-forward_call small_caps os 300 busy 1 "tv" 2 request answer "lamp" call_frame return_frame
      busy-Issued call_frame_lem refl refl return_frame_lem

one-differs : ◌≢◌ {A = ℕ} 1 2
one-differs e = absurd (omega arith)

reply-other_example :
    let st' = (forward_call small_caps os 300 busy 1 "tv" 2 request).0 in
    reply small_caps os st' 1 "tv" answer ≡ (st', true)
unfolding new_dispatcher lookup
reply-other_example =
    reply-other small_caps os 300 busy 1 "tv" 2 request call_frame 1 "tv" answer busy-Issued
      call_frame_lem refl one-differs
