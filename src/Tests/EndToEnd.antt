-- ===== src/Tests/EndToEnd.antt =====
-- A client whose requests go to the service.
use flora.Base.{◌≡◌, ◌++◌, refl, true, [], ◌∷◌, Option, some, pos, lookup, string_key}
use flora.Caps.{Items, value_of}
use flora.Protocol.{cli_success}
use flora.Message.Data.{Frame, serialized, checked}
use flora.Message.RequestSerializer.{serialize_subscribe, serialize_post}
use flora.Dispatcher.State.{State, AdapterInfo, found, info_of, new_dispatcher}
use flora.Dispatcher.Subscription.{post_msg, subscribe as subscribe_adapter}
use flora.Dispatcher.Handle.{put, handle_cmd}
use flora.Client.Requests.{Client, subscribe, post}
use flora.Client.Service.{subscribe-handle_cmd, post-handle_cmd}
use flora.Tests.SmallCaps.{small_caps, small_laws, ping, frame_of}
use flora.Tests.Services.{service, os}

abbrev pub tv_info : AdapterInfo
tv_info = record { id = 1; pid = pos 77; name = "tv"; declared_methods = []; flags = 0 }

abbrev authorized : State Items
authorized = record service { adapter_infos = (1, tv_info) ∷ [] }

authorized_info : info_of authorized 1 ≡ found tv_info
unfolding info_of lookup new_dispatcher
authorized_info = refl

abbrev pub before : Client
before = record { flags = 0; bufsize = 32768; serialize_flags = 0; sent = [] }

abbrev subscribed_frame : Frame
subscribed_frame = frame_of (serialize_subscribe small_caps "lamp" 32768 0)

abbrev after_subscribe : Client
after_subscribe = record before { sent = subscribed_frame ∷ [] }

after_subscribe_lem :
    subscribe small_caps true before (some "lamp") ≡ (after_subscribe, cli_success)
unfolding subscribe serialize_subscribe serialized checked
after_subscribe_lem = refl

subscribe-handle_cmd_example :
    (f : Frame) × (c : Items) × (after_subscribe.sent ≡ f ∷ [])
    × (put small_caps f 1 service
        ≡ (record service { cmd_packets = service.cmd_packets ++ (some c, 1) ∷ [] }, true))
    × (handle_cmd small_caps os 300 authorized (some c, 1)
        ≡ some (record (subscribe_adapter small_caps os authorized 1 "lamp").0 {
          handle_cmd_tp = 300;
        }))
subscribe-handle_cmd_example =
    subscribe-handle_cmd small_caps os small_laws true before after_subscribe "lamp" 300 service
      authorized 1 tv_info after_subscribe_lem refl authorized_info refl

abbrev posted_frame : Frame
posted_frame = frame_of (serialize_post small_caps "power" 1 (some ping) 32768 0)

abbrev after_post : Client
after_post = record before { sent = posted_frame ∷ [] }

after_post_lem :
    post small_caps true before (some "power") (some ping) 1 ≡ (after_post, cli_success)
unfolding post serialize_post serialized checked
after_post_lem = refl

post-handle_cmd_example :
    (f : Frame) × (c : Items) × (args : Option Items) × (after_post.sent ≡ f ∷ [])
    × (put small_caps f 1 service
        ≡ (record service { cmd_packets = service.cmd_packets ++ (some c, 1) ∷ [] }, true))
    × (value_of small_laws.values args ≡ value_of small_laws.values (some ping))
    × (handle_cmd small_caps os 300 authorized (some c, 1)
        ≡ some (record (post_msg small_caps os authorized "power" 1 args 1 "tv").0 {
          handle_cmd_tp = 300;
        }))
post-handle_cmd_example =
    post-handle_cmd small_caps os small_laws true before after_post "power" (some ping) 1 300
      service authorized 1 tv_info after_post_lem refl authorized_info refl
