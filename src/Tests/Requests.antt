-- ===== src/Tests/Requests.antt =====
-- Requests from a client to the service.
use flora.Base.{◌≡◌, refl, some, pos, negsuc, arith, int_key}
use flora.Caps.{object, value_of}
use flora.Protocol.{cmd_call_req}
use flora.Message.Data.{Frame, serialized, checked}
use flora.Message.Delivery.{Received}
use flora.Message.RequestSerializer.{
  serialize_auth, serialize_subscribe, serialize_unsubscribe, serialize_declare_method,
  serialize_remove_method, serialize_post, serialize_call, serialize_reply,
}
use flora.Message.RequestParser.{parse_call}
use flora.Message.RequestRoundTrip.{serialize_call-received}
use flora.Tests.SmallCaps.{small_caps, small_laws, ping, frame_of}

abbrev auth_frame : Frame
auth_frame = frame_of (serialize_auth small_caps 3 "tv" (pos 77) 2 32768 128)

auth_frame_lem : serialize_auth small_caps 3 "tv" (pos 77) 2 32768 128 ≡ some auth_frame
unfolding serialize_auth serialized checked
auth_frame_lem = refl

abbrev subscribe_frame : Frame
subscribe_frame = frame_of (serialize_subscribe small_caps "power" 32768 128)

subscribe_frame_lem : serialize_subscribe small_caps "power" 32768 128 ≡ some subscribe_frame
unfolding serialize_subscribe serialized checked
subscribe_frame_lem = refl

abbrev unsubscribe_frame : Frame
unsubscribe_frame = frame_of (serialize_unsubscribe small_caps "power" 32768 128)

unsubscribe_frame_lem : serialize_unsubscribe small_caps "power" 32768 128 ≡ some unsubscribe_frame
unfolding serialize_unsubscribe serialized checked
unsubscribe_frame_lem = refl

abbrev declare_method_frame : Frame
declare_method_frame = frame_of (serialize_declare_method small_caps "ping" 32768 128)

declare_method_frame_lem :
    serialize_declare_method small_caps "ping" 32768 128 ≡ some declare_method_frame
unfolding serialize_declare_method serialized checked
declare_method_frame_lem = refl

abbrev remove_method_frame : Frame
remove_method_frame = frame_of (serialize_remove_method small_caps "ping" 32768 128)

remove_method_frame_lem :
    serialize_remove_method small_caps "ping" 32768 128 ≡ some remove_method_frame
unfolding serialize_remove_method serialized checked
remove_method_frame_lem = refl

abbrev post_frame : Frame
post_frame = frame_of (serialize_post small_caps "power" 1 (some ping) 32768 128)

post_frame_lem : serialize_post small_caps "power" 1 (some ping) 32768 128 ≡ some post_frame
unfolding serialize_post serialized checked
post_frame_lem = refl

abbrev call_frame : Frame
call_frame = frame_of (serialize_call small_caps "ping" (some ping) "tv" (pos 7) 200 32768 128)

call_frame_lem :
    serialize_call small_caps "ping" (some ping) "tv" (pos 7) 200 32768 128 ≡ some call_frame
unfolding serialize_call serialized checked
call_frame_lem = refl

serialize_call-received_example :
    Received small_laws call_frame cmd_call_req (parse_call small_caps) (λ r.
      (r.name ≡ "ping")
      × (r.target ≡ "tv")
      × (r.id ≡ pos 7)
      × (r.timeout ≡ 200)
      × (value_of (λ c. c) r.args ≡ object ping))
serialize_call-received_example =
    serialize_call-received small_laws "ping" (some ping) "tv" (pos 7) 200 32768 128 call_frame
      (omega arith) call_frame_lem

abbrev reply_frame : Frame
reply_frame = frame_of (serialize_reply small_caps (pos 7) (negsuc 4) (some ping) 32768 128)

reply_frame_lem :
    serialize_reply small_caps (pos 7) (negsuc 4) (some ping) 32768 128 ≡ some reply_frame
unfolding serialize_reply serialized checked
reply_frame_lem = refl
