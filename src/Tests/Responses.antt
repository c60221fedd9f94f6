-- ===== src/Tests/Responses.antt =====
-- Responses of the service to a client.
use flora.Base.{◌≡◌, ◌≢◌, refl, none, some, pos, negsuc, int_beq_iff}
use mathlib.Core.Bool.{false≢true}
use flora.Caps.{Items}
use flora.Protocol.{cli_success, cli_etimeout}
use flora.Message.Data.{Frame, Response, serialized, checked}
use flora.Message.ResponseSerializer.{
  serialize_auth, serialize_post, serialize_call, serialize_reply,
}
use flora.Tests.SmallCaps.{small_caps, ping, frame_of}

abbrev pub pong : Response Items
pong = record { ret_code = pos 0; data_of = some ping; extra = "lamp" }

abbrev auth_frame : Frame
auth_frame = frame_of (serialize_auth small_caps (negsuc 2) 3 32768 128)

auth_frame_lem : serialize_auth small_caps (negsuc 2) 3 32768 128 ≡ some auth_frame
unfolding serialize_auth serialized checked
auth_frame_lem = refl

abbrev post_frame : Frame
post_frame = frame_of (serialize_post small_caps "power" 1 (some ping) 99 "tv" 32768 128)

post_frame_lem : serialize_post small_caps "power" 1 (some ping) 99 "tv" 32768 128 ≡ some post_frame
unfolding serialize_post serialized checked
post_frame_lem = refl

abbrev call_frame : Frame
call_frame = frame_of (serialize_call small_caps "ping" (some ping) (pos 7) 99 "lamp" 32768 128)

call_frame_lem :
    serialize_call small_caps "ping" (some ping) (pos 7) 99 "lamp" 32768 128 ≡ some call_frame
unfolding serialize_call serialized checked
call_frame_lem = refl

abbrev reply_frame : Frame
reply_frame = frame_of (serialize_reply small_caps (pos 7) cli_success (some pong) 99 32768 128)

reply_frame_lem :
    serialize_reply small_caps (pos 7) cli_success (some pong) 99 32768 128 ≡ some reply_frame
unfolding serialize_reply serialized checked
reply_frame_lem = refl

abbrev failure_frame : Frame
failure_frame = frame_of (serialize_reply small_caps (pos 7) cli_etimeout none 0 32768 128)

failure_frame_lem :
    serialize_reply small_caps (pos 7) cli_etimeout none 0 32768 128 ≡ some failure_frame
unfolding serialize_reply serialized checked
failure_frame_lem = refl

differs : cli_etimeout ≢ cli_success
differs e = false≢true ((int_beq_iff cli_etimeout cli_success).1 e)
