-- ===== src/Tests/Monitors.antt =====
-- The lists that a monitor receives.
use flora.Base.{◌≡◌, refl, [], ◌∷◌, some, pos, arith}
use flora.Protocol.{cmd_monitor_resp, monitor_list_all}
use flora.Message.Data.{Frame, MonitorListItem, serialized, checked}
use flora.Message.ResponseSerializer.{
  serialize_monitor_list_item, write_monitor_list_items, serialize_monitor_list_all,
  serialize_monitor_list_add, serialize_monitor_list_remove,
}
use flora.Message.MonitorParser.{parsed, parse_monitor_list_all}
use flora.Message.MonitorRoundTrip.{read_heading, monitor_list_all-received}
use flora.Tests.SmallCaps.{small_caps, small_laws, frame_of}

abbrev tv : MonitorListItem
tv = record { id = 1; pid = pos 77; name = "tv"; flags = 0 }

abbrev lamp : MonitorListItem
lamp = record { id = 2; pid = pos 78; name = "lamp"; flags = 32 }

abbrev all_frame : Frame
all_frame = frame_of (serialize_monitor_list_all small_caps (tv ∷ lamp ∷ []) 32768 0)

all_frame_lem : serialize_monitor_list_all small_caps (tv ∷ lamp ∷ []) 32768 0 ≡ some all_frame
unfolding serialize_monitor_list_all write_monitor_list_items serialize_monitor_list_item serialized
    checked
all_frame_lem = refl

monitor_list_all-received_example :
    (c : small_caps.Caps) × (small_caps.parse all_frame.bytes ≡ some c)
    × ((read_heading small_laws c).0 ≡ some (cmd_monitor_resp, monitor_list_all))
    × (parse_monitor_list_all small_caps 3 (read_heading small_laws c).1 ≡ parsed (tv ∷ lamp ∷ []))
monitor_list_all-received_example =
    monitor_list_all-received small_laws (tv ∷ lamp ∷ []) 32768 0 3 all_frame
      (omega arith, (omega arith, tt)) (omega arith) (omega arith) all_frame_lem

abbrev add_frame : Frame
add_frame = frame_of (serialize_monitor_list_add small_caps lamp 32768 0)

add_frame_lem : serialize_monitor_list_add small_caps lamp 32768 0 ≡ some add_frame
unfolding serialize_monitor_list_add serialize_monitor_list_item serialized checked
add_frame_lem = refl

abbrev remove_frame : Frame
remove_frame = frame_of (serialize_monitor_list_remove small_caps 2 32768 0)

remove_frame_lem : serialize_monitor_list_remove small_caps 2 32768 0 ≡ some remove_frame
unfolding serialize_monitor_list_remove serialized checked
remove_frame_lem = refl
