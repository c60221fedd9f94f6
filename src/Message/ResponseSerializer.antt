-- ===== src/Message/ResponseSerializer.antt =====
-- `ResponseSerializer` (src/ser-helper.cc).
use flora.Base.{ℕ, ℤ, pos, String, List, [], ◌∷◌, Option, none, some, length, if◌then◌else◌, ◌==◌}
use flora.Base.{int_key}
use flora.Caps.{CapsApi, ◌▷◌}
use flora.Protocol.{
  cmd_auth_resp, cmd_post_resp, cmd_reply_resp, cmd_call_resp, cmd_monitor_resp, cmd_pong_resp,
  monitor_list_all, monitor_list_add, monitor_list_remove, cli_success,
}
use flora.Message.Data.{Frame, Response, MonitorListItem, serialized}

module _ (api : CapsApi) where
  open api use {
    Caps, new_instance, write_int32, write_uint32, write_uint64, write_string, write_caps,
  }

  unfoldable pub serialize_auth : ℤ → ℕ → ℕ → ℕ → Option Frame
  serialize_auth result version size flags =
      serialized api
        (new_instance ▷ write_int32 cmd_auth_resp ▷ write_int32 result ▷ write_uint32 version) size
        flags

  unfoldable pub serialize_post : String → ℕ → Option Caps → ℕ → String → ℕ → ℕ → Option Frame
  serialize_post name msgtype args tag cliname size flags =
      serialized api
        (new_instance
          ▷ write_int32 cmd_post_resp
          ▷ write_uint32 msgtype
          ▷ write_string name
          ▷ write_caps args
          ▷ write_uint64 tag
          ▷ write_string cliname)
        size flags

  unfoldable pub serialize_call : String → Option Caps → ℤ → ℕ → String → ℕ → ℕ → Option Frame
  serialize_call name args id tag cliname size flags =
      serialized api
        (new_instance
          ▷ write_int32 cmd_call_resp
          ▷ write_int32 id
          ▷ write_string name
          ▷ write_caps args
          ▷ write_uint64 tag
          ▷ write_string cliname)
        size flags

  -- The fields of `reply`, where the call succeeded. A null `reply` there would be dereferenced; the
  -- program passes one only with another result code.
  abbrev pub write_response : Option (Response Caps) → Caps → Caps
  write_response none c = c
  write_response (some reply) c =
      c ▷ write_int32 reply.ret_code ▷ write_caps reply.data_of ▷ write_string reply.extra

  unfoldable pub serialize_reply : ℤ → ℤ → Option (Response Caps) → ℕ → ℕ → ℕ → Option Frame
  serialize_reply id rescode reply tag size flags =
      let head = new_instance ▷ write_int32 cmd_reply_resp ▷ write_int32 id ▷ write_int32 rescode in
      let body = if rescode == cli_success then write_response reply head else head in
      serialized api (body ▷ write_uint64 tag) size flags

  unfoldable pub serialize_monitor_list_item : MonitorListItem → Caps
  serialize_monitor_list_item info =
      new_instance
      ▷ write_uint32 info.id
      ▷ write_int32 info.pid
      ▷ write_string info.name
      ▷ write_uint32 info.flags

  unfoldable pub write_monitor_list_items : List MonitorListItem → Caps → Caps
  write_monitor_list_items [] p = p
  write_monitor_list_items (info ∷ infos) p =
      write_monitor_list_items infos (write_caps (some (serialize_monitor_list_item info)) p)

  unfoldable pub serialize_monitor_list_all : List MonitorListItem → ℕ → ℕ → Option Frame
  serialize_monitor_list_all infos size flags =
      serialized api
        (new_instance
          ▷ write_int32 cmd_monitor_resp
          ▷ write_int32 monitor_list_all
          ▷ write_int32 (pos (length infos))
          ▷ write_monitor_list_items infos)
        size flags

  unfoldable pub serialize_monitor_list_add : MonitorListItem → ℕ → ℕ → Option Frame
  serialize_monitor_list_add info size flags =
      serialized api
        (new_instance
          ▷ write_int32 cmd_monitor_resp
          ▷ write_int32 monitor_list_add
          ▷ write_caps (some (serialize_monitor_list_item info)))
        size flags

  unfoldable pub serialize_monitor_list_remove : ℕ → ℕ → ℕ → Option Frame
  serialize_monitor_list_remove id size flags =
      serialized api
        (new_instance
          ▷ write_int32 cmd_monitor_resp
          ▷ write_int32 monitor_list_remove
          ▷ write_uint32 id)
        size flags

  unfoldable pub serialize_pong : ℕ → ℕ → Option Frame
  serialize_pong size flags = serialized api (new_instance ▷ write_int32 cmd_pong_resp) size flags
