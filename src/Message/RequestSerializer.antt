-- ===== src/Message/RequestSerializer.antt =====
-- `RequestSerializer` (src/ser-helper.cc).
use flora.Base.{ℕ, ℤ, String, Option}
use flora.Caps.{CapsApi, ◌▷◌}
use flora.Protocol.{
  cmd_auth_req, cmd_subscribe_req, cmd_unsubscribe_req, cmd_post_req, cmd_reply_req,
  cmd_declare_method_req, cmd_remove_method_req, cmd_call_req, cmd_ping_req,
}
use flora.Message.Data.{Frame, serialized}

module _ (api : CapsApi) where
  open api use {
    Caps, new_instance, write_int32, write_uint32, write_uint64, write_string, write_caps,
  }

  unfoldable pub serialize_auth : ℕ → String → ℤ → ℕ → ℕ → ℕ → Option Frame
  serialize_auth version extra pid flags size ser_flags =
      serialized api
        (new_instance
          ▷ write_int32 cmd_auth_req
          ▷ write_uint32 version
          ▷ write_string extra
          ▷ write_int32 pid
          ▷ write_uint32 flags)
        size ser_flags

  unfoldable pub serialize_subscribe : String → ℕ → ℕ → Option Frame
  serialize_subscribe name size flags =
      serialized api (new_instance ▷ write_int32 cmd_subscribe_req ▷ write_string name) size flags

  unfoldable pub serialize_unsubscribe : String → ℕ → ℕ → Option Frame
  serialize_unsubscribe name size flags =
      serialized api (new_instance ▷ write_int32 cmd_unsubscribe_req ▷ write_string name) size flags

  unfoldable pub serialize_declare_method : String → ℕ → ℕ → Option Frame
  serialize_declare_method name size flags =
      serialized api (new_instance ▷ write_int32 cmd_declare_method_req ▷ write_string name) size
        flags

  unfoldable pub serialize_remove_method : String → ℕ → ℕ → Option Frame
  serialize_remove_method name size flags =
      serialized api (new_instance ▷ write_int32 cmd_remove_method_req ▷ write_string name) size
        flags

  unfoldable pub serialize_post : String → ℕ → Option Caps → ℕ → ℕ → Option Frame
  serialize_post name msgtype args size flags =
      serialized api
        (new_instance
          ▷ write_int32 cmd_post_req
          ▷ write_uint32 msgtype
          ▷ write_string name
          ▷ write_caps args)
        size flags

  unfoldable pub serialize_call : String → Option Caps → String → ℤ → ℕ → ℕ → ℕ → Option Frame
  serialize_call name args target id timeout size flags =
      serialized api
        (new_instance
          ▷ write_int32 cmd_call_req
          ▷ write_string name
          ▷ write_string target
          ▷ write_int32 id
          ▷ write_uint32 timeout
          ▷ write_caps args)
        size flags

  unfoldable pub serialize_reply : ℤ → ℤ → Option Caps → ℕ → ℕ → Option Frame
  serialize_reply id code values size flags =
      serialized api
        (new_instance
          ▷ write_int32 cmd_reply_req
          ▷ write_int32 id
          ▷ write_int32 code
          ▷ write_caps values)
        size flags

  unfoldable pub serialize_ping : ℕ → ℕ → Option Frame
  serialize_ping size flags = serialized api (new_instance ▷ write_int32 cmd_ping_req) size flags
