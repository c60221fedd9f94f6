-- ===== src/Client/Requests.antt =====
-- The requests of `Client` that wait for no answer (src/cli.cc). `options` and `serialize_flags` are
-- as the connection was set up; `sent` are the frames that the connection took, the last one first.
use flora.Base.{ℕ, Bool, List, ◌∷◌, Option, none, some, String, ℤ, if◌then◌else◌, ltb, not}
use flora.Caps.{CapsApi}
use flora.Protocol.{cli_success, cli_einval, cli_econn, cli_emonitor, has_monitor_flag}
use flora.Message.Data.{Frame, is_valid_msgtype}
use flora.Message.RequestSerializer.{
  serialize_subscribe, serialize_unsubscribe, serialize_declare_method, serialize_remove_method,
  serialize_post, serialize_reply,
}

pub record Client : Type 0 where
  pub flags : ℕ
  pub bufsize : ℕ
  pub serialize_flags : ℕ
  pub sent : List Frame

-- `connection->send` takes the frame or not.
abbrev pub send_frame : Bool → Client → Frame → Client × ℤ
send_frame takes cl f =
    if takes then (record cl { sent = f ∷ cl.sent }, cli_success) else (cl, cli_econn)

-- `c <= 0` is no message.
abbrev pub send_request : Bool → Client → Option Frame → Client × ℤ
send_request takes cl none = (cl, cli_einval)
send_request takes cl (some f) = if ltb 0 f.size then send_frame takes cl f else (cl, cli_einval)

module _ (api : CapsApi) (takes : Bool) where
  unfoldable pub subscribe : Client → Option String → Client × ℤ
  subscribe cl none = (cl, cli_einval)
  subscribe cl (some name) =
      if has_monitor_flag cl.flags
      then (cl, cli_emonitor)
      else send_request takes cl (serialize_subscribe api name cl.bufsize cl.serialize_flags)

  unfoldable pub unsubscribe : Client → Option String → Client × ℤ
  unsubscribe cl none = (cl, cli_einval)
  unsubscribe cl (some name) =
      if has_monitor_flag cl.flags
      then (cl, cli_emonitor)
      else send_request takes cl (serialize_unsubscribe api name cl.bufsize cl.serialize_flags)

  unfoldable pub declare_method : Client → Option String → Client × ℤ
  declare_method cl none = (cl, cli_einval)
  declare_method cl (some name) =
      if has_monitor_flag cl.flags
      then (cl, cli_emonitor)
      else send_request takes cl (serialize_declare_method api name cl.bufsize cl.serialize_flags)

  unfoldable pub remove_method : Client → Option String → Client × ℤ
  remove_method cl none = (cl, cli_einval)
  remove_method cl (some name) =
      if has_monitor_flag cl.flags
      then (cl, cli_emonitor)
      else send_request takes cl (serialize_remove_method api name cl.bufsize cl.serialize_flags)

  unfoldable pub post : Client → Option String → Option api.Caps → ℕ → Client × ℤ
  post cl none msg msgtype = (cl, cli_einval)
  post cl (some name) msg msgtype =
      if not (is_valid_msgtype msgtype)
      then (cl, cli_einval)
      else if has_monitor_flag cl.flags
      then (cl, cli_emonitor)
      else send_request takes cl (serialize_post api name msgtype msg cl.bufsize cl.serialize_flags)

  -- An answer to a call; nothing tells whether it was sent.
  unfoldable pub send_reply : Client → ℤ → ℤ → Option api.Caps → Client
  send_reply cl callid code content =
      (send_request takes cl
        (serialize_reply api callid code content cl.bufsize cl.serialize_flags)).0
