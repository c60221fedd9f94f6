-- ===== src/Message/RequestParser.antt =====
-- `RequestParser` (src/ser-helper.cc). `none` is the result -1.
use flora.Base.{pos, String}
use flora.Caps.{CapsApi, Parse, ◌>>=◌, done, or_default}
use flora.Message.Data.{AuthReq, PostReq, CallReq, ReplyReq}

module _ (api : CapsApi) where
  open api use {Caps, read_int32, read_uint32, read_string, read_caps}

  unfoldable pub parse_auth : Parse Caps AuthReq
  parse_auth = do
    version ← read_uint32
    extra ← read_string
    pid ← or_default read_int32 (pos 0)
    flags ← or_default read_uint32 0
    done (record { version = version; extra = extra; pid = pid; flags = flags })

  unfoldable pub parse_subscribe : Parse Caps String
  parse_subscribe = read_string

  unfoldable pub parse_unsubscribe : Parse Caps String
  parse_unsubscribe = read_string

  unfoldable pub parse_declare_method : Parse Caps String
  parse_declare_method = read_string

  unfoldable pub parse_remove_method : Parse Caps String
  parse_remove_method = read_string

  unfoldable pub parse_post : Parse Caps (PostReq Caps)
  parse_post = do
    msgtype ← read_uint32
    name ← read_string
    args ← read_caps
    done (record { name = name; msgtype = msgtype; args = args })

  unfoldable pub parse_call : Parse Caps (CallReq Caps)
  parse_call = do
    name ← read_string
    target ← read_string
    id ← read_int32
    timeout ← read_uint32
    args ← read_caps
    done (record { name = name; args = args; target = target; id = id; timeout = timeout })

  unfoldable pub parse_reply : Parse Caps (ReplyReq Caps)
  parse_reply = do
    id ← read_int32
    code ← read_int32
    values ← read_caps
    done (record { id = id; code = code; values = values })
