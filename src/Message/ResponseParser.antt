-- ===== src/Message/ResponseParser.antt =====
-- `ResponseParser` (src/ser-helper.cc), but for the monitor lists. `none` is the result -1.
use flora.Base.{Option, none, some, if◌then◌else◌, ◌==◌, int_key}
use flora.Caps.{CapsApi, Parse, ◌>>=◌, done}
use flora.Protocol.{cli_success}
use flora.Message.Data.{AuthResp, PostResp, CallResp, ReplyResp, Response}

module _ (api : CapsApi) where
  open api use {Caps, read_int32, read_uint32, read_uint64, read_string, read_caps}

  unfoldable pub parse_auth : Parse Caps AuthResp
  parse_auth = do
    result ← read_int32
    version ← read_uint32
    done (record { result = result; version = version })

  unfoldable pub parse_post : Parse Caps (PostResp Caps)
  parse_post = do
    msgtype ← read_uint32
    name ← read_string
    args ← read_caps
    tag ← read_uint64
    cliname ← read_string
    done (record { name = name; msgtype = msgtype; args = args; tag = tag; cliname = cliname })

  unfoldable pub parse_call : Parse Caps (CallResp Caps)
  parse_call = do
    id ← read_int32
    name ← read_string
    args ← read_caps
    tag ← read_uint64
    cliname ← read_string
    done (record { name = name; args = args; id = id; tag = tag; cliname = cliname })

  unfoldable pub parse_response : Parse Caps (Option (Response Caps))
  parse_response = do
    ret_code ← read_int32
    content ← read_caps
    extra ← read_string
    done (some (record { ret_code = ret_code; data_of = content; extra = extra }))

  unfoldable pub parse_reply : Parse Caps (ReplyResp Caps)
  unfolding parse_response
  parse_reply = do
    id ← read_int32
    rescode ← read_int32
    reply ← if rescode == cli_success then parse_response else done none
    tag ← read_uint64
    done (record { id = id; rescode = rescode; reply = reply; tag = tag })
