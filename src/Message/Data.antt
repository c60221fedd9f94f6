-- ===== src/Message/Data.antt =====
-- The data of the messages: `Frame` (src/adap.h), `Response` and `MonitorListItem`
-- (include/flora-cli.h), the out parameters of the parsers, and the check that ends each serializer.
use flora.Base.{ℕ, ℤ, pos, negsuc, String, List, Option, none, some, if◌then◌else◌, ltb}
use flora.Caps.{CapsApi}
use flora.Protocol.{number_of_msgtype}
use mathlib.Core.Bool.{Bool}

pub record Frame : Type 0 where
  pub size : ℕ
  pub bytes : List ℕ

-- `none` is the result -1.
unfoldable pub checked : ℕ → ℤ × List ℕ → Option Frame
checked size (negsuc r, bytes) = none
checked size (pos r, bytes) = if ltb size r then none else some (record { size = r; bytes = bytes })

unfoldable pub serialized : (api : CapsApi) → api.Caps → ℕ → ℕ → Option Frame
serialized api caps size flags = checked size (api.serialize caps size flags)

abbrev pub is_valid_msgtype : ℕ → Bool
is_valid_msgtype msgtype = ltb msgtype number_of_msgtype

pub record AuthReq : Type 0 where
  pub version : ℕ
  pub extra : String
  pub pid : ℤ
  pub flags : ℕ

pub record AuthResp : Type 0 where
  pub result : ℤ
  pub version : ℕ

pub record MonitorListItem : Type 0 where
  pub id : ℕ
  pub pid : ℤ
  pub name : String
  pub flags : ℕ

-- The messages that carry an object are over the type of objects.
module _ (C : Type 0) where
  pub record PostReq : Type 0 where
    pub name : String
    pub msgtype : ℕ
    pub args : Option C

  pub record CallReq : Type 0 where
    pub name : String
    pub args : Option C
    pub target : String
    pub id : ℤ
    pub timeout : ℕ

  pub record ReplyReq : Type 0 where
    pub id : ℤ
    pub code : ℤ
    pub values : Option C

  pub record Response : Type 0 where
    pub ret_code : ℤ
    pub data_of : Option C
    pub extra : String

  pub record PostResp : Type 0 where
    pub name : String
    pub msgtype : ℕ
    pub args : Option C
    pub tag : ℕ
    pub cliname : String

  pub record CallResp : Type 0 where
    pub name : String
    pub args : Option C
    pub id : ℤ
    pub tag : ℕ
    pub cliname : String

  -- `reply` is set only if `rescode` is success.
  pub record ReplyResp : Type 0 where
    pub id : ℤ
    pub rescode : ℤ
    pub reply : Option (Response)
    pub tag : ℕ
