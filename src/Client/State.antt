-- ===== src/Client/State.antt =====
-- The members of `Client` that its threads share (src/cli.h), and what they tell the user.
use flora.Base.{ℕ, Bool, List, [], ◌∷◌, ◌++◌, Option, none, String, ℤ, pos, if◌then◌else◌}
use flora.Protocol.{cli_eauth}
use flora.Message.Data.{PostResp, CallResp, Response, MonitorListItem}
use flora.Client.Requests.{Client}

-- The calls of the user's callbacks. A `RespCallback` has a number. `post_received` and
-- `call_received` hold the thread's `tag` and `sender_name` too; the reply object of a call is known by
-- the call's id.
pub data Event (C : Type 0) : Type 0 where
  post_received : PostResp C → Event C
  call_received : CallResp C → Event C
  call_returned : ℕ → ℤ → Response C → Event C
  list_all : List MonitorListItem → Event C
  list_add : MonitorListItem → Event C
  list_remove : ℕ → Event C
  disconnected monitor_disconnected : Event C

-- `entry` is the node of the list, which a blocked caller holds an iterator to. `result` is what the
-- pointer leads to, none for a null pointer; `callback` is none for a function that is empty.
pub record PendingRequest (C : Type 0) : Type 0 where
  pub entry : ℕ
  pub id : ℤ
  pub rcode : ℤ
  pub result : Option (Response C)
  pub callback : Option ℕ

pub data CmdHandler : Type 0 where
  before_auth after_auth : CmdHandler

pub record AuthResult : Type 0 where
  pub notified : Bool
  pub result : ℤ

abbrev pub new_auth_result : AuthResult
new_auth_result = record { notified = Bool.false; result = cli_eauth }

-- `ares` is the local object of `auth`, and `awaits_auth` tells that `auth_result` points at it.
-- `connection` holds the options and the frames that were sent. `closed` is `connection->closed()`,
-- `has_cli_callback` and `has_mon_callback` tell whether the pointers are set.
pub record Session (C : Type 0) : Type 0 where
  pub connection : Client
  pub closed : Bool
  pub pending_requests : List (PendingRequest C)
  pub reqseq : ℕ
  pub close_reason : ℤ
  pub cmd_handler : CmdHandler
  pub ares : AuthResult
  pub awaits_auth : Bool
  pub has_cli_callback : Bool
  pub has_mon_callback : Bool
  pub tag : ℕ
  pub sender_name : String
  pub events : List (Event C)

-- The client as its constructor leaves it, with a connection that is open.
unfoldable pub new_session : {C : Type 0} → Client → Session C
new_session cl = record {
  connection = cl;
  closed = Bool.false;
  pending_requests = [];
  reqseq = 0;
  close_reason = pos 0;
  cmd_handler = before_auth;
  ares = new_auth_result;
  awaits_auth = Bool.false;
  has_cli_callback = Bool.false;
  has_mon_callback = Bool.false;
  tag = 0;
  sender_name = "";
  events = [];
}

abbrev pub notify : {C : Type 0} → Session C → Event C → Session C
notify st e = record st { events = st.events ++ e ∷ [] }

-- A callback that is a pointer is run if it is set.
abbrev pub notify_if : {C : Type 0} → Bool → Session C → Event C → Session C
notify_if present st e = if present then notify st e else st

-- A response that was not filled in. Its code is set to 0 for a reply that failed; `iclose` leaves it
-- uninitialized.
abbrev pub no_response : {C : Type 0} → Response C
no_response = record { ret_code = pos 0; data_of = none; extra = "" }
