-- ===== src/Client/Calls.antt =====
-- `connect`, `auth`, `ping` and the two forms of `call` (src/cli.cc). Where a thread blocks, a
-- function ends and another goes on; `takes` is the outcome of the connection's `send`.
use flora.Base.{
  ℕ, suc, Bool, true, false, List, [], ◌∷◌, ◌++◌, Option, none, some, String, ℤ, pos, if◌then◌else◌,
  ◌==◌, int_key, nat_key, string_key, ltb,
}
use flora.Caps.{CapsApi}
use flora.Protocol.{
  cli_success, cli_einval, cli_econn, cli_emonitor, cli_edeadlock, cli_etimeout, cli_eauth,
  has_monitor_flag, flora_version, default_msg_buf_size,
}
use flora.Message.Data.{Frame, Response}
use flora.Message.RequestSerializer.{serialize_call, serialize_ping, serialize_auth}
use flora.Client.Requests.{Client, send_frame, send_request}
use flora.Client.State.{Session, PendingRequest, new_session, new_auth_result}
use flora.Client.Receive.{close}

-- What `Uri::parse` finds; the class is not part of the repository.
pub record Uri : Type 0 where
  pub scheme : String
  pub host : String
  pub port : ℕ
  pub path : String
  pub fragment : String

-- A thread that returned a code, or blocks.
pub data Outcome : Type 0 where
  returned : ℤ → Outcome
  blocks : Outcome

abbrev pub clamped_bufsize : ℕ → ℕ
clamped_bufsize bufsize = if ltb bufsize default_msg_buf_size then default_msg_buf_size else bufsize

-- What a round of a blocked caller comes to; `returns` has the contents of the caller's response.
pub data Round (C : Type 0) : Type 0 where
  returns : Session C → ℤ → Option (Response C) → Round C
  waits dangles : Round C

module _ {C : Type 0} where
  abbrev opened : ℕ → ℕ → ℕ → Bool → Bool → Option (Session C) × ℤ
  opened flags bufsize serialize_flags has_mon connects =
      if connects
      then (
        some
            (record (new_session (record {
              flags = flags;
              bufsize = bufsize;
              serialize_flags = serialize_flags;
              sent = [];
            })) { has_mon_callback = has_mon }),
        cli_success,
      )
      else (none, cli_econn)

  -- `connect` up to `auth`: the URI is parsed and the socket connected.
  unfoldable pub open_connection :
      ℕ → (String → Option Uri) → ℕ → ℕ → Bool → Bool → Option String → Option (Session C) × ℤ
  unfolding new_session
  open_connection net_byteorder parse_uri flags bufsize has_mon connects uri = elim uri [
    | none ↦ (none, cli_einval)
    | some text ↦ elim (parse_uri text) [
      | none ↦ (none, cli_einval)
      | some urip ↦
          if urip.scheme == "unix"
          then opened flags (clamped_bufsize bufsize) 0 has_mon connects
          else if urip.scheme == "tcp"
          then opened flags (clamped_bufsize bufsize) net_byteorder has_mon connects
          else (none, cli_einval)
    ]
  ]

  abbrev auth_sent : Client × ℤ → Session C → Session C × Outcome
  auth_sent (cl, r) st =
      if r == cli_success
      then (record st { connection = cl; ares = new_auth_result; awaits_auth = true }, blocks)
      else (record st { connection = cl; ares = new_auth_result }, returned cli_eauth)

  -- `auth` up to the wait. Whether no message could be made or it was not sent, the code is the same.
  unfoldable pub auth : (api : CapsApi) → Bool → String → ℤ → ℕ → Session C → Session C × Outcome
  auth api takes extra pid flags st =
      auth_sent
        (send_request takes st.connection (
          serialize_auth api flora_version extra pid flags st.connection.bufsize
            st.connection.serialize_flags))
        st

  -- `auth` behind the wait.
  unfoldable pub auth_woken : Session C → Session C × Outcome
  auth_woken st =
      if st.ares.notified
      then (record st { awaits_auth = false }, returned st.ares.result)
      else (st, blocks)

  abbrev refused : ℤ → Option (Session C × ℤ) → Option (Session C × ℤ)
  refused r none = none
  refused r (some (st, code)) = some (st, r)

  -- `connect` behind `auth`.
  unfoldable pub finish_connect : Bool → ℤ → Session C → Option (Session C × ℤ)
  finish_connect has_cli r st =
      if r == cli_success
      then some (record st { has_cli_callback = has_cli }, cli_success)
      else refused r (close false false (record st { has_mon_callback = false }))

  abbrev pub find_entry : ℕ → List (PendingRequest C) → Option (PendingRequest C)
  find_entry entry [] = none
  find_entry entry (p ∷ ps) = if p.entry == entry then some p else find_entry entry ps

  abbrev pub erase_entry : ℕ → List (PendingRequest C) → List (PendingRequest C)
  erase_entry entry [] = []
  erase_entry entry (p ∷ ps) = if p.entry == entry then ps else p ∷ erase_entry entry ps

  abbrev return_from : ℕ → ℤ → Option (Response C) → Session C → Round C
  return_from entry code reply st =
      returns (record st { pending_requests = erase_entry entry st.pending_requests }) code reply

  -- What the caller does once it has the mutex: a wait that timed out ends the loop without another
  -- look at the entry or the connection; otherwise, at first and after a wake-up, the loop's body
  -- is gone through up to the next wait.
  unfoldable pub call_round : Bool → ℕ → Session C → Round C
  call_round timed_out entry st = elim (find_entry entry st.pending_requests) [
    | none ↦ dangles
    | some p ↦
        if timed_out
        then return_from entry cli_etimeout p.result st
        else if p.id == pos 0
        then return_from entry p.rcode p.result st
        else if st.closed
        then return_from entry st.close_reason p.result st
        else waits
  ]

module _ (api : CapsApi) (takes : Bool) where
  open api use {Caps}

  -- The request stands in the list before it is sent.
  abbrev pub place : Session Caps → ℤ → Option (Response Caps) → Option ℕ → Session Caps
  place st id result callback = record st {
    pending_requests =
        st.pending_requests
        ++ record {
          entry = st.reqseq;
          id = id;
          rcode = pos 0;
          result = result;
          callback = callback;
        }
          ∷ [];
  }

  abbrev sent : Session Caps → Client × ℤ → Session Caps × ℤ
  sent st (cl, r) = (record st { connection = cl }, r)

  abbrev pub send_placed :
      Session Caps → ℤ → Option (Response Caps) → Option ℕ → Option Frame → Session Caps × ℤ
  send_placed st id result callback none = (st, cli_einval)
  send_placed st id result callback (some f) =
      if ltb 0 f.size
      then sent (place st id result callback) (send_frame takes st.connection f)
      else (st, cli_einval)

  -- `++reqseq` counts a call whose message does not fit, too.
  unfoldable pub send_call :
      Session Caps
      → String
      → Option Caps
      → String
      → ℕ
      → Option (Response Caps)
      → Option ℕ
      → Session Caps × ℤ
  send_call st name msg target timeout result callback =
      let id = pos (suc st.reqseq) in
      send_placed (record st { reqseq = suc st.reqseq }) id result callback
        (serialize_call api name msg target id timeout st.connection.bufsize
          st.connection.serialize_flags)

  abbrev begun : Session Caps × ℤ → Session Caps × Outcome
  begun (st, r) = (st, if r == cli_success then blocks else returned r)

  -- `call` with a response, up to the loop in which the caller waits for its entry.
  unfoldable pub call :
      Bool
      → Session Caps
      → Option String
      → Option Caps
      → String
      → Response Caps
      → ℕ
      → Session Caps × Outcome
  unfolding send_call
  call on_callback_thread st none msg target reply timeout = (st, returned cli_einval)
  call on_callback_thread st (some name) msg target reply timeout =
      if has_monitor_flag st.connection.flags
      then (st, returned cli_emonitor)
      else if on_callback_thread
      then (st, returned cli_edeadlock)
      else begun (send_call st name msg target timeout (some reply) none)

  -- `call` with a callback.
  unfoldable pub call_nb :
      Session Caps → Option String → Option Caps → String → Option ℕ → ℕ → Session Caps × ℤ
  unfolding send_call
  call_nb st none msg target cb timeout = (st, cli_einval)
  call_nb st (some name) msg target cb timeout =
      if has_monitor_flag st.connection.flags
      then (st, cli_emonitor)
      else send_call st name msg target timeout none cb

  unfoldable pub ping : Client → Client
  ping cl = (send_request takes cl (serialize_ping api cl.bufsize cl.serialize_flags)).0
