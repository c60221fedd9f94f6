-- ===== src/Client/Receive.antt =====
-- The receive thread: `handle_received` cuts what has arrived into messages, `recv_loop` fills the
-- buffer and closes the connection in the end (src/cli.cc).
use Prim.Native.Nat.{min}
use flora.Base.{
  ℕ, zero, suc, ◌-◌, Bool, true, false, List, [], ◌∷◌, ◌++◌, Option, none, some, ℤ, if◌then◌else◌,
  ◌==◌, nat_key, ltb, length, take, drop,
}
use flora.Caps.{CapsApi}
use flora.Protocol.{cli_econn, cli_eauth, cli_einsuff_buf, cli_eclosed, cli_success, cli_edeadlock}
use flora.Client.State.{
  Session, PendingRequest, before_auth, notify_if, no_response, Event, call_returned, disconnected,
  monitor_disconnected,
}
use flora.Client.Handlers.{Handled, handle_message}

module _ {C : Type 0} where
  abbrev pub callbacks : List (PendingRequest C) → List (Option ℕ)
  callbacks [] = []
  callbacks (p ∷ ps) = elim p.result [ none ↦ p.callback ∷ callbacks ps | some r ↦ callbacks ps ]

  abbrev pub waiting : List (PendingRequest C) → List (PendingRequest C)
  waiting [] = []
  waiting (p ∷ ps) = elim p.result [ none ↦ waiting ps | some r ↦ p ∷ waiting ps ]

  -- The callbacks are run one after the other; one that is empty throws (`none`).
  unfoldable pub call_back_all : ℤ → List (Option ℕ) → List (Event C) → Option (List (Event C))
  call_back_all err [] events = some events
  call_back_all err (none ∷ cbs) events = none
  call_back_all err (some cb ∷ cbs) events =
      call_back_all err cbs (events ++ call_returned cb err no_response ∷ [])

  -- The end of `iclose`: the user is told of a connection that was lost.
  abbrev pub tell_disconnected : Bool → Session C → Session C
  tell_disconnected passive st =
      if passive
      then notify_if st.has_mon_callback (notify_if st.has_cli_callback st disconnected)
          monitor_disconnected
      else st

  unfoldable pub after_callbacks : Bool → Session C → Option (List (Event C)) → Option (Session C)
  after_callbacks passive st none = none
  after_callbacks passive st (some events) =
      some (tell_disconnected passive (record st { events = events }))

  -- `iclose` behind `connection->close()`.
  unfoldable pub fail_requests : Bool → ℤ → Session C → Option (Session C)
  unfolding call_back_all after_callbacks
  fail_requests passive err st =
      after_callbacks passive
        (record st { close_reason = err; pending_requests = waiting st.pending_requests })
        (call_back_all err (callbacks st.pending_requests) st.events)

  abbrev pub close_connection : Session C → Session C
  close_connection st = record st { closed = true }

  unfoldable pub iclose : Bool → ℤ → Session C → Option (Session C)
  unfolding fail_requests
  iclose passive err st =
      if st.closed then some st else fail_requests passive err (close_connection st)

  abbrev closed_by_user : Option (Session C) → Option (Session C × ℤ)
  closed_by_user none = none
  closed_by_user (some st) = some (record st { cmd_handler = before_auth }, cli_success)

  -- `close`, after which the other threads have ended.
  unfoldable pub close : Bool → Bool → Session C → Option (Session C × ℤ)
  unfolding iclose
  close on_callback_thread passive st =
      if on_callback_thread
      then some (st, cli_edeadlock)
      else closed_by_user (iclose passive cli_eclosed st)

  -- The thread that waits in `auth` is woken, and `auth_result` cleared.
  abbrev pub give_up_auth : Session C → Session C × ℤ
  give_up_auth st =
      if st.awaits_auth
      then (
        record st { ares = record (st.ares) { notified = true }; awaits_auth = false },
        cli_eauth,
      )
      else (st, cli_econn)

-- The client with the receive buffer up to `rbuf_off`.
pub record Receiver (C : Type 0) : Type 0 where
  pub session : Session C
  pub rbuffer : List ℕ

module _ (api : CapsApi) (fuel : ℕ) where
  open api use {Caps}

  abbrev pub Received : Type 0
  Received = Option (Receiver Caps × Bool)

  abbrev keeping : Session Caps → List ℕ → Received
  keeping st bytes = some (record { session = st; rbuffer = bytes }, true)

  -- On a refusal the buffer is left, and never read again.
  abbrev refusing : Session Caps → List ℕ → Received
  refusing st bytes = some (record { session = st; rbuffer = bytes }, false)

  unfoldable pub after_message :
      (Session Caps → List ℕ → Received) → List ℕ → List ℕ → Handled Caps → Received
  after_message again bytes rest none = none
  after_message again bytes rest (some (st, false)) = refusing st bytes
  after_message again bytes rest (some (st, true)) = again st rest

  unfoldable pub parse_frame :
      (Session Caps → List ℕ → Received) → Session Caps → List ℕ → List ℕ → Option Caps → Received
  unfolding after_message
  parse_frame again st bytes rest none = refusing st bytes
  parse_frame again st bytes rest (some c) =
      after_message again bytes rest (handle_message api fuel st c)

  unfoldable pub take_frame :
      (Session Caps → List ℕ → Received) → Session Caps → List ℕ → Option (ℕ × ℕ) → Received
  unfolding parse_frame
  take_frame again st bytes none = refusing st bytes
  take_frame again st bytes (some (version, len)) =
      if ltb (length bytes) len
      then keeping st bytes
      else parse_frame again st bytes (drop len bytes) (api.parse (take len bytes))

  -- The loop, a round for each frame, over the bytes behind `off`; `none` if the rounds do not do.
  unfoldable pub received_frames : ℕ → Session Caps → List ℕ → Received
  unfolding take_frame
  received_frames zero st bytes = none
  received_frames (suc rounds) st bytes =
      if ltb (length bytes) 8
      then keeping st bytes
      else take_frame (received_frames rounds) st bytes (api.binary_info bytes)

  -- A frame has at least one byte, so a round for each byte that has arrived is enough.
  unfoldable pub handle_received : Session Caps → List ℕ → Received
  unfolding received_frames
  handle_received st bytes = received_frames (suc (length bytes)) st bytes

  -- One call of `recv`: it fails, or it takes up to `n + 1` bytes that wait in the socket.
  pub data Recv : Type 0 where
    up_to : ℕ → Recv
    fails : Recv

  abbrev ended : Option (Session Caps) → List ℕ → List ℕ → Option (Receiver Caps × List ℕ)
  ended none bytes stream = none
  ended (some st) bytes stream = some (record { session = st; rbuffer = bytes }, stream)

  -- Behind the loop.
  unfoldable pub end_loop : ℤ → Session Caps → List ℕ → List ℕ → Option (Receiver Caps × List ℕ)
  unfolding iclose
  end_loop err st bytes stream = ended (iclose true err st) bytes stream

  unfoldable pub lose_connection :
      Session Caps × ℤ → List ℕ → List ℕ → Option (Receiver Caps × List ℕ)
  unfolding end_loop
  lose_connection (st, err) bytes stream = end_loop err st bytes stream

  unfoldable pub go_on :
      (Receiver Caps → List ℕ → Option (Receiver Caps × List ℕ))
      → List ℕ
      → Received
      → Option (Receiver Caps × List ℕ)
  unfolding lose_connection
  go_on again stream none = none
  go_on again stream (some (r, false)) = lose_connection (give_up_auth r.session) r.rbuffer stream
  go_on again stream (some (r, true)) = again r stream

  -- `recv_loop` with the bytes that wait in the socket; where the list ends, or no byte waits, the
  -- thread is blocked in `recv`.
  unfoldable pub recv_loop : List Recv → Receiver Caps → List ℕ → Option (Receiver Caps × List ℕ)
  unfolding go_on lose_connection end_loop handle_received
  recv_loop [] r stream = some (r, stream)
  recv_loop (step ∷ steps) r stream =
      if length r.rbuffer == r.session.connection.bufsize
      then end_loop cli_einsuff_buf r.session r.rbuffer stream
      else elim step [
        | fails ↦ lose_connection (give_up_auth r.session) r.rbuffer stream
        | up_to n ↦ elim stream [
          | [] ↦ some (r, [])
          | b ∷ bs ↦
              let k = min (suc n) (r.session.connection.bufsize - length r.rbuffer) in
              go_on (recv_loop steps) (drop k (b ∷ bs))
                (handle_received r.session (r.rbuffer ++ take k (b ∷ bs)))
        ]
      ]
