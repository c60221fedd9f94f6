-- ===== src/Tests/Calls.antt =====
-- A client with calls that wait, and the answers to them.
use flora.Base.{
  ℕ, ◌<◌, ◌^◌, ◌%◌, ◌/◌, ◌≡◌, ◌++◌, refl, true, false, [], ◌∷◌, List, none, some, pos, arith, All,
  inl, map, of_word, to_word,
}
use flora.Caps.{Items, nil, cons, word}
use flora.Protocol.{cli_success, cli_econn, cli_etimeout}
use flora.Message.Data.{Frame, Response, ReplyResp, serialized, checked}
use flora.Message.RequestSerializer.{serialize_call}
use flora.Message.ResponseSerializer.{serialize_reply, serialize_auth}
use flora.Message.ResponseParser.{parse_auth}
use flora.Message.ResponseRoundTrip.{IsReplyOf}
use flora.Adapter.Framing.{IsFrame, concat}
use flora.Client.State.{
  Session, PendingRequest, new_session, after_auth, before_auth, call_returned, no_response,
}
use flora.Client.Handlers.{handle_message, take_reply}
use flora.Client.Receive.{recv_loop, up_to, fail_requests, close_connection, callbacks}
use flora.Client.Calls.{
  call, call_nb, send_call, call_round, returns, returned, find_entry, auth_woken,
}
use flora.Client.Stream.{handle_all}
use flora.Client.Loop.{recv_loop-handle_all}
use flora.Client.Callbacks.{runs, times}
use flora.Client.Answers.{take_reply-other}
use flora.Client.Consistent.{IsConsistent}
use flora.Client.Histories.{Reached, new, calls, calls_nb, moves, Reached-IsConsistent}
use flora.Client.Closing.{fail_requests-times, erase_all, closed-call_round, shut-call_round}
use flora.Client.Answered.{reply_resp-callback, reply_resp-call_round}
use flora.Client.Reply.{
  new_reply, run_methods, write_data_to, end_code, end, drop, run_methods-send_reply,
}
use flora.Client.Requests.{send_reply}
use flora.Client.Tags.{
  tag_of-port_of, htons, connection_type, address_of, port_of, pid_of, tag_of_address,
}
use flora.Dispatcher.Client.{tag_of_pid}
use flora.Client.Authorized.{auth_resp-auth_woken}
use flora.Tests.SmallCaps.{small_caps, small_laws, ping, wire, frame_of}
use flora.Tests.EndToEnd.{before}
use flora.Tests.Responses.{pong}

-- The first call has a callback, number 7; the caller of the second is blocked.
abbrev asked : Session Items
asked = (call_nb small_caps true (new_session before) (some "ping") none "tv" (some 7) 0).0

abbrev asked_twice : Session Items
asked_twice = (call small_caps true false asked (some "power") none "tv" no_response 0).0

abbrev ready : Session Items
ready = record asked_twice { cmd_handler = after_auth }

asked_lem :
    call_nb small_caps true (new_session before) (some "ping") none "tv" (some 7) 0
    ≡ (asked, cli_success)
unfolding call_nb new_session send_call serialize_call serialized checked
asked_lem = refl

ready-Reached : Reached small_caps 9 ready (some 7 ∷ [])
ready-Reached =
    moves
      (calls
        (calls_nb (new before) true (some "ping") none "tv" (some 7) 0 asked cli_success asked_lem)
        true false (some "power") none "tv" no_response 0)
      asked_twice.connection asked_twice.ares asked_twice.awaits_auth asked_twice.has_cli_callback
      asked_twice.has_mon_callback after_auth

Reached-IsConsistent_example : IsConsistent small_caps 9 ready (some 7 ∷ [])
Reached-IsConsistent_example = Reached-IsConsistent small_caps 9 ready (some 7 ∷ []) ready-Reached

abbrev first_request : PendingRequest Items
first_request = record { entry = 1; id = pos 1; rcode = pos 0; result = none; callback = some 7 }

abbrev second_request : PendingRequest Items
second_request = record {
  entry = 2;
  id = pos 2;
  rcode = pos 0;
  result = some no_response;
  callback = none;
}

ready_requests : ready.pending_requests ≡ first_request ∷ second_request ∷ []
unfolding call call_nb new_session send_call serialize_call serialized checked
ready_requests = refl

-- The answer to the first call, as the service would send it.
abbrev reply_frame : Frame
reply_frame = frame_of (serialize_reply small_caps (pos 1) cli_success (some pong) 99 32768 128)

reply_frame_lem :
    serialize_reply small_caps (pos 1) cli_success (some pong) 99 32768 128 ≡ some reply_frame
unfolding serialize_reply serialized checked
reply_frame_lem = refl

first_lem : find_entry 1 ready.pending_requests ≡ some first_request
first_lem = rw ready_requests

second_lem : find_entry 2 ready.pending_requests ≡ some second_request
second_lem = rw ready_requests

ready_events : ready.events ≡ []
unfolding call call_nb new_session send_call serialize_call serialized checked
ready_events = refl

reply_resp-callback_example :
    (c : Items) × (st' : Session Items) × (response : Response Items) × (small_caps.parse
        reply_frame.bytes
      ≡ some c)
    × (handle_message small_caps 9 ready c ≡ some (st', true))
    × (st'.events ≡ ready.events ++ call_returned 7 cli_success response ∷ [])
    × IsReplyOf small_laws (some response) pong
    × (find_entry 1 st'.pending_requests ≡ none)
reply_resp-callback_example =
    reply_resp-callback small_laws 9 0 7 99 32768 128 pong reply_frame ready (some 7 ∷ [])
      first_request (omega arith) (omega arith) reply_frame_lem ready-Reached refl first_lem refl
      refl refl

abbrev second_frame : Frame
second_frame = frame_of (serialize_reply small_caps (pos 2) cli_success (some pong) 99 32768 128)

second_frame_lem :
    serialize_reply small_caps (pos 2) cli_success (some pong) 99 32768 128 ≡ some second_frame
unfolding serialize_reply serialized checked
second_frame_lem = refl

reply_resp-call_round_example :
    (c : Items) × (st' later : Session Items) × (response : Response Items) × (small_caps.parse
        second_frame.bytes
      ≡ some c)
    × (handle_message small_caps 9 ready c ≡ some (st', true))
    × (call_round false 2 st' ≡ returns later cli_success (some response))
    × (call_round true 2 st' ≡ returns later cli_etimeout (some response))
    × IsReplyOf small_laws (some response) pong
reply_resp-call_round_example =
    reply_resp-call_round small_laws 9 1 99 32768 128 pong no_response second_frame ready
      (some 7 ∷ []) second_request (omega arith) (omega arith) second_frame_lem ready-Reached refl
      second_lem refl refl

abbrev first_reply : ReplyResp Items
first_reply = record { id = pos 1; rescode = cli_success; reply = some pong; tag = 99 }

take_reply-other_example :
    find_entry 2 (take_reply first_reply (first_request ∷ second_request ∷ [])).0
    ≡ some second_request
take_reply-other_example =
    take_reply-other 2 0 first_reply 2 (first_request ∷ second_request ∷ []) refl (ground arith) (
      (omega arith, inl refl),
      omega arith,
      (omega arith, tt),
      ((omega arith, inl refl), omega arith, tt, tt),
    )

fail_requests-times_example :
    (st' : Session Items) × (fail_requests true cli_econn ready ≡ some st')
    × ((cb : ℕ) → runs cb st'.events ≡ times cb (some 7 ∷ []))
fail_requests-times_example =
    fail_requests-times small_caps 9 true cli_econn ready (some 7 ∷ []) ready-Reached
      (rw ready_requests ((7, refl), tt))

ready_callbacks : All (λ o. (cb : ℕ) × (o ≡ some cb)) (callbacks ready.pending_requests)
ready_callbacks = rw ready_requests ((7, refl), tt)

-- The second call was the only one that waits, and another that had number 4 has returned.
closed-call_round_example :
    (st' later : Session Items) × (fail_requests true cli_econn (close_connection ready) ≡ some st')
    × (call_round false 2
          (record st' { pending_requests = erase_all (4 ∷ []) st'.pending_requests })
        ≡ returns later cli_econn (some no_response))
closed-call_round_example =
    closed-call_round true false cli_econn 2 (4 ∷ []) ready second_request no_response
      ready_callbacks second_lem refl (refl, tt)

ready_reason : ready.close_reason ≡ pos 0
unfolding call call_nb new_session send_call serialize_call serialized checked
ready_reason = refl

shut-call_round_example :
    (early st' late : Session Items) × (call_round false 2 (close_connection ready)
      ≡ returns early cli_success (some no_response))
    × (fail_requests true cli_econn (close_connection ready) ≡ some st')
    × (call_round false 2 st' ≡ returns late cli_econn (some no_response))
shut-call_round_example =
    shut-call_round true cli_econn 2 ready second_request no_response ready_callbacks ready_reason
      second_lem refl refl

abbrev unready : Session Items
unready = record asked_twice { cmd_handler = before_auth; awaits_auth = true }

abbrev auth_frame : Frame
auth_frame = frame_of (serialize_auth small_caps cli_success 4 32768 128)

auth_frame_lem : serialize_auth small_caps cli_success 4 32768 128 ≡ some auth_frame
unfolding serialize_auth serialized checked
auth_frame_lem = refl

auth_resp-auth_woken_example :
    (c : Items) × (st' : Session Items) × (small_caps.parse auth_frame.bytes ≡ some c)
    × (handle_message small_caps 9 unready c ≡ some (st', true))
    × (auth_woken st' ≡ (record st' { awaits_auth = false }, returned cli_success))
    × (st'.cmd_handler ≡ after_auth)
    × (st'.pending_requests ≡ unready.pending_requests)
auth_resp-auth_woken_example =
    auth_resp-auth_woken small_laws 9 cli_success 4 32768 128 auth_frame unready (omega arith)
      auth_frame_lem refl refl

-- The answer to the request to be authorized, and a pong.
abbrev welcome : List (List ℕ × Items)
welcome =
    (auth_frame.bytes, cons (word 101) (cons (word 0) (cons (word 4) nil)))
    ∷ (wire 128 (cons (word 106) nil), cons (word 106) nil)
    ∷ []

abbrev small_client : Session Items
small_client = record (new_session (record before { bufsize = 64 })) { awaits_auth = true }

abbrev welcomed : Session Items
welcomed = record small_client {
  ares = record { notified = true; result = cli_success };
  cmd_handler = after_auth;
}

welcome-IsFrame : All (IsFrame small_caps 64) welcome
unfolding serialize_auth serialized checked to_word
welcome-IsFrame = (
  (omega arith, omega arith, (128, refl), refl),
  ((omega arith, omega arith, (128, refl), refl), tt),
)

welcome-handled : handle_all small_laws 9 welcome small_client ≡ some welcomed
unfolding handle_all handle_message new_session to_word of_word parse_auth
welcome-handled = refl

abbrev one_by_one : List ℕ
one_by_one = map (λ n. 0) (concat welcome)

recv_loop-handle_all_example :
    recv_loop small_caps 9
      (map up_to one_by_one)
      (record { session = small_client; rbuffer = [] })
      (concat welcome)
    ≡ some (record { session = welcomed; rbuffer = [] }, [])
unfolding serialize_auth serialized checked to_word new_session
recv_loop-handle_all_example =
    recv_loop-handle_all small_laws 9 one_by_one 64
      (record { session = small_client; rbuffer = [] }) (concat welcome) welcome welcomed refl
      (omega arith) (inl (omega arith)) welcome-IsFrame refl (omega arith) welcome-handled

-- A callee that ends its reply twice.
run_methods-send_reply_example :
    (run_methods small_caps true
      (write_data_to (some ping) ∷ end_code (pos 3) ∷ end ∷ drop ∷ [])
      (new_reply true (pos 12))
      before).1
    ≡ send_reply small_caps true before (pos 12) (pos 3) (some ping)
run_methods-send_reply_example =
    run_methods-send_reply small_caps true true
      (write_data_to (some ping) ∷ end_code (pos 3) ∷ end ∷ []) (pos 12) before

tag_of-port_of_example :
    let tag = tag_of_address (htons 8080) 16777343 in
    (tag < 2 ^ 64)
    × (connection_type tag ≡ 1)
    × (address_of tag ≡ 16777343)
    × (port_of tag ≡ htons 8080)
    × (port_of tag ≡ 8080 → 8080 % 256 ≡ 8080 / 256)
    × (connection_type (tag_of_pid (pos 77)) ≡ 0)
    × (pid_of (tag_of_pid (pos 77)) ≡ pos 77)
tag_of-port_of_example =
    tag_of-port_of 8080 16777343 (pos 77) (omega arith) (omega arith) (omega arith)
