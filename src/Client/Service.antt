-- ===== src/Client/Service.antt =====
-- From a client's request to the service's handler (src/cli.cc, src/disp.cc).
use flora.Base.{
  ℕ, ◌≡◌, refl, ap, ◌∙◌, Bool, true, false, [], ◌∷◌, ◌++◌, Option, some, String, ℤ, pos, arith, ltb,
  ◌==◌, string_key, Option-cases, inl, inr,
}
use flora.Caps.{CapsApi, CapsLaws, Parse, value_of}
use flora.Protocol.{cli_success, has_monitor_flag, msg_handler_count}
use flora.Message.Data.{Frame, PostReq, is_valid_msgtype}
use flora.Message.Delivery.{with_command}
use flora.Message.RequestSerializer.{serialize_subscribe, serialize_post}
use flora.Message.RequestParser.{parse_subscribe, parse_post}
use flora.Message.RequestRoundTrip.{serialize_subscribe-received, serialize_post-received}
use flora.Dispatcher.State.{State, Written, AdapterInfo, found, info_of}
use flora.Dispatcher.Subscription.{
  has_info, handle_subscribe_req, handle_post_req, post_parsed, post_msg,
}
use flora.Dispatcher.Subscription.{subscribe as subscribe_adapter}
use flora.Dispatcher.Subscribers.{subscribe_result}
use flora.Dispatcher.Handle.{finish, put, handle_cmd, handle_message, dispatch, msg_handler}
use flora.Client.Requests.{Client, subscribe, post}

pub with_command-split :
    {api : CapsApi} {A : Type 0} (laws : CapsLaws api) (parser : Parse api.Caps A) (c : api.Caps)
    (k : ℤ) (m : A)
    → (with_command laws parser c).0 ≡ some (k, m)
    → ((api.read_int32 c).0 ≡ some k) × ((parser (api.read_int32 c).1).0 ≡ some m)
with_command-split laws parser c k m e = ground arith

pub found-has_info :
    (api : CapsApi) (os : ℕ → Written) (st : State api.Caps) (a : ℕ) (info : AdapterInfo)
    → info_of st a ≡ found info
    → has_info api os st a ≡ true
unfolding info_of
found-has_info api os st a info e = ground arith

subscribe-sent :
    (api : CapsApi) (takes : Bool) (cl cl' : Client) (name : String)
    → subscribe api takes cl (some name) ≡ (cl', cli_success)
    → (f : Frame) × (serialize_subscribe api name cl.bufsize cl.serialize_flags ≡ some f)
      × (cl'.sent ≡ f ∷ cl.sent)
unfolding subscribe
subscribe-sent api takes cl cl' name e =
    elim (Option-cases (serialize_subscribe api name cl.bufsize cl.serialize_flags)) [
      | inl n ↦ absurd (ground arith)
      | inr (f, s) ↦ (f, s, ground arith)
    ]

post-sent :
    (api : CapsApi) (takes : Bool) (cl cl' : Client) (name : String) (msg : Option api.Caps)
    (msgtype : ℕ)
    → post api takes cl (some name) msg msgtype ≡ (cl', cli_success)
    → (f : Frame) × (serialize_post api name msgtype msg cl.bufsize cl.serialize_flags ≡ some f)
      × (cl'.sent ≡ f ∷ cl.sent)
      × (is_valid_msgtype msgtype ≡ true)
unfolding post
post-sent api takes cl cl' name msg msgtype e =
    elim (Option-cases (serialize_post api name msgtype msg cl.bufsize cl.serialize_flags)) [
      | inl n ↦ absurd (ground arith)
      | inr (f, s) ↦ (f, s, ground arith, ground arith)
    ]

put-parsed :
    (api : CapsApi) (f : Frame) (c : api.Caps) (a : ℕ) (st : State api.Caps)
    → api.parse f.bytes ≡ some c
    → put api f a st ≡ (record st { cmd_packets = st.cmd_packets ++ (some c, a) ∷ [] }, true)
unfolding put
put-parsed api f c a st e = rw (e, put)

module _ (api : CapsApi) (os : ℕ → Written) (laws : CapsLaws api) where
  -- A client's message reaches the handler of its command.
  pub handle_cmd-handler :
      (now n : ℕ) (st : State api.Caps) (a : ℕ) (info : AdapterInfo) (c : api.Caps)
      → info_of st a ≡ found info
      → has_monitor_flag info.flags ≡ false
      → ltb n msg_handler_count ≡ true
      → (api.read_int32 c).0 ≡ some (pos n)
      → handle_cmd api os now st (some c, a)
        ≡ finish api os now a (msg_handler api os n now st (api.read_int32 c).1 a)
  unfolding handle_cmd handle_message dispatch
  handle_cmd-handler now n st a info c i client valid read =
      rw (i, handle_message, client, read, valid)

  pub finish-true :
      (now a : ℕ) (p : State api.Caps × Bool)
      → p.1 ≡ true
      → finish api os now a (some p) ≡ some (record p.0 { handle_cmd_tp = now })
  finish-true now a (st, b) e = rw e

  pub subscribe-handled :
      (now : ℕ) (st : State api.Caps) (a : ℕ) (info : AdapterInfo) (c : api.Caps) (name : String)
      → info_of st a ≡ found info
      → (name == "") ≡ false
      → (parse_subscribe api c).0 ≡ some name
      → finish api os now a (some (handle_subscribe_req api os st c a))
        ≡ some (record (subscribe_adapter api os st a name).0 { handle_cmd_tp = now })
  unfolding handle_subscribe_req
  subscribe-handled now st a info c name i named p =
      let done_well : (subscribe_adapter api os st a name).1 ≡ true =
        (subscribe_result api os st a name named).0 in
      rw (found-has_info api os st a info i, p)
        (finish-true now a (subscribe_adapter api os st a name) done_well)

  -- A client's subscription that was sent is queued by the service as one message, and when it is
  -- handled, for a client that is authorized and no monitor and a name that is not empty, the
  -- dispatcher subscribes the client to the name.
  pub subscribe-handle_cmd :
      (takes : Bool) (cl cl' : Client) (name : String) (now : ℕ) (st later : State api.Caps) (a : ℕ)
      (info : AdapterInfo)
      → subscribe api takes cl (some name) ≡ (cl', cli_success)
      → (name == "") ≡ false
      → info_of later a ≡ found info
      → has_monitor_flag info.flags ≡ false
      → (f : Frame) × (c : api.Caps) × (cl'.sent ≡ f ∷ cl.sent)
        × (put api f a st ≡ (record st { cmd_packets = st.cmd_packets ++ (some c, a) ∷ [] }, true))
        × (handle_cmd api os now later (some c, a)
            ≡ some (record (subscribe_adapter api os later a name).0 { handle_cmd_tp = now }))
  unfolding msg_handler
  subscribe-handle_cmd takes cl cl' name now st later a info e named i client =
      let (f, s, sent) = subscribe-sent api takes cl cl' name e in
      let (c, parses, ((k, m), read, (is_cmd, is_name), _)) =
        serialize_subscribe-received laws name cl.bufsize cl.serialize_flags f s in
      let (command, text) = with_command-split laws (parse_subscribe api) c k m read in
      (
        f,
        c,
        sent,
        put-parsed api f c a st parses,
        handle_cmd-handler now 1 later a info c i client refl (command ∙ ap some is_cmd)
            ∙ subscribe-handled now later a info (api.read_int32 c).1 name i named
                (text ∙ ap some is_name),
      )

  post_msg-true :
      (st : State api.Caps) (r : PostReq api.Caps) (a : ℕ) (name : String)
      → is_valid_msgtype r.msgtype ≡ true
      → (r.name == "") ≡ false
      → (post_msg api os st r.name r.msgtype r.args a name).1 ≡ true
  unfolding post_msg
  post_msg-true st r a name valid named = rw (valid, named)

  post-handled :
      (now : ℕ) (st : State api.Caps) (a : ℕ) (info : AdapterInfo) (c : api.Caps)
      (r : PostReq api.Caps)
      → info_of st a ≡ found info
      → is_valid_msgtype r.msgtype ≡ true
      → (r.name == "") ≡ false
      → (parse_post api c).0 ≡ some r
      → finish api os now a (handle_post_req api os st c a)
        ≡ some (record (post_msg api os st r.name r.msgtype r.args a info.name).0 {
          handle_cmd_tp = now;
        })
  unfolding handle_post_req post_parsed
  post-handled now st a info c r i valid named p =
      let posted = post_msg api os st r.name r.msgtype r.args a info.name in
      rw (i, p, handle_post_req)
        (finish-true now a posted (post_msg-true st r a info.name valid named))

  -- A client's post that was sent is queued by the service as one message, and when it is handled,
  -- for a client that is authorized and no monitor and a name that is not empty, the dispatcher
  -- posts a message of the same contents under the same name and type.
  pub post-handle_cmd :
      (takes : Bool) (cl cl' : Client) (name : String) (msg : Option api.Caps) (msgtype now : ℕ)
      (st later : State api.Caps) (a : ℕ) (info : AdapterInfo)
      → post api takes cl (some name) msg msgtype ≡ (cl', cli_success)
      → (name == "") ≡ false
      → info_of later a ≡ found info
      → has_monitor_flag info.flags ≡ false
      → (f : Frame) × (c : api.Caps) × (args : Option api.Caps) × (cl'.sent ≡ f ∷ cl.sent)
        × (put api f a st ≡ (record st { cmd_packets = st.cmd_packets ++ (some c, a) ∷ [] }, true))
        × (value_of laws.values args ≡ value_of laws.values msg)
        × (handle_cmd api os now later (some c, a)
            ≡ some (record (post_msg api os later name msgtype args a info.name).0 {
              handle_cmd_tp = now;
            }))
  unfolding msg_handler
  post-handle_cmd takes cl cl' name msg msgtype now st later a info e named i client =
      let (f, s, sent, valid) = post-sent api takes cl cl' name msg msgtype e in
      let (c, parses, ((k, r), read, (is_cmd, (is_name, is_type, same)), _)) =
        serialize_post-received laws name msgtype msg cl.bufsize cl.serialize_flags f s in
      let (command, text) = with_command-split laws (parse_post api) c k r read in
      let handled =
        post-handled now later a info (api.read_int32 c).1 r i (ap is_valid_msgtype is_type ∙ valid)
          (ap (λ n. n == "") is_name ∙ named) text in
      (
        f,
        c,
        r.args,
        sent,
        put-parsed api f c a st parses,
        same,
        handle_cmd-handler now 3 later a info c i client refl (command ∙ ap some is_cmd)
            ∙ handled
            ∙ λ j.
                some (record (post_msg api os later (is_name j) (is_type j) r.args a info.name).0 {
                  handle_cmd_tp = now;
                }),
      )
