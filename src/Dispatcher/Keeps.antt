-- ===== src/Dispatcher/Keeps.antt =====
-- The handlers that leave the pending calls alone (src/disp.cc): all but those of calls and replies.
use flora.Base.{
  ℕ, ◌≡◌, Bool, false, Option, some, String, ℤ, arith, string_key, nat_key, Option-cases, inl, inr,
  ◌∙◌,
}
use flora.Caps.{CapsApi}
use flora.Protocol.{flora_version}
use flora.Message.ResponseSerializer.{serialize_auth}
use flora.Message.RequestParser.{parse_auth}
use flora.Message.Data.{AuthReq}
use flora.Dispatcher.State.{State, Written, AdapterInfo, write}
use flora.Dispatcher.Subscription.{
  subscribe, unsubscribe, write_post_msg_to_adapters, post_to, post_msg, check_subscriptions,
}
use flora.Dispatcher.Client.{
  insert_info, add_adapter, add_monitor, register, write_monitor_list, write_monitor_list_add,
  write_monitor_list_remove, after_auth, auth, answer_auth, erase_info, do_erase_adapter,
  handle_declare_method, handle_remove_method, handle_ping_req, handle_auth_req,
}

-- The pending calls and the last number that was given out are as they were.
abbrev pub Keeps : {C : Type 0} → State C → State C → Type 0
Keeps st st' = (st'.pending_calls ≡ st.pending_calls) × (st'.reqseq ≡ st.reqseq)

module _ (api : CapsApi) (os : ℕ → Written) where
  pub subscribe-Keeps :
      (st : State api.Caps) (sender : ℕ) (name : String)
      → Keeps st (subscribe api os st sender name).0
  unfolding subscribe
  subscribe-Keeps st sender name = ground arith

  pub unsubscribe-Keeps :
      (st : State api.Caps) (sender : ℕ) (name : String)
      → Keeps st (unsubscribe api os st sender name).0
  unfolding unsubscribe
  unsubscribe-Keeps st sender name = ground arith

  pub post_msg-Keeps :
      (st : State api.Caps) (name : String) (type : ℕ) (args : Option api.Caps) (sender : ℕ)
      (cli_name : String)
      → Keeps st (post_msg api os st name type args sender cli_name).0
  unfolding post_msg post_to write_post_msg_to_adapters
  post_msg-Keeps st name type args sender cli_name = ground arith

  pub register-Keeps :
      (st : State api.Caps) (r : AuthReq) (sender : ℕ) → Keeps st (register api os st r sender).0
  unfolding register add_adapter add_monitor insert_info
  register-Keeps st r sender = ground arith

  pub write_monitor_list_add-Keeps :
      (st st' : State api.Caps) (newitem : ℕ)
      → write_monitor_list_add api os st newitem ≡ some st'
      → Keeps st st'
  unfolding write_monitor_list_add
  write_monitor_list_add-Keeps st st' newitem e = ground arith

  pub write_monitor_list_remove-Keeps :
      (st st' : State api.Caps) (id : ℕ)
      → write_monitor_list_remove api os st id ≡ some st'
      → Keeps st st'
  unfolding write_monitor_list_remove
  write_monitor_list_remove-Keeps st st' id e = ground arith

  pub check_subscriptions-Keeps :
      (now : ℕ) (st : State api.Caps) → Keeps st (check_subscriptions now st)
  unfolding check_subscriptions
  check_subscriptions-Keeps now st = ground arith

  pub after_auth-Keeps :
      (st st' : State api.Caps) (result : ℤ) (flags sender : ℕ) (b : Bool)
      → after_auth api os st result flags sender ≡ some (st', b)
      → Keeps st st'
  unfolding after_auth write_monitor_list write_monitor_list_add
  after_auth-Keeps st st' result flags sender b e = ground arith

  pub answer_auth-Keeps :
      (flags sender : ℕ) (result : ℤ) (st st' : State api.Caps) (b : Bool)
      → answer_auth api os flags sender (st, result) ≡ some (st', b)
      → Keeps st st'
  answer_auth-Keeps flags sender result st st' b e =
      elim (Option-cases (
        serialize_auth api result flora_version st.buf_size (st.net.heap sender).serialize_flags)) [
          | inl n ↦
              let end : ◌≡◌ {A = Option (State api.Caps × Bool)} (some (st, false))
                  (some (st', b)) =
                rw (n, answer_auth) at e in
              ground arith
          | inr (f, s) ↦
              let sent : State api.Caps = record st { net = write os sender f st.net } in
              after_auth-Keeps sent st' result flags sender b (rw (s, answer_auth) at e)
        ]

  pub auth-Keeps :
      (st st' : State api.Caps) (r : AuthReq) (sender : ℕ) (b : Bool)
      → auth api os st r sender ≡ some (st', b)
      → Keeps st st'
  unfolding auth
  auth-Keeps st st' r sender b e =
      let (st₁, result) = register api os st r sender in
      let (pending, numbers) = register-Keeps st r sender in
      let (pending', numbers') = answer_auth-Keeps r.flags sender result st₁ st' b e in
      (pending' ∙ pending, numbers' ∙ numbers)

  pub handle_auth_req-Keeps :
      (st st' : State api.Caps) (c : api.Caps) (sender : ℕ) (b : Bool)
      → handle_auth_req api os st c sender ≡ some (st', b)
      → Keeps st st'
  unfolding handle_auth_req
  handle_auth_req-Keeps st st' c sender b e = elim (Option-cases (parse_auth api c).0) [
    | inl n ↦ ground arith
    | inr (r, p) ↦ auth-Keeps st st' r sender b (rw (p, handle_auth_req) at e)
  ]

  pub erase_info-Keeps :
      (now sender : ℕ) (info : AdapterInfo) (st st' : State api.Caps)
      → erase_info api os now sender info st ≡ some st'
      → Keeps st st'
  unfolding erase_info check_subscriptions write_monitor_list_remove
  erase_info-Keeps now sender info st st' e = ground arith

  pub do_erase_adapter-Keeps :
      (now : ℕ) (st st' : State api.Caps) (sender : ℕ)
      → do_erase_adapter api os now st sender ≡ some st'
      → Keeps st st'
  unfolding do_erase_adapter erase_info check_subscriptions write_monitor_list_remove
  do_erase_adapter-Keeps now st st' sender e = ground arith

  pub handle_declare_method-Keeps :
      (st st' : State api.Caps) (c : api.Caps) (sender : ℕ) (b : Bool)
      → handle_declare_method api os st c sender ≡ some (st', b)
      → Keeps st st'
  unfolding handle_declare_method
  handle_declare_method-Keeps st st' c sender b e = ground arith

  pub handle_remove_method-Keeps :
      (st st' : State api.Caps) (c : api.Caps) (sender : ℕ) (b : Bool)
      → handle_remove_method api os st c sender ≡ some (st', b)
      → Keeps st st'
  unfolding handle_remove_method
  handle_remove_method-Keeps st st' c sender b e = ground arith

  pub handle_ping_req-Keeps :
      (st : State api.Caps) (c : api.Caps) (sender : ℕ)
      → Keeps st (handle_ping_req api os st c sender).0
  unfolding handle_ping_req
  handle_ping_req-Keeps st c sender = ground arith
