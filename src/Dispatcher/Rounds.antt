-- ===== src/Dispatcher/Rounds.antt =====
-- A round of the dispatcher keeps the pending calls in order (src/disp.cc, `handle_cmd` and
-- `handle_cmds`).
use flora.Base.{
  ℕ, zero, suc, ◌≡◌, refl, Bool, true, false, List, [], ◌∷◌, Option, none, some, ℤ, pos, negsuc,
  arith, ltb, Option-cases, Bool-cases, inl, inr, subst, ◌⊎◌,
}
use flora.Caps.{CapsApi}
use flora.Protocol.{msg_handler_count, has_monitor_flag}
use flora.Dispatcher.State.{State, Written, info_of}
use flora.Message.RequestParser.{parse_post}
use flora.Dispatcher.Subscription.{
  subscribe, unsubscribe, post_msg, handle_subscribe_req, handle_unsubscribe_req, handle_post_req,
  post_parsed,
}
use flora.Dispatcher.Client.{handle_ping_req}
use flora.Dispatcher.Call.{discard_pending_calls}
use flora.Dispatcher.Handle.{
  close_sender, msg_handler, dispatch, handle_message, handle_cmd, handle_packets,
  handle_cmds_round,
}
use flora.Dispatcher.Keeps.{
  Keeps, post_msg-Keeps, handle_auth_req-Keeps, do_erase_adapter-Keeps, handle_declare_method-Keeps,
  handle_remove_method-Keeps, handle_ping_req-Keeps,
}
use flora.Dispatcher.Orderly.{
  IsOrderly, Keeps-IsOrderly, some_path, none-some, InfoRef-cases, ended,
}
use flora.Dispatcher.CallOrder.{
  handle_call_req-IsOrderly, handle_reply_req-IsOrderly, discard_from-IsOrderly,
}

List-cases : {A : Type 0} (xs : List A) → (xs ≡ []) ⊎ ((y : A) × (ys : List A) × (xs ≡ y ∷ ys))
List-cases [] = inl refl
List-cases (x ∷ xs) = inr (x, xs, refl)

module _ (api : CapsApi) (os : ℕ → Written) where
  open api use {Caps}

  handle_subscribe_req-Keeps :
      (st : State Caps) (c : Caps) (sender : ℕ)
      → Keeps st (handle_subscribe_req api os st c sender).0
  unfolding handle_subscribe_req subscribe
  handle_subscribe_req-Keeps st c sender = ground arith

  handle_unsubscribe_req-Keeps :
      (st : State Caps) (c : Caps) (sender : ℕ)
      → Keeps st (handle_unsubscribe_req api os st c sender).0
  unfolding handle_unsubscribe_req unsubscribe
  handle_unsubscribe_req-Keeps st c sender = ground arith

  handle_post_req-IsOrderly :
      (st st' : State Caps) (c : Caps) (sender : ℕ) (b : Bool)
      → IsOrderly st
      → handle_post_req api os st c sender ≡ some (st', b)
      → IsOrderly st'
  unfolding handle_post_req post_parsed
  handle_post_req-IsOrderly st st' c sender b h e = elim (InfoRef-cases (info_of st sender)) [
    | inl i ↦ ended (st, false) st' b h (rw (i, handle_post_req) at e)
    | inr (inl i) ↦ absurd (none-some (rw (i, handle_post_req) at e))
    | inr (inr (info, i)) ↦ elim (Option-cases (parse_post api c).0) [
      | inl p ↦ ended (st, false) st' b h (rw (i, p, handle_post_req, post_parsed) at e)
      | inr (r, p) ↦
          let posted = post_msg api os st r.name r.msgtype r.args sender info.name in
          ended posted st' b
            (Keeps-IsOrderly st posted.0
              (post_msg-Keeps api os st r.name r.msgtype r.args sender info.name) h)
            (rw (i, p, handle_post_req, post_parsed) at e)
    ]
  ]

  msg_handler-IsOrderly :
      (n now : ℕ) (st st' : State Caps) (c : Caps) (a : ℕ) (b : Bool)
      → IsOrderly st
      → msg_handler api os n now st c a ≡ some (st', b)
      → IsOrderly st'
  unfolding msg_handler
  msg_handler-IsOrderly zero now st st' c a b h e =
      Keeps-IsOrderly st st' (handle_auth_req-Keeps api os st st' c a b e) h
  msg_handler-IsOrderly (suc zero) now st st' c a b h e =
      ended (handle_subscribe_req api os st c a) st' b
        (Keeps-IsOrderly st (handle_subscribe_req api os st c a).0
          (handle_subscribe_req-Keeps st c a) h)
        e
  msg_handler-IsOrderly (suc (suc zero)) now st st' c a b h e =
      ended (handle_unsubscribe_req api os st c a) st' b
        (Keeps-IsOrderly st (handle_unsubscribe_req api os st c a).0
          (handle_unsubscribe_req-Keeps st c a) h)
        e
  msg_handler-IsOrderly (suc (suc (suc zero))) now st st' c a b h e =
      handle_post_req-IsOrderly st st' c a b h e
  msg_handler-IsOrderly (suc (suc (suc (suc zero)))) now st st' c a b h e =
      handle_reply_req-IsOrderly api os st st' c a b h e
  msg_handler-IsOrderly (suc (suc (suc (suc (suc zero))))) now st st' c a b h e =
      Keeps-IsOrderly st st' (handle_declare_method-Keeps api os st st' c a b e) h
  msg_handler-IsOrderly (suc (suc (suc (suc (suc (suc zero)))))) now st st' c a b h e =
      Keeps-IsOrderly st st' (handle_remove_method-Keeps api os st st' c a b e) h
  msg_handler-IsOrderly (suc (suc (suc (suc (suc (suc (suc zero))))))) now st st' c a b h e =
      handle_call_req-IsOrderly api os now st st' c a b h e
  msg_handler-IsOrderly (suc (suc (suc (suc (suc (suc (suc (suc zero)))))))) now st st' c a b h e =
      ended (handle_ping_req api os st c a) st' b
        (Keeps-IsOrderly st (handle_ping_req api os st c a).0 (handle_ping_req-Keeps api os st c a)
          h)
        e
  msg_handler-IsOrderly (suc (suc (suc (suc (suc (suc (suc (suc (suc n))))))))) now st st' c a b h
        e =
      absurd (none-some e)

  dispatch-IsOrderly :
      (now : ℕ) (st st' : State Caps) (a : ℕ) (p : Option ℤ × Caps)
      → IsOrderly st
      → dispatch api os now st a p ≡ some st'
      → IsOrderly st'
  unfolding dispatch
  dispatch-IsOrderly now st st' a (none, c) h e = subst IsOrderly (some_path e) h
  dispatch-IsOrderly now st st' a (some (negsuc n), c) h e = absurd (none-some e)
  dispatch-IsOrderly now st st' a (some (pos n), c) h e =
      elim (Bool-cases (ltb n msg_handler_count)) [
        | inr over ↦
            let end : some (close_sender api st a) ≡ some st' = rw (over, dispatch) at e in
            subst IsOrderly (some_path end) h
        | inl valid ↦ elim (Option-cases (msg_handler api os n now st c a)) [
          | inl crash ↦ absurd (none-some (rw (valid, crash, dispatch) at e))
          | inr ((st₁, true), done) ↦
              let h₁ = msg_handler-IsOrderly n now st st₁ c a true h done in
              let end : some (record st₁ { handle_cmd_tp = now }) ≡ some st' =
                rw (valid, done, dispatch) at e in
              subst IsOrderly (some_path end) h₁
          | inr ((st₁, false), done) ↦
              let h₁ = msg_handler-IsOrderly n now st st₁ c a false h done in
              let end : some (record (close_sender api st₁ a) { handle_cmd_tp = now }) ≡ some st' =
                rw (valid, done, dispatch) at e in
              subst IsOrderly (some_path end) h₁
        ]
      ]

  handle_cmd-IsOrderly :
      (now : ℕ) (st st' : State Caps) (p : Option Caps × ℕ)
      → IsOrderly st
      → handle_cmd api os now st p ≡ some st'
      → IsOrderly st'
  unfolding handle_cmd handle_message
  handle_cmd-IsOrderly now st st' (none, a) h e =
      Keeps-IsOrderly st st' (do_erase_adapter-Keeps api os now st st' a e) h
  handle_cmd-IsOrderly now st st' (some c, a) h e = elim (InfoRef-cases (info_of st a)) [
    | inl i ↦
        dispatch-IsOrderly now st st' a (api.read_int32 c) h
          (rw (i, handle_cmd, handle_message) at e)
    | inr (inl i) ↦ absurd (none-some (rw (i, handle_cmd, handle_message) at e))
    | inr (inr (info, i)) ↦ elim (Bool-cases (has_monitor_flag info.flags)) [
      | inl m ↦
          let end : some (close_sender api st a) ≡ some st' =
            rw (i, m, handle_cmd, handle_message) at e in
          subst IsOrderly (some_path end) h
      | inr m ↦
          dispatch-IsOrderly now st st' a (api.read_int32 c) h
            (rw (i, m, handle_cmd, handle_message) at e)
    ]
  ]

  handle_packets-IsOrderly :
      (clock : ℕ → ℕ) (n : ℕ) (ps : List (Option Caps × ℕ)) (st st' : State Caps)
      → IsOrderly st
      → handle_packets api os clock n ps st ≡ some st'
      → IsOrderly st'
  unfolding handle_packets
  handle_packets-IsOrderly clock n [] st st' h e = subst IsOrderly (some_path e) h
  handle_packets-IsOrderly clock n (p ∷ ps) st st' h e =
      elim (Option-cases (handle_cmd api os (clock n) st p)) [
        | inl crash ↦ absurd (none-some (rw (crash, handle_packets) at e))
        | inr (st₁, once) ↦
            handle_packets-IsOrderly clock (suc n) ps st₁ st'
              (handle_cmd-IsOrderly (clock n) st st₁ p h once) (rw (once, handle_packets) at e)
      ]

  pub handle_cmds_round-IsOrderly :
      (clock : ℕ → ℕ) (st st' : State Caps)
      → IsOrderly st
      → handle_cmds_round api os clock st ≡ some st'
      → IsOrderly st'
  unfolding handle_cmds_round discard_pending_calls
  handle_cmds_round-IsOrderly clock st st' h e = elim (Bool-cases st.working) [
    | inr off ↦
        let idle : State Caps = record st { working = false } in
        let end : some idle ≡ some st' = rw (off, handle_cmds_round) at e in
        subst IsOrderly (some_path end) h
    | inl on ↦ elim (List-cases st.cmd_packets) [
      | inl empty ↦
          discard_from-IsOrderly api os (clock 0) st.pending_calls st st' h.0 h.1
            (rw (on, empty, handle_cmds_round) at e)
      | inr (p, ps, some_packets) ↦
          handle_packets-IsOrderly clock 0 (p ∷ ps) (record st { cmd_packets = [] }) st' h
            (rw (on, some_packets, handle_cmds_round) at e)
    ]
  ]
