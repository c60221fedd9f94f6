-- ===== src/Client/Quiet.antt =====
-- What a message changes in the client, but for a reply (src/cli.cc).
use flora.Base.{
  ℕ, zero, suc, ◌≡◌, refl, sym, ◌∙◌, ◌⊎◌, inl, inr, true, false, Bool, [], ◌∷◌, Option, none, some,
  ℤ, if◌then◌else◌, arith, subst, ltb, ◌==◌, int_key,
}
use flora.Caps.{CapsApi}
use flora.Protocol.{
  monitor_subtype_num, cmd_post_resp, cmd_call_resp, cmd_reply_resp, cmd_monitor_resp,
  cmd_pong_resp, cmd_auth_resp,
}
use flora.Message.Data.{PostResp, CallResp, ReplyResp, AuthResp}
use flora.Message.MonitorParser.{ListParse, parsed, refused, crashed, unfinished, MonitorDetail}
use flora.Client.State.{
  Session, Event, notify_if, post_received, call_received, list_all, list_add, list_remove,
  CmdHandler, before_auth, after_auth,
}
use flora.Client.Handlers.{
  Handled, handle_reply, handle_post_resp, handle_call_resp, handle_monitor_list_all,
  handle_monitor_list_add, handle_monitor_list_remove, handle_monitor_detail, monitor_handler,
  detail_handler, handle_monitor_resp, handle_cmd_after_auth, handle_cmd_before_auth, authorized,
  handle_cmd, handle_read, handle_message, handle_reply_resp,
}
use flora.Client.Callbacks.{runs, runs_once, runs-append}

-- No request is added, answered or counted, and no callback of a call is run.
abbrev pub IsQuiet : {C : Type 0} → Session C → Session C → Type 0
IsQuiet st st' =
    (st'.pending_requests ≡ st.pending_requests)
    × (st'.reqseq ≡ st.reqseq)
    × (st'.closed ≡ st.closed)
    × ((cb : ℕ) → runs cb st'.events ≡ runs cb st.events)

module _ {C : Type 0} where
  some_state :
      (x st' : Session C) (a b : Bool) → ◌≡◌ {A = Handled C} (some (x, a)) (some (st', b)) → x ≡ st'
  some_state x st' a b h = ground arith

  quiet :
      (st x st' : Session C) (a b : Bool)
      → ◌≡◌ {A = Handled C} (some (x, a)) (some (st', b))
      → IsQuiet st x
      → IsQuiet st st'
  quiet st x st' a b h q = subst (IsQuiet st) (some_state x st' a b h) q

  either :
      (P : Session C → Type 0) (test : Bool) {x y : Handled C} (st' : Session C) (b : Bool)
      → (x ≡ some (st', b) → P st')
      → (y ≡ some (st', b) → P st')
      → (if test then x else y) ≡ some (st', b)
      → P st'
  either P true st' b first second h = first h
  either P false st' b first second h = second h

  refl-IsQuiet : (st : Session C) → IsQuiet st st
  refl-IsQuiet st = (refl, refl, refl, λ cb. refl)

  notify_if-IsQuiet :
      (present : Bool) (st : Session C) (e : Event C)
      → ((cb : ℕ) → runs_once cb e ≡ 0)
      → IsQuiet st (notify_if present st e)
  notify_if-IsQuiet true st e h =
      (refl, refl, refl, λ cb. omega (arith, runs-append cb st.events (e ∷ []), h cb))
  notify_if-IsQuiet false st e h = refl-IsQuiet st

module _ (api : CapsApi) (fuel : ℕ) where
  open api use {Caps}

  handle_post_resp-IsQuiet :
      (st st' : Session Caps) (o : Option (PostResp Caps)) (b : Bool)
      → handle_post_resp api fuel st o ≡ some (st', b)
      → IsQuiet st st'
  unfolding handle_post_resp
  handle_post_resp-IsQuiet st st' none b h = quiet st st st' false b h (refl-IsQuiet st)
  handle_post_resp-IsQuiet st st' (some r) b h =
      quiet st _ st' true b h (notify_if-IsQuiet st.has_cli_callback _ (post_received r) λ cb. refl)

  handle_call_resp-IsQuiet :
      (st st' : Session Caps) (o : Option (CallResp Caps)) (b : Bool)
      → handle_call_resp api fuel st o ≡ some (st', b)
      → IsQuiet st st'
  unfolding handle_call_resp
  handle_call_resp-IsQuiet st st' none b h = quiet st st st' false b h (refl-IsQuiet st)
  handle_call_resp-IsQuiet st st' (some r) b h =
      quiet st _ st' true b h (notify_if-IsQuiet st.has_cli_callback _ (call_received r) λ cb. refl)

  handle_monitor_list_all-IsQuiet :
      (st st' : Session Caps) (l : ListParse) (b : Bool)
      → handle_monitor_list_all api fuel st l ≡ some (st', b)
      → IsQuiet st st'
  unfolding handle_monitor_list_all
  handle_monitor_list_all-IsQuiet st st' (parsed items) b h =
      quiet st _ st' true b h (notify_if-IsQuiet true st (list_all items) λ cb. refl)
  handle_monitor_list_all-IsQuiet st st' refused b h = quiet st st st' false b h (refl-IsQuiet st)
  handle_monitor_list_all-IsQuiet st st' crashed b h = absurd (ground arith)
  handle_monitor_list_all-IsQuiet st st' unfinished b h = absurd (ground arith)

  handle_monitor_list_add-IsQuiet :
      (st st' : Session Caps) (l : ListParse) (b : Bool)
      → handle_monitor_list_add api fuel st l ≡ some (st', b)
      → IsQuiet st st'
  unfolding handle_monitor_list_add
  handle_monitor_list_add-IsQuiet st st' (parsed []) b h =
      quiet st st st' false b h (refl-IsQuiet st)
  handle_monitor_list_add-IsQuiet st st' (parsed (item ∷ items)) b h =
      quiet st _ st' true b h (notify_if-IsQuiet true st (list_add item) λ cb. refl)
  handle_monitor_list_add-IsQuiet st st' refused b h = quiet st st st' false b h (refl-IsQuiet st)
  handle_monitor_list_add-IsQuiet st st' crashed b h = absurd (ground arith)
  handle_monitor_list_add-IsQuiet st st' unfinished b h = absurd (ground arith)

  handle_monitor_list_remove-IsQuiet :
      (st st' : Session Caps) (o : Option ℕ) (b : Bool)
      → handle_monitor_list_remove api fuel st o ≡ some (st', b)
      → IsQuiet st st'
  unfolding handle_monitor_list_remove
  handle_monitor_list_remove-IsQuiet st st' none b h = quiet st st st' false b h (refl-IsQuiet st)
  handle_monitor_list_remove-IsQuiet st st' (some id) b h =
      quiet st _ st' true b h (notify_if-IsQuiet true st (list_remove id) λ cb. refl)

  handle_monitor_detail-refuses :
      (detail : MonitorDetail) (c : Caps) (st : Session Caps)
      → handle_monitor_detail api fuel detail c st ≡ some (st, false)
  unfolding handle_monitor_detail
  handle_monitor_detail-refuses detail c st = refl

  monitor_handler-IsQuiet :
      (subtype : ℕ) (c : Caps) (st st' : Session Caps) (b : Bool)
      → monitor_handler api fuel subtype c st ≡ some (st', b)
      → IsQuiet st st'
  unfolding monitor_handler
  monitor_handler-IsQuiet zero c st st' b h = handle_monitor_list_all-IsQuiet st st' _ b h
  monitor_handler-IsQuiet (suc zero) c st st' b h = handle_monitor_list_add-IsQuiet st st' _ b h
  monitor_handler-IsQuiet (suc (suc zero)) c st st' b h =
      handle_monitor_list_remove-IsQuiet st st' _ b h
  monitor_handler-IsQuiet (suc (suc (suc n))) c st st' b h =
      quiet st st st' false b
        (sym (handle_monitor_detail-refuses (detail_handler api fuel n) c st) ∙ h) (refl-IsQuiet st)

  handle_monitor_resp-IsQuiet :
      (st st' : Session Caps) (o : Option ℕ × Caps) (b : Bool)
      → handle_monitor_resp api fuel st o ≡ some (st', b)
      → IsQuiet st st'
  unfolding handle_monitor_resp
  handle_monitor_resp-IsQuiet st st' (none, c) b h = quiet st st st' false b h (refl-IsQuiet st)
  handle_monitor_resp-IsQuiet st st' (some subtype, c) b h =
      either (λ s. IsQuiet st s) (ltb subtype monitor_subtype_num) st' b
        (monitor_handler-IsQuiet subtype c st st' b)
        (λ e. quiet st st st' false b e (refl-IsQuiet st)) h

  -- What a message does: it is a reply, or it is quiet.
  abbrev pub IsEffect : Session Caps → Session Caps → Type 0
  IsEffect st st' = IsQuiet st st' ⊎ ((r : ReplyResp Caps) × (st' ≡ handle_reply st r))

  handle_reply_resp-IsEffect :
      (st st' : Session Caps) (o : Option (ReplyResp Caps)) (b : Bool)
      → handle_reply_resp api fuel st o ≡ some (st', b)
      → IsEffect st st'
  unfolding handle_reply_resp
  handle_reply_resp-IsEffect st st' none b h = inl (quiet st st st' false b h (refl-IsQuiet st))
  handle_reply_resp-IsEffect st st' (some r) b h =
      inr (r, sym (some_state (handle_reply st r) st' true b h))

  handle_cmd_after_auth-IsEffect :
      (cmd : ℤ) (c : Caps) (st st' : Session Caps) (b : Bool)
      → handle_cmd_after_auth api fuel cmd c st ≡ some (st', b)
      → IsEffect st st'
  unfolding handle_cmd_after_auth
  handle_cmd_after_auth-IsEffect cmd c st st' b h =
      either (IsEffect st) (cmd == cmd_post_resp) st' b
        (λ e. inl (handle_post_resp-IsQuiet st st' _ b e))
        (either (IsEffect st) (cmd == cmd_call_resp) st' b
          (λ e. inl (handle_call_resp-IsQuiet st st' _ b e))
          (either (IsEffect st) (cmd == cmd_reply_resp) st' b
            (handle_reply_resp-IsEffect st st' _ b)
            (either (IsEffect st) (cmd == cmd_monitor_resp) st' b
              (either (IsEffect st) st.has_mon_callback st' b
                (λ e. inl (handle_monitor_resp-IsQuiet st st' (api.read_uint32 c) b e))
                (λ e. inl (quiet st st st' true b e (refl-IsQuiet st))))
              (λ e. inl (quiet st st st' (cmd == cmd_pong_resp) b e (refl-IsQuiet st))))))
        h

  authorized-IsQuiet :
      (st st' : Session Caps) (o : Option AuthResp) (b : Bool)
      → authorized api fuel st o ≡ some (st', b)
      → IsQuiet st st'
  unfolding authorized
  authorized-IsQuiet st st' none b h = quiet st st st' false b h (refl-IsQuiet st)
  authorized-IsQuiet st st' (some r) b h = quiet st _ st' true b h (refl, refl, refl, λ cb. refl)

  handle_cmd_before_auth-IsQuiet :
      (cmd : ℤ) (c : Caps) (st st' : Session Caps) (b : Bool)
      → handle_cmd_before_auth api fuel cmd c st ≡ some (st', b)
      → IsQuiet st st'
  unfolding handle_cmd_before_auth
  handle_cmd_before_auth-IsQuiet cmd c st st' b h =
      either (IsQuiet st) (cmd == cmd_auth_resp) st' b
        (either (IsQuiet st) st.awaits_auth st' b (authorized-IsQuiet st st' _ b)
          (λ e. absurd (ground arith)))
        (λ e. quiet st st st' false b e (refl-IsQuiet st)) h

  handle_cmd-IsEffect :
      (handler : CmdHandler) (cmd : ℤ) (c : Caps) (st st' : Session Caps) (b : Bool)
      → st.cmd_handler ≡ handler
      → handle_cmd api fuel cmd c st ≡ some (st', b)
      → IsEffect st st'
  unfolding handle_cmd
  handle_cmd-IsEffect before_auth cmd c st st' b e h =
      inl (handle_cmd_before_auth-IsQuiet cmd c st st' b (rw (e, handle_cmd) at h))
  handle_cmd-IsEffect after_auth cmd c st st' b e h =
      handle_cmd_after_auth-IsEffect cmd c st st' b (rw (e, handle_cmd) at h)

  handle_read-IsEffect :
      (st st' : Session Caps) (o : Option ℤ × Caps) (b : Bool)
      → handle_read api fuel st o ≡ some (st', b)
      → IsEffect st st'
  unfolding handle_read
  handle_read-IsEffect st st' (none, c) b h = inl (quiet st st st' false b h (refl-IsQuiet st))
  handle_read-IsEffect st st' (some cmd, c) b h =
      handle_cmd-IsEffect st.cmd_handler cmd c st st' b refl h

  -- Every message is handled as a reply, or quietly.
  pub handle_message-IsEffect :
      (st st' : Session Caps) (c : Caps) (b : Bool)
      → handle_message api fuel st c ≡ some (st', b)
      → IsEffect st st'
  unfolding handle_message
  handle_message-IsEffect st st' c b h = handle_read-IsEffect st st' (api.read_int32 c) b h
