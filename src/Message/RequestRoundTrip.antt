-- ===== src/Message/RequestRoundTrip.antt =====
-- What a client serializes, the service's parser receives (src/ser-helper.cc).
use flora.Base.{ℕ, ◌≡◌, refl, Option, some, ℤ, pos, String, IsInt32, to_word, arith}
use flora.Caps.{
  nil, cons, word, text, CapsApi, CapsLaws, value_of, uint32_then, string_then, int32_then,
  int32_or_then, uint32_or_then, caps_then,
}
use flora.Protocol.{
  cmd_auth_req, cmd_subscribe_req, cmd_unsubscribe_req, cmd_post_req, cmd_reply_req,
  cmd_declare_method_req, cmd_remove_method_req, cmd_call_req,
}
use flora.Message.Data.{Frame, serialized}
use flora.Message.Delivery.{Received, receive}
use flora.Message.RequestSerializer.{
  serialize_auth, serialize_subscribe, serialize_unsubscribe, serialize_post, serialize_reply,
  serialize_declare_method, serialize_remove_method, serialize_call,
}
use flora.Message.RequestParser.{
  parse_auth, parse_subscribe, parse_unsubscribe, parse_post, parse_reply, parse_declare_method,
  parse_remove_method, parse_call,
}

module _ {api : CapsApi} (laws : CapsLaws api) where
  open laws use {values, new_lem, int32_lem, uint32_lem, string_lem, caps_lem}

  -- What the request serializer of auth messages puts into the buffer is parsed into the command
  -- and, by the parser, read to its end into the values that were serialized, for a 32-bit pid.
  pub serialize_auth-received :
      (version : ℕ) (extra : String) (pid : ℤ) (flags size ser_flags : ℕ) (f : Frame)
      → IsInt32 pid
      → serialize_auth api version extra pid flags size ser_flags ≡ some f
      → Received laws f cmd_auth_req
          (parse_auth api)
          (λ r. r ≡ record { version = version; extra = extra; pid = pid; flags = flags })
  unfolding serialize_auth parse_auth
  serialize_auth-received version extra pid flags size ser_flags f small h =
      receive laws _ _ _ size ser_flags f cmd_auth_req
        (cons (word version)
          (cons (text extra) (cons (word (to_word pid)) (cons (word flags) nil))))
        h (omega arith) (simp (new_lem, int32_lem, uint32_lem, string_lem))
        λ c e. uint32_then laws _ _ _ _ c version e λ c₁ e₁.
          string_then laws _ _ _ _ c₁ extra e₁ λ c₂ e₂.
            int32_or_then laws _ _ _ (pos 0) _ c₂ pid small e₂
              λ c₃ e₃. uint32_or_then laws _ _ _ 0 _ c₃ flags e₃ λ c₄ e₄. (_, refl, refl, e₄)

  -- The four requests that hold a name.
  name-received :
      (name : String) (cmd : ℤ) (size flags : ℕ) (f : Frame)
      → IsInt32 cmd
      → serialized api (api.write_string name (api.write_int32 cmd api.new_instance)) size flags
        ≡ some f
      → Received laws f cmd api.read_string (λ r. r ≡ name)
  name-received name cmd size flags f small h =
      receive laws _ _ _ size flags f cmd (cons (text name) nil) h small
        (simp (new_lem, int32_lem, string_lem)) λ c e. laws.read_string_lem name nil c e

  -- What the request serializer of subscribe messages puts into the buffer is parsed into the
  -- command and, by the parser, read to its end into the values that were serialized.
  pub serialize_subscribe-received :
      (name : String) (size flags : ℕ) (f : Frame)
      → serialize_subscribe api name size flags ≡ some f
      → Received laws f cmd_subscribe_req (parse_subscribe api) (λ r. r ≡ name)
  unfolding serialize_subscribe parse_subscribe
  serialize_subscribe-received name size flags f h =
      name-received name _ size flags f (omega arith) h

  -- What the request serializer of unsubscribe messages puts into the buffer is parsed into the
  -- command and, by the parser, read to its end into the values that were serialized.
  pub serialize_unsubscribe-received :
      (name : String) (size flags : ℕ) (f : Frame)
      → serialize_unsubscribe api name size flags ≡ some f
      → Received laws f cmd_unsubscribe_req (parse_unsubscribe api) (λ r. r ≡ name)
  unfolding serialize_unsubscribe parse_unsubscribe
  serialize_unsubscribe-received name size flags f h =
      name-received name _ size flags f (omega arith) h

  -- What the request serializer of declare method messages puts into the buffer is parsed into the
  -- command and, by the parser, read to its end into the values that were serialized.
  pub serialize_declare_method-received :
      (name : String) (size flags : ℕ) (f : Frame)
      → serialize_declare_method api name size flags ≡ some f
      → Received laws f cmd_declare_method_req (parse_declare_method api) (λ r. r ≡ name)
  unfolding serialize_declare_method parse_declare_method
  serialize_declare_method-received name size flags f h =
      name-received name _ size flags f (omega arith) h

  -- What the request serializer of remove method messages puts into the buffer is parsed into the
  -- command and, by the parser, read to its end into the values that were serialized.
  pub serialize_remove_method-received :
      (name : String) (size flags : ℕ) (f : Frame)
      → serialize_remove_method api name size flags ≡ some f
      → Received laws f cmd_remove_method_req (parse_remove_method api) (λ r. r ≡ name)
  unfolding serialize_remove_method parse_remove_method
  serialize_remove_method-received name size flags f h =
      name-received name _ size flags f (omega arith) h

  -- What the request serializer of post messages puts into the buffer is parsed into the command
  -- and, by the parser, read to its end into the values that were serialized.
  pub serialize_post-received :
      (name : String) (msgtype : ℕ) (args : Option api.Caps) (size flags : ℕ) (f : Frame)
      → serialize_post api name msgtype args size flags ≡ some f
      → Received laws f cmd_post_req (parse_post api) (λ r.
        (r.name ≡ name) × (r.msgtype ≡ msgtype) × (value_of values r.args ≡ value_of values args))
  unfolding serialize_post parse_post
  serialize_post-received name msgtype args size flags f h =
      receive laws _ _ _ size flags f cmd_post_req
        (cons (word msgtype) (cons (text name) (cons (value_of values args) nil))) h (omega arith)
        (simp (new_lem, int32_lem, uint32_lem, string_lem, caps_lem))
        λ c e. uint32_then laws _ _ _ _ c msgtype e λ c₁ e₁.
          string_then laws _ _ _ _ c₁ name e₁ λ c₂ e₂.
            caps_then laws _ _ _ _ c₂ args e₂ λ p c₃ same e₃. (_, refl, (refl, refl, same), e₃)

  -- What the request serializer of call messages puts into the buffer is parsed into the command
  -- and, by the parser, read to its end into the values that were serialized, for a 32-bit id.
  pub serialize_call-received :
      (name : String) (args : Option api.Caps) (target : String) (id : ℤ) (timeout size flags : ℕ)
      (f : Frame)
      → IsInt32 id
      → serialize_call api name args target id timeout size flags ≡ some f
      → Received laws f cmd_call_req (parse_call api) (λ r.
        (r.name ≡ name)
        × (r.target ≡ target)
        × (r.id ≡ id)
        × (r.timeout ≡ timeout)
        × (value_of values r.args ≡ value_of values args))
  unfolding serialize_call parse_call
  serialize_call-received name args target id timeout size flags f small h =
      receive laws _ _ _ size flags f cmd_call_req
        (cons (text name) (
          cons (text target)
            (cons (word (to_word id)) (cons (word timeout) (cons (value_of values args) nil)))))
        h (omega arith) (simp (new_lem, int32_lem, uint32_lem, string_lem, caps_lem))
        λ c e. string_then laws _ _ _ _ c name e λ c₁ e₁.
          string_then laws _ _ _ _ c₁ target e₁ λ c₂ e₂.
            int32_then laws _ _ _ _ c₂ id small e₂ λ c₃ e₃.
              uint32_then laws _ _ _ _ c₃ timeout e₃ λ c₄ e₄.
                caps_then laws _ _ _ _ c₄ args e₄
                  λ p c₅ same e₅. (_, refl, (refl, refl, refl, refl, same), e₅)

  -- What the request serializer of reply messages puts into the buffer is parsed into the command
  -- and, by the parser, read to its end into the values that were serialized, for a 32-bit id and
  -- code.
  pub serialize_reply-received :
      (id code : ℤ) (content : Option api.Caps) (size flags : ℕ) (f : Frame)
      → IsInt32 id
      → IsInt32 code
      → serialize_reply api id code content size flags ≡ some f
      → Received laws f cmd_reply_req (parse_reply api) (λ r.
        (r.id ≡ id) × (r.code ≡ code) × (value_of values r.values ≡ value_of values content))
  unfolding serialize_reply parse_reply
  serialize_reply-received id code content size flags f small fits h =
      receive laws _ _ _ size flags f cmd_reply_req
        (cons (word (to_word id)) (cons (word (to_word code)) (cons (value_of values content) nil)))
        h (omega arith) (simp (new_lem, int32_lem, caps_lem))
        λ c e. int32_then laws _ _ _ _ c id small e λ c₁ e₁.
          int32_then laws _ _ _ _ c₁ code fits e₁ λ c₂ e₂.
            caps_then laws _ _ _ _ c₂ content e₂ λ p c₃ same e₃. (_, refl, (refl, refl, same), e₃)
