-- ===== src/Message/ResponseRoundTrip.antt =====
-- What the service serializes, the client's parser receives (src/ser-helper.cc).
use flora.Base.{
  ℕ, ◌≡◌, ◌≢◌, refl, Option, none, some, ℤ, String, IsInt32, to_word, arith, int_key, ◌==◌,
  int_beq_iff, false,
}
use flora.Caps.{
  Items, nil, cons, word, long, text, CapsApi, CapsLaws, value_of, Reads, Reads-bind, uint32_then,
  string_then, int32_then, uint64_then, caps_then,
}
use flora.Protocol.{cmd_auth_resp, cmd_post_resp, cmd_reply_resp, cmd_call_resp, cli_success}
use flora.Message.Data.{Frame, Response}
use flora.Message.Delivery.{Received, receive}
use flora.Message.ResponseSerializer.{
  serialize_auth, serialize_post, serialize_call, serialize_reply,
}
use flora.Message.ResponseParser.{parse_auth, parse_post, parse_call, parse_response, parse_reply}

not_equal : (a b : ℤ) → a ≢ b → (a == b) ≡ false
not_equal a b h = ground (arith, int_beq_iff a b)

module _ {api : CapsApi} (laws : CapsLaws api) where
  open laws use {values, new_lem, int32_lem, uint32_lem, uint64_lem, string_lem, caps_lem}

  -- What the response serializer of auth messages puts into the buffer is parsed into the command
  -- and, by the parser, read to its end into the values that were serialized, for a 32-bit result.
  pub auth_resp-received :
      (result : ℤ) (version size flags : ℕ) (f : Frame)
      → IsInt32 result
      → serialize_auth api result version size flags ≡ some f
      → Received laws f cmd_auth_resp
          (parse_auth api)
          (λ r. r ≡ record { result = result; version = version })
  unfolding serialize_auth parse_auth
  auth_resp-received result version size flags f small h =
      receive laws _ _ _ size flags f cmd_auth_resp
        (cons (word (to_word result)) (cons (word version) nil)) h (omega arith)
        (simp (new_lem, int32_lem, uint32_lem))
        λ c e.
          int32_then laws _ _ _ _ c result small e
            λ c₁ e₁. uint32_then laws _ _ _ _ c₁ version e₁ λ c₂ e₂. (_, refl, refl, e₂)

  -- What the response serializer of post messages puts into the buffer is parsed into the command
  -- and, by the parser, read to its end into the values that were serialized.
  pub post_resp-received :
      (name : String) (msgtype : ℕ) (args : Option api.Caps) (tag : ℕ) (cliname : String)
      (size flags : ℕ) (f : Frame)
      → serialize_post api name msgtype args tag cliname size flags ≡ some f
      → Received laws f cmd_post_resp (parse_post api) (λ r.
        (r.name ≡ name)
        × (r.msgtype ≡ msgtype)
        × (r.tag ≡ tag)
        × (r.cliname ≡ cliname)
        × (value_of values r.args ≡ value_of values args))
  unfolding serialize_post parse_post
  post_resp-received name msgtype args tag cliname size flags f h =
      receive laws _ _ _ size flags f cmd_post_resp
        (cons (word msgtype) (
          cons (text name)
            (cons (value_of values args) (cons (long tag) (cons (text cliname) nil)))))
        h (omega arith) (simp (new_lem, int32_lem, uint32_lem, uint64_lem, string_lem, caps_lem))
        λ c e. uint32_then laws _ _ _ _ c msgtype e λ c₁ e₁.
          string_then laws _ _ _ _ c₁ name e₁ λ c₂ e₂.
            caps_then laws _ _ _ _ c₂ args e₂ λ p c₃ same e₃.
              uint64_then laws _ _ _ _ c₃ tag e₃ λ c₄ e₄.
                string_then laws _ _ _ _ c₄ cliname e₄
                  λ c₅ e₅. (_, refl, (refl, refl, refl, refl, same), e₅)

  -- What the response serializer of call messages puts into the buffer is parsed into the command
  -- and, by the parser, read to its end into the values that were serialized, for a 32-bit id.
  pub call_resp-received :
      (name : String) (args : Option api.Caps) (id : ℤ) (tag : ℕ) (cliname : String)
      (size flags : ℕ) (f : Frame)
      → IsInt32 id
      → serialize_call api name args id tag cliname size flags ≡ some f
      → Received laws f cmd_call_resp (parse_call api) (λ r.
        (r.name ≡ name)
        × (r.id ≡ id)
        × (r.tag ≡ tag)
        × (r.cliname ≡ cliname)
        × (value_of values r.args ≡ value_of values args))
  unfolding serialize_call parse_call
  call_resp-received name args id tag cliname size flags f small h =
      receive laws _ _ _ size flags f cmd_call_resp
        (cons (word (to_word id)) (
          cons (text name)
            (cons (value_of values args) (cons (long tag) (cons (text cliname) nil)))))
        h (omega arith) (simp (new_lem, int32_lem, uint64_lem, string_lem, caps_lem))
        λ c e. int32_then laws _ _ _ _ c id small e λ c₁ e₁.
          string_then laws _ _ _ _ c₁ name e₁ λ c₂ e₂.
            caps_then laws _ _ _ _ c₂ args e₂ λ p c₃ same e₃.
              uint64_then laws _ _ _ _ c₃ tag e₃ λ c₄ e₄.
                string_then laws _ _ _ _ c₄ cliname e₄
                  λ c₅ e₅. (_, refl, (refl, refl, refl, refl, same), e₅)

  -- What the parser's `reply` holds of the serializer's.
  abbrev pub IsReplyOf : Option (Response api.Caps) → Response api.Caps → Type 0
  IsReplyOf none q = ⊥
  IsReplyOf (some p) q =
      (p.ret_code ≡ q.ret_code)
      × (value_of values p.data_of ≡ value_of values q.data_of)
      × (p.extra ≡ q.extra)

  parse_response-Reads :
      (reply : Response api.Caps) (vs : Items) (c : api.Caps)
      → IsInt32 reply.ret_code
      → values c
        ≡ cons
            (word (to_word reply.ret_code))
            (cons (value_of values reply.data_of) (cons (text reply.extra) vs))
      → Reads values (parse_response api) c (λ p. IsReplyOf p reply) vs
  unfolding parse_response
  parse_response-Reads reply vs c fits e = int32_then laws _ _ _ _ c reply.ret_code fits e λ c₁ e₁.
      caps_then laws _ _ _ _ c₁ reply.data_of e₁ λ p c₂ same e₂.
        string_then laws _ _ _ _ c₂ reply.extra e₂ λ c₃ e₃. (_, refl, (refl, same, refl), e₃)

  -- What the response serializer of successful reply messages puts into the buffer is parsed into
  -- the command and, by the parser, read to its end into the values that were serialized, for a
  -- 32-bit id and return code.
  pub reply_resp-received :
      (id : ℤ) (reply : Response api.Caps) (tag size flags : ℕ) (f : Frame)
      → IsInt32 id
      → IsInt32 reply.ret_code
      → serialize_reply api id cli_success (some reply) tag size flags ≡ some f
      → Received laws f cmd_reply_resp
          (parse_reply api)
          (λ r. (r.id ≡ id) × (r.rescode ≡ cli_success) × IsReplyOf r.reply reply × (r.tag ≡ tag))
  unfolding serialize_reply parse_reply
  reply_resp-received id reply tag size flags f small fits h =
      receive laws _ _ _ size flags f cmd_reply_resp
        (cons (word (to_word id)) (
          cons (word (to_word cli_success)) (
            cons (word (to_word reply.ret_code)) (
              cons (value_of values reply.data_of)
                (cons (text reply.extra) (cons (long tag) nil))))))
        h (omega arith) (simp (new_lem, int32_lem, uint64_lem, string_lem, caps_lem))
        λ c e. int32_then laws _ _ _ _ c id small e λ c₁ e₁.
          int32_then laws _ _ _ _ c₁ cli_success (omega arith) e₁ λ c₂ e₂.
            Reads-bind values (parse_response api) _ c₂ _ _ _ nil
              (parse_response-Reads reply (cons (long tag) nil) c₂ fits e₂)
              λ p c₃ same e₃.
                uint64_then laws _ _ _ _ c₃ tag e₃ λ c₄ e₄. (_, refl, (refl, refl, same, refl), e₄)

  -- A reply with a result code other than success is parsed into its command, number, code and tag
  -- and holds no response, whatever response was handed to the serializer.
  pub failure_resp-received :
      (id rescode : ℤ) (reply : Option (Response api.Caps)) (tag size flags : ℕ) (f : Frame)
      → IsInt32 id
      → IsInt32 rescode
      → rescode ≢ cli_success
      → serialize_reply api id rescode reply tag size flags ≡ some f
      → Received laws f cmd_reply_resp
          (parse_reply api)
          (λ r. (r.id ≡ id) × (r.rescode ≡ rescode) × (r.reply ≡ none) × (r.tag ≡ tag))
  unfolding serialize_reply parse_reply
  failure_resp-received id rescode reply tag size flags f small fits failed h =
      let miss : (rescode == cli_success) ≡ false = not_equal rescode cli_success failed in
      receive laws _ _ _ size flags f cmd_reply_resp
        (cons (word (to_word id)) (cons (word (to_word rescode)) (cons (long tag) nil)))
        (rw (miss, serialize_reply) at h) (omega arith) (simp (new_lem, int32_lem, uint64_lem))
        λ c e. int32_then laws _ _ _ _ c id small e λ c₁ e₁.
          int32_then laws _ _ _ _ c₁ rescode fits e₁ λ c₂ e₂.
            rw miss
              (uint64_then laws _ _ _ _ c₂ tag e₂ λ c₃ e₃. (_, refl, (refl, refl, refl, refl), e₃))
