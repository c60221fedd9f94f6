-- ===== src/Agent/Silent.antt =====
-- What posts and calls send (src/cli.cc, src/disp.cc).
use flora.Base.{
  ℕ, suc, ◌≡◌, refl, ap, ◌∙◌, ◌⊎◌, inl, inr, Bool, true, false, ◌∷◌, Option, none, some, String, ℤ,
  pos, if◌then◌else◌, int_key, string_key, ltb, arith, not, IsInt32, to_word, of_word-to_word,
}
use flora.Caps.{CapsApi, CapsLaws, Items, nil, cons, word, text, value_of}
use flora.Protocol.{cmd_post_req, cmd_call_req, has_monitor_flag}
use flora.Message.Data.{Frame, serialized, is_valid_msgtype}
use flora.Message.Delivery.{deliver}
use flora.Message.RequestSerializer.{serialize_post, serialize_call}
use flora.Client.Requests.{Client, send_request, post}
use flora.Client.State.{Session}
use flora.Client.Calls.{call_nb, send_call, send_placed}
use flora.Agent.Served.{Commands}

pick : {A : Type 0} (P : A → Type 0) (b : Bool) {x y : A} → P x → P y → P (if b then x else y)
pick P true p q = p
pick P false p q = q

module _ {api : CapsApi} (laws : CapsLaws api) where
  command_of :
      (cmd : ℤ)
      → IsInt32 cmd
      → (c : api.Caps) (vs : Items) (size ser_flags : ℕ) (f : Frame)
      → serialized api c size ser_flags ≡ some f
      → laws.values c ≡ cons (word (to_word cmd)) vs
      → Commands api f cmd
  command_of cmd small c vs size ser_flags f e begins =
      let (c', parses, same) = deliver laws c size ser_flags f e in
      let (z, read, is_word, left) = laws.read_int32_lem (to_word cmd) vs c' (same ∙ begins) in
      (c', parses, read ∙ ap some (is_word ∙ of_word-to_word cmd small))

  -- A request is sent, or leaves the client alone.
  abbrev pub SentOrSame : Client → Option Frame → Client → Type 0
  SentOrSame cl o cl' =
      (cl' ≡ cl) ⊎ ((f : Frame) × (o ≡ some f) × (cl' ≡ record cl { sent = f ∷ cl.sent }))

  send_request-SentOrSame :
      (takes : Bool) (cl : Client) (o : Option Frame) → SentOrSame cl o (send_request takes cl o).0
  send_request-SentOrSame takes cl none = inl refl
  send_request-SentOrSame takes cl (some f) =
      pick (λ (p : Client × ℤ). SentOrSame cl (some f) p.0) (ltb 0 f.size)
        (pick (λ (p : Client × ℤ). SentOrSame cl (some f) p.0) takes (inr (f, refl, refl))
          (inl refl))
        (inl refl)

  pub post-SentOrSame :
      (takes : Bool) (n : String) (msg : Option api.Caps) (msgtype : ℕ) (cl : Client)
      → SentOrSame cl
          (serialize_post api n msgtype msg cl.bufsize cl.serialize_flags)
          (post api takes cl (some n) msg msgtype).0
  unfolding post
  post-SentOrSame takes n msg msgtype cl =
      let o = serialize_post api n msgtype msg cl.bufsize cl.serialize_flags in
      pick (λ (p : Client × ℤ). SentOrSame cl o p.0) (not (is_valid_msgtype msgtype)) (inl refl)
        (pick (λ (p : Client × ℤ). SentOrSame cl o p.0) (has_monitor_flag cl.flags) (inl refl)
          (send_request-SentOrSame takes cl o))

  send_call-SentOrSame :
      (takes : Bool) (n : String) (msg : Option api.Caps) (target : String) (timeout : ℕ)
      (st : Session api.Caps) (o : Option Frame) (id : ℤ)
      → SentOrSame st.connection o
          (send_placed api takes (record st { reqseq = suc st.reqseq }) id none none o).0.connection
  send_call-SentOrSame takes n msg target timeout st none id = inl refl
  send_call-SentOrSame takes n msg target timeout st (some f) id =
      pick (λ (p : Session api.Caps × ℤ). SentOrSame st.connection (some f) p.0.connection)
        (ltb 0 f.size)
        (pick (λ (p : Client × ℤ). SentOrSame st.connection (some f) p.0) takes
          (inr (f, refl, refl)) (inl refl))
        (inl refl)

  pub call-SentOrSame :
      (takes : Bool) (n : String) (msg : Option api.Caps) (target : String) (timeout : ℕ)
      (st : Session api.Caps)
      → SentOrSame st.connection
          (serialize_call api n msg target
            (pos (suc st.reqseq))
            timeout
            st.connection.bufsize
            st.connection.serialize_flags)
          (call_nb api takes st (some n) msg target none timeout).0.connection
  unfolding call_nb send_call
  call-SentOrSame takes n msg target timeout st =
      let o =
        serialize_call api n msg target (pos (suc st.reqseq)) timeout st.connection.bufsize
          st.connection.serialize_flags in
      pick (λ (p : Session api.Caps × ℤ). SentOrSame st.connection o p.0.connection)
        (has_monitor_flag st.connection.flags) (inl refl)
        (send_call-SentOrSame takes n msg target timeout st o (pos (suc st.reqseq)))

  pub serialize_post-Commands :
      (n : String) (msgtype : ℕ) (msg : Option api.Caps) (size ser_flags : ℕ) (f : Frame)
      → serialize_post api n msgtype msg size ser_flags ≡ some f
      → Commands api f cmd_post_req
  unfolding serialize_post
  serialize_post-Commands n msgtype msg size ser_flags f e =
      command_of cmd_post_req (omega arith) _
        (cons (word msgtype) (cons (text n) (cons (value_of laws.values msg) nil))) size ser_flags f
        e (simp (laws.new_lem, laws.int32_lem, laws.uint32_lem, laws.string_lem, laws.caps_lem))

  pub serialize_call-Commands :
      (n : String) (msg : Option api.Caps) (target : String) (id : ℤ) (timeout size ser_flags : ℕ)
      (f : Frame)
      → serialize_call api n msg target id timeout size ser_flags ≡ some f
      → Commands api f cmd_call_req
  unfolding serialize_call
  serialize_call-Commands n msg target id timeout size ser_flags f e =
      command_of cmd_call_req (omega arith) _
        (cons (text n) (
          cons (text target)
            (cons (word (to_word id)) (cons (word timeout) (cons (value_of laws.values msg) nil)))))
        size ser_flags f e
        (simp (laws.new_lem, laws.int32_lem, laws.uint32_lem, laws.string_lem, laws.caps_lem))
