-- ===== src/Message/MonitorRoundTrip.antt =====
-- What the service serializes for a monitor, the client's parser receives (src/ser-helper.cc).
use flora.Base.{
  ℕ, zero, suc, ◌<◌, ◌^◌, ◌≡◌, refl, sym, ap, ◌∙◌, List, [], ◌∷◌, ◌++◌, Option, none, some, ℤ, pos,
  to_word, to_word-pos, false, IsInt32, All, length, append_assoc, append-nil, arith, ◌==◌, nat_key,
  ==-refl,
}
use flora.Caps.{
  Value, Items, nil, cons, snoc, word, text, object, CapsApi, CapsLaws, value_of, uint32_then,
  string_then, int32_then, ◌▷◌, Parse, ◌>>=◌, done, Reads,
}
use flora.Protocol.{cmd_monitor_resp, monitor_list_all, monitor_list_add, monitor_list_remove}
use flora.Message.Data.{Frame, MonitorListItem}
use flora.Message.Delivery.{deliver, Received, receive}
use flora.Message.ResponseSerializer.{
  serialize_monitor_list_item, write_monitor_list_items, serialize_monitor_list_all,
  serialize_monitor_list_add, serialize_monitor_list_remove,
}
use flora.Message.MonitorParser.{
  ListParse, parsed, parse_item, at_end, after_object, parse_items, parse_monitor_list_all,
  parse_monitor_list_add, parse_monitor_list_remove,
}

abbrev fields : MonitorListItem → Items
fields i =
    cons (word i.id) (cons (word (to_word i.pid)) (cons (text i.name) (cons (word i.flags) nil)))

abbrev objects : List MonitorListItem → Items
objects [] = nil
objects (i ∷ is) = cons (object (fields i)) (objects is)

abbrev join : Items → Items → Items
join nil ws = ws
join (cons v vs) ws = cons v (join vs ws)

join-nil : (vs : Items) → join vs nil ≡ vs
join-nil nil = refl
join-nil (cons v vs) = ap (cons v) (join-nil vs)

join-snoc : (vs ws : Items) (v : Value) → join (snoc vs v) ws ≡ join vs (cons v ws)
join-snoc nil ws v = refl
join-snoc (cons u vs) ws v = ap (cons u) (join-snoc vs ws v)

abbrev pub ArePids : List MonitorListItem → Type 0
ArePids = All (λ i. IsInt32 i.pid)

module _ {api : CapsApi} (laws : CapsLaws api) where
  open laws use {values, new_lem, int32_lem, uint32_lem, string_lem, caps_lem}

  item-values : (i : MonitorListItem) → values (serialize_monitor_list_item api i) ≡ fields i
  unfolding serialize_monitor_list_item
  item-values i = simp (new_lem, int32_lem, uint32_lem, string_lem)

  items-values :
      (is : List MonitorListItem) (c : api.Caps)
      → values (write_monitor_list_items api is c) ≡ join (values c) (objects is)
  unfolding write_monitor_list_items
  items-values [] c = sym (join-nil (values c))
  items-values (i ∷ is) c =
      items-values is (api.write_caps (some (serialize_monitor_list_item api i)) c)
      ∙ ap (λ vs. join vs (objects is)) (caps_lem (some (serialize_monitor_list_item api i)) c)
      ∙ join-snoc (values c) (objects is) (object (values (serialize_monitor_list_item api i)))
      ∙ ap (λ vs. join (values c) (cons (object vs) (objects is))) (item-values i)

  parse_item-Reads :
      (i : MonitorListItem) (c : api.Caps)
      → IsInt32 i.pid
      → values c ≡ fields i
      → Reads values (parse_item api) c (λ j. j ≡ i) nil
  unfolding parse_item
  parse_item-Reads i c small e = uint32_then laws _ _ _ _ c i.id e λ c₁ e₁.
      int32_then laws _ _ _ _ c₁ i.pid small e₁ λ c₂ e₂.
        string_then laws _ _ _ _ c₂ i.name e₂
          λ c₃ e₃. uint32_then laws _ _ _ _ c₃ i.flags e₃ λ c₄ e₄. (_, refl, refl, e₄)

  -- An object that holds some values is not null.
  object-some :
      (o : Option api.Caps) (us : Items)
      → value_of values o ≡ object us
      → (sub : api.Caps) × (o ≡ some sub) × (values sub ≡ us)
  object-some none us e = ground arith
  object-some (some sub) us e = (sub, refl, ground arith)

  after_object-item :
      (again : List MonitorListItem → api.Caps → ListParse) (size : ℕ) (seen : List MonitorListItem)
      (i : MonitorListItem) (vs : Items) (c : api.Caps)
      → IsInt32 i.pid
      → values c ≡ cons (object (fields i)) vs
      → (c' : api.Caps) × (after_object api again size seen (api.read_caps c)
          ≡ again (seen ++ i ∷ []) c')
        × (values c' ≡ vs)
  after_object-item again size seen i vs c small e =
      let (o, got, is_object, left) = laws.read_object_lem (fields i) vs c e in
      let (sub, there, held) = object-some o (fields i) is_object in
      let (j, item, same, _) = parse_item-Reads i sub small held in
      ((api.read_caps c).1, rw (got, there, item, same), left)

  parse_items-objects :
      (is seen : List MonitorListItem) (fuel size : ℕ) (c : api.Caps)
      → ArePids is
      → length is < fuel
      → values c ≡ objects is
      → parse_items api fuel size seen c ≡ at_end api size (seen ++ is)
  unfolding parse_items
  parse_items-objects is seen zero size c small enough e = absurd (omega arith)
  parse_items-objects [] seen (suc fuel) size c small enough e =
      rw (laws.end_caps_lem c e, append-nil seen)
  parse_items-objects (i ∷ is) seen (suc fuel) size c small enough e =
      let (c', once, left) =
        after_object-item (parse_items api fuel size) size seen i (objects is) c small.0 e in
      once
      ∙ parse_items-objects is (seen ++ i ∷ []) fuel size c' small.1 (omega arith) left
      ∙ ap (at_end api size) (append_assoc seen (i ∷ []) is)

  parse_monitor_list_all-objects :
      (is : List MonitorListItem) (fuel : ℕ) (c : api.Caps)
      → ArePids is
      → length is < fuel
      → values c ≡ cons (word (length is)) (objects is)
      → parse_monitor_list_all api fuel c ≡ parsed is
  unfolding parse_monitor_list_all
  parse_monitor_list_all-objects [] fuel c small enough e =
      let (n, got, same, left) = laws.read_uint32_lem 0 nil c e in rw (got, same)
  parse_monitor_list_all-objects (i ∷ is) fuel c small enough e =
      let (n, got, same, left) = laws.read_uint32_lem (length (i ∷ is)) (objects (i ∷ is)) c e in
      let loop =
        parse_items-objects (i ∷ is) [] fuel (length (i ∷ is)) (api.read_uint32 c).1 small enough
          left in
      let some_there : (length (i ∷ is) == 0) ≡ false = ground arith in
      rw (got, same, some_there) (loop ∙ rw (==-refl (length (i ∷ is))))

  -- The command and the kind of a message to a monitor.
  abbrev pub read_heading : Parse api.Caps (ℤ × ℤ)
  read_heading = do cmd ← api.read_int32; kind ← api.read_int32; done (cmd, kind)

  heading :
      (c : api.Caps) (kind : ℤ) (vs : Items)
      → IsInt32 kind
      → values c ≡ cons (word (to_word cmd_monitor_resp)) (cons (word (to_word kind)) vs)
      → Reads values read_heading c (λ h. h ≡ (cmd_monitor_resp, kind)) vs
  heading c kind vs small e =
      int32_then laws _ _ _ _ c cmd_monitor_resp (omega arith) e
        λ c₁ e₁. int32_then laws _ _ _ _ c₁ kind small e₁ λ c₂ e₂. (_, refl, refl, e₂)

  -- The serialized list of all clients, with 32-bit pids and fewer than 2 ^ 31 items, is parsed into
  -- its command and kind and into the same items in order; with more fuel than there are items the
  -- loop ends.
  pub monitor_list_all-received :
      (is : List MonitorListItem) (size flags fuel : ℕ) (f : Frame)
      → ArePids is
      → length is < 2 ^ 31
      → length is < fuel
      → serialize_monitor_list_all api is size flags ≡ some f
      → (c : api.Caps) × (api.parse f.bytes ≡ some c)
        × ((read_heading c).0 ≡ some (cmd_monitor_resp, monitor_list_all))
        × (parse_monitor_list_all api fuel (read_heading c).1 ≡ parsed is)
  unfolding serialize_monitor_list_all
  monitor_list_all-received is size flags fuel f small count enough h =
      let (c, parses, same) = deliver laws _ size flags f h in
      let held : values c
          ≡ cons (word (to_word cmd_monitor_resp))
              (cons (word (to_word monitor_list_all)) (cons (word (length is)) (objects is))) =
        same
        ∙ items-values is (
            api.new_instance
            ▷ api.write_int32 cmd_monitor_resp
            ▷ api.write_int32 monitor_list_all
            ▷ api.write_int32 (pos (length is)))
        ∙ (simp (new_lem, int32_lem))
        ∙ ap
            (λ n.
              cons (word (to_word cmd_monitor_resp))
                (cons (word (to_word monitor_list_all)) (cons (word n) (objects is))))
            (to_word-pos (length is) (omega arith)) in
      let small_kind : IsInt32 monitor_list_all = omega arith in
      let (head, got, is_head, left) = heading c monitor_list_all _ small_kind held in
      (c, parses, got ∙ ap some is_head, parse_monitor_list_all-objects is fuel _ small enough left)

  -- The serialized message that a client with a 32-bit pid was added is parsed into its command and
  -- kind and into the same item.
  pub monitor_list_add-received :
      (i : MonitorListItem) (size flags : ℕ) (f : Frame)
      → IsInt32 i.pid
      → serialize_monitor_list_add api i size flags ≡ some f
      → (c : api.Caps) × (api.parse f.bytes ≡ some c)
        × ((read_heading c).0 ≡ some (cmd_monitor_resp, monitor_list_add))
        × (parse_monitor_list_add api (read_heading c).1 ≡ parsed (i ∷ []))
  unfolding serialize_monitor_list_add parse_monitor_list_add
  monitor_list_add-received i size flags f small h =
      let (c, parses, same) = deliver laws _ size flags f h in
      let held : values c
          ≡ cons (word (to_word cmd_monitor_resp))
              (cons (word (to_word monitor_list_add)) (cons (object (fields i)) nil)) =
        same ∙ simp (new_lem, int32_lem, caps_lem, item-values i) in
      let small_kind : IsInt32 monitor_list_add = omega arith in
      let (head, got, is_head, left) = heading c monitor_list_add _ small_kind held in
      let (o, read, is_object, _) = laws.read_object_lem (fields i) nil (read_heading c).1 left in
      let (sub, there, fields_held) = object-some o (fields i) is_object in
      let (j, item, is_item, _) = parse_item-Reads i sub small fields_held in
      (c, parses, got ∙ ap some is_head, rw (read, there, item, is_item))

  -- The serialized message that a client was removed is parsed into its command and kind and into
  -- the same id.
  pub monitor_list_remove-received :
      (id size flags : ℕ) (f : Frame)
      → serialize_monitor_list_remove api id size flags ≡ some f
      → Received laws f cmd_monitor_resp
          (do kind ← api.read_int32; removed ← parse_monitor_list_remove api; done (kind, removed))
          (λ (r : ℤ × ℕ). r ≡ (monitor_list_remove, id))
  unfolding serialize_monitor_list_remove parse_monitor_list_remove
  monitor_list_remove-received id size flags f h =
      receive laws _ _ _ size flags f cmd_monitor_resp
        (cons (word (to_word monitor_list_remove)) (cons (word id) nil)) h (omega arith)
        (simp (new_lem, int32_lem, uint32_lem))
        λ c e.
          int32_then laws _ _ _ _ c monitor_list_remove (omega arith) e
            λ c₁ e₁. uint32_then laws _ _ _ _ c₁ id e₁ λ c₂ e₂. (_, refl, refl, e₂)
