-- ===== src/Message/MonitorParser.antt =====
-- The messages to monitors: the parsers of the list of clients, and the serializers and parsers of
-- monitor details, which are not implemented (src/ser-helper.cc).
use flora.Base.{
  ℕ, zero, suc, List, [], ◌∷◌, ◌++◌, Option, none, some, if◌then◌else◌, ◌==◌, nat_key, length,
}
use flora.Caps.{CapsApi, Parse, ◌>>=◌, done}
use flora.Message.Data.{Frame, MonitorListItem}

-- `parsed` is the result 0 and `refused` -1; `crashed` follows a null pointer; `unfinished` is the end
-- of the fuel.
pub data ListParse : Type 0 where
  parsed : List MonitorListItem → ListParse
  refused crashed unfinished : ListParse

module _ (api : CapsApi) where
  open api use {Caps, read_int32, read_uint32, read_string, read_caps}

  unfoldable pub parse_item : Parse Caps MonitorListItem
  parse_item = do
    id ← read_uint32
    pid ← read_int32
    name ← read_string
    flags ← read_uint32
    done (record { id = id; pid = pid; name = name; flags = flags })

  abbrev pub at_end : ℕ → List MonitorListItem → ListParse
  at_end size infos = if length infos == size then parsed infos else refused

  abbrev add_item :
      (List MonitorListItem → ListParse) → List MonitorListItem → Option MonitorListItem → ListParse
  add_item again infos none = refused
  add_item again infos (some i) = again (infos ++ i ∷ [])

  abbrev pub after_object :
      (List MonitorListItem → Caps → ListParse)
      → ℕ
      → List MonitorListItem
      → Option (Option Caps) × Caps
      → ListParse
  after_object again size infos (none, c) = at_end size infos
  after_object again size infos (some none, c) = crashed
  after_object again size infos (some (some sub), c) =
      add_item (λ l. again l c) infos (parse_item sub).0

  -- The loop, a round for each object.
  unfoldable pub parse_items : ℕ → ℕ → List MonitorListItem → Caps → ListParse
  unfolding parse_item
  parse_items zero size infos c = unfinished
  parse_items (suc fuel) size infos c =
      after_object (parse_items fuel size) size infos (read_caps c)

  abbrev parse_sized : ℕ → Option ℕ × Caps → ListParse
  parse_sized fuel (none, c) = refused
  parse_sized fuel (some size, c) = if size == 0 then parsed [] else parse_items fuel size [] c

  -- Into a vector that is empty; its `reserve` is taken to succeed.
  unfoldable pub parse_monitor_list_all : ℕ → Caps → ListParse
  unfolding parse_items
  parse_monitor_list_all fuel c = parse_sized fuel (read_uint32 c)

  abbrev parse_one : Option (Option Caps) → ListParse
  parse_one none = refused
  parse_one (some none) = crashed
  parse_one (some (some sub)) = add_item parsed [] (parse_item sub).0

  -- The item is the only one of the list.
  unfoldable pub parse_monitor_list_add : Caps → ListParse
  unfolding parse_item
  parse_monitor_list_add c = parse_one (read_caps c).0

  unfoldable pub parse_monitor_list_remove : Parse Caps ℕ
  parse_monitor_list_remove = read_uint32

-- The details: subscriptions, declarations, posts and calls of the clients.
pub data MonitorDetail : Type 0 where
  sub_all sub_add sub_remove decl_all decl_add decl_remove post_detail call_detail : MonitorDetail

-- Every serializer of details returns -1, whatever it is given.
unfoldable pub serialize_monitor_detail : MonitorDetail → ℕ → ℕ → Option Frame
serialize_monitor_detail detail size flags = none

-- So does every parser, and leaves the object alone.
unfoldable pub parse_monitor_detail :
    (api : CapsApi) → MonitorDetail → Parse api.Caps MonitorListItem
parse_monitor_detail api detail c = (none, c)
