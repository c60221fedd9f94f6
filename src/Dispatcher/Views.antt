-- ===== src/Dispatcher/Views.antt =====
-- What the dispatcher knows of one client's subscriptions and methods (src/disp.cc).
use flora.Base.{
  ℕ, ◌≡◌, refl, sym, ap, ◌∙◌, Bool, true, false, List, [], ◌∷◌, Option, none, some, String,
  if◌then◌else◌, ◌==◌, string_key, nat_key, lookup, lookup-assign, or_else, ltb, arith, ==-refl,
}
use flora.Caps.{CapsApi}
use flora.Protocol.{has_monitor_flag, msgtype_persist}
use flora.Message.Data.{Frame}
use flora.Dispatcher.State.{
  State, Net, Written, AdapterInfo, InfoRef, no_info, dangling, found, info_of, write,
  close_adapter, declare_method, remove_method, has_method, contains, remove,
}
use flora.Message.ResponseSerializer.{serialize_post}
use flora.Dispatcher.Subscription.{subscribe, unsubscribe, subscribed, send_persist, write_positive}
use flora.Dispatcher.Subscribers.{times, subscribers, subscribe-times, unsubscribe-times}
use flora.Dispatcher.Client.{set_info}

pick : {A : Type 0} (P : A → Type 0) (b : Bool) {x y : A} → P x → P y → P (if b then x else y)
pick P true p q = p
pick P false p q = q

-- Whether the adapter stands in the name's list.
abbrev pub listens : {C : Type 0} → State C → ℕ → String → Bool
listens st a m = ltb 0 (times a (subscribers st m))

abbrev pub offered : InfoRef → String → Bool
offered no_info m = false
offered dangling m = false
offered (found info) m = has_method info m

abbrev pub offers : {C : Type 0} → State C → ℕ → String → Bool
offers st a m = offered (info_of st a) m

-- The client is authorized, is no monitor, and its adapter is still there.
abbrev pub IsClient : {C : Type 0} → State C → ℕ → Type 0
IsClient st a =
    (info : AdapterInfo) × (info_of st a ≡ found info)
    × (has_monitor_flag info.flags ≡ false)
    × ((st.net.heap a).alive ≡ true)

module _ (api : CapsApi) (os : ℕ → Written) where
  write-keeps :
      (b a : ℕ) (f : Frame) (net : Net)
      → (((write os b f net).heap a).info ≡ (net.heap a).info)
        × (((write os b f net).heap a).alive ≡ (net.heap a).alive)
  unfolding write close_adapter
  write-keeps b a f net = ground (arith, nat_key.equal_iff b a)

  write_positive-keeps :
      (a : ℕ) (o : Option Frame) (net : Net)
      → (((write_positive api os a o net).heap a).info ≡ (net.heap a).info)
        × (((write_positive api os a o net).heap a).alive ≡ (net.heap a).alive)
  write_positive-keeps a none net = (refl, refl)
  write_positive-keeps a (some f) net =
      pick
        (λ (net' : Net).
          ((net'.heap a).info ≡ (net.heap a).info) × ((net'.heap a).alive ≡ (net.heap a).alive))
        (ltb 0 f.size) (write-keeps a a f net) (refl, refl)

  abbrev KeepsClient : ℕ → State api.Caps → State api.Caps → Type 0
  KeepsClient a st st' =
      (st'.adapter_infos ≡ st.adapter_infos)
      × (st'.monitors ≡ st.monitors)
      × ((st'.net.heap a).info ≡ (st.net.heap a).info)
      × ((st'.net.heap a).alive ≡ (st.net.heap a).alive)

  persisted-KeepsClient :
      (st : State api.Caps) (a : ℕ) (name : String) (o : Option (Option api.Caps))
      → KeepsClient a st (send_persist api os st a name o)
  persisted-KeepsClient st a name none = (refl, refl, refl, refl)
  persisted-KeepsClient st a name (some content) =
      let (info, alive) =
        write_positive-keeps a
          (serialize_post api name msgtype_persist content 0 "" st.buf_size
            (st.net.heap a).serialize_flags)
          st.net in
      (refl, refl, info, alive)

  subscribe-KeepsClient :
      (st : State api.Caps) (a : ℕ) (name : String)
      → KeepsClient a st (subscribe api os st a name).0
  unfolding subscribe
  subscribe-KeepsClient st a name =
      pick (λ (p : State api.Caps × Bool). KeepsClient a st p.0) (name == "")
        (refl, refl, refl, refl)
        (pick (λ (p : State api.Caps × Bool). KeepsClient a st p.0)
          (subscribed st.net a (subscribers st name)) (refl, refl, refl, refl)
          (persisted-KeepsClient _ a name (lookup name st.persist_msgs)))

  unsubscribe-KeepsClient :
      (st : State api.Caps) (a : ℕ) (name : String)
      → KeepsClient a st (unsubscribe api os st a name).0
  unfolding unsubscribe
  unsubscribe-KeepsClient st a name = ground (arith)

  info_of-KeepsClient :
      (st st' : State api.Caps) (a : ℕ) → KeepsClient a st st' → info_of st' a ≡ info_of st a
  unfolding info_of
  info_of-KeepsClient st st' a (infos, monitors, info, alive) =
      ground (arith, infos, monitors, info)

  KeepsClient-IsClient :
      (st st' : State api.Caps) (a : ℕ) → KeepsClient a st st' → IsClient st a → IsClient st' a
  KeepsClient-IsClient st st' a keeps (info, i, plain, live) =
      (info, info_of-KeepsClient st st' a keeps ∙ i, plain, keeps.3 ∙ live)

  -- What a subscription, and the end of one, make of a client.
  pub subscribe-listens :
      (st : State api.Caps) (a : ℕ) (name : String)
      → IsClient st a
      → (name == "") ≡ false
      → let st' = (subscribe api os st a name).0 in
        IsClient st' a
        × ((m : String)
            → (listens st' a m ≡ (if name == m then true else listens st a m))
              × (offers st' a m ≡ offers st a m))
  subscribe-listens st a name client named =
      let st' = (subscribe api os st a name).0 in
      let keeps = subscribe-KeepsClient st a name in
      (
        KeepsClient-IsClient st st' a keeps client,
        λ m. (
          ground (arith, subscribe-times api os st a name m a client.3 named, ==-refl a),
          ap (λ i. offered i m) (info_of-KeepsClient st st' a keeps),
        ),
      )

  pub unsubscribe-listens :
      (st : State api.Caps) (a : ℕ) (name : String)
      → IsClient st a
      → (name == "") ≡ false
      → let st' = (unsubscribe api os st a name).0 in
        IsClient st' a
        × ((m : String)
            → (listens st' a m ≡ (if name == m then false else listens st a m))
              × (offers st' a m ≡ offers st a m))
  unsubscribe-listens st a name client named =
      let st' = (unsubscribe api os st a name).0 in
      let keeps = unsubscribe-KeepsClient st a name in
      (
        KeepsClient-IsClient st st' a keeps client,
        λ m. (
          ground (arith, unsubscribe-times api os st a name m a client.3 named, ==-refl a),
          ap (λ i. offered i m) (info_of-KeepsClient st st' a keeps),
        ),
      )

  set_info-info_of :
      (st : State api.Caps) (a : ℕ) (info info' : AdapterInfo)
      → info_of st a ≡ found info
      → info_of (set_info api os st a info') a ≡ found info'
  unfolding info_of
  set_info-info_of st a info info' i = ground (
    arith,
    ==-refl a,
    lookup-assign a a info' st.adapter_infos,
    lookup-assign a a info' st.monitors,
  )

  set_info-same :
      (st : State api.Caps) (a : ℕ) (info : AdapterInfo)
      → ((set_info api os st a info).subscriptions ≡ st.subscriptions)
        × ((set_info api os st a info).net ≡ st.net)
  set_info-same st a info = ground arith

  pub has_method-declare :
      (info : AdapterInfo) (n m : String)
      → has_method info n ≡ false
      → ((declare_method info n).1 ≡ true)
        × (has_method (declare_method info n).0 m ≡ (if n == m then true else has_method info m))
        × ((declare_method info n).0.flags ≡ info.flags)
  unfolding has_method declare_method
  has_method-declare info n m new = (rw new, rw new, rw new)

  contains-remove :
      (n m : String) (ms : List String)
      → contains m (remove n ms) ≡ (if n == m then false else contains m ms)
  contains-remove n m [] = ground arith
  contains-remove n m (k ∷ ms) = ground (
    arith,
    string_key.equal_iff k n,
    string_key.equal_iff k m,
    string_key.equal_iff n m,
    contains-remove n m ms,
  )

  has_method-remove :
      (info : AdapterInfo) (n m : String)
      → has_method (remove_method info n) m ≡ (if n == m then false else has_method info m)
  unfolding has_method remove_method
  has_method-remove info n m = contains-remove n m info.declared_methods

  -- What a new method, and the end of one, make of a client.
  pub declare_method-offers :
      (st : State api.Caps) (a : ℕ) (info : AdapterInfo) (name : String)
      → info_of st a ≡ found info
      → has_monitor_flag info.flags ≡ false
      → (st.net.heap a).alive ≡ true
      → has_method info name ≡ false
      → let st' = set_info api os st a (declare_method info name).0 in
        IsClient st' a
        × ((m : String)
            → (listens st' a m ≡ listens st a m)
              × (offers st' a m ≡ (if name == m then true else offers st a m)))
  declare_method-offers st a info name i plain live new =
      let info' = (declare_method info name).0 in
      let (subs, net) = set_info-same st a info' in
      let known = set_info-info_of st a info info' i in
      let flags = (has_method-declare info name name new).2 in
      (
        (
          info',
          known,
          ap has_monitor_flag flags ∙ plain,
          ap (λ (n : Net). (n.heap a).alive) net ∙ live,
        ),
        λ m. (
          ap (λ s. ltb 0 (times a (or_else (lookup m s) []))) subs,
          ap (λ k. offered k m) known
              ∙ (has_method-declare info name m new).1
              ∙ ap (λ k. if name == m then true else offered k m) (sym i),
        ),
      )

  pub remove_method-offers :
      (st : State api.Caps) (a : ℕ) (info : AdapterInfo) (name : String)
      → info_of st a ≡ found info
      → has_monitor_flag info.flags ≡ false
      → (st.net.heap a).alive ≡ true
      → let st' = set_info api os st a (remove_method info name) in
        IsClient st' a
        × ((m : String)
            → (listens st' a m ≡ listens st a m)
              × (offers st' a m ≡ (if name == m then false else offers st a m)))
  unfolding remove_method
  remove_method-offers st a info name i plain live =
      let info' = remove_method info name in
      let (subs, net) = set_info-same st a info' in
      let known = set_info-info_of st a info info' i in
      (
        (info', known, plain, ap (λ (n : Net). (n.heap a).alive) net ∙ live),
        λ m. (
          ap (λ s. ltb 0 (times a (or_else (lookup m s) []))) subs,
          ap (λ k. offered k m) known
              ∙ has_method-remove info name m
              ∙ ap (λ k. if name == m then false else offered k m) (sym i),
        ),
      )
