-- ===== src/Dispatcher/Posts.antt =====
-- Who receives a post (src/disp.cc, `post_msg`).
use flora.Base.{
  ℕ, zero, suc, ◌+◌, ◌≡◌, refl, sym, ap, ◌∙◌, Bool, true, false, not, ◌&&◌, List, [], ◌∷◌, ◌++◌,
  Option, none, some, String, if◌then◌else◌, ◌==◌, string_key, nat_key, lookup, keep, arith, All,
  All-keep, Bool-cases, Option-cases, inl, inr, subst,
}
use flora.Caps.{CapsApi}
use flora.Protocol.{msgtype_persist}
use flora.Message.Data.{Frame, is_valid_msgtype}
use flora.Message.ResponseSerializer.{serialize_post}
use flora.Dispatcher.State.{State, Net, Adapter, Written, taken, write}
use flora.Dispatcher.Subscription.{
  post_msg, post_to, write_to_adapters, write_post_msg_to_adapters, receivers, net_ordered,
  put_or_erase,
}
use flora.Dispatcher.Subscribers.{times, times-keep, subscribers}

-- The frames that one adapter's socket took, the last one first.
abbrev pub received : ℕ → List (ℕ × Frame) → List Frame
received b [] = []
received b ((a, f) ∷ sent) = if a == b then f ∷ received b sent else received b sent

abbrev pub replicate {ℓ} : {A : Type ℓ} → ℕ → A → List A
replicate zero a = []
replicate (suc n) a = a ∷ replicate n a

replicate_last {ℓ} :
    {A : Type ℓ} (n : ℕ) (a : A) (xs : List A) → replicate n a ++ a ∷ xs ≡ a ∷ (replicate n a ++ xs)
replicate_last zero a xs = refl
replicate_last (suc n) a xs = ap (◌∷◌ a) (replicate_last n a xs)

-- Every adapter of the list is there and open.
abbrev IsReady : Net → List ℕ → Type 0
IsReady net = All (λ a. ((net.heap a).alive ≡ true) × ((net.heap a).is_open ≡ true))

receivers-IsReady : (net : Net) (xs : List ℕ) → IsReady net (receivers net xs)
receivers-IsReady net [] = tt
receivers-IsReady net (x ∷ xs) =
    let rest = receivers-IsReady net xs in
    elim (Bool-cases (net.heap x).alive) [
      | inl here ↦ elim (Bool-cases (net.heap x).is_open) [
        | inl ready ↦ rw (here, ready) ((here, ready), rest)
        | inr closed ↦ rw (here, closed) rest
      ]
      | inr gone ↦ rw gone rest
    ]

first_received :
    (b a : ℕ) (f : Frame) (adapters : List ℕ) (sent : List (ℕ × Frame))
    → replicate (times b adapters) f ++ received b ((a, f) ∷ sent)
      ≡ replicate (times b (a ∷ adapters)) f ++ received b sent
first_received b a f adapters sent = elim (Bool-cases (a == b)) [
  | inl same ↦ rw same (replicate_last (times b adapters) f (received b sent))
  | inr other ↦ rw other
]

module _ (api : CapsApi) (os : ℕ → Written) (takes : (n : ℕ) → os n ≡ taken) where
  write-taken :
      (a : ℕ) (f : Frame) (net : Net)
      → (net.heap a).is_open ≡ true
      → write os a f net ≡ record net { sent = (a, f) ∷ net.sent; writes = net.writes + 1 }
  unfolding write
  write-taken a f net h = rw (h, takes net.writes)

  write_to_adapters-received :
      (b : ℕ) (f : Frame) (adapters : List ℕ) (net : Net)
      → IsReady net adapters
      → (received b (write_to_adapters api os f adapters net).sent
          ≡ replicate (times b adapters) f ++ received b net.sent)
        × ((write_to_adapters api os f adapters net).heap ≡ net.heap)
  unfolding write_to_adapters
  write_to_adapters-received b f [] net ready = (refl, refl)
  write_to_adapters-received b f (a ∷ adapters) net ready =
      let net' : Net = record net { sent = (a, f) ∷ net.sent; writes = net.writes + 1 } in
      let (got, same) = write_to_adapters-received b f adapters net' ready.1 in
      let once : (if (net.heap a).alive then write os a f net else net) ≡ net' =
        rw ready.0.0 (write-taken a f net ready.0.1) in
      let first = ap (write_to_adapters api os f adapters) once in
      (
        ap (λ (n : Net). received b n.sent) first ∙ got ∙ first_received b a f adapters net.sent,
        ap (λ (n : Net). n.heap) first ∙ same,
      )

  round_net :
      (st : State api.Caps) (name : String) (type : ℕ) (args : Option api.Caps) (tag flags : ℕ)
      (adapters : List ℕ) (cli_name : String) (f : Frame)
      → serialize_post api name type args tag cli_name st.buf_size flags ≡ some f
      → write_post_msg_to_adapters api os st name type args tag flags adapters cli_name
        ≡ record st { net = write_to_adapters api os f adapters st.net }
  unfolding write_post_msg_to_adapters
  round_net st name type args tag flags [] cli_name f e = refl
  round_net st name type args tag flags (a ∷ adapters) cli_name f e = rw e

  -- Both rounds.
  post_to_net :
      (st : State api.Caps) (name : String) (type : ℕ) (args : Option api.Caps) (sender : ℕ)
      (cli_name : String) (subscribers : List ℕ) (f g : Frame)
      → serialize_post api name type args (st.net.heap sender).tag cli_name st.buf_size 0 ≡ some f
      → serialize_post api name type args
          (st.net.heap sender).tag
          cli_name
          st.buf_size
          api.net_byteorder
        ≡ some g
      → let ready = receivers st.net subscribers in
        post_to api os st name type args sender cli_name subscribers ≡ record st {
          net = write_to_adapters api os g (keep (net_ordered api os st.net) ready) (
              write_to_adapters api os f
                (keep (λ a. not (net_ordered api os st.net a)) ready)
                st.net);
          subscriptions = put_or_erase name ready st.subscriptions;
        }
  unfolding post_to
  post_to_net st name type args sender cli_name subscribers f g e d =
      let ready = receivers st.net subscribers in
      let nobo = keep (λ a. not (net_ordered api os st.net a)) ready in
      let bo = keep (net_ordered api os st.net) ready in
      let tag = (st.net.heap sender).tag in
      let st₁ : State api.Caps = record st { net = write_to_adapters api os f nobo st.net } in
      let first = round_net st name type args tag 0 nobo cli_name f e in
      let second = round_net st₁ name type args tag api.net_byteorder bo cli_name g d in
      ap
        (λ (s : State api.Caps).
          record (write_post_msg_to_adapters api os s name type args tag api.net_byteorder bo
            cli_name) { subscriptions = put_or_erase name ready st.subscriptions })
        first
      ∙ ap
          (λ (s : State api.Caps). record s {
            subscriptions = put_or_erase name ready st.subscriptions;
          })
          second

  keep-IsReady : (net : Net) (p : ℕ → Bool) (xs : List ℕ) → IsReady net (keep p (receivers net xs))
  keep-IsReady net p xs =
      All-keep (λ a. ((net.heap a).alive ≡ true) × ((net.heap a).is_open ≡ true)) p
        (receivers net xs) (receivers-IsReady net xs)

  two_rounds :
      (net : Net) (b : ℕ) (subs : List ℕ) (f g : Frame)
      → let ready = receivers net subs in
        received b
          (write_to_adapters api os g (keep (net_ordered api os net) ready) (
            write_to_adapters api os f (keep (λ a. not (net_ordered api os net a)) ready) net)).sent
        ≡ replicate
            (if (net.heap b).alive && (net.heap b).is_open then times b subs else 0)
            (if net_ordered api os net b then g else f)
          ++ received b net.sent
  two_rounds net b subs f g =
      let ready = receivers net subs in
      let nobo = keep (λ a. not (net_ordered api os net a)) ready in
      let bo = keep (net_ordered api os net) ready in
      let net' : Net = write_to_adapters api os f nobo net in
      let (got, same) =
        write_to_adapters-received b f nobo net
          (keep-IsReady net (λ a. not (net_ordered api os net a)) subs) in
      let still : IsReady net' bo =
        subst (λ (h : ℕ → Adapter). All (λ a. ((h a).alive ≡ true) × ((h a).is_open ≡ true)) bo)
          (sym same) (keep-IsReady net (net_ordered api os net) subs) in
      let (got', _) = write_to_adapters-received b g bo net' still in
      let n_ready = times-keep b (λ a. (net.heap a).alive && (net.heap a).is_open) subs in
      let n_bo = times-keep b (net_ordered api os net) ready in
      let n_nobo = times-keep b (λ a. not (net_ordered api os net a)) ready in
      got'
      ∙ ap (◌++◌ (replicate (times b bo) g)) got
      ∙ elim (Bool-cases (net_ordered api os net b)) [
        | inl wants ↦ rw (n_bo, n_nobo, wants, n_ready)
        | inr host ↦ rw (n_bo, n_nobo, host, n_ready)
      ]

  post_msg_net :
      (st : State api.Caps) (name : String) (type : ℕ) (args : Option api.Caps) (sender : ℕ)
      (cli_name : String)
      → is_valid_msgtype type ≡ true
      → (name == "") ≡ false
      → (post_msg api os st name type args sender cli_name).0.net
        ≡ elim (lookup name st.subscriptions) [
          | none ↦ st.net
          | some subs ↦ (post_to api os st name type args sender cli_name subs).net
        ]
  unfolding post_msg
  post_msg_net st name type args sender cli_name valid named =
      elim (Bool-cases (type == msgtype_persist)) [
        | inl p ↦ elim (Option-cases (lookup name st.subscriptions)) [
          | inl e ↦ rw (valid, named, e, p)
          | inr (subs, e) ↦ rw (valid, named, e, p)
        ]
        | inr q ↦ elim (Option-cases (lookup name st.subscriptions)) [
          | inl e ↦ rw (valid, named, e, q)
          | inr (subs, e) ↦ rw (valid, named, e, q)
        ]
      ]

  -- While the sockets take what is written and both frames fit the buffer, a post with a valid type
  -- and a name reaches every adapter once for each time it stands in the name's list, if it is there
  -- and open, in the byte order that it wants; it reaches no other.
  pub post_msg-received :
      (st : State api.Caps) (name : String) (type : ℕ) (args : Option api.Caps) (sender : ℕ)
      (cli_name : String) (f g : Frame) (b : ℕ)
      → is_valid_msgtype type ≡ true
      → (name == "") ≡ false
      → serialize_post api name type args (st.net.heap sender).tag cli_name st.buf_size 0 ≡ some f
      → serialize_post api name type args
          (st.net.heap sender).tag
          cli_name
          st.buf_size
          api.net_byteorder
        ≡ some g
      → received b (post_msg api os st name type args sender cli_name).0.net.sent
        ≡ replicate
            (if (st.net.heap b).alive && (st.net.heap b).is_open
              then times b (subscribers st name)
              else 0)
            (if net_ordered api os st.net b then g else f)
          ++ received b st.net.sent
  post_msg-received st name type args sender cli_name f g b valid named e d =
      ap (λ (n : Net). received b n.sent)
        (post_msg_net st name type args sender cli_name valid named)
      ∙ elim (Option-cases (lookup name st.subscriptions)) [
        | inl missing ↦ rw missing (ground arith)
        | inr (subs, there) ↦ rw there (
            ap (λ (s : State api.Caps). received b s.net.sent)
              (post_to_net st name type args sender cli_name subs f g e d)
            ∙ two_rounds st.net b subs f g)
      ]
