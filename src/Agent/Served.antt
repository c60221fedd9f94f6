-- ===== src/Agent/Served.antt =====
-- The dispatcher's handling of a client's requests that name something (src/disp.cc), one after the
-- other in the order in which they were sent.
use flora.Base.{
  ℕ, ◌≡◌, refl, sym, ap, ◌∙◌, Bool, true, false, List, [], ◌∷◌, Option, none, some, String, ℤ,
  if◌then◌else◌, ◌==◌, int_key, string_key, ◌||◌, arith,
}
use flora.Caps.{CapsApi, CapsLaws}
use flora.Protocol.{
  cmd_subscribe_req, cmd_unsubscribe_req, cmd_declare_method_req, cmd_remove_method_req,
}
use flora.Message.Data.{Frame}
use flora.Message.Delivery.{Received}
use flora.Message.RequestParser.{
  parse_subscribe, parse_unsubscribe, parse_declare_method, parse_remove_method,
}
use flora.Dispatcher.State.{State, Written, info_of, declare_method, remove_method, has_method}
use flora.Dispatcher.Subscription.{subscribe, unsubscribe, handle_unsubscribe_req}
use flora.Dispatcher.Client.{set_info, handle_declare_method, handle_remove_method}
use flora.Dispatcher.Handle.{handle_cmd, finish, msg_handler}
use flora.Dispatcher.Views.{
  IsClient, listens, offers, subscribe-listens, unsubscribe-listens, declare_method-offers,
  remove_method-offers, has_method-declare, offered,
}
use flora.Client.Service.{
  with_command-split, handle_cmd-handler, finish-true, found-has_info, subscribe-handled,
}

abbrev pub after_all : {A : Type 0} → Option A → (A → Option A) → Option A
after_all none k = none
after_all (some x) k = k x

-- A frame of a message with the command.
abbrev pub Commands : (api : CapsApi) → Frame → ℤ → Type 0
Commands api f cmd =
    (c : api.Caps) × (api.parse f.bytes ≡ some c) × ((api.read_int32 c).0 ≡ some cmd)

abbrev pub is_named : ℤ → Bool
is_named cmd =
    (cmd == cmd_subscribe_req || cmd == cmd_unsubscribe_req)
    || (cmd == cmd_declare_method_req || cmd == cmd_remove_method_req)

module _ (api : CapsApi) (os : ℕ → Written) (now a : ℕ) where
  open api use {Caps}

  abbrev pub after_read : State Caps → Caps → Option ℤ → Option (State Caps)
  unfolding handle_cmd
  after_read st c none = some st
  after_read st c (some cmd) =
      if is_named cmd then handle_cmd api os now st (some c, a) else some st

  abbrev pub after_parse : State Caps → Option Caps → Option (State Caps)
  unfolding handle_cmd
  after_parse st none = none
  after_parse st (some c) = after_read st c (api.read_int32 c).0

  -- The dispatcher after all that the client with the adapter `a` sent, the last message first. Messages
  -- that name no subscription and no method are left out.
  abbrev pub served : State Caps → List Frame → Option (State Caps)
  unfolding handle_cmd
  served st [] = some st
  served st (f ∷ fs) = after_all (served st fs) (λ st'. after_parse st' (api.parse f.bytes))

  pub served-none : (st : State Caps) → served st [] ≡ some st
  unfolding handle_cmd
  served-none st = refl

  pub served-next :
      (start st st' : State Caps) (f : Frame) (fs : List Frame)
      → served start fs ≡ some st
      → after_parse st (api.parse f.bytes) ≡ some st'
      → served start (f ∷ fs) ≡ some st'
  unfolding handle_cmd
  served-next start st st' f fs before after =
      ap (λ o. after_all o (λ x. after_parse x (api.parse f.bytes))) before ∙ after

  -- The client is known, and these are the names that it is subscribed to and its methods.
  abbrev pub Knows : State Caps → (String → Bool) → (String → Bool) → Type 0
  Knows st posts calls =
      IsClient st a × ((m : String) → (listens st a m ≡ posts m) × (offers st a m ≡ calls m))

  Knows-later :
      (st : State Caps) (posts calls : String → Bool)
      → Knows st posts calls
      → Knows (record st { handle_cmd_tp = now }) posts calls
  unfolding info_of
  Knows-later st posts calls knows = knows

  module _ (laws : CapsLaws api) where
    reads :
        (cmd : ℤ) (parser : Caps → Option String × Caps) (n : String) (f : Frame)
        → Received laws f cmd parser (λ r. r ≡ n)
        → (c : Caps) × (api.parse f.bytes ≡ some c)
          × ((api.read_int32 c).0 ≡ some cmd)
          × ((parser (api.read_int32 c).1).0 ≡ some n)
    reads cmd parser n f (c, parses, ((k, t), read, (is_cmd, is_name), ended)) =
        let (command, spelled) = with_command-split laws parser c k t read in
        (c, parses, command ∙ ap some is_cmd, spelled ∙ ap some is_name)

    step :
        (cmd : ℤ) (f : Frame) (c : Caps) (st : State Caps)
        → is_named cmd ≡ true
        → api.parse f.bytes ≡ some c
        → (api.read_int32 c).0 ≡ some cmd
        → after_parse st (api.parse f.bytes) ≡ handle_cmd api os now st (some c, a)
    unfolding handle_cmd
    step cmd f c st named parses read = rw (parses, read, named)

    pub served-other :
        (cmd : ℤ) (f : Frame) (st : State Caps)
        → is_named cmd ≡ false
        → Commands api f cmd
        → after_parse st (api.parse f.bytes) ≡ some st
    unfolding handle_cmd
    served-other cmd f st other (c, parses, read) = rw (parses, read, other)

    pub subscribe-served :
        (n : String) (f : Frame) (st : State Caps) (posts calls : String → Bool)
        → Received laws f cmd_subscribe_req (parse_subscribe api) (λ r. r ≡ n)
        → (n == "") ≡ false
        → Knows st posts calls
        → (st' : State Caps) × (after_parse st (api.parse f.bytes) ≡ some st')
          × Knows st' (λ m. if n == m then true else posts m) calls
    unfolding msg_handler handle_cmd
    subscribe-served n f st posts calls received named (client, same) =
        let (c, parses, read, name) = reads cmd_subscribe_req (parse_subscribe api) n f received in
        let (info, i, plain, live) = client in
        let (client', now_same) = subscribe-listens api os st a n client named in
        let st' = (subscribe api os st a n).0 in
        (
          record st' { handle_cmd_tp = now },
          step cmd_subscribe_req f c st refl parses read
              ∙ handle_cmd-handler api os laws now 1 st a info c i plain refl read
              ∙ subscribe-handled api os laws now st a info (api.read_int32 c).1 n i named name,
          Knows-later st' _ _ (
            client',
            λ m. (
              (now_same m).0 ∙ ap (λ b. if n == m then true else b) (same m).0,
              (now_same m).1 ∙ (same m).1,
            ),
          ),
        )

    unsubscribe-true :
        (st : State Caps) (n : String) → (n == "") ≡ false → (unsubscribe api os st a n).1 ≡ true
    unfolding unsubscribe
    unsubscribe-true st n named = ground (arith, named)

    pub unsubscribe-served :
        (n : String) (f : Frame) (st : State Caps) (posts calls : String → Bool)
        → Received laws f cmd_unsubscribe_req (parse_unsubscribe api) (λ r. r ≡ n)
        → (n == "") ≡ false
        → Knows st posts calls
        → (st' : State Caps) × (after_parse st (api.parse f.bytes) ≡ some st')
          × Knows st' (λ m. if n == m then false else posts m) calls
    unfolding msg_handler handle_cmd handle_unsubscribe_req
    unsubscribe-served n f st posts calls received named (client, same) =
        let (c, parses, read, name) =
          reads cmd_unsubscribe_req (parse_unsubscribe api) n f received in
        let (info, i, plain, live) = client in
        let (client', now_same) = unsubscribe-listens api os st a n client named in
        let st' = (unsubscribe api os st a n).0 in
        let handled : finish api os now a
              (some (handle_unsubscribe_req api os st (api.read_int32 c).1 a))
            ≡ some (record st' { handle_cmd_tp = now }) =
          rw (found-has_info api os st a info i, name)
            (finish-true api os laws now a (unsubscribe api os st a n)
              (unsubscribe-true st n named)) in
        (
          record st' { handle_cmd_tp = now },
          step cmd_unsubscribe_req f c st refl parses read
              ∙ handle_cmd-handler api os laws now 2 st a info c i plain refl read
              ∙ handled,
          Knows-later st' _ _ (
            client',
            λ m. (
              (now_same m).0 ∙ ap (λ b. if n == m then false else b) (same m).0,
              (now_same m).1 ∙ (same m).1,
            ),
          ),
        )

    pub declare_method-served :
        (n : String) (f : Frame) (st : State Caps) (posts calls : String → Bool)
        → Received laws f cmd_declare_method_req (parse_declare_method api) (λ r. r ≡ n)
        → (n == "") ≡ false
        → calls n ≡ false
        → Knows st posts calls
        → (st' : State Caps) × (after_parse st (api.parse f.bytes) ≡ some st')
          × Knows st' posts (λ m. if n == m then true else calls m)
    unfolding msg_handler handle_cmd handle_declare_method
    declare_method-served n f st posts calls received named fresh (client, same) =
        let (c, parses, read, name) =
          reads cmd_declare_method_req (parse_declare_method api) n f received in
        let (info, i, plain, live) = client in
        let new : has_method info n ≡ false = ap (λ k. offered k n) (sym i) ∙ (same n).1 ∙ fresh in
        let (client', now_same) = declare_method-offers api os st a info n i plain live new in
        let st' = set_info api os st a (declare_method info n).0 in
        let done : (declare_method info n).1 ≡ true = (has_method-declare api os info n n new).0 in
        let handled : finish api os now a (handle_declare_method api os st (api.read_int32 c).1 a)
            ≡ some (record st' { handle_cmd_tp = now }) =
          rw (handle_declare_method, i, name, named)
            (finish-true api os laws now a (st', (declare_method info n).1) done) in
        (
          record st' { handle_cmd_tp = now },
          step cmd_declare_method_req f c st refl parses read
              ∙ handle_cmd-handler api os laws now 5 st a info c i plain refl read
              ∙ handled,
          Knows-later st' _ _ (
            client',
            λ m. (
              (now_same m).0 ∙ (same m).0,
              (now_same m).1 ∙ ap (λ b. if n == m then true else b) (same m).1,
            ),
          ),
        )

    pub remove_method-served :
        (n : String) (f : Frame) (st : State Caps) (posts calls : String → Bool)
        → Received laws f cmd_remove_method_req (parse_remove_method api) (λ r. r ≡ n)
        → (n == "") ≡ false
        → Knows st posts calls
        → (st' : State Caps) × (after_parse st (api.parse f.bytes) ≡ some st')
          × Knows st' posts (λ m. if n == m then false else calls m)
    unfolding msg_handler handle_cmd handle_remove_method
    remove_method-served n f st posts calls received named (client, same) =
        let (c, parses, read, name) =
          reads cmd_remove_method_req (parse_remove_method api) n f received in
        let (info, i, plain, live) = client in
        let (client', now_same) = remove_method-offers api os st a info n i plain live in
        let st' = set_info api os st a (remove_method info n) in
        let handled : finish api os now a (handle_remove_method api os st (api.read_int32 c).1 a)
            ≡ some (record st' { handle_cmd_tp = now }) =
          rw (handle_remove_method, i, name, named)
            (finish-true api os laws now a (st', true) refl) in
        (
          record st' { handle_cmd_tp = now },
          step cmd_remove_method_req f c st refl parses read
              ∙ handle_cmd-handler api os laws now 6 st a info c i plain refl read
              ∙ handled,
          Knows-later st' _ _ (
            client',
            λ m. (
              (now_same m).0 ∙ (same m).0,
              (now_same m).1 ∙ ap (λ b. if n == m then false else b) (same m).1,
            ),
          ),
        )
