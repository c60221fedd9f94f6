-- ===== src/Agent/Clients.antt =====
-- The client of src/cli.cc as the agent's, and what the service makes of its requests (src/disp.cc).
use flora.Base.{
  ℕ, suc, ◌≡◌, refl, ap, ◌∙◌, inl, inr, Bool, true, false, ◌||◌, not, ◌∷◌, Option, none, some,
  String, ℤ, if◌then◌else◌, ◌==◌, int_key, string_key, arith,
}
use flora.Caps.{CapsApi, CapsLaws}
use flora.Protocol.{cli_success, cmd_post_req, cmd_call_req, has_monitor_flag}
use flora.Message.Data.{Frame}
use flora.Message.RequestSerializer.{
  serialize_subscribe, serialize_unsubscribe, serialize_declare_method, serialize_remove_method,
}
use flora.Message.RequestRoundTrip.{
  serialize_subscribe-received, serialize_unsubscribe-received, serialize_declare_method-received,
  serialize_remove_method-received,
}
use flora.Dispatcher.State.{State, Written}
use flora.Client.Requests.{Client, subscribe, unsubscribe, declare_method, remove_method, post}
use flora.Client.State.{Session}
use flora.Client.Calls.{call_nb}
use flora.Client.Receive.{close}
use flora.Agent.Interface.{ClientOps, ClientLaws}
use flora.Agent.Served.{
  served, after_parse, served-next, Knows, Commands, is_named, served-other, subscribe-served,
  unsubscribe-served, declare_method-served, remove_method-served,
}
use flora.Agent.Sends.{request-sent}
use flora.Agent.Silent.{
  SentOrSame, post-SentOrSame, call-SentOrSame, serialize_post-Commands, serialize_call-Commands,
}

-- A client and its connection: `takes n` is whether the n-th send is taken, and `failed` whether a
-- request that names something had another result than success.
pub record Line (C : Type 0) : Type 0 where
  pub session : Session C
  pub takes : ℕ → Bool
  pub sends : ℕ
  pub failed : Bool

abbrev pub request : {C : Type 0} → (Bool → Client → Client × ℤ) → Line C → Line C
request f l =
    let (cl, r) = f (l.takes l.sends) l.session.connection in
    record l {
      session = record l.session { connection = cl };
      sends = suc l.sends;
      failed = l.failed || not (r == cli_success);
    }

abbrev pub or_same : {C : Type 0} → Session C → Option (Session C × ℤ) → Session C
or_same st none = st
or_same st (some p) = p.0

-- A call's callback is not followed.
abbrev pub client_ops : CapsApi → ClientOps
client_ops api = record {
  Client = Line api.Caps;
  Message = Option api.Caps;
  subscribe = λ n l. request (λ takes cl. subscribe api takes cl (some n)) l;
  unsubscribe = λ n l. request (λ takes cl. unsubscribe api takes cl (some n)) l;
  declare_method = λ n l. request (λ takes cl. declare_method api takes cl (some n)) l;
  remove_method = λ n l. request (λ takes cl. remove_method api takes cl (some n)) l;
  post = λ n msg msgtype l.
      let (cl, r) = post api (l.takes l.sends) l.session.connection (some n) msg msgtype in
      (record l { session = record l.session { connection = cl }; sends = suc l.sends }, r);
  call = λ n msg target timeout l.
      let (st, r) = call_nb api (l.takes l.sends) l.session (some n) msg target none timeout in
      (record l { session = st; sends = suc l.sends }, r);
  close = λ l. record l { session = or_same l.session (close false false l.session) };
}

fine-before :
    (b : Bool) (r : ℤ) → (b || not (r == cli_success)) ≡ false → (b ≡ false) × (r ≡ cli_success)
fine-before true r e = absurd (ground arith)
fine-before false r e = (refl, ground (arith, int_key.equal_iff r cli_success))

module _ {api : CapsApi} (laws : CapsLaws api) (os : ℕ → Written) (now a : ℕ)
    (start : State api.Caps) where
  -- The dispatcher that has handled what the client sent, from the state `start`, knows the client with
  -- these names.
  abbrev pub KnowsLine : Line api.Caps → (String → Bool) → (String → Bool) → Type 0
  KnowsLine l posts calls =
      (st : State api.Caps) × (served api os now a start l.session.connection.sent ≡ some st)
      × Knows api os now a st posts calls

  abbrev Handles :
      Frame → (String → Bool) → (String → Bool) → (String → Bool) → (String → Bool) → Type 0
  Handles f posts calls posts' calls' =
      (st : State api.Caps)
      → Knows api os now a st posts calls
      → (st' : State api.Caps) × (after_parse api os now a st (api.parse f.bytes) ≡ some st')
        × Knows api os now a st' posts' calls'

  sent-KnowsLine :
      (l l' : Line api.Caps) (f : Frame) (posts calls posts' calls' : String → Bool)
      → l'.session.connection.sent ≡ f ∷ l.session.connection.sent
      → Handles f posts calls posts' calls'
      → KnowsLine l posts calls
      → KnowsLine l' posts' calls'
  sent-KnowsLine l l' f posts calls posts' calls' e handles (st, before, knows) =
      let (st', after, knows') = handles st knows in
      (
        st',
        ap (served api os now a start) e
            ∙ served-next api os now a start st st' f l.session.connection.sent before after,
        knows',
      )

  silent-KnowsLine :
      (l l' : Line api.Caps) (o : Option Frame) (cmd : ℤ) (posts calls : String → Bool)
      → is_named cmd ≡ false
      → SentOrSame laws l.session.connection o l'.session.connection
      → ((f : Frame) → o ≡ some f → Commands api f cmd)
      → KnowsLine l posts calls
      → KnowsLine l' posts calls
  silent-KnowsLine l l' o cmd posts calls other (inl same) commands (st, before, knows) =
      (st, ap (λ (c : Client). served api os now a start c.sent) same ∙ before, knows)
  silent-KnowsLine l l' o cmd posts calls other (inr (f, e, grown)) commands knows =
      sent-KnowsLine l l' f posts calls posts calls (ap (λ (c : Client). c.sent) grown)
        (λ st known. (st, served-other api os now a laws cmd f st other (commands f e), known))
        knows

  pub subscribe_law :
      (n : String) (l : Line api.Caps)
      → (n == "") ≡ false
      → ((client_ops api).subscribe n l).failed ≡ false
      → (l.failed ≡ false)
        × ((posts calls : String → Bool)
            → KnowsLine l posts calls
            → KnowsLine
                ((client_ops api).subscribe n l)
                (λ m. if n == m then true else posts m)
                calls)
  unfolding subscribe
  subscribe_law n l named fine =
      let cl = l.session.connection in
      let (before, result) =
        fine-before l.failed (subscribe api (l.takes l.sends) cl (some n)).1 fine in
      let (f, e, sent) =
        request-sent (has_monitor_flag cl.flags) (l.takes l.sends) cl
          (serialize_subscribe api n cl.bufsize cl.serialize_flags) result in
      let received = serialize_subscribe-received laws n cl.bufsize cl.serialize_flags f e in
      (
        before,
        λ posts calls.
            sent-KnowsLine l ((client_ops api).subscribe n l) f posts calls _ _ sent
              (λ st. subscribe-served api os now a laws n f st posts calls received named),
      )

  pub unsubscribe_law :
      (n : String) (l : Line api.Caps)
      → (n == "") ≡ false
      → ((client_ops api).unsubscribe n l).failed ≡ false
      → (l.failed ≡ false)
        × ((posts calls : String → Bool)
            → KnowsLine l posts calls
            → KnowsLine
                ((client_ops api).unsubscribe n l)
                (λ m. if n == m then false else posts m)
                calls)
  unfolding unsubscribe
  unsubscribe_law n l named fine =
      let cl = l.session.connection in
      let (before, result) =
        fine-before l.failed (unsubscribe api (l.takes l.sends) cl (some n)).1 fine in
      let (f, e, sent) =
        request-sent (has_monitor_flag cl.flags) (l.takes l.sends) cl
          (serialize_unsubscribe api n cl.bufsize cl.serialize_flags) result in
      let received = serialize_unsubscribe-received laws n cl.bufsize cl.serialize_flags f e in
      (
        before,
        λ posts calls.
            sent-KnowsLine l ((client_ops api).unsubscribe n l) f posts calls _ _ sent
              (λ st. unsubscribe-served api os now a laws n f st posts calls received named),
      )

  pub declare_method_law :
      (n : String) (l : Line api.Caps)
      → (n == "") ≡ false
      → ((client_ops api).declare_method n l).failed ≡ false
      → (l.failed ≡ false)
        × ((posts calls : String → Bool)
            → calls n ≡ false
            → KnowsLine l posts calls
            → KnowsLine
                ((client_ops api).declare_method n l)
                posts
                (λ m. if n == m then true else calls m))
  unfolding declare_method
  declare_method_law n l named fine =
      let cl = l.session.connection in
      let (before, result) =
        fine-before l.failed (declare_method api (l.takes l.sends) cl (some n)).1 fine in
      let (f, e, sent) =
        request-sent (has_monitor_flag cl.flags) (l.takes l.sends) cl
          (serialize_declare_method api n cl.bufsize cl.serialize_flags) result in
      let received = serialize_declare_method-received laws n cl.bufsize cl.serialize_flags f e in
      (
        before,
        λ posts calls new.
            sent-KnowsLine l ((client_ops api).declare_method n l) f posts calls _ _ sent
              (λ st. declare_method-served api os now a laws n f st posts calls received named new),
      )

  pub remove_method_law :
      (n : String) (l : Line api.Caps)
      → (n == "") ≡ false
      → ((client_ops api).remove_method n l).failed ≡ false
      → (l.failed ≡ false)
        × ((posts calls : String → Bool)
            → KnowsLine l posts calls
            → KnowsLine
                ((client_ops api).remove_method n l)
                posts
                (λ m. if n == m then false else calls m))
  unfolding remove_method
  remove_method_law n l named fine =
      let cl = l.session.connection in
      let (before, result) =
        fine-before l.failed (remove_method api (l.takes l.sends) cl (some n)).1 fine in
      let (f, e, sent) =
        request-sent (has_monitor_flag cl.flags) (l.takes l.sends) cl
          (serialize_remove_method api n cl.bufsize cl.serialize_flags) result in
      let received = serialize_remove_method-received laws n cl.bufsize cl.serialize_flags f e in
      (
        before,
        λ posts calls.
            sent-KnowsLine l ((client_ops api).remove_method n l) f posts calls _ _ sent
              (λ st. remove_method-served api os now a laws n f st posts calls received named),
      )

  pub post_law :
      (n : String) (msg : Option api.Caps) (msgtype : ℕ) (l : Line api.Caps)
      (posts calls : String → Bool)
      → KnowsLine l posts calls
      → KnowsLine ((client_ops api).post n msg msgtype l).0 posts calls
  post_law n msg msgtype l posts calls =
      silent-KnowsLine l ((client_ops api).post n msg msgtype l).0 _ cmd_post_req posts calls refl
        (post-SentOrSame laws (l.takes l.sends) n msg msgtype l.session.connection)
        (serialize_post-Commands laws n msgtype msg _ _)

  pub call_law :
      (n : String) (msg : Option api.Caps) (target : String) (timeout : ℕ) (l : Line api.Caps)
      (posts calls : String → Bool)
      → KnowsLine l posts calls
      → KnowsLine ((client_ops api).call n msg target timeout l).0 posts calls
  call_law n msg target timeout l posts calls =
      silent-KnowsLine l ((client_ops api).call n msg target timeout l).0 _ cmd_call_req posts calls
        refl (call-SentOrSame laws (l.takes l.sends) n msg target timeout l.session)
        (serialize_call-Commands laws n msg target _ timeout _ _)

  -- The agent's laws hold of the client.
  abbrev pub client_laws : ClientLaws (client_ops api)
  client_laws = record {
    has_failed = λ l. l.failed;
    IsName = λ n. (n == "") ≡ false;
    Knows = KnowsLine;
    subscribe_lem = λ n l named fine. subscribe_law n l named fine;
    unsubscribe_lem = λ n l named fine. unsubscribe_law n l named fine;
    declare_method_lem = λ n l named fine. declare_method_law n l named fine;
    remove_method_lem = λ n l named fine. remove_method_law n l named fine;
    post_lem = λ n msg msgtype l fine. (fine, λ posts calls. post_law n msg msgtype l posts calls);
    call_lem = λ n msg target timeout l fine.
        (fine, λ posts calls. call_law n msg target timeout l posts calls);
  }
