-- ===== src/Agent/Interface.antt =====
-- What the agent uses of a client (include/flora-cli.h), and what it relies on.
use flora.Base.{ℕ, ◌≡◌, Bool, true, false, String, ℤ, if◌then◌else◌, ◌==◌, string_key}

-- Messages, targets and responses are handed on. `Message` is what `post` and `call` send. The result of
-- a request that names something is left out, since the agent does not look at it.
pub record ClientOps : Type 1 where
  pub Client : Type 0
  pub Message : Type 0
  pub subscribe : String → Client → Client
  pub unsubscribe : String → Client → Client
  pub declare_method : String → Client → Client
  pub remove_method : String → Client → Client
  pub post : String → Message → ℕ → Client → Client × ℤ
  pub call : String → Message → String → ℕ → Client → Client × ℤ
  pub close : Client → Client

-- `has_failed` is whether one of the client's requests that name something was not sent. `Knows` is what
-- the service makes of the requests: the names that the client is subscribed to, and its methods. It
-- accepts a name that is `IsName`, and a method that it does not have yet.
pub record ClientLaws (ops : ClientOps) : Type 1 where
  pub has_failed : ops.Client → Bool
  pub IsName : String → Type 0
  pub Knows : ops.Client → (String → Bool) → (String → Bool) → Type 0
  pub subscribe_lem :
      (n : String) (c : ops.Client)
      → IsName n
      → has_failed (ops.subscribe n c) ≡ false
      → (has_failed c ≡ false)
        × ((posts calls : String → Bool)
            → Knows c posts calls
            → Knows (ops.subscribe n c) (λ m. if n == m then true else posts m) calls)
  pub unsubscribe_lem :
      (n : String) (c : ops.Client)
      → IsName n
      → has_failed (ops.unsubscribe n c) ≡ false
      → (has_failed c ≡ false)
        × ((posts calls : String → Bool)
            → Knows c posts calls
            → Knows (ops.unsubscribe n c) (λ m. if n == m then false else posts m) calls)
  pub declare_method_lem :
      (n : String) (c : ops.Client)
      → IsName n
      → has_failed (ops.declare_method n c) ≡ false
      → (has_failed c ≡ false)
        × ((posts calls : String → Bool)
            → calls n ≡ false
            → Knows c posts calls
            → Knows (ops.declare_method n c) posts (λ m. if n == m then true else calls m))
  pub remove_method_lem :
      (n : String) (c : ops.Client)
      → IsName n
      → has_failed (ops.remove_method n c) ≡ false
      → (has_failed c ≡ false)
        × ((posts calls : String → Bool)
            → Knows c posts calls
            → Knows (ops.remove_method n c) posts (λ m. if n == m then false else calls m))
  pub post_lem :
      (n : String) (message : ops.Message) (msgtype : ℕ) (c : ops.Client)
      → let c' = (ops.post n message msgtype c).0 in
        has_failed c' ≡ false
        → (has_failed c ≡ false)
          × ((posts calls : String → Bool) → Knows c posts calls → Knows c' posts calls)
  pub call_lem :
      (n : String) (message : ops.Message) (target : String) (timeout : ℕ) (c : ops.Client)
      → let c' = (ops.call n message target timeout c).0 in
        has_failed c' ≡ false
        → (has_failed c ≡ false)
          × ((posts calls : String → Bool) → Knows c posts calls → Knows c' posts calls)
