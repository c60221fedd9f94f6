-- ===== src/Agent/Run.antt =====
-- The run thread of the agent (src/flora-agent.cc), step by step.
use flora.Base.{
  ℕ, ◌+◌, true, List, [], ◌∷◌, ◌++◌, Option, none, some, String, if◌then◌else◌, ◌==◌, nat_key,
}
use flora.Agent.Interface.{ClientOps}
use flora.Agent.State.{
  Agent, Phase, idle, connecting, retrying, waiting, woken, cleaning, ended, connected, initialized,
  update,
}

abbrev pub names : List (String × ℕ) → List String
names [] = []
names ((name, cb) ∷ m) = name ∷ names m

-- The pointers to a client: those in the list, the variable of the loop, the agent's, and `others`.
abbrev pub counted : ℕ → List ℕ → ℕ
counted c [] = 0
counted c (d ∷ ds) = let rest = counted c ds in if d == c then 1 + rest else rest

abbrev pub held_by : Option ℕ → ℕ → ℕ
held_by none c = 0
held_by (some d) c = if d == c then 1 else 0

module _ {Client : Type 0} where
  abbrev pub for_each : (String → Client → Client) → List String → Client → Client
  for_each f [] cl = cl
  for_each f (name ∷ rest) cl = for_each f rest (f name cl)

  abbrev pub use_count : (ℕ → ℕ) → Agent Client → List ℕ → ℕ → ℕ
  use_count others st gabages c = counted c gabages + 1 + held_by st.flora_cli c + others c

module _ (ops : ClientOps) where
  open ops use {Client}

  -- `start` without blocking sets `working` in the thread that it starts; both forms come to this.
  unfoldable pub start : Agent Client → Agent Client
  start st = record st { working = true; phase = connecting }

  unfoldable pub init_cli : Agent Client → ℕ → Agent Client
  init_cli st c = record st {
    clients =
        update c
          (λ cl.
            for_each ops.declare_method (names st.call_handlers)
              (for_each ops.subscribe (names st.post_handlers) cl))
          st.clients;
  }

  -- The loop of `clean_gabages` over the clients behind `kept`, none of them null.
  unfoldable pub clean_from : (ℕ → ℕ) → List ℕ → List ℕ → Agent Client → Agent Client
  clean_from others kept [] st = record st { gabages = kept }
  clean_from others kept (c ∷ rest) st =
      let st' = record st { clients = update c ops.close st.clients } in
      clean_from others
        (if use_count others st' (kept ++ c ∷ rest) c == 1 then kept else kept ++ c ∷ []) rest st'

  unfoldable pub clean_gabages : (ℕ → ℕ) → Agent Client → Agent Client
  unfolding clean_from
  clean_gabages others st = clean_from others [] st.gabages st

  -- What the thread does next, where it stands. `connects` is the outcome of `Client::connect`, with
  -- the pointer to the new client; a `waiting` thread is blocked.
  unfoldable pub step_at : Phase → (ℕ → ℕ) → Option ℕ → Client → Agent Client → Agent Client
  unfolding init_cli clean_gabages
  step_at idle others connects cl st = st
  step_at connecting others connects cl st = elim connects [
    | none ↦ record st { phase = retrying }
    | some c ↦ record st { phase = connected c; clients = update c (λ d. cl) st.clients }
  ]
  step_at (connected c) others connects cl st = record (init_cli st c) { phase = initialized c }
  step_at (initialized c) others connects cl st = record st {
    phase = waiting;
    flora_cli = some c;
    gabages = st.gabages ++ c ∷ [];
  }
  step_at retrying others connects cl st = record st { phase = cleaning }
  step_at waiting others connects cl st = st
  step_at woken others connects cl st = record st { phase = cleaning; flora_cli = none }
  step_at cleaning others connects cl st = record (clean_gabages others st) {
    phase = if st.working then connecting else ended;
  }
  step_at ended others connects cl st = st

  unfoldable pub run_step : (ℕ → ℕ) → Option ℕ → Client → Agent Client → Agent Client
  unfolding step_at
  run_step others connects cl st = step_at st.phase others connects cl st
