-- ===== src/Agent/Steps.antt =====
-- The steps of the agent's run thread keep the service's view of it (src/flora-agent.cc).
use flora.Base.{
  ℕ, ◌≡◌, refl, sym, ap, ◌∙◌, Bool, true, false, List, [], ◌∷◌, ◌++◌, All, Option, none, some,
  if◌then◌else◌, nat_key, string_key, int_key, arith, subst,
}
use mathlib.Core.Bool.{false≢true}
use flora.Agent.Interface.{ClientOps, ClientLaws}
use flora.Agent.State.{
  Agent, Phase, idle, connecting, retrying, waiting, woken, cleaning, ended, connected, initialized,
  update,
}
use flora.Agent.Run.{names, for_each, step_at, run_step, init_cli, clean_gabages, clean_from}
use flora.Agent.Mirror.{IsCalls, Mirrors, IsNew, for_each-Mirrors}
use flora.Agent.Handlers.{is_in_use, is_between, IsMirrored, update-same}
use flora.Agent.Requests.{without_client-IsMirrored}

module _ (ops : ClientOps) (laws : ClientLaws ops) where
  open laws use {IsName}

  pub clean_from-keeps :
      (others : ℕ → ℕ) (rest kept : List ℕ) (st : Agent ops.Client)
      → let st' = clean_from ops others kept rest st in
        (st'.flora_cli ≡ st.flora_cli)
        × (st'.post_handlers ≡ st.post_handlers)
        × (st'.call_handlers ≡ st.call_handlers)
        × (st'.working ≡ st.working)
  unfolding clean_from
  clean_from-keeps others [] kept st = (refl, refl, refl, refl)
  clean_from-keeps others (c ∷ rest) kept st = clean_from-keeps others rest _ _

  -- The new client becomes the agent's: `connect`, `init_cli` and the swap, with nothing between.
  unfoldable pub connect_steps : (ℕ → ℕ) → ℕ → ops.Client → Agent ops.Client → Agent ops.Client
  connect_steps others c cl st =
      run_step ops others none cl (run_step ops others none cl (run_step ops others (some c) cl st))

  pub connect_steps-fields :
      (others : ℕ → ℕ) (c : ℕ) (cl : ops.Client) (st : Agent ops.Client)
      → st.phase ≡ connecting
      → let st' = connect_steps others c cl st in
        (st'.flora_cli ≡ some c)
        × (st'.phase ≡ waiting)
        × (st'.post_handlers ≡ st.post_handlers)
        × (st'.call_handlers ≡ st.call_handlers)
        × (st'.working ≡ st.working)
  unfolding connect_steps run_step step_at init_cli
  connect_steps-fields others c cl st e =
      let after : Phase → Agent ops.Client = λ p.
        run_step ops others none cl
          (run_step ops others none cl (step_at ops p others (some c) cl st)) in
      (
        ap (λ p. (after p).flora_cli) e,
        ap (λ p. (after p).phase) e,
        ap (λ p. (after p).post_handlers) e,
        ap (λ p. (after p).call_handlers) e,
        ap (λ p. (after p).working) e,
      )

  pub connect_steps-IsMirrored :
      (others : ℕ → ℕ) (c : ℕ) (cl : ops.Client) (st : Agent ops.Client)
      → st.phase ≡ connecting
      → IsNew ops laws cl
      → IsMirrored ops laws st
      → IsMirrored ops laws (connect_steps others c cl st)
  unfolding connect_steps run_step step_at init_cli
  connect_steps-IsMirrored others c cl st e new ok =
      let asked : ops.Client → ops.Client = λ k.
        for_each ops.declare_method (names st.call_handlers)
          (for_each ops.subscribe (names st.post_handlers) k) in
      let first : ℕ → ops.Client = update c (λ d. cl) st.clients in
      let later : Agent ops.Client = record st {
        phase = waiting;
        flora_cli = some c;
        gabages = st.gabages ++ c ∷ [];
        clients = update c asked first;
      } in
      let ready : update c asked first c ≡ asked cl =
        update-same ops laws c asked first
        ∙ ap asked (update-same ops laws c (λ d. cl) st.clients) in
      subst (IsMirrored ops laws)
        (sym (
          ap
            (λ p.
              run_step ops others none cl
                (run_step ops others none cl (step_at ops p others (some c) cl st)))
            e))
        (record {
          posts_named = ok.posts_named;
          calls_named = ok.calls_named;
          settled = refl;
          live = λ d i. (
            refl,
            subst (λ k. Mirrors ops laws (later.clients k) st.post_handlers st.call_handlers)
                (same_client c d i)
                (subst (λ k. Mirrors ops laws k st.post_handlers st.call_handlers) (sym ready)
                  (for_each-Mirrors ops laws cl st.post_handlers st.call_handlers new ok.posts_named
                    ok.calls_named)),
          );
        })
    where
      same_client : (d c : ℕ) → ◌≡◌ {A = Option ℕ} (some d) (some c) → d ≡ c
      same_client d c e = ground arith

  pub dead :
      (st : Agent ops.Client) (p : Phase) (c : ℕ)
      → IsMirrored ops laws st
      → st.phase ≡ p
      → is_in_use p ≡ false
      → st.flora_cli ≡ some c
      → ⊥
  dead st p c ok e unused i = false≢true (sym unused ∙ ap is_in_use (sym e) ∙ (ok.live c i).0)

  -- The agent in another phase, in which it has no client.
  moved-IsMirrored :
      (st : Agent ops.Client) (p q : Phase)
      → IsMirrored ops laws st
      → st.phase ≡ p
      → is_in_use p ≡ false
      → is_between q ≡ false
      → IsMirrored ops laws (record st { phase = q })
  moved-IsMirrored st p q ok e unused settled = record {
    posts_named = ok.posts_named;
    calls_named = ok.calls_named;
    settled = settled;
    live = λ c i. absurd (dead st p c ok e unused i);
  }

  cleaned-IsMirrored :
      (others : ℕ → ℕ) (st : Agent ops.Client) (q : Phase)
      → IsMirrored ops laws st
      → st.phase ≡ cleaning
      → is_between q ≡ false
      → IsMirrored ops laws (record (clean_gabages ops others st) { phase = q })
  unfolding clean_gabages
  cleaned-IsMirrored others st q ok e settled =
      let (client, posts, calls, works) = clean_from-keeps others st.gabages [] st in
      record {
        posts_named = subst (λ l. All IsName (names l)) (sym posts) ok.posts_named;
        calls_named = subst (IsCalls ops laws) (sym calls) ok.calls_named;
        settled = settled;
        live = λ c i. absurd (dead st cleaning c ok e refl (sym client ∙ i));
      }

  after_cleaning : (b : Bool) → is_between (if b then connecting else ended) ≡ false
  after_cleaning true = refl
  after_cleaning false = refl

  pub step_at-IsMirrored :
      (p : Phase) (others : ℕ → ℕ) (cl : ops.Client) (st : Agent ops.Client)
      → st.phase ≡ p
      → IsMirrored ops laws st
      → IsMirrored ops laws (step_at ops p others none cl st)
  unfolding step_at
  step_at-IsMirrored idle others cl st e ok = ok
  step_at-IsMirrored connecting others cl st e ok =
      moved-IsMirrored st connecting retrying ok e refl refl
  step_at-IsMirrored (connected c) others cl st e ok =
      absurd (false≢true (sym ok.settled ∙ ap is_between e))
  step_at-IsMirrored (initialized c) others cl st e ok =
      absurd (false≢true (sym ok.settled ∙ ap is_between e))
  step_at-IsMirrored retrying others cl st e ok =
      moved-IsMirrored st retrying cleaning ok e refl refl
  step_at-IsMirrored waiting others cl st e ok = ok
  step_at-IsMirrored woken others cl st e ok =
      without_client-IsMirrored ops laws (record st { phase = cleaning; flora_cli = none }) refl
        refl ok.posts_named ok.calls_named
  step_at-IsMirrored cleaning others cl st e ok =
      cleaned-IsMirrored others st (if st.working then connecting else ended) ok e
        (after_cleaning st.working)
  step_at-IsMirrored ended others cl st e ok = ok
