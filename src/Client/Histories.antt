-- ===== src/Client/Histories.antt =====
-- The states that a client reaches (src/cli.cc), with its requests in the order of their numbers, and
-- with every callback of a call accounted for.
use flora.Base.{
  ℕ, ◌≡◌, refl, sym, inl, inr, true, Bool, List, [], ◌∷◌, Option, none, some, String, ℤ,
  if◌then◌else◌, int_key, subst,
}
use flora.Caps.{CapsApi}
use flora.Message.Data.{Response}
use flora.Client.Requests.{Client}
use flora.Client.State.{Session, AuthResult, CmdHandler, new_session}
use flora.Client.Handlers.{handle_message}
use flora.Client.Receive.{close_connection, fail_requests}
use flora.Client.Calls.{call, call_nb, call_round, returns}
use flora.Client.Quiet.{handle_message-IsEffect}
use flora.Client.Placing.{is_placed, call-IsCounted}
use flora.Client.Consistent.{
  IsConsistent, owed, counted-IsConsistent, effect-IsConsistent, wakes-IsConsistent,
  fails-IsConsistent, blocked-IsConsistent, call_nb-IsConsistent,
}

module _ (api : CapsApi) (fuel : ℕ) where
  open api use {Caps}

  -- The calls of the user and the steps of the receive thread and of a closing, which ends in two
  -- steps, in any order. The list has the callback of every call with one that was placed.
  pub data Reached : Session Caps → List (Option ℕ) → Type 0 where
    new : (cl : Client) → Reached (new_session cl) []
    calls :
        {st : Session Caps} {cbs : List (Option ℕ)}
        → Reached st cbs
        → (takes on_callback_thread : Bool) (name : Option String) (msg : Option Caps)
          (target : String) (reply : Response Caps) (timeout : ℕ)
        → Reached (call api takes on_callback_thread st name msg target reply timeout).0 cbs
    calls_nb :
        {st : Session Caps} {cbs : List (Option ℕ)}
        → Reached st cbs
        → (takes : Bool) (name : Option String) (msg : Option Caps) (target : String)
          (cb : Option ℕ) (timeout : ℕ) (st' : Session Caps) (r : ℤ)
        → call_nb api takes st name msg target cb timeout ≡ (st', r)
        → Reached st' (if is_placed r then cb ∷ cbs else cbs)
    receives :
        {st : Session Caps} {cbs : List (Option ℕ)}
        → Reached st cbs
        → (c : Caps) (st' : Session Caps) (b : Bool) → handle_message api fuel st c ≡ some (st', b)
        → Reached st' cbs
    wakes :
        {st : Session Caps} {cbs : List (Option ℕ)}
        → Reached st cbs
        → (timed_out : Bool) (entry : ℕ) (st' : Session Caps) (code : ℤ) (reply : Response Caps)
        → call_round timed_out entry st ≡ returns st' code (some reply)
        → Reached st' cbs
    -- What the other operations change.
    moves :
        {st : Session Caps} {cbs : List (Option ℕ)}
        → Reached st cbs
        → (cl : Client) (ares : AuthResult) (awaits has_cli has_mon : Bool) (handler : CmdHandler)
        → Reached
            (record st {
              connection = cl;
              ares = ares;
              awaits_auth = awaits;
              has_cli_callback = has_cli;
              has_mon_callback = has_mon;
              cmd_handler = handler;
            })
            cbs
    shuts :
        {st : Session Caps} {cbs : List (Option ℕ)}
        → Reached st cbs
        → Reached (close_connection st) cbs
    fails_requests :
        {st : Session Caps} {cbs : List (Option ℕ)}
        → Reached st cbs
        → (passive : Bool) (err : ℤ) (st' : Session Caps) → st.closed ≡ true
        → fail_requests passive err st ≡ some st'
        → Reached st' cbs

  -- In every state that a client reaches, the requests stand in the order of their numbers, and the
  -- callback of each call with one was run once or still stands in the list once.
  pub Reached-IsConsistent :
      (st : Session Caps) (cbs : List (Option ℕ)) → Reached st cbs → IsConsistent api fuel st cbs
  unfolding new_session owed
  Reached-IsConsistent st cbs (new cl) = record { numbered = tt; accounted = λ cb. refl }
  Reached-IsConsistent st' cbs (calls {st} before takes on name msg target reply timeout) =
      let ok = Reached-IsConsistent st cbs before in
      elim (call-IsCounted api takes on st name msg target reply timeout) [
        | inl same ↦ subst (λ s. IsConsistent api fuel s cbs) (sym same) ok
        | inr (r, counted) ↦
            blocked-IsConsistent api fuel _ cbs (is_placed r)
              (counted-IsConsistent api fuel st _ cbs (some reply) none r ok counted)
      ]
  Reached-IsConsistent st' cbs'
        (calls_nb {st} {cbs} before takes name msg target cb timeout last r e) =
      let ok = Reached-IsConsistent st cbs before in
      subst (λ p. IsConsistent api fuel p.0 (if is_placed p.1 then cb ∷ cbs else cbs)) e
        (call_nb-IsConsistent api fuel takes st name msg target cb timeout cbs ok)
  Reached-IsConsistent st' cbs (receives {st} before c last b e) =
      effect-IsConsistent api fuel st st' cbs (Reached-IsConsistent st cbs before)
        (handle_message-IsEffect api fuel st st' c b e)
  Reached-IsConsistent st' cbs (wakes {st} before timed_out entry last code reply e) =
      wakes-IsConsistent api fuel timed_out entry st st' cbs code reply
        (Reached-IsConsistent st cbs before) e
  Reached-IsConsistent st' cbs (moves {st} before cl ares awaits has_cli has_mon handler) =
      let ok = Reached-IsConsistent st cbs before in
      record { numbered = ok.numbered; accounted = ok.accounted }
  Reached-IsConsistent st' cbs (shuts {st} before) =
      let ok = Reached-IsConsistent st cbs before in
      record { numbered = ok.numbered; accounted = ok.accounted }
  Reached-IsConsistent st' cbs (fails_requests {st} before passive err last closed e) =
      fails-IsConsistent api fuel passive err st st' cbs (Reached-IsConsistent st cbs before) e
