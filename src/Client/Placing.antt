-- ===== src/Client/Placing.antt =====
-- When a `call` places its request in the list (src/cli.cc).
use flora.Base.{
  ℕ, suc, ◌≡◌, refl, ◌⊎◌, inl, inr, false, true, ltb, Bool-cases, Bool, [], ◌∷◌, ◌++◌, Option, none,
  some, String, ℤ, pos, ◌||◌, ◌==◌, int_key, Option-cases,
}
use flora.Caps.{CapsApi}
use flora.Protocol.{cli_success, cli_econn, has_monitor_flag}
use flora.Message.Data.{Response}
use flora.Client.State.{Session, PendingRequest}
use flora.Message.RequestSerializer.{serialize_call}
use flora.Client.Calls.{send_call, call, call_nb}

-- Whether a call with this result stands in the list: one that was not sent stands there, too.
abbrev pub is_placed : ℤ → Bool
is_placed r = (r == cli_success) || (r == cli_econn)

module _ (api : CapsApi) where
  open api use {Caps}

  abbrev pub new_request : Session Caps → Option (Response Caps) → Option ℕ → PendingRequest Caps
  new_request st result callback = record {
    entry = suc st.reqseq;
    id = pos (suc st.reqseq);
    rcode = pos 0;
    result = result;
    callback = callback;
  }

  -- A call that is counted, and placed or not.
  abbrev pub IsCounted :
      Session Caps → Option (Response Caps) → Option ℕ → Session Caps → ℤ → Type 0
  IsCounted st result callback st' r =
      (st'.events ≡ st.events)
      × (st'.reqseq ≡ suc st.reqseq)
      × (((is_placed r ≡ false) × (st'.pending_requests ≡ st.pending_requests))
          ⊎ ((is_placed r ≡ true)
              × (st'.pending_requests
                  ≡ st.pending_requests ++ new_request st result callback ∷ [])))

  send_call-IsCounted :
      (takes : Bool) (st : Session Caps) (name : String) (msg : Option Caps) (target : String)
      (timeout : ℕ) (result : Option (Response Caps)) (callback : Option ℕ)
      → let (st', r) = send_call api takes st name msg target timeout result callback in
        IsCounted st result callback st' r
  unfolding send_call
  send_call-IsCounted takes st name msg target timeout result callback =
      elim (Option-cases (
        serialize_call api name msg target (pos (suc st.reqseq)) timeout st.connection.bufsize
          st.connection.serialize_flags)) [
            | inl n ↦ rw (send_call, n) (refl, refl, inl (refl, refl))
            | inr (f, s) ↦ elim (Bool-cases (ltb 0 f.size)) [
              | inl fits ↦ elim (Bool-cases takes) [
                | inl t ↦ rw (send_call, s, fits, t) (refl, refl, inr (refl, refl))
                | inr t ↦ rw (send_call, s, fits, t) (refl, refl, inr (refl, refl))
              ]
              | inr empty ↦ rw (send_call, s, empty) (refl, refl, inl (refl, refl))
            ]
          ]

  pub call-IsCounted :
      (takes on_callback_thread : Bool) (st : Session Caps) (name : Option String)
      (msg : Option Caps) (target : String) (reply : Response Caps) (timeout : ℕ)
      → let st' = (call api takes on_callback_thread st name msg target reply timeout).0 in
        (st' ≡ st) ⊎ ((r : ℤ) × IsCounted st (some reply) none st' r)
  unfolding call
  call-IsCounted takes on st none msg target reply timeout = inl refl
  call-IsCounted takes on st (some name) msg target reply timeout =
      elim (Bool-cases (has_monitor_flag st.connection.flags)) [
        | inl monitor ↦ inl (rw (call, monitor))
        | inr plain ↦ elim (Bool-cases on) [
          | inl on_thread ↦ inl (rw (call, plain, on_thread))
          | inr other_thread ↦ inr (
            (send_call api takes st name msg target timeout (some reply) none).1,
            rw (call, plain, other_thread)
                (send_call-IsCounted takes st name msg target timeout (some reply) none),
          )
        ]
      ]

  pub call_nb-IsCounted :
      (takes : Bool) (st : Session Caps) (name : Option String) (msg : Option Caps)
      (target : String) (cb : Option ℕ) (timeout : ℕ)
      → let (st', r) = call_nb api takes st name msg target cb timeout in
        ((st' ≡ st) × (is_placed r ≡ false)) ⊎ IsCounted st none cb st' r
  unfolding call_nb
  call_nb-IsCounted takes st none msg target cb timeout = inl (refl, refl)
  call_nb-IsCounted takes st (some name) msg target cb timeout =
      elim (Bool-cases (has_monitor_flag st.connection.flags)) [
        | inl monitor ↦ inl (rw (call_nb, monitor) (refl, refl))
        | inr plain ↦
            inr (rw (call_nb, plain) (send_call-IsCounted takes st name msg target timeout none cb))
      ]
