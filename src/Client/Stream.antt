-- ===== src/Client/Stream.antt =====
-- A stream of messages through `recv_loop` and `handle_received` (src/cli.cc).
use flora.Base.{
  ℕ, zero, suc, ◌≤◌, ◌<◌, ◌≡◌, refl, ap, ◌∙◌, inl, inr, true, false, List, [], ◌∷◌, ◌++◌, Option,
  none, some, length, All, arith, length-append, take-append, drop-append, append_assoc, Bool,
  lt→ltb, le→ltb,
}
use flora.Caps.{CapsApi, CapsLaws}
use flora.Adapter.Framing.{IsFrame, IsPartial, concat}
use flora.Client.State.{Session}
use flora.Client.Handlers.{Handled, handle_message}
use flora.Client.Receive.{received_frames, take_frame, parse_frame, after_message, handle_received}

module _ {api : CapsApi} (laws : CapsLaws api) (fuel : ℕ) where
  abbrev pub then_handle :
      (Session api.Caps → Option (Session api.Caps)) → Handled api.Caps → Option (Session api.Caps)
  then_handle again none = none
  then_handle again (some (st, false)) = none
  then_handle again (some (st, true)) = again st

  -- The messages one after the other, none of which is refused.
  unfoldable pub handle_all :
      List (List ℕ × api.Caps) → Session api.Caps → Option (Session api.Caps)
  handle_all [] st = some st
  handle_all (f ∷ fs) st = then_handle (handle_all fs) (handle_message api fuel st f.1)

  pub then_handle-some :
      (again : Session api.Caps → Option (Session api.Caps)) (h : Handled api.Caps)
      (st' : Session api.Caps)
      → then_handle again h ≡ some st'
      → (next : Session api.Caps) × (h ≡ some (next, true)) × (again next ≡ some st')
  then_handle-some again none st' e = absurd (ground arith)
  then_handle-some again (some (st, false)) st' e = absurd (ground arith)
  then_handle-some again (some (st, true)) st' e = (st, refl, e)

  received_frames-IsPartial :
      (bufsize rounds : ℕ) (st : Session api.Caps) (bytes : List ℕ)
      → IsPartial api bufsize bytes
      → received_frames api fuel (suc rounds) st bytes
        ≡ some (record { session = st; rbuffer = bytes }, true)
  unfolding received_frames take_frame
  received_frames-IsPartial bufsize rounds st bytes (inl short) = rw (lt→ltb (length bytes) 8 short)
  received_frames-IsPartial bufsize rounds st bytes (inr (version, len, long, info, less, fits)) =
      rw (le→ltb (length bytes) 8 long, info, take_frame, lt→ltb (length bytes) len less)

  received_frames-IsFrame :
      (bufsize rounds : ℕ) (st next : Session api.Caps) (f : List ℕ × api.Caps) (rest : List ℕ)
      → IsFrame api bufsize f
      → handle_message api fuel st f.1 ≡ some (next, true)
      → received_frames api fuel (suc rounds) st (f.0 ++ rest)
        ≡ received_frames api fuel rounds next rest
  unfolding received_frames take_frame parse_frame after_message
  received_frames-IsFrame bufsize rounds st next f rest (long, fits, (version, info), parsed) h =
      rw (
        le→ltb (length (f.0 ++ rest)) 8 (omega (arith, length-append f.0 rest)),
        laws.header_lem f.0 rest long ∙ info,
        take_frame,
        le→ltb (length (f.0 ++ rest)) (length f.0) (omega (arith, length-append f.0 rest)),
        take-append f.0 rest,
        parsed,
        parse_frame,
        h,
        after_message,
        drop-append f.0 rest,
      )

  -- The loop over whole frames that are handled, and the beginning of another.
  received_frames-handle_all :
      (bufsize rounds : ℕ) (st st' : Session api.Caps) (fs : List (List ℕ × api.Caps))
      (tail : List ℕ)
      → All (IsFrame api bufsize) fs
      → IsPartial api bufsize tail
      → length fs < rounds
      → handle_all fs st ≡ some st'
      → received_frames api fuel rounds st (concat fs ++ tail)
        ≡ some (record { session = st'; rbuffer = tail }, true)
  unfolding handle_all
  received_frames-handle_all bufsize zero st st' fs tail ok partial enough h = absurd (omega arith)
  received_frames-handle_all bufsize (suc rounds) st st' [] tail ok partial enough h =
      received_frames-IsPartial bufsize rounds st tail partial
      ∙ ap
          (λ (o : Option (Session api.Caps)). elim o [
            | none ↦ none
            | some s ↦ some (record { session = s; rbuffer = tail }, true)
          ])
          h
  received_frames-handle_all bufsize (suc rounds) st st' (f ∷ fs) tail ok partial enough h =
      let (next, first, rest) = then_handle-some (handle_all fs) _ st' h in
      ap (received_frames api fuel (suc rounds) st) (append_assoc f.0 (concat fs) tail)
      ∙ received_frames-IsFrame bufsize rounds st next f (concat fs ++ tail) ok.0 first
      ∙ received_frames-handle_all bufsize rounds next st' fs tail ok.1 partial (omega arith) rest

  length-le-concat :
      (bufsize : ℕ) (fs : List (List ℕ × api.Caps))
      → All (IsFrame api bufsize) fs
      → length fs ≤ length (concat fs)
  length-le-concat bufsize [] ok = omega arith
  length-le-concat bufsize (f ∷ fs) ok =
      omega (arith, length-append f.0 (concat fs), length-le-concat bufsize fs ok.1, ok.0.0)

  -- What has arrived, whole frames that each fit the buffer and the beginning of another, is handled
  -- message by message, none of which is refused; the rest is kept, and the rounds are enough.
  pub handle_received-handle_all :
      (bufsize : ℕ) (st st' : Session api.Caps) (fs : List (List ℕ × api.Caps)) (tail : List ℕ)
      → All (IsFrame api bufsize) fs
      → IsPartial api bufsize tail
      → handle_all fs st ≡ some st'
      → handle_received api fuel st (concat fs ++ tail)
        ≡ some (record { session = st'; rbuffer = tail }, true)
  unfolding handle_received
  handle_received-handle_all bufsize st st' fs tail ok partial h =
      received_frames-handle_all bufsize (suc (length (concat fs ++ tail))) st st' fs tail ok
        partial (omega (arith, length-append (concat fs) tail, length-le-concat bufsize fs ok)) h

  pub handle_message-connection :
      (st st' : Session api.Caps) (c : api.Caps) (b : Bool)
      → handle_message api fuel st c ≡ some (st', b)
      → st'.connection ≡ st.connection
  unfolding handle_message
  handle_message-connection st st' c b h = ground arith
