-- ===== src/Adapter/Framing.antt =====
-- Cutting the received bytes into frames (src/sock-adap.cc, `next_frame`; src/sock-poll.cc,
-- `do_read`).
use flora.Base.{
  ℕ, zero, suc, ◌+◌, ◌-◌, ◌%◌, append-nil, subst, ◌≤◌, ◌<◌, ◌^◌, ◌≡◌, sym, ap, ◌∙◌, ◌⊎◌, inl, inr,
  true, List, [], ◌∷◌, ◌++◌, Option, none, some, length, take, drop, All, arith, map, take-length,
  drop-length, take-append, drop-append, drop-drop, length-drop, length-append, append_assoc, ltb,
  lt→ltb, le→ltb, ltb→le, if◌then◌else◌, Bool-cases,
}
use flora.Caps.{CapsApi, CapsLaws}
use flora.Message.Data.{Frame}
use flora.Adapter.Socket.{
  SocketAdapter, next_success, next_enomore, next_frame, nomore, cut_frame, read_frames,
  handle_frame, queue_frame, Received,
}

abbrev pub pending : SocketAdapter → List ℕ
pending a = drop a.frame_begin a.bytes

pub record IsSound (a : SocketAdapter) : Type 0 where
  pub opened : a.is_open ≡ true
  pub begins : a.frame_begin ≤ length a.bytes
  pub fits : length a.bytes ≤ a.buf_size
  pub is_uint32 : a.buf_size < 2 ^ 32

module _ (api : CapsApi) (bufsize : ℕ) where
  -- A frame that the buffer can hold and the library can parse, with its parsed message.
  abbrev pub IsFrame : List ℕ × api.Caps → Type 0
  IsFrame f =
      (8 ≤ length f.0)
      × (length f.0 ≤ bufsize)
      × ((version : ℕ) × (api.binary_info f.0 ≡ some (version, length f.0)))
      × (api.parse f.0 ≡ some f.1)

  -- The beginning of a frame, less than the whole.
  abbrev pub IsPartial : List ℕ → Type 0
  IsPartial p =
      (length p < 8)
      ⊎ ((version : ℕ) × (len : ℕ) × (8 ≤ length p)
          × (api.binary_info p ≡ some (version, len))
          × (length p < len)
          × (len ≤ bufsize))

abbrev pub concat : {C : Type 0} → List (List ℕ × C) → List ℕ
concat [] = []
concat (f ∷ fs) = f.0 ++ concat fs

module _ {api : CapsApi} (laws : CapsLaws api) (a : SocketAdapter) (sound : IsSound a) where
  sz : (length a.bytes + 2 ^ 32 - a.frame_begin) % 2 ^ 32 ≡ length (pending a)
  sz = omega (arith, length-drop a.frame_begin a.bytes, sound)

  moved-pending :
      (if ltb a.frame_begin (length a.bytes)
        then take (length (pending a)) (pending a)
        else take (length (pending a)) a.bytes)
      ≡ pending a
  moved-pending = elim (Bool-cases (ltb a.frame_begin (length a.bytes))) [
    | inl inside ↦ rw inside (take-length (pending a))
    | inr at_end ↦
        let last : a.frame_begin ≡ length a.bytes =
          omega (arith, ltb→le a.frame_begin (length a.bytes) at_end, sound) in
        let nothing : pending a ≡ [] = ap (λ (n : ℕ). drop n a.bytes) last ∙ drop-length a.bytes in
        rw (at_end, nothing)
  ]

  nomore-pending :
      nomore a (length (pending a))
      ≡ (record a { bytes = pending a; frame_begin = 0 }, next_enomore)
  unfolding nomore
  nomore-pending =
      ap (λ (bs : List ℕ). (record a { bytes = bs; frame_begin = 0 }, next_enomore)) moved-pending

  next_frame_step : next_frame api a ≡ (
      if ltb (length (pending a)) 8
      then nomore a (length (pending a))
      else cut_frame api a (length (pending a)) (api.binary_info (pending a)))
  unfolding next_frame
  next_frame_step = simp (sound.opened, sz)

  -- Where only the beginning of a frame lies at the read position of a sound adapter, no frame is
  -- returned and the bytes are moved to the front of the buffer.
  pub next_frame-IsPartial :
      IsPartial api a.buf_size (pending a)
      → next_frame api a ≡ (record a { bytes = pending a; frame_begin = 0 }, next_enomore)
  unfolding cut_frame
  next_frame-IsPartial (inl short) =
      next_frame_step ∙ rw (lt→ltb (length (pending a)) 8 short) nomore-pending
  next_frame-IsPartial (inr (version, len, long, info, less, fits)) =
      next_frame_step
      ∙ rw
          (
            le→ltb (length (pending a)) 8 long,
            info,
            le→ltb a.buf_size len fits,
            lt→ltb (length (pending a)) len less,
          )
          nomore-pending

  -- Where a frame that the buffer can hold lies at the read position of a sound adapter, it is
  -- returned whole and the position moves behind it.
  pub next_frame-IsFrame :
      (f : List ℕ × api.Caps) (rest : List ℕ)
      → IsFrame api a.buf_size f
      → pending a ≡ f.0 ++ rest
      → next_frame api a ≡ (
        record a { frame_begin = a.frame_begin + length f.0 },
        next_success (record { size = length f.0; bytes = f.0 }),
      )
  unfolding cut_frame
  next_frame-IsFrame f rest (long, fits, (version, info), parsed) e =
      let n : length (pending a) ≡ length f.0 + length rest =
        ap length e ∙ length-append f.0 rest in
      let header : api.binary_info (pending a) ≡ some (version, length f.0) =
        ap api.binary_info e ∙ laws.header_lem f.0 rest long ∙ info in
      let front : take (length f.0) (pending a) ≡ f.0 = rw e (take-append f.0 rest) in
      let next_begin : (a.frame_begin + length f.0) % 2 ^ 32 ≡ a.frame_begin + length f.0 =
        omega (arith, n, length-drop a.frame_begin a.bytes, sound) in
      next_frame_step
      ∙ rw (
        le→ltb (length (pending a)) 8 (omega (arith, n)),
        header,
        le→ltb a.buf_size (length f.0) fits,
        le→ltb (length (pending a)) (length f.0) (omega (arith, n)),
        next_begin,
        front,
      )

abbrev pub messages : {C : Type 0} → List (List ℕ × C) → List C
messages = map (λ f. f.1)

after_frame-pending :
    (a : SocketAdapter) (f rest : List ℕ)
    → pending a ≡ f ++ rest
    → pending (record a { frame_begin = a.frame_begin + length f }) ≡ rest
after_frame-pending a f rest e =
    sym (drop-drop a.frame_begin (length f) a.bytes) ∙ ap (drop (length f)) e ∙ drop-append f rest

after_frame-IsSound :
    (a : SocketAdapter) (f rest : List ℕ)
    → IsSound a
    → pending a ≡ f ++ rest
    → IsSound (record a { frame_begin = a.frame_begin + length f })
after_frame-IsSound a f rest sound e = record {
  opened = sound.opened;
  begins =
      omega
        (arith, ap length e, length-append f rest, length-drop a.frame_begin a.bytes, sound.begins);
  fits = sound.fits;
  is_uint32 = sound.is_uint32;
}

module _ {api : CapsApi} (laws : CapsLaws api) where
  handle_frame-parsed :
      (again : SocketAdapter → List api.Caps → Option (Received api)) (queue : List api.Caps)
      (a : SocketAdapter) (frame : Frame) (c : api.Caps)
      → api.parse frame.bytes ≡ some c
      → handle_frame api again queue (a, next_success frame) ≡ again a (queue ++ c ∷ [])
  unfolding handle_frame
  handle_frame-parsed again queue a frame c e =
      ap
        (λ o.
          queue_frame api again a queue (elim o [ none ↦ none | some d ↦ some (queue ++ d ∷ []) ]))
        e

  -- Over a sound buffer of whole frames that can be parsed and the beginning of another, the loop
  -- ends for any fuel larger than the number of frames; it has queued the frames' messages in order
  -- and moved the rest to the front.
  pub read_frames-messages :
      (a : SocketAdapter) (fs : List (List ℕ × api.Caps)) (tail : List ℕ) (queue : List api.Caps)
      (fuel : ℕ)
      → IsSound a
      → All (IsFrame api a.buf_size) fs
      → IsPartial api a.buf_size tail
      → pending a ≡ concat fs ++ tail
      → length fs < fuel
      → read_frames api fuel a queue
        ≡ some (record a { bytes = tail; frame_begin = 0 }, queue ++ messages fs, true)
  unfolding read_frames
  read_frames-messages a fs tail queue zero sound ok partial e enough = absurd (omega arith)
  read_frames-messages a [] tail queue (suc fuel) sound ok partial e enough = rw (
    next_frame-IsPartial laws a sound (subst (IsPartial api a.buf_size) (sym e) partial),
    e,
    append-nil,
  )
  read_frames-messages a (f ∷ fs) tail queue (suc fuel) sound ok partial e enough =
      let split : pending a ≡ f.0 ++ (concat fs ++ tail) = e ∙ append_assoc f.0 (concat fs) tail in
      let rest =
        read_frames-messages (record a { frame_begin = a.frame_begin + length f.0 }) fs tail
          (queue ++ f.1 ∷ []) fuel (after_frame-IsSound a f.0 (concat fs ++ tail) sound split) ok.1
          partial (after_frame-pending a f.0 (concat fs ++ tail) split) (omega arith) in
      ap (handle_frame api (read_frames api fuel) queue)
        (next_frame-IsFrame laws a sound f (concat fs ++ tail) ok.0 split)
      ∙ handle_frame-parsed (read_frames api fuel) queue _
          (record { size = length f.0; bytes = f.0 }) f.1 ok.0.3
      ∙ rest
      ∙ rw (append_assoc queue (f.1 ∷ []) (messages fs))
