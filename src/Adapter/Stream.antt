-- ===== src/Adapter/Stream.antt =====
-- A whole stream of frames through `SocketPoll::do_read` (src/sock-poll.cc), in whatever pieces the
-- socket hands it over.
use flora.Base.{
  ℕ, suc, ◌-◌, ◌≤◌, ◌<◌, ◌^◌, ◌≡◌, refl, sym, ap, ◌∙◌, inl, inr, true, List, [], ◌∷◌, ◌++◌, some,
  length, drop, All, arith, append_assoc, length-append, append-split, take_all, dec_lt,
}
use flora.Caps.{CapsApi, CapsLaws}
use flora.Adapter.Socket.{SocketAdapter, do_read, read, after_read, append_read, success}
use flora.Adapter.Framing.{
  IsSound, IsFrame, IsPartial, concat, messages, pending, read_frames-messages,
}

-- Between two calls of `do_read` the buffer holds the beginning of one frame, at its front.
pub record IsWaiting (api : CapsApi) (a : SocketAdapter) : Type 0 where
  pub opened : a.is_open ≡ true
  pub begins : a.frame_begin ≡ 0
  pub is_uint32 : a.buf_size < 2 ^ 32
  pub has_room : 8 ≤ a.buf_size
  pub partial : IsPartial api a.buf_size a.bytes

module _ {api : CapsApi} (laws : CapsLaws api) where
  -- So there is room for more, and a read never asks for zero bytes.
  pub IsWaiting-room : (a : SocketAdapter) → IsWaiting api a → length a.bytes < a.buf_size
  IsWaiting-room a w = room w.partial
    where
      room : IsPartial api a.buf_size a.bytes → length a.bytes < a.buf_size
      room (inl short) = omega (arith, w.has_room)
      room (inr (version, len, long, info, less, fits)) = omega arith

  -- The longest run of whole frames at the front of `bytes`, a part of the frames `fs`.
  pub record Cut (bufsize : ℕ) (bytes more : List ℕ) (fs : List (List ℕ × api.Caps)) : Type 0 where
    pub whole : List (List ℕ × api.Caps)
    pub later : List (List ℕ × api.Caps)
    pub tail : List ℕ
    pub frames : fs ≡ whole ++ later
    pub held : bytes ≡ concat whole ++ tail
    pub to_come : tail ++ more ≡ concat later
    pub partial : IsPartial api bufsize tail
    pub ok : All (IsFrame api bufsize) whole
    pub later_ok : All (IsFrame api bufsize) later

  beginning-IsPartial :
      (bufsize : ℕ) (f : List ℕ × api.Caps) (bytes mid : List ℕ)
      → IsFrame api bufsize f
      → f.0 ≡ bytes ++ mid
      → length bytes < length f.0
      → IsPartial api bufsize bytes
  beginning-IsPartial bufsize f bytes mid (long, fits, (version, info), parsed) e less =
      elim (dec_lt (length bytes) 8) [
        | yes short ↦ inl short
        | no enough ↦
            let eight : 8 ≤ length bytes = omega arith in
            inr (
              version,
              length f.0,
              eight,
              sym (laws.header_lem bytes mid eight) ∙ ap api.binary_info (sym e) ∙ info,
              less,
              fits,
            )
      ]

  pub cut :
      (bufsize : ℕ) (fs : List (List ℕ × api.Caps)) (bytes more : List ℕ)
      → All (IsFrame api bufsize) fs
      → bytes ++ more ≡ concat fs
      → Cut bufsize bytes more fs
  cut bufsize [] bytes more ok e = record {
    whole = [];
    later = [];
    tail = bytes;
    frames = refl;
    held = refl;
    to_come = e;
    partial = inl (omega (arith, ap length e, length-append bytes more));
    ok = tt;
    later_ok = tt;
  }
  cut bufsize (f ∷ fs) bytes more ok e = elim (dec_lt (length bytes) (length f.0)) [
    | yes less ↦
        let (mid, whole_frame, _) = append-split bytes more f.0 (concat fs) e (omega arith) in
        record {
          whole = [];
          later = f ∷ fs;
          tail = bytes;
          frames = refl;
          held = refl;
          to_come = e;
          partial = beginning-IsPartial bufsize f bytes mid ok.0 whole_frame less;
          ok = tt;
          later_ok = ok;
        }
    | no enough ↦
        let (mid, first, rest) = append-split f.0 (concat fs) bytes more (sym e) (omega arith) in
        let c = cut bufsize fs mid more ok.1 (sym rest) in
        record {
          whole = f ∷ c.whole;
          later = c.later;
          tail = c.tail;
          frames = ap (◌∷◌ f) c.frames;
          held = first ∙ ap (◌++◌ f.0) c.held ∙ sym (append_assoc f.0 (concat c.whole) c.tail);
          to_come = c.to_come;
          partial = c.partial;
          ok = (ok.0, c.ok);
          later_ok = c.later_ok;
        }
  ]

  length-le-concat :
      (bufsize : ℕ) (fs : List (List ℕ × api.Caps))
      → All (IsFrame api bufsize) fs
      → length fs ≤ length (concat fs)
  length-le-concat bufsize [] ok = omega arith
  length-le-concat bufsize (f ∷ fs) ok =
      omega (arith, length-append f.0 (concat fs), length-le-concat bufsize fs ok.1, ok.0.0)

  read-arrived :
      (a : SocketAdapter) (b : ℕ) (bs : List ℕ)
      → IsWaiting api a
      → length (b ∷ bs) ≤ a.buf_size - length a.bytes
      → read a (some (b ∷ bs)) ≡ (record a { bytes = a.bytes ++ b ∷ bs }, success)
  unfolding read append_read
  read-arrived a b bs w fits = simp (w.opened, take_all (a.buf_size - length a.bytes) (b ∷ bs) fits)

  -- One read call that gets at least one byte and no more than there is room for, on an adapter that
  -- waits in the middle of a stream of frames that fit its buffer, queues every frame that is now
  -- whole, in order, and keeps the rest of the bytes at the front of the buffer; the fuel is enough.
  pub do_read-messages :
      (a : SocketAdapter) (b : ℕ) (bs : List ℕ) (fs : List (List ℕ × api.Caps)) (tail : List ℕ)
      (queue : List api.Caps)
      → IsWaiting api a
      → length (b ∷ bs) ≤ a.buf_size - length a.bytes
      → All (IsFrame api a.buf_size) fs
      → IsPartial api a.buf_size tail
      → a.bytes ++ b ∷ bs ≡ concat fs ++ tail
      → do_read api a (some (b ∷ bs)) queue
        ≡ some (record a { bytes = tail; frame_begin = 0 }, queue ++ messages fs, true)
  unfolding do_read
  do_read-messages a b bs fs tail queue w fits ok partial e =
      let a' : SocketAdapter = record a { bytes = a.bytes ++ b ∷ bs } in
      let held : length a'.bytes ≤ a.buf_size =
        omega (arith, length-append a.bytes (b ∷ bs), IsWaiting-room a w) in
      let sound : IsSound a' = record {
        opened = w.opened;
        begins = omega (arith, w.begins);
        fits = held;
        is_uint32 = w.is_uint32;
      } in
      let front : pending a' ≡ concat fs ++ tail = ap (λ (n : ℕ). drop n a'.bytes) w.begins ∙ e in
      let few : length fs < suc (suc a.buf_size) =
        omega
          (arith, length-le-concat a.buf_size fs ok, ap length e, length-append (concat fs) tail) in
      ap (after_read api (suc (suc a.buf_size)) queue) (read-arrived a b bs w fits)
      ∙ read_frames-messages laws a' fs tail queue (suc (suc a.buf_size)) sound ok partial front few
