-- ===== src/Adapter/Pump.antt =====
-- A whole stream of frames through repeated calls of `SocketPoll::do_read` (src/sock-poll.cc), in
-- whatever pieces the socket hands it over.
use Prim.Native.Nat.{min}
use mathlib.Core.List.{map-append}
use flora.Base.{
  ℕ, suc, ◌-◌, ◌≤◌, ◌<◌, ◌^◌, ◌≡◌, refl, sym, ap, ◌∙◌, inl, inr, true, false, List, [], ◌∷◌, ◌++◌,
  Option, none, some, length, take, drop, All, arith, append-nil, append_assoc, length-append,
  subst, length-drop, length-take-le, take-append-drop,
}
use flora.Caps.{CapsApi, CapsLaws}
use flora.Adapter.Socket.{SocketAdapter, new_adapter, do_read, Received}
use flora.Adapter.Framing.{IsFrame, IsPartial, concat, messages}
use flora.Adapter.Stream.{IsWaiting, IsWaiting-room, cut, do_read-messages}

pub length-zero {ℓ} : {A : Type ℓ} (xs : List A) → length xs ≤ 0 → xs ≡ []
length-zero [] h = refl
length-zero (x ∷ xs) h = absurd (omega arith)

module _ {api : CapsApi} (laws : CapsLaws api) where
  go_on :
      (SocketAdapter → List ℕ → List api.Caps → Option (SocketAdapter × List ℕ × List api.Caps))
      → List ℕ
      → Option (Received api)
      → Option (SocketAdapter × List ℕ × List api.Caps)
  go_on again rest none = none
  go_on again rest (some (a, queue, false)) = none
  go_on again rest (some (a, queue, true)) = again a rest queue

  -- The socket hands over the stream in pieces: for each number `n` in the list, one call of
  -- `do_read` that gets at most `n + 1` bytes, and no more than there is room for. `none` if a call
  -- ends the connection.
  pub pump :
      List ℕ
      → SocketAdapter
      → List ℕ
      → List api.Caps
      → Option (SocketAdapter × List ℕ × List api.Caps)
  unfolding go_on
  pump [] a stream queue = some (a, stream, queue)
  pump (n ∷ ns) a [] queue = some (a, [], queue)
  pump (n ∷ ns) a (b ∷ bs) queue =
      let k = min (suc n) (a.buf_size - length a.bytes) in
      go_on (pump ns) (drop k (b ∷ bs)) (do_read api a (some (take k (b ∷ bs))) queue)

  pub record Pumped (ns : List ℕ) (a : SocketAdapter) (stream : List ℕ)
      (fs : List (List ℕ × api.Caps)) (queue : List api.Caps) : Type 0 where
    pub whole : List (List ℕ × api.Caps)
    pub later : List (List ℕ × api.Caps)
    pub end : SocketAdapter
    pub left : List ℕ
    pub runs : pump ns a stream queue ≡ some (end, left, queue ++ messages whole)
    pub frames : fs ≡ whole ++ later
    pub waits : IsWaiting api end
    pub same_size : end.buf_size ≡ a.buf_size
    pub to_come : end.bytes ++ left ≡ concat later
    pub later_ok : All (IsFrame api a.buf_size) later
    pub progress : length left ≤ length stream - length ns

  append-messages :
      (queue : List api.Caps) (fs gs : List (List ℕ × api.Caps))
      → (queue ++ messages fs) ++ messages gs ≡ queue ++ messages (fs ++ gs)
  append-messages queue fs gs =
      append_assoc queue (messages fs) (messages gs)
      ∙ ap (◌++◌ queue) (sym (map-append (λ f. f.1) fs gs))

  pump-Pumped :
      (ns : List ℕ) (a : SocketAdapter) (stream : List ℕ) (fs : List (List ℕ × api.Caps))
      (queue : List api.Caps)
      → IsWaiting api a
      → All (IsFrame api a.buf_size) fs
      → a.bytes ++ stream ≡ concat fs
      → Pumped ns a stream fs queue
  unfolding pump
  pump-Pumped [] a stream fs queue w ok e = record {
    whole = [];
    later = fs;
    end = a;
    left = stream;
    runs = rw append-nil;
    frames = refl;
    waits = w;
    same_size = refl;
    to_come = e;
    later_ok = ok;
    progress = omega arith;
  }
  pump-Pumped (n ∷ ns) a [] fs queue w ok e = record {
    whole = [];
    later = fs;
    end = a;
    left = [];
    runs = rw append-nil;
    frames = refl;
    waits = w;
    same_size = refl;
    to_come = e;
    later_ok = ok;
    progress = omega arith;
  }
  pump-Pumped (n ∷ ns) a (b ∷ bs) fs queue w ok e =
      let room = a.buf_size - length a.bytes in
      let k = min n (room - 1) in
      let first : min (suc n) room ≡ suc k = omega (arith, IsWaiting-room laws a w) in
      let join : (a.bytes ++ b ∷ take k bs) ++ drop k bs ≡ concat fs =
        append_assoc a.bytes (b ∷ take k bs) (drop k bs)
        ∙ ap (λ (l : List ℕ). a.bytes ++ b ∷ l) (take-append-drop k bs)
        ∙ e in
      let c = cut laws a.buf_size fs (a.bytes ++ b ∷ take k bs) (drop k bs) ok join in
      let a' : SocketAdapter = record a { bytes = c.tail; frame_begin = 0 } in
      let waits : IsWaiting api a' = record {
        opened = w.opened;
        begins = refl;
        is_uint32 = w.is_uint32;
        has_room = w.has_room;
        partial = c.partial;
      } in
      let once =
        do_read-messages laws a b (take k bs) c.whole c.tail queue w
          (omega (arith, length-take-le k bs, IsWaiting-room laws a w)) c.ok c.partial c.held in
      let rest =
        pump-Pumped ns a' (drop k bs) c.later (queue ++ messages c.whole) waits c.later_ok
          c.to_come in
      record {
        whole = c.whole ++ rest.whole;
        later = rest.later;
        end = rest.end;
        left = rest.left;
        runs =
            ap
              (λ (m : ℕ).
                go_on (pump ns) (drop m (b ∷ bs)) (do_read api a (some (take m (b ∷ bs))) queue))
              first
            ∙ ap (go_on (pump ns) (drop k bs)) once
            ∙ rest.runs
            ∙ ap (λ (q : List api.Caps). some (rest.end, rest.left, q))
                (append-messages queue c.whole rest.whole);
        frames =
            c.frames
            ∙ ap (◌++◌ c.whole) rest.frames
            ∙ sym (append_assoc c.whole rest.whole rest.later);
        waits = rest.waits;
        same_size = rest.same_size;
        to_come = rest.to_come;
        later_ok = rest.later_ok;
        progress = omega (arith, rest.progress, length-drop k bs);
      }

  -- The beginning of a frame is no row of whole frames, but for an empty one.
  pub IsPartial-nil :
      (bufsize : ℕ) (bytes : List ℕ) (later : List (List ℕ × api.Caps))
      → IsPartial api bufsize bytes
      → All (IsFrame api bufsize) later
      → bytes ≡ concat later
      → later ≡ []
  IsPartial-nil bufsize bytes [] p ok e = refl
  IsPartial-nil bufsize bytes (f ∷ later) (inl short) ok e =
      absurd (omega (arith, ap length e, length-append f.0 (concat later), ok.0.0))
  IsPartial-nil bufsize bytes (f ∷ later) (inr (version, len, long, info, less, fits)) ok e =
      let ((eight, _, (v, whole), _), _) = ok in
      let header : ◌≡◌ {A = Option (ℕ × ℕ)} (some (version, len)) (some (v, length f.0)) =
        sym info ∙ ap api.binary_info e ∙ laws.header_lem f.0 (concat later) eight ∙ whole in
      let same : len ≡ length f.0 =
        ap (λ (o : Option (ℕ × ℕ)). elim o [ none ↦ 0 | some p ↦ p.1 ]) header in
      absurd (omega (arith, ap length e, length-append f.0 (concat later)))

  -- A fresh adapter whose buffer holds at least 8 bytes, and whose size is a 32-bit number, queues a
  -- stream of frames that each fit the buffer whole and in order, however the stream is cut into
  -- reads, once there were as many reads as bytes; no read ends the connection, and the buffer is
  -- empty in the end.
  pub pump-messages :
      (ns : List ℕ) (bufsize : ℕ) (fs : List (List ℕ × api.Caps)) (queue : List api.Caps)
      → 8 ≤ bufsize
      → bufsize < 2 ^ 32
      → All (IsFrame api bufsize) fs
      → length (concat fs) ≤ length ns
      → pump ns (new_adapter bufsize) (concat fs) queue
        ≡ some (new_adapter bufsize, [], queue ++ messages fs)
  unfolding new_adapter
  pump-messages ns bufsize fs queue room small ok enough =
      let p =
        pump-Pumped ns (new_adapter bufsize) (concat fs) fs queue
          (record {
            opened = refl;
            begins = refl;
            is_uint32 = small;
            has_room = room;
            partial = inl (omega arith);
          })
          ok refl in
      let over : p.left ≡ [] = length-zero p.left (omega (arith, p.progress)) in
      let held : p.end.bytes ≡ concat p.later =
        sym (append-nil p.end.bytes) ∙ ap (◌++◌ p.end.bytes) (sym over) ∙ p.to_come in
      let none_later : p.later ≡ [] =
        IsPartial-nil p.end.buf_size p.end.bytes p.later p.waits.partial
          (subst (λ (n : ℕ). All (IsFrame api n) p.later) (sym p.same_size) p.later_ok) held in
      let empty : p.end.bytes ≡ [] = held ∙ ap concat none_later in
      let all : fs ≡ p.whole = p.frames ∙ ap (◌++◌ p.whole) none_later ∙ append-nil p.whole in
      let end : p.end ≡ new_adapter bufsize = λ i. record {
        is_open = p.waits.opened i;
        bytes = empty i;
        frame_begin = p.waits.begins i;
        buf_size = p.same_size i;
      } in
      p.runs ∙ λ i. some (end i, over i, queue ++ messages (sym all i))
