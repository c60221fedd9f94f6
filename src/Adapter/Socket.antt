-- ===== src/Adapter/Socket.antt =====
-- `SocketAdapter` (src/sock-adap.cc) and the read loop `SocketPoll::do_read` (src/sock-poll.cc).
-- The write mutex is not modelled: each method is one step.
use flora.Base.{
  ℕ, zero, suc, ◌+◌, ◌-◌, ◌%◌, ◌^◌, Bool, true, false, List, [], ◌∷◌, ◌++◌, Option, none, some,
  length, take, drop, ltb, if◌then◌else◌,
}
use flora.Caps.{CapsApi}
use flora.Message.Data.{Frame}

abbrev pub header_size : ℕ
header_size = 8

-- `is_open` is `buffer != nullptr`; `bytes` is the buffer up to `cur_size`.
pub record SocketAdapter : Type 0 where
  pub is_open : Bool
  pub bytes : List ℕ
  pub frame_begin : ℕ
  pub buf_size : ℕ

abbrev pub cur_size : SocketAdapter → ℕ
cur_size a = length a.bytes

-- uint32_t a - b
abbrev pub sub32 : ℕ → ℕ → ℕ
sub32 a b = (a + 2 ^ 32 - b) % 2 ^ 32

unfoldable pub new_adapter : ℕ → SocketAdapter
new_adapter bufsize = record { is_open = true; bytes = []; frame_begin = 0; buf_size = bufsize }

pub data ReadResult : Type 0 where
  success eclosed : ReadResult

unfoldable pub append_read : SocketAdapter → List ℕ → SocketAdapter × ReadResult
append_read a [] = (a, eclosed)
append_read a (b ∷ bs) = (record a { bytes = a.bytes ++ b ∷ bs }, success)

-- `::read` fails (`none`), or returns the bytes that have arrived, none at the end of the stream, and
-- no more than there is room for.
unfoldable pub read : SocketAdapter → Option (List ℕ) → SocketAdapter × ReadResult
unfolding append_read
read a arrived =
    if a.is_open
    then elim arrived [
      | none ↦ (a, eclosed)
      | some bs ↦ append_read a (take (a.buf_size - cur_size a) bs)
    ]
    else (a, eclosed)

pub data NextFrame : Type 0 where
  next_success : Frame → NextFrame
  next_eclosed next_enomore next_eproto next_enobuf : NextFrame

-- The label `nomore`: the rest of the buffer is moved to its front.
unfoldable pub nomore : SocketAdapter → ℕ → SocketAdapter × NextFrame
nomore a sz = (record a { bytes = moved; frame_begin = 0 }, next_enomore)
  where
    moved : List ℕ
    moved =
        if ltb a.frame_begin (cur_size a)
        then take sz (drop a.frame_begin a.bytes)
        else take sz a.bytes

module _ (api : CapsApi) where
  unfoldable pub cut_frame : SocketAdapter → ℕ → Option (ℕ × ℕ) → SocketAdapter × NextFrame
  unfolding nomore
  cut_frame a sz none = (a, next_eproto)
  cut_frame a sz (some (version, len)) =
      if ltb a.buf_size len then (a, next_enobuf) else if ltb sz len then nomore a sz else (
        record a { frame_begin = (a.frame_begin + len) % 2 ^ 32 },
        next_success (record { size = len; bytes = take len (drop a.frame_begin a.bytes) }),
      )

  unfoldable pub next_frame : SocketAdapter → SocketAdapter × NextFrame
  unfolding nomore cut_frame
  next_frame a =
      let sz = sub32 (cur_size a) a.frame_begin in
      if a.is_open
      then if ltb sz header_size
        then nomore a sz
        else cut_frame a sz (api.binary_info (drop a.frame_begin a.bytes))
      else (a, next_eclosed)

  -- `Dispatcher::put`: a frame that is parsed is queued, in order; another is refused.
  unfoldable pub put : List api.Caps → Frame → Option (List api.Caps)
  put queue frame = elim (api.parse frame.bytes) [ none ↦ none | some c ↦ some (queue ++ c ∷ []) ]

  -- The outcome of the loop: the adapter, the queue, and whether the connection goes on.
  abbrev pub Received : Type 0
  Received = SocketAdapter × List api.Caps × Bool

  unfoldable pub queue_frame :
      (SocketAdapter → List api.Caps → Option Received)
      → SocketAdapter
      → List api.Caps
      → Option (List api.Caps)
      → Option Received
  queue_frame again a queue none = some (a, queue, false)
  queue_frame again a queue (some queue') = again a queue'

  -- What the loop does with the result of `next_frame`.
  unfoldable pub handle_frame :
      (SocketAdapter → List api.Caps → Option Received)
      → List api.Caps
      → SocketAdapter × NextFrame
      → Option Received
  unfolding put queue_frame
  handle_frame again queue (a, next_success frame) = queue_frame again a queue (put queue frame)
  handle_frame again queue (a, next_enomore) = some (a, queue, true)
  handle_frame again queue (a, next_eclosed) = some (a, queue, false)
  handle_frame again queue (a, next_eproto) = some (a, queue, false)
  handle_frame again queue (a, next_enobuf) = some (a, queue, false)

  -- The loop of `do_read`, a round for each frame; `none` is the end of the fuel.
  unfoldable pub read_frames : ℕ → SocketAdapter → List api.Caps → Option Received
  unfolding next_frame handle_frame
  read_frames zero a queue = none
  read_frames (suc fuel) a queue = handle_frame (read_frames fuel) queue (next_frame a)

  unfoldable pub after_read : ℕ → List api.Caps → SocketAdapter × ReadResult → Option Received
  unfolding read_frames
  after_read fuel queue (a, eclosed) = some (a, queue, false)
  after_read fuel queue (a, success) = read_frames fuel a queue

  -- `do_read`. A frame has at least one byte, so a round for each byte of the buffer is enough.
  unfoldable pub do_read : SocketAdapter → Option (List ℕ) → List api.Caps → Option Received
  unfolding read after_read
  do_read a arrived queue = after_read (suc (suc a.buf_size)) queue (read a arrived)
