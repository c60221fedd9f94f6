-- ===== src/Dispatcher/Reachable.antt =====
-- Every state that the dispatcher reaches (src/disp.cc): frames are put into the queue, connections
-- are erased, the thread handles a round, the dispatcher is started and closed, and between these the
-- polls and the sockets change the adapters.
use flora.Base.{ℕ, ◌≡◌, some, arith}
use flora.Caps.{CapsApi}
use flora.Message.Data.{Frame}
use flora.Dispatcher.State.{State, Net, Written, new_dispatcher}
use flora.Dispatcher.Handle.{put, run, erase_adapter, close, handle_cmds_round}
use flora.Dispatcher.Keeps.{Keeps}
use flora.Dispatcher.Orderly.{IsOrderly, Keeps-IsOrderly}
use flora.Dispatcher.Rounds.{handle_cmds_round-IsOrderly}

-- A round that is undefined leads nowhere.
pub data Reached (api : CapsApi) (os : ℕ → Written) (flags bufsize : ℕ)
    : State api.Caps → Type 0 where
  created : (net : Net) → Reached api os flags bufsize (new_dispatcher flags bufsize net)
  started :
      (st : State api.Caps)
      → Reached api os flags bufsize st
      → Reached api os flags bufsize (run api st)
  putting :
      (frame : Frame) (sender : ℕ) (st : State api.Caps)
      → Reached api os flags bufsize st
      → Reached api os flags bufsize (put api frame sender st).0
  erasing :
      (a : ℕ) (st : State api.Caps)
      → Reached api os flags bufsize st
      → Reached api os flags bufsize (erase_adapter api a st)
  round :
      (clock : ℕ → ℕ) (st st' : State api.Caps)
      → Reached api os flags bufsize st
      → handle_cmds_round api os clock st ≡ some st'
      → Reached api os flags bufsize st'
  closing :
      (st : State api.Caps)
      → Reached api os flags bufsize st
      → Reached api os flags bufsize (close api st)
  outside :
      (net : Net) (st : State api.Caps)
      → Reached api os flags bufsize st
      → Reached api os flags bufsize (record st { net = net })

put-Keeps :
    (api : CapsApi) (frame : Frame) (sender : ℕ) (st : State api.Caps)
    → Keeps st (put api frame sender st).0
unfolding put
put-Keeps api frame sender st = ground arith

erase_adapter-Keeps :
    (api : CapsApi) (a : ℕ) (st : State api.Caps) → Keeps st (erase_adapter api a st)
unfolding erase_adapter
erase_adapter-Keeps api a st = ground arith

-- In every state that the dispatcher reaches, the pending calls are sorted by the times at which
-- they are discarded, and the number of each was given out.
pub Reached-IsOrderly :
    (api : CapsApi) (os : ℕ → Written) (flags bufsize : ℕ) (st : State api.Caps)
    → Reached api os flags bufsize st
    → IsOrderly st
unfolding new_dispatcher run close
Reached-IsOrderly api os flags bufsize st (created net) = (tt, tt)
Reached-IsOrderly api os flags bufsize st (started old r) =
    Reached-IsOrderly api os flags bufsize old r
Reached-IsOrderly api os flags bufsize st (putting frame sender old r) =
    Keeps-IsOrderly old (put api frame sender old).0 (put-Keeps api frame sender old)
      (Reached-IsOrderly api os flags bufsize old r)
Reached-IsOrderly api os flags bufsize st (erasing a old r) =
    Keeps-IsOrderly old (erase_adapter api a old) (erase_adapter-Keeps api a old)
      (Reached-IsOrderly api os flags bufsize old r)
Reached-IsOrderly api os flags bufsize st (round clock old new r e) =
    handle_cmds_round-IsOrderly api os clock old st (Reached-IsOrderly api os flags bufsize old r) e
Reached-IsOrderly api os flags bufsize st (closing old r) =
    Reached-IsOrderly api os flags bufsize old r
Reached-IsOrderly api os flags bufsize st (outside net old r) =
    Reached-IsOrderly api os flags bufsize old r
