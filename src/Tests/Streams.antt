-- ===== src/Tests/Streams.antt =====
-- Two frames that arrive in pieces.
use flora.Base.{ℕ, ◌≡◌, ◌++◌, refl, List, [], ◌∷◌, some, true, All, arith, inl}
use flora.Caps.{Items}
use flora.Adapter.Socket.{SocketAdapter, new_adapter}
use flora.Adapter.Framing.{IsSound, IsFrame, concat}
use flora.Adapter.Stream.{IsWaiting}
use flora.Adapter.Pump.{pump, pump-messages}
use flora.Tests.SmallCaps.{small_caps, small_laws, ping, wire}

abbrev ping_bytes : List ℕ
ping_bytes = wire 128 ping

abbrev two_pings : List (List ℕ × Items)
two_pings = (ping_bytes, ping) ∷ (ping_bytes, ping) ∷ []

ping_bytes-IsFrame : IsFrame small_caps 64 (ping_bytes, ping)
ping_bytes-IsFrame = (omega arith, omega arith, (128, refl), refl)

two_pings-IsFrame : All (IsFrame small_caps 64) two_pings
two_pings-IsFrame = (ping_bytes-IsFrame, (ping_bytes-IsFrame, tt))

-- Two frames and the beginning of a third, read up to the first.
abbrev half_read : SocketAdapter
half_read = record {
  is_open = true;
  bytes = ping_bytes ++ ping_bytes ++ 128 ∷ 0 ∷ [];
  frame_begin = 13;
  buf_size = 64;
}

half_read-IsSound : IsSound half_read
half_read-IsSound = record {
  opened = refl;
  begins = omega arith;
  fits = omega arith;
  is_uint32 = omega arith;
}

abbrev waiting : SocketAdapter
waiting = record { is_open = true; bytes = 128 ∷ 0 ∷ []; frame_begin = 0; buf_size = 64 }

waiting-IsWaiting : IsWaiting small_caps waiting
waiting-IsWaiting = record {
  opened = refl;
  begins = refl;
  is_uint32 = omega arith;
  has_room = omega arith;
  partial = inl (omega arith);
}

-- One read for each byte would be enough; the first takes eleven.
abbrev reads : List ℕ
reads =
    10 ∷ 0 ∷ 4 ∷ 0 ∷ 0 ∷ 0 ∷ 0 ∷ 0 ∷ 0 ∷ 0 ∷ 0 ∷ 0 ∷ 0 ∷ 0 ∷ 0 ∷ 0 ∷ 0 ∷ 0 ∷ 0 ∷ 0 ∷ 0 ∷ 0 ∷ 0 ∷ 0
    ∷ 0 ∷ 0 ∷ 0 ∷ []

pump-messages_example :
    pump small_laws reads (new_adapter 64) (concat two_pings) []
    ≡ some (new_adapter 64, [], ping ∷ ping ∷ [])
pump-messages_example =
    pump-messages small_laws reads 64 two_pings [] (omega arith) (omega arith) two_pings-IsFrame
      (omega arith)
