-- ===== src/Client/Tags.antt =====
-- `TagHelper` (src/ser-helper.h): where a message comes from, in 64 bits.
use flora.Base.{
  ℕ, ◌+◌, ◌*◌, ◌/◌, ◌%◌, ◌^◌, ◌<◌, ◌≡◌, ap, ◌∙◌, if◌then◌else◌, ◌==◌, nat_key, arith, ℤ, pos,
  negsuc, IsInt32, to_word, of_word, of_word-to_word,
}
use flora.Dispatcher.Client.{tag_of_pid}

-- `htons` of a little-endian machine: the two bytes change places.
abbrev pub htons : ℕ → ℕ
htons port = port % 256 * 256 + port / 256

-- `0x80000000 | sin_port`, of a field that is below 2 ^ 16, and the shift by 32 with the field `s_addr`
-- behind it; both fields are in network byte order and are taken as they are.
unfoldable pub tag_of_address : ℕ → ℕ → ℕ
tag_of_address sin_port s_addr = (2 ^ 31 + sin_port) * 2 ^ 32 + s_addr

-- 0 is a unix socket, 1 is TCP.
unfoldable pub connection_type : ℕ → ℕ
connection_type tag = if (tag / 2 ^ 32 / 2 ^ 31) % 2 == 1 then 1 else 0

unfoldable pub pid_of : ℕ → ℤ
pid_of tag = of_word (tag % 2 ^ 32)

unfoldable pub address_of : ℕ → ℕ
address_of tag = tag % 2 ^ 32

unfoldable pub port_of : ℕ → ℕ
port_of tag = (tag / 2 ^ 32) % 2 ^ 16

to_word_below : (z : ℤ) → to_word z < 2 ^ 32
unfolding to_word
to_word_below (pos n) = omega arith
to_word_below (negsuc n) = omega arith

-- The tag of a TCP connection, whose port the socket's address has in network byte order, is a
-- 64-bit number and gives its type and address back, but on a little-endian machine the port with
-- its two bytes exchanged, which is the port only if the bytes are equal; the tag of a process gives
-- the type of a unix socket and the process's number, if that fits 32 bits.
pub tag_of-port_of :
    (port s_addr : ℕ) (pid : ℤ)
    → port < 2 ^ 16
    → s_addr < 2 ^ 32
    → IsInt32 pid
    → let tag = tag_of_address (htons port) s_addr in
      (tag < 2 ^ 64)
      × (connection_type tag ≡ 1)
      × (address_of tag ≡ s_addr)
      × (port_of tag ≡ htons port)
      × (port_of tag ≡ port → port % 256 ≡ port / 256)
      × (connection_type (tag_of_pid pid) ≡ 0)
      × (pid_of (tag_of_pid pid) ≡ pid)
unfolding connection_type tag_of_address address_of port_of pid_of
tag_of-port_of port s_addr pid p a i =
    let below = to_word_below pid in
    let same : to_word pid % 2 ^ 32 ≡ to_word pid = omega arith in
    (
      omega arith,
      ground arith,
      omega arith,
      omega arith,
      λ e. omega (arith, e),
      ground arith,
      ap of_word same ∙ of_word-to_word pid i,
    )
