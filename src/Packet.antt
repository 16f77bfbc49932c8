-- ===== src/Packet.antt =====
-- tcp_branch/ippacket.h and tcp_branch/tcppacket.h: the headers of a packet as bytes, and the
-- functions that build packets, `buildPacket` of tcp_branch/van_driver.c and `build_tcp_packet` and
-- `calculate_tcp_checksum` of tcp_branch/tcp.c. A multi-byte field is copied in the host's order,
-- which is taken to be little-endian. A read out of bounds is `none`.
mod Tests
pub mod Bytes
pub mod Tcp
pub mod Ip
use tcp_archive.Prelude.{
  ℕ, zero, suc, ◌+◌, ◌*◌, ◌/◌, ◌%◌, bit_and, bit_or, Bool, not, ◌&&◌, Option, none, some, List, [],
  ◌∷◌, ◌==◌, ltb, get_elem?, set, replicate, take, drop, length, u8, u16, u32, ◌>>=◌, ◌>>◌, assert,
}
use tcp_archive.External.{Host}

-- HEADER_SIZE and TCP_HEADER_SIZE
abbrev pub header_size : ℕ
header_size = 8

abbrev pub tcp_header_size : ℕ
tcp_header_size = 20

-- PROTO_DATA, PROTO_RIP and PROTO_TCP
abbrev pub proto_data : ℕ
proto_data = 0

abbrev pub proto_rip : ℕ
proto_rip = 1

abbrev pub proto_tcp : ℕ
proto_tcp = 2

-- TCP_FLAG_FIN, TCP_FLAG_SYN, TCP_FLAG_RST and TCP_FLAG_ACK
abbrev pub flag_fin : ℕ
flag_fin = 1

abbrev pub flag_syn : ℕ
flag_syn = 2

abbrev pub flag_rst : ℕ
flag_rst = 4

abbrev pub flag_ack : ℕ
flag_ack = 16

-- A byte, and a `uint16_t` or `uint32_t` at an offset.
abbrev pub get_byte : List ℕ → ℕ → Option ℕ
get_byte p i = get_elem? p i

abbrev pub get_u16 : List ℕ → ℕ → Option ℕ
get_u16 p i = do b₀ ← get_byte p i; b₁ ← get_byte p (suc i); some (b₀ + 256 * b₁)

abbrev pub get_u32 : List ℕ → ℕ → Option ℕ
get_u32 p i = do
  b₀ ← get_byte p i
  b₁ ← get_byte p (suc i)
  b₂ ← get_byte p (suc (suc i))
  b₃ ← get_byte p (suc (suc (suc i)))
  some (b₀ + 256 * b₁ + 65536 * b₂ + 16777216 * b₃)

abbrev pub set_u16 : List ℕ → ℕ → ℕ → List ℕ
set_u16 p i v = set (set p i (v % 256)) (suc i) (v / 256 % 256)

abbrev pub set_u32 : List ℕ → ℕ → ℕ → List ℕ
set_u32 p i v =
    set (set (set (set p i (v % 256)) (suc i) (v / 256 % 256)) (suc (suc i)) (v / 65536 % 256))
      (suc (suc (suc i))) (v / 16777216 % 256)

-- The macros of ippacket.h.
abbrev pub get_version : List ℕ → Option ℕ
get_version p = get_byte p 0 >>= λ b. some (bit_and b 0xf0 / 16)

abbrev pub set_version : List ℕ → ℕ → List ℕ
set_version [] v = []
set_version (b ∷ p) v = u8 (bit_or (bit_and b 0x0f) (v * 16)) ∷ p

abbrev pub get_protocol : List ℕ → Option ℕ
get_protocol p = get_byte p 0 >>= λ b. some (bit_and b 0x0f)

abbrev pub set_protocol : List ℕ → ℕ → List ℕ
set_protocol [] v = []
set_protocol (b ∷ p) v = u8 (bit_or (bit_and b 0xf0) v) ∷ p

abbrev pub get_total_len : List ℕ → Option ℕ
get_total_len p = get_u16 p 1

abbrev pub set_total_len : List ℕ → ℕ → List ℕ
set_total_len p v = set_u16 p 1 v

abbrev pub get_ttl : List ℕ → Option ℕ
get_ttl p = get_byte p 3

abbrev pub set_ttl : List ℕ → ℕ → List ℕ
set_ttl p v = set p 3 (u8 v)

abbrev pub get_checksum : List ℕ → Option ℕ
get_checksum p = get_u16 p 4

abbrev pub set_checksum : List ℕ → ℕ → List ℕ
set_checksum p v = set_u16 p 4 v

abbrev pub get_src : List ℕ → Option ℕ
get_src p = get_byte p 6

abbrev pub set_src : List ℕ → ℕ → List ℕ
set_src p v = set p 6 (u8 v)

abbrev pub get_dst : List ℕ → Option ℕ
get_dst p = get_byte p 7

abbrev pub set_dst : List ℕ → ℕ → List ℕ
set_dst p v = set p 7 (u8 v)

-- The macros of tcppacket.h, over a packet that begins with the TCP header.
abbrev pub get_srcport : List ℕ → Option ℕ
get_srcport p = get_u16 p 0

abbrev pub set_srcport : List ℕ → ℕ → List ℕ
set_srcport p v = set_u16 p 0 v

abbrev pub get_destport : List ℕ → Option ℕ
get_destport p = get_u16 p 2

abbrev pub set_destport : List ℕ → ℕ → List ℕ
set_destport p v = set_u16 p 2 v

abbrev pub get_seqnum : List ℕ → Option ℕ
get_seqnum p = get_u32 p 4

abbrev pub set_seqnum : List ℕ → ℕ → List ℕ
set_seqnum p v = set_u32 p 4 v

abbrev pub get_acknum : List ℕ → Option ℕ
get_acknum p = get_u32 p 8

abbrev pub set_acknum : List ℕ → ℕ → List ℕ
set_acknum p v = set_u32 p 8 v

abbrev pub get_flags : List ℕ → Option ℕ
get_flags p = get_byte p 13

abbrev pub set_flags : List ℕ → ℕ → List ℕ
set_flags p v = set p 13 (u8 v)

abbrev pub get_window : List ℕ → Option ℕ
get_window p = get_u16 p 14

abbrev pub set_window : List ℕ → ℕ → List ℕ
set_window p v = set_u16 p 14 v

abbrev pub get_tcpchecksum : List ℕ → Option ℕ
get_tcpchecksum p = get_u16 p 16

abbrev pub set_tcpchecksum : List ℕ → ℕ → List ℕ
set_tcpchecksum p v = set_u16 p 16 v

-- The shortcuts over a whole packet. `get_data_len` is an `int`, negative for a packet whose header
-- claims fewer than 28 bytes; its only uses convert it to `uint32_t` or compare it with 0.
abbrev pub ip_to_tcp : List ℕ → List ℕ
ip_to_tcp p = drop header_size p

abbrev pub get_data_len : List ℕ → Option ℕ
get_data_len p = get_total_len p >>= λ n. some (u32 (n + 4294967268))

unfoldable pub is_control : List ℕ → Option Bool
is_control p = get_flags (ip_to_tcp p) >>= λ f. some (not (bit_and f 3 == 0))

unfoldable pub is_data : List ℕ → Option Bool
unfolding is_control
is_data p = do
  control ← is_control p
  n ← get_data_len p
  some (not control && ltb 0 n && ltb n 2147483648)

-- `memcpy` of the bytes to an offset.
abbrev pub copy_at : List ℕ → ℕ → List ℕ → List ℕ
copy_at p i [] = p
copy_at p i (b ∷ bs) = copy_at (set p i b) (suc i) bs

-- `calculate_tcp_checksum`: the packet, changed and restored, and the checksum.
pub calculate_tcp_checksum : Host → List ℕ → ℕ → ℕ → ℕ → Option (List ℕ × ℕ)
calculate_tcp_checksum h packet src dst seg_len = do
  csum_o ← get_tcpchecksum packet
  let cleared = set_tcpchecksum packet 0
  let csum =
      h.csum_tcpudp_magic src dst (seg_len + header_size) 6 (h.csum_partial cleared seg_len 0)
  some (set_tcpchecksum cleared csum_o, csum)

-- The header that `build_tcp_packet` has made when it computes the checksum: `data` is copied after
-- the fields, `none` being the null pointer.
pub tcp_header : Option (List ℕ) → ℕ → ℕ → ℕ → ℕ → ℕ → ℕ → ℕ → List ℕ
tcp_header payload size srcport destport seq ack flags window =
    let p₀ = replicate (size + tcp_header_size) 0 in
    let p₁ = set_acknum (set_seqnum (set_destport (set_srcport p₀ srcport) destport) seq) ack in
    let p₂ = set_window (set_flags p₁ flags) window in
    elim payload [ none ↦ p₂ | some bytes ↦ copy_at p₂ tcp_header_size (take size bytes) ]

-- `build_tcp_packet`, with its three asserts. The arguments are in the range of their C types.
pub build_tcp_packet : Host → Option (List ℕ) → ℕ → ℕ → ℕ → ℕ → ℕ → ℕ → ℕ → ℕ → Option (List ℕ)
unfolding tcp_header calculate_tcp_checksum
build_tcp_packet h payload size srcport destport seq ack flags window dst = do
  let p = tcp_header payload size srcport destport seq ack flags window
  seq' ← get_seqnum p
  assert (seq' == seq)
  ack' ← get_acknum p
  assert (ack' == ack)
  (p', csum) ← calculate_tcp_checksum h p (u8 h.vn_num) (u8 dst) (size + tcp_header_size)
  let p'' = set_tcpchecksum p' csum
  csum' ← get_tcpchecksum p''
  assert (csum == csum')
  some p''

-- `buildPacket`: the IP header before the payload of `data_size` bytes.
pub build_packet : Host → List ℕ → ℕ → ℕ → ℕ → List ℕ
build_packet h payload data_size to proto =
    let p₀ = replicate (data_size + header_size) 0 in
    let p₁ = set_protocol (set_version p₀ 1) proto in
    let p₂ = set_ttl (set_total_len p₁ (u16 (header_size + data_size))) 32 in
    let p₃ = set_dst (set_src p₂ h.vn_num) to in
    copy_at (set_checksum p₃ (h.ip_fast_csum p₃ 2)) header_size (take data_size payload)
