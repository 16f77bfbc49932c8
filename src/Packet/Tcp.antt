-- ===== src/Packet/Tcp.antt =====
-- TCP packets as `build_tcp_packet` of tcp_branch/tcp.c makes them.
use tcp_archive.Prelude.{
  ℕ, ◌+◌, ◌/◌, ◌%◌, ◌<◌, ◌≡◌, refl, ap, Option, some, none, List, [], ◌∷◌, ◌++◌, length, replicate,
  drop, ◌>>=◌, take-length, length-replicate, u8, arith, ==_refl,
}
use tcp_archive.External.{Host, IsHost}
use tcp_archive.Packet.{
  tcp_header, build_tcp_packet, calculate_tcp_checksum, get_srcport, get_destport, get_seqnum,
  get_acknum, get_flags, get_window, get_tcpchecksum, set_tcpchecksum, tcp_header_size, header_size,
}
use tcp_archive.Packet.Bytes.{copy_at-append, replicate-add, u16_bytes, u32_bytes}

-- The payload that a call hands over: nothing, or as many bytes as it says.
abbrev pub payload_of : Option (List ℕ) → List ℕ
payload_of none = []
payload_of (some bytes) = bytes

-- The header's bytes, with the checksum field given.
abbrev pub header_bytes : ℕ → ℕ → ℕ → ℕ → ℕ → ℕ → ℕ → List ℕ
header_bytes sp dp seq ack flags window csum =
    (sp % 256)
    ∷ (sp / 256 % 256)
    ∷ (dp % 256)
    ∷ (dp / 256 % 256)
    ∷ (seq % 256)
    ∷ (seq / 256 % 256)
    ∷ (seq / 65536 % 256)
    ∷ (seq / 16777216 % 256)
    ∷ (ack % 256)
    ∷ (ack / 256 % 256)
    ∷ (ack / 65536 % 256)
    ∷ (ack / 16777216 % 256)
    ∷ 0
    ∷ u8 flags
    ∷ (window % 256)
    ∷ (window / 256 % 256)
    ∷ (csum % 256)
    ∷ (csum / 256 % 256)
    ∷ 0
    ∷ 0
    ∷ []

header_lem :
    (payload : Option (List ℕ)) (sp dp seq ack flags window : ℕ)
    → tcp_header payload (length (payload_of payload)) sp dp seq ack flags window
      ≡ header_bytes sp dp seq ack flags window 0 ++ payload_of payload
unfolding tcp_header
header_lem none sp dp seq ack flags window = refl
header_lem (some bytes) sp dp seq ack flags window =
    rw (replicate-add {A = ℕ} 20 (length bytes) 0, take-length bytes)
      (copy_at-append (header_bytes sp dp seq ack flags window 0) (replicate (length bytes) 0) bytes
        (length-replicate (length bytes) 0))

-- The fields of a packet that begins with a TCP header.
pub record HasFields (p : List ℕ) (sp dp seq ack flags window csum : ℕ) : Type 0 where
  pub srcport : get_srcport p ≡ some sp
  pub destport : get_destport p ≡ some dp
  pub seqnum : get_seqnum p ≡ some seq
  pub acknum : get_acknum p ≡ some ack
  pub flags_field : get_flags p ≡ some flags
  pub window_field : get_window p ≡ some window
  pub csum_field : get_tcpchecksum p ≡ some csum

-- The arguments' C types.
pub record InRange (sp dp seq ack flags window : ℕ) : Type 0 where
  pub srcport : sp < 65536
  pub destport : dp < 65536
  pub seqnum : seq < 4294967296
  pub acknum : ack < 4294967296
  pub flags_byte : flags < 256
  pub window_field : window < 65536

header_HasFields :
    (rest : List ℕ) {sp dp seq ack flags window csum : ℕ}
    → InRange sp dp seq ack flags window
    → csum < 65536
    → HasFields
        (header_bytes sp dp seq ack flags window csum ++ rest)
        sp
        dp
        seq
        ack
        flags
        window
        csum
header_HasFields rest r c = record {
  srcport = ap some (u16_bytes _ r.srcport);
  destport = ap some (u16_bytes _ r.destport);
  seqnum = ap some (u32_bytes _ r.seqnum);
  acknum = ap some (u32_bytes _ r.acknum);
  flags_field = ap some (omega (arith, r));
  window_field = ap some (u16_bytes _ r.window_field);
  csum_field = ap some (u16_bytes _ c);
}

-- The checksum of a segment: of its bytes with the checksum field cleared.
abbrev pub segment_csum : Host → List ℕ → ℕ → ℕ → ℕ → ℕ → ℕ → ℕ → ℕ → ℕ
segment_csum h bytes sp dp seq ack flags window dst =
    let size = length bytes + tcp_header_size in
    h.csum_tcpudp_magic (u8 h.vn_num) (u8 dst) (size + header_size) 6
      (h.csum_partial (header_bytes sp dp seq ack flags window 0 ++ bytes) size 0)

pub build_eq :
    (h : Host) (payload : Option (List ℕ)) {sp dp seq ack flags window : ℕ} (dst : ℕ)
    → IsHost h
    → InRange sp dp seq ack flags window
    → build_tcp_packet h payload (length (payload_of payload)) sp dp seq ack flags window dst
      ≡ some (
          header_bytes sp dp seq ack flags window
            (segment_csum h (payload_of payload) sp dp seq ack flags window dst)
          ++ payload_of payload)
unfolding build_tcp_packet calculate_tcp_checksum
build_eq h payload {sp} {dp} {seq} {ack} {flags} {window} dst host r =
    let csum = segment_csum h (payload_of payload) sp dp seq ack flags window dst in
    rw (header_lem payload sp dp seq ack flags window, u32_bytes seq r.seqnum)
      (rw (==_refl seq, u32_bytes ack r.acknum)
        (rw (==_refl ack, u16_bytes csum (host.tcp_csum_small _ _ _ _ _)) (rw (==_refl csum))))

-- The checksum of a packet with the field cleared, and the packet that `calculate_tcp_checksum` leaves.
pub calculate_cleared :
    (h : Host) (bytes : List ℕ) (sp dp seq ack flags window csum s d n : ℕ)
    → let zeroed = header_bytes sp dp seq ack flags window 0 ++ bytes in
      calculate_tcp_checksum h
        (set_tcpchecksum (header_bytes sp dp seq ack flags window csum ++ bytes) 0)
        s
        d
        n
      ≡ some (zeroed, h.csum_tcpudp_magic s d (n + header_size) 6 (h.csum_partial zeroed n 0))
unfolding calculate_tcp_checksum
calculate_cleared h bytes sp dp seq ack flags window csum s d n = refl

-- What a receiver finds in a packet made for it.
pub record IsSegment (h : Host) (p : List ℕ) (bytes : List ℕ) (dst csum : ℕ) : Type 0 where
  pub payload : drop tcp_header_size p ≡ bytes
  pub size : length p ≡ length bytes + tcp_header_size
  pub csum_agrees :
      (calculate_tcp_checksum h
          (set_tcpchecksum p 0)
          (u8 h.vn_num)
          (u8 dst)
          (length bytes + tcp_header_size)
        >>= λ r. some r.1)
      ≡ some csum

csum_agrees :
    (h : Host) (bytes : List ℕ) (sp dp seq ack flags window dst csum : ℕ)
    → (calculate_tcp_checksum h
          (set_tcpchecksum (header_bytes sp dp seq ack flags window csum ++ bytes) 0)
          (u8 h.vn_num)
          (u8 dst)
          (length bytes + tcp_header_size)
        >>= λ r. some r.1)
      ≡ some (segment_csum h bytes sp dp seq ack flags window dst)
unfolding calculate_tcp_checksum
csum_agrees h bytes sp dp seq ack flags window dst csum = refl

-- `build_tcp_packet` fails none of its asserts on arguments in the range of their C types, whose
-- payload has the length given or is null with length 0. The packet's fields read back as the
-- arguments, the payload stands behind the header, and the checksum that a receiver computes for
-- the same two nodes, with the field cleared, is the one in the packet.
pub build_tcp_packet_lem :
    (h : Host) (payload : Option (List ℕ)) (sp dp seq ack flags window dst : ℕ)
    → IsHost h
    → InRange sp dp seq ack flags window
    → (p : List ℕ) × (csum : ℕ) × (build_tcp_packet h payload
          (length (payload_of payload))
          sp
          dp
          seq
          ack
          flags
          window
          dst
        ≡ some p)
      × HasFields p sp dp seq ack flags window csum
      × IsSegment h p (payload_of payload) dst csum
build_tcp_packet_lem h payload sp dp seq ack flags window dst host r = (
  header_bytes sp dp seq ack flags window csum ++ payload_of payload,
  csum,
  build_eq h payload dst host r,
  header_HasFields (payload_of payload) r (host.tcp_csum_small _ _ _ _ _),
  record {
    payload = refl;
    size = omega arith;
    csum_agrees = csum_agrees h (payload_of payload) sp dp seq ack flags window dst csum;
  },
)
  where
    csum : ℕ
    csum = segment_csum h (payload_of payload) sp dp seq ack flags window dst
