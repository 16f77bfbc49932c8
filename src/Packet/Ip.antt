-- ===== src/Packet/Ip.antt =====
-- IP packets as `buildPacket` of tcp_branch/van_driver.c makes them.
use tcp_archive.Prelude.{
  ℕ, ◌+◌, ◌/◌, ◌%◌, ◌<◌, ◌≡◌, refl, ap, subst, some, List, [], ◌∷◌, ◌++◌, length, bit_or, replicate,
  take-length, length-replicate, u8, u16, arith,
}
use tcp_archive.External.{Host, IsHost}
use tcp_archive.Packet.{
  build_packet, get_version, get_protocol, get_total_len, get_ttl, get_checksum, get_src, get_dst,
  ip_to_tcp,
}
use tcp_archive.Packet.Bytes.{copy_at-append, replicate-add, u16_bytes, first_byte}

-- The header's bytes, with the checksum field given.
abbrev pub ip_bytes : ℕ → ℕ → ℕ → ℕ → ℕ → List ℕ
ip_bytes proto len src dst csum =
    u8 (bit_or 16 proto)
    ∷ (len % 256)
    ∷ (len / 256 % 256)
    ∷ 32
    ∷ (csum % 256)
    ∷ (csum / 256 % 256)
    ∷ u8 src
    ∷ u8 dst
    ∷ []

-- The checksum that `buildPacket` computes is of the header with the field cleared, before the
-- payload is copied: the bytes behind the header are 0.
abbrev pub ip_csum : Host → ℕ → ℕ → ℕ → ℕ
ip_csum h n dst proto =
    h.ip_fast_csum (ip_bytes proto (u16 (8 + n)) h.vn_num dst 0 ++ replicate n 0) 2

pub build_packet_eq :
    (h : Host) (payload : List ℕ) (dst proto : ℕ)
    → build_packet h payload (length payload) dst proto
      ≡ ip_bytes proto
          (u16 (8 + length payload))
          h.vn_num
          dst
          (ip_csum h (length payload) dst proto)
        ++ payload
unfolding build_packet
build_packet_eq h payload dst proto =
    rw (replicate-add {A = ℕ} 8 (length payload) 0, take-length payload)
      (copy_at-append
        (ip_bytes proto (u16 (8 + length payload)) h.vn_num dst
          (ip_csum h (length payload) dst proto))
        (replicate (length payload) 0) payload (length-replicate (length payload) 0))

-- The fields of an IP packet.
pub record HasIpFields (p : List ℕ) (proto len src dst csum : ℕ) : Type 0 where
  pub version : get_version p ≡ some 1
  pub protocol : get_protocol p ≡ some proto
  pub total_len : get_total_len p ≡ some len
  pub ttl : get_ttl p ≡ some 32
  pub src_field : get_src p ≡ some src
  pub dst_field : get_dst p ≡ some dst
  pub csum_field : get_checksum p ≡ some csum

ip_HasIpFields :
    (rest : List ℕ) {proto len src dst csum : ℕ}
    → proto < 16
    → len < 65536
    → src < 256
    → dst < 256
    → csum < 65536
    → HasIpFields (ip_bytes proto len src dst csum ++ rest) proto len src dst csum
ip_HasIpFields rest {proto} pp pl ps pd pc = record {
  version = ap some (first_byte proto pp).1;
  protocol = ap some (first_byte proto pp).0;
  total_len = ap some (u16_bytes _ pl);
  ttl = refl;
  src_field = ap some (omega arith);
  dst_field = ap some (omega arith);
  csum_field = ap some (u16_bytes _ pc);
}

-- `buildPacket` makes a packet of version 1 and time to live 32 whose protocol, length, source and
-- destination read back as given, with the payload behind the header, when the protocol fits its
-- four bits, the destination its byte and the length its 16 bits.
pub build_packet_lem :
    (h : Host) (payload : List ℕ) (dst proto : ℕ)
    → IsHost h
    → proto < 16
    → dst < 256
    → length payload + 8 < 65536
    → let p = build_packet h payload (length payload) dst proto in
      (csum : ℕ) × HasIpFields p proto (length payload + 8) h.vn_num dst csum
      × (ip_to_tcp p ≡ payload)
      × (length p ≡ length payload + 8)
build_packet_lem h payload dst proto host pp pd pl = (
  ip_csum h (length payload) dst proto,
  rw (build_packet_eq h payload dst proto) (
      subst
        (λ n.
          HasIpFields
            (ip_bytes proto (u16 (8 + length payload)) h.vn_num dst
                (ip_csum h (length payload) dst proto)
              ++ payload)
            proto n h.vn_num dst (ip_csum h (length payload) dst proto))
        {x = u16 (8 + length payload)} (omega arith)
        (ip_HasIpFields payload pp (omega arith) host.num_small pd (host.ip_csum_small _ _))),
  rw (build_packet_eq h payload dst proto),
  rw (build_packet_eq h payload dst proto) (omega arith),
)
