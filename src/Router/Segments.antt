-- ===== src/Router/Segments.antt =====
-- A TCP segment from one node to its neighbour: `build_tcp_packet` of tcp_branch/tcp.c, and `buildPacket` and
-- `listener` of tcp_branch/van_driver.c, composed.
use tcp_archive.Prelude.{
  ℕ, ◌+◌, ◌*◌, ◌/◌, ◌%◌, ◌<◌, ◌≤◌, ◌≡◌, sym, ◌∙◌, ap, Option, some, List, ◌++◌, bit_or, length,
  arith, ==_refl, le→leb, le→ltb, u8, u16, u32,
}
use tcp_archive.External.{HTable, Bqueue, Host, IsHost}
use tcp_archive.Packet.{build_packet, build_tcp_packet, proto_tcp}
use tcp_archive.Packet.Bytes.{u16_bytes}
use tcp_archive.Packet.Ip.{ip_csum, build_packet_eq}
use tcp_archive.Packet.Tcp.{
  payload_of, header_bytes, segment_csum, build_eq, InRange, calculate_cleared,
}
use tcp_archive.Node.{Node}
use tcp_archive.Router.{listener_step, dispatch, accept_tcp}
use tcp_archive.Router.Header.{header, peer, arrived, take_all}
use tcp_archive.Router.Deliver.{listener-build_packet}

module _ {H : HTable} {B : Bqueue} (h : Host) where
  -- `listener` at a segment whose TCP checksum is right puts the packet on the TCP queue as it came.
  accept_tcp-segment :
      (node : Node H B) (b l₀ l₁ t c₀ c₁ s d sp dp seq ack flags window csum : ℕ) (bytes : List ℕ)
      → csum < 65536
      → length bytes + 28 < 65536
      → l₀ + 256 * l₁ ≡ 28 + length bytes
      → csum
        ≡ h.csum_tcpudp_magic s d (length bytes + 20 + 8) 6 (
            h.csum_partial
              (header_bytes sp dp seq ack flags window 0 ++ bytes)
              (length bytes + 20)
              0)
      → let p =
          header b l₀ l₁ t c₀ c₁ s d ++ (header_bytes sp dp seq ack flags window csum ++ bytes) in
        accept_tcp h node p s d (28 + length bytes)
        ≡ some (record node { tcp_q = B.enqueue node.tcp_q p })
  unfolding accept_tcp
  accept_tcp-segment node b l₀ l₁ t c₀ c₁ s d sp dp seq ack flags window csum bytes small len total
        right =
      let p =
        header b l₀ l₁ t c₀ c₁ s d ++ (header_bytes sp dp seq ack flags window csum ++ bytes) in
      let n : u32 (28 + length bytes + 4294967268) ≡ length bytes = omega (arith, len) in
      let m : u32 (length bytes + 20) ≡ length bytes + 20 = omega (arith, len) in
      rw (u16_bytes csum small, total, n, m)
        (rw
          (
            calculate_cleared h bytes sp dp seq ack flags window csum s d (length bytes + 20),
            sym right,
          )
          (rw (==_refl csum, le→leb (28 + length bytes) (length p) (omega arith))
            (rw (take_all p (28 + length bytes) (omega arith)))))

  dispatch-segment :
      (node v : Node H B) (i b l₀ l₁ t c₀ c₁ s n : ℕ) (rest : List ℕ)
      → n ≤ h.mtu i
      → accept_tcp h node (header b l₀ l₁ t c₀ c₁ s h.vn_num ++ rest) s h.vn_num n ≡ some v
      → dispatch h node i (header b l₀ l₁ t c₀ c₁ s h.vn_num ++ rest) n proto_tcp ≡ some v
  unfolding dispatch
  dispatch-segment node v i b l₀ l₁ t c₀ c₁ s n rest fits e =
      rw (le→ltb n (h.mtu i) fits, ==_refl h.vn_num) e

module _ {H : HTable} {B : Bqueue} (h : Host) (host : IsHost h) where
  -- A segment that `build_tcp_packet` makes, on arguments in the range of their C types, and `buildPacket` sends to the
  -- neighbour `dst`: the neighbour's `listener` finds both checksums right and puts the packet on its TCP queue as it
  -- was sent, when it fits the interface and a 16-bit length.
  pub listener-build_tcp_packet :
      (node : Node H B) (payload : Option (List ℕ)) (i sp dp seq ack flags window dst : ℕ)
      → InRange sp dp seq ack flags window
      → dst < 256
      → length (payload_of payload) + 28 < 65536
      → length (payload_of payload) + 28 ≤ h.mtu i
      → (p : List ℕ) × (build_tcp_packet h payload
            (length (payload_of payload))
            sp
            dp
            seq
            ack
            flags
            window
            dst
          ≡ some p)
        × (let q = build_packet h p (length p) dst proto_tcp in
            listener_step (peer h dst) node i q
            ≡ some (record (arrived node i) { tcp_q = B.enqueue node.tcp_q q }))
  listener-build_tcp_packet node payload i sp dp seq ack flags window dst r pd len fits =
      let bytes = payload_of payload in
      let csum = segment_csum h bytes sp dp seq ack flags window dst in
      let p = header_bytes sp dp seq ack flags window csum ++ bytes in
      let l = u16 (8 + length p) in
      let c = ip_csum h (length p) dst proto_tcp in
      let front = λ (z : ℕ).
        header (u8 (bit_or 16 proto_tcp)) (l % 256) (l / 256 % 256) 32 (c % 256) (c / 256 % 256)
          (u8 h.vn_num) z
        ++ p in
      let here : u8 dst ≡ dst = omega (arith, pd) in
      let size : 8 + length p ≡ 28 + length bytes = omega arith in
      let right : csum
          ≡ h.csum_tcpudp_magic (u8 h.vn_num) dst (length bytes + 20 + 8) 6 (
              h.csum_partial (header_bytes sp dp seq ack flags window 0 ++ bytes)
                (length bytes + 20) 0) =
        ap
          (λ z. h.csum_tcpudp_magic (u8 h.vn_num) z (length bytes + 20 + 8) 6 (
            h.csum_partial (header_bytes sp dp seq ack flags window 0 ++ bytes) (length bytes + 20)
              0))
          here in
      (
        p,
        build_eq h payload dst host r,
        listener-build_packet h host node i p dst proto_tcp (omega arith) (omega (arith, len))
            ∙ rw (build_packet_eq h p dst proto_tcp) (
                ap
                  (λ z. dispatch (peer h dst) (arrived node i) i (front z) (8 + length p) proto_tcp)
                  here
                ∙ ap (λ z. dispatch (peer h dst) (arrived node i) i (front dst) z proto_tcp) size
                ∙ dispatch-segment (peer h dst) (arrived node i) _ i (u8 (bit_or 16 proto_tcp))
                    (l % 256) (l / 256 % 256) 32 (c % 256) (c / 256 % 256) (u8 h.vn_num)
                    (28 + length bytes) p (omega (arith, fits))
                    (accept_tcp-segment (peer h dst) (arrived node i) (u8 (bit_or 16 proto_tcp))
                      (l % 256) (l / 256 % 256) 32 (c % 256) (c / 256 % 256) (u8 h.vn_num) dst sp dp
                      seq ack flags window csum bytes (host.tcp_csum_small _ _ _ _ _) len
                      (omega (arith, len)) right)
                ∙ ap
                    (λ z. some (record (arrived node i) { tcp_q = B.enqueue node.tcp_q (front z) }))
                    (sym here)),
      )
