-- ===== src/Router/Deliver.antt =====
-- A datagram from one node to its neighbour: `van_driver_sendto`, `sender`, `listener` and
-- `van_driver_recvfrom` of tcp_branch/van_driver.c, composed.
use tcp_archive.Prelude.{
  ℕ, ◌+◌, ◌*◌, ◌/◌, ◌%◌, ◌<◌, ◌≤◌, ◌≡◌, ◌≢◌, refl, sym, ◌∙◌, ap, some, List, [], ◌∷◌, ◌++◌, bit_or,
  length, replicate, take, arith, ==_ne, pos, le→ltb, u8, u16, pos,
}
use tcp_archive.External.{HTable, Bqueue, Host, IsHost}
use tcp_archive.External.Queues.{dequeue-enqueue}
use tcp_archive.Packet.{build_packet, proto_data}
use tcp_archive.Packet.Bytes.{u16_bytes, first_byte}
use tcp_archive.Packet.Ip.{ip_bytes, ip_csum, build_packet_eq}
use tcp_archive.Rtable.{Entry, rtable_get}
use tcp_archive.Node.{Node, IpPacket, van_driver_sendto}
use tcp_archive.Router.{sender_step, van_driver_recvfrom, listener_step, dispatch}
use tcp_archive.Router.Header.{
  peer, arrived, listener_accepts, dispatch-header, recvfrom-header, take_all,
}

whole :
    (h : Host) (payload : List ℕ) (dst : ℕ)
    → length (build_packet h payload (length payload) dst proto_data) ≤ length payload + 8
whole h payload dst = rw (build_packet_eq h payload dst proto_data) (omega arith)

module _ {H : HTable} {B : Bqueue} (h : Host) (host : IsHost h) where
  -- The neighbour's `listener` finds the checksum of a packet right that `buildPacket` made.
  pub listener-build_packet :
      (node : Node H B) (i : ℕ) (payload : List ℕ) (dst proto : ℕ)
      → proto < 16
      → length payload + 8 < 65536
      → let p = build_packet h payload (length payload) dst proto in
        listener_step (peer h dst) node i p
        ≡ dispatch (peer h dst) (arrived node i) i p (8 + length payload) proto
  listener-build_packet node i payload dst proto pp pl =
      let len = u16 (8 + length payload) in
      let csum = ip_csum h (length payload) dst proto in
      let small =
        host.ip_csum_small (ip_bytes proto len h.vn_num dst 0 ++ replicate (length payload) 0) 2 in
      let total : len % 256 + 256 * (len / 256 % 256) ≡ 8 + length payload = omega (arith, pl) in
      rw (build_packet_eq h payload dst proto) (
        listener_accepts (peer h dst) node i (u8 (bit_or 16 proto)) (len % 256) (len / 256 % 256) 32
          (csum % 256) (csum / 256 % 256) (u8 h.vn_num) (u8 dst) payload (omega arith) (omega arith)
          (host.ip_csum_words _ _ 2 refl ∙ sym (u16_bytes csum small))
        ∙ rw (total, (first_byte proto pp).0))

  -- A datagram for this node is handed up whole.
  dispatch-build_packet :
      (node : Node H B) (i : ℕ) (payload : List ℕ) (dst : ℕ)
      → dst < 256
      → length payload + 8 ≤ h.mtu i
      → let p = build_packet h payload (length payload) dst proto_data in
        dispatch (peer h dst) node i p (8 + length payload) proto_data
        ≡ some (record node { receiving_q = B.enqueue node.receiving_q p })
  dispatch-build_packet node i payload dst pd fits =
      let len = u16 (8 + length payload) in
      let c = ip_csum h (length payload) dst proto_data in
      let here : u8 dst ≡ dst = omega (arith, pd) in
      rw (build_packet_eq h payload dst proto_data, here)
        (dispatch-header (peer h dst) node i (u8 (bit_or 16 proto_data)) (len % 256)
          (len / 256 % 256) 32 (c % 256) (c / 256 % 256) (u8 h.vn_num) payload fits)

  -- Reading what was handed up: its payload, as much of it as the caller has room for.
  recvfrom-build_packet :
      (node : Node H B) (q : B.Queue (List ℕ)) (payload : List ℕ) (dst size : ℕ)
      → length payload + 8 < 65536
      → B.dequeue node.receiving_q
        ≡ some (build_packet h payload (length payload) dst proto_data, q)
      → van_driver_recvfrom node size
        ≡ some (record node { receiving_q = q }, some (take size payload))
  recvfrom-build_packet node q payload dst size pl e =
      let len = u16 (8 + length payload) in
      let c = ip_csum h (length payload) dst proto_data in
      recvfrom-header node q (u8 (bit_or 16 proto_data)) (len % 256) (len / 256 % 256) 32 (c % 256)
        (c / 256 % 256) (u8 h.vn_num) (u8 dst) payload size (omega (arith, pl))
        (e ∙ rw (build_packet_eq h payload dst proto_data))

  -- `van_driver_sendto` to another node that the routing table has a route to.
  pub sendto_queued :
      (node : Node H B) (payload : List ℕ) (dst proto k : ℕ) (r : Entry)
      → dst ≢ h.vn_num
      → rtable_get H h.van_maxnodes node.route_table dst ≡ some k
      → H.get node.route_table k ≡ some r
      → length payload + 8 ≤ h.mtu r.iface
      → van_driver_sendto H B h node payload (length payload) dst proto ≡ (
        record node {
          sending_q = B.enqueue node.sending_q (record {
            iface = r.iface;
            packet = build_packet h payload (length payload) dst proto;
            packet_size = length payload + 8;
            addr_type = r.type;
          });
        },
        pos (length payload),
      )
  unfolding van_driver_sendto
  sendto_queued node payload dst proto k r ne e e' fits =
      rw (==_ne dst h.vn_num ne, e) (rw e' (rw (le→ltb (length payload + 8) (h.mtu r.iface) fits)))

  -- A datagram to a neighbour, another node with a number below 256: with a route, and a packet below
  -- 2 ^ 16 bytes that fits both interfaces, `sender` puts one packet on the route's interface, and
  -- when the neighbour's `listener` gets it, its user reads the payload back, as much of it as there is
  -- room for. The queues on the way were empty.
  pub recvfrom-sendto :
      (from to : Node H B) (payload : List ℕ) (dst i size k : ℕ) (r : Entry)
      → dst < 256
      → dst ≢ h.vn_num
      → length payload + 8 < 65536
      → rtable_get H h.van_maxnodes from.route_table dst ≡ some k
      → H.get from.route_table k ≡ some r
      → length payload + 8 ≤ h.mtu r.iface
      → length payload + 8 ≤ h.mtu i
      → B.contents from.sending_q ≡ []
      → B.contents to.receiving_q ≡ []
      → let from' = (van_driver_sendto H B h from payload (length payload) dst proto_data).0 in
        (p : List ℕ) × ((sender_step from').1 ≡ (r.iface, p) ∷ [])
        × (to' : Node H B) × (listener_step (peer h dst) to i p ≡ some to')
        × (to'' : Node H B) × (van_driver_recvfrom to' size ≡ some (to'', some (take size payload)))
        × (B.contents to''.receiving_q ≡ [])
  unfolding sender_step
  recvfrom-sendto from to payload dst i size k r pd ne pl e e' fits fits' empty empty' =
      let p = build_packet h payload (length payload) dst proto_data in
      let (q, d, c) = dequeue-enqueue B to.receiving_q p empty' in
      let pkt : IpPacket = record {
        iface = r.iface;
        packet = p;
        packet_size = length payload + 8;
        addr_type = r.type;
      } in
      let (rest, d', _) = dequeue-enqueue B from.sending_q pkt empty in
      let sent : (sender_step
            (van_driver_sendto H B h from payload (length payload) dst proto_data).0).1
          ≡ (r.iface, p) ∷ [] =
        rw (sendto_queued from payload dst proto_data k r ne e e' fits, sender_step, d')
          (ap (λ l. (r.iface, l) ∷ []) (take_all p (length payload + 8) (whole h payload dst))) in
      let to' = record (arrived to i) { receiving_q = B.enqueue to.receiving_q p } in
      (
        p,
        sent,
        to',
        listener-build_packet to i payload dst proto_data (omega arith) pl
            ∙ dispatch-build_packet (arrived to i) i payload dst pd fits',
        record to' { receiving_q = q },
        recvfrom-build_packet to' q payload dst size pl d,
        c,
      )
