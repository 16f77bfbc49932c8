-- ===== src/Node.antt =====
-- `ip_node_t` of tcp_branch/van_driver.h: what the threads of a node share, and `van_driver_sendto` and
-- `van_driver_recvfrom` of tcp_branch/van_driver.c. Each operation is one step: the locks are left out.
-- The clock and the results of `rand` that are still to come are part of the state.
pub mod Sample
use tcp_archive.Prelude.{
  ℕ, ◌+◌, Option, none, some, Bool, List, take, ltb, ◌==◌, if◌then◌else◌, ℤ, pos, minus_one, ◌>>=◌,
}
use tcp_archive.External.{HTable, Bqueue, Host}
use tcp_archive.Packet.{build_packet, header_size}
use tcp_archive.Rtable.{Rtable, rtable_get}
use tcp_archive.Socktable.{Socktable}
use tcp_archive.Socket.{Socket}

-- `ip_packet_t` and `rip_packet_t`
pub record IpPacket : Type 0 where
  pub iface : ℕ
  pub packet : List ℕ
  pub packet_size : ℕ
  pub addr_type : ℕ

pub record RipPacket : Type 0 where
  pub iface : ℕ
  pub packet : List ℕ

-- `iface_t`; `peer` is -1 where it is not known.
pub record Iface : Type 0 where
  pub cur_state : Bool
  pub peer : ℤ
  pub age : ℕ
  pub timed_out : Bool

pub record Node (H : HTable) (B : Bqueue) : Type 0 where
  pub socket_table : ℕ → Option Socket
  pub tuple_table : Socktable H
  pub route_table : Rtable H
  pub ifaces : ℕ → Iface
  pub sending_q : B.Queue IpPacket
  pub receiving_q : B.Queue (List ℕ)
  pub rip_q : B.Queue RipPacket
  pub tcp_q : B.Queue (List ℕ)
  pub now : ℕ
  pub rands : ℕ → ℕ
  pub drawn : ℕ

module _ (H : HTable) (B : Bqueue) (h : Host) where
  -- `van_driver_sendto`: the result, -1 for a packet that does not go to the network.
  unfoldable pub van_driver_sendto : Node H B → List ℕ → ℕ → ℕ → ℕ → Node H B × ℤ
  van_driver_sendto node buf size to proto =
      if to == h.vn_num
      then (record node { receiving_q = B.enqueue node.receiving_q (take size buf) }, minus_one)
      else (elim (rtable_get H h.van_maxnodes node.route_table to >>= H.get node.route_table) [
        | none ↦ (node, minus_one)
        | some r ↦
            (let packet_size = size + header_size in
              if ltb (h.mtu r.iface) packet_size then (node, minus_one) else (
                record node {
                  sending_q = B.enqueue node.sending_q (record {
                    iface = r.iface;
                    packet = build_packet h buf size to proto;
                    packet_size = packet_size;
                    addr_type = r.type;
                  });
                },
                pos size,
              ))
      ])
