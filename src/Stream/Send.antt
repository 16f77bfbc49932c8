-- ===== src/Stream/Send.antt =====
-- The sending node: `v_write` of tcp_branch/tcp.c, and a round of `tcp_send_thread` and of `sender` of
-- tcp_branch/van_driver.c behind it.
use tcp_archive.Prelude.{
  ℕ, ◌+◌, ◌<◌, ◌≤◌, ◌≡◌, ◌≢◌, refl, some, true, false, List, length, ◌==◌, ==_refl, ==_ne, arith,
  pos, add32, sub32, u16, le→leb, le→ltb, lt→ltb, ltb_ℤ, min_ℤ, int_of,
}
use tcp_archive.External.{HTable, Bqueue, Host, IsHost}
use tcp_archive.Packet.{build_packet, build_tcp_packet, proto_tcp}
use tcp_archive.Rtable.{Entry, rtable_get}
use tcp_archive.Socket.{Socket}
use tcp_archive.Seq.{send_room, get_amount_able_to_accept, copy_data_from_user}
use tcp_archive.Seq.Send.{IsSending}
use tcp_archive.Seq.Ready.{IsReady}
use tcp_archive.Node.{Node, IpPacket}
use tcp_archive.Router.Deliver.{sendto_queued}
use tcp_archive.Tcpm.{Ctx, tcpm_cansend, tcpm_state}
use tcp_archive.Tcpm.Names.{st_estab}
use tcp_archive.Tcp.{tcp_sendto, after_send}
use tcp_archive.Driver.{store, tcp_send_step, send_data}
use tcp_archive.Api.{v_write}
use tcp_archive.Api.Sound.{focus_at}

takes_all : (room n : ℕ) → n ≤ room → room < 2147483648 → min_ℤ (int_of room) (pos n) ≡ pos n
takes_all room n fits small =
    rw (lt→ltb room 2147483648 small, le→ltb (n + 0) (room + 0) (omega (arith, fits)))

sends : (s : Socket) → s.machine.current ≡ st_estab → tcpm_cansend s ≡ true
unfolding tcpm_cansend tcpm_state
sends s at = rw at refl

-- The packet that `van_driver_sendto` queues for a segment.
abbrev pub queued : Host → List ℕ → ℕ → Entry → IpPacket
queued h p dst r = record {
  iface = r.iface;
  packet = build_packet h p (length p) dst proto_tcp;
  packet_size = length p + 8;
  addr_type = r.type;
}

module _ {H : HTable} {B : Bqueue} (h : Host) (host : IsHost h) where
  -- A call of `v_write` that has room for all of its bytes.
  pub v_write_lem :
      (node : Node H B) (s u : Socket) (bytes : List ℕ) (n : ℕ)
      → s.fd < 256
      → node.socket_table s.fd ≡ some s
      → s.machine.current ≡ st_estab
      → IsSending s
      → s.send_written + n ≤ s.send_una + s.send_window
      → copy_data_from_user s bytes n ≡ some u
      → v_write h node (pos s.fd) bytes n
        ≡ some (store u.fd (record { sock = u; node = node }), pos n)
  unfolding v_write get_amount_able_to_accept
  v_write_lem node s u bytes n less here at v fits copied =
      let all = takes_all (send_room s) n (omega (arith, v, fits)) (omega (arith, v, fits)) in
      rw (focus_at h s.fd node s less here, sends s at)
        (rw all (rw (le→ltb 0 (n + 0) (omega arith)) (rw copied)))

  -- The node and the socket after a segment of `n` bytes went to the queue.
  abbrev pub sent : Ctx H B → ℕ → List ℕ → Entry → Ctx H B
  sent w n p r = record {
    node = record w.node {
      sending_q = B.enqueue w.node.sending_q (queued h p w.sock.remote_node r);
    };
    sock = record (after_send w.node.now w.sock n 0) { send_next = add32 w.sock.send_next n };
  }

  -- A round of `tcp_send_thread` for a socket with data, a route and a packet that fits.
  pub tcp_send_step_data :
      (w : Ctx H B) (n k : ℕ) (d p : List ℕ) (r : Entry)
      → 0 < n
      → IsReady w.sock n d
      → let s = w.sock in
        build_tcp_packet h
            (some d)
            n
            s.local_port
            s.remote_port
            s.send_next
            s.recv_ack
            0
            (u16 (sub32 (add32 s.recv_read s.recv_window) s.recv_next))
            s.remote_node
          ≡ some p
        → w.sock.remote_node ≢ h.vn_num
        → rtable_get H h.van_maxnodes w.node.route_table w.sock.remote_node ≡ some k
        → H.get w.node.route_table k ≡ some r
        → length p + 8 ≤ h.mtu r.iface
        → add32 w.sock.send_next n ≤ w.sock.send_written
        → tcp_send_step h w ≡ some (sent w n p r)
  unfolding tcp_send_step send_data tcp_sendto after_send
  tcp_send_step_data w n k d p r some' ready made ne route entry fits below =
      let nonneg : ltb_ℤ (pos n) (pos 0) ≡ false = le→ltb 0 (n + 0) (omega arith) in
      let zero : (n == 0) ≡ false = ==_ne n 0 (omega (arith, some')) in
      let positive : ltb_ℤ (pos 0) (pos n) ≡ true = lt→ltb 0 (n + 0) (omega (arith, some')) in
      rw (ready.amount) (
        rw (nonneg, zero, ready.flag)
          (rw (positive, ready.bytes)
            (rw (nonneg, ==_refl n)
              (rw made (
                rw
                  (sendto_queued h host w.node p w.sock.remote_node proto_tcp k r ne route entry
                    fits)
                  (rw (le→leb (add32 w.sock.send_next n) w.sock.send_written below)))))))
