-- ===== src/Stream.antt =====
-- Bytes from the user of one node to the user of its neighbour: `v_write` of tcp_branch/tcp.c, the threads of
-- tcp_branch/van_driver.c on both nodes, and `v_read`, composed.
mod Tests
pub mod Segment
pub mod Send
pub mod Receive
use tcp_archive.Prelude.{
  ℕ, suc, ◌+◌, ◌<◌, ◌≤◌, ◌≡◌, ◌≢◌, refl, sym, ◌∙◌, ap, subst, some, true, List, [], ◌∷◌, length,
  ==_refl, arith, pos, add32, sub32, u16, ◌==◌, if◌then◌else◌, take,
}
use tcp_archive.External.{HTable, Bqueue, Host, IsHost}
use tcp_archive.External.Queues.{dequeue-enqueue}
use tcp_archive.Packet.{build_packet, build_tcp_packet, proto_tcp}
use tcp_archive.Packet.Ip.{build_packet_lem}
use tcp_archive.Packet.Tcp.{InRange}
use tcp_archive.Rtable.{Entry, rtable_get}
use tcp_archive.Socket.{Socket}
use tcp_archive.Socktable.{socktable_get}
use tcp_archive.Seq.Send.{IsSending}
use tcp_archive.Seq.Ready.{IsReady, written, copy_data-IsReady}
use tcp_archive.Node.{Node, IpPacket}
use tcp_archive.Router.{sender_step, listener_step}
use tcp_archive.Router.Header.{peer, arrived, take_all}
use tcp_archive.Router.Segments.{listener-build_tcp_packet}
use tcp_archive.Tcpm.{Ctx}
use tcp_archive.Tcpm.Names.{st_estab}
use tcp_archive.Driver.{store, tcp_send_step, tcp_step}
use tcp_archive.Api.{v_write, v_read}
use tcp_archive.Driver.Receive.{IsData}
use Segment.{IsData-build_packet}
use Send.{v_write_lem, tcp_send_step_data, queued, sent}
use Receive.{HasRoom, v_read-tcp_step}

-- An established socket that has sent all that was written, where both windows have room for `n` bytes. The ports and
-- the acknowledgement number have their fields' size.
pub record CanWrite (s : Socket) (n : ℕ) : Type 0 where
  pub small : s.fd < 256
  pub current : s.machine.current ≡ st_estab
  pub sending : IsSending s
  pub all_sent : s.send_next ≡ s.send_written
  pub room : s.send_written + n ≤ s.send_una + s.send_window
  pub peer_room : s.send_written + n ≤ s.remote_flow_window
  pub flow_small : s.remote_flow_window < 2147483648
  pub local_port : s.local_port < 65536
  pub remote_port : s.remote_port < 65536
  pub recv_ack : s.recv_ack < 4294967296

peer-IsHost : (h : Host) (dst : ℕ) → IsHost h → dst < 256 → IsHost (peer h dst)
peer-IsHost h dst host small = record {
  ip_csum_words = host.ip_csum_words;
  ip_csum_small = host.ip_csum_small;
  tcp_csum_small = host.tcp_csum_small;
  num_small = small;
  heap_size = host.heap_size;
  heap_next_size = host.heap_next_size;
}

-- The one packet of a queue goes out whole.
sender-queued :
    {H : HTable} {B : Bqueue} (h : Host) (node : Node H B) (q : B.Queue IpPacket) (p : List ℕ)
    (dst : ℕ) (r : Entry)
    → IsHost h
    → dst < 256
    → length p + 8 < 65536
    → B.contents q ≡ []
    → node.sending_q ≡ B.enqueue q (queued h p dst r)
    → (sender_step node).1 ≡ (r.iface, build_packet h p (length p) dst proto_tcp) ∷ []
unfolding sender_step
sender-queued {B} h node q p dst r host pd small empty e =
    let (rest, d, _) = dequeue-enqueue B q (queued h p dst r) empty in
    let (_, _, _, size) = build_packet_lem h p dst proto_tcp host (omega arith) pd small in
    rw (e, sender_step, d)
      (ap (λ l. (r.iface, l) ∷ [])
        (take_all (build_packet h p (length p) dst proto_tcp) (length p + 8) (omega (arith, size))))

module _ {H : HTable} {B : Bqueue} (h : Host) (host : IsHost h) where
  -- From user to user. A node has an established socket that has sent all that was written, with room in both windows for
  -- the bytes that `v_write` gets, at least one. Its send pointers are in order, `send_una` by more than 8192 below
  -- 2 ^ 31 and the end of the peer's window below 2 ^ 31, and its ports and acknowledgement number fit their fields. It
  -- has a route to the socket's peer, another node, whose number is below 256. That node has a socket for the
  -- connection, established and with a machine that was set, which expects the next byte that the first will send, whose
  -- user has read all that came, and whose window, which ends below 2 ^ 31, has room for one byte more; its receive
  -- pointers are in order, and its ports and send pointer fit their fields. Both sockets have numbers below 256, windows
  -- of at most 4096 bytes and rings of 8194 cells. A packet with the bytes fits both interfaces, and the queues on the
  -- way are empty; memory has the size that was asked for. Then `v_write` takes all of the bytes; a round of
  -- `tcp_send_thread` and of `sender` puts one packet on the route's interface; when that comes in at the peer, its
  -- `listener` and a round of `tcp_thread` do not end the process; and `v_read` there, asked for as many bytes, returns
  -- the bytes that were written.
  pub v_read-v_write :
      (from to : Node H B) (s t raw : Socket) (x : ℕ) (xs : List ℕ) (i k : ℕ) (r : Entry)
      → from.socket_table s.fd ≡ some s
      → CanWrite s (suc (length xs))
      → s.remote_node < 256
      → s.remote_node ≢ h.vn_num
      → rtable_get H h.van_maxnodes from.route_table s.remote_node ≡ some k
      → H.get from.route_table k ≡ some r
      → suc (length xs) + 28 ≤ h.mtu r.iface
      → suc (length xs) + 28 ≤ h.mtu i
      → B.contents from.sending_q ≡ []
      → B.contents to.tcp_q ≡ []
      → to.socket_table t.fd ≡ some t
      → HasRoom t (suc (length xs))
      → socktable_get H to.tuple_table s.remote_node s.remote_port h.vn_num s.local_port true
        ≡ some t.fd
      → t.recv_ack ≡ s.send_next
      → let n = suc (length xs) in
        let there = peer h s.remote_node in
        (a : Node H B) × (v_write h from (pos s.fd) (x ∷ xs) n ≡ some (a, pos n))
        × (s' : Socket) × (a.socket_table s.fd ≡ some s')
        × (w : Ctx H B) × (tcp_send_step h (record { sock = s'; node = a }) ≡ some w)
        × (p : List ℕ) × ((sender_step (store s.fd w)).1 ≡ (r.iface, p) ∷ [])
        × (b : Node H B) × (listener_step there to i p ≡ some b)
        × (b' : Node H B) × (tcp_step there raw b ≡ some b')
        × (b'' : Node H B) × (v_read there b' (pos t.fd) (pos n) ≡ some (b'', pos n, x ∷ xs))
  v_read-v_write from to s t raw x xs i k r here c pd ne route entry fits fits' empty empty' there
        room found link =
      let n = suc (length xs) in
      let dst = s.remote_node in
      let (buf, copied, ready) =
        copy_data-IsReady s x xs c.sending c.all_sent c.room c.peer_room c.flow_small in
      let s' = written s buf n in
      let a = store s.fd (record { sock = s'; node = from }) in
      let win = u16 (sub32 (add32 s.recv_read s.recv_window) s.recv_next) in
      let range : InRange s.local_port s.remote_port s.send_next s.recv_ack 0 win = record {
        srcport = c.local_port;
        destport = c.remote_port;
        seqnum = omega (arith, c.sending);
        acknum = c.recv_ack;
        flags_byte = omega arith;
        window_field = omega arith;
      } in
      let (p, made, arrives) =
        listener-build_tcp_packet h host to (some (x ∷ xs)) i s.local_port s.remote_port s.send_next
          s.recv_ack 0 win dst range pd (omega (arith, c.sending, c.room)) (omega (arith, fits')) in
      let (v, between, size) =
        IsData-build_packet h (x ∷ xs) p s.local_port s.remote_port s.send_next s.recv_ack win dst
          host range pd (omega (arith, c.sending, c.room)) made in
      let q = build_packet h p (length p) dst proto_tcp in
      let b = record (arrived to i) { tcp_q = B.enqueue to.tcp_q q } in
      let (rest, first, _) = dequeue-enqueue B to.tcp_q q empty' in
      let (b', step, b'', read) =
        v_read-tcp_step (peer h dst) (peer-IsHost h dst host pd) raw b rest q x xs t s.recv_ack win
          h.vn_num s.local_port dst s.remote_port first
          (subst (λ m. IsData q m s.recv_ack win (x ∷ xs)) (sym link) v) between found there room in
      (
        a,
        v_write_lem h host from s s' (x ∷ xs) n c.small here c.current c.sending c.room copied,
        s',
        rw (==_refl s.fd),
        sent h host (record { sock = s'; node = a }) n p r,
        tcp_send_step_data h host (record { sock = s'; node = a }) n k (x ∷ xs) p r (omega arith)
            ready made ne route entry (omega (arith, size, fits))
            (omega (arith, c.sending, c.all_sent, c.room)),
        q,
        sender-queued h _ from.sending_q p dst r host pd (omega (arith, size, c.sending, c.room))
            empty refl,
        b,
        arrives,
        b',
        step,
        b'',
        read,
      )
