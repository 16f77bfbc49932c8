-- ===== src/Tcp/Keeps.antt =====
-- The sends of tcp_branch/tcp.c that a transition makes leave alone what the node's tables rely on.
use tcp_archive.Prelude.{
  ℕ, ◌+◌, ◌≡◌, refl, sym, ap, Option, none, some, List, ltb, ◌==◌, ℤ, inl, inr, Bool-cases,
  Option-cases, >>=-eq-some, some_injective, u16, add32, sub32, length, ◌>>=◌,
}
use tcp_archive.External.{HTable, Bqueue, Host}
use tcp_archive.Cbuffer.{cbuf_put_flag}
use tcp_archive.Node.{Node, van_driver_sendto}
use tcp_archive.Packet.{flag_ack, build_tcp_packet, proto_tcp, header_size}
use tcp_archive.Rtable.{rtable_get}
use tcp_archive.Socket.{Socket}
use tcp_archive.Tcpm.{Ctx}
use tcp_archive.Tcpm.Keeps.{Keeps, Keeps-some, Keeps-sock, regs}
use tcp_archive.Tcp.{tcp_sendto, after_send, queue_up_flags, send_packet_with_flags}

module _ {H : HTable} {B : Bqueue} (h : Host) where
  -- `van_driver_sendto` does not touch the sockets.
  pub van_driver_sendto-keeps :
      (node : Node H B) (buf : List ℕ) (size to proto : ℕ)
      → (van_driver_sendto H B h node buf size to proto).0.socket_table ≡ node.socket_table
  unfolding van_driver_sendto
  van_driver_sendto-keeps node buf size to proto = elim (Bool-cases (to == h.vn_num)) [
    | inl p ↦ rw p
    | inr p ↦
        elim (Option-cases
          (rtable_get H h.van_maxnodes node.route_table to >>= H.get node.route_table)) [
            | inl q ↦ rw (p, q)
            | inr (r, q) ↦ elim (Bool-cases (ltb (h.mtu r.iface) (size + header_size))) [
              | inl z ↦ rw (p, q) (rw z)
              | inr z ↦ rw (p, q) (rw z)
            ]
          ]
  ]

  pub sent-Keeps :
      (w : Ctx H B) (p : List ℕ) (s : Socket)
      → regs s ≡ regs w.sock
      → Keeps w (record {
        sock = s;
        node = (van_driver_sendto H B h w.node p (length p) w.sock.remote_node proto_tcp).0;
      })
  sent-Keeps w p s e =
      let t = van_driver_sendto-keeps w.node p (length p) w.sock.remote_node proto_tcp in
      record { focus = e; table = λ i. rw t }

  pub tcp_sendto-Keeps :
      (w : Ctx H B) (d : Option (List ℕ)) (n f : ℕ) (v : Ctx H B × ℤ)
      → tcp_sendto h w d n f ≡ some v
      → Keeps w v.0
  unfolding tcp_sendto after_send
  tcp_sendto-Keeps w d n f v e =
      let sock = w.sock in
      let (p, a, b) =
        >>=-eq-some
          (build_tcp_packet h d n sock.local_port sock.remote_port sock.send_next sock.recv_ack f
            (u16 (sub32 (add32 sock.recv_read sock.recv_window) sock.recv_next)) sock.remote_node)
          _ e in
      Keeps-some (ap (λ z. some z.0) (some_injective b)) (sent-Keeps w p _ refl)

  pub send_packet_with_flags-Keeps :
      (w w' : Ctx H B) (f : ℕ) → send_packet_with_flags h w f ≡ some w' → Keeps w w'
  unfolding send_packet_with_flags queue_up_flags
  send_packet_with_flags-Keeps w w' f e = elim (Bool-cases (f == flag_ack)) [
    | inl p ↦
        (let (v, a, b) = >>=-eq-some (tcp_sendto h w none 0 flag_ack) _ (rw p at e) in
          Keeps-some b (tcp_sendto-Keeps w none 0 flag_ack v a))
    | inr p ↦
        (let (s, a, b) = >>=-eq-some (queue_up_flags w.sock f) _ (rw p at e) in
          let (c, a', b') = >>=-eq-some (cbuf_put_flag w.sock.s_buf w.sock.send_written f) _ a in
          Keeps-some b (Keeps-sock s (sym (ap regs (some_injective b')))))
  ]
