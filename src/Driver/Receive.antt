-- ===== src/Driver/Receive.antt =====
-- `do_recv_tcp` of tcp_branch/van_driver.c on the next segment of data of an established connection.
use tcp_archive.Prelude.{
  ℕ, ◌+◌, ◌-◌, ◌<◌, ◌≤◌, ◌≡◌, refl, ◌∙◌, ap, none, some, true, List, length, drop, le→leb, lt→ltb,
  ◌==◌, arith, add32, sub32, u16, inl,
}
use tcp_archive.External.{HTable, Bqueue, Host, IsHost}
use tcp_archive.Cbuffer.{Cbuf, cbuf_put_range}
use tcp_archive.Packet.{
  get_seqnum, get_acknum, get_window, get_flags, get_data_len, ip_to_tcp, is_control, is_data,
  tcp_header_size, build_tcp_packet, flag_ack, proto_tcp,
}
use tcp_archive.Packet.Tcp.{build_eq}
use tcp_archive.Socket.{Socket}
use tcp_archive.Seq.{
  recv_end, is_valid_seq_num, update_from_window_announce, process_packet_for_ack, take_ack,
  ack_data, have_room_to_receive, data_from_network_to_buffer,
}
use tcp_archive.Seq.Receive.{IsReceiving, is_valid_seq_num_ahead}
use tcp_archive.Node.{van_driver_sendto}
use tcp_archive.Tcpm.{Ctx, packet, tcpm_state, tcpm_canrecv}
use tcp_archive.Tcpm.Names.{st_estab, on_none}
use tcp_archive.Tcp.{tcp_sendto, after_send, send_packet_with_flags}
use tcp_archive.Statefunc.{tcpm_packet_to_input, packet_arg}
use tcp_archive.Statefunc.Quiet.{stayed, tcpm_event_quiet}
use tcp_archive.Driver.{take_segment, take_data, ack_this_packet, do_recv_tcp}

-- A segment without flags, with data.
pub record IsData (p : List ℕ) (seq ack win : ℕ) (bytes : List ℕ) : Type 0 where
  pub seqnum : get_seqnum (ip_to_tcp p) ≡ some seq
  pub acknum : get_acknum (ip_to_tcp p) ≡ some ack
  pub window : get_window (ip_to_tcp p) ≡ some win
  pub flags : get_flags (ip_to_tcp p) ≡ some 0
  pub data_len : get_data_len p ≡ some (length bytes)
  pub payload : drop tcp_header_size (ip_to_tcp p) ≡ bytes

-- A socket that can send an acknowledgement.
pub record CanSend (s : Socket) : Type 0 where
  pub local_port : s.local_port < 65536
  pub remote_port : s.remote_port < 65536
  pub send_next : s.send_next < 4294967296

take_segment_data :
    (s : Socket) (p bytes : List ℕ) (seq ack win : ℕ)
    → IsData p seq ack win bytes
    → take_segment s p ≡ some (update_from_window_announce s win)
unfolding take_segment process_packet_for_ack take_ack is_control
take_segment_data s p bytes seq ack win v = rw (v.window, v.flags, v.acknum)

input_data :
    (p bytes : List ℕ) (seq ack win : ℕ)
    → IsData p seq ack win bytes
    → tcpm_packet_to_input (ip_to_tcp p) ≡ some on_none
unfolding tcpm_packet_to_input
input_data p bytes seq ack win v = rw (v.flags)

is_data_data :
    (p bytes : List ℕ) (seq ack win : ℕ)
    → IsData p seq ack win bytes
    → 0 < length bytes
    → length bytes < 4097
    → is_data p ≡ some true
unfolding is_data is_control
is_data_data p bytes seq ack win v some' less = rw (
  v.flags,
  v.data_len,
  lt→ltb 0 (length bytes) some',
  lt→ltb (length bytes) 2147483648 (omega (arith, less)),
)

-- What the socket is after the segment's data is stored and acknowledged.
pub record HasReceived (s s' : Socket) (c : Cbuf) (n : ℕ) : Type 0 where
  pub fd : s'.fd ≡ s.fd
  pub current : s'.machine.current ≡ st_estab
  pub r_buf : s'.r_buf ≡ c
  pub recv_next : s'.recv_next ≡ add32 s.recv_next n
  pub recv_ack : s'.recv_ack ≡ add32 s.recv_ack n
  pub recv_read : s'.recv_read ≡ s.recv_read
  pub recv_window : s'.recv_window ≡ s.recv_window

module _ {H : HTable} {B : Bqueue} (h : Host) (host : IsHost h) where
  -- An acknowledgement goes out.
  acknowledged : Ctx H B → ℕ → List ℕ → Ctx H B
  acknowledged w n p =
      let s = ack_data w.sock n in
      let node = (van_driver_sendto H B h w.node p (length p) s.remote_node proto_tcp).0 in
      record { node = node; sock = after_send node.now s 0 flag_ack }

  ack_sent :
      (w : Ctx H B) (n : ℕ) (p : List ℕ)
      → let s = ack_data w.sock n in
        build_tcp_packet h none 0 s.local_port s.remote_port s.send_next s.recv_ack flag_ack
            (u16 (sub32 (add32 s.recv_read s.recv_window) s.recv_next))
            s.remote_node
          ≡ some p
        → ack_this_packet h w n ≡ some (acknowledged w n p)
  unfolding ack_this_packet send_packet_with_flags tcp_sendto acknowledged
  ack_sent w n p e = rw e

  ack_this_packet_lem :
      (w : Ctx H B) (n : ℕ)
      → CanSend w.sock
      → (p : List ℕ) × (ack_this_packet h w n ≡ some (acknowledged w n p))
  unfolding ack_data
  ack_this_packet_lem w n v =
      let s = ack_data w.sock n in
      (
        _,
        ack_sent w n _ (
            build_eq h none {sp = s.local_port} {dp = s.remote_port} {seq = s.send_next}
              {ack = s.recv_ack} {flags = flag_ack}
              {window = u16 (sub32 (add32 s.recv_read s.recv_window) s.recv_next)} s.remote_node
              host
              (record {
                srcport = v.local_port;
                destport = v.remote_port;
                seqnum = v.send_next;
                acknum = omega arith;
                flags_byte = omega arith;
                window_field = omega arith;
              })),
      )

  take_data_lem :
      (w : Ctx H B) (p bytes : List ℕ) (seq ack win : ℕ) (c : Cbuf)
      → IsData p seq ack win bytes
      → 0 < length bytes
      → length bytes < 4097
      → w.sock.machine.current ≡ st_estab
      → length bytes ≤ sub32 (recv_end w.sock) w.sock.recv_next
      → cbuf_put_range w.sock.r_buf bytes w.sock.recv_next (length bytes) ≡ some c
      → CanSend w.sock
      → (w' : Ctx H B) × (take_data h w p (length bytes) ≡ some w')
        × HasReceived w.sock w'.sock c (length bytes)
  unfolding take_data have_room_to_receive data_from_network_to_buffer tcpm_canrecv tcpm_state
      acknowledged after_send ack_data
  take_data_lem w p bytes seq ack win c v some' less at room put can =
      let n = length bytes in
      let w₁ : Ctx H B = record w { sock = record w.sock { r_buf = c } } in
      let (q, e) = ack_this_packet_lem w₁ n (record {
        local_port = can.local_port;
        remote_port = can.remote_port;
        send_next = can.send_next;
      }) in
      let open' : (w.sock.machine.current == st_estab) ≡ true = ap (λ k. k == st_estab) at in
      (
        acknowledged w₁ n q,
        rw
            (
              is_data_data p bytes seq ack win v some' less,
              le→leb n (sub32 (recv_end w.sock) w.sock.recv_next) room,
              open',
            )
            (rw (v.payload, put) e),
        record {
          fd = refl;
          current = at;
          r_buf = refl;
          recv_next = refl;
          recv_ack = refl;
          recv_read = refl;
          recv_window = refl;
        },
      )

  pub do_recv_tcp_data :
      (w : Ctx H B) (p bytes : List ℕ) (ack win : ℕ) (c : Cbuf)
      → IsData p w.sock.recv_ack ack win bytes
      → IsReceiving w.sock
      → w.sock.recv_ack ≡ w.sock.recv_next
      → 0 < length bytes
      → length bytes < w.sock.recv_read + w.sock.recv_window - w.sock.recv_next
      → w.sock.machine_set ≡ true
      → w.sock.machine.current ≡ st_estab
      → CanSend w.sock
      → cbuf_put_range w.sock.r_buf bytes w.sock.recv_next (length bytes) ≡ some c
      → (w' : Ctx H B) × (do_recv_tcp h w p ≡ some w') × HasReceived w.sock w'.sock c (length bytes)
  unfolding do_recv_tcp update_from_window_announce
  do_recv_tcp_data w p bytes ack win c v r same some' room set at can put =
      let n = length bytes in
      let s = w.sock in
      let w₁ : Ctx H B = record w { sock = update_from_window_announce s win } in
      let less : n < 4097 = omega (arith, r, room) in
      let ahead = is_valid_seq_num_ahead s 0 n r (omega (arith, less)) in
      let valid : is_valid_seq_num s s.recv_ack n ≡ true =
        ap (λ k. is_valid_seq_num s k n) {x = s.recv_ack} {y = s.recv_ack + 0} (omega arith)
        ∙ ahead
        ∙ rw (
          lt→ltb 0 (s.recv_read + s.recv_window - s.recv_ack) (omega (arith, same, room)),
          lt→ltb (0 + n) (s.recv_read + s.recv_window - s.recv_ack) (omega (arith, same, room)),
        ) in
      let quiet = tcpm_event_quiet H B h on_none (packet_arg p) (packet p) w₁ set at (inl refl) in
      let (w', e, got) =
        take_data_lem (stayed H B h w₁) p bytes s.recv_ack ack win c v some' less refl
          (omega (arith, r, room)) put
          (record {
            local_port = can.local_port;
            remote_port = can.remote_port;
            send_next = can.send_next;
          }) in
      (
        w',
        rw (v.seqnum, v.data_len)
            (rw
              (
                valid,
                take_segment_data s p bytes s.recv_ack ack win v,
                input_data p bytes s.recv_ack ack win v,
              )
              (rw quiet e)),
        record {
          fd = got.fd;
          current = got.current;
          r_buf = got.r_buf;
          recv_next = got.recv_next;
          recv_ack = got.recv_ack;
          recv_read = got.recv_read;
          recv_window = got.recv_window;
        },
      )
