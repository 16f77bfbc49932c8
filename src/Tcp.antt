-- ===== src/Tcp.antt =====
-- The sending half of tcp_branch/tcp.c. `tcp_sendto` and its like return an `int`, and end the
-- process at a failed `assert`.
pub mod Keeps
pub mod Follows
use tcp_archive.Prelude.{
  ℕ, suc, ◌+◌, Option, none, some, Bool, true, false, not, ◌&&◌, bit_and, List, length, ltb, ◌==◌,
  if◌then◌else◌, ℤ, pos, negsuc, minus_one, ltb_ℤ, pos_part, ◌>>=◌, ◌>>◌, assert, u16, u32, add32,
  sub32,
}
use tcp_archive.External.{HTable, Bqueue, Host}
use tcp_archive.Cbuffer.{cbuf_put_flag}
use tcp_archive.Machine.{is_zero}
use tcp_archive.Packet.{
  build_tcp_packet, get_acknum, ip_to_tcp, proto_tcp, flag_fin, flag_syn, flag_rst, flag_ack,
}
use tcp_archive.Socket.{Socket, max_sockets}
use tcp_archive.Node.{Node, van_driver_sendto}
use tcp_archive.Tcpm.{Ctx, tcpm_reset}

-- `get_tmp_socket`: `raw` is what the memory holds that `malloc` returns.
pub get_tmp_socket : Socket → ℕ → ℕ → ℕ → ℕ → Socket
get_tmp_socket raw local_port remote_node remote_port send_window_size = record raw {
  machine_set = false;
  local_port = local_port;
  remote_node = remote_node;
  remote_port = remote_port;
  send_window = send_window_size;
}

unfoldable pub queue_up_flags : Socket → ℕ → Option Socket
queue_up_flags sock flags = cbuf_put_flag sock.s_buf sock.send_written flags >>= λ c.
    some (record sock { s_buf = c; send_written = add32 sock.send_written 1 })

-- `!!(flags & flag)`
abbrev pub has_flag : ℕ → ℕ → ℕ
has_flag flags flag = if bit_and flags flag == 0 then 0 else 1

-- The end of `tcp_sendto` and of `tcp_sendto_raw`: the sequence number, and the watchdog's timer.
unfoldable pub after_send : ℕ → Socket → ℕ → ℕ → Socket
after_send now sock size flags =
    let moved = u32 (
      sock.seq_num
      + (size + has_flag flags flag_syn + has_flag flags flag_fin + has_flag flags flag_rst)) in
    record sock {
      seq_num = moved;
      last_packet =
          if flags == flag_ack && size == 0
          then 0
          else (if sock.last_packet == 0 then now else sock.last_packet);
    }

module _ {H : HTable} {B : Bqueue} (h : Host) where
  -- `get_socket_from_int`: a null pointer for a free slot.
  unfoldable pub get_socket_from_int : Node H B → ℤ → Option (Option Socket)
  get_socket_from_int node s = do
    assert (not (ltb_ℤ s (pos 0)))
    assert (ltb (pos_part s) max_sockets)
    some (node.socket_table (pos_part s))

  unfoldable pub tcp_sendto : Ctx H B → Option (List ℕ) → ℕ → ℕ → Option (Ctx H B × ℤ)
  unfolding after_send
  tcp_sendto w payload size flags = do
    let sock = w.sock
    p ←
        build_tcp_packet h payload size sock.local_port sock.remote_port sock.send_next
          sock.recv_ack flags (u16 (sub32 (add32 sock.recv_read sock.recv_window) sock.recv_next))
          sock.remote_node
    let (node, retval) = van_driver_sendto H B h w.node p (length p) sock.remote_node proto_tcp
    some (record { node = node; sock = after_send node.now sock size flags }, retval)

  -- The one negative result of `van_driver_sendto` is -1.
  pub tcp_sendto_raw : Ctx H B → Option (List ℕ) → ℕ → ℕ → ℕ → ℕ → Option (Ctx H B × ℤ)
  unfolding after_send
  tcp_sendto_raw w payload size flags seq ack = do
    let sock = w.sock
    p ←
        build_tcp_packet h payload size sock.local_port sock.remote_port seq ack flags
          sock.send_window sock.remote_node
    let (node, retval) = van_driver_sendto H B h w.node p (length p) sock.remote_node proto_tcp
    (if ltb_ℤ retval (pos 0)
        then (tcpm_reset H B h (record w { node = node }) >>= λ w'. some (w', minus_one))
        else some (record { node = node; sock = after_send node.now sock size flags }, retval))

  -- An `ack_len` is not used.
  unfoldable pub send_packet_with_flags : Ctx H B → ℕ → Option (Ctx H B)
  unfolding tcp_sendto queue_up_flags
  send_packet_with_flags w flags =
      if flags == flag_ack
      then (tcp_sendto w none 0 flag_ack >>= λ r. some r.0)
      else (queue_up_flags w.sock flags >>= λ sock. some (record w { sock = sock }))

  pub send_dumb_packet : Ctx H B → List ℕ → ℕ → Option (Ctx H B)
  unfolding tcp_sendto_raw
  send_dumb_packet w packet flag = do
    ack ← get_acknum (ip_to_tcp packet)
    w' ←
        (if flag == flag_ack
          then (tcp_sendto_raw w none 0 flag_ack ack w.sock.recv_ack >>= λ r. some r.0)
          else some w)
    (if flag == flag_rst
        then (tcp_sendto_raw w' none 0 flag_rst ack w'.sock.recv_ack >>= λ r. some r.0)
        else some w')
