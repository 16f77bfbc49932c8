-- ===== src/Driver.antt =====
-- The TCP threads of tcp_branch/van_driver.c. Each function is one round of a thread's loop, or the
-- part of it for one socket; `none` is the end of the process.
pub mod Follows
pub mod Sound
pub mod Timeout
pub mod Receive
use tcp_archive.Prelude.{
  ℕ, zero, suc, ◌+◌, Option, none, some, Bool, true, false, not, ◌&&◌, bit_and, List, drop, ltb,
  leb, ◌==◌, if◌then◌else◌, pos, pos_part, ltb_ℤ, ◌>>=◌, ◌>>◌, assert, u8, add32,
}
use tcp_archive.External.{HTable, Bqueue, Host}
use tcp_archive.Packet.{
  get_seqnum, get_window, get_srcport, get_destport, get_src, get_dst, get_flags, get_data_len,
  ip_to_tcp, is_control, is_data, tcp_header_size, flag_ack, flag_rst,
}
use tcp_archive.Socket.{Socket, send_window_size, max_sockets}
use tcp_archive.Socktable.{socktable_get, socktable_put}
use tcp_archive.Seq.{
  is_valid_seq_num, is_old_seq_num, update_from_window_announce, process_packet_for_ack, ack_data,
  have_room_to_receive, data_from_network_to_buffer, send_flag_next, get_flag_to_send,
  get_amount_able_to_send, data_from_buffer_to_network,
}
use tcp_archive.Node.{Node}
use tcp_archive.Tcpm.{Ctx, packet, null, next_rand, tcpm_state, tcpm_canrecv, tcpm_reset, tcpm_new}
use tcp_archive.Tcpm.Names.{st_closed, st_syn_sent, st_syn_rcvd, st_time_wait, on_timeout}
use tcp_archive.Tcp.{get_tmp_socket, tcp_sendto, send_packet_with_flags, send_dumb_packet}
use tcp_archive.Statefunc.{packet_arg, null_arg, tuple_of, tcpm_event, tcpm_packet_to_input}

-- CONNECT_TIMEOUT_TIME
abbrev pub connect_timeout_time : ℕ
connect_timeout_time = 30

-- The first free slot from `x` on, of `count` slots.
abbrev pub free_slot : (ℕ → Option Socket) → ℕ → ℕ → Option ℕ
free_slot table zero x = none
free_slot table (suc count) x =
    let rest = free_slot table count (suc x) in elim (table x) [ none ↦ some x | some s ↦ rest ]

-- What `do_recv_tcp` does with a segment in the window before the state machine sees it.
pub take_segment : Socket → List ℕ → Option Socket
take_segment sock p = do
  window ← get_window (ip_to_tcp p)
  sock' ← process_packet_for_ack (update_from_window_announce sock window) p
  control ← is_control p
  some (if control then ack_data sock' 1 else sock')

-- The timer of unacknowledged data.
pub watch_packet : ℕ → Socket → Socket
watch_packet now sock =
    if ltb 0 sock.last_packet && ltb (sock.last_packet + 4) now
    then record sock { send_next = sock.send_una; last_packet = 0 }
    else sock

module _ {H : HTable} {B : Bqueue} where
  -- The socket in focus back into the table of its node.
  abbrev pub store : ℕ → Ctx H B → Node H B
  store fd w = record w.node {
    socket_table = λ i. if i == fd then some w.sock else w.node.socket_table i;
  }

module _ {H : HTable} {B : Bqueue} (h : Host) where
  -- `sys_socket` of tcp.c: the number of the new socket, or -1 as `none`. `raw` is what the memory
  -- of the new socket holds.
  unfoldable pub sys_socket : Socket → Bool → Node H B → Option (Node H B × Option ℕ)
  sys_socket raw clone node = elim (free_slot node.socket_table max_sockets 0) [
    | none ↦ some (node, none)
    | some s ↦
        (let sock = record raw { fd = s; machine_set = false } in
          tcpm_new H B h clone
            (record { sock = sock; node = store s (record { sock = sock; node = node }) })
          >>= λ w. some (store s w, some s))
  ]

  -- `ackThisPacket`
  pub ack_this_packet : Ctx H B → ℕ → Option (Ctx H B)
  ack_this_packet w len =
      send_packet_with_flags h (record w { sock = ack_data w.sock len }) flag_ack

  -- What `do_recv_tcp` does with the segment's data then, and with an old segment.
  pub take_data : Ctx H B → List ℕ → ℕ → Option (Ctx H B)
  unfolding ack_this_packet
  take_data w p data_size = do
    has_data ← is_data p
    (if has_data && have_room_to_receive w.sock data_size && tcpm_canrecv w.sock
        then (data_from_network_to_buffer w.sock (drop tcp_header_size (ip_to_tcp p)) data_size
            >>= λ sock. ack_this_packet (record w { sock = sock }) data_size)
        else some w)

  pub repeat_ack : Ctx H B → List ℕ → Option (Ctx H B)
  repeat_ack w p = do
    window ← get_window (ip_to_tcp p)
    let w' = record w { sock = update_from_window_announce w.sock window }
    (if tcpm_state w'.sock == st_syn_rcvd then some w' else send_dumb_packet h w' p flag_ack)

  pub do_recv_tcp : Ctx H B → List ℕ → Option (Ctx H B)
  unfolding take_segment take_data repeat_ack
  do_recv_tcp w p = do
    seq_num ← get_seqnum (ip_to_tcp p)
    data_size ← get_data_len p
    (if is_valid_seq_num w.sock seq_num data_size
        then (take_segment w.sock p >>= λ sock. tcpm_packet_to_input (ip_to_tcp p) >>= λ input.
            tcpm_event H B h input (packet_arg p) (packet p) (record w { sock = sock }) >>= λ r.
            take_data r.0 p data_size)
        else (if is_old_seq_num w.sock seq_num
            then repeat_ack w p
            else send_dumb_packet h w p flag_rst))

  -- `tcp_watchdog` for one socket: the timers of TIME_WAIT and of a connect.
  pub watch_time_wait : Ctx H B → Option (Ctx H B)
  watch_time_wait w =
      if tcpm_state w.sock == st_time_wait && ltb (w.sock.time_wait_time + 4) w.node.now
      then (tcpm_event H B h on_timeout null_arg null w >>= λ r. some r.0)
      else some w

  pub watch_connect : Ctx H B → Option (Ctx H B)
  watch_connect w =
      if ltb 0 w.sock.ufunc_timeout
        && ltb (w.sock.ufunc_timeout + connect_timeout_time) w.node.now
        && tcpm_state w.sock == st_syn_sent
      then tcpm_reset H B h w
      else some w

  pub tcp_watchdog : Ctx H B → Option (Ctx H B)
  unfolding watch_time_wait watch_packet watch_connect
  tcp_watchdog w = do
    let sock = if tcpm_state w.sock == st_closed then record w.sock { last_packet = 0 } else w.sock
    w' ← watch_time_wait (record w { sock = sock })
    watch_connect (record w' { sock = watch_packet w'.node.now w'.sock })

  -- `tcp_send_thread` for one socket.
  unfoldable pub send_data : Ctx H B → ℕ → Option (Ctx H B)
  send_data w amount = do
    (returned, bytes) ← data_from_buffer_to_network w.sock amount
    assert (not (ltb_ℤ returned (pos 0)) && pos_part returned == amount)
    (w', retval) ← tcp_sendto h w (some bytes) amount 0
    let next = add32 w'.sock.send_next amount
    assert (leb next w'.sock.send_written)
    some (record w' { sock = record w'.sock { send_next = next } })

  pub send_flag : Ctx H B → Option (Ctx H B)
  send_flag w = do
    flags ← get_flag_to_send w.sock
    (w', retval) ← tcp_sendto h w none 0 (u8 flags)
    some (record w' { sock = record w'.sock { send_next = add32 w'.sock.send_next 1 } })

  unfoldable pub tcp_send_step : Ctx H B → Option (Ctx H B)
  unfolding send_data send_flag
  tcp_send_step w = do
    amount ← get_amount_able_to_send w.sock
    (if not (ltb_ℤ amount (pos 0)) && pos_part amount == 0
        then some w
        else (send_flag_next w.sock >>= λ flag.
            if flag
            then send_flag w
            else (if ltb_ℤ (pos 0) amount then send_data w (pos_part amount) else some w)))

  -- The new socket `fd` of `tcp_thread`, made like the socket `old` for a segment from a node and port.
  pub connect_child : Node H B → Socket → ℕ → ℕ → ℕ → ℕ → Option (Ctx H B)
  connect_child node old fd src src_port seq = do
    sock ← node.socket_table fd
    let (node', r) = next_rand node
    let sock' = record sock {
      parent = some old.fd;
      local_port = old.local_port;
      remote_port = src_port;
      remote_node = src;
      seq_num = r;
      send_una = r;
      send_next = r;
      send_written = r;
      recv_ack = seq;
      recv_next = seq;
      recv_read = seq;
    }
    some (record {
      sock = sock';
      node = record node' {
        tuple_table = (socktable_put H node'.tuple_table (tuple_of h sock') fd true).0;
      };
    })

  -- The new socket of `tcp_thread` for a segment to the listening socket `old`, which is told its number.
  pub open_child : Socket → Node H B → Socket → ℕ → ℕ → ℕ → Option (Ctx H B)
  unfolding sys_socket connect_child
  open_child raw node old src src_port seq = do
    (node₁, new_fd) ← sys_socket raw true node
    fd ← new_fd
    old' ← node₁.socket_table old.fd
    let told = record old' { new_fd = pos fd }
    connect_child (store old.fd (record { node = node₁; sock = told })) old fd src src_port seq

  -- `send_dumb_packet` of a reset on a socket that is made for it, and is no socket of the node.
  pub refuse : Socket → Node H B → List ℕ → ℕ → ℕ → ℕ → Option (Node H B)
  refuse raw node p dest_port src src_port =
      send_dumb_packet h
        (record { sock = get_tmp_socket raw dest_port src src_port send_window_size; node = node })
        p flag_rst
      >>= λ w. some w.node

  -- The end of a round of `tcp_thread`, with the socket of the segment.
  unfoldable pub deliver : Ctx H B → List ℕ → ℕ → Option (Node H B)
  unfolding do_recv_tcp
  deliver w p flags = do
    w' ← (if bit_and flags flag_rst == 0 then do_recv_tcp w p else tcpm_reset H B h w)
    some (store w.sock.fd w')

  -- `tcp_thread` for the packet `p` that it took from its queue.
  unfoldable pub tcp_handle : Socket → Node H B → List ℕ → Option (Node H B)
  unfolding deliver open_child refuse
  tcp_handle raw node p = do
    src_port ← get_srcport (ip_to_tcp p)
    dest_port ← get_destport (ip_to_tcp p)
    src ← get_src p
    dest ← get_dst p
    flags ← get_flags (ip_to_tcp p)
    seq ← get_seqnum (ip_to_tcp p)
    elim (socktable_get H node.tuple_table dest dest_port src src_port true) [
      | some fd ↦
          (node.socket_table fd >>= λ sock. deliver (record { sock = sock; node = node }) p flags)
      | none ↦ elim (socktable_get H node.tuple_table dest dest_port 0 0 false) [
        | none ↦ refuse raw node p dest_port src src_port
        | some fd ↦
            (node.socket_table fd >>= λ old.
            if old.can_handshake
            then (open_child raw node old src src_port seq >>= λ w. deliver w p flags)
            else refuse raw node p dest_port src src_port)
      ]
    ]

  -- A round of `tcp_thread`; at an empty queue it waits.
  unfoldable pub tcp_step : Socket → Node H B → Option (Node H B)
  unfolding tcp_handle
  tcp_step raw node = elim (B.dequeue node.tcp_q) [
    | none ↦ some node
    | some (p, q) ↦ tcp_handle raw (record node { tcp_q = q }) p
  ]
