-- ===== src/Node/Sample.antt =====
-- A concrete node and a concrete socket, for the tests.
use tcp_archive.Prelude.{true, none, false, [], replicate, pos, minus_one}
use tcp_archive.External.Concrete.{assoc_table, list_queue}
use tcp_archive.Cbuffer.{Cbuf}
use tcp_archive.Socket.{Socket}
use tcp_archive.Node.{Node}

-- A node with no sockets in its tables.
abbrev pub sample_node : Node assoc_table list_queue
sample_node = record {
  socket_table = λ i. none;
  tuple_table = [];
  route_table = [];
  ifaces = λ i. record { cur_state = true; peer = minus_one; age = 0; timed_out = false };
  sending_q = [];
  receiving_q = [];
  rip_q = [];
  tcp_q = [];
  now = 1000;
  rands = λ i. i;
  drawn = 0;
}

abbrev pub sample_ring : Cbuf
sample_ring = record { bytes = replicate 16388 0; size = 8194 }

-- An established connection, which was in that state before, too.
abbrev pub sample_sock : Socket
sample_sock = record {
  machine = record { current = 4; prev = 4; root = 0 };
  machine_set = true;
  can_handshake = true;
  fd = 0;
  seq_num = 0;
  ack_num = 0;
  last_ack = 0;
  local_port = 80;
  remote_node = 5;
  remote_port = 90;
  cond_status = 0;
  new_fd = pos 0;
  parent = none;
  r_buf = sample_ring;
  s_buf = sample_ring;
  send_una = 400;
  send_next = 500;
  send_written = 500;
  remote_flow_window = 4496;
  recv_ack = 100;
  recv_next = 100;
  recv_read = 100;
  recv_window = 4096;
  send_window = 4096;
  last_packet = 0;
  time_wait_time = 0;
  ufunc_timeout = 0;
}
