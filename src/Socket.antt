-- ===== src/Socket.antt =====
-- `tcp_socket_t` of tcp_branch/tcp.h, and tcp_branch/notify.h and tcp_branch/notify.c. The mutexes and
-- the condition variable are left out: each operation is one step. The local node is always the one
-- node. `time_t` values are seconds, and 0 is off.
use tcp_archive.Prelude.{ℕ, Option, none, some, Bool, not, bit_and, ◌==◌, if◌then◌else◌, ℤ}
use tcp_archive.Cbuffer.{Cbuf}
use tcp_archive.Machine.{Machine}

-- SEND_WINDOW_SIZE and MAXSOCKETS of tcppacket.h
abbrev pub send_window_size : ℕ
send_window_size = 4096

abbrev pub max_sockets : ℕ
max_sockets = 256

-- TCP_OK, TCP_ERROR and TCP_TIMEOUT
abbrev pub tcp_ok : ℕ
tcp_ok = 1

abbrev pub tcp_error : ℕ
tcp_error = 2

abbrev pub tcp_timeout : ℕ
tcp_timeout = 4

-- A pointer to another socket is its number, `fd`. `machine_set` tells whether the pointer to the
-- machine was ever set; `machine` is the machine that it points to.
pub record Socket : Type 0 where
  pub machine : Machine
  pub machine_set : Bool
  pub can_handshake : Bool
  pub fd : ℕ
  pub seq_num : ℕ
  pub ack_num : ℕ
  pub last_ack : ℕ
  pub local_port : ℕ
  pub remote_node : ℕ
  pub remote_port : ℕ
  pub cond_status : ℕ
  pub new_fd : ℤ
  pub parent : Option ℕ
  pub r_buf : Cbuf
  pub s_buf : Cbuf
  pub send_una : ℕ
  pub send_next : ℕ
  pub send_written : ℕ
  pub remote_flow_window : ℕ
  pub recv_ack : ℕ
  pub recv_next : ℕ
  pub recv_read : ℕ
  pub recv_window : ℕ
  pub send_window : ℕ
  pub last_packet : ℕ
  pub time_wait_time : ℕ
  pub ufunc_timeout : ℕ

-- `notify`
unfoldable pub notify : Socket → ℕ → Socket
notify sock status = record sock { cond_status = status }

unfoldable pub has_status : ℕ → ℕ → Bool
has_status want have = not (bit_and want have == 0)

-- `wait_for_event`: the status and the socket with it cleared, or `none` where the caller sleeps on.
unfoldable pub wait_for_event : Socket → ℕ → Option (ℕ × Socket)
unfolding has_status
wait_for_event sock status_bits =
    if has_status status_bits sock.cond_status
    then some (sock.cond_status, record sock { cond_status = 0 })
    else none
