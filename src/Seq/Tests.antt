-- ===== src/Seq/Tests.antt =====
-- The theorems about tcp_branch/seq.c at concrete sockets.
use tcp_archive.Prelude.{
  ℕ, ◌+◌, ◌-◌, ◌≡◌, ◌≤◌, refl, true, some, none, List, [], ◌∷◌, ◌++◌, length, replicate,
  length-replicate, ℤ, pos, ◌&&◌, ltb, ◌==◌, if◌then◌else◌, arith, bit_and,
}
use tcp_archive.Packet.{flag_ack}
use tcp_archive.Cbuffer.{Cbuf, cbuf_get_range, get_loop, get_cell}
use tcp_archive.Cbuffer.Cells.{IsValid}
use tcp_archive.Socket.{Socket}
use tcp_archive.Seq.{
  is_valid_seq_num, amount_of_data_to_read, get_data_from_buffer, take_ack, copy_data_from_user,
}
use tcp_archive.Seq.Receive.{IsReceiving, is_valid_seq_num_ahead}
use tcp_archive.Seq.Send.{
  IsSending, take_ack-IsSending, take_ack_beyond, copy_data_from_user-IsSending,
  copy_data_from_user_full,
}
use tcp_archive.Seq.Fuel.{HasRead, get_data_total}

abbrev ring : Cbuf
ring = record { bytes = replicate 16388 0; size = 8194 }

ring-IsValid : IsValid ring
ring-IsValid = record {
  pos_size = omega arith;
  int_size = omega arith;
  room = length-replicate {A = ℕ} 16388 0;
}

abbrev two : List ℕ
two = 8 ∷ 9 ∷ []

-- Everything up to byte 100 is acknowledged and read, and up to byte 500 written and sent; byte 400
-- is the first that is not acknowledged. Both windows are 4096 bytes.
abbrev sock : Socket
sock = record {
  machine = record { current = 4; prev = 1; root = 0 };
  machine_set = true;
  can_handshake = true;
  fd = 0;
  seq_num = 0;
  ack_num = 0;
  last_ack = 0;
  local_port = 80;
  remote_node = 5;
  remote_port = 90;
  cond_status = 0;
  new_fd = pos 0;
  parent = none;
  r_buf = ring;
  s_buf = ring;
  send_una = 400;
  send_next = 500;
  send_written = 500;
  remote_flow_window = 4496;
  recv_ack = 100;
  recv_next = 100;
  recv_read = 100;
  recv_window = 4096;
  send_window = 4096;
  last_packet = 0;
  time_wait_time = 0;
  ufunc_timeout = 0;
}

-- All of the send window is written.
abbrev full_sock : Socket
full_sock = record sock { send_written = 4496 }

sock-IsReceiving : IsReceiving sock
sock-IsReceiving = record {
  ring = ring-IsValid;
  ring_size = refl;
  window_small = omega arith;
  read_le_ack = omega arith;
  ack_le_next = omega arith;
  next_le_end = omega arith;
  no_wrap = omega arith;
}

sock-IsSending : IsSending sock
sock-IsSending = record {
  ring = ring-IsValid;
  ring_size = refl;
  window_small = omega arith;
  una_le_written = omega arith;
  next_le_written = omega arith;
  written_le_end = omega arith;
  no_wrap = omega arith;
}

full_sock-IsSending : IsSending full_sock
full_sock-IsSending = record {
  ring = ring-IsValid;
  ring_size = refl;
  window_small = omega arith;
  una_le_written = omega arith;
  next_le_written = omega arith;
  written_le_end = omega arith;
  no_wrap = omega arith;
}

is_valid_seq_num_ahead_example :
    let room = sock.recv_read + sock.recv_window - sock.recv_ack in
    is_valid_seq_num sock (sock.recv_ack + 10) 20 ≡ (ltb 10 room && ltb (10 + 20) room)
is_valid_seq_num_ahead_example = is_valid_seq_num_ahead sock 10 20 sock-IsReceiving (omega arith)

take_ack-IsSending_example :
    let s' = take_ack sock 16 450 in
    IsSending s'
    × (sock.send_una ≤ s'.send_una)
    × (s'.send_una
        ≡ (if bit_and 16 flag_ack == flag_ack && ltb sock.send_una 450 then 450 else sock.send_una))
take_ack-IsSending_example =
    take_ack-IsSending sock 16 450 sock-IsSending (omega arith) (omega arith)

take_ack_beyond_example : let s' = take_ack sock 16 501 in (s'.send_una ≡ 501) × (¬ IsSending s')
take_ack_beyond_example = take_ack_beyond sock 16 501 sock-IsSending refl (omega arith)

copy_data_from_user-IsSending_example :
    (s' : Socket) × (copy_data_from_user sock (two ++ []) (length two) ≡ some s')
    × IsSending s'
    × (s'.send_written ≡ sock.send_written + length two)
copy_data_from_user-IsSending_example =
    copy_data_from_user-IsSending sock two [] sock-IsSending (omega arith) (omega arith)

copy_data_from_user_full_example : copy_data_from_user full_sock two 0 ≡ none
copy_data_from_user_full_example = copy_data_from_user_full full_sock two 0 full_sock-IsSending refl

-- Two flags stand before two bytes of data, and a read goes behind both.
abbrev flagged : Socket
flagged = record sock {
  r_buf = record { bytes = 2 ∷ 16 ∷ 2 ∷ 1 ∷ 1 ∷ 7 ∷ 1 ∷ 8 ∷ replicate 8 1; size = 8 };
  recv_ack = 4;
  recv_next = 4;
  recv_read = 0;
}

behind_flags :
    get_data_from_buffer 5 flagged (pos 2)
    ≡ some (record flagged { recv_read = 4 }, pos 2, 7 ∷ 8 ∷ [])
unfolding get_data_from_buffer amount_of_data_to_read cbuf_get_range get_loop get_cell
behind_flags = refl

get_data_total_example :
    (r : Socket × ℤ × List ℕ) × (get_data_from_buffer 5 flagged (pos 2) ≡ some r)
    × HasRead flagged 2 r
get_data_total_example =
    get_data_total 5 flagged 2
      (record { pos_size = omega arith; int_size = omega arith; room = refl }) (omega arith)
      (omega arith) (omega arith) (omega arith)
