-- ===== src/Older/Calls/Tests.antt =====
-- The older seq.c and its calls at a concrete socket.
use tcp_archive.Prelude.{◌≡◌, refl, some, [], ◌∷◌, replicate, arith, inl, ◌>>=◌, pos}
use tcp_archive.Cbuffer.{Cbuf, before, get_cell}
use tcp_archive.Cbuffer.Cells.{IsValid}
use tcp_archive.Node.Sample as Sample
use tcp_archive.Seq as NewSeq
use tcp_archive.Older.Seq.{
  Socket, int_min, get_amount_able_to_accept, int_cmp, is_valid_seq_num, have_room_to_receive,
  data_from_network_to_buffer, ack_data, copy_data_from_user, get_amount_able_to_send,
  send_flag_next, data_from_buffer_to_network,
}
use tcp_archive.Older.Seq.Agree.{newer, sending_agrees, segments_agree, IsInOrder, SendsCell}
use tcp_archive.Older.Calls.{v_read, v_write, v_read-data_from_network, data_from_buffer-v_write}

-- Sixteen cells of data, and a window of six bytes on either side.
abbrev ring : Cbuf
ring = record { bytes = replicate 32 1; size = 16 }

ring-IsValid : IsValid ring
ring-IsValid = record { pos_size = omega arith; int_size = omega arith; room = refl }

abbrev sock : Socket
sock = record {
  seq_num = 100;
  last_ack = 0;
  r_buf = ring;
  s_buf = ring;
  send_una = 100;
  send_next = 100;
  send_written = 100;
  remote_flow_window = 106;
  recv_next = 1001;
  recv_read = 1001;
  recv_window = 6;
  send_window = 6;
}

-- Positions behind 2 ^ 31 are negative numbers, and come before those at the start.
negative_before : int_cmp ring 4294967295 1 ≡ before
unfolding int_cmp
negative_before = refl

takes : 3 ≡ int_min (get_amount_able_to_accept sock) 3
unfolding get_amount_able_to_accept
takes = refl

abbrev waits : Socket
waits = record sock { send_written = 102 }

waits-IsInOrder : IsInOrder waits
waits-IsInOrder = record {
  s_ring = ring-IsValid;
  next_le_written = omega arith;
  next_le_flow = omega arith;
  written_le_end = omega arith;
  end_small = omega arith;
  flow_small = omega arith;
}

waits-SendsCell : SendsCell waits
unfolding get_cell
waits-SendsCell = (1, 1, refl, inl refl)

sending_agrees_example :
    ((copy_data_from_user waits (7 ∷ 8 ∷ []) 2 >>= λ o'. some (newer Sample.sample_sock o'))
      ≡ NewSeq.copy_data_from_user (newer Sample.sample_sock waits) (7 ∷ 8 ∷ []) 2)
    × (get_amount_able_to_send waits
        ≡ NewSeq.get_amount_able_to_send (newer Sample.sample_sock waits))
    × (send_flag_next waits ≡ NewSeq.send_flag_next (newer Sample.sample_sock waits))
sending_agrees_example =
    sending_agrees Sample.sample_sock waits (7 ∷ 8 ∷ []) 2 waits-IsInOrder waits-SendsCell
      (omega arith)

segments_agree_example :
    (is_valid_seq_num sock 1001 3 ≡ NewSeq.is_valid_seq_num (newer Sample.sample_sock sock) 1001 3)
    × (have_room_to_receive sock 3 ≡ NewSeq.have_room_to_receive (newer Sample.sample_sock sock) 3)
segments_agree_example =
    segments_agree Sample.sample_sock sock 1001 3 3 ring-IsValid (omega arith) (omega arith)
      (omega arith) (omega arith)

v_read-data_from_network_example :
    (o' : Socket) × ((data_from_network_to_buffer sock (7 ∷ 8 ∷ 9 ∷ []) 3 >>= λ t.
    v_read (ack_data t 3) 1)
      ≡ some (o', 3, 7 ∷ 8 ∷ 9 ∷ []))
    × (o'.recv_read ≡ o'.recv_next)
    × (o'.recv_window ≡ 9)
v_read-data_from_network_example =
    v_read-data_from_network sock 7 (8 ∷ 9 ∷ []) [] 1 ring-IsValid refl (omega arith) (omega arith)
      (omega arith) (omega arith)

data_from_buffer-v_write_example :
    (o' : Socket) × ((v_write sock (7 ∷ 8 ∷ 9 ∷ []) 3 >>= λ t. data_from_buffer_to_network t.0 3)
      ≡ some (o', pos 3, 7 ∷ 8 ∷ 9 ∷ []))
    × (o'.send_next ≡ o'.send_written)
    × (o'.send_written ≡ 103)
data_from_buffer-v_write_example =
    data_from_buffer-v_write sock 7 (8 ∷ 9 ∷ []) [] 3 ring-IsValid refl (omega arith) takes
      (omega arith) (omega arith) (omega arith)
