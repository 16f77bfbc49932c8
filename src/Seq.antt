-- ===== src/Seq.antt =====
-- tcp_branch/seq.h and tcp_branch/seq.c: the sequence-number pointers of a socket and the data between
-- them and its two buffers. The pointers are `uint32_t` and wrap. `none` is a failed `assert`.
mod Tests
pub mod Receive
pub mod Send
pub mod Fuel
pub mod Keeps
pub mod Ready
use tcp_archive.Prelude.{
  ℕ, zero, suc, ◌+◌, ◌-◌, ◌%◌, bit_and, Bool, true, false, not, ◌&&◌, Option, none, some, List, [],
  ltb, leb, ◌==◌, if◌then◌else◌, ℤ, pos, negsuc, pos_part, minus_one, ltb_ℤ, int_of, min_ℤ, u16,
  add32, sub32, ◌>>=◌, ◌>>◌, assert, is_some, get_elem?, ◌||◌,
}
use tcp_archive.Cbuffer.{cbuf_lt, cbuf_btm_contains, cbuf_get_range, cbuf_put_range}
use tcp_archive.Packet.{get_flags, get_acknum, ip_to_tcp, flag_ack}
use tcp_archive.Socket.{Socket}

-- The end of the receive window, `recv_read + recv_window_size`.
abbrev pub recv_end : Socket → ℕ
recv_end sock = add32 sock.recv_read sock.recv_window

pub is_old_seq_num : Socket → ℕ → Bool
is_old_seq_num sock num = cbuf_lt sock.r_buf num sock.recv_ack

unfoldable pub is_valid_seq_num : Socket → ℕ → ℕ → Bool
is_valid_seq_num sock num len =
    cbuf_btm_contains sock.r_buf sock.recv_ack (recv_end sock) num
    && cbuf_btm_contains sock.r_buf sock.recv_ack (recv_end sock) (add32 num len)

pub is_next_seq_num : Socket → ℕ → Bool
is_next_seq_num sock num = num == sock.recv_ack

unfoldable pub have_room_to_receive : Socket → ℕ → Bool
have_room_to_receive sock size = leb size (sub32 (recv_end sock) sock.recv_next)

-- `ackData`
unfoldable pub ack_data : Socket → ℕ → Socket
ack_data sock size =
    let next = add32 sock.recv_next size in
    record sock {
      recv_next = next;
      recv_ack = add32 sock.recv_ack size;
      send_window = u16 (sub32 (recv_end sock) next);
    }

pub amount_of_data_to_read : Socket → Option ℤ
amount_of_data_to_read sock = do
  assert (leb sock.recv_read sock.recv_next)
  some (int_of (sub32 sock.recv_next sock.recv_read))

-- `getDataFromBuffer`: the socket, the result, and the bytes copied to the user's buffer. It calls
-- itself behind a flag; the fuel bounds these calls, and its end is `none`.
pub get_data_from_buffer : ℕ → Socket → ℤ → Option (Socket × ℤ × List ℕ)
unfolding amount_of_data_to_read
get_data_from_buffer zero sock max_size = none
get_data_from_buffer (suc fuel) sock max_size = amount_of_data_to_read sock >>= λ readable.
    let amount = min_ℤ max_size readable in
    assert (not (ltb_ℤ amount (pos 0))) >> elim (pos_part amount == 0) [
      | true ↦ some (sock, pos 0, [])
      | false ↦ cbuf_get_range sock.r_buf sock.recv_read (pos_part amount) >>= λ got.
          elim (ltb_ℤ got.0 (pos 0)) [
            | true ↦
                get_data_from_buffer fuel (record sock { recv_read = add32 sock.recv_read 1 })
                  max_size
            | false ↦ elim got.1 [
              | none ↦ some (record sock { recv_read = add32 sock.recv_read 1 }, minus_one, [])
              | some d ↦
                  (let read = add32 sock.recv_read (pos_part got.0) in
                    assert (leb read sock.recv_next)
                    >> some (record sock { recv_read = read }, got.0, d))
            ]
          ]
    ]

pub amount_we_can_receive : Socket → ℤ
amount_we_can_receive sock = int_of (sub32 (recv_end sock) sock.recv_next)

-- `dataFromNetworkToBuffer`
unfoldable pub data_from_network_to_buffer : Socket → List ℕ → ℕ → Option Socket
data_from_network_to_buffer sock bytes size = do
  assert (leb size (sub32 (recv_end sock) sock.recv_next))
  r_buf ← cbuf_put_range sock.r_buf bytes sock.recv_next size
  some (record sock { r_buf = r_buf })

unfoldable pub update_from_window_announce : Socket → ℕ → Socket
update_from_window_announce sock window = record sock {
  remote_flow_window = add32 sock.send_una window;
}

-- The end of the send window, less what has been written: an unsigned difference.
abbrev pub send_room : Socket → ℕ
send_room sock = sub32 (add32 sock.send_una sock.send_window) sock.send_written

unfoldable pub can_accept_data_to_send : Socket → Bool
can_accept_data_to_send sock = ltb 0 (send_room sock)

unfoldable pub get_amount_able_to_accept : Socket → ℤ
get_amount_able_to_accept sock = int_of (send_room sock)

-- `sendFlagNext`; reading an end mark fails an `assert`.
unfoldable pub send_flag_next : Socket → Option Bool
send_flag_next sock =
    if sock.send_written == sock.send_next
    then some false
    else (cbuf_get_range sock.s_buf sock.send_next 1 >>= λ got.
        if ltb_ℤ got.0 (pos 0) then some true else (assert (is_some got.1) >> some false))

-- `getFlagToSend`. It reads an `int` from the one byte of the flag; its caller keeps the low byte.
unfoldable pub get_flag_to_send : Socket → Option ℕ
unfolding send_flag_next
get_flag_to_send sock = do
  flag ← send_flag_next sock
  assert flag
  got ← cbuf_get_range sock.s_buf sock.send_next 1
  assert (ltb_ℤ got.0 (pos 0))
  flags ← got.1
  get_elem? flags 0

-- `getAmountAbleToSend`: -1 where a flag is next. The two differences are unsigned, and so is the
-- `MIN` of them.
abbrev pub sendable : Socket → ℕ
sendable sock =
    let written = sub32 sock.send_written sock.send_next in
    let flow = sub32 sock.remote_flow_window sock.send_next in
    if ltb written flow then written else flow

unfoldable pub get_amount_able_to_send : Socket → Option ℤ
get_amount_able_to_send sock =
    let m = sendable sock in
    assert (ltb m 2147483648) >> elim ((m == 0) || (sock.send_next == sock.send_written)) [
      | true ↦ some (pos 0)
      | false ↦ cbuf_get_range sock.s_buf sock.send_next m >>= λ got.
          if ltb_ℤ got.0 (pos 0) then some got.0 else (assert (is_some got.1) >> some got.0)
    ]

pub have_data_to_send : Socket → Option Bool
unfolding get_amount_able_to_send
have_data_to_send sock = get_amount_able_to_send sock >>= λ n. some (ltb_ℤ (pos 0) n)

-- The effect of an acknowledgement number, with the flags of its packet.
unfoldable pub take_ack : Socket → ℕ → ℕ → Socket
take_ack sock flags ack_num =
    if bit_and flags flag_ack == flag_ack
    then record (if ltb sock.send_una ack_num
        then record sock { send_una = ack_num; last_packet = 0 }
        else sock) { last_ack = ack_num }
    else sock

-- `processPacketForAck`
unfoldable pub process_packet_for_ack : Socket → List ℕ → Option Socket
unfolding take_ack
process_packet_for_ack sock packet = do
  flags ← get_flags (ip_to_tcp packet)
  ack_num ← get_acknum (ip_to_tcp packet)
  some (take_ack sock flags ack_num)

-- `copyDataFromUser`
unfoldable pub copy_data_from_user : Socket → List ℕ → ℕ → Option Socket
unfolding can_accept_data_to_send
copy_data_from_user sock bytes size = do
  assert (can_accept_data_to_send sock)
  assert (leb sock.send_next sock.send_written)
  assert (leb (add32 sock.send_written size) (add32 sock.send_una sock.send_window))
  s_buf ← cbuf_put_range sock.s_buf bytes sock.send_written size
  some (record sock { s_buf = s_buf; send_written = add32 sock.send_written size })

-- `unackData`
pub unack_data : Socket → Socket
unack_data sock = record sock { send_next = sock.send_una }

-- `dataFromBufferToNetwork`: the result and the bytes; it leaves the socket as it is. `amount` is
-- converted from `int` to `unsigned` in the call.
pub data_from_buffer_to_network : Socket → ℕ → Option (ℤ × List ℕ)
unfolding get_amount_able_to_send
data_from_buffer_to_network sock size = do
  amount ← get_amount_able_to_send sock
  assert (not (ltb_ℤ amount (pos 0)))
  got ← cbuf_get_range sock.s_buf sock.send_next (pos_part amount)
  if ltb_ℤ got.0 (pos 0)
      then some (pos 0, [])
      else (got.1 >>= λ d. assert (pos_part got.0 == size) >> some (got.0, d))
