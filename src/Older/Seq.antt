-- ===== src/Older/Seq.antt =====
-- seq.h and seq.c of the older copy. The pointers are of type `int`: each is kept as its 32-bit pattern, whose arithmetic
-- wraps, and compared as a signed number. `none` is a failed `assert`.
pub mod Agree
pub mod Transfer
use tcp_archive.Prelude.{
  ℕ, ◌+◌, ◌%◌, ◌/◌, bit_and, Bool, true, false, not, ◌&&◌, ◌||◌, Option, some, List, [], ltb, ◌==◌,
  if◌then◌else◌, ℤ, pos, pos_part, ltb_ℤ, int_leb, add32, sub32, ◌>>=◌, ◌>>◌, assert, get_elem?,
}
use tcp_archive.Cbuffer.{Cbuf, Cmp, before, same, after, is_before, is_same, is_after, is_nonneg}
use tcp_archive.Packet.{get_flags, get_acknum, ip_to_tcp, flag_ack}
use tcp_archive.Older.{put_range, get_range}

-- The part of the older `tcp_socket_t` that seq.c uses.
pub record Socket : Type 0 where
  pub seq_num : ℕ
  pub last_ack : ℕ
  pub r_buf : Cbuf
  pub s_buf : Cbuf
  pub send_una : ℕ
  pub send_next : ℕ
  pub send_written : ℕ
  pub remote_flow_window : ℕ
  pub recv_next : ℕ
  pub recv_read : ℕ
  pub recv_window : ℕ
  pub send_window : ℕ

-- `a < b` on two `int`s, and the `MIN` macro on them.
abbrev pub int_ltb : ℕ → ℕ → Bool
int_ltb a b = not (int_leb b a)

abbrev pub int_min : ℕ → ℕ → ℕ
int_min a b = if int_ltb a b then a else b

-- `cbuf_mod` of an `int`: the remainder has the sign of the number.
abbrev pub int_mod : Cbuf → ℕ → ℕ
int_mod c n = if is_nonneg n then n % c.size else sub32 0 (sub32 0 n % c.size)

-- `cbuf_cmp` of two `int`s.
unfoldable pub int_cmp : Cbuf → ℕ → ℕ → Cmp
int_cmp c a b =
    let a' = int_mod c a in
    let b' = int_mod c b in
    if a' == b'
    then same
    else if int_ltb a' b' && int_ltb (sub32 b' a') (c.size / 2)
        || int_ltb b' a' && int_ltb (c.size / 2) (sub32 a' b')
    then before
    else after

-- `cbuf_btm_contains` of `int`s.
pub btm_contains : Cbuf → ℕ → ℕ → ℕ → Bool
unfolding int_cmp
btm_contains c a b n =
    (is_before (int_cmp c a n) || is_same (int_cmp c a n)) && is_after (int_cmp c b n)

pub is_valid_seq_num : Socket → ℕ → ℕ → Bool
unfolding btm_contains
is_valid_seq_num sock num len =
    let end = add32 sock.recv_next sock.recv_window in
    btm_contains sock.r_buf sock.recv_next end num
    && btm_contains sock.r_buf sock.recv_next end (add32 num len)

pub is_next_seq_num : Socket → ℕ → Bool
is_next_seq_num sock num = num == sock.recv_next

pub have_room_to_receive : Socket → ℕ → Bool
have_room_to_receive sock size = int_leb size sock.recv_window

-- `ackData`
unfoldable pub ack_data : Socket → ℕ → Socket
ack_data sock size = record sock {
  recv_next = add32 sock.recv_next size;
  seq_num = add32 sock.seq_num size;
}

-- `amountOfDataToRead`: an `int`, as all that follows.
unfoldable pub amount_of_data_to_read : Socket → Option ℕ
amount_of_data_to_read sock = do
  assert (int_leb sock.recv_read sock.recv_next)
  some (sub32 sock.recv_next sock.recv_read)

-- `getDataFromBuffer`: the socket, the result, and the bytes copied to the user's buffer. The
-- pointers move by the amount asked for, not by the number of the bytes.
pub get_data_from_buffer : Socket → ℕ → Option (Socket × ℕ × List ℕ)
unfolding amount_of_data_to_read
get_data_from_buffer sock max_size = amount_of_data_to_read sock >>= λ readable.
    let amount = int_min max_size readable in
    assert (int_ltb 0 amount) >> get_range sock.r_buf sock.recv_read amount >>= λ got.
    elim (ltb_ℤ got.0 (pos 0)) [
      | true ↦ some (sock, 0, [])
      | false ↦
          (let read = add32 sock.recv_read amount in
            assert (int_leb read sock.recv_next)
            >> some (
              record sock { recv_read = read; recv_window = add32 sock.recv_window amount },
              amount,
              got.1,
            ))
    ]

pub amount_we_can_receive : Socket → ℕ
amount_we_can_receive sock = sock.recv_window

-- `dataFromNetworkToBuffer`
pub data_from_network_to_buffer : Socket → List ℕ → ℕ → Option Socket
data_from_network_to_buffer sock bytes size = do
  assert (int_leb size sock.recv_window)
  r_buf ← put_range sock.r_buf bytes sock.recv_next size
  some (record sock { r_buf = r_buf })

pub update_from_window_announce : Socket → ℕ → Socket
update_from_window_announce sock window = record sock {
  remote_flow_window = add32 sock.send_next window;
}

-- `getAmountAbleToAccept`
unfoldable pub get_amount_able_to_accept : Socket → ℕ
get_amount_able_to_accept sock = sub32 (add32 sock.send_una sock.send_window) sock.send_written

pub can_accept_data_to_send : Socket → Bool
unfolding get_amount_able_to_accept
can_accept_data_to_send sock = int_ltb 0 (get_amount_able_to_accept sock)

-- `sendFlagNext`
pub send_flag_next : Socket → Option Bool
send_flag_next sock =
    if sock.send_written == sock.send_next
    then some false
    else (get_range sock.s_buf sock.send_next 1 >>= λ got. some (ltb_ℤ got.0 (pos 0)))

-- `getFlagToSend`. It reads an `int` from the one byte of the flag: the low byte.
pub get_flag_to_send : Socket → Option ℕ
unfolding send_flag_next
get_flag_to_send sock = do
  flag ← send_flag_next sock
  assert flag
  got ← get_range sock.s_buf sock.send_next 1
  assert (ltb_ℤ got.0 (pos 0))
  get_elem? got.1 0

-- `getAmountAbleToSend`: -1 where a flag is next.
abbrev pub sendable : Socket → ℕ
sendable sock =
    int_min (sub32 sock.send_written sock.send_next) (sub32 sock.remote_flow_window sock.send_next)

pub get_amount_able_to_send : Socket → Option ℤ
get_amount_able_to_send sock =
    let m = sendable sock in
    assert (is_nonneg m) >> elim ((m == 0) || (sock.send_next == sock.send_written)) [
      | true ↦ some (pos 0)
      | false ↦ get_range sock.s_buf sock.send_next m >>= λ got. some got.0
    ]

pub have_data_to_send : Socket → Option Bool
unfolding get_amount_able_to_send
have_data_to_send sock = get_amount_able_to_send sock >>= λ n. some (ltb_ℤ (pos 0) n)

pub is_dup_ack : Socket → ℕ → Bool
is_dup_ack sock num = num == sock.last_ack

-- The effect of an acknowledgement number, with the flags of its packet: one that repeats the last
-- one sends all that is not acknowledged again.
pub take_ack : Socket → ℕ → ℕ → Socket
take_ack sock flags ack_num =
    if bit_and flags flag_ack == flag_ack
    then record (if int_ltb sock.send_una ack_num
        then record sock { send_una = ack_num }
        else if ack_num == sock.last_ack
        then record sock { send_next = sock.send_una }
        else sock) { last_ack = ack_num }
    else sock

-- `processPacketForAck`
pub process_packet_for_ack : Socket → List ℕ → Option Socket
unfolding take_ack
process_packet_for_ack sock packet = do
  flags ← get_flags (ip_to_tcp packet)
  ack_num ← get_acknum (ip_to_tcp packet)
  some (take_ack sock flags ack_num)

-- `copyDataFromUser`
pub copy_data_from_user : Socket → List ℕ → ℕ → Option Socket
unfolding can_accept_data_to_send
copy_data_from_user sock bytes size = do
  assert (can_accept_data_to_send sock)
  assert (int_leb sock.send_next sock.send_written)
  assert (int_leb (add32 sock.send_written size) (add32 sock.send_una sock.send_window))
  s_buf ← put_range sock.s_buf bytes sock.send_written size
  some (record sock { s_buf = s_buf; send_written = add32 sock.send_written size })

-- `unackData`
pub unack_data : Socket → Socket
unack_data sock = record sock { send_next = sock.send_una }

-- `dataFromBufferToNetwork`: the socket, the result and the bytes. `send_next` moves by the size that the caller
-- names, whatever the number of the bytes.
pub data_from_buffer_to_network : Socket → ℕ → Option (Socket × ℤ × List ℕ)
unfolding get_amount_able_to_send
data_from_buffer_to_network sock size = do
  amount ← get_amount_able_to_send sock
  assert (not (ltb_ℤ amount (pos 0)))
  got ← get_range sock.s_buf sock.send_next (pos_part amount)
  if ltb_ℤ got.0 (pos 0)
      then some (sock, pos 0, [])
      else (assert (int_leb (add32 sock.send_next size) sock.send_written)
          >> some (record sock { send_next = add32 sock.send_next size }, got.0, got.1))
