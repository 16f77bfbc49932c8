-- ===== src/Seq/Send.antt =====
-- The sending half of tcp_branch/seq.c: the order of the send pointers, acknowledgements, and that the
-- data taken from the user is the data handed to the network.
use tcp_archive.Prelude.{
  if◌then◌else◌, ltb, ◌&&◌, ◌==◌, ℕ, suc, ◌+◌, ◌<◌, ◌≤◌, ◌≡◌, ◌≢◌, ◌∙◌, none, some, List, ◌∷◌, ◌++◌,
  length, arith, pos, add32, ◌>>=◌, le→leb, lt→ltb, bit_and,
}
use tcp_archive.Packet.{flag_ack}
use tcp_archive.Cbuffer.{Cbuf, cbuf_get_range, cbuf_put_range}
use tcp_archive.Cbuffer.Cells.{IsValid}
use tcp_archive.Cbuffer.Ranges.{get_range-put_range, put_range_lem}
use tcp_archive.Socket.{Socket}
use tcp_archive.Seq.{
  send_room, sendable, can_accept_data_to_send, get_amount_able_to_send, take_ack,
  copy_data_from_user, unack_data, data_from_buffer_to_network,
}

-- The send pointers of a socket in order, with `send_una` by 8192 or more below 2 ^ 31, a window of at most 4096 bytes and
-- a ring of 8194 cells. `send_next` may lie behind
-- `send_una`, since an acknowledgement may come after it was moved back.
pub record IsSending (s : Socket) : Type 0 where
  pub ring : IsValid s.s_buf
  pub ring_size : s.s_buf.size ≡ 8194
  pub window_small : s.send_window ≤ 4096
  pub una_le_written : s.send_una ≤ s.send_written
  pub next_le_written : s.send_next ≤ s.send_written
  pub written_le_end : s.send_written ≤ s.send_una + 4096
  pub no_wrap : s.send_una + 8192 < 2147483648

-- Taking at least one byte from the user that fits the room left, with the send pointers in
-- order, `send_una` by more than 8192 below 2 ^ 31, a window of at most 4096 bytes and a ring of
-- 8194 cells, fails no `assert`, moves `send_written` past the bytes and keeps the pointers in order.
pub copy_data_from_user-IsSending :
    (s : Socket) (xs rest : List ℕ)
    → IsSending s
    → 0 < length xs
    → s.send_written + length xs ≤ s.send_una + s.send_window
    → (s' : Socket) × (copy_data_from_user s (xs ++ rest) (length xs) ≡ some s')
      × IsSending s'
      × (s'.send_written ≡ s.send_written + length xs)
unfolding copy_data_from_user can_accept_data_to_send
copy_data_from_user-IsSending s xs rest v p h =
    let (c', e, st) = put_range_lem xs rest s.s_buf s.send_written v.ring (omega (arith, v)) in
    (
      record s { s_buf = c'; send_written = add32 s.send_written (length xs) },
      rw (
        lt→ltb 0 (send_room s) (omega (arith, v)),
        le→leb s.send_next s.send_written v.next_le_written,
        le→leb (add32 s.send_written (length xs)) (add32 s.send_una s.send_window)
            (omega (arith, v)),
        e,
      ),
      record {
        ring = st.valid;
        ring_size = st.same_size ∙ v.ring_size;
        window_small = v.window_small;
        una_le_written = omega (arith, v);
        next_le_written = omega (arith, v);
        written_le_end = omega (arith, v);
        no_wrap = v.no_wrap;
      },
      omega (arith, v),
    )

-- With the send pointers in order, `send_una` by more than 8192 below 2 ^ 31, and no room left in
-- the send window of at most 4096 bytes, taking data from the user
-- fails an `assert`, whatever the length, 0 included.
pub copy_data_from_user_full :
    (s : Socket) (bytes : List ℕ) (size : ℕ)
    → IsSending s
    → s.send_written ≡ s.send_una + s.send_window
    → copy_data_from_user s bytes size ≡ none
unfolding copy_data_from_user can_accept_data_to_send
copy_data_from_user_full s bytes size v e = ground (arith, v)

-- An acknowledgement of no more than has been written, by a number more than 8192 below 2^31, keeps
-- the send pointers in order and never moves `send_una` back: with the ACK flag and a greater
-- number it becomes that number, and stays else.
pub take_ack-IsSending :
    (s : Socket) (flags ack_num : ℕ)
    → IsSending s
    → ack_num ≤ s.send_written
    → ack_num + 8192 < 2147483648
    → let s' = take_ack s flags ack_num in
      IsSending s'
      × (s.send_una ≤ s'.send_una)
      × (s'.send_una ≡ (
          if bit_and flags flag_ack == flag_ack && ltb s.send_una ack_num
          then ack_num
          else s.send_una))
unfolding take_ack
take_ack-IsSending s flags ack_num v h small =
    (ground (arith, v), ground (arith, v), ground (arith, v))

-- There is no check from above: with the send pointers in order and `send_una` by more than 8192
-- below 2 ^ 31, with the ACK flag, an acknowledgement of data that was never
-- written moves `send_una` past `send_written`, and the send pointers out of order.
pub take_ack_beyond :
    (s : Socket) (flags ack_num : ℕ)
    → IsSending s
    → bit_and flags flag_ack ≡ flag_ack
    → s.send_written < ack_num
    → let s' = take_ack s flags ack_num in (s'.send_una ≡ ack_num) × (¬ IsSending s')
unfolding take_ack
take_ack_beyond s flags ack_num v e h = (ground (arith, v), λ w. ground (arith, v, w))

-- Going back to the first unacknowledged byte keeps the pointers in order.
pub unack_data-IsSending : (s : Socket) → IsSending s → IsSending (unack_data s)
unfolding unack_data
unack_data-IsSending s v = omega (arith, v)

pub get_amount_whole :
    (u : Socket) (n : ℕ) (d : List ℕ)
    → sendable u ≡ suc n
    → suc n < 2147483648
    → u.send_next ≢ u.send_written
    → cbuf_get_range u.s_buf u.send_next (suc n) ≡ some (pos (suc n), some d)
    → get_amount_able_to_send u ≡ some (pos (suc n))
unfolding get_amount_able_to_send
get_amount_whole u n d e small ne got = rw e (ground (arith, got))

pub data_whole :
    (u : Socket) (n : ℕ) (d : List ℕ)
    → get_amount_able_to_send u ≡ some (pos (suc n))
    → cbuf_get_range u.s_buf u.send_next (suc n) ≡ some (pos (suc n), some d)
    → data_from_buffer_to_network u (suc n) ≡ some (pos (suc n), d)
unfolding data_from_buffer_to_network
data_whole u n d e got = rw (e, got) (ground arith)

data_stored :
    (s : Socket) (n : ℕ) (bytes d : List ℕ) (c' : Cbuf)
    → IsSending s
    → s.send_next ≡ s.send_written
    → s.send_written + suc n ≤ s.send_una + s.send_window
    → s.send_written + suc n ≤ s.remote_flow_window
    → s.remote_flow_window < 2147483648
    → cbuf_put_range s.s_buf bytes s.send_written (suc n) ≡ some c'
    → cbuf_get_range c' s.send_written (suc n) ≡ some (pos (suc n), some d)
    → (copy_data_from_user s bytes (suc n) >>= λ t. data_from_buffer_to_network t (suc n))
      ≡ some (pos (suc n), d)
unfolding copy_data_from_user can_accept_data_to_send
data_stored s n bytes d c' v e h flow small put got =
    let u = record s { s_buf = c'; send_written = add32 s.send_written (suc n) } in
    rw
      (
        lt→ltb 0 (send_room s) (omega (arith, v)),
        le→leb s.send_next s.send_written v.next_le_written,
        le→leb (add32 s.send_written (suc n)) (add32 s.send_una s.send_window) (omega (arith, v)),
        put,
      )
      (data_whole u n d
        (get_amount_whole u n d (ground (arith, v)) (omega (arith, v)) (omega (arith, v))
          (rw e got))
        (rw e got))

-- With the send pointers in order and nothing left to send, what the user hands over, at least
-- one byte and no more than the send window and the peer's window, which ends below 2^31, have
-- room for, is what goes to the network, in order.
pub data_to_network-copy_data :
    (s : Socket) (x : ℕ) (xs rest : List ℕ)
    → IsSending s
    → s.send_next ≡ s.send_written
    → s.send_written + suc (length xs) ≤ s.send_una + s.send_window
    → s.send_written + suc (length xs) ≤ s.remote_flow_window
    → s.remote_flow_window < 2147483648
    → (copy_data_from_user s (x ∷ xs ++ rest) (suc (length xs)) >>= λ t.
        data_from_buffer_to_network t (suc (length xs)))
      ≡ some (pos (suc (length xs)), x ∷ xs)
data_to_network-copy_data s x xs rest v e h flow small =
    let (c', p, st) = put_range_lem (x ∷ xs) rest s.s_buf s.send_written v.ring (fits_ring v h) in
    data_stored s (length xs) (x ∷ xs ++ rest) (x ∷ xs) c' v e h flow small p (
      rw p at (
        get_range-put_range x xs rest s.s_buf s.send_written v.ring (omega (arith, v))
          (fits_ring v h)))
  where
    fits_ring :
        {s : Socket} {n : ℕ}
        → IsSending s
        → s.send_written + n ≤ s.send_una + s.send_window
        → n ≤ s.s_buf.size
    fits_ring v h = omega (arith, v)
