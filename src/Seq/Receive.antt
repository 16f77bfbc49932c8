-- ===== src/Seq/Receive.antt =====
-- The receiving half of tcp_branch/seq.c: which segments are in the window, and that the data stored
-- for the network is the data that the user reads.
use tcp_archive.Prelude.{
  ℕ, suc, ◌+◌, ◌-◌, ◌<◌, ◌≤◌, ◌≡◌, refl, ap, ap₂, true, false, ◌&&◌, some, List, ◌∷◌, ◌++◌, length,
  ltb, arith, pos, add32, sub32, ◌>>=◌, le→leb,
}
use tcp_archive.Cbuffer.{Cbuf, cbuf_btm_contains, cbuf_get_range, cbuf_put_range}
use tcp_archive.Cbuffer.Cells.{IsValid}
use tcp_archive.Cbuffer.Compare.{btm_contains_window, btm_contains_before}
use tcp_archive.Cbuffer.Ranges.{get_range-put_range, put_range_lem}
use tcp_archive.Socket.{Socket}
use tcp_archive.Seq.{
  recv_end, is_old_seq_num, is_valid_seq_num, ack_data, amount_of_data_to_read,
  get_data_from_buffer, data_from_network_to_buffer,
}

-- The receive pointers of a socket in order, and below 2 ^ 31: the ring has 8194 cells, the data that is not
-- yet read lies inside the window, and the window takes less than half of the ring.
pub record IsReceiving (s : Socket) : Type 0 where
  pub ring : IsValid s.r_buf
  pub ring_size : s.r_buf.size ≡ 8194
  pub window_small : s.recv_window ≤ 4096
  pub read_le_ack : s.recv_read ≤ s.recv_ack
  pub ack_le_next : s.recv_ack ≤ s.recv_next
  pub next_le_end : s.recv_next ≤ s.recv_read + s.recv_window
  pub no_wrap : s.recv_read + s.recv_window < 2147483648

-- With the receive pointers in order, a window of at most 4096 bytes that ends below 2 ^ 31, and a
-- ring of 8194 cells, a segment that begins past the next byte expected and ends less than half a
-- ring behind it is accepted when its first byte and the byte behind its last
-- one both lie inside the window, and only then. So the byte behind the last one may not be the
-- end of the window.
pub is_valid_seq_num_ahead :
    (s : Socket) (d len : ℕ)
    → IsReceiving s
    → d + len < 4097
    → let room = s.recv_read + s.recv_window - s.recv_ack in
      is_valid_seq_num s (s.recv_ack + d) len ≡ (ltb d room && ltb (d + len) room)
unfolding is_valid_seq_num
is_valid_seq_num_ahead s d len v h =
    rw (window_end, seg_end) (ap₂ ◌&&◌ (at d (omega arith)) (at (d + len) h))
  where
    room : ℕ
    room = s.recv_read + s.recv_window - s.recv_ack

    window_end : recv_end s ≡ s.recv_ack + room
    window_end = omega (arith, v)

    seg_end : add32 (s.recv_ack + d) len ≡ s.recv_ack + (d + len)
    seg_end = omega (arith, v)

    at :
        (k : ℕ)
        → k < 4097
        → cbuf_btm_contains s.r_buf s.recv_ack (s.recv_ack + room) (s.recv_ack + k) ≡ ltb k room
    at k hk =
        btm_contains_window s.r_buf s.recv_ack room k (rw v.ring_size (omega (arith, v)))
          (rw v.ring_size hk)

-- With the receive pointers in order, a segment that begins before the next byte expected, by
-- less than half a ring, is never accepted, and counts as old.
is_valid_seq_num_behind :
    (s : Socket) (num e len : ℕ)
    → IsReceiving s
    → s.recv_ack ≡ num + e
    → 0 < e
    → e < 4097
    → (is_valid_seq_num s num len ≡ false) × (is_old_seq_num s num ≡ true)
unfolding is_valid_seq_num is_old_seq_num
is_valid_seq_num_behind s num e len v p pos_e h =
    let (a, b) = btm_contains_before s.r_buf num e (recv_end s) pos_e (rw v.ring_size h) in
    rw p (rw a refl, b)

-- Acknowledging what fits the window keeps the receive pointers in order, and leaves in
-- `send_window_size` the room that the window then has.
pub ack_data-IsReceiving :
    (s : Socket) (size : ℕ)
    → IsReceiving s
    → s.recv_next + size ≤ s.recv_read + s.recv_window
    → IsReceiving (ack_data s size)
      × ((ack_data s size).send_window ≡ s.recv_read + s.recv_window - (s.recv_next + size))
unfolding ack_data
ack_data-IsReceiving s size v h = omega (arith, v)

-- A read of all that there is, when it is data.
pub get_data_whole :
    (u : Socket) (n fuel : ℕ) (d : List ℕ)
    → u.recv_read + suc n ≡ u.recv_next
    → u.recv_next < 2147483648
    → cbuf_get_range u.r_buf u.recv_read (suc n) ≡ some (pos (suc n), some d)
    → get_data_from_buffer (suc fuel) u (pos (suc n))
      ≡ some (record u { recv_read = add32 u.recv_read (suc n) }, pos (suc n), d)
unfolding get_data_from_buffer amount_of_data_to_read
get_data_whole u n fuel d e small got = ground (arith, got)

get_data_stored :
    (s : Socket) (n fuel : ℕ) (bytes d : List ℕ) (c' : Cbuf)
    → IsReceiving s
    → s.recv_read ≡ s.recv_next
    → suc n ≤ s.recv_window
    → cbuf_put_range s.r_buf bytes s.recv_next (suc n) ≡ some c'
    → cbuf_get_range c' s.recv_next (suc n) ≡ some (pos (suc n), some d)
    → (s' : Socket) × ((data_from_network_to_buffer s bytes (suc n) >>= λ t.
          get_data_from_buffer (suc fuel) (ack_data t (suc n)) (pos (suc n)))
        ≡ some (s', pos (suc n), d))
      × (s'.recv_read ≡ s'.recv_next)
unfolding data_from_network_to_buffer ack_data
get_data_stored s n fuel bytes d c' v e h put got =
    let u = ack_data (record s { r_buf = c' }) (suc n) in
    (
      record u { recv_read = add32 s.recv_read (suc n) },
      rw (le→leb (suc n) (sub32 (recv_end s) s.recv_next) (omega (arith, v)), put)
          (get_data_whole u n fuel d (omega (arith, v)) (omega (arith, v)) (rw e got)),
      ap (λ t. add32 t (suc n)) e,
    )

fits_ring : {s : Socket} {n : ℕ} → IsReceiving s → n ≤ s.recv_window → n ≤ s.r_buf.size
fits_ring v h = omega (arith, v)

-- With the receive pointers in order and no other data, at least one byte that the window has
-- room for is stored, and once it is acknowledged a read that asks for exactly as many bytes
-- returns them and leaves nothing.
pub get_data-from_network :
    (s : Socket) (x : ℕ) (xs rest : List ℕ) (fuel : ℕ)
    → IsReceiving s
    → s.recv_read ≡ s.recv_next
    → suc (length xs) ≤ s.recv_window
    → (s' : Socket) × ((data_from_network_to_buffer s (x ∷ xs ++ rest) (suc (length xs)) >>= λ t.
          get_data_from_buffer (suc fuel) (ack_data t (suc (length xs))) (pos (suc (length xs))))
        ≡ some (s', pos (suc (length xs)), x ∷ xs))
      × (s'.recv_read ≡ s'.recv_next)
get_data-from_network s x xs rest fuel v e h =
    let (c', p, st) = put_range_lem (x ∷ xs) rest s.r_buf s.recv_next v.ring (fits_ring v h) in
    get_data_stored s (length xs) fuel (x ∷ xs ++ rest) (x ∷ xs) c' v e h p (
      rw p at (
        get_range-put_range x xs rest s.r_buf s.recv_next v.ring (omega (arith, v))
          (fits_ring v h)))
