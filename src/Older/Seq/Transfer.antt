-- ===== src/Older/Seq/Transfer.antt =====
-- The data through the older seq.c, from the network to the user and from the user to the network.
use tcp_archive.Prelude.{
  ℕ, suc, ◌+◌, ◌%◌, true, int_leb, ◌<◌, ◌≤◌, ◌≡◌, refl, ap, sym, ◌∙◌, Option, none, some, List, ◌∷◌,
  ◌++◌, length, arith, ℤ, pos, add32, sub32, ◌>>=◌, inl, subst,
}
use tcp_archive.Cbuffer.{Cbuf, data_cell}
use tcp_archive.Cbuffer.Cells.{IsValid}
use tcp_archive.Cbuffer.Ranges.{put_range_lem, get_range_Holds, Holds}
use tcp_archive.Older.{put_range, get_range}
use tcp_archive.Older.Buffer.{as_newer, put_range_same, get_range_same}
use tcp_archive.Older.Seq.{
  Socket, ack_data, get_data_from_buffer, data_from_network_to_buffer, amount_of_data_to_read,
  copy_data_from_user, data_from_buffer_to_network, can_accept_data_to_send, int_ltb, sendable,
  get_amount_able_to_accept, get_amount_able_to_send,
}

as_older : Option (ℤ × Option (List ℕ)) → Option (ℤ × List ℕ)
as_older none = none
as_older (some (n, none)) = none
as_older (some (n, some values)) = some (n, values)

as_older-as_newer : (o : Option (ℤ × List ℕ)) → as_older (o >>= as_newer) ≡ o
unfolding as_older
as_older-as_newer none = refl
as_older-as_newer (some (n, values)) = refl

-- What the older buffer stores it reads back.
range_back :
    (x : ℕ) (xs rest : List ℕ) (c : Cbuf) (start : ℕ)
    → IsValid c
    → start < 2147483648
    → suc (length xs) ≤ c.size
    → (c' : Cbuf) × (put_range c (x ∷ xs ++ rest) start (suc (length xs)) ≡ some c')
      × (get_range c' start (suc (length xs)) ≡ some (pos (suc (length xs)), x ∷ xs))
unfolding as_older
range_back x xs rest c start v less fits =
    let (c', p, st) = put_range_lem (x ∷ xs) rest c start v fits in
    let holds = subst (λ n. Holds c' (start % n) (x ∷ xs)) (sym st.same_size) st.holds in
    (
      c',
      put_range_same c (x ∷ xs ++ rest) start (suc (length xs)) v less ∙ p,
      sym (as_older-as_newer (get_range c' start (suc (length xs))))
          ∙ ap as_older (
              get_range_same c' start (suc (length xs)) data_cell x st.valid less holds.0 (inl refl)
              ∙ get_range_Holds x xs c' start st.valid less (rw st.same_size fits) holds),
    )

int_le : (a b : ℕ) → a ≤ b → b < 2147483648 → int_leb a b ≡ true
int_le a b h k = ground arith

int_positive : (a : ℕ) → 0 < a → a < 2147483648 → int_ltb 0 a ≡ true
int_positive a h k = ground arith

get_data_whole :
    (u : Socket) (n : ℕ) (d : List ℕ)
    → u.recv_read + suc n ≡ u.recv_next
    → u.recv_next < 2147483648
    → get_range u.r_buf u.recv_read (suc n) ≡ some (pos (suc n), d)
    → get_data_from_buffer u (suc n)
      ≡ some (
        record u {
          recv_read = add32 u.recv_read (suc n);
          recv_window = add32 u.recv_window (suc n);
        },
        suc n,
        d,
      )
unfolding get_data_from_buffer amount_of_data_to_read
get_data_whole u n d e small got = ground (arith, got)

-- With no data left to read, what is stored and then acknowledged is what a read of it all returns.
pub data_from_network_lem :
    (o : Socket) (x : ℕ) (xs rest : List ℕ)
    → IsValid o.r_buf
    → o.recv_read ≡ o.recv_next
    → suc (length xs) ≤ o.r_buf.size
    → suc (length xs) ≤ o.recv_window
    → o.recv_next + suc (length xs) < 2147483648
    → o.recv_window < 2147483648
    → let n = suc (length xs) in
      (c' : Cbuf) × (data_from_network_to_buffer o (x ∷ xs ++ rest) n
        ≡ some (record o { r_buf = c' }))
      × (get_data_from_buffer (ack_data (record o { r_buf = c' }) n) n
          ≡ some (
            record (ack_data (record o { r_buf = c' }) n) {
              recv_read = add32 o.recv_read n;
              recv_window = add32 o.recv_window n;
            },
            n,
            x ∷ xs,
          ))
unfolding data_from_network_to_buffer ack_data
data_from_network_lem o x xs rest v e fits room small wide =
    let (c', p, got) = range_back x xs rest o.r_buf o.recv_next v (omega arith) fits in
    let n = suc (length xs) in
    (
      c',
      rw (int_le n o.recv_window room wide, p) refl,
      get_data_whole (ack_data (record o { r_buf = c' }) n) (length xs) (x ∷ xs) (omega arith)
          (omega arith) (subst (λ k. get_range c' k n ≡ some (pos n, x ∷ xs)) (sym e) got),
    )

get_amount_whole :
    (u : Socket) (n : ℕ) (d : List ℕ)
    → u.send_next + suc n ≡ u.send_written
    → u.send_written ≤ u.remote_flow_window
    → u.remote_flow_window < 2147483648
    → get_range u.s_buf u.send_next (suc n) ≡ some (pos (suc n), d)
    → get_amount_able_to_send u ≡ some (pos (suc n))
unfolding get_amount_able_to_send
get_amount_whole u n d e flow small got =
    let m : sendable u ≡ suc n = ground arith in rw m (ground (arith, got))

to_network_whole :
    (u : Socket) (n : ℕ) (d : List ℕ)
    → u.send_next + suc n ≡ u.send_written
    → u.send_written ≤ u.remote_flow_window
    → u.remote_flow_window < 2147483648
    → get_range u.s_buf u.send_next (suc n) ≡ some (pos (suc n), d)
    → data_from_buffer_to_network u (suc n)
      ≡ some (record u { send_next = add32 u.send_next (suc n) }, pos (suc n), d)
unfolding data_from_buffer_to_network
to_network_whole u n d e flow small got =
    rw
      (
        get_amount_whole u n d e flow small got,
        got,
        int_le (add32 u.send_next (suc n)) u.send_written (omega arith) (omega arith),
      )
      (ground arith)

-- With nothing left to send, data that the windows and the ring have room for goes from the user to the network as it is.
pub data_from_buffer-copy_data_from_user :
    (o : Socket) (x : ℕ) (xs rest : List ℕ)
    → IsValid o.s_buf
    → o.send_next ≡ o.send_written
    → suc (length xs) ≤ o.s_buf.size
    → o.send_written + suc (length xs) ≤ o.send_una + o.send_window
    → o.send_una + o.send_window < 2147483648
    → o.send_written + suc (length xs) ≤ o.remote_flow_window
    → o.remote_flow_window < 2147483648
    → (o' : Socket) × ((copy_data_from_user o (x ∷ xs ++ rest) (suc (length xs)) >>= λ t.
          data_from_buffer_to_network t (suc (length xs)))
        ≡ some (o', pos (suc (length xs)), x ∷ xs))
      × (o'.send_next ≡ o'.send_written)
      × (o'.send_written ≡ o.send_written + suc (length xs))
unfolding copy_data_from_user can_accept_data_to_send get_amount_able_to_accept
data_from_buffer-copy_data_from_user o x xs rest v e fits window small flow wide =
    let (c', p, got) = range_back x xs rest o.s_buf o.send_written v (omega arith) fits in
    let n = suc (length xs) in
    (
      record o {
        s_buf = c';
        send_written = add32 o.send_written n;
        send_next = add32 o.send_next n;
      },
      rw
          (
            int_positive (sub32 (add32 o.send_una o.send_window) o.send_written) (omega arith)
                (omega arith),
            int_le o.send_next o.send_written (omega arith) (omega arith),
            int_le (add32 o.send_written n) (add32 o.send_una o.send_window) (omega arith)
                (omega arith),
            p,
          )
          (to_network_whole _ (length xs) (x ∷ xs) (omega arith) (omega arith) wide
            (subst (λ k. get_range c' k n ≡ some (pos n, x ∷ xs)) (sym e) got)),
      ap (λ k. add32 k n) e,
      omega arith,
    )
