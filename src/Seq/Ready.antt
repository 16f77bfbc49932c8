-- ===== src/Seq/Ready.antt =====
-- What `copyDataFromUser` of tcp_branch/seq.c leaves for the thread that sends.
use tcp_archive.Prelude.{
  ℕ, suc, ◌+◌, ◌<◌, ◌≤◌, ◌≡◌, ◌≢◌, sym, subst, some, false, List, [], ◌∷◌, length, append-nil, ◌%◌,
  ==_ne, arith, pos, add32, le→leb, lt→ltb,
}
use tcp_archive.Cbuffer.{Cbuf, cbuf_get_range, cbuf_put_range, cbuf_mod}
use tcp_archive.Cbuffer.Ranges.{Holds, get_range_Holds, put_range_lem}
use tcp_archive.Socket.{Socket}
use tcp_archive.Seq.{
  send_room, can_accept_data_to_send, get_amount_able_to_send, send_flag_next, copy_data_from_user,
  data_from_buffer_to_network,
}
use tcp_archive.Seq.Send.{IsSending, get_amount_whole, data_whole}

-- What the sending thread asks for: the data `d`, of at least one byte, and no flag before it.
pub record IsReady (s : Socket) (n : ℕ) (d : List ℕ) : Type 0 where
  pub amount : get_amount_able_to_send s ≡ some (pos n)
  pub flag : send_flag_next s ≡ some false
  pub bytes : data_from_buffer_to_network s n ≡ some (pos n, d)

-- The socket with more data in its buffer.
abbrev pub written : Socket → Cbuf → ℕ → Socket
written s c n = record s { s_buf = c; send_written = add32 s.send_written n }

flag_not_next :
    (s : Socket) (d : List ℕ)
    → s.send_next ≢ s.send_written
    → cbuf_get_range s.s_buf s.send_next 1 ≡ some (pos 1, some d)
    → send_flag_next s ≡ some false
unfolding send_flag_next
flag_not_next s d ne got = rw (==_ne s.send_written s.send_next (λ e. ne (sym e)), got)

stored :
    (s : Socket) (x : ℕ) (xs : List ℕ)
    → IsSending s
    → s.send_written + suc (length xs) ≤ s.send_una + s.send_window
    → (c : Cbuf) × (cbuf_put_range s.s_buf (x ∷ xs) s.send_written (suc (length xs)) ≡ some c)
      × (cbuf_get_range c s.send_written (suc (length xs))
          ≡ some (pos (suc (length xs)), some (x ∷ xs)))
      × (cbuf_get_range c s.send_written 1 ≡ some (pos 1, some (x ∷ [])))
stored s x xs v fits =
    let (c, e, st) =
      put_range_lem (x ∷ xs) [] s.s_buf s.send_written v.ring (omega (arith, v, fits)) in
    let held : Holds c (cbuf_mod c s.send_written) (x ∷ xs) =
      subst (λ n. Holds c (s.send_written % n) (x ∷ xs)) (sym st.same_size) st.holds in
    (
      c,
      subst (λ t. cbuf_put_range s.s_buf t s.send_written (suc (length xs)) ≡ some c)
          (append-nil (x ∷ xs)) e,
      get_range_Holds x xs c s.send_written st.valid (omega (arith, v))
          (omega (arith, v, fits, st.same_size)) held,
      get_range_Holds x [] c s.send_written st.valid (omega (arith, v))
          (omega (arith, v, fits, st.same_size)) (held.0, tt),
    )

-- With nothing left to send, data that both windows have room for is stored, and is then all that there is to send.
pub copy_data-IsReady :
    (s : Socket) (x : ℕ) (xs : List ℕ)
    → IsSending s
    → s.send_next ≡ s.send_written
    → s.send_written + suc (length xs) ≤ s.send_una + s.send_window
    → s.send_written + suc (length xs) ≤ s.remote_flow_window
    → s.remote_flow_window < 2147483648
    → (c : Cbuf) × (copy_data_from_user s (x ∷ xs) (suc (length xs))
        ≡ some (written s c (suc (length xs))))
      × IsReady (written s c (suc (length xs))) (suc (length xs)) (x ∷ xs)
unfolding copy_data_from_user can_accept_data_to_send
copy_data-IsReady s x xs v e fits flow small =
    let n = suc (length xs) in
    let (c, put, whole, first) = stored s x xs v fits in
    let u = written s c n in
    let next : u.send_next ≢ u.send_written = omega (arith, v, e, fits) in
    let got = rw (← e) at whole in
    let amount =
      get_amount_whole u (length xs) (x ∷ xs) (ground (arith, v, e, fits, flow, small))
        (omega (arith, v, fits)) next got in
    (
      c,
      rw (
        lt→ltb 0 (send_room s) (omega (arith, v, fits)),
        le→leb s.send_next s.send_written v.next_le_written,
        le→leb (add32 s.send_written n) (add32 s.send_una s.send_window) (omega (arith, v, fits)),
        put,
      ),
      record {
        amount = amount;
        flag = flag_not_next u (x ∷ []) next (rw (← e) at first);
        bytes = data_whole u (length xs) (x ∷ xs) amount got;
      },
    )
