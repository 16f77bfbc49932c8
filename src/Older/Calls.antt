-- ===== src/Older/Calls.antt =====
-- The calls of tcp.c of the older copy that use a socket's two buffers, on the part of the socket that seq.c knows.
mod Tests
use tcp_archive.Prelude.{
  ℕ, suc, ◌+◌, ◌≤◌, ◌<◌, ◌≡◌, refl, ap, ◌∙◌, true, false, Option, none, some, sym, int_leb, List,
  [], ◌∷◌, ◌++◌, length, arith, ℤ, pos, ◌==◌, add32, sub32, ◌>>=◌, if◌then◌else◌,
}
use tcp_archive.Cbuffer.{Cbuf, cbuf_new, cbuf_put_flag}
use tcp_archive.Cbuffer.Cells.{IsValid}
use tcp_archive.Socket.{send_window_size}
use tcp_archive.Older.Seq.{
  Socket, int_min, amount_of_data_to_read, get_data_from_buffer, get_amount_able_to_accept,
  copy_data_from_user, data_from_network_to_buffer, ack_data, data_from_buffer_to_network,
}
use tcp_archive.Older.Seq.Transfer.{data_from_network_lem, data_from_buffer-copy_data_from_user}

-- What `sys_socket` sets, with what the memory of the two buffers held and that of `last_ack`, which it leaves as it is.
pub new_socket : List ℕ → List ℕ → ℕ → Option Socket
new_socket r_heap s_heap last_ack_heap = do
  r_buf ← cbuf_new r_heap (send_window_size + send_window_size)
  s_buf ← cbuf_new s_heap (send_window_size + send_window_size)
  some (record {
    seq_num = 0;
    last_ack = last_ack_heap;
    r_buf = r_buf;
    s_buf = s_buf;
    send_una = 0;
    send_next = 0;
    send_written = 0;
    remote_flow_window = send_window_size;
    recv_next = 0;
    recv_read = 0;
    recv_window = send_window_size;
    send_window = send_window_size;
  })

pub queue_up_flags : Socket → ℕ → Option Socket
queue_up_flags sock flags = do
  s_buf ← cbuf_put_flag sock.s_buf sock.send_written flags
  some (record sock { s_buf = s_buf; send_written = add32 sock.send_written 1 })

-- `v_read`: the socket, the result and the bytes. It does not use the size of the user's buffer, `nbyte`.
pub v_read : Socket → ℕ → Option (Socket × ℕ × List ℕ)
v_read sock nbyte = amount_of_data_to_read sock >>= λ amount. elim (amount == 0) [
  | true ↦ some (sock, 0, [])
  | false ↦ get_data_from_buffer sock amount
]

-- `v_write`
pub v_write : Socket → List ℕ → ℕ → Option (Socket × ℕ)
v_write sock bytes nbytes = do
  let will_send = int_min (get_amount_able_to_accept sock) nbytes
  sock' ← copy_data_from_user sock bytes will_send
  some (sock', will_send)

v_read_whole :
    (u : Socket) (n nbyte : ℕ)
    → u.recv_read + suc n ≡ u.recv_next
    → u.recv_next < 2147483648
    → v_read u nbyte ≡ get_data_from_buffer u (suc n)
unfolding v_read amount_of_data_to_read
v_read_whole u n nbyte e small =
    let amount : sub32 u.recv_next u.recv_read ≡ suc n = omega arith in
    let ordered : int_leb u.recv_read u.recv_next ≡ true = ground arith in
    rw (ordered, amount) (ground arith)

-- With no data left to read, at least one byte that the window and the ring have room for is stored, and once it is
-- acknowledged `v_read` returns all of it, however small the user's buffer is, and leaves nothing, for pointers below
-- 2 ^ 31. The window is then greater by that number: the read opens it, and nothing has closed it.
pub v_read-data_from_network :
    (o : Socket) (x : ℕ) (xs rest : List ℕ) (nbyte : ℕ)
    → IsValid o.r_buf
    → o.recv_read ≡ o.recv_next
    → suc (length xs) ≤ o.r_buf.size
    → suc (length xs) ≤ o.recv_window
    → o.recv_next + suc (length xs) < 2147483648
    → o.recv_window + suc (length xs) < 2147483648
    → (o' : Socket) × ((data_from_network_to_buffer o (x ∷ xs ++ rest) (suc (length xs)) >>= λ t.
          v_read (ack_data t (suc (length xs))) nbyte)
        ≡ some (o', suc (length xs), x ∷ xs))
      × (o'.recv_read ≡ o'.recv_next)
      × (o'.recv_window ≡ o.recv_window + suc (length xs))
unfolding ack_data
v_read-data_from_network o x xs rest nbyte v e fits room small wide =
    let n = suc (length xs) in
    let (c', stored, got) = data_from_network_lem o x xs rest v e fits room small (omega arith) in
    let u = ack_data (record o { r_buf = c' }) n in
    (
      record u { recv_read = add32 o.recv_read n; recv_window = add32 o.recv_window n },
      rw stored (v_read_whole u (length xs) nbyte (omega arith) (omega arith) ∙ got),
      ap (λ k. add32 k n) e,
      omega arith,
    )

sent {ℓ} :
    {B : Type ℓ} (c : Option Socket) (n : ℕ) (f : Socket → Option B)
    → (◌>>=◌ {A = Socket × ℕ} (c >>= λ s. some (s, n)) (λ t. f t.0)) ≡ (c >>= f)
sent none n f = refl
sent (some s) n f = refl

-- With nothing left to send, `v_write` of at least one byte takes the bytes that the send window has room for, and those
-- are what goes to the network, where the peer's window and the ring have room for them too, for pointers below 2 ^ 31;
-- nothing is left to send again.
pub data_from_buffer-v_write :
    (o : Socket) (x : ℕ) (xs rest : List ℕ) (nbytes : ℕ)
    → IsValid o.s_buf
    → o.send_next ≡ o.send_written
    → suc (length xs) ≤ o.s_buf.size
    → suc (length xs) ≡ int_min (get_amount_able_to_accept o) nbytes
    → o.send_una + o.send_window < 2147483648
    → o.send_written + suc (length xs) ≤ o.remote_flow_window
    → o.remote_flow_window < 2147483648
    → (o' : Socket) × ((v_write o (x ∷ xs ++ rest) nbytes >>= λ t.
          data_from_buffer_to_network t.0 (suc (length xs)))
        ≡ some (o', pos (suc (length xs)), x ∷ xs))
      × (o'.send_next ≡ o'.send_written)
      × (o'.send_written ≡ o.send_written + suc (length xs))
unfolding v_write get_amount_able_to_accept
data_from_buffer-v_write o x xs rest nbytes v e fits takes small flow wide =
    let n = suc (length xs) in
    rw
      (
        sym takes,
        sent (copy_data_from_user o (x ∷ xs ++ rest) n) n (λ t. data_from_buffer_to_network t n),
      )
      (data_from_buffer-copy_data_from_user o x xs rest v e fits (ground (arith, v, takes)) small
        flow wide)
