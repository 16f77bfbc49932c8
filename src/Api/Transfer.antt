-- ===== src/Api/Transfer.antt =====
-- A segment that arrives, `do_recv_tcp` of tcp_branch/van_driver.c, and the call `v_read` of tcp_branch/tcp.c behind it.
use tcp_archive.Prelude.{
  append-nil, ℕ, suc, ◌<◌, ◌≤◌, ◌≡◌, refl, some, true, List, [], ◌∷◌, length, subst, arith, pos,
  add32, ◌==◌, ==_ne, false,
}
use tcp_archive.External.{HTable, Bqueue, Host, IsHost}
use tcp_archive.Cbuffer.{Cbuf, cbuf_get_range, cbuf_put_range}
use tcp_archive.Cbuffer.Ranges.{get_range-put_range, put_range_lem}
use tcp_archive.Socket.{Socket}
use tcp_archive.Seq.{get_data_from_buffer}
use tcp_archive.Seq.Receive.{IsReceiving, get_data_whole}
use tcp_archive.Node.{Node}
use tcp_archive.Tcpm.{Ctx, tcpm_canread, tcpm_state}
use tcp_archive.Tcpm.Names.{st_estab}
use tcp_archive.Driver.{store, do_recv_tcp}
use tcp_archive.Driver.Receive.{IsData, CanSend, HasReceived, do_recv_tcp_data}
use tcp_archive.Api.{back, v_read}
use tcp_archive.Api.Sound.{focus-store}

-- The buffer after data is stored, which reads as that data.
stored :
    (s : Socket) (x : ℕ) (xs : List ℕ)
    → IsReceiving s
    → suc (length xs) ≤ s.recv_window
    → (c : Cbuf) × (cbuf_put_range s.r_buf (x ∷ xs) s.recv_next (suc (length xs)) ≡ some c)
      × (cbuf_get_range c s.recv_next (suc (length xs))
          ≡ some (pos (suc (length xs)), some (x ∷ xs)))
stored s x xs r fits =
    let (c, e, _) = put_range_lem (x ∷ xs) [] s.r_buf s.recv_next r.ring (omega (arith, r, fits)) in
    let e' =
      subst (λ t. cbuf_put_range s.r_buf t s.recv_next (suc (length xs)) ≡ some c)
        (append-nil (x ∷ xs)) e in
    (
      c,
      e',
      rw e at (
          get_range-put_range x xs [] s.r_buf s.recv_next r.ring (omega (arith, r))
            (omega (arith, r, fits))),
    )

reads : (s : Socket) → s.machine.current ≡ st_estab → tcpm_canread s ≡ true
unfolding tcpm_canread tcpm_state
reads s at = rw at refl

module _ {H : HTable} {B : Bqueue} (h : Host) where
  -- A read of exactly what was received.
  read_received :
      (w : Ctx H B) (s : Socket) (c : Cbuf) (x : ℕ) (xs : List ℕ)
      → HasReceived s w.sock c (suc (length xs))
      → s.fd < 256
      → IsReceiving s
      → s.recv_read ≡ s.recv_next
      → suc (length xs) ≤ s.recv_window
      → cbuf_get_range c s.recv_next (suc (length xs)) ≡ some (pos (suc (length xs)), some (x ∷ xs))
      → (node : Node H B) × (v_read h (store s.fd w) (pos s.fd) (pos (suc (length xs)))
          ≡ some (node, pos (suc (length xs)), x ∷ xs))
  unfolding v_read
  read_received w s c x xs got less r same fits e =
      let n = length xs in
      let u = record w.sock { recv_read = add32 w.sock.recv_read (suc n) } in
      let whole : get_data_from_buffer (suc w.sock.r_buf.size) w.sock (pos (suc n))
          ≡ some (u, pos (suc n), x ∷ xs) =
        get_data_whole w.sock n w.sock.r_buf.size (x ∷ xs) (omega (arith, r, same, fits, got))
          (omega (arith, r, same, fits, got)) (rw (got.r_buf, got.recv_read, same) e) in
      let zero : (suc n == 0) ≡ false = ==_ne (suc n) 0 (omega arith) in
      (
        back h (record { sock = u; node = store s.fd w }),
        rw (focus-store h s.fd w less, reads w.sock got.current) (rw (zero, whole) refl),
      )

  -- An established socket with a number below 256 and a machine that was set, whose user has read all that came so far,
  -- gets a segment without flags, with at least one byte of data, that begins at the next byte expected and ends before
  -- the last byte of the window. The receive pointers are in order, the window has at most 4096 bytes and ends below 2 ^ 31,
  -- the ring has 8194 cells, the socket's ports and send pointer have their
  -- field's size, and memory has the size that was asked for. Then `do_recv_tcp` does not end the process, the connection
  -- stays established with the receive pointers past the data, and a call of `v_read` behind it, once the socket is back
  -- in its slot, that asks for as many bytes as the segment has returns the segment's data.
  pub v_read-do_recv_tcp :
      IsHost h
      → (w : Ctx H B) (p : List ℕ) (x : ℕ) (xs : List ℕ) (ack win : ℕ)
      → IsData p w.sock.recv_ack ack win (x ∷ xs)
      → w.sock.fd < 256
      → IsReceiving w.sock
      → w.sock.recv_read ≡ w.sock.recv_next
      → suc (length xs) < w.sock.recv_window
      → w.sock.machine_set ≡ true
      → w.sock.machine.current ≡ st_estab
      → CanSend w.sock
      → (w' : Ctx H B) × (do_recv_tcp h w p ≡ some w')
        × (w'.sock.machine.current ≡ st_estab)
        × (w'.sock.recv_next ≡ add32 w.sock.recv_next (suc (length xs)))
        × (w'.sock.recv_ack ≡ add32 w.sock.recv_ack (suc (length xs)))
        × (node : Node H B) × (v_read h (store w.sock.fd w') (pos w.sock.fd) (pos (suc (length xs)))
            ≡ some (node, pos (suc (length xs)), x ∷ xs))
  v_read-do_recv_tcp host w p x xs ack win v less r same fits set at can =
      let (c, put, get) = stored w.sock x xs r (omega (arith, fits)) in
      let (w', e, got) =
        do_recv_tcp_data h host w p (x ∷ xs) ack win c v r (omega (arith, r, same)) (omega arith)
          (omega (arith, r, same, fits)) set at can put in
      let (node, read) = read_received w' w.sock c x xs got less r same (omega (arith, fits)) get in
      (w', e, got.current, got.recv_next, got.recv_ack, node, read)
