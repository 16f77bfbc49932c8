-- ===== src/Api.antt =====
-- The socket calls of tcp_branch/tcp.c. A call gets the node and gives it back with its result; a
-- call that waits is split in two at `wait_for_event`, and its second part has `none` as result while
-- it sleeps. The outer `none` is the end of the process, as for a socket number that has no socket.
pub mod Sound
mod Tests
pub mod Transfer
use tcp_archive.Prelude.{
  ℕ, suc, Option, none, some, true, false, not, ◌&&◌, bit_or, List, [], ◌==◌, if◌then◌else◌, ℤ, pos,
  pos_part, minus_one, ltb_ℤ, min_ℤ, ◌>>=◌, ◌>>◌, assert,
}
use tcp_archive.External.{HTable, Bqueue, Host}
use tcp_archive.Socket.{Socket, wait_for_event, tcp_ok, tcp_error, tcp_timeout}
use tcp_archive.Socktable.{socktable_put}
use tcp_archive.Seq.{get_data_from_buffer, get_amount_able_to_accept, copy_data_from_user}
use tcp_archive.Node.{Node}
use tcp_archive.Tcpm.{
  Ctx, null, next_rand, tcpm_canbind, tcpm_canread, tcpm_cansend, tcpm_canaccept, tcpm_canclose,
}
use tcp_archive.Tcpm.Names.{on_active_open, on_passive_open, on_close}
use tcp_archive.Tcp.{get_socket_from_int}
use tcp_archive.Statefunc.{node_arg, null_arg, tuple_of, tcpm_event}
use tcp_archive.Driver.{store, sys_socket}

module _ {H : HTable} {B : Bqueue} (h : Host) where
  -- A call's socket: a null pointer is read through.
  abbrev pub focus : Node H B → ℤ → Option (Ctx H B)
  focus node s = get_socket_from_int h node s >>= λ slot.
      slot >>= λ sock. some (record { sock = sock; node = node })

  abbrev pub back : Ctx H B → Node H B
  back w = store w.sock.fd w

  abbrev pub fails : Ctx H B → Option (Node H B × ℤ)
  fails w = some (back w, minus_one)

  -- `v_socket`
  unfoldable pub v_socket : Socket → Node H B → Option (Node H B × ℤ)
  v_socket raw node = do
    (node', s) ← sys_socket h raw false node
    some (node', elim s [ none ↦ minus_one | some fd ↦ pos fd ])

  pub v_bind : Node H B → ℤ → ℕ → Option (Node H B × ℤ)
  v_bind node socket port = do
    w ← focus node socket
    (if tcpm_canbind w.sock
        then some (back (record w { sock = record w.sock { local_port = port } }), pos 0)
        else fails w)

  pub v_listen : Node H B → ℤ → Option (Node H B × ℤ)
  v_listen node socket = do
    w ← focus node socket
    (if tcpm_canbind w.sock
        then (let (node', r) = next_rand w.node in
            tcpm_event H B h on_passive_open node_arg null
              (record { sock = record w.sock { seq_num = r }; node = node' })
            >>= λ (w', failed). some (back w', if failed then minus_one else pos 0))
        else fails w)

  -- `v_connect` up to the wait: the result `none` is that it now waits.
  unfoldable pub v_connect : Node H B → ℤ → ℕ → ℕ → Option (Node H B × Option ℤ)
  v_connect node socket to port = do
    w ← focus node socket
    (if tcpm_canbind w.sock
        then (let (node', r) = next_rand w.node in
            let sock = record w.sock {
              remote_node = to;
              remote_port = port;
              seq_num = r;
              ack_num = 0;
              can_handshake = true;
              send_una = r;
              send_next = r;
              send_written = r;
            } in
            let node'' = record node' {
              tuple_table = (socktable_put H node'.tuple_table (tuple_of h sock) sock.fd true).0;
            } in
            tcpm_event H B h on_active_open null_arg null (record { sock = sock; node = node'' })
            >>= λ (w', failed). some (
                if failed then (back w', some minus_one) else (
                  back (record w' { sock = record w'.sock { ufunc_timeout = w'.node.now } }),
                  none,
                )))
        else some (back w, some minus_one))

  -- The end of `v_connect`, which sleeps until one of its three events is there.
  unfoldable pub v_connect_end : Node H B → ℤ → Option (Node H B × Option ℤ)
  v_connect_end node socket = do
    w ← focus node socket
    elim (wait_for_event w.sock (bit_or (bit_or tcp_ok tcp_error) tcp_timeout)) [
      | none ↦ some (node, none)
      | some (status, sock) ↦ some (
        back (record w { sock = record sock { ufunc_timeout = 0 } }),
        some (if status == tcp_ok then pos 0 else minus_one),
      )
    ]

  pub v_accept : Node H B → ℤ → Option (Node H B × Option ℤ)
  v_accept node socket = do
    w ← focus node socket
    some (
        if tcpm_canaccept w.sock
        then (
          back (record w {
            sock = record w.sock { can_handshake = true; ufunc_timeout = w.node.now };
          }),
          none,
        )
        else (back w, some minus_one))

  pub v_accept_end : Node H B → ℤ → Option (Node H B × Option ℤ)
  v_accept_end node socket = do
    w ← focus node socket
    elim (wait_for_event w.sock (bit_or tcp_ok tcp_error)) [
      | none ↦ some (node, none)
      | some (status, sock) ↦ some (
        back (record w { sock = record sock { ufunc_timeout = 0; can_handshake = false } }),
        some (if status == tcp_ok then sock.new_fd else minus_one),
      )
    ]

  -- `v_read` does not wait. The fuel of `getDataFromBuffer` is one more than the cells of a buffer.
  unfoldable pub v_read : Node H B → ℤ → ℤ → Option (Node H B × ℤ × List ℕ)
  v_read node socket nbyte = do
    w ← focus node socket
    (if tcpm_canread w.sock
        then (if pos_part nbyte == 0 && not (ltb_ℤ nbyte (pos 0))
            then some (back w, pos 0, [])
            else (get_data_from_buffer (suc w.sock.r_buf.size) w.sock nbyte >>= λ (sock, n, bytes).
                some (back (record w { sock = sock }), n, bytes)))
        else some (back w, minus_one, []))

  -- `v_write`. `copyDataFromUser` gets the size as an `int`.
  unfoldable pub v_write : Node H B → ℤ → List ℕ → ℕ → Option (Node H B × ℤ)
  v_write node socket bytes nbytes = do
    w ← focus node socket
    (if tcpm_cansend w.sock
        then (let will_send = min_ℤ (get_amount_able_to_accept w.sock) (pos nbytes) in
            assert (not (ltb_ℤ will_send (pos 0)))
            >> copy_data_from_user w.sock bytes (pos_part will_send)
            >>= λ sock. some (back (record w { sock = sock }), will_send))
        else fails w)

  pub v_close : Node H B → ℤ → Option (Node H B × Option ℤ)
  v_close node socket = do
    w ← focus node socket
    (if tcpm_canclose w.sock
        then (tcpm_event H B h on_close null_arg null w >>= λ (w', failed).
            some (back w', if failed then some minus_one else none))
        else some (back w, some minus_one))

  pub v_close_end : Node H B → ℤ → Option (Node H B × Option ℤ)
  v_close_end node socket = do
    w ← focus node socket
    elim (wait_for_event w.sock tcp_ok) [
      | none ↦ some (node, none)
      | some (status, sock) ↦
          some
            (back (record w { sock = sock }), some (if status == tcp_ok then pos 0 else minus_one))
    ]
