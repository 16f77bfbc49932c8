-- ===== src/Stream/Receive.antt =====
-- The receiving node: a round of `tcp_thread` of tcp_branch/van_driver.c for a segment of data, and `v_read` of
-- tcp_branch/tcp.c behind it.
use tcp_archive.Prelude.{ℕ, suc, ◌<◌, ◌≡◌, some, true, List, ◌∷◌, length, pos}
use tcp_archive.External.{HTable, Bqueue, Host, IsHost}
use tcp_archive.Socket.{Socket}
use tcp_archive.Socktable.{socktable_get}
use tcp_archive.Seq.Receive.{IsReceiving}
use tcp_archive.Node.{Node}
use tcp_archive.Tcpm.{Ctx}
use tcp_archive.Tcpm.Names.{st_estab}
use tcp_archive.Driver.{store, do_recv_tcp, deliver, tcp_handle, tcp_step}
use tcp_archive.Driver.Receive.{IsData, CanSend}
use tcp_archive.Api.{v_read}
use tcp_archive.Api.Transfer.{v_read-do_recv_tcp}
use tcp_archive.Stream.Segment.{IsBetween}

-- An established socket that has read all that came, with room for more than `n` bytes.
pub record HasRoom (t : Socket) (n : ℕ) : Type 0 where
  pub small : t.fd < 256
  pub receiving : IsReceiving t
  pub all_read : t.recv_read ≡ t.recv_next
  pub room : n < t.recv_window
  pub machine_set : t.machine_set ≡ true
  pub current : t.machine.current ≡ st_estab
  pub can_send : CanSend t

module _ {H : HTable} {B : Bqueue} (h : Host) where
  tcp_step_data :
      (raw : Socket) (node : Node H B) (q : B.Queue (List ℕ)) (p bytes : List ℕ) (t : Socket)
      (w' : Ctx H B) (seq ack win src sp dst dp : ℕ)
      → B.dequeue node.tcp_q ≡ some (p, q)
      → IsData p seq ack win bytes
      → IsBetween p src sp dst dp
      → socktable_get H node.tuple_table dst dp src sp true ≡ some t.fd
      → node.socket_table t.fd ≡ some t
      → do_recv_tcp h (record { sock = t; node = record node { tcp_q = q } }) p ≡ some w'
      → tcp_step h raw node ≡ some (store t.fd w')
  unfolding tcp_step tcp_handle deliver
  tcp_step_data raw node q p bytes t w' seq ack win src sp dst dp first v b found here done =
      rw (first, tcp_step)
        (rw (b.srcport, b.destport)
          (rw (b.src_field, b.dst_field, v.flags) (rw (v.seqnum, found) (rw (here, done)))))

  -- A round of `tcp_thread` for a segment that a socket has room for, and a read of what it brought.
  pub v_read-tcp_step :
      IsHost h
      → (raw : Socket) (node : Node H B) (q : B.Queue (List ℕ)) (p : List ℕ) (x : ℕ) (xs : List ℕ)
        (t : Socket) (ack win src sp dst dp : ℕ)
      → B.dequeue node.tcp_q ≡ some (p, q)
      → IsData p t.recv_ack ack win (x ∷ xs)
      → IsBetween p src sp dst dp
      → socktable_get H node.tuple_table dst dp src sp true ≡ some t.fd
      → node.socket_table t.fd ≡ some t
      → HasRoom t (suc (length xs))
      → (node' : Node H B) × (tcp_step h raw node ≡ some node')
        × (node'' : Node H B) × (v_read h node' (pos t.fd) (pos (suc (length xs)))
            ≡ some (node'', pos (suc (length xs)), x ∷ xs))
  v_read-tcp_step host raw node q p x xs t ack win src sp dst dp first v b found here c =
      let (w', done, _, _, _, node'', read) =
        v_read-do_recv_tcp h host (record { sock = t; node = record node { tcp_q = q } }) p x xs ack
          win v c.small c.receiving c.all_read c.room c.machine_set c.current c.can_send in
      (
        store t.fd w',
        tcp_step_data raw node q p (x ∷ xs) t w' t.recv_ack ack win src sp dst dp first v b found
            here done,
        node'',
        read,
      )
