-- ===== src/Api/Tests.antt =====
-- The theorems about the socket calls at a concrete connection.
use tcp_archive.Prelude.{
  ℕ, suc, ◌≡◌, refl, some, List, [], ◌∷◌, ◌++◌, length, length-replicate, pos, arith, add32,
}
use tcp_archive.External.Concrete.{assoc_table, list_queue, sample_host, sample_host-IsHost}
use tcp_archive.Seq.Receive.{IsReceiving}
use tcp_archive.Node.{Node}
use tcp_archive.Node.Sample.{sample_node, sample_sock}
use tcp_archive.Tcpm.{Ctx}
use tcp_archive.Tcpm.Names.{st_estab}
use tcp_archive.Driver.{store, do_recv_tcp}
use tcp_archive.Driver.Receive.{IsData}
use tcp_archive.Api.{v_read}
use tcp_archive.Api.Transfer.{v_read-do_recv_tcp}

abbrev at_sock : Ctx assoc_table list_queue
at_sock = record { sock = sample_sock; node = sample_node }

abbrev two : List ℕ
two = 8 ∷ 9 ∷ []

-- From port 90 to port 80, at 100, with acknowledgement 500, no flags, window 4096 and three bytes.
abbrev segment : List ℕ
segment =
    (17 ∷ 31 ∷ 0 ∷ 5 ∷ 0 ∷ 0 ∷ 5 ∷ 2 ∷ [])
    ++ (90 ∷ 0 ∷ 80 ∷ 0 ∷ 100 ∷ 0 ∷ 0 ∷ 0 ∷ 244 ∷ 1 ∷ 0 ∷ 0 ∷ 0 ∷ 0 ∷ 0 ∷ 16 ∷ 0 ∷ 0 ∷ 0 ∷ 0 ∷ [])
    ++ (7 ∷ two)

segment-IsData : IsData segment 100 500 4096 (7 ∷ two)
segment-IsData = record {
  seqnum = refl;
  acknum = refl;
  window = refl;
  flags = refl;
  data_len = refl;
  payload = refl;
}

sample-IsReceiving : IsReceiving sample_sock
sample-IsReceiving = record {
  ring = record {
    pos_size = omega arith;
    int_size = omega arith;
    room = length-replicate {A = ℕ} 16388 0;
  };
  ring_size = refl;
  window_small = omega arith;
  read_le_ack = omega arith;
  ack_le_next = omega arith;
  next_le_end = omega arith;
  no_wrap = omega arith;
}

v_read-do_recv_tcp_example :
    (w' : Ctx assoc_table list_queue) × (do_recv_tcp sample_host at_sock segment ≡ some w')
    × (w'.sock.machine.current ≡ st_estab)
    × (w'.sock.recv_next ≡ add32 sample_sock.recv_next (suc (length two)))
    × (w'.sock.recv_ack ≡ add32 sample_sock.recv_ack (suc (length two)))
    × (node : Node assoc_table list_queue) × (v_read sample_host
          (store sample_sock.fd w')
          (pos sample_sock.fd)
          (pos (suc (length two)))
        ≡ some (node, pos (suc (length two)), 7 ∷ two))
v_read-do_recv_tcp_example =
    v_read-do_recv_tcp sample_host sample_host-IsHost at_sock segment 7 two 500 4096 segment-IsData
      (omega arith) sample-IsReceiving refl (omega arith) refl refl
      (record { local_port = omega arith; remote_port = omega arith; send_next = omega arith })
