-- ===== src/Stream/Tests.antt =====
-- The bytes of a user at two concrete nodes.
use tcp_archive.Prelude.{ℕ, ◌≡◌, refl, some, true, List, [], ◌∷◌, length-replicate, pos, arith}
use tcp_archive.External.{Host}
use tcp_archive.External.Concrete.{assoc_table, list_queue, sample_host, sample_host-IsHost}
use tcp_archive.Cbuffer.Cells.{IsValid}
use tcp_archive.Rtable.{Entry, rtable_get}
use tcp_archive.Socket.{Socket}
use tcp_archive.Socktable.{socktable_get, socktable_put}
use tcp_archive.Node.{Node}
use tcp_archive.Node.Sample.{sample_node, sample_sock, sample_ring}
use tcp_archive.Router.{sender_step, listener_step}
use tcp_archive.Router.Header.{peer}
use tcp_archive.Tcpm.{Ctx}
use tcp_archive.Driver.{store, tcp_send_step, tcp_step}
use tcp_archive.Api.{v_write, v_read}
use tcp_archive.Stream.{CanWrite, v_read-v_write}
use tcp_archive.Stream.Receive.{HasRoom}

-- Node 3, with a connection to node 5 and a route over interface 1.
abbrev to_5 : Entry
to_5 = record { addr = 5; iface = 1; next_hop = 5; type = 3; cost = 1 }

abbrev here : Node assoc_table list_queue
here = record sample_node { route_table = (5, to_5) ∷ []; socket_table = λ i. some sample_sock }

-- Node 5, with the other end of the connection in slot 4.
abbrev peer_sock : Socket
peer_sock = record sample_sock {
  fd = 4;
  local_port = 90;
  remote_node = 3;
  remote_port = 80;
  recv_ack = 500;
  recv_next = 500;
  recv_read = 500;
}

abbrev there : Node assoc_table list_queue
there = record sample_node {
  socket_table = λ i. some peer_sock;
  tuple_table =
      (socktable_put assoc_table [] (record { lnode = 5; lport = 90; rnode = 3; rport = 80 }) 4
        true).0;
}

abbrev two : List ℕ
two = 8 ∷ 9 ∷ []

ring-IsValid : IsValid sample_ring
ring-IsValid = record {
  pos_size = omega arith;
  int_size = omega arith;
  room = length-replicate {A = ℕ} 16388 0;
}

sample-CanWrite : CanWrite sample_sock 3
sample-CanWrite = record {
  small = omega arith;
  current = refl;
  sending = record {
    ring = ring-IsValid;
    ring_size = refl;
    window_small = omega arith;
    una_le_written = omega arith;
    next_le_written = omega arith;
    written_le_end = omega arith;
    no_wrap = omega arith;
  };
  all_sent = refl;
  room = omega arith;
  peer_room = omega arith;
  flow_small = omega arith;
  local_port = omega arith;
  remote_port = omega arith;
  recv_ack = omega arith;
}

peer-HasRoom : HasRoom peer_sock 3
peer-HasRoom = record {
  small = omega arith;
  receiving = record {
    ring = ring-IsValid;
    ring_size = refl;
    window_small = omega arith;
    read_le_ack = omega arith;
    ack_le_next = omega arith;
    next_le_end = omega arith;
    no_wrap = omega arith;
  };
  all_read = refl;
  room = omega arith;
  machine_set = refl;
  current = refl;
  can_send = record {
    local_port = omega arith;
    remote_port = omega arith;
    send_next = omega arith;
  };
}

has_route : rtable_get assoc_table 255 here.route_table 5 ≡ some 5
unfolding rtable_get
has_route = refl

finds_socket : socktable_get assoc_table there.tuple_table 5 90 3 80 true ≡ some 4
unfolding socktable_get socktable_put
finds_socket = refl

v_read-v_write_example :
    let g : Host = peer sample_host 5 in
    (a : Node assoc_table list_queue) × (v_write sample_host here (pos 0) (7 ∷ two) 3
      ≡ some (a, pos 3))
    × (s' : Socket) × (a.socket_table 0 ≡ some s')
    × (w : Ctx assoc_table list_queue) × (tcp_send_step sample_host (record { sock = s'; node = a })
        ≡ some w)
    × (p : List ℕ) × ((sender_step (store 0 w)).1 ≡ (1, p) ∷ [])
    × (b : Node assoc_table list_queue) × (listener_step g there 0 p ≡ some b)
    × (b' : Node assoc_table list_queue) × (tcp_step g sample_sock b ≡ some b')
    × (b'' : Node assoc_table list_queue) × (v_read g b' (pos 4) (pos 3)
        ≡ some (b'', pos 3, 7 ∷ two))
v_read-v_write_example =
    v_read-v_write sample_host sample_host-IsHost here there sample_sock peer_sock sample_sock 7 two
      0 5 to_5 refl sample-CanWrite (omega arith) (omega arith) has_route refl (omega arith)
      (omega arith) refl refl refl peer-HasRoom finds_socket refl
