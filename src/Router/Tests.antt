-- ===== src/Router/Tests.antt =====
-- The theorems about packets on their way at concrete nodes.
use tcp_archive.Prelude.{ℕ, ◌+◌, ◌%◌, ◌≡◌, refl, some, List, [], ◌∷◌, ◌++◌, length, take, arith}
use tcp_archive.External.Concrete.{assoc_table, list_queue, sample_host, sample_host-IsHost}
use tcp_archive.Packet.{build_packet, build_tcp_packet, proto_data, proto_tcp, get_ttl}
use tcp_archive.Packet.Tcp.{payload_of}
use tcp_archive.Rtable.{Entry, rtable_get, lookup_route}
use tcp_archive.Node.{Node, van_driver_sendto}
use tcp_archive.Node.Sample.{sample_node}
use tcp_archive.Router.{sender_step, listener_step, van_driver_recvfrom}
use tcp_archive.Router.Header.{header, peer, arrived}
use tcp_archive.Router.Deliver.{recvfrom-sendto}
use tcp_archive.Router.Forward.{recvfrom-forward}
use tcp_archive.Router.Segments.{listener-build_tcp_packet}

-- Node 3 with a route to node 5 over interface 1.
abbrev to_5 : Entry
to_5 = record { addr = 5; iface = 1; next_hop = 5; type = 3; cost = 1 }

abbrev routed : Node assoc_table list_queue
routed = record sample_node { route_table = (5, to_5) ∷ [] }

abbrev payload : List ℕ
payload = 104 ∷ 101 ∷ 121 ∷ []

has_route : rtable_get assoc_table 255 routed.route_table 5 ≡ some 5
unfolding rtable_get
has_route = refl

finds_route : lookup_route assoc_table 255 routed.route_table 5 ≡ some 5
unfolding lookup_route rtable_get
finds_route = refl

-- Node 5 reads the first two bytes.
recvfrom-sendto_example :
    let from' =
      (van_driver_sendto assoc_table list_queue sample_host routed payload
        (length payload)
        5
        proto_data).0 in
    (p : List ℕ) × ((sender_step from').1 ≡ (to_5.iface, p) ∷ [])
    × (to' : Node assoc_table list_queue) × (listener_step (peer sample_host 5) sample_node 0 p
        ≡ some to')
    × (to'' : Node assoc_table list_queue) × (van_driver_recvfrom to' 2
        ≡ some (to'', some (take 2 payload)))
    × (list_queue.contents to''.receiving_q ≡ [])
recvfrom-sendto_example =
    recvfrom-sendto sample_host sample_host-IsHost routed sample_node payload 5 0 2 5 to_5
      (omega arith) (omega arith) (omega arith) has_route refl (omega arith) (omega arith) refl refl

-- A packet from node 9 to node 5 whose time to live is 0: 16 is version 1 with the protocol of datagrams, and
-- the sum of the header's bytes is its checksum.
recvfrom-forward_example :
    (router' : Node assoc_table list_queue) × (p : List ℕ) × (listener_step sample_host routed 0
        (header 16 11 0 0 41 0 9 5 ++ payload)
      ≡ some router')
    × ((sender_step router').1 ≡ (to_5.iface, p) ∷ [])
    × (get_ttl p ≡ some ((0 + 255) % 256))
    × (to' : Node assoc_table list_queue) × (listener_step (peer sample_host 5) sample_node 1 p
        ≡ some to')
    × (to'' : Node assoc_table list_queue) × (van_driver_recvfrom to' 9
        ≡ some (to'', some (take 9 payload)))
recvfrom-forward_example =
    recvfrom-forward sample_host sample_host-IsHost routed sample_node 0 1 5 9 16 11 0 0 41 0 9 5
      payload to_5 (omega arith) (omega arith) refl refl refl (omega arith) finds_route refl
      (omega arith) (omega arith) refl refl

listener-build_tcp_packet_example :
    (p : List ℕ) × (build_tcp_packet sample_host
        (some payload)
        (length (payload_of (some payload)))
        80
        90
        1000
        2000
        16
        4096
        5
      ≡ some p)
    × (let q = build_packet sample_host p (length p) 5 proto_tcp in
        listener_step (peer sample_host 5) sample_node 1 q
        ≡ some (record (arrived sample_node 1) { tcp_q = list_queue.enqueue sample_node.tcp_q q }))
listener-build_tcp_packet_example =
    listener-build_tcp_packet sample_host sample_host-IsHost sample_node (some payload) 1 80 90 1000
      2000 16 4096 5
      (record {
        srcport = omega arith;
        destport = omega arith;
        seqnum = omega arith;
        acknum = omega arith;
        flags_byte = omega arith;
        window_field = omega arith;
      })
      (omega arith) (omega arith) (omega arith)
