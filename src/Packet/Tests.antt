-- ===== src/Packet/Tests.antt =====
-- The theorems about the packets at concrete arguments.
use tcp_archive.Prelude.{ℕ, ◌+◌, ◌≡◌, some, Option, List, [], ◌∷◌, length, arith}
use tcp_archive.External.Concrete.{sample_host, sample_host-IsHost}
use tcp_archive.Packet.{build_tcp_packet, build_packet, ip_to_tcp}
use tcp_archive.Packet.Tcp.{HasFields, IsSegment, payload_of, build_tcp_packet_lem}
use tcp_archive.Packet.Ip.{HasIpFields, build_packet_lem}

abbrev bytes : List ℕ
bytes = 104 ∷ 105 ∷ []

abbrev payload : Option (List ℕ)
payload = some bytes

build_tcp_packet_lem_example :
    (p : List ℕ) × (csum : ℕ) × (build_tcp_packet sample_host payload
        (length (payload_of payload))
        80
        90
        1000
        2000
        16
        4096
        5
      ≡ some p)
    × HasFields p 80 90 1000 2000 16 4096 csum
    × IsSegment sample_host p (payload_of payload) 5 csum
build_tcp_packet_lem_example =
    build_tcp_packet_lem sample_host payload 80 90 1000 2000 16 4096 5 sample_host-IsHost (record {
      srcport = omega arith;
      destport = omega arith;
      seqnum = omega arith;
      acknum = omega arith;
      flags_byte = omega arith;
      window_field = omega arith;
    })

build_packet_lem_example :
    let p = build_packet sample_host bytes (length bytes) 5 2 in
    (csum : ℕ) × HasIpFields p 2 (length bytes + 8) sample_host.vn_num 5 csum
    × (ip_to_tcp p ≡ bytes)
    × (length p ≡ length bytes + 8)
build_packet_lem_example =
    build_packet_lem sample_host bytes 5 2 sample_host-IsHost (omega arith) (omega arith)
      (omega arith)
