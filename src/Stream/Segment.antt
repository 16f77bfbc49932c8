-- ===== src/Stream/Segment.antt =====
-- A segment of data as a packet: `build_tcp_packet` of tcp_branch/tcp.c inside `buildPacket` of
-- tcp_branch/van_driver.c, as `tcp_thread` reads it.
use tcp_archive.Prelude.{
  ℕ, ◌+◌, ◌<◌, ◌≡◌, sym, ◌∙◌, ap, some, some_injective, List, length, drop, u32, ◌>>=◌, arith,
}
use tcp_archive.External.{Host, IsHost}
use tcp_archive.Packet.{
  build_packet, build_tcp_packet, proto_tcp, get_src, get_dst, get_srcport, get_destport, ip_to_tcp,
  tcp_header_size, get_seqnum, get_acknum, get_window, get_flags,
}
use tcp_archive.Packet.Ip.{build_packet_lem}
use tcp_archive.Packet.Tcp.{InRange, build_tcp_packet_lem}
use tcp_archive.Driver.Receive.{IsData}

-- The four-tuple of a packet.
pub record IsBetween (q : List ℕ) (src sp dst dp : ℕ) : Type 0 where
  pub src_field : get_src q ≡ some src
  pub dst_field : get_dst q ≡ some dst
  pub srcport : get_srcport (ip_to_tcp q) ≡ some sp
  pub destport : get_destport (ip_to_tcp q) ≡ some dp

-- A segment of data in a packet reads back as it was made.
pub IsData-build_packet :
    (h : Host) (bytes p : List ℕ) (sp dp seq ack window dst : ℕ)
    → IsHost h
    → InRange sp dp seq ack 0 window
    → dst < 256
    → length bytes + 28 < 65536
    → build_tcp_packet h (some bytes) (length bytes) sp dp seq ack 0 window dst ≡ some p
    → let q = build_packet h p (length p) dst proto_tcp in
      IsData q seq ack window bytes
      × IsBetween q h.vn_num sp dst dp
      × (length p ≡ length bytes + 20)
IsData-build_packet h bytes p sp dp seq ack window dst host r pd len e =
    let (p', csum, e', f, seg) =
      build_tcp_packet_lem h (some bytes) sp dp seq ack 0 window dst host r in
    let same : p' ≡ p = some_injective (sym e' ∙ e) in
    let size : length p ≡ length bytes + 20 = ap length (sym same) ∙ seg.size in
    let (c, ip, inner, total) =
      build_packet_lem h p dst proto_tcp host (omega arith) pd (omega (arith, size, len)) in
    let tcp : ip_to_tcp (build_packet h p (length p) dst proto_tcp) ≡ p' = inner ∙ sym same in
    (
      record {
        seqnum = ap get_seqnum tcp ∙ f.seqnum;
        acknum = ap get_acknum tcp ∙ f.acknum;
        window = ap get_window tcp ∙ f.window_field;
        flags = ap get_flags tcp ∙ f.flags_field;
        data_len =
            ap (λ o. o >>= λ n. some (u32 (n + 4294967268))) ip.total_len
            ∙ ap some (omega (arith, size, len));
        payload = ap (drop tcp_header_size) tcp ∙ seg.payload;
      },
      record {
        src_field = ip.src_field;
        dst_field = ip.dst_field;
        srcport = ap get_srcport tcp ∙ f.srcport;
        destport = ap get_destport tcp ∙ f.destport;
      },
      size,
    )
