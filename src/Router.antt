-- ===== src/Router.antt =====
-- The IP threads of tcp_branch/van_driver.c: `listener`, `sender`, `rip_monitor`, `rip`,
-- `link_state_thread`, and what they send. Each function is one round of a thread's loop; `none` is
-- the end of the process. `up` is what VAN_IO_UPSTATE says of each interface at the time.
mod Tests
pub mod Header
pub mod Deliver
pub mod Segments
pub mod Forward
pub mod Keeps
use tcp_archive.Prelude.{
  ℕ, zero, suc, ◌+◌, ◌-◌, Option, none, some, Bool, true, false, not, ◌&&◌, List, [], ◌∷◌, ◌++◌,
  take, drop, length, ltb, leb, ◌==◌, if◌then◌else◌, pos, pos_part, ltb_ℤ, ◌>>=◌, ◌>>◌, assert, u32,
}
use tcp_archive.External.{HTable, Bqueue, Host}
use tcp_archive.Packet.{
  get_protocol, get_total_len, get_ttl, set_ttl, get_checksum, set_checksum, get_src, get_dst,
  get_data_len, get_tcpchecksum, set_tcpchecksum, ip_to_tcp, calculate_tcp_checksum, build_packet,
  header_size, tcp_header_size, proto_data, proto_rip, proto_tcp,
}
use tcp_archive.Rtable.{
  Entry, lookup_route, update_route, rtable_serialize, rtable_unserialize, rtable_merge,
  rtable_poison_iface,
}
use tcp_archive.Node.{Node, Iface}

-- LINK_TIMEOUT
abbrev pub link_timeout : ℕ
link_timeout = 61

-- What goes to the network: `van_node_send` of the bytes on an interface.
abbrev pub Sent : Type 0
Sent = List (ℕ × List ℕ)

module _ {H : HTable} {B : Bqueue} where
  abbrev pub set_iface : Node H B → ℕ → Iface → Node H B
  set_iface node i f = record node { ifaces = λ j. if j == i then f else node.ifaces j }

  -- `sender`: the packet that goes to the network, if there is one.
  unfoldable pub sender_step : Node H B → Node H B × Sent
  sender_step node = elim (B.dequeue node.sending_q) [
    | none ↦ (node, [])
    | some (p, q) ↦ (record node { sending_q = q }, (p.iface, take p.packet_size p.packet) ∷ [])
  ]

  -- `van_driver_recvfrom`: it waits at an empty queue. The result is the bytes that are copied to
  -- the user; a header that claims less than 8 bytes makes the copy's size negative.
  pub van_driver_recvfrom : Node H B → ℕ → Option (Node H B × Option (List ℕ))
  van_driver_recvfrom node size = elim (B.dequeue node.receiving_q) [
    | none ↦ some (node, none)
    | some (data', q) ↦
        (get_total_len data' >>= λ total.
        assert (leb header_size total)
        >> (let data_size = if ltb size (total - header_size) then size else total - header_size in
            assert (leb (data_size + header_size) (length data'))
            >> some
                (record node { receiving_q = q }, some (take data_size (drop header_size data')))))
  ]

module _ {H : HTable} {B : Bqueue} (h : Host) where
  -- The loop of `send_route_table`, from interface `i` on, over `count` interfaces. To a peer that is
  -- not known the filter is -1.
  pub send_routes : (ℕ → Bool) → Node H B → ℕ → ℕ → Option Sent
  send_routes up node zero i = some []
  send_routes up node (suc count) i = send_routes up node count (suc i) >>= λ rest.
      if up i
      then (let peer = (node.ifaces i).peer in
          rtable_serialize H h.heap node.route_table
            (if ltb_ℤ peer (pos 0) then 4294967295 else pos_part peer)
          >>= λ bytes. some ((i, build_packet h bytes (length bytes) 0 proto_rip) ∷ rest))
      else some rest

  pub send_route_table : (ℕ → Bool) → Node H B → Option Sent
  unfolding send_routes
  send_route_table up node = send_routes up node h.nifs 0

  -- What `rip_monitor` does with a packet: the route to the sender, and the merge of its table.
  pub rip_handle : (ℕ → Bool) → Entry → Node H B → ℕ → List ℕ → Option (Node H B × Sent)
  unfolding send_route_table
  rip_handle up fresh node iface p = do
    from ← get_src p
    total_length ← get_total_len p
    let (rt, found) = update_route H h.van_maxnodes h.if_type node.route_table from iface 1 from
    let node₁ = record node { route_table = rt }
    sent₁ ← (if found then send_route_table up node₁ else some [])
    new_rtable ← rtable_unserialize H (drop header_size p) (total_length - header_size)
    conduit ← lookup_route H h.van_maxnodes rt from
    (rt', modify) ← rtable_merge H h.van_maxnodes h.vn_num fresh rt new_rtable conduit
    let node₂ = record node₁ { route_table = rt' }
    sent₂ ← (if modify then send_route_table up node₂ else some [])
    some (node₂, sent₁ ++ sent₂)

  -- `rip_monitor`
  pub rip_step : (ℕ → Bool) → Entry → Node H B → Option (Node H B × Sent)
  unfolding rip_handle
  rip_step up fresh node = elim (B.dequeue node.rip_q) [
    | none ↦ some (node, [])
    | some (r, q) ↦ rip_handle up fresh (record node { rip_q = q }) r.iface r.packet
  ]

  -- The two tests of `link_state_thread` for interface `i`: of its age, and of its state.
  pub check_age : (ℕ → Bool) → Node H B → ℕ → Option (Node H B × Sent)
  unfolding send_route_table
  check_age up node i =
      let f = node.ifaces i in
      if up i && not f.timed_out && ltb (f.age + link_timeout) node.now
      then (let node' =
            set_iface (record node { route_table = rtable_poison_iface H node.route_table i }) i
              (record f { timed_out = true }) in
          send_route_table up node' >>= λ sent. some (node', sent))
      else some (node, [])

  pub check_link : (ℕ → Bool) → Node H B → ℕ → Option (Node H B × Sent)
  unfolding send_route_table
  check_link up node i =
      let f = node.ifaces i in
      let done : Node H B → Node H B = λ n. set_iface n i (record f { cur_state = up i }) in
      if up i
      then (if f.cur_state
          then some (node, [])
          else (send_route_table up node >>= λ sent. some (done node, sent)))
      else (if f.cur_state
          then (let node' = record node {
            route_table = rtable_poison_iface H node.route_table i;
          } in
              send_route_table up node' >>= λ sent. some (done node', sent))
          else some (node, []))

  pub link_state_step : (ℕ → Bool) → Node H B → ℕ → Option (Node H B × Sent)
  unfolding check_age check_link
  link_state_step up node i = do
    (node', sent) ← check_age up node i
    (node'', sent') ← check_link up node' i
    some (node'', sent ++ sent')

  -- `listener` on a packet to another node. A null route is read through. The packet's time to live
  -- goes down by one, in a byte.
  pub forward : Node H B → List ℕ → ℕ → ℕ → ℕ → Option (Node H B)
  forward node buf dest ttl total_length = do
    k ← lookup_route H h.van_maxnodes node.route_table dest
    r ← H.get node.route_table k
    assert (leb 6 total_length && leb total_length (length buf))
    let p = set_checksum (set_ttl (take total_length buf) (ttl + 255)) 0
    some (record node {
      sending_q = B.enqueue node.sending_q (record {
        iface = r.iface;
        packet = set_checksum p (h.ip_fast_csum p 2);
        packet_size = total_length;
        addr_type = r.type;
      });
    })

  -- `listener` on a TCP packet to this node, whose checksum it tests.
  pub accept_tcp : Node H B → List ℕ → ℕ → ℕ → ℕ → Option (Node H B)
  accept_tcp node buf src dest total_length = do
    packet_checksum ← get_tcpchecksum (ip_to_tcp buf)
    data_len ← get_data_len buf
    (cleared, csum) ←
        calculate_tcp_checksum h (set_tcpchecksum (ip_to_tcp buf) 0) src dest
          (u32 (data_len + tcp_header_size))
    let restored = take header_size buf ++ set_tcpchecksum cleared packet_checksum
    (if csum == packet_checksum
        then (assert (leb total_length (length restored))
            >> some (record node { tcp_q = B.enqueue node.tcp_q (take total_length restored) }))
        else some node)

  -- `listener` on a packet whose IP checksum is right, by protocol and destination.
  pub dispatch : Node H B → ℕ → List ℕ → ℕ → ℕ → Option (Node H B)
  unfolding forward accept_tcp
  dispatch node interface buf total_length proto = do
    dest ← get_dst buf
    src ← get_src buf
    ttl ← get_ttl buf
    (if proto == proto_rip
        then (assert (leb total_length (length buf))
            >> some (record node {
              rip_q =
                  B.enqueue node.rip_q
                    (record { packet = take total_length buf; iface = interface });
            }))
        else (if ltb (h.mtu interface) total_length
            then some node
            else (if not (dest == h.vn_num)
                then forward node buf dest ttl total_length
                else (if proto == proto_data
                    then (assert (leb total_length (length buf))
                        >> some (record node {
                          receiving_q = B.enqueue node.receiving_q (take total_length buf);
                        }))
                    else (if proto == proto_tcp
                        then accept_tcp node buf src dest total_length
                        else some node)))))

  -- `listener` on what `van_node_recv` put into `buf`, of which the header is there.
  pub listener_step : Node H B → ℕ → List ℕ → Option (Node H B)
  unfolding dispatch
  listener_step node interface buf = do
    let f = node.ifaces interface
    let node' = set_iface node interface (record f { age = node.now; timed_out = false })
    total_length ← get_total_len buf
    proto ← get_protocol buf
    packet_checksum ← get_checksum buf
    let cleared = set_checksum buf 0
    (if h.ip_fast_csum cleared 2 == packet_checksum
        then dispatch node' interface (set_checksum cleared packet_checksum) total_length proto
        else some node')
