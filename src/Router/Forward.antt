-- ===== src/Router/Forward.antt =====
-- A datagram that goes through a router: `listener` and `sender` of tcp_branch/van_driver.c at a node that it
-- is not for, and `listener` and `van_driver_recvfrom` at the next one.
use tcp_archive.Prelude.{
  ℕ, ◌+◌, ◌*◌, ◌/◌, ◌%◌, ◌<◌, ◌≤◌, ◌≡◌, ◌≢◌, refl, sym, ◌∙◌, ap, some, List, [], ◌∷◌, ◌++◌, bit_and,
  length, take, arith, ==_ne, le→leb, le→ltb,
}
use tcp_archive.External.{HTable, Bqueue, Host, IsHost}
use tcp_archive.External.Queues.{dequeue-enqueue}
use tcp_archive.Packet.{proto_data, get_ttl}
use tcp_archive.Packet.Bytes.{u16_bytes}
use tcp_archive.Rtable.{Entry, lookup_route}
use tcp_archive.Node.{Node, IpPacket}
use tcp_archive.Router.{sender_step, van_driver_recvfrom, listener_step, dispatch, forward}
use tcp_archive.Router.Header.{
  header, peer, arrived, listener_accepts, dispatch-header, recvfrom-header, take_all,
}

-- The packet that goes on: one less to live, in a byte, and the checksum made anew.
forwarded : Host → (b l₀ l₁ t s d : ℕ) → List ℕ → List ℕ
forwarded h b l₀ l₁ t s d payload =
    let t' = (t + 255) % 256 in
    let c = h.ip_fast_csum (header b l₀ l₁ t' 0 0 s d ++ payload) 2 in
    header b l₀ l₁ t' (c % 256) (c / 256 % 256) s d ++ payload

forwarded_whole :
    (h : Host) (b l₀ l₁ t s d : ℕ) (payload : List ℕ)
    → take (8 + length payload) (forwarded h b l₀ l₁ t s d payload)
      ≡ forwarded h b l₀ l₁ t s d payload
unfolding forwarded
forwarded_whole h b l₀ l₁ t s d payload =
    take_all (forwarded h b l₀ l₁ t s d payload) (8 + length payload) (omega arith)

module _ {H : HTable} {B : Bqueue} (h : Host) (host : IsHost h) where
  -- What `listener` puts on the way.
  on_the_way : Node H B → Entry → (b l₀ l₁ t s d : ℕ) → List ℕ → Node H B
  on_the_way node r b l₀ l₁ t s d payload = record node {
    sending_q = B.enqueue node.sending_q (record {
      iface = r.iface;
      packet = forwarded h b l₀ l₁ t s d payload;
      packet_size = 8 + length payload;
      addr_type = r.type;
    });
  }

  forward-header :
      (node : Node H B) (r : Entry) (k b l₀ l₁ t c₀ c₁ s d : ℕ) (payload : List ℕ)
      → lookup_route H h.van_maxnodes node.route_table d ≡ some k
      → H.get node.route_table k ≡ some r
      → forward h node (header b l₀ l₁ t c₀ c₁ s d ++ payload) d t (8 + length payload)
        ≡ some (on_the_way node r b l₀ l₁ t s d payload)
  unfolding forward on_the_way forwarded
  forward-header node r k b l₀ l₁ t c₀ c₁ s d payload e e' =
      let n = 8 + length payload in
      let p = header b l₀ l₁ t c₀ c₁ s d ++ payload in
      rw (e, e')
        (rw
          (le→leb 6 n (omega arith), le→leb n (length p) (omega arith), take_all p n (omega arith)))

  dispatch-forward :
      (node : Node H B) (r : Entry) (i k b l₀ l₁ t c₀ c₁ s d : ℕ) (payload : List ℕ)
      → d ≢ h.vn_num
      → 8 + length payload ≤ h.mtu i
      → lookup_route H h.van_maxnodes node.route_table d ≡ some k
      → H.get node.route_table k ≡ some r
      → dispatch h node i (header b l₀ l₁ t c₀ c₁ s d ++ payload) (8 + length payload) proto_data
        ≡ some (on_the_way node r b l₀ l₁ t s d payload)
  unfolding dispatch
  dispatch-forward node r i k b l₀ l₁ t c₀ c₁ s d payload ne fits e e' =
      rw (le→ltb (8 + length payload) (h.mtu i) fits, ==_ne d h.vn_num ne)
        (forward-header node r k b l₀ l₁ t c₀ c₁ s d payload e e')

  -- The next node's `listener` finds the new checksum right.
  listener-forwarded :
      (node : Node H B) (n i b l₀ l₁ t s d : ℕ) (payload : List ℕ)
      → listener_step (peer h n) node i (forwarded h b l₀ l₁ t s d payload)
        ≡ dispatch
            (peer h n)
            (arrived node i)
            i
            (forwarded h b l₀ l₁ t s d payload)
            (l₀ + 256 * l₁)
            (bit_and b 0x0f)
  unfolding forwarded
  listener-forwarded node n i b l₀ l₁ t s d payload =
      let t' = (t + 255) % 256 in
      let c = h.ip_fast_csum (header b l₀ l₁ t' 0 0 s d ++ payload) 2 in
      let small = host.ip_csum_small (header b l₀ l₁ t' 0 0 s d ++ payload) 2 in
      listener_accepts (peer h n) node i b l₀ l₁ t' (c % 256) (c / 256 % 256) s d payload
        (omega arith) (omega arith) (sym (u16_bytes c small))

  -- A datagram on its way through a router: its IP checksum is right, it is for another node that the router has
  -- a route to, and it fits the interfaces. The router's `sender` puts one packet on the route's
  -- interface; its time to live is one less in a byte, so that from 0 it goes on with 255, and no packet
  -- is dropped for it. The `listener` of the node that it is for takes that packet, whatever its interface,
  -- and the user there reads the payload, as much of it as there is room for. The queues were empty.
  pub recvfrom-forward :
      (router to : Node H B) (i j k size b l₀ l₁ t c₀ c₁ s d : ℕ) (payload : List ℕ) (r : Entry)
      → c₀ < 256
      → c₁ < 256
      → l₀ + 256 * l₁ ≡ 8 + length payload
      → bit_and b 0x0f ≡ proto_data
      → h.ip_fast_csum (header b l₀ l₁ t 0 0 s d ++ payload) 2 ≡ c₀ + 256 * c₁
      → d ≢ h.vn_num
      → lookup_route H h.van_maxnodes router.route_table d ≡ some k
      → H.get router.route_table k ≡ some r
      → 8 + length payload ≤ h.mtu i
      → 8 + length payload ≤ h.mtu j
      → B.contents router.sending_q ≡ []
      → B.contents to.receiving_q ≡ []
      → (router' : Node H B) × (p : List ℕ) × (listener_step h router i
            (header b l₀ l₁ t c₀ c₁ s d ++ payload)
          ≡ some router')
        × ((sender_step router').1 ≡ (r.iface, p) ∷ [])
        × (get_ttl p ≡ some ((t + 255) % 256))
        × (to' : Node H B) × (listener_step (peer h d) to j p ≡ some to')
        × (to'' : Node H B) × (van_driver_recvfrom to' size ≡ some (to'', some (take size payload)))
  unfolding sender_step on_the_way
  recvfrom-forward router to i j k size b l₀ l₁ t c₀ c₁ s d payload r h₀ h₁ total proto right ne e
        e' fits fits' empty empty' =
      let p = forwarded h b l₀ l₁ t s d payload in
      let pkt : IpPacket = record {
        iface = r.iface;
        packet = p;
        packet_size = 8 + length payload;
        addr_type = r.type;
      } in
      let (rest, sent, _) = dequeue-enqueue B router.sending_q pkt empty in
      let (q, got, _) = dequeue-enqueue B to.receiving_q p empty' in
      let to' = record (arrived to j) { receiving_q = B.enqueue to.receiving_q p } in
      let t' = (t + 255) % 256 in
      let c = h.ip_fast_csum (header b l₀ l₁ t' 0 0 s d ++ payload) 2 in
      (
        on_the_way (arrived router i) r b l₀ l₁ t s d payload,
        p,
        listener_accepts h router i b l₀ l₁ t c₀ c₁ s d payload h₀ h₁ right
            ∙ rw (total, proto)
                (dispatch-forward (arrived router i) r i k b l₀ l₁ t c₀ c₁ s d payload ne fits e
                  e'),
        rw (sender_step, sent)
            (ap (λ l. (r.iface, l) ∷ []) (forwarded_whole h b l₀ l₁ t s d payload)),
        (unfold forwarded in refl),
        to',
        listener-forwarded to d j b l₀ l₁ t s d payload
            ∙ rw (total, proto)
                (unfold forwarded in
                  dispatch-header (peer h d) (arrived to j) j b l₀ l₁ t' (c % 256) (c / 256 % 256) s
                    payload (omega (arith, fits'))),
        record to' { receiving_q = q },
        recvfrom-header to' q b l₀ l₁ t' (c % 256) (c / 256 % 256) s d payload size total
            (unfold forwarded in got),
      )
