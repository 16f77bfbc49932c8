-- ===== src/Router/Keeps.antt =====
-- The IP threads of tcp_branch/van_driver.c do not touch the table of sockets.
use tcp_archive.Prelude.{
  ℕ, ◌+◌, ◌-◌, ◌≡◌, sym, ◌∙◌, ap, Option, some, Bool, true, false, not, ◌&&◌, List, [], ◌++◌, ltb,
  leb, ◌==◌, if◌then◌else◌, assert, inl, inr, Bool-cases, Option-cases, >>=-eq-some, some_injective,
  length, take, drop, u32,
}
use tcp_archive.External.{HTable, Bqueue, Host}
use tcp_archive.Packet.{
  get_protocol, get_total_len, get_ttl, get_checksum, set_checksum, get_src, get_dst, get_data_len,
  get_tcpchecksum, set_tcpchecksum, ip_to_tcp, calculate_tcp_checksum, header_size, tcp_header_size,
  proto_data, proto_rip, proto_tcp,
}
use tcp_archive.Rtable.{
  Entry, lookup_route, update_route, rtable_unserialize, rtable_merge, rtable_poison_iface,
}
use tcp_archive.Socket.{Socket}
use tcp_archive.Node.{Node}
use tcp_archive.Router.{
  link_timeout, Sent, set_iface, sender_step, van_driver_recvfrom, send_route_table, rip_handle,
  rip_step, check_age, check_link, link_state_step, forward, accept_tcp, dispatch, listener_step,
}

module _ {H : HTable} {B : Bqueue} where
  -- The sockets of a result.
  abbrev sockets : Node H B → ℕ → Option Socket
  sockets node = node.socket_table

  same : {u v : Node H B} → some u ≡ some v → sockets v ≡ sockets u
  same e = sym (ap sockets (some_injective e))

  same_fst : {A : Type 0} {u v : Node H B × A} → some u ≡ some v → sockets v.0 ≡ sockets u.0
  same_fst e = sym (ap (λ t. sockets t.0) (some_injective e))

  pub sender_step-sockets : (node : Node H B) → sockets (sender_step node).0 ≡ sockets node
  unfolding sender_step
  sender_step-sockets node = elim (Option-cases (B.dequeue node.sending_q)) [
    | inl p ↦ rw (sender_step, p)
    | inr (q, p) ↦ rw (sender_step, p)
  ]

  pub van_driver_recvfrom-sockets :
      (node : Node H B) (size : ℕ) (v : Node H B × Option (List ℕ))
      → van_driver_recvfrom node size ≡ some v
      → sockets v.0 ≡ sockets node
  unfolding van_driver_recvfrom
  van_driver_recvfrom-sockets node size v e = elim (Option-cases (B.dequeue node.receiving_q)) [
    | inl p ↦ same_fst (rw (van_driver_recvfrom, p) at e)
    | inr ((d, q), p) ↦
        (let (total, _, e₁) = >>=-eq-some (get_total_len d) _ (rw (van_driver_recvfrom, p) at e) in
          let (_, _, e₂) = >>=-eq-some (assert (leb header_size total)) _ e₁ in
          let n = if ltb size (total - header_size) then size else total - header_size in
          let (_, _, e₃) = >>=-eq-some (assert (leb (n + header_size) (length d))) _ e₂ in
          same_fst e₃)
  ]

module _ {H : HTable} {B : Bqueue} (h : Host) where
  rip_handle-sockets :
      (up : ℕ → Bool) (fresh : Entry) (node : Node H B) (i : ℕ) (p : List ℕ) (v : Node H B × Sent)
      → rip_handle h up fresh node i p ≡ some v
      → sockets v.0 ≡ sockets node
  unfolding rip_handle
  rip_handle-sockets up fresh node i p v e =
      let (from, _, e₁) = >>=-eq-some (get_src p) _ e in
      let (total, _, e₂) = >>=-eq-some (get_total_len p) _ e₁ in
      let (rt, found) = update_route H h.van_maxnodes h.if_type node.route_table from i 1 from in
      let node₁ = record node { route_table = rt } in
      let (s₁, _, e₃) = >>=-eq-some (if found then send_route_table h up node₁ else some []) _ e₂ in
      let (new, _, e₄) =
        >>=-eq-some (rtable_unserialize H (drop header_size p) (total - header_size)) _ e₃ in
      let (conduit, _, e₅) = >>=-eq-some (lookup_route H h.van_maxnodes rt from) _ e₄ in
      let ((rt', modify), _, e₆) =
        >>=-eq-some (rtable_merge H h.van_maxnodes h.vn_num fresh rt new conduit) _ e₅ in
      let (s₂, _, e₇) =
        >>=-eq-some
          (if modify then send_route_table h up (record node { route_table = rt' }) else some []) _
          e₆ in
      same_fst e₇

  pub rip_step-sockets :
      (up : ℕ → Bool) (fresh : Entry) (node : Node H B) (v : Node H B × Sent)
      → rip_step h up fresh node ≡ some v
      → sockets v.0 ≡ sockets node
  unfolding rip_step
  rip_step-sockets up fresh node v e = elim (Option-cases (B.dequeue node.rip_q)) [
    | inl p ↦ same_fst (rw (rip_step, p) at e)
    | inr ((r, q), p) ↦
        rip_handle-sockets up fresh (record node { rip_q = q }) r.iface r.packet v
          (rw (rip_step, p) at e)
  ]

  check_age-sockets :
      (up : ℕ → Bool) (node : Node H B) (i : ℕ) (v : Node H B × Sent)
      → check_age h up node i ≡ some v
      → sockets v.0 ≡ sockets node
  unfolding check_age
  check_age-sockets up node i v e =
      let f = node.ifaces i in
      elim (Bool-cases (up i && not f.timed_out && ltb (f.age + link_timeout) node.now)) [
        | inl p ↦
            (let node' =
                set_iface (record node { route_table = rtable_poison_iface H node.route_table i }) i
                  (record f { timed_out = true }) in
              let (s, _, e₁) = >>=-eq-some (send_route_table h up node') _ (rw p at e) in
              same_fst e₁)
        | inr p ↦ same_fst (rw p at e)
      ]

  check_link-sockets :
      (up : ℕ → Bool) (node : Node H B) (i : ℕ) (v : Node H B × Sent)
      → check_link h up node i ≡ some v
      → sockets v.0 ≡ sockets node
  unfolding check_link
  check_link-sockets up node i v e = elim (Bool-cases (up i)) [
    | inl p ↦ elim (Bool-cases (node.ifaces i).cur_state) [
      | inl q ↦ same_fst (rw (p, q) at e)
      | inr q ↦
          (let (s, _, e₁) = >>=-eq-some (send_route_table h up node) _ (rw (p, q) at e) in
            same_fst e₁)
    ]
    | inr p ↦ elim (Bool-cases (node.ifaces i).cur_state) [
      | inl q ↦
          (let node' = record node { route_table = rtable_poison_iface H node.route_table i } in
            let (s, _, e₁) = >>=-eq-some (send_route_table h up node') _ (rw (p, q) at e) in
            same_fst e₁)
      | inr q ↦ same_fst (rw (p, q) at e)
    ]
  ]

  pub link_state_step-sockets :
      (up : ℕ → Bool) (node : Node H B) (i : ℕ) (v : Node H B × Sent)
      → link_state_step h up node i ≡ some v
      → sockets v.0 ≡ sockets node
  unfolding link_state_step
  link_state_step-sockets up node i v e =
      let (u, a, e₁) = >>=-eq-some (check_age h up node i) _ e in
      let (w, b, e₂) = >>=-eq-some (check_link h up u.0 i) _ e₁ in
      same_fst e₂ ∙ check_link-sockets up u.0 i w b ∙ check_age-sockets up node i u a

  forward-sockets :
      (node v : Node H B) (buf : List ℕ) (d t n : ℕ)
      → forward h node buf d t n ≡ some v
      → sockets v ≡ sockets node
  unfolding forward
  forward-sockets node v buf d t n e =
      let (k, _, e₁) = >>=-eq-some (lookup_route H h.van_maxnodes node.route_table d) _ e in
      let (r, _, e₂) = >>=-eq-some (H.get node.route_table k) _ e₁ in
      let (_, _, e₃) = >>=-eq-some (assert (leb 6 n && leb n (length buf))) _ e₂ in same e₃

  accept_tcp-sockets :
      (node v : Node H B) (buf : List ℕ) (s d n : ℕ)
      → accept_tcp h node buf s d n ≡ some v
      → sockets v ≡ sockets node
  unfolding accept_tcp
  accept_tcp-sockets node v buf s d n e =
      let (c, _, e₁) = >>=-eq-some (get_tcpchecksum (ip_to_tcp buf)) _ e in
      let (m, _, e₂) = >>=-eq-some (get_data_len buf) _ e₁ in
      let ((cleared, csum), _, e₃) =
        >>=-eq-some
          (calculate_tcp_checksum h (set_tcpchecksum (ip_to_tcp buf) 0) s d
            (u32 (m + tcp_header_size)))
          _ e₂ in
      elim (Bool-cases (csum == c)) [
        | inl p ↦
            (let (_, _, e₄) =
                >>=-eq-some
                  (assert (leb n (length (take header_size buf ++ set_tcpchecksum cleared c)))) _
                  (rw p at e₃) in
              same e₄)
        | inr p ↦ same (rw p at e₃)
      ]

  -- `listener` by protocol and destination, with the header's fields read.
  dispatch-sockets_at :
      (node v : Node H B) (i : ℕ) (buf : List ℕ) (n proto d s t : ℕ)
      → get_dst buf ≡ some d
      → get_src buf ≡ some s
      → get_ttl buf ≡ some t
      → dispatch h node i buf n proto ≡ some v
      → sockets v ≡ sockets node
  unfolding dispatch
  dispatch-sockets_at node v i buf n proto d s t a b c e =
      let e₃ = rw (a, b, c) at e in
      elim (Bool-cases (proto == proto_rip)) [
        | inl p ↦
            (let (_, _, e₄) = >>=-eq-some (assert (leb n (length buf))) _ (rw p at e₃) in same e₄)
        | inr p ↦ elim (Bool-cases (ltb (h.mtu i) n)) [
          | inl q ↦ same (rw (p, q) at e₃)
          | inr q ↦ elim (Bool-cases (d == h.vn_num)) [
            | inr r ↦ forward-sockets node v buf d t n (rw (p, q, r) at e₃)
            | inl r ↦ elim (Bool-cases (proto == proto_data)) [
              | inl x ↦
                  (let (_, _, e₄) =
                      >>=-eq-some (assert (leb n (length buf))) _ (rw (p, q, r, x) at e₃) in
                    same e₄)
              | inr x ↦ elim (Bool-cases (proto == proto_tcp)) [
                | inl y ↦ accept_tcp-sockets node v buf s d n (rw (p, q, r, x, y) at e₃)
                | inr y ↦ same (rw (p, q, r, x, y) at e₃)
              ]
            ]
          ]
        ]
      ]

  dispatch-sockets :
      (node v : Node H B) (i : ℕ) (buf : List ℕ) (n proto : ℕ)
      → dispatch h node i buf n proto ≡ some v
      → sockets v ≡ sockets node
  unfolding dispatch
  dispatch-sockets node v i buf n proto e =
      let (d, a, e₁) = >>=-eq-some (get_dst buf) _ e in
      let (s, b, e₂) = >>=-eq-some (get_src buf) _ e₁ in
      let (t, c, e₃) = >>=-eq-some (get_ttl buf) _ e₂ in
      dispatch-sockets_at node v i buf n proto d s t a b c e

  pub listener_step-sockets :
      (node v : Node H B) (i : ℕ) (buf : List ℕ)
      → listener_step h node i buf ≡ some v
      → sockets v ≡ sockets node
  unfolding listener_step
  listener_step-sockets node v i buf e =
      let (n, _, e₁) = >>=-eq-some (get_total_len buf) _ e in
      let (proto, _, e₂) = >>=-eq-some (get_protocol buf) _ e₁ in
      let (c, _, e₃) = >>=-eq-some (get_checksum buf) _ e₂ in
      let node' = set_iface node i (record (node.ifaces i) { age = node.now; timed_out = false }) in
      elim (Bool-cases (h.ip_fast_csum (set_checksum buf 0) 2 == c)) [
        | inl p ↦
            dispatch-sockets node' v i (set_checksum (set_checksum buf 0) c) n proto (rw p at e₃)
        | inr p ↦ same (rw p at e₃)
      ]
