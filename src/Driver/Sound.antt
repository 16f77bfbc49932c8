-- ===== src/Driver/Sound.antt =====
-- The table of sockets, as the threads and calls of tcp_branch/van_driver.c and tcp_branch/tcp.c rely on it.
use tcp_archive.Prelude.{
  ℕ, zero, suc, ◌+◌, ◌<◌, ◌≡◌, refl, sym, ◌∙◌, Option, none, some, Bool, true, false, List, ◌==◌,
  ==_iff, pos, inl, inr, Bool-cases, Option-cases, >>=-eq-some, some_injective, subst, arith,
  bit_and, if◌then◌else◌,
}
use tcp_archive.External.{HTable, Bqueue, Host}
use tcp_archive.Packet.{
  get_seqnum, get_srcport, get_destport, get_src, get_dst, get_flags, ip_to_tcp, flag_rst,
}
use tcp_archive.Socket.{Socket, max_sockets, send_window_size}
use tcp_archive.Socktable.{socktable_get}
use tcp_archive.Node.{Node}
use tcp_archive.Tcpm.{Ctx, tcpm_reset, tcpm_new}
use tcp_archive.Tcpm.Keeps.{Regs, regs, slot_regs}
use tcp_archive.Tcpm.Follows.{InRange, Follows, tcpm_reset-Follows, tcpm_new-IsNew}
use tcp_archive.Tcp.{get_tmp_socket, send_dumb_packet}
use tcp_archive.Tcp.Follows.{send_dumb_packet-Follows}
use tcp_archive.Driver.{
  free_slot, store, sys_socket, open_child, connect_child, refuse, deliver, do_recv_tcp, tcp_handle,
  tcp_step,
}
use tcp_archive.Driver.Follows.{do_recv_tcp-Follows}

-- A slot of the table is free, or its socket has the slot's number and a machine that was set, whose
-- registers point to states. No slot behind the last one is in use.
pub record IsLive (i : ℕ) (r : Regs) : Type 0 where
  pub fd : r.0 ≡ i
  pub bound : i < 256
  pub set : r.1 ≡ true
  pub range : InRange r.2

abbrev pub SlotOk : ℕ → Option Regs → Type 0
SlotOk i none = Unit {0}
SlotOk i (some r) = IsLive i r

abbrev pub IsSound : {H : HTable} {B : Bqueue} → Node H B → Type 0
IsSound node = (i : ℕ) → SlotOk i (slot_regs (node.socket_table i))

-- A socket in focus, whose own entry may be behind.
pub record IsSoundCtx {H : HTable} {B : Bqueue} (w : Ctx H B) : Type 0 where
  pub focus : IsLive w.sock.fd (regs w.sock)
  pub table : IsSound w.node

module _ {H : HTable} {B : Bqueue} where
  pub Follows-IsSoundCtx : {w w' : Ctx H B} → Follows w w' → IsSoundCtx w → IsSoundCtx w'
  Follows-IsSoundCtx {w} {w'} k v = record {
    focus = record {
      fd = refl;
      bound = subst (λ n. n < 256) (sym k.fd) v.focus.bound;
      set = k.set ∙ v.focus.set;
      range = k.range v.focus.range;
    };
    table = λ i. subst (SlotOk i) (sym (k.table i)) (v.table i);
  }

  -- The socket goes back to its slot.
  pub store-IsSound : {w : Ctx H B} (fd : ℕ) → w.sock.fd ≡ fd → IsSoundCtx w → IsSound (store fd w)
  store-IsSound {w} fd e v i = elim (Bool-cases (i == fd)) [
    | inr p ↦ rw p (v.table i)
    | inl p ↦ rw p (subst (λ n. IsLive n (regs w.sock)) (e ∙ sym ((==_iff i fd).0 p)) v.focus)
  ]

  pub slot_fd :
      (node : Node H B) (i : ℕ) (s : Socket)
      → IsSound node
      → node.socket_table i ≡ some s
      → s.fd ≡ i
  slot_fd node i s v e =
      let live : IsLive i (regs s) = subst (λ o. SlotOk i (slot_regs o)) e (v i) in live.fd

  pub focus-IsSoundCtx :
      (node : Node H B) (i : ℕ) (s : Socket)
      → IsSound node
      → node.socket_table i ≡ some s
      → IsSoundCtx (record { sock = s; node = node })
  focus-IsSoundCtx node i s v e =
      let live : IsLive i (regs s) = subst (λ o. SlotOk i (slot_regs o)) e (v i) in
      record { focus = subst (λ n. IsLive n (regs s)) (sym live.fd) live; table = v }

-- A listening socket is told the number of the new one.
told_IsSound :
    {H : HTable} {B : Bqueue} (node : Node H B) (i fd : ℕ) (s : Socket)
    → IsSound node
    → node.socket_table i ≡ some s
    → IsSound (store i (record { node = node; sock = record s { new_fd = pos fd } }))
told_IsSound node i fd s v e =
    let u = focus-IsSoundCtx node i s v e in
    store-IsSound {w = record { node = node; sock = record s { new_fd = pos fd } }} i
      (slot_fd node i s v e) (record { focus = u.focus; table = u.table })

free_slot-lt :
    (t : ℕ → Option Socket) (count x s : ℕ) → free_slot t count x ≡ some s → s < x + count
free_slot-lt t zero x s e = cc
free_slot-lt t (suc count) x s e = elim (Option-cases (t x)) [
  | inl p ↦ (let q = some_injective (rw (p, free_slot) at e) in omega (arith, q))
  | inr (o, p) ↦ omega (arith, free_slot-lt t count (suc x) s (rw (p, free_slot) at e))
]

module _ {H : HTable} {B : Bqueue} (h : Host) where
  -- The new socket of `sys_socket`, and what it leaves alone.
  pub sys_socket-IsSound :
      (raw : Socket) (clone : Bool) (node : Node H B) (v : Node H B × Option ℕ)
      → sys_socket h raw clone node ≡ some v
      → IsSound node
      → IsSound v.0
  unfolding sys_socket
  sys_socket-IsSound raw clone node v e sound =
      elim (Option-cases (free_slot node.socket_table max_sockets 0)) [
        | inl p ↦
            subst (λ (z : Node H B × Option ℕ). IsSound z.0) (some_injective (rw p at e)) sound
        | inr (s, p) ↦
            (let sock = record raw { fd = s; machine_set = false } in
              let (w, a, e₁) =
                >>=-eq-some
                  (tcpm_new H B h clone
                    (record { sock = sock; node = store s (record { sock = sock; node = node }) }))
                  _ (rw p at e) in
              let k = tcpm_new-IsNew h clone _ w a in
              let less = free_slot-lt node.socket_table max_sockets 0 s p in
              subst (λ (z : Node H B × Option ℕ). IsSound z.0) (some_injective e₁)
                (λ i. elim (Bool-cases (i == s)) [
                  | inl q ↦ rw q (
                      let same = (==_iff i s).0 q in
                      record {
                        fd = k.fd ∙ sym same;
                        bound = omega (arith, less, same);
                        set = k.set;
                        range = k.range;
                      })
                  | inr q ↦ rw q (subst (SlotOk i) (sym (rw q at (k.table i))) (sound i))
                ]))
      ]

  deliver-IsSound :
      (w : Ctx H B) (p : List ℕ) (flags : ℕ) (node : Node H B)
      → deliver h w p flags ≡ some node
      → IsSoundCtx w
      → IsSound node
  unfolding deliver
  deliver-IsSound w p flags node e v =
      let (w', a, e₁) =
        >>=-eq-some (if bit_and flags flag_rst == 0 then do_recv_tcp h w p else tcpm_reset H B h w)
          _ e in
      let k = received w w' (bit_and flags flag_rst == 0) p a in
      subst IsSound (some_injective e₁) (store-IsSound w.sock.fd k.fd (Follows-IsSoundCtx k v))
    where
      received :
          (w w' : Ctx H B) (b : Bool) (p : List ℕ)
          → (if b then do_recv_tcp h w p else tcpm_reset H B h w) ≡ some w'
          → Follows w w'
      received w w' true p e = do_recv_tcp-Follows h w w' p e
      received w w' false p e = tcpm_reset-Follows h w w' e

  refuse-IsSound :
      (raw : Socket) (node node' : Node H B) (p : List ℕ) (dport src sport : ℕ)
      → refuse h raw node p dport src sport ≡ some node'
      → IsSound node
      → IsSound node'
  unfolding refuse
  refuse-IsSound raw node node' p dport src sport e v =
      let sock = get_tmp_socket raw dport src sport send_window_size in
      let (w, a, e₁) =
        >>=-eq-some (send_dumb_packet h (record { sock = sock; node = node }) p flag_rst) _ e in
      let k = send_dumb_packet-Follows h _ w p flag_rst a in
      subst IsSound (some_injective e₁) (λ i. subst (SlotOk i) (sym (k.table i)) (v i))

  connect_child-IsSound :
      (node : Node H B) (old : Socket) (fd src sport seq : ℕ) (w : Ctx H B)
      → connect_child h node old fd src sport seq ≡ some w
      → IsSound node
      → IsSoundCtx w
  unfolding connect_child
  connect_child-IsSound node old fd src sport seq w e v =
      let (sock, c, e₁) = >>=-eq-some (node.socket_table fd) _ e in
      let z = focus-IsSoundCtx node fd sock v c in
      subst IsSoundCtx (some_injective e₁) (record { focus = z.focus; table = z.table })

  open_child-IsSound :
      (raw : Socket) (node : Node H B) (old : Socket) (src sport seq : ℕ) (w : Ctx H B)
      → open_child h raw node old src sport seq ≡ some w
      → IsSound node
      → IsSoundCtx w
  unfolding open_child
  open_child-IsSound raw node old src sport seq w e v =
      let ((node₁, new_fd), a, e₁) = >>=-eq-some (sys_socket h raw true node) _ e in
      let (fd, _, e₂) = >>=-eq-some new_fd _ e₁ in
      let (old', b, e₃) = >>=-eq-some (node₁.socket_table old.fd) _ e₂ in
      let sound = sys_socket-IsSound raw true node (node₁, new_fd) a v in
      connect_child-IsSound
        (store old.fd (record { node = node₁; sock = record old' { new_fd = pos fd } })) old fd src
        sport seq w e₃ (told_IsSound node₁ old.fd fd old' sound b)

  tcp_handle-IsSound :
      (raw : Socket) (node node' : Node H B) (p : List ℕ)
      → tcp_handle h raw node p ≡ some node'
      → IsSound node
      → IsSound node'
  unfolding tcp_handle
  tcp_handle-IsSound raw node node' p e v =
      let (sport, _, e₁) = >>=-eq-some (get_srcport (ip_to_tcp p)) _ e in
      let (dport, _, e₂) = >>=-eq-some (get_destport (ip_to_tcp p)) _ e₁ in
      let (src, _, e₃) = >>=-eq-some (get_src p) _ e₂ in
      let (dst, _, e₄) = >>=-eq-some (get_dst p) _ e₃ in
      let (flags, _, e₅) = >>=-eq-some (get_flags (ip_to_tcp p)) _ e₄ in
      let (seq, _, e₆) = >>=-eq-some (get_seqnum (ip_to_tcp p)) _ e₅ in
      elim (Option-cases (socktable_get H node.tuple_table dst dport src sport true)) [
        | inr (fd, q) ↦
            (let (s, a, e₇) = >>=-eq-some (node.socket_table fd) _ (rw q at e₆) in
              deliver-IsSound _ p flags node' e₇ (focus-IsSoundCtx node fd s v a))
        | inl q ↦ elim (Option-cases (socktable_get H node.tuple_table dst dport 0 0 false)) [
          | inl q' ↦ refuse-IsSound raw node node' p dport src sport (rw (q, q') at e₆) v
          | inr (fd, q') ↦
              (let (old, a, e₇) = >>=-eq-some (node.socket_table fd) _ (rw (q, q') at e₆) in
                elim (Bool-cases old.can_handshake) [
                  | inl z ↦
                      (let (w, b, e₈) =
                          >>=-eq-some (open_child h raw node old src sport seq) _ (rw z at e₇) in
                        deliver-IsSound w p flags node' e₈
                          (open_child-IsSound raw node old src sport seq w b v))
                  | inr z ↦ refuse-IsSound raw node node' p dport src sport (rw z at e₇) v
                ])
        ]
      ]

  -- A round of `tcp_thread`.
  pub tcp_step-IsSound :
      (raw : Socket) (node node' : Node H B)
      → tcp_step h raw node ≡ some node'
      → IsSound node
      → IsSound node'
  unfolding tcp_step
  tcp_step-IsSound raw node node' e v = elim (Option-cases (B.dequeue node.tcp_q)) [
    | inl p ↦ subst IsSound (some_injective (rw (p, tcp_step) at e)) v
    | inr ((data', q), p) ↦
        tcp_handle-IsSound raw (record node { tcp_q = q }) node' data' (rw (p, tcp_step) at e) v
  ]
