-- ===== src/Tcpm/Keeps.antt =====
-- The state functions of tcp_branch/statefunc.c leave alone what the node's tables rely on: the number
-- of every socket, whether its machine was set, and the machine's registers.
use tcp_archive.Prelude.{
  ℕ, ◌≡◌, refl, sym, ◌∙◌, ap, Option, none, some, Bool, ◌==◌, ==_iff, if◌then◌else◌, inl, inr,
  Option-cases, Bool-cases, >>=-eq-some, some_injective, subst,
}
use tcp_archive.External.{HTable, Bqueue, Host}
use tcp_archive.Cbuffer.{cbuf_new, cbuf_put_eof}
use tcp_archive.Machine.{Machine, restart_ok, restart_abort, restart_init}
use tcp_archive.Socket.{Socket, notify, tcp_ok}
use tcp_archive.Tcpm.{
  Ctx, Arg, reason, packet, null, ActionFn, in_closed, in_estab, in_timewait, in_closewait,
  clear_socket, call_in_closed, call_in_estab, call_in_closewait, call_action, notify_other,
  queue_eof, tcpm_prevstate,
}

-- What the tables rely on.
abbrev pub Regs : Type 0
Regs = ℕ × Bool × Machine

abbrev pub regs : Socket → Regs
regs s = (s.fd, s.machine_set, s.machine)

abbrev pub slot_regs : Option Socket → Option Regs
slot_regs none = none
slot_regs (some s) = some (regs s)

-- Of the socket in focus, and of those in the node's table.
pub record Keeps {H : HTable} {B : Bqueue} (w w' : Ctx H B) : Type 0 where
  pub focus : regs w'.sock ≡ regs w.sock
  pub table : (i : ℕ) → slot_regs (w'.node.socket_table i) ≡ slot_regs (w.node.socket_table i)

module _ {H : HTable} {B : Bqueue} where
  pub Keeps-trans : {u v w : Ctx H B} → Keeps u v → Keeps v w → Keeps u w
  Keeps-trans a b = record { focus = b.focus ∙ a.focus; table = λ i. b.table i ∙ a.table i }

  -- A call that changes the socket in focus, but not these fields.
  pub Keeps-sock :
      {w : Ctx H B} (s : Socket) → regs s ≡ regs w.sock → Keeps w (record w { sock = s })
  Keeps-sock s e = record { focus = e; table = λ i. refl }

  pub Keeps-some : {u v w : Ctx H B} → some v ≡ some w → Keeps u v → Keeps u w
  Keeps-some {u} e k = subst (Keeps u) (some_injective e) k

pub queue_eof-keeps : (s s' : Socket) → queue_eof s ≡ some s' → regs s' ≡ regs s
unfolding queue_eof
queue_eof-keeps s s' e =
    let (c, p, q) = >>=-eq-some (cbuf_put_eof s.r_buf s.recv_next) _ e in
    sym (ap regs (some_injective q))

notified :
    (t : ℕ → Option Socket) (fd s : ℕ) (o : Socket)
    → t fd ≡ some o
    → (i : ℕ) → slot_regs (if i == fd then some (notify o s) else t i) ≡ slot_regs (t i)
unfolding notify
notified t fd s o q i = elim (Bool-cases (i == fd)) [
  | inl e ↦ (let at : t i ≡ some o = ap t ((==_iff i fd).0 e) ∙ q in rw (e, at))
  | inr e ↦ rw e
]

module _ {H : HTable} {B : Bqueue} where
  clear_socket-Keeps : (h : Host) (w w' : Ctx H B) → clear_socket h w ≡ some w' → Keeps w w'
  unfolding clear_socket
  clear_socket-Keeps h w w' e =
      let (a, p, q) = >>=-eq-some (cbuf_new (h.heap 16388) 8194) _ e in
      let (b, p', q') = >>=-eq-some (cbuf_new (h.heap_next 16388) 8194) _ q in
      Keeps-some q' (record { focus = refl; table = λ i. refl })

  call_in_closed-Keeps :
      (h : Host) (a : Arg) (w w' : Ctx H B) → call_in_closed h a w ≡ some w' → Keeps w w'
  unfolding call_in_closed notify
  call_in_closed-Keeps h (packet p) w w' e = cc
  call_in_closed-Keeps h null w w' e = cc
  call_in_closed-Keeps h (reason r) w w' e = elim (Bool-cases (r == restart_init)) [
    | inl i ↦
        (let k =
            clear_socket-Keeps h (record w { sock = record w.sock { cond_status = 0 } }) w'
              (rw i at e) in
          record { focus = k.focus; table = k.table })
    | inr i ↦ elim (Bool-cases (r == restart_ok)) [
      | inl o ↦ clear_socket-Keeps h w w' (rw (i, o) at e)
      | inr o ↦ elim (Bool-cases (r == restart_abort)) [
        | inl z ↦
            (let (v, p, q) = >>=-eq-some (clear_socket h w) _ (rw (i, o, z) at e) in
              let k = clear_socket-Keeps h w v p in
              Keeps-some q (record { focus = k.focus; table = k.table }))
        | inr z ↦ (let no = rw (i, o, z) at e in cc)
      ]
    ]
  ]

  notify_other-Keeps : (fd s : ℕ) (w w' : Ctx H B) → notify_other fd s w ≡ some w' → Keeps w w'
  unfolding notify_other notify
  notify_other-Keeps fd s w w' e = elim (Bool-cases (fd == w.sock.fd)) [
    | inl p ↦ Keeps-some (rw p at e) (Keeps-sock _ refl)
    | inr p ↦
        (let (o, q, e') = >>=-eq-some (w.node.socket_table fd) _ (rw p at e) in
          Keeps-some e' (record { focus = refl; table = notified w.node.socket_table fd s o q }))
  ]

  -- No function of a state touches them.
  pub call_action-Keeps :
      (h : Host) (f : ActionFn) (id : ℕ) (d : Option ℕ) (a : Arg) (w w' : Ctx H B)
      → call_action h f id d a w ≡ some w'
      → Keeps w w'
  unfolding call_action call_in_estab call_in_closewait notify
  call_action-Keeps h in_closed id d a w w' e = call_in_closed-Keeps h a w w' e
  call_action-Keeps h in_timewait id d a w w' e = Keeps-some e (Keeps-sock _ refl)
  call_action-Keeps h in_estab id d a w w' e = elim (Bool-cases (tcpm_prevstate w.sock == id)) [
    | inl p ↦ Keeps-some (rw p at e) (Keeps-sock _ refl)
    | inr p ↦ elim (Option-cases w.sock.parent) [
      | inl q ↦ Keeps-some (rw (p, q) at e) (Keeps-sock _ refl)
      | inr (fd, q) ↦ notify_other-Keeps fd tcp_ok w w' (rw (p, q) at e)
    ]
  ]
  call_action-Keeps h in_closewait id d a w w' e = elim (Bool-cases (tcpm_prevstate w.sock == id)) [
    | inl p ↦ Keeps-some (rw p at e) (Keeps-sock _ refl)
    | inr p ↦
        (let (s, q, e') = >>=-eq-some (queue_eof w.sock) _ (rw p at e) in
          Keeps-some e' (Keeps-sock s (queue_eof-keeps w.sock s q)))
  ]
