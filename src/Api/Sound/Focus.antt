-- ===== src/Api/Sound/Focus.antt =====
-- What a socket call of tcp_branch/tcp.c does before and after its own work: it takes its socket from the table, and puts
-- it back.
use tcp_archive.Prelude.{
  ℕ, ◌<◌, ◌+◌, lt→ltb, le→ltb, ==_refl, arith, ◌≡◌, refl, sym, ◌∙◌, ap, Option, none, some, false,
  not, ltb, ℤ, pos, pos_part, ltb_ℤ, assert, inl, inr, Bool-cases, Option-cases, >>=-eq-some,
  some_injective, subst,
}
use tcp_archive.External.{HTable, Bqueue, Host}
use tcp_archive.Socket.{Socket, wait_for_event, has_status, max_sockets}
use tcp_archive.Node.{Node}
use tcp_archive.Tcpm.{Ctx}
use tcp_archive.Tcpm.Keeps.{regs}
use tcp_archive.Tcpm.Follows.{Follows}
use tcp_archive.Tcp.{get_socket_from_int}
use tcp_archive.Driver.{store}
use tcp_archive.Driver.Sound.{
  IsSound, IsSoundCtx, Follows-IsSoundCtx, store-IsSound, focus-IsSoundCtx,
}
use tcp_archive.Api.{focus, back}

wait_for_event-regs :
    (s : Socket) (bits : ℕ) (v : ℕ × Socket) → wait_for_event s bits ≡ some v → regs v.1 ≡ regs s
unfolding wait_for_event
wait_for_event-regs s bits v e = elim (Bool-cases (has_status bits s.cond_status)) [
  | inl p ↦ sym (ap (λ t. regs t.1) (some_injective (rw p at e)))
  | inr p ↦ (let no = rw p at e in cc)
]

module _ {H : HTable} {B : Bqueue} (h : Host) where
  -- A call for a socket of the table works on it.
  pub focus_at :
      (i : ℕ) (node : Node H B) (sock : Socket)
      → i < 256
      → node.socket_table i ≡ some sock
      → focus h node (pos i) ≡ some (record { sock = sock; node = node })
  unfolding get_socket_from_int
  focus_at i node sock less e =
      let nonneg : ltb_ℤ (pos i) (pos 0) ≡ false = le→ltb 0 (i + 0) (omega arith) in
      rw (nonneg, lt→ltb i 256 less, e)

  pub focus-store :
      (i : ℕ) (w : Ctx H B)
      → i < 256
      → focus h (store i w) (pos i) ≡ some (record { sock = w.sock; node = store i w })
  focus-store i w less = focus_at i (store i w) w.sock less (rw (==_refl i))

  slot_of :
      (node : Node H B) (s : ℤ) (slot : Option Socket)
      → get_socket_from_int h node s ≡ some slot
      → slot ≡ node.socket_table (pos_part s)
  unfolding get_socket_from_int
  slot_of node s slot e =
      let (_, _, e₁) = >>=-eq-some (assert (not (ltb_ℤ s (pos 0)))) _ e in
      let (_, _, e₂) = >>=-eq-some (assert (ltb (pos_part s) max_sockets)) _ e₁ in
      sym (some_injective e₂)

  pub focus-Sound :
      (node : Node H B) (s : ℤ) (w : Ctx H B)
      → focus h node s ≡ some w
      → IsSound node
      → IsSoundCtx w
  focus-Sound node s w e v =
      let (slot, a, e₁) = >>=-eq-some (get_socket_from_int h node s) _ e in
      let (sock, b, e₂) = >>=-eq-some slot _ e₁ in
      subst IsSoundCtx (some_injective e₂)
        (focus-IsSoundCtx node (pos_part s) sock v (sym (slot_of node s slot a) ∙ b))

  pub back-IsSound : {w w' : Ctx H B} → Follows w w' → IsSoundCtx w → IsSound (back h w')
  back-IsSound {w} {w'} k v = store-IsSound w'.sock.fd refl (Follows-IsSoundCtx k v)

module _ {H : HTable} {B : Bqueue} where
  -- A result of a call whose node is in order.
  pub ends : {A : Type 0} {r v : Node H B × A} → some r ≡ some v → IsSound r.0 → IsSound v.0
  ends {A} e s = subst (λ (z : Node H B × A). IsSound z.0) (some_injective e) s

  -- The end of a call that waits: it sleeps on, or a change of the socket's other fields ends it.
  pub woken :
      (node : Node H B) (w : Ctx H B) (bits : ℕ) (f : ℕ → Socket → Node H B × Option ℤ)
      (v : Node H B × Option ℤ)
      → ((status : ℕ) (s : Socket) → regs s ≡ regs w.sock → IsSound (f status s).0)
      → IsSound node
      → elim (wait_for_event w.sock bits) [
        | none ↦ some (node, none)
        | some (status, s) ↦ some (f status s)
      ]
        ≡ some v
      → IsSound v.0
  woken node w bits f v ok sound e = elim (Option-cases (wait_for_event w.sock bits)) [
    | inl p ↦ ends (rw p at e) sound
    | inr ((status, s), p) ↦
        ends (rw p at e) (ok status s (wait_for_event-regs w.sock bits (status, s) p))
  ]
