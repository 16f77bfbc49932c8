-- ===== src/Tcpm/Follows.antt =====
-- What `tcpm_reset` of tcp_branch/tcpstate.c leaves in order, as every use of the TCP machine does: the numbers
-- of the sockets, and the registers of their machines.
use tcp_archive.Prelude.{
  ℕ, ◌≡◌, ◌<◌, refl, sym, ◌∙◌, ap, Option, some, Bool, true, false, inl, inr, Option-cases,
  >>=-eq-some, some_injective, subst, arith, get_elem?, assert, if◌then◌else◌,
}
use tcp_archive.External.{HTable, Bqueue, Host}
use tcp_archive.Machine.{Machine, State, machine_reset, machine_new, run_action}
use tcp_archive.Tcpm.{
  Ctx, Arg, ActionFn, ErrorFn, TransFn, tcp_base, tcp_states, tcpm_reset, tcpm_new, new_states,
}
use tcp_archive.Tcpm.Names.{st_closed, st_listen}
use tcp_archive.Tcpm.Keeps.{Keeps, call_action-Keeps, slot_regs}

-- The registers of a machine point to its 11 states, and the root is the closed state.
pub record InRange (m : Machine) : Type 0 where
  pub root : m.root ≡ 0
  pub current : m.current < 11
  pub prev : m.prev < 11

pub record Follows {H : HTable} {B : Bqueue} (w w' : Ctx H B) : Type 0 where
  pub fd : w'.sock.fd ≡ w.sock.fd
  pub set : w'.sock.machine_set ≡ w.sock.machine_set
  pub range : InRange w.sock.machine → InRange w'.sock.machine
  pub table : (i : ℕ) → slot_regs (w'.node.socket_table i) ≡ slot_regs (w.node.socket_table i)

started :
    (clone : Bool) (m : Machine)
    → InRange m
    → InRange (if clone then record m { current = st_listen } else m)
started true m v = record { root = v.root; current = omega arith; prev = v.prev }
started false m v = v

-- What `tcpm_new` makes, of whatever the memory of the socket holds.
pub record IsNew {H : HTable} {B : Bqueue} (w w' : Ctx H B) : Type 0 where
  pub fd : w'.sock.fd ≡ w.sock.fd
  pub set : w'.sock.machine_set ≡ true
  pub range : InRange w'.sock.machine
  pub table : (i : ℕ) → slot_regs (w'.node.socket_table i) ≡ slot_regs (w.node.socket_table i)

module _ {H : HTable} {B : Bqueue} where
  pub Follows-refl : (w : Ctx H B) → Follows w w
  Follows-refl w = record { fd = refl; set = refl; range = λ v. v; table = λ i. refl }

  pub Follows-trans : {u v w : Ctx H B} → Follows u v → Follows v w → Follows u w
  Follows-trans a b = record {
    fd = b.fd ∙ a.fd;
    set = b.set ∙ a.set;
    range = λ v. b.range (a.range v);
    table = λ i. b.table i ∙ a.table i;
  }

  pub Keeps-Follows : {w w' : Ctx H B} → Keeps w w' → Follows w w'
  Keeps-Follows k = record {
    fd = ap (λ r. r.0) k.focus;
    set = ap (λ r. r.1) k.focus;
    range = λ v. subst InRange (sym (ap (λ r. r.2) k.focus)) v;
    table = k.table;
  }

  pub Follows-some : {u v w : Ctx H B} → some v ≡ some w → Follows u v → Follows u w
  Follows-some {u} e k = subst (Follows u) (some_injective e) k

module _ {H : HTable} {B : Bqueue} (h : Host) where
  run_action-Follows :
      (s : State H ActionFn ErrorFn TransFn (Option ℕ)) (a : Arg) (w w' : Ctx H B)
      → run_action H (tcp_base H B h) s a w ≡ some w'
      → Follows w w'
  unfolding run_action
  run_action-Follows s a w w' e = elim (Option-cases s.action) [
    | inl p ↦ Follows-some (rw p at e) (Follows-refl w)
    | inr (f, p) ↦ Keeps-Follows (call_action-Keeps h f s.id s.argd a w w' (rw p at e))
  ]

  -- The machine's registers at its root.
  abbrev pub rooted : Ctx H B → Ctx H B
  rooted w =
      let root = w.sock.machine.root in
      record w {
        sock = record w.sock { machine = record { current = root; prev = root; root = root } };
      }

  pub rooted-Follows : (w : Ctx H B) → Follows w (rooted w)
  rooted-Follows w = record {
    fd = refl;
    set = refl;
    range = λ v.
        let z = v.root in
        record { root = v.root; current = omega (arith, z); prev = omega (arith, z) };
    table = λ i. refl;
  }

  abbrev rooted_at_closed : Ctx H B → Ctx H B
  rooted_at_closed w = record w {
    sock = record w.sock { machine = record { current = 0; prev = 0; root = 0 } };
  }

  pub tcpm_reset-Follows : (w w' : Ctx H B) → tcpm_reset H B h w ≡ some w' → Follows w w'
  unfolding tcpm_reset machine_reset
  tcpm_reset-Follows w w' e =
      let (u, _, e₁) = >>=-eq-some (assert w.sock.machine_set) _ e in
      let (arena, _, e₂) = >>=-eq-some (tcp_states H) _ e₁ in
      let (s, _, e₃) = >>=-eq-some (get_elem? arena w.sock.machine.root) _ e₂ in
      Follows-trans (rooted-Follows w) (run_action-Follows s _ _ w' e₃)

  pub tcpm_new-IsNew :
      (clone : Bool) (w w' : Ctx H B) → tcpm_new H B h clone w ≡ some w' → IsNew w w'
  unfolding tcpm_new machine_new machine_reset
  tcpm_new-IsNew clone w w' e =
      let (w₁, a, e₁) =
        >>=-eq-some (machine_new H (tcp_base H B h) (new_states H) st_closed w) _ e in
      let (s, _, e₀) = >>=-eq-some (get_elem? (new_states H) 0) _ a in
      let (arena, _, e₂) = >>=-eq-some (tcp_states H) _ e₁ in
      let k = run_action-Follows s _ (rooted_at_closed w) w₁ e₀ in
      subst (IsNew w) (some_injective e₂) (record {
        fd = k.fd;
        set = refl;
        range =
            started clone w₁.sock.machine
              (k.range (record { root = refl; current = omega arith; prev = omega arith }));
        table = k.table;
      })
