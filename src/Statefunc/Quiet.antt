-- ===== src/Statefunc/Quiet.antt =====
-- Events of tcp_branch/tcpstate.c that leave an established connection as it is.
use tcp_archive.Prelude.{
  ℕ, ◌≡◌, refl, sym, ◌∙◌, ap, Option, none, some, true, false, get_elem?, ◌==◌, if◌then◌else◌,
  ◌>>=◌, assert, arith, some_injective, ◌⊎◌, inl, inr,
}
use tcp_archive.External.{HTable, Bqueue, Host}
use tcp_archive.Machine.{
  State, Transition, machine_step, run_transition, step_moves, run_action, restart_ok, state_new,
}
use tcp_archive.Tcpm.{
  Ctx, Arg, reason, transitions, ActionFn, in_estab, fail_with_reset, ErrorFn, TransFn, TcpArena,
  tcp_base, new_states, call_action, call_in_estab, tcpm_prevstate,
}
use tcp_archive.Tcpm.Names.{st_estab, on_none, on_recv_ack}
use tcp_archive.Tcpm.Table.{get-tcp_states, get_elem?_total, find_row, row_or, made_of}
use tcp_archive.Tcpm.Reset.{bind_some}
use tcp_archive.Statefunc.{TArg, tcp_client, tcpm_event}

module _ (H : HTable) (B : Bqueue) (h : Host) where
  -- The machine again in the established state, which it also remembers.
  abbrev pub stayed : Ctx H B → Ctx H B
  stayed w = record w {
    sock = record w.sock { machine = record { current = 4; prev = 4; root = w.sock.machine.root } };
  }

  enter_estab :
      (s : State H ActionFn ErrorFn TransFn (Option ℕ)) (a : Arg) (w : Ctx H B)
      → s.id ≡ 4
      → s.action ≡ some in_estab
      → run_action H (tcp_base H B h) s a (stayed w) ≡ some (stayed w)
  unfolding run_action call_action call_in_estab tcpm_prevstate
  enter_estab s a w e e' = rw (e', run_action, e)

  moves :
      (arena : TcpArena H) (s : State H ActionFn ErrorFn TransFn (Option ℕ)) (args : Arg)
      (w : Ctx H B)
      → get_elem? arena 4 ≡ some s
      → s.id ≡ 4
      → s.action ≡ some in_estab
      → w.sock.machine.current ≡ 4
      → step_moves H (tcp_client H B h) arena 4 args w ≡ some (stayed w, some 4)
  unfolding step_moves
  moves arena s args w p e e' at =
      let root = w.sock.machine.root in
      let arg = if 4 == root then reason restart_ok else args in
      rw p (
        ap
          (λ n.
            run_action H (tcp_base H B h) s arg (record w {
              sock = record w.sock { machine = record { current = 4; prev = n; root = root } };
            })
            >>= λ w'. some (w', some w'.sock.machine.current))
          at
        ∙ rw (enter_estab s arg w e e'))

  steps :
      (arena : TcpArena H) (s : State H ActionFn ErrorFn TransFn (Option ℕ))
      (tr : Transition TransFn (Option ℕ)) (event : ℕ) (argt : TArg) (args : Arg) (w : Ctx H B)
      → get_elem? arena 4 ≡ some s
      → s.id ≡ 4
      → s.action ≡ some in_estab
      → w.sock.machine.current ≡ 4
      → H.get s.transitions event ≡ some tr
      → tr ≡ record { action = none; argd = none; next = 4 }
      → machine_step H (tcp_client H B h) arena event argt args w ≡ some (stayed w, some 4)
  unfolding machine_step run_transition step_moves
  steps arena s tr event argt args w p e e' at got is =
      let here : get_elem? arena w.sock.machine.current ≡ some s = ap (get_elem? arena) at ∙ p in
      rw (here, machine_step)
        (rw (got ∙ ap some is) (rw p (rw p at (moves arena s args w p e e' at))))

  quiet_row :
      (event : ℕ)
      → (event ≡ on_none) ⊎ (event ≡ on_recv_ack)
      → row_or (find_row transitions 4 event) none
        ≡ some (record { action = none; argd = none; next = 4 })
  quiet_row event (inl e) = ap (λ n. row_or (find_row transitions 4 n) none) e
  quiet_row event (inr e) = ap (λ n. row_or (find_row transitions 4 n) none) e

  -- In the established state an event without flags, or an acknowledgement, leaves all of the socket and the node as it
  -- is, but that the machine remembers that state as the one before.
  pub tcpm_event_quiet :
      (event : ℕ) (argt : TArg) (args : Arg) (w : Ctx H B)
      → w.sock.machine_set ≡ true
      → w.sock.machine.current ≡ st_estab
      → (event ≡ on_none) ⊎ (event ≡ on_recv_ack)
      → tcpm_event H B h event argt args w ≡ some (stayed w, false)
  unfolding tcpm_event new_states state_new
  tcpm_event_quiet event argt args w set at which =
      let (arena, p, len, made, got) = get-tcp_states H in
      let (s, q) = get_elem?_total H arena 4 (rw len (omega arith)) in
      let m : some (made_of H s) ≡ some (4, some in_estab, some fail_with_reset, none) =
        sym (rw q) ∙ made 4 in
      let found : H.get s.transitions event
          ≡ some (record { action = none; argd = none; next = 4 }) =
        sym (rw q) ∙ got 4 event ∙ quiet_row event which in
      let run =
        steps arena s (record { action = none; argd = none; next = 4 }) event argt args w q
          (ap (λ z. z.0) (some_injective m)) (ap (λ z. z.1) (some_injective m)) at found refl in
      bind_some _ tt _ (ap assert set)
        (bind_some _ arena _ p (bind_some _ (stayed w, some 4) _ run refl))
