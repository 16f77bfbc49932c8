-- ===== src/Statefunc/Event.antt =====
-- `tcpm_event` of tcp_branch/tcpstate.c against the list of transitions.
use tcp_archive.Prelude.{
  ℕ, ◌≡◌, ◌<◌, refl, sym, ◌∙◌, ap, Option, none, some, Bool, true, false, subst, ℤ, assert,
  >>=-eq-some, some_injective,
}
use tcp_archive.External.{HTable, Bqueue, Host}
use tcp_archive.Machine.{Machine, State, Transition, machine_step, is_zero}
use tcp_archive.Machine.Steps.{
  machine_step-Outcome, machine_step_taken, Outcome, moved, back_at_root,
}
use tcp_archive.Tcpm.{Ctx, Arg, Row, ActionFn, ErrorFn, TransFn, transitions}
use tcp_archive.Tcpm.Table.{find_row, transition_of, row_or, get-tcp_states, get_elem?_total}
use tcp_archive.Statefunc.{TArg, transition_call, call_transition, tcp_client, tcpm_event}
use tcp_archive.Statefunc.Keeps.{tcp_client-IsClient}

-- Where an event leaves the machine, by whether `tcpm_event` says that it failed.
abbrev pub EventOutcome : Machine → Machine → ℕ → Bool → Type 0
EventOutcome m m' event true =
    (find_row transitions m.current event ≡ none) × (m'.current ≡ m'.root) × (m'.prev ≡ m'.root)
EventOutcome m m' event false =
    (r : Row) × (find_row transitions m.current event ≡ some r)
    × (m' ≡ record { current = r.next; prev = m.current; root = m.root })

module _ (H : HTable) (B : Bqueue) (h : Host) where
  returns_zero :
      (f : TransFn) (p n : ℕ) (d : Option ℕ) (a : TArg) (w w' : Ctx H B) (r : ℤ)
      → call_transition h f p n d a w ≡ some (w', r)
      → is_zero r ≡ true
  unfolding call_transition
  returns_zero f p n d a w w' r e =
      let (v, x, y) = >>=-eq-some (transition_call h f d a w) _ e in
      sym (ap (λ z. is_zero z.1) (some_injective y))

  conclude :
      (s : State H ActionFn ErrorFn TransFn (Option ℕ)) (event : ℕ) (m m' : Machine) (r : Option ℕ)
      (row : Option Row)
      → find_row transitions m.current event ≡ row
      → H.get s.transitions event ≡ row_or row none
      → Outcome H (tcp_client H B h) (tcp_client-IsClient H B h) s event m m' r
      → ((tr : Transition TransFn (Option ℕ))
          → H.get s.transitions event ≡ some tr
          → r ≡ some tr.next)
      → EventOutcome m m' event (elim r [ none ↦ true | some _ ↦ false ])
  conclude s event m m' none none p got (moved tr g a b) ok = cc
  conclude s event m m' none none p got (back_at_root a b c) ok = (p, b, c)
  conclude s event m m' (some n) none p got (moved tr g a b) ok = cc
  conclude s event m m' (some n) none p got (back_at_root a b c) ok = cc
  conclude s event m m' none (some row) p got o ok = (let z = ok (transition_of row) got in cc)
  conclude s event m m' (some n) (some row) p got (back_at_root a b c) ok = cc
  conclude s event m m' (some n) (some row) p got (moved tr g a b) ok = (
    row,
    p,
    b
        ∙ ap (λ t. record { current = t.next; prev = m.current; root = m.root })
            (some_injective (sym g ∙ got)),
  )

  -- An event, in one of the 11 states, that does not end the process: if the list of transitions
  -- has a row for the machine's state and the event, the machine follows it and remembers the
  -- state that it left; if it has none, `tcpm_event` reports a failure and the machine is at its
  -- root, with no history.
  pub tcpm_event_outcome :
      (event : ℕ) (argt : TArg) (args : Arg) (w w' : Ctx H B) (failed : Bool)
      → w.sock.machine.current < 11
      → tcpm_event H B h event argt args w ≡ some (w', failed)
      → EventOutcome w.sock.machine w'.sock.machine event failed
  unfolding tcpm_event
  tcpm_event_outcome event argt args w w' failed small e =
      let (arena, p, len, act, got) = get-tcp_states H in
      let (u, _, e₁) = >>=-eq-some (assert w.sock.machine_set) _ e in
      let ((v, r), q, e₂) =
        >>=-eq-some (machine_step H (tcp_client H B h) arena event argt args w) _ (rw p at e₁) in
      let (s, hs) = get_elem?_total H arena w.sock.machine.current (rw len small) in
      let found =
        conclude s event w.sock.machine v.sock.machine r _ refl
          (sym (rw hs) ∙ got w.sock.machine.current event)
          (machine_step-Outcome H (tcp_client H B h) (tcp_client-IsClient H B h) arena s event argt
            args w v r hs q)
          (λ tr g.
            machine_step_taken H (tcp_client H B h) (tcp_client-IsClient H B h) returns_zero arena s
              tr event argt args w v r hs g q) in
      subst (λ z. EventOutcome w.sock.machine z.0.sock.machine event z.1) (some_injective e₂) found
