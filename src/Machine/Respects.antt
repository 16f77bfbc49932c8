-- ===== src/Machine/Respects.antt =====
-- What `machine_step` and `machine_reset` of tcp_branch/state.c respect: a relation between contexts that
-- the client's functions respect, and that the machine's own writes of its registers respect.
use tcp_archive.Prelude.{
  ℕ, Option, some, get_elem?, lt_of-get_elem?, ◌≡◌, ◌<◌, ap, inl, inr, Option-cases, Bool-cases,
  length, >>=-eq-some, some_injective, subst, ℤ, if◌then◌else◌,
}
use tcp_archive.External.{HTable}
use tcp_archive.Machine.{
  Transition, State, Client, States, is_zero, run_action, run_error, machine_reset, step_fails,
  step_moves, run_transition, machine_step, restart_abort,
}

-- The relation, for arenas of `n` states.
pub record Respects (c : Client) (n : ℕ) (R : c.Context → c.Context → Type 0) : Type 0 where
  pub refl' : (w : c.Context) → R w w
  pub trans : (u v w : c.Context) → R u v → R v w → R u w
  pub reset :
      (w : c.Context)
      → let root = (c.machine w).root in
        R w (c.set_machine (record { current = root; prev = root; root = root }) w)
  pub move :
      (w : c.Context) (next : ℕ)
      → next < n
      → R w
          (c.set_machine (record (c.machine w) { current = next; prev = (c.machine w).current }) w)
  pub action :
      (f : c.SA) (id : ℕ) (d : c.D) (a : c.Arg) (w w' : c.Context)
      → c.call_action f id d a w ≡ some w'
      → R w w'
  pub error :
      (f : c.EA) (id : ℕ) (a : c.Arg) (w w' : c.Context) → c.call_error f id a w ≡ some w' → R w w'
  pub transition :
      (f : c.TA) (p n : ℕ) (d : c.D) (a : c.TArg) (w : c.Context) (v : c.Context × ℤ)
      → c.call_transition f p n d a w ≡ some v
      → R w v.0

module _ (H : HTable) (c : Client) (n : ℕ) (R : c.Context → c.Context → Type 0)
    (law : Respects c n R) where
  R-some : {w : c.Context} {u v : c.Context} → some u ≡ some v → R w u → R w v
  R-some {w} e k = subst (R w) (some_injective e) k

  run_action-respects :
      (s : State H c.SA c.EA c.TA c.D) (a : c.Arg) (w w' : c.Context)
      → run_action H c.base s a w ≡ some w'
      → R w w'
  unfolding run_action
  run_action-respects s a w w' e = elim (Option-cases s.action) [
    | inl p ↦ R-some (rw p at e) (law.refl' w)
    | inr (f, p) ↦ law.action f s.id s.argd a w w' (rw p at e)
  ]

  pub machine_reset-respects :
      (arena : States H c) (why : ℕ) (w w' : c.Context)
      → machine_reset H c.base arena why w ≡ some w'
      → R w w'
  unfolding machine_reset
  machine_reset-respects arena why w w' e =
      let (s, p, q) = >>=-eq-some (get_elem? arena (c.machine w).root) _ e in
      law.trans w _ w' (law.reset w) (run_action-respects s _ _ w' q)

  run_error-respects :
      (s : State H c.SA c.EA c.TA c.D) (a : c.Arg) (w w' : c.Context)
      → run_error H c s a w ≡ some w'
      → R w w'
  unfolding run_error
  run_error-respects s a w w' e = elim (Option-cases s.error) [
    | inl p ↦ R-some (rw p at e) (law.refl' w)
    | inr (f, p) ↦ law.error f s.id a w w' (rw p at e)
  ]

  step_fails-respects :
      (arena : States H c) (s : State H c.SA c.EA c.TA c.D) (args : c.Arg) (w : c.Context)
      (v : c.Context × Option ℕ)
      → step_fails H c arena s args w ≡ some v
      → R w v.0
  unfolding step_fails
  step_fails-respects arena s args w v e =
      let (w₁, p, q) = >>=-eq-some (run_error H c s args w) _ e in
      let (w₂, p', q') = >>=-eq-some (machine_reset H c.base arena restart_abort w₁) _ q in
      R-some (ap (λ t. some t.0) (some_injective q')) (
        law.trans w w₁ w₂ (run_error-respects s args w w₁ p)
          (machine_reset-respects arena restart_abort w₁ w₂ p'))

  step_moves-respects :
      (arena : States H c) (next : ℕ) (args : c.Arg) (w : c.Context) (v : c.Context × Option ℕ)
      → length arena ≡ n
      → step_moves H c arena next args w ≡ some v
      → R w v.0
  unfolding step_moves
  step_moves-respects arena next args w v len e =
      let (s, p, q) = >>=-eq-some (get_elem? arena next) _ e in
      let (w₁, p', q') = >>=-eq-some (run_action H c.base s _ _) _ q in
      R-some (ap (λ t. some t.0) (some_injective q')) (
        law.trans w _ w₁
          (law.move w next (subst (λ k. next < k) len (lt_of-get_elem? arena next p)))
          (run_action-respects s _ _ w₁ p'))

  run_transition-respects :
      (s : State H c.SA c.EA c.TA c.D) (k : ℕ) (tr : Transition c.TA c.D) (a : c.TArg)
      (w : c.Context) (v : c.Context × ℤ)
      → run_transition H c s k tr a w ≡ some v
      → R w v.0
  unfolding run_transition
  run_transition-respects s k tr a w v e = elim (Option-cases tr.action) [
    | inl p ↦ R-some (ap (λ t. some t.0) (some_injective (rw p at e))) (law.refl' w)
    | inr (f, p) ↦ law.transition f s.id k tr.argd a w v (rw p at e)
  ]

  taken :
      (arena : States H c) (s : State H c.SA c.EA c.TA c.D) (next : ℕ) (args : c.Arg)
      (w u : c.Context) (z : ℤ) (v : c.Context × Option ℕ)
      → length arena ≡ n
      → R w u
      → (if is_zero z then step_moves H c arena next args u else step_fails H c arena s args u)
        ≡ some v
      → R w v.0
  taken arena s next args w u z v len k e = elim (Bool-cases (is_zero z)) [
    | inl p ↦ law.trans w u v.0 k (step_moves-respects arena next args u v len (rw p at e))
    | inr p ↦ law.trans w u v.0 k (step_fails-respects arena s args u v (rw p at e))
  ]

  -- A step of the machine respects it.
  pub machine_step-respects :
      (arena : States H c) (input : ℕ) (argt : c.TArg) (args : c.Arg) (w : c.Context)
      (v : c.Context × Option ℕ)
      → length arena ≡ n
      → machine_step H c arena input argt args w ≡ some v
      → R w v.0
  unfolding machine_step
  machine_step-respects arena input argt args w v len e =
      elim (Option-cases (get_elem? arena (c.machine w).current)) [
        | inl q ↦
            R-some (ap (λ t. some t.0) (some_injective (rw (q, machine_step) at e))) (law.refl' w)
        | inr (s, q) ↦ elim (Option-cases (H.get s.transitions input)) [
          | inl p ↦ step_fails-respects arena s args w v (rw (q, p, machine_step) at e)
          | inr (tr, p) ↦
              (let (m, _, e₁) =
                  >>=-eq-some (get_elem? arena tr.next) _ (rw (q, p, machine_step) at e) in
                let (u, p₂, e₂) = >>=-eq-some (run_transition H c s m.id tr argt w) _ e₁ in
                taken arena s tr.next args w u.0 u.1 v len
                  (run_transition-respects s m.id tr argt w u p₂) e₂)
        ]
      ]
