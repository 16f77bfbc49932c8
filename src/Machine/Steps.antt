-- ===== src/Machine/Steps.antt =====
-- The behaviour of `machine_step` and `machine_reset` of tcp_branch/state.c.
use tcp_archive.Prelude.{
  ℕ, Option, none, some, true, get_elem?, ℤ, ◌≡◌, ◌∙◌, sym, ap, inl, inr, Option-cases, Bool-cases,
  >>=-eq-some, some_injective,
}
use tcp_archive.External.{HTable}
use tcp_archive.Machine.{
  Machine, Transition, State, Client, IsClient, States, is_zero, run_action, run_error,
  machine_reset, step_fails, step_moves, run_transition, machine_step, restart_abort,
}

module _ (H : HTable) (c : Client) (law : IsClient c) where
  run_action-keeps :
      (s : State H c.SA c.EA c.TA c.D) (a : c.Arg) {w w' : c.Context}
      → run_action H c.base s a w ≡ some w'
      → c.machine w' ≡ c.machine w
  unfolding run_action
  run_action-keeps s a {w} {w'} e = elim (Option-cases s.action) [
    | inl p ↦ ap c.machine (sym (some_injective (rw p at e)))
    | inr (f, p) ↦ law.action_keeps f s.id s.argd a w w' (rw p at e)
  ]

  -- After a reset the machine stands at its root, with no history.
  pub machine_reset-at_root :
      (arena : States H c) (why : ℕ) {w w' : c.Context}
      → machine_reset H c.base arena why w ≡ some w'
      → let root = (c.machine w).root in
        c.machine w' ≡ record { current = root; prev = root; root = root }
  unfolding machine_reset
  machine_reset-at_root arena why {w} e =
      let (s, p, q) = >>=-eq-some (get_elem? arena (c.machine w).root) _ e in
      run_action-keeps s _ q ∙ law.machine-set_machine _ w

  step_fails-at_root :
      (arena : States H c) (s : State H c.SA c.EA c.TA c.D) (args : c.Arg) (w : c.Context)
      {w' : c.Context} {r : Option ℕ}
      → step_fails H c arena s args w ≡ some (w', r)
      → (r ≡ none)
        × ((c.machine w').current ≡ (c.machine w').root)
        × ((c.machine w').prev ≡ (c.machine w').root)
  unfolding step_fails
  step_fails-at_root arena s args w e =
      let (w₁, p, q) = >>=-eq-some (run_error H c s args w) _ e in
      let (w₂, p', q') = >>=-eq-some (machine_reset H c.base arena restart_abort w₁) _ q in
      let m = machine_reset-at_root arena restart_abort p' in
      let e₁ = some_injective q' in
      let at = ap (λ t. c.machine t.0) (sym e₁) ∙ m in
      (
        sym (ap (λ t. t.1) e₁),
        ap (λ t. t.current) at ∙ sym (ap (λ t. t.root) at),
        ap (λ t. t.prev) at ∙ sym (ap (λ t. t.root) at),
      )

  step_moves-along :
      (arena : States H c) (next : ℕ) (args : c.Arg) (w : c.Context) {w' : c.Context} {r : Option ℕ}
      → step_moves H c arena next args w ≡ some (w', r)
      → (r ≡ some next)
        × (c.machine w'
            ≡ record { current = next; prev = (c.machine w).current; root = (c.machine w).root })
  unfolding step_moves
  step_moves-along arena next args w {w'} {r} e =
      let (s, p, q) = >>=-eq-some (get_elem? arena next) _ e in
      let (w₁, p', q') = >>=-eq-some (run_action H c.base s _ _) _ q in
      let m = run_action-keeps s _ p' ∙ law.machine-set_machine _ w in
      let e₁ = some_injective q' in
      (sym (ap (λ t. t.1) e₁) ∙ ap (λ t. some t.current) m, ap (λ t. c.machine t.0) (sym e₁) ∙ m)

  run_transition-keeps :
      (s : State H c.SA c.EA c.TA c.D) (n : ℕ) (tr : Transition c.TA c.D) (a : c.TArg)
      (w : c.Context) {v : c.Context × ℤ}
      → run_transition H c s n tr a w ≡ some v
      → c.machine v.0 ≡ c.machine w
  unfolding run_transition
  run_transition-keeps s n tr a w {v} e = elim (Option-cases tr.action) [
    | inl p ↦ ap (λ t. c.machine t.0) (sym (some_injective (rw p at e)))
    | inr (f, p) ↦ law.transition_keeps f s.id n tr.argd a w v.0 v.1 (rw p at e)
  ]

  -- What a step of the machine can end in.
  pub data Outcome (s : State H c.SA c.EA c.TA c.D) (input : ℕ) (m m' : Machine) (r : Option ℕ)
      : Type 0 where
    moved :
        (tr : Transition c.TA c.D)
        → H.get s.transitions input ≡ some tr
        → r ≡ some tr.next
        → m' ≡ record { current = tr.next; prev = m.current; root = m.root }
        → Outcome s input m m' r
    back_at_root : r ≡ none → m'.current ≡ m'.root → m'.prev ≡ m'.root → Outcome s input m m' r

  -- A step from state `s` that does not end the process either follows a transition that `s` has for
  -- the input, and returns the state entered and remembers the state left, or it returns null and
  -- leaves the machine at its root, with no history.
  pub machine_step-Outcome :
      (arena : States H c) (s : State H c.SA c.EA c.TA c.D) (input : ℕ) (argt : c.TArg)
      (args : c.Arg) (w w' : c.Context) (r : Option ℕ)
      → get_elem? arena (c.machine w).current ≡ some s
      → machine_step H c arena input argt args w ≡ some (w', r)
      → Outcome s input (c.machine w) (c.machine w') r
  unfolding machine_step
  machine_step-Outcome arena s input argt args w w' r h e =
      elim (Option-cases (H.get s.transitions input)) [
        | inl p ↦ failed w (rw (h, p, machine_step) at e)
        | inr (tr, p) ↦
            (let (n, p₁, q₁) =
                >>=-eq-some (get_elem? arena tr.next) _ (rw (h, p, machine_step) at e) in
              let (v, p₂, q₂) = >>=-eq-some (run_transition H c s n.id tr argt w) _ q₁ in
              elim (Bool-cases (is_zero v.1)) [
                | inl z ↦ went tr n v p p₂ (rw z at q₂)
                | inr z ↦ failed v.0 (rw z at q₂)
              ])
      ]
    where
      failed :
          (w₁ : c.Context)
          → step_fails H c arena s args w₁ ≡ some (w', r)
          → Outcome s input (c.machine w) (c.machine w') r
      failed w₁ q = let (a, b, d) = step_fails-at_root arena s args w₁ q in back_at_root a b d

      went :
          (tr : Transition c.TA c.D) (n : State H c.SA c.EA c.TA c.D) (v : c.Context × ℤ)
          → H.get s.transitions input ≡ some tr
          → run_transition H c s n.id tr argt w ≡ some v
          → step_moves H c arena tr.next args v.0 ≡ some (w', r)
          → Outcome s input (c.machine w) (c.machine w') r
      went t n v p p₂ q =
          let (a, b) = step_moves-along arena t.next args v.0 q in
          moved t p a (
            b
            ∙ ap (λ m. record { current = t.next; prev = m.current; root = m.root })
                (run_transition-keeps s n.id t argt w p₂))

  -- Where the transition functions report no failure, a step that has a transition and does not end
  -- the process takes it.
  pub machine_step_taken :
      ((f : c.TA) (p n : ℕ) (d : c.D) (a : c.TArg) (w w' : c.Context) (r : ℤ)
        → c.call_transition f p n d a w ≡ some (w', r)
        → is_zero r ≡ true)
      → (arena : States H c) (s : State H c.SA c.EA c.TA c.D) (tr : Transition c.TA c.D) (input : ℕ)
        (argt : c.TArg) (args : c.Arg) (w w' : c.Context) (r : Option ℕ)
      → get_elem? arena (c.machine w).current ≡ some s
      → H.get s.transitions input ≡ some tr
      → machine_step H c arena input argt args w ≡ some (w', r)
      → r ≡ some tr.next
  unfolding machine_step run_transition
  machine_step_taken ok arena s tr input argt args w w' r h p e =
      let (n, p₁, q₁) = >>=-eq-some (get_elem? arena tr.next) _ (rw (h, p, machine_step) at e) in
      let (v, p₂, q₂) = >>=-eq-some (run_transition H c s n.id tr argt w) _ q₁ in
      (step_moves-along arena tr.next args v.0 (rw (zero_status s n.id tr argt w v p₂) at q₂)).0
    where
      zero_status :
          (s : State H c.SA c.EA c.TA c.D) (n : ℕ) (tr : Transition c.TA c.D) (a : c.TArg)
          (w : c.Context) (v : c.Context × ℤ)
          → run_transition H c s n tr a w ≡ some v
          → is_zero v.1 ≡ true
      zero_status s n tr a w v e = elim (Option-cases tr.action) [
        | inl q ↦ sym (ap (λ z. is_zero z.1) (some_injective (rw q at e)))
        | inr (f, q) ↦ ok f s.id n tr.argd a w v.0 v.1 (rw q at e)
      ]
