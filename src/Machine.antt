-- ===== src/Machine.antt =====
-- tcp_branch/state.h and tcp_branch/state.c: the generic state machine. States are made in an arena
-- and pointed to by their index there; an index out of the arena is a null pointer. Function
-- pointers are names, of types that the client gives with what a call of each does: `none` is a call
-- that ends the process. The machine lies in the context that its functions get and may change.
pub mod Steps
pub mod Respects
use tcp_archive.Prelude.{
  ℕ, suc, ◌+◌, Option, none, some, Bool, true, false, List, [], ◌∷◌, ◌++◌, length, get_elem?, set,
  ◌==◌, if◌then◌else◌, ℤ, pos, negsuc, ◌>>=◌, ◌>>◌, ◌≡◌,
}
use tcp_archive.External.{HTable}

-- RESTART_OK, RESTART_ABORT and RESTART_INIT
abbrev pub restart_ok : ℕ
restart_ok = 1

abbrev pub restart_abort : ℕ
restart_abort = 2

abbrev pub restart_init : ℕ
restart_init = 4

-- `machine_t`, but for its context.
pub record Machine : Type 0 where
  pub current : ℕ
  pub prev : ℕ
  pub root : ℕ

-- `transition_t`; `TA` names the transition functions, `D` is what `argd` points to.
pub record Transition (TA D : Type 0) : Type 0 where
  pub action : Option TA
  pub argd : D
  pub next : ℕ

-- `state_t`, without the mark that only `state_destroy` uses.
pub record State (H : HTable) (SA EA TA D : Type 0) : Type 0 where
  pub id : ℕ
  pub transitions : H.Table (Transition TA D)
  pub argd : D
  pub action : Option SA
  pub error : Option EA

-- A client of the machine, first what a reset needs: the context, what a state's function is handed,
-- what `argd` points to, the names of the state functions, the machine's registers in the context,
-- and a call of a state function.
pub record Base : Type 1 where
  pub Context : Type 0
  pub Arg : Type 0
  pub D : Type 0
  pub SA : Type 0
  pub machine : Context → Machine
  pub set_machine : Machine → Context → Context
  pub reason : ℕ → Arg
  pub call_action : SA → ℕ → D → Arg → Context → Option Context

-- And the rest: what a transition's function is handed, the names of the error and the transition
-- functions, and the calls. An `int` result that is not 0 is a failed transition.
pub record Client : Type 1 where
  pub base : Base
  pub open base use *
  pub TArg : Type 0
  pub EA : Type 0
  pub TA : Type 0
  pub call_error : EA → ℕ → Arg → Context → Option Context
  pub call_transition : TA → ℕ → ℕ → D → TArg → Context → Option (Context × ℤ)

-- What the machine relies on: its own registers are read back as written, and neither a state action
-- nor a transition function touches them. An error function may.
pub record IsClient (c : Client) : Type 0 where
  pub machine-set_machine : (m : Machine) (w : c.Context) → c.machine (c.set_machine m w) ≡ m
  pub action_keeps :
      (f : c.SA) (id : ℕ) (d : c.D) (a : c.Arg) (w w' : c.Context)
      → c.call_action f id d a w ≡ some w'
      → c.machine w' ≡ c.machine w
  pub transition_keeps :
      (f : c.TA) (p n : ℕ) (d : c.D) (a : c.TArg) (w w' : c.Context) (r : ℤ)
      → c.call_transition f p n d a w ≡ some (w', r)
      → c.machine w' ≡ c.machine w

abbrev pub is_zero : ℤ → Bool
is_zero (pos n) = n == 0
is_zero (negsuc n) = false

-- The states of one arena.
abbrev pub Arena : (H : HTable) (SA EA TA D : Type 0) → Type 0
Arena H SA EA TA D = List (State H SA EA TA D)

module _ (H : HTable) {SA EA TA D : Type 0} where
  -- `state_new` returns the pointer.
  unfoldable pub state_new :
      Arena H SA EA TA D → ℕ → Option SA → Option EA → D → Arena H SA EA TA D × ℕ
  state_new arena id action error argd = (
    arena
        ++ record { id = id; transitions = H.empty; argd = argd; action = action; error = error }
          ∷ [],
    length arena,
  )

  -- `state_transition`, with `malloc` succeeding: the arena and the status.
  unfoldable pub state_transition :
      Arena H SA EA TA D → ℕ → ℕ → ℕ → Option TA → D → Arena H SA EA TA D × ℤ
  state_transition arena state next input action argd = elim (get_elem? arena state) [
    | none ↦ (arena, negsuc 0)
    | some s ↦ elim (get_elem? arena next) [
      | none ↦ (arena, negsuc 0)
      | some _ ↦ elim (H.get s.transitions input) [
        | some _ ↦ (arena, negsuc 1)
        | none ↦ (
          set arena state (record s {
            transitions =
                H.put s.transitions input (record { action = action; argd = argd; next = next });
          }),
          pos 0,
        )
      ]
    ]
  ]

module _ (H : HTable) (b : Base) {EA TA : Type 0} where
  -- A call through a function pointer that may be null.
  unfoldable pub run_action : State H b.SA EA TA b.D → b.Arg → b.Context → Option b.Context
  run_action s a w = elim s.action [ none ↦ some w | some f ↦ b.call_action f s.id s.argd a w ]

  unfoldable pub machine_reset : Arena H b.SA EA TA b.D → ℕ → b.Context → Option b.Context
  unfolding run_action
  machine_reset arena why w = do
    let root = (b.machine w).root
    s ← get_elem? arena root
    run_action s (b.reason why)
        (b.set_machine (record { current = root; prev = root; root = root }) w)

  -- `machine_new`; the context has the machine's registers, which are not yet set.
  unfoldable pub machine_new : Arena H b.SA EA TA b.D → ℕ → b.Context → Option b.Context
  unfolding machine_reset
  machine_new arena start w =
      machine_reset arena restart_init
        (b.set_machine (record { current = start; prev = start; root = start }) w)

module _ (H : HTable) (c : Client) where
  abbrev pub States : Type 0
  States = Arena H c.SA c.EA c.TA c.D

  pub run_error : State H c.SA c.EA c.TA c.D → c.Arg → c.Context → Option c.Context
  run_error s a w = elim s.error [ none ↦ some w | some f ↦ c.call_error f s.id a w ]

  -- The two failures of a step: the state's error function, and back to the root. The result is the
  -- null pointer.
  pub step_fails :
      States → State H c.SA c.EA c.TA c.D → c.Arg → c.Context → Option (c.Context × Option ℕ)
  unfolding run_error machine_reset
  step_fails arena s args w = do
    w' ← run_error s args w
    w'' ← machine_reset H c.base arena restart_abort w'
    some (w'', none)

  -- The move along a transition, with the action of the state that it enters.
  unfoldable pub step_moves : States → ℕ → c.Arg → c.Context → Option (c.Context × Option ℕ)
  unfolding run_action
  step_moves arena next args w = do
    let m = c.machine w
    s ← get_elem? arena next
    w' ←
        run_action H c.base s (if next == m.root then c.reason restart_ok else args)
          (c.set_machine (record m { current = next; prev = m.current }) w)
    some (w', some (c.machine w').current)

  -- A transition's function, if there is one, and its status.
  unfoldable pub run_transition :
      State H c.SA c.EA c.TA c.D
      → ℕ
      → Transition c.TA c.D
      → c.TArg
      → c.Context
      → Option (c.Context × ℤ)
  run_transition s next_id tr argt w = elim tr.action [
    | none ↦ some (w, pos 0)
    | some f ↦ c.call_transition f s.id next_id tr.argd argt w
  ]

  -- `machine_step`: the context and the pointer that it returns.
  unfoldable pub machine_step :
      States → ℕ → c.TArg → c.Arg → c.Context → Option (c.Context × Option ℕ)
  unfolding run_transition step_fails step_moves
  machine_step arena input argt args w = elim (get_elem? arena (c.machine w).current) [
    | none ↦ some (w, none)
    | some s ↦ elim (H.get s.transitions input) [
      | none ↦ step_fails arena s args w
      | some tr ↦ get_elem? arena tr.next >>= λ n. run_transition s n.id tr argt w >>= λ r.
          if is_zero r.1 then step_moves arena tr.next args r.0 else step_fails arena s args r.0
    ]
  ]
