-- ===== src/Tcpm/Table.antt =====
-- The states that `tcpm_new` of tcp_branch/tcpstate.c builds, against the list of its transitions.
use tcp_archive.Prelude.{
  ℕ, suc, ◌<◌, ◌≡◌, refl, sym, ◌∙◌, ap, Option, none, some, Bool, true, false, not, ◌&&◌, inl, inr,
  zero, List, [], ◌∷◌, length, get_elem?, set, length-set, get_elem?-set_self, get_elem?-set_ne,
  ltb, ◌==◌, if◌then◌else◌, ◌>>=◌, is_some, Bool-cases, arith, ==_iff, ==_refl, ltb→lt, pos,
}
use tcp_archive.External.{HTable}
use tcp_archive.Machine.{State, Transition, state_transition, state_new}
use tcp_archive.Tcpm.{
  Row, TransFn, ActionFn, ErrorFn, TcpArena, add_transitions, new_states, tcp_states, transitions,
}

-- The first row for a state and an input.
abbrev pub find_row : List Row → ℕ → ℕ → Option Row
find_row [] s i = none
find_row (r ∷ l) s i = if r.state == s && r.input == i then some r else find_row l s i

abbrev pub transition_of : Row → Transition TransFn (Option ℕ)
transition_of r = record { action = r.action; argd = r.argd; next = r.next }

-- The transition of a row, or another.
abbrev pub row_or :
    Option Row → Option (Transition TransFn (Option ℕ)) → Option (Transition TransFn (Option ℕ))
row_or none t = t
row_or (some r) t = some (transition_of r)

-- The rows join states below `n`, and no two have the same state and input.
abbrev pub rows_fit : ℕ → List Row → Bool
rows_fit n [] = true
rows_fit n (r ∷ l) =
    ltb r.state n && (ltb r.next n && (not (is_some (find_row l r.state r.input)) && rows_fit n l))

both : (a b : Bool) → (a && b) ≡ true → (a ≡ true) × (b ≡ true)
both true true h = (refl, refl)
both true false h = cc
both false b h = cc

not-true : (b : Bool) → not b ≡ true → b ≡ false
not-true true h = cc
not-true false h = refl

rows_fit-cons :
    (n : ℕ) (r : Row) (l : List Row)
    → rows_fit n (r ∷ l) ≡ true
    → (r.state < n)
      × (r.next < n)
      × (is_some (find_row l r.state r.input) ≡ false)
      × (rows_fit n l ≡ true)
rows_fit-cons n r l h =
    let (p, h₁) = both (ltb r.state n) _ h in
    let (q, h₂) = both (ltb r.next n) _ h₁ in
    let (u, v) = both (not (is_some (find_row l r.state r.input))) _ h₂ in
    (ltb→lt r.state n p, ltb→lt r.next n q, not-true _ u, v)

no_row : (o : Option Row) → is_some o ≡ false → o ≡ none
no_row none h = refl
no_row (some r) h = cc

module _ (H : HTable) where
  -- The transition of state `s` on input `i`.
  abbrev pub arena_get : TcpArena H → ℕ → ℕ → Option (Transition TransFn (Option ℕ))
  arena_get arena s i = get_elem? arena s >>= λ st. H.get st.transitions i

  -- What a state is made with: its number, its function and what that gets, and its error function.
  abbrev pub Made : Type 0
  Made = ℕ × Option ActionFn × Option ErrorFn × Option ℕ

  abbrev pub made_of : State H ActionFn ErrorFn TransFn (Option ℕ) → Made
  made_of st = (st.id, st.action, st.error, st.argd)

  abbrev pub made_at : TcpArena H → ℕ → Option Made
  made_at arena s = get_elem? arena s >>= λ st. some (made_of st)

  pub get_elem?_total :
      {A : Type 0} (l : List A) (i : ℕ) → i < length l → (a : A) × (get_elem? l i ≡ some a)
  get_elem?_total [] i h = elim h [ ]
  get_elem?_total (x ∷ l) zero h = (x, refl)
  get_elem?_total (x ∷ l) (suc i) h = get_elem?_total l i (omega (arith, h))

  get_elem?-set :
      {A : Type 0} (l : List A) (i j : ℕ) (v : A)
      → i < length l
      → get_elem? (set l i v) j ≡ (if i == j then some v else get_elem? l j)
  get_elem?-set l i j v h = elim (Bool-cases (i == j)) [
    | inl p ↦ (let e = (==_iff i j).0 p in rw p (rw (sym e) (get_elem?-set_self l i v h)))
    | inr p ↦ rw p (get_elem?-set_ne l i j v λ e. ground (arith, p, e))
  ]

  -- One call of `state_transition`.
  state_transition_lem :
      (arena : TcpArena H) (r : Row)
      → r.state < length arena
      → r.next < length arena
      → arena_get arena r.state r.input ≡ none
      → (arena' : TcpArena H) × (state_transition H arena r.state r.next r.input r.action r.argd
          ≡ (arena', pos 0))
        × (length arena' ≡ length arena)
        × ((s : ℕ) → made_at arena' s ≡ made_at arena s)
        × ((s i : ℕ)
            → arena_get arena' s i ≡ (
                if r.state == s && r.input == i
                then some (transition_of r)
                else arena_get arena s i))
  unfolding state_transition
  state_transition_lem arena r hs hn free =
      let (st, p) = get_elem?_total arena r.state hs in
      let (n, q) = get_elem?_total arena r.next hn in
      let new : State H ActionFn ErrorFn TransFn (Option ℕ) = record st {
        transitions = H.put st.transitions r.input (transition_of r);
      } in
      let e : H.get st.transitions r.input ≡ none = rw p at free in
      (
        set arena r.state new,
        rw (p, q, e, state_transition),
        length-set arena r.state new,
        λ s. keeps st new p refl s,
        λ s i. found st new p refl s i,
      )
    where
      keeps :
          (st new : State H ActionFn ErrorFn TransFn (Option ℕ))
          → get_elem? arena r.state ≡ some st
          → made_of new ≡ made_of st
          → (s : ℕ) → made_at (set arena r.state new) s ≡ made_at arena s
      keeps st new p q s =
          rw (get_elem?-set arena r.state s new hs) (elim (Bool-cases (r.state == s)) [
            | inl a ↦
                rw a (ap some q ∙ sym (ap (made_at arena) (sym ((==_iff r.state s).0 a)) ∙ rw p))
            | inr a ↦ rw a
          ])

      found :
          (st new : State H ActionFn ErrorFn TransFn (Option ℕ))
          → get_elem? arena r.state ≡ some st
          → new ≡ record st { transitions = H.put st.transitions r.input (transition_of r) }
          → (s i : ℕ)
          → arena_get (set arena r.state new) s i
            ≡ (if r.state == s && r.input == i then some (transition_of r) else arena_get arena s i)
      found st new p q s i =
          rw (get_elem?-set arena r.state s new hs) (elim (Bool-cases (r.state == s)) [
            | inl a ↦ rw a (
                ap (λ x. H.get x.transitions i) q
                ∙ H.get-put st.transitions r.input (transition_of r) i
                ∙ ap (λ z. if r.input == i then some (transition_of r) else z)
                    (sym (ap (λ z. arena_get arena z i) (sym ((==_iff r.state s).0 a)) ∙ rw p)))
            | inr a ↦ rw a
          ])

  abbrev AllEmpty : TcpArena H → Type 0
  AllEmpty [] = Unit
  AllEmpty (s ∷ l) = ((i : ℕ) → H.get s.transitions i ≡ none) × AllEmpty l

  arena_get-AllEmpty : (arena : TcpArena H) (s i : ℕ) → AllEmpty arena → arena_get arena s i ≡ none
  arena_get-AllEmpty [] s i h = refl
  arena_get-AllEmpty (st ∷ l) zero i h = h.0 i
  arena_get-AllEmpty (st ∷ l) (suc s) i h = arena_get-AllEmpty l s i h.1

  get-add_transitions :
      (l : List Row) (arena : TcpArena H)
      → rows_fit (length arena) l ≡ true
      → ((s i : ℕ) → is_some (find_row l s i) ≡ true → arena_get arena s i ≡ none)
      → (arena' : TcpArena H) × (add_transitions H arena l ≡ some arena')
        × (length arena' ≡ length arena)
        × ((s : ℕ) → made_at arena' s ≡ made_at arena s)
        × ((s i : ℕ) → arena_get arena' s i ≡ row_or (find_row l s i) (arena_get arena s i))
  get-add_transitions [] arena fit free = (arena, refl, refl, (λ s. refl), λ s i. refl)
  get-add_transitions (r ∷ l) arena fit free =
      let (hs, hn, new, fit') = rows_fit-cons (length arena) r l fit in
      let (a, p, len, act, got) =
        state_transition_lem arena r hs hn
          (free r.state r.input (rw (==_refl r.state, ==_refl r.input))) in
      let (a', q, len', act', got') = get-add_transitions l a (rw len fit') (later a new got) in
      (a', rw p q, len' ∙ len, (λ s. act' s ∙ act s), λ s i. got' s i ∙ agree a new got s i)
    where
      same :
          (s i : ℕ)
          → (r.state == s && r.input == i) ≡ true
          → is_some (find_row l r.state r.input) ≡ false
          → find_row l s i ≡ none
      same s i h new =
          let (e₁, e₂) = both (r.state == s) (r.input == i) h in
          let e = ap (λ z. find_row l z r.input) ((==_iff r.state s).0 e₁) in
          let e' = ap (find_row l s) ((==_iff r.input i).0 e₂) in
          sym (e ∙ e') ∙ no_row (find_row l r.state r.input) new

      later :
          (a : TcpArena H)
          → is_some (find_row l r.state r.input) ≡ false
          → ((s i : ℕ)
              → arena_get a s i ≡ (
                  if r.state == s && r.input == i
                  then some (transition_of r)
                  else arena_get arena s i))
          → (s i : ℕ) → is_some (find_row l s i) ≡ true
          → arena_get a s i ≡ none
      later a new got s i h = elim (Bool-cases (r.state == s && r.input == i)) [
        | inl c ↦ (let e = same s i c new in cc)
        | inr c ↦ got s i ∙ rw c (free s i (rw c h))
      ]

      agree :
          (a : TcpArena H)
          → is_some (find_row l r.state r.input) ≡ false
          → ((s i : ℕ)
              → arena_get a s i ≡ (
                  if r.state == s && r.input == i
                  then some (transition_of r)
                  else arena_get arena s i))
          → (s i : ℕ)
          → row_or (find_row l s i) (arena_get a s i)
            ≡ row_or (find_row (r ∷ l) s i) (arena_get arena s i)
      agree a new got s i = elim (Bool-cases (r.state == s && r.input == i)) [
        | inl c ↦ rw (same s i c new, c) (got s i ∙ rw c)
        | inr c ↦ rw c (ap (row_or (find_row l s i)) (got s i ∙ rw c))
      ]

  -- Whatever the hash table, all of `tcpm_new`'s calls of `state_transition` succeed, so that none of
  -- their asserts fails; the machine then has 11 states with the numbers, the functions, the error
  -- functions and the data that they were made with, and for each state and input the transition of
  -- the first row of the list of the calls for them, and none where there is no row.
  pub get-tcp_states :
      (arena : TcpArena H) × (tcp_states H ≡ some arena)
      × (length arena ≡ 11)
      × ((s : ℕ) → made_at arena s ≡ made_at (new_states H) s)
      × ((s i : ℕ) → arena_get arena s i ≡ row_or (find_row transitions s i) none)
  unfolding tcp_states new_states state_new
  get-tcp_states =
      let empty : (s i : ℕ) → arena_get (new_states H) s i ≡ none = λ s i.
        arena_get-AllEmpty (new_states H) s i (
          H.get-empty,
          (
            H.get-empty,
            (
              H.get-empty,
              (
                H.get-empty,
                (
                  H.get-empty,
                  (
                    H.get-empty,
                    (H.get-empty, (H.get-empty, (H.get-empty, (H.get-empty, (H.get-empty, tt))))),
                  ),
                ),
              ),
            ),
          ),
        ) in
      let (a, p, len, act, got) =
        get-add_transitions transitions (new_states H) refl (λ s i h. empty s i) in
      (a, p, len, act, λ s i. got s i ∙ ap (row_or (find_row transitions s i)) (empty s i))
