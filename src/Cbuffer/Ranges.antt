-- ===== src/Cbuffer/Ranges.antt =====
-- Ranges of tcp_branch/cbuffer.c: what `cbuf_put_range` stores, `cbuf_get_range` reads back, across
-- the end of the array too, and the flags and end marks between the data.
use native.Mathlib.Nat.{mod-eq_of_lt, mod-add-mod, mod-mod, add-zero}
use tcp_archive.Prelude.{
  ℕ, zero, suc, ◌+◌, ◌%◌, ◌<◌, ◌≤◌, ◌≡◌, refl, ◌≢◌, ◌∙◌, sym, ap, subst, add32, true, some, none,
  List, [], ◌∷◌, ◌++◌, arith, length, pos, minus_one, lt→ltb, le→leb, ◌>>=◌,
}
use tcp_archive.Cbuffer.{
  Cbuf, get_cell, cbuf_mod, cbuf_inc, data_cell, flag_cell, eof_cell, put_loop, cbuf_put_range,
  get_loop, cbuf_get_range, cbuf_put_flag, cbuf_put_eof,
}
use tcp_archive.Cbuffer.Cells.{
  IsValid, written, put_cell_lem, written-IsValid, get_cell_total, get_cell-written_self,
  get_cell-written_ne,
}
use tcp_archive.Cbuffer.Compare.{mod-step}

-- The cells from index `i` on hold the data `xs`.
abbrev pub Holds : Cbuf → ℕ → List ℕ → Type 0
Holds c i [] = Unit {0}
Holds c i (x ∷ xs) = (get_cell c i ≡ some (data_cell, x)) × Holds c (cbuf_inc c i) xs

-- Index `j` is none of the `n` positions from `i` on.
abbrev pub Outside : ℕ → ℕ → ℕ → ℕ → Type 0
Outside size i n j = (k : ℕ) → k < n → (i + k) % size ≢ j % size

-- What storing `xs` from index `i` on has done.
pub record Stored (c : Cbuf) (i : ℕ) (xs : List ℕ) (c' : Cbuf) : Type 0 where
  pub valid : IsValid c'
  pub same_size : c'.size ≡ c.size
  pub holds : Holds c' i xs
  pub frame : (j : ℕ) → Outside c.size i (length xs) j → get_cell c' j ≡ get_cell c j

inc-eq : (size i : ℕ) → i < size → size < 2147483648 → (i + 1) % 4294967296 % size ≡ (i + 1) % size
inc-eq size i h small = ap (λ k. k % size) (omega arith)

-- A step of k from the next index is a step of k + 1.
inc-add :
    (size i k : ℕ)
    → i < size
    → size < 2147483648
    → ((i + 1) % 4294967296 % size + k) % size ≡ (i + suc k) % size
inc-add size i k h small =
    ap (λ t. (t + k) % size) (inc-eq size i h small)
    ∙ mod-add-mod (i + 1) size k
    ∙ ap (λ t. t % size) (omega arith)

-- Fewer than `size` steps round the ring do not come back to the start.
step_round : (size i k : ℕ) → i < size → suc k < size → (i + suc k) % size ≢ i % size
step_round size i k hi hk e = ground (arith, mod-step size i (suc k) hk, mod-eq_of_lt hi)

module _ {c : Cbuf} {i x : ℕ} {xs : List ℕ} (v : IsValid c) (hi : i < c.size) where
  Stored-cons :
      {c' : Cbuf}
      → suc (length xs) ≤ c.size
      → Stored (written c i x data_cell) (cbuf_inc c i) xs c'
      → Stored c i (x ∷ xs) c'
  Stored-cons {c'} hl s = record {
    valid = s.valid;
    same_size = s.same_size;
    holds = (
      s.frame i first_outside ∙ get_cell-written_self i i x data_cell v (omega (arith, v)) refl,
      subst (λ n. Holds c' (add32 i 1 % n) xs) (sym s.same_size) s.holds,
    );
    frame = λ j o.
        s.frame j (λ k h e. o (suc k) (omega arith) (sym (inc-add c.size i k hi v.int_size) ∙ e))
        ∙ get_cell-written_ne c i j x data_cell (λ e. o 0 (omega arith) (rw add-zero e));
  }
    where
      first_outside : Outside c.size (cbuf_inc c i) (length xs) i
      first_outside k h e =
          step_round c.size i k hi (omega arith) (sym (inc-add c.size i k hi v.int_size) ∙ e)

put_loop_lem :
    (xs rest : List ℕ) (c : Cbuf) (i : ℕ)
    → IsValid c
    → i < c.size
    → length xs ≤ c.size
    → (c' : Cbuf) × (put_loop c (xs ++ rest) i (length xs) ≡ some c') × Stored c i xs c'
unfolding put_loop
put_loop_lem [] rest c i v hi hl =
    (c, refl, record { valid = v; same_size = refl; holds = tt; frame = λ j o. refl })
put_loop_lem (x ∷ xs) rest c i v hi hl =
    let (c', e, s) =
      put_loop_lem xs rest (written c i x data_cell) (cbuf_inc c i)
        (written-IsValid i x data_cell v) (omega (arith, v)) (omega arith) in
    (c', rw (put_cell_lem c i x data_cell (omega (arith, v))) e, Stored-cons v hi hl s)

get_loop_lem :
    (xs : List ℕ) (c : Cbuf) (i x : ℕ)
    → IsValid c
    → Holds c i (x ∷ xs)
    → get_loop c data_cell (length (x ∷ xs)) i data_cell x true ≡ some (x ∷ xs)
unfolding get_loop
get_loop_lem [] c i x v h =
    let (t, y, e) = get_cell_total (cbuf_inc c i) v (omega (arith, v)) in rw e
get_loop_lem (y ∷ xs) c i x v h = rw (h.1.0, get_loop_lem xs c (cbuf_inc c i) y v h.1)

-- `cbuf_put_range` on a valid buffer stores the bytes that it is given, no more than there are
-- cells, wherever on the ring they begin: it keeps the buffer valid, its cells hold them in
-- order, and no other cell changes.
pub put_range_lem :
    (xs rest : List ℕ) (c : Cbuf) (start : ℕ)
    → IsValid c
    → length xs ≤ c.size
    → (c' : Cbuf) × (cbuf_put_range c (xs ++ rest) start (length xs) ≡ some c')
      × Stored c (cbuf_mod c start) xs c'
unfolding cbuf_put_range
put_range_lem xs rest c start v hl =
    rw (le→leb (length xs) c.size hl)
      (put_loop_lem xs rest c (cbuf_mod c start) v (omega (arith, v)) hl)

pub get_range_Holds :
    (x : ℕ) (xs : List ℕ) (c : Cbuf) (start : ℕ)
    → IsValid c
    → start < 2147483648
    → suc (length xs) ≤ c.size
    → Holds c (cbuf_mod c start) (x ∷ xs)
    → cbuf_get_range c start (suc (length xs)) ≡ some (pos (suc (length xs)), some (x ∷ xs))
unfolding cbuf_get_range
get_range_Holds x xs c start v hs hl h =
    rw (lt→ltb start 2147483648 hs, le→leb (suc (length xs)) c.size hl, h.0)
      (rw (get_loop_lem xs c (cbuf_mod c start) x v h) (ground arith))

-- On a valid buffer, data written by `cbuf_put_range` is what `cbuf_get_range` returns for the
-- same start and length, when there is at least one byte, no more bytes than cells, and the start
-- is not negative as an `int`. Neither call fails an `assert`.
pub get_range-put_range :
    (x : ℕ) (xs rest : List ℕ) (c : Cbuf) (start : ℕ)
    → IsValid c
    → start < 2147483648
    → suc (length xs) ≤ c.size
    → (cbuf_put_range c (x ∷ xs ++ rest) start (suc (length xs)) >>= λ c'.
        cbuf_get_range c' start (suc (length xs)))
      ≡ some (pos (suc (length xs)), some (x ∷ xs))
get_range-put_range x xs rest c start v hs hl =
    let (c', e, s) = put_range_lem (x ∷ xs) rest c start v hl in
    rw e (
      get_range_Holds x xs c' start s.valid hs (rw s.same_size hl)
        (subst (λ n. Holds c' (start % n) (x ∷ xs)) (sym s.same_size) s.holds))

after_flag :
    (c : Cbuf) (i f n t : ℕ)
    → IsValid c
    → t ≢ data_cell
    → get_loop c t (suc n) i t f true ≡ some (f ∷ [])
unfolding get_loop
after_flag c i f zero t v ne =
    let (t', y, e) = get_cell_total (cbuf_inc c i) v (omega (arith, v)) in ground (arith, e)
after_flag c i f (suc n) t v ne =
    let (t', y, e) = get_cell_total (cbuf_inc c i) v (omega (arith, v)) in ground (arith, e)

-- On a valid buffer, a flag queued by `cbuf_put_flag` at a start that is not negative as an `int`
-- comes back alone, as -1 with the flag in the data, for each length asked for from 1 to the
-- number of cells, whatever stands in the cells behind it.
pub get_range-put_flag :
    (c : Cbuf) (start flags n : ℕ)
    → IsValid c
    → start < 2147483648
    → suc n ≤ c.size
    → (cbuf_put_flag c start flags >>= λ c'. cbuf_get_range c' start (suc n))
      ≡ some (minus_one, some (flags ∷ []))
unfolding cbuf_put_flag cbuf_get_range
get_range-put_flag c start flags n v hs hl =
    let c' = written c start flags flag_cell in
    rw (
      put_cell_lem c start flags flag_cell hs,
      lt→ltb start 2147483648 hs,
      le→leb (suc n) c.size hl,
      get_cell-written_self start (cbuf_mod c start) flags flag_cell v (omega (arith, v))
          (mod-mod start c.size),
      after_flag c' (cbuf_mod c start) flags n flag_cell (written-IsValid start flags flag_cell v)
          (omega arith),
    )

-- On a valid buffer, an end mark queued by `cbuf_put_eof` at a start that is not negative as an
-- `int` comes back as 1 with a null pointer, for each length asked for from 1 to the number of
-- cells.
get_range-put_eof :
    (c : Cbuf) (start n : ℕ)
    → IsValid c
    → start < 2147483648
    → suc n ≤ c.size
    → (cbuf_put_eof c start >>= λ c'. cbuf_get_range c' start (suc n)) ≡ some (pos 1, none)
unfolding cbuf_put_eof cbuf_get_range
get_range-put_eof c start n v hs hl =
    let c' = written c start 0 eof_cell in
    rw (
      put_cell_lem c start 0 eof_cell hs,
      lt→ltb start 2147483648 hs,
      le→leb (suc n) c.size hl,
      get_cell-written_self start (cbuf_mod c start) 0 eof_cell v (omega (arith, v))
          (mod-mod start c.size),
      after_flag c' (cbuf_mod c start) 0 n eof_cell (written-IsValid start 0 eof_cell v)
          (omega arith),
    )
