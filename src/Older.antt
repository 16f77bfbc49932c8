-- ===== src/Older.antt =====
-- The older copy of the node at the root of the repository: its buffer, cbuffer.c and cbuffer.h, which came before the
-- one of tcp_branch. It knows data and flags but no end mark, and its indices are all of type `int`: an argument is the
-- 32-bit pattern of one.
pub mod Buffer
pub mod Seq
pub mod Calls
mod Tests
use tcp_archive.Prelude.{
  ℕ, zero, suc, ◌+◌, ◌%◌, Bool, true, false, not, ◌&&◌, Option, none, some, List, [], ◌∷◌, ltb, leb,
  ◌==◌, if◌then◌else◌, set, length, get_elem?, ℤ, pos, minus_one, ◌>>=◌, ◌>>◌, assert,
}
use tcp_archive.Cbuffer.{Cbuf, cbuf_mod, type_at, data_at, is_nonneg, data_cell}

-- `cbuf_inc`; an index of a cell and 1 is below 2 ^ 31.
abbrev pub inc : Cbuf → ℕ → ℕ
inc c i = (i + 1) % c.size

-- `__cbuf_put` and `__cbuf_get`.
pub put : Cbuf → ℕ → ℕ → ℕ → Option Cbuf
put c index value type = do
  assert (is_nonneg index)
  let typed = set c.bytes (type_at (cbuf_mod c index)) type
  some (record c { bytes = set typed (data_at (cbuf_mod c index)) value })

pub get : Cbuf → ℕ → Option (ℕ × ℕ)
get c index = do
  assert (is_nonneg index)
  type ← get_elem? c.bytes (type_at (cbuf_mod c index))
  value ← get_elem? c.bytes (data_at (cbuf_mod c index))
  some (type, value)

-- `cbuf_r_loop` as `cbuf_put_range` uses it: the index, and the number of the values that are left.
pub store_values : Cbuf → List ℕ → ℕ → ℕ → Option Cbuf
unfolding put
store_values c buffer i zero = some c
store_values c [] i (suc n) = none
store_values c (v ∷ buffer) i (suc n) = do
  c' ← put c i v data_cell
  store_values c' buffer (inc c i) n

pub put_range : Cbuf → List ℕ → ℕ → ℕ → Option Cbuf
unfolding store_values
put_range c buffer start len = do
  assert (is_nonneg start)
  assert (is_nonneg len)
  assert (leb len c.size)
  store_values c buffer (cbuf_mod c start) len

-- `cbuf_loop` as `cbuf_get_range` uses it: the type of the first cell, the number of the cells that are left, the index,
-- the type and the value of its cell, and whether the macro goes on.
pub load_values : Cbuf → ℕ → ℕ → ℕ → ℕ → ℕ → Bool → Option (List ℕ)
unfolding get
load_values c t zero i type value live = some []
load_values c t (suc n) i type value live = elim (type == t && live) [
  | true ↦ get c (inc c i) >>= λ cell.
      load_values c t n (inc c i) cell.0 cell.1 (cell.0 == data_cell) >>= λ rest.
      some (value ∷ rest)
  | false ↦ some []
]

-- The number that `cbuf_get_range` returns, and the values behind `*data`, of which there is one at least.
pub get_range : Cbuf → ℕ → ℕ → Option (ℤ × List ℕ)
unfolding load_values
get_range c start len = do
  assert (is_nonneg start)
  assert (is_nonneg len)
  assert (leb len c.size)
  first ← get c (cbuf_mod c start)
  values ← load_values c first.0 len (cbuf_mod c start) first.0 first.1 true
  assert (not (length values == 0))
  some (if first.0 == data_cell then pos (length values) else minus_one, values)
