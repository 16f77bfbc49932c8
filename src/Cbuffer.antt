-- ===== src/Cbuffer.antt =====
-- tcp_branch/cbuffer.h and tcp_branch/cbuffer.c: the circular buffer of typed cells behind the send
-- and the receive window. A cell is two bytes, its type and its value; an index is any sequence
-- number, taken modulo the number of cells. `none` is a failed `assert`, or an access out of bounds.
pub mod Compare
mod Tests
pub mod Cells
pub mod Ranges
use tcp_archive.Prelude.{
  ℕ, zero, suc, ◌+◌, ◌*◌, ◌/◌, ◌%◌, ◌-◌, ◌^◌, bit_and, Bool, true, false, not, ◌&&◌, ◌||◌, Option,
  none, some, List, [], ◌∷◌, ltb, leb, ◌==◌, if◌then◌else◌, set, length, get_elem?, ℤ, pos,
  minus_one, add32, ◌>>=◌, ◌>>◌, assert,
}

-- The cell types CBUF_DATA, CBUF_FLAG and CBUF_EOF.
abbrev pub data_cell : ℕ
data_cell = 1

abbrev pub flag_cell : ℕ
flag_cell = 2

abbrev pub eof_cell : ℕ
eof_cell = 4

-- `cbuf_t`; `bytes` is the array `data`, of twice `size` bytes.
pub record Cbuf : Type 0 where
  pub bytes : List ℕ
  pub size : ℕ

-- `__cbuf_type`, `__cbuf_data` and `cbuf_mod`.
abbrev pub type_at : ℕ → ℕ
type_at i = 2 * i

abbrev pub data_at : ℕ → ℕ
data_at i = 2 * i + 1

abbrev pub cbuf_mod : Cbuf → ℕ → ℕ
cbuf_mod c n = n % c.size

-- `cbuf_inc`: the next index.
abbrev pub cbuf_inc : Cbuf → ℕ → ℕ
cbuf_inc c i = cbuf_mod c (add32 i 1)

-- An `int` argument is handed over as a 32-bit pattern: this is `0 <= index`.
abbrev pub is_nonneg : ℕ → Bool
is_nonneg i = ltb i 2147483648

-- `malloc` succeeds, and leaves what the memory held, `heap`, in the array.
unfoldable pub cbuf_new : List ℕ → ℕ → Option Cbuf
cbuf_new heap size = do
  assert (ltb 0 size && is_nonneg size)
  some (record { bytes = heap; size = size })

-- `__cbuf_put`.
unfoldable pub put_cell : Cbuf → ℕ → ℕ → ℕ → Option Cbuf
put_cell c index value type = do
  assert (is_nonneg index)
  some (record c {
    bytes = set (set c.bytes (type_at (cbuf_mod c index)) type) (data_at (cbuf_mod c index)) value;
  })

-- `__cbuf_get`: the type and the value.
unfoldable pub get_cell : Cbuf → ℕ → Option (ℕ × ℕ)
get_cell c index = do
  assert (is_nonneg index)
  type ← get_elem? c.bytes (type_at (cbuf_mod c index))
  value ← get_elem? c.bytes (data_at (cbuf_mod c index))
  some (type, value)

-- The loop of `cbuf_put_range`, by `cbuf_r_loop`: `i` is the index, the number counts what is left.
-- The values that the macro reads on the way are not used.
unfoldable pub put_loop : Cbuf → List ℕ → ℕ → ℕ → Option Cbuf
unfolding put_cell
put_loop c buffer i zero = some c
put_loop c [] i (suc n) = none
put_loop c (v ∷ buffer) i (suc n) = do
  c' ← put_cell c i v data_cell
  put_loop c' buffer (cbuf_inc c i) n

unfoldable pub cbuf_put_range : Cbuf → List ℕ → ℕ → ℕ → Option Cbuf
unfolding put_loop
cbuf_put_range c buffer start len = do
  assert (leb len c.size)
  put_loop c buffer (cbuf_mod c start) len

pub cbuf_put_eof : Cbuf → ℕ → Option Cbuf
unfolding put_cell
cbuf_put_eof c start = put_cell c start 0 eof_cell

unfoldable pub cbuf_put_flag : Cbuf → ℕ → ℕ → Option Cbuf
unfolding put_cell
cbuf_put_flag c start flags = put_cell c start flags flag_cell

-- The loop of `cbuf_get_range`, by `cbuf_loop`: it holds the cell at `i` (its type and value), the
-- type `t` of the first cell and the macro's `live`, and returns the values that it collects.
unfoldable pub get_loop : Cbuf → ℕ → ℕ → ℕ → ℕ → ℕ → Bool → Option (List ℕ)
unfolding get_cell
get_loop c t zero i type value live = some []
get_loop c t (suc n) i type value live = elim (type == t && live) [
  | true ↦ get_cell c (cbuf_inc c i) >>= λ cell.
      get_loop c t n (cbuf_inc c i) cell.0 cell.1 (cell.0 == data_cell) >>= λ rest.
      some (value ∷ rest)
  | false ↦ some []
]

-- What `cbuf_get_range` returns, and what it leaves in `*data` (`none` is the null pointer). With no
-- value collected the `realloc` to size 0 returns null, and the `assert` behind it fails.
unfoldable pub cbuf_get_range : Cbuf → ℕ → ℕ → Option (ℤ × Option (List ℕ))
unfolding get_loop
cbuf_get_range c start len = do
  assert (is_nonneg start)
  assert (leb len c.size)
  first ← get_cell c (cbuf_mod c start)
  values ← get_loop c first.0 len (cbuf_mod c start) first.0 first.1 true
  assert (not (length values == 0))
  some (
    if not (bit_and first.0 5 == 0) then pos (length values) else minus_one,
    if first.0 == eof_cell then none else some values,
  )

-- `cbuf_cmp`: -1, 0 or 1.
pub data Cmp : Type 0 where
  before same after : Cmp

unfoldable pub cbuf_cmp : ℕ → ℕ → ℕ → Cmp
cbuf_cmp size a b =
    let a' = a % size in
    let b' = b % size in
    if a' == b'
    then same
    else if ltb a' b' && ltb (b' - a') (size / 2) || ltb b' a' && ltb (size / 2) (a' - b')
    then before
    else after

abbrev pub is_before : Cmp → Bool
is_before before = true
is_before _ = false

abbrev pub is_after : Cmp → Bool
is_after after = true
is_after _ = false

abbrev pub is_same : Cmp → Bool
is_same same = true
is_same _ = false

unfoldable pub cbuf_lt : Cbuf → ℕ → ℕ → Bool
unfolding cbuf_cmp
cbuf_lt c a b = is_before (cbuf_cmp c.size a b)

unfoldable pub cbuf_gt : Cbuf → ℕ → ℕ → Bool
unfolding cbuf_cmp
cbuf_gt c a b = is_after (cbuf_cmp c.size a b)

unfoldable pub cbuf_eq : Cbuf → ℕ → ℕ → Bool
unfolding cbuf_cmp
cbuf_eq c a b = is_same (cbuf_cmp c.size a b)

unfoldable pub cbuf_lte : Cbuf → ℕ → ℕ → Bool
unfolding cbuf_lt cbuf_eq
cbuf_lte c a b = cbuf_lt c a b || cbuf_eq c a b

unfoldable pub cbuf_gte : Cbuf → ℕ → ℕ → Bool
unfolding cbuf_gt cbuf_eq
cbuf_gte c a b = cbuf_gt c a b || cbuf_eq c a b

-- The containment macros: whether `n` lies between `a` and `b`, the name saying which end counts.
unfoldable pub cbuf_incl_contains : Cbuf → ℕ → ℕ → ℕ → Bool
unfolding cbuf_lte cbuf_gte
cbuf_incl_contains c a b n = cbuf_lte c a n && cbuf_gte c b n

unfoldable pub cbuf_excl_contains : Cbuf → ℕ → ℕ → ℕ → Bool
unfolding cbuf_lt cbuf_gt
cbuf_excl_contains c a b n = cbuf_lt c a n && cbuf_gt c b n

unfoldable pub cbuf_btm_contains : Cbuf → ℕ → ℕ → ℕ → Bool
unfolding cbuf_lte cbuf_gt
cbuf_btm_contains c a b n = cbuf_lte c a n && cbuf_gt c b n

unfoldable pub cbuf_top_contains : Cbuf → ℕ → ℕ → ℕ → Bool
unfolding cbuf_lt cbuf_gte
cbuf_top_contains c a b n = cbuf_lt c a n && cbuf_gte c b n
