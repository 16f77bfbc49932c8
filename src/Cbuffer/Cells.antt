-- ===== src/Cbuffer/Cells.antt =====
-- Cells of tcp_branch/cbuffer.c: a put is read back at its own index and leaves every other cell.
use tcp_archive.Prelude.{
  ℕ, ◌*◌, ◌<◌, ◌≡◌, ◌≢◌, some, arith, length, set, length-set, get_elem?, get_elem?-set_self,
  get_elem?-set_ne, get_elem?-lt, lt→ltb, List,
}
use tcp_archive.Cbuffer.{Cbuf, cbuf_new, put_cell, get_cell, cbuf_mod, type_at, data_at}

-- The array holds two bytes for each cell, and the size is a positive `int`.
pub record IsValid (c : Cbuf) : Type 0 where
  pub pos_size : 0 < c.size
  pub int_size : c.size < 2147483648
  pub room : length c.bytes ≡ 2 * c.size

-- What `__cbuf_put` leaves.
abbrev pub written : Cbuf → ℕ → ℕ → ℕ → Cbuf
written c i v t = record c {
  bytes = set (set c.bytes (type_at (cbuf_mod c i)) t) (data_at (cbuf_mod c i)) v;
}

pub put_cell_lem :
    (c : Cbuf) (i v t : ℕ) → i < 2147483648 → put_cell c i v t ≡ some (written c i v t)
unfolding put_cell
put_cell_lem c i v t h = rw (lt→ltb i 2147483648 h)

pub written-IsValid : {c : Cbuf} (i v t : ℕ) → IsValid c → IsValid (written c i v t)
written-IsValid {c} i v t h = record {
  pos_size = h.pos_size;
  int_size = h.int_size;
  room = omega (
    arith,
    length-set (set c.bytes (type_at (cbuf_mod c i)) t) (data_at (cbuf_mod c i)) v,
    length-set c.bytes (type_at (cbuf_mod c i)) t,
  );
}

get_cell_of_elems :
    (c : Cbuf) (i t v : ℕ)
    → i < 2147483648
    → get_elem? c.bytes (type_at (cbuf_mod c i)) ≡ some t
    → get_elem? c.bytes (data_at (cbuf_mod c i)) ≡ some v
    → get_cell c i ≡ some (t, v)
unfolding get_cell
get_cell_of_elems c i t v h p q = rw (lt→ltb i 2147483648 h) (rw p (rw q))

-- Every cell of a valid buffer can be read.
pub get_cell_total :
    {c : Cbuf} (i : ℕ)
    → IsValid c
    → i < 2147483648
    → (t : ℕ) × (v : ℕ) × (get_cell c i ≡ some (t, v))
get_cell_total {c} i h small =
    let (t, p) = get_elem?-lt c.bytes (type_at (cbuf_mod c i)) (omega (arith, h)) in
    let (v, q) = get_elem?-lt c.bytes (data_at (cbuf_mod c i)) (omega (arith, h)) in
    (t, v, get_cell_of_elems c i t v small p q)

pub get_cell-written_self :
    {c : Cbuf} (i j v t : ℕ)
    → IsValid c
    → j < 2147483648
    → cbuf_mod c j ≡ cbuf_mod c i
    → get_cell (written c i v t) j ≡ some (t, v)
get_cell-written_self {c} i j v t h small e =
    get_cell_of_elems (written c i v t) j t v small (rw e type_back) (rw e value_back)
  where
    inner : List ℕ
    inner = set c.bytes (type_at (cbuf_mod c i)) t

    type_back : get_elem? (set inner (data_at (cbuf_mod c i)) v) (type_at (cbuf_mod c i)) ≡ some t
    type_back =
        rw
          (get_elem?-set_ne inner (data_at (cbuf_mod c i)) (type_at (cbuf_mod c i)) v (omega arith))
          (get_elem?-set_self c.bytes (type_at (cbuf_mod c i)) t (omega (arith, h)))

    value_back : get_elem? (set inner (data_at (cbuf_mod c i)) v) (data_at (cbuf_mod c i)) ≡ some v
    value_back =
        get_elem?-set_self inner (data_at (cbuf_mod c i)) v
          (omega (arith, h, length-set c.bytes (type_at (cbuf_mod c i)) t))

pub get_cell-written_ne :
    (c : Cbuf) (i j v t : ℕ)
    → cbuf_mod c i ≢ cbuf_mod c j
    → get_cell (written c i v t) j ≡ get_cell c j
unfolding get_cell
get_cell-written_ne c i j v t ne = rw (
  get_elem?-set_ne inner (data_at (cbuf_mod c i)) (type_at (cbuf_mod c j)) v (omega arith),
  get_elem?-set_ne inner (data_at (cbuf_mod c i)) (data_at (cbuf_mod c j)) v (omega arith),
  get_elem?-set_ne c.bytes (type_at (cbuf_mod c i)) (type_at (cbuf_mod c j)) t (omega arith),
  get_elem?-set_ne c.bytes (type_at (cbuf_mod c i)) (data_at (cbuf_mod c j)) t (omega arith),
)
  where
    inner : List ℕ
    inner = set c.bytes (type_at (cbuf_mod c i)) t

-- A new buffer is valid when `malloc` gave an array of the length asked for.
pub cbuf_new-IsValid :
    (heap : List ℕ) (size : ℕ) {c : Cbuf}
    → length heap ≡ 2 * size
    → cbuf_new heap size ≡ some c
    → IsValid c
unfolding cbuf_new
cbuf_new-IsValid heap size room e = ground arith
