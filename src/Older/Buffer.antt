-- ===== src/Older/Buffer.antt =====
-- The buffer of the older copy, cbuffer.c, does what that of tcp_branch/cbuffer.c does.
use native.Mathlib.Decide.{dec_le}
use tcp_archive.Prelude.{
  ℕ, zero, suc, ◌+◌, ◌%◌, ◌<◌, ◌≤◌, ◌≡◌, refl, ◌∙◌, sym, ap, Bool, true, false, ◌&&◌, Option, some,
  none, List, [], ◌∷◌, arith, length, lt→ltb, lt→leb, le→leb, assert, ltb, ◌>>=◌, ◌⊎◌, inl, inr,
  ◌==◌, ==_ne, subst, ℤ, not, pos, minus_one, ◌>>◌, bit_and, if◌then◌else◌,
}
use tcp_archive.Cbuffer.{
  Cbuf, get_cell, put_cell, cbuf_mod, cbuf_inc, data_cell, flag_cell, eof_cell, put_loop,
  cbuf_put_range, get_loop, cbuf_get_range,
}
use tcp_archive.Cbuffer.Cells.{IsValid, written, put_cell_lem, written-IsValid, get_cell_total}
use tcp_archive.Older.{inc, put, get, store_values, put_range, load_values, get_range}

inc-cbuf_inc : (c : Cbuf) (i : ℕ) → IsValid c → i < c.size → inc c i ≡ cbuf_inc c i
inc-cbuf_inc c i v less =
    ap (λ k. k % c.size) {x = i + 1} {y = (i + 1) % 4294967296} (omega (arith, v, less))

put-put_cell : (c : Cbuf) (i x t : ℕ) → put c i x t ≡ put_cell c i x t
unfolding put put_cell
put-put_cell c i x t = refl

get-get_cell : (c : Cbuf) (i : ℕ) → get c i ≡ get_cell c i
unfolding get get_cell
get-get_cell c i = refl

store_values-put_loop :
    (n : ℕ) (buffer : List ℕ) (c : Cbuf) (i : ℕ)
    → IsValid c
    → i < c.size
    → store_values c buffer i n ≡ put_loop c buffer i n
unfolding store_values put_loop
store_values-put_loop zero buffer c i v less = refl
store_values-put_loop (suc n) [] c i v less = refl
store_values-put_loop (suc n) (x ∷ buffer) c i v less =
    rw
      (
        put-put_cell c i x data_cell,
        put_cell_lem c i x data_cell (omega (arith, v)),
        inc-cbuf_inc c i v less,
      )
      (store_values-put_loop n buffer (written c i x data_cell) (cbuf_inc c i)
        (written-IsValid i x data_cell v) (omega arith))

load_values-get_loop :
    (n : ℕ) (c : Cbuf) (t i type value : ℕ) (live : Bool)
    → IsValid c
    → i < c.size
    → load_values c t n i type value live ≡ get_loop c t n i type value live
unfolding load_values get_loop
load_values-get_loop zero c t i type value live v less = refl
load_values-get_loop (suc n) c t i type value live v less =
    let (t', y, e) = get_cell_total (cbuf_inc c i) v (omega (arith, v)) in
    let next : (get c (inc c i) >>= λ cell.
    load_values c t n (inc c i) cell.0 cell.1 (cell.0 == data_cell) >>= λ rest. some (value ∷ rest))
        ≡ (get_cell c (cbuf_inc c i) >>= λ cell.
            get_loop c t n (cbuf_inc c i) cell.0 cell.1 (cell.0 == data_cell) >>= λ rest.
            some (value ∷ rest)) =
      ap
        (λ k. get c k >>= λ cell.
          load_values c t n k cell.0 cell.1 (cell.0 == data_cell) >>= λ rest. some (value ∷ rest))
        (inc-cbuf_inc c i v less)
      ∙ rw (get-get_cell c (cbuf_inc c i), e)
          (rw (load_values-get_loop n c t (cbuf_inc c i) t' y (t' == data_cell) v (omega arith))
            refl) in
    ap (λ q. elim (type == t && live) [ true ↦ q | false ↦ some [] ]) next

refused {ℓ} : {A : Type ℓ} (b : Bool) → ◌≡◌ {A = Option A} (assert b >>= λ u. none) none
refused true = refl
refused false = refl

pub put_range_same :
    (c : Cbuf) (buffer : List ℕ) (start len : ℕ)
    → IsValid c
    → start < 2147483648
    → put_range c buffer start len ≡ cbuf_put_range c buffer start len
unfolding put_range cbuf_put_range
put_range_same c buffer start len v less = elim (dec_le len c.size) [
  | yes fits ↦
      rw
        (
          lt→ltb start 2147483648 less,
          lt→ltb len 2147483648 (omega (arith, v, fits)),
          le→leb len c.size fits,
        )
        (store_values-put_loop len buffer c (cbuf_mod c start) v (omega (arith, v)))
  | no over ↦
      rw (lt→ltb start 2147483648 less, lt→leb c.size len (omega (arith, over)))
        (refused (ltb len 2147483648))
]

-- The older result in the form of the newer one, whose `*data` may be null.
abbrev pub as_newer : ℤ × List ℕ → Option (ℤ × Option (List ℕ))
as_newer (n, values) = some (n, some values)

abbrev older_end : ℕ → List ℕ → Option (ℤ × List ℕ)
older_end t values = do
  assert (not (length values == 0))
  some (if t == data_cell then pos (length values) else minus_one, values)

abbrev newer_end : ℕ → List ℕ → Option (ℤ × Option (List ℕ))
newer_end t values = do
  assert (not (length values == 0))
  some (
    if not (bit_and t 5 == 0) then pos (length values) else minus_one,
    if t == eof_cell then none else some values,
  )

end_data :
    (values : List ℕ) → (older_end data_cell values >>= as_newer) ≡ newer_end data_cell values
end_data [] = refl
end_data (x ∷ xs) = rw (==_ne (suc (length xs)) 0 (omega arith)) refl

end_flag :
    (values : List ℕ) → (older_end flag_cell values >>= as_newer) ≡ newer_end flag_cell values
end_flag [] = refl
end_flag (x ∷ xs) = rw (==_ne (suc (length xs)) 0 (omega arith)) refl

finish :
    (o : Option (List ℕ)) (t : ℕ)
    → (t ≡ data_cell) ⊎ (t ≡ flag_cell)
    → ((o >>= older_end t) >>= as_newer) ≡ (o >>= newer_end t)
finish none t kind = refl
finish (some values) t (inl e) =
    subst (λ k. (older_end k values >>= as_newer) ≡ newer_end k values) (sym e) (end_data values)
finish (some values) t (inr e) =
    subst (λ k. (older_end k values >>= as_newer) ≡ newer_end k values) (sym e) (end_flag values)

get_range_fits :
    (c : Cbuf) (start len t x : ℕ)
    → IsValid c
    → start < 2147483648
    → len ≤ c.size
    → get_cell c (cbuf_mod c start) ≡ some (t, x)
    → (t ≡ data_cell) ⊎ (t ≡ flag_cell)
    → (get_range c start len >>= as_newer) ≡ cbuf_get_range c start len
unfolding get_range cbuf_get_range
get_range_fits c start len t x v less fits first kind =
    rw
      (
        lt→ltb start 2147483648 less,
        lt→ltb len 2147483648 (omega (arith, v, fits)),
        le→leb len c.size fits,
      )
      (rw (get-get_cell c (cbuf_mod c start), first)
        (rw (load_values-get_loop len c t (cbuf_mod c start) t x true v (omega (arith, v)))
          (finish (get_loop c t len (cbuf_mod c start) t x true) t kind)))

get_range_over :
    (c : Cbuf) (start len : ℕ)
    → start < 2147483648
    → ¬ (len ≤ c.size)
    → (get_range c start len >>= as_newer) ≡ cbuf_get_range c start len
unfolding get_range cbuf_get_range
get_range_over c start len less over =
    rw (lt→ltb start 2147483648 less, lt→leb c.size len (omega (arith, over)))
      (ap (λ o. o >>= as_newer) (refused (ltb len 2147483648)))

pub get_range_same :
    (c : Cbuf) (start len t x : ℕ)
    → IsValid c
    → start < 2147483648
    → get_cell c (cbuf_mod c start) ≡ some (t, x)
    → (t ≡ data_cell) ⊎ (t ≡ flag_cell)
    → (get_range c start len >>= as_newer) ≡ cbuf_get_range c start len
get_range_same c start len t x v less first kind = elim (dec_le len c.size) [
  | yes fits ↦ get_range_fits c start len t x v less fits first kind
  | no over ↦ get_range_over c start len less over
]

-- On a valid buffer and from an index below 2 ^ 31 on, whose cell is data or a flag, `cbuf_put_range` and `cbuf_get_range`
-- of the older copy do what those of tcp_branch/cbuffer.c do, for any length: they end the process together, leave equal
-- buffers, and return the same number and the same values.
pub cbuf_range_agree :
    (c : Cbuf) (buffer : List ℕ) (start len t x : ℕ)
    → IsValid c
    → start < 2147483648
    → get_cell c (cbuf_mod c start) ≡ some (t, x)
    → (t ≡ data_cell) ⊎ (t ≡ flag_cell)
    → (put_range c buffer start len ≡ cbuf_put_range c buffer start len)
      × ((get_range c start len >>= as_newer) ≡ cbuf_get_range c start len)
cbuf_range_agree c buffer start len t x v less first kind =
    (put_range_same c buffer start len v less, get_range_same c start len t x v less first kind)
