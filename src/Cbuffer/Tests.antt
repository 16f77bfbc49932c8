-- ===== src/Cbuffer/Tests.antt =====
-- Runs of the buffers of tcp_branch/cbuffer.c, and the theorems about them at concrete inputs.
use tcp_archive.Prelude.{
  ℕ, suc, ◌+◌, ◌≡◌, refl, some, List, [], ◌∷◌, ◌++◌, length, replicate, length-replicate, pos,
  ◌>>=◌, ltb, arith,
}
use tcp_archive.Cbuffer.{
  Cbuf, cbuf_put_range, cbuf_get_range, cbuf_cmp, after, cbuf_btm_contains, put_cell, put_loop,
  get_cell, get_loop,
}
use tcp_archive.Cbuffer.Cells.{IsValid}
use tcp_archive.Cbuffer.Ranges.{get_range-put_range}
use tcp_archive.Cbuffer.Compare.{cbuf_cmp_opposite, btm_contains_window}

-- Ten cells, of which the last two and the first one get data.
abbrev ring : Cbuf
ring = record { bytes = replicate 20 0; size = 10 }

abbrev two : List ℕ
two = 8 ∷ 9 ∷ []

ring-IsValid : IsValid ring
ring-IsValid = record {
  pos_size = omega arith;
  int_size = omega arith;
  room = length-replicate {A = ℕ} 20 0;
}

wraps :
    (cbuf_put_range ring (7 ∷ 8 ∷ 9 ∷ []) 8 3 >>= λ c'. cbuf_get_range c' 9 2)
    ≡ some (pos 2, some (8 ∷ 9 ∷ []))
unfolding cbuf_put_range cbuf_get_range put_loop get_loop put_cell get_cell
wraps = refl

get_range-put_range_example :
    (cbuf_put_range ring (7 ∷ two ++ (5 ∷ [])) 8 (suc (length two)) >>= λ c'.
    cbuf_get_range c' 8 (suc (length two)))
    ≡ some (pos (suc (length two)), some (7 ∷ two))
get_range-put_range_example =
    get_range-put_range 7 two (5 ∷ []) ring 8 ring-IsValid (omega arith) (omega arith)

cbuf_cmp_opposite_example : (cbuf_cmp 10 2 7 ≡ after) × (cbuf_cmp 10 7 2 ≡ after)
cbuf_cmp_opposite_example = cbuf_cmp_opposite 10 2 7 refl (omega arith)

btm_contains_window_example : cbuf_btm_contains ring 8 (8 + 4) (8 + 3) ≡ ltb 3 4
btm_contains_window_example = btm_contains_window ring 8 4 3 (omega arith) (omega arith)
