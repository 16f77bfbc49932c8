-- ===== src/Older/Tests.antt =====
-- The older buffer at a concrete one.
use tcp_archive.Prelude.{ℕ, ◌≡◌, refl, some, List, [], ◌∷◌, replicate, arith, inl, ◌>>=◌, pos}
use tcp_archive.Cbuffer.{Cbuf, get_cell, cbuf_put_range, cbuf_get_range}
use tcp_archive.Cbuffer.Cells.{IsValid}
use tcp_archive.Older.{put_range, get_range, load_values, get}
use tcp_archive.Older.Buffer.{as_newer, cbuf_range_agree}

-- Ten cells, of which the first three hold data, a flag and data.
abbrev ring : Cbuf
ring = record { bytes = 1 ∷ 7 ∷ 2 ∷ 16 ∷ 1 ∷ 9 ∷ replicate 14 0; size = 10 }

ring-IsValid : IsValid ring
ring-IsValid = record { pos_size = omega arith; int_size = omega arith; room = refl }

abbrev two : List ℕ
two = 8 ∷ 9 ∷ []

reads_one : get_range ring 0 3 ≡ some (pos 1, 7 ∷ [])
unfolding get_range load_values get
reads_one = refl

first_cell : get_cell ring 0 ≡ some (1, 7)
unfolding get_cell
first_cell = refl

cbuf_range_agree_example :
    (put_range ring two 10 2 ≡ cbuf_put_range ring two 10 2)
    × ((get_range ring 10 2 >>= as_newer) ≡ cbuf_get_range ring 10 2)
cbuf_range_agree_example =
    cbuf_range_agree ring two 10 2 1 7 ring-IsValid (omega arith) first_cell (inl refl)
