-- ===== src/Seq/Fuel.antt =====
-- The recursion of `getDataFromBuffer` of tcp_branch/seq.c ends.
use tcp_archive.Prelude.{
  ℕ, zero, suc, ◌∷◌, ◌+◌, ◌∙◌, Bool, ◌&&◌, ◌⊎◌, refl, length, ==_refl, ==_ne, lt→ltb, bit_and,
  if◌then◌else◌, ◌-◌, ◌≡◌, ◌≤◌, ◌<◌, ap, Option, none, some, true, false, not, List, [], leb, ltb,
  le→leb, ◌==◌, ℤ, pos, pos_part, minus_one, ltb_ℤ, min_ℤ, int_of, add32, sub32, ◌>>=◌, ◌>>◌,
  assert, Bool-cases, inl, inr, arith,
}
use tcp_archive.Cbuffer.{
  Cbuf, cbuf_get_range, get_loop, get_cell, cbuf_inc, cbuf_mod, data_cell, eof_cell,
}
use tcp_archive.Cbuffer.Cells.{IsValid, get_cell_total}
use tcp_archive.Socket.{Socket}
use tcp_archive.Seq.{get_data_from_buffer, amount_of_data_to_read}

-- A round of `getDataFromBuffer`, with the result `rest` of the call behind a flag.
after_read : Socket → ℤ → Option (Socket × ℤ × List ℕ) → Option (Socket × ℤ × List ℕ)
after_read sock amount rest = cbuf_get_range sock.r_buf sock.recv_read (pos_part amount) >>= λ got.
    elim (ltb_ℤ got.0 (pos 0)) [
      | true ↦ rest
      | false ↦ elim got.1 [
        | none ↦ some (record sock { recv_read = add32 sock.recv_read 1 }, minus_one, [])
        | some d ↦
            (let read = add32 sock.recv_read (pos_part got.0) in
              assert (leb read sock.recv_next) >> some (record sock { recv_read = read }, got.0, d))
      ]
    ]

loop_next :
    (n : ℕ) (c : Cbuf) (t i type value t' y : ℕ) (live : Bool) (values : List ℕ)
    → (type == t && live) ≡ true
    → get_cell c (cbuf_inc c i) ≡ some (t', y)
    → get_loop c t n (cbuf_inc c i) t' y (t' == data_cell) ≡ some values
    → get_loop c t (suc n) i type value live ≡ some (value ∷ values)
unfolding get_loop
loop_next n c t i type value t' y live values e here run = rw (e, get_loop) (rw here (rw run refl))

-- What `cbuf_get_range` collects: it goes through, with no more values than are asked for.
get_loop_total :
    (n : ℕ) (c : Cbuf) (t i type value : ℕ) (live : Bool)
    → IsValid c
    → (values : List ℕ) × (get_loop c t n i type value live ≡ some values) × (length values ≤ n)
unfolding get_loop
get_loop_total zero c t i type value live v = ([], refl, omega arith)
get_loop_total (suc n) c t i type value live v = elim (Bool-cases (type == t && live)) [
  | inr e ↦ ([], rw (e, get_loop), omega arith)
  | inl e ↦
      (let (t', y, here) = get_cell_total (cbuf_inc c i) v (omega (arith, v)) in
        let (values, run, small) = get_loop_total n c t (cbuf_inc c i) t' y (t' == data_cell) v in
        (
          value ∷ values,
          loop_next n c t i type value t' y live values e here run,
          omega (arith, small),
        ))
]

first_value :
    (n : ℕ) (c : Cbuf) (t i value : ℕ)
    → IsValid c
    → (rest : List ℕ) × (get_loop c t (suc n) i t value true ≡ some (value ∷ rest))
      × (length rest ≤ n)
first_value n c t i value v =
    let (t', y, here) = get_cell_total (cbuf_inc c i) v (omega (arith, v)) in
    let (values, run, small) = get_loop_total n c t (cbuf_inc c i) t' y (t' == data_cell) v in
    (values, loop_next n c t i t value t' y true values (rw (==_refl t)) here run, small)

-- A read of at least one cell goes through: it gives -1 at a flag, or a number of cells from 1 to the one asked for.
get_range_total :
    (c : Cbuf) (start n : ℕ)
    → IsValid c
    → start < 2147483648
    → suc n ≤ c.size
    → (d : Option (List ℕ)) × ((cbuf_get_range c start (suc n) ≡ some (minus_one, d))
        ⊎ ((k : ℕ) × (cbuf_get_range c start (suc n) ≡ some (pos (suc k), d)) × (k ≤ n)))
unfolding cbuf_get_range
get_range_total c start n v less fits =
    let (t, x, cell) = get_cell_total (cbuf_mod c start) v (omega (arith, v)) in
    let (rest, run, small) = first_value n c t (cbuf_mod c start) x v in
    let d = if t == eof_cell then none else some (x ∷ rest) in
    (
      d,
      elim (Bool-cases (bit_and t 5 == 0)) [
        | inl flag ↦ inl (
            rw (lt→ltb start 2147483648 less, le→leb (suc n) c.size fits, cell)
              (rw (run, ==_ne (suc (length rest)) 0 (omega arith), flag)))
        | inr value ↦ inr (
          length rest,
          rw (lt→ltb start 2147483648 less, le→leb (suc n) c.size fits, cell)
              (rw (run, ==_ne (suc (length rest)) 0 (omega arith), value)),
          small,
        )
      ],
    )

abbrev least : ℕ → ℕ → ℕ
least a b = if ltb a b then a else b

zero_or_suc : (k : ℕ) → (k ≡ 0) ⊎ ((n : ℕ) × (k ≡ suc n))
zero_or_suc zero = inl refl
zero_or_suc (suc n) = inr (n, refl)

-- The amount that a round reads: none, or some of what is left.
amount_cases :
    (m read next : ℕ)
    → read ≤ next
    → next < 2147483648
    → let amount = min_ℤ (pos m) (int_of (sub32 next read)) in
      (amount ≡ pos 0) ⊎ ((n : ℕ) × (amount ≡ pos (suc n)) × (read + suc n ≤ next) × (suc n ≤ m))
amount_cases m read next le small =
    let left : int_of (sub32 next read) ≡ pos (next - read) = ground (arith, le, small) in
    let value : min_ℤ (pos m) (int_of (sub32 next read)) ≡ pos (least m (next - read)) =
      ap (min_ℤ (pos m)) left ∙ ground arith in
    elim (zero_or_suc (least m (next - read))) [
      | inl e ↦ inl (value ∙ ap pos e)
      | inr (n, e) ↦ inr (n, value ∙ ap pos e, ground (arith, le, e), ground (arith, e))
    ]

-- The result of a read is what is left for it, and the socket has moved on.
abbrev pub HasRead : Socket → ℕ → Socket × ℤ × List ℕ → Type 0
HasRead s m (s', n, bytes) =
    (s.recv_read ≤ s'.recv_read)
    × (s'.recv_read ≤ s.recv_next)
    × (s'.recv_next ≡ s.recv_next)
    × ((n ≡ minus_one) ⊎ ((k : ℕ) × (n ≡ pos k) × (k ≤ m)))

abbrev amount_of : Socket → ℕ → ℤ
amount_of s m = min_ℤ (pos m) (int_of (sub32 s.recv_next s.recv_read))

at_none :
    (fuel : ℕ) (s : Socket) (m : ℕ)
    → s.recv_read ≤ s.recv_next
    → amount_of s m ≡ pos 0
    → get_data_from_buffer (suc fuel) s (pos m) ≡ some (s, pos 0, [])
unfolding get_data_from_buffer amount_of_data_to_read
at_none fuel s m le e = rw (le→leb s.recv_read s.recv_next le) (rw e refl)

round :
    (fuel : ℕ) (s : Socket) (m n : ℕ)
    → s.recv_read ≤ s.recv_next
    → amount_of s m ≡ pos (suc n)
    → get_data_from_buffer (suc fuel) s (pos m)
      ≡ after_read s
          (pos (suc n))
          (get_data_from_buffer fuel (record s { recv_read = add32 s.recv_read 1 }) (pos m))
unfolding get_data_from_buffer amount_of_data_to_read after_read
round fuel s m n le e =
    let rest = get_data_from_buffer fuel (record s { recv_read = add32 s.recv_read 1 }) (pos m) in
    let nonneg : not (ltb_ℤ (amount_of s m) (pos 0)) ≡ true =
      ap (λ z. not (ltb_ℤ z (pos 0))) e ∙ ground arith in
    let some_asked : (pos_part (amount_of s m) == 0) ≡ false =
      ap (λ z. pos_part z == 0) e ∙ ground arith in
    rw (le→leb s.recv_read s.recv_next le)
      (rw nonneg (rw some_asked (ap (λ z. after_read s z rest) e)))

read_flag :
    (s : Socket) (n : ℕ) (d : Option (List ℕ)) (rest : Option (Socket × ℤ × List ℕ))
    → cbuf_get_range s.r_buf s.recv_read (suc n) ≡ some (minus_one, d)
    → after_read s (pos (suc n)) rest ≡ rest
unfolding after_read
read_flag s n d rest got = rw got refl

read_eof :
    (s : Socket) (n k : ℕ) (rest : Option (Socket × ℤ × List ℕ))
    → cbuf_get_range s.r_buf s.recv_read (suc n) ≡ some (pos (suc k), none)
    → after_read s (pos (suc n)) rest
      ≡ some (record s { recv_read = add32 s.recv_read 1 }, minus_one, [])
unfolding after_read
read_eof s n k rest got = rw got (ground arith)

read_data :
    (s : Socket) (n k : ℕ) (d : List ℕ) (rest : Option (Socket × ℤ × List ℕ))
    → cbuf_get_range s.r_buf s.recv_read (suc n) ≡ some (pos (suc k), some d)
    → add32 s.recv_read (suc k) ≤ s.recv_next
    → after_read s (pos (suc n)) rest
      ≡ some (record s { recv_read = add32 s.recv_read (suc k) }, pos (suc k), d)
unfolding after_read
read_data s n k d rest got le = rw got (ground (arith, le))

-- On a valid ring, with `recv_read` not past `recv_next`, that below 2 ^ 31, and no more between them than the ring has
-- cells, `getDataFromBuffer` for a size that is not negative ends and fails no `assert`, whatever flags and end marks
-- the cells hold: one more amount of fuel than the number of cells that wait to be read is enough. It returns -1 or no
-- more than it was asked for, and `recv_read` never goes back and never past `recv_next`.
pub get_data_total :
    (fuel : ℕ) (s : Socket) (m : ℕ)
    → IsValid s.r_buf
    → s.recv_read ≤ s.recv_next
    → s.recv_next < 2147483648
    → s.recv_next - s.recv_read ≤ s.r_buf.size
    → s.recv_next - s.recv_read < fuel
    → (r : Socket × ℤ × List ℕ) × (get_data_from_buffer fuel s (pos m) ≡ some r) × HasRead s m r
get_data_total zero s m v le small fits h = absurd (omega (arith, h))
get_data_total (suc fuel) s m v le small fits h =
    elim (amount_cases m s.recv_read s.recv_next le small) [
      | inl e ↦ (_, at_none fuel s m le e, (omega arith, le, refl, inr (0, refl, omega arith)))
      | inr (n, e, more, bound) ↦
          (let (d, out) =
              get_range_total s.r_buf s.recv_read n v (omega (arith, more)) (omega (arith, more)) in
            elim out [
              | inl got ↦
                  (let next = record s { recv_read = add32 s.recv_read 1 } in
                    let (r, run, (a, b, c, result)) =
                      get_data_total fuel next m v (omega (arith, more)) small (omega (arith, more))
                        (omega (arith, more)) in
                    (
                      r,
                      round fuel s m n le e ∙ read_flag s n d _ got ∙ run,
                      (omega (arith, a, more), b, c, result),
                    ))
              | inr (k, got, few) ↦ ends n k d e more bound got few
            ])
    ]
  where
    ends :
        (n k : ℕ) (d : Option (List ℕ))
        → amount_of s m ≡ pos (suc n)
        → s.recv_read + suc n ≤ s.recv_next
        → suc n ≤ m
        → cbuf_get_range s.r_buf s.recv_read (suc n) ≡ some (pos (suc k), d)
        → k ≤ n
        → (r : Socket × ℤ × List ℕ) × (get_data_from_buffer (suc fuel) s (pos m) ≡ some r)
          × HasRead s m r
    ends n k none e more bound got few = (
      _,
      round fuel s m n le e ∙ read_eof s n k _ got,
      (omega (arith, more), omega (arith, more), refl, inl refl),
    )
    ends n k (some d) e more bound got few = (
      _,
      round fuel s m n le e ∙ read_data s n k d _ got (omega (arith, more, few)),
      (
        omega (arith, more, few),
        omega (arith, more, few),
        refl,
        inr (suc k, refl, omega (arith, bound, few)),
      ),
    )
