-- ===== src/Cbuffer/Compare.antt =====
-- The comparison macros of tcp_branch/cbuffer.h: sequence numbers on the ring of `size` cells.
use native.Mathlib.Nat.{mod-add-mod, mod-eq_of_lt, mod-eq-sub-mod, mod-lt}
use native.Mathlib.Decide.{dec_lt}
use tcp_archive.Prelude.{
  ℕ, ◌+◌, ◌/◌, ◌%◌, ◌-◌, ◌<◌, ◌≤◌, ◌≡◌, ◌⊎◌, inl, inr, true, false, arith, ltb, if◌then◌else◌,
  subst,
}
use tcp_archive.Cbuffer.{
  Cbuf, before, same, after, cbuf_cmp, cbuf_lt, cbuf_gt, cbuf_eq, cbuf_lte, cbuf_btm_contains,
}

-- A step of less than one round either stays on the round or passes its end once.
pub mod-step :
    (size a d : ℕ)
    → d < size
    → ((a % size + d < size) × ((a + d) % size ≡ a % size + d))
      ⊎ ((size ≤ a % size + d) × ((a + d) % size + size ≡ a % size + d))
mod-step size a d h = elim (dec_lt (a % size + d) size) [
  | yes p ↦ inl (p, omega (arith, mod-add-mod a size d, mod-eq_of_lt p))
  | no p ↦ inr (
    omega arith,
    omega (
      arith,
      mod-add-mod a size d,
      mod-eq-sub-mod {n = a % size + d} {m = size} (omega arith),
      mod-eq_of_lt {n = a % size + d - size} {m = size} (omega (arith, mod-lt a {m = size})),
    ),
  )
]

-- Two positions less than half a ring apart are compared as the numbers are, wherever they stand
-- on the ring.
pub cbuf_cmp_near :
    (size a d : ℕ)
    → d < size / 2
    → (cbuf_cmp size a (a + d) ≡ (if ltb 0 d then before else same))
      × (cbuf_cmp size (a + d) a ≡ (if ltb 0 d then after else same))
unfolding cbuf_cmp
cbuf_cmp_near size a d h = (
  ground (arith, mod-step size a d (omega arith)),
  ground (arith, mod-step size a d (omega arith)),
)

-- A position before another one has that after it.
pub cbuf_cmp_flip :
    (size a b : ℕ) → 0 < size → cbuf_cmp size a b ≡ before → cbuf_cmp size b a ≡ after
unfolding cbuf_cmp
cbuf_cmp_flip size a b p h = ground arith

-- Of two opposite positions of the ring, of two cells at least, each is after the other.
pub cbuf_cmp_opposite :
    (size a b : ℕ)
    → b % size ≡ a % size + size / 2
    → 0 < size / 2
    → (cbuf_cmp size a b ≡ after) × (cbuf_cmp size b a ≡ after)
unfolding cbuf_cmp
cbuf_cmp_opposite size a b e h = ground arith

-- With a window of less than half a ring from `lo`, `cbuf_btm_contains` is membership in the
-- half-open window, for a position less than half a ring past its lower end.
pub btm_contains_window :
    (c : Cbuf) (lo w d : ℕ)
    → w < c.size / 2
    → d < c.size / 2
    → cbuf_btm_contains c lo (lo + w) (lo + d) ≡ ltb d w
unfolding cbuf_btm_contains cbuf_lte cbuf_lt cbuf_eq cbuf_gt
btm_contains_window c lo w d hw hd = elim (dec_lt d w) [
  | yes p ↦ ground (arith, cbuf_cmp_near c.size lo d hd, upper_inside p)
  | no p ↦ ground (arith, cbuf_cmp_near c.size lo d hd, upper_outside (omega arith))
]
  where
    upper_inside : d < w → cbuf_cmp c.size (lo + w) (lo + d) ≡ after
    upper_inside p =
        subst (λ k. cbuf_cmp c.size k (lo + d) ≡ after) {x = lo + d + (w - d)} (omega arith)
          (ground (arith, cbuf_cmp_near c.size (lo + d) (w - d) (omega arith)))

    upper_outside :
        w ≤ d → cbuf_cmp c.size (lo + w) (lo + d) ≡ (if ltb 0 (d - w) then before else same)
    upper_outside p =
        subst (λ k. cbuf_cmp c.size (lo + w) k ≡ (if ltb 0 (d - w) then before else same))
          {x = lo + w + (d - w)} (omega arith)
          (cbuf_cmp_near c.size (lo + w) (d - w) (omega arith)).0

-- A position before the window, less than half a ring from its lower end, is not in it, and is
-- older than the lower end.
pub btm_contains_before :
    (c : Cbuf) (x e hi : ℕ)
    → 0 < e
    → e < c.size / 2
    → (cbuf_btm_contains c (x + e) hi x ≡ false) × (cbuf_lt c x (x + e) ≡ true)
unfolding cbuf_btm_contains cbuf_lte cbuf_lt cbuf_eq
btm_contains_before c x e hi p h = ground (arith, cbuf_cmp_near c.size x e h)
