-- ===== src/Prelude/Keys.antt =====
-- Sets of keys as lists of numbers.
use mathlib.Core.Path.{◌≡◌}
use Prim.Native.Nat.{ℕ}
use mathlib.Core.Bool.{Bool, true, false, ◌||◌}
use mathlib.Core.List.{List, [], ◌∷◌}
use mathlib.Core.Option.{Option, none, some}
use native.Mathlib.Omega.{arith}
use tcp_archive.Prelude.Tests.{◌==◌, if◌then◌else◌}

abbrev pub contains : List ℕ → ℕ → Bool
contains [] k = false
contains (x ∷ xs) k = x == k || contains xs k

abbrev pub erase_all : ℕ → List ℕ → List ℕ
erase_all k [] = []
erase_all k (x ∷ xs) = if x == k then erase_all k xs else x ∷ erase_all k xs

-- No key comes twice.
abbrev pub Distinct : List ℕ → Type 0
Distinct [] = Unit {0}
Distinct (x ∷ xs) = (contains xs x ≡ false) × Distinct xs

abbrev pub is_some {ℓ} : {A : Type ℓ} → Option A → Bool
is_some none = false
is_some (some a) = true

pub contains-erase_all :
    (k j : ℕ) (xs : List ℕ)
    → contains (erase_all k xs) j ≡ (if k == j then false else contains xs j)
contains-erase_all k j [] = ground arith
contains-erase_all k j (x ∷ xs) = ground (arith, contains-erase_all k j xs)

pub Distinct-erase_all : (k : ℕ) (xs : List ℕ) → Distinct xs → Distinct (erase_all k xs)
Distinct-erase_all k [] d = tt
Distinct-erase_all k (x ∷ xs) d =
    ground (arith, Distinct-erase_all k xs d.1, contains-erase_all k x xs)
