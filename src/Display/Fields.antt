-- ===== src/Display/Fields.antt =====
-- What the forms of tcp_branch/fancy_display.c read from their fields.
use tcp_archive.Prelude.{
  ℕ, zero, suc, ◌+◌, ◌-◌, ◌<◌, ◌≤◌, ◌≡◌, ◌≢◌, refl, sym, ◌∙◌, ap, ap₂, some, List, [], ◌∷◌, ◌++◌,
  append_assoc, length, length-append, length-replicate, replicate, get_elem?, drop-length-append,
  take-length-append, ==_ne, arith, ℤ, pos, u32, le→leb, lt→ltb,
}
use tcp_archive.Text.{decimal}
use tcp_archive.Text.Numbers.{Ends, scan_int-decimal}
use tcp_archive.Display.{get_number, find_start, find_end, copy_text, get_text}

Ends-spaces : (m : ℕ) → Ends (replicate m b' ')
Ends-spaces zero = tt
Ends-spaces (suc m) = refl

-- A number below 2 ^ 31 in the field, with spaces on both sides, is what `get_number` returns.
pub get_number-decimal :
    (k n m : ℕ) (raw : ℤ)
    → n < 2147483648
    → get_number (replicate k b' ' ++ (decimal n ++ replicate m b' ')) raw ≡ pos n
unfolding get_number
get_number-decimal k n m raw h =
    rw (scan_int-decimal k n (replicate m b' ') h (Ends-spaces m), get_number)

find_start_spaces :
    (k i c : ℕ) (text : List ℕ)
    → c ≢ b' '
    → find_start (replicate k b' ' ++ (c ∷ text)) i ≡ some (i + k)
unfolding find_start
find_start_spaces zero i c text ne = rw (==_ne c b' ' ne) (ap some (omega arith))
find_start_spaces (suc k) i c text ne =
    find_start_spaces k (suc i) c text ne ∙ ap some (omega arith)

get_elem?-append : (xs ys : List ℕ) (i : ℕ) → get_elem? (xs ++ ys) (length xs + i) ≡ get_elem? ys i
get_elem?-append [] ys i = ap (get_elem? ys) (omega arith)
get_elem?-append (x ∷ xs) ys i =
    ap (get_elem? (x ∷ (xs ++ ys))) {x = suc (length xs) + i} {y = suc (length xs + i)}
      (omega arith)
    ∙ get_elem?-append xs ys i

get_elem?-replicate : (n i c : ℕ) → i < n → get_elem? (replicate n c) i ≡ some c
get_elem?-replicate zero i c h = absurd (omega (arith, h))
get_elem?-replicate (suc n) zero c h = refl
get_elem?-replicate (suc n) (suc i) c h = get_elem?-replicate n i c (omega (arith, h))

find_end_here :
    (field : List ℕ) (i c : ℕ)
    → get_elem? field i ≡ some c
    → c ≢ b' '
    → find_end field (suc i) ≡ some (suc i)
unfolding find_end
find_end_here field i c e ne = rw e (rw (==_ne c b' ' ne))

find_end_below :
    (field : List ℕ) (i : ℕ)
    → get_elem? field i ≡ some b' '
    → find_end field (suc i) ≡ find_end field i
unfolding find_end
find_end_below field i e = rw (e, find_end)

-- Spaces behind a text are passed over.
find_end_spaces :
    (front : List ℕ) (m n : ℕ)
    → n ≤ m
    → find_end (front ++ replicate m b' ') (length front + n)
      ≡ find_end (front ++ replicate m b' ') (length front)
find_end_spaces front m zero h = ap (find_end (front ++ replicate m b' ')) (omega arith)
find_end_spaces front m (suc n) h =
    ap (find_end (front ++ replicate m b' ')) {x = length front + suc n}
      {y = suc (length front + n)} (omega arith)
    ∙ find_end_below (front ++ replicate m b' ') (length front + n) (
        get_elem?-append front (replicate m b' ') n
        ∙ get_elem?-replicate m n b' ' (omega (arith, h)))
    ∙ find_end_spaces front m n (omega (arith, h))

-- The end of a text whose last character is no space.
find_end_text :
    (front : List ℕ) (c m : ℕ)
    → c ≢ b' '
    → let text = front ++ (c ∷ []) in
      find_end (text ++ replicate m b' ') (length text + m) ≡ some (length text)
find_end_text front c m ne =
    let text = front ++ (c ∷ []) in
    let field = text ++ replicate m b' ' in
    let size : length text ≡ suc (length front) = length-append front (c ∷ []) ∙ omega arith in
    let last : get_elem? field (length front) ≡ some c =
      ap (λ l. get_elem? l (length front)) (append_assoc front (c ∷ []) (replicate m b' '))
      ∙ ap (get_elem? (front ++ (c ∷ replicate m b' '))) {x = length front} {y = length front + 0}
          (omega arith)
      ∙ get_elem?-append front (c ∷ replicate m b' ') 0 in
    find_end_spaces text m m (omega arith)
    ∙ ap (find_end field) size
    ∙ find_end_here field (length front) c last ne
    ∙ ap some (sym size)

find_end_field :
    (k m i e : ℕ) (text front : List ℕ)
    → text ≡ front ++ (e ∷ [])
    → e ≢ b' '
    → k + length text + m ≡ i
    → find_end (replicate k b' ' ++ (text ++ replicate m b' ')) i ≡ some (k + length text)
find_end_field k m i e text front last ne total =
    let pre = replicate k b' ' in
    let post = replicate m b' ' in
    let whole : pre ++ front ++ (e ∷ []) ≡ pre ++ text =
      append_assoc pre front (e ∷ []) ∙ ap (λ l. pre ++ l) (sym last) in
    let size : length (pre ++ front ++ (e ∷ [])) ≡ k + length text =
      ap length whole
      ∙ length-append pre text
      ∙ ap (λ z. z + length text) (length-replicate k b' ') in
    let field : pre ++ front ++ (e ∷ []) ++ post ≡ pre ++ (text ++ post) =
      ap (λ l. l ++ post) whole ∙ append_assoc pre text post in
    ap₂ find_end (sym field) (sym total ∙ ap (λ z. z + m) (sym size))
    ∙ find_end_text (pre ++ front) e m ne
    ∙ ap some size

copy_text_lem :
    (pre text post : List ℕ) (len : ℕ)
    → length text ≤ len
    → length pre + length text < 2147483648
    → copy_text (pre ++ (text ++ post)) len (length pre) (length pre + length text)
      ≡ some (pos (length text), text ++ replicate (len - length text) 0)
unfolding copy_text
copy_text_lem pre text post len fits small =
    let k = length pre in
    let n = length text in
    let size : u32 (k + n + 4294967296 - k) ≡ n = omega (arith, small) in
    let field = pre ++ (text ++ post) in
    rw
      (size, le→leb n len fits, drop-length-append pre (text ++ post), take-length-append text post)
      (rw (
        le→leb (k + n) (length field)
            (omega (arith, length-append pre (text ++ post), length-append text post)),
        lt→ltb n 2147483648 (omega (arith, small)),
      ))

-- A text in the 252 bytes of the field that neither begins nor ends with a space, with spaces on both sides, and for
-- which the caller has room: `get_text` returns its length, and leaves the text in the caller's block with zero bytes
-- behind it. What the memory of `start` and `end` held does not matter.
pub get_text_lem :
    (k m len c e raw_start raw_end : ℕ) (text rest front : List ℕ)
    → text ≡ c ∷ rest
    → text ≡ front ++ (e ∷ [])
    → c ≢ b' '
    → e ≢ b' '
    → k + length text + m ≡ 252
    → length text ≤ len
    → get_text (replicate k b' ' ++ (text ++ replicate m b' ')) len raw_start raw_end
      ≡ some (pos (length text), text ++ replicate (len - length text) 0)
unfolding get_text
get_text_lem k m len c e raw_start raw_end text rest front first last nc ne total fits =
    let field = replicate k b' ' ++ (text ++ replicate m b' ') in
    let start : find_start field 0 ≡ some k =
      ap (λ l. find_start (replicate k b' ' ++ (l ++ replicate m b' ')) 0) first
      ∙ find_start_spaces k 0 c (rest ++ replicate m b' ') nc
      ∙ ap some (omega arith) in
    let stop = find_end_field k m 252 e text front last ne total in
    rw (start, stop)
      (ap₂ (copy_text field len) (sym (length-replicate k b' '))
          (ap (λ z. z + length text) (sym (length-replicate k b' ')))
        ∙ copy_text_lem (replicate k b' ') text (replicate m b' ') len fits
            (omega (arith, length-replicate {0} {A = ℕ} k b' ', total)))
