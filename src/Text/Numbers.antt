-- ===== src/Text/Numbers.antt =====
-- Numbers that are printed: their length, and that they are read back.
use tcp_archive.Prelude.{
  ℕ, zero, suc, ◌+◌, ◌*◌, ◌/◌, ◌%◌, ◌<◌, ◌≤◌, ◌≡◌, refl, sym, ◌∙◌, ap, true, false, some, List, [],
  ◌∷◌, ◌++◌, length, length-append, replicate, arith, ℤ, pos, int_of, u32, negsuc, ltb, lt→ltb,
  ◌==◌, Bool-cases, inl, inr, ltb→lt, append_assoc,
}
use tcp_archive.Text.{digits, decimal, print_int, is_digit, is_space, scan_digits, scan_int}

length-digits : (fuel n : ℕ) → length (digits fuel n) ≤ fuel
unfolding digits
length-digits zero n = omega arith
length-digits (suc fuel) n = elim (Bool-cases (ltb n 10)) [
  | inl e ↦ rw e (omega arith)
  | inr e ↦ rw e (
      omega (
        arith,
        length-append (digits fuel (n / 10)) ((n % 10 + b'0') ∷ []),
        length-digits fuel (n / 10),
      ))
]

pub length-print_int : (i : ℤ) → length (print_int i) ≤ 11
length-print_int (pos n) = omega (arith, length-digits 10 n)
length-print_int (negsuc n) = omega (arith, length-digits 10 (suc n))

abbrev pow10 : ℕ → ℕ
pow10 zero = 1
pow10 (suc n) = 10 * pow10 n

digit : (d : ℕ) → d < 10 → is_digit (d + b'0') ≡ true
digit d h = ground (arith, h)

-- What stands before a text that begins with no digit.
abbrev pub Ends : List ℕ → Type 0
Ends [] = Unit {0}
Ends (c ∷ text) = is_digit c ≡ false

scan_end : (acc : ℕ) (rest : List ℕ) → Ends rest → scan_digits acc rest ≡ acc
unfolding scan_digits
scan_end acc [] h = refl
scan_end acc (c ∷ text) h = rw (h, scan_digits)

scan_one :
    (acc d : ℕ) (rest : List ℕ)
    → d < 10
    → scan_digits acc ((d + b'0') ∷ rest) ≡ scan_digits (acc * 10 + d) rest
unfolding scan_digits
scan_one acc d rest h = rw (digit d h, scan_digits) (ap (λ k. scan_digits k rest) (omega arith))

scan_digits-digits :
    (fuel n : ℕ) (rest : List ℕ)
    → n < pow10 fuel
    → scan_digits 0 (digits fuel n ++ rest) ≡ scan_digits n rest
unfolding digits
scan_digits-digits zero n rest h = ap (λ k. scan_digits k rest) (omega (arith, h))
scan_digits-digits (suc fuel) n rest h = elim (Bool-cases (ltb n 10)) [
  | inl e ↦ rw e (scan_one 0 n rest (ltb→lt n 10 e) ∙ ap (λ k. scan_digits k rest) (omega arith))
  | inr e ↦
      rw (e, append_assoc (digits fuel (n / 10)) ((n % 10 + b'0') ∷ []) rest)
        (scan_digits-digits fuel (n / 10) ((n % 10 + b'0') ∷ rest) (omega (arith, h))
          ∙ scan_one (n / 10) (n % 10) rest (omega arith)
          ∙ ap (λ k. scan_digits k rest) (omega arith))
]

first_digit :
    (fuel n : ℕ)
    → n < pow10 (suc fuel)
    → (c : ℕ) × (t : List ℕ) × (digits (suc fuel) n ≡ c ∷ t) × (is_digit c ≡ true)
unfolding digits
first_digit zero n h =
    (n + b'0', [], rw (lt→ltb n 10 (omega (arith, h))), digit n (omega (arith, h)))
first_digit (suc fuel) n h = elim (Bool-cases (ltb n 10)) [
  | inl e ↦ (n + b'0', [], rw e, digit n (ltb→lt n 10 e))
  | inr e ↦
      (let (c, t, front, d) = first_digit fuel (n / 10) (omega (arith, h)) in
        (c, t ++ ((n % 10 + b'0') ∷ []), rw (e, front), d))
]

scan_first :
    (c : ℕ) (text : List ℕ)
    → is_digit c ≡ true
    → scan_int (c ∷ text) ≡ some (int_of (u32 (scan_digits 0 (c ∷ text))))
unfolding scan_int
scan_first c text d =
    let space : is_space c ≡ false = ground (arith, d) in
    let minus : (c == b'-') ≡ false = ground (arith, d) in
    let plus : (c == b'+') ≡ false = ground (arith, d) in
    rw (space, scan_int) (rw (minus, plus) (rw d))

scan_spaces : (k : ℕ) (text : List ℕ) → scan_int (replicate k b' ' ++ text) ≡ scan_int text
unfolding scan_int
scan_spaces zero text = refl
scan_spaces (suc k) text = scan_spaces k text

in_range : (n : ℕ) → n < 2147483648 → int_of (u32 n) ≡ pos n
in_range n h = ground (arith, h)

-- An `int` that is not negative and is printed, with spaces before it and a text behind it that begins with no digit, is
-- read back.
pub scan_int-decimal :
    (k n : ℕ) (rest : List ℕ)
    → n < 2147483648
    → Ends rest
    → scan_int (replicate k b' ' ++ (decimal n ++ rest)) ≡ some (pos n)
scan_int-decimal k n rest h end =
    let (c, t, e, d) = first_digit 9 n (omega (arith, h)) in
    scan_spaces k (decimal n ++ rest)
    ∙ ap (λ l. scan_int (l ++ rest)) e
    ∙ scan_first c (t ++ rest) d
    ∙ ap (λ l. some (int_of (u32 (scan_digits 0 (l ++ rest))))) (sym e)
    ∙ ap (λ v. some (int_of (u32 v)))
        (scan_digits-digits 10 n rest (omega (arith, h)) ∙ scan_end n rest end)
    ∙ ap some (in_range n h)
