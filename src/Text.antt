-- ===== src/Text.antt =====
-- What tcp_branch/fancy_display.c uses of the C library for text: `%d` and `%s` of `sprintf`, and `%d` of `sscanf`. A
-- text is the list of its bytes, without the zero byte at its end.
pub mod Numbers
use Prim.Native.Char.{code}
use Prim.Native.String
use Prim.Native.String.{String}
use tcp_archive.Prelude.{
  ℕ, zero, suc, ◌+◌, ◌-◌, ◌*◌, ◌/◌, ◌%◌, Bool, true, false, ◌&&◌, ◌||◌, Option, none, some, List,
  [], ◌∷◌, ◌++◌, ltb, leb, ◌==◌, if◌then◌else◌, ℤ, pos, negsuc, int_of, u32, sub32, ◌>>=◌,
}

abbrev pub codes : String → List ℕ
codes String.[] = []
codes (String.◌∷◌ c s) = code c ∷ codes s

-- The decimal digits of a number, at most as many as the fuel; ten are enough for 32 bits.
unfoldable pub digits : ℕ → ℕ → List ℕ
digits zero n = []
digits (suc fuel) n =
    let front = digits fuel (n / 10) in
    if ltb n 10 then (n + b'0') ∷ [] else front ++ ((n % 10 + b'0') ∷ [])

abbrev pub decimal : ℕ → List ℕ
decimal n = digits 10 n

-- `%d` of an `int`.
abbrev pub print_int : ℤ → List ℕ
print_int (pos n) = decimal n
print_int (negsuc n) = b'-' ∷ decimal (suc n)

abbrev pub is_digit : ℕ → Bool
is_digit c = leb b'0' c && leb c b'9'

-- `isspace` in the C locale.
abbrev pub is_space : ℕ → Bool
is_space c = c == b' ' || leb 9 c && leb c 13

-- `sscanf(text, "%d", &num)`: `none` where no number is read, which leaves `num` as it was. A number that is no `int` is
-- cut to its lower 32 bits, as on the hosts.
unfoldable pub scan_digits : ℕ → List ℕ → ℕ
scan_digits acc [] = acc
scan_digits acc (c ∷ text) = elim (is_digit c) [
  | true ↦ scan_digits (acc * 10 + (c - b'0')) text
  | false ↦ acc
]

abbrev pub scan_number : List ℕ → Option ℕ
scan_number [] = none
scan_number (c ∷ text) = if is_digit c then some (scan_digits 0 (c ∷ text)) else none

abbrev pub scan_signed : List ℕ → Option ℤ
scan_signed [] = none
scan_signed (c ∷ text) =
    if c == b'-'
    then (scan_number text >>= λ n. some (int_of (sub32 0 n)))
    else (scan_number (if c == b'+' then text else c ∷ text) >>= λ n. some (int_of (u32 n)))

unfoldable pub scan_int : List ℕ → Option ℤ
unfolding scan_digits
scan_int [] = none
scan_int (c ∷ text) = elim (is_space c) [ true ↦ scan_int text | false ↦ scan_signed (c ∷ text) ]
