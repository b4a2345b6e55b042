-- ===== src/Console/Text.antt =====
-- What the console uses of the C++ library's texts: `isspace` in the C locale, `==`, and numbers.
pub mod Decimal
use Prim.Native.Char.{code}
use Prim.Native.String.{String}
use bfc_tunnel.Base.{
  ℕ, zero, suc, ◌+◌, ◌-◌, ◌*◌, ◌/◌, ◌%◌, ◌^◌, Option, none, some, Bool, true, false, ◌&&◌, ◌||◌,
  List, [], ◌∷◌, ◌++◌, leb, ltb, ◌==◌, if◌then◌else◌,
}

abbrev pub Bytes : Type 0
Bytes = List ℕ

-- The bytes of a literal.
abbrev pub codes : String → Bytes
codes String.[] = []
codes (String.◌∷◌ c s) = code c ∷ codes s

-- Space, and the characters from tab to carriage return.
unfoldable pub is_space : ℕ → Bool
is_space c = c == b' ' || (leb 9 c && leb c 13)

unfoldable pub is_digit : ℕ → Bool
is_digit c = leb b'0' c && leb c b'9'

unfoldable pub text_eq : Bytes → Bytes → Bool
text_eq [] [] = true
text_eq (a ∷ s) (b ∷ t) = a == b && text_eq s t
text_eq s t = false

-- `std::to_string`: twenty digits are enough for a word of 64 bits.
unfoldable pub to_digits : ℕ → ℕ → Bytes
to_digits zero n = (b'0' + n % 10) ∷ []
to_digits (suc fuel) n =
    let higher = to_digits fuel (n / 10) in
    if ltb n 10 then (b'0' + n) ∷ [] else higher ++ (b'0' + n % 10) ∷ []

unfoldable pub to_string : ℕ → Bytes
unfolding to_digits
to_string n = to_digits 19 n

-- The value of the digits at the front, after the value so far, and what follows them.
unfoldable pub read_digits : Bytes → ℕ → ℕ × Bytes
unfolding is_digit
read_digits [] n = (n, [])
read_digits (c ∷ s) n =
    let further = read_digits s (n * 10 + (c - b'0')) in if is_digit c then further else (n, c ∷ s)

abbrev pub is_empty : Bytes → Bool
is_empty [] = true
is_empty (c ∷ s) = false

abbrev pub starts_digit : Bytes → Bool
starts_digit [] = false
starts_digit (c ∷ s) = is_digit c

-- utils/string_utils.hpp: str_as for an unsigned type with the bound `limit`. `std::from_chars` wants
-- a digit, takes all digits that follow, and refuses a value out of range.
unfoldable pub str_as : ℕ → Bytes → Option ℕ
unfolding read_digits is_digit
str_as limit s =
    let (n, rest) = read_digits s 0 in
    if starts_digit s && ltb n limit && is_empty rest then some n else none

unfoldable pub skip_spaces : Bytes → Bytes
unfolding is_space
skip_spaces [] = []
skip_spaces (c ∷ s) = let rest = skip_spaces s in if is_space c then rest else c ∷ s

-- The digits of `stream >> n` for an `unsigned`, behind its sign.
abbrev pub extract_digits : Bool → Bytes → Option (ℕ × Bytes)
extract_digits negative s =
    let (n, rest) = read_digits s 0 in
    if starts_digit s && ltb n (2 ^ 32)
    then some (if negative then (2 ^ 32 - n) % 2 ^ 32 else n, rest)
    else none

-- Space is skipped; a sign is allowed, and a negative number wraps.
abbrev pub signed_digits : Bytes → Option (ℕ × Bytes)
signed_digits [] = none
signed_digits (c ∷ s) =
    if c == b'-'
    then extract_digits true s
    else if c == b'+'
    then extract_digits false s
    else extract_digits false (c ∷ s)

unfoldable pub extract_unsigned : Bytes → Option (ℕ × Bytes)
unfolding skip_spaces read_digits is_digit
extract_unsigned s = signed_digits (skip_spaces s)

abbrev pub first_char : Bytes → Option (ℕ × Bytes)
first_char [] = none
first_char (c ∷ s) = some (c, s)

-- `stream >> c` for a `char`.
unfoldable pub extract_char : Bytes → Option (ℕ × Bytes)
unfolding skip_spaces
extract_char s = first_char (skip_spaces s)
