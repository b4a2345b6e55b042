-- ===== src/Console/Text/Decimal.antt =====
-- What is printed as a decimal number is read as that number.
use bfc_tunnel.Base.{
  ℕ, zero, suc, ◌+◌, ◌*◌, ◌/◌, ◌%◌, ◌^◌, ◌<◌, ◌≡◌, ◌∙◌, refl, true, false, some, [], ◌∷◌, ◌++◌, ltb,
  ◌==◌, arith, inl, inr, Bool-cases,
}
use native.Mathlib.Nat.{pow-suc}
use mathlib.Core.List.{append_assoc, append-nil}
use bfc_tunnel.Console.Text.{
  Bytes, is_space, is_digit, to_digits, to_string, read_digits, starts_digit, str_as, skip_spaces,
  extract_unsigned, extract_digits,
}

-- A digit, then the digits that follow it.
pub read_digits-digit :
    (d n : ℕ) (s : Bytes) → d < 10 → read_digits ((b'0' + d) ∷ s) n ≡ read_digits s (n * 10 + d)
unfolding read_digits is_digit
read_digits-digit d n s h = ground arith

read_digits-to_digits :
    (fuel n : ℕ) (rest : Bytes)
    → n < 10 ^ suc fuel
    → read_digits (to_digits fuel n ++ rest) 0 ≡ read_digits rest n
unfolding to_digits
read_digits-to_digits zero n rest h = ground (arith, read_digits-digit (n % 10) 0 rest)
read_digits-to_digits (suc fuel) n rest h = elim (Bool-cases (ltb n 10)) [
  | inl one ↦ rw one (ground (arith, read_digits-digit n 0 rest, one))
  | inr more ↦
      let higher =
        read_digits-to_digits fuel (n / 10) ((b'0' + n % 10) ∷ rest)
          (omega (arith, pow-suc 10 (suc fuel))) in
      rw (more, append_assoc, higher) (ground (arith, read_digits-digit (n % 10) (n / 10) rest))
]

-- The first character of a number is a digit.
to_digits-head :
    (fuel n : ℕ) → (c : ℕ) × (t : Bytes) × (to_digits fuel n ≡ c ∷ t) × (is_digit c ≡ true)
unfolding to_digits is_digit
to_digits-head zero n = (b'0' + n % 10, [], refl, ground arith)
to_digits-head (suc fuel) n = elim (Bool-cases (ltb n 10)) [
  | inl one ↦ (b'0' + n, [], rw one refl, ground arith)
  | inr more ↦
      let (c, t, e, digit) = to_digits-head fuel (n / 10) in
      (c, t ++ (b'0' + n % 10) ∷ [], rw (more, e) refl, digit)
]

digit-plain :
    (c : ℕ)
    → is_digit c ≡ true
    → (is_space c ≡ false) × ((c == b'-') ≡ false) × ((c == b'+') ≡ false)
unfolding is_digit is_space
digit-plain c h = (ground arith, ground arith, ground arith)

stops : (n : ℕ) (rest : Bytes) → starts_digit rest ≡ false → read_digits rest n ≡ (n, rest)
unfolding read_digits
stops n [] h = refl
stops n (c ∷ s) h = rw h refl

-- A text that starts with a digit has no space to skip, and no sign.
extract-digits : (s : Bytes) → starts_digit s ≡ true → extract_unsigned s ≡ extract_digits false s
unfolding extract_unsigned skip_spaces
extract-digits [] h = absurd (ground arith)
extract-digits (c ∷ s) h =
    let (space, minus, plus) = digit-plain c h in rw (space, minus, plus) refl

read_word :
    (s rest : Bytes) {n : ℕ}
    → starts_digit s ≡ true
    → read_digits s 0 ≡ (n, rest)
    → n < 2 ^ 32
    → extract_digits false s ≡ some (n, rest)
read_word s rest starts read word = rw (read, starts) (ground arith)

module _ (n : ℕ) (small : n < 10 ^ 20) where
  pub to_string-read :
      (rest : Bytes) → starts_digit rest ≡ false → read_digits (to_string n ++ rest) 0 ≡ (n, rest)
  unfolding to_string
  to_string-read rest h = rw (read_digits-to_digits 19 n rest small) (stops n rest h)

  pub to_string-starts : (rest : Bytes) → starts_digit (to_string n ++ rest) ≡ true
  unfolding to_string
  to_string-starts rest = let (c, t, e, digit) = to_digits-head 19 n in rw e digit

  -- A number is read back, if it is within the bound.
  pub str_as-to_string : (limit : ℕ) → n < limit → str_as limit (to_string n) ≡ some n
  unfolding str_as
  str_as-to_string limit h =
      let read = to_string-read [] refl in
      let starts = to_string-starts [] in
      rw (rw append-nil at read, rw append-nil at starts) (ground arith)

  -- As a part of a text, up to a character that is no digit.
  pub extract-to_string :
      (rest : Bytes)
      → starts_digit rest ≡ false
      → n < 2 ^ 32
      → extract_unsigned (to_string n ++ rest) ≡ some (n, rest)
  extract-to_string rest h word =
      let s = to_string n ++ rest in
      extract-digits s (to_string-starts rest)
      ∙ read_word s rest (to_string-starts rest) (to_string-read rest h) word
