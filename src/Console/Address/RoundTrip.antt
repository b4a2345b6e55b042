-- ===== src/Console/Address/RoundTrip.antt =====
-- codec.hpp: node ids and ports are read back.
use bfc_tunnel.Base.{
  ℕ, zero, suc, ◌+◌, ◌*◌, ◌/◌, ◌%◌, ◌^◌, ◌<◌, ◌≡◌, refl, true, false, none, some, ◌>>=◌, [], ◌∷◌,
  ◌++◌, ltb, ◌==◌, arith, inl, inr, Bool-cases, bit_or,
}
use bfc_tunnel.Base.Bits.{bit_or-shifted}
use mathlib.Core.List.{append-nil}
use bfc_tunnel.Console.Text.{
  Bytes, is_space, is_digit, to_digits, to_string, starts_digit, skip_spaces, extract_unsigned,
  extract_char,
}
use bfc_tunnel.Console.Text.Decimal.{str_as-to_string, extract-to_string}
use bfc_tunnel.Console.Address.{
  has_char, read_quad, quad_id, parse_node_id, format_node_id, split_last, split_host_port,
}

has_char-append : (k : ℕ) (s t : Bytes) → has_char k (s ++ k ∷ t) ≡ true
unfolding has_char
has_char-append k [] t = ground arith
has_char-append k (c ∷ s) t = ground (arith, has_char-append k s t)

no_colon-append :
    (s : Bytes) (c : ℕ)
    → has_char b':' s ≡ false
    → (c == b':') ≡ false
    → has_char b':' (s ++ c ∷ []) ≡ false
unfolding has_char
no_colon-append [] c h e = ground arith
no_colon-append (d ∷ s) c h e = ground (arith, no_colon-append s c)

-- A number has no colon.
no_colon-digits : (fuel n : ℕ) → has_char b':' (to_digits fuel n) ≡ false
unfolding has_char to_digits
no_colon-digits zero n = ground arith
no_colon-digits (suc fuel) n = elim (Bool-cases (ltb n 10)) [
  | inl one ↦ rw one (ground arith)
  | inr more ↦ rw more (
      no_colon-append (to_digits fuel (n / 10)) (b'0' + n % 10) (no_colon-digits fuel (n / 10))
        (ground arith))
]

no_colon : (n : ℕ) → has_char b':' (to_string n) ≡ false
unfolding to_string
no_colon n = no_colon-digits 19 n

split_last-none : (s : Bytes) → has_char b':' s ≡ false → split_last s ≡ none
unfolding split_last has_char
split_last-none [] h = refl
split_last-none (c ∷ s) h = ground (arith, split_last-none s)

joined_bytes :
    (a b c d : ℕ)
    → b < 256
    → c < 256
    → d < 256
    → bit_or (bit_or (bit_or (a * 2 ^ 24) (b * 2 ^ 16)) (c * 2 ^ 8)) d
      ≡ a * 2 ^ 24 + b * 2 ^ 16 + c * 2 ^ 8 + d
joined_bytes a b c d hb hc hd =
    let p = bit_or-shifted 24 a (b * 2 ^ 16) (omega arith) in
    let q = bit_or-shifted 16 (a * 2 ^ 8 + b) (c * 2 ^ 8) (omega arith) in
    let r = bit_or-shifted 8 (a * 2 ^ 16 + b * 2 ^ 8 + c) d (omega arith) in
    let f : a * 2 ^ 24 + b * 2 ^ 16 ≡ (a * 2 ^ 8 + b) * 2 ^ 16 = omega arith in
    let g : (a * 2 ^ 8 + b) * 2 ^ 16 + c * 2 ^ 8 ≡ (a * 2 ^ 16 + b * 2 ^ 8 + c) * 2 ^ 8 =
      omega arith in
    rw (p, f, q, g, r) (omega arith)

char_next : (rest : Bytes) → extract_char (b':' ∷ rest) ≡ some (b':', rest)
unfolding extract_char skip_spaces is_space
char_next rest = refl

colon_stops : is_digit b':' ≡ false
unfolding is_digit
colon_stops = refl

number_next :
    (n : ℕ) (rest : Bytes)
    → n < 256
    → starts_digit rest ≡ false
    → extract_unsigned (to_string n ++ rest) ≡ some (n, rest)
number_next n rest h stops = extract-to_string n (omega arith) rest stops (omega arith)

read_quad-of :
    (s s1 s2 s3 s4 s5 s6 s7 : Bytes) (a b c d k l m : ℕ)
    → extract_unsigned s ≡ some (a, s1)
    → extract_char s1 ≡ some (k, s2)
    → extract_unsigned s2 ≡ some (b, s3)
    → extract_char s3 ≡ some (l, s4)
    → extract_unsigned s4 ≡ some (c, s5)
    → extract_char s5 ≡ some (m, s6)
    → extract_unsigned s6 ≡ some (d, s7)
    → read_quad s ≡ some ((a, b, c, d), (k, l, m))
read_quad-of s s1 s2 s3 s4 s5 s6 s7 a b c d k l m e1 e2 e3 e4 e5 e6 e7 =
    ground (arith, e1, e2, e3, e4, e5, e6, e7)

module _ (a b c d : ℕ) (ha : a < 256) (hb : b < 256) (hc : c < 256) (hd : d < 256) where
  abbrev quad_text : Bytes
  quad_text =
      to_string a ++ (b':' ∷ (to_string b ++ (b':' ∷ (to_string c ++ (b':' ∷ to_string d)))))

  read_quad-text : read_quad quad_text ≡ some ((a, b, c, d), (b':', b':', b':'))
  read_quad-text =
      let last = number_next d [] hd refl in
      read_quad-of _ _ _ _ _ _ _ _ a b c d b':' b':' b':' (number_next a _ ha colon_stops)
        (char_next _) (number_next b _ hb colon_stops) (char_next _)
        (number_next c _ hc colon_stops) (char_next _) (rw append-nil at last)

  read_quad-id : (read_quad quad_text >>= quad_id) ≡ some (a * 2 ^ 24 + b * 2 ^ 16 + c * 2 ^ 8 + d)
  read_quad-id = ground (arith, read_quad-text, joined_bytes a b c d hb hc hd)

-- A node id is read back from the text of its four bytes, and from the decimal number.
pub parse_node_id-format_node_id :
    (id : ℕ)
    → id < 2 ^ 32
    → (parse_node_id (format_node_id id) ≡ some id) × (parse_node_id (to_string id) ≡ some id)
unfolding parse_node_id format_node_id
parse_node_id-format_node_id id h =
    let a = id / 2 ^ 24 % 256 in
    let b = id / 2 ^ 16 % 256 in
    let c = id / 2 ^ 8 % 256 in
    let d = id % 256 in
    let read = read_quad-id a b c d (omega arith) (omega arith) (omega arith) (omega arith) in
    let sum : a * 2 ^ 24 + b * 2 ^ 16 + c * 2 ^ 8 + d ≡ id = omega arith in
    (
      rw (has_char-append b':' (to_string a) _) (rw sum at read),
      rw (no_colon id) (str_as-to_string id (omega arith) (2 ^ 32) h),
    )

-- The last `:` of an address is the one before the port.
split_last-append :
    (s t : Bytes) → has_char b':' t ≡ false → split_last (s ++ b':' ∷ t) ≡ some (s, t)
unfolding split_last
split_last-append [] t h = rw (split_last-none t h) refl
split_last-append (c ∷ s) t h = rw (split_last-append s t h) refl

-- A host, whatever characters it has, and a port of 16 bits are read back from the two with `:`
-- between them.
split_host_port-append :
    (host : Bytes) (port : ℕ)
    → port < 2 ^ 16
    → split_host_port (host ++ b':' ∷ to_string port) ≡ some (host, port)
unfolding split_host_port
split_host_port-append host port h = ground (
  arith,
  split_last-append host (to_string port) (no_colon port),
  str_as-to_string port (omega arith) (2 ^ 16) h,
)
