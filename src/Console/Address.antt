-- ===== src/Console/Address.antt =====
-- codec.hpp: node ids and addresses as texts.
pub mod RoundTrip
use bfc_tunnel.Base.{
  ℕ, ◌*◌, ◌/◌, ◌%◌, ◌^◌, Bool, true, false, ◌&&◌, ◌||◌, Option, none, some, ◌>>=◌, List, [], ◌∷◌,
  ◌++◌, ltb, ◌==◌, if◌then◌else◌, bit_or,
}
use bfc_tunnel.Console.Text.{Bytes, to_string, str_as, extract_unsigned, extract_char}

unfoldable pub has_char : ℕ → Bytes → Bool
has_char k [] = false
has_char k (c ∷ s) = c == k || has_char k s

-- Four numbers and the three characters between them, from a stream; what follows is not read.
abbrev pub read_quad : Bytes → Option ((ℕ × ℕ × ℕ × ℕ) × (ℕ × ℕ × ℕ))
read_quad s = do
  (a, s1) ← extract_unsigned s
  (sep1, s2) ← extract_char s1
  (b, s3) ← extract_unsigned s2
  (sep2, s4) ← extract_char s3
  (c, s5) ← extract_unsigned s4
  (sep3, s6) ← extract_char s5
  (d, s7) ← extract_unsigned s6
  some ((a, b, c, d), (sep1, sep2, sep3))

abbrev pub quad_id : (ℕ × ℕ × ℕ × ℕ) × (ℕ × ℕ × ℕ) → Option ℕ
quad_id ((a, b, c, d), (sep1, sep2, sep3)) =
    if sep1 == b':'
      && sep2 == b':'
      && sep3 == b':'
      && ltb a 256
      && ltb b 256
      && ltb c 256
      && ltb d 256
    then some (bit_or (bit_or (bit_or (a * 2 ^ 24) (b * 2 ^ 16)) (c * 2 ^ 8)) d)
    else none

unfoldable pub parse_node_id : Bytes → Option ℕ
unfolding has_char extract_unsigned extract_char str_as
parse_node_id s = if has_char b':' s then read_quad s >>= quad_id else str_as (2 ^ 32) s

unfoldable pub format_node_id : ℕ → Bytes
unfolding to_string
format_node_id id =
    let low = to_string (id / 2 ^ 8 % 256) ++ (b':' ∷ to_string (id % 256)) in
    let rest = to_string (id / 2 ^ 16 % 256) ++ (b':' ∷ low) in
    to_string (id / 2 ^ 24 % 256) ++ (b':' ∷ rest)

-- What stands before the last `:` and behind it: `find_last_of` with both `substr`.
unfoldable pub split_last : Bytes → Option (Bytes × Bytes)
split_last [] = none
split_last (c ∷ s) = elim (split_last s) [
  | some (before, behind) ↦ some (c ∷ before, behind)
  | none ↦ if c == b':' then some ([], s) else none
]

abbrev pub with_port : Bytes → Option ℕ → Option (Bytes × ℕ)
with_port host none = none
with_port host (some port) = some (host, port)

unfoldable pub split_host_port : Bytes → Option (Bytes × ℕ)
unfolding split_last str_as
split_host_port address = do
  (host, port) ← split_last address
  with_port host (str_as (2 ^ 16) port)
