-- ===== src/Console/Base64.antt =====
-- codec.hpp: base64_encode and base64_decode.
-- A mask of the low bits is a remainder. The integer `val` of the decoder wraps at 32 bits; `bits` is
-- its `valb + 8`, the number of bits of `val` that are not written yet.
pub mod RoundTrip
use bfc_tunnel.Base.{
  ℕ, ◌+◌, ◌-◌, ◌*◌, ◌/◌, ◌%◌, ◌^◌, Bool, true, false, ◌&&◌, ◌||◌, Option, none, some, List, [], ◌∷◌,
  ◌++◌, leb, ◌==◌, if◌then◌else◌, get_or, bit_or,
}
use bfc_tunnel.Console.Text.{Bytes, codes, is_space}

abbrev pub k_tab : Bytes
k_tab = codes "ABCDEFGHIJKLMNOPQRSTUVWXYZabcdefghijklmnopqrstuvwxyz0123456789+/"

unfoldable pub tab_at : ℕ → ℕ
tab_at i = get_or k_tab i 0

unfoldable pub base64_encode : Bytes → Bytes
unfolding tab_at
base64_encode [] = []
base64_encode (a ∷ []) =
    let n = a * 2 ^ 16 in tab_at (n / 2 ^ 18 % 64) ∷ tab_at (n / 2 ^ 12 % 64) ∷ b'=' ∷ b'=' ∷ []
base64_encode (a ∷ b ∷ []) =
    let n = bit_or (a * 2 ^ 16) (b * 2 ^ 8) in
    tab_at (n / 2 ^ 18 % 64) ∷ tab_at (n / 2 ^ 12 % 64) ∷ tab_at (n / 2 ^ 6 % 64) ∷ b'=' ∷ []
base64_encode (a ∷ b ∷ c ∷ rest) =
    let n = bit_or (bit_or (a * 2 ^ 16) (b * 2 ^ 8)) c in
    tab_at (n / 2 ^ 18 % 64)
    ∷ tab_at (n / 2 ^ 12 % 64)
    ∷ tab_at (n / 2 ^ 6 % 64)
    ∷ tab_at (n % 64)
    ∷ base64_encode rest

-- The answer -1 is `none`.
unfoldable pub b64_val : ℕ → Option ℕ
b64_val c =
    if leb b'A' c && leb c b'Z'
    then some (c - b'A')
    else if leb b'a' c && leb c b'z'
    then some (c - b'a' + 26)
    else if leb b'0' c && leb c b'9'
    then some (c - b'0' + 52)
    else if c == b'+'
    then some 62
    else if c == b'/'
    then some 63
    else none

-- The loop of `base64_decode`.
unfoldable pub decode_from : Bytes → ℕ → ℕ → Bytes → Option Bytes
unfolding b64_val is_space
decode_from [] val bits out = some out
decode_from (c ∷ s) val bits out = if c == b'=' || is_space c then some out else elim (b64_val c) [
  | none ↦ none
  | some d ↦
      let next = (val * 64 + d) % 2 ^ 32 in
      let left = bits + 6 - 8 in
      let pushed = decode_from s next left (out ++ next / 2 ^ left % 256 ∷ []) in
      let kept = decode_from s next (bits + 6) out in if leb 8 (bits + 6) then pushed else kept
]

unfoldable pub base64_decode : Bytes → Option Bytes
unfolding decode_from
base64_decode s = decode_from s 0 0 []
