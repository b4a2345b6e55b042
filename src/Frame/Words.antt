-- ===== src/Frame/Words.antt =====
-- frame.hpp: the four-byte words behind the MAC, as arithmetic on the buffer.
use bfc_tunnel.Base.{
  ℕ, ◌+◌, ◌*◌, ◌/◌, ◌%◌, ◌^◌, ◌≤◌, ◌<◌, ◌≡◌, ◌⊎◌, refl, ◌∙◌, bit_or, List, arith, length, get_or,
  set, length-set, get_or-set_self, get_or-set_ne, IsByte, All, get_or-IsByte, set-IsByte,
}
use bfc_tunnel.Base.Bits.{bit_or-shifted}
use bfc_tunnel.Frame.{Frame, read_u32, write_u32}

-- Big-endian.
abbrev pub word_at : List ℕ → ℕ → ℕ
word_at bs o =
    get_or bs o 0 * 2 ^ 24
    + get_or bs (o + 1) 0 * 2 ^ 16
    + get_or bs (o + 2) 0 * 2 ^ 8
    + get_or bs (o + 3) 0

-- What `write_u32` makes of the buffer.
unfoldable pub put_word : List ℕ → ℕ → ℕ → List ℕ
put_word bs o v =
    set
      (set (set (set bs o (v / 2 ^ 24 % 2 ^ 8)) (o + 1) (v / 2 ^ 16 % 2 ^ 8)) (o + 2)
        (v / 2 ^ 8 % 2 ^ 8))
      (o + 3) (v % 2 ^ 8)

pub write_u32-base : (f : Frame) (o v : ℕ) → (write_u32 f o v).base ≡ put_word f.base o v
unfolding write_u32 put_word
write_u32-base f o v = refl

-- The three `|` of `read_u32` join disjoint bytes.
join_bytes :
    (a b c d : ℕ)
    → a < 256
    → b < 256
    → c < 256
    → d < 256
    → bit_or (bit_or (bit_or (a * 2 ^ 24 % 2 ^ 32) (b * 2 ^ 16 % 2 ^ 32)) (c * 2 ^ 8 % 2 ^ 32)) d
      ≡ a * 2 ^ 24 + b * 2 ^ 16 + c * 2 ^ 8 + d
join_bytes a b c d ha hb hc hd =
    rw (fits 24 a (omega arith), fits 16 b (omega arith), fits 8 c (omega arith))
      (rw (below 24 a (a * 2 ^ 24) (b * 2 ^ 16) refl (omega arith)) (
        rw
          (below 16 (a * 2 ^ 8 + b) (a * 2 ^ 24 + b * 2 ^ 16) (c * 2 ^ 8) (omega arith)
            (omega arith))
          (below 8 (a * 2 ^ 16 + b * 2 ^ 8 + c) (a * 2 ^ 24 + b * 2 ^ 16 + c * 2 ^ 8) d
            (omega arith) (omega arith))))
  where
    fits : (k x : ℕ) → x * 2 ^ k < 2 ^ 32 → x * 2 ^ k % 2 ^ 32 ≡ x * 2 ^ k
    fits k x h = omega arith

    below : (k q n r : ℕ) → n ≡ q * 2 ^ k → r < 2 ^ k → bit_or n r ≡ n + r
    below k q n r e h = rw e (bit_or-shifted k q r h)

pub read_u32_lem : (f : Frame) (o : ℕ) → All IsByte f.base → read_u32 f o ≡ word_at f.base o
unfolding read_u32
read_u32_lem f o bytes =
    join_bytes _ _ _ _ (get_or-IsByte f.base o bytes) (get_or-IsByte f.base (o + 1) bytes)
      (get_or-IsByte f.base (o + 2) bytes) (get_or-IsByte f.base (o + 3) bytes)

-- A store outside the word leaves it alone.
pub word_at-set :
    (bs : List ℕ) (i o x : ℕ) → (i < o) ⊎ (o + 4 ≤ i) → word_at (set bs i x) o ≡ word_at bs o
word_at-set bs i o x out = omega (
  arith,
  get_or-set_ne bs i o x 0 (ground arith),
  get_or-set_ne bs i (o + 1) x 0 (ground arith),
  get_or-set_ne bs i (o + 2) x 0 (ground arith),
  get_or-set_ne bs i (o + 3) x 0 (ground arith),
)

module _ (bs : List ℕ) (o v : ℕ) where
  pub length-put_word : length (put_word bs o v) ≡ length bs
  unfolding put_word
  length-put_word = simp length-set

  pub put_word-IsByte : All IsByte bs → All IsByte (put_word bs o v)
  unfolding put_word
  put_word-IsByte bytes =
      set-IsByte _ _ _
        (set-IsByte _ _ _ (set-IsByte _ _ _ (set-IsByte bs o _ bytes (omega arith)) (omega arith))
          (omega arith))
        (omega arith)

  -- A byte outside the written word.
  pub get_or-put_word :
      (j : ℕ) → (j < o) ⊎ (o + 4 ≤ j) → get_or (put_word bs o v) j 0 ≡ get_or bs j 0
  unfolding put_word
  get_or-put_word j out =
      get_or-set_ne _ (o + 3) j _ 0 (ground arith)
      ∙ get_or-set_ne _ (o + 2) j _ 0 (ground arith)
      ∙ get_or-set_ne _ (o + 1) j _ 0 (ground arith)
      ∙ get_or-set_ne bs o j _ 0 (ground arith)

  -- Another word.
  pub word_at-put_word :
      (p : ℕ) → (p + 4 ≤ o) ⊎ (o + 4 ≤ p) → word_at (put_word bs o v) p ≡ word_at bs p
  word_at-put_word p out = omega (
    arith,
    get_or-put_word p (ground arith),
    get_or-put_word (p + 1) (ground arith),
    get_or-put_word (p + 2) (ground arith),
    get_or-put_word (p + 3) (ground arith),
  )

  -- The written word itself.
  pub word_at-put_word_self : o + 3 < length bs → v < 2 ^ 32 → word_at (put_word bs o v) o ≡ v
  unfolding put_word
  word_at-put_word_self inside small = omega (arith, byte0, byte1, byte2, byte3)
    where
      s0 : List ℕ
      s0 = set bs o (v / 2 ^ 24 % 2 ^ 8)

      s1 : List ℕ
      s1 = set s0 (o + 1) (v / 2 ^ 16 % 2 ^ 8)

      s2 : List ℕ
      s2 = set s1 (o + 2) (v / 2 ^ 8 % 2 ^ 8)

      len0 : length s0 ≡ length bs
      len0 = length-set bs o _

      len1 : length s1 ≡ length bs
      len1 = length-set s0 (o + 1) _ ∙ len0

      len2 : length s2 ≡ length bs
      len2 = length-set s1 (o + 2) _ ∙ len1

      byte0 : get_or (set s2 (o + 3) (v % 2 ^ 8)) o 0 ≡ v / 2 ^ 24 % 2 ^ 8
      byte0 =
          get_or-set_ne s2 (o + 3) o _ 0 (omega arith)
          ∙ get_or-set_ne s1 (o + 2) o _ 0 (omega arith)
          ∙ get_or-set_ne s0 (o + 1) o _ 0 (omega arith)
          ∙ get_or-set_self bs o _ 0 (omega arith)

      byte1 : get_or (set s2 (o + 3) (v % 2 ^ 8)) (o + 1) 0 ≡ v / 2 ^ 16 % 2 ^ 8
      byte1 =
          get_or-set_ne s2 (o + 3) (o + 1) _ 0 (omega arith)
          ∙ get_or-set_ne s1 (o + 2) (o + 1) _ 0 (omega arith)
          ∙ get_or-set_self s0 (o + 1) _ 0 (omega (arith, len0))

      byte2 : get_or (set s2 (o + 3) (v % 2 ^ 8)) (o + 2) 0 ≡ v / 2 ^ 8 % 2 ^ 8
      byte2 =
          get_or-set_ne s2 (o + 3) (o + 2) _ 0 (omega arith)
          ∙ get_or-set_self s1 (o + 2) _ 0 (omega (arith, len1))

      byte3 : get_or (set s2 (o + 3) (v % 2 ^ 8)) (o + 3) 0 ≡ v % 2 ^ 8
      byte3 = get_or-set_self s2 (o + 3) _ 0 (omega (arith, len2))
