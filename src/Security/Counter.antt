-- ===== src/Security/Counter.antt =====
-- key_utils.cpp, ctr_xor_inplace: the block counter is a big-endian number that goes up by one.
use bfc_tunnel.Base.{
  ℕ, zero, suc, ◌+◌, ◌*◌, ◌%◌, ◌^◌, ◌≤◌, ◌<◌, ◌≡◌, inl, inr, refl, ap, ◌∙◌, dec_le, List, arith,
  length, get_or, set, length-set, get_or-set_self, get_or-set_ne, IsByte, All, get_or-IsByte,
  set-IsByte, ◌==◌, Bool-cases, true, false,
}
use bfc_tunnel.Security.{increment_at, increment}
use native.Mathlib.Nat.{pow-suc, mod-eq_of_lt, mod_self}

-- The number that the first `i` bytes stand for.
abbrev pub number : ℕ → List ℕ → ℕ
number zero bs = 0
number (suc i) bs = number i bs * 256 + get_or bs i 0

number-set : (i j : ℕ) (bs : List ℕ) (v : ℕ) → i ≤ j → number i (set bs j v) ≡ number i bs
number-set zero j bs v h = refl
number-set (suc i) j bs v h =
    omega (arith, number-set i j bs v (omega arith), get_or-set_ne bs j i v 0 (omega arith))

-- Bytes behind the first `i` stay.
increment_at-behind :
    (i j : ℕ) (bs : List ℕ) → i ≤ j → get_or (increment_at i bs) j 0 ≡ get_or bs j 0
unfolding increment_at
increment_at-behind zero j bs h = refl
increment_at-behind (suc i) j bs h =
    let byte = (get_or bs i 0 + 1) % 2 ^ 8 in
    ground (
      arith,
      get_or-set_ne bs i j byte 0 (omega arith),
      increment_at-behind i j (set bs i byte) (omega arith),
    )

number-lt : (i : ℕ) (bs : List ℕ) → All IsByte bs → number i bs < 256 ^ i
number-lt zero bs h = omega arith
number-lt (suc i) bs h = omega (arith, number-lt i bs h, get_or-IsByte bs i h, pow-suc 256 i)

-- The last of `i + 1` bytes overflows or does not.
carry_out : (n m k : ℕ) → n < m → k ≡ m * 256 → (n + 1) % m * 256 ≡ (n * 256 + 255 + 1) % k
carry_out n m k h e = elim (dec_le (n + 2) m) [
  | yes room ↦
      let small : n + 1 < m = omega arith in
      let whole : n * 256 + 255 + 1 < k = omega arith in
      rw (mod-eq_of_lt small, mod-eq_of_lt whole) (omega arith)
  | no full ↦
      let last : n + 1 ≡ m = omega arith in
      let whole : n * 256 + 255 + 1 ≡ k = omega arith in
      rw (last, whole) (omega (arith, mod_self m, mod_self k))
]

no_carry : (n b m k : ℕ) → n < m → b < 255 → k ≡ m * 256 → n * 256 + (b + 1) ≡ (n * 256 + b + 1) % k
no_carry n b m k h small e =
    let whole : n * 256 + b + 1 < k = omega arith in rw (mod-eq_of_lt whole) (omega arith)

number-increment_at :
    (i : ℕ) (bs : List ℕ)
    → All IsByte bs
    → i ≤ length bs
    → number i (increment_at i bs) ≡ (number i bs + 1) % 256 ^ i
unfolding increment_at
number-increment_at zero bs h inside = omega arith
number-increment_at (suc i) bs h inside = elim (Bool-cases (byte == 0)) [
  | inl wraps ↦
      let ih =
        number-increment_at i (set bs i byte) (set-IsByte bs i byte h (omega arith))
          (omega (arith, length-set bs i byte)) in
      rw wraps (
        omega (
          arith,
          ap (λ (t : ℕ). t * 256) (ih ∙ carry),
          ap (λ (t : ℕ). (number i bs * 256 + t + 1) % 256 ^ suc i) (last wraps),
          carry_out (number i bs) (256 ^ i) (256 ^ suc i) (number-lt i bs h) scale,
          increment_at-behind i i (set bs i byte) (omega arith),
          get_or-set_self bs i byte 0 inside,
          zero_byte wraps,
        ))
  | inr stays ↦ rw stays (
      omega (
        arith,
        number-set i i bs byte (omega arith),
        get_or-set_self bs i byte 0 inside,
        not_last stays,
        no_carry (number i bs) (get_or bs i 0) (256 ^ i) (256 ^ suc i) (number-lt i bs h)
            (omega (arith, not_last stays)) scale,
      ))
]
  where
    byte : ℕ
    byte = (get_or bs i 0 + 1) % 2 ^ 8

    bounded : get_or bs i 0 < 256
    bounded = get_or-IsByte bs i h

    scale : 256 ^ suc i ≡ 256 ^ i * 256
    scale = omega (arith, pow-suc 256 i)

    last : (byte == 0) ≡ true → get_or bs i 0 ≡ 255
    last e = ground (arith, bounded)

    zero_byte : (byte == 0) ≡ true → byte ≡ 0
    zero_byte e = ground arith

    not_last : (byte == 0) ≡ false → (get_or bs i 0 < 255) × (byte ≡ get_or bs i 0 + 1)
    not_last e = ground (arith, bounded)

    carry : (number i (set bs i byte) + 1) % 256 ^ i ≡ (number i bs + 1) % 256 ^ i
    carry = ap (λ t. (t + 1) % 256 ^ i) (number-set i i bs byte (omega arith))

-- A counter of sixteen bytes is incremented modulo 2 ^ 128, over all sixteen bytes.
pub number-increment :
    (counter : List ℕ)
    → All IsByte counter
    → length counter ≡ 16
    → number 16 (increment counter) ≡ (number 16 counter + 1) % 2 ^ 128
unfolding increment
number-increment counter h len = number-increment_at 16 counter h (omega arith)
