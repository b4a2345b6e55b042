-- ===== src/Base/Bits.antt =====
-- The laws of `|` and `^` on numbers that the wire formats need: a byte joined below a shifted
-- word is a sum, and two equal masks cancel.
use Prim.Native.Nat.{
  ℕ, zero, suc, ◌+◌, ◌*◌, ◌/◌, ◌%◌, ◌^◌, ◌≤◌, ◌<◌, max, bit_or, bit_xor, digits, differ,
  bit_or-bitwise, bit_xor-bitwise,
}
use mathlib.Core.Path.{◌≡◌, refl, ap}
use native.Mathlib.Omega.{arith}
use native.Mathlib.Nat.{pow-suc, le_refl}

-- A digit recursion does not see fuel beyond its first number.
module _ (f : ℕ → ℕ → ℕ) where
  abbrev keep_digits : ℕ → ℕ → ℕ → ℕ
  keep_digits = digits (λ b. b) f

  spare_fuel : (k l m b : ℕ) → m ≤ k → m ≤ l → keep_digits k m b ≡ keep_digits l m b
  spare_fuel zero zero m b p q = refl
  spare_fuel (suc k) zero zero b p q = refl
  spare_fuel (suc k) zero (suc m) b p q = elim q [ ]
  spare_fuel zero (suc l) zero b p q = refl
  spare_fuel zero (suc l) (suc m) b p q = elim p [ ]
  spare_fuel (suc k) (suc l) zero b p q = refl
  spare_fuel (suc k) (suc l) (suc m) b p q =
      rw (spare_fuel k l (suc m / 2) (b / 2) (omega arith) (omega arith))

  low_digit :
      (m b : ℕ)
      → keep_digits (suc m) (suc m) b
        ≡ keep_digits (suc m / 2) (suc m / 2) (b / 2) * 2 + f (suc m % 2) (b % 2)
  low_digit m b =
      omega (arith, spare_fuel m (suc m / 2) (suc m / 2) (b / 2) (omega arith) (le_refl _))

bit_or_digit : (a b : ℕ) → bit_or a b ≡ bit_or (a / 2) (b / 2) * 2 + max (a % 2) (b % 2)
bit_or_digit zero b = simp bit_or-bitwise (omega arith)
bit_or_digit (suc a) b = simp bit_or-bitwise (low_digit max a b)

bit_xor_digit : (a b : ℕ) → bit_xor a b ≡ bit_xor (a / 2) (b / 2) * 2 + differ (a % 2) (b % 2)
bit_xor_digit zero b = simp bit_xor-bitwise (omega arith)
bit_xor_digit (suc a) b = simp bit_xor-bitwise (low_digit differ a b)

bit_or-zero : (n a : ℕ) → a < n → bit_or a 0 ≡ a
bit_or-zero zero a h = elim h [ ]
bit_or-zero (suc n) zero h = refl
bit_or-zero (suc n) (suc a) h =
    omega (arith, bit_or_digit (suc a) 0, bit_or-zero n (suc a / 2) (omega arith))

shift_suc : (k q : ℕ) → q * 2 ^ suc k ≡ 2 * (q * 2 ^ k)
shift_suc k q = omega (arith, ap (λ (t : ℕ). q * t) (pow-suc 2 k))

-- `(q << k) | r` is a sum when `r` fits in `k` bits.
pub bit_or-shifted : (k q r : ℕ) → r < 2 ^ k → bit_or (q * 2 ^ k) r ≡ q * 2 ^ k + r
bit_or-shifted zero q r h = ground (arith, bit_or-zero (suc q) q)
bit_or-shifted (suc k) q r h = ground (
  arith,
  shift_suc k q,
  pow-suc 2 k,
  bit_or_digit (q * 2 ^ suc k) r,
  bit_or-shifted k q (r / 2) (omega (arith, pow-suc 2 k)),
)

differ_twice : (x y : ℕ) → x < 2 → y < 2 → (differ x y < 2) × (differ (differ x y) y ≡ x)
differ_twice zero zero p q = (omega arith, refl)
differ_twice zero (suc zero) p q = (omega arith, refl)
differ_twice zero (suc (suc y)) p q = absurd (omega arith)
differ_twice (suc zero) zero p q = (omega arith, refl)
differ_twice (suc zero) (suc zero) p q = (omega arith, refl)
differ_twice (suc zero) (suc (suc y)) p q = absurd (omega arith)
differ_twice (suc (suc x)) y p q = absurd (omega arith)

-- A mask that is applied twice cancels, and the masked number needs no more bits.
pub bit_xor_twice :
    (n a b : ℕ) → a < 2 ^ n → b < 2 ^ n → (bit_xor a b < 2 ^ n) × (bit_xor (bit_xor a b) b ≡ a)
bit_xor_twice zero zero zero p q = (omega arith, refl)
bit_xor_twice zero zero (suc b) p q = absurd (omega arith)
bit_xor_twice zero (suc a) b p q = absurd (omega arith)
bit_xor_twice (suc n) a b p q = ground (
  arith,
  pow-suc 2 n,
  bit_xor_digit a b,
  bit_xor_digit (bit_xor a b) b,
  differ_twice (a % 2) (b % 2) (omega arith) (omega arith),
  bit_xor_twice n (a / 2) (b / 2) (omega (arith, pow-suc 2 n)) (omega (arith, pow-suc 2 n)),
)
