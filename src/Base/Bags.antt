-- ===== src/Base/Bags.antt =====
-- Lists up to the order of their elements: how many elements pass a test.
use Prim.Native.Nat.{ℕ, ◌+◌, ◌≤◌}
use mathlib.Core.Path.{◌≡◌, refl}
use mathlib.Core.Bool.{Bool, true, not, ◌&&◌}
use mathlib.Core.Logic.{inl, inr}
use mathlib.Core.List.{List, [], ◌∷◌, ◌++◌, map}
use native.Mathlib.Omega.{arith}
use bfc_tunnel.Base.Tests.{if◌then◌else◌, Bool-cases}

abbrev pub one_if : Bool → ℕ
one_if b = if b then 1 else 0

module _ {ℓ} {A : Type ℓ} where
  abbrev pub count : (A → Bool) → List A → ℕ
  count p [] = 0
  count p (x ∷ xs) = one_if (p x) + count p xs

  -- The same elements, each as often.
  abbrev pub SameItems : List A → List A → Type ℓ
  SameItems xs ys = (p : A → Bool) → count p xs ≡ count p ys

  -- Every test that the element passes is passed by some element of the list.
  abbrev pub Occurs : A → List A → Type ℓ
  Occurs x xs = (p : A → Bool) → p x ≡ true → 1 ≤ count p xs

  abbrev pub both : (A → Bool) → (A → Bool) → A → Bool
  both p q x = p x && q x

  abbrev pub but : (A → Bool) → (A → Bool) → A → Bool
  but p q x = p x && not (q x)

  pub count-append : (p : A → Bool) (xs ys : List A) → count p (xs ++ ys) ≡ count p xs + count p ys
  count-append p [] ys = omega arith
  count-append p (x ∷ xs) ys = omega (arith, count-append p xs ys)

  -- The elements that pass `p` are split by a second test.
  pub count-split :
      (p q : A → Bool) (xs : List A) → count p xs ≡ count (both p q) xs + count (but p q) xs
  count-split p q [] = omega arith
  count-split p q (x ∷ xs) = ground (arith, count-split p q xs)

  pub count-both_le : (p q : A → Bool) (xs : List A) → count (both p q) xs ≤ count q xs
  count-both_le p q [] = omega arith
  count-both_le p q (x ∷ xs) = ground (arith, count-both_le p q xs)

  pub count_mono :
      (p q : A → Bool) (xs : List A) → ((x : A) → p x ≡ true → q x ≡ true) → count p xs ≤ count q xs
  count_mono p q [] h = omega arith
  count_mono p q (x ∷ xs) h = ground (arith, count_mono p q xs h, h x)

  pub count-ext : (p q : A → Bool) (xs : List A) → ((x : A) → p x ≡ q x) → count p xs ≡ count q xs
  count-ext p q [] h = refl
  count-ext p q (x ∷ xs) h = ground (arith, count-ext p q xs h, h x)

  -- Where one element passes `q`, it decides whether one passes both.
  pub count_unique :
      (p q : A → Bool) (xs : List A) (x : A)
      → Occurs x xs
      → q x ≡ true
      → count q xs ≤ 1
      → count (both p q) xs ≡ one_if (p x)
  count_unique p q xs x occurs hit once = elim (Bool-cases (p x)) [
    | inl kept ↦
        rw kept (omega (arith, count-both_le p q xs, occurs (both p q) (rw (kept, hit) refl)))
    | inr lost ↦
        let other = occurs (but q p) (rw (lost, hit) refl) in
        let swap = count-ext (both p q) (both q p) xs (λ y. ground arith) in
        rw lost (omega (arith, swap, other, count-split q p xs))
  ]

pub count-map {ℓ κ} :
    {A : Type ℓ} {B : Type κ} (f : A → B) (p : B → Bool) (xs : List A)
    → count p (map f xs) ≡ count (λ x. p (f x)) xs
count-map f p [] = refl
count-map f p (x ∷ xs) = omega (arith, count-map f p xs)
