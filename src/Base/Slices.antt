-- ===== src/Base/Slices.antt =====
-- A run of elements inside a list: reading it, and writing over it in place.
use Prim.Native.Nat.{ℕ, zero, suc, ◌+◌, ◌-◌, ◌≤◌, ◌<◌}
use mathlib.Core.Path.{◌≡◌, refl, sym, ap, ◌∙◌}
use mathlib.Core.Logic.{◌⊎◌, inr}
use mathlib.Core.List.{List, [], ◌∷◌}
use native.Mathlib.Omega.{arith}
use bfc_tunnel.Base.Lists.{length, get_or, take, drop, All, length-take, length-drop}

module _ {ℓ} {A : Type ℓ} where
  -- `memcpy(&xs[o], ys)`; what would fall behind the end is dropped.
  unfoldable pub overwrite : List A → ℕ → List A → List A
  overwrite [] o ys = []
  overwrite (x ∷ xs) zero [] = x ∷ xs
  overwrite (x ∷ xs) zero (y ∷ ys) = y ∷ overwrite xs zero ys
  overwrite (x ∷ xs) (suc o) ys = x ∷ overwrite xs o ys

  -- The `n` elements from place `o` on.
  abbrev pub slice : ℕ → ℕ → List A → List A
  slice o n xs = take n (drop o xs)

  pub length-overwrite :
      (xs : List A) (o : ℕ) (ys : List A) → length (overwrite xs o ys) ≡ length xs
  unfolding overwrite
  length-overwrite [] o ys = refl
  length-overwrite (x ∷ xs) zero [] = refl
  length-overwrite (x ∷ xs) zero (y ∷ ys) = ap suc (length-overwrite xs zero ys)
  length-overwrite (x ∷ xs) (suc o) ys = ap suc (length-overwrite xs o ys)

  -- What stands before and behind the written run.
  pub take-overwrite : (xs : List A) (o : ℕ) (ys : List A) → take o (overwrite xs o ys) ≡ take o xs
  unfolding overwrite
  take-overwrite [] o ys = refl
  take-overwrite (x ∷ xs) zero ys = refl
  take-overwrite (x ∷ xs) (suc o) ys = ap (◌∷◌ x) (take-overwrite xs o ys)

  pub drop-overwrite :
      (xs : List A) (o k : ℕ) (ys : List A)
      → o + length ys ≤ k
      → drop k (overwrite xs o ys) ≡ drop k xs
  unfolding overwrite
  drop-overwrite [] o k ys h = refl
  drop-overwrite (x ∷ xs) zero k [] h = refl
  drop-overwrite (x ∷ xs) zero zero (y ∷ ys) h = absurd (omega arith)
  drop-overwrite (x ∷ xs) zero (suc k) (y ∷ ys) h = drop-overwrite xs zero k ys (omega arith)
  drop-overwrite (x ∷ xs) (suc o) zero ys h = absurd (omega arith)
  drop-overwrite (x ∷ xs) (suc o) (suc k) ys h = drop-overwrite xs o k ys (omega arith)

  pub get_or-overwrite :
      (xs : List A) (o j : ℕ) (ys : List A) (d : A)
      → (j < o) ⊎ (o + length ys ≤ j)
      → get_or (overwrite xs o ys) j d ≡ get_or xs j d
  unfolding overwrite
  get_or-overwrite [] o j ys d h = refl
  get_or-overwrite (x ∷ xs) zero j [] d h = refl
  get_or-overwrite (x ∷ xs) zero zero (y ∷ ys) d h = absurd (omega arith)
  get_or-overwrite (x ∷ xs) zero (suc j) (y ∷ ys) d h =
      get_or-overwrite xs zero j ys d (inr (omega arith))
  get_or-overwrite (x ∷ xs) (suc o) zero ys d h = refl
  get_or-overwrite (x ∷ xs) (suc o) (suc j) ys d h = get_or-overwrite xs o j ys d (ground arith)

  -- The written run itself.
  pub slice-overwrite_self :
      (xs : List A) (o : ℕ) (ys : List A)
      → o + length ys ≤ length xs
      → slice o (length ys) (overwrite xs o ys) ≡ ys
  unfolding overwrite
  slice-overwrite_self [] zero [] h = refl
  slice-overwrite_self [] zero (y ∷ ys) h = absurd (omega arith)
  slice-overwrite_self [] (suc o) ys h = absurd (omega arith)
  slice-overwrite_self (x ∷ xs) zero [] h = refl
  slice-overwrite_self (x ∷ xs) zero (y ∷ ys) h =
      ap (◌∷◌ y) (slice-overwrite_self xs zero ys (omega arith))
  slice-overwrite_self (x ∷ xs) (suc o) ys h = slice-overwrite_self xs o ys (omega arith)

  -- Another run, behind or before the written one.
  pub slice-overwrite_behind :
      (xs : List A) (o p n : ℕ) (ys : List A)
      → o + length ys ≤ p
      → slice p n (overwrite xs o ys) ≡ slice p n xs
  slice-overwrite_behind xs o p n ys h = ap (take n) (drop-overwrite xs o p ys h)

  pub slice-overwrite_before :
      (xs : List A) (o p n : ℕ) (ys : List A)
      → p + n ≤ o
      → slice p n (overwrite xs o ys) ≡ slice p n xs
  unfolding overwrite
  slice-overwrite_before [] o p n ys h = refl
  slice-overwrite_before (x ∷ xs) zero p zero ys h = refl
  slice-overwrite_before (x ∷ xs) zero p (suc n) ys h = absurd (omega arith)
  slice-overwrite_before (x ∷ xs) (suc o) zero zero ys h = refl
  slice-overwrite_before (x ∷ xs) (suc o) zero (suc n) ys h =
      ap (◌∷◌ x) (slice-overwrite_before xs o zero n ys (omega arith))
  slice-overwrite_before (x ∷ xs) (suc o) (suc p) n ys h =
      slice-overwrite_before xs o p n ys (omega arith)

  -- A run of a longer list's front.
  pub slice-take : (xs : List A) (o n k : ℕ) → o + n ≤ k → slice o n (take k xs) ≡ slice o n xs
  slice-take xs zero zero k h = refl
  slice-take [] zero (suc n) zero h = refl
  slice-take [] zero (suc n) (suc k) h = refl
  slice-take (x ∷ xs) zero (suc n) zero h = absurd (omega arith)
  slice-take (x ∷ xs) zero (suc n) (suc k) h = ap (◌∷◌ x) (slice-take xs zero n k (omega arith))
  slice-take xs (suc o) n zero h = absurd (omega arith)
  slice-take [] (suc o) n (suc k) h = refl
  slice-take (x ∷ xs) (suc o) n (suc k) h = slice-take xs o n k (omega arith)

  take-nil : (n : ℕ) → take {A = A} n [] ≡ []
  take-nil zero = refl
  take-nil (suc n) = refl

  pub drop-take : (xs : List A) (o k : ℕ) → drop o (take k xs) ≡ take (k - o) (drop o xs)
  drop-take xs zero k = ap (λ n. take n xs) (omega arith)
  drop-take xs (suc o) zero =
      ap (λ n. take n (drop (suc o) xs)) (let e : ◌≡◌ {A = ℕ} 0 (0 - suc o) = omega arith in e)
  drop-take [] (suc o) (suc k) = sym (take-nil (suc k - suc o))
  drop-take (x ∷ xs) (suc o) (suc k) = drop-take xs o k ∙ ap (λ n. take n (drop o xs)) (omega arith)

  pub length-slice : (xs : List A) (o n : ℕ) → o + n ≤ length xs → length (slice o n xs) ≡ n
  length-slice xs o n h = omega (arith, length-take n (drop o xs), length-drop o xs)

  pub take-All {κ} : (P : A → Type κ) (n : ℕ) (xs : List A) → All P xs → All P (take n xs)
  take-All P zero xs h = tt
  take-All P (suc n) [] h = tt
  take-All P (suc n) (x ∷ xs) h = (h.0, take-All P n xs h.1)

  pub drop-All {κ} : (P : A → Type κ) (n : ℕ) (xs : List A) → All P xs → All P (drop n xs)
  drop-All P zero xs h = h
  drop-All P (suc n) [] h = tt
  drop-All P (suc n) (x ∷ xs) h = drop-All P n xs h.1

  pub overwrite-All {κ} :
      (P : A → Type κ) (xs : List A) (o : ℕ) (ys : List A)
      → All P xs
      → All P ys
      → All P (overwrite xs o ys)
  unfolding overwrite
  overwrite-All P [] o ys h k = tt
  overwrite-All P (x ∷ xs) zero [] h k = h
  overwrite-All P (x ∷ xs) zero (y ∷ ys) h k = (k.0, overwrite-All P xs zero ys h.1 k.1)
  overwrite-All P (x ∷ xs) (suc o) ys h k = (h.0, overwrite-All P xs o ys h.1 k)

module _ {ℓ} {A : Type ℓ} where
  pub overwrite-nil : (xs : List A) (o : ℕ) → overwrite xs o [] ≡ xs
  unfolding overwrite
  overwrite-nil [] o = refl
  overwrite-nil (x ∷ xs) zero = refl
  overwrite-nil (x ∷ xs) (suc o) = ap (◌∷◌ x) (overwrite-nil xs o)

  -- Writing a run over itself changes nothing.
  pub overwrite-slice : (xs : List A) (o n : ℕ) → overwrite xs o (slice o n xs) ≡ xs
  unfolding overwrite
  overwrite-slice [] o n = refl
  overwrite-slice (x ∷ xs) zero zero = refl
  overwrite-slice (x ∷ xs) zero (suc n) = ap (◌∷◌ x) (overwrite-slice xs zero n)
  overwrite-slice (x ∷ xs) (suc o) n = ap (◌∷◌ x) (overwrite-slice xs o n)

  pub take_all : (n : ℕ) (xs : List A) → length xs ≤ n → take n xs ≡ xs
  take_all zero [] h = refl
  take_all zero (x ∷ xs) h = absurd (omega arith)
  take_all (suc n) [] h = refl
  take_all (suc n) (x ∷ xs) h = ap (◌∷◌ x) (take_all n xs (omega arith))
