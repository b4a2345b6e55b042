-- ===== src/Topology/Counting.antt =====
-- node.cpp: how many elements remain after `std::remove_if` and after erasing one element.
use bfc_tunnel.Base.{
  ◌+◌, ◌≡◌, refl, Bool, true, some, List, [], ◌∷◌, ◌++◌, arith, inl, inr, Bool-cases,
}
use bfc_tunnel.Base.Bags.{count, one_if, but, Occurs, count-append}
use bfc_tunnel.Network.{find_if, erase_if, remove_if}
use mathlib.Core.Option.{some-injective}

module _ {ℓ} {A : Type ℓ} where
  pub count-remove_if :
      (p q : A → Bool) (xs : List A) → count p (remove_if q xs) ≡ count (but p q) xs
  unfolding remove_if
  count-remove_if p q [] = refl
  count-remove_if p q (x ∷ xs) = ground (arith, count-remove_if p q xs)

  pub count-append_one :
      (p : A → Bool) (xs : List A) (x : A) → count p (xs ++ x ∷ []) ≡ count p xs + one_if (p x)
  count-append_one p xs x = omega (arith, count-append p xs (x ∷ []))

  -- The element that is found is in the list, and passes the test.
  pub found-passes : (q : A → Bool) (xs : List A) (x : A) → find_if q xs ≡ some x → q x ≡ true
  unfolding find_if
  found-passes q [] x e = absurd (ground arith)
  found-passes q (y ∷ ys) x e = elim (Bool-cases (q y)) [
    | inl here ↦ let same : y ≡ x = some-injective y x (ground (arith, e)) in rw same at here
    | inr on ↦ found-passes q ys x (ground (arith, e))
  ]

  pub count-erase_if :
      (p q : A → Bool) (xs : List A) (x : A)
      → find_if q xs ≡ some x
      → count p xs ≡ count p (erase_if q xs) + one_if (p x)
  unfolding find_if erase_if
  count-erase_if p q [] x e = absurd (ground arith)
  count-erase_if p q (y ∷ ys) x e = elim (Bool-cases (q y)) [
    | inl here ↦
        let same : y ≡ x = some-injective y x (ground (arith, e)) in rw (here, same) (omega arith)
    | inr on ↦ let rest = count-erase_if p q ys x (ground (arith, e)) in rw on (omega (arith, rest))
  ]

  pub found-Occurs : (q : A → Bool) (xs : List A) (x : A) → find_if q xs ≡ some x → Occurs x xs
  found-Occurs q xs x e p hit = ground (arith, count-erase_if p q xs x e, hit)
