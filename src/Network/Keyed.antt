-- ===== src/Network/Keyed.antt =====
-- Lists whose elements are told apart by a number: membership, distinct numbers, finding, erasing.
use bfc_tunnel.Base.{
  ℕ, ◌≡◌, ◌≢◌, refl, sym, Bool, true, false, none, some, List, [], ◌∷◌, ◌++◌, map, arith, ◌==◌,
  Bool-cases, inl, inr,
}
use mathlib.Core.Option.{some-injective}
use bfc_tunnel.Network.{find_if, erase_if, remove_if, is_member}

abbrev pub Distinct : List ℕ → Type 0
Distinct [] = Unit
Distinct (x ∷ xs) = (is_member x xs ≡ false) × Distinct xs

pub is_member-append :
    (n x : ℕ) (xs : List ℕ) → is_member n xs ≡ false → x ≢ n → is_member n (xs ++ x ∷ []) ≡ false
unfolding is_member
is_member-append n x [] h ne = ground arith
is_member-append n x (y ∷ ys) h ne = ground (arith, is_member-append n x ys)

pub Distinct-append :
    (x : ℕ) (xs : List ℕ) → Distinct xs → is_member x xs ≡ false → Distinct (xs ++ x ∷ [])
unfolding is_member
Distinct-append x [] d h = (refl, tt)
Distinct-append x (y ∷ ys) d h =
    (is_member-append y x ys d.0 (ground arith), Distinct-append x ys d.1 (ground arith))

module _ {ℓ} {A : Type ℓ} (k : A → ℕ) where
  pub map-append_one : (xs : List A) (x : A) → map k (xs ++ x ∷ []) ≡ map k xs ++ k x ∷ []
  map-append_one [] x = refl
  map-append_one (y ∷ ys) x = rw (map-append_one ys x) refl

  module _ (p : A → Bool) where
    pub is_member-erase_if :
        (n : ℕ) (xs : List A)
        → is_member n (map k xs) ≡ false
        → is_member n (map k (erase_if p xs)) ≡ false
    unfolding is_member erase_if
    is_member-erase_if n [] h = refl
    is_member-erase_if n (x ∷ xs) h = ground (arith, is_member-erase_if n xs)

    pub Distinct-erase_if : (xs : List A) → Distinct (map k xs) → Distinct (map k (erase_if p xs))
    unfolding erase_if
    Distinct-erase_if [] d = tt
    Distinct-erase_if (x ∷ xs) d = elim (Bool-cases (p x)) [
      | inl gone ↦ rw gone d.1
      | inr kept ↦ rw kept (is_member-erase_if (k x) xs d.0, Distinct-erase_if xs d.1)
    ]

    pub is_member-remove_if :
        (n : ℕ) (xs : List A)
        → is_member n (map k xs) ≡ false
        → is_member n (map k (remove_if p xs)) ≡ false
    unfolding is_member remove_if
    is_member-remove_if n [] h = refl
    is_member-remove_if n (x ∷ xs) h = ground (arith, is_member-remove_if n xs)

    pub Distinct-remove_if : (xs : List A) → Distinct (map k xs) → Distinct (map k (remove_if p xs))
    unfolding remove_if
    Distinct-remove_if [] d = tt
    Distinct-remove_if (x ∷ xs) d = elim (Bool-cases (p x)) [
      | inl gone ↦ rw gone (Distinct-remove_if xs d.1)
      | inr kept ↦ rw kept (is_member-remove_if (k x) xs d.0, Distinct-remove_if xs d.1)
    ]

  -- The element with the number `n`.
  abbrev pub numbered : ℕ → A → Bool
  numbered n x = k x == n

  pub find_if-absent :
      (n : ℕ) (xs : List A) → is_member n (map k xs) ≡ false → find_if (numbered n) xs ≡ none
  unfolding is_member find_if
  find_if-absent n [] h = refl
  find_if-absent n (x ∷ xs) h = ground (arith, find_if-absent n xs)

  pub absent-find_if :
      (n : ℕ) (xs : List A) → find_if (numbered n) xs ≡ none → is_member n (map k xs) ≡ false
  unfolding is_member find_if
  absent-find_if n [] h = refl
  absent-find_if n (x ∷ xs) h = ground (arith, absent-find_if n xs)

  pub find_if-numbered : (n : ℕ) (xs : List A) (x : A) → find_if (numbered n) xs ≡ some x → k x ≡ n
  unfolding find_if
  find_if-numbered n [] x h = absurd (ground arith)
  find_if-numbered n (y ∷ ys) x h = elim (Bool-cases (k y == n)) [
    | inl here ↦ let e : y ≡ x = some-injective y x (ground arith) in ground arith
    | inr on ↦ find_if-numbered n ys x (ground arith)
  ]

  pub find_if-append_other :
      (n : ℕ) (xs : List A) (x : A)
      → k x ≢ n
      → find_if (numbered n) (xs ++ x ∷ []) ≡ find_if (numbered n) xs
  unfolding find_if
  find_if-append_other n [] x ne = ground arith
  find_if-append_other n (y ∷ ys) x ne = ground (arith, find_if-append_other n ys x ne)

  pub find_if-append_self :
      (xs : List A) (x : A)
      → is_member (k x) (map k xs) ≡ false
      → find_if (numbered (k x)) (xs ++ x ∷ []) ≡ some x
  unfolding find_if is_member
  find_if-append_self [] x h = ground arith
  find_if-append_self (y ∷ ys) x h = ground (arith, find_if-append_self ys x)

  pub find_if-erase_other :
      (n m : ℕ) (xs : List A)
      → m ≢ n
      → find_if (numbered n) (erase_if (numbered m) xs) ≡ find_if (numbered n) xs
  unfolding find_if erase_if
  find_if-erase_other n m [] ne = refl
  find_if-erase_other n m (x ∷ xs) ne = ground (arith, find_if-erase_other n m xs ne)

  pub erase_if-absent :
      (n : ℕ) (xs : List A)
      → Distinct (map k xs)
      → is_member n (map k (erase_if (numbered n) xs)) ≡ false
  unfolding is_member erase_if
  erase_if-absent n [] d = refl
  erase_if-absent n (x ∷ xs) d = ground (arith, d.0, erase_if-absent n xs d.1)

pub listed {ℓ} :
    {A : Type ℓ} (k : A → ℕ) (p : A → Bool) (xs : List A) (x : A)
    → find_if p xs ≡ some x
    → is_member (k x) (map k xs) ≡ true
unfolding find_if is_member
listed k p [] x e = absurd (ground arith)
listed k p (y ∷ ys) x e = elim (Bool-cases (p y)) [
  | inl here ↦
      let same : y ≡ x = some-injective y x (ground (arith, e)) in rw (sym same) (ground arith)
  | inr on ↦ ground (arith, listed k p ys x (ground (arith, e)))
]

-- The element that is erased is the only one with its number.
pub erased-unlisted {ℓ} :
    {A : Type ℓ} (k : A → ℕ) (p : A → Bool) (xs : List A) (x : A)
    → find_if p xs ≡ some x
    → Distinct (map k xs)
    → is_member (k x) (map k (erase_if p xs)) ≡ false
unfolding find_if erase_if is_member
erased-unlisted k p [] x e d = absurd (ground arith)
erased-unlisted k p (y ∷ ys) x e d = elim (Bool-cases (p y)) [
  | inl here ↦ let same : y ≡ x = some-injective y x (ground (arith, e)) in rw (here, sym same) d.0
  | inr on ↦
      let found : find_if p ys ≡ some x = ground (arith, e) in
      let rest = erased-unlisted k p ys x found d.1 in
      rw on (ground (arith, rest, listed k p ys x found, d.0))
]
