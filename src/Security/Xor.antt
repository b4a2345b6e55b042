-- ===== src/Security/Xor.antt =====
-- key_utils.cpp, ctr_xor_inplace: the keystream is applied block by block, and applying it twice
-- gives the data back.
use bfc_tunnel.Base.{
  ℕ, zero, suc, ◌≤◌, ◌≡◌, refl, sym, ap, ◌∙◌, List, [], ◌∷◌, ◌++◌, arith, length, take, drop,
  IsByte, All, length-append, length-take, length-drop, dec_le, take-append-drop, All-append,
}
use bfc_tunnel.Base.Bits.{bit_xor_twice}
use bfc_tunnel.Base.Slices.{take-All, drop-All, take_all}
use bfc_tunnel.Security.{xor_bytes, ctr_xor, increment}
use mathlib.Core.List.{append-nil}
use mathlib.Core.Path.{ap₂}

xor_bytes_twice :
    (xs ks : List ℕ) → All IsByte xs → All IsByte ks → xor_bytes (xor_bytes xs ks) ks ≡ xs
unfolding xor_bytes
xor_bytes_twice [] ks hx hk = refl
xor_bytes_twice (x ∷ xs) [] hx hk = refl
xor_bytes_twice (x ∷ xs) (k ∷ ks) hx hk =
    rw ((bit_xor_twice 8 x k hx.0 hk.0).1, xor_bytes_twice xs ks hx.1 hk.1)

xor_bytes-IsByte : (xs ks : List ℕ) → All IsByte xs → All IsByte ks → All IsByte (xor_bytes xs ks)
unfolding xor_bytes
xor_bytes-IsByte [] ks hx hk = tt
xor_bytes-IsByte (x ∷ xs) [] hx hk = hx
xor_bytes-IsByte (x ∷ xs) (k ∷ ks) hx hk =
    ((bit_xor_twice 8 x k hx.0 hk.0).0, xor_bytes-IsByte xs ks hx.1 hk.1)

length-xor_bytes : (xs ks : List ℕ) → length (xor_bytes xs ks) ≡ length xs
unfolding xor_bytes
length-xor_bytes [] ks = refl
length-xor_bytes (x ∷ xs) [] = refl
length-xor_bytes (x ∷ xs) (k ∷ ks) = ap suc (length-xor_bytes xs ks)

take-append {ℓ} : {A : Type ℓ} (n : ℕ) (xs ys : List A) → length xs ≡ n → take n (xs ++ ys) ≡ xs
take-append zero [] ys e = refl
take-append zero (x ∷ xs) ys e = absurd (omega arith)
take-append (suc n) [] ys e = absurd (omega arith)
take-append (suc n) (x ∷ xs) ys e = ap (◌∷◌ x) (take-append n xs ys (omega arith))

drop-append {ℓ} : {A : Type ℓ} (n : ℕ) (xs ys : List A) → length xs ≡ n → drop n (xs ++ ys) ≡ ys
drop-append zero [] ys e = refl
drop-append zero (x ∷ xs) ys e = absurd (omega arith)
drop-append (suc n) [] ys e = absurd (omega arith)
drop-append (suc n) (x ∷ xs) ys e = drop-append n xs ys (omega arith)

drop_all {ℓ} : {A : Type ℓ} (n : ℕ) (xs : List A) → length xs ≤ n → drop n xs ≡ []
drop_all zero [] h = refl
drop_all zero (x ∷ xs) h = absurd (omega arith)
drop_all (suc n) [] h = refl
drop_all (suc n) (x ∷ xs) h = drop_all n xs (omega arith)

module _ (encrypt : List ℕ → List ℕ) where
  ctr_xor-nil : (fuel : ℕ) (counter : List ℕ) → ctr_xor fuel encrypt counter [] ≡ []
  unfolding ctr_xor
  ctr_xor-nil zero counter = refl
  ctr_xor-nil (suc fuel) counter = refl

  -- One round, on any data.
  ctr_xor_round :
      (fuel : ℕ) (counter bytes : List ℕ)
      → ctr_xor (suc fuel) encrypt counter bytes
        ≡ xor_bytes (take 16 bytes) (encrypt counter)
          ++ ctr_xor fuel encrypt (increment counter) (drop 16 bytes)
  unfolding ctr_xor
  ctr_xor_round fuel counter [] = sym (ctr_xor-nil fuel (increment counter))
  ctr_xor_round fuel counter (x ∷ xs) = refl

  pub length-ctr_xor :
      (fuel : ℕ) (counter bytes : List ℕ)
      → length (ctr_xor fuel encrypt counter bytes) ≡ length bytes
  length-ctr_xor zero counter bytes = unfold ctr_xor in refl
  length-ctr_xor (suc fuel) counter bytes =
      let mask = encrypt counter in
      let rest = ctr_xor fuel encrypt (increment counter) (drop 16 bytes) in
      rw ctr_xor_round (
        omega (
          arith,
          length-append (xor_bytes (take 16 bytes) mask) rest,
          length-xor_bytes (take 16 bytes) mask,
          length-take 16 bytes,
          length-drop 16 bytes,
          length-ctr_xor fuel (increment counter) (drop 16 bytes),
        ))

  module _ (blocks : (counter : List ℕ) → All IsByte (encrypt counter)) where
    -- The masked data splits at the block boundary as the data does.
    masked_split :
        (fuel : ℕ) (counter bytes : List ℕ)
        → let out = ctr_xor (suc fuel) encrypt counter bytes in
          (take 16 out ≡ xor_bytes (take 16 bytes) (encrypt counter))
          × (drop 16 out ≡ ctr_xor fuel encrypt (increment counter) (drop 16 bytes))
    masked_split fuel counter bytes = rw ctr_xor_round (elim (dec_le 16 (length bytes)) [
      | yes full ↦
          let len : length front ≡ 16 =
            omega
              (arith, length-xor_bytes (take 16 bytes) (encrypt counter), length-take 16 bytes) in
          (take-append 16 front _ len, drop-append 16 front _ len)
      | no short ↦
          let none_left : drop 16 bytes ≡ [] = drop_all 16 bytes (omega arith) in
          let len : length front ≤ 16 =
            omega
              (arith, length-xor_bytes (take 16 bytes) (encrypt counter), length-take 16 bytes) in
          rw (none_left, ctr_xor-nil, append-nil) (take_all 16 front len, drop_all 16 front len)
    ])
      where
        front : List ℕ
        front = xor_bytes (take 16 bytes) (encrypt counter)

    -- Where the cipher's blocks and the data consist of bytes, applying the keystream twice from the
    -- same counter gives the data back, for any number of blocks.
    pub ctr_xor_twice :
        (fuel : ℕ) (counter bytes : List ℕ)
        → All IsByte bytes
        → ctr_xor fuel encrypt counter (ctr_xor fuel encrypt counter bytes) ≡ bytes
    ctr_xor_twice zero counter bytes h = unfold ctr_xor in refl
    ctr_xor_twice (suc fuel) counter bytes h =
        let (front, back) = masked_split fuel counter bytes in
        ctr_xor_round fuel counter (ctr_xor (suc fuel) encrypt counter bytes)
        ∙ ap₂ ◌++◌
            (ap (λ t. xor_bytes t (encrypt counter)) front
              ∙ xor_bytes_twice (take 16 bytes) (encrypt counter) (take-All IsByte 16 bytes h)
                  (blocks counter))
            (ap (ctr_xor fuel encrypt (increment counter)) back
              ∙ ctr_xor_twice fuel (increment counter) (drop 16 bytes) (drop-All IsByte 16 bytes h))
        ∙ take-append-drop 16 bytes

    pub ctr_xor-IsByte :
        (fuel : ℕ) (counter bytes : List ℕ)
        → All IsByte bytes
        → All IsByte (ctr_xor fuel encrypt counter bytes)
    ctr_xor-IsByte zero counter bytes h = unfold ctr_xor in h
    ctr_xor-IsByte (suc fuel) counter bytes h = rw ctr_xor_round (
        All-append IsByte (xor_bytes (take 16 bytes) (encrypt counter)) _
          (xor_bytes-IsByte (take 16 bytes) (encrypt counter) (take-All IsByte 16 bytes h)
            (blocks counter))
          (ctr_xor-IsByte fuel (increment counter) (drop 16 bytes) (drop-All IsByte 16 bytes h)))
