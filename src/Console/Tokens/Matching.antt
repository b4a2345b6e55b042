-- ===== src/Console/Tokens/Matching.antt =====
-- parser.hpp: which rows a list of filters lets through.
use bfc_tunnel.Base.{
  ◌≡◌, ◌≢◌, ◌⊎◌, ◌↔◌, refl, sym, true, false, List, [], ◌∷◌, arith, All, inl, inr, Bool-cases,
}
use bfc_tunnel.Console.Text.{Bytes, text_eq}
use bfc_tunnel.Console.Tokens.{Filter, find_text, or_empty, row_matches}

-- The value is the one of the first entry with the key, or empty where no entry has the key.
abbrev pub HasValue : List (Bytes × Bytes) → Bytes → Bytes → Type 0
HasValue [] key value = value ≡ []
HasValue ((k, v) ∷ rest) key value =
    ((k ≡ key) × (v ≡ value)) ⊎ ((k ≢ key) × HasValue rest key value)

-- The row has the filter's value under its key where it is to be included, and has not where it is to
-- be excluded.
abbrev pub IsMet : List (Bytes × Bytes) → Filter → Type 0
IsMet row f =
    (f.include ≡ true → HasValue row f.key f.value)
    × (f.include ≡ false → ¬ HasValue row f.key f.value)

text_eq→≡ : (a b : Bytes) → text_eq a b ≡ true → a ≡ b
unfolding text_eq
text_eq→≡ [] [] h = refl
text_eq→≡ [] (y ∷ b) h = absurd (ground (arith, h))
text_eq→≡ (x ∷ a) [] h = absurd (ground (arith, h))
text_eq→≡ (x ∷ a) (y ∷ b) h = ground (arith, h, text_eq→≡ a b)

text_eq_refl : (a : Bytes) → text_eq a a ≡ true
unfolding text_eq
text_eq_refl [] = refl
text_eq_refl (x ∷ a) = ground (arith, text_eq_refl a)

≡→text_eq : (a b : Bytes) → a ≡ b → text_eq a b ≡ true
≡→text_eq a b e = rw e (text_eq_refl b)

find_text-HasValue :
    (row : List (Bytes × Bytes)) (key value : Bytes)
    → (text_eq (or_empty (find_text key row)) value ≡ true) ↔ HasValue row key value
unfolding find_text
find_text-HasValue [] key value = (λ h. sym (text_eq→≡ [] value h), λ e. ≡→text_eq [] value (sym e))
find_text-HasValue ((k, v) ∷ rest) key value =
    let (to, from) = find_text-HasValue rest key value in
    elim (Bool-cases (text_eq k key)) [
      | inl here ↦
          let same = text_eq→≡ k key here in
          rw here (
            λ h. inl (same, text_eq→≡ v value h),
            λ h. elim h [ inl (_, e) ↦ ≡→text_eq v value e | inr (ne, _) ↦ absurd (ne same) ],
          )
      | inr on ↦
          let differs : k ≢ key = λ e. absurd (ground (arith, on, ≡→text_eq k key e)) in
          rw on (
            λ h. inr (differs, to h),
            λ h. elim h [ inl (e, _) ↦ absurd (differs e) | inr (_, found) ↦ from found ],
          )
    ]

-- A row matches exactly when it meets every filter: a value that is to be included is the row's, one
-- that is to be excluded is not, and under a key that the row does not have it has the empty text.
pub row_matches-IsMet :
    (row : List (Bytes × Bytes)) (fs : List Filter)
    → (row_matches row fs ≡ true) ↔ All (IsMet row) fs
unfolding row_matches
row_matches-IsMet row [] = (λ _. tt, λ _. refl)
row_matches-IsMet row (f ∷ fs) =
    let (to, from) = row_matches-IsMet row fs in
    let (holds, tested) = find_text-HasValue row f.key f.value in
    let unmet : text_eq (or_empty (find_text f.key row)) f.value ≡ false
        → ¬ HasValue row f.key f.value =
      λ other has. absurd (ground (arith, other, tested has)) in
    elim (Bool-cases (text_eq (or_empty (find_text f.key row)) f.value)) [
      | inl same ↦ elim (Bool-cases f.include) [
        | inl included ↦
            rw (included, same)
              (λ h. ((λ _. holds same, λ e. absurd (ground arith)), to h), λ h. from h.1)
        | inr excluded ↦
            rw (excluded, same)
              (λ h. absurd (ground (arith, h)), λ h. absurd (h.0.1 refl (holds same)))
      ]
      | inr other ↦ elim (Bool-cases f.include) [
        | inl included ↦
            rw (included, other)
              (λ h. absurd (ground (arith, h)), λ h. absurd (unmet other (h.0.0 refl)))
        | inr excluded ↦
            rw (excluded, other)
              (λ h. ((λ e. absurd (ground arith), λ _. unmet other), to h), λ h. from h.1)
      ]
    ]
