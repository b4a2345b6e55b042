-- ===== src/Console/Tokens/Split.antt =====
-- codec.hpp and parser.hpp: the parts that splitting gives.
use bfc_tunnel.Base.{
  ℕ, ◌≡◌, ◌∙◌, refl, Bool, true, false, List, [], ◌∷◌, ◌++◌, arith, All, All-append, inl, inr,
  Bool-cases,
}
use mathlib.Core.List.{append_assoc, append-nil}
use bfc_tunnel.Console.Text.{Bytes, is_space, is_empty}
use bfc_tunnel.Console.Tokens.{
  push_part, split_from, is_comma, is_blank, split_csv, split_ws, join_rest, join_csv,
}

module _ (ends drops : ℕ → Bool) where
  abbrev pub IsKept : ℕ → Type 0
  IsKept c = (ends c ≡ false) × (drops c ≡ false)

  -- A part has a character, and none that ends a part or is dropped.
  abbrev pub IsPart : Bytes → Type 0
  IsPart p = (is_empty p ≡ false) × All IsKept p

  push_part-IsPart :
      (cur : Bytes) (out : List Bytes)
      → All IsKept cur
      → All IsPart out
      → All IsPart (push_part cur out)
  push_part-IsPart [] out hc ho = ho
  push_part-IsPart (c ∷ cur) out hc ho = All-append IsPart out _ ho ((refl, hc), tt)

  pub split_from-IsPart :
      (s cur : Bytes) (out : List Bytes)
      → All IsKept cur
      → All IsPart out
      → All IsPart (split_from ends drops s cur out)
  unfolding split_from
  split_from-IsPart [] cur out hc ho = push_part-IsPart cur out hc ho
  split_from-IsPart (c ∷ s) cur out hc ho = elim (Bool-cases (ends c)) [
    | inl ended ↦
        rw ended (split_from-IsPart s [] (push_part cur out) tt (push_part-IsPart cur out hc ho))
    | inr goes_on ↦ elim (Bool-cases (drops c)) [
      | inl dropped ↦ rw (goes_on, dropped) (split_from-IsPart s cur out hc ho)
      | inr kept ↦
          rw (goes_on, kept)
            (split_from-IsPart s (cur ++ c ∷ []) out
              (All-append IsKept cur (c ∷ []) hc ((goes_on, kept), tt)) ho)
    ]
  ]

  split_from-part :
      (p s cur : Bytes) (out : List Bytes)
      → All IsKept p
      → split_from ends drops (p ++ s) cur out ≡ split_from ends drops s (cur ++ p) out
  unfolding split_from
  split_from-part [] s cur out h = rw append-nil refl
  split_from-part (c ∷ p) s cur out h =
      rw (h.0.0, h.0.1, split_from-part p s (cur ++ c ∷ []) out h.1, append_assoc) refl

  push_part-IsPart_lem : (p : Bytes) (out : List Bytes) → IsPart p → push_part p out ≡ out ++ p ∷ []
  push_part-IsPart_lem [] out h = absurd (ground (arith, h.0))
  push_part-IsPart_lem (c ∷ p) out h = refl

  split_from-join_rest :
      (sep : ℕ) (ps : List Bytes) (cur : Bytes) (out : List Bytes)
      → ends sep ≡ true
      → IsPart cur
      → All IsPart ps
      → split_from ends drops (join_rest sep ps) cur out ≡ out ++ cur ∷ ps
  unfolding split_from join_rest
  split_from-join_rest sep [] cur out e hc hs = push_part-IsPart_lem cur out hc
  split_from-join_rest sep (p ∷ ps) cur out e hc hs =
      rw (e, split_from-part p (join_rest sep ps) [] (push_part cur out) hs.0.1)
        (split_from-join_rest sep ps p (push_part cur out) e hs.0 hs.1
          ∙ rw (push_part-IsPart_lem cur out hc) (append_assoc out _ _))

-- A part of a list of values: not empty, without comma or space.
abbrev pub IsValue : Bytes → Type 0
IsValue = IsPart is_comma is_space

-- The values of any text are such parts.
split_csv-IsPart : (s : Bytes) → All IsValue (split_csv s)
unfolding split_csv
split_csv-IsPart s = split_from-IsPart is_comma is_space s [] [] tt tt

-- Values that are not empty and have neither comma nor space are given back by splitting the text
-- that joins them with commas.
pub split_csv-join_csv :
    (parts : List Bytes) → All IsValue parts → split_csv (join_csv parts) ≡ parts
unfolding split_csv join_csv
split_csv-join_csv [] h = unfold split_from in refl
split_csv-join_csv (p ∷ ps) h =
    split_from-part is_comma is_space p (join_rest b',' ps) [] [] h.0.1
    ∙ split_from-join_rest is_comma is_space b',' ps p [] refl h.0 h.1

-- A list of values that was read is read again from its print.
split_csv-again : (s : Bytes) → split_csv (join_csv (split_csv s)) ≡ split_csv s
split_csv-again s = split_csv-join_csv (split_csv s) (split_csv-IsPart s)

-- A token of a command line has a first character, and no blank, tab or carriage return.
split_ws-IsPart : (line : Bytes) → All (IsPart is_blank (λ c. false)) (split_ws line)
unfolding split_ws
split_ws-IsPart line = split_from-IsPart is_blank (λ c. false) line [] [] tt tt
