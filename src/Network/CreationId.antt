-- ===== src/Network/CreationId.antt =====
-- node.cpp, network_get_next_creation_id: the loop ends, at the least number that is not in use.
use bfc_tunnel.Base.{
  ℕ, zero, suc, ◌+◌, ◌≤◌, ◌<◌, ◌≡◌, refl, true, false, List, [], ◌∷◌, arith, length, leb,
  if◌then◌else◌, Bool-cases, inl, inr, ap, dec_le,
}
use bfc_tunnel.Network.{
  NetworkKeyCtx, is_member, first_unused, network_get_next_creation_id, creation_ids,
}

-- How many of the used numbers are not below `id`.
unfoldable count_from : ℕ → List ℕ → ℕ
count_from id [] = 0
count_from id (x ∷ xs) = let rest = count_from id xs in if leb id x then suc rest else rest

count_from-step : (id : ℕ) (used : List ℕ) → count_from (id + 1) used ≤ count_from id used
unfolding count_from
count_from-step id [] = omega arith
count_from-step id (x ∷ xs) = ground (arith, count_from-step id xs)

count_from-used :
    (id : ℕ) (used : List ℕ)
    → is_member id used ≡ true
    → count_from (id + 1) used < count_from id used
unfolding count_from is_member
count_from-used id [] h = absurd (ground arith)
count_from-used id (x ∷ xs) h = ground (arith, count_from-used id xs, count_from-step id xs)

count_from-none : (id : ℕ) (used : List ℕ) → count_from id used ≡ 0 → is_member id used ≡ false
unfolding count_from is_member
count_from-none id [] h = refl
count_from-none id (x ∷ xs) h = ground (arith, count_from-none id xs)

count_from-length : (id : ℕ) (used : List ℕ) → count_from id used ≤ length used
unfolding count_from
count_from-length id [] = omega arith
count_from-length id (x ∷ xs) = ground (arith, count_from-length id xs)

-- Every number from `low` to the one below the answer is in use, and the answer is not.
first_unused_lem :
    (fuel : ℕ) (used : List ℕ) (id : ℕ)
    → count_from id used ≤ fuel
    → (is_member (first_unused fuel used id) used ≡ false)
      × (id ≤ first_unused fuel used id)
      × (first_unused fuel used id ≤ id + fuel)
      × ((j : ℕ) → id ≤ j → j < first_unused fuel used id → is_member j used ≡ true)
unfolding first_unused
first_unused_lem zero used id h = (
  count_from-none id used (omega arith),
  omega arith,
  omega arith,
  λ j low high. absurd (omega arith),
)
first_unused_lem (suc fuel) used id h = elim (Bool-cases (is_member id used)) [
  | inl taken ↦
      let (free, above, near, below) =
        first_unused_lem fuel used (id + 1) (omega (arith, count_from-used id used taken)) in
      rw taken (
        free,
        omega (arith, above),
        omega (arith, near),
        λ j low high. elim (dec_le (id + 1) j) [
          | yes later ↦ below j later high
          | no here ↦ let e : j ≡ id = omega arith in rw e taken
        ],
      )
  | inr unused ↦ rw unused (unused, omega arith, omega arith, λ j low high. absurd (omega arith))
]

-- The creation id that is chosen is not in use, every smaller one is, and it is at most the number
-- of contexts, so that the loop ends.
pub network_get_next_creation_id_least :
    (contexts : List NetworkKeyCtx)
    → let id = network_get_next_creation_id contexts in
      (is_member id (creation_ids contexts) ≡ false)
      × (id ≤ length contexts)
      × ((j : ℕ) → j < id → is_member j (creation_ids contexts) ≡ true)
unfolding network_get_next_creation_id
network_get_next_creation_id_least contexts =
    let used = creation_ids contexts in
    let (free, above, near, below) =
      first_unused_lem (length used) used 0 (count_from-length 0 used) in
    (
      free,
      omega (arith, near, length-creation_ids contexts),
      λ j small. below j (omega arith) small,
    )
  where
    length-creation_ids :
        (contexts : List NetworkKeyCtx) → length (creation_ids contexts) ≡ length contexts
    length-creation_ids [] = refl
    length-creation_ids (ctx ∷ rest) = ap suc (length-creation_ids rest)
