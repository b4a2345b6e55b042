-- ===== src/Peer/Ids.antt =====
-- node.cpp, peer_get_next_sec_ctx_id: the number of a new security context.
use bfc_tunnel.Base.{
  ℕ, ◌≡◌, ◌≤◌, ◌⊎◌, inl, inr, refl, ◌∙◌, true, false, not, ◌&&◌, List, [], ◌∷◌, map, arith, ◌==◌,
}
use bfc_tunnel.Network.{is_member, remove_if}
use bfc_tunnel.Peer.{SecurityCtx, all_ids, erase_ids, first_or_one, peer_get_next_sec_ctx_id}

abbrev pub ids_of : List SecurityCtx → List ℕ
ids_of contexts = map (λ (ctx : SecurityCtx). ctx.id) contexts

is_member-remove_if :
    (j k : ℕ) (ids : List ℕ)
    → is_member j (remove_if (λ i. i == k) ids) ≡ is_member j ids && not (k == j)
unfolding is_member remove_if
is_member-remove_if j k [] = refl
is_member-remove_if j k (i ∷ ids) = ground (arith, is_member-remove_if j k ids)

is_member-erase_ids :
    (j : ℕ) (contexts : List SecurityCtx) (ids : List ℕ)
    → is_member j (erase_ids contexts ids) ≡ is_member j ids && not (is_member j (ids_of contexts))
unfolding erase_ids is_member
is_member-erase_ids j [] ids = ground arith
is_member-erase_ids j (ctx ∷ rest) ids =
    is_member-erase_ids j rest (remove_if (λ i. i == ctx.id) ids)
    ∙ ground (arith, is_member-remove_if j ctx.id ids)

all_ids-range :
    (j : ℕ)
    → ((is_member j all_ids ≡ true) → (1 ≤ j) × (j ≤ 15))
      × ((1 ≤ j) → j ≤ 15 → is_member j all_ids ≡ true)
unfolding is_member
all_ids-range j = (ground arith, ground arith)

first_or_one-cases :
    (free : List ℕ)
    → ((free ≡ []) × (first_or_one free ≡ 1)) ⊎ (is_member (first_or_one free) free ≡ true)
unfolding is_member
first_or_one-cases [] = inl (refl, refl)
first_or_one-cases (i ∷ ids) = inr (ground arith)

-- The number chosen for a new security context of a peer is between 1 and 15, so that it fits the
-- header and is not the number of no context. It is that of no context of the peer, unless all fifteen
-- are in use; then it is 1.
pub peer_get_next_sec_ctx_id_free :
    (contexts : List SecurityCtx)
    → let i = peer_get_next_sec_ctx_id contexts in
      (1 ≤ i)
      × (i ≤ 15)
      × ((is_member i (ids_of contexts) ≡ false)
          ⊎ ((i ≡ 1) × ((j : ℕ) → 1 ≤ j → j ≤ 15 → is_member j (ids_of contexts) ≡ true)))
unfolding peer_get_next_sec_ctx_id
peer_get_next_sec_ctx_id_free contexts = elim (first_or_one-cases (erase_ids contexts all_ids)) [
  | inl (none_free, one) ↦ (
    omega (arith, one),
    omega (arith, one),
    inr (
      one,
      λ j low high.
          let left = is_member-erase_ids j contexts all_ids in
          let gone : is_member j (erase_ids contexts all_ids) ≡ false =
            rw none_free (unfold is_member in refl) in
          ground (arith, left, gone, (all_ids-range j).1 low high),
    ),
  )
  | inr found ↦
      let i = first_or_one (erase_ids contexts all_ids) in
      let both = is_member-erase_ids i contexts all_ids in
      let listed : is_member i all_ids ≡ true = ground (arith, both, found) in
      let range = (all_ids-range i).0 listed in
      (range.0, range.1, inl (ground (arith, both, found)))
]
