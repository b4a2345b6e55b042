-- ===== src/Identities/Synced.antt =====
-- node.cpp: the private keys of the identities are those that the node was given.
use bfc_tunnel.Base.{
  ℕ, ◌≡◌, ◌≢◌, ◌∙◌, refl, Bool, true, false, none, some, List, [], ◌∷◌, arith, ◌==◌, if◌then◌else◌,
  inl, inr, Bool-cases, Option-cases,
}
use mathlib.Core.Option.{some-injective}
use bfc_tunnel.Network.{find_if, remove_if, is_member}
use bfc_tunnel.Identities.{
  Key, Identities, replace_or_append, assign_key, has_node_id, update, add_downstream_identity,
  rem_downstream_identity, select_downstream_identity, add_private_key, rem_private_key,
  clear_identities,
}
use bfc_tunnel.Identities.Selection
use bfc_tunnel.Identities.Selection.{Call, adds, rems, selects, adds_key, rems_key, clears}

module _ (node_id_of : ℕ → ℕ) where
  -- An identity has the key that stands in the map for its node id, if there is one.
  abbrev pub IsSynced : Identities → Type 0
  IsSynced s =
      (p : ℕ) (key : Key)
      → is_member p s.downstream_identities ≡ true
      → s.private_keys (node_id_of p) ≡ some key
      → s.private_key_at p ≡ key

  replaced-old :
      (q : ℕ → Bool) (p o : ℕ) (ps : List ℕ)
      → o ≢ p
      → is_member o (replace_or_append q p ps) ≡ true
      → is_member o ps ≡ true
  unfolding is_member replace_or_append
  replaced-old q p o [] ne h = absurd (ground arith)
  replaced-old q p o (x ∷ rest) ne h = ground (arith, replaced-old q p o rest ne)

  removed-old :
      (q : ℕ → Bool) (o : ℕ) (ps : List ℕ)
      → is_member o (remove_if q ps) ≡ true
      → is_member o ps ≡ true
  unfolding is_member remove_if
  removed-old q o [] h = h
  removed-old q o (x ∷ rest) h = ground (arith, removed-old q o rest)

  assigned-other :
      (q : ℕ → Bool) (key : Key) (ps : List ℕ) (at : ℕ → Key) (p : ℕ)
      → q p ≡ false
      → assign_key q key ps at p ≡ at p
  unfolding assign_key
  assigned-other q key [] at p h = refl
  assigned-other q key (x ∷ rest) at p h = elim (Bool-cases (q x)) [
    | inl hit ↦
        let ih = assigned-other q key rest (update at x key) p h in
        rw hit (ground (arith, ih, hit, h))
    | inr miss ↦ rw miss (assigned-other q key rest at p h)
  ]

  -- A key once assigned stays through the rest of the loop.
  assigned-stays :
      (q : ℕ → Bool) (key : Key) (ps : List ℕ) (at : ℕ → Key) (p : ℕ)
      → at p ≡ key
      → assign_key q key ps at p ≡ key
  unfolding assign_key
  assigned-stays q key [] at p h = h
  assigned-stays q key (x ∷ rest) at p h = elim (Bool-cases (q x)) [
    | inl hit ↦ rw hit (assigned-stays q key rest (update at x key) p (ground (arith, h)))
    | inr miss ↦ rw miss (assigned-stays q key rest at p h)
  ]

  assigned-listed :
      (q : ℕ → Bool) (key : Key) (ps : List ℕ) (at : ℕ → Key) (p : ℕ)
      → q p ≡ true
      → is_member p ps ≡ true
      → assign_key q key ps at p ≡ key
  unfolding assign_key is_member
  assigned-listed q key [] at p h m = absurd (ground arith)
  assigned-listed q key (x ∷ rest) at p h m = elim (Bool-cases (x == p)) [
    | inl here ↦
        let same : x ≡ p = ground arith in
        let hit : q x ≡ true = rw same h in
        rw hit (assigned-stays q key rest (update at x key) p (ground arith))
    | inr on ↦ assigned-listed q key rest (if q x then update at x key else at) p h (ground arith)
  ]

  module _ (s : Identities) (synced : IsSynced s) where
    add-IsSynced : (p : ℕ) → IsSynced (add_downstream_identity node_id_of s (some p))
    unfolding add_downstream_identity
    add-IsSynced p o key listed known = elim (Option-cases (s.private_keys (node_id_of p))) [
      | inl missing ↦ elim (Bool-cases (o == p)) [
        | inl same ↦ let e : o ≡ p = ground arith in absurd (ground (arith, missing, known, e))
        | inr other ↦ rw missing (
            synced o key (replaced-old _ p o s.downstream_identities (ground (arith, other)) listed)
              known)
      ]
      | inr (loaded, e) ↦ elim (Bool-cases (o == p)) [
        | inl same ↦
            let at : o ≡ p = ground arith in
            let one : loaded ≡ key = some-injective loaded key (rw (at, e) at known) in
            rw (e, same) one
        | inr other ↦
            rw (e, other)
              (synced o key
                (replaced-old _ p o s.downstream_identities (ground (arith, other)) listed) known)
      ]
    ]

    add_key-IsSynced : (n : ℕ) (key : Key) → IsSynced (add_private_key node_id_of s n key)
    unfolding add_private_key
    add_key-IsSynced n key p known listed found = elim (Bool-cases (node_id_of p == n)) [
      | inl hit ↦
          let one : key ≡ known = some-injective key known (rw hit at found) in
          assigned-listed (has_node_id node_id_of n) key s.downstream_identities s.private_key_at p
            hit listed
          ∙ one
      | inr miss ↦
          assigned-other (has_node_id node_id_of n) key s.downstream_identities s.private_key_at p
            miss
          ∙ synced p known listed (rw miss at found)
    ]

    rems_key-IsSynced : (n : ℕ) → IsSynced (rem_private_key s n)
    unfolding rem_private_key
    rems_key-IsSynced n p key listed found = elim (Bool-cases (node_id_of p == n)) [
      | inl hit ↦ absurd (ground (arith, hit, found))
      | inr miss ↦ synced p key listed (rw miss at found)
    ]

    select-IsSynced : (n : ℕ) → IsSynced (select_downstream_identity node_id_of s n).1
    unfolding select_downstream_identity
    select-IsSynced n =
        elim (Option-cases (find_if (has_node_id node_id_of n) s.downstream_identities)) [
          | inl e ↦ rw (select_downstream_identity, e) synced
          | inr (p, e) ↦ rw (select_downstream_identity, e) synced
        ]

    step-IsSynced : (c : Call) → IsSynced (Selection.step node_id_of s c)
    unfolding add_downstream_identity rem_downstream_identity clear_identities
    step-IsSynced (adds none) = synced
    step-IsSynced (adds (some p)) = add-IsSynced p
    step-IsSynced (rems n) = λ p key listed.
        synced p key (removed-old (has_node_id node_id_of n) p s.downstream_identities listed)
    step-IsSynced (selects n) = select-IsSynced n
    step-IsSynced (adds_key n key) = add_key-IsSynced n key
    step-IsSynced (rems_key n) = rems_key-IsSynced n
    step-IsSynced clears = λ p key listed. absurd (unfold is_member in ground (arith, listed))

  -- Any calls keep the private keys in step: each listed identity has the private key that the node
  -- was given last for its node id and has not removed, whichever of the two came first.
  pub run-IsSynced :
      (s : Identities) (calls : List Call)
      → IsSynced s
      → IsSynced (Selection.run node_id_of s calls)
  run-IsSynced s [] synced = synced
  run-IsSynced s (c ∷ calls) synced =
      run-IsSynced (Selection.step node_id_of s c) calls (step-IsSynced s synced c)
