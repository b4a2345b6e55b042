-- ===== src/Identities/Selection.antt =====
-- node.cpp: the identities have distinct node ids, and one of them is selected.
use bfc_tunnel.Base.{
  ℕ, ◌≡◌, ◌≢◌, refl, Bool, true, false, Option, none, some, List, [], ◌∷◌, map, arith, ◌==◌, inl,
  inr, Bool-cases, Option-cases,
}
use bfc_tunnel.Network.{find_if, remove_if, is_member}
use bfc_tunnel.Network.Keyed.{Distinct, Distinct-remove_if}
use bfc_tunnel.Identities.{
  Key, Identities, replace_or_append, front, has_node_id, reselect, unselect,
  add_downstream_identity, rem_downstream_identity, select_downstream_identity, add_private_key,
  rem_private_key, clear_identities,
}

-- The calls of the node that change its identities.
pub data Call : Type 0 where
  adds : Option ℕ → Call
  rems selects : ℕ → Call
  adds_key : ℕ → Key → Call
  rems_key : ℕ → Call
  clears : Call

module _ (node_id_of : ℕ → ℕ) where
  abbrev pub step : Identities → Call → Identities
  step s (adds p) = add_downstream_identity node_id_of s p
  step s (rems n) = rem_downstream_identity node_id_of s n
  step s (selects n) = (select_downstream_identity node_id_of s n).1
  step s (adds_key n key) = add_private_key node_id_of s n key
  step s (rems_key n) = rem_private_key s n
  step s clears = clear_identities s

  abbrev pub run : Identities → List Call → Identities
  run s [] = s
  run s (c ∷ calls) = run (step s c) calls

  -- Nothing is selected only where there is nothing to select.
  abbrev pub IsSelected : Option ℕ → List ℕ → Type 0
  IsSelected none identities = identities ≡ []
  IsSelected (some p) identities = is_member p identities ≡ true

  pub record IsValid (s : Identities) : Type 0 where
    pub distinct : Distinct (map node_id_of s.downstream_identities)
    pub selected : IsSelected s.selected_downstream_identity s.downstream_identities

  replaced-member :
      (p : ℕ) (ps : List ℕ)
      → is_member p (replace_or_append (has_node_id node_id_of (node_id_of p)) p ps) ≡ true
  unfolding is_member replace_or_append
  replaced-member p [] = ground arith
  replaced-member p (o ∷ rest) = ground (arith, replaced-member p rest)

  -- An identity with another node id stays.
  replaced-others :
      (p o : ℕ) (ps : List ℕ)
      → node_id_of o ≢ node_id_of p
      → is_member o ps ≡ true
      → is_member o (replace_or_append (has_node_id node_id_of (node_id_of p)) p ps) ≡ true
  unfolding is_member replace_or_append
  replaced-others p o [] ne h = absurd (ground arith)
  replaced-others p o (x ∷ rest) ne h = ground (arith, replaced-others p o rest ne)

  replaced-absent :
      (n p : ℕ) (ps : List ℕ)
      → n ≢ node_id_of p
      → is_member n (map node_id_of ps) ≡ false
      → is_member n
          (map node_id_of (replace_or_append (has_node_id node_id_of (node_id_of p)) p ps))
        ≡ false
  unfolding is_member replace_or_append
  replaced-absent n p [] ne h = ground arith
  replaced-absent n p (x ∷ rest) ne h = ground (arith, replaced-absent n p rest ne)

  replaced-Distinct :
      (p : ℕ) (ps : List ℕ)
      → Distinct (map node_id_of ps)
      → Distinct (map node_id_of (replace_or_append (has_node_id node_id_of (node_id_of p)) p ps))
  unfolding replace_or_append is_member
  replaced-Distinct p [] d = (refl, tt)
  replaced-Distinct p (o ∷ rest) d = elim (Bool-cases (has_node_id node_id_of (node_id_of p) o)) [
    | inl same ↦ rw same (ground (arith, d.0), d.1)
    | inr other ↦
        rw other
          (replaced-absent (node_id_of o) p rest (ground arith) d.0, replaced-Distinct p rest d.1)
  ]

  -- An identity with another node id is not removed.
  kept-member :
      (n o : ℕ) (ps : List ℕ)
      → node_id_of o ≢ n
      → is_member o ps ≡ true
      → is_member o (remove_if (has_node_id node_id_of n) ps) ≡ true
  unfolding is_member remove_if
  kept-member n o [] ne h = absurd (ground arith)
  kept-member n o (x ∷ rest) ne h = ground (arith, kept-member n o rest ne)

  front-IsSelected : (ps : List ℕ) → IsSelected (front ps) ps
  unfolding is_member
  front-IsSelected [] = refl
  front-IsSelected (p ∷ rest) = ground arith

  found-member :
      (q : ℕ → Bool) (ps : List ℕ) (p : ℕ) → find_if q ps ≡ some p → is_member p ps ≡ true
  unfolding find_if is_member
  found-member q [] p e = absurd (ground arith)
  found-member q (o ∷ rest) p e = ground (arith, e, found-member q rest p)

  unselect-IsSelected :
      (n : ℕ) (o : Option ℕ) (ps : List ℕ)
      → IsSelected o ps
      → let rest = remove_if (has_node_id node_id_of n) ps in
        IsSelected (unselect node_id_of n rest o) rest
  unselect-IsSelected n none ps h = rw h (unfold remove_if in refl)
  unselect-IsSelected n (some o) ps h = elim (Bool-cases (node_id_of o == n)) [
    | inl gone ↦ rw gone (front-IsSelected (remove_if (has_node_id node_id_of n) ps))
    | inr kept ↦ rw kept (kept-member n o ps (ground (arith, kept)) h)
  ]

  module _ (s : Identities) (v : IsValid s) where
    add-IsValid : (p : ℕ) → IsValid (add_downstream_identity node_id_of s (some p))
    unfolding add_downstream_identity
    add-IsValid p = record {
      distinct = replaced-Distinct p s.downstream_identities v.distinct;
      selected = reselected s.selected_downstream_identity v.selected;
    }
      where
        reselected :
            (o : Option ℕ)
            → IsSelected o s.downstream_identities
            → IsSelected (reselect node_id_of p o) (
                replace_or_append (has_node_id node_id_of (node_id_of p)) p s.downstream_identities)
        reselected none h = replaced-member p s.downstream_identities
        reselected (some o) h = elim (Bool-cases (node_id_of o == node_id_of p)) [
          | inl same ↦ rw same (replaced-member p s.downstream_identities)
          | inr other ↦
              rw other (replaced-others p o s.downstream_identities (ground (arith, other)) h)
        ]

    rem-IsValid : (n : ℕ) → IsValid (rem_downstream_identity node_id_of s n)
    unfolding rem_downstream_identity
    rem-IsValid n = record {
      distinct =
          Distinct-remove_if node_id_of (has_node_id node_id_of n) s.downstream_identities
            v.distinct;
      selected =
          unselect-IsSelected n s.selected_downstream_identity s.downstream_identities v.selected;
    }

    select-IsValid : (n : ℕ) → IsValid (select_downstream_identity node_id_of s n).1
    unfolding select_downstream_identity
    select-IsValid n =
        elim (Option-cases (find_if (has_node_id node_id_of n) s.downstream_identities)) [
          | inl e ↦ rw (select_downstream_identity, e) v
          | inr (p, e) ↦
              rw (select_downstream_identity, e)
                (record {
                  distinct = v.distinct;
                  selected = found-member _ s.downstream_identities p e;
                })
        ]

    step-IsValid : (c : Call) → IsValid (step s c)
    unfolding add_downstream_identity add_private_key rem_private_key clear_identities
    step-IsValid (adds none) = v
    step-IsValid (adds (some p)) = add-IsValid p
    step-IsValid (rems n) = rem-IsValid n
    step-IsValid (selects n) = select-IsValid n
    step-IsValid (adds_key n key) = record { distinct = v.distinct; selected = v.selected }
    step-IsValid (rems_key n) = record { distinct = v.distinct; selected = v.selected }
    step-IsValid clears = record { distinct = tt; selected = refl }

  -- Any calls keep the invariant of the identities: their node ids are distinct, and one of them is
  -- selected, unless there is none.
  pub run-IsValid : (s : Identities) (calls : List Call) → IsValid s → IsValid (run s calls)
  run-IsValid s [] v = v
  run-IsValid s (c ∷ calls) v = run-IsValid (step s c) calls (step-IsValid s v c)
