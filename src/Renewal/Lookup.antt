-- ===== src/Renewal/Lookup.antt =====
-- node.cpp: finding the context with an id after it is made, changed or removed.
use bfc_tunnel.Base.{
  ℕ, ◌≡◌, ◌≢◌, ◌∙◌, refl, sym, Bool, true, false, Option, none, some, List, [], ◌∷◌, map, arith,
  ◌==◌, inl, inr, Bool-cases,
}
use mathlib.Core.Option.{some-injective}
use mathlib.Core.Path.{ap}
use bfc_tunnel.Network.{find_if, remove_if, is_member}
use bfc_tunnel.Network.Keyed.{Distinct}
use bfc_tunnel.Peer.{SecurityCtx}
use bfc_tunnel.Renewal.{has_ctx, new_ctx, peer_get_or_create_sec_ctx, change, is_context}

abbrev pub Rows : Type 0
Rows = List (ℕ × SecurityCtx)

abbrev pub id_of : ℕ × SecurityCtx → ℕ
id_of e = e.1.id

-- The ids of the contexts are distinct.
abbrev pub IsDistinct : Rows → Type 0
IsDistinct cs = Distinct (map id_of cs)

module _ (i : ℕ) where
  -- The context that a reference to the id stands for, made if it is not there.
  abbrev pub found_or_new : Option (ℕ × SecurityCtx) → ℕ × SecurityCtx
  found_or_new none = (0, new_ctx i)
  found_or_new (some e) = e

  pub find-create :
      (cs : Rows)
      → find_if (has_ctx i) (peer_get_or_create_sec_ctx i cs)
        ≡ some (found_or_new (find_if (has_ctx i) cs))
  unfolding find_if peer_get_or_create_sec_ctx
  find-create [] = ground arith
  find-create (e ∷ cs) = elim (Bool-cases (has_ctx i e)) [
    | inl here ↦ rw (here, here) refl
    | inr on ↦ rw (on, on) (find-create cs)
  ]

  pub find-change :
      (f : ℕ × SecurityCtx → ℕ × SecurityCtx) (cs : Rows) (e : ℕ × SecurityCtx)
      → ((d : ℕ × SecurityCtx) → id_of (f d) ≡ id_of d)
      → find_if (has_ctx i) cs ≡ some e
      → find_if (has_ctx i) (change i f cs) ≡ some (f e)
  unfolding find_if change
  find-change f [] e same h = absurd (ground arith)
  find-change f (d ∷ cs) e same h = elim (Bool-cases (has_ctx i d)) [
    | inl here ↦
        let one : d ≡ e = some-injective d e (ground (arith, h)) in
        let hit : has_ctx i (f d) ≡ true = ap (λ n. n == i) (same d) ∙ here in
        rw here (rw hit (ap (λ c. some (f c)) one))
    | inr on ↦ rw (on, on) (find-change f cs e same (ground (arith, h)))
  ]

  absent-create :
      (n : ℕ) (cs : Rows)
      → n ≢ i
      → is_member n (map id_of cs) ≡ false
      → is_member n (map id_of (peer_get_or_create_sec_ctx i cs)) ≡ false
  unfolding is_member peer_get_or_create_sec_ctx
  absent-create n [] ne h = ground arith
  absent-create n (e ∷ cs) ne h = ground (arith, absent-create n cs ne)

  pub create-IsDistinct : (cs : Rows) → IsDistinct cs → IsDistinct (peer_get_or_create_sec_ctx i cs)
  unfolding peer_get_or_create_sec_ctx
  create-IsDistinct [] d = (unfold is_member in refl, tt)
  create-IsDistinct (e ∷ cs) d = elim (Bool-cases (has_ctx i e)) [
    | inl here ↦ rw here d
    | inr on ↦ rw on (absent-create (id_of e) cs (ground (arith, on)) d.0, create-IsDistinct cs d.1)
  ]

  pub ids-change :
      (f : ℕ × SecurityCtx → ℕ × SecurityCtx) (cs : Rows)
      → ((d : ℕ × SecurityCtx) → id_of (f d) ≡ id_of d)
      → map id_of (change i f cs) ≡ map id_of cs
  unfolding change
  ids-change f [] same = refl
  ids-change f (e ∷ cs) same = elim (Bool-cases (has_ctx i e)) [
    | inl here ↦ rw here (rw (same e) refl)
    | inr on ↦ rw on (rw (ids-change f cs same) refl)
  ]

  absent-find : (cs : Rows) → is_member i (map id_of cs) ≡ false → find_if (has_ctx i) cs ≡ none
  unfolding is_member find_if
  absent-find [] h = refl
  absent-find (e ∷ cs) h = ground (arith, absent-find cs)

  absent-remove :
      (q : ℕ × SecurityCtx → Bool) (cs : Rows)
      → is_member i (map id_of cs) ≡ false
      → find_if (has_ctx i) (remove_if q cs) ≡ none
  unfolding is_member find_if remove_if
  absent-remove q [] h = refl
  absent-remove q (e ∷ cs) h = ground (arith, absent-remove q cs)

  -- Where the ids are distinct, the context that is found is gone when it is removed.
  pub find-remove :
      (cs : Rows) (e : ℕ × SecurityCtx)
      → IsDistinct cs
      → find_if (has_ctx i) cs ≡ some e
      → find_if (has_ctx i) (remove_if (is_context i e.1.creation_id) cs) ≡ none
  unfolding find_if remove_if
  find-remove [] e d h = refl
  find-remove (c ∷ cs) e d h = elim (Bool-cases (has_ctx i c)) [
    | inl here ↦
        let one : c ≡ e = some-injective c e (ground (arith, h)) in
        let at : id_of c ≡ i = ground arith in
        let gone = absent-remove (is_context i e.1.creation_id) cs (rw at at d.0) in
        let hit : is_context i e.1.creation_id c ≡ true = rw (sym one) (ground arith) in rw hit gone
    | inr on ↦
        let miss : is_context i e.1.creation_id c ≡ false = ground arith in
        rw (miss, on) (find-remove cs e d.1 (ground (arith, h)))
  ]
