-- ===== src/Routes/Table.antt =====
-- route_manager.cpp, best_per_target: the batch holds the best offer for each target.
use bfc_tunnel.Base.{
  ℕ, ◌≡◌, ◌≢◌, ◌⊎◌, ap, ◌≤◌, ◌<◌, refl, false, none, some, List, [], ◌∷◌, map, arith, All, ◌==◌,
  ltb, Bool-cases, Option-cases, inl, inr, ◌∙◌, sym,
}
use mathlib.Core.Path.{subst}
use mathlib.Core.Option.{some-injective}
use bfc_tunnel.Network.{find_if, is_member}
use bfc_tunnel.Network.Keyed.{Distinct}
use bfc_tunnel.Routes.{RouteEntry, has_target, put, offer, best_from, best_per_target}

abbrev pub targets : List RouteEntry → List ℕ
targets table = map (λ (e : RouteEntry). e.target) table

pub find_if-put_self :
    (t : ℕ) (e : RouteEntry) (table : List RouteEntry)
    → e.target ≡ t
    → find_if (has_target t) (put e table) ≡ some e
unfolding find_if put
find_if-put_self t e [] here = ground arith
find_if-put_self t e (x ∷ xs) here = ground (arith, find_if-put_self t e xs here)

pub find_if-put_other :
    (t : ℕ) (e : RouteEntry) (table : List RouteEntry)
    → e.target ≢ t
    → find_if (has_target t) (put e table) ≡ find_if (has_target t) table
unfolding find_if put
find_if-put_other t e [] ne = ground arith
find_if-put_other t e (x ∷ xs) ne = ground (arith, find_if-put_other t e xs ne)

is_member-put :
    (n : ℕ) (e : RouteEntry) (table : List RouteEntry)
    → is_member n (targets table) ≡ false
    → e.target ≢ n
    → is_member n (targets (put e table)) ≡ false
unfolding is_member put
is_member-put n e [] h ne = ground arith
is_member-put n e (x ∷ xs) h ne = ground (arith, is_member-put n e xs)

Distinct-put :
    (e : RouteEntry) (table : List RouteEntry)
    → Distinct (targets table)
    → Distinct (targets (put e table))
unfolding put
Distinct-put e [] d = (unfold is_member in refl, tt)
Distinct-put e (x ∷ xs) d = elim (Bool-cases (x.target == e.target)) [
  | inl here ↦ let same : x.target ≡ e.target = ground arith in rw here ((rw same at d.0), d.1)
  | inr on ↦ rw on (is_member-put x.target e xs d.0 (ground arith), Distinct-put e xs d.1)
]

-- A target's offer is at most as long as `m`.
abbrev pub AtMost : List RouteEntry → ℕ → ℕ → Type 0
AtMost table t m = (e : RouteEntry) × (find_if (has_target t) table ≡ some e) × (e.metric ≤ m)

-- An offer is put where it is the first or a better one, and otherwise the table stays.
offer-cases :
    (out : List RouteEntry) (e : RouteEntry)
    → ((offer out e ≡ put e out)
        × ((x : RouteEntry) → find_if (has_target e.target) out ≡ some x → e.metric < x.metric))
      ⊎ ((x : RouteEntry) × (find_if (has_target e.target) out ≡ some x)
          × (x.metric ≤ e.metric)
          × (offer out e ≡ out))
unfolding offer
offer-cases out e = elim (Option-cases (find_if (has_target e.target) out)) [
  | inl absent ↦ inl (ground (arith, absent), λ x found. absurd (ground (arith, absent, found)))
  | inr (x, found) ↦ elim (Bool-cases (ltb e.metric x.metric)) [
    | inl better ↦ inl (
      ground (arith, found, better),
      λ y again.
          let same : x ≡ y = some-injective x y (sym found ∙ again) in
          let shorter : e.metric < x.metric = ground arith in
          subst (λ (z : RouteEntry). e.metric < z.metric) same shorter,
    )
    | inr worse ↦ inr (x, found, ground arith, ground (arith, found, worse))
  ]
]

Distinct-offer :
    (out : List RouteEntry) (e : RouteEntry)
    → Distinct (targets out)
    → Distinct (targets (offer out e))
Distinct-offer out e d = elim (offer-cases out e) [
  | inl (made, better) ↦ rw made (Distinct-put e out d)
  | inr (x, found, low, made) ↦ rw made d
]

offer-AtMost :
    (out : List RouteEntry) (e : RouteEntry) (t m : ℕ) → AtMost out t m → AtMost (offer out e) t m
offer-AtMost out e t m (x, found, low) = elim (offer-cases out e) [
  | inl (made, better) ↦ elim (Bool-cases (e.target == t)) [
    | inl here ↦
        let same : e.target ≡ t = ground arith in
        let shorter : e.metric < x.metric =
          better x (ap (λ n. find_if (has_target n) out) same ∙ found) in
        (e, rw made (find_if-put_self t e out same), omega arith)
    | inr elsewhere ↦ (x, rw made (find_if-put_other t e out (ground arith) ∙ found), low)
  ]
  | inr (y, held, longer, made) ↦ (x, rw made found, low)
]

offer-AtMost_self :
    (out : List RouteEntry) (e : RouteEntry) → AtMost (offer out e) e.target e.metric
offer-AtMost_self out e = elim (offer-cases out e) [
  | inl (made, better) ↦ (e, rw made (find_if-put_self e.target e out refl), omega arith)
  | inr (x, found, low, made) ↦ (x, rw made found, low)
]

best_from-AtMost :
    (out routes : List RouteEntry) (t m : ℕ) → AtMost out t m → AtMost (best_from out routes) t m
unfolding best_from
best_from-AtMost out [] t m h = h
best_from-AtMost out (e ∷ routes) t m h =
    best_from-AtMost (offer out e) routes t m (offer-AtMost out e t m h)

best_from-All :
    (out routes : List RouteEntry)
    → All (λ (r : RouteEntry). AtMost (best_from out routes) r.target r.metric) routes
unfolding best_from
best_from-All out [] = tt
best_from-All out (e ∷ routes) = (
  best_from-AtMost (offer out e) routes e.target e.metric (offer-AtMost_self out e),
  best_from-All (offer out e) routes,
)

best_from-Distinct :
    (out routes : List RouteEntry)
    → Distinct (targets out)
    → Distinct (targets (best_from out routes))
unfolding best_from
best_from-Distinct out [] d = d
best_from-Distinct out (e ∷ routes) d =
    best_from-Distinct (offer out e) routes (Distinct-offer out e d)

-- No target stands twice in a batch, and for every route that is offered the batch has one to the
-- same target whose metric is not greater.
pub best_per_target-AtMost :
    (routes : List RouteEntry)
    → Distinct (targets (best_per_target routes))
      × All (λ (r : RouteEntry). AtMost (best_per_target routes) r.target r.metric) routes
unfolding best_per_target
best_per_target-AtMost routes = (best_from-Distinct [] routes tt, best_from-All [] routes)

-- A target that is not offered is not in the batch.
best_from-absent :
    (out routes : List RouteEntry) (t : ℕ)
    → is_member t (targets routes) ≡ false
    → find_if (has_target t) (best_from out routes) ≡ find_if (has_target t) out
unfolding best_from is_member
best_from-absent out [] t h = refl
best_from-absent out (e ∷ routes) t h =
    best_from-absent (offer out e) routes t (ground arith)
    ∙ elim (offer-cases out e)
        as (λ x. find_if (has_target t) (offer out e) ≡ find_if (has_target t) out) [
          | inl (made, better) ↦ rw made (find_if-put_other t e out (ground arith))
          | inr (x, found, low, made) ↦ rw made refl
        ]

pub best_per_target-absent :
    (routes : List RouteEntry) (t : ℕ)
    → is_member t (targets routes) ≡ false
    → find_if (has_target t) (best_per_target routes) ≡ none
unfolding best_per_target
best_per_target-absent routes t h = best_from-absent [] routes t h ∙ unfold find_if in refl
