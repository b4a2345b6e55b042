-- ===== src/Routes/Update.antt =====
-- route_manager.cpp, update_route: what the table holds afterwards, and what is reported.
use bfc_tunnel.Base.{
  ℕ, ◌≡◌, refl, Bool, true, false, Option, none, some, List, [], ◌∷◌, ◌++◌, arith, All, ◌==◌,
  Bool-cases, Option-cases, inl, inr, ◌∙◌, sym, ap,
}
use bfc_tunnel.Network.{find_if, is_member}
use bfc_tunnel.Network.Keyed.{Distinct, find_if-absent}
use bfc_tunnel.Routes.{
  RouteEntry, RouteManager, has_target, put, is_changed, apply, best_per_target, update_route,
  route_entries_equal,
}
use bfc_tunnel.Routes.Table.{
  AtMost, targets, find_if-put_self, find_if-put_other, best_per_target-AtMost,
  best_per_target-absent,
}

-- The first of two answers that exists.
abbrev pub or_else : Option RouteEntry → Option RouteEntry → Option RouteEntry
or_else none o = o
or_else (some e) o = some e

-- A loop over the entries of a map visits each once, in some order.
abbrev pub IsVisit : (List RouteEntry → List RouteEntry) → Type 0
IsVisit order =
    (batch : List RouteEntry)
    → Distinct (targets batch)
    → Distinct (targets (order batch))
      × ((t : ℕ) → find_if (has_target t) (order batch) ≡ find_if (has_target t) batch)

equal-entries : (a b : RouteEntry) → route_entries_equal a b ≡ true → a ≡ b
equal-entries a b h =
    let e : (a.origin ≡ b.origin)
        × (a.next ≡ b.next)
        × (a.target ≡ b.target)
        × (a.metric ≡ b.metric) =
      ground arith in
    rw (e.0, e.1, e.2, e.3) refl

unchanged-found :
    (table : List RouteEntry) (e : RouteEntry)
    → is_changed table e ≡ false
    → find_if (has_target e.target) table ≡ some e
unchanged-found table e h = elim (Option-cases (find_if (has_target e.target) table)) [
  | inl absent ↦ absurd (ground (arith, absent))
  | inr (old, found) ↦ found ∙ ap some (equal-entries old e (ground (arith, found)))
]

apply-find :
    (batch table delta : List RouteEntry) (changed : Bool) (t : ℕ)
    → Distinct (targets batch)
    → find_if (has_target t) (apply batch table delta changed).0.routes_by_target
      ≡ or_else (find_if (has_target t) batch) (find_if (has_target t) table)
unfolding apply
apply-find [] table delta changed t d = unfold find_if in refl
apply-find (e ∷ batch) table delta changed t d =
    let stored = apply-find batch (put e table) (delta ++ e ∷ []) true t d.1 in
    let kept = apply-find batch table delta changed t d.1 in
    elim (Bool-cases (e.target == t)) [
      | inl here ↦
          let same : e.target ≡ t = ground arith in
          let alone : find_if (has_target t) batch ≡ none =
            find_if-absent (λ (x : RouteEntry). x.target) t batch (rw same at d.0) in
          elim (Bool-cases (is_changed table e)) [
            | inl new ↦
                let put_in = find_if-put_self t e table same in
                unfold find_if in (ground (arith, new, stored, alone, put_in))
            | inr old ↦
                let there : find_if (has_target t) table ≡ some e =
                  ap (λ n. find_if (has_target n) table) (sym same) ∙ unchanged-found table e old in
                unfold find_if in (ground (arith, old, kept, alone, there))
          ]
      | inr elsewhere ↦
          let put_in = find_if-put_other t e table (ground arith) in
          unfold find_if in (ground (arith, stored, kept, put_in))
    ]

-- Entries that the table holds already change nothing.
apply-known :
    (batch table delta : List RouteEntry) (changed : Bool)
    → All (λ (e : RouteEntry). find_if (has_target e.target) table ≡ some e) batch
    → apply batch table delta changed
      ≡ (record { routes_by_target = table; last_update_delta = delta }, changed)
unfolding apply
apply-known [] table delta changed h = refl
apply-known (e ∷ batch) table delta changed h =
    let equal : route_entries_equal e e ≡ true = ground arith in
    let known : is_changed table e ≡ false = ground (arith, h.0, equal) in
    ground (arith, known, apply-known batch table delta changed h.1)

found-cons :
    (x : RouteEntry) (xs ys : List RouteEntry)
    → All (λ (e : RouteEntry). find_if (has_target e.target) xs ≡ some e) ys
    → is_member x.target (targets ys) ≡ false
    → All (λ (e : RouteEntry). find_if (has_target e.target) (x ∷ xs) ≡ some e) ys
unfolding find_if is_member
found-cons x xs [] h free = tt
found-cons x xs (y ∷ ys) h free = (ground (arith, h.0), found-cons x xs ys h.1 (ground arith))

-- The entries of a list whose targets differ are those that are found in it.
found-All :
    (batch : List RouteEntry)
    → Distinct (targets batch)
    → All (λ (e : RouteEntry). find_if (has_target e.target) batch ≡ some e) batch
found-All [] d = tt
found-All (x ∷ xs) d = (unfold find_if in (ground arith), found-cons x xs xs (found-All xs d.1) d.0)

module _ (order : List RouteEntry → List RouteEntry) (visit : IsVisit order) where
  -- After an update the table holds, for each target, the entry of the batch, and where there is
  -- none, the entry that it held before.
  update_route-find :
      (m : RouteManager) (routes : List RouteEntry) (t : ℕ)
      → find_if (has_target t) (update_route order m routes).0.routes_by_target
        ≡ or_else
            (find_if (has_target t) (best_per_target routes))
            (find_if (has_target t) m.routes_by_target)
  unfolding update_route
  update_route-find m routes t =
      let d = visit (best_per_target routes) (best_per_target-AtMost routes).0 in
      apply-find (order (best_per_target routes)) m.routes_by_target [] false t d.0
      ∙ ap (λ o. or_else o (find_if (has_target t) m.routes_by_target)) (d.1 t)

  update_route-AtMost :
      (m : RouteManager) (routes rs : List RouteEntry)
      → All (λ (r : RouteEntry). AtMost (best_per_target routes) r.target r.metric) rs
      → All
          (λ (r : RouteEntry).
            AtMost (update_route order m routes).0.routes_by_target r.target r.metric)
          rs
  update_route-AtMost m routes [] h = tt
  update_route-AtMost m routes (r ∷ rs) h =
      let (e, found, low) = h.0 in
      (
        (
          e,
          update_route-find m routes r.target
              ∙ ap (λ o. or_else o (find_if (has_target r.target) m.routes_by_target)) found,
          low,
        ),
        update_route-AtMost m routes rs h.1,
      )

  -- After an update the table has, for every route that was offered, one to the same target whose
  -- metric is not greater, and for every other target the entry that it had before, if any. It is
  -- assumed that the loop over the batch visits each of its entries once.
  pub update_route-best :
      (m : RouteManager) (routes : List RouteEntry)
      → let table = (update_route order m routes).0.routes_by_target in
        All (λ (r : RouteEntry). AtMost table r.target r.metric) routes
        × ((t : ℕ)
            → is_member t (targets routes) ≡ false
            → find_if (has_target t) table ≡ find_if (has_target t) m.routes_by_target)
  update_route-best m routes = (
    update_route-AtMost m routes routes (best_per_target-AtMost routes).1,
    λ t absent.
        update_route-find m routes t
        ∙ ap (λ o. or_else o (find_if (has_target t) m.routes_by_target))
            (best_per_target-absent routes t absent),
  )

  held-All :
      (m : RouteManager) (routes batch : List RouteEntry)
      → All
          (λ (e : RouteEntry).
            find_if (has_target e.target) (order (best_per_target routes)) ≡ some e)
          batch
      → All
          (λ (e : RouteEntry).
            find_if (has_target e.target) (update_route order m routes).0.routes_by_target ≡ some e)
          batch
  held-All m routes [] h = tt
  held-All m routes (e ∷ batch) h =
      let d = visit (best_per_target routes) (best_per_target-AtMost routes).0 in
      (
        update_route-find m routes e.target
            ∙ ap (λ o. or_else o (find_if (has_target e.target) m.routes_by_target))
                (sym (d.1 e.target) ∙ h.0),
        held-All m routes batch h.1,
      )

  -- Offering the same routes once more changes nothing, and is reported so: the delta is empty and the
  -- answer is false. It is assumed that the loop over the batch visits each of its entries once.
  pub update_route-again :
      (m : RouteManager) (routes : List RouteEntry)
      → let table = (update_route order m routes).0.routes_by_target in
        update_route order (update_route order m routes).0 routes
        ≡ (record { routes_by_target = table; last_update_delta = [] }, false)
  update_route-again m routes =
      let d = visit (best_per_target routes) (best_per_target-AtMost routes).0 in
      known (update_route order m routes).0 routes (
        held-All m routes (order (best_per_target routes))
          (found-All (order (best_per_target routes)) d.0))
    where
      known :
          (n : RouteManager) (routes : List RouteEntry)
          → All
              (λ (e : RouteEntry). find_if (has_target e.target) n.routes_by_target ≡ some e)
              (order (best_per_target routes))
          → update_route order n routes
            ≡ (record { routes_by_target = n.routes_by_target; last_update_delta = [] }, false)
      known n routes h = unfold update_route in (apply-known _ n.routes_by_target [] false h)
