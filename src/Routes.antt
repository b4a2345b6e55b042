-- ===== src/Routes.antt =====
-- src/bfc_tunnel/route_manager.{hpp,cpp}: the table of the best route to each target.
-- A map is a list of its entries, each found by its target; `order` is the order in which the loop of
-- `update_route` visits the entries of the batch.
pub mod Table
pub mod Update
mod Examples
use bfc_tunnel.Base.{
  ℕ, Bool, true, false, not, ◌&&◌, ◌||◌, Option, none, some, List, [], ◌∷◌, ◌++◌, ltb, ◌==◌,
  if◌then◌else◌,
}
use bfc_tunnel.Network.{find_if}

pub record RouteEntry : Type 0 where
  pub origin : ℕ
  pub next : ℕ
  pub target : ℕ
  pub metric : ℕ

pub record RouteManager : Type 0 where
  pub routes_by_target : List RouteEntry
  pub last_update_delta : List RouteEntry

abbrev pub has_target : ℕ → RouteEntry → Bool
has_target t e = e.target == t

abbrev pub route_entries_equal : RouteEntry → RouteEntry → Bool
route_entries_equal a b =
    (a.origin == b.origin) && (a.next == b.next) && (a.target == b.target) && (a.metric == b.metric)

-- `map[e.target] = e`.
unfoldable pub put : RouteEntry → List RouteEntry → List RouteEntry
put e [] = e ∷ []
put e (x ∷ xs) = if has_target e.target x then e ∷ xs else x ∷ put e xs

-- One step of the loop of `best_per_target`.
unfoldable pub offer : List RouteEntry → RouteEntry → List RouteEntry
unfolding put find_if
offer out e = elim (find_if (has_target e.target) out) [
  | none ↦ put e out
  | some old ↦ if ltb e.metric old.metric then put e out else out
]

unfoldable pub best_from : List RouteEntry → List RouteEntry → List RouteEntry
unfolding offer
best_from out [] = out
best_from out (e ∷ routes) = best_from (offer out e) routes

unfoldable pub best_per_target : List RouteEntry → List RouteEntry
unfolding best_from
best_per_target routes = best_from [] routes

abbrev pub is_changed : List RouteEntry → RouteEntry → Bool
is_changed table e = elim (find_if (has_target e.target) table) [
  | none ↦ true
  | some old ↦ not (route_entries_equal old e)
]

-- The loop of `update_route`: the table, the delta so far and whether anything has changed.
unfoldable pub apply :
    List RouteEntry → List RouteEntry → List RouteEntry → Bool → RouteManager × Bool
unfolding put find_if
apply [] table delta changed =
    (record { routes_by_target = table; last_update_delta = delta }, changed)
apply (e ∷ batch) table delta changed =
    let same = apply batch table delta changed in
    let stored = apply batch (put e table) (delta ++ e ∷ []) true in
    if is_changed table e then stored else same

unfoldable pub update_route :
    (List RouteEntry → List RouteEntry) → RouteManager → List RouteEntry → RouteManager × Bool
unfolding apply best_per_target
update_route order m routes = apply (order (best_per_target routes)) m.routes_by_target [] false
