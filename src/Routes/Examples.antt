-- ===== src/Routes/Examples.antt =====
-- route_manager.cpp: tests on a concrete table.
use bfc_tunnel.Base.{ℕ, ◌≡◌, refl, false, List, [], ◌∷◌, All}
use bfc_tunnel.Network.{find_if, is_member}
use bfc_tunnel.Routes.{RouteEntry, RouteManager, has_target, update_route}
use bfc_tunnel.Routes.Table.{AtMost, targets}
use bfc_tunnel.Routes.Update.{IsVisit, update_route-best, update_route-again}

abbrev in_place : List RouteEntry → List RouteEntry
in_place batch = batch

in_place-IsVisit : IsVisit in_place
in_place-IsVisit batch d = (d, λ t. refl)

abbrev entry : ℕ → ℕ → ℕ → RouteEntry
entry next target metric = record { origin = 1; next = next; target = target; metric = metric }

abbrev test_table : RouteManager
test_table = record { routes_by_target = entry 2 9 5 ∷ []; last_update_delta = [] }

abbrev test_routes : List RouteEntry
test_routes = entry 3 7 4 ∷ entry 4 7 2 ∷ entry 5 8 1 ∷ []

update_route-best_example :
    let table = (update_route in_place test_table test_routes).0.routes_by_target in
    All (λ (r : RouteEntry). AtMost table r.target r.metric) test_routes
    × ((t : ℕ)
        → is_member t (targets test_routes) ≡ false
        → find_if (has_target t) table ≡ find_if (has_target t) test_table.routes_by_target)
update_route-best_example = update_route-best in_place in_place-IsVisit test_table test_routes

update_route-again_example :
    let table = (update_route in_place test_table test_routes).0.routes_by_target in
    update_route in_place (update_route in_place test_table test_routes).0 test_routes
    ≡ (record { routes_by_target = table; last_update_delta = [] }, false)
update_route-again_example = update_route-again in_place in_place-IsVisit test_table test_routes
