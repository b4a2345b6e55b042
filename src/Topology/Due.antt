-- ===== src/Topology/Due.antt =====
-- node.cpp: every call keeps the beacons armed.
use bfc_tunnel.Base.{
  ℕ, suc, ◌+◌, ◌≡◌, refl, Bool, true, none, some, List, [], ◌∷◌, ◌++◌, map, arith, ◌==◌, leb, inl,
  inr, Bool-cases, Option-cases,
}
use bfc_tunnel.Base.Bags.{count, one_if, both, Occurs, count_unique, count-ext}
use bfc_tunnel.Network.{find_if, erase_if, remove_if}
use bfc_tunnel.Topology.{
  is_equal, PeerAddress, Beacon, Topology, rearm, is_beacon, has_number, on_beacon_timer_expired,
  add_beacon, add_beacons, cancel_beacons, on_port, at_address, port_peers, unicast_peers, add_port,
  add_static_peer, rem_port, rem_static_peer, uninitialize, expire_timer,
}
use bfc_tunnel.Topology.Counting.{count-append_one, count-erase_if, found-Occurs}
use bfc_tunnel.Topology.Plan
use bfc_tunnel.Topology.Reconfigured.{set_node_config-IsArmed}
use bfc_tunnel.Topology.Armed.{
  IsArmed, IsArmed-plan, unissued_beacon, count-cancel_beacons, count-rearm, timer_unissued,
  add_beacon-IsArmed, rem_beacon-IsArmed,
}

module _ (t : Topology) (a : IsArmed t) where
  expire_timer-IsArmed : (i : ℕ) → IsArmed (expire_timer t i).1
  unfolding on_beacon_timer_expired expire_timer
  expire_timer-IsArmed i = elim (Option-cases (find_if (has_number i) t.timers)) [
    | inl e ↦ rw (expire_timer, e) a
    | inr ((n, beacon), e) ↦
        let j = beacon.beacon_id in
        let moved : (p : ℕ × Beacon → Bool)
            → count p (map (rearm j t.next_timer) t.beacons) + one_if (p (n, beacon))
              ≡ count p t.beacons + one_if (p (t.next_timer, beacon)) =
          λ p.
            let listed : Occurs (n, beacon) t.beacons = λ r hit.
              omega (arith, found-Occurs (has_number i) t.timers (n, beacon) e r hit, a.armed r) in
            omega (
              arith,
              count-rearm p j t.next_timer t.beacons,
              count_unique p (is_beacon j) t.beacons (n, beacon) listed (ground arith)
                  (a.one_beacon j),
              count_unique (λ d. p (t.next_timer, d.1)) (is_beacon j) t.beacons (n, beacon) listed
                  (ground arith) (a.one_beacon j),
            ) in
        rw (expire_timer, e)
          (record {
            armed = λ p. omega (
              arith,
              moved p,
              a.armed p,
              count-erase_if p (has_number i) t.timers (n, beacon) e,
              count-append_one p (erase_if (has_number i) t.timers) (t.next_timer, beacon),
            );
            one_timer = λ k. ground (
              arith,
              moved (has_number k),
              a.one_timer k,
              timer_unissued t (has_number t.next_timer) a (λ e h. ground arith),
            );
            one_beacon = λ k. omega (arith, moved (is_beacon k), a.one_beacon k);
            issued_timers = ground (
              arith,
              moved (λ e. leb (suc t.next_timer) e.0),
              timer_unissued t (λ e. leb (suc t.next_timer) e.0) a (λ e h. ground arith),
            );
            issued_beacons = omega (arith, moved (unissued_beacon t), a.issued_beacons);
          })
  ]

  uninitialize-IsArmed : IsArmed (uninitialize t)
  unfolding uninitialize
  uninitialize-IsArmed = elim (Bool-cases t.is_initialized) [
    | inr off ↦ rw off (IsArmed-plan t _ refl refl refl refl a)
    | inl on ↦
        let everything : PeerAddress → Bool = λ _. true in
        let gone : (p : ℕ × Beacon → Bool)
            → count p (cancel_beacons everything t.beacons t.timers) ≡ 0 =
          λ p. omega (
            arith,
            count-cancel_beacons everything p t.beacons t.timers (λ r. omega (arith, a.armed r))
                (λ i. omega (arith, a.one_timer i, a.armed (has_number i))),
            count-ext (both p (λ e. everything e.1.peer)) p t.beacons (λ e. ground arith),
            a.armed p,
          ) in
        rw on (record {
          armed = gone;
          one_timer = λ i. omega arith;
          one_beacon = λ j. omega arith;
          issued_timers = refl;
          issued_beacons = refl;
        })
  ]

add_beacons-IsArmed :
    (t : Topology) (new : List PeerAddress) → IsArmed t → IsArmed (add_beacons t new)
unfolding add_beacons
add_beacons-IsArmed t [] a = a
add_beacons-IsArmed t (peer ∷ new) a =
    add_beacons-IsArmed (add_beacon t peer) new (add_beacon-IsArmed t a peer)

module _ (is_multicast : ℕ → Bool) where
  step-IsArmed : (t : Topology) (c : Plan.Call) → IsArmed t → IsArmed (Plan.step is_multicast t c)
  unfolding add_port add_static_peer rem_port rem_static_peer
  step-IsArmed t (Plan.adds_port none) a = IsArmed-plan t _ refl refl refl refl a
  step-IsArmed t (Plan.adds_port (some p)) a =
      add_beacons-IsArmed
        (record t {
          is_initialized = true;
          ports = t.ports ++ p ∷ [];
          read_ready = t.read_ready ++ p ∷ [];
        })
        (port_peers is_multicast t.static_peers p) (IsArmed-plan t _ refl refl refl refl a)
  step-IsArmed t (Plan.rems_port p) a =
      rem_beacon-IsArmed
        (record t {
          ports = remove_if (λ o. o == p) t.ports;
          read_ready = remove_if (λ o. o == p) t.read_ready;
        })
        (IsArmed-plan t _ refl refl refl refl a) (on_port p)
  step-IsArmed t (Plan.adds_static_peer s) a =
      add_beacons-IsArmed (record t { static_peers = t.static_peers ++ s ∷ [] })
        (unicast_peers is_multicast s t.ports) (IsArmed-plan t _ refl refl refl refl a)
  step-IsArmed t (Plan.rems_static_peer s) a =
      rem_beacon-IsArmed
        (record t { static_peers = remove_if (λ peer. is_equal peer s) t.static_peers })
        (IsArmed-plan t _ refl refl refl refl a) (at_address s)
  step-IsArmed t (Plan.expires i) a = expire_timer-IsArmed t a i
  step-IsArmed t (Plan.sets_config interval) a = set_node_config-IsArmed t interval a
  step-IsArmed t Plan.uninitializes a = uninitialize-IsArmed t a

  -- Any calls, new configurations among them, keep the invariant of the beacons' timers: the pending
  -- timers are those of the beacons, and no two beacons or timers have one number.
  pub run-IsArmed :
      (t : Topology) (calls : List Plan.Call) → IsArmed t → IsArmed (Plan.run is_multicast t calls)
  run-IsArmed t [] a = a
  run-IsArmed t (c ∷ calls) a = run-IsArmed (Plan.step is_multicast t c) calls (step-IsArmed t c a)
