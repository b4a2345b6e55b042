-- ===== src/Topology/Reconfigured.antt =====
-- node.cpp: a new configuration arms every beacon again.
use bfc_tunnel.Base.{
  ℕ, suc, ◌+◌, ◌≤◌, ◌≡◌, refl, Bool, true, List, [], ◌∷◌, map, arith, leb, if◌then◌else◌, if-both,
  inl, inr, Bool-cases,
}
use bfc_tunnel.Base.Bags.{count, one_if, both, Occurs, count-split, count_unique}
use bfc_tunnel.Network.{remove_if}
use bfc_tunnel.Topology.{
  Beacon, Topology, is_beacon, has_number, with_interval, configure, on_beacon_timer_expired,
  reconfigure_beacon, reconfigure_beacons, reconfigure, set_node_config,
}
use bfc_tunnel.Topology.Counting.{count-remove_if, count-append_one}
use bfc_tunnel.Topology.Armed.{IsArmed, IsArmed-plan, unissued_beacon, timer_unissued}

abbrev Row : Type 0
Row = ℕ × Beacon

abbrev update : ℕ → (Row → Row) → Row → Row
update j f e = if is_beacon j e then f e else e

count-update :
    (p : Row → Bool) (j : ℕ) (f : Row → Row) (beacons : List Row)
    → count p (map (update j f) beacons) + count (both p (is_beacon j)) beacons
      ≡ count p beacons + count (both (λ e. p (f e)) (is_beacon j)) beacons
count-update p j f [] = omega arith
count-update p j f (e ∷ rest) = ground (arith, count-update p j f rest)

-- A change through the pointer to a beacon replaces that one.
count-replaced :
    (p : Row → Bool) (f : Row → Row) (beacons : List Row) (e : Row)
    → Occurs e beacons
    → count (is_beacon e.1.beacon_id) beacons ≤ 1
    → count p (map (update e.1.beacon_id f) beacons) + one_if (p e)
      ≡ count p beacons + one_if (p (f e))
count-replaced p f beacons e listed once =
    let j = e.1.beacon_id in
    let own : is_beacon j e ≡ true = ground arith in
    omega (
      arith,
      count-update p j f beacons,
      count_unique p (is_beacon j) beacons e listed own once,
      count_unique (λ d. p (f d)) (is_beacon j) beacons e listed own once,
    )

module _ (t : Topology) (a : IsArmed t) (e : Row) (listed : Occurs e t.beacons) where
  abbrev after : Topology
  after = reconfigure_beacon t e

  abbrev moved : Row
  moved = (t.next_timer, (with_interval t.beacon_interval_ms e).1)

  abbrev configured : List Row
  configured = map (configure e.1.beacon_id t.beacon_interval_ms) t.beacons

  count-configured :
      (p : Row → Bool)
      → count p configured + one_if (p e)
        ≡ count p t.beacons + one_if (p (with_interval t.beacon_interval_ms e))
  count-configured p =
      count-replaced p (with_interval t.beacon_interval_ms) t.beacons e listed
        (a.one_beacon e.1.beacon_id)

  configured-Occurs : Occurs (with_interval t.beacon_interval_ms e) configured
  configured-Occurs p hit = elim (Bool-cases (p e)) [
    | inl old ↦ ground (arith, count-configured p, listed p old, hit, old)
    | inr new ↦ ground (arith, count-configured p, hit, new)
  ]

  count-moved :
      (p : Row → Bool) → count p after.beacons + one_if (p e) ≡ count p t.beacons + one_if (p moved)
  unfolding reconfigure_beacon on_beacon_timer_expired
  count-moved p =
      let j = e.1.beacon_id in
      let changed = with_interval t.beacon_interval_ms e in
      let same : (is_beacon j e ≡ true) × (is_beacon j changed ≡ true) =
        (ground arith, ground arith) in
      let once : count (is_beacon j) configured ≤ 1 =
        ground (arith, count-configured (is_beacon j), a.one_beacon j, same.0, same.1) in
      omega (
        arith,
        count-configured p,
        count-replaced p (λ d. (t.next_timer, d.1)) configured changed configured-Occurs once,
      )

  count-timers :
      (p : Row → Bool) → count p after.timers + one_if (p e) ≡ count p t.timers + one_if (p moved)
  unfolding reconfigure_beacon on_beacon_timer_expired
  count-timers p =
      let pending : Occurs e t.timers = λ r hit. omega (arith, listed r hit, a.armed r) in
      let once : count (has_number e.0) t.timers ≤ 1 =
        omega (arith, a.one_timer e.0, a.armed (has_number e.0)) in
      omega (
        arith,
        count_unique p (has_number e.0) t.timers e pending (ground arith) once,
        count-split p (has_number e.0) t.timers,
        count-remove_if p (has_number e.0) t.timers,
        count-append_one p (remove_if (has_number e.0) t.timers) moved,
      )

  reconfigure_beacon-IsArmed : IsArmed (reconfigure_beacon t e)
  unfolding reconfigure_beacon on_beacon_timer_expired
  reconfigure_beacon-IsArmed = record {
    armed = λ p. omega (arith, count-moved p, count-timers p, a.armed p);
    one_timer = λ k. ground (
      arith,
      count-moved (has_number k),
      a.one_timer k,
      timer_unissued t (has_number t.next_timer) a (λ d h. ground arith),
    );
    one_beacon = λ k. omega (arith, count-moved (is_beacon k), a.one_beacon k);
    issued_timers = ground (
      arith,
      count-moved (λ d. leb (suc t.next_timer) d.0),
      timer_unissued t (λ d. leb (suc t.next_timer) d.0) a (λ d h. ground arith),
    );
    issued_beacons = omega (arith, count-moved (unissued_beacon t), a.issued_beacons);
  }

-- The beacons whose turn is still to come are listed.
reconfigure_beacons-IsArmed :
    (t : Topology) (rest : List Row)
    → IsArmed t
    → ((p : Row → Bool) → count p rest ≤ count p t.beacons)
    → IsArmed (reconfigure_beacons t rest)
unfolding reconfigure_beacons
reconfigure_beacons-IsArmed t [] a listed = a
reconfigure_beacons-IsArmed t (e ∷ rest) a listed =
    let own : Occurs e t.beacons = λ p hit. ground (arith, listed p, hit) in
    reconfigure_beacons-IsArmed (reconfigure_beacon t e) rest (reconfigure_beacon-IsArmed t a e own)
      (λ p. omega (arith, count-moved t a e own p, listed p))

pub set_node_config-IsArmed :
    (t : Topology) (interval : ℕ) → IsArmed t → IsArmed (set_node_config t interval)
unfolding set_node_config reconfigure
set_node_config-IsArmed t interval a =
    let set = record t { beacon_interval_ms = interval } in
    let b : IsArmed set = IsArmed-plan t set refl refl refl refl a in
    if-both IsArmed t.is_initialized (reconfigure_beacons set t.beacons) set
      (reconfigure_beacons-IsArmed set t.beacons b (λ p. omega arith)) b
