-- ===== src/Topology/Armed.antt =====
-- node.cpp: the timers of the beacons.
use bfc_tunnel.Base.{
  ℕ, suc, ◌+◌, ◌≤◌, ◌≡◌, sym, Bool, true, List, [], ◌∷◌, ◌++◌, map, arith, leb, inl, inr,
  Bool-cases,
}
use bfc_tunnel.Base.Bags.{
  count, one_if, both, Occurs, SameItems, count-split, count_unique, count_mono,
}
use bfc_tunnel.Network.{remove_if}
use bfc_tunnel.Topology.{
  PeerAddress, Beacon, Topology, rearm, is_beacon, has_number, on_beacon_timer_expired, add_beacon,
  rem_beacon, cancel_beacons,
}
use bfc_tunnel.Topology.Counting.{count-remove_if, count-append_one}

abbrev pub unissued_timer : Topology → ℕ × Beacon → Bool
unissued_timer t e = leb t.next_timer e.0

abbrev pub unissued_beacon : Topology → ℕ × Beacon → Bool
unissued_beacon t e = leb t.next_beacon e.1.beacon_id

-- The pending timers are those of the beacons, and no number stands twice.
pub record IsArmed (t : Topology) : Type 0 where
  pub armed : SameItems t.timers t.beacons
  pub one_timer : (i : ℕ) → count (has_number i) t.beacons ≤ 1
  pub one_beacon : (j : ℕ) → count (is_beacon j) t.beacons ≤ 1
  pub issued_timers : count (unissued_timer t) t.beacons ≡ 0
  pub issued_beacons : count (unissued_beacon t) t.beacons ≡ 0

-- Cancelling the timers of a part of the beacons leaves those of the others.
pub count-cancel_beacons :
    (q : PeerAddress → Bool) (p : ℕ × Beacon → Bool) (beacons timers : List (ℕ × Beacon))
    → ((r : ℕ × Beacon → Bool) → count r beacons ≤ count r timers)
    → ((i : ℕ) → count (has_number i) timers ≤ 1)
    → count p (cancel_beacons q beacons timers) + count (both p (λ e. q e.1.peer)) beacons
      ≡ count p timers
unfolding cancel_beacons
count-cancel_beacons q p [] timers sub once = omega arith
count-cancel_beacons q p (e ∷ beacons) timers sub once = elim (Bool-cases (q e.1.peer)) [
  | inl hit ↦
      let rest = remove_if (has_number e.0) timers in
      let is_timer : Occurs e timers = λ r passes. ground (arith, sub r, passes) in
      let gone : (r : ℕ × Beacon → Bool) → count r timers ≡ count r rest + one_if (r e) = λ r.
        omega (
          arith,
          count_unique r (has_number e.0) timers e is_timer (ground arith) (once e.0),
          count-split r (has_number e.0) timers,
          count-remove_if r (has_number e.0) timers,
        ) in
      let ih =
        count-cancel_beacons q p beacons rest (λ r. omega (arith, sub r, gone r))
          (λ i. omega (arith, once i, gone (has_number i))) in
      rw hit (ground (arith, ih, gone p))
  | inr miss ↦
      let ih = count-cancel_beacons q p beacons timers (λ r. omega (arith, sub r)) once in
      rw miss (ground (arith, ih))
]

pub count-rearm :
    (p : ℕ × Beacon → Bool) (j i : ℕ) (beacons : List (ℕ × Beacon))
    → count p (map (rearm j i) beacons) + count (both p (is_beacon j)) beacons
      ≡ count p beacons + count (both (λ e. p (i, e.1)) (is_beacon j)) beacons
count-rearm p j i [] = omega arith
count-rearm p j i (e ∷ beacons) = ground (arith, count-rearm p j i beacons)

pub timer_unissued :
    (t : Topology) (p : ℕ × Beacon → Bool)
    → IsArmed t
    → ((e : ℕ × Beacon) → p e ≡ true → unissued_timer t e ≡ true)
    → count p t.beacons ≡ 0
timer_unissued t p a h = omega (arith, a.issued_timers, count_mono p (unissued_timer t) t.beacons h)

beacon_unissued :
    (t : Topology) (p : ℕ × Beacon → Bool)
    → IsArmed t
    → ((e : ℕ × Beacon) → p e ≡ true → unissued_beacon t e ≡ true)
    → count p t.beacons ≡ 0
beacon_unissued t p a h =
    omega (arith, a.issued_beacons, count_mono p (unissued_beacon t) t.beacons h)

abbrev made_beacon : Topology → PeerAddress → Beacon
made_beacon t peer = record {
  beacon_id = t.next_beacon;
  peer = peer;
  beacon_interval_ms = t.beacon_interval_ms;
}

module _ (t : Topology) (a : IsArmed t) where
  count-added :
      (peer : PeerAddress) (p : ℕ × Beacon → Bool)
      → count p (add_beacon t peer).beacons
        ≡ count p t.beacons + one_if (p (t.next_timer, made_beacon t peer))
  unfolding add_beacon on_beacon_timer_expired
  count-added peer p =
      let j = t.next_beacon in
      let new : ℕ × Beacon = (0, made_beacon t peer) in
      let again : ℕ × Beacon → Bool = λ e. p (t.next_timer, e.1) in
      omega (
        arith,
        count-rearm p j t.next_timer (t.beacons ++ new ∷ []),
        count-append_one p t.beacons new,
        count-append_one (both p (is_beacon j)) t.beacons new,
        count-append_one (both again (is_beacon j)) t.beacons new,
        beacon_unissued t (both p (is_beacon j)) a (λ e h. ground arith),
        beacon_unissued t (both again (is_beacon j)) a (λ e h. ground arith),
        self p,
        self again,
      )
    where
      self :
          (r : ℕ × Beacon → Bool)
          → one_if (both r (is_beacon t.next_beacon) (0, made_beacon t peer))
            ≡ one_if (r (0, made_beacon t peer))
      self r = ground arith

  pub add_beacon-IsArmed : (peer : PeerAddress) → IsArmed (add_beacon t peer)
  unfolding add_beacon on_beacon_timer_expired
  add_beacon-IsArmed peer = record {
    armed = λ p. omega (
      arith,
      count-added peer p,
      a.armed p,
      count-append_one p t.timers (t.next_timer, made_beacon t peer),
    );
    one_timer = λ i. ground (
      arith,
      count-added peer (has_number i),
      a.one_timer i,
      timer_unissued t (has_number t.next_timer) a (λ e h. ground arith),
    );
    one_beacon = λ j. ground (
      arith,
      count-added peer (is_beacon j),
      a.one_beacon j,
      beacon_unissued t (is_beacon t.next_beacon) a (λ e h. ground arith),
    );
    issued_timers = ground (
      arith,
      count-added peer (λ e. leb (suc t.next_timer) e.0),
      timer_unissued t (λ e. leb (suc t.next_timer) e.0) a (λ e h. ground arith),
    );
    issued_beacons = ground (
      arith,
      count-added peer (λ e. leb (suc t.next_beacon) e.1.beacon_id),
      beacon_unissued t (λ e. leb (suc t.next_beacon) e.1.beacon_id) a (λ e h. ground arith),
    );
  }

  count-kept :
      (q : PeerAddress → Bool) (p : ℕ × Beacon → Bool)
      → (count p (rem_beacon t q).beacons ≡ count p (rem_beacon t q).timers)
        × (count p (rem_beacon t q).beacons ≤ count p t.beacons)
  unfolding rem_beacon
  count-kept q p =
      let hit : ℕ × Beacon → Bool = λ e. q e.1.peer in
      let once : (i : ℕ) → count (has_number i) t.timers ≤ 1 =
        λ i. omega (arith, a.one_timer i, a.armed (has_number i)) in
      let cancelled =
        count-cancel_beacons q p t.beacons t.timers (λ r. omega (arith, a.armed r)) once in
      (
        omega (
          arith,
          cancelled,
          count-remove_if p hit t.beacons,
          count-split p hit t.beacons,
          a.armed p,
        ),
        omega (arith, count-remove_if p hit t.beacons, count-split p hit t.beacons),
      )

  pub rem_beacon-IsArmed : (q : PeerAddress → Bool) → IsArmed (rem_beacon t q)
  unfolding rem_beacon
  rem_beacon-IsArmed q = record {
    armed = λ p. sym (count-kept q p).0;
    one_timer = λ i. omega (arith, (count-kept q (has_number i)).1, a.one_timer i);
    one_beacon = λ j. omega (arith, (count-kept q (is_beacon j)).1, a.one_beacon j);
    issued_timers = omega (arith, (count-kept q (unissued_timer t)).1, a.issued_timers);
    issued_beacons = omega (arith, (count-kept q (unissued_beacon t)).1, a.issued_beacons);
  }

-- The ports and the static peers have no part in it.
pub IsArmed-plan :
    (t u : Topology)
    → t.beacons ≡ u.beacons
    → t.timers ≡ u.timers
    → t.next_beacon ≡ u.next_beacon
    → t.next_timer ≡ u.next_timer
    → IsArmed t
    → IsArmed u
IsArmed-plan t u b s n m a = record {
  armed = λ p. rw (b, s) at a.armed p;
  one_timer = λ i. rw b at a.one_timer i;
  one_beacon = λ j. rw b at a.one_beacon j;
  issued_timers = rw (b, m) at a.issued_timers;
  issued_beacons = rw (b, n) at a.issued_beacons;
}
