-- ===== src/Topology/Sent.antt =====
-- node.cpp: where beacons are sent.
use bfc_tunnel.Base.{ℕ, ◌≡◌, Bool, some, List, arith, inl, inr, Option-cases, All}
use bfc_tunnel.Base.Bags.{Occurs, count-map}
use bfc_tunnel.Network.{find_if}
use bfc_tunnel.Topology.{PeerAddress, Beacon, Topology, has_number, expire_timer}
use bfc_tunnel.Topology.Counting.{found-Occurs}
use bfc_tunnel.Topology.Plan
use bfc_tunnel.Topology.Wanted.{Follows, run-Follows}
use bfc_tunnel.Topology.Armed.{IsArmed}
use bfc_tunnel.Topology.Due.{run-IsArmed}
use mathlib.Core.Option.{some-injective}

-- Under the invariant, a timer that is due sends a beacon to a place of a listed beacon.
sent-Occurs :
    (t : Topology) (i : ℕ) (peer : PeerAddress)
    → IsArmed t
    → (expire_timer t i).0 ≡ some peer
    → Occurs peer (Plan.peers_of t)
unfolding expire_timer
sent-Occurs t i peer a sent test hit = elim (Option-cases (find_if (has_number i) t.timers)) [
  | inl e ↦ absurd (ground (arith, e, sent))
  | inr ((n, beacon), e) ↦
      let place : beacon.peer ≡ peer =
        some-injective beacon.peer peer (rw (expire_timer, e) at sent) in
      let at_place : ℕ × Beacon → Bool = λ d. test d.1.peer in
      omega (
        arith,
        count-map (λ (d : ℕ × Beacon). d.1.peer) test t.beacons,
        a.armed at_place,
        found-Occurs (has_number i) t.timers (n, beacon) e at_place (rw place hit),
      )
]

-- Start as in `run-Follows` with armed beacons, make any calls, new configurations among them, and
-- let a timer be due. If it sends a beacon, then to a place that the ports and the static peers ask
-- for after these calls: no beacon goes out on a port that was removed, or to a static peer that was
-- removed.
pub sent-wanted :
    (is_multicast : ℕ → Bool) (t : Topology) (calls : List Plan.Call) (i : ℕ) (peer : PeerAddress)
    → Follows is_multicast t (Plan.plan_of t)
    → IsArmed t
    → All Plan.IsCall calls
    → (expire_timer (Plan.run is_multicast t calls) i).0 ≡ some peer
    → let s = Plan.plan_run (Plan.plan_of t) calls in
      Occurs peer (Plan.wanted is_multicast s.static_peers s.ports)
sent-wanted is_multicast t calls i peer follows a ok sent test hit =
    let after = Plan.run is_multicast t calls in
    omega (
      arith,
      (run-Follows is_multicast t calls follows ok).1 test,
      sent-Occurs after i peer (run-IsArmed is_multicast t calls a) sent test hit,
    )
