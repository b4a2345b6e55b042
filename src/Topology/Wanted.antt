-- ===== src/Topology/Wanted.antt =====
-- node.cpp: which beacons there are, after any calls.
use bfc_tunnel.Base.{
  ℕ, ◌+◌, ◌≡◌, ◌∙◌, refl, sym, Bool, true, none, some, List, [], ◌∷◌, ◌++◌, map, arith, ◌==◌, inl,
  inr, if-both, Bool-cases, Option-cases, All,
}
use bfc_tunnel.Base.Bags.{count, but, SameItems, count-append}
use bfc_tunnel.Network.{find_if, remove_if}
use bfc_tunnel.Topology.{
  SockAddr, is_equal, PeerAddress, Beacon, Topology, rearm, has_number, on_beacon_timer_expired,
  add_beacon, add_beacons, rem_beacon, on_port, at_address, port_peers, unicast_peers, add_port,
  add_static_peer, rem_port, rem_static_peer, uninitialize, expire_timer, configure,
  reconfigure_beacon, reconfigure_beacons, reconfigure, set_node_config,
}
use bfc_tunnel.Topology.Counting.{count-remove_if}
use bfc_tunnel.Topology.Plan
use mathlib.Core.Path.{subst}

-- The places of the beacons.
abbrev peers : List (ℕ × Beacon) → List PeerAddress
peers beacons = map (λ (e : ℕ × Beacon). e.1.peer) beacons

peers-rearm :
    (j i : ℕ) (beacons : List (ℕ × Beacon)) → peers (map (rearm j i) beacons) ≡ peers beacons
peers-rearm j i [] = refl
peers-rearm j i (e ∷ rest) = ground (arith, peers-rearm j i rest)

peers-configure :
    (j interval : ℕ) (beacons : List (ℕ × Beacon))
    → peers (map (configure j interval) beacons) ≡ peers beacons
peers-configure j interval [] = refl
peers-configure j interval (e ∷ rest) = ground (arith, peers-configure j interval rest)

peers-reconfigure :
    (t : Topology) (rest : List (ℕ × Beacon))
    → (Plan.peers_of (reconfigure_beacons t rest) ≡ Plan.peers_of t)
      × (Plan.plan_of (reconfigure_beacons t rest) ≡ Plan.plan_of t)
unfolding reconfigure_beacons reconfigure_beacon on_beacon_timer_expired
peers-reconfigure t [] = (refl, refl)
peers-reconfigure t (e ∷ rest) =
    let (kept, planned) = peers-reconfigure (reconfigure_beacon t e) rest in
    (
      kept ∙ (peers-rearm _ _ _ ∙ peers-configure e.1.beacon_id t.beacon_interval_ms t.beacons),
      planned,
    )

peers-append :
    (beacons : List (ℕ × Beacon)) (e : ℕ × Beacon)
    → peers (beacons ++ e ∷ []) ≡ peers beacons ++ e.1.peer ∷ []
peers-append [] e = refl
peers-append (d ∷ rest) e = rw (peers-append rest e) refl

peers-remove_if :
    (q : PeerAddress → Bool) (beacons : List (ℕ × Beacon))
    → peers (remove_if (λ e. q e.1.peer) beacons) ≡ remove_if q (peers beacons)
unfolding remove_if
peers-remove_if q [] = refl
peers-remove_if q (e ∷ rest) = ground (arith, peers-remove_if q rest)

module _ (test : PeerAddress → Bool) where
  count-add_beacon :
      (t : Topology) (peer : PeerAddress)
      → count test (Plan.peers_of (add_beacon t peer))
        ≡ count test (Plan.peers_of t) + count test (peer ∷ [])
  unfolding add_beacon on_beacon_timer_expired
  count-add_beacon t peer = rw (peers-rearm _ _ _, peers-append t.beacons _) (count-append test _ _)

  count-add_beacons :
      (t : Topology) (new : List PeerAddress)
      → (count test (Plan.peers_of (add_beacons t new))
          ≡ count test (Plan.peers_of t) + count test new)
        × (Plan.plan_of (add_beacons t new) ≡ Plan.plan_of t)
  unfolding add_beacons add_beacon on_beacon_timer_expired
  count-add_beacons t [] = (omega arith, refl)
  count-add_beacons t (peer ∷ new) =
      let (counted, planned) = count-add_beacons (add_beacon t peer) new in
      (omega (arith, counted, count-add_beacon t peer), planned)

module _ (is_multicast : ℕ → Bool) where
  abbrev wanted_of : List SockAddr → List ℕ → List PeerAddress
  wanted_of = Plan.wanted is_multicast

  abbrev wanted_by : Plan.Plan → List PeerAddress
  wanted_by s = Plan.wanted is_multicast s.static_peers s.ports

  abbrev pub Follows : Topology → Plan.Plan → Type 0
  Follows t s =
      (Plan.plan_of t ≡ s)
      × ((test : PeerAddress → Bool) → count test (Plan.peers_of t) ≡ count test (wanted_by s))

  add_beacons-Follows :
      (t : Topology) (new : List PeerAddress)
      → ((test : PeerAddress → Bool)
          → count test (wanted_by (Plan.plan_of t)) ≡ count test (Plan.peers_of t) + count test new)
      → Follows (add_beacons t new) (Plan.plan_of t)
  add_beacons-Follows t new h = (
    (count-add_beacons (λ _. true) t new).1,
    λ test. omega (arith, (count-add_beacons test t new).0, h test),
  )

  rem_beacon-Follows :
      (t : Topology) (q : PeerAddress → Bool)
      → ((test : PeerAddress → Bool)
          → count test (wanted_by (Plan.plan_of t)) ≡ count (but test q) (Plan.peers_of t))
      → Follows (rem_beacon t q) (Plan.plan_of t)
  unfolding rem_beacon
  rem_beacon-Follows t q h = (
    refl,
    λ test.
        rw (peers-remove_if q t.beacons)
          (omega (arith, count-remove_if test q (peers t.beacons), h test)),
  )

  module _ (t : Topology) (follows : Follows t (Plan.plan_of t)) where
    expire_timer-Follows : (i : ℕ) → Follows (expire_timer t i).1 (Plan.plan_of t)
    unfolding expire_timer on_beacon_timer_expired
    expire_timer-Follows i = elim (Option-cases (find_if (has_number i) t.timers)) [
      | inl e ↦ rw (expire_timer, e) follows
      | inr ((n, beacon), e) ↦
          rw (expire_timer, e) (refl, λ test. rw (peers-rearm _ _ _) (follows.1 test))
    ]

    uninitialize-Follows :
        Follows (uninitialize t) (Plan.plan_step (Plan.plan_of t) Plan.uninitializes)
    unfolding uninitialize
    uninitialize-Follows = elim (Bool-cases t.is_initialized) [
      | inl on ↦ rw on (refl, λ test. refl)
      | inr off ↦ rw off (refl, follows.1)
    ]

    set_node_config-Follows : (interval : ℕ) → Follows (set_node_config t interval) (Plan.plan_of t)
    unfolding set_node_config reconfigure
    set_node_config-Follows interval =
        let set = record t { beacon_interval_ms = interval } in
        let (kept, planned) = peers-reconfigure set t.beacons in
        if-both (λ u. Follows u (Plan.plan_of t)) t.is_initialized
          (reconfigure_beacons set t.beacons) set (planned, λ test. rw kept (follows.1 test))
          follows

    step-Follows :
        (c : Plan.Call)
        → Plan.IsCall c
        → Follows (Plan.step is_multicast t c) (Plan.plan_step (Plan.plan_of t) c)
    unfolding add_port add_static_peer rem_port rem_static_peer
    step-Follows (Plan.adds_port none) ok = (refl, follows.1)
    step-Follows (Plan.adds_port (some p)) ok =
        let asked : (test : PeerAddress → Bool)
            → count test (wanted_of t.static_peers (t.ports ++ p ∷ []))
              ≡ count test (Plan.peers_of t)
                + count test (port_peers is_multicast t.static_peers p) =
          λ test. omega (
            arith,
            Plan.count-wanted-port is_multicast test t.static_peers t.ports p,
            follows.1 test,
          ) in
        add_beacons-Follows _ _ asked
    step-Follows (Plan.rems_port p) ok =
        let left : (test : PeerAddress → Bool)
            → count test (wanted_of t.static_peers (remove_if (λ o. o == p) t.ports))
              ≡ count (but test (on_port p)) (Plan.peers_of t) =
          λ test. omega (
            arith,
            Plan.count-wanted-rem_port is_multicast test t.static_peers t.ports p,
            follows.1 (but test (on_port p)),
          ) in
        rem_beacon-Follows
          (record t {
            ports = remove_if (λ o. o == p) t.ports;
            read_ready = remove_if (λ o. o == p) t.read_ready;
          })
          (on_port p) left
    step-Follows (Plan.adds_static_peer a) ok =
        let asked : (test : PeerAddress → Bool)
            → count test (wanted_of (t.static_peers ++ a ∷ []) t.ports)
              ≡ count test (Plan.peers_of t) + count test (unicast_peers is_multicast a t.ports) =
          λ test. omega (
            arith,
            Plan.count-wanted-static is_multicast test t.static_peers t.ports a,
            follows.1 test,
          ) in
        add_beacons-Follows _ _ asked
    step-Follows (Plan.rems_static_peer a) ok =
        let left : (test : PeerAddress → Bool)
            → count test (wanted_of (remove_if (λ peer. is_equal peer a) t.static_peers) t.ports)
              ≡ count (but test (at_address a)) (Plan.peers_of t) =
          λ test. omega (
            arith,
            Plan.count-wanted-rem_static is_multicast a ok test t.static_peers t.ports,
            follows.1 (but test (at_address a)),
          ) in
        rem_beacon-Follows
          (record t { static_peers = remove_if (λ peer. is_equal peer a) t.static_peers })
          (at_address a) left
    step-Follows (Plan.expires i) ok = expire_timer-Follows i
    step-Follows (Plan.sets_config interval) ok = set_node_config-Follows interval
    step-Follows Plan.uninitializes ok = uninitialize-Follows

  abbrev AllCalls : List Plan.Call → Type 0
  AllCalls = All Plan.IsCall

  -- Start from any state whose beacons are, up to their order, those that its ports and static
  -- peers ask for, and make any calls, where no static peer is removed by the empty address. Then
  -- the ports and the static peers are those of the plan after the same calls, and the beacons are
  -- again, up to their order, one for each multicast port and one for each unicast port with each
  -- static peer.
  pub run-Follows :
      (t : Topology) (calls : List Plan.Call)
      → Follows t (Plan.plan_of t)
      → AllCalls calls
      → Follows (Plan.run is_multicast t calls) (Plan.plan_run (Plan.plan_of t) calls)
  run-Follows t [] follows ok = follows
  run-Follows t (c ∷ calls) follows ok =
      let next = step-Follows t follows c ok.0 in
      let after = Plan.step is_multicast t c in
      subst (λ s. Follows (Plan.run is_multicast t (c ∷ calls)) (Plan.plan_run s calls)) next.0
        (run-Follows after calls
          (refl, subst (λ s. SameItems (Plan.peers_of after) (wanted_by s)) (sym next.0) next.1)
          ok.1)
