-- ===== src/Topology/Plan.antt =====
-- node.cpp: which beacons there are, after any calls. The beacons are those that the ports and the
-- static peers ask for: one for each multicast port, and one for each unicast port with each static
-- peer.
use bfc_tunnel.Base.{
  ℕ, ◌+◌, ◌≡◌, refl, Bool, true, false, Option, none, some, List, [], ◌∷◌, ◌++◌, map, arith, ◌==◌,
  if◌then◌else◌, inl, inr, Bool-cases,
}
use bfc_tunnel.Base.Bags.{count, but, count-append, count-map}
use bfc_tunnel.Network.{remove_if}
use bfc_tunnel.Topology.{
  SockAddr, sockaddr_none, PeerAddress, Beacon, Topology, is_equal, on_port, at_address, peer_at,
  port_peers, unicast_peers, add_port, add_static_peer, rem_port, rem_static_peer, set_node_config,
  uninitialize, expire_timer,
}
use bfc_tunnel.Topology.Counting.{count-remove_if, count-append_one}

abbrev pub peers_of : Topology → List PeerAddress
peers_of t = map (λ (e : ℕ × Beacon). e.1.peer) t.beacons

-- What the beacons are derived from.
pub record Plan : Type 0 where
  pub is_initialized : Bool
  pub ports : List ℕ
  pub static_peers : List SockAddr

abbrev pub plan_of : Topology → Plan
plan_of t = record {
  is_initialized = t.is_initialized;
  ports = t.ports;
  static_peers = t.static_peers;
}

pub data Call : Type 0 where
  adds_port : Option ℕ → Call
  rems_port : ℕ → Call
  adds_static_peer rems_static_peer : SockAddr → Call
  expires : ℕ → Call
  sets_config : ℕ → Call
  uninitializes : Call

-- The empty address stands for the multicast group, and is not the address of a static peer.
abbrev pub IsCall : Call → Type 0
IsCall (rems_static_peer a) = is_equal sockaddr_none a ≡ false
IsCall _ = Unit

abbrev pub plan_step : Plan → Call → Plan
plan_step s (adds_port none) = record s { is_initialized = true }
plan_step s (adds_port (some p)) = record s { is_initialized = true; ports = s.ports ++ p ∷ [] }
plan_step s (rems_port p) = record s { ports = remove_if (λ o. o == p) s.ports }
plan_step s (adds_static_peer a) = record s { static_peers = s.static_peers ++ a ∷ [] }
plan_step s (rems_static_peer a) = record s {
  static_peers = remove_if (λ peer. is_equal peer a) s.static_peers;
}
plan_step s (expires i) = s
plan_step s (sets_config interval) = s
plan_step s uninitializes =
    if s.is_initialized then record { is_initialized = false; ports = []; static_peers = [] } else s

abbrev pub plan_run : Plan → List Call → Plan
plan_run s [] = s
plan_run s (c ∷ cs) = plan_run (plan_step s c) cs

module _ (is_multicast : ℕ → Bool) where
  abbrev pub step : Topology → Call → Topology
  step t (adds_port p) = add_port is_multicast t p
  step t (rems_port p) = rem_port t p
  step t (adds_static_peer a) = add_static_peer is_multicast t a
  step t (rems_static_peer a) = rem_static_peer t a
  step t (expires i) = (expire_timer t i).1
  step t (sets_config interval) = set_node_config t interval
  step t uninitializes = uninitialize t

  abbrev pub run : Topology → List Call → Topology
  run t [] = t
  run t (c ∷ cs) = run (step t c) cs

  abbrev pub wanted : List SockAddr → List ℕ → List PeerAddress
  wanted static_peers [] = []
  wanted static_peers (p ∷ ps) = port_peers is_multicast static_peers p ++ wanted static_peers ps

  pub count-wanted-port :
      (test : PeerAddress → Bool) (static_peers : List SockAddr) (ps : List ℕ) (p : ℕ)
      → count test (wanted static_peers (ps ++ p ∷ []))
        ≡ count test (wanted static_peers ps) + count test (port_peers is_multicast static_peers p)
  count-wanted-port test static_peers [] p =
      omega (arith, count-append test (port_peers is_multicast static_peers p) [])
  count-wanted-port test static_peers (o ∷ ps) p = omega (
    arith,
    count-append test (port_peers is_multicast static_peers o) (wanted static_peers ps),
    count-append test (port_peers is_multicast static_peers o) (wanted static_peers (ps ++ p ∷ [])),
    count-wanted-port test static_peers ps p,
  )

  count-port_peers-static :
      (test : PeerAddress → Bool) (static_peers : List SockAddr) (a : SockAddr) (p : ℕ)
      → count test (port_peers is_multicast (static_peers ++ a ∷ []) p)
        ≡ count test (port_peers is_multicast static_peers p)
          + count test (unicast_peers is_multicast a (p ∷ []))
  unfolding port_peers unicast_peers
  count-port_peers-static test static_peers a p = elim (Bool-cases (is_multicast p)) [
    | inl multicast ↦ rw multicast (omega arith)
    | inr unicast ↦ rw unicast (
        omega (
          arith,
          count-map (peer_at p) test (static_peers ++ a ∷ []),
          count-map (peer_at p) test static_peers,
          count-append_one (λ b. test (peer_at p b)) static_peers a,
        ))
  ]

  count-unicast_peers :
      (test : PeerAddress → Bool) (a : SockAddr) (p : ℕ) (ps : List ℕ)
      → count test (unicast_peers is_multicast a (p ∷ ps))
        ≡ count test (unicast_peers is_multicast a (p ∷ []))
          + count test (unicast_peers is_multicast a ps)
  unfolding unicast_peers
  count-unicast_peers test a p ps = ground arith

  pub count-wanted-static :
      (test : PeerAddress → Bool) (static_peers : List SockAddr) (ps : List ℕ) (a : SockAddr)
      → count test (wanted (static_peers ++ a ∷ []) ps)
        ≡ count test (wanted static_peers ps) + count test (unicast_peers is_multicast a ps)
  count-wanted-static test static_peers [] a = unfold unicast_peers in refl
  count-wanted-static test static_peers (p ∷ ps) a = omega (
    arith,
    count-append test (port_peers is_multicast static_peers p) (wanted static_peers ps),
    count-append test (port_peers is_multicast (static_peers ++ a ∷ []) p)
        (wanted (static_peers ++ a ∷ []) ps),
    count-port_peers-static test static_peers a p,
    count-unicast_peers test a p ps,
    count-wanted-static test static_peers ps a,
  )

  count-others :
      (test : PeerAddress → Bool) (static_peers : List SockAddr) (p o : ℕ)
      → count (but test (on_port p)) (map (peer_at o) static_peers)
        ≡ (if o == p then 0 else count test (map (peer_at o) static_peers))
  count-others test [] p o = ground arith
  count-others test (a ∷ rest) p o = ground (arith, count-others test rest p o)

  count-port_peers-port :
      (test : PeerAddress → Bool) (static_peers : List SockAddr) (p o : ℕ)
      → count (but test (on_port p)) (port_peers is_multicast static_peers o)
        ≡ (if o == p then 0 else count test (port_peers is_multicast static_peers o))
  unfolding port_peers
  count-port_peers-port test static_peers p o = elim (Bool-cases (is_multicast o)) [
    | inl multicast ↦ rw multicast (ground arith)
    | inr unicast ↦ rw unicast (count-others test static_peers p o)
  ]

  pub count-wanted-rem_port :
      (test : PeerAddress → Bool) (static_peers : List SockAddr) (ps : List ℕ) (p : ℕ)
      → count test (wanted static_peers (remove_if (λ o. o == p) ps))
        ≡ count (but test (on_port p)) (wanted static_peers ps)
  unfolding remove_if
  count-wanted-rem_port test static_peers [] p = refl
  count-wanted-rem_port test static_peers (o ∷ ps) p =
      let here = port_peers is_multicast static_peers o in
      let kept = wanted static_peers (remove_if (λ o. o == p) ps) in
      ground (
        arith,
        count-append (but test (on_port p)) here (wanted static_peers ps),
        count-append test here kept,
        count-port_peers-port test static_peers p o,
        count-wanted-rem_port test static_peers ps p,
      )

  module _ (a : SockAddr) (proper : is_equal sockaddr_none a ≡ false) where
    count-at-rest :
        (test : PeerAddress → Bool) (static_peers : List SockAddr) (p : ℕ)
        → count test (map (peer_at p) (remove_if (λ peer. is_equal peer a) static_peers))
          ≡ count (but test (at_address a)) (map (peer_at p) static_peers)
    count-at-rest test static_peers p =
        let moved = count-map (peer_at p) test (remove_if (λ peer. is_equal peer a) static_peers) in
        let at = count-map (peer_at p) (but test (at_address a)) static_peers in
        omega (
          arith,
          moved,
          at,
          count-remove_if (λ b. test (peer_at p b)) (λ peer. is_equal peer a) static_peers,
        )

    count-port_peers-rest :
        (test : PeerAddress → Bool) (static_peers : List SockAddr) (p : ℕ)
        → count test (port_peers is_multicast (remove_if (λ peer. is_equal peer a) static_peers) p)
          ≡ count (but test (at_address a)) (port_peers is_multicast static_peers p)
    unfolding port_peers
    count-port_peers-rest test static_peers p = elim (Bool-cases (is_multicast p)) [
      | inl multicast ↦ rw multicast (rw proper (ground arith))
      | inr unicast ↦ rw unicast (count-at-rest test static_peers p)
    ]

    pub count-wanted-rem_static :
        (test : PeerAddress → Bool) (static_peers : List SockAddr) (ps : List ℕ)
        → count test (wanted (remove_if (λ peer. is_equal peer a) static_peers) ps)
          ≡ count (but test (at_address a)) (wanted static_peers ps)
    count-wanted-rem_static test static_peers [] = refl
    count-wanted-rem_static test static_peers (p ∷ ps) =
        let rest = remove_if (λ peer. is_equal peer a) static_peers in
        omega (
          arith,
          count-append test (port_peers is_multicast rest p) (wanted rest ps),
          count-append (but test (at_address a)) (port_peers is_multicast static_peers p)
              (wanted static_peers ps),
          count-port_peers-rest test static_peers p,
          count-wanted-rem_static test static_peers ps,
        )
