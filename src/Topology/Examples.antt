-- ===== src/Topology/Examples.antt =====
-- node.cpp: tests on a node with ports 1 and 3 for unicast and 2 for multicast.
use bfc_tunnel.Base.{ℕ, ◌≡◌, refl, Bool, false, some, List, [], ◌∷◌, arith, ◌==◌, All}
use bfc_tunnel.Base.Bags.{Occurs}
use bfc_tunnel.Topology.{
  SockAddr, sockaddr_none, sockaddr_in, Topology, peer_at, is_equal, expire_timer, port_peers,
  add_port, add_static_peer, rem_port, rem_static_peer, set_node_config, uninitialize,
}
use bfc_tunnel.Network.{remove_if}
use bfc_tunnel.Topology.Plan
use bfc_tunnel.Topology.Wanted.{Follows, run-Follows}
use bfc_tunnel.Topology.Armed.{IsArmed}
use bfc_tunnel.Topology.Due.{run-IsArmed}
use bfc_tunnel.Topology.Sent.{sent-wanted}

abbrev second : ℕ → Bool
second p = p == 2

abbrev idle_node : Topology
idle_node = record {
  is_initialized = false;
  beacon_interval_ms = 500;
  ports = [];
  read_ready = [];
  static_peers = [];
  beacons = [];
  timers = [];
  next_beacon = 0;
  next_timer = 0;
}

abbrev host : ℕ → SockAddr
host n = sockaddr_in 2 9000 n

abbrev test_calls : List Plan.Call
test_calls =
    Plan.adds_static_peer (host 7)
    ∷ Plan.adds_port (some 1)
    ∷ Plan.adds_port (some 2)
    ∷ Plan.adds_port (some 3)
    ∷ Plan.adds_static_peer (host 8)
    ∷ Plan.expires 1
    ∷ Plan.sets_config 900
    ∷ Plan.rems_port 1
    ∷ Plan.rems_static_peer (host 8)
    ∷ []

peers_after :
    Plan.peers_of (Plan.run second idle_node test_calls)
    ≡ peer_at 2 sockaddr_none ∷ peer_at 3 (host 7) ∷ []
unfolding add_static_peer add_port rem_port rem_static_peer expire_timer set_node_config
peers_after = refl

stopped : Plan.peers_of (uninitialize (Plan.run second idle_node test_calls)) ≡ []
unfolding uninitialize add_static_peer add_port rem_port rem_static_peer expire_timer
    set_node_config
stopped = refl

idle-Follows : Follows second idle_node (Plan.plan_of idle_node)
idle-Follows = (refl, λ test. refl)

idle-IsArmed : IsArmed idle_node
idle-IsArmed = record {
  armed = λ p. refl;
  one_timer = λ i. omega arith;
  one_beacon = λ j. omega arith;
  issued_timers = refl;
  issued_beacons = refl;
}

calls_ok : All Plan.IsCall test_calls
unfolding is_equal
calls_ok = (tt, (tt, (tt, (tt, (tt, (tt, (tt, (tt, (refl, tt)))))))))

run-Follows_example :
    Follows second
      (Plan.run second idle_node test_calls)
      (Plan.plan_run (Plan.plan_of idle_node) test_calls)
run-Follows_example = run-Follows second idle_node test_calls idle-Follows calls_ok

run-IsArmed_example : IsArmed (Plan.run second idle_node test_calls)
run-IsArmed_example = run-IsArmed second idle_node test_calls idle-IsArmed

eighth_timer :
    (expire_timer (Plan.run second idle_node test_calls) 7).0 ≡ some (peer_at 2 sockaddr_none)
unfolding expire_timer add_static_peer add_port rem_port rem_static_peer set_node_config
eighth_timer = refl

sent-wanted_example :
    Occurs (peer_at 2 sockaddr_none) (Plan.wanted second (host 7 ∷ []) (2 ∷ 3 ∷ []))
unfolding port_peers remove_if is_equal
sent-wanted_example =
    sent-wanted second idle_node test_calls 7 (peer_at 2 sockaddr_none) idle-Follows idle-IsArmed
      calls_ok eighth_timer
