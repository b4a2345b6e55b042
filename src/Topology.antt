-- ===== src/Topology.antt =====
-- src/bfc_tunnel/node.cpp: the ports of a node, its static peers, and the beacons that it sends;
-- src/bfc_tunnel/transport/transport_types.cpp: when two addresses are equal.
-- A pointer to a port or to a beacon is a number. The reactor gives its timers the numbers one after
-- the other. A pending timer of `on_beacon_timer_expired` stands as its number with the beacon that
-- its callback holds; it waits for the beacon's interval.

pub mod Counting
pub mod Plan
pub mod Wanted
pub mod Armed
pub mod Reconfigured
pub mod Due
pub mod Sent
mod Examples
use bfc_tunnel.Base.{
  ℕ, suc, Bool, true, false, ◌&&◌, Option, none, some, List, [], ◌∷◌, ◌++◌, map, ◌==◌,
  if◌then◌else◌,
}
use bfc_tunnel.Network.{find_if, erase_if, remove_if}

-- The fields of the system's address records that the code reads. An address of 128 bits is a number.
pub data SockAddr : Type 0 where
  sockaddr_none : SockAddr
  sockaddr_in : ℕ → ℕ → ℕ → SockAddr
  sockaddr_in6 : ℕ → ℕ → ℕ → ℕ → SockAddr

abbrev pub af_inet : ℕ
af_inet = 2

abbrev pub af_inet6 : ℕ
af_inet6 = 10

-- The family, the port and the address; the scope of an address of version 6 too.
-- Behind a record of version 4 there is no address of version 6, and the reverse.
unfoldable pub is_equal : SockAddr → SockAddr → Bool
is_equal sockaddr_none sockaddr_none = true
is_equal (sockaddr_in family port addr) (sockaddr_in family' port' addr') =
    family == family' && family == af_inet && port == port' && addr == addr'
is_equal (sockaddr_in6 family port addr scope) (sockaddr_in6 family' port' addr' scope') =
    family == family' && family == af_inet6 && port == port' && addr == addr' && scope == scope'
is_equal a b = false

pub record PeerAddress : Type 0 where
  pub port : ℕ
  pub address : SockAddr

-- A beacon without the number of its timer, which stands beside it. A pending timer has the beacon as
-- it was when the timer was armed; a change of its interval cancels that timer first.
pub record Beacon : Type 0 where
  pub beacon_id : ℕ
  pub peer : PeerAddress
  pub beacon_interval_ms : ℕ

pub record Topology : Type 0 where
  pub is_initialized : Bool
  pub beacon_interval_ms : ℕ
  pub ports : List ℕ
  pub read_ready : List ℕ
  pub static_peers : List SockAddr
  pub beacons : List (ℕ × Beacon)
  pub timers : List (ℕ × Beacon)
  pub next_beacon : ℕ
  pub next_timer : ℕ

abbrev pub has_number : ℕ → ℕ × Beacon → Bool
has_number i e = e.0 == i

abbrev pub is_beacon : ℕ → ℕ × Beacon → Bool
is_beacon j e = e.1.beacon_id == j

-- The change of `beacon->beacon_timer_id` through the pointer.
abbrev pub rearm : ℕ → ℕ → ℕ × Beacon → ℕ × Beacon
rearm j i e = if is_beacon j e then (i, e.1) else e

unfoldable pub on_beacon_timer_expired : Topology → Beacon → Topology
on_beacon_timer_expired t beacon = record t {
  beacons = map (rearm beacon.beacon_id t.next_timer) t.beacons;
  timers = t.timers ++ (t.next_timer, beacon) ∷ [];
  next_timer = suc t.next_timer;
}

-- The making of the beacon is part of it; the number of its timer is not set yet.
unfoldable pub add_beacon : Topology → PeerAddress → Topology
unfolding on_beacon_timer_expired
add_beacon t peer =
    on_beacon_timer_expired
      (record t { beacons = t.beacons ++ (0, beacon) ∷ []; next_beacon = suc t.next_beacon }) beacon
  where
    beacon : Beacon
    beacon = record {
      beacon_id = t.next_beacon;
      peer = peer;
      beacon_interval_ms = t.beacon_interval_ms;
    }

-- `reconfigure` for one beacon: its timer is cancelled, its interval is changed through the pointer,
-- and it is armed again.
abbrev pub with_interval : ℕ → ℕ × Beacon → ℕ × Beacon
with_interval interval e = (e.0, record e.1 { beacon_interval_ms = interval })

abbrev pub configure : ℕ → ℕ → ℕ × Beacon → ℕ × Beacon
configure j interval e = if is_beacon j e then with_interval interval e else e

unfoldable pub reconfigure_beacon : Topology → ℕ × Beacon → Topology
unfolding on_beacon_timer_expired remove_if
reconfigure_beacon t e =
    on_beacon_timer_expired
      (record t {
        beacons = map (configure e.1.beacon_id t.beacon_interval_ms) t.beacons;
        timers = remove_if (has_number e.0) t.timers;
      })
      (with_interval t.beacon_interval_ms e).1

unfoldable pub reconfigure_beacons : Topology → List (ℕ × Beacon) → Topology
unfolding reconfigure_beacon
reconfigure_beacons t [] = t
reconfigure_beacons t (e ∷ rest) = reconfigure_beacons (reconfigure_beacon t e) rest

-- The part of `reconfigure` on beacons: its calls for the network keys are not of this state.
unfoldable pub reconfigure : Topology → Topology
unfolding reconfigure_beacons
reconfigure t = reconfigure_beacons t t.beacons

-- Of the configuration this state has the interval of beacons.
unfoldable pub set_node_config : Topology → ℕ → Topology
unfolding reconfigure
set_node_config t interval =
    let set = record t { beacon_interval_ms = interval } in
    if t.is_initialized then reconfigure set else set

unfoldable pub add_beacons : Topology → List PeerAddress → Topology
unfolding add_beacon
add_beacons t [] = t
add_beacons t (peer ∷ peers) = add_beacons (add_beacon t peer) peers

-- `timer.cancel(beacon->beacon_timer_id)` for each beacon that passes the test.
unfoldable pub cancel_beacons :
    (PeerAddress → Bool) → List (ℕ × Beacon) → List (ℕ × Beacon) → List (ℕ × Beacon)
unfolding remove_if
cancel_beacons q [] timers = timers
cancel_beacons q (e ∷ beacons) timers =
    cancel_beacons q beacons (if q e.1.peer then remove_if (has_number e.0) timers else timers)

-- Both functions `rem_beacon`: the test is on the port or on the address.
unfoldable pub rem_beacon : Topology → (PeerAddress → Bool) → Topology
unfolding cancel_beacons remove_if
rem_beacon t q = record t {
  beacons = remove_if (λ e. q e.1.peer) t.beacons;
  timers = cancel_beacons q t.beacons t.timers;
}

abbrev pub on_port : ℕ → PeerAddress → Bool
on_port p peer = peer.port == p

abbrev pub at_address : SockAddr → PeerAddress → Bool
at_address a peer = is_equal peer.address a

abbrev pub peer_at : ℕ → SockAddr → PeerAddress
peer_at p a = record { port = p; address = a }

-- What the type of a port says, by its number.
module _ (is_multicast : ℕ → Bool) where
  -- The addresses that a port has beacons for.
  unfoldable pub port_peers : List SockAddr → ℕ → List PeerAddress
  port_peers static_peers p =
      if is_multicast p then peer_at p sockaddr_none ∷ [] else map (peer_at p) static_peers

  -- The ports that a new static peer gets a beacon on.
  unfoldable pub unicast_peers : SockAddr → List ℕ → List PeerAddress
  unicast_peers a [] = []
  unicast_peers a (p ∷ ps) =
      if is_multicast p then unicast_peers a ps else peer_at p a ∷ unicast_peers a ps

  unfoldable pub add_port : Topology → Option ℕ → Topology
  unfolding port_peers add_beacons
  add_port t none = record t { is_initialized = true }
  add_port t (some p) =
      add_beacons
        (record t {
          is_initialized = true;
          ports = t.ports ++ p ∷ [];
          read_ready = t.read_ready ++ p ∷ [];
        })
        (port_peers t.static_peers p)

  unfoldable pub add_static_peer : Topology → SockAddr → Topology
  unfolding unicast_peers add_beacons
  add_static_peer t a =
      add_beacons (record t { static_peers = t.static_peers ++ a ∷ [] }) (unicast_peers a t.ports)

unfoldable pub rem_port : Topology → ℕ → Topology
unfolding rem_beacon remove_if
rem_port t p =
    rem_beacon
      (record t {
        ports = remove_if (λ o. o == p) t.ports;
        read_ready = remove_if (λ o. o == p) t.read_ready;
      })
      (on_port p)

unfoldable pub rem_static_peer : Topology → SockAddr → Topology
unfolding rem_beacon remove_if is_equal
rem_static_peer t a =
    rem_beacon (record t { static_peers = remove_if (λ peer. is_equal peer a) t.static_peers })
      (at_address a)

unfoldable pub stop_reading : List ℕ → List ℕ → List ℕ
unfolding remove_if
stop_reading [] reading = reading
stop_reading (p ∷ ps) reading = stop_reading ps (remove_if (λ o. o == p) reading)

-- The part of `uninitialize` on ports and beacons.
unfoldable pub uninitialize : Topology → Topology
unfolding stop_reading cancel_beacons
uninitialize t =
    if t.is_initialized
    then record t {
      is_initialized = false;
      ports = [];
      read_ready = stop_reading t.ports t.read_ready;
      static_peers = [];
      beacons = [];
      timers = cancel_beacons (λ _. true) t.beacons t.timers;
    }
    else t

-- A timer is due: it is gone, the callback calls `send_beacon` with its beacon, and arms it again.
unfoldable pub expire_timer : Topology → ℕ → Option PeerAddress × Topology
unfolding find_if erase_if on_beacon_timer_expired
expire_timer t i = elim (find_if (has_number i) t.timers) [
  | none ↦ (none, t)
  | some (n, beacon) ↦ (
    some beacon.peer,
    on_beacon_timer_expired (record t { timers = erase_if (has_number i) t.timers }) beacon,
  )
]
