-- ===== src/Links/Totals.antt =====
-- node.cpp: the counters of all links together say what was sent and received.
use bfc_tunnel.Base.{ℕ, ◌+◌, Bool, true, false, some, List, [], ◌∷◌, if◌then◌else◌}
use bfc_tunnel.Topology.{SockAddr}
use bfc_tunnel.Links.{LinkCtx, Table, Links, peer_record_tx, peer_update_link_activity}

-- A packet that is sent or received on a port, with its time, its address and its size.
pub data Packet : Type 0 where
  sends receives : ℕ → ℕ → SockAddr → ℕ → Packet

-- The sum of a counter over the links of a table.
abbrev pub total : (LinkCtx → ℕ) → Table → ℕ
total f [] = 0
total f (link ∷ rest) = f link.1 + total f rest

-- The counters of a link, and what a packet adds to each.
pub data Counter : Type 0 where
  sent_packets sent_bytes received_packets received_bytes : Counter

abbrev pub value : Counter → LinkCtx → ℕ
value sent_packets c = c.sent_pkt
value sent_bytes c = c.sent_byt
value received_packets c = c.recv_pkt
value received_bytes c = c.recv_byt

abbrev pub adds : Counter → Packet → ℕ
adds sent_packets (sends now port to size) = 1
adds sent_bytes (sends now port to size) = size
adds received_packets (receives now port from size) = 1
adds received_bytes (receives now port from size) = size
adds k p = 0

abbrev pub table : Bool → Links → Table
table multicast s = if multicast then s.multicast_links else s.unicast_links

abbrev pub same_type : Bool → Bool → Bool
same_type true b = b
same_type false true = false
same_type false false = true

module _ (is_multicast : ℕ → Bool) where
  abbrev pub record_packet : Links → Packet → Links
  record_packet s (sends now port to size) = peer_record_tx is_multicast now s (some port) to size
  record_packet s (receives now port from size) =
      peer_update_link_activity is_multicast now s port from size

  abbrev pub record_all : Links → List Packet → Links
  record_all s [] = s
  record_all s (p ∷ ps) = record_all (record_packet s p) ps

  abbrev pub port_of : Packet → ℕ
  port_of (sends now port to size) = port
  port_of (receives now port from size) = port

  -- What the packets on ports of one type add to a counter.
  abbrev pub traffic : Bool → Counter → List Packet → ℕ
  traffic multicast k [] = 0
  traffic multicast k (p ∷ ps) =
      (if same_type multicast (is_multicast (port_of p)) then adds k p else 0)
      + traffic multicast k ps
