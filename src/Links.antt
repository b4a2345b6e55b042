-- ===== src/Links.antt =====
-- src/bfc_tunnel/node.cpp: the links of a peer, which count what is sent to it and received from it
-- on each port and address. The clock is an argument; counters are words of 64 bits.

pub mod Totals
mod Examples
use bfc_tunnel.Base.{
  ℕ, ◌+◌, ◌%◌, ◌^◌, Bool, ◌&&◌, Option, none, some, List, [], ◌∷◌, ◌==◌, if◌then◌else◌,
}
use bfc_tunnel.Topology.{SockAddr, is_equal, PeerAddress, peer_at}

pub record LinkCtx : Type 0 where
  pub last_activity_time_s : ℕ
  pub sent_pkt : ℕ
  pub recv_pkt : ℕ
  pub sent_byt : ℕ
  pub recv_byt : ℕ

abbrev pub new_link : LinkCtx
new_link = record {
  last_activity_time_s = 0;
  sent_pkt = 0;
  recv_pkt = 0;
  sent_byt = 0;
  recv_byt = 0;
}

abbrev pub Table : Type 0
Table = List (PeerAddress × LinkCtx)

pub record Links : Type 0 where
  pub unicast_links : Table
  pub multicast_links : Table
  pub last_activity_time_s : ℕ

abbrev pub is_link : PeerAddress → PeerAddress × LinkCtx → Bool
is_link at link = is_equal link.0.address at.address && link.0.port == at.port

-- The change of the link that `std::find_if` finds, or of a new one behind the others.
unfoldable pub touch : PeerAddress → (LinkCtx → LinkCtx) → Table → Table
unfolding is_equal
touch at f [] = (at, f new_link) ∷ []
touch at f (link ∷ rest) =
    if is_link at link then (link.0, f link.1) ∷ rest else link ∷ touch at f rest

abbrev pub word : ℕ → ℕ
word n = n % 2 ^ 64

abbrev pub count_sent : ℕ → ℕ → LinkCtx → LinkCtx
count_sent now size c = record c {
  last_activity_time_s = now;
  sent_pkt = word (c.sent_pkt + 1);
  sent_byt = word (c.sent_byt + size);
}

abbrev pub count_received : ℕ → ℕ → LinkCtx → LinkCtx
count_received now size c = record c {
  last_activity_time_s = now;
  recv_pkt = word (c.recv_pkt + 1);
  recv_byt = word (c.recv_byt + size);
}

module _ (is_multicast : ℕ → Bool) where
  -- The change in the table of the port's type.
  abbrev pub touch_links : ℕ → SockAddr → (LinkCtx → LinkCtx) → Links → Links
  touch_links port address f s =
      if is_multicast port
      then record s { multicast_links = touch (peer_at port address) f s.multicast_links }
      else record s { unicast_links = touch (peer_at port address) f s.unicast_links }

  unfoldable pub peer_record_tx : ℕ → Links → Option ℕ → SockAddr → ℕ → Links
  unfolding touch
  peer_record_tx now s none to size = s
  peer_record_tx now s (some port) to size = touch_links port to (count_sent now size) s

  unfoldable pub peer_update_link_activity : ℕ → Links → ℕ → SockAddr → ℕ → Links
  unfolding touch
  peer_update_link_activity now s port from size =
      touch_links port from (count_received now size) (record s { last_activity_time_s = now })
