-- ===== src/Links/Examples.antt =====
-- node.cpp: tests on a peer with a unicast port 1 and a multicast port 2.
use bfc_tunnel.Base.{ℕ, ◌≡◌, refl, Bool, false, none, List, [], ◌∷◌, ◌==◌}
use bfc_tunnel.Topology.{SockAddr, sockaddr_in}
use bfc_tunnel.Links.{Links, peer_record_tx, peer_update_link_activity}
use bfc_tunnel.Links.Totals.{Packet, sends, receives, sent_bytes, total, value, table, record_all}

abbrev second : ℕ → Bool
second p = p == 2

abbrev no_links : Links
no_links = record { unicast_links = []; multicast_links = []; last_activity_time_s = 0 }

abbrev host : ℕ → SockAddr
host n = sockaddr_in 2 9000 n

abbrev test_packets : List Packet
test_packets =
    sends 10 1 (host 7) 100
    ∷ receives 11 1 (host 7) 60
    ∷ sends 12 1 (host 8) 40
    ∷ receives 13 2 (host 7) 20
    ∷ []

unicast_sent :
    total (value sent_bytes) (table false (record_all second no_links test_packets)) ≡ 140
unfolding peer_record_tx peer_update_link_activity
unicast_sent = refl

no_port : peer_record_tx second 10 no_links none (host 7) 100 ≡ no_links
unfolding peer_record_tx
no_port = refl
