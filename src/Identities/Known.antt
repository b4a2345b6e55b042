-- ===== src/Identities/Known.antt =====
-- node.cpp: the public key that `peer_lookup` leaves in a peer.
use bfc_tunnel.Base.{ℕ, ◌≡◌, Option, some, arith}
use bfc_tunnel.Topology.{PeerAddress}
use bfc_tunnel.Identities.{PublicKeys, KnownPeer, add_public_key, rem_public_key, peer_lookup}

module _ {K : Type 0} (s : PublicKeys K) (n : ℕ) (from : PeerAddress) where
  -- After a public key is given for a known peer, a lookup of the peer gives that key, with the
  -- address of the lookup, and also where the key is removed in between: the removal leaves the
  -- peer's own copy, and a later lookup does not clear it.
  pub peer_lookup-rem_public_key :
      (key : K) (peer : KnownPeer K)
      → s.peers n ≡ some peer
      → let found : Option (KnownPeer K) =
          some (record { public_key = some key; preferred_peer_address = from }) in
        ((peer_lookup (add_public_key s n key) n from).0 ≡ found)
        × ((peer_lookup (rem_public_key (add_public_key s n key) n) n from).0 ≡ found)
  unfolding peer_lookup add_public_key rem_public_key
  peer_lookup-rem_public_key key peer e = (ground (arith, e), ground (arith, e))
