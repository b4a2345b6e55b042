-- ===== src/Identities.antt =====
-- src/bfc_tunnel/node.cpp: the identities of a node, the one that it uses, and the keys it is given.
-- A pointer to an identity or to a peer is a number. The node never changes the node id of an
-- identity, so a function gives it; the private key is in the store, that all pointers share. A map
-- is a function with `none` for a missing key. What `ensure_initialized_unlocked` starts is not of
-- this state.
pub mod Selection
pub mod Synced
pub mod Known
mod Examples
use bfc_tunnel.Base.{
  ℕ, Bool, true, false, Option, none, some, List, [], ◌∷◌, ◌++◌, ◌==◌, if◌then◌else◌,
}
use bfc_tunnel.Network.{find_if, remove_if}
use bfc_tunnel.Topology.{PeerAddress}

abbrev pub Key : Type 0
Key = List ℕ

-- An assignment at one place of a map or of the store.
abbrev pub update {ℓ} : {A : Type ℓ} → (ℕ → A) → ℕ → A → ℕ → A
update m k a n = if n == k then a else m n

pub record Identities : Type 0 where
  pub is_initialized : Bool
  pub downstream_identities : List ℕ
  pub selected_downstream_identity : Option ℕ
  pub private_keys : ℕ → Option Key
  pub private_key_at : ℕ → Key

-- `*it = identity` at the element that is found, or `push_back`.
unfoldable pub replace_or_append : (ℕ → Bool) → ℕ → List ℕ → List ℕ
replace_or_append q p [] = p ∷ []
replace_or_append q p (o ∷ rest) = if q o then p ∷ rest else o ∷ replace_or_append q p rest

abbrev pub front : List ℕ → Option ℕ
front [] = none
front (p ∷ rest) = some p

-- The loop of `add_private_key`.
unfoldable pub assign_key : (ℕ → Bool) → Key → List ℕ → (ℕ → Key) → ℕ → Key
assign_key q key [] at = at
assign_key q key (p ∷ rest) at = assign_key q key rest (if q p then update at p key else at)

module _ (node_id_of : ℕ → ℕ) where
  abbrev pub has_node_id : ℕ → ℕ → Bool
  has_node_id n p = node_id_of p == n

  -- The last test of `add_downstream_identity`.
  abbrev pub reselect : ℕ → Option ℕ → Option ℕ
  reselect p none = some p
  reselect p (some o) = if node_id_of o == node_id_of p then some p else some o

  abbrev pub load_key : ℕ → Option Key → (ℕ → Key) → ℕ → Key
  load_key p none at = at
  load_key p (some key) at = update at p key

  unfoldable pub add_downstream_identity : Identities → Option ℕ → Identities
  unfolding replace_or_append
  add_downstream_identity s none = s
  add_downstream_identity s (some p) = record s {
    is_initialized = true;
    downstream_identities =
        replace_or_append (has_node_id (node_id_of p)) p s.downstream_identities;
    selected_downstream_identity = reselect p s.selected_downstream_identity;
    private_key_at = load_key p (s.private_keys (node_id_of p)) s.private_key_at;
  }

  abbrev pub unselect : ℕ → List ℕ → Option ℕ → Option ℕ
  unselect n identities none = none
  unselect n identities (some o) = if node_id_of o == n then front identities else some o

  unfoldable pub rem_downstream_identity : Identities → ℕ → Identities
  unfolding remove_if
  rem_downstream_identity s n =
      let rest = remove_if (has_node_id n) s.downstream_identities in
      record s {
        downstream_identities = rest;
        selected_downstream_identity = unselect n rest s.selected_downstream_identity;
      }

  unfoldable pub select_downstream_identity : Identities → ℕ → Bool × Identities
  unfolding find_if
  select_downstream_identity s n = elim (find_if (has_node_id n) s.downstream_identities) [
    | none ↦ (false, s)
    | some p ↦ (true, record s { selected_downstream_identity = some p })
  ]

  unfoldable pub add_private_key : Identities → ℕ → Key → Identities
  unfolding assign_key
  add_private_key s n key = record s {
    private_keys = update s.private_keys n (some key);
    private_key_at = assign_key (has_node_id n) key s.downstream_identities s.private_key_at;
  }

unfoldable pub rem_private_key : Identities → ℕ → Identities
rem_private_key s n = record s { private_keys = update s.private_keys n none }

-- The part of `uninitialize` on identities.
unfoldable pub clear_identities : Identities → Identities
clear_identities s = record s { downstream_identities = []; selected_downstream_identity = none }

-- A peer that the node knows, as far as its key goes, and where it was heard last.
pub record KnownPeer (K : Type 0) : Type 0 where
  pub public_key : Option K
  pub preferred_peer_address : PeerAddress

pub record PublicKeys (K : Type 0) : Type 0 where
  pub public_keys : ℕ → Option K
  pub peers : ℕ → Option (KnownPeer K)

module _ {K : Type 0} where
  abbrev pub assign_public_key : K → Option (KnownPeer K) → Option (KnownPeer K)
  assign_public_key key none = none
  assign_public_key key (some peer) = some (record peer { public_key = some key })

  unfoldable pub add_public_key : PublicKeys K → ℕ → K → PublicKeys K
  add_public_key s n key = record {
    public_keys = update s.public_keys n (some key);
    peers = update s.peers n (assign_public_key key (s.peers n));
  }

  unfoldable pub rem_public_key : PublicKeys K → ℕ → PublicKeys K
  rem_public_key s n = record s { public_keys = update s.public_keys n none }

  -- The key of a peer after `peer_lookup`: its own, or else that of the map.
  abbrev pub own_or : Option K → Option K → Option K
  own_or none known = known
  own_or (some key) known = some key

  unfoldable pub peer_lookup : PublicKeys K → ℕ → PeerAddress → Option (KnownPeer K) × PublicKeys K
  peer_lookup s n from = elim (s.peers n) [
    | none ↦ (none, s)
    | some peer ↦
        let found : KnownPeer K = record {
          public_key = own_or peer.public_key (s.public_keys n);
          preferred_peer_address = from;
        } in
        (some found, record s { peers = update s.peers n (some found) })
  ]
