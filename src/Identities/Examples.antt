-- ===== src/Identities/Examples.antt =====
-- node.cpp: tests on a node with three identities, two of them for one node id.
use bfc_tunnel.Base.{
  ℕ, ◌≡◌, refl, false, Option, none, some, List, [], ◌∷◌, ◌/◌, ◌==◌, if◌then◌else◌,
}
use bfc_tunnel.Topology.{peer_at, sockaddr_none}
use bfc_tunnel.Identities.{
  Identities, PublicKeys, KnownPeer, add_downstream_identity, rem_downstream_identity,
  select_downstream_identity, add_private_key, peer_lookup, add_public_key, rem_public_key,
}
use bfc_tunnel.Identities.Selection.{Call, adds, rems, selects, adds_key, run, IsValid, run-IsValid}
use bfc_tunnel.Identities.Synced.{IsSynced, run-IsSynced}
use bfc_tunnel.Identities.Known.{peer_lookup-rem_public_key}

-- Pointers 10 and 11 are identities for node 1, and 20 is one for node 2.
abbrev test_node_id : ℕ → ℕ
test_node_id p = p / 10

abbrev no_identities : Identities
no_identities = record {
  is_initialized = false;
  downstream_identities = [];
  selected_downstream_identity = none;
  private_keys = λ n. none;
  private_key_at = λ p. [];
}

abbrev test_calls : List Call
test_calls =
    adds_key 1 (7 ∷ [])
    ∷ adds (some 10)
    ∷ adds (some 20)
    ∷ adds (some 11)
    ∷ adds_key 2 (8 ∷ [])
    ∷ selects 2
    ∷ rems 2
    ∷ []

identities_after :
    ((run test_node_id no_identities test_calls).downstream_identities ≡ 11 ∷ [])
    × ((run test_node_id no_identities test_calls).selected_downstream_identity ≡ some 11)
    × ((run test_node_id no_identities test_calls).private_key_at 11 ≡ 7 ∷ [])
unfolding add_downstream_identity rem_downstream_identity select_downstream_identity add_private_key
identities_after = (refl, refl, refl)

not_listed : (select_downstream_identity test_node_id no_identities 1).0 ≡ false
unfolding select_downstream_identity
not_listed = refl

run-IsValid_example : IsValid test_node_id (run test_node_id no_identities test_calls)
run-IsValid_example =
    run-IsValid test_node_id no_identities test_calls (record { distinct = tt; selected = refl })

run-IsSynced_example : IsSynced test_node_id (run test_node_id no_identities test_calls)
run-IsSynced_example = run-IsSynced test_node_id no_identities test_calls no_keys
  where
    no_keys : IsSynced test_node_id no_identities
    no_keys p key listed known = cc known

abbrev test_peer : KnownPeer ℕ
test_peer = record { public_key = none; preferred_peer_address = peer_at 1 sockaddr_none }

abbrev one_peer : PublicKeys ℕ
one_peer = record { public_keys = λ n. none; peers = λ n. if n == 4 then some test_peer else none }

removed_key_stays :
    let found : Option (KnownPeer ℕ) =
      some (record { public_key = some 99; preferred_peer_address = peer_at 2 sockaddr_none }) in
    ((peer_lookup (add_public_key one_peer 4 99) 4 (peer_at 2 sockaddr_none)).0 ≡ found)
    × ((peer_lookup (rem_public_key (add_public_key one_peer 4 99) 4) 4 (peer_at 2 sockaddr_none)).0
        ≡ found)
removed_key_stays =
    peer_lookup-rem_public_key one_peer 4 (peer_at 2 sockaddr_none) 99 test_peer refl
