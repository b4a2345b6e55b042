-- ===== src/Query/Examples.antt =====
-- node.cpp: tests on a node with three peers, where acquisitions go on with the third.
use bfc_tunnel.Base.{ℕ, ◌≡◌, refl, true, false, Option, none, some, List, [], ◌∷◌, arith}
use bfc_tunnel.Query.{
  Candidate, Information, Query, Peers, asks_network, asks_peer, network_acquire_keys,
  handle_network_security_information, has_any, drop_acquired, forget_peer,
}
use bfc_tunnel.Query.Acquisition.{next_from, network_on_key_acquisition_complete, expire_timer}
use bfc_tunnel.Query.Choice.{peer_ids, IsNext, next_from-IsNext}
use bfc_tunnel.Query.Progress.{IsSound}
use bfc_tunnel.Query.Run.{
  Call, acquires, informs, expires, completes, forgets, AllTold, run, run-IsSound,
}

abbrev idle_query : Query
idle_query = record {
  candidates = [];
  collect_timer = none;
  retry_timer = none;
  ongoing_peer = none;
  timers = [];
  next_timer = 0;
  requests = [];
}

abbrev test_peers : Peers
test_peers = (1, false) ∷ (2, false) ∷ (3, true) ∷ []

abbrev info : ℕ → ℕ → Information
info s expiration = record { sec_ctx = s; priority = 7; expiration_time_s = expiration }

-- Without peers the query is put off. Peer 1 has one key that is not too old, and peer 2 has two.
abbrev test_calls : List ((ℕ × Peers) × Call)
test_calls =
    ((10, []), acquires)
    ∷ ((16, test_peers), expires)
    ∷ ((16, test_peers), informs 1 (info 1 90 ∷ info 2 17 ∷ []))
    ∷ ((16, test_peers), informs 2 (info 1 90 ∷ info 2 90 ∷ []))
    ∷ ((16, test_peers), informs 4 (info 1 90 ∷ []))
    ∷ ((17, test_peers), expires)
    ∷ ((18, test_peers), completes [] (some 2) false false)
    ∷ ((19, test_peers), forgets 2)
    ∷ ((20, test_peers), completes (1 ∷ []) (some 1) true true)
    ∷ []

requests_after :
    (run peer_ids idle_query test_calls).requests ≡ asks_network ∷ asks_peer 2 ∷ asks_peer 1 ∷ []
unfolding network_acquire_keys handle_network_security_information drop_acquired forget_peer
    network_on_key_acquisition_complete expire_timer
requests_after = refl

calls_told : AllTold peer_ids idle_query test_calls
unfolding network_acquire_keys handle_network_security_information drop_acquired forget_peer
    network_on_key_acquisition_complete expire_timer
calls_told = (tt, (tt, (tt, (tt, (tt, (tt, (tt, (refl, (tt, tt)))))))))

-- Where peer 2 is given up while it is asked, peer 1 is left and nobody is asked, nor is a timer
-- pending.
abbrev untold_calls : List ((ℕ × Peers) × Call)
untold_calls =
    ((10, []), acquires)
    ∷ ((16, test_peers), expires)
    ∷ ((16, test_peers), informs 1 (info 1 90 ∷ []))
    ∷ ((16, test_peers), informs 2 (info 1 90 ∷ info 2 90 ∷ []))
    ∷ ((17, test_peers), expires)
    ∷ ((18, test_peers), forgets 2)
    ∷ []

left_alone :
    let q = run peer_ids idle_query untold_calls in
    (has_any q.candidates ≡ true) × (q.ongoing_peer ≡ none) × (q.timers ≡ [])
unfolding network_acquire_keys handle_network_security_information forget_peer expire_timer
left_alone = (refl, refl, refl)

run-IsSound_example : IsSound (run peer_ids idle_query test_calls)
run-IsSound_example =
    run-IsSound peer_ids (λ cs n. refl) idle_query test_calls calls_told ((refl, refl), refl)

abbrev offer : ℕ → ℕ → Candidate
offer p s = record { peer_id = p; sec_ctx = s; priority = 7; expiration_time_s = 90 }

abbrev test_candidates : List Candidate
test_candidates = offer 3 1 ∷ offer 3 2 ∷ offer 1 1 ∷ []

next_from-IsNext_example :
    (r : Option ℕ × List Candidate) × (next_from peer_ids 3 test_peers test_candidates ≡ some r)
    × IsNext test_peers r
next_from-IsNext_example =
    next_from-IsNext peer_ids (λ cs n. refl) 3 test_peers test_candidates (omega arith)
