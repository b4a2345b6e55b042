-- ===== src/Query/Acquisition.antt =====
-- node.cpp: the choice of the peer to ask for network keys, and what starts it.
use bfc_tunnel.Base.{
  ℕ, zero, suc, Bool, true, false, not, ◌&&◌, Option, none, some, List, [], ◌∷◌, ◌++◌, ltb, ◌==◌,
  if◌then◌else◌, length,
}
use bfc_tunnel.Base.Bags.{count}
use bfc_tunnel.Network.{remove_if}
use bfc_tunnel.Query.{
  Candidate, Wait, collects, retries, Query, Peers, asks_peer, is_busy, has_some, has_any,
  cancel_timer, of_peer, network_start_security_query_procedure,
  network_schedule_security_query_retry, network_build_acquisition_candidates,
  network_complete_security_procedure,
}

-- `ongoing_acquisition_peer` after the acquisition with a peer.
abbrev pub release : Option ℕ → Option ℕ → Option ℕ
release none peer = none
release (some p) none = some p
release (some p) (some o) = if p == o then none else some p

-- The candidates after it: without success those of the peer are gone.
abbrev pub without : List Candidate → Option ℕ → Bool → List Candidate
without cs none ok = cs
without cs (some p) ok = if ok then cs else remove_if (of_peer p) cs

-- The order in which the map of counts is visited is a parameter: the peer ids of the candidates.
module _ (visit : List Candidate → List ℕ) where
  -- The loop over the counts, with the best peer and its count so far.
  unfoldable pub best_from : List Candidate → List ℕ → ℕ → ℕ → ℕ × ℕ
  best_from cs [] best_peer_id best_count = (best_peer_id, best_count)
  best_from cs (p ∷ ps) best_peer_id best_count =
      let n = count (of_peer p) cs in
      let better = best_from cs ps p n in
      let same = best_from cs ps best_peer_id best_count in
      if ltb best_count n then better else same

  unfoldable pub best_peer : List Candidate → ℕ
  unfolding best_from
  best_peer cs = (best_from cs (visit cs) 0 0).0

  -- The loop of `network_start_next_key_acquisition`: the peer to ask, if one is left, and the
  -- candidates that are left. Where the fuel is spent there is no answer.
  unfoldable pub next_from : ℕ → Peers → List Candidate → Option (Option ℕ × List Candidate)
  unfolding best_peer is_busy remove_if
  next_from fuel peers [] = some (none, [])
  next_from zero peers (c ∷ cs) = none
  next_from (suc fuel) peers (c ∷ cs) =
      let p = best_peer (c ∷ cs) in
      let further = next_from fuel peers (remove_if (of_peer p) (c ∷ cs)) in
      elim (is_busy peers p) [
        | none ↦ further
        | some true ↦ further
        | some false ↦ some (some p, c ∷ cs)
      ]

  abbrev pub take_next : Query → Option (Option ℕ × List Candidate) → Query
  take_next q none = q
  take_next q (some (none, cs)) = network_complete_security_procedure (record q { candidates = cs })
  take_next q (some (some p, cs)) = record q {
    candidates = cs;
    ongoing_peer = some p;
    requests = q.requests ++ asks_peer p ∷ [];
  }

  unfoldable pub network_start_next_key_acquisition : Peers → Query → Query
  unfolding next_from network_complete_security_procedure
  network_start_next_key_acquisition peers q =
      if has_some q.ongoing_peer
      then q
      else take_next q (next_from (length q.candidates) peers q.candidates)

  unfoldable pub network_finish_security_query_procedure : Peers → ℕ → Query → Query
  unfolding network_build_acquisition_candidates network_complete_security_procedure
      network_start_next_key_acquisition remove_if
  network_finish_security_query_procedure peers now q =
      let stopped = record q {
        timers = cancel_timer q.collect_timer q.timers;
        collect_timer = none;
      } in
      let built = network_build_acquisition_candidates peers now stopped in
      if has_any built.candidates
      then network_start_next_key_acquisition peers built
      else network_complete_security_procedure built

  -- The peer's acquisition has ended, with success or not; `has_keys` is whether the node has network
  -- keys. The start of the refresh timer is not of this state.
  unfoldable pub network_on_key_acquisition_complete :
      Peers → Bool → Query → Option ℕ → Bool → Query
  unfolding network_complete_security_procedure network_start_next_key_acquisition remove_if
  network_on_key_acquisition_complete peers has_keys q peer ok =
      let released = record q { ongoing_peer = release q.ongoing_peer peer } in
      let left = record released { candidates = without q.candidates peer ok } in
      if ok && has_keys && not (has_any left.candidates)
      then network_complete_security_procedure left
      else if has_any left.candidates
      then network_start_next_key_acquisition peers left
      else network_complete_security_procedure left

  abbrev pub run_wait : Peers → ℕ → Query → Wait → Query
  run_wait peers now q collects =
      if has_some q.collect_timer then network_finish_security_query_procedure peers now q else q
  run_wait peers now q retries =
      let due = record q { retry_timer = none } in
      if has_some q.retry_timer
      then if has_any peers
        then network_start_security_query_procedure peers due
        else network_schedule_security_query_retry due
      else q

  -- A timer is due: it is gone, and its call is made.
  unfoldable pub expire_timer : Peers → ℕ → Query → ℕ × Wait → Query
  unfolding network_finish_security_query_procedure network_start_security_query_procedure
      network_schedule_security_query_retry remove_if
  expire_timer peers now q (i, wait) =
      run_wait peers now (record q { timers = remove_if (λ t. t.0 == i) q.timers }) wait
