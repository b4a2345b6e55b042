-- ===== src/Query.antt =====
-- src/bfc_tunnel/node.cpp: how a node asks the network for its keys. It collects what its peers say
-- they hold, and then asks them one after the other.
-- The peers are a list of their node ids, each with whether a key acquisition goes on with it (its
-- `net_key_acq_proc_ctx`); the clock is an argument. A pointer to the peer that is being asked is its
-- node id: the pointer is reset before a peer is erased, so that it does not expire while it is set.
-- The reactor gives its timers the numbers one after the other. What goes out of this part is a list:
-- the query to the network, and the start of an acquisition with a peer.
pub mod Acquisition
pub mod Choice
pub mod Progress
pub mod Run
mod Examples
use bfc_tunnel.Base.{
  ℕ, zero, suc, Bool, true, false, not, ◌&&◌, ◌||◌, Option, none, some, List, [], ◌∷◌, ◌++◌, map,
  leb, ltb, ◌==◌, if◌then◌else◌, length,
}
use bfc_tunnel.Base.Bags.{count}
use bfc_tunnel.Network.{remove_if, is_member}

pub record Candidate : Type 0 where
  pub peer_id : ℕ
  pub sec_ctx : ℕ
  pub priority : ℕ
  pub expiration_time_s : ℕ

pub record Information : Type 0 where
  pub sec_ctx : ℕ
  pub priority : ℕ
  pub expiration_time_s : ℕ

-- What a timer calls: the end of the collection, or the query once more.
pub data Wait : Type 0 where
  collects retries : Wait

pub data Request : Type 0 where
  asks_network : Request
  asks_peer : ℕ → Request

pub record Query : Type 0 where
  pub candidates : List Candidate
  pub collect_timer : Option ℕ
  pub retry_timer : Option ℕ
  pub ongoing_peer : Option ℕ
  pub timers : List (ℕ × Wait)
  pub next_timer : ℕ
  pub requests : List Request

abbrev pub Peers : Type 0
Peers = List (ℕ × Bool)

unfoldable pub is_busy : Peers → ℕ → Option Bool
is_busy [] p = none
is_busy ((q, busy) ∷ rest) p = if q == p then some busy else is_busy rest p

abbrev pub is_known : Peers → ℕ → Bool
is_known peers p = elim (is_busy peers p) [ none ↦ false | some busy ↦ true ]

abbrev pub has_some {ℓ} : {A : Type ℓ} → Option A → Bool
has_some none = false
has_some (some a) = true

abbrev pub has_any {ℓ} : {A : Type ℓ} → List A → Bool
has_any [] = false
has_any (x ∷ xs) = true

unfoldable pub any_busy : Peers → Bool
any_busy [] = false
any_busy ((p, busy) ∷ rest) = busy || any_busy rest

abbrev pub cancel_timer : Option ℕ → List (ℕ × Wait) → List (ℕ × Wait)
cancel_timer none timers = timers
cancel_timer (some i) timers = remove_if (λ t. t.0 == i) timers

unfoldable pub network_cancel_security_query_retry : Query → Query
unfolding remove_if
network_cancel_security_query_retry q = record q {
  retry_timer = none;
  timers = cancel_timer q.retry_timer q.timers;
}

unfoldable pub network_schedule_security_query_retry : Query → Query
unfolding network_cancel_security_query_retry
network_schedule_security_query_retry q =
    let c = network_cancel_security_query_retry q in
    record c {
      retry_timer = some c.next_timer;
      timers = c.timers ++ (c.next_timer, retries) ∷ [];
      next_timer = suc c.next_timer;
    }

unfoldable pub network_start_security_query_procedure : Peers → Query → Query
unfolding network_cancel_security_query_retry network_schedule_security_query_retry
network_start_security_query_procedure peers q =
    let c = network_cancel_security_query_retry q in
    if has_some q.collect_timer
    then q
    else if not (has_any peers)
    then network_schedule_security_query_retry q
    else record c {
      candidates = [];
      ongoing_peer = none;
      requests = c.requests ++ asks_network ∷ [];
      collect_timer = some c.next_timer;
      timers = c.timers ++ (c.next_timer, collects) ∷ [];
      next_timer = suc c.next_timer;
    }

unfoldable pub network_key_acquisition_in_progress : Peers → Query → Bool
unfolding any_busy
network_key_acquisition_in_progress peers q =
    has_some q.retry_timer
    || has_some q.collect_timer
    || has_some q.ongoing_peer
    || has_any q.candidates
    || any_busy peers

unfoldable pub network_acquire_keys : Peers → Query → Query
unfolding network_key_acquisition_in_progress network_start_security_query_procedure
network_acquire_keys peers q =
    if has_some q.collect_timer
      || has_some q.retry_timer
      || network_key_acquisition_in_progress peers q
    then q
    else network_start_security_query_procedure peers q

-- The loop of the handler of `network_security_information`.
abbrev pub is_entry : ℕ → ℕ → Candidate → Bool
is_entry p s c = c.peer_id == p && c.sec_ctx == s

abbrev pub candidate_of : ℕ → Information → Candidate
candidate_of p info = record {
  peer_id = p;
  sec_ctx = info.sec_ctx;
  priority = info.priority;
  expiration_time_s = info.expiration_time_s;
}

unfoldable pub put_candidate : ℕ → Information → List Candidate → List Candidate
put_candidate p info [] = candidate_of p info ∷ []
put_candidate p info (c ∷ cs) =
    if is_entry p info.sec_ctx c
    then record c { priority = info.priority; expiration_time_s = info.expiration_time_s } ∷ cs
    else c ∷ put_candidate p info cs

unfoldable pub put_candidates : ℕ → List Information → List Candidate → List Candidate
unfolding put_candidate
put_candidates p [] cs = cs
put_candidates p (info ∷ infos) cs = put_candidates p infos (put_candidate p info cs)

unfoldable pub handle_network_security_information : Peers → Query → ℕ → List Information → Query
unfolding put_candidates is_busy
handle_network_security_information peers q p infos =
    if has_some q.collect_timer && is_known peers p
    then record q { candidates = put_candidates p infos q.candidates }
    else q

unfoldable pub network_build_acquisition_candidates : Peers → ℕ → Query → Query
unfolding remove_if is_busy
network_build_acquisition_candidates peers now q = record q {
  ongoing_peer = none;
  candidates =
      remove_if (λ (c : Candidate). not (is_known peers c.peer_id) || leb c.expiration_time_s now)
        q.candidates;
}

unfoldable pub network_complete_security_procedure : Query → Query
unfolding network_cancel_security_query_retry
network_complete_security_procedure q = record (network_cancel_security_query_retry q) {
  ongoing_peer = none;
  candidates = [];
}

abbrev pub of_peer : ℕ → Candidate → Bool
of_peer p c = c.peer_id == p

-- The part of `peer_finish_network_key_acquisition_procedure`: the slots of the keys that it got.
unfoldable pub drop_acquired : List ℕ → Query → Query
unfolding remove_if is_member
drop_acquired slots q =
    if has_any slots
    then record q {
      candidates = remove_if (λ (c : Candidate). is_member c.sec_ctx slots) q.candidates;
    }
    else q

abbrev pub is_asked : ℕ → Query → Bool
is_asked p q = elim q.ongoing_peer [ none ↦ false | some o ↦ o == p ]

-- The part of `peer_cleanup`, after the peer's procedures are finished.
unfoldable pub forget_peer : ℕ → Query → Query
unfolding remove_if
forget_peer p q =
    if has_any q.candidates || has_some q.ongoing_peer
    then record q {
      candidates = remove_if (of_peer p) q.candidates;
      ongoing_peer = if is_asked p q then none else q.ongoing_peer;
    }
    else q

-- The part of `uninitialize`.
unfoldable pub clear_query : Query → Query
unfolding remove_if
clear_query q = record q {
  candidates = [];
  collect_timer = none;
  retry_timer = none;
  ongoing_peer = none;
  timers = cancel_timer q.retry_timer (cancel_timer q.collect_timer q.timers);
}
