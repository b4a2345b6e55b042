-- ===== src/Procedure/Transactions.antt =====
-- node.cpp: the queue of a peer's transactions, one of which is the current one, with its timer.
use bfc_tunnel.Base.{
  ℕ, zero, suc, ◌+◌, ◌%◌, ◌^◌, Bool, true, false, not, ◌&&◌, Option, none, some, List, [], ◌∷◌,
  ◌++◌, map, leb, ◌==◌, if◌then◌else◌,
}
use bfc_tunnel.Frame.{set_ts, set_sn}
use bfc_tunnel.Message.{encode_payload}
use bfc_tunnel.Dh.{get_own_ephemeral_public}
use bfc_tunnel.Network.{NetworkKey, remove_if}
use bfc_tunnel.Peer.{peer_select_sec_ctx}
use bfc_tunnel.Procedure.{
  Code, not_in_progress, no_supported_algorithm_pair, max_retries_reached, is_ok, Msg1, of_msg1,
  of_keys_request, SecProcState, sender_queued, sender_ongoing, sender_expired, Completion, nothing,
  acquires_keys, PublicKey, SecurityProcedure, KeyAcquisition, Work, secures, acquires, Transaction,
  transmits, reports, undefined, PeerState, Node, Libraries, put_out, security_contexts, pair_eq,
  last_pair,
}
use bfc_tunnel.Procedure.Sending.{
  Flow, ends, completes, throws, next_sn, open_frame, encoded, queue, peer_send_message,
  peer_start_security_procedure,
}

-- The state, and whether the acquisition that waited for the procedure goes on.
abbrev pub call_completion : Completion → Code → PeerState → PeerState × Bool
call_completion nothing code p = (p, false)
call_completion acquires_keys code p =
    if is_ok code then (p, true) else (put_out (reports code []) p, false)

unfoldable pub peer_finish_security_procedure : Code → PeerState → PeerState × Bool
peer_finish_security_procedure code p = elim p.sec_proc [
  | none ↦ (p, false)
  | some s ↦ call_completion s.completion code (record p { sec_proc = none })
]

unfoldable pub peer_finish_network_key_acquisition_procedure : Code → PeerState → PeerState
peer_finish_network_key_acquisition_procedure code p = elim p.net_key_acq_proc [
  | none ↦ p
  | some a ↦
      let acquired =
        if is_ok code then map (λ (key : NetworkKey). key.sec_ctx) a.collected_keys else [] in
      put_out (reports code acquired) (record p { net_key_acq_proc = none })
]

-- The `done_cb` of a transaction.
unfoldable pub done_cb : Work → Code → PeerState → PeerState × Bool
unfolding peer_finish_security_procedure peer_finish_network_key_acquisition_procedure
done_cb secures code p = peer_finish_security_procedure code p
done_cb (acquires request_id) code p = (peer_finish_network_key_acquisition_procedure code p, false)

abbrev pub is_going : Option KeyAcquisition → Bool
is_going none = false
is_going (some a) = true

-- The `done_cb`, and whether an acquisition starts then: one that waited for the security procedure,
-- or a further one with the same peer, where the completion of the one that ended starts it. That of
-- one that failed does not, as the candidates of the peer are gone then.
abbrev pub completed : Node → Work → Code → PeerState → PeerState × Bool
completed n secures code p = done_cb secures code p
completed n (acquires request_id) code p = (
  (done_cb (acquires request_id) code p).0,
  is_ok code && n.asks_again && is_going p.net_key_acq_proc,
)

abbrev pub cancel_transaction_timer : PeerState → PeerState
cancel_transaction_timer p = record p {
  transaction_timers = remove_if (λ i. i == p.transaction_timer_id) p.transaction_timers;
}

abbrev pub end_transaction : PeerState → PeerState
end_transaction p = record (cancel_transaction_timer p) { current_transaction = none }

-- The reactor numbers all its timers in one sequence.
abbrev pub arm_transaction_timer : PeerState → PeerState
arm_transaction_timer p = record p {
  transaction_timer_id = p.contexts.next_timer;
  transaction_timers = p.transaction_timers ++ p.contexts.next_timer ∷ [];
  contexts = record p.contexts { next_timer = suc p.contexts.next_timer };
}

-- The pair of algorithms that is proposed, and the pairs that are left to test.
abbrev pub choose_pair : List (ℕ × ℕ) → List (ℕ × ℕ) → Option ((ℕ × ℕ) × List (ℕ × ℕ))
choose_pair supported test = elim (last_pair supported) [
  | some pair ↦ some (pair, test)
  | none ↦ elim (last_pair test) [
    | none ↦ none
    | some pair ↦ some (pair, remove_if (pair_eq pair) test)
  ]
]

abbrev pub is_request : ℕ → Option KeyAcquisition → Bool
is_request request_id none = false
is_request request_id (some a) = a.request_id == request_id

-- Where there is no call of `peer_process_pending_transactions` to make, since one is the current.
abbrev pub busy : PeerState → PeerState × Flow
busy p = (p, ends)

abbrev pub proposed : Node → ℕ → SecurityProcedure → PublicKey → ℕ × ℕ → List ℕ → Msg1
proposed n i s key pair ephemeral = record {
  id = i;
  sec_ctx = s.id;
  integrity_algorithm = pair.0;
  confidentiality_algorithm = pair.1;
  dh_key_type = key.key_type;
  ephemeral = ephemeral;
  expiration_time_s = (n.now + n.security_ctx_timeout_s) % 2 ^ 64;
  priority = n.random_priority;
}

abbrev pub is_queued : SecProcState → Bool
is_queued state = elim state [ sender_queued ↦ true | _ ↦ false ]

abbrev pub is_ongoing : SecProcState → Bool
is_ongoing state = elim state [ sender_ongoing ↦ true | _ ↦ false ]

-- The message of the procedure is sent, for the first time or again.
unfoldable pub send_msg1 : Node → SecurityProcedure → PeerState → PeerState
send_msg1 n s p =
    let f = set_sn (set_ts s.frame (n.now % 2 ^ 32)) p.tx_sn in
    let sent : SecurityProcedure = record s {
      frame = f;
      state = sender_ongoing;
      retry_count = (s.retry_count + 1) % 2 ^ 32;
    } in
    put_out (transmits p.preferred_peer_address p.tx_sn (of_msg1 s.msg1) f)
      (record (next_sn p) { sec_proc = some sent })

abbrev pub begin : Transaction → List Transaction → PeerState → PeerState
begin t rest p = record p {
  current_transaction = some (record t { id = p.trid_ctr });
  pending_transactions = rest;
  trid_ctr = (p.trid_ctr + 1) % 256;
}

-- The timer of a transaction that has failed is armed all the same, after the next ones.
abbrev pub arm_after : PeerState × Flow → PeerState × Flow
arm_after (p, throws) = (p, throws)
arm_after (p, ends) = (arm_transaction_timer p, ends)
arm_after (p, completes code) = (arm_transaction_timer p, ends)

-- A transaction that acquires keys may queue one that secures.
abbrev pub weight_of : Work → ℕ
weight_of secures = 1
weight_of (acquires request_id) = 2

unfoldable pub weight : List Transaction → ℕ
weight [] = 0
weight (t ∷ rest) = weight_of t.work + weight rest

-- The completion that waits is called: the acquisition has failed, or goes on. It would go on
-- without end where a context is usable but none can be selected.
abbrev pub after_start : PeerState × Flow → PeerState × Flow
after_start (p, ends) = (p, ends)
after_start (p, throws) = (p, throws)
after_start (p, completes code) =
    if is_ok code then (put_out undefined p, throws) else (put_out (reports code []) p, ends)

abbrev pub new_acquisition : ℕ → KeyAcquisition
new_acquisition request_id = record {
  request_id = request_id;
  total_page = 0;
  retry_count = 0;
  received_pages = [];
  collected_keys = [];
}

-- What follows the `do_cb` of a transaction, with what follows a failure.
abbrev pub settle : (Code → PeerState → PeerState × Flow) → PeerState × Flow → PeerState × Flow
settle next (p, ends) = (arm_transaction_timer p, ends)
settle next (p, throws) = (p, throws)
settle next (p, completes code) = arm_after (next code p)

module _ (l : Libraries) where
  -- The frame of the procedure is made where the procedure is still queued, and then sent.
  unfoldable pub write_msg1 : Node → ℕ → SecurityProcedure → PeerState → PeerState × Flow
  unfolding get_own_ephemeral_public open_frame encode_payload last_pair remove_if send_msg1
  write_msg1 n i s p = elim n.identity [
    | none ↦ (put_out undefined p, throws)
    | some own ↦ elim p.public_key [
      | none ↦ (put_out undefined p, throws)
      | some key ↦ elim (choose_pair p.supported_algorithm_pairs p.test_algorithm_pairs) [
        | none ↦ (p, completes no_supported_algorithm_pair)
        | some (pair, test) ↦
            let dhke = get_own_ephemeral_public l.curve s.dhke n.random_ephemeral in
            let msg1 = proposed n i s key pair dhke.own_ephemeral_public in
            let rest = record p { test_algorithm_pairs = test } in
            elim (encoded l (of_msg1 msg1) (open_frame l n.now own.node_id p.node_id)) [
              | none ↦ (rest, completes not_in_progress)
              | some f ↦
                  let written : SecurityProcedure = record s {
                    frame = f;
                    msg1 = msg1;
                    algo_pair_used = pair;
                    dhke = dhke;
                  } in
                  (send_msg1 n written rest, ends)
            ]
      ]
    ]
  ]

  -- The `do_cb` of a transaction: it waits, or is completed with a code.
  unfoldable pub do_cb : Node → Work → ℕ → PeerState → PeerState × Flow
  unfolding write_msg1 send_msg1 peer_send_message
  do_cb n secures i p = elim p.sec_proc [
    | none ↦ (p, completes not_in_progress)
    | some s ↦ if is_queued s.state then write_msg1 n i s p else (send_msg1 n s p, ends)
  ]
  do_cb n (acquires request_id) i p =
      if is_request request_id p.net_key_acq_proc
      then peer_send_message l busy n p p.preferred_peer_address (of_keys_request request_id)
      else (p, completes not_in_progress)

  -- A transaction that fails at once is completed, and so the next one begins, before the timer of
  -- the first is armed. Its code is not `ok`, so that no acquisition goes on after it. With no fuel
  -- left nothing begins.
  unfoldable pub process_from : ℕ → Node → PeerState → PeerState × Flow
  unfolding do_cb done_cb remove_if
  process_from zero n p = (p, ends)
  process_from (suc fuel) n p = elim p.current_transaction [
    | some t ↦ (p, ends)
    | none ↦ elim p.pending_transactions [
      | [] ↦ (p, ends)
      | t ∷ rest ↦
          settle (λ code p'. process_from fuel n (end_transaction (done_cb t.work code p').0))
            (do_cb n t.work p.trid_ctr (begin t rest p))
    ]
  ]

  unfoldable pub peer_process_pending_transactions : Node → PeerState → PeerState × Flow
  unfolding process_from weight
  peer_process_pending_transactions n p = process_from (suc (weight p.pending_transactions)) n p

  unfoldable pub peer_start_network_key_acquisition_procedure : Node → PeerState → PeerState × Flow
  unfolding peer_select_sec_ctx peer_start_security_procedure peer_process_pending_transactions
  peer_start_network_key_acquisition_procedure n p = elim p.net_key_acq_proc [
    | some a ↦ (p, ends)
    | none ↦ elim (peer_select_sec_ctx n.security_ctx_grace_period_s n.now (security_contexts p)) [
      | none ↦ after_start (
          peer_start_security_procedure l (peer_process_pending_transactions n) n acquires_keys
            false p)
      | some ctx ↦ elim n.identity [
        | none ↦ (put_out (reports not_in_progress []) p, ends)
        | some own ↦ peer_process_pending_transactions n (
            queue (acquires p.trid_ctr) (record p {
              net_key_acq_proc = some (new_acquisition p.trid_ctr);
              trid_ctr = (p.trid_ctr + 1) % 256;
            }))
      ]
    ]
  ]

  abbrev pub go_on : Node → PeerState × Bool → PeerState × Flow
  go_on n (p, starts) =
      if starts then peer_start_network_key_acquisition_procedure n p else (p, ends)

  abbrev pub finish : Node → PeerState × Flow → PeerState × Flow
  finish n (p, throws) = (p, throws)
  finish n (p, ends) = peer_process_pending_transactions n (end_transaction p)
  finish n (p, completes code) = peer_process_pending_transactions n (end_transaction p)

  unfoldable pub peer_complete_transaction : Node → ℕ → Code → PeerState → PeerState × Flow
  unfolding done_cb peer_start_network_key_acquisition_procedure peer_process_pending_transactions
      remove_if
  peer_complete_transaction n i code p = elim p.current_transaction [
    | none ↦ (p, ends)
    | some t ↦ if t.id == i then finish n (go_on n (completed n t.work code p)) else (p, ends)
  ]

  abbrev pub complete_failed : Node → ℕ → PeerState × Flow → PeerState × Flow
  complete_failed n i (p, ends) = (p, ends)
  complete_failed n i (p, throws) = (p, throws)
  complete_failed n i (p, completes code) = peer_complete_transaction n i code p

  -- The timer is not armed again.
  unfoldable pub peer_retry_transaction : Node → PeerState → PeerState × Flow
  unfolding do_cb peer_complete_transaction
  peer_retry_transaction n p = elim p.current_transaction [
    | none ↦ (p, ends)
    | some t ↦ complete_failed n t.id (do_cb n t.work t.id p)
  ]

  -- The `expiration_cb` of the current transaction.
  unfoldable pub expiration_cb : Node → Work → ℕ → PeerState → PeerState × Flow
  unfolding peer_complete_transaction peer_retry_transaction
  expiration_cb n secures i p = elim p.sec_proc [
    | none ↦ peer_complete_transaction n 0 not_in_progress p
    | some s ↦
        if not (i == s.msg1.id)
        then (p, ends)
        else if is_ongoing s.state && leb 3 s.retry_count
        then peer_complete_transaction n 0 max_retries_reached p
        else peer_retry_transaction n
            (record p { sec_proc = some (record s { state = sender_expired }) })
  ]
  expiration_cb n (acquires request_id) i p = elim p.net_key_acq_proc [
    | none ↦ (p, ends)
    | some a ↦
        if not (a.request_id == request_id)
        then (p, ends)
        else if leb 3 a.retry_count
        then peer_complete_transaction n i max_retries_reached p
        else peer_retry_transaction n
            (record p { net_key_acq_proc = some (record a { retry_count = a.retry_count + 1 }) })
  ]

  -- The timer with the number is due: it is gone, and its call is made.
  unfoldable pub expire_transaction_timer : Node → ℕ → PeerState → PeerState × Flow
  unfolding expiration_cb remove_if
  expire_transaction_timer n i p =
      let due = record p { transaction_timers = remove_if (λ j. j == i) p.transaction_timers } in
      elim p.current_transaction [ none ↦ (due, ends) | some t ↦ expiration_cb n t.work t.id due ]
