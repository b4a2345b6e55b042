-- ===== src/Procedure/Progress.antt =====
-- node.cpp: a peer's queue of transactions never stands still, whatever calls come.
use bfc_tunnel.Base.{
  ℕ, ◌+◌, ◌%◌, ◌≡◌, ◌∙◌, Bool, true, false, some, List, [], ◌∷◌, arith, Bool-cases, Option-cases,
  inl, inr, ltb, length, ◌==◌,
}
use bfc_tunnel.Dh.{Dhke}
use bfc_tunnel.Network.{NetworkKey}
use bfc_tunnel.Topology.{PeerAddress}
use bfc_tunnel.Procedure.{
  Code, Status, Msg2, KeysResponse, Message, of_keys_response, Completion, acquires_keys, acquires,
  nothing, Work, secures, Transaction, PeerState, Node, Libraries, SecurityProcedure,
  security_contexts, put_out, installs,
}
use bfc_tunnel.Procedure.Sending.{
  Flow, ends, completes, throws, failed, queue, peer_start_security_procedure, peer_send_message,
}
use bfc_tunnel.Peer.{peer_select_sec_ctx}
use bfc_tunnel.Procedure.Transactions.{
  completed, do_cb, after_start, go_on, finish, new_acquisition, peer_process_pending_transactions,
  peer_start_network_key_acquisition_procedure, peer_complete_transaction, complete_failed,
  peer_retry_transaction, expiration_cb, expire_transaction_timer,
}
use bfc_tunnel.Procedure.Handlers.{
  Terms, add_response, count_activity, looked_up, and_then, install_ctx, take_msg2, handle_msg2,
  handle_network_keys_request, finish_acquisition, handle_network_keys_response,
  expire_context_timer, start_security,
}
use bfc_tunnel.Procedure.Settled.{
  GoesOn, IsSettled, do_cb-Keeps, completed-Stays, process-IsSettled,
}

-- A peer whose queue does not stand still.
abbrev pub IsReady : PeerState → Type 0
IsReady p = GoesOn p.current_transaction p.pending_transactions

of_current : (p : PeerState) (t : Transaction) → p.current_transaction ≡ some t → IsReady p
of_current p t e = rw e tt

module _ (l : Libraries) (n : Node) where
  process : PeerState → PeerState × Flow
  process = peer_process_pending_transactions l n

  start-IsSettled :
      (c : Completion) (force : Bool) (p : PeerState)
      → IsReady p
      → IsSettled
          (peer_start_security_procedure l (peer_process_pending_transactions l n) n c force p)
  unfolding peer_start_security_procedure
  start-IsSettled c force p r = grind (arith, process-IsSettled, r)

  after_start-IsSettled : (r : PeerState × Flow) → IsSettled r → IsSettled (after_start r)
  after_start-IsSettled (p, ends) k = k
  after_start-IsSettled (p, throws) k = tt
  after_start-IsSettled (p, completes code) k = ground (arith, k)

  acquire-IsSettled :
      (p : PeerState) → IsReady p → IsSettled (peer_start_network_key_acquisition_procedure l n p)
  unfolding peer_start_network_key_acquisition_procedure
  acquire-IsSettled p r =
      let started =
        peer_start_security_procedure l (peer_process_pending_transactions l n) n acquires_keys
          false p in
      let kept = after_start-IsSettled started (start-IsSettled acquires_keys false p r) in
      let selected =
        peer_select_sec_ctx n.security_ctx_grace_period_s n.now (security_contexts p) in
      elim (Option-cases p.net_key_acq_proc) [
        | inr (a, going) ↦ rw (peer_start_network_key_acquisition_procedure, going) r
        | inl free ↦ elim (Option-cases selected) [
          | inl bare ↦ rw (peer_start_network_key_acquisition_procedure, free, bare) kept
          | inr (ctx, found) ↦ elim (Option-cases n.identity) [
            | inl nobody ↦ rw (peer_start_network_key_acquisition_procedure, free, found, nobody) r
            | inr (own, named) ↦
                rw (peer_start_network_key_acquisition_procedure, free, found, named)
                  (process-IsSettled l n (
                    queue (acquires p.trid_ctr) (record p {
                      net_key_acq_proc = some (new_acquisition p.trid_ctr);
                      trid_ctr = (p.trid_ctr + 1) % 256;
                    })))
          ]
        ]
      ]

  go_on-IsSettled : (r : PeerState × Bool) → IsReady r.0 → IsSettled (go_on l n r)
  go_on-IsSettled (p, true) k = acquire-IsSettled p k
  go_on-IsSettled (p, false) k = k

  finish-IsSettled : (r : PeerState × Flow) → IsSettled (finish l n r)
  finish-IsSettled (p, throws) = tt
  finish-IsSettled (p, ends) = process-IsSettled l n _
  finish-IsSettled (p, completes code) = process-IsSettled l n _

  -- Where the current transaction is completed, the next one begins, if one waits.
  pub complete-IsSettled :
      (i : ℕ) (code : Code) (p : PeerState)
      → IsReady p
      → IsSettled (peer_complete_transaction l n i code p)
  unfolding peer_complete_transaction
  complete-IsSettled i code p r = elim (Option-cases p.current_transaction) [
    | inl idle ↦ rw (peer_complete_transaction, idle) r
    | inr (t, going) ↦ elim (Bool-cases (t.id == i)) [
      | inr other ↦ rw (peer_complete_transaction, going, other) r
      | inl own ↦
          rw (peer_complete_transaction, going, own)
            (finish-IsSettled (go_on l n (completed n t.work code p)))
    ]
  ]

  -- A call that a transaction begins with or is tried again with leaves it the current one.
  complete_failed-IsSettled :
      (i : ℕ) (r : PeerState × Flow) → IsReady r.0 → IsSettled (complete_failed l n i r)
  complete_failed-IsSettled i (p, ends) k = k
  complete_failed-IsSettled i (p, throws) k = tt
  complete_failed-IsSettled i (p, completes code) k = complete-IsSettled i code p k

  retry-IsSettled : (p : PeerState) → IsReady p → IsSettled (peer_retry_transaction l n p)
  unfolding peer_retry_transaction
  retry-IsSettled p r = elim (Option-cases p.current_transaction) [
    | inl idle ↦ rw (peer_retry_transaction, idle) r
    | inr (t, going) ↦
        let (k, light, kept) = do_cb-Keeps l n t.work t.id p in
        rw (peer_retry_transaction, going)
          (complete_failed-IsSettled t.id (do_cb l n t.work t.id p)
            (of_current (do_cb l n t.work t.id p).0 t (kept.1 ∙ going)))
  ]

  expiration-IsSettled :
      (w : Work) (i : ℕ) (p : PeerState) → IsReady p → IsSettled (expiration_cb l n w i p)
  unfolding expiration_cb
  expiration-IsSettled secures i p r = grind (arith, r, complete-IsSettled, retry-IsSettled)
  expiration-IsSettled (acquires request_id) i p r =
      grind (arith, r, complete-IsSettled, retry-IsSettled)

  expire-IsSettled :
      (i : ℕ) (p : PeerState) → IsReady p → IsSettled (expire_transaction_timer l n i p)
  unfolding expire_transaction_timer
  expire-IsSettled i p r = grind (arith, r, expiration-IsSettled)

  and_then-IsSettled :
      (r : PeerState × Flow) (next : PeerState → PeerState × Flow)
      → IsSettled r
      → ((p : PeerState) → IsReady p → IsSettled (next p))
      → IsSettled (and_then r next)
  and_then-IsSettled (p, throws) next s k = tt
  and_then-IsSettled (p, ends) next s k = k p s
  and_then-IsSettled (p, completes code) next s k = k p s

  install-IsSettled :
      (t : Terms) (d : Dhke) (p : PeerState) → IsReady p → IsSettled (install_ctx l n t d p)
  unfolding install_ctx
  install-IsSettled t d p r = grind (arith, r)

  start_security-IsSettled :
      (c : Completion) (force : Bool) (p : PeerState)
      → IsReady p
      → IsSettled (start_security l n c force p)
  start_security-IsSettled c force p r =
      after_start-IsSettled
        (peer_start_security_procedure l (peer_process_pending_transactions l n) n c force p)
        (start-IsSettled c force p r)

  take-IsSettled :
      (s : SecurityProcedure) (m : Msg2) (status : Status) (p : PeerState)
      → IsReady p
      → IsSettled (take_msg2 l n s m status p)
  unfolding take_msg2
  take-IsSettled s m Status.unsupported p r =
      and_then-IsSettled (peer_complete_transaction l n m.id Code.unsupported _) _
        (complete-IsSettled m.id Code.unsupported _ r) (start_security-IsSettled s.completion true)
  take-IsSettled s m Status.verification_failed p r =
      and_then-IsSettled (peer_complete_transaction l n m.id Code.verification_failed p) _
        (complete-IsSettled m.id Code.verification_failed p r) (λ q k. k)
  take-IsSettled s m Status.ok p r =
      and_then-IsSettled (install_ctx l n _ _ _) _ (install-IsSettled _ _ _ r)
        (complete-IsSettled m.id Code.ok)
  take-IsSettled s m Status.uknown_peer p r = complete-IsSettled m.id Code.ok p r

  handle_msg2-IsSettled :
      (from : PeerAddress) (size : ℕ) (m : Msg2) (p : PeerState)
      → IsReady p
      → IsSettled (handle_msg2 l n from size m p)
  unfolding handle_msg2
  handle_msg2-IsSettled from size m p r =
      let q = count_activity l n from size p in
      elim (Option-cases p.sec_proc) [
        | inl free ↦ rw (handle_msg2, free) (complete-IsSettled m.id Code.not_in_progress q r)
        | inr (s, going) ↦ elim (Option-cases p.public_key) [
          | inl unknown ↦
              rw (handle_msg2, going, unknown)
                (complete-IsSettled m.id Code.verification_failed q r)
          | inr (key, known) ↦ rw (handle_msg2, going, known) (take-IsSettled s m m.status q r)
        ]
      ]

  failed-IsSettled : (r : PeerState × Flow) → IsSettled r → IsSettled (failed r)
  failed-IsSettled (p, throws) k = tt
  failed-IsSettled (p, ends) k = k
  failed-IsSettled (p, completes code) k = k

  send-IsSettled :
      (p : PeerState) (to : PeerAddress) (m : Message)
      → IsReady p
      → IsSettled (peer_send_message l (peer_process_pending_transactions l n) n p to m)
  unfolding peer_send_message
  send-IsSettled p to m r =
      let started =
        peer_start_security_procedure l (peer_process_pending_transactions l n) n nothing false p in
      let kept = failed-IsSettled started (start-IsSettled nothing false p r) in
      ground (arith, r, kept)

  finish_acquisition-IsSettled : (p : PeerState) → IsReady p → IsSettled (finish_acquisition l n p)
  unfolding finish_acquisition
  finish_acquisition-IsSettled p r = elim (Option-cases p.current_transaction) [
    | inr (t, going) ↦ rw (finish_acquisition, going) (complete-IsSettled t.id Code.ok p r)
    | inl idle ↦
        let done = completed n (acquires 0) Code.ok p in
        let (rows, current, pending) = completed-Stays n (acquires 0) Code.ok p in
        rw (finish_acquisition, idle) (go_on-IsSettled done (rw (current, pending) r))
  ]

  response-IsSettled :
      (from : PeerAddress) (size : ℕ) (m : KeysResponse) (p : PeerState)
      → IsReady p
      → IsSettled (handle_network_keys_response l n from size m p)
  unfolding handle_network_keys_response
  response-IsSettled from size m p r = elim (Option-cases p.net_key_acq_proc) [
    | inl none_on ↦ rw (handle_network_keys_response, none_on) r
    | inr (a, going) ↦ elim (Bool-cases (m.id == a.request_id)) [
      | inr other ↦ rw (handle_network_keys_response, going, other) r
      | inl own ↦
          let b = add_response l m a in
          let q = record (count_activity l n from size (looked_up n from p)) {
            net_key_acq_proc = some b;
          } in
          let done = put_out (installs b.collected_keys) q in
          elim (Bool-cases (ltb (length b.received_pages) m.total_page)) [
            | inl more ↦ rw (handle_network_keys_response, going, own, more) r
            | inr last ↦
                rw (handle_network_keys_response, going, own, last)
                  (finish_acquisition-IsSettled done r)
          ]
    ]
  ]

  context-IsSettled : (i : ℕ) (p : PeerState) → IsReady p → IsSettled (expire_context_timer l n i p)
  unfolding expire_context_timer
  context-IsSettled i p r = grind (arith, r, start_security-IsSettled)

  request-IsSettled :
      (keys : List NetworkKey) (from : PeerAddress) (size i : ℕ) (p : PeerState)
      → IsReady p
      → IsSettled (handle_network_keys_request l n keys from size i p)
  unfolding handle_network_keys_request
  request-IsSettled [] from size i p r = ground (arith, r)
  request-IsSettled (key ∷ keys) from size i p r = elim (Option-cases n.identity) [
    | inl nobody ↦ rw (handle_network_keys_request, nobody) r
    | inr (own, named) ↦
        let response : KeysResponse = record {
          id = i;
          current_page = 0;
          total_page = 1;
          keys = key ∷ keys;
        } in
        let q = count_activity l n from size (looked_up n from p) in
        rw (handle_network_keys_request, named)
          (and_then-IsSettled
            (peer_send_message l (peer_process_pending_transactions l n) n q from
              (of_keys_response response))
            (λ sent. (sent, ends)) (send-IsSettled q from (of_keys_response response) r)
            (λ sent k. k))
  ]

-- What happens to a peer, besides the receipt of `msg1`.
pub data Event : Type 0 where
  starts_security : Completion → Bool → Event
  starts_acquisition : Event
  transaction_timer : ℕ → Event
  context_timer : ℕ → Event
  receives_msg2 : PeerAddress → ℕ → Msg2 → Event
  receives_request : List NetworkKey → PeerAddress → ℕ → ℕ → Event
  receives_response : PeerAddress → ℕ → KeysResponse → Event
  sends : PeerAddress → Message → Event

module _ (l : Libraries) where
  abbrev pub step : Node → Event → PeerState → PeerState × Flow
  step n (starts_security c force) p = start_security l n c force p
  step n starts_acquisition p = peer_start_network_key_acquisition_procedure l n p
  step n (transaction_timer i) p = expire_transaction_timer l n i p
  step n (context_timer i) p = expire_context_timer l n i p
  step n (receives_msg2 from size m) p = handle_msg2 l n from size m p
  step n (receives_request keys from size i) p = handle_network_keys_request l n keys from size i p
  step n (receives_response from size m) p = handle_network_keys_response l n from size m p
  step n (sends to m) p = peer_send_message l (peer_process_pending_transactions l n) n p to m

  abbrev pub run : List (Node × Event) → PeerState → PeerState × Flow
  run [] p = (p, ends)
  run ((n, event) ∷ events) p = and_then (step n event p) (run events)

  step-IsSettled :
      (n : Node) (event : Event) (p : PeerState) → IsReady p → IsSettled (step n event p)
  step-IsSettled n (starts_security c force) p r = start_security-IsSettled l n c force p r
  step-IsSettled n starts_acquisition p r = acquire-IsSettled l n p r
  step-IsSettled n (transaction_timer i) p r = expire-IsSettled l n i p r
  step-IsSettled n (context_timer i) p r = context-IsSettled l n i p r
  step-IsSettled n (receives_msg2 from size m) p r = handle_msg2-IsSettled l n from size m p r
  step-IsSettled n (receives_request keys from size i) p r =
      request-IsSettled l n keys from size i p r
  step-IsSettled n (receives_response from size m) p r = response-IsSettled l n from size m p r
  step-IsSettled n (sends to m) p r = send-IsSettled l n p to m r

  -- Start from a peer with a current transaction, or with none that waits, and let any calls follow,
  -- each with the node as it is then: starts of both procedures, messages to send, answers, requests
  -- and pages of keys that come in, timers. Where none of them throws, there is again a current
  -- transaction, or none waits.
  pub run-IsSettled :
      (events : List (Node × Event)) (p : PeerState) → IsReady p → IsSettled (run events p)
  run-IsSettled [] p r = r
  run-IsSettled ((n, event) ∷ events) p r =
      and_then-IsSettled l n (step n event p) (run events) (step-IsSettled n event p r)
        (run-IsSettled events)
