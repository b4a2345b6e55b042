-- ===== src/Procedure/Handlers.antt =====
-- node.cpp: the messages of a peer that concern its procedures, their timers, and the end of a peer.
use bfc_tunnel.Base.{
  ℕ, ◌+◌, ◌%◌, ◌^◌, Bool, true, false, not, ◌&&◌, ◌||◌, Option, none, some, List, [], ◌∷◌, ◌++◌,
  ltb, leb, ◌==◌, if◌then◌else◌, length, ◌>>=◌,
}
use mathlib.Core.Option
use bfc_tunnel.Dh.{
  Curve, Dhke, setup_handshake, get_own_ephemeral_public, set_peer_ephemeral_public,
  derive_integrity_key, derive_confidentiality_key, derive_receive_integrity_key,
  derive_receive_confidentiality_key,
}
use bfc_tunnel.Network.{NetworkKey, remove_if, is_member}
use bfc_tunnel.Topology.{PeerAddress}
use bfc_tunnel.Identities.{own_or}
use bfc_tunnel.Peer.{SecurityCtx, peer_get_next_creation_id}
use bfc_tunnel.Links.{peer_update_link_activity}
use bfc_tunnel.Renewal.{
  Contexts, change, peer_get_or_create_sec_ctx, put_sec_ctx, cancel_due, expire_timer,
}
use bfc_tunnel.Procedure.{
  Code, not_in_progress, verification_failed, unsupported, peer_teardown, Status, Msg1, Msg2,
  KeysResponse, of_keys_response, PublicKey, Completion, nothing, SecurityProcedure, KeyAcquisition,
  acquires, Transaction, installs, forgets_key, PeerState, Identity, Node, Libraries, put_out,
  security_contexts, pair_eq, insert_pair,
}
use bfc_tunnel.Procedure.Sending.{
  Flow, ends, completes, throws, dhkt_x25519, new_dhke, peer_send_msg2, peer_send_message,
  peer_start_security_procedure,
}
use bfc_tunnel.Procedure.Transactions.{
  peer_finish_security_procedure, peer_finish_network_key_acquisition_procedure, done_cb, completed,
  go_on, peer_start_network_key_acquisition_procedure, end_transaction, after_start,
  peer_process_pending_transactions, peer_complete_transaction,
}

-- A step after a call that may throw.
abbrev pub and_then : PeerState × Flow → (PeerState → PeerState × Flow) → PeerState × Flow
and_then (p, throws) next = (p, throws)
and_then (p, ends) next = next p
and_then (p, completes code) next = next p

-- `peer_lookup` of a peer that the node knows.
abbrev pub looked_up : Node → PeerAddress → PeerState → PeerState
looked_up n from p = record p {
  preferred_peer_address = from;
  public_key = own_or p.public_key n.known_key;
}

unfoldable pub peer_abort_sender_security_procedure : PeerState → PeerState
unfolding peer_finish_security_procedure remove_if
peer_abort_sender_security_procedure p =
    (peer_finish_security_procedure peer_teardown (end_transaction p)).0

-- The context that both sides agree on: its number, its algorithms, and when it expires.
pub record Terms : Type 0 where
  pub id : ℕ
  pub creation_id : ℕ
  pub integrity_algorithm : ℕ
  pub confidentiality_algorithm : ℕ
  pub expiration_time_s : ℕ

unfoldable pub agreed_ctx : Curve → Dhke → Terms → Option SecurityCtx
unfolding derive_integrity_key derive_confidentiality_key derive_receive_integrity_key
    derive_receive_confidentiality_key
agreed_ctx c dhke t = do
  integrity_key ← derive_integrity_key c dhke t.integrity_algorithm
  confidentiality_key ← derive_confidentiality_key c dhke t.confidentiality_algorithm
  rx_integrity_key ← derive_receive_integrity_key c dhke t.integrity_algorithm
  rx_confidentiality_key ← derive_receive_confidentiality_key c dhke t.confidentiality_algorithm
  some (record {
    id = t.id;
    creation_id = t.creation_id;
    integrity_key = integrity_key;
    confidentiality_key = confidentiality_key;
    rx_integrity_key = rx_integrity_key;
    rx_confidentiality_key = rx_confidentiality_key;
    integrity_algorithm = t.integrity_algorithm;
    confidentiality_algorithm = t.confidentiality_algorithm;
    expiration_time_s = t.expiration_time_s;
    is_expiring = false;
    last_rx_sn = 0;
    has_rx_sn = false;
  })

-- What is left of a context where the derivation of its first key throws: those of the others do not
-- throw where that one does not.
abbrev pub half_written : Terms → ℕ × SecurityCtx → ℕ × SecurityCtx
half_written t (timer, ctx) = (
  timer,
  record ctx {
    creation_id = t.creation_id;
    integrity_algorithm = t.integrity_algorithm;
    confidentiality_algorithm = t.confidentiality_algorithm;
  },
)

module _ (l : Libraries) where
  abbrev pub count_activity : Node → PeerAddress → ℕ → PeerState → PeerState
  count_activity n from size p = record p {
    links = peer_update_link_activity l.is_multicast n.now p.links from.port from.address size;
  }

  abbrev pub start_security : Node → Completion → Bool → PeerState → PeerState × Flow
  start_security n completion force p =
      after_start (
        peer_start_security_procedure l (peer_process_pending_transactions l n) n completion force
          p)

  -- The part of both handlers that makes the context, or writes it anew.
  unfoldable pub install_ctx : Node → Terms → Dhke → PeerState → PeerState × Flow
  unfolding agreed_ctx put_sec_ctx change peer_get_or_create_sec_ctx insert_pair
  install_ctx n t dhke p =
      let paired = record p {
        supported_algorithm_pairs =
            insert_pair (t.integrity_algorithm, t.confidentiality_algorithm)
              p.supported_algorithm_pairs;
      } in
      elim (agreed_ctx l.curve dhke t) [
        | none ↦
            let rows =
              change t.id (half_written t) (peer_get_or_create_sec_ctx t.id p.contexts.contexts) in
            (record paired { contexts = record p.contexts { contexts = rows } }, throws)
        | some ctx ↦ (
          record paired {
            contexts = put_sec_ctx n.security_ctx_grace_period_s n.now ctx p.contexts;
          },
          ends,
        )
      ]

  abbrev pub refused : ℕ → Status → Msg2
  refused i status = record { id = i; status = status; ephemeral = [] }

  abbrev pub peer_supports_algorithm_pair : Node → ℕ → ℕ → Bool
  peer_supports_algorithm_pair n integrity confidentiality =
      is_member integrity n.integrity_algorithms
      && is_member confidentiality n.confidentiality_algorithms

  -- The end of the handler of `msg1`: its proposal is taken up.
  unfoldable pub accept_msg1 :
      Node → Identity → PublicKey → PeerAddress → Msg1 → PeerState → PeerState × Flow
  unfolding setup_handshake get_own_ephemeral_public peer_get_next_creation_id install_ctx
      peer_send_msg2
  accept_msg1 n own key from m p =
      elim (setup_handshake l.curve new_dhke own.private_key key.public_key false) [
        | none ↦ (p, throws)
        | some set_up ↦
            let dhke =
              get_own_ephemeral_public l.curve (set_peer_ephemeral_public set_up m.ephemeral)
                n.random_ephemeral in
            let terms : Terms = record {
              id = m.sec_ctx;
              creation_id =
                  peer_get_next_creation_id (security_contexts p)
                    (Option.map (λ (s : SecurityProcedure). s.creation_id) p.sec_proc);
              integrity_algorithm = m.integrity_algorithm;
              confidentiality_algorithm = m.confidentiality_algorithm;
              expiration_time_s = m.expiration_time_s;
            } in
            let answer : Msg2 = record {
              id = m.id;
              status = Status.ok;
              ephemeral = dhke.own_ephemeral_public;
            } in
            and_then (install_ctx n terms dhke p)
              (λ made. (peer_send_msg2 l n made from answer, ends))
      ]

  unfoldable pub consider_msg1 :
      Node → Identity → PublicKey → PeerAddress → Msg1 → PeerState → PeerState × Flow
  unfolding accept_msg1 peer_send_msg2 is_member
  consider_msg1 n own key from m p =
      if m.sec_ctx == 0 || leb 16 m.sec_ctx
      then (peer_send_msg2 l n p from (refused m.id Status.verification_failed), ends)
      else if leb m.expiration_time_s n.now
      then (peer_send_msg2 l n p from (refused m.id Status.verification_failed), ends)
      else if not (m.dh_key_type == dhkt_x25519)
      then (peer_send_msg2 l n p from (refused m.id Status.verification_failed), ends)
      else if not (peer_supports_algorithm_pair n m.integrity_algorithm m.confidentiality_algorithm)
      then (peer_send_msg2 l n p from (refused m.id Status.unsupported), ends)
      else accept_msg1 n own key from m p

  -- Where both sides have started a procedure, the priorities decide: the greater one goes on.
  unfoldable pub handle_msg1 : Node → PeerAddress → ℕ → Msg1 → PeerState → PeerState × Flow
  unfolding peer_update_link_activity peer_send_msg2 peer_abort_sender_security_procedure
      peer_start_security_procedure peer_process_pending_transactions consider_msg1
  handle_msg1 n from size m p = elim n.identity [
    | none ↦ (p, ends)
    | some own ↦
        let q = count_activity n from size (looked_up n from p) in
        elim q.public_key [
          | none ↦ (peer_send_msg2 l n q from (refused m.id Status.uknown_peer), ends)
          | some key ↦ elim q.sec_proc [
            | none ↦ consider_msg1 n own key from m q
            | some s ↦
                let aborted = peer_abort_sender_security_procedure q in
                if ltb s.msg1.priority m.priority
                then consider_msg1 n own key from m aborted
                else if ltb m.priority s.msg1.priority
                then (q, ends)
                else start_security n nothing true aborted
          ]
        ]
  ]

  -- The rest of the handler of `msg2`, by the answer's status.
  unfoldable pub take_msg2 : Node → SecurityProcedure → Msg2 → Status → PeerState → PeerState × Flow
  unfolding install_ctx peer_complete_transaction peer_start_security_procedure
      peer_process_pending_transactions remove_if
  take_msg2 n s m Status.unsupported p =
      let pruned = record p {
        supported_algorithm_pairs =
            remove_if (pair_eq s.algo_pair_used) p.supported_algorithm_pairs;
        test_algorithm_pairs = remove_if (pair_eq s.algo_pair_used) p.test_algorithm_pairs;
      } in
      and_then (peer_complete_transaction l n m.id unsupported pruned)
        (start_security n s.completion true)
  take_msg2 n s m Status.verification_failed p =
      and_then (peer_complete_transaction l n m.id verification_failed p)
        (λ q. (put_out forgets_key (record q { public_key = none }), ends))
  take_msg2 n s m Status.ok p =
      let dhke = set_peer_ephemeral_public s.dhke m.ephemeral in
      let terms : Terms = record {
        id = s.id;
        creation_id = s.creation_id;
        integrity_algorithm = s.msg1.integrity_algorithm;
        confidentiality_algorithm = s.msg1.confidentiality_algorithm;
        expiration_time_s = s.msg1.expiration_time_s;
      } in
      and_then (install_ctx n terms dhke (record p { sec_proc = some (record s { dhke = dhke }) }))
        (peer_complete_transaction l n m.id Code.ok)
  take_msg2 n s m Status.uknown_peer p = peer_complete_transaction l n m.id Code.ok p

  unfoldable pub handle_msg2 : Node → PeerAddress → ℕ → Msg2 → PeerState → PeerState × Flow
  unfolding peer_update_link_activity peer_complete_transaction take_msg2
  handle_msg2 n from size m p =
      let q = count_activity n from size p in
      elim q.sec_proc [
        | none ↦ peer_complete_transaction l n m.id not_in_progress q
        | some s ↦ elim q.public_key [
          | none ↦ peer_complete_transaction l n m.id verification_failed q
          | some key ↦ take_msg2 n s m m.status q
        ]
      ]

  -- The keys are those that the node exports.
  unfoldable pub handle_network_keys_request :
      Node → List NetworkKey → PeerAddress → ℕ → ℕ → PeerState → PeerState × Flow
  unfolding peer_update_link_activity peer_send_message peer_process_pending_transactions
  handle_network_keys_request n keys from size i p = elim n.identity [
    | none ↦ (p, ends)
    | some own ↦
        let q = count_activity n from size (looked_up n from p) in
        elim keys [
          | [] ↦ (q, ends)
          | key ∷ rest ↦
              let response : KeysResponse = record {
                id = i;
                current_page = 0;
                total_page = 1;
                keys = key ∷ rest;
              } in
              and_then
                (peer_send_message l (peer_process_pending_transactions l n) n q from
                  (of_keys_response response))
                (λ sent. (sent, ends))
        ]
  ]

  abbrev pub add_page : ℕ → List ℕ → List ℕ
  add_page page pages = if is_member page pages then pages else pages ++ page ∷ []

  abbrev pub add_response : KeysResponse → KeyAcquisition → KeyAcquisition
  add_response m a = record a {
    total_page = m.total_page;
    received_pages = add_page m.current_page a.received_pages;
    collected_keys = a.collected_keys ++ m.keys;
  }

  unfoldable pub finish_acquisition : Node → PeerState → PeerState × Flow
  unfolding done_cb peer_start_network_key_acquisition_procedure peer_complete_transaction
  finish_acquisition n p = elim p.current_transaction [
    | none ↦ go_on l n (completed n (acquires 0) Code.ok p)
    | some t ↦ peer_complete_transaction l n t.id Code.ok p
  ]

  unfoldable pub handle_network_keys_response :
      Node → PeerAddress → ℕ → KeysResponse → PeerState → PeerState × Flow
  unfolding peer_update_link_activity finish_acquisition is_member
  handle_network_keys_response n from size m p =
      let q = looked_up n from p in
      elim q.net_key_acq_proc [
        | none ↦ (q, ends)
        | some a ↦
            if not (m.id == a.request_id)
            then (q, ends)
            else let b = add_response m a in
              let taken = record (count_activity n from size q) { net_key_acq_proc = some b } in
              if ltb (length b.received_pages) m.total_page
              then (taken, ends)
              else finish_acquisition n (put_out (installs b.collected_keys) taken)
      ]

  -- A timer of a security context is due, and may start a procedure.
  unfoldable pub expire_context_timer : Node → ℕ → PeerState → PeerState × Flow
  unfolding expire_timer peer_start_security_procedure peer_process_pending_transactions
  expire_context_timer n i p =
      let (contexts, starts) = expire_timer n.now i p.contexts in
      let q = record p { contexts = contexts } in
      if starts then start_security n nothing false q else (q, ends)

-- The peer is given up. Its part in the query for network keys is not of this state.
unfoldable pub tear_down : List Transaction → PeerState → PeerState
unfolding done_cb
tear_down [] p = p
tear_down (t ∷ rest) p = tear_down rest (done_cb t.work peer_teardown p).0

abbrev pub to_list : Option Transaction → List Transaction
to_list none = []
to_list (some t) = t ∷ []

unfoldable pub cancel_contexts : List (ℕ × SecurityCtx) → Contexts → Contexts
unfolding remove_if
cancel_contexts [] c = record c { contexts = [] }
cancel_contexts (e ∷ rest) c = cancel_contexts rest (record c { timers = cancel_due e.0 c.timers })

unfoldable pub peer_cleanup : PeerState → PeerState
unfolding tear_down cancel_contexts peer_finish_security_procedure
    peer_finish_network_key_acquisition_procedure remove_if
peer_cleanup p =
    let emptied = record (end_transaction p) { pending_transactions = [] } in
    let told =
      tear_down p.pending_transactions (tear_down (to_list p.current_transaction) emptied) in
    let unsecured = (peer_finish_security_procedure peer_teardown told).0 in
    let finished = peer_finish_network_key_acquisition_procedure peer_teardown unsecured in
    record finished { contexts = cancel_contexts finished.contexts.contexts finished.contexts }

-- The loop of `peer_schedule_check_activity`: the peers that stay, and those that are given up.
abbrev pub is_active : ℕ → ℕ → PeerState → Bool
is_active now timeout p = leb now ((p.links.last_activity_time_s + timeout) % 2 ^ 64)

unfoldable pub peer_check_activity : ℕ → ℕ → List PeerState → List PeerState × List PeerState
unfolding peer_cleanup
peer_check_activity now timeout [] = ([], [])
peer_check_activity now timeout (p ∷ ps) =
    let (kept, gone) = peer_check_activity now timeout ps in
    if is_active now timeout p then (p ∷ kept, gone) else (kept, peer_cleanup p ∷ gone)
