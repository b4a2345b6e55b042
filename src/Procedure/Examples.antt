-- ===== src/Procedure/Examples.antt =====
-- node.cpp: tests on two nodes that agree on a context.
use bfc_tunnel.Base.{ℕ, arith, ◌≡◌, refl, true, false, none, some, List, [], ◌∷◌, map, replicate}
use bfc_tunnel.Frame.{Frame, frame_at}
use bfc_tunnel.Dh.Examples.{plain_curve, plain_curve-IsLawful, key_a, key_b, key_e, key_f}
use bfc_tunnel.Security.Examples.{plain_primitives}
use bfc_tunnel.Topology.{sockaddr_none, PeerAddress, peer_at}
use bfc_tunnel.Procedure.{
  secures, acquires, Status, Msg2, of_msg2, nothing, acquires_keys, SecurityProcedure, transmits,
  Output, PeerState, Node, Libraries,
}
use bfc_tunnel.Dh.{
  public_from_private, send_traffic_key, split_traffic_keys, handshake_secrets, handshake_secret_eb,
  handshake_secret_ab, handshake_secret_ef, handshake_secret_af, shared, derive_subkey, noise_hkdf2,
  receive_traffic_key,
}
use bfc_tunnel.Frame.Algorithms.{integrity_key_size, confidentiality_key_size}
use bfc_tunnel.Peer.{SecurityCtx}
use bfc_tunnel.Procedure.Sending.{
  Flow, ends, new_dhke, new_procedure, peer_start_security_procedure,
}
use bfc_tunnel.Procedure.Transactions.{new_acquisition, peer_process_pending_transactions}
use bfc_tunnel.Procedure.Handlers.{
  start_security, handle_msg1, handle_msg2, handle_network_keys_response,
}
use bfc_tunnel.Procedure.Handshake.{Answers}
use bfc_tunnel.Procedure.Handlers.{peer_cleanup}
use bfc_tunnel.Procedure.Settled.{IsSettled}
use bfc_tunnel.Procedure.Progress.{
  Event, starts_security, transaction_timer, receives_msg2, run, run-IsSettled,
}
use bfc_tunnel.Procedure.Cleanup.{IsGone, peer_cleanup-IsGone}
use bfc_tunnel.Procedure.Pages.{Page, receive_page, receive_pages, Acquired, receive_pages-Acquired}
use bfc_tunnel.Network.{NetworkKey, is_member}
use bfc_tunnel.Procedure.Establish.{IsIdle, key_of, Established, procedure-Established}

abbrev test_libraries : Libraries
test_libraries = record {
  curve = plain_curve;
  primitives = plain_primitives;
  encode = λ m room. some (7 ∷ []);
  buffer = replicate 80 0;
  is_multicast = λ port. false;
}

abbrev test_node : ℕ → List ℕ → List ℕ → Node
test_node i private_key ephemeral = record {
  now = 100;
  security_ctx_timeout_s = 120;
  security_ctx_grace_period_s = 30;
  identity = some (record { node_id = i; private_key = private_key });
  known_key = none;
  integrity_algorithms = 2 ∷ [];
  confidentiality_algorithms = 1 ∷ [];
  asks_again = false;
  random_priority = 9;
  random_ephemeral = ephemeral;
}

abbrev place : PeerAddress
place = peer_at 1 sockaddr_none

abbrev test_peer : ℕ → List ℕ → PeerState
test_peer i key = record {
  node_id = i;
  public_key = some (record { key_type = 1; public_key = key });
  contexts = record { contexts = []; timers = []; next_timer = 1 };
  tx_sn = 0;
  preferred_peer_address = place;
  links = record { unicast_links = []; multicast_links = []; last_activity_time_s = 0 };
  trid_ctr = 255;
  current_transaction = none;
  pending_transactions = [];
  transaction_timer_id = 0;
  transaction_timers = [];
  sec_proc = none;
  net_key_acq_proc = none;
  test_algorithm_pairs = (2, 1) ∷ [];
  supported_algorithm_pairs = [];
  outputs = [];
}

abbrev node_a : Node
node_a = test_node 1 key_a key_e

abbrev node_b : Node
node_b = test_node 2 key_b key_f

abbrev peer_b : PeerState
peer_b = test_peer 2 key_b

abbrev peer_a : PeerState
peer_a = test_peer 1 key_a

-- Node a asks, node b answers, and node a takes the answer.
unfoldable asking : PeerState × Flow
unfolding peer_start_security_procedure peer_process_pending_transactions public_from_private
asking = start_security test_libraries node_a nothing true peer_b

abbrev procedure_of : PeerState → SecurityProcedure
procedure_of p = elim p.sec_proc [
  | none ↦ new_procedure test_libraries nothing new_dhke peer_b
  | some s ↦ s
]

abbrev no_answer : Msg2
no_answer = record { id = 0; status = Status.unsupported; ephemeral = [] }

abbrev answer_in : List Output → Msg2 × Frame
answer_in [] = (no_answer, frame_at none 0)
answer_in (o ∷ rest) = elim o [
  | transmits to sn m f ↦ elim m [ of_msg2 m2 ↦ (m2, f) | _ ↦ (no_answer, f) ]
  | _ ↦ (no_answer, frame_at none 0)
]

unfoldable answering : PeerState × Flow
unfolding asking handle_msg1 send_traffic_key split_traffic_keys handshake_secrets
    handshake_secret_eb handshake_secret_ab handshake_secret_ef handshake_secret_af shared
    derive_subkey integrity_key_size confidentiality_key_size noise_hkdf2 receive_traffic_key
answering = handle_msg1 test_libraries node_b place 70 (procedure_of asking.0).msg1 peer_a

unfoldable taking : PeerState × Flow
unfolding asking answering handle_msg2 send_traffic_key split_traffic_keys handshake_secrets
    handshake_secret_eb handshake_secret_ab handshake_secret_ef handshake_secret_af shared
    derive_subkey integrity_key_size confidentiality_key_size noise_hkdf2 receive_traffic_key
taking = handle_msg2 test_libraries node_a place 70 (answer_in answering.0.outputs).0 asking.0

-- Both sides have one context, of number 1, and the procedure is over.
one_context :
    map (λ (e : ℕ × SecurityCtx). e.1.id) taking.0.contexts.contexts
    ≡ map (λ (e : ℕ × SecurityCtx). e.1.id) answering.0.contexts.contexts
unfolding taking answering
one_context = refl

over : (taking.0.sec_proc ≡ none) × (taking.0.current_transaction ≡ none)
unfolding taking
over = (refl, refl)

has_asked : asking ≡ (asking.0, ends)
unfolding asking
has_asked = refl

has_procedure : asking.0.sec_proc ≡ some (procedure_of asking.0)
unfolding asking
has_procedure = refl

has_answered : answering ≡ (answering.0, ends)
unfolding answering
has_answered = refl

answer_ok :
    Answers answering.0 place 0 (answer_in answering.0.outputs).1 (answer_in answering.0.outputs).0
unfolding answering
answer_ok = (refl, refl)

has_taken : taking ≡ (taking.0, ends)
unfolding taking
has_taken = refl

peer_b-IsIdle : IsIdle peer_b (key_of plain_curve (record { node_id = 2; private_key = key_b }))
peer_b-IsIdle = record { known = refl; free = refl; idle = refl; empty = refl }

procedure-Established_example : Established (procedure_of asking.0).id taking.0 answering.0
unfolding asking answering taking handle_msg1 handle_msg2
procedure-Established_example =
    procedure-Established test_libraries plain_curve-IsLawful node_a node_a node_b
      (record { node_id = 1; private_key = key_a }) (record { node_id = 2; private_key = key_b })
      refl refl refl refl nothing (procedure_of asking.0) (answer_in answering.0.outputs).0 peer_b
      asking.0 taking.0 peer_a answering.0 place place place 70 70 0
      (answer_in answering.0.outputs).1 peer_b-IsIdle has_asked has_procedure refl refl refl
      has_answered answer_ok has_taken

-- The timer of the first transaction runs out, and the answer comes late.
abbrev late : List (Node × Event)
late =
    (node_a, starts_security acquires_keys false)
    ∷ (node_a, transaction_timer 1)
    ∷ (node_a, receives_msg2 place 70 (record { id = 0; status = Status.ok; ephemeral = key_f }))
    ∷ []

run-IsSettled_example : IsSettled (run test_libraries late peer_b)
run-IsSettled_example = run-IsSettled test_libraries late peer_b tt

-- Node a gives the peer up before the answer comes.
peer_cleanup-IsGone_example : IsGone asking.0 (peer_cleanup asking.0)
peer_cleanup-IsGone_example = peer_cleanup-IsGone asking.0

abbrev test_network_key : ℕ → NetworkKey
test_network_key slot = record {
  sec_ctx = slot;
  priority = 5;
  expiration_time_s = 300;
  integrity_algorithm = 0;
  integrity_key = [];
  confidentiality_algorithm = 0;
  confidentiality_key = [];
}

-- One of two pages, with the key of a slot.
abbrev test_page : ℕ → ℕ → Page
test_page page slot = (
  (node_a, place, 90),
  record { id = 9; current_page = page; total_page = 2; keys = test_network_key slot ∷ [] },
)

abbrev acquiring : PeerState
acquiring = record peer_b {
  net_key_acq_proc = some (new_acquisition 9);
  current_transaction = some (record { id = 0; work = acquires 9 });
}

-- The second page comes first, twice, and then the first.
receive_pages-Acquired_example :
    (q : PeerState) × (receive_pages test_libraries (test_page 1 4 ∷ test_page 1 4 ∷ []) acquiring
      ≡ (q, ends))
    × (q.outputs ≡ [])
    × (r : PeerState) × (receive_page test_libraries (test_page 0 3) q ≡ (r, ends))
    × Acquired acquiring r (test_network_key 4 ∷ test_network_key 4 ∷ test_network_key 3 ∷ [])
unfolding is_member
receive_pages-Acquired_example =
    receive_pages-Acquired test_libraries acquiring (new_acquisition 9)
      (record { id = 0; work = acquires 9 }) 9 2 (test_page 1 4 ∷ test_page 1 4 ∷ [])
      (test_page 0 3) refl refl refl refl refl refl ((refl, refl), ((refl, refl), tt)) (refl, refl)
      refl (omega arith) (omega arith)

-- Where the completion asks the same peer again, the next acquisition waits for a security procedure.
asked_again :
    let again = record node_a { asks_again = true } in
    let pages = test_page 1 4 ∷ ((again, place, 90), (test_page 0 3).1) ∷ [] in
    let p = (receive_pages test_libraries pages acquiring).0 in
    (p.current_transaction ≡ some (record { id = 0; work = secures })) × (p.net_key_acq_proc ≡ none)
unfolding is_member handle_network_keys_response peer_process_pending_transactions
    peer_start_security_procedure public_from_private
asked_again = (refl, refl)
