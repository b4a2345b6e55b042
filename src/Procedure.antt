-- ===== src/Procedure.antt =====
-- src/bfc_tunnel/node.cpp and node.hpp: the transactions of a peer, the procedure that agrees on a
-- security context with it, and the one that acquires its network keys.
-- The state is that of one peer that the node knows. What the node gives to a call (the clock, its
-- configuration and identity, random values) is a record. Two callbacks are ever given as the
-- completion of a security procedure, none and the one that goes on with an acquisition; the
-- callbacks of a transaction are those of the two procedures. What goes out is a list: messages, and
-- calls of the node's other parts.
pub mod Sending
pub mod Transactions
pub mod Handlers
pub mod Settled
pub mod Kept
pub mod Handshake
pub mod Establish
pub mod Progress
pub mod Cleanup
pub mod Pages
mod Examples
use bfc_tunnel.Base.{
  ℕ, Bool, true, false, Option, none, some, List, [], ◌∷◌, ◌++◌, ltb, ◌==◌, ◌&&◌, ◌||◌,
  if◌then◌else◌, map,
}
use bfc_tunnel.Frame.{Frame}
use bfc_tunnel.Security.{Primitives}
use bfc_tunnel.Dh.{Curve, Dhke}
use bfc_tunnel.Network.{NetworkKey}
use bfc_tunnel.Topology.{PeerAddress}
use bfc_tunnel.Peer.{SecurityCtx}
use bfc_tunnel.Renewal.{Contexts}
use bfc_tunnel.Links.{Links}

pub data Code : Type 0 where
  ok max_retries_reached not_in_progress verification_failed unsupported : Code
  no_supported_algorithm_pair peer_teardown peer_expired : Code

abbrev pub is_ok : Code → Bool
is_ok code = elim code [ ok ↦ true | _ ↦ false ]

pub data Status : Type 0 where
  ok unsupported verification_failed uknown_peer : Status

pub record Msg1 : Type 0 where
  pub id : ℕ
  pub sec_ctx : ℕ
  pub integrity_algorithm : ℕ
  pub confidentiality_algorithm : ℕ
  pub dh_key_type : ℕ
  pub ephemeral : List ℕ
  pub expiration_time_s : ℕ
  pub priority : ℕ

pub record Msg2 : Type 0 where
  pub id : ℕ
  pub status : Status
  pub ephemeral : List ℕ

pub record KeysResponse : Type 0 where
  pub id : ℕ
  pub current_page : ℕ
  pub total_page : ℕ
  pub keys : List NetworkKey

pub data Message : Type 0 where
  of_msg1 : Msg1 → Message
  of_msg2 : Msg2 → Message
  of_keys_request : ℕ → Message
  of_keys_response : KeysResponse → Message

pub record PublicKey : Type 0 where
  pub key_type : ℕ
  pub public_key : List ℕ

pub data SecProcState : Type 0 where
  sender_queued sender_ongoing sender_expired : SecProcState

-- The completion of a security procedure.
pub data Completion : Type 0 where
  nothing acquires_keys : Completion

pub record SecurityProcedure : Type 0 where
  pub id : ℕ
  pub state : SecProcState
  pub retry_count : ℕ
  pub frame : Frame
  pub msg1 : Msg1
  pub algo_pair_used : ℕ × ℕ
  pub creation_id : ℕ
  pub completion : Completion
  pub dhke : Dhke

pub record KeyAcquisition : Type 0 where
  pub request_id : ℕ
  pub total_page : ℕ
  pub retry_count : ℕ
  pub received_pages : List ℕ
  pub collected_keys : List NetworkKey

-- Which procedure's callbacks a transaction has; those of an acquisition hold its request id.
pub data Work : Type 0 where
  secures : Work
  acquires : ℕ → Work

pub record Transaction : Type 0 where
  pub id : ℕ
  pub work : Work

-- `reports` is the call of the completion of an acquisition, with the security contexts of the keys
-- that it brought, whose candidates the query drops first (`Query.drop_acquired`). What the completion
-- does to the query is modelled there; what it does to this peer follows the report at once. `undefined` stands for a null pointer that is followed, or a recursion without end.
pub data Output : Type 0 where
  transmits : PeerAddress → ℕ → Message → Frame → Output
  reports : Code → List ℕ → Output
  installs : List NetworkKey → Output
  forgets_key : Output
  undefined : Output

pub record PeerState : Type 0 where
  pub node_id : ℕ
  pub public_key : Option PublicKey
  pub contexts : Contexts
  pub tx_sn : ℕ
  pub preferred_peer_address : PeerAddress
  pub links : Links
  pub trid_ctr : ℕ
  pub current_transaction : Option Transaction
  pub pending_transactions : List Transaction
  pub transaction_timer_id : ℕ
  pub transaction_timers : List ℕ
  pub sec_proc : Option SecurityProcedure
  pub net_key_acq_proc : Option KeyAcquisition
  pub test_algorithm_pairs : List (ℕ × ℕ)
  pub supported_algorithm_pairs : List (ℕ × ℕ)
  pub outputs : List Output

pub record Identity : Type 0 where
  pub node_id : ℕ
  pub private_key : List ℕ

-- What the node gives to a call. The key is that of the peer in the node's map of public keys;
-- `asks_again` is whether the query for network keys, told that an acquisition with the peer has ended
-- well, starts another one with the same peer.
pub record Node : Type 0 where
  pub now : ℕ
  pub security_ctx_timeout_s : ℕ
  pub security_ctx_grace_period_s : ℕ
  pub identity : Option Identity
  pub known_key : Option PublicKey
  pub integrity_algorithms : List ℕ
  pub confidentiality_algorithms : List ℕ
  pub asks_again : Bool
  pub random_priority : ℕ
  pub random_ephemeral : List ℕ

-- The libraries: the primitives, the encoder of messages for the room there is, the content of a new
-- buffer, and which ports are multicast ones.
pub record Libraries : Type 0 where
  pub curve : Curve
  pub primitives : Primitives
  pub encode : Message → ℕ → Option (List ℕ)
  pub buffer : List ℕ
  pub is_multicast : ℕ → Bool

abbrev pub put_out : Output → PeerState → PeerState
put_out o p = record p { outputs = p.outputs ++ o ∷ [] }

abbrev pub security_contexts : PeerState → List SecurityCtx
security_contexts p = map (λ (e : ℕ × SecurityCtx). e.1) p.contexts.contexts

-- A set of pairs is the list of them in order; `rbegin` is its last one.
abbrev pub pair_lt : ℕ × ℕ → ℕ × ℕ → Bool
pair_lt a b = ltb a.0 b.0 || (a.0 == b.0 && ltb a.1 b.1)

abbrev pub pair_eq : ℕ × ℕ → ℕ × ℕ → Bool
pair_eq a b = a.0 == b.0 && a.1 == b.1

unfoldable pub insert_pair : ℕ × ℕ → List (ℕ × ℕ) → List (ℕ × ℕ)
insert_pair a [] = a ∷ []
insert_pair a (b ∷ bs) =
    if pair_eq a b then b ∷ bs else if pair_lt a b then a ∷ b ∷ bs else b ∷ insert_pair a bs

unfoldable pub last_pair : List (ℕ × ℕ) → Option (ℕ × ℕ)
last_pair [] = none
last_pair (a ∷ []) = some a
last_pair (a ∷ b ∷ bs) = last_pair (b ∷ bs)
