-- ===== src/Procedure/Sending.antt =====
-- node.cpp: the messages of the procedures, and the first step of a security procedure.
use bfc_tunnel.Base.{
  ℕ, ◌+◌, ◌%◌, ◌^◌, Bool, true, false, not, ◌&&◌, Option, none, some, [], ◌∷◌, ◌++◌, ◌==◌,
  if◌then◌else◌, ◌>>=◌,
}
use bfc_tunnel.Frame.{
  Frame, frame_at, set_sec_ctx, set_mac_size_units, set_ts, set_ttl, set_frame_type, set_src,
  set_dst, set_sn, get_size,
}
use bfc_tunnel.Security.{protect_frame}
use bfc_tunnel.Message.{prepare_frame, encode_payload, Route, peer_message_frame}
use bfc_tunnel.Dh.{Dhke, setup_handshake}
use bfc_tunnel.Topology.{PeerAddress}
use bfc_tunnel.Peer.{
  SecurityCtx, peer_get_next_sec_ctx_id, peer_get_next_creation_id, peer_has_usable_sec_ctx,
  peer_select_sec_ctx,
}
use bfc_tunnel.Links.{peer_record_tx}
use bfc_tunnel.Procedure.{
  Code, not_in_progress, Msg1, Msg2, Message, of_msg1, of_msg2, of_keys_request, of_keys_response,
  PublicKey, sender_queued, Completion, nothing, acquires_keys, SecurityProcedure, Work, secures,
  transmits, undefined, PeerState, Identity, Node, Libraries, put_out, security_contexts,
}

-- Key type 1 is `E_DHKT_X25519`, the only one with a backend; for the others `dhke_kk` throws.
abbrev pub dhkt_x25519 : ℕ
dhkt_x25519 = 1

abbrev pub new_dhke : Dhke
new_dhke = record {
  own_static = [];
  peer_static = [];
  initiator_static_public = [];
  responder_static_public = [];
  own_ephemeral = [];
  own_ephemeral_public = [];
  peer_ephemeral = [];
  is_initiator = false;
}

abbrev pub new_msg1 : Msg1
new_msg1 = record {
  id = 0;
  sec_ctx = 0;
  integrity_algorithm = 0;
  confidentiality_algorithm = 0;
  dh_key_type = 0;
  ephemeral = [];
  expiration_time_s = 0;
  priority = 0;
}

-- `msg_id` of the type of a message.
abbrev pub msg_id : Message → ℕ
msg_id (of_msg1 m) = 1
msg_id (of_msg2 m) = 2
msg_id (of_keys_request m) = 5
msg_id (of_keys_response m) = 6

abbrev pub next_sn : PeerState → PeerState
next_sn p = record p { tx_sn = (p.tx_sn + 1) % 2 ^ 32 }

-- What a call does besides its change of the state: it ends, it calls its completion, or it throws.
pub data Flow : Type 0 where
  ends : Flow
  completes : Code → Flow
  throws : Flow

-- A call that is not answered as wished, unless it throws.
abbrev pub failed : PeerState × Flow → PeerState × Flow
failed (p, throws) = (p, throws)
failed (p, ends) = (p, completes not_in_progress)
failed (p, completes code) = (p, completes not_in_progress)

abbrev pub answer : Completion → Code → Flow
answer nothing code = ends
answer acquires_keys code = completes code

abbrev pub queue : Work → PeerState → PeerState
queue work p = record p {
  pending_transactions = p.pending_transactions ++ record { id = p.trid_ctr; work = work } ∷ [];
  trid_ctr = (p.trid_ctr + 1) % 256;
}

module _ (l : Libraries) where
  -- A frame from peer to peer without a security context.
  unfoldable pub open_frame : ℕ → ℕ → ℕ → Frame
  unfolding prepare_frame
  open_frame now src dst =
      let f0 = prepare_frame l.buffer now in
      let f1 = set_frame_type (set_ttl f0 0) 0 in
      let f2 = set_mac_size_units (set_sec_ctx f1 0) 0 in set_dst (set_src f2 src) dst

  abbrev pub encoded : Message → Frame → Option Frame
  encoded m f = encode_payload (l.encode m) (msg_id m) f

  -- A message that answers `msg1`; the buffer's frame gets its sequence number before it is encoded.
  unfoldable pub peer_send_msg2 : Node → PeerState → PeerAddress → Msg2 → PeerState
  unfolding open_frame encode_payload
  peer_send_msg2 n p to m = elim p.public_key [
    | none ↦ p
    | some key ↦ elim n.identity [
      | none ↦ put_out undefined p
      | some own ↦
          let f =
            set_sn (set_ts (open_frame n.now own.node_id p.node_id) (n.now % 2 ^ 32)) p.tx_sn in
          elim (encoded (of_msg2 m) f) [
            | none ↦ next_sn p
            | some sent ↦ put_out (transmits to p.tx_sn (of_msg2 m) sent) (next_sn p)
          ]
    ]
  ]

  abbrev pub handshake_for : PublicKey → Option Identity → Option Dhke
  handshake_for key none = if key.key_type == dhkt_x25519 then some new_dhke else none
  handshake_for key (some own) =
      if key.key_type == dhkt_x25519
      then setup_handshake l.curve new_dhke own.private_key key.public_key true
      else none

  abbrev pub new_procedure : Completion → Dhke → PeerState → SecurityProcedure
  new_procedure completion dhke p = record {
    id = peer_get_next_sec_ctx_id (security_contexts p);
    state = sender_queued;
    retry_count = 0;
    frame = frame_at none 0;
    msg1 = new_msg1;
    algo_pair_used = (0, 0);
    creation_id = peer_get_next_creation_id (security_contexts p) none;
    completion = completion;
    dhke = dhke;
  }

  -- `process` is `peer_process_pending_transactions`.
  unfoldable pub peer_start_security_procedure :
      (PeerState → PeerState × Flow) → Node → Completion → Bool → PeerState → PeerState × Flow
  unfolding peer_get_next_sec_ctx_id peer_get_next_creation_id peer_has_usable_sec_ctx
      setup_handshake
  peer_start_security_procedure process n completion force p = elim p.public_key [
    | none ↦ (p, answer completion not_in_progress)
    | some key ↦
        if not force
          && peer_has_usable_sec_ctx n.security_ctx_grace_period_s n.now (security_contexts p)
        then (p, answer completion Code.ok)
        else elim p.sec_proc [
          | some ongoing ↦ (p, ends)
          | none ↦ elim (handshake_for key n.identity) [
            | none ↦ (p, throws)
            | some dhke ↦
                process
                  (queue secures (record p { sec_proc = some (new_procedure completion dhke p) }))
          ]
        ]
  ]

  abbrev pub sealed : Message → Node → Identity → SecurityCtx → PeerState → Option Frame
  sealed m n own ctx p = do
    let route : Route = record {
      sec_ctx = ctx.id;
      integrity_algorithm = ctx.integrity_algorithm;
      src = own.node_id;
      dst = p.node_id;
      tx_sn = p.tx_sn;
    }
    f ← encoded m (peer_message_frame l.buffer n.now route)
    protect_frame l.primitives f ctx.integrity_algorithm ctx.integrity_key
        ctx.confidentiality_algorithm ctx.confidentiality_key

  -- `completes` with a failure where the source answers false.
  unfoldable pub peer_send_message :
      (PeerState → PeerState × Flow) → Node → PeerState → PeerAddress → Message → PeerState × Flow
  unfolding peer_start_security_procedure peer_select_sec_ctx peer_message_frame encode_payload
      protect_frame peer_record_tx
  peer_send_message process n p to m = elim n.identity [
    | none ↦ (p, completes not_in_progress)
    | some own ↦
        elim (peer_select_sec_ctx n.security_ctx_grace_period_s n.now (security_contexts p)) [
          | none ↦ failed (peer_start_security_procedure process n nothing false p)
          | some ctx ↦ elim (sealed m n own ctx p) [
            | none ↦ (next_sn p, completes not_in_progress)
            | some sent ↦
                let links =
                  peer_record_tx l.is_multicast n.now p.links (some to.port) to.address
                    (get_size sent) in
                (put_out (transmits to p.tx_sn m sent) (record (next_sn p) { links = links }), ends)
          ]
        ]
  ]
