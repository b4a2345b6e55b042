-- ===== src/Pdu/Dispatch.antt =====
-- node.cpp, handle_pdu: from a received PDU to the handler of its message. The network's contexts and
-- those of the peers, by node id, are the state; what `peer_lookup` leaves in a peer is not of it. The
-- decoders of the cum library are a parameter, by payload type; `none` is a thrown exception.
use bfc_tunnel.Base.{
  ℕ, Bool, true, false, not, ◌&&◌, ◌||◌, Option, none, some, List, [], ◌∷◌, leb, ◌==◌,
  if◌then◌else◌,
}
use bfc_tunnel.Frame.{
  Frame, frame_at, get_size, get_frame_type, get_sec_ctx, get_src, get_payload_type,
  get_payload_size, frame_payload_view,
}
use bfc_tunnel.Security.{Primitives, payload}
use bfc_tunnel.Network.{NetworkKeyCtx, Acceptance, network_accept_rx}
use bfc_tunnel.Peer.{SecurityCtx, peer_accept_rx}
use bfc_tunnel.Identities.{update}
use bfc_tunnel.Pdu.{received_frame, is_pdu_valid}

abbrev pub frame_type_peer : ℕ
frame_type_peer = 0

abbrev pub frame_type_network : ℕ
frame_type_network = 1

abbrev pub frame_type_network_over_peer : ℕ
frame_type_network_over_peer = 2

abbrev pub payload_type_beacon : ℕ
payload_type_beacon = 0

abbrev pub payload_type_n2n_indication : ℕ
payload_type_n2n_indication = 11

pub record Reception : Type 0 where
  pub network : List NetworkKeyCtx
  pub peers : ℕ → Option (List SecurityCtx)
  pub acquire : Bool

-- What a PDU comes to: nothing, a beacon, or the handler of a message, by its payload type.
pub data Delivery (M : Type 0) : Type 0 where
  nothing : Delivery M
  beacon : Frame → Delivery M
  message : ℕ → M → Delivery M

abbrev pub is_network : Frame → Bool
is_network f =
    get_frame_type f == frame_type_network || get_frame_type f == frame_type_network_over_peer

abbrev pub is_secured : Frame → Bool
is_secured f = get_frame_type f == frame_type_peer && not (get_sec_ctx f == 0)

-- The frame over the buffer, of the size that its header gives.
abbrev pub whole : Frame → Frame
whole f = frame_at (some f.base) (get_size f)

abbrev pub from_network : Reception → Acceptance → Option Frame × Reception
from_network s r = (r.accepted, record s { network = r.contexts; acquire = s.acquire || r.acquire })

abbrev pub from_peer : Reception → ℕ → Option Frame × List SecurityCtx → Option Frame × Reception
from_peer s i (accepted, kept) = (accepted, record s { peers = update s.peers i (some kept) })

module _ (c : Primitives) where
  -- The frame that goes on, where it is accepted or needs no acceptance.
  unfoldable pub admit : Reception → Frame → Option Frame × Reception
  unfolding network_accept_rx peer_accept_rx
  admit s f =
      if is_network f
      then from_network s (network_accept_rx c s.network f)
      else if is_secured f
      then elim (s.peers (get_src f)) [
        | none ↦ (none, s)
        | some contexts ↦ from_peer s (get_src f) (peer_accept_rx c contexts f)
      ]
      else (some f, s)

module _ {M : Type 0} (decode : ℕ → List ℕ → Option M) where
  unfoldable pub decode_beacon : Frame → Bool
  decode_beacon f =
      if get_payload_size f == 0
      then true
      else elim (decode payload_type_beacon (payload f)) [ none ↦ false | some m ↦ true ]

  abbrev pub decoded : ℕ → List ℕ → Delivery M
  decoded t bytes = elim (decode t bytes) [ none ↦ nothing | some m ↦ message t m ]

  unfoldable pub deliver : Frame → Delivery M
  unfolding decode_beacon
  deliver f =
      if get_payload_type f == payload_type_beacon
      then (if decode_beacon (whole f) then beacon (whole f) else nothing)
      else elim (frame_payload_view (whole f) f.base) [
        | [] ↦ nothing
        | byte ∷ bytes ↦
            if leb (get_payload_type f) payload_type_n2n_indication
            then decoded (get_payload_type f) (byte ∷ bytes)
            else nothing
      ]

  abbrev pub deliver_admitted : Option Frame × Reception → Delivery M × Reception
  deliver_admitted (none, s) = (nothing, s)
  deliver_admitted (some f, s) = (deliver f, s)

module _ (c : Primitives) {M : Type 0} (decode : ℕ → List ℕ → Option M) where
  unfoldable pub handle_pdu : Reception → List ℕ → Delivery M × Reception
  unfolding admit deliver is_pdu_valid
  handle_pdu s pdu =
      if is_pdu_valid pdu
      then deliver_admitted decode (admit c s (received_frame pdu))
      else (nothing, s)
