-- ===== src/Pdu/Examples.antt =====
-- node.cpp, handle_pdu: tests on a PDU of three bytes, and on one that nobody has protected.
use bfc_tunnel.Base.{ℕ, ◌≡◌, ◌≤◌, ◌<◌, true, List, [], ◌∷◌, arith, All, IsByte, length}
use bfc_tunnel.Frame.{get_header_size, is_header_valid}
use bfc_tunnel.Base.{Option, some, none, false, refl, replicate, drop}
use bfc_tunnel.Security.Examples.{plain_primitives}
use bfc_tunnel.Frame.{
  Frame, set_frame_type, set_payload_type, write_u32, set_mac_size_units, set_sec_ctx, set_version,
  set_reserved, frame_at, validate_frame, get_size, get_version, get_frame_type, get_payload_type,
  get_mac_size_units, get_sec_ctx, frame_payload_view,
}
use bfc_tunnel.Message.{prepare_frame}
use bfc_tunnel.Pdu.Dispatch.{Reception, message, handle_pdu}
use bfc_tunnel.Pdu.Checked.{Checked, Delivered, handle_pdu-Checked}
use bfc_tunnel.Pdu.{is_pdu_valid, received_frame, validated_frame}
use bfc_tunnel.Pdu.Bounds.{validated_frame-header}

abbrev short_pdu : List ℕ
short_pdu = 0 ∷ 7 ∷ 0 ∷ []

short_pdu-IsByte : All IsByte short_pdu
short_pdu-IsByte = (omega arith, (omega arith, (omega arith, tt)))

validated_frame-header_example :
    (is_header_valid (validated_frame short_pdu) ≡ true)
    × ((length short_pdu < get_header_size (received_frame short_pdu))
        → length short_pdu < (validated_frame short_pdu).max_size)
    × ((get_header_size (received_frame short_pdu) ≤ length short_pdu)
        → (validated_frame short_pdu).max_size ≡ length short_pdu)
validated_frame-header_example = validated_frame-header short_pdu short_pdu-IsByte (omega arith)

-- A public frame that carries network keys, payload type 7.
unfoldable refresh_pdu : List ℕ
unfolding prepare_frame set_payload_type set_frame_type write_u32 set_mac_size_units set_sec_ctx
    set_version set_reserved frame_at
refresh_pdu = (set_payload_type (set_frame_type (prepare_frame (replicate 30 0) 5) 3) 7).base

abbrev stranger : Reception
stranger = record { network = []; peers = λ i. none; acquire = false }

abbrev raw : ℕ → List ℕ → Option (List ℕ)
raw t bytes = some bytes

-- It reaches the handler that installs keys, at a node that shares no key with anybody.
refresh_delivered :
    handle_pdu plain_primitives raw stranger refresh_pdu
    ≡ (message 7 (drop 20 refresh_pdu), stranger)
unfolding handle_pdu refresh_pdu frame_at validate_frame get_size get_version get_frame_type
    get_payload_type get_mac_size_units get_sec_ctx frame_payload_view
refresh_delivered = refl

handle_pdu-Checked_example :
    (is_pdu_valid refresh_pdu ≡ true)
    × ((g : Frame) × Checked plain_primitives stranger (received_frame refresh_pdu) g
        × Delivered raw g 7 (drop 20 refresh_pdu))
handle_pdu-Checked_example =
    handle_pdu-Checked plain_primitives raw stranger stranger refresh_pdu 7 (drop 20 refresh_pdu)
      refresh_delivered
