-- ===== src/Pdu/Bounds.antt =====
-- node.cpp, handle_pdu: what the validation says of the length of a PDU.
use bfc_tunnel.Base.{ℕ, ◌≤◌, ◌<◌, ◌≡◌, true, List, arith, length, All, IsByte, ◌∙◌, sym}
use bfc_tunnel.Frame.{Frame, frame_at, get_size, get_payload_size, get_header_size, is_header_valid}
use bfc_tunnel.Frame.Readings.{frame_at-mac_size}
use bfc_tunnel.Frame.Validity.{get_size_lem}
use bfc_tunnel.Pdu.{received_frame, validated_frame}

get_size-header : (f : Frame) → get_header_size f ≤ get_size f
unfolding get_size get_payload_size
get_size-header f = omega arith

validated_frame-mac_size :
    (pdu : List ℕ)
    → All IsByte pdu
    → 3 ≤ length pdu
    → (validated_frame pdu).mac_size ≡ (received_frame pdu).mac_size
validated_frame-mac_size pdu bytes long =
    frame_at-mac_size pdu (get_size (received_frame pdu)) bytes
      (omega (arith, get_size-header (received_frame pdu)))
    ∙ sym (frame_at-mac_size pdu (length pdu) bytes long)

-- For every PDU of at least three bytes, however short, the frame that is validated passes the check
-- of its header's size, since its own size is taken from the header. So the validation does not
-- reject a PDU that ends inside its header, while one that holds its header has the size it claims.
pub validated_frame-header :
    (pdu : List ℕ)
    → All IsByte pdu
    → 3 ≤ length pdu
    → (is_header_valid (validated_frame pdu) ≡ true)
      × ((length pdu < get_header_size (received_frame pdu))
          → length pdu < (validated_frame pdu).max_size)
      × ((get_header_size (received_frame pdu) ≤ length pdu)
          → (validated_frame pdu).max_size ≡ length pdu)
unfolding is_header_valid frame_at
validated_frame-header pdu bytes long =
    let size = get_size-header (received_frame pdu) in
    let mac = validated_frame-mac_size pdu bytes long in
    (
      ground (arith, size, mac),
      λ short. omega (arith, size),
      λ fits. get_size_lem (received_frame pdu) fits,
    )
