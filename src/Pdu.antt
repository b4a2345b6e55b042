-- ===== src/Pdu.antt =====
-- src/bfc_tunnel/node.cpp, the first part of handle_pdu: the validation of a received PDU.
pub mod Bounds
pub mod Dispatch
pub mod Checked
mod Examples
use bfc_tunnel.Base.{Bool, false, List, [], ◌∷◌, ℕ, some, length}
use bfc_tunnel.Frame.{Frame, frame_at, get_size, validate_frame}

-- The frame over the PDU, and the one that `handle_pdu` validates in its place.
abbrev pub received_frame : List ℕ → Frame
received_frame pdu = frame_at (some pdu) (length pdu)

abbrev pub validated_frame : List ℕ → Frame
validated_frame pdu = frame_at (some pdu) (get_size (received_frame pdu))

unfoldable pub is_pdu_valid : List ℕ → Bool
is_pdu_valid [] = false
is_pdu_valid (x ∷ xs) = validate_frame (validated_frame (x ∷ xs))
