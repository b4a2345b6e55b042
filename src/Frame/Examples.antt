-- ===== src/Frame/Examples.antt =====
-- frame.hpp: tests on a concrete buffer.
use bfc_tunnel.Base.{
  ℕ, ◌≡◌, ◌≤◌, ◌*◌, refl, true, some, List, ◌∷◌, arith, All, IsByte, replicate, replicate-All,
  length,
}
use bfc_tunnel.Frame.{
  frame_at, get_bits, get_size, get_version, get_frame_type, get_payload_type, get_sec_ctx,
  get_header_size, get_mac_size_units, is_header_valid, validate_frame, validate_frame_buffer,
}
use bfc_tunnel.Frame.Validity.{validate_frame_buffer_bounds}

-- A public frame without a MAC, and a byte of payload.
abbrev test_buffer : List ℕ
test_buffer = 0 ∷ 7 ∷ 0 ∷ replicate 18 1

test_buffer-IsByte : All IsByte test_buffer
test_buffer-IsByte =
    (omega arith, (omega arith, (omega arith, replicate-All IsByte 18 1 (omega arith))))

test_buffer_valid : validate_frame_buffer test_buffer ≡ true
unfolding validate_frame_buffer validate_frame is_header_valid frame_at get_version get_frame_type
    get_payload_type get_sec_ctx get_mac_size_units get_bits
test_buffer_valid = refl

validate_frame_buffer_bounds_example :
    let f = frame_at (some test_buffer) (length test_buffer) in
    (get_header_size f ≤ length test_buffer)
    × (get_size f ≡ length test_buffer)
    × (f.mac_size ≡ get_mac_size_units f * 4)
    × (f.mac_size ≤ 60)
validate_frame_buffer_bounds_example =
    validate_frame_buffer_bounds test_buffer test_buffer-IsByte test_buffer_valid
