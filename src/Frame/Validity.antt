-- ===== src/Frame/Validity.antt =====
-- frame.hpp: what `validate_frame` accepts.
use bfc_tunnel.Base.{
  ℕ, ◌*◌, ◌≤◌, ◌<◌, ◌≡◌, ◌↔◌, ◌⊎◌, refl, ◌∙◌, true, some, List, arith, length, All, IsByte,
}
use bfc_tunnel.Frame.{
  Frame, frame_at, get_version, get_frame_type, get_payload_type, get_mac_size_units, get_sec_ctx,
  get_header_size, get_size, get_payload_size, validate_frame, validate_frame_buffer,
}
use bfc_tunnel.Frame.Header.{Header, Layout}
use bfc_tunnel.Frame.Readings.{Layout-Reads, frame_at-mac_size}

-- The header lies within the frame's size, the numbers are known ones, the MAC size agrees with
-- the header, and a frame without a security context carries no MAC.
abbrev pub IsWellFormed : Frame → Type 0
IsWellFormed f =
    (f.has_base ≡ true)
    × (get_header_size f ≤ f.max_size)
    × (get_version f ≡ 1)
    × (get_frame_type f ≤ 3)
    × (get_payload_type f ≤ 12)
    × (f.mac_size ≡ get_mac_size_units f * 4)
    × ((get_sec_ctx f ≡ 0) → f.mac_size ≡ 0)

-- `validate_frame` accepts exactly the well-formed frames.
pub validate_frame_iff : (f : Frame) → (validate_frame f ≡ true) ↔ IsWellFormed f
unfolding validate_frame
validate_frame_iff f = ground arith

frame_at-max_size : (bs : List ℕ) (size : ℕ) → (frame_at (some bs) size).max_size ≡ size
unfolding frame_at
frame_at-max_size bs size = refl

-- A frame that holds its header is as long as it says.
pub get_size_lem : (f : Frame) → get_header_size f ≤ f.max_size → get_size f ≡ f.max_size
unfolding get_size get_payload_size
get_size_lem f h = ground arith

-- A buffer that `validate_frame_buffer` accepts holds the whole header, so that every getter reads
-- inside it; the header's MAC size is a multiple of four of at most 60 bytes.
pub validate_frame_buffer_bounds :
    (buffer : List ℕ)
    → All IsByte buffer
    → validate_frame_buffer buffer ≡ true
    → let f = frame_at (some buffer) (length buffer) in
      (get_header_size f ≤ length buffer)
      × (get_size f ≡ length buffer)
      × (f.mac_size ≡ get_mac_size_units f * 4)
      × (f.mac_size ≤ 60)
unfolding validate_frame_buffer
validate_frame_buffer_bounds buffer bytes ok =
    let long : 3 ≤ length buffer = ground arith in
    let f : Frame = frame_at (some buffer) (length buffer) in
    let valid : validate_frame f ≡ true = ground arith in
    let mac = frame_at-mac_size buffer (length buffer) bytes long in
    let well = (validate_frame_iff f).0 valid in
    let sized = frame_at-max_size buffer (length buffer) in
    (omega (arith, well, sized), get_size_lem f well.1 ∙ sized, well.5, omega (arith, mac))

-- A frame that encodes a header of version 1 with a known payload type, and a security context where
-- it has a MAC, is accepted.
pub Layout-valid :
    (f : Frame) (h : Header) (type : ℕ)
    → Layout f h
    → f.has_base ≡ true
    → get_header_size f ≤ f.max_size
    → h.version ≡ 1
    → h.payload_type ≡ some type
    → type ≤ 12
    → (h.mac_units ≡ 0) ⊎ (0 < h.sec_ctx)
    → validate_frame f ≡ true
Layout-valid f h type l based sized version known small secured =
    let r = Layout-Reads f h l in
    let kind : get_payload_type f ≡ type = rw known at r.10 in
    (validate_frame_iff f).1 (
      based,
      sized,
      omega (arith, r.2),
      omega (arith, r.3, l.frame_type_small),
      omega (arith, kind),
      omega (arith, r.5, l.mac_size),
      λ none. omega (arith, r.4, secured, l.mac_size),
    )
