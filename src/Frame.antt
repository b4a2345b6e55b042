-- ===== src/Frame.antt =====
-- src/bfc_tunnel/protocol/frame.hpp: the frame class over a byte buffer, and its validation.
-- A buffer is a list of bytes; a read past its end gives 0 and a write past it changes nothing
-- (both are undefined behaviour in the source). A frame that views the buffer of another frame is
-- built anew from that frame's bytes.
pub mod Algorithms
pub mod Fields
pub mod Words
pub mod Header
pub mod Setters
pub mod Readings
pub mod Validity
mod Examples
use bfc_tunnel.Base.{
  ℕ, ◌+◌, ◌-◌, ◌*◌, ◌/◌, ◌%◌, ◌^◌, Bool, true, false, not, ◌&&◌, Option, none, some, List, [],
  bit_and, bit_or, ltb, leb, ◌==◌, if◌then◌else◌, get_or, set, drop, take, length,
}

-- `has_base` is `base_ != nullptr`.
pub record Frame : Type 0 where
  pub has_base : Bool
  pub base : List ℕ
  pub max_size : ℕ
  pub mac_size : ℕ

abbrev pub fixed_prefix_size : ℕ
fixed_prefix_size = 3

abbrev pub fixed_post_mac_size : ℕ
fixed_post_mac_size = 16

abbrev pub fixed_header_size : ℕ
fixed_header_size = fixed_prefix_size + fixed_post_mac_size

abbrev pub payload_type_size : ℕ
payload_type_size = 1

abbrev byte_at : Frame → ℕ → ℕ
byte_at f i = get_or f.base i 0

-- The constructor; `none` is a null pointer.
unfoldable pub frame_at : Option (List ℕ) → ℕ → Frame
frame_at none size = record { has_base = false; base = []; max_size = size; mac_size = 0 }
frame_at (some base) size = record {
  has_base = true;
  base = base;
  max_size = size;
  mac_size =
      if leb fixed_prefix_size size then bit_and (get_or base 2 0) 0b00001111 / 2 ^ 0 * 4 else 0;
}

unfoldable pub resize : Frame → ℕ → Frame
resize f size = record f { max_size = size }

unfoldable pub get_bits : Frame → ℕ → ℕ → ℕ → ℕ
get_bits f index mask shift = bit_and (byte_at f index) mask / 2 ^ shift

-- `~mask` in eight bits is `255 - mask`.
unfoldable pub set_bits : Frame → ℕ → ℕ → ℕ → ℕ → Frame
set_bits f index mask shift value = record f {
  base =
      set f.base index (
        bit_or (bit_and (byte_at f index) (255 - mask)) (bit_and (value * 2 ^ shift) mask % 2 ^ 8));
}

unfoldable pub set_ttl : Frame → ℕ → Frame
set_ttl f ttl = record f { base = set f.base 0 ttl }

unfoldable pub get_ttl : Frame → ℕ
get_ttl f = byte_at f 0

unfoldable pub set_reserved : Frame → ℕ → Frame
unfolding set_bits
set_reserved f v = set_bits f 1 0b10000000 7 v

unfoldable pub get_reserved : Frame → ℕ
unfolding get_bits
get_reserved f = get_bits f 1 0b10000000 7

unfoldable pub set_version : Frame → ℕ → Frame
unfolding set_bits
set_version f v = set_bits f 1 0b01111100 2 v

unfoldable pub get_version : Frame → ℕ
unfolding get_bits
get_version f = get_bits f 1 0b01111100 2

unfoldable pub set_frame_type : Frame → ℕ → Frame
unfolding set_bits
set_frame_type f t = set_bits f 1 0b00000011 0 t

unfoldable pub get_frame_type : Frame → ℕ
unfolding get_bits
get_frame_type f = get_bits f 1 0b00000011 0

unfoldable pub set_sec_ctx : Frame → ℕ → Frame
unfolding set_bits
set_sec_ctx f v = set_bits f 2 0b11110000 4 v

unfoldable pub get_sec_ctx : Frame → ℕ
unfolding get_bits
get_sec_ctx f = get_bits f 2 0b11110000 4

unfoldable pub set_mac_size_units : Frame → ℕ → Frame
unfolding set_bits
set_mac_size_units f units = record (set_bits f 2 0b00001111 0 units) { mac_size = units * 4 }

unfoldable pub get_mac_size_units : Frame → ℕ
unfolding get_bits
get_mac_size_units f = get_bits f 2 0b00001111 0

-- `mac_sz / 4` is cast to eight bits.
unfoldable pub set_mac_size : Frame → ℕ → Frame
unfolding set_mac_size_units
set_mac_size f mac_sz = set_mac_size_units f (mac_sz / 4 % 2 ^ 8)

-- Offsets behind the MAC.
abbrev pub sn_offset : Frame → ℕ
sn_offset f = fixed_prefix_size + f.mac_size

abbrev pub ts_offset : Frame → ℕ
ts_offset f = sn_offset f + 4

abbrev pub src_offset : Frame → ℕ
src_offset f = ts_offset f + 4

abbrev pub dst_offset : Frame → ℕ
dst_offset f = src_offset f + 4

abbrev pub payload_type_offset : Frame → ℕ
payload_type_offset f = dst_offset f + 4

abbrev shl32 : ℕ → ℕ → ℕ
shl32 x k = x * 2 ^ k % 2 ^ 32

unfoldable pub read_u32 : Frame → ℕ → ℕ
read_u32 f offset =
    bit_or
      (bit_or (bit_or (shl32 (byte_at f offset) 24) (shl32 (byte_at f (offset + 1)) 16))
        (shl32 (byte_at f (offset + 2)) 8))
      (byte_at f (offset + 3))

unfoldable pub write_u32 : Frame → ℕ → ℕ → Frame
write_u32 f offset value = record f {
  base =
      set
        (set
          (set (set f.base offset (value / 2 ^ 24 % 2 ^ 8)) (offset + 1) (value / 2 ^ 16 % 2 ^ 8))
          (offset + 2) (value / 2 ^ 8 % 2 ^ 8))
        (offset + 3) (value % 2 ^ 8);
}

abbrev pub set_sn : Frame → ℕ → Frame
set_sn f sn = write_u32 f (sn_offset f) sn

abbrev pub get_sn : Frame → ℕ
get_sn f = read_u32 f (sn_offset f)

abbrev pub set_ts : Frame → ℕ → Frame
set_ts f ts = write_u32 f (ts_offset f) ts

abbrev pub get_ts : Frame → ℕ
get_ts f = read_u32 f (ts_offset f)

abbrev pub set_src : Frame → ℕ → Frame
set_src f src = write_u32 f (src_offset f) src

abbrev pub get_src : Frame → ℕ
get_src f = read_u32 f (src_offset f)

abbrev pub set_dst : Frame → ℕ → Frame
set_dst f dst = write_u32 f (dst_offset f) dst

abbrev pub get_dst : Frame → ℕ
get_dst f = read_u32 f (dst_offset f)

unfoldable pub set_payload_type : Frame → ℕ → Frame
set_payload_type f type = record f { base = set f.base (payload_type_offset f) type }

unfoldable pub get_payload_type : Frame → ℕ
get_payload_type f = byte_at f (payload_type_offset f)

abbrev pub get_header_size : Frame → ℕ
get_header_size f = fixed_header_size + f.mac_size + payload_type_size

unfoldable pub get_payload_size : Frame → ℕ
get_payload_size f =
    if ltb f.max_size (get_header_size f) then 0 else f.max_size - get_header_size f

unfoldable pub get_size : Frame → ℕ
unfolding get_payload_size
get_size f = get_header_size f + get_payload_size f

unfoldable pub is_header_valid : Frame → Bool
is_header_valid f = f.has_base && leb (get_header_size f) f.max_size

-- Frame type 3 is the last, and payload type 12; security context 0 means none.
unfoldable pub validate_frame : Frame → Bool
unfolding is_header_valid
validate_frame f =
    if not (is_header_valid f)
    then false
    else if not (get_version f == 1)
    then false
    else if ltb 3 (get_frame_type f)
    then false
    else if ltb 12 (get_payload_type f)
    then false
    else if not (f.mac_size == get_mac_size_units f * 4)
    then false
    else if (get_sec_ctx f == 0) && not (f.mac_size == 0)
    then false
    else true

unfoldable pub validate_frame_buffer : List ℕ → Bool
validate_frame_buffer buffer =
    if ltb (length buffer) fixed_prefix_size
    then false
    else validate_frame (frame_at (some buffer) (length buffer))

-- The bytes behind the header, and none where the buffer does not hold the header.
unfoldable pub frame_payload_view : Frame → List ℕ → List ℕ
frame_payload_view f buffer =
    if ltb (length buffer) (get_header_size f) then [] else drop (get_header_size f) buffer
