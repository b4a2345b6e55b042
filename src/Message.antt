-- ===== src/Message.antt =====
-- src/bfc_tunnel/utils/msg_utils.{cpp,hpp}, and the frame that src/bfc_tunnel/node.cpp builds in
-- peer_send_message before it is protected. The clock is an argument, and so is the encoder of the
-- cum library: given the room there is, the bytes it writes, or `none` where it throws.
pub mod Header
mod Examples
use bfc_tunnel.Base.{ℕ, ◌+◌, ◌%◌, ◌^◌, Option, none, some, List, length, take}
use mathlib.Core.Option
use bfc_tunnel.Base.Slices.{overwrite}
use bfc_tunnel.Frame.{
  Frame, frame_at, resize, set_reserved, set_version, set_sec_ctx, set_mac_size_units, set_mac_size,
  set_ts, set_ttl, set_frame_type, set_src, set_dst, set_sn, set_payload_type, get_header_size,
  get_payload_size, get_size,
}
use bfc_tunnel.Frame.Algorithms.{integrity_mac_size}

-- `now` is cut to the 32 bits of the field.
unfoldable pub prepare_frame : List ℕ → ℕ → Frame
prepare_frame buffer now =
    set_ts
      (set_mac_size_units
        (set_sec_ctx (set_version (set_reserved (frame_at (some buffer) (length buffer)) 0) 1) 0) 0)
      (now % 2 ^ 32)

unfoldable pub encode_payload : (ℕ → Option (List ℕ)) → ℕ → Frame → Option Frame
encode_payload encode msg_id f =
    Option.map
      (λ bytes.
        set_payload_type
          (resize (record f { base = overwrite f.base (get_header_size f) bytes })
            (get_header_size f + length bytes))
          msg_id)
      (encode (get_payload_size f))

-- What `peer_send_message` takes from the peer, its security context and the node.
pub record Route : Type 0 where
  pub sec_ctx : ℕ
  pub integrity_algorithm : ℕ
  pub src : ℕ
  pub dst : ℕ
  pub tx_sn : ℕ

-- Frame type 0 is `E_FRAME_TYPE_PEER`.
unfoldable pub peer_message_frame : List ℕ → ℕ → Route → Frame
unfolding prepare_frame
peer_message_frame buffer now r =
    let f0 = prepare_frame buffer now in
    let f1 = set_ttl f0 1 in
    let f2 = set_frame_type f1 0 in
    let f3 = set_sec_ctx f2 r.sec_ctx in
    let f4 = set_mac_size f3 (integrity_mac_size r.integrity_algorithm) in
    let f5 = set_src f4 r.src in
    let f6 = set_dst f5 r.dst in let f7 = set_ts f6 (now % 2 ^ 32) in set_sn f7 r.tx_sn
