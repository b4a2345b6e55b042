-- ===== src/Message/Header.antt =====
-- msg_utils.cpp and node.cpp: the header that a message is sent with is the one that is read.
use bfc_tunnel.Base.{
  ℕ, ◌+◌, ◌/◌, ◌%◌, ◌^◌, ◌≤◌, ◌<◌, ◌≡◌, ◌⊎◌, inl, inr, refl, ◌∙◌, true, none, some, List, arith,
  length, get_or, length-set, All, IsByte,
}
use bfc_tunnel.Frame.{
  Frame, frame_at, set_mac_size, set_mac_size_units, set_reserved, set_version, set_frame_type,
  set_sec_ctx, set_ttl, write_u32, set_bits, set_payload_type, validate_frame,
}
use bfc_tunnel.Frame.Words.{length-put_word, put_word}
use bfc_tunnel.Frame.Header.{Header, Layout}
use bfc_tunnel.Frame.Setters.{
  set_ttl-Layout, set_version-Layout, set_reserved-Layout, set_frame_type-Layout,
  set_sec_ctx-Layout, set_mac_size_units-Layout,
}
use bfc_tunnel.Frame.Readings.{
  set_sn-Layout, set_ts-Layout, set_src-Layout, set_dst-Layout, set_payload_type-Layout,
  Layout-Reads, Reads, frame_at-header_of, frame_at-Layout,
}
use bfc_tunnel.Frame.Validity.{Layout-valid}
use bfc_tunnel.Frame.Algorithms.{integrity_mac_size, ea_none, ea_hmac_sha2_256}
use bfc_tunnel.Message.{Route, prepare_frame, peer_message_frame}

-- No setter changes the length of the buffer.
module _ (f : Frame) (v : ℕ) where
  length-set_reserved : length (set_reserved f v).base ≡ length f.base
  unfolding set_reserved set_bits
  length-set_reserved = length-set f.base 1 _

  length-set_version : length (set_version f v).base ≡ length f.base
  unfolding set_version set_bits
  length-set_version = length-set f.base 1 _

  length-set_frame_type : length (set_frame_type f v).base ≡ length f.base
  unfolding set_frame_type set_bits
  length-set_frame_type = length-set f.base 1 _

  length-set_sec_ctx : length (set_sec_ctx f v).base ≡ length f.base
  unfolding set_sec_ctx set_bits
  length-set_sec_ctx = length-set f.base 2 _

  length-set_mac_size_units : length (set_mac_size_units f v).base ≡ length f.base
  unfolding set_mac_size_units set_bits
  length-set_mac_size_units = length-set f.base 2 _

  length-set_ttl : length (set_ttl f v).base ≡ length f.base
  unfolding set_ttl
  length-set_ttl = length-set f.base 0 _

  length-write_u32 : (offset : ℕ) → length (write_u32 f offset v).base ≡ length f.base
  unfolding write_u32 put_word
  length-write_u32 offset = length-put_word f.base offset v

length-frame_at : (bs : List ℕ) (size : ℕ) → length (frame_at (some bs) size).base ≡ length bs
unfolding frame_at
length-frame_at bs size = refl

-- The header of a prepared frame.
abbrev prepared : List ℕ → ℕ → Header
prepared buffer now = record {
  ttl = get_or buffer 0 0;
  reserved = 0;
  version = 1;
  frame_type = get_or buffer 1 0 % 4;
  sec_ctx = 0;
  mac_units = 0;
  sn = none;
  ts = some (now % 2 ^ 32);
  src = none;
  dst = none;
  payload_type = none;
}

prepare_frame-Layout :
    (buffer : List ℕ) (now : ℕ)
    → All IsByte buffer
    → 80 ≤ length buffer
    → Layout (prepare_frame buffer now) (prepared buffer now)
      × (length (prepare_frame buffer now).base ≡ length buffer)
unfolding prepare_frame
prepare_frame-Layout buffer now bytes long =
    let l0 = frame_at-header_of buffer (length buffer) bytes long (omega arith) in
    let l1 = set_reserved-Layout _ _ l0 0 (omega arith) in
    let l2 = set_version-Layout _ _ l1 1 (omega arith) in
    let l3 = set_sec_ctx-Layout _ _ l2 0 (omega arith) in
    let n =
      length-set_sec_ctx _ 0
      ∙ length-set_version _ 1
      ∙ length-set_reserved _ 0
      ∙ length-frame_at buffer (length buffer) in
    let l4 = set_mac_size_units-Layout _ _ l3 0 (omega arith) (omega (arith, n)) in
    (
      set_ts-Layout _ _ l4 (now % 2 ^ 32) (omega arith),
      length-write_u32 _ (now % 2 ^ 32) _ ∙ length-set_mac_size_units _ 0 ∙ n,
    )

-- The fields of the route fit into the header's, and the security context can have a MAC.
pub record IsSendable (r : Route) : Type 0 where
  pub sec_ctx_small : r.sec_ctx < 16
  pub sec_ctx_used : 0 < r.sec_ctx
  pub src_small : r.src < 2 ^ 32
  pub dst_small : r.dst < 2 ^ 32
  pub sn_small : r.tx_sn < 2 ^ 32
  pub algorithm : (r.integrity_algorithm ≡ ea_none) ⊎ (r.integrity_algorithm ≡ ea_hmac_sha2_256)

-- The header of the message.
abbrev pub sent_header : ℕ → Route → Header
sent_header now r = record {
  ttl = 1;
  reserved = 0;
  version = 1;
  frame_type = 0;
  sec_ctx = r.sec_ctx;
  mac_units = integrity_mac_size r.integrity_algorithm / 4;
  sn = some r.tx_sn;
  ts = some (now % 2 ^ 32);
  src = some r.src;
  dst = some r.dst;
  payload_type = none;
}

mac_size-small :
    (r : Route)
    → IsSendable r
    → (integrity_mac_size r.integrity_algorithm / 4 < 16)
      × (integrity_mac_size r.integrity_algorithm / 4 % 2 ^ 8
          ≡ integrity_mac_size r.integrity_algorithm / 4)
unfolding integrity_mac_size
mac_size-small r s = elim s.algorithm [
  | inl off ↦ rw off (omega arith, refl)
  | inr sha ↦ rw sha (omega arith, refl)
]

set_mac_size_lem : (f : Frame) (n : ℕ) → set_mac_size f n ≡ set_mac_size_units f (n / 4 % 2 ^ 8)
unfolding set_mac_size
set_mac_size_lem f n = refl

peer_message_frame-Layout :
    (buffer : List ℕ) (now : ℕ) (r : Route)
    → All IsByte buffer
    → 80 ≤ length buffer
    → IsSendable r
    → Layout (peer_message_frame buffer now r) (sent_header now r)
unfolding peer_message_frame
peer_message_frame-Layout buffer now r bytes long s =
    let (l0, n) = prepare_frame-Layout buffer now bytes long in
    let f1 = set_ttl (prepare_frame buffer now) 1 in
    let f2 = set_frame_type f1 0 in
    let f3 = set_sec_ctx f2 r.sec_ctx in
    let l1 = set_ttl-Layout _ _ l0 1 (omega arith) in
    let l2 = set_frame_type-Layout _ _ l1 0 (omega arith) in
    let l3 = set_sec_ctx-Layout _ _ l2 r.sec_ctx s.sec_ctx_small in
    let n3 : length f3.base ≡ length buffer =
      length-set_sec_ctx f2 r.sec_ctx ∙ length-set_frame_type f1 0 ∙ length-set_ttl _ 1 ∙ n in
    let small = mac_size-small r s in
    let l4 =
      set_mac_size_units-Layout _ _ l3 (integrity_mac_size r.integrity_algorithm / 4) small.0
        (omega (arith, n3, small.0, long)) in
    rw (set_mac_size_lem f3 (integrity_mac_size r.integrity_algorithm), small.1)
      (let l5 = set_src-Layout _ _ l4 r.src s.src_small in
        let l6 = set_dst-Layout _ _ l5 r.dst s.dst_small in
        let l7 = set_ts-Layout _ _ l6 (now % 2 ^ 32) (omega arith) in
        set_sn-Layout _ _ l7 r.tx_sn s.sn_small)

-- The header that `peer_send_message` writes over any buffer of at least 80 bytes is read back, field
-- by field, from a frame that is built anew over the bytes with any size from 3 on, also after the
-- payload type has been set. It is assumed that the fields fit, that the security context is not 0,
-- and that the integrity algorithm is none or HMAC-SHA2-256.
pub peer_message_frame-Reads :
    (buffer : List ℕ) (now : ℕ) (r : Route) (type size : ℕ)
    → All IsByte buffer
    → 80 ≤ length buffer
    → IsSendable r
    → type < 256
    → 3 ≤ size
    → let h = record (sent_header now r) { payload_type = some type } in
      let sent = set_payload_type (peer_message_frame buffer now r) type in
      Reads (frame_at (some sent.base) size) h
peer_message_frame-Reads buffer now r type size bytes long s small large =
    let l =
      set_payload_type-Layout _ _ (peer_message_frame-Layout buffer now r bytes long s) type
        small in
    Layout-Reads _ _ (frame_at-Layout _ _ size l large)

-- Such a frame is accepted by `validate_frame` when the payload type is a known one and the size
-- has room for the header.
pub peer_message_frame-valid :
    (buffer : List ℕ) (now : ℕ) (r : Route) (type size : ℕ)
    → All IsByte buffer
    → 80 ≤ length buffer
    → IsSendable r
    → type ≤ 12
    → integrity_mac_size r.integrity_algorithm + 20 ≤ size
    → validate_frame
        (frame_at (some (set_payload_type (peer_message_frame buffer now r) type).base) size)
      ≡ true
peer_message_frame-valid buffer now r type size bytes long s small large =
    let l =
      set_payload_type-Layout _ _ (peer_message_frame-Layout buffer now r bytes long s) type
        (omega arith) in
    let m = frame_at-Layout _ _ size l (omega arith) in
    Layout-valid _ _ type m (based _ size) (omega (arith, sized _ size, m.mac_size)) refl refl small
      (inr s.sec_ctx_used)
  where
    based : (bs : List ℕ) (size : ℕ) → (frame_at (some bs) size).has_base ≡ true
    based bs size = unfold frame_at in refl

    sized : (bs : List ℕ) (size : ℕ) → (frame_at (some bs) size).max_size ≡ size
    sized bs size = unfold frame_at in refl
