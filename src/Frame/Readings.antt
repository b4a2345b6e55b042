-- ===== src/Frame/Readings.antt =====
-- frame.hpp: the setters of the words behind the MAC, and the getters, on the header that a frame
-- encodes.
use bfc_tunnel.Base.{
  ℕ, ◌+◌, ◌*◌, ◌/◌, ◌%◌, ◌^◌, ◌≤◌, ◌<◌, ◌≡◌, ◌⊎◌, inl, inr, refl, ap, ◌∙◌, Option, none, some,
  arith, List, length, get_or, get_or-IsByte, IsByte, All, length-set, get_or-set_self,
  get_or-set_ne, set-IsByte,
}
use bfc_tunnel.Frame.{
  Frame, get_ttl, get_reserved, get_version, get_frame_type, get_sec_ctx, get_mac_size_units,
  set_sn, get_sn, set_ts, get_ts, set_src, get_src, set_dst, get_dst, set_payload_type,
  get_payload_type, write_u32, frame_at, sn_offset, ts_offset, src_offset, dst_offset,
  payload_type_offset,
}
use bfc_tunnel.Frame.Fields.{
  get_reserved_lem, get_version_lem, get_frame_type_lem, get_sec_ctx_lem, get_mac_size_units_lem,
  mac_size-IsField,
}
use bfc_tunnel.Frame.Words.{
  word_at, put_word, read_u32_lem, word_at-set, length-put_word, put_word-IsByte, get_or-put_word,
  word_at-put_word, word_at-put_word_self,
}
use bfc_tunnel.Frame.Header.{Header, Layout, Known, Known-eq}

-- Every getter returns the field of the header that the frame encodes.
abbrev pub Reads : Frame → Header → Type 0
Reads g k =
    (get_ttl g ≡ k.ttl)
    × (get_reserved g ≡ k.reserved)
    × (get_version g ≡ k.version)
    × (get_frame_type g ≡ k.frame_type)
    × (get_sec_ctx g ≡ k.sec_ctx)
    × (get_mac_size_units g ≡ k.mac_units)
    × Known k.sn (get_sn g)
    × Known k.ts (get_ts g)
    × Known k.src (get_src g)
    × Known k.dst (get_dst g)
    × Known k.payload_type (get_payload_type g)

module _ (f : Frame) (h : Header) (l : Layout f h) where
  module _ (p v : ℕ) (after : f.mac_size + 3 ≤ p) (before : p + 4 ≤ f.mac_size + 19) where
    kept :
        (o : Option ℕ) (q : ℕ)
        → (q + 4 ≤ p) ⊎ (p + 4 ≤ q)
        → Known o (word_at f.base q)
        → Known o (word_at (put_word f.base p v) q)
    kept o q apart k = Known-eq o _ _ (word_at-put_word f.base p v q apart) k

    written : v < 2 ^ 32 → word_at (put_word f.base p v) p ≡ v
    written small = word_at-put_word_self f.base p v (omega (arith, l.room)) small

    word_store :
        (a b c d : Option ℕ)
        → Known a (word_at (put_word f.base p v) (sn_offset f))
        → Known b (word_at (put_word f.base p v) (ts_offset f))
        → Known c (word_at (put_word f.base p v) (src_offset f))
        → Known d (word_at (put_word f.base p v) (dst_offset f))
        → Layout (write_u32 f p v) (record h { sn = a; ts = b; src = c; dst = d })
    unfolding write_u32 put_word
    word_store a b c d ka kb kc kd = record {
      room = omega (arith, l.room, length-put_word f.base p v);
      bytes = put_word-IsByte f.base p v l.bytes;
      ttl = get_or-put_word f.base p v 0 (inl (omega arith)) ∙ l.ttl;
      second = get_or-put_word f.base p v 1 (inl (omega arith)) ∙ l.second;
      version_small = l.version_small;
      frame_type_small = l.frame_type_small;
      third = get_or-put_word f.base p v 2 (inl (omega arith)) ∙ l.third;
      mac_units_small = l.mac_units_small;
      mac_size = l.mac_size;
      sn = ka;
      ts = kb;
      src = kc;
      dst = kd;
      payload_type =
          Known-eq h.payload_type _ _ (get_or-put_word f.base p v _ (inr (omega arith)))
            l.payload_type;
    }

  pub set_sn-Layout : (v : ℕ) → v < 2 ^ 32 → Layout (set_sn f v) (record h { sn = some v })
  set_sn-Layout v small =
      word_store (sn_offset f) v (omega arith) (omega arith) (some v) h.ts h.src h.dst
        (written _ v (omega arith) (omega arith) small)
        (kept _ v (omega arith) (omega arith) h.ts (ts_offset f) (inr (omega arith)) l.ts)
        (kept _ v (omega arith) (omega arith) h.src (src_offset f) (inr (omega arith)) l.src)
        (kept _ v (omega arith) (omega arith) h.dst (dst_offset f) (inr (omega arith)) l.dst)

  pub set_ts-Layout : (v : ℕ) → v < 2 ^ 32 → Layout (set_ts f v) (record h { ts = some v })
  set_ts-Layout v small =
      word_store (ts_offset f) v (omega arith) (omega arith) h.sn (some v) h.src h.dst
        (kept _ v (omega arith) (omega arith) h.sn (sn_offset f) (inl (omega arith)) l.sn)
        (written _ v (omega arith) (omega arith) small)
        (kept _ v (omega arith) (omega arith) h.src (src_offset f) (inr (omega arith)) l.src)
        (kept _ v (omega arith) (omega arith) h.dst (dst_offset f) (inr (omega arith)) l.dst)

  pub set_src-Layout : (v : ℕ) → v < 2 ^ 32 → Layout (set_src f v) (record h { src = some v })
  set_src-Layout v small =
      word_store (src_offset f) v (omega arith) (omega arith) h.sn h.ts (some v) h.dst
        (kept _ v (omega arith) (omega arith) h.sn (sn_offset f) (inl (omega arith)) l.sn)
        (kept _ v (omega arith) (omega arith) h.ts (ts_offset f) (inl (omega arith)) l.ts)
        (written _ v (omega arith) (omega arith) small)
        (kept _ v (omega arith) (omega arith) h.dst (dst_offset f) (inr (omega arith)) l.dst)

  pub set_dst-Layout : (v : ℕ) → v < 2 ^ 32 → Layout (set_dst f v) (record h { dst = some v })
  set_dst-Layout v small =
      word_store (dst_offset f) v (omega arith) (omega arith) h.sn h.ts h.src (some v)
        (kept _ v (omega arith) (omega arith) h.sn (sn_offset f) (inl (omega arith)) l.sn)
        (kept _ v (omega arith) (omega arith) h.ts (ts_offset f) (inl (omega arith)) l.ts)
        (kept _ v (omega arith) (omega arith) h.src (src_offset f) (inl (omega arith)) l.src)
        (written _ v (omega arith) (omega arith) small)

  pub set_payload_type-Layout :
      (v : ℕ) → v < 256 → Layout (set_payload_type f v) (record h { payload_type = some v })
  unfolding set_payload_type
  set_payload_type-Layout v small = record {
    room = omega (arith, l.room, length-set f.base (payload_type_offset f) v);
    bytes = set-IsByte f.base _ v l.bytes small;
    ttl = get_or-set_ne f.base _ 0 v 0 (omega arith) ∙ l.ttl;
    second = get_or-set_ne f.base _ 1 v 0 (omega arith) ∙ l.second;
    version_small = l.version_small;
    frame_type_small = l.frame_type_small;
    third = get_or-set_ne f.base _ 2 v 0 (omega arith) ∙ l.third;
    mac_units_small = l.mac_units_small;
    mac_size = l.mac_size;
    sn = Known-eq h.sn _ _ (word_at-set f.base _ (sn_offset f) v (inr (omega arith))) l.sn;
    ts = Known-eq h.ts _ _ (word_at-set f.base _ (ts_offset f) v (inr (omega arith))) l.ts;
    src = Known-eq h.src _ _ (word_at-set f.base _ (src_offset f) v (inr (omega arith))) l.src;
    dst = Known-eq h.dst _ _ (word_at-set f.base _ (dst_offset f) v (inr (omega arith))) l.dst;
    payload_type = get_or-set_self f.base _ v 0 (omega (arith, l.room));
  }

  pub Layout-Reads : Reads f h
  Layout-Reads =
      let b1 = get_reserved_lem f l.bytes in
      (
        unfold get_ttl in l.ttl,
        omega (arith, get_reserved_lem f l.bytes, second),
        omega (arith, get_version_lem f l.bytes, second),
        omega (arith, get_frame_type_lem f l.bytes, second),
        omega (arith, get_sec_ctx_lem f l.bytes, third),
        omega (arith, get_mac_size_units_lem f l.bytes, third),
        Known-eq h.sn _ _ (read_u32_lem f (sn_offset f) l.bytes) l.sn,
        Known-eq h.ts _ _ (read_u32_lem f (ts_offset f) l.bytes) l.ts,
        Known-eq h.src _ _ (read_u32_lem f (src_offset f) l.bytes) l.src,
        Known-eq h.dst _ _ (read_u32_lem f (dst_offset f) l.bytes) l.dst,
        unfold get_payload_type in l.payload_type,
      )
    where
      b : get_or f.base 1 0 < 256
      b = get_or-IsByte f.base 1 l.bytes

      c : get_or f.base 2 0 < 256
      c = get_or-IsByte f.base 2 l.bytes

      second :
          (get_or f.base 1 0 / 128 % 2 ≡ h.reserved)
          × (get_or f.base 1 0 / 4 % 32 ≡ h.version)
          × (get_or f.base 1 0 % 4 ≡ h.frame_type)
      second = omega (arith, b, l.second, l.version_small, l.frame_type_small)

      third : (get_or f.base 2 0 / 16 % 16 ≡ h.sec_ctx) × (get_or f.base 2 0 % 16 ≡ h.mac_units)
      third = omega (arith, c, l.third, l.mac_units_small)

-- The constructor takes the MAC size from the third byte.
pub frame_at-mac_size :
    (bs : List ℕ) (size : ℕ)
    → All IsByte bs
    → 3 ≤ size
    → (frame_at (some bs) size).mac_size ≡ get_or bs 2 0 % 16 * 4
unfolding frame_at
frame_at-mac_size bs size bytes large =
    ground (arith, mac_size-IsField.1 (get_or bs 2 0) (get_or-IsByte bs 2 bytes))

-- A frame that is built over bytes which hold a header encodes the same header, also where the frame
-- that wrote it had another size.
pub frame_at-Layout :
    (f : Frame) (h : Header) (size : ℕ)
    → Layout f h
    → 3 ≤ size
    → Layout (frame_at (some f.base) size) h
unfolding frame_at
frame_at-Layout f h size l large = record {
  room = omega (arith, l.room, same);
  bytes = l.bytes;
  ttl = l.ttl;
  second = l.second;
  version_small = l.version_small;
  frame_type_small = l.frame_type_small;
  third = l.third;
  mac_units_small = l.mac_units_small;
  mac_size = same ∙ l.mac_size;
  sn = at h.sn (λ m. word_at f.base (3 + m)) l.sn;
  ts = at h.ts (λ m. word_at f.base (3 + m + 4)) l.ts;
  src = at h.src (λ m. word_at f.base (3 + m + 4 + 4)) l.src;
  dst = at h.dst (λ m. word_at f.base (3 + m + 4 + 4 + 4)) l.dst;
  payload_type = at h.payload_type (λ m. get_or f.base (3 + m + 4 + 4 + 4 + 4) 0) l.payload_type;
}
  where
    same : (frame_at (some f.base) size).mac_size ≡ f.mac_size
    same =
        frame_at-mac_size f.base size l.bytes large
        ∙ omega (arith, l.mac_size, l.third, l.mac_units_small)

    at :
        (o : Option ℕ) (place : ℕ → ℕ)
        → Known o (place f.mac_size)
        → Known o (place (frame_at (some f.base) size).mac_size)
    at o place known = Known-eq o _ _ (ap place same) known

-- Any buffer of bytes with room for the longest MAC encodes some header.
abbrev pub header_of : List ℕ → Header
header_of bs = record {
  ttl = get_or bs 0 0;
  reserved = get_or bs 1 0 / 128;
  version = get_or bs 1 0 / 4 % 32;
  frame_type = get_or bs 1 0 % 4;
  sec_ctx = get_or bs 2 0 / 16;
  mac_units = get_or bs 2 0 % 16;
  sn = none;
  ts = none;
  src = none;
  dst = none;
  payload_type = none;
}

pub frame_at-header_of :
    (bs : List ℕ) (size : ℕ)
    → All IsByte bs
    → 80 ≤ length bs
    → 3 ≤ size
    → Layout (frame_at (some bs) size) (header_of bs)
unfolding frame_at
frame_at-header_of bs size bytes long large =
    let b = get_or-IsByte bs 1 bytes in
    let mac = frame_at-mac_size bs size bytes large in
    record {
      room = omega (arith, mac, long);
      bytes = bytes;
      ttl = refl;
      second = omega arith;
      version_small = omega arith;
      frame_type_small = omega arith;
      third = omega arith;
      mac_units_small = omega arith;
      mac_size = mac;
      sn = tt;
      ts = tt;
      src = tt;
      dst = tt;
      payload_type = tt;
    }
