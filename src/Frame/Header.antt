-- ===== src/Frame/Header.antt =====
-- frame.hpp: the header that a frame's bytes encode, as a record. Every setter of the class updates
-- one field of that record, and every getter reads one.
use bfc_tunnel.Base.{
  ℕ, ◌+◌, ◌*◌, ◌≤◌, ◌<◌, ◌≡◌, inl, ◌∙◌, Option, none, some, arith, length, get_or, set, length-set,
  get_or-set_ne, IsByte, All, set-IsByte,
}
use bfc_tunnel.Frame.{
  Frame, sn_offset, ts_offset, src_offset, dst_offset, payload_type_offset, get_header_size,
}
use bfc_tunnel.Frame.Words.{word_at, word_at-set}

-- `none` where the buffer has not been written since the MAC size last moved the field.
pub record Header : Type 0 where
  pub ttl : ℕ
  pub reserved : ℕ
  pub version : ℕ
  pub frame_type : ℕ
  pub sec_ctx : ℕ
  pub mac_units : ℕ
  pub sn : Option ℕ
  pub ts : Option ℕ
  pub src : Option ℕ
  pub dst : Option ℕ
  pub payload_type : Option ℕ

abbrev pub Known : Option ℕ → ℕ → Type 0
Known none x = Unit
Known (some v) x = x ≡ v

pub Known-eq : (o : Option ℕ) (x y : ℕ) → x ≡ y → Known o y → Known o x
Known-eq none x y e k = tt
Known-eq (some v) x y e k = e ∙ k

-- The bytes of a frame with room for its header, laid out as `h`.
pub record Layout (f : Frame) (h : Header) : Type 0 where
  pub room : get_header_size f ≤ length f.base
  pub bytes : All IsByte f.base
  pub ttl : get_or f.base 0 0 ≡ h.ttl
  pub second : get_or f.base 1 0 ≡ h.reserved * 128 + h.version * 4 + h.frame_type
  pub version_small : h.version < 32
  pub frame_type_small : h.frame_type < 4
  pub third : get_or f.base 2 0 ≡ h.sec_ctx * 16 + h.mac_units
  pub mac_units_small : h.mac_units < 16
  pub mac_size : f.mac_size ≡ h.mac_units * 4
  pub sn : Known h.sn (word_at f.base (sn_offset f))
  pub ts : Known h.ts (word_at f.base (ts_offset f))
  pub src : Known h.src (word_at f.base (src_offset f))
  pub dst : Known h.dst (word_at f.base (dst_offset f))
  pub payload_type : Known h.payload_type (get_or f.base (payload_type_offset f) 0)

-- A store into one of the first three bytes, which keeps the MAC size.
module _ (f : Frame) (h : Header) (i x : ℕ) (front : i < 3) (small : x < 256) (l : Layout f h) where
  abbrev pub moved : Frame
  moved = record f { base = set f.base i x }

  word_kept :
      (o : Option ℕ) (p : ℕ) → 3 ≤ p → Known o (word_at f.base p) → Known o (word_at moved.base p)
  word_kept o p far k = Known-eq o _ _ (word_at-set f.base i p x (inl (omega arith))) k

  pub front_store :
      (g : Header)
      → get_or moved.base 0 0 ≡ g.ttl
      → get_or moved.base 1 0 ≡ g.reserved * 128 + g.version * 4 + g.frame_type
      → g.version < 32
      → g.frame_type < 4
      → get_or moved.base 2 0 ≡ g.sec_ctx * 16 + g.mac_units
      → g.mac_units ≡ h.mac_units
      → (g.sn ≡ h.sn)
        × (g.ts ≡ h.ts)
        × (g.src ≡ h.src)
        × (g.dst ≡ h.dst)
        × (g.payload_type ≡ h.payload_type)
      → Layout moved g
  front_store g zeroth first version_fits type_fits second units (e0, e1, e2, e3, e4) = record {
    room = omega (arith, l.room, length-set f.base i x);
    bytes = set-IsByte f.base i x l.bytes small;
    ttl = zeroth;
    second = first;
    version_small = version_fits;
    frame_type_small = type_fits;
    third = second;
    mac_units_small = omega (arith, l.mac_units_small);
    mac_size = omega (arith, l.mac_size);
    sn = rw e0 (word_kept h.sn _ (omega arith) l.sn);
    ts = rw e1 (word_kept h.ts _ (omega arith) l.ts);
    src = rw e2 (word_kept h.src _ (omega arith) l.src);
    dst = rw e3 (word_kept h.dst _ (omega arith) l.dst);
    payload_type =
        rw e4
          (Known-eq h.payload_type _ _ (get_or-set_ne f.base i _ x 0 (omega arith)) l.payload_type);
  }
