-- ===== src/Frame/Fields.antt =====
-- frame.hpp: the bit fields of the second and third byte, as arithmetic.
use bfc_tunnel.Base.{
  ℕ, ◌+◌, ◌-◌, ◌*◌, ◌/◌, ◌%◌, ◌^◌, ◌<◌, ◌≡◌, refl, ◌∙◌, true, bit_and, bit_or, ◌==◌, ==_iff,
  all_below, all_below_sound, arith, length, get_or, get_or-set_self, IsByte, All, get_or-IsByte,
  set-IsByte,
}
use bfc_tunnel.Frame.{
  Frame, set_reserved, get_reserved, set_version, get_version, set_frame_type, get_frame_type,
  set_sec_ctx, get_sec_ctx, set_mac_size_units, get_mac_size_units, set_bits,
}

-- The byte that `set_bits` stores, and the same byte with the field in it written out.
abbrev pub stored : ℕ → ℕ → ℕ → ℕ → ℕ
stored mask shift b v = bit_or (bit_and b (255 - mask)) (bit_and (v * 2 ^ shift) mask % 2 ^ 8)

abbrev pub with_field : ℕ → ℕ → ℕ → ℕ → ℕ
with_field shift width b v =
    b / 2 ^ (shift + width) * 2 ^ (shift + width) + v % 2 ^ width * 2 ^ shift + b % 2 ^ shift

-- `mask` has `width` ones from bit `shift` on. The check runs over all bytes and values.
abbrev pub IsField : ℕ → ℕ → ℕ → Type 0
IsField mask shift width =
    ((b v : ℕ) → b < 256 → v < 256 → stored mask shift b v ≡ with_field shift width b v)
    × ((b : ℕ) → b < 256 → bit_and b mask / 2 ^ shift ≡ b / 2 ^ shift % 2 ^ width)

IsField-by_table :
    (mask shift width : ℕ)
    → all_below 256 (λ b. all_below 256 (λ v. stored mask shift b v == with_field shift width b v))
      ≡ true
    → all_below 256 (λ b. (bit_and b mask / 2 ^ shift) == (b / 2 ^ shift % 2 ^ width)) ≡ true
    → IsField mask shift width
IsField-by_table mask shift width writes reads = (
  λ b v p q. (==_iff _ _).0 (
      all_below_sound 256 (λ v. stored mask shift b v == with_field shift width b v) v
        (all_below_sound 256
          (λ b. all_below 256 (λ v. stored mask shift b v == with_field shift width b v)) b writes
          p)
        q),
  λ b p. (==_iff _ _).0 (
      all_below_sound 256 (λ b. (bit_and b mask / 2 ^ shift) == (b / 2 ^ shift % 2 ^ width)) b reads
        p),
)

pub reserved-IsField : IsField 0b10000000 7 1
unfolding all_below
reserved-IsField = IsField-by_table 0b10000000 7 1 refl refl

pub version-IsField : IsField 0b01111100 2 5
unfolding all_below
version-IsField = IsField-by_table 0b01111100 2 5 refl refl

pub frame_type-IsField : IsField 0b00000011 0 2
unfolding all_below
frame_type-IsField = IsField-by_table 0b00000011 0 2 refl refl

pub sec_ctx-IsField : IsField 0b11110000 4 4
unfolding all_below
sec_ctx-IsField = IsField-by_table 0b11110000 4 4 refl refl

pub mac_size-IsField : IsField 0b00001111 0 4
unfolding all_below
mac_size-IsField = IsField-by_table 0b00001111 0 4 refl refl

-- Reading byte `i` after `set_bits` at `i`.
set_bits_byte :
    (f : Frame) (i mask shift width v : ℕ)
    → IsField mask shift width
    → i < length f.base
    → All IsByte f.base
    → v < 256
    → get_or (set_bits f i mask shift v).base i 0 ≡ with_field shift width (get_or f.base i 0) v
unfolding set_bits
set_bits_byte f i mask shift width v field inside bytes small =
    rw (get_or-set_self f.base i _ 0 inside)
      (field.0 (get_or f.base i 0) v (get_or-IsByte f.base i bytes) small)

-- Each getter as arithmetic on its byte.
module _ (f : Frame) (bytes : All IsByte f.base) where
  pub get_reserved_lem : get_reserved f ≡ get_or f.base 1 0 / 128 % 2
  unfolding get_reserved
  get_reserved_lem = reserved-IsField.1 _ (get_or-IsByte f.base 1 bytes)

  pub get_version_lem : get_version f ≡ get_or f.base 1 0 / 4 % 32
  unfolding get_version
  get_version_lem = version-IsField.1 _ (get_or-IsByte f.base 1 bytes)

  pub get_frame_type_lem : get_frame_type f ≡ get_or f.base 1 0 % 4
  unfolding get_frame_type
  get_frame_type_lem = frame_type-IsField.1 _ (get_or-IsByte f.base 1 bytes) ∙ omega arith

  pub get_sec_ctx_lem : get_sec_ctx f ≡ get_or f.base 2 0 / 16 % 16
  unfolding get_sec_ctx
  get_sec_ctx_lem = sec_ctx-IsField.1 _ (get_or-IsByte f.base 2 bytes)

  pub get_mac_size_units_lem : get_mac_size_units f ≡ get_or f.base 2 0 % 16
  unfolding get_mac_size_units
  get_mac_size_units_lem = mac_size-IsField.1 _ (get_or-IsByte f.base 2 bytes) ∙ omega arith

-- What each setter stores.
module _ (f : Frame) (v : ℕ) (bytes : All IsByte f.base) (small : v < 256) where
  pub set_reserved_byte :
      1 < length f.base → get_or (set_reserved f v).base 1 0 ≡ with_field 7 1 (get_or f.base 1 0) v
  unfolding set_reserved
  set_reserved_byte inside = set_bits_byte f 1 _ 7 1 v reserved-IsField inside bytes small

  pub set_version_byte :
      1 < length f.base → get_or (set_version f v).base 1 0 ≡ with_field 2 5 (get_or f.base 1 0) v
  unfolding set_version
  set_version_byte inside = set_bits_byte f 1 _ 2 5 v version-IsField inside bytes small

  pub set_frame_type_byte :
      1 < length f.base
      → get_or (set_frame_type f v).base 1 0 ≡ with_field 0 2 (get_or f.base 1 0) v
  unfolding set_frame_type
  set_frame_type_byte inside = set_bits_byte f 1 _ 0 2 v frame_type-IsField inside bytes small

  pub set_sec_ctx_byte :
      2 < length f.base → get_or (set_sec_ctx f v).base 2 0 ≡ with_field 4 4 (get_or f.base 2 0) v
  unfolding set_sec_ctx
  set_sec_ctx_byte inside = set_bits_byte f 2 _ 4 4 v sec_ctx-IsField inside bytes small

  pub set_mac_size_units_byte :
      2 < length f.base
      → get_or (set_mac_size_units f v).base 2 0 ≡ with_field 0 4 (get_or f.base 2 0) v
  unfolding set_mac_size_units
  set_mac_size_units_byte inside = set_bits_byte f 2 _ 0 4 v mac_size-IsField inside bytes small

  -- The setters store bytes.
  stored-IsByte :
      (i mask shift width : ℕ)
      → IsField mask shift width
      → with_field shift width (get_or f.base i 0) v < 256
      → All IsByte (set_bits f i mask shift v).base
  unfolding set_bits
  stored-IsByte i mask shift width field fits =
      set-IsByte f.base i _ bytes
        (rw (field.0 (get_or f.base i 0) v (get_or-IsByte f.base i bytes) small) fits)

  pub set_reserved-IsByte : All IsByte (set_reserved f v).base
  unfolding set_reserved
  set_reserved-IsByte =
      stored-IsByte 1 _ 7 1 reserved-IsField (omega (arith, get_or-IsByte f.base 1 bytes))

  pub set_version-IsByte : All IsByte (set_version f v).base
  unfolding set_version
  set_version-IsByte =
      stored-IsByte 1 _ 2 5 version-IsField (omega (arith, get_or-IsByte f.base 1 bytes))

  pub set_frame_type-IsByte : All IsByte (set_frame_type f v).base
  unfolding set_frame_type
  set_frame_type-IsByte =
      stored-IsByte 1 _ 0 2 frame_type-IsField (omega (arith, get_or-IsByte f.base 1 bytes))

  pub set_sec_ctx-IsByte : All IsByte (set_sec_ctx f v).base
  unfolding set_sec_ctx
  set_sec_ctx-IsByte =
      stored-IsByte 2 _ 4 4 sec_ctx-IsField (omega (arith, get_or-IsByte f.base 2 bytes))

  pub set_mac_size_units-IsByte : All IsByte (set_mac_size_units f v).base
  unfolding set_mac_size_units
  set_mac_size_units-IsByte =
      stored-IsByte 2 _ 0 4 mac_size-IsField (omega (arith, get_or-IsByte f.base 2 bytes))

  -- Each field of the second byte reads back what was written, cut to its width, and the writes
  -- leave the other two fields of the byte as they were.
  pub version_type_fields :
      1 < length f.base
      → (get_reserved (set_reserved f v) ≡ v % 2)
        × (get_version (set_reserved f v) ≡ get_version f)
        × (get_frame_type (set_reserved f v) ≡ get_frame_type f)
        × (get_version (set_version f v) ≡ v % 32)
        × (get_reserved (set_version f v) ≡ get_reserved f)
        × (get_frame_type (set_version f v) ≡ get_frame_type f)
        × (get_frame_type (set_frame_type f v) ≡ v % 4)
        × (get_reserved (set_frame_type f v) ≡ get_reserved f)
        × (get_version (set_frame_type f v) ≡ get_version f)
  version_type_fields inside =
      let b : get_or f.base 1 0 < 256 = get_or-IsByte f.base 1 bytes in
      let r = set_reserved-IsByte in
      let n = set_version-IsByte in
      let t = set_frame_type-IsByte in
      omega (
        arith,
        set_reserved_byte inside,
        set_version_byte inside,
        set_frame_type_byte inside,
        get_reserved_lem f bytes,
        get_version_lem f bytes,
        get_frame_type_lem f bytes,
        get_reserved_lem (set_reserved f v) r,
        get_version_lem (set_reserved f v) r,
        get_frame_type_lem (set_reserved f v) r,
        get_reserved_lem (set_version f v) n,
        get_version_lem (set_version f v) n,
        get_frame_type_lem (set_version f v) n,
        get_reserved_lem (set_frame_type f v) t,
        get_version_lem (set_frame_type f v) t,
        get_frame_type_lem (set_frame_type f v) t,
      )

  -- The security context and the MAC size share the third byte in the same way; the MAC size in
  -- the frame object is what was asked for, also where the field cannot hold it.
  pub sec_mac_fields :
      2 < length f.base
      → (get_sec_ctx (set_sec_ctx f v) ≡ v % 16)
        × (get_mac_size_units (set_sec_ctx f v) ≡ get_mac_size_units f)
        × (get_mac_size_units (set_mac_size_units f v) ≡ v % 16)
        × (get_sec_ctx (set_mac_size_units f v) ≡ get_sec_ctx f)
        × ((set_mac_size_units f v).mac_size ≡ v * 4)
  sec_mac_fields inside =
      let b : get_or f.base 2 0 < 256 = get_or-IsByte f.base 2 bytes in
      let s = set_sec_ctx-IsByte in
      let m = set_mac_size_units-IsByte in
      omega (
        arith,
        set_sec_ctx_byte inside,
        set_mac_size_units_byte inside,
        get_sec_ctx_lem f bytes,
        get_mac_size_units_lem f bytes,
        get_sec_ctx_lem (set_sec_ctx f v) s,
        get_mac_size_units_lem (set_sec_ctx f v) s,
        get_sec_ctx_lem (set_mac_size_units f v) m,
        get_mac_size_units_lem (set_mac_size_units f v) m,
        mac_size_kept,
      )
    where
      mac_size_kept : (set_mac_size_units f v).mac_size ≡ v * 4
      mac_size_kept = unfold set_mac_size_units in refl
