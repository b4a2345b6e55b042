-- ===== src/Frame/Setters.antt =====
-- frame.hpp: the setters of the bytes before the MAC, on the header that the frame encodes.
use bfc_tunnel.Base.{
  ℕ, ◌+◌, ◌*◌, ◌≤◌, ◌<◌, ◌≡◌, refl, sym, ◌∙◌, none, arith, length, get_or, length-set,
  get_or-set_self, get_or-set_ne, get_or-IsByte, set-IsByte,
}
use bfc_tunnel.Frame.{
  Frame, set_ttl, set_reserved, set_version, set_frame_type, set_sec_ctx, set_mac_size_units,
  set_bits,
}
use bfc_tunnel.Frame.Fields.{
  IsField, stored, with_field, version-IsField, reserved-IsField, frame_type-IsField,
  sec_ctx-IsField, mac_size-IsField,
}
use bfc_tunnel.Frame.Header.{Header, Layout, front_store}

module _ (f : Frame) (h : Header) (l : Layout f h) where
  pub set_ttl-Layout : (v : ℕ) → v < 256 → Layout (set_ttl f v) (record h { ttl = v })
  unfolding set_ttl
  set_ttl-Layout v small =
      front_store f h 0 v (omega arith) small l (record h { ttl = v })
        (get_or-set_self f.base 0 v 0 (omega (arith, l.room)))
        (get_or-set_ne f.base 0 1 v 0 (omega arith) ∙ l.second) l.version_small l.frame_type_small
        (get_or-set_ne f.base 0 2 v 0 (omega arith) ∙ l.third) refl (refl, refl, refl, refl, refl)

  -- A bit field of the second byte.
  second_store :
      (mask shift width v : ℕ) (g : Header)
      → IsField mask shift width
      → v < 256
      → with_field shift width (get_or f.base 1 0) v
        ≡ g.reserved * 128 + g.version * 4 + g.frame_type
      → g.reserved * 128 + g.version * 4 + g.frame_type < 256
      → g.version < 32
      → g.frame_type < 4
      → (g.ttl ≡ h.ttl) × (g.sec_ctx ≡ h.sec_ctx) × (g.mac_units ≡ h.mac_units)
      → (g.sn ≡ h.sn)
        × (g.ts ≡ h.ts)
        × (g.src ≡ h.src)
        × (g.dst ≡ h.dst)
        × (g.payload_type ≡ h.payload_type)
      → Layout (set_bits f 1 mask shift v) g
  unfolding set_bits
  second_store mask shift width v g field small value fits version_fits type_fits same rest =
      front_store f h 1 _ (omega arith) (rw byte fits) l g
        (get_or-set_ne f.base 1 0 _ 0 (omega arith) ∙ l.ttl ∙ sym same.0)
        (get_or-set_self f.base 1 _ 0 (omega (arith, l.room)) ∙ byte) version_fits type_fits
        (get_or-set_ne f.base 1 2 _ 0 (omega arith) ∙ l.third ∙ omega arith) same.2 rest
    where
      byte :
          stored mask shift (get_or f.base 1 0) v ≡ g.reserved * 128 + g.version * 4 + g.frame_type
      byte = field.0 _ v (get_or-IsByte f.base 1 l.bytes) small ∙ value

  pub set_version-Layout : (v : ℕ) → v < 32 → Layout (set_version f v) (record h { version = v })
  unfolding set_version
  set_version-Layout v small =
      let b = get_or-IsByte f.base 1 l.bytes in
      second_store _ 2 5 v (record h { version = v }) version-IsField (omega arith)
        (omega (arith, l.second, l.frame_type_small, l.version_small, b))
        (omega (arith, l.second, l.frame_type_small, b)) small l.frame_type_small (refl, refl, refl)
        (refl, refl, refl, refl, refl)

  pub set_reserved-Layout : (v : ℕ) → v < 2 → Layout (set_reserved f v) (record h { reserved = v })
  unfolding set_reserved
  set_reserved-Layout v small =
      let b = get_or-IsByte f.base 1 l.bytes in
      second_store _ 7 1 v (record h { reserved = v }) reserved-IsField (omega arith)
        (omega (arith, l.second, l.frame_type_small, l.version_small, b))
        (omega (arith, l.second, l.frame_type_small, l.version_small, b)) l.version_small
        l.frame_type_small (refl, refl, refl) (refl, refl, refl, refl, refl)

  pub set_frame_type-Layout :
      (v : ℕ) → v < 4 → Layout (set_frame_type f v) (record h { frame_type = v })
  unfolding set_frame_type
  set_frame_type-Layout v small =
      let b = get_or-IsByte f.base 1 l.bytes in
      second_store _ 0 2 v (record h { frame_type = v }) frame_type-IsField (omega arith)
        (omega (arith, l.second, l.frame_type_small, l.version_small, b))
        (omega (arith, l.second, l.frame_type_small, l.version_small, b)) l.version_small small
        (refl, refl, refl) (refl, refl, refl, refl, refl)

  pub set_sec_ctx-Layout : (v : ℕ) → v < 16 → Layout (set_sec_ctx f v) (record h { sec_ctx = v })
  unfolding set_sec_ctx set_bits
  set_sec_ctx-Layout v small =
      front_store f h 2 _ (omega arith) (rw byte (omega (arith, l.mac_units_small))) l
        (record h { sec_ctx = v }) (get_or-set_ne f.base 2 0 _ 0 (omega arith) ∙ l.ttl)
        (get_or-set_ne f.base 2 1 _ 0 (omega arith) ∙ l.second) l.version_small l.frame_type_small
        (get_or-set_self f.base 2 _ 0 (omega (arith, l.room)) ∙ byte) refl
        (refl, refl, refl, refl, refl)
    where
      byte : stored 0b11110000 4 (get_or f.base 2 0) v ≡ v * 16 + h.mac_units
      byte =
          sec_ctx-IsField.0 _ v (get_or-IsByte f.base 2 l.bytes) (omega arith)
          ∙ omega (arith, l.third, l.mac_units_small, get_or-IsByte f.base 2 l.bytes)

  -- The MAC field has a new length, so what stood behind it is forgotten.
  abbrev pub resized : ℕ → Header
  resized units = record h {
    mac_units = units;
    sn = none;
    ts = none;
    src = none;
    dst = none;
    payload_type = none;
  }

  pub set_mac_size_units-Layout :
      (units : ℕ)
      → units < 16
      → units * 4 + 20 ≤ length f.base
      → Layout (set_mac_size_units f units) (resized units)
  unfolding set_mac_size_units set_bits
  set_mac_size_units-Layout units small room = record {
    room = omega (arith, length-set f.base 2 (stored 0b00001111 0 (get_or f.base 2 0) units));
    bytes = set-IsByte f.base 2 _ l.bytes (rw byte (omega (arith, l.third, b)));
    ttl = get_or-set_ne f.base 2 0 _ 0 (omega arith) ∙ l.ttl;
    second = get_or-set_ne f.base 2 1 _ 0 (omega arith) ∙ l.second;
    version_small = l.version_small;
    frame_type_small = l.frame_type_small;
    third = get_or-set_self f.base 2 _ 0 (omega arith) ∙ byte;
    mac_units_small = small;
    mac_size = refl;
    sn = tt;
    ts = tt;
    src = tt;
    dst = tt;
    payload_type = tt;
  }
    where
      b : get_or f.base 2 0 < 256
      b = get_or-IsByte f.base 2 l.bytes

      byte : stored 0b00001111 0 (get_or f.base 2 0) units ≡ h.sec_ctx * 16 + units
      byte = mac_size-IsField.0 _ units b (omega arith) ∙ omega (arith, l.third, l.mac_units_small)
