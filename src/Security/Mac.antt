-- ===== src/Security/Mac.antt =====
-- key_utils.cpp: the MAC that `protect_frame_mac` writes is the one that `verify_frame_mac` expects.
use bfc_tunnel.Base.{
  ℕ, ◌+◌, ◌*◌, ◌%◌, ◌≤◌, ◌<◌, ◌≡◌, ◌⊎◌, inl, inr, refl, sym, ap, ◌∙◌, true, false, some, List, [],
  ◌∷◌, ◌++◌, arith, length, take, drop, get_or, IsByte, All, ◌==◌, length-append, length-take,
  Bool-cases,
}
use mathlib.Core.Path.{ap₂}
use bfc_tunnel.Base.Slices.{
  overwrite, slice, length-overwrite, take-overwrite, drop-overwrite, get_or-overwrite,
  slice-overwrite_self, overwrite-nil, take_all, overwrite-All,
}
use bfc_tunnel.Frame.{Frame, frame_at, get_size, get_header_size}
use bfc_tunnel.Frame.Readings.{frame_at-mac_size}
use bfc_tunnel.Frame.Validity.{get_size_lem}
use bfc_tunnel.Security.{
  Primitives, same_bytes, is_empty, compute_integrity_mac, verify_integrity_mac,
  frame_authenticated_bytes, protect_frame_mac, verify_frame_mac,
}

-- A frame over a buffer of its own size, with room for its header, whose third byte says how long
-- its MAC is.
pub record IsReady (f : Frame) : Type 0 where
  pub based : f.has_base ≡ true
  pub bytes : All IsByte f.base
  pub whole : f.max_size ≡ length f.base
  pub room : get_header_size f ≤ f.max_size
  pub announced : f.mac_size ≡ get_or f.base 2 0 % 16 * 4

pub IsReady-size : (f : Frame) → IsReady f → get_size f ≡ length f.base
IsReady-size f r = get_size_lem f r.room ∙ r.whole

same_bytes_refl : (xs : List ℕ) → same_bytes xs xs ≡ true
unfolding same_bytes
same_bytes_refl [] = refl
same_bytes_refl (x ∷ xs) = ground (arith, same_bytes_refl xs)

-- Writing a MAC of the right length into its place keeps the frame ready.
pub overwrite_mac-IsReady :
    (f : Frame) (mac : List ℕ)
    → IsReady f
    → length mac ≡ f.mac_size
    → All IsByte mac
    → IsReady (record f { base = overwrite f.base 3 mac })
overwrite_mac-IsReady f mac r len small = record {
  based = r.based;
  bytes = overwrite-All IsByte f.base 3 mac r.bytes small;
  whole = r.whole ∙ sym (length-overwrite f.base 3 mac);
  room = r.room;
  announced =
      r.announced
      ∙ ap (λ t. t % 16 * 4) (sym (get_or-overwrite f.base 3 2 mac 0 (inl (omega arith))));
}

-- The frame that is built over a ready frame's bytes has its MAC size.
pub IsReady-mac_size :
    (f : Frame) → IsReady f → (frame_at (some f.base) (get_size f)).mac_size ≡ f.mac_size
IsReady-mac_size f r =
    frame_at-mac_size f.base (get_size f) r.bytes (omega (arith, IsReady-size f r, r.room, r.whole))
    ∙ sym r.announced

-- It is the frame itself.
pub IsReady-frame_at : (f : Frame) → IsReady f → frame_at (some f.base) (get_size f) ≡ f
unfolding frame_at
IsReady-frame_at f r = ground (arith, IsReady-size f r, IsReady-mac_size f r, r.based, r.whole)

abbrev authenticated : Frame → List ℕ
authenticated f =
    frame_authenticated_bytes (frame_at (some f.base) (get_size f)) (take (get_size f) f.base)

authenticated_lem :
    (f : Frame) → IsReady f → authenticated f ≡ take 3 f.base ++ drop (3 + f.mac_size) f.base
unfolding frame_authenticated_bytes
authenticated_lem f r =
    rw (take_all (get_size f) f.base (omega (arith, IsReady-size f r)), IsReady-mac_size f r)
      (ground (arith, r.room, r.whole))

-- The MAC is no part of what it authenticates.
authenticated-overwrite :
    (f : Frame) (mac : List ℕ)
    → IsReady f
    → length mac ≡ f.mac_size
    → All IsByte mac
    → authenticated (record f { base = overwrite f.base 3 mac }) ≡ authenticated f
authenticated-overwrite f mac r len small =
    authenticated_lem _ (overwrite_mac-IsReady f mac r len small)
    ∙ ap₂ ◌++◌ (take-overwrite f.base 3 mac)
        (drop-overwrite f.base 3 (3 + f.mac_size) mac (omega arith))
    ∙ sym (authenticated_lem f r)

is_empty-cons : (xs : List ℕ) → 0 < length xs → is_empty xs ≡ false
is_empty-cons [] h = elim h [ ]
is_empty-cons (x ∷ xs) h = refl

module _ (c : Primitives) where
  compute-none : (key bytes : List ℕ) → compute_integrity_mac c 0 key bytes ≡ []
  unfolding compute_integrity_mac
  compute-none key bytes = refl

  -- A MAC that was computed, and is not empty, verifies.
  pub verify-compute :
      (algorithm : ℕ) (key bytes mac : List ℕ)
      → mac ≡ compute_integrity_mac c algorithm key bytes
      → 0 < length mac
      → verify_integrity_mac c algorithm key bytes mac ≡ true
  unfolding verify_integrity_mac
  verify-compute algorithm key bytes [] e nonempty = absurd (omega arith)
  verify-compute algorithm key bytes (x ∷ xs) e nonempty =
      ground (arith, same_bytes_refl (x ∷ xs), compute-none key bytes)

  -- What `protect_frame_mac` does where it succeeds.
  pub protect_frame_mac_cases :
      (f g : Frame) (algorithm : ℕ) (key : List ℕ)
      → protect_frame_mac c f algorithm key ≡ some g
      → (mac : List ℕ) × (length mac ≡ f.mac_size)
        × (g ≡ record f { base = overwrite f.base 3 mac })
        × (((f.mac_size ≡ 0) × (algorithm ≡ 0))
            ⊎ ((0 < f.mac_size)
                × (mac
                    ≡ compute_integrity_mac c algorithm key (
                        frame_authenticated_bytes
                          (frame_at (some f.base) (get_size f))
                          (take (get_size f) f.base)))))
  unfolding protect_frame_mac
  protect_frame_mac_cases f g algorithm key e = elim (Bool-cases (f.mac_size == 0)) [
    | inl bare ↦ ([], ground arith, ground (arith, overwrite-nil f.base 3), ground arith)
    | inr carries ↦ (
      compute_integrity_mac c algorithm key (
          frame_authenticated_bytes (frame_at (some f.base) (get_size f))
            (take (get_size f) f.base)),
      ground arith,
      ground arith,
      ground arith,
    )
  ]

  -- After `protect_frame_mac` the same key verifies the frame.
  pub verify-protect_mac :
      (f : Frame) (mac : List ℕ) (algorithm : ℕ) (key : List ℕ)
      → IsReady f
      → length mac ≡ f.mac_size
      → All IsByte mac
      → ((f.mac_size ≡ 0) × (algorithm ≡ 0))
        ⊎ ((0 < f.mac_size) × (mac ≡ compute_integrity_mac c algorithm key (authenticated f)))
      → let g = record f { base = overwrite f.base 3 mac } in
        verify_frame_mac c
          (frame_at (some g.base) (get_size g))
          (take (get_size g) g.base)
          algorithm
          key
        ≡ true
  unfolding verify_frame_mac
  verify-protect_mac f mac algorithm key r len small (inl (none_needed, off)) =
      rw (IsReady-mac_size _ (overwrite_mac-IsReady f mac r len small)) (ground arith)
  verify-protect_mac f mac algorithm key r len small (inr (some_needed, made)) =
      ground (arith, mac_size, nonempty, placed, verified)
    where
      g : Frame
      g = record f { base = overwrite f.base 3 mac }

      ready : IsReady g
      ready = overwrite_mac-IsReady f mac r len small

      mac_size : (frame_at (some g.base) (get_size g)).mac_size ≡ f.mac_size
      mac_size = IsReady-mac_size g ready

      same : authenticated g ≡ authenticated f
      same = authenticated-overwrite f mac r len small

      long : 0 < length (take 3 g.base ++ drop (3 + g.mac_size) g.base)
      long = omega (
        arith,
        length-append (take 3 g.base) (drop (3 + g.mac_size) g.base),
        length-take 3 g.base,
        ready.whole,
        ready.room,
      )

      nonempty : is_empty (authenticated g) ≡ false
      nonempty = is_empty-cons (authenticated g) (rw (authenticated_lem g ready) long)

      verified : verify_integrity_mac c algorithm key (authenticated g) mac ≡ true
      verified = rw same (verify-compute algorithm key (authenticated f) mac made (omega arith))

      placed :
          slice 3 (frame_at (some g.base) (get_size g)).mac_size (take (get_size g) g.base) ≡ mac
      placed =
          rw (mac_size, take_all (get_size g) g.base (omega (arith, IsReady-size g ready)), sym len)
            (slice-overwrite_self f.base 3 mac (omega (arith, r.room, r.whole)))
