-- ===== src/Security/Protect.antt =====
-- key_utils.cpp: protect_frame and accept_frame undo each other.
use bfc_tunnel.Base.{
  ℕ, ◌+◌, ◌≤◌, ◌<◌, ◌≡◌, ◌⊎◌, inl, inr, refl, sym, ap, ◌∙◌, some, List, [], ◌∷◌, arith, length,
  take, get_or, IsByte, All, Option-cases,
}
use mathlib.Core.Path.{subst}
use bfc_tunnel.Base.Slices.{
  overwrite, slice, take-All, slice-overwrite_self, slice-overwrite_behind, get_or-overwrite,
  length-slice,
}
use bfc_tunnel.Frame.{Frame, frame_at, get_size, get_payload_size, get_header_size}
use bfc_tunnel.Frame.Algorithms.{integrity_mac_size, ea_none, ea_hmac_sha2_256}
use bfc_tunnel.Security.{
  Primitives, payload, with_payload, compute_integrity_mac, protect_frame_mac,
  encrypt_frame_payload, protect_frame, accept_frame, frame_authenticated_bytes,
  cipher_frame_payload,
}
use bfc_tunnel.Security.Mac.{
  IsReady, IsReady-size, IsReady-frame_at, overwrite_mac-IsReady, protect_frame_mac_cases,
  verify-protect_mac,
}
use bfc_tunnel.Security.Cipher.{
  IsLawful, Agree, Agree-get_payload_size, cipher_frame_payload_cases, with_payload-IsReady,
}

-- A MAC is computed for one algorithm only.
compute-algorithm :
    (c : Primitives) (algorithm : ℕ) (key bytes mac : List ℕ)
    → mac ≡ compute_integrity_mac c algorithm key bytes
    → 0 < length mac
    → algorithm ≡ ea_hmac_sha2_256
unfolding compute_integrity_mac
compute-algorithm c algorithm key bytes [] e h = absurd (omega arith)
compute-algorithm c algorithm key bytes (x ∷ xs) e h = ground arith

mac_size-algorithm :
    (c : Primitives) (f g : Frame) (algorithm : ℕ) (key : List ℕ)
    → protect_frame_mac c f algorithm key ≡ some g
    → algorithm ≡ ea_hmac_sha2_256
    → f.mac_size ≡ 32
unfolding protect_frame_mac integrity_mac_size
mac_size-algorithm c f g algorithm key e sha = ground arith

mac_algorithms :
    (c : Primitives) (f g : Frame) (algorithm : ℕ) (key : List ℕ)
    → protect_frame_mac c f algorithm key ≡ some g
    → ((algorithm ≡ ea_none) × (g.mac_size ≡ 0))
      ⊎ ((algorithm ≡ ea_hmac_sha2_256) × (g.mac_size ≡ 32))
mac_algorithms c f g algorithm key e =
    let (mac, len, made, which) = protect_frame_mac_cases c f g algorithm key e in
    let size : g.mac_size ≡ f.mac_size = ap (λ (t : Frame). t.mac_size) made in
    elim which [
      | inl (bare, off) ↦ inl (off, omega (arith, size))
      | inr (carries, value) ↦
          let sha : algorithm ≡ ea_hmac_sha2_256 =
            compute-algorithm c algorithm key _ mac value (omega (arith, len, carries)) in
          inr (sha, size ∙ mac_size-algorithm c f g algorithm key e sha)
    ]

-- The bytes that `protect_frame` leaves as they are: those of the header but the MAC.
abbrev pub InHeader : Frame → ℕ → Type 0
InHeader f j = (j < 3) ⊎ ((3 + f.mac_size ≤ j) × (j < get_header_size f))

module _ (c : Primitives) (lawful : IsLawful c) where
  compute-IsByte :
      (algorithm : ℕ) (key bytes : List ℕ)
      → All IsByte (compute_integrity_mac c algorithm key bytes)
  unfolding compute_integrity_mac
  compute-IsByte algorithm key bytes = ground (
    arith,
    take-All IsByte (integrity_mac_size algorithm) (c.hmac_sha256 key bytes)
        (lawful.hmac_bytes key bytes),
  )

  length-payload : (f : Frame) → IsReady f → length (payload f) ≡ get_payload_size f
  length-payload f r =
      length-slice f.base (get_header_size f) (get_payload_size f)
        (unfold get_size in (omega (arith, IsReady-size f r)))

  fits : (f : Frame) → IsReady f → get_header_size f + get_payload_size f ≤ length f.base
  fits f r = unfold get_size in (omega (arith, IsReady-size f r))

  abbrev IsMacOf : Frame → List ℕ → ℕ → List ℕ → Type 0
  IsMacOf f mac integrity key =
      ((f.mac_size ≡ 0) × (integrity ≡ 0))
      ⊎ ((0 < f.mac_size)
          × (mac
              ≡ compute_integrity_mac c integrity key (
                  frame_authenticated_bytes (frame_at (some f.base) (get_size f))
                    (take (get_size f) f.base))))

  IsMacOf-IsByte :
      (f : Frame) (mac : List ℕ) (integrity : ℕ) (key : List ℕ)
      → length mac ≡ f.mac_size
      → IsMacOf f mac integrity key
      → All IsByte mac
  IsMacOf-IsByte f [] integrity key len m = tt
  IsMacOf-IsByte f (x ∷ xs) integrity key len (inl bare) = absurd (omega arith)
  IsMacOf-IsByte f (x ∷ xs) integrity key len (inr (long, made)) =
      subst (All IsByte) (sym made) (compute-IsByte integrity key _)

  -- A frame over which first a payload and then a MAC have been written.
  module _ (f : Frame) (out mac : List ℕ) (r : IsReady f) (len : length out ≡ length (payload f))
      (small : All IsByte out) (mac_len : length mac ≡ f.mac_size)
      (mac_small : All IsByte mac) where
    abbrev enciphered : Frame
    enciphered = with_payload f out

    abbrev sent : Frame
    sent = record enciphered { base = overwrite enciphered.base 3 mac }

    enciphered-IsReady : IsReady enciphered
    enciphered-IsReady = with_payload-IsReady f out r small

    sent-IsReady : IsReady sent
    sent-IsReady = overwrite_mac-IsReady enciphered mac enciphered-IsReady mac_len mac_small

    sent-header : (j : ℕ) → InHeader f j → get_or sent.base j 0 ≡ get_or f.base j 0
    sent-header j place =
        get_or-overwrite enciphered.base 3 j mac 0 (ground arith)
        ∙ get_or-overwrite f.base (get_header_size f) j out 0 (inl (ground arith))

    sent-Agree : Agree f sent
    sent-Agree = (refl, λ j low high. sent-header j (inr (low, omega arith)))

    sent-payload : payload sent ≡ out
    sent-payload =
        ap (λ n. slice (get_header_size f) n sent.base)
          (Agree-get_payload_size f sent refl refl ∙ sym (length-payload f r) ∙ sym len)
        ∙ slice-overwrite_behind enciphered.base 3 (get_header_size f) (length out) mac
            (omega arith)
        ∙ slice-overwrite_self f.base (get_header_size f) out
            (omega (arith, len, length-payload f r, fits f r))

    -- What the receiver's decryption makes of the frame.
    received-payload : payload (with_payload sent (payload f)) ≡ payload f
    received-payload =
        ap (λ n. slice (get_header_size f) n (overwrite sent.base (get_header_size f) (payload f)))
          (Agree-get_payload_size f (with_payload sent (payload f)) refl refl
            ∙ sym (length-payload f r))
        ∙ slice-overwrite_self sent.base (get_header_size f) (payload f)
            (omega (arith, length-payload f r, fits f r, sent-IsReady.whole, r.whole))

    received-header :
        (j : ℕ) → InHeader f j → get_or (with_payload sent (payload f)).base j 0 ≡ get_or f.base j 0
    received-header j place =
        get_or-overwrite sent.base (get_header_size f) j (payload f) 0 (inl (ground arith))
        ∙ sent-header j place

    accept-sent :
        (integrity confidentiality : ℕ) (ik ck : List ℕ)
        → IsMacOf enciphered mac integrity ik
        → ((h : Frame)
            → IsReady h
            → Agree f h
            → h.max_size ≡ f.max_size
            → payload h ≡ out
            → cipher_frame_payload c h confidentiality ck ≡ some (with_payload h (payload f)))
        → accept_frame c
            (frame_at (some sent.base) (length sent.base))
            integrity
            ik
            confidentiality
            ck
          ≡ some (with_payload sent (payload f))
    unfolding accept_frame
    accept-sent integrity confidentiality ik ck value back = ground (
      arith,
      back sent sent-IsReady sent-Agree refl sent-payload,
      verify-protect_mac c enciphered mac integrity ik enciphered-IsReady mac_len mac_small value,
      IsReady-frame_at sent sent-IsReady,
      IsReady-size sent sent-IsReady,
    )

  -- With primitives that behave as documented, and for a frame over a buffer of bytes of its own
  -- size that has room for the header and says in it how long its MAC is: if `protect_frame`
  -- protects it, the result is accepted under the same algorithms and keys, when it is built anew
  -- from the bytes sent. Its payload is then the one that was protected, and the bytes of its
  -- header outside the MAC are those of the frame that was protected.
  pub accept_frame-protect_frame :
      (f g : Frame) (integrity confidentiality : ℕ) (integrity_key confidentiality_key : List ℕ)
      → IsReady f
      → protect_frame c f integrity integrity_key confidentiality confidentiality_key ≡ some g
      → (h : Frame) × (accept_frame c
            (frame_at (some g.base) (length g.base))
            integrity
            integrity_key
            confidentiality
            confidentiality_key
          ≡ some h)
        × (payload h ≡ payload f)
        × ((j : ℕ) → InHeader f j → get_or h.base j 0 ≡ get_or f.base j 0)
  unfolding protect_frame
  accept_frame-protect_frame f g integrity confidentiality ik ck r e =
      elim (Option-cases (encrypt_frame_payload c f confidentiality ck)) [
        | inl failed ↦ absurd (ground arith)
        | inr (masked, done) ↦
            let (out, made, len, small, back) =
              cipher_frame_payload_cases c lawful f masked confidentiality ck r done in
            let (mac, mac_len, written, mac_value) =
              protect_frame_mac_cases c masked g integrity ik (ground arith) in
            let mac_len' : length mac ≡ f.mac_size =
              mac_len ∙ ap (λ (t : Frame). t.mac_size) made in
            let value = subst (λ (t : Frame). IsMacOf t mac integrity ik) made mac_value in
            let mac_small = IsMacOf-IsByte (with_payload f out) mac integrity ik mac_len' value in
            let reached : g ≡ sent f out mac r len small mac_len' mac_small =
              written
              ∙ ap {A = Frame} {B = Frame} (λ t. record t { base = overwrite t.base 3 mac }) made in
            (
              with_payload (sent f out mac r len small mac_len' mac_small) (payload f),
              ap
                    (λ t.
                      accept_frame c (frame_at (some t.base) (length t.base)) integrity ik
                        confidentiality ck)
                    reached
                  ∙ accept-sent f out mac r len small mac_len' mac_small integrity confidentiality
                      ik ck value back,
              received-payload f out mac r len small mac_len' mac_small,
              received-header f out mac r len small mac_len' mac_small,
            )
      ]

-- Only two integrity algorithms can protect a frame: none, for a frame without a MAC, and
-- HMAC-SHA2-256, for one whose MAC has 32 bytes. The other known ones, and a MAC of another size,
-- make `protect_frame` fail.
pub protect_frame-algorithms :
    (c : Primitives) (f g : Frame) (integrity confidentiality : ℕ)
    (integrity_key confidentiality_key : List ℕ)
    → protect_frame c f integrity integrity_key confidentiality confidentiality_key ≡ some g
    → ((integrity ≡ ea_none) × (g.mac_size ≡ 0))
      ⊎ ((integrity ≡ ea_hmac_sha2_256) × (g.mac_size ≡ 32))
unfolding protect_frame
protect_frame-algorithms c f g integrity confidentiality ik ck e =
    elim (Option-cases (encrypt_frame_payload c f confidentiality ck)) [
      | inl failed ↦ absurd (ground arith)
      | inr (masked, done) ↦ mac_algorithms c masked g integrity ik (ground arith)
    ]
