-- ===== src/Security/Cipher.antt =====
-- key_utils.cpp: enciphering a payload twice under one key and one header gives it back.
use bfc_tunnel.Base.{
  ℕ, ◌+◌, ◌*◌, ◌%◌, ◌≤◌, ◌<◌, ◌≡◌, inl, inr, refl, sym, ap, ◌∙◌, some, List, arith, length, get_or,
  IsByte, All, ◌==◌, Bool-cases, Option-cases, take,
}
use bfc_tunnel.Base.Slices.{
  overwrite-slice, take-All, drop-All, overwrite-All, length-overwrite, get_or-overwrite,
}
use bfc_tunnel.Frame.{
  Frame, frame_at, get_size, get_payload_size, get_header_size, read_u32, sn_offset, ts_offset,
  src_offset,
}
use bfc_tunnel.Frame.Words.{read_u32_lem}
use bfc_tunnel.Security.{
  Primitives, payload, with_payload, run_cipher, cipher_frame_payload, frame_cipher_iv, ctr_xor,
}
use bfc_tunnel.Security.Xor.{ctr_xor_twice, ctr_xor-IsByte, length-ctr_xor}
use bfc_tunnel.Security.Mac.{IsReady, IsReady-frame_at}

-- What the primitives are documented to do: the MAC has 32 bytes, a cipher block consists of
-- bytes, and the stream cipher undoes itself under the same key and nonce.
pub record IsLawful (c : Primitives) : Type 0 where
  pub hmac_size : (key bytes : List ℕ) → length (c.hmac_sha256 key bytes) ≡ 32
  pub hmac_bytes : (key bytes : List ℕ) → All IsByte (c.hmac_sha256 key bytes)
  pub aes_bytes :
      (algorithm : ℕ) (key : List ℕ) (encrypt : List ℕ → List ℕ)
      → c.aes_block algorithm key ≡ some encrypt
      → (counter : List ℕ) → All IsByte (encrypt counter)
  pub chacha_twice :
      (key iv plain masked : List ℕ)
      → All IsByte plain
      → c.chacha20 key iv plain ≡ some masked
      → (length masked ≡ length plain) × All IsByte masked × (c.chacha20 key iv masked ≡ some plain)

module _ (c : Primitives) (lawful : IsLawful c) where
  run_cipher_cases :
      (f g : Frame) (algorithm : ℕ) (key iv : List ℕ)
      → All IsByte (payload f)
      → run_cipher c f algorithm key iv ≡ some g
      → (out : List ℕ) × (g ≡ with_payload f out)
        × (length out ≡ length (payload f))
        × All IsByte out
        × ((h : Frame)
            → payload h ≡ out
            → run_cipher c h algorithm key iv ≡ some (with_payload h (payload f)))
  unfolding run_cipher
  run_cipher_cases f g algorithm key iv bytes e = elim (Bool-cases (algorithm == 3)) [
    | inl stream ↦ elim (Option-cases (c.chacha20 key (take 12 iv) (payload f))) [
      | inl thrown ↦ absurd (ground arith)
      | inr (out, made) ↦
          let back = lawful.chacha_twice key (take 12 iv) (payload f) out bytes made in
          (out, ground arith, back.0, back.1, λ h same. ground (arith, same, back.2))
    ]
    | inr block ↦ elim (Option-cases (c.aes_block algorithm key)) [
      | inl thrown ↦ absurd (ground arith)
      | inr (encrypt, made) ↦
          let blocks = lawful.aes_bytes algorithm key encrypt made in
          let n = length (payload f) in
          let out = ctr_xor n encrypt iv (payload f) in
          let len = length-ctr_xor encrypt n iv (payload f) in
          let twice = ctr_xor_twice encrypt blocks n iv (payload f) bytes in
          (
            out,
            ground arith,
            len,
            ctr_xor-IsByte encrypt blocks n iv (payload f) bytes,
            λ h same. ground (arith, same, len, twice),
          )
    ]
  ]

-- A frame whose payload is written over stays ready.
pub with_payload-IsReady :
    (f : Frame) (out : List ℕ) → IsReady f → All IsByte out → IsReady (with_payload f out)
with_payload-IsReady f out r small = record {
  based = r.based;
  bytes = overwrite-All IsByte f.base (get_header_size f) out r.bytes small;
  whole = r.whole ∙ sym (length-overwrite f.base (get_header_size f) out);
  room = r.room;
  announced =
      r.announced
      ∙ ap (λ t. t % 16 * 4)
          (sym (get_or-overwrite f.base (get_header_size f) 2 out 0 (inl (omega arith))));
}

-- The part of the header from which the counter or nonce is made.
abbrev pub Agree : Frame → Frame → Type 0
Agree f h =
    (h.mac_size ≡ f.mac_size)
    × ((j : ℕ) → 3 + f.mac_size ≤ j → j < 19 + f.mac_size → get_or h.base j 0 ≡ get_or f.base j 0)

Agree-read_u32 :
    (f h : Frame) (p : ℕ)
    → All IsByte f.base
    → All IsByte h.base
    → Agree f h
    → 3 + f.mac_size ≤ p
    → p + 4 ≤ 19 + f.mac_size
    → read_u32 h p ≡ read_u32 f p
Agree-read_u32 f h p bytes bytes' a low high =
    read_u32_lem h p bytes'
    ∙ (rw
        (
          a.1 p (omega arith) (omega arith),
          a.1 (p + 1) (omega arith) (omega arith),
          a.1 (p + 2) (omega arith) (omega arith),
          a.1 (p + 3) (omega arith) (omega arith),
        )
        refl)
    ∙ sym (read_u32_lem f p bytes)

Agree-word :
    (f h : Frame) (p q : ℕ)
    → All IsByte f.base
    → All IsByte h.base
    → Agree f h
    → p ≡ q
    → 3 + f.mac_size ≤ p
    → p + 4 ≤ 19 + f.mac_size
    → read_u32 h q ≡ read_u32 f p
Agree-word f h p q bytes bytes' a same low high =
    ap (read_u32 h) (sym same) ∙ Agree-read_u32 f h p bytes bytes' a low high

Agree-frame_cipher_iv :
    (f h : Frame)
    → All IsByte f.base
    → All IsByte h.base
    → Agree f h
    → frame_cipher_iv h ≡ frame_cipher_iv f
unfolding frame_cipher_iv
Agree-frame_cipher_iv f h bytes bytes' a =
    let n = a.0 in
    let word = λ (p q : ℕ). Agree-word f h p q bytes bytes' a in
    rw
      (
        word (sn_offset f) (sn_offset h) (omega arith) (omega arith) (omega arith),
        word (ts_offset f) (ts_offset h) (omega arith) (omega arith) (omega arith),
        word (src_offset f) (src_offset h) (omega arith) (omega arith) (omega arith),
      )
      refl

pub Agree-get_payload_size :
    (f h : Frame)
    → h.mac_size ≡ f.mac_size
    → h.max_size ≡ f.max_size
    → get_payload_size h ≡ get_payload_size f
unfolding get_payload_size
Agree-get_payload_size f h e k = rw (e, k) refl

module _ (c : Primitives) (lawful : IsLawful c) where
  -- What `cipher_frame_payload` does where it succeeds: it writes as many bytes over the payload,
  -- and run on a frame that holds these and has the same header, writes the payload again.
  pub cipher_frame_payload_cases :
      (f g : Frame) (algorithm : ℕ) (key : List ℕ)
      → IsReady f
      → cipher_frame_payload c f algorithm key ≡ some g
      → (out : List ℕ) × (g ≡ with_payload f out)
        × (length out ≡ length (payload f))
        × All IsByte out
        × ((h : Frame)
            → IsReady h
            → Agree f h
            → h.max_size ≡ f.max_size
            → payload h ≡ out
            → cipher_frame_payload c h algorithm key ≡ some (with_payload h (payload f)))
  unfolding cipher_frame_payload
  cipher_frame_payload_cases f g algorithm key r e = elim (Bool-cases (algorithm == 0)) [
    | inl off ↦ (
      payload f,
      ground (arith, unchanged f),
      refl,
      small,
      λ h ready a size same. ground (arith, same_payload h same),
    )
    | inr on ↦ elim (Bool-cases (get_payload_size f == 0)) [
      | inl empty ↦ (
        payload f,
        ground (arith, unchanged f),
        refl,
        small,
        λ h ready a size same.
            ground (arith, same_payload h same, Agree-get_payload_size f h a.0 size),
      )
      | inr full ↦
          let (out, made, len, bytes, back) =
            run_cipher_cases c lawful f g algorithm key
              (frame_cipher_iv (frame_at (some f.base) (get_size f))) small (ground arith) in
          (
            out,
            made,
            len,
            bytes,
            λ h ready a size same.
                ground (arith, back h same, Agree-get_payload_size f h a.0 size, iv h ready a),
          )
    ]
  ]
    where
      small : All IsByte (payload f)
      small = take-All IsByte _ _ (drop-All IsByte (get_header_size f) f.base r.bytes)

      unchanged : (h : Frame) → with_payload h (payload h) ≡ h
      unchanged h = rw (overwrite-slice h.base (get_header_size h) (get_payload_size h)) refl

      same_payload :
          (h : Frame) → payload h ≡ payload f → some (with_payload h (payload f)) ≡ some h
      same_payload h same = rw (sym same) (ap some (unchanged h))

      iv :
          (h : Frame)
          → IsReady h
          → Agree f h
          → frame_cipher_iv (frame_at (some h.base) (get_size h))
            ≡ frame_cipher_iv (frame_at (some f.base) (get_size f))
      iv h ready a =
          ap frame_cipher_iv (IsReady-frame_at h ready)
          ∙ Agree-frame_cipher_iv f h r.bytes ready.bytes a
          ∙ ap frame_cipher_iv (sym (IsReady-frame_at f r))
