-- ===== src/Security.antt =====
-- src/bfc_tunnel/security/key_utils.cpp: the protection of a frame. The payload is enciphered in
-- place, and a MAC over all bytes of the frame but its own goes into the header.
-- The primitives of the Botan library are a parameter; `none` is an exception that it throws.
pub mod Xor
pub mod Counter
pub mod Mac
pub mod Cipher
pub mod Protect
pub mod Examples
use bfc_tunnel.Base.{
  ℕ, suc, zero, ◌+◌, ◌-◌, ◌/◌, ◌%◌, ◌^◌, ◌<◌, ◌≡◌, min, Bool, true, false, not, ◌&&◌, ◌||◌, Option,
  none, some, List, [], ◌∷◌, ◌++◌, ltb, ◌==◌, if◌then◌else◌, length, take, drop, get_or, set,
  replicate, bit_xor, All, IsByte,
}
use mathlib.Core.Option
use bfc_tunnel.Base.Slices.{overwrite, slice}
use bfc_tunnel.Frame.{
  Frame, frame_at, get_sn, get_ts, get_src, get_size, get_payload_size, get_header_size, read_u32,
}
use bfc_tunnel.Frame.Algorithms.{
  ea_none, ea_hmac_sha2_256, ca_none, ca_aes128, ca_aes256, ca_chacha20, integrity_mac_size,
  integrity_key_size, confidentiality_key_size,
}

-- What the code calls: HMAC(SHA-256), a block of AES under a key of the given algorithm, and the
-- ChaCha20 stream cipher under a key and a nonce.
pub record Primitives : Type 0 where
  pub hmac_sha256 : List ℕ → List ℕ → List ℕ
  pub aes_block : ℕ → List ℕ → Option (List ℕ → List ℕ)
  pub chacha20 : List ℕ → List ℕ → List ℕ → Option (List ℕ)

-- Bytes of a list compared as `memcmp` does on lists of one length.
unfoldable pub same_bytes : List ℕ → List ℕ → Bool
same_bytes [] [] = true
same_bytes [] (y ∷ ys) = false
same_bytes (x ∷ xs) [] = false
same_bytes (x ∷ xs) (y ∷ ys) = (x == y) && same_bytes xs ys

abbrev pub is_empty : List ℕ → Bool
is_empty [] = true
is_empty (x ∷ xs) = false

-- The first `size` bytes; nothing where there are fewer.
abbrev pub cut : ℕ → List ℕ → List ℕ
cut size computed = if ltb (length computed) size then [] else take size computed

module _ (c : Primitives) where
  unfoldable pub compute_integrity_mac : ℕ → List ℕ → List ℕ → List ℕ
  compute_integrity_mac algorithm key bytes =
      if algorithm == ea_none
      then []
      else if is_empty key
      then []
      else if integrity_mac_size algorithm == 0
      then []
      else if algorithm == ea_hmac_sha2_256
      then cut (integrity_mac_size algorithm) (c.hmac_sha256 key bytes)
      else []

  unfoldable pub verify_integrity_mac : ℕ → List ℕ → List ℕ → List ℕ → Bool
  verify_integrity_mac algorithm key bytes mac =
      if algorithm == ea_none
      then is_empty mac
      else if is_empty mac
      then false
      else let computed = compute_integrity_mac algorithm key bytes in
        (if is_empty computed || not (length mac == length computed)
          then false
          else same_bytes computed mac)

-- All bytes of the frame but the MAC; empty where the frame is too short to hold one.
unfoldable pub frame_authenticated_bytes : Frame → List ℕ → List ℕ
frame_authenticated_bytes f pdu =
    if ltb (length pdu) (3 + f.mac_size) then [] else take 3 pdu ++ drop (3 + f.mac_size) pdu

module _ (c : Primitives) where
  -- `none` is the answer `false`.
  unfoldable pub protect_frame_mac : Frame → ℕ → List ℕ → Option Frame
  protect_frame_mac f algorithm key =
      if not (f.mac_size == integrity_mac_size algorithm)
      then none
      else if f.mac_size == 0
      then (if algorithm == ea_none then some f else none)
      else let pdu = take (get_size f) f.base in
        let authenticated = frame_authenticated_bytes (frame_at (some f.base) (get_size f)) pdu in
        (if not (length authenticated == length pdu - f.mac_size)
          then none
          else let mac = compute_integrity_mac c algorithm key authenticated in
            (if not (length mac == f.mac_size)
              then none
              else some (record f { base = overwrite f.base 3 mac })))

  unfoldable pub verify_frame_mac : Frame → List ℕ → ℕ → List ℕ → Bool
  verify_frame_mac f pdu algorithm key =
      if f.mac_size == 0
      then algorithm == ea_none
      else let authenticated = frame_authenticated_bytes f pdu in
        (if is_empty authenticated
          then false
          else verify_integrity_mac c algorithm key authenticated (slice 3 f.mac_size pdu))

-- The bytes of a word, first the highest.
abbrev u32_bytes : ℕ → List ℕ
u32_bytes v = (v / 2 ^ 24 % 2 ^ 8) ∷ (v / 2 ^ 16 % 2 ^ 8) ∷ (v / 2 ^ 8 % 2 ^ 8) ∷ (v % 2 ^ 8) ∷ []

-- Sixteen bytes, the last four zero.
unfoldable pub frame_cipher_iv : Frame → List ℕ
frame_cipher_iv f =
    u32_bytes (get_sn f) ++ u32_bytes (get_ts f) ++ u32_bytes (get_src f) ++ 0 ∷ 0 ∷ 0 ∷ 0 ∷ []

-- `++counter[i]` from the last byte on, until one does not wrap to zero.
unfoldable pub increment_at : ℕ → List ℕ → List ℕ
increment_at zero counter = counter
increment_at (suc i) counter =
    let byte = (get_or counter i 0 + 1) % 2 ^ 8 in
    let carried = increment_at i (set counter i byte) in
    if not (byte == 0) then set counter i byte else carried

unfoldable pub increment : List ℕ → List ℕ
unfolding increment_at
increment counter = increment_at 16 counter

-- `data[i] ^= keystream[i]`.
unfoldable pub xor_bytes : List ℕ → List ℕ → List ℕ
xor_bytes [] ks = []
xor_bytes (x ∷ xs) [] = x ∷ xs
xor_bytes (x ∷ xs) (k ∷ ks) = bit_xor x k ∷ xor_bytes xs ks

-- `ctr_xor_inplace`; the fuel bounds the blocks, of which the last may be short.
unfoldable pub ctr_xor : ℕ → (List ℕ → List ℕ) → List ℕ → List ℕ → List ℕ
unfolding xor_bytes increment
ctr_xor zero encrypt counter bytes = bytes
ctr_xor (suc fuel) encrypt counter [] = []
ctr_xor (suc fuel) encrypt counter (x ∷ xs) =
    xor_bytes (take 16 (x ∷ xs)) (encrypt counter)
    ++ ctr_xor fuel encrypt (increment counter) (drop 16 (x ∷ xs))

-- The payload of a frame.
abbrev pub payload : Frame → List ℕ
payload f = slice (get_header_size f) (get_payload_size f) f.base

abbrev pub with_payload : Frame → List ℕ → Frame
with_payload f bytes = record f { base = overwrite f.base (get_header_size f) bytes }

module _ (c : Primitives) where
  -- The part of `cipher_frame_payload` that runs a cipher.
  unfoldable pub run_cipher : Frame → ℕ → List ℕ → List ℕ → Option Frame
  unfolding ctr_xor
  run_cipher f algorithm key iv =
      if algorithm == ca_chacha20
      then Option.map (with_payload f) (c.chacha20 key (take 12 iv) (payload f))
      else if (algorithm == ca_aes128) || (algorithm == ca_aes256)
      then Option.map
          (λ encrypt. with_payload f (ctr_xor (length (payload f)) encrypt iv (payload f)))
          (c.aes_block algorithm key)
      else none

  unfoldable pub cipher_frame_payload : Frame → ℕ → List ℕ → Option Frame
  cipher_frame_payload f algorithm key =
      if algorithm == ca_none
      then some f
      else if (confidentiality_key_size algorithm == 0)
          || not (length key == confidentiality_key_size algorithm)
      then none
      else if get_payload_size f == 0
      then some f
      else run_cipher f algorithm key (frame_cipher_iv (frame_at (some f.base) (get_size f)))

  abbrev pub encrypt_frame_payload : Frame → ℕ → List ℕ → Option Frame
  encrypt_frame_payload f algorithm key = cipher_frame_payload f algorithm key

  abbrev pub decrypt_frame_payload : Frame → ℕ → List ℕ → Option Frame
  decrypt_frame_payload f algorithm key = cipher_frame_payload f algorithm key

  unfoldable pub protect_frame : Frame → ℕ → List ℕ → ℕ → List ℕ → Option Frame
  protect_frame f integrity integrity_key confidentiality confidentiality_key =
      elim (encrypt_frame_payload f confidentiality confidentiality_key) [
        | none ↦ none
        | some enciphered ↦ protect_frame_mac c enciphered integrity integrity_key
      ]

  unfoldable pub accept_frame : Frame → ℕ → List ℕ → ℕ → List ℕ → Option Frame
  accept_frame f integrity integrity_key confidentiality confidentiality_key =
      if not (
        verify_frame_mac c (frame_at (some f.base) (get_size f)) (take (get_size f) f.base)
          integrity integrity_key)
      then none
      else decrypt_frame_payload f confidentiality confidentiality_key
