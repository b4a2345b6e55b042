-- ===== src/Security/Examples.antt =====
-- key_utils.cpp: tests on concrete frames.
use bfc_tunnel.Base.{
  ℕ, ◌≡◌, refl, some, List, [], ◌∷◌, ◌++◌, arith, All, IsByte, replicate, replicate-All, get_or,
  ◌⊎◌, length, true,
}
use mathlib.Core.Option.{some-injective}
use mathlib.Core.Path.{subst}
use bfc_tunnel.Base.Slices.{overwrite}
use bfc_tunnel.Frame.{Frame, frame_at, get_size, get_payload_size}
use bfc_tunnel.Frame.Algorithms.{integrity_mac_size, confidentiality_key_size}
use bfc_tunnel.Security.{
  Primitives, protect_frame, accept_frame, protect_frame_mac, cipher_frame_payload, run_cipher,
  compute_integrity_mac, frame_authenticated_bytes, ctr_xor, xor_bytes, increment, payload,
}
use bfc_tunnel.Security.Mac.{IsReady}
use bfc_tunnel.Security.Cipher.{IsLawful}
use bfc_tunnel.Security.Protect.{accept_frame-protect_frame, protect_frame-algorithms, InHeader}

-- Primitives that do no more than obey the laws.
abbrev pub plain_primitives : Primitives
plain_primitives = record {
  hmac_sha256 = λ key bytes. replicate 32 7;
  aes_block = λ algorithm key. some (λ counter. replicate 16 5);
  chacha20 = λ key iv bytes. some bytes;
}

plain_primitives-IsLawful : IsLawful plain_primitives
plain_primitives-IsLawful = record {
  hmac_size = λ key bytes. refl;
  hmac_bytes = λ key bytes. replicate-All IsByte 32 7 (omega arith);
  aes_bytes = λ algorithm key encrypt e counter.
      subst (λ (f : List ℕ → List ℕ). All IsByte (f counter)) (some-injective _ _ e)
        (replicate-All IsByte 16 5 (omega arith));
  chacha_twice = λ key iv bytes masked small e.
      subst (λ m. (length m ≡ length bytes) × All IsByte m × (some m ≡ some bytes))
        (some-injective _ _ e) (refl, small, refl);
}

-- Security context 1, a MAC of 32 bytes, and three bytes of payload.
abbrev test_bytes : List ℕ
test_bytes = 0 ∷ 4 ∷ 24 ∷ replicate 52 1

abbrev test_frame : Frame
test_frame = record { has_base = true; base = test_bytes; max_size = 55; mac_size = 32 }

test_frame-IsReady : IsReady test_frame
test_frame-IsReady = record {
  based = refl;
  bytes = (omega arith, (omega arith, (omega arith, replicate-All IsByte 52 1 (omega arith))));
  whole = refl;
  room = omega arith;
  announced = refl;
}

abbrev test_key : List ℕ
test_key = replicate 16 9

abbrev protected_frame : Frame
protected_frame = record test_frame {
  base = 0 ∷ 4 ∷ 24 ∷ (replicate 32 7 ++ replicate 17 1 ++ 4 ∷ 4 ∷ 4 ∷ []);
}

protected : protect_frame plain_primitives test_frame 2 test_key 1 test_key ≡ some protected_frame
unfolding protect_frame cipher_frame_payload run_cipher protect_frame_mac compute_integrity_mac
    frame_authenticated_bytes frame_at get_size get_payload_size integrity_mac_size
    confidentiality_key_size ctr_xor xor_bytes overwrite
protected = refl

accept_frame-protect_frame_example :
    (h : Frame) × (accept_frame plain_primitives
        (frame_at (some protected_frame.base) (length protected_frame.base))
        2
        test_key
        1
        test_key
      ≡ some h)
    × (payload h ≡ payload test_frame)
    × ((j : ℕ) → InHeader test_frame j → get_or h.base j 0 ≡ get_or test_frame.base j 0)
accept_frame-protect_frame_example =
    accept_frame-protect_frame plain_primitives plain_primitives-IsLawful test_frame protected_frame
      2 1 test_key test_key test_frame-IsReady protected

protect_frame-algorithms_example :
    ((◌≡◌ {A = ℕ} 2 0) × (protected_frame.mac_size ≡ 0))
    ⊎ ((◌≡◌ {A = ℕ} 2 2) × (protected_frame.mac_size ≡ 32))
protect_frame-algorithms_example =
    protect_frame-algorithms plain_primitives test_frame protected_frame 2 1 test_key test_key
      protected

-- The counter whose low bytes are all 255.
abbrev test_counter : List ℕ
test_counter = replicate 8 0 ++ replicate 8 255

counter_carries : increment test_counter ≡ replicate 7 0 ++ 1 ∷ replicate 8 0
unfolding increment
counter_carries = refl

-- Two blocks and a half.
abbrev test_data : List ℕ
test_data = replicate 40 200

ciphered_twice :
    ctr_xor 40
      (λ counter. replicate 16 5)
      test_counter
      (ctr_xor 40 (λ counter. replicate 16 5) test_counter test_data)
    ≡ test_data
unfolding ctr_xor
ciphered_twice = refl
