-- ===== src/Console/Base64/RoundTrip.antt =====
-- codec.hpp: decoding what was encoded.
use bfc_tunnel.Base.{
  ℕ, ◌+◌, ◌*◌, ◌/◌, ◌%◌, ◌^◌, ◌<◌, ◌≡◌, ◌∙◌, refl, Bool, true, false, ◌&&◌, ◌||◌, none, some, [],
  ◌∷◌, ◌++◌, ◌==◌, arith, All, IsByte, bit_or, all_below, all_below_sound, inl, inr, Option-cases,
  ◌≤◌, ◌-◌, if◌then◌else◌,
}
use bfc_tunnel.Base.Bits.{bit_or-shifted}
use mathlib.Core.List.{append_assoc, append-nil}
use mathlib.Core.Path.{ap}
use bfc_tunnel.Console.Text.{Bytes, is_space}
use bfc_tunnel.Console.Base64.{tab_at, b64_val, base64_encode, decode_from, base64_decode}

-- The decoder reads the character of a digit as that digit.
abbrev reads_back : ℕ → Bool
reads_back d = elim (b64_val (tab_at d)) [
  | none ↦ false
  | some e ↦ (e == d) && (if tab_at d == b'=' || is_space (tab_at d) then false else true)
]

digits-read : all_below 64 reads_back ≡ true
unfolding all_below b64_val tab_at is_space
digits-read = refl

tab_at-read :
    (d : ℕ)
    → d < 64
    → (b64_val (tab_at d) ≡ some d) × ((tab_at d == b'=' || is_space (tab_at d)) ≡ false)
tab_at-read d h =
    let seen = all_below_sound 64 reads_back d digits-read h in
    elim (Option-cases (b64_val (tab_at d))) [
      | inl e ↦ absurd (ground (arith, e, seen))
      | inr (v, e) ↦ (ground (arith, e, seen), ground (arith, e, seen))
    ]

-- One digit below the eighth bit, and one that completes a byte.
decode_from-kept :
    (d : ℕ) (s : Bytes) (val bits : ℕ) (out : Bytes)
    → d < 64
    → bits + 6 < 8
    → decode_from (tab_at d ∷ s) val bits out
      ≡ decode_from s ((val * 64 + d) % 2 ^ 32) (bits + 6) out
unfolding decode_from
decode_from-kept d s val bits out h few =
    let (digit, goes_on) = tab_at-read d h in rw (goes_on, digit) (ground arith)

decode_from-pushed :
    (d : ℕ) (s : Bytes) (val bits : ℕ) (out : Bytes)
    → d < 64
    → 8 ≤ bits + 6
    → decode_from (tab_at d ∷ s) val bits out
      ≡ decode_from s
          ((val * 64 + d) % 2 ^ 32)
          (bits + 6 - 8)
          (out ++ (val * 64 + d) % 2 ^ 32 / 2 ^ (bits + 6 - 8) % 256 ∷ [])
unfolding decode_from
decode_from-pushed d s val bits out h many =
    let (digit, goes_on) = tab_at-read d h in rw (goes_on, digit) (ground arith)

-- The byte that a digit completes, from that digit and the one before.
byte_of_digits :
    (v d e : ℕ)
    → d < 64
    → e < 64
    → (((v * 64 + d) % 2 ^ 32 * 64 + e) % 2 ^ 32 / 2 ^ 4 % 256 ≡ (d * 64 + e) / 2 ^ 4 % 256)
      × (((v * 64 + d) % 2 ^ 32 * 64 + e) % 2 ^ 32 / 2 ^ 2 % 256 ≡ (d * 64 + e) / 2 ^ 2 % 256)
      × (((v * 64 + d) % 2 ^ 32 * 64 + e) % 2 ^ 32 / 2 ^ 0 % 256 ≡ (d * 64 + e) / 2 ^ 0 % 256)
byte_of_digits v d e hd he = (omega arith, omega arith, omega arith)

joined :
    (a b c : ℕ)
    → b < 256
    → c < 256
    → bit_or (bit_or (a * 2 ^ 16) (b * 2 ^ 8)) c ≡ a * 2 ^ 16 + b * 2 ^ 8 + c
joined a b c hb hc =
    let low = bit_or-shifted 8 (a * 2 ^ 8 + b) c (omega arith) in
    let high = bit_or-shifted 16 a (b * 2 ^ 8) (omega arith) in
    let factor : a * 2 ^ 16 + b * 2 ^ 8 ≡ (a * 2 ^ 8 + b) * 2 ^ 8 = omega arith in
    rw high (rw factor low)

-- Two, three and four digits from a decoder that holds no bits.
abbrev held : ℕ → ℕ → ℕ → ℕ
held val d e = ((val * 64 + d) % 2 ^ 32 * 64 + e) % 2 ^ 32

module _ (d e : ℕ) (hd : d < 64) (he : e < 64) where
  two_digits :
      (s : Bytes) (val : ℕ) (out : Bytes)
      → decode_from (tab_at d ∷ tab_at e ∷ s) val 0 out
        ≡ decode_from s (held val d e) 4 (out ++ (d * 64 + e) / 2 ^ 4 % 256 ∷ [])
  two_digits s val out =
      decode_from-kept d (tab_at e ∷ s) val 0 out hd (omega arith)
      ∙ (decode_from-pushed e s ((val * 64 + d) % 2 ^ 32) 6 out he (omega arith)
          ∙ ap (λ byte. decode_from s (held val d e) 4 (out ++ byte ∷ []))
              (byte_of_digits val d e hd he).0)

  module _ (f : ℕ) (hf : f < 64) where
    three_digits :
        (s : Bytes) (val : ℕ) (out : Bytes)
        → decode_from (tab_at d ∷ tab_at e ∷ tab_at f ∷ s) val 0 out
          ≡ decode_from s
              ((held val d e * 64 + f) % 2 ^ 32)
              2
              ((out ++ (d * 64 + e) / 2 ^ 4 % 256 ∷ []) ++ (e * 64 + f) / 2 ^ 2 % 256 ∷ [])
    three_digits s val out =
        let first = out ++ (d * 64 + e) / 2 ^ 4 % 256 ∷ [] in
        two_digits (tab_at f ∷ s) val out
        ∙ (decode_from-pushed f s (held val d e) 4 first hf (omega arith)
            ∙ ap (λ byte. decode_from s ((held val d e * 64 + f) % 2 ^ 32) 2 (first ++ byte ∷ []))
                (byte_of_digits ((val * 64 + d) % 2 ^ 32) e f he hf).1)

    four_digits :
        (g : ℕ) (s : Bytes) (val : ℕ) (out : Bytes)
        → g < 64
        → (next : ℕ) × (decode_from (tab_at d ∷ tab_at e ∷ tab_at f ∷ tab_at g ∷ s) val 0 out
            ≡ decode_from s next 0 (
                ((out ++ (d * 64 + e) / 2 ^ 4 % 256 ∷ []) ++ (e * 64 + f) / 2 ^ 2 % 256 ∷ [])
                ++ (f * 64 + g) / 2 ^ 0 % 256 ∷ []))
    four_digits g s val out hg =
        let three = (held val d e * 64 + f) % 2 ^ 32 in
        let first = (out ++ (d * 64 + e) / 2 ^ 4 % 256 ∷ []) ++ (e * 64 + f) / 2 ^ 2 % 256 ∷ [] in
        let next = (three * 64 + g) % 2 ^ 32 in
        (
          next,
          three_digits (tab_at g ∷ s) val out
              ∙ (decode_from-pushed g s three 2 first hg (omega arith)
                  ∙ ap (λ byte. decode_from s next 0 (first ++ byte ∷ []))
                      (byte_of_digits (held val d e) f g hf hg).2),
        )

-- The padding ends the decoding.
padded : (s : Bytes) (val bits : ℕ) (out : Bytes) → decode_from (b'=' ∷ s) val bits out ≡ some out
unfolding decode_from
padded s val bits out = refl

two_bytes :
    (out : Bytes) {x y a b : ℕ} → x ≡ a → y ≡ b → (out ++ x ∷ []) ++ y ∷ [] ≡ out ++ a ∷ b ∷ []
two_bytes out p q = rw (p, q) (append_assoc out _ _)

three_bytes :
    (out rest : Bytes) {x y z a b c : ℕ}
    → x ≡ a
    → y ≡ b
    → z ≡ c
    → (((out ++ x ∷ []) ++ y ∷ []) ++ z ∷ []) ++ rest ≡ out ++ a ∷ b ∷ c ∷ rest
three_bytes out rest p q r = rw (p, q, r) (simp append_assoc)

-- The decoder reads on from any state without held bits.
decode_from-encode :
    (xs : Bytes) (val : ℕ) (out : Bytes)
    → All IsByte xs
    → decode_from (base64_encode xs) val 0 out ≡ some (out ++ xs)
unfolding base64_encode
decode_from-encode [] val out h = unfold decode_from in rw append-nil refl
decode_from-encode (a ∷ []) val out h =
    two_digits (a * 2 ^ 16 / 2 ^ 18 % 64) (a * 2 ^ 16 / 2 ^ 12 % 64) (omega arith) (omega arith) _
      val out
    ∙ (padded _ _ _ _ ∙ ap (λ byte. some (out ++ byte ∷ [])) (omega (arith, h.0)))
decode_from-encode (a ∷ b ∷ []) val out (ha, (hb, _)) =
    let n = bit_or (a * 2 ^ 16) (b * 2 ^ 8) in
    let sum : n ≡ a * 2 ^ 16 + b * 2 ^ 8 = bit_or-shifted 16 a (b * 2 ^ 8) (omega arith) in
    three_digits (n / 2 ^ 18 % 64) (n / 2 ^ 12 % 64) (omega arith) (omega arith) (n / 2 ^ 6 % 64)
      (omega arith) _ val out
    ∙ (padded _ _ _ _ ∙ ap some (two_bytes out (omega (arith, sum)) (omega (arith, sum))))
decode_from-encode (a ∷ b ∷ c ∷ rest) val out (ha, (hb, (hc, hrest))) =
    let n = bit_or (bit_or (a * 2 ^ 16) (b * 2 ^ 8)) c in
    let sum = joined a b c hb hc in
    let (next, read) =
      four_digits (n / 2 ^ 18 % 64) (n / 2 ^ 12 % 64) (omega arith) (omega arith) (n / 2 ^ 6 % 64)
        (omega arith) (n % 64) (base64_encode rest) val out (omega arith) in
    read
    ∙ (decode_from-encode rest next _ hrest
        ∙ ap some
            (three_bytes out rest (omega (arith, sum)) (omega (arith, sum)) (omega (arith, sum))))

-- Decoding what was encoded gives back the bytes of the key.
pub base64_decode-encode : (xs : Bytes) → All IsByte xs → base64_decode (base64_encode xs) ≡ some xs
unfolding base64_decode
base64_decode-encode xs h = decode_from-encode xs 0 [] h
