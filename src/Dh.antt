-- ===== src/Dh.antt =====
-- src/bfc_tunnel/security/dh.cpp, dh.hpp and x25519_dh.cpp: the two ephemeral and two static keys of
-- a handshake are mixed into one traffic key for each direction, from which a key for each algorithm
-- is cut. The primitives of the Botan library are a parameter; `none` is a thrown exception. A fresh
-- ephemeral private key is an argument.
pub mod Agreement
pub mod Examples
use bfc_tunnel.Base.{
  ℕ, ◌+◌, ◌≡◌, Bool, true, false, not, ◌||◌, Option, none, some, List, [], ◌∷◌, ◌++◌, ltb, ◌==◌,
  if◌then◌else◌, length, take, ◌>>=◌,
}
use mathlib.Core.Option
use bfc_tunnel.Frame.Algorithms.{integrity_key_size, confidentiality_key_size}

-- What the code calls: SHA-256, HMAC(SHA-256), and X25519 on keys of the right size.
pub record Curve : Type 0 where
  pub sha256 : List ℕ → List ℕ
  pub hmac_sha256 : List ℕ → List ℕ → List ℕ
  pub public_value : List ℕ → List ℕ
  pub agree : List ℕ → List ℕ → Option (List ℕ)

abbrev pub k_key_bytes : ℕ
k_key_bytes = 32

-- The class `dhke_kk`, without its backend.
pub record Dhke : Type 0 where
  pub own_static : List ℕ
  pub peer_static : List ℕ
  pub initiator_static_public : List ℕ
  pub responder_static_public : List ℕ
  pub own_ephemeral : List ℕ
  pub own_ephemeral_public : List ℕ
  pub peer_ephemeral : List ℕ
  pub is_initiator : Bool

pub record HandshakeSecrets : Type 0 where
  pub eb : List ℕ
  pub ab : List ℕ
  pub ef : List ℕ
  pub af : List ℕ

-- The letters `BTF`.
abbrev k_protocol_name : List ℕ
k_protocol_name = 66 ∷ 84 ∷ 70 ∷ []

abbrev k_label_integrity : ℕ
k_label_integrity = 1

abbrev k_label_confidentiality : ℕ
k_label_confidentiality = 2

unfoldable pub reset : Dhke → Dhke
reset d = record {
  own_static = [];
  peer_static = [];
  initiator_static_public = [];
  responder_static_public = [];
  own_ephemeral = [];
  own_ephemeral_public = [];
  peer_ephemeral = [];
  is_initiator = false;
}

abbrev pub set_own_private : Dhke → List ℕ → Dhke
set_own_private d sk = record d { own_static = sk }

abbrev pub set_peer_public : Dhke → List ℕ → Dhke
set_peer_public d pk = record d { peer_static = pk }

abbrev pub set_initiator : Dhke → Bool → Dhke
set_initiator d initiator = record d { is_initiator = initiator }

abbrev pub set_static_public_keys : Dhke → List ℕ → List ℕ → Dhke
set_static_public_keys d initiator responder = record d {
  initiator_static_public = initiator;
  responder_static_public = responder;
}

abbrev pub set_peer_ephemeral_public : Dhke → List ℕ → Dhke
set_peer_ephemeral_public d pk = record d { peer_ephemeral = pk }

unfoldable pub truncate_key : List ℕ → ℕ → Option (List ℕ)
truncate_key key size = if ltb (length key) size then none else some (take size key)

module _ (c : Curve) where
  unfoldable pub public_from_private : List ℕ → Option (List ℕ)
  public_from_private sk = if not (length sk == k_key_bytes) then none else some (c.public_value sk)

  unfoldable pub shared : List ℕ → List ℕ → Option (List ℕ)
  shared sk pk =
      if not (length sk == k_key_bytes) || not (length pk == k_key_bytes)
      then none
      else c.agree sk pk

  unfoldable pub setup_handshake : Dhke → List ℕ → List ℕ → Bool → Option Dhke
  setup_handshake d sk pk initiator =
      let chosen = set_initiator (set_peer_public (set_own_private d sk) pk) initiator in
      Option.map
        (λ own.
          if initiator
          then set_static_public_keys chosen own pk
          else set_static_public_keys chosen pk own)
        (public_from_private sk)

  -- `generate_ephemeral` makes the key pair of `sk`.
  unfoldable pub get_own_ephemeral_public : Dhke → List ℕ → Dhke
  get_own_ephemeral_public d sk = record d {
    own_ephemeral = sk;
    own_ephemeral_public = c.public_value sk;
  }

  unfoldable pub handshake_secret_eb : Dhke → Option (List ℕ)
  handshake_secret_eb d =
      if d.is_initiator
      then shared d.own_ephemeral d.peer_static
      else shared d.own_static d.peer_ephemeral

  unfoldable pub handshake_secret_ab : Dhke → Option (List ℕ)
  handshake_secret_ab d = shared d.own_static d.peer_static

  unfoldable pub handshake_secret_ef : Dhke → Option (List ℕ)
  handshake_secret_ef d = shared d.own_ephemeral d.peer_ephemeral

  unfoldable pub handshake_secret_af : Dhke → Option (List ℕ)
  handshake_secret_af d =
      if d.is_initiator
      then shared d.own_static d.peer_ephemeral
      else shared d.own_ephemeral d.peer_static

  unfoldable pub handshake_secrets : Dhke → Option HandshakeSecrets
  handshake_secrets d = do
    eb ← handshake_secret_eb d
    ab ← handshake_secret_ab d
    ef ← handshake_secret_ef d
    af ← handshake_secret_af d
    some (record { eb = eb; ab = ab; ef = ef; af = af })

  unfoldable pub noise_hkdf2 : List ℕ → List ℕ → List ℕ × List ℕ
  noise_hkdf2 chaining_key input =
      let temp_key = c.hmac_sha256 chaining_key input in
      let output1 = c.hmac_sha256 temp_key (1 ∷ []) in
      (output1, c.hmac_sha256 temp_key (output1 ++ 2 ∷ []))

  abbrev pub noise_mix_key : List ℕ → List ℕ → List ℕ
  noise_mix_key chaining_key input = (noise_hkdf2 chaining_key input).0

  abbrev pub hash_concat : List ℕ → List ℕ → List ℕ
  hash_concat left right = c.sha256 (left ++ right)

  unfoldable pub derive_subkey : List ℕ → ℕ → ℕ → ℕ → Option (List ℕ)
  unfolding truncate_key
  derive_subkey parent label algorithm size =
      if size == 0
      then some []
      else truncate_key (noise_hkdf2 parent (label ∷ algorithm ∷ [])).0 size

  -- The key of the initiator's direction, and the key of the responder's.
  unfoldable pub split_traffic_keys : Dhke → Option (List ℕ × List ℕ)
  split_traffic_keys d =
      let named = c.sha256 k_protocol_name in
      let start =
        hash_concat (hash_concat named d.initiator_static_public) d.responder_static_public in
      Option.map
        (λ s.
          noise_hkdf2
            (noise_mix_key (noise_mix_key (noise_mix_key (noise_mix_key start s.eb) s.ab) s.ef)
              s.af)
            [])
        (handshake_secrets d)

  unfoldable pub send_traffic_key : Dhke → Option (List ℕ)
  send_traffic_key d =
      Option.map (λ keys. if d.is_initiator then keys.0 else keys.1) (split_traffic_keys d)

  unfoldable pub receive_traffic_key : Dhke → Option (List ℕ)
  receive_traffic_key d =
      Option.map (λ keys. if d.is_initiator then keys.1 else keys.0) (split_traffic_keys d)

  unfoldable pub derive_integrity_key : Dhke → ℕ → Option (List ℕ)
  derive_integrity_key d algorithm = do
    key ← send_traffic_key d
    derive_subkey key k_label_integrity algorithm (integrity_key_size algorithm)

  unfoldable pub derive_confidentiality_key : Dhke → ℕ → Option (List ℕ)
  derive_confidentiality_key d algorithm = do
    key ← send_traffic_key d
    derive_subkey key k_label_confidentiality algorithm (confidentiality_key_size algorithm)

  unfoldable pub derive_receive_integrity_key : Dhke → ℕ → Option (List ℕ)
  derive_receive_integrity_key d algorithm = do
    key ← receive_traffic_key d
    derive_subkey key k_label_integrity algorithm (integrity_key_size algorithm)

  unfoldable pub derive_receive_confidentiality_key : Dhke → ℕ → Option (List ℕ)
  derive_receive_confidentiality_key d algorithm = do
    key ← receive_traffic_key d
    derive_subkey key k_label_confidentiality algorithm (confidentiality_key_size algorithm)
