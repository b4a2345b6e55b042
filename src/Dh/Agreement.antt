-- ===== src/Dh/Agreement.antt =====
-- dh.cpp: both sides of a handshake derive the same keys.
use bfc_tunnel.Base.{
  ℕ, ◌≡◌, ◌≢◌, ◌≤◌, refl, true, false, none, some, List, [], arith, length, length-take, take, ◌<◌,
  ◌∷◌, Bool, if◌then◌else◌, ◌==◌, Bool-cases, inl, inr,
}
use bfc_tunnel.Frame.Algorithms.{integrity_key_size, confidentiality_key_size, ea_hmac_sha2_512}
use bfc_tunnel.Dh.{
  Curve, Dhke, HandshakeSecrets, shared, setup_handshake, public_from_private,
  get_own_ephemeral_public, set_peer_ephemeral_public, handshake_secrets, handshake_secret_eb,
  handshake_secret_ab, handshake_secret_ef, handshake_secret_af, split_traffic_keys,
  send_traffic_key, receive_traffic_key, derive_integrity_key, derive_confidentiality_key,
  derive_receive_integrity_key, derive_receive_confidentiality_key, derive_subkey, noise_hkdf2,
  truncate_key,
}

-- What the primitives are documented to do: keys and MACs have 32 bytes, and X25519 gives both
-- sides of an exchange the same answer.
pub record IsLawful (c : Curve) : Type 0 where
  pub public_size : (sk : List ℕ) → length sk ≡ 32 → length (c.public_value sk) ≡ 32
  pub hmac_size : (key bytes : List ℕ) → length (c.hmac_sha256 key bytes) ≡ 32
  pub commutes :
      (x y : List ℕ)
      → length x ≡ 32
      → length y ≡ 32
      → c.agree x (c.public_value y) ≡ c.agree y (c.public_value x)

module _ (c : Curve) where
  -- A side that knows its own ephemeral key and the public key of the other's.
  abbrev pub after_exchange : Dhke → List ℕ → List ℕ → Dhke
  after_exchange s own peer =
      set_peer_ephemeral_public (get_own_ephemeral_public c s own) (c.public_value peer)

  -- Each direction's keys, of both kinds.
  abbrev pub Agreed : Dhke → Dhke → ℕ → Type 0
  Agreed i r algorithm =
      (derive_integrity_key c i algorithm ≡ derive_receive_integrity_key c r algorithm)
      × (derive_integrity_key c r algorithm ≡ derive_receive_integrity_key c i algorithm)
      × (derive_confidentiality_key c i algorithm
          ≡ derive_receive_confidentiality_key c r algorithm)
      × (derive_confidentiality_key c r algorithm
          ≡ derive_receive_confidentiality_key c i algorithm)

module _ (c : Curve) (lawful : IsLawful c) where
  shared-commutes :
      (x y : List ℕ)
      → length x ≡ 32
      → length y ≡ 32
      → shared c x (c.public_value y) ≡ shared c y (c.public_value x)
  unfolding shared
  shared-commutes x y ex ey =
      ground (arith, lawful.public_size x ex, lawful.public_size y ey, lawful.commutes x y ex ey)

  -- A side after the exchange of the ephemeral public keys.
  abbrev side : Bool → List ℕ → List ℕ → List ℕ → List ℕ → Dhke
  side initiator own peer own_ephemeral peer_ephemeral = record {
    own_static = own;
    peer_static = c.public_value peer;
    initiator_static_public = if initiator then c.public_value own else c.public_value peer;
    responder_static_public = if initiator then c.public_value peer else c.public_value own;
    own_ephemeral = own_ephemeral;
    own_ephemeral_public = c.public_value own_ephemeral;
    peer_ephemeral = c.public_value peer_ephemeral;
    is_initiator = initiator;
  }

  setup_handshake_cases :
      (d s : Dhke) (own peer own_ephemeral peer_ephemeral : List ℕ) (initiator : Bool)
      → setup_handshake c d own (c.public_value peer) initiator ≡ some s
      → (length own ≡ 32)
        × (after_exchange c s own_ephemeral peer_ephemeral
            ≡ side initiator own peer own_ephemeral peer_ephemeral)
  unfolding setup_handshake public_from_private get_own_ephemeral_public
  setup_handshake_cases d s own peer own_ephemeral peer_ephemeral true h =
      (ground arith, ground arith)
  setup_handshake_cases d s own peer own_ephemeral peer_ephemeral false h =
      (ground arith, ground arith)

  same_secrets :
      (a b e f : List ℕ)
      → (length a ≡ 32) × (length b ≡ 32) × (length e ≡ 32) × (length f ≡ 32)
      → split_traffic_keys c (side true a b e f) ≡ split_traffic_keys c (side false b a f e)
  unfolding split_traffic_keys handshake_secrets handshake_secret_eb handshake_secret_ab
      handshake_secret_ef handshake_secret_af
  same_secrets a b e f (ea, eb, ee, ef) =
      rw
        (
          shared-commutes e b ee eb,
          shared-commutes a b ea eb,
          shared-commutes e f ee ef,
          shared-commutes a f ea ef,
        )
        refl

  sides-Agreed :
      (a b e f : List ℕ) (algorithm : ℕ)
      → (length a ≡ 32) × (length b ≡ 32) × (length e ≡ 32) × (length f ≡ 32)
      → Agreed c (side true a b e f) (side false b a f e) algorithm
  unfolding derive_integrity_key derive_receive_integrity_key derive_confidentiality_key
      derive_receive_confidentiality_key send_traffic_key receive_traffic_key
  sides-Agreed a b e f algorithm sizes = rw (same_secrets a b e f sizes) (refl, refl, refl, refl)

  -- With primitives that behave as documented: two nodes set up a handshake, each with its own
  -- static private key and the public key of the other's, one as the initiator, and exchange the
  -- public keys of fresh ephemeral keys of 32 bytes. Then for every algorithm the keys that each
  -- derives for sending are the keys that the other derives for receiving, in both directions,
  -- and where one throws so does the other.
  pub handshake-Agreed :
      (d d' i r : Dhke) (a b e f : List ℕ) (algorithm : ℕ)
      → setup_handshake c d a (c.public_value b) true ≡ some i
      → setup_handshake c d' b (c.public_value a) false ≡ some r
      → length e ≡ 32
      → length f ≡ 32
      → Agreed c (after_exchange c i e f) (after_exchange c r f e) algorithm
  handshake-Agreed d d' i r a b e f algorithm hi hr he hf =
      let (ea, ei) = setup_handshake_cases d i a b e f true hi in
      let (eb, er) = setup_handshake_cases d' r b a f e false hr in
      rw (ei, er) (sides-Agreed a b e f algorithm (ea, eb, he, hf))

  length-derive_subkey :
      (parent : List ℕ) (label algorithm size : ℕ)
      → ((size ≤ 32)
          → (k : List ℕ) × (derive_subkey c parent label algorithm size ≡ some k)
            × (length k ≡ size))
        × ((32 < size) → derive_subkey c parent label algorithm size ≡ none)
  unfolding derive_subkey noise_hkdf2 truncate_key
  length-derive_subkey parent label algorithm size = elim (Bool-cases (size == 0)) [
    | inl none_wanted ↦ (λ h. ([], ground arith, ground arith), λ h. absurd (ground arith))
    | inr some_wanted ↦
        let key = (noise_hkdf2 c parent (label ∷ algorithm ∷ [])).0 in
        let long : length key ≡ 32 = lawful.hmac_size _ _ in
        (λ h. (take size key, ground arith, omega (arith, length-take size key)), λ h. ground arith)
  ]

  split-some :
      (d : Dhke) (s : HandshakeSecrets)
      → handshake_secrets c d ≡ some s
      → (keys : List ℕ × List ℕ) × (split_traffic_keys c d ≡ some keys)
  unfolding split_traffic_keys
  split-some d s h = rw h (_, refl)

  integrity_key_size-bound :
      (algorithm : ℕ)
      → ((algorithm ≢ ea_hmac_sha2_512) → integrity_key_size algorithm ≤ 32)
        × ((algorithm ≡ ea_hmac_sha2_512) → 32 < integrity_key_size algorithm)
  unfolding integrity_key_size
  integrity_key_size-bound algorithm = ground arith

  confidentiality_key_size-bound : (algorithm : ℕ) → confidentiality_key_size algorithm ≤ 32
  unfolding confidentiality_key_size
  confidentiality_key_size-bound algorithm = ground arith

  -- With primitives that behave as documented: where the four secrets of a handshake exist, a
  -- confidentiality key of exactly the algorithm's size is derived for every algorithm, and so is
  -- an integrity key for every algorithm but HMAC-SHA2-512. For that one the derivation always
  -- throws, since it wants 64 bytes of 32.
  pub derive_key-sizes :
      (d : Dhke) (s : HandshakeSecrets) (algorithm : ℕ)
      → handshake_secrets c d ≡ some s
      → ((k : List ℕ) × (derive_confidentiality_key c d algorithm ≡ some k)
          × (length k ≡ confidentiality_key_size algorithm))
        × ((algorithm ≢ ea_hmac_sha2_512)
            → (k : List ℕ) × (derive_integrity_key c d algorithm ≡ some k)
              × (length k ≡ integrity_key_size algorithm))
        × ((algorithm ≡ ea_hmac_sha2_512) → derive_integrity_key c d algorithm ≡ none)
  unfolding derive_integrity_key derive_confidentiality_key send_traffic_key
  derive_key-sizes d s algorithm h =
      let (keys, split) = split-some d s h in
      let key = if d.is_initiator then keys.0 else keys.1 in
      let size = integrity_key_size-bound algorithm in
      let integrity = length-derive_subkey key 1 algorithm (integrity_key_size algorithm) in
      rw split (
        (length-derive_subkey key 2 algorithm (confidentiality_key_size algorithm)).0
            (confidentiality_key_size-bound algorithm),
        λ other. integrity.0 (size.0 other),
        λ same. integrity.1 (size.1 same),
      )
