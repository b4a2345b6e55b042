-- ===== src/Dh/Examples.antt =====
-- dh.cpp: tests on concrete keys.
use bfc_tunnel.Base.{
  ℕ, ◌+◌, ◌≡◌, ◌≢◌, refl, ap, some, none, true, false, List, [], arith, replicate, length, get_or,
}
use bfc_tunnel.Frame.Algorithms.{integrity_key_size, confidentiality_key_size, ea_hmac_sha2_512}
use bfc_tunnel.Dh.{
  Curve, Dhke, HandshakeSecrets, shared, setup_handshake, public_from_private, handshake_secrets,
  handshake_secret_eb, handshake_secret_ab, handshake_secret_ef, handshake_secret_af,
  derive_integrity_key, derive_confidentiality_key,
}
use bfc_tunnel.Dh.Agreement.{IsLawful, Agreed, after_exchange, handshake-Agreed, derive_key-sizes}

-- Primitives that do no more than obey the laws.
abbrev pub plain_curve : Curve
plain_curve = record {
  sha256 = λ bytes. replicate 32 (get_or bytes 0 0);
  hmac_sha256 = λ key bytes. replicate 32 (length bytes);
  public_value = λ sk. sk;
  agree = λ sk pk. some (replicate 32 (get_or sk 0 0 + get_or pk 0 0));
}

pub plain_curve-IsLawful : IsLawful plain_curve
plain_curve-IsLawful = record {
  public_size = λ sk h. h;
  hmac_size = λ key bytes. refl;
  commutes = λ x y hx hy.
      let e : get_or x 0 0 + get_or y 0 0 ≡ get_or y 0 0 + get_or x 0 0 = omega arith in
      ap (λ n. some (replicate 32 n)) e;
}

abbrev blank : Dhke
blank = record {
  own_static = [];
  peer_static = [];
  initiator_static_public = [];
  responder_static_public = [];
  own_ephemeral = [];
  own_ephemeral_public = [];
  peer_ephemeral = [];
  is_initiator = false;
}

abbrev pub key_a : List ℕ
key_a = replicate 32 1

abbrev pub key_b : List ℕ
key_b = replicate 32 2

abbrev pub key_e : List ℕ
key_e = replicate 32 3

abbrev pub key_f : List ℕ
key_f = replicate 32 4

abbrev initiator : Dhke
initiator = record blank {
  own_static = key_a;
  peer_static = key_b;
  initiator_static_public = key_a;
  responder_static_public = key_b;
  is_initiator = true;
}

abbrev responder : Dhke
responder = record blank {
  own_static = key_b;
  peer_static = key_a;
  initiator_static_public = key_a;
  responder_static_public = key_b;
}

set_up_initiator : setup_handshake plain_curve blank key_a key_b true ≡ some initiator
unfolding setup_handshake public_from_private
set_up_initiator = refl

set_up_responder : setup_handshake plain_curve blank key_b key_a false ≡ some responder
unfolding setup_handshake public_from_private
set_up_responder = refl

handshake-Agreed_example :
    Agreed plain_curve
      (after_exchange plain_curve initiator key_e key_f)
      (after_exchange plain_curve responder key_f key_e)
      2
handshake-Agreed_example =
    handshake-Agreed plain_curve plain_curve-IsLawful blank blank initiator responder key_a key_b
      key_e key_f 2 set_up_initiator set_up_responder refl refl

abbrev exchanged : Dhke
exchanged = record initiator {
  own_ephemeral = key_e;
  own_ephemeral_public = key_e;
  peer_ephemeral = key_f;
}

abbrev secrets : HandshakeSecrets
secrets = record {
  eb = replicate 32 5;
  ab = replicate 32 3;
  ef = replicate 32 7;
  af = replicate 32 5;
}

secrets_exist : handshake_secrets plain_curve exchanged ≡ some secrets
unfolding handshake_secrets handshake_secret_eb handshake_secret_ab handshake_secret_ef
    handshake_secret_af shared
secrets_exist = refl

derive_key-sizes_example :
    ((k : List ℕ) × (derive_confidentiality_key plain_curve exchanged 1 ≡ some k)
      × (length k ≡ confidentiality_key_size 1))
    × ((◌≢◌ {A = ℕ} 1 ea_hmac_sha2_512)
        → (k : List ℕ) × (derive_integrity_key plain_curve exchanged 1 ≡ some k)
          × (length k ≡ integrity_key_size 1))
    × ((◌≡◌ {A = ℕ} 1 ea_hmac_sha2_512) → derive_integrity_key plain_curve exchanged 1 ≡ none)
derive_key-sizes_example =
    derive_key-sizes plain_curve plain_curve-IsLawful exchanged secrets 1 secrets_exist
