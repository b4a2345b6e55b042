-- ===== src/Console/Names.antt =====
-- codec.hpp: the names of algorithms and of key types. A number without a name is printed as such.
use bfc_tunnel.Base.{ℕ, Option, none, some, List, [], ◌∷◌, ◌==◌, if◌then◌else◌}
use bfc_tunnel.Frame.Algorithms.{
  ea_none, ea_hmac_sha2_512, ea_hmac_sha2_256, ea_hmac_blake3, ca_none, ca_aes128, ca_aes256,
  ca_chacha20,
}
use bfc_tunnel.Console.Text.{Bytes, codes, text_eq, to_string}
pub mod RoundTrip

abbrev pub dhkt_none : ℕ
dhkt_none = 0

abbrev pub dhkt_x25519 : ℕ
dhkt_x25519 = 1

abbrev pub dhkt_secp256r1 : ℕ
dhkt_secp256r1 = 2

abbrev pub dhkt_curve448 : ℕ
dhkt_curve448 = 3

unfoldable pub parse_integrity_algo : Bytes → Option ℕ
unfolding text_eq
parse_integrity_algo s =
    if text_eq s (codes "NONE")
    then some ea_none
    else if text_eq s (codes "HMAC_SHA2_512")
    then some ea_hmac_sha2_512
    else if text_eq s (codes "HMAC_SHA2_256")
    then some ea_hmac_sha2_256
    else if text_eq s (codes "HMAC_BLAKE3")
    then some ea_hmac_blake3
    else none

unfoldable pub format_integrity_algo : ℕ → Bytes
unfolding to_string
format_integrity_algo v =
    if v == ea_none
    then codes "NONE"
    else if v == ea_hmac_sha2_512
    then codes "HMAC_SHA2_512"
    else if v == ea_hmac_sha2_256
    then codes "HMAC_SHA2_256"
    else if v == ea_hmac_blake3
    then codes "HMAC_BLAKE3"
    else to_string v

unfoldable pub parse_conf_algo : Bytes → Option ℕ
unfolding text_eq
parse_conf_algo s =
    if text_eq s (codes "NONE")
    then some ca_none
    else if text_eq s (codes "AES128")
    then some ca_aes128
    else if text_eq s (codes "AES256")
    then some ca_aes256
    else if text_eq s (codes "CHACHA20")
    then some ca_chacha20
    else none

unfoldable pub format_conf_algo : ℕ → Bytes
unfolding to_string
format_conf_algo v =
    if v == ca_none
    then codes "NONE"
    else if v == ca_aes128
    then codes "AES128"
    else if v == ca_aes256
    then codes "AES256"
    else if v == ca_chacha20
    then codes "CHACHA20"
    else to_string v

unfoldable pub parse_dhke : Bytes → Option ℕ
unfolding text_eq
parse_dhke s =
    if text_eq s (codes "NONE")
    then some dhkt_none
    else if text_eq s (codes "X25519")
    then some dhkt_x25519
    else if text_eq s (codes "SECP256R1")
    then some dhkt_secp256r1
    else if text_eq s (codes "CURVE448")
    then some dhkt_curve448
    else none

unfoldable pub format_dhke : ℕ → Bytes
unfolding to_string
format_dhke v =
    if v == dhkt_none
    then codes "NONE"
    else if v == dhkt_x25519
    then codes "X25519"
    else if v == dhkt_secp256r1
    then codes "SECP256R1"
    else if v == dhkt_curve448
    then codes "CURVE448"
    else to_string v
