-- ===== src/Frame/Algorithms.antt =====
-- frame.hpp: the algorithm numbers, and the sizes of their keys and MACs.
use bfc_tunnel.Base.{ℕ, ◌==◌, if◌then◌else◌}

-- integrity_algorithm_e
abbrev pub ea_none : ℕ
ea_none = 0

abbrev pub ea_hmac_sha2_512 : ℕ
ea_hmac_sha2_512 = 1

abbrev pub ea_hmac_sha2_256 : ℕ
ea_hmac_sha2_256 = 2

abbrev pub ea_hmac_blake3 : ℕ
ea_hmac_blake3 = 3

-- confidentiality_algorithm_e
abbrev pub ca_none : ℕ
ca_none = 0

abbrev pub ca_aes128 : ℕ
ca_aes128 = 1

abbrev pub ca_aes256 : ℕ
ca_aes256 = 2

abbrev pub ca_chacha20 : ℕ
ca_chacha20 = 3

unfoldable pub integrity_mac_size : ℕ → ℕ
integrity_mac_size int_algo =
    if int_algo == ea_none
    then 0
    else if int_algo == ea_hmac_sha2_512
    then 64
    else if int_algo == ea_hmac_sha2_256
    then 32
    else if int_algo == ea_hmac_blake3
    then 64
    else 0

unfoldable pub integrity_key_size : ℕ → ℕ
integrity_key_size int_algo =
    if int_algo == ea_none
    then 0
    else if int_algo == ea_hmac_sha2_512
    then 64
    else if int_algo == ea_hmac_sha2_256
    then 32
    else if int_algo == ea_hmac_blake3
    then 32
    else 0

unfoldable pub confidentiality_key_size : ℕ → ℕ
confidentiality_key_size conf_algo =
    if conf_algo == ca_none
    then 0
    else if conf_algo == ca_aes128
    then 16
    else if conf_algo == ca_aes256
    then 32
    else if conf_algo == ca_chacha20
    then 32
    else 0
