-- ===== src/Console/Names/RoundTrip.antt =====
-- codec.hpp: which texts are read as which algorithm.
use bfc_tunnel.Base.{
  ℕ, ◌<◌, ◌≡◌, refl, Bool, true, false, Option, none, some, ◌==◌, leb, if◌then◌else◌, arith,
  all_below, all_below_sound,
}
use bfc_tunnel.Console.Text.{Bytes}
use bfc_tunnel.Console.Names.{
  parse_integrity_algo, format_integrity_algo, parse_conf_algo, format_conf_algo, parse_dhke,
  format_dhke,
}

abbrev same_option : Option ℕ → Option ℕ → Bool
same_option none none = true
same_option (some a) (some b) = a == b
same_option a b = false

same_option_sound : (a b : Option ℕ) → same_option a b ≡ true → a ≡ b
same_option_sound none none h = refl
same_option_sound (some a) (some b) h = ground arith
same_option_sound none (some b) h = absurd (ground arith)
same_option_sound (some a) none h = absurd (ground arith)

-- The values that have a name.
abbrev pub named : ℕ → Option ℕ
named v = if leb v 3 then some v else none

abbrev reads_back : (Bytes → Option ℕ) → (ℕ → Bytes) → ℕ → Bool
reads_back parse format v = same_option (parse (format v)) (named v)

all_read :
    (all_below 256 (reads_back parse_integrity_algo format_integrity_algo) ≡ true)
    × (all_below 256 (reads_back parse_conf_algo format_conf_algo) ≡ true)
    × (all_below 256 (reads_back parse_dhke format_dhke) ≡ true)
unfolding all_below parse_integrity_algo format_integrity_algo parse_conf_algo format_conf_algo
    parse_dhke format_dhke
all_read = (refl, refl, refl)

-- A printed algorithm or key type of one byte is read back, if it has a name; what is printed for
-- a byte without a name is refused.
pub parse_algo-format_algo :
    (v : ℕ)
    → v < 256
    → (parse_integrity_algo (format_integrity_algo v) ≡ named v)
      × (parse_conf_algo (format_conf_algo v) ≡ named v)
      × (parse_dhke (format_dhke v) ≡ named v)
parse_algo-format_algo v h = (
  same_option_sound _ _
      (all_below_sound 256 (reads_back parse_integrity_algo format_integrity_algo) v all_read.0 h),
  same_option_sound _ _
      (all_below_sound 256 (reads_back parse_conf_algo format_conf_algo) v all_read.1 h),
  same_option_sound _ _ (all_below_sound 256 (reads_back parse_dhke format_dhke) v all_read.2 h),
)
