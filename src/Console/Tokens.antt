-- ===== src/Console/Tokens.antt =====
-- codec.hpp: split_csv and join_csv; parser.hpp: the tokens of a line, commands, and filters.
-- A map of texts is a list of pairs, where the first one of a key counts.
pub mod Split
pub mod Matching
use bfc_tunnel.Base.{
  ℕ, Bool, true, false, not, ◌&&◌, ◌||◌, Option, none, some, List, [], ◌∷◌, ◌++◌, ◌==◌,
  if◌then◌else◌,
}
use bfc_tunnel.Console.Text.{Bytes, codes, text_eq, is_space, is_empty}

-- `if (!cur.empty()) out.push_back(cur)`.
abbrev pub push_part : Bytes → List Bytes → List Bytes
push_part [] out = out
push_part (c ∷ cur) out = out ++ (c ∷ cur) ∷ []

-- The loop of both splitting functions: parts end at a separator, and some characters are dropped.
unfoldable pub split_from : (ℕ → Bool) → (ℕ → Bool) → Bytes → Bytes → List Bytes → List Bytes
split_from ends drops [] cur out = push_part cur out
split_from ends drops (c ∷ s) cur out =
    let ended = split_from ends drops s [] (push_part cur out) in
    let kept = split_from ends drops s (cur ++ c ∷ []) out in
    let dropped = split_from ends drops s cur out in
    if ends c then ended else if drops c then dropped else kept

abbrev pub is_comma : ℕ → Bool
is_comma c = c == b','

unfoldable pub split_csv : Bytes → List Bytes
unfolding split_from is_space
split_csv s = split_from is_comma is_space s [] []

abbrev pub is_blank : ℕ → Bool
is_blank c = c == b' ' || c == 9 || c == 13

unfoldable pub split_ws : Bytes → List Bytes
unfolding split_from
split_ws line = split_from is_blank (λ c. false) line [] []

-- The parts after the first, each behind its separator.
unfoldable pub join_rest : ℕ → List Bytes → Bytes
join_rest sep [] = []
join_rest sep (p ∷ ps) = sep ∷ (p ++ join_rest sep ps)

unfoldable pub join_csv : List Bytes → Bytes
unfolding join_rest
join_csv [] = []
join_csv (p ∷ ps) = p ++ join_rest b',' ps

pub record Filter : Type 0 where
  pub include : Bool
  pub key : Bytes
  pub value : Bytes

pub record Command : Type 0 where
  pub path : Bytes
  pub verb : Bytes
  pub args : List (Bytes × Bytes)
  pub filters : List Filter
  pub bare : List Bytes

-- What stands before the first `=` and behind it.
unfoldable pub split_eq : Bytes → Option (Bytes × Bytes)
split_eq [] = none
split_eq (c ∷ s) =
    if c == b'='
    then some ([], s)
    else elim (split_eq s) [ none ↦ none | some (key, value) ↦ some (c ∷ key, value) ]

unfoldable pub find_text : Bytes → List (Bytes × Bytes) → Option Bytes
unfolding text_eq
find_text key [] = none
find_text key ((k, v) ∷ rest) = if text_eq k key then some v else find_text key rest

-- `emplace`: a key that is there keeps its value.
unfoldable pub emplace : Bytes → Bytes → List (Bytes × Bytes) → List (Bytes × Bytes)
unfolding find_text
emplace key value args = elim (find_text key args) [
  | none ↦ args ++ (key, value) ∷ []
  | some old ↦ args
]

abbrev pub drop_first : Bytes → Bytes
drop_first [] = []
drop_first (c ∷ s) = s

abbrev pub first_is : ℕ → Bytes → Bool
first_is k [] = false
first_is k (c ∷ s) = c == k

-- The loop body of `parse_command` for one token.
unfoldable pub add_token : Command → Bytes → Command
unfolding split_eq emplace
add_token cmd tok = elim (split_eq tok) [
  | none ↦ record cmd { bare = cmd.bare ++ tok ∷ [] }
  | some (key, value) ↦
      if first_is b'+' tok || first_is b'-' tok
      then record cmd {
        filters =
            cmd.filters
            ++ record { include = first_is b'+' tok; key = drop_first key; value = value } ∷ [];
      }
      else record cmd { args = emplace key value cmd.args }
]

unfoldable pub add_tokens : Command → List Bytes → Command
unfolding add_token
add_tokens cmd [] = cmd
add_tokens cmd (tok ∷ toks) = add_tokens (add_token cmd tok) toks

-- Line ends at the end are removed.
unfoldable pub trim_end : Bytes → Bytes
trim_end [] = []
trim_end (c ∷ s) =
    let rest = trim_end s in if is_empty rest && (c == 10 || c == 13) then [] else c ∷ rest

abbrev pub command : Bytes → Bytes → Command
command path verb = record { path = path; verb = verb; args = []; filters = []; bare = [] }

abbrev pub from_tokens : List Bytes → Option Command
from_tokens [] = none
from_tokens (first ∷ rest) =
    if text_eq first (codes "/stop")
    then some (command (codes "/stop") (codes "stop"))
    else elim rest [ [] ↦ none | verb ∷ toks ↦ some (add_tokens (command first verb) toks) ]

unfoldable pub parse_command : Bytes → Option Command
unfolding trim_end split_ws add_tokens text_eq
parse_command line = from_tokens (split_ws (trim_end line))

abbrev pub or_empty : Option Bytes → Bytes
or_empty none = []
or_empty (some v) = v

unfoldable pub row_matches : List (Bytes × Bytes) → List Filter → Bool
unfolding find_text text_eq
row_matches row [] = true
row_matches row (f ∷ fs) =
    let same = text_eq (or_empty (find_text f.key row)) f.value in
    if f.include && not same
    then false
    else if not f.include && same
    then false
    else row_matches row fs
