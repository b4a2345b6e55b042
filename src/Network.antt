-- ===== src/Network.antt =====
-- src/bfc_tunnel/node.cpp: the network keys of a node, one context for each security context number,
-- and the frames that are accepted under them.
-- The clock is an argument that stands still during one call. The pending timers of the reactor are
-- a list; `fresh` is the number that its `wait_ms` gives the next one.
pub mod Keyed
pub mod Preference
pub mod CreationId
pub mod Install
pub mod Expire
pub mod Convergence
pub mod Replay
pub mod Select
mod Examples
use bfc_tunnel.Base.{
  ℕ, zero, suc, ◌+◌, ◌-◌, ◌*◌, ◌%◌, ◌^◌, max, Bool, true, false, not, ◌&&◌, Option, none, some,
  List, [], ◌∷◌, ◌++◌, map, ltb, leb, ◌==◌, if◌then◌else◌, length,
}
use bfc_tunnel.Frame.{Frame, get_sec_ctx, get_sn, get_src}
use bfc_tunnel.Security.{Primitives, accept_frame}

pub record NetworkKey : Type 0 where
  pub sec_ctx : ℕ
  pub priority : ℕ
  pub expiration_time_s : ℕ
  pub integrity_algorithm : ℕ
  pub integrity_key : List ℕ
  pub confidentiality_algorithm : ℕ
  pub confidentiality_key : List ℕ

pub record NetworkKeyCtx : Type 0 where
  pub sec_ctx : ℕ
  pub priority : ℕ
  pub expiration_time_s : ℕ
  pub creation_id : ℕ
  pub integrity_algorithm : ℕ
  pub integrity_key : List ℕ
  pub confidentiality_algorithm : ℕ
  pub confidentiality_key : List ℕ
  pub integrity_success : ℕ
  pub integrity_failure : ℕ
  pub expiration_timer_id : ℕ
  pub last_rx_sn_by_src : List (ℕ × ℕ)

-- A timer of `wait_ms` that calls `network_expire_key(sec_ctx, creation_id)`.
pub record Timer : Type 0 where
  pub timer_id : ℕ
  pub delay_ms : ℕ
  pub sec_ctx : ℕ
  pub creation_id : ℕ

pub record Network : Type 0 where
  pub contexts : List NetworkKeyCtx
  pub timers : List Timer

-- `std::find_if`.
unfoldable pub find_if {ℓ} : {A : Type ℓ} → (A → Bool) → List A → Option A
find_if p [] = none
find_if p (x ∷ xs) = if p x then some x else find_if p xs

-- Erasing the element that `std::find_if` finds.
unfoldable pub erase_if {ℓ} : {A : Type ℓ} → (A → Bool) → List A → List A
erase_if p [] = []
erase_if p (x ∷ xs) = if p x then xs else x ∷ erase_if p xs

-- `std::remove_if` and the erasing of its tail.
unfoldable pub remove_if {ℓ} : {A : Type ℓ} → (A → Bool) → List A → List A
remove_if p [] = []
remove_if p (x ∷ xs) = let rest = remove_if p xs in if p x then rest else x ∷ rest

-- Times are words of 64 bits.
unfoldable pub key_preference_is_better : ℕ → ℕ → ℕ → ℕ → ℕ → ℕ → Bool
key_preference_is_better candidate_priority candidate_expiration_s existing_priority
      existing_expiration_s now_s grace_period_s =
    let limit = (now_s + grace_period_s) % 2 ^ 64 in
    let existing_expiring = ltb existing_expiration_s limit in
    let candidate_expiring = ltb candidate_expiration_s limit in
    if not (if existing_expiring then candidate_expiring else not candidate_expiring)
    then not candidate_expiring
    else if not (candidate_expiration_s == existing_expiration_s)
    then ltb candidate_expiration_s existing_expiration_s
    else ltb existing_priority candidate_priority

abbrev pub in_slot : ℕ → NetworkKeyCtx → Bool
in_slot s ctx = ctx.sec_ctx == s

unfoldable pub get_network_sec_ctx : List NetworkKeyCtx → ℕ → Option NetworkKeyCtx
unfolding find_if
get_network_sec_ctx contexts s = find_if (in_slot s) contexts

unfoldable pub is_member : ℕ → List ℕ → Bool
is_member n [] = false
is_member n (x ∷ xs) = if x == n then true else is_member n xs

abbrev pub creation_ids : List NetworkKeyCtx → List ℕ
creation_ids contexts = map (λ (ctx : NetworkKeyCtx). ctx.creation_id) contexts

-- `while (used.count(id)) ++id`; the fuel is the number of used ones.
unfoldable pub first_unused : ℕ → List ℕ → ℕ → ℕ
first_unused zero used id = id
first_unused (suc fuel) used id =
    let next = first_unused fuel used (id + 1) in if is_member id used then next else id

unfoldable pub network_get_next_creation_id : List NetworkKeyCtx → ℕ
unfolding first_unused
network_get_next_creation_id contexts =
    let used = creation_ids contexts in first_unused (length used) used 0

-- `timer.cancel(id)`.
abbrev pub cancel : ℕ → List Timer → List Timer
cancel id timers = remove_if (λ (t : Timer). t.timer_id == id) timers

module _ (fresh : List Timer → ℕ) (grace now : ℕ) where
  abbrev pub context_of : NetworkKey → ℕ → ℕ → NetworkKeyCtx
  context_of key creation_id timer_id = record {
    sec_ctx = key.sec_ctx;
    priority = key.priority;
    expiration_time_s = key.expiration_time_s;
    creation_id = creation_id;
    integrity_algorithm = key.integrity_algorithm;
    integrity_key = key.integrity_key;
    confidentiality_algorithm = key.confidentiality_algorithm;
    confidentiality_key = key.confidentiality_key;
    integrity_success = 0;
    integrity_failure = 0;
    expiration_timer_id = timer_id;
    last_rx_sn_by_src = [];
  }

  -- The last part of `network_install_key`: the timer, and the new context.
  abbrev pub add_context : List NetworkKeyCtx → List Timer → NetworkKey → ℕ → Network
  add_context contexts timers key creation_id =
      let timer_id = fresh timers in
      let ttl_s = max key.expiration_time_s now - now in
      record {
        contexts = contexts ++ context_of key creation_id timer_id ∷ [];
        timers =
            record {
              timer_id = timer_id;
              delay_ms = ttl_s * 1000 % 2 ^ 64;
              sec_ctx = key.sec_ctx;
              creation_id = creation_id;
            }
            ∷ timers;
      }

  unfoldable pub network_install_key : Network → NetworkKey → Network
  unfolding get_network_sec_ctx erase_if remove_if
  network_install_key n key =
      if leb key.expiration_time_s now
      then n
      else let creation_id = network_get_next_creation_id n.contexts in
        elim (get_network_sec_ctx n.contexts key.sec_ctx) [
          | none ↦ add_context n.contexts n.timers key creation_id
          | some ctx ↦
              if not (
                key_preference_is_better key.priority key.expiration_time_s ctx.priority
                  ctx.expiration_time_s now grace)
              then n
              else add_context (erase_if (in_slot key.sec_ctx) n.contexts)
                  (cancel ctx.expiration_timer_id n.timers) key creation_id
        ]

  unfoldable pub network_install_keys : Network → List NetworkKey → Network
  unfolding network_install_key
  network_install_keys n [] = n
  network_install_keys n (key ∷ keys) = network_install_keys (network_install_key n key) keys

abbrev pub key_of : NetworkKeyCtx → NetworkKey
key_of ctx = record {
  sec_ctx = ctx.sec_ctx;
  priority = ctx.priority;
  expiration_time_s = ctx.expiration_time_s;
  integrity_algorithm = ctx.integrity_algorithm;
  integrity_key = ctx.integrity_key;
  confidentiality_algorithm = ctx.confidentiality_algorithm;
  confidentiality_key = ctx.confidentiality_key;
}

unfoldable pub network_export_keys : Network → List NetworkKey
network_export_keys n = map key_of n.contexts

-- The call of a timer that is due; the timer itself is gone.
unfoldable pub network_expire_key : Network → ℕ → ℕ → Network
unfolding remove_if
network_expire_key n s id = record n {
  contexts =
      remove_if (λ (ctx : NetworkKeyCtx). (ctx.sec_ctx == s) && (ctx.creation_id == id)) n.contexts;
}

-- `!best || ctx.expiration_time_s < best->expiration_time_s`.
abbrev pub earlier : NetworkKeyCtx → Option NetworkKeyCtx → Option NetworkKeyCtx
earlier ctx none = some ctx
earlier ctx (some old) =
    if ltb ctx.expiration_time_s old.expiration_time_s then some ctx else some old

-- The loop of `network_select_sec_ctx`, with the best context of each kind so far.
unfoldable pub select_from :
    ℕ → ℕ → List NetworkKeyCtx → Option NetworkKeyCtx → Option NetworkKeyCtx → Option NetworkKeyCtx
select_from now limit [] (some best) expiring = some best
select_from now limit [] none expiring = expiring
select_from now limit (ctx ∷ rest) best expiring =
    if leb ctx.expiration_time_s now
    then select_from now limit rest best expiring
    else if not (ltb ctx.expiration_time_s limit)
    then select_from now limit rest (earlier ctx best) expiring
    else select_from now limit rest best (earlier ctx expiring)

unfoldable pub network_select_sec_ctx : ℕ → ℕ → List NetworkKeyCtx → Option NetworkKeyCtx
unfolding select_from
network_select_sec_ctx grace now contexts =
    select_from now ((now + grace) % 2 ^ 64) contexts none none

-- `map.find(k)` and `map[k] = v`.
unfoldable pub lookup : ℕ → List (ℕ × ℕ) → Option ℕ
lookup k [] = none
lookup k (entry ∷ rest) = if entry.0 == k then some entry.1 else lookup k rest

unfoldable pub store : ℕ → ℕ → List (ℕ × ℕ) → List (ℕ × ℕ)
store k v [] = (k, v) ∷ []
store k v (entry ∷ rest) = if entry.0 == k then (k, v) ∷ rest else entry ∷ store k v rest

-- Changing the context that `get_network_sec_ctx` finds, through its pointer.
unfoldable pub update_ctx :
    ℕ → (NetworkKeyCtx → NetworkKeyCtx) → List NetworkKeyCtx → List NetworkKeyCtx
update_ctx s f [] = []
update_ctx s f (ctx ∷ rest) = if in_slot s ctx then f ctx ∷ rest else ctx ∷ update_ctx s f rest

-- The answer, the frame with its payload deciphered, the contexts, and whether
-- `network_acquire_keys` has been called.
pub record Acceptance : Type 0 where
  pub accepted : Option Frame
  pub contexts : List NetworkKeyCtx
  pub acquire : Bool

abbrev pub is_replay : NetworkKeyCtx → ℕ → ℕ → Bool
is_replay ctx src sn = elim (lookup src ctx.last_rx_sn_by_src) [
  | none ↦ false
  | some last ↦ leb sn last
]

abbrev pub count_failure : NetworkKeyCtx → NetworkKeyCtx
count_failure ctx = record ctx { integrity_failure = (ctx.integrity_failure + 1) % 2 ^ 32 }

abbrev pub count_success : ℕ → ℕ → NetworkKeyCtx → NetworkKeyCtx
count_success src sn ctx = record ctx {
  integrity_success = (ctx.integrity_success + 1) % 2 ^ 32;
  last_rx_sn_by_src = store src sn ctx.last_rx_sn_by_src;
}

unfoldable pub network_accept_rx : Primitives → List NetworkKeyCtx → Frame → Acceptance
unfolding get_network_sec_ctx lookup update_ctx store
network_accept_rx c contexts frame =
    let s = get_sec_ctx frame in
    let sn = get_sn frame in
    let src = get_src frame in
    elim (get_network_sec_ctx contexts s) [
      | none ↦ record { accepted = none; contexts = contexts; acquire = true }
      | some ctx ↦
          if is_replay ctx src sn
          then record { accepted = none; contexts = contexts; acquire = false }
          else elim (accept_frame c frame ctx.integrity_algorithm ctx.integrity_key
              ctx.confidentiality_algorithm ctx.confidentiality_key) [
                | none ↦ record {
                  accepted = none;
                  contexts = update_ctx s count_failure contexts;
                  acquire = ctx.integrity_success == 0;
                }
                | some plain ↦ record {
                  accepted = some plain;
                  contexts = update_ctx s (count_success src sn) contexts;
                  acquire = false;
                }
              ]
    ]
