-- ===== src/Network/Examples.antt =====
-- node.cpp: tests on concrete contexts, keys and frames.
use bfc_tunnel.Network.Select.{AsGood, network_select_sec_ctx_best}
use bfc_tunnel.Network.{network_select_sec_ctx}
use bfc_tunnel.Base.{◌%◌, ◌^◌, All}
use bfc_tunnel.Base.{
  ℕ, ◌≡◌, ◌≢◌, ◌⊎◌, ◌≤◌, ◌<◌, ◌+◌, refl, max, true, false, some, none, List, [], ◌∷◌, arith, length,
  replicate,
}
use mathlib.Core.List.Permᴰ.{swap}
use mathlib.Core.Path.{subst}
use bfc_tunnel.Frame.{Frame, frame_at, get_sec_ctx, get_size, get_payload_size, get_bits}
use bfc_tunnel.Security.{Primitives, accept_frame, verify_frame_mac, cipher_frame_payload}
use bfc_tunnel.Network.{
  NetworkKey, NetworkKeyCtx, Timer, Network, is_member, in_slot, erase_if, find_if, lookup,
  creation_ids, first_unused, key_preference_is_better, get_network_sec_ctx,
  network_get_next_creation_id, network_install_key, network_install_keys, network_expire_key,
  network_accept_rx, context_of, cancel,
}
use bfc_tunnel.Network.CreationId.{network_get_next_creation_id_least}
use bfc_tunnel.Network.Install.{IsValid, IsFresh, timer_ids, network_install_keys-IsValid}
use bfc_tunnel.Network.Convergence.{held, network_install_keys-converges}
use bfc_tunnel.Network.Expire.{network_expire_key-own, network_expire_key-stale}
use bfc_tunnel.Network.Replay.{receive_all, network_accept_rx-no_replay}

-- A number above those of all pending timers.
abbrev above : List Timer → ℕ
above [] = 0
above (t ∷ rest) = max (t.timer_id + 1) (above rest)

above-absent :
    (id : ℕ) (timers : List Timer) → above timers ≤ id → is_member id (timer_ids timers) ≡ false
unfolding is_member
above-absent id [] h = refl
above-absent id (t ∷ rest) h = ground (arith, above-absent id rest)

above-IsFresh : IsFresh above
above-IsFresh timers = above-absent (above timers) timers (omega arith)

abbrev empty : Network
empty = record { contexts = []; timers = [] }

empty-IsValid : IsValid empty
empty-IsValid = record { one_per_slot = tt; ids_differ = tt; timers_differ = tt; expires = tt }

abbrev test_key : ℕ → ℕ → ℕ → NetworkKey
test_key slot priority expiration = record {
  sec_ctx = slot;
  priority = priority;
  expiration_time_s = expiration;
  integrity_algorithm = 0;
  integrity_key = [];
  confidentiality_algorithm = 0;
  confidentiality_key = [];
}

-- At 100 with a grace period of 10, the second of these is preferred in slot 1.
abbrev first_key : NetworkKey
first_key = test_key 1 5 300

abbrev second_key : NetworkKey
second_key = test_key 1 7 200

network_install_keys-converges_example :
    held 1 (network_install_keys above 10 100 empty (first_key ∷ second_key ∷ [])).contexts
    ≡ held 1 (network_install_keys above 10 100 empty (second_key ∷ first_key ∷ [])).contexts
network_install_keys-converges_example =
    network_install_keys-converges above 10 100 1 empty empty (first_key ∷ second_key ∷ [])
      (second_key ∷ first_key ∷ []) above-IsFresh empty-IsValid empty-IsValid refl (swap refl refl)

network_install_keys-IsValid_example :
    IsValid (network_install_keys above 10 100 empty (first_key ∷ second_key ∷ []))
network_install_keys-IsValid_example =
    network_install_keys-IsValid above above-IsFresh 10 100 empty (first_key ∷ second_key ∷ [])
      empty-IsValid

abbrev first_context : NetworkKeyCtx
first_context = context_of above 10 100 first_key 0 0

-- Slot 1 holds the first key, and slot 2 another.
abbrev other_context : NetworkKeyCtx
other_context = context_of above 10 100 (test_key 2 1 400) 1 1

abbrev two_slots : Network
two_slots = record {
  contexts = first_context ∷ other_context ∷ [];
  timers =
      record { timer_id = 1; delay_ms = 300000; sec_ctx = 2; creation_id = 1 }
      ∷ record { timer_id = 0; delay_ms = 200000; sec_ctx = 1; creation_id = 0 }
      ∷ [];
}

two_slots-IsValid : IsValid two_slots
two_slots-IsValid = subst IsValid made valid
  where
    valid : IsValid (network_install_keys above 10 100 empty (first_key ∷ test_key 2 1 400 ∷ []))
    valid =
        network_install_keys-IsValid above above-IsFresh 10 100 empty
          (first_key ∷ test_key 2 1 400 ∷ []) empty-IsValid

    made : network_install_keys above 10 100 empty (first_key ∷ test_key 2 1 400 ∷ []) ≡ two_slots
    made =
        unfold network_install_keys network_install_key network_get_next_creation_id first_unused
          is_member get_network_sec_ctx find_if in
        refl

found_first : get_network_sec_ctx two_slots.contexts 1 ≡ some first_context
unfolding get_network_sec_ctx find_if
found_first = refl

network_expire_key-own_example :
    ((network_expire_key two_slots 1 0).contexts ≡ erase_if (in_slot 1) two_slots.contexts)
    × (get_network_sec_ctx (network_expire_key two_slots 1 0).contexts 1 ≡ none)
    × ((t : ℕ)
        → 1 ≢ t
        → get_network_sec_ctx (network_expire_key two_slots 1 0).contexts t
          ≡ get_network_sec_ctx two_slots.contexts t)
network_expire_key-own_example =
    network_expire_key-own two_slots 1 first_context two_slots-IsValid found_first

network_expire_key-stale_example :
    let m = network_install_key above 10 100 two_slots second_key in
    (get_network_sec_ctx m.contexts 1
      ≡ some (
          context_of above 10 100 second_key
            (network_get_next_creation_id two_slots.contexts)
            (above (cancel 0 two_slots.timers))))
    × (network_expire_key m 1 0 ≡ m)
network_expire_key-stale_example =
    network_expire_key-stale above 10 100 two_slots second_key first_context above-IsFresh
      two_slots-IsValid (omega arith) found_first (unfold key_preference_is_better in refl)

network_get_next_creation_id_least_example :
    (is_member (network_get_next_creation_id two_slots.contexts) (creation_ids two_slots.contexts)
      ≡ false)
    × (network_get_next_creation_id two_slots.contexts ≤ length two_slots.contexts)
    × ((j : ℕ)
        → j < network_get_next_creation_id two_slots.contexts
        → is_member j (creation_ids two_slots.contexts) ≡ true)
network_get_next_creation_id_least_example = network_get_next_creation_id_least two_slots.contexts

-- A network frame of security context 1 without a MAC.
abbrev test_frame : Frame
test_frame = record {
  has_base = true;
  base = 0 ∷ 5 ∷ 16 ∷ replicate 18 1;
  max_size = 21;
  mac_size = 0;
}

abbrev no_primitives : Primitives
no_primitives = record {
  hmac_sha256 = λ key bytes. [];
  aes_block = λ algorithm key. none;
  chacha20 = λ key iv bytes. none;
}

accepted_first :
    (network_accept_rx no_primitives two_slots.contexts test_frame).accepted ≡ some test_frame
unfolding network_accept_rx get_network_sec_ctx find_if lookup accept_frame verify_frame_mac
    cipher_frame_payload get_sec_ctx get_bits frame_at get_size get_payload_size
accepted_first = refl

network_accept_rx-no_replay_example :
    let reached =
      receive_all no_primitives
        (network_accept_rx no_primitives two_slots.contexts test_frame).contexts
        (test_frame ∷ []) in
    network_accept_rx no_primitives reached test_frame
    ≡ record { accepted = none; contexts = reached; acquire = false }
network_accept_rx-no_replay_example =
    network_accept_rx-no_replay no_primitives two_slots.contexts test_frame test_frame test_frame
      (test_frame ∷ []) accepted_first refl refl (omega arith)

network_select_sec_ctx_best_example :
    ((network_select_sec_ctx 10 100 two_slots.contexts ≡ none)
      × All (λ (d : NetworkKeyCtx). d.expiration_time_s ≤ 100) two_slots.contexts)
    ⊎ ((c : NetworkKeyCtx) × (network_select_sec_ctx 10 100 two_slots.contexts ≡ some c)
        × (100 < c.expiration_time_s)
        × All (AsGood 100 ((100 + 10) % 2 ^ 64) c) two_slots.contexts)
network_select_sec_ctx_best_example = network_select_sec_ctx_best 10 100 two_slots.contexts
