-- ===== src/Network/Expire.antt =====
-- node.cpp, network_expire_key: a timer expires the context that it was made for, and no later one.
use bfc_tunnel.Base.{
  ℕ, ◌≡◌, ◌≢◌, ◌<◌, refl, ap, ◌∙◌, Bool, true, false, ◌&&◌, none, some, List, [], ◌∷◌, arith, ◌==◌,
  Bool-cases, inl, inr,
}
use mathlib.Core.Option.{some-injective}
use bfc_tunnel.Network.{
  NetworkKey, NetworkKeyCtx, Timer, Network, remove_if, erase_if, find_if, is_member, in_slot,
  creation_ids, get_network_sec_ctx, network_expire_key, network_install_key, add_context,
  context_of, network_get_next_creation_id, key_preference_is_better, cancel,
}
use bfc_tunnel.Network.Keyed.{
  Distinct, find_if-absent, erase_if-absent, find_if-erase_other, erased-unlisted, listed,
  map-append_one, is_member-append,
}
use bfc_tunnel.Network.Install.{IsValid, IsFresh, slots}
use bfc_tunnel.Network.CreationId.{network_get_next_creation_id_least}
use bfc_tunnel.Network.Convergence.{found-add_self}

abbrev made_for : ℕ → ℕ → NetworkKeyCtx → Bool
made_for s id ctx = (ctx.sec_ctx == s) && (ctx.creation_id == id)

-- No context with the creation id: nothing is removed.
remove_if-absent :
    (s id : ℕ) (contexts : List NetworkKeyCtx)
    → is_member id (creation_ids contexts) ≡ false
    → remove_if (made_for s id) contexts ≡ contexts
unfolding remove_if is_member
remove_if-absent s id [] h = refl
remove_if-absent s id (ctx ∷ rest) h = ground (arith, remove_if-absent s id rest)

-- The removal takes the found context with its creation id out, and only that one.
remove_if-found :
    (s : ℕ) (contexts : List NetworkKeyCtx) (ctx : NetworkKeyCtx)
    → Distinct (creation_ids contexts)
    → find_if (in_slot s) contexts ≡ some ctx
    → remove_if (made_for s ctx.creation_id) contexts ≡ erase_if (in_slot s) contexts
unfolding remove_if erase_if find_if is_member
remove_if-found s [] ctx d e = absurd (ground arith)
remove_if-found s (x ∷ xs) ctx d e = elim (Bool-cases (x.sec_ctx == s)) [
  | inl here ↦
      let same : x ≡ ctx = some-injective x ctx (ground (arith, e)) in
      let id : x.creation_id ≡ ctx.creation_id = ap (λ (c : NetworkKeyCtx). c.creation_id) same in
      ground (arith, id, remove_if-absent s ctx.creation_id xs (rw id at d.0))
  | inr on ↦ ground (arith, remove_if-found s xs ctx d.1 (ground (arith, e)))
]

-- With valid contexts, the timer of the context in a slot takes that context out and leaves the
-- others as they are, in their order; the slot is then empty.
pub network_expire_key-own :
    (n : Network) (s : ℕ) (ctx : NetworkKeyCtx)
    → IsValid n
    → get_network_sec_ctx n.contexts s ≡ some ctx
    → let m = network_expire_key n s ctx.creation_id in
      (m.contexts ≡ erase_if (in_slot s) n.contexts)
      × (get_network_sec_ctx m.contexts s ≡ none)
      × ((t : ℕ) → s ≢ t → get_network_sec_ctx m.contexts t ≡ get_network_sec_ctx n.contexts t)
unfolding network_expire_key get_network_sec_ctx
network_expire_key-own n s ctx v found =
    let slot = λ (c : NetworkKeyCtx). c.sec_ctx in
    let removed = remove_if-found s n.contexts ctx v.ids_differ found in
    (
      removed,
      ap (find_if (in_slot s)) removed
          ∙ find_if-absent slot s (erase_if (in_slot s) n.contexts)
              (erase_if-absent slot s n.contexts v.one_per_slot),
      λ t ne. ap (find_if (in_slot t)) removed ∙ find_if-erase_other slot t s n.contexts ne,
    )

-- A call for a creation id that no context has changes nothing.
unchanged :
    (n : Network) (s id : ℕ)
    → is_member id (creation_ids n.contexts) ≡ false
    → network_expire_key n s id ≡ n
unfolding network_expire_key
unchanged n s id h =
    ap (λ (cs : List NetworkKeyCtx). record n { contexts = cs })
      (remove_if-absent s id n.contexts h)

module _ (fresh : List Timer → ℕ) (grace now : ℕ) (n : Network) (key : NetworkKey)
    (ctx : NetworkKeyCtx) (v : IsValid n)
    (found : get_network_sec_ctx n.contexts key.sec_ctx ≡ some ctx) where
  abbrev id : ℕ
  id = network_get_next_creation_id n.contexts

  abbrev left : List NetworkKeyCtx
  left = erase_if (in_slot key.sec_ctx) n.contexts

  abbrev kept : List Timer
  kept = cancel ctx.expiration_timer_id n.timers

  slot_free : is_member key.sec_ctx (slots left) ≡ false
  slot_free =
      erase_if-absent (λ (c : NetworkKeyCtx). c.sec_ctx) key.sec_ctx n.contexts v.one_per_slot

  id_new : id ≢ ctx.creation_id
  id_new same =
      let free = (network_get_next_creation_id_least n.contexts).0 in
      let used =
        listed (λ (c : NetworkKeyCtx). c.creation_id) (in_slot key.sec_ctx) n.contexts ctx
          (unfold get_network_sec_ctx in found) in
      ground (arith, (rw same at free), used)

  id_gone :
      is_member ctx.creation_id
        (creation_ids (add_context fresh grace now left kept key id).contexts)
      ≡ false
  id_gone =
      rw
        (map-append_one (λ (c : NetworkKeyCtx). c.creation_id) left
          (context_of fresh grace now key id (fresh kept)))
        (is_member-append ctx.creation_id id (creation_ids left)
          (erased-unlisted (λ (c : NetworkKeyCtx). c.creation_id) (in_slot key.sec_ctx) n.contexts
            ctx (unfold get_network_sec_ctx in found) v.ids_differ)
          id_new)

  installed :
      now < key.expiration_time_s
      → key_preference_is_better key.priority key.expiration_time_s ctx.priority
          ctx.expiration_time_s now grace
        ≡ true
      → network_install_key fresh grace now n key ≡ add_context fresh grace now left kept key id
  unfolding network_install_key
  installed live better = ground (arith, live, found, better)

-- With valid contexts and a new number for each timer: where a key that has not expired and is
-- preferred has replaced the context in its slot, a call that the timer of the replaced context
-- still makes changes nothing: the new context has another creation id.
pub network_expire_key-stale :
    (fresh : List Timer → ℕ) (grace now : ℕ) (n : Network) (key : NetworkKey) (ctx : NetworkKeyCtx)
    → IsFresh fresh
    → IsValid n
    → now < key.expiration_time_s
    → get_network_sec_ctx n.contexts key.sec_ctx ≡ some ctx
    → key_preference_is_better key.priority key.expiration_time_s ctx.priority ctx.expiration_time_s
        now grace
      ≡ true
    → let m = network_install_key fresh grace now n key in
      (get_network_sec_ctx m.contexts key.sec_ctx
        ≡ some (
            context_of fresh grace now key
              (network_get_next_creation_id n.contexts)
              (fresh (cancel ctx.expiration_timer_id n.timers))))
      × (network_expire_key m key.sec_ctx ctx.creation_id ≡ m)
network_expire_key-stale fresh grace now n key ctx freshness v live found better =
    rw (installed fresh grace now n key ctx v found live better) (
      found-add_self fresh freshness grace now key.sec_ctx (left fresh grace now n key ctx v found)
          _ key _ (slot_free fresh grace now n key ctx v found) refl,
      unchanged _ key.sec_ctx ctx.creation_id (id_gone fresh grace now n key ctx v found),
    )
