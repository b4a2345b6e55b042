-- ===== src/Network/Install.antt =====
-- node.cpp, network_install_key and network_expire_key: what stays true of the contexts and timers.
use bfc_tunnel.Base.{
  ℕ, ◌-◌, ◌*◌, ◌%◌, ◌^◌, max, ◌≤◌, ◌<◌, ◌≡◌, ◌≢◌, refl, ◌∙◌, Bool, true, false, none, some, List,
  [], ◌∷◌, map, arith, All, All-append, ◌==◌, leb, Bool-cases, Option-cases, inl, inr,
}
use bfc_tunnel.Network.{
  NetworkKey, NetworkKeyCtx, Timer, Network, find_if, erase_if, remove_if, in_slot, is_member,
  creation_ids, network_get_next_creation_id, get_network_sec_ctx, key_preference_is_better,
  context_of, add_context, network_install_key, network_install_keys, cancel,
}
use bfc_tunnel.Network.Keyed.{
  Distinct, Distinct-append, Distinct-erase_if, map-append_one, is_member-erase_if, erased-unlisted,
  find_if-absent, absent-find_if, erase_if-absent,
}
use bfc_tunnel.Network.CreationId.{network_get_next_creation_id_least}

abbrev pub slots : List NetworkKeyCtx → List ℕ
slots contexts = map (λ (ctx : NetworkKeyCtx). ctx.sec_ctx) contexts

abbrev pub timer_ids : List Timer → List ℕ
timer_ids timers = map (λ (t : Timer). t.timer_id) timers

abbrev pub context_timer_ids : List NetworkKeyCtx → List ℕ
context_timer_ids contexts = map (λ (ctx : NetworkKeyCtx). ctx.expiration_timer_id) contexts

-- The timer of a context is pending, and will expire that context.
abbrev pub HasTimer : List Timer → NetworkKeyCtx → Type 0
HasTimer timers ctx =
    (t : Timer) × (find_if (λ (u : Timer). u.timer_id == ctx.expiration_timer_id) timers ≡ some t)
    × (t.sec_ctx ≡ ctx.sec_ctx)
    × (t.creation_id ≡ ctx.creation_id)

-- No two contexts share a slot, a creation id or a timer, and each context's timer is pending.
pub record IsValid (n : Network) : Type 0 where
  pub one_per_slot : Distinct (slots n.contexts)
  pub ids_differ : Distinct (creation_ids n.contexts)
  pub timers_differ : Distinct (context_timer_ids n.contexts)
  pub expires : All (HasTimer n.timers) n.contexts

-- `wait_ms` gives a number that no pending timer has.
abbrev pub IsFresh : (List Timer → ℕ) → Type 0
IsFresh fresh = (timers : List Timer) → is_member (fresh timers) (timer_ids timers) ≡ false

All-erase_if {ℓ} :
    {A : Type ℓ} (P : A → Type 0) (p : A → Bool) (xs : List A) → All P xs → All P (erase_if p xs)
unfolding erase_if
All-erase_if P p [] h = tt
All-erase_if P p (x ∷ xs) h = elim (Bool-cases (p x)) [
  | inl gone ↦ rw gone h.1
  | inr kept ↦ rw kept (h.0, All-erase_if P p xs h.1)
]

-- A timer that is not cancelled is still found.
find_if-cancel :
    (id other : ℕ) (timers : List Timer)
    → id ≢ other
    → find_if (λ (u : Timer). u.timer_id == other) (cancel id timers)
      ≡ find_if (λ (u : Timer). u.timer_id == other) timers
unfolding find_if remove_if
find_if-cancel id other [] ne = refl
find_if-cancel id other (t ∷ rest) ne = ground (arith, find_if-cancel id other rest ne)

HasTimer-absent :
    (timers : List Timer) (contexts : List NetworkKeyCtx) (id : ℕ)
    → All (HasTimer timers) contexts
    → is_member id (timer_ids timers) ≡ false
    → is_member id (context_timer_ids contexts) ≡ false
unfolding is_member
HasTimer-absent timers [] id h free = refl
HasTimer-absent timers (ctx ∷ rest) id h free = elim (Bool-cases (ctx.expiration_timer_id == id)) [
  | inl same ↦
      let (t, found, slot, made) = h.0 in
      let e : ctx.expiration_timer_id ≡ id = ground arith in
      let none_found = find_if-absent (λ (u : Timer). u.timer_id) id timers free in
      absurd (ground (arith, (rw e at found), none_found))
  | inr other ↦ ground (arith, HasTimer-absent timers rest id h.1 free)
]

HasTimer-cons :
    (u : Timer) (timers : List Timer) (contexts : List NetworkKeyCtx)
    → All (HasTimer timers) contexts
    → is_member u.timer_id (timer_ids timers) ≡ false
    → All (HasTimer (u ∷ timers)) contexts
HasTimer-cons u timers [] h fresh = tt
HasTimer-cons u timers (ctx ∷ rest) h fresh =
    let (t, found, slot, made) = h.0 in
    let other = (HasTimer-absent timers (ctx ∷ rest) u.timer_id h fresh) in
    (
      (t, unfold find_if is_member in (ground (arith, other, found)), slot, made),
      HasTimer-cons u timers rest h.1 fresh,
    )

HasTimer-cancel :
    (id : ℕ) (timers : List Timer) (contexts : List NetworkKeyCtx)
    → All (HasTimer timers) contexts
    → is_member id (context_timer_ids contexts) ≡ false
    → All (HasTimer (cancel id timers)) contexts
HasTimer-cancel id timers [] h free = tt
HasTimer-cancel id timers (ctx ∷ rest) h free =
    let (t, found, slot, made) = h.0 in
    let ne : id ≢ ctx.expiration_timer_id = unfold is_member in (ground arith) in
    (
      (t, find_if-cancel id ctx.expiration_timer_id timers ne ∙ found, slot, made),
      HasTimer-cancel id timers rest h.1 (unfold is_member in (ground arith)),
    )

module _ (fresh : List Timer → ℕ) (freshness : IsFresh fresh) (grace now : ℕ) where
  add_context-IsValid :
      (contexts : List NetworkKeyCtx) (timers : List Timer) (key : NetworkKey) (id : ℕ)
      → IsValid (record { contexts = contexts; timers = timers })
      → is_member key.sec_ctx (slots contexts) ≡ false
      → is_member id (creation_ids contexts) ≡ false
      → IsValid (add_context fresh grace now contexts timers key id)
  add_context-IsValid contexts timers key id v slot_free id_free =
      let ctx = context_of fresh grace now key id (fresh timers) in
      let timer : Timer = record {
        timer_id = fresh timers;
        delay_ms = (max key.expiration_time_s now - now) * 1000 % 2 ^ 64;
        sec_ctx = key.sec_ctx;
        creation_id = id;
      } in
      let added = λ (k : NetworkKeyCtx → ℕ). map-append_one k contexts ctx in
      let timer_free =
        HasTimer-absent timers contexts (fresh timers) v.expires (freshness timers) in
      record {
        one_per_slot = rw (added (λ c. c.sec_ctx)) (Distinct-append _ _ v.one_per_slot slot_free);
        ids_differ = rw (added (λ c. c.creation_id)) (Distinct-append _ _ v.ids_differ id_free);
        timers_differ =
            rw (added (λ c. c.expiration_timer_id))
              (Distinct-append _ _ v.timers_differ timer_free);
        expires =
            All-append (HasTimer (timer ∷ timers)) contexts (ctx ∷ [])
              (HasTimer-cons timer timers contexts v.expires (freshness timers))
              ((timer, unfold find_if in (ground arith), refl, refl), tt);
      }

  -- The contexts and timers to which a new context is added in place of `ctx`.
  without-IsValid :
      (n : Network) (key : NetworkKey) (ctx : NetworkKeyCtx)
      → IsValid n
      → get_network_sec_ctx n.contexts key.sec_ctx ≡ some ctx
      → IsValid (record {
        contexts = erase_if (in_slot key.sec_ctx) n.contexts;
        timers = cancel ctx.expiration_timer_id n.timers;
      })
  unfolding get_network_sec_ctx
  without-IsValid n key ctx v found =
      let p = in_slot key.sec_ctx in
      record {
        one_per_slot =
            Distinct-erase_if (λ (c : NetworkKeyCtx). c.sec_ctx) p n.contexts v.one_per_slot;
        ids_differ =
            Distinct-erase_if (λ (c : NetworkKeyCtx). c.creation_id) p n.contexts v.ids_differ;
        timers_differ =
            Distinct-erase_if (λ (c : NetworkKeyCtx). c.expiration_timer_id) p n.contexts
              v.timers_differ;
        expires =
            HasTimer-cancel ctx.expiration_timer_id n.timers (erase_if p n.contexts)
              (All-erase_if (HasTimer n.timers) p n.contexts v.expires)
              (erased-unlisted (λ (c : NetworkKeyCtx). c.expiration_timer_id) p n.contexts ctx found
                v.timers_differ);
      }

  -- What `network_install_key` does: nothing, with a key that has expired or is not preferred; or it
  -- adds a context, in an empty slot or after it has emptied the slot.
  pub data Installed (n : Network) (key : NetworkKey) : Network → Type 0 where
    expired : key.expiration_time_s ≤ now → Installed n key n
    refused :
        (ctx : NetworkKeyCtx)
        → now < key.expiration_time_s
        → get_network_sec_ctx n.contexts key.sec_ctx ≡ some ctx
        → key_preference_is_better key.priority key.expiration_time_s ctx.priority
            ctx.expiration_time_s now grace
          ≡ false
        → Installed n key n
    added :
        now < key.expiration_time_s
        → get_network_sec_ctx n.contexts key.sec_ctx ≡ none
        → Installed n key (
            add_context fresh grace now n.contexts n.timers key
              (network_get_next_creation_id n.contexts))
    replaced :
        (ctx : NetworkKeyCtx)
        → now < key.expiration_time_s
        → get_network_sec_ctx n.contexts key.sec_ctx ≡ some ctx
        → key_preference_is_better key.priority key.expiration_time_s ctx.priority
            ctx.expiration_time_s now grace
          ≡ true
        → Installed n key (
            add_context fresh grace now
              (erase_if (in_slot key.sec_ctx) n.contexts)
              (cancel ctx.expiration_timer_id n.timers)
              key
              (network_get_next_creation_id n.contexts))

  pub network_install_key_cases :
      (n : Network) (key : NetworkKey) → Installed n key (network_install_key fresh grace now n key)
  unfolding network_install_key
  network_install_key_cases n key = elim (Bool-cases (leb key.expiration_time_s now)) [
    | inl late ↦ rw late (expired (ground arith))
    | inr live ↦ elim (Option-cases (get_network_sec_ctx n.contexts key.sec_ctx)) [
      | inl empty ↦ rw (live, empty) (added (ground arith) empty)
      | inr (ctx, found) ↦
          elim (Bool-cases (
            key_preference_is_better key.priority key.expiration_time_s ctx.priority
              ctx.expiration_time_s now grace)) [
                | inl better ↦ rw (live, found, better) (replaced ctx (ground arith) found better)
                | inr worse ↦ rw (live, found, worse) (refused ctx (ground arith) found worse)
              ]
    ]
  ]

  pub Installed-IsValid :
      (n : Network) (key : NetworkKey) (m : Network) → IsValid n → Installed n key m → IsValid m
  Installed-IsValid n key m v (expired late) = v
  Installed-IsValid n key m v (refused ctx live found worse) = v
  Installed-IsValid n key m v (added live empty) =
      add_context-IsValid n.contexts n.timers key _ v
        (absent-find_if (λ (c : NetworkKeyCtx). c.sec_ctx) key.sec_ctx n.contexts
          (unfold get_network_sec_ctx in empty))
        (network_get_next_creation_id_least n.contexts).0
  Installed-IsValid n key m v (replaced ctx live found better) =
      add_context-IsValid _ _ key _ (without-IsValid n key ctx v found)
        (erase_if-absent (λ (c : NetworkKeyCtx). c.sec_ctx) key.sec_ctx n.contexts v.one_per_slot)
        (is_member-erase_if (λ (c : NetworkKeyCtx). c.creation_id) (in_slot key.sec_ctx) _
          n.contexts (network_get_next_creation_id_least n.contexts).0)

  -- Installing a list of keys keeps the contexts and timers valid: no two contexts share a slot, a
  -- creation id or a timer, and the timer that will expire each context is pending. It is assumed
  -- that a new timer gets a number that no pending one has.
  pub network_install_keys-IsValid :
      (n : Network) (keys : List NetworkKey)
      → IsValid n
      → IsValid (network_install_keys fresh grace now n keys)
  unfolding network_install_keys
  network_install_keys-IsValid n [] v = v
  network_install_keys-IsValid n (key ∷ keys) v =
      network_install_keys-IsValid (network_install_key fresh grace now n key) keys
        (Installed-IsValid n key _ v (network_install_key_cases n key))
