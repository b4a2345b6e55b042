-- ===== src/Network/Convergence.antt =====
-- node.cpp, network_install_keys: which key a slot holds in the end.
use bfc_tunnel.Base.{
  ℕ, ◌≡◌, ◌≢◌, refl, sym, ap, ◌∙◌, true, false, not, ◌&&◌, ◌⊎◌, Bool, Option, none, some, List, [],
  ◌∷◌, arith, ◌==◌, leb, if◌then◌else◌, inl, inr, Bool-cases,
}
use mathlib.Core.Option
use mathlib.Core.Path.{ap₂}
use mathlib.Core.List.{Permᴰ}
use mathlib.Core.List.Permᴰ.{nil, cons, swap, trans}
use bfc_tunnel.Network.{
  NetworkKey, NetworkKeyCtx, Timer, Network, get_network_sec_ctx, key_preference_is_better, in_slot,
  erase_if, cancel, add_context, context_of, network_install_key, network_install_keys, is_member,
  network_get_next_creation_id,
}
use bfc_tunnel.Network.Keyed.{
  find_if-append_other, find_if-append_self, find_if-erase_other, erase_if-absent, absent-find_if,
}
use bfc_tunnel.Network.Preference.{key_preference-IsStrictOrder}
use bfc_tunnel.Network.Install.{
  IsValid, IsFresh, Installed, expired, refused, added, replaced, network_install_key_cases,
  Installed-IsValid, slots,
}

-- The offer that a slot holds: the priority and the expiration of its context.
abbrev pub held : ℕ → List NetworkKeyCtx → Option (ℕ × ℕ)
held s contexts =
    Option.map (λ (ctx : NetworkKeyCtx). (ctx.priority, ctx.expiration_time_s))
      (get_network_sec_ctx contexts s)

module _ (grace now s : ℕ) where
  abbrev better : ℕ × ℕ → ℕ × ℕ → Bool
  better y x = key_preference_is_better y.0 y.1 x.0 x.1 now grace

  unfoldable combine : Option (ℕ × ℕ) → ℕ × ℕ → Option (ℕ × ℕ)
  combine none y = some y
  combine (some x) y = if better y x then some y else some x

  abbrev counts : NetworkKey → Bool
  counts key = not (leb key.expiration_time_s now) && (key.sec_ctx == s)

  -- The better of what is held and of a key for this slot that has not expired.
  unfoldable pub best_of : Option (ℕ × ℕ) → NetworkKey → Option (ℕ × ℕ)
  unfolding combine
  best_of o key = if counts key then combine o (key.priority, key.expiration_time_s) else o

  -- Of two offers the same one is better, in whichever order they come.
  winner :
      (y z : ℕ × ℕ)
      → ((better y z ≡ true) × (better z y ≡ false))
        ⊎ ((better y z ≡ false) × (better z y ≡ true))
        ⊎ (y ≡ z)
  winner y z =
      let (irreflexive, asymmetric, transitive, total) =
        key_preference-IsStrictOrder now grace y z y in
      let back = (key_preference-IsStrictOrder now grace z y z).1 in
      elim total [
        | inl first ↦ inl (first, asymmetric first)
        | inr (inl second) ↦ inr (inl (back second, second))
        | inr (inr (e, k)) ↦ inr (inr (ap₂ (λ a b. (a, b)) e k))
      ]

  carries : (x y z : ℕ × ℕ) → better x y ≡ true → better y z ≡ true → better x z ≡ true
  carries x y z = (key_preference-IsStrictOrder now grace x y z).2

  combine-swap :
      (o : Option (ℕ × ℕ)) (y z : ℕ × ℕ) → combine (combine o y) z ≡ combine (combine o z) y
  unfolding combine
  combine-swap none y z = elim (winner y z) [
    | inl first ↦ ground (arith, first)
    | inr (inl second) ↦ ground (arith, second)
    | inr (inr same) ↦ rw same refl
  ]
  combine-swap (some x) y z = elim (winner y z) [
    | inl first ↦ ground (arith, first, winner x y, winner x z, carries y z x, carries z y x)
    | inr (inl second) ↦ ground (arith, second, carries y z x, carries z y x)
    | inr (inr same) ↦ rw same refl
  ]

  -- Two keys may be offered in either order.
  best_of-swap :
      (o : Option (ℕ × ℕ)) (k l : NetworkKey) → best_of (best_of o k) l ≡ best_of (best_of o l) k
  unfolding best_of
  best_of-swap o k l =
      ground
        (arith, combine-swap o (k.priority, k.expiration_time_s) (l.priority, l.expiration_time_s))

-- What every key of a list makes of an offer, in turn.
unfoldable pub best_of_all : ℕ → ℕ → ℕ → Option (ℕ × ℕ) → List NetworkKey → Option (ℕ × ℕ)
best_of_all grace now s o [] = o
best_of_all grace now s o (key ∷ keys) = best_of_all grace now s (best_of grace now s o key) keys

module _ (fresh : List Timer → ℕ) (freshness : IsFresh fresh) (grace now s : ℕ) where
  held-found :
      (contexts : List NetworkKeyCtx) (o : Option NetworkKeyCtx)
      → get_network_sec_ctx contexts s ≡ o
      → held s contexts
        ≡ Option.map (λ (ctx : NetworkKeyCtx). (ctx.priority, ctx.expiration_time_s)) o
  held-found contexts o e =
      ap (Option.map (λ (ctx : NetworkKeyCtx). (ctx.priority, ctx.expiration_time_s))) e

  found-add_other :
      (contexts : List NetworkKeyCtx) (timers : List Timer) (key : NetworkKey) (id : ℕ)
      → key.sec_ctx ≢ s
      → get_network_sec_ctx (add_context fresh grace now contexts timers key id).contexts s
        ≡ get_network_sec_ctx contexts s
  unfolding get_network_sec_ctx
  found-add_other contexts timers key id ne =
      find_if-append_other (λ (c : NetworkKeyCtx). c.sec_ctx) s contexts
        (context_of fresh grace now key id (fresh timers)) ne

  found-erase_other :
      (contexts : List NetworkKeyCtx) (t : ℕ)
      → t ≢ s
      → get_network_sec_ctx (erase_if (in_slot t) contexts) s ≡ get_network_sec_ctx contexts s
  unfolding get_network_sec_ctx
  found-erase_other contexts t ne =
      find_if-erase_other (λ (c : NetworkKeyCtx). c.sec_ctx) s t contexts ne

  pub found-add_self :
      (contexts : List NetworkKeyCtx) (timers : List Timer) (key : NetworkKey) (id : ℕ)
      → is_member key.sec_ctx (slots contexts) ≡ false
      → key.sec_ctx ≡ s
      → get_network_sec_ctx (add_context fresh grace now contexts timers key id).contexts s
        ≡ some (context_of fresh grace now key id (fresh timers))
  unfolding get_network_sec_ctx
  found-add_self contexts timers key id free same = rw (sym same) (
      find_if-append_self (λ (c : NetworkKeyCtx). c.sec_ctx) contexts
        (context_of fresh grace now key id (fresh timers)) free)

  held-Installed :
      (n : Network) (key : NetworkKey) (m : Network)
      → IsValid n
      → Installed fresh freshness grace now n key m
      → held s m.contexts ≡ best_of grace now s (held s n.contexts) key
  unfolding best_of
  held-Installed n key m v (expired late) = ground arith
  held-Installed n key m v (refused ctx live found worse) = elim (Bool-cases (key.sec_ctx == s)) [
    | inl here ↦
        let e : key.sec_ctx ≡ s = ground arith in
        let known = held-found n.contexts (some ctx) (rw e at found) in
        rw known (ground (arith, worse))
    | inr elsewhere ↦ ground arith
  ]
  held-Installed n key m v (added live empty) = elim (Bool-cases (key.sec_ctx == s)) [
    | inl here ↦
        let e : key.sec_ctx ≡ s = ground arith in
        let known = held-found n.contexts none (rw e at empty) in
        let id = network_get_next_creation_id n.contexts in
        let free =
          absent-find_if (λ (c : NetworkKeyCtx). c.sec_ctx) key.sec_ctx n.contexts
            (unfold get_network_sec_ctx in empty) in
        held-found _ _ (found-add_self n.contexts n.timers key id free e) ∙ rw known (ground arith)
    | inr elsewhere ↦
        held-found _ _ (found-add_other n.contexts n.timers key _ (ground arith)) ∙ ground arith
  ]
  held-Installed n key m v (replaced ctx live found better) = elim (Bool-cases (key.sec_ctx == s)) [
    | inl here ↦
        let e : key.sec_ctx ≡ s = ground arith in
        let known = held-found n.contexts (some ctx) (rw e at found) in
        let id = network_get_next_creation_id n.contexts in
        let free =
          erase_if-absent (λ (c : NetworkKeyCtx). c.sec_ctx) key.sec_ctx n.contexts
            v.one_per_slot in
        held-found _ _ (found-add_self _ (cancel ctx.expiration_timer_id n.timers) key id free e)
        ∙ rw known (ground (arith, better))
    | inr elsewhere ↦
        held-found _ _
          (found-add_other _ (cancel ctx.expiration_timer_id n.timers) key _ (ground arith))
        ∙ held-found _ _ (found-erase_other n.contexts key.sec_ctx (ground arith))
        ∙ ground arith
  ]

  -- After a list of keys has been installed, a slot holds the offer that is left when each key for the
  -- slot that has not expired is compared with the one held before it, and the better is kept.
  network_install_keys-held :
      (n : Network) (keys : List NetworkKey)
      → IsValid n
      → held s (network_install_keys fresh grace now n keys).contexts
        ≡ best_of_all grace now s (held s n.contexts) keys
  unfolding network_install_keys best_of_all
  network_install_keys-held n [] v = refl
  network_install_keys-held n (key ∷ keys) v =
      let step = network_install_key_cases fresh freshness grace now n key in
      network_install_keys-held (network_install_key fresh grace now n key) keys
        (Installed-IsValid fresh freshness grace now n key _ v step)
      ∙ ap (λ o. best_of_all grace now s o keys) (held-Installed n key _ v step)

best_of_all-perm :
    (grace now s : ℕ) (o : Option (ℕ × ℕ)) (keys others : List NetworkKey)
    → Permᴰ keys others
    → best_of_all grace now s o keys ≡ best_of_all grace now s o others
unfolding best_of_all
best_of_all-perm grace now s o [] [] nil = refl
best_of_all-perm grace now s o (a ∷ xs) (b ∷ ys) (cons e p) =
    best_of_all-perm grace now s (best_of grace now s o a) xs ys p
    ∙ ap (λ k. best_of_all grace now s (best_of grace now s o k) ys) e
best_of_all-perm grace now s o (a ∷ b ∷ xs) (c ∷ d ∷ ys) (swap e f) =
    ap (λ t. best_of_all grace now s t xs) (best_of-swap grace now s o a b) ∙ rw (e, f) refl
best_of_all-perm grace now s o keys others (trans p q) =
    best_of_all-perm grace now s o keys _ p ∙ best_of_all-perm grace now s o _ others q

-- Nodes converge: where two nodes with valid contexts hold the same offer in a slot and install
-- the same keys in different orders (and each new timer gets a number that no pending one has),
-- at one time and with one grace period, they hold the same offer in that slot afterwards.
pub network_install_keys-converges :
    (fresh : List Timer → ℕ) (grace now s : ℕ) (n m : Network) (keys others : List NetworkKey)
    → IsFresh fresh
    → IsValid n
    → IsValid m
    → held s n.contexts ≡ held s m.contexts
    → Permᴰ keys others
    → held s (network_install_keys fresh grace now n keys).contexts
      ≡ held s (network_install_keys fresh grace now m others).contexts
network_install_keys-converges fresh grace now s n m keys others freshness v w same p =
    network_install_keys-held fresh freshness grace now s n keys v
    ∙ ap (λ o. best_of_all grace now s o keys) same
    ∙ best_of_all-perm grace now s (held s m.contexts) keys others p
    ∙ sym (network_install_keys-held fresh freshness grace now s m others w)
