-- ===== src/Network/Preference.antt =====
-- node.cpp, key_preference_is_better: a strict order on the offers for one slot.
use bfc_tunnel.Base.{ℕ, ◌≡◌, ◌⊎◌, true, false, arith}
use bfc_tunnel.Network.{key_preference_is_better}

module _ (now grace : ℕ) where
  -- One offer, given by its priority and its expiration, is preferred to another.
  abbrev pub IsBetter : ℕ × ℕ → ℕ × ℕ → Type 0
  IsBetter x y = key_preference_is_better x.0 x.1 y.0 y.1 now grace ≡ true

  -- The preference is a strict total order: no offer is better than itself, of two different offers
  -- exactly one is better, and being better carries over.
  pub key_preference-IsStrictOrder :
      (x y z : ℕ × ℕ)
      → (key_preference_is_better x.0 x.1 x.0 x.1 now grace ≡ false)
        × (IsBetter x y → key_preference_is_better y.0 y.1 x.0 x.1 now grace ≡ false)
        × (IsBetter x y → IsBetter y z → IsBetter x z)
        × (IsBetter x y ⊎ IsBetter y x ⊎ ((x.0 ≡ y.0) × (x.1 ≡ y.1)))
  unfolding key_preference_is_better
  key_preference-IsStrictOrder x y z = (ground arith, ground arith, ground arith, ground arith)
