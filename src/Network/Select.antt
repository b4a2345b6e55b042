-- ===== src/Network/Select.antt =====
-- node.cpp, network_select_sec_ctx: which network key a frame is sent under.
use bfc_tunnel.Base.{
  ℕ, ◌+◌, ◌%◌, ◌^◌, ◌≡◌, ◌≢◌, ◌≤◌, ◌<◌, ◌⊎◌, inl, inr, refl, Option, none, some, List, [], ◌∷◌,
  arith, leb, ltb, All, Bool-cases,
}
use bfc_tunnel.Network.{NetworkKeyCtx, earlier, select_from, network_select_sec_ctx}

module _ (now limit : ℕ) where
  -- A context is at least as good a choice as another: where the other has not expired, it is not
  -- about to expire unless the other is too, and among two of a kind it expires first.
  abbrev pub AsGood : NetworkKeyCtx → NetworkKeyCtx → Type 0
  AsGood c d =
      (now < d.expiration_time_s)
      → ((limit ≤ d.expiration_time_s)
          → (limit ≤ c.expiration_time_s) × (c.expiration_time_s ≤ d.expiration_time_s))
        × ((d.expiration_time_s < limit)
            → (limit ≤ c.expiration_time_s) ⊎ (c.expiration_time_s ≤ d.expiration_time_s))

  abbrev AsGoodAs : NetworkKeyCtx → Option NetworkKeyCtx → Type 0
  AsGoodAs c none = Unit
  AsGoodAs c (some d) = AsGood c d

  abbrev Lasting : Option NetworkKeyCtx → Type 0
  Lasting none = Unit
  Lasting (some b) = (now < b.expiration_time_s) × (limit ≤ b.expiration_time_s)

  abbrev Expiring : Option NetworkKeyCtx → Type 0
  Expiring none = Unit
  Expiring (some b) = (now < b.expiration_time_s) × (b.expiration_time_s < limit)

  earlier-Lasting :
      (x : NetworkKeyCtx) (o : Option NetworkKeyCtx)
      → Lasting (some x)
      → Lasting o
      → Lasting (earlier x o)
        × ((c : NetworkKeyCtx) → AsGoodAs c (earlier x o) → AsGood c x × AsGoodAs c o)
  earlier-Lasting x none h k = (h, λ c g. (g, tt))
  earlier-Lasting x (some old) h k =
      elim (Bool-cases (ltb x.expiration_time_s old.expiration_time_s)) [
        | inl sooner ↦ rw sooner (h, λ c g. (g, ground arith))
        | inr later ↦ rw later (k, λ c g. (ground arith, g))
      ]

  earlier-Expiring :
      (x : NetworkKeyCtx) (o : Option NetworkKeyCtx)
      → Expiring (some x)
      → Expiring o
      → Expiring (earlier x o)
        × ((c : NetworkKeyCtx) → AsGoodAs c (earlier x o) → AsGood c x × AsGoodAs c o)
  earlier-Expiring x none h k = (h, λ c g. (g, tt))
  earlier-Expiring x (some old) h k =
      elim (Bool-cases (ltb x.expiration_time_s old.expiration_time_s)) [
        | inl sooner ↦ rw sooner (h, λ c g. (g, ground arith))
        | inr later ↦ rw later (k, λ c g. (ground arith, g))
      ]

  -- The answer of the loop is as good as every context it has seen.
  abbrev Answer :
      List NetworkKeyCtx
      → Option NetworkKeyCtx
      → Option NetworkKeyCtx
      → Option NetworkKeyCtx
      → Type 0
  Answer contexts best expiring r =
      ((r ≡ none)
        × (best ≡ none)
        × (expiring ≡ none)
        × All (λ (d : NetworkKeyCtx). d.expiration_time_s ≤ now) contexts)
      ⊎ ((c : NetworkKeyCtx) × (r ≡ some c)
          × (now < c.expiration_time_s)
          × AsGoodAs c best
          × AsGoodAs c expiring
          × All (AsGood c) contexts)

  earlier-some : (x : NetworkKeyCtx) (o : Option NetworkKeyCtx) → earlier x o ≢ none
  earlier-some x none e = ground arith
  earlier-some x (some old) e = ground arith

  select_from-Answer :
      (contexts : List NetworkKeyCtx) (best expiring : Option NetworkKeyCtx)
      → Lasting best
      → Expiring expiring
      → Answer contexts best expiring (select_from now limit contexts best expiring)
  unfolding select_from
  select_from-Answer [] none none h k = inl (refl, refl, refl, tt)
  select_from-Answer [] none (some e) h k = inr (e, refl, k.0, tt, ground arith, tt)
  select_from-Answer [] (some b) none h k = inr (b, refl, h.0, ground arith, tt, tt)
  select_from-Answer [] (some b) (some e) h k = inr (b, refl, h.0, ground arith, ground arith, tt)
  select_from-Answer (x ∷ xs) best expiring h k = elim (Bool-cases (leb x.expiration_time_s now)) [
    | inl late ↦ rw late (elim (select_from-Answer xs best expiring h k) [
      | inl (r, b, e, all) ↦ inl (r, b, e, (ground arith, all))
      | inr (c, r, live, b, e, all) ↦ inr (c, r, live, b, e, (λ alive. absurd (ground arith), all))
    ])
    | inr alive ↦ elim (Bool-cases (ltb x.expiration_time_s limit)) [
      | inl soon ↦
          let (k', good) = earlier-Expiring x expiring (ground arith) k in
          rw (alive, soon)
            (elim (select_from-Answer xs best (earlier x expiring) h k') [
              | inl (r, b, e, all) ↦ absurd (earlier-some x expiring e)
              | inr (c, r, live, b, e, all) ↦ inr (c, r, live, b, (good c e).1, ((good c e).0, all))
            ])
      | inr lasts ↦
          let (h', good) = earlier-Lasting x best (ground arith) h in
          rw (alive, lasts)
            (elim (select_from-Answer xs (earlier x best) expiring h' k) [
              | inl (r, b, e, all) ↦ absurd (earlier-some x best b)
              | inr (c, r, live, b, e, all) ↦ inr (c, r, live, (good c b).1, e, ((good c b).0, all))
            ])
    ]
  ]

-- A frame for the network is sent under a context that has not expired and is as good a choice as
-- every context of the node: one that is not about to expire where there is such a one, and the first
-- to expire of its kind. None is chosen only where all have expired.
pub network_select_sec_ctx_best :
    (grace now : ℕ) (contexts : List NetworkKeyCtx)
    → ((network_select_sec_ctx grace now contexts ≡ none)
        × All (λ (d : NetworkKeyCtx). d.expiration_time_s ≤ now) contexts)
      ⊎ ((c : NetworkKeyCtx) × (network_select_sec_ctx grace now contexts ≡ some c)
          × (now < c.expiration_time_s)
          × All (AsGood now ((now + grace) % 2 ^ 64) c) contexts)
unfolding network_select_sec_ctx
network_select_sec_ctx_best grace now contexts =
    elim (select_from-Answer now ((now + grace) % 2 ^ 64) contexts none none tt tt) [
      | inl (r, b, e, all) ↦ inl (r, all)
      | inr (c, r, live, b, e, all) ↦ inr (c, r, live, all)
    ]
