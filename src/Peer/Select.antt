-- ===== src/Peer/Select.antt =====
-- node.cpp, peer_select_sec_ctx: which security context a message to a peer is sent under.
use bfc_tunnel.Base.{
  ℕ, ◌≡◌, ◌≤◌, ◌<◌, ◌⊎◌, inl, inr, refl, true, false, none, some, List, [], ◌∷◌, arith, All,
  Bool-cases, dec_le, ◌+◌, ◌^◌,
}
use bfc_tunnel.Peer.{
  SecurityCtx, peer_sec_ctx_is_usable, peer_has_usable_sec_ctx, select_with, peer_select_sec_ctx,
}

module _ (grace now : ℕ) (small : now + grace < 2 ^ 64) where
  -- A context that has not expired, and is usable where one of the list is.
  abbrev pub IsChosen : List SecurityCtx → SecurityCtx → Type 0
  IsChosen contexts ctx =
      (now < ctx.expiration_time_s)
      × (peer_sec_ctx_is_usable grace now ctx ≡ peer_has_usable_sec_ctx grace now contexts)

  usable-live :
      (ctx : SecurityCtx)
      → peer_sec_ctx_is_usable grace now ctx ≡ true
      → now < ctx.expiration_time_s
  unfolding peer_sec_ctx_is_usable
  usable-live ctx h = ground arith

  select_with-some :
      (contexts : List SecurityCtx) (f : SecurityCtx)
      → now < f.expiration_time_s
      → peer_sec_ctx_is_usable grace now f ≡ false
      → (ctx : SecurityCtx) × (select_with grace now contexts (some f) ≡ some ctx)
        × IsChosen contexts ctx
  unfolding select_with peer_has_usable_sec_ctx
  select_with-some [] f live other = (f, refl, (live, other))
  select_with-some (x ∷ xs) f live other =
      let (ctx, chosen, (alive, usable)) = select_with-some xs f live other in
      elim (Bool-cases (peer_sec_ctx_is_usable grace now x)) [
        | inl good ↦
            let lives = usable-live x good in
            (x, ground (arith, good, lives), (lives, ground (arith, good)))
        | inr bad ↦ (ctx, ground (arith, bad, chosen), (alive, ground (arith, bad, usable)))
      ]

  -- Where the clock is far from its end, a message to a peer is sent under a context that has not
  -- expired, and under a usable one exactly where the peer has a usable one; no context is chosen only
  -- where all have expired.
  pub peer_select_sec_ctx_usable :
      (contexts : List SecurityCtx)
      → ((peer_select_sec_ctx grace now contexts ≡ none)
          × All (λ (ctx : SecurityCtx). ctx.expiration_time_s ≤ now) contexts)
        ⊎ ((ctx : SecurityCtx) × (peer_select_sec_ctx grace now contexts ≡ some ctx)
            × IsChosen contexts ctx)
  unfolding peer_select_sec_ctx select_with peer_has_usable_sec_ctx
  peer_select_sec_ctx_usable [] = inl (refl, tt)
  peer_select_sec_ctx_usable (x ∷ xs) = elim (Bool-cases (peer_sec_ctx_is_usable grace now x)) [
    | inl good ↦
        let lives = usable-live x good in
        inr (x, ground (arith, good, lives), (lives, ground (arith, good)))
    | inr bad ↦ elim (dec_le x.expiration_time_s now) [
      | yes expired ↦ elim (peer_select_sec_ctx_usable xs) [
        | inl (nothing, all_expired) ↦ inl (ground (arith, bad, nothing), (expired, all_expired))
        | inr (ctx, chosen, (alive, usable)) ↦
            inr (ctx, ground (arith, bad, chosen), (alive, ground (arith, bad, usable)))
      ]
      | no live ↦
          let (ctx, chosen, (alive, usable)) = select_with-some xs x (omega arith) bad in
          inr (ctx, ground (arith, bad, chosen), (alive, ground (arith, bad, usable)))
    ]
  ]
