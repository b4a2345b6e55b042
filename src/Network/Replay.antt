-- ===== src/Network/Replay.antt =====
-- node.cpp, network_accept_rx: a sequence number is accepted once.
use bfc_tunnel.Base.{
  ℕ, ◌≡◌, ◌≢◌, ◌≤◌, inl, inr, refl, ◌∙◌, sym, true, false, Option, none, some, List, [], ◌∷◌, arith,
  ◌==◌, Bool-cases, Option-cases,
}
use mathlib.Core.Path.{subst⁻¹}
use mathlib.Core.Option.{some-injective}
use bfc_tunnel.Frame.{Frame, get_sec_ctx, get_sn, get_src}
use bfc_tunnel.Security.{Primitives, accept_frame}
use bfc_tunnel.Network.{
  NetworkKeyCtx, get_network_sec_ctx, find_if, update_ctx, lookup, store, network_accept_rx,
  count_failure, count_success, is_replay, Acceptance,
}

lookup-store_self : (k v : ℕ) (m : List (ℕ × ℕ)) → lookup k (store k v m) ≡ some v
unfolding lookup store
lookup-store_self k v [] = ground arith
lookup-store_self k v (e ∷ m) = ground (arith, lookup-store_self k v m)

lookup-store_other : (j k v : ℕ) (m : List (ℕ × ℕ)) → j ≢ k → lookup j (store k v m) ≡ lookup j m
unfolding lookup store
lookup-store_other j k v [] ne = ground arith
lookup-store_other j k v (e ∷ m) ne = ground (arith, lookup-store_other j k v m ne)

-- Changing the context of one slot, by a function that keeps the slot.
module _ (f : NetworkKeyCtx → NetworkKeyCtx)
    (keeps : (ctx : NetworkKeyCtx) → (f ctx).sec_ctx ≡ ctx.sec_ctx) where
  get-update_self :
      (s : ℕ) (contexts : List NetworkKeyCtx) (ctx : NetworkKeyCtx)
      → get_network_sec_ctx contexts s ≡ some ctx
      → get_network_sec_ctx (update_ctx s f contexts) s ≡ some (f ctx)
  unfolding get_network_sec_ctx update_ctx find_if
  get-update_self s [] ctx e = absurd (ground arith)
  get-update_self s (x ∷ xs) ctx e = elim (Bool-cases (x.sec_ctx == s)) [
    | inl here ↦
        let same : x ≡ ctx = some-injective x ctx (ground (arith, e)) in
        rw (sym same) (ground (arith, keeps x))
    | inr on ↦ ground (arith, get-update_self s xs ctx (ground (arith, e)))
  ]

  get-update_other :
      (s t : ℕ) (contexts : List NetworkKeyCtx)
      → t ≢ s
      → get_network_sec_ctx (update_ctx t f contexts) s ≡ get_network_sec_ctx contexts s
  unfolding get_network_sec_ctx update_ctx find_if
  get-update_other s t [] ne = refl
  get-update_other s t (x ∷ xs) ne = ground (arith, keeps x, get-update_other s t xs ne)

-- A number of at least `sn` has been recorded for a source in a slot.
abbrev Seen : ℕ → ℕ → ℕ → List NetworkKeyCtx → Type 0
Seen s src sn contexts =
    (ctx : NetworkKeyCtx) × (get_network_sec_ctx contexts s ≡ some ctx)
    × (last : ℕ) × (lookup src ctx.last_rx_sn_by_src ≡ some last)
    × (sn ≤ last)

-- The four ways to receive a frame.
module _ (c : Primitives) (contexts : List NetworkKeyCtx) (frame : Frame) where
  abbrev InSlot : NetworkKeyCtx → Type 0
  InSlot ctx = get_network_sec_ctx contexts (get_sec_ctx frame) ≡ some ctx

  abbrev accept_with : NetworkKeyCtx → Option Frame
  accept_with ctx =
      accept_frame c frame ctx.integrity_algorithm ctx.integrity_key ctx.confidentiality_algorithm
        ctx.confidentiality_key

  data Received : Acceptance → Type 0 where
    unknown :
        get_network_sec_ctx contexts (get_sec_ctx frame) ≡ none
        → Received (record { accepted = none; contexts = contexts; acquire = true })
    replayed :
        (ctx : NetworkKeyCtx)
        → InSlot ctx
        → is_replay ctx (get_src frame) (get_sn frame) ≡ true
        → Received (record { accepted = none; contexts = contexts; acquire = false })
    failed :
        (ctx : NetworkKeyCtx)
        → InSlot ctx
        → is_replay ctx (get_src frame) (get_sn frame) ≡ false
        → accept_with ctx ≡ none
        → Received (record {
          accepted = none;
          contexts = update_ctx (get_sec_ctx frame) count_failure contexts;
          acquire = ctx.integrity_success == 0;
        })
    recorded :
        (ctx : NetworkKeyCtx) (plain : Frame)
        → InSlot ctx
        → is_replay ctx (get_src frame) (get_sn frame) ≡ false
        → accept_with ctx ≡ some plain
        → Received (record {
          accepted = some plain;
          contexts =
              update_ctx
                (get_sec_ctx frame)
                (count_success (get_src frame) (get_sn frame))
                contexts;
          acquire = false;
        })

  received : Received (network_accept_rx c contexts frame)
  unfolding network_accept_rx
  received = elim (Option-cases (get_network_sec_ctx contexts (get_sec_ctx frame))) [
    | inl none_found ↦ subst⁻¹ Received (ground (arith, none_found)) (unknown none_found)
    | inr (ctx, found) ↦ elim (Bool-cases (is_replay ctx (get_src frame) (get_sn frame))) [
      | inl again ↦ subst⁻¹ Received (ground (arith, found, again)) (replayed ctx found again)
      | inr new ↦ elim (Option-cases (accept_with ctx)) [
        | inl bad ↦ subst⁻¹ Received (ground (arith, found, new, bad)) (failed ctx found new bad)
        | inr (plain, good) ↦
            subst⁻¹ Received (ground (arith, found, new, good)) (recorded ctx plain found new good)
      ]
    ]
  ]

-- What has been seen stays seen, whatever frame is received.
Received-Seen :
    (c : Primitives) (contexts : List NetworkKeyCtx) (frame : Frame) (r : Acceptance) (s src sn : ℕ)
    → Seen s src sn contexts
    → Received c contexts frame r
    → Seen s src sn r.contexts
Received-Seen c contexts frame r s src sn seen (unknown none_found) = seen
Received-Seen c contexts frame r s src sn seen (replayed ctx found again) = seen
Received-Seen c contexts frame r s src sn (ctx, found, last, known, low)
      (failed ctx' found' new bad) =
    elim (Bool-cases (get_sec_ctx frame == s)) [
      | inl here ↦
          let e : get_sec_ctx frame ≡ s = ground arith in
          (
            count_failure ctx,
            rw e (get-update_self count_failure (λ x. refl) s contexts ctx found),
            last,
            known,
            low,
          )
      | inr elsewhere ↦ (
        ctx,
        get-update_other count_failure (λ x. refl) s _ contexts (ground arith) ∙ found,
        last,
        known,
        low,
      )
    ]
Received-Seen c contexts frame r s src sn (ctx, found, last, known, low)
      (recorded ctx' plain found' new good) =
    elim (Bool-cases (get_sec_ctx frame == s)) [
      | inl here ↦
          let e : get_sec_ctx frame ≡ s = ground arith in
          let same : ctx' ≡ ctx = some-injective ctx' ctx (sym (rw e at found') ∙ found) in
          let moved : get_network_sec_ctx
                (update_ctx (get_sec_ctx frame) (count_success (get_src frame) (get_sn frame))
                  contexts)
                s
              ≡ some (count_success (get_src frame) (get_sn frame) ctx) =
            rw e (
              get-update_self (count_success (get_src frame) (get_sn frame)) (λ x. refl) s contexts
                ctx found) in
          let table = ctx.last_rx_sn_by_src in
          elim (Bool-cases (get_src frame == src)) [
            | inl own ↦
                let o : get_src frame ≡ src = ground arith in
                let newer = rw (same, o) at new in
                (
                  _,
                  moved,
                  get_sn frame,
                  rw o (lookup-store_self src (get_sn frame) table),
                  ground (arith, known, newer, low),
                )
            | inr other ↦ (
              _,
              moved,
              last,
              lookup-store_other src (get_src frame) (get_sn frame) table (ground arith) ∙ known,
              low,
            )
          ]
      | inr elsewhere ↦ (
        ctx,
        get-update_other (count_success (get_src frame) (get_sn frame)) (λ x. refl) s _ contexts
              (ground arith)
            ∙ found,
        last,
        known,
        low,
      )
    ]

-- Receiving frames one after the other.
unfoldable pub receive_all : Primitives → List NetworkKeyCtx → List Frame → List NetworkKeyCtx
receive_all c contexts [] = contexts
receive_all c contexts (frame ∷ frames) =
    receive_all c (network_accept_rx c contexts frame).contexts frames

receive_all-Seen :
    (c : Primitives) (contexts : List NetworkKeyCtx) (frames : List Frame) (s src sn : ℕ)
    → Seen s src sn contexts
    → Seen s src sn (receive_all c contexts frames)
unfolding receive_all
receive_all-Seen c contexts [] s src sn seen = seen
receive_all-Seen c contexts (frame ∷ frames) s src sn seen =
    receive_all-Seen c (network_accept_rx c contexts frame).contexts frames s src sn
      (Received-Seen c contexts frame _ s src sn seen (received c contexts frame))

Seen-after :
    (c : Primitives) (contexts : List NetworkKeyCtx) (frame plain : Frame) (r : Acceptance)
    → r.accepted ≡ some plain
    → Received c contexts frame r
    → Seen (get_sec_ctx frame) (get_src frame) (get_sn frame) r.contexts
Seen-after c contexts frame plain r e (unknown none_found) = absurd (ground arith)
Seen-after c contexts frame plain r e (replayed ctx found again) = absurd (ground arith)
Seen-after c contexts frame plain r e (failed ctx found new bad) = absurd (ground arith)
Seen-after c contexts frame plain r e (recorded ctx plain' found new good) = (
  _,
  get-update_self (count_success (get_src frame) (get_sn frame)) (λ x. refl) _ contexts ctx found,
  get_sn frame,
  lookup-store_self (get_src frame) (get_sn frame) ctx.last_rx_sn_by_src,
  omega arith,
)

-- A sequence number is accepted once: after a network frame has been accepted, and whatever other
-- frames are received in between, a frame of the same security context and source is dropped unless
-- its sequence number is greater, and dropping it changes no context and calls for no keys.
pub network_accept_rx-no_replay :
    (c : Primitives) (contexts : List NetworkKeyCtx) (first plain later : Frame)
    (between : List Frame)
    → (network_accept_rx c contexts first).accepted ≡ some plain
    → get_sec_ctx later ≡ get_sec_ctx first
    → get_src later ≡ get_src first
    → get_sn later ≤ get_sn first
    → let reached = receive_all c (network_accept_rx c contexts first).contexts between in
      network_accept_rx c reached later
      ≡ record { accepted = none; contexts = reached; acquire = false }
network_accept_rx-no_replay c contexts first plain later between ok slot source old =
    let seen =
      receive_all-Seen c (network_accept_rx c contexts first).contexts between _ _ _
        (Seen-after c contexts first plain _ ok (received c contexts first)) in
    let (ctx, found, last, known, low) = seen in
    let stale : is_replay ctx (get_src later) (get_sn later) ≡ true =
      rw source (ground (arith, known, low)) in
    unfold network_accept_rx in (ground (arith, rw (sym slot) at found, stale))
