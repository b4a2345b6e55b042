-- ===== src/Renewal/Held.antt =====
-- node.cpp: the timers of the security contexts are of the contexts that there are.
use bfc_tunnel.Base.{
  ℕ, ◌≡◌, ◌≢◌, ◌∙◌, refl, sym, ap, true, false, some, List, [], ◌∷◌, arith, ◌==◌, inl, inr,
  Bool-cases, Option-cases, All,
}
use mathlib.Core.Option.{some-injective}
use bfc_tunnel.Network.{find_if, erase_if, remove_if}
use bfc_tunnel.Peer.{SecurityCtx}
use bfc_tunnel.Renewal.{
  Due, Contexts, has_ctx, has_timer, change, agree, cancel_due, is_context, call_due,
  peer_get_or_create_sec_ctx, put_sec_ctx, peer_mark_sec_ctx_expiring, peer_expire_security_context,
  expire_timer,
}
use mathlib.Core.Path.{subst⁻¹}
use bfc_tunnel.Renewal.Lookup.{Rows, id_of, found_or_new, find-change}
use bfc_tunnel.Renewal.Timers.{All-append_one, All-erase_if}
use bfc_tunnel.Renewal.Ends.{put, made, old, new, put-contexts, put-timers, put-found}

-- The timer is the one of the context that is found under its id, and holds its creation id.
abbrev pub IsOf : Rows → Due × ℕ → Type 0
IsOf rows d =
    (ctx : SecurityCtx) × (find_if (has_ctx d.0.id) rows ≡ some (d.0.timer_id, ctx))
    × (ctx.creation_id ≡ d.0.creation_id)

abbrev pub IsHeld : Contexts → Type 0
IsHeld t = All (IsOf t.contexts) t.timers

module _ (i : ℕ) where
  find-create-other :
      (j : ℕ) (rows : Rows)
      → j ≢ i
      → find_if (has_ctx j) (peer_get_or_create_sec_ctx i rows) ≡ find_if (has_ctx j) rows
  unfolding find_if peer_get_or_create_sec_ctx
  find-create-other j [] ne = ground (arith, ne)
  find-create-other j (e ∷ rows) ne = elim (Bool-cases (has_ctx i e)) [
    | inl here ↦ rw here refl
    | inr on ↦ rw on (rw (find-create-other j rows ne) refl)
  ]

  find-change-other :
      (f : ℕ × SecurityCtx → ℕ × SecurityCtx) (j : ℕ) (rows : Rows)
      → ((d : ℕ × SecurityCtx) → id_of (f d) ≡ id_of d)
      → j ≢ i
      → find_if (has_ctx j) (change i f rows) ≡ find_if (has_ctx j) rows
  unfolding find_if change
  find-change-other f j [] same ne = refl
  find-change-other f j (e ∷ rows) same ne = elim (Bool-cases (has_ctx i e)) [
    | inl here ↦
        let miss : (e.1.id == j) ≡ false = ground (arith, here, ne) in
        let miss' : ((f e).1.id == j) ≡ false = rw (same e) miss in rw (here, miss, miss') refl
    | inr on ↦ rw on (rw (find-change-other f j rows same ne) refl)
  ]

  find-remove-other :
      (c j : ℕ) (rows : Rows)
      → j ≢ i
      → find_if (has_ctx j) (remove_if (is_context i c) rows) ≡ find_if (has_ctx j) rows
  unfolding find_if remove_if
  find-remove-other c j [] ne = refl
  find-remove-other c j (e ∷ rows) ne = ground (arith, ne, find-remove-other c j rows ne)

-- The timers that are left are of their contexts, where those under other ids stay as they are and
-- the timer of the context with the id is cancelled.
cancel-IsHeld :
    (i n : ℕ) (rows rows' : Rows) (timers : List (Due × ℕ))
    → ((e : ℕ × SecurityCtx) → find_if (has_ctx i) rows ≡ some e → e.0 ≡ n)
    → ((j : ℕ) → j ≢ i → find_if (has_ctx j) rows' ≡ find_if (has_ctx j) rows)
    → All (IsOf rows) timers
    → All (IsOf rows') (cancel_due n timers)
unfolding remove_if
cancel-IsHeld i n rows rows' [] found others held = tt
cancel-IsHeld i n rows rows' (d ∷ timers) found others ((c, own, same), held) =
    let rest = cancel-IsHeld i n rows rows' timers found others held in
    elim (Bool-cases (has_timer n d)) [
      | inl hit ↦ rw hit rest
      | inr miss ↦
          let other : d.0.id ≢ i = λ e.
            let one : d.0.timer_id ≡ n =
              found (d.0.timer_id, c) (ap (λ k. find_if (has_ctx k) rows) (sym e) ∙ own) in
            absurd (ground (arith, miss, one)) in
          rw miss ((c, others d.0.id other ∙ own, same), rest)
    ]

put-IsHeld :
    (grace now : ℕ) (agreed : SecurityCtx) (t : Contexts)
    → IsHeld t
    → IsHeld (put_sec_ctx grace now agreed t)
put-IsHeld grace now agreed t held =
    let i = agreed.id in
    let after = put grace now agreed t in
    let others : (j : ℕ)
        → j ≢ i
        → find_if (has_ctx j) after.contexts ≡ find_if (has_ctx j) t.contexts =
      λ j ne.
        ap (find_if (has_ctx j)) (put-contexts grace now agreed t)
        ∙ (find-change-other i _ j (made grace now agreed t) (λ e. refl) ne
            ∙ (find-change-other i (agree agreed) j _ (λ e. refl) ne
                ∙ find-create-other i j t.contexts ne)) in
    let number : (e : ℕ × SecurityCtx)
        → find_if (has_ctx i) t.contexts ≡ some e
        → e.0 ≡ (old grace now agreed t).0 =
      λ e found. ap (λ o. (found_or_new i o).0) (sym found) in
    subst⁻¹ (All (IsOf after.contexts)) (put-timers grace now agreed t) (
      All-append_one (IsOf after.contexts) _ _
        (cancel-IsHeld i _ t.contexts after.contexts t.timers number others held)
        (new grace now agreed t, put-found grace now agreed t, refl))

module _ (now : ℕ) (t : Contexts) (held : IsHeld t) where
  mark-IsHeld : (i c : ℕ) → IsHeld (peer_mark_sec_ctx_expiring now i c t).0
  unfolding peer_mark_sec_ctx_expiring
  mark-IsHeld i c = elim (Option-cases (find_if (has_ctx i) t.contexts)) [
    | inl none_found ↦ rw (peer_mark_sec_ctx_expiring, none_found) held
    | inr ((timer, ctx), found) ↦ elim (Bool-cases (c == ctx.creation_id)) [
      | inr other ↦ rw (peer_mark_sec_ctx_expiring, found, other) held
      | inl own ↦ elim (Bool-cases ctx.is_expiring) [
        | inl marked ↦ rw (peer_mark_sec_ctx_expiring, found, own, marked) held
        | inr fresh ↦
            let f : ℕ × SecurityCtx → ℕ × SecurityCtx =
              λ e. (t.next_timer, record e.1 { is_expiring = true }) in
            let rows = change i f t.contexts in
            let left =
              cancel-IsHeld i timer t.contexts rows t.timers
                (λ e at. ap (λ (x : ℕ × SecurityCtx). x.0) (some-injective _ _ (sym at ∙ found)))
                (λ j ne. find-change-other i f j t.contexts (λ e. refl) ne) held in
            let same : ctx.creation_id ≡ c = ground (arith, own) in
            rw (peer_mark_sec_ctx_expiring, found, own, fresh)
              (All-append_one (IsOf rows) _ _ left (
                record ctx { is_expiring = true },
                find-change i f t.contexts (timer, ctx) (λ e. refl) found,
                same,
              ))
      ]
    ]
  ]

  expired-IsHeld : (i c : ℕ) → IsHeld (peer_expire_security_context i c t)
  unfolding peer_expire_security_context
  expired-IsHeld i c = elim (Option-cases (find_if (has_ctx i) t.contexts)) [
    | inl none_found ↦ rw (peer_expire_security_context, none_found) held
    | inr ((timer, ctx), found) ↦ elim (Bool-cases (c == ctx.creation_id)) [
      | inr other ↦ rw (peer_expire_security_context, found, other) held
      | inl own ↦
          let left =
            cancel-IsHeld i timer t.contexts (remove_if (is_context i c) t.contexts) t.timers
              (λ e at. ap (λ (x : ℕ × SecurityCtx). x.0) (some-injective _ _ (sym at ∙ found)))
              (λ j ne. find-remove-other i c j t.contexts ne) held in
          rw (peer_expire_security_context, found, own) left
    ]
  ]

call-IsHeld : (now : ℕ) (t : Contexts) (due : Due) → IsHeld t → IsHeld (call_due now t due).0
call-IsHeld now t due held = elim (Bool-cases due.expires) [
  | inl expires ↦ rw expires (expired-IsHeld now t held due.id due.creation_id)
  | inr renews ↦ rw renews (mark-IsHeld now t held due.id due.creation_id)
]

expire-IsHeld : (now n : ℕ) (t : Contexts) → IsHeld t → IsHeld (expire_timer now n t).0
unfolding expire_timer
expire-IsHeld now n t held = elim (Option-cases (find_if (has_timer n) t.timers)) [
  | inl none_due ↦ rw (expire_timer, none_due) held
  | inr ((due, delay), found) ↦
      rw (expire_timer, found)
        (call-IsHeld now (record t { timers = erase_if (has_timer n) t.timers }) due
          (All-erase_if (IsOf t.contexts) (has_timer n) t.timers held))
]

-- A context is made or renewed at a time with a grace period, or a timer is due at a time.
pub data Call : Type 0 where
  puts : ℕ → ℕ → SecurityCtx → Call
  expires : ℕ → ℕ → Call

abbrev pub step : Contexts → Call → Contexts
step t (puts grace now agreed) = put_sec_ctx grace now agreed t
step t (expires now n) = (expire_timer now n t).0

abbrev pub run : Contexts → List Call → Contexts
run t [] = t
run t (c ∷ calls) = run (step t c) calls

-- Start where every pending timer is the one of the context that is found under the id that it holds,
-- and holds its creation id too; and let contexts be made or renewed, and timers be due, in any order
-- and at any times. Then every pending timer is again the one of such a context: none is left that was
-- set for a context that is gone or was renewed since.
pub run-IsHeld : (t : Contexts) (calls : List Call) → IsHeld t → IsHeld (run t calls)
run-IsHeld t [] held = held
run-IsHeld t (puts grace now agreed ∷ calls) held =
    run-IsHeld (put_sec_ctx grace now agreed t) calls (put-IsHeld grace now agreed t held)
run-IsHeld t (expires now n ∷ calls) held =
    run-IsHeld (expire_timer now n t).0 calls (expire-IsHeld now n t held)
