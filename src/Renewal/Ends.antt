-- ===== src/Renewal/Ends.antt =====
-- node.cpp: a security context that is made or renewed, and the calls of timers that come after.
use bfc_tunnel.Base.{
  ℕ, suc, ◌-◌, ◌≡◌, ◌∙◌, refl, Bool, true, false, none, some, [], ◌∷◌, ◌++◌, map, arith, ◌==◌, All,
}
use mathlib.Core.Path.{ap, subst⁻¹}
use bfc_tunnel.Network.{find_if, erase_if}
use bfc_tunnel.Network.Keyed.{Distinct}
use bfc_tunnel.Peer.{SecurityCtx}
use bfc_tunnel.Renewal.{
  Due, Contexts, has_ctx, has_timer, cancel_due, wait_ms, expire_timer, change, agree,
  peer_get_or_create_sec_ctx, peer_schedule_sec_ctx_renewal_timer, put_sec_ctx,
  peer_mark_sec_ctx_expiring, peer_expire_security_context,
}
use bfc_tunnel.Renewal.Timers.{
  IsBelow, IsIssued, Issued-suc, find-armed, All-append_one, All-erase_if, All-remove_if,
}
use bfc_tunnel.Renewal.Lookup.{
  Rows, id_of, IsDistinct, found_or_new, find-create, find-change, create-IsDistinct, ids-change,
  find-remove,
}

abbrev pub renewal_of : ℕ → ℕ → ℕ → Due
renewal_of n i c = record { timer_id = n; expires = false; id = i; creation_id = c }

abbrev pub expiry_of : ℕ → ℕ → ℕ → Due
expiry_of n i c = record { timer_id = n; expires = true; id = i; creation_id = c }

-- What the calls of timers leave of the context with the id that is found.
module _ (now i : ℕ) (t : Contexts) (timer : ℕ) (ctx : SecurityCtx)
    (found : find_if (has_ctx i) t.contexts ≡ some (timer, ctx)) where
  mark-own :
      ctx.is_expiring ≡ false
      → let (marked, started) = peer_mark_sec_ctx_expiring now i ctx.creation_id t in
        (started ≡ true)
        × (marked.contexts
            ≡ change i (λ e. (t.next_timer, record e.1 { is_expiring = true })) t.contexts)
        × (marked.timers
            ≡ cancel_due timer t.timers
              ++ (expiry_of t.next_timer i ctx.creation_id, wait_ms (ctx.expiration_time_s - now))
                ∷ [])
  unfolding peer_mark_sec_ctx_expiring
  mark-own fresh =
      let same : (ctx.creation_id == ctx.creation_id) ≡ true = ground arith in
      rw (peer_mark_sec_ctx_expiring, found, same, fresh) (refl, refl, refl)

  expire-own :
      IsDistinct t.contexts
      → find_if (has_ctx i) (peer_expire_security_context i ctx.creation_id t).contexts ≡ none
  unfolding peer_expire_security_context
  expire-own d =
      let same : (ctx.creation_id == ctx.creation_id) ≡ true = ground arith in
      rw (peer_expire_security_context, found, same) (find-remove i t.contexts (timer, ctx) d found)

module _ (grace now : ℕ) (agreed : SecurityCtx) (t : Contexts) where
  abbrev pub put : Contexts
  put = put_sec_ctx grace now agreed t

  abbrev pub made : Rows
  made = change agreed.id (agree agreed) (peer_get_or_create_sec_ctx agreed.id t.contexts)

  abbrev pub old : ℕ × SecurityCtx
  old = found_or_new agreed.id (find_if (has_ctx agreed.id) t.contexts)

  abbrev pub new : SecurityCtx
  new = record (agree agreed old).1 { expiration_time_s = agreed.expiration_time_s }

  made-found : find_if (has_ctx agreed.id) made ≡ some (agree agreed old)
  made-found =
      find-change agreed.id (agree agreed) _ old (λ d. refl) (find-create agreed.id t.contexts)

  pub put-contexts :
      put.contexts
      ≡ change agreed.id
          (λ e. (t.next_timer, record e.1 { expiration_time_s = agreed.expiration_time_s }))
          made
  unfolding put_sec_ctx peer_schedule_sec_ctx_renewal_timer
  put-contexts = rw (put_sec_ctx, peer_schedule_sec_ctx_renewal_timer, made-found) refl

  pub put-found : find_if (has_ctx agreed.id) put.contexts ≡ some (t.next_timer, new)
  put-found =
      rw put-contexts (find-change agreed.id _ made (agree agreed old) (λ d. refl) made-found)

  put-IsDistinct : IsDistinct t.contexts → IsDistinct put.contexts
  put-IsDistinct d =
      subst⁻¹ Distinct
        (ap (map id_of) put-contexts
          ∙ (ids-change agreed.id _ made (λ e. refl)
              ∙ ids-change agreed.id (agree agreed) _ (λ e. refl)))
        (create-IsDistinct agreed.id t.contexts d)

  pub put-timers :
      put.timers
      ≡ cancel_due old.0 t.timers
        ++ (
          renewal_of t.next_timer agreed.id agreed.creation_id,
          wait_ms (agreed.expiration_time_s - now - grace),
        )
          ∷ []
  unfolding put_sec_ctx peer_schedule_sec_ctx_renewal_timer
  put-timers = rw (put_sec_ctx, peer_schedule_sec_ctx_renewal_timer, made-found) refl

  pub put-next : put.next_timer ≡ suc t.next_timer
  unfolding put_sec_ctx peer_schedule_sec_ctx_renewal_timer
  put-next = rw (put_sec_ctx, peer_schedule_sec_ctx_renewal_timer, made-found) refl

  -- Let the ids of the contexts be distinct, and the numbers of the pending timers below the next one.
  -- After a context is made or renewed, a timer with that number is pending, set to the expiration less
  -- the grace period. When it is due a security procedure starts, and a timer with the number after it
  -- is pending, set to the expiration. When that one is due the context is removed, so that no context
  -- with its id is found.
  pub put_sec_ctx-ends :
      (later last : ℕ)
      → IsDistinct t.contexts
      → IsIssued t
      → let put = put_sec_ctx grace now agreed t in
        let (marked, started) = expire_timer later t.next_timer put in
        let ended = (expire_timer last (suc t.next_timer) marked).0 in
        (find_if (has_timer t.next_timer) put.timers
          ≡ some (
            renewal_of t.next_timer agreed.id agreed.creation_id,
            wait_ms (agreed.expiration_time_s - now - grace),
          ))
        × (started ≡ true)
        × (find_if (has_timer (suc t.next_timer)) marked.timers
            ≡ some (
              expiry_of (suc t.next_timer) agreed.id agreed.creation_id,
              wait_ms (agreed.expiration_time_s - later),
            ))
        × (find_if (has_ctx agreed.id) ended.contexts ≡ none)
  unfolding expire_timer
  put_sec_ctx-ends later last d issued =
      let n = t.next_timer in
      let left = cancel_due old.0 t.timers in
      let renewal : Due × ℕ = (
        renewal_of n agreed.id agreed.creation_id,
        wait_ms (agreed.expiration_time_s - now - grace),
      ) in
      let below : All (IsBelow n) left =
        All-remove_if (IsBelow n) (has_timer old.0) t.timers issued in
      let armed : find_if (has_timer n) put.timers ≡ some renewal =
        rw put-timers (find-armed n left renewal below refl) in
      let due : Contexts = record put { timers = erase_if (has_timer n) put.timers } in
      let marking = peer_mark_sec_ctx_expiring later agreed.id agreed.creation_id due in
      let marked = marking.0 in
      let (starts, changed, set) = mark-own later agreed.id due n new put-found refl in
      let first : expire_timer later n put ≡ marking = rw (expire_timer, armed) refl in
      let expiry : ℕ → Due × ℕ = λ m.
        (expiry_of m agreed.id agreed.creation_id, wait_ms (agreed.expiration_time_s - later)) in
      let left_too : All (IsBelow (suc n)) put.timers =
        subst⁻¹ (All (IsBelow (suc n))) put-timers
          (All-append_one (IsBelow (suc n)) left renewal (Issued-suc n left below) (omega arith)) in
      let old_ones = cancel_due n due.timers in
      let below_too : All (IsBelow (suc n)) old_ones =
        All-remove_if (IsBelow (suc n)) (has_timer n) due.timers
          (All-erase_if (IsBelow (suc n)) (has_timer n) put.timers left_too) in
      let armed_too : find_if (has_timer (suc n)) marked.timers ≡ some (expiry (suc n)) =
        rw (set ∙ ap (λ m. old_ones ++ expiry m ∷ []) put-next)
          (find-armed (suc n) old_ones (expiry (suc n)) below_too refl) in
      let f : ℕ × SecurityCtx → ℕ × SecurityCtx =
        λ e. (put.next_timer, record e.1 { is_expiring = true }) in
      let found : find_if (has_ctx agreed.id) marked.contexts ≡ some (f (n, new)) =
        rw changed (find-change agreed.id f put.contexts (n, new) (λ e. refl) put-found) in
      let distinct : IsDistinct marked.contexts =
        subst⁻¹ Distinct (ap (map id_of) changed ∙ ids-change agreed.id f put.contexts (λ e. refl))
          (put-IsDistinct d) in
      let over : Contexts = record marked { timers = erase_if (has_timer (suc n)) marked.timers } in
      let gone : find_if (has_ctx agreed.id) (expire_timer last (suc n) marked).0.contexts ≡ none =
        rw (expire_timer, armed_too)
          (expire-own last agreed.id over put.next_timer (f (n, new)).1 found distinct) in
      (
        armed,
        ap (λ (x : Contexts × Bool). x.1) first ∙ starts,
        ap (λ (x : Contexts × Bool). find_if (has_timer (suc n)) x.0.timers) first ∙ armed_too,
        ap
              (λ (x : Contexts × Bool).
                find_if (has_ctx agreed.id) (expire_timer last (suc n) x.0).0.contexts)
              first
            ∙ gone,
      )
