-- ===== src/Peer.antt =====
-- src/bfc_tunnel/node.cpp: the security contexts of one peer, and the frames accepted under them.
-- The clock is an argument. The creation id of a security procedure that the peer has going on is an
-- argument of `peer_get_next_creation_id`.
pub mod Ids
pub mod Select
pub mod Replay
mod Examples
use bfc_tunnel.Base.{
  ℕ, ◌+◌, ◌%◌, ◌^◌, Bool, true, false, not, ◌&&◌, Option, none, some, List, [], ◌∷◌, ◌++◌, map, ltb,
  leb, ◌==◌, if◌then◌else◌, length,
}
use mathlib.Core.Option
use bfc_tunnel.Frame.{Frame, get_sec_ctx, get_sn}
use bfc_tunnel.Security.{Primitives, accept_frame}
use bfc_tunnel.Network.{find_if, remove_if, first_unused}

pub record SecurityCtx : Type 0 where
  pub id : ℕ
  pub creation_id : ℕ
  pub integrity_key : List ℕ
  pub confidentiality_key : List ℕ
  pub rx_integrity_key : List ℕ
  pub rx_confidentiality_key : List ℕ
  pub integrity_algorithm : ℕ
  pub confidentiality_algorithm : ℕ
  pub expiration_time_s : ℕ
  pub is_expiring : Bool
  pub last_rx_sn : ℕ
  pub has_rx_sn : Bool

-- The set of the numbers 1 to 15, and the erasing of each number that is used.
abbrev pub all_ids : List ℕ
all_ids = 1 ∷ 2 ∷ 3 ∷ 4 ∷ 5 ∷ 6 ∷ 7 ∷ 8 ∷ 9 ∷ 10 ∷ 11 ∷ 12 ∷ 13 ∷ 14 ∷ 15 ∷ []

unfoldable pub erase_ids : List SecurityCtx → List ℕ → List ℕ
unfolding remove_if
erase_ids [] ids = ids
erase_ids (ctx ∷ rest) ids = erase_ids rest (remove_if (λ i. i == ctx.id) ids)

abbrev pub first_or_one : List ℕ → ℕ
first_or_one [] = 1
first_or_one (i ∷ ids) = i

unfoldable pub peer_get_next_sec_ctx_id : List SecurityCtx → ℕ
unfolding erase_ids
peer_get_next_sec_ctx_id contexts = first_or_one (erase_ids contexts all_ids)

abbrev pub used_ids : List SecurityCtx → Option ℕ → List ℕ
used_ids contexts none = map (λ (ctx : SecurityCtx). ctx.creation_id) contexts
used_ids contexts (some ongoing) = ongoing ∷ map (λ (ctx : SecurityCtx). ctx.creation_id) contexts

-- The fuel is the number of used ones.
unfoldable pub peer_get_next_creation_id : List SecurityCtx → Option ℕ → ℕ
unfolding first_unused
peer_get_next_creation_id contexts ongoing =
    let used = used_ids contexts ongoing in first_unused (length used) used 0

abbrev pub has_id : ℕ → SecurityCtx → Bool
has_id i ctx = ctx.id == i

unfoldable pub peer_find_sec_ctx : List SecurityCtx → ℕ → Option SecurityCtx
unfolding find_if
peer_find_sec_ctx contexts i = find_if (has_id i) contexts

-- Times are words of 64 bits.
unfoldable pub peer_sec_ctx_is_usable : ℕ → ℕ → SecurityCtx → Bool
peer_sec_ctx_is_usable grace now ctx =
    not ctx.is_expiring && ltb ((now + grace) % 2 ^ 64) ctx.expiration_time_s

unfoldable pub peer_has_usable_sec_ctx : ℕ → ℕ → List SecurityCtx → Bool
unfolding peer_sec_ctx_is_usable
peer_has_usable_sec_ctx grace now [] = false
peer_has_usable_sec_ctx grace now (ctx ∷ rest) =
    if peer_sec_ctx_is_usable grace now ctx then true else peer_has_usable_sec_ctx grace now rest

abbrev pub keep_first : SecurityCtx → Option SecurityCtx → Option SecurityCtx
keep_first ctx none = some ctx
keep_first ctx (some fallback) = some fallback

-- The loop of `peer_select_sec_ctx`, with the fallback so far.
unfoldable pub select_with : ℕ → ℕ → List SecurityCtx → Option SecurityCtx → Option SecurityCtx
unfolding peer_sec_ctx_is_usable
select_with grace now [] fallback = fallback
select_with grace now (ctx ∷ rest) fallback =
    let skipped = select_with grace now rest fallback in
    let kept = select_with grace now rest (keep_first ctx fallback) in
    if leb ctx.expiration_time_s now
    then skipped
    else if peer_sec_ctx_is_usable grace now ctx
    then some ctx
    else kept

unfoldable pub peer_select_sec_ctx : ℕ → ℕ → List SecurityCtx → Option SecurityCtx
unfolding select_with
peer_select_sec_ctx grace now contexts = select_with grace now contexts none

-- Changing the context that `peer_find_sec_ctx` finds, through its pointer.
unfoldable pub update_sec_ctx :
    ℕ → (SecurityCtx → SecurityCtx) → List SecurityCtx → List SecurityCtx
update_sec_ctx i f [] = []
update_sec_ctx i f (ctx ∷ rest) =
    if has_id i ctx then f ctx ∷ rest else ctx ∷ update_sec_ctx i f rest

abbrev pub is_old : SecurityCtx → ℕ → Bool
is_old ctx sn = ctx.has_rx_sn && leb sn ctx.last_rx_sn

abbrev pub record_sn : ℕ → SecurityCtx → SecurityCtx
record_sn sn ctx = record ctx { last_rx_sn = sn; has_rx_sn = true }

-- The frame with its payload deciphered where it is accepted, and the contexts.
unfoldable pub peer_accept_rx :
    Primitives → List SecurityCtx → Frame → Option Frame × List SecurityCtx
unfolding peer_find_sec_ctx update_sec_ctx
peer_accept_rx c contexts frame =
    let i = get_sec_ctx frame in
    let sn = get_sn frame in
    elim (peer_find_sec_ctx contexts i) [
      | none ↦ (none, contexts)
      | some ctx ↦
          if is_old ctx sn
          then (none, contexts)
          else elim (accept_frame c frame ctx.integrity_algorithm ctx.rx_integrity_key
              ctx.confidentiality_algorithm ctx.rx_confidentiality_key) [
                | none ↦ (none, contexts)
                | some plain ↦ (some plain, update_sec_ctx i (record_sn sn) contexts)
              ]
    ]
