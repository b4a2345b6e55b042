-- ===== src/Peer/Replay.antt =====
-- node.cpp, peer_accept_rx: a peer's sequence number is accepted once.
use bfc_tunnel.Base.{
  ℕ, ◌≡◌, ◌≢◌, ◌≤◌, inl, inr, refl, ◌∙◌, sym, true, false, Option, none, some, List, [], ◌∷◌, arith,
  ◌==◌, Bool-cases, Option-cases,
}
use mathlib.Core.Path.{subst⁻¹}
use mathlib.Core.Option.{some-injective}
use bfc_tunnel.Frame.{Frame, get_sec_ctx, get_sn}
use bfc_tunnel.Security.{Primitives, accept_frame}
use bfc_tunnel.Network.{find_if}
use bfc_tunnel.Peer.{
  SecurityCtx, peer_find_sec_ctx, update_sec_ctx, peer_accept_rx, is_old, record_sn,
}

find-record_self :
    (sn i : ℕ) (contexts : List SecurityCtx) (ctx : SecurityCtx)
    → peer_find_sec_ctx contexts i ≡ some ctx
    → peer_find_sec_ctx (update_sec_ctx i (record_sn sn) contexts) i ≡ some (record_sn sn ctx)
unfolding peer_find_sec_ctx update_sec_ctx find_if
find-record_self sn i [] ctx e = absurd (ground arith)
find-record_self sn i (x ∷ xs) ctx e = elim (Bool-cases (x.id == i)) [
  | inl here ↦
      let same : x ≡ ctx = some-injective x ctx (ground (arith, e)) in rw (sym same) (ground arith)
  | inr on ↦ ground (arith, find-record_self sn i xs ctx (ground (arith, e)))
]

find-record_other :
    (sn i j : ℕ) (contexts : List SecurityCtx)
    → j ≢ i
    → peer_find_sec_ctx (update_sec_ctx j (record_sn sn) contexts) i ≡ peer_find_sec_ctx contexts i
unfolding peer_find_sec_ctx update_sec_ctx find_if
find-record_other sn i j [] ne = refl
find-record_other sn i j (x ∷ xs) ne = ground (arith, find-record_other sn i j xs ne)

-- A number of at least `sn` has been recorded in a context.
abbrev Seen : ℕ → ℕ → List SecurityCtx → Type 0
Seen i sn contexts =
    (ctx : SecurityCtx) × (peer_find_sec_ctx contexts i ≡ some ctx)
    × (ctx.has_rx_sn ≡ true)
    × (sn ≤ ctx.last_rx_sn)

-- The two ways to receive a frame.
module _ (c : Primitives) (contexts : List SecurityCtx) (frame : Frame) where
  data Received : Option Frame × List SecurityCtx → Type 0 where
    dropped : Received (none, contexts)
    recorded :
        (ctx : SecurityCtx) (plain : Frame)
        → peer_find_sec_ctx contexts (get_sec_ctx frame) ≡ some ctx
        → is_old ctx (get_sn frame) ≡ false
        → Received
            (some plain, update_sec_ctx (get_sec_ctx frame) (record_sn (get_sn frame)) contexts)

  received : Received (peer_accept_rx c contexts frame)
  unfolding peer_accept_rx
  received = elim (Option-cases (peer_find_sec_ctx contexts (get_sec_ctx frame))) [
    | inl none_found ↦ subst⁻¹ Received (ground (arith, none_found)) dropped
    | inr (ctx, found) ↦ elim (Bool-cases (is_old ctx (get_sn frame))) [
      | inl again ↦ subst⁻¹ Received (ground (arith, found, again)) dropped
      | inr new ↦
          elim (Option-cases (
            accept_frame c frame ctx.integrity_algorithm ctx.rx_integrity_key
              ctx.confidentiality_algorithm ctx.rx_confidentiality_key)) [
                | inl bad ↦ subst⁻¹ Received (ground (arith, found, new, bad)) dropped
                | inr (plain, good) ↦
                    subst⁻¹ Received (ground (arith, found, new, good))
                      (recorded ctx plain found new)
              ]
    ]
  ]

Received-Seen :
    (c : Primitives) (contexts : List SecurityCtx) (frame : Frame)
    (r : Option Frame × List SecurityCtx) (i sn : ℕ)
    → Seen i sn contexts
    → Received c contexts frame r
    → Seen i sn r.1
Received-Seen c contexts frame r i sn seen dropped = seen
Received-Seen c contexts frame r i sn (ctx, found, known, low) (recorded ctx' plain found' new) =
    elim (Bool-cases (get_sec_ctx frame == i)) [
      | inl here ↦
          let e : get_sec_ctx frame ≡ i = ground arith in
          let same : ctx' ≡ ctx = some-injective ctx' ctx (sym (rw e at found') ∙ found) in
          let newer : is_old ctx (get_sn frame) ≡ false = rw same at new in
          (
            record_sn (get_sn frame) ctx,
            rw e (find-record_self (get_sn frame) i contexts ctx found),
            refl,
            ground (arith, known, newer, low),
          )
      | inr elsewhere ↦
          (ctx, find-record_other (get_sn frame) i _ contexts (ground arith) ∙ found, known, low)
    ]

-- Receiving frames one after the other.
unfoldable pub receive_all : Primitives → List SecurityCtx → List Frame → List SecurityCtx
receive_all c contexts [] = contexts
receive_all c contexts (frame ∷ frames) = receive_all c (peer_accept_rx c contexts frame).1 frames

receive_all-Seen :
    (c : Primitives) (contexts : List SecurityCtx) (frames : List Frame) (i sn : ℕ)
    → Seen i sn contexts
    → Seen i sn (receive_all c contexts frames)
unfolding receive_all
receive_all-Seen c contexts [] i sn seen = seen
receive_all-Seen c contexts (frame ∷ frames) i sn seen =
    receive_all-Seen c (peer_accept_rx c contexts frame).1 frames i sn
      (Received-Seen c contexts frame _ i sn seen (received c contexts frame))

Seen-after :
    (c : Primitives) (contexts : List SecurityCtx) (frame plain : Frame)
    (r : Option Frame × List SecurityCtx)
    → r.0 ≡ some plain
    → Received c contexts frame r
    → Seen (get_sec_ctx frame) (get_sn frame) r.1
Seen-after c contexts frame plain r e dropped = absurd (ground arith)
Seen-after c contexts frame plain r e (recorded ctx plain' found new) = (
  record_sn (get_sn frame) ctx,
  find-record_self (get_sn frame) _ contexts ctx found,
  refl,
  omega arith,
)

-- A peer's sequence number is accepted once: after a frame has been accepted under a security context
-- of the peer, and whatever other frames are received under its contexts in between, a frame of the
-- same security context is dropped unless its sequence number is greater, and dropping it changes
-- nothing.
pub peer_accept_rx-no_replay :
    (c : Primitives) (contexts : List SecurityCtx) (first plain later : Frame)
    (between : List Frame)
    → (peer_accept_rx c contexts first).0 ≡ some plain
    → get_sec_ctx later ≡ get_sec_ctx first
    → get_sn later ≤ get_sn first
    → let reached = receive_all c (peer_accept_rx c contexts first).1 between in
      peer_accept_rx c reached later ≡ (none, reached)
peer_accept_rx-no_replay c contexts first plain later between ok slot old =
    let seen =
      receive_all-Seen c (peer_accept_rx c contexts first).1 between _ _
        (Seen-after c contexts first plain _ ok (received c contexts first)) in
    let (ctx, found, known, low) = seen in
    let stale : is_old ctx (get_sn later) ≡ true = ground (arith, known, low) in
    unfold peer_accept_rx in (ground (arith, rw (sym slot) at found, stale))
