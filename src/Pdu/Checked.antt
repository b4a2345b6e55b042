-- ===== src/Pdu/Checked.antt =====
-- node.cpp, handle_pdu: which messages reach a handler.
use bfc_tunnel.Base.{
  ℕ, ◌≤◌, ◌≡◌, refl, true, false, Option, some, List, [], ◌∷◌, arith, Bool-cases, Option-cases, inl,
  inr, ◌==◌, leb,
}
use bfc_tunnel.Frame.{Frame, get_sec_ctx, get_src, get_sn, get_payload_type, frame_payload_view}
use bfc_tunnel.Security.{Primitives, accept_frame}
use bfc_tunnel.Network.{NetworkKeyCtx, network_accept_rx, get_network_sec_ctx, is_replay}
use bfc_tunnel.Peer.{SecurityCtx, peer_accept_rx, peer_find_sec_ctx, is_old}
use bfc_tunnel.Pdu.{received_frame, is_pdu_valid}
use bfc_tunnel.Pdu.Dispatch.{
  Reception, message, is_network, is_secured, whole, admit, decoded, deliver, handle_pdu,
}

-- How a frame was admitted, and as which frame it goes on.
pub data Checked (c : Primitives) (s : Reception) (f g : Frame) : Type 0 where
  by_network :
      (ctx : NetworkKeyCtx)
      → is_network f ≡ true
      → get_network_sec_ctx s.network (get_sec_ctx f) ≡ some ctx
      → is_replay ctx (get_src f) (get_sn f) ≡ false
      → accept_frame c f ctx.integrity_algorithm ctx.integrity_key ctx.confidentiality_algorithm
          ctx.confidentiality_key
        ≡ some g
      → Checked c s f g
  by_peer :
      (contexts : List SecurityCtx) (ctx : SecurityCtx)
      → is_secured f ≡ true
      → s.peers (get_src f) ≡ some contexts
      → peer_find_sec_ctx contexts (get_sec_ctx f) ≡ some ctx
      → is_old ctx (get_sn f) ≡ false
      → accept_frame c f ctx.integrity_algorithm ctx.rx_integrity_key ctx.confidentiality_algorithm
          ctx.rx_confidentiality_key
        ≡ some g
      → Checked c s f g
  unchecked : is_network f ≡ false → is_secured f ≡ false → f ≡ g → Checked c s f g

module _ (c : Primitives) (s : Reception) (f g : Frame) where
  network-Checked :
      is_network f ≡ true → (network_accept_rx c s.network f).accepted ≡ some g → Checked c s f g
  unfolding network_accept_rx
  network-Checked net h = elim (Option-cases (get_network_sec_ctx s.network (get_sec_ctx f))) [
    | inl unknown ↦ absurd (ground (arith, h, unknown))
    | inr (ctx, found) ↦ elim (Bool-cases (is_replay ctx (get_src f) (get_sn f))) [
      | inl again ↦ absurd (ground (arith, h, found, again))
      | inr new ↦ by_network ctx net found new (ground (arith, h, found, new))
    ]
  ]

  peer-Checked :
      (contexts : List SecurityCtx)
      → is_secured f ≡ true
      → s.peers (get_src f) ≡ some contexts
      → (peer_accept_rx c contexts f).0 ≡ some g
      → Checked c s f g
  unfolding peer_accept_rx
  peer-Checked contexts secured known h =
      elim (Option-cases (peer_find_sec_ctx contexts (get_sec_ctx f))) [
        | inl unknown ↦ absurd (ground (arith, h, unknown))
        | inr (ctx, found) ↦ elim (Bool-cases (is_old ctx (get_sn f))) [
          | inl again ↦ absurd (ground (arith, h, found, again))
          | inr new ↦ by_peer contexts ctx secured known found new (ground (arith, h, found, new))
        ]
      ]

  admit-Checked : (admit c s f).0 ≡ some g → Checked c s f g
  unfolding admit
  admit-Checked h = elim (Bool-cases (is_network f)) [
    | inl net ↦ network-Checked net (ground (arith, h, net))
    | inr local ↦ elim (Bool-cases (is_secured f)) [
      | inr open_frame ↦ unchecked local open_frame (ground (arith, h, local, open_frame))
      | inl secured ↦ elim (Option-cases (s.peers (get_src f))) [
        | inl unknown ↦ absurd (ground (arith, h, local, secured, unknown))
        | inr (contexts, known) ↦
            peer-Checked contexts secured known (ground (arith, h, local, secured, known))
      ]
    ]
  ]

module _ {M : Type 0} (decode : ℕ → List ℕ → Option M) where
  -- The message of a frame that was admitted.
  abbrev pub Delivered : Frame → ℕ → M → Type 0
  Delivered g t m =
      (t ≡ get_payload_type g)
      × (1 ≤ t)
      × (t ≤ 11)
      × (decode t (frame_payload_view (whole g) g.base) ≡ some m)

  decoded-some :
      (t u : ℕ) (m : M) (bytes : List ℕ)
      → decoded decode t bytes ≡ message u m
      → (u ≡ t) × (decode t bytes ≡ some m)
  decoded-some t u m bytes h = elim (Option-cases (decode t bytes)) [
    | inl fails ↦ absurd (ground (arith, h, fails))
    | inr (m', e) ↦ (ground (arith, h, e), ground (arith, h, e))
  ]

  deliver-view :
      (g : Frame) (t : ℕ) (m : M) (view : List ℕ)
      → frame_payload_view (whole g) g.base ≡ view
      → (get_payload_type g == 0) ≡ false
      → deliver decode g ≡ message t m
      → Delivered g t m
  unfolding deliver
  deliver-view g t m [] e other h = absurd (ground (arith, h, other, e))
  deliver-view g t m (byte ∷ bytes) e other h =
      let i = get_payload_type g in
      elim (Bool-cases (leb i 11)) [
        | inr unknown ↦ absurd (ground (arith, h, other, e, unknown))
        | inl known ↦
            let (same, read) =
              decoded-some i t m (byte ∷ bytes) (ground (arith, h, other, e, known)) in
            (same, ground (arith, same, other), ground (arith, same, known), rw (same, e) read)
      ]

  deliver-Delivered : (g : Frame) (t : ℕ) (m : M) → deliver decode g ≡ message t m → Delivered g t m
  unfolding deliver
  deliver-Delivered g t m h =
      let view = frame_payload_view (whole g) g.base in
      elim (Bool-cases (get_payload_type g == 0)) [
        | inl is_beacon ↦ absurd (ground (arith, h, is_beacon))
        | inr other ↦ deliver-view g t m view refl other h
      ]

module _ (c : Primitives) {M : Type 0} (decode : ℕ → List ℕ → Option M) where
  -- A message reaches its handler only from a PDU that is valid, as what the decoder for its payload
  -- type, one of 1 to 11, makes of the bytes behind the header. A frame of one of the two network types was
  -- accepted under the keys of the network's context with its number, with a sequence number that is not
  -- a replay; a frame to the peer that names a security context was accepted under the receiving
  -- keys of that context of a known peer, with a sequence number that is not old; and only a frame that
  -- is neither of these goes on as it is.
  pub handle_pdu-Checked :
      (s s' : Reception) (pdu : List ℕ) (t : ℕ) (m : M)
      → handle_pdu c decode s pdu ≡ (message t m, s')
      → (is_pdu_valid pdu ≡ true)
        × ((g : Frame) × Checked c s (received_frame pdu) g × Delivered decode g t m)
  unfolding handle_pdu
  handle_pdu-Checked s s' pdu t m h = elim (Bool-cases (is_pdu_valid pdu)) [
    | inr bad ↦ absurd (ground (arith, h, bad))
    | inl good ↦ elim (Option-cases (admit c s (received_frame pdu)).0) [
      | inl refused ↦ absurd (ground (arith, h, good, refused))
      | inr (g, admitted) ↦ (
        good,
        (
          g,
          admit-Checked c s (received_frame pdu) g admitted,
          deliver-Delivered decode g t m (ground (arith, h, good, admitted)),
        ),
      )
    ]
  ]
