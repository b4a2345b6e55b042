-- ===== src/Peer/Examples.antt =====
-- node.cpp: tests on concrete security contexts of a peer.
use bfc_tunnel.Base.{
  ℕ, ◌≡◌, ◌≤◌, ◌⊎◌, refl, true, false, some, none, List, [], ◌∷◌, arith, All, replicate,
}
use bfc_tunnel.Frame.{Frame, frame_at, get_sec_ctx, get_size, get_payload_size, get_bits}
use bfc_tunnel.Security.{Primitives, accept_frame, verify_frame_mac, cipher_frame_payload}
use bfc_tunnel.Network.{is_member, find_if}
use bfc_tunnel.Peer.{
  SecurityCtx, peer_get_next_sec_ctx_id, peer_select_sec_ctx, peer_accept_rx, peer_find_sec_ctx,
}
use bfc_tunnel.Peer.Ids.{ids_of, peer_get_next_sec_ctx_id_free}
use bfc_tunnel.Peer.Select.{IsChosen, peer_select_sec_ctx_usable}
use bfc_tunnel.Peer.Replay.{receive_all, peer_accept_rx-no_replay}

abbrev test_context : ℕ → ℕ → SecurityCtx
test_context i expiration = record {
  id = i;
  creation_id = i;
  integrity_key = [];
  confidentiality_key = [];
  rx_integrity_key = [];
  rx_confidentiality_key = [];
  integrity_algorithm = 0;
  confidentiality_algorithm = 0;
  expiration_time_s = expiration;
  is_expiring = false;
  last_rx_sn = 0;
  has_rx_sn = false;
}

-- Context 1 is about to expire at 100, and context 2 is usable.
abbrev test_contexts : List SecurityCtx
test_contexts = test_context 1 105 ∷ test_context 2 900 ∷ []

peer_get_next_sec_ctx_id_free_example :
    let i = peer_get_next_sec_ctx_id test_contexts in
    (1 ≤ i)
    × (i ≤ 15)
    × ((is_member i (ids_of test_contexts) ≡ false)
        ⊎ ((i ≡ 1) × ((j : ℕ) → 1 ≤ j → j ≤ 15 → is_member j (ids_of test_contexts) ≡ true)))
peer_get_next_sec_ctx_id_free_example = peer_get_next_sec_ctx_id_free test_contexts

peer_select_sec_ctx_usable_example :
    ((peer_select_sec_ctx 10 100 test_contexts ≡ none)
      × All (λ (ctx : SecurityCtx). ctx.expiration_time_s ≤ 100) test_contexts)
    ⊎ ((ctx : SecurityCtx) × (peer_select_sec_ctx 10 100 test_contexts ≡ some ctx)
        × IsChosen 10 100 (omega arith) test_contexts ctx)
peer_select_sec_ctx_usable_example = peer_select_sec_ctx_usable 10 100 (omega arith) test_contexts

-- A peer frame of security context 2 without a MAC.
abbrev test_frame : Frame
test_frame = record {
  has_base = true;
  base = 1 ∷ 4 ∷ 32 ∷ replicate 18 1;
  max_size = 21;
  mac_size = 0;
}

abbrev no_primitives : Primitives
no_primitives = record {
  hmac_sha256 = λ key bytes. [];
  aes_block = λ algorithm key. none;
  chacha20 = λ key iv bytes. none;
}

accepted_first : (peer_accept_rx no_primitives test_contexts test_frame).0 ≡ some test_frame
unfolding peer_accept_rx peer_find_sec_ctx find_if accept_frame verify_frame_mac
    cipher_frame_payload get_sec_ctx get_bits frame_at get_size get_payload_size
accepted_first = refl

peer_accept_rx-no_replay_example :
    let reached =
      receive_all no_primitives
        (peer_accept_rx no_primitives test_contexts test_frame).1
        (test_frame ∷ []) in
    peer_accept_rx no_primitives reached test_frame ≡ (none, reached)
peer_accept_rx-no_replay_example =
    peer_accept_rx-no_replay no_primitives test_contexts test_frame test_frame test_frame
      (test_frame ∷ []) accepted_first refl (omega arith)
