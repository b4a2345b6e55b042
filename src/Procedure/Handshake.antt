-- ===== src/Procedure/Handshake.antt =====
-- node.cpp: what a procedure leaves on both sides.
use bfc_tunnel.Base.{
  ℕ, ◌≡◌, ◌∙◌, refl, sym, ap, false, some, [], ◌∷◌, arith, Option-cases, ◌⊎◌, inl, inr,
}
use bfc_tunnel.Dh.{
  Curve, Dhke, setup_handshake, get_own_ephemeral_public, set_peer_ephemeral_public,
}
use bfc_tunnel.Dh.Agreement.{Agreed}
use bfc_tunnel.Frame.{Frame}
use bfc_tunnel.Network.{find_if}
use bfc_tunnel.Topology.{PeerAddress}
use mathlib.Core.Option
use bfc_tunnel.Peer.{SecurityCtx, peer_get_next_creation_id}
use bfc_tunnel.Renewal.{has_ctx, put_sec_ctx}
use bfc_tunnel.Renewal.Ends.{new, put-found}
use bfc_tunnel.Procedure.{
  Status, Msg1, Msg2, of_msg2, PublicKey, SecurityProcedure, transmits, PeerState, Identity, Node,
  Libraries, security_contexts,
}
use bfc_tunnel.Procedure.Sending.{ends, throws, new_dhke, peer_send_msg2}
use bfc_tunnel.Procedure.Transactions.{write_msg1, send_msg1}
use bfc_tunnel.Procedure.Handlers.{Terms, agreed_ctx, install_ctx, accept_msg1, consider_msg1}

-- Two contexts under which each side reads what the other writes.
pub record Matches (a b : SecurityCtx) : Type 0 where
  pub integrity_algorithm : a.integrity_algorithm ≡ b.integrity_algorithm
  pub confidentiality_algorithm : a.confidentiality_algorithm ≡ b.confidentiality_algorithm
  pub expiration_time_s : a.expiration_time_s ≡ b.expiration_time_s
  pub integrity_to : a.integrity_key ≡ b.rx_integrity_key
  pub integrity_back : b.integrity_key ≡ a.rx_integrity_key
  pub confidentiality_to : a.confidentiality_key ≡ b.rx_confidentiality_key
  pub confidentiality_back : b.confidentiality_key ≡ a.rx_confidentiality_key

-- Both sides name the same context, with the same algorithms and end.
abbrev pub SameTerms : Terms → Terms → Type 0
SameTerms t u =
    (t.id ≡ u.id)
    × (t.integrity_algorithm ≡ u.integrity_algorithm)
    × (t.confidentiality_algorithm ≡ u.confidentiality_algorithm)
    × (t.expiration_time_s ≡ u.expiration_time_s)

-- A context has the keys, the algorithms and the end of another.
abbrev pub Holds : SecurityCtx → SecurityCtx → Type 0
Holds a ctx =
    (ctx.integrity_key ≡ a.integrity_key)
    × (ctx.rx_integrity_key ≡ a.rx_integrity_key)
    × (ctx.confidentiality_key ≡ a.confidentiality_key)
    × (ctx.rx_confidentiality_key ≡ a.rx_confidentiality_key)
    × (ctx.integrity_algorithm ≡ a.integrity_algorithm)
    × (ctx.confidentiality_algorithm ≡ a.confidentiality_algorithm)
    × (ctx.expiration_time_s ≡ a.expiration_time_s)

pub Holds-Matches : (a b x y : SecurityCtx) → Matches a b → Holds a x → Holds b y → Matches x y
Holds-Matches a b x y m hx hy = ground arith

-- The terms that a proposal names.
abbrev pub terms_of : Msg1 → Terms
terms_of m = record {
  id = m.sec_ctx;
  creation_id = 0;
  integrity_algorithm = m.integrity_algorithm;
  confidentiality_algorithm = m.confidentiality_algorithm;
  expiration_time_s = m.expiration_time_s;
}

abbrev next_id : PeerState → ℕ
next_id p =
    peer_get_next_creation_id (security_contexts p)
      (Option.map (λ (s : SecurityProcedure). s.creation_id) p.sec_proc)

pub agreed_ctx-Matches :
    (c : Curve) (i r : Dhke) (t u : Terms) (a b : SecurityCtx)
    → SameTerms t u
    → ((algorithm : ℕ) → Agreed c i r algorithm)
    → agreed_ctx c i t ≡ some a
    → agreed_ctx c r u ≡ some b
    → Matches a b
unfolding agreed_ctx
agreed_ctx-Matches c i r t u a b same agree ha hb =
    let ki = agree t.integrity_algorithm in
    let kc = agree t.confidentiality_algorithm in ground (arith, ki, kc)

agreed_ctx-id :
    (c : Curve) (d : Dhke) (t : Terms) (a : SecurityCtx) → agreed_ctx c d t ≡ some a → a.id ≡ t.id
unfolding agreed_ctx
agreed_ctx-id c d t a h = ground arith

-- The context that is made is found, with the keys that were derived.
pub install-found :
    (l : Libraries) (n : Node) (t : Terms) (d : Dhke) (p q : PeerState)
    → install_ctx l n t d p ≡ (q, ends)
    → (a : SecurityCtx) × (agreed_ctx l.curve d t ≡ some a)
      × (find_if (has_ctx t.id) q.contexts.contexts
          ≡ some (p.contexts.next_timer, new n.security_ctx_grace_period_s n.now a p.contexts))
unfolding install_ctx
install-found l n t d p q h = elim (Option-cases (agreed_ctx l.curve d t)) [
  | inl fails ↦ absurd (ground (arith, h, fails))
  | inr (a, derived) ↦
      let put = put_sec_ctx n.security_ctx_grace_period_s n.now a p.contexts in
      let same : q.contexts ≡ put = ground (arith, h, derived) in
      let own : t.id ≡ a.id = sym (agreed_ctx-id l.curve d t a derived) in
      (a, derived, rw (own, same) (put-found n.security_ctx_grace_period_s n.now a p.contexts))
]

pub write-ends :
    (l : Libraries) (n : Node) (i : ℕ) (s s0 : SecurityProcedure) (p q : PeerState)
    → write_msg1 l n i s0 p ≡ (q, ends)
    → q.sec_proc ≡ some s
    → (s.dhke ≡ get_own_ephemeral_public l.curve s0.dhke n.random_ephemeral)
      × (s.msg1.ephemeral
          ≡ (get_own_ephemeral_public l.curve s0.dhke n.random_ephemeral).own_ephemeral_public)
      × (s.msg1.sec_ctx ≡ s0.id)
      × (s.id ≡ s0.id)
      × (q.public_key ≡ p.public_key)
unfolding write_msg1 send_msg1
write-ends l n i s s0 p q h e = ground arith

pub install-flow :
    (l : Libraries) (n : Node) (t : Terms) (d : Dhke) (p : PeerState)
    → (q : PeerState) × ((install_ctx l n t d p ≡ (q, ends))
        ⊎ (install_ctx l n t d p ≡ (q, throws)))
      × (q.outputs ≡ p.outputs)
unfolding install_ctx
install-flow l n t d p = elim (Option-cases (agreed_ctx l.curve d t)) [
  | inl fails ↦ ((install_ctx l n t d p).0, inr (ground (arith, fails)), ground (arith, fails))
  | inr (a, derived) ↦
      ((install_ctx l n t d p).0, inl (ground (arith, derived)), ground (arith, derived))
]

-- What goes out, where nothing was left to go out before, is one answer that takes the proposal up.
abbrev pub Answers : PeerState → PeerAddress → ℕ → Frame → Msg2 → Type 0
Answers q to sn f m2 = (q.outputs ≡ transmits to sn (of_msg2 m2) f ∷ []) × (m2.status ≡ Status.ok)

module _ (l : Libraries) (n : Node) (own : Identity) (key : PublicKey) (from : PeerAddress)
    (m : Msg1) (m2 : Msg2) (to : PeerAddress) (sn : ℕ) (f : Frame) where
  pub consider-accepts :
      (p q : PeerState)
      → consider_msg1 l n own key from m p ≡ (q, ends)
      → p.outputs ≡ []
      → Answers q to sn f m2
      → accept_msg1 l n own key from m p ≡ (q, ends)
  unfolding consider_msg1 peer_send_msg2
  consider-accepts p q h quiet answers = ground arith

  sent-answer :
      (made q : PeerState) (answer : Msg2)
      → peer_send_msg2 l n made from answer ≡ q
      → made.outputs ≡ []
      → Answers q to sn f m2
      → (m2 ≡ answer) × (q.contexts ≡ made.contexts)
  unfolding peer_send_msg2
  sent-answer made q answer h quiet answers = ground arith

  -- The keys of the side that answers.
  abbrev answering : Dhke → Dhke
  answering set_up =
      get_own_ephemeral_public l.curve (set_peer_ephemeral_public set_up m.ephemeral)
        n.random_ephemeral

  -- The context of the side that answers.
  pub record Answered (q : PeerState) : Type 0 where
    pub set_up : Dhke
    pub starts : setup_handshake l.curve new_dhke own.private_key key.public_key false ≡ some set_up
    pub terms : Terms
    pub same : SameTerms terms (terms_of m)
    pub ephemeral : m2.ephemeral ≡ (answering set_up).own_ephemeral_public
    pub derived : SecurityCtx
    pub derives : agreed_ctx l.curve (answering set_up) terms ≡ some derived
    pub timer : ℕ
    pub context : SecurityCtx
    pub found : find_if (has_ctx m.sec_ctx) q.contexts.contexts ≡ some (timer, context)
    pub holds : Holds derived context

  pub accept-Answered :
      (p q : PeerState)
      → accept_msg1 l n own key from m p ≡ (q, ends)
      → p.outputs ≡ []
      → Answers q to sn f m2
      → Answered q
  unfolding accept_msg1
  accept-Answered p q h quiet answers =
      let started = setup_handshake l.curve new_dhke own.private_key key.public_key false in
      elim (Option-cases started) [
        | inl fails ↦ absurd (ground (arith, h, fails))
        | inr (set_up, starts) ↦
            let terms = record (terms_of m) { creation_id = next_id p } in
            let (made, flow, quiet_too) = install-flow l n terms (answering set_up) p in
            elim flow [
              | inr thrown ↦ absurd (ground (arith, h, starts, thrown))
              | inl made_it ↦
                  let answer : Msg2 = record {
                    id = m.id;
                    status = Status.ok;
                    ephemeral = (answering set_up).own_ephemeral_public;
                  } in
                  let sent : peer_send_msg2 l n made from answer ≡ q =
                    ground (arith, h, starts, made_it) in
                  let (is_answer, kept) =
                    sent-answer made q answer sent (quiet_too ∙ quiet) answers in
                  let (a, derives, found) =
                    install-found l n terms (answering set_up) p made made_it in
                  record {
                    set_up = set_up;
                    starts = starts;
                    terms = terms;
                    same = (refl, refl, refl, refl);
                    ephemeral = ap (λ (r : Msg2). r.ephemeral) is_answer;
                    derived = a;
                    derives = derives;
                    timer = p.contexts.next_timer;
                    context = new n.security_ctx_grace_period_s n.now a p.contexts;
                    found = rw kept found;
                    holds = (refl, refl, refl, refl, refl, refl, refl);
                  }
            ]
      ]
