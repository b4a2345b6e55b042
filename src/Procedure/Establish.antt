-- ===== src/Procedure/Establish.antt =====
-- node.cpp: a procedure from its start to the contexts of both sides.
use bfc_tunnel.Base.{
  ℕ, zero, suc, ◌≡◌, ◌∙◌, refl, sym, ap, true, false, none, some, [], ◌∷◌, ◌++◌, arith,
  Option-cases, inl, inr, length,
}
use bfc_tunnel.Frame.{Frame}
use bfc_tunnel.Dh.{
  Curve, Dhke, setup_handshake, get_own_ephemeral_public, set_peer_ephemeral_public,
}
use bfc_tunnel.Dh.Agreement.{IsLawful, Agreed, after_exchange, handshake-Agreed}
use bfc_tunnel.Network.{find_if}
use bfc_tunnel.Topology.{PeerAddress}
use bfc_tunnel.Peer.{SecurityCtx}
use bfc_tunnel.Renewal.{has_ctx}
use bfc_tunnel.Renewal.Ends.{new}
use bfc_tunnel.Procedure.{
  Code, Status, Msg1, Msg2, PublicKey, Completion, sender_queued, SecurityProcedure, Transaction,
  secures, PeerState, Identity, Node, Libraries,
}
use bfc_tunnel.Procedure.Sending.{
  Flow, ends, completes, throws, dhkt_x25519, new_dhke, handshake_for, new_procedure, queue,
  peer_start_security_procedure,
}
use bfc_tunnel.Procedure.Transactions.{
  write_msg1, do_cb, done_cb, begin, settle, arm_after, end_transaction, process_from, weight,
  peer_process_pending_transactions, peer_finish_security_procedure, after_start,
  peer_complete_transaction,
}
use bfc_tunnel.Procedure.Handlers.{
  Terms, agreed_ctx, consider_msg1, take_msg2, handle_msg1, handle_msg2, start_security,
  count_activity, looked_up,
}
use bfc_tunnel.Procedure.Settled.{done_cb-Stays}
use bfc_tunnel.Procedure.Kept.{complete-KeepsRows}
use bfc_tunnel.Procedure.Handshake.{
  Matches, Holds, Holds-Matches, SameTerms, terms_of, agreed_ctx-Matches, install-found,
  install-flow, write-ends, Answers, consider-accepts, accept-Answered,
}

write-fails :
    (l : Libraries) (n : Node) (i : ℕ) (s0 : SecurityProcedure) (p q : PeerState) (code : Code)
    → write_msg1 l n i s0 p ≡ (q, completes code)
    → q.pending_transactions ≡ p.pending_transactions
unfolding write_msg1
write-fails l n i s0 p q code h = ground arith

done-none : (code : Code) (p : PeerState) → (done_cb secures code p).0.sec_proc ≡ none
unfolding done_cb peer_finish_security_procedure
done-none code p = ground arith

pub idle-process :
    (l : Libraries) (n : Node) (fuel : ℕ) (p : PeerState)
    → p.current_transaction ≡ none
    → p.pending_transactions ≡ []
    → process_from l fuel n p ≡ (p, ends)
unfolding process_from
idle-process l n zero p idle empty = refl
idle-process l n (suc fuel) p idle empty = ground (arith, idle, empty)

-- The procedure that a message is sent for: its keys are set up, and the message names the public
-- one of the fresh key.
pub record Proposed (l : Libraries) (n : Node) (s0 s : SecurityProcedure) : Type 0 where
  pub fresh : s.dhke ≡ get_own_ephemeral_public l.curve s0.dhke n.random_ephemeral
  pub named :
      s.msg1.ephemeral
      ≡ (get_own_ephemeral_public l.curve s0.dhke n.random_ephemeral).own_ephemeral_public
  pub number : s.msg1.sec_ctx ≡ s.id

-- An idle peer, whose key is known.
pub record IsIdle (p : PeerState) (key : PublicKey) : Type 0 where
  pub known : p.public_key ≡ some key
  pub free : p.sec_proc ≡ none
  pub idle : p.current_transaction ≡ none
  pub empty : p.pending_transactions ≡ []

arm_after-plain : (r : PeerState × Flow) (code : Code) → (arm_after r).1 ≡ completes code → ⊥
arm_after-plain (p, ends) code h = ground arith
arm_after-plain (p, throws) code h = ground arith
arm_after-plain (p, completes failure) code h = ground arith

module _ (l : Libraries) (n : Node) where
  -- The first transaction of an idle peer has been sent.
  settle-Proposed :
      (fuel i : ℕ) (s0 s : SecurityProcedure) (p w q : PeerState) (flow : Flow)
      → p.pending_transactions ≡ []
      → write_msg1 l n i s0 p ≡ (w, flow)
      → settle
          (λ code r. process_from l fuel n (end_transaction (done_cb secures code r).0))
          (w, flow)
        ≡ (q, ends)
      → q.sec_proc ≡ some s
      → Proposed l n s0 s × (q.public_key ≡ p.public_key)
  settle-Proposed fuel i s0 s p w q ends empty wrote h e =
      let held : w.sec_proc ≡ some s = ground (arith, h, e) in
      let (fresh, named, number, same, key) = write-ends l n i s s0 p w wrote held in
      (record { fresh = fresh; named = named; number = number ∙ sym same }, ground (arith, h, key))
  settle-Proposed fuel i s0 s p w q throws empty wrote h e = absurd (ground arith)
  settle-Proposed fuel i s0 s p w q (completes code) empty wrote h e =
      let r = end_transaction (done_cb secures code w).0 in
      let none_left : r.pending_transactions ≡ [] =
        (done_cb-Stays secures code w).2 ∙ (write-fails l n i s0 p w code wrote ∙ empty) in
      let over = idle-process l n fuel r refl none_left in
      let gone : q.sec_proc ≡ none =
        ap (λ (x : PeerState × Flow). x.0.sec_proc) (sym h)
        ∙ (ap (λ (x : PeerState × Flow). (arm_after x).0.sec_proc) over ∙ done-none code w) in
      absurd (ground (arith, gone, e))

  abbrev after_failure : ℕ → Code → PeerState → PeerState × Flow
  after_failure fuel code r = process_from l fuel n (end_transaction (done_cb secures code r).0)

  process-first :
      (fuel i : ℕ) (s0 : SecurityProcedure) (p : PeerState)
      → p.current_transaction ≡ none
      → p.pending_transactions ≡ record { id = i; work = secures } ∷ []
      → p.sec_proc ≡ some s0
      → s0.state ≡ sender_queued
      → process_from l (suc fuel) n p
        ≡ settle
            (after_failure fuel)
            (write_msg1 l n p.trid_ctr s0 (begin (record { id = i; work = secures }) [] p))
  unfolding process_from do_cb
  process-first fuel i s0 p idle waiting going queued = ground (arith, idle, waiting, going, queued)

  settle-plain :
      (fuel : ℕ) (r : PeerState × Flow) (code : Code)
      → (settle (after_failure fuel) r).1 ≡ completes code
      → ⊥
  settle-plain fuel (p, ends) code h = ground arith
  settle-plain fuel (p, throws) code h = ground arith
  settle-plain fuel (p, completes failure) code h =
      arm_after-plain (after_failure fuel failure p) code h

  after_start-ends :
      (r : PeerState × Flow) (q : PeerState)
      → ((code : Code) → r.1 ≡ completes code → ⊥)
      → after_start r ≡ (q, ends)
      → r ≡ (q, ends)
  after_start-ends (p, ends) q plain h = h
  after_start-ends (p, throws) q plain h = absurd (ground arith)
  after_start-ends (p, completes code) q plain h = absurd (plain code refl)

  first_of : Completion → Dhke → PeerState → PeerState
  first_of c d p = queue secures (record p { sec_proc = some (new_procedure l c d p) })

  process-Proposed :
      (c : Completion) (d : Dhke) (key : PublicKey) (p q : PeerState) (s : SecurityProcedure)
      → IsIdle p key
      → after_start (peer_process_pending_transactions l n (first_of c d p)) ≡ (q, ends)
      → q.sec_proc ≡ some s
      → Proposed l n (new_procedure l c d p) s × (q.public_key ≡ p.public_key)
  unfolding peer_process_pending_transactions first_of
  process-Proposed c d key p q s is_idle h e =
      let p1 = first_of c d p in
      let s0 = new_procedure l c d p in
      let t : Transaction = record { id = p.trid_ctr; work = secures } in
      let fuel = weight p1.pending_transactions in
      let waiting : p1.pending_transactions ≡ t ∷ [] = ap (λ ts. ts ++ t ∷ []) is_idle.empty in
      let first = process-first fuel p.trid_ctr s0 p1 is_idle.idle waiting refl refl in
      let (w, flow) = write_msg1 l n p1.trid_ctr s0 (begin t [] p1) in
      let settled = settle (after_failure fuel) (write_msg1 l n p1.trid_ctr s0 (begin t [] p1)) in
      let done : settled ≡ (q, ends) =
        after_start-ends settled q (settle-plain fuel _) (ap after_start (sym first) ∙ h) in
      settle-Proposed fuel p1.trid_ctr s0 s (begin t [] p1) w q flow refl refl done e

  pub start-Proposed :
      (c : Completion) (key : PublicKey) (p q : PeerState) (s : SecurityProcedure)
      → IsIdle p key
      → start_security l n c true p ≡ (q, ends)
      → q.sec_proc ≡ some s
      → (d : Dhke) × (handshake_for l key n.identity ≡ some d)
        × Proposed l n (new_procedure l c d p) s
        × (q.public_key ≡ p.public_key)
  unfolding peer_start_security_procedure first_of
  start-Proposed c key p q s is_idle h e = elim (Option-cases (handshake_for l key n.identity)) [
    | inl fails ↦ absurd (ground (arith, is_idle.known, is_idle.free, fails, h))
    | inr (d, set_up) ↦
        let same : peer_start_security_procedure l (peer_process_pending_transactions l n) n c true
              p
            ≡ peer_process_pending_transactions l n (first_of c d p) =
          ground (arith, is_idle.known, is_idle.free, set_up) in
        let begun = ap after_start (sym same) ∙ h in
        let (proposed, key_kept) = process-Proposed c d key p q s is_idle begun e in
        (d, set_up, proposed, key_kept)
  ]

-- The context of the side that asked: the terms are those of its proposal.
pub record Asked (c : Curve) (s : SecurityProcedure) (m2 : Msg2) (q : PeerState) : Type 0 where
  pub terms : Terms
  pub same : SameTerms terms (record (terms_of s.msg1) { id = s.id })
  pub derived : SecurityCtx
  pub derives : agreed_ctx c (set_peer_ephemeral_public s.dhke m2.ephemeral) terms ≡ some derived
  pub timer : ℕ
  pub context : SecurityCtx
  pub found : find_if (has_ctx s.id) q.contexts.contexts ≡ some (timer, context)
  pub holds : Holds derived context

module _ (l : Libraries) (n : Node) where
  take-Asked :
      (s : SecurityProcedure) (m2 : Msg2) (p q : PeerState)
      → take_msg2 l n s m2 Status.ok p ≡ (q, ends)
      → Asked l.curve s m2 q
  unfolding take_msg2
  take-Asked s m2 p q h =
      let d = set_peer_ephemeral_public s.dhke m2.ephemeral in
      let terms : Terms = record (terms_of s.msg1) { id = s.id; creation_id = s.creation_id } in
      let p1 = record p { sec_proc = some (record s { dhke = d }) } in
      let (made, flow, outputs) = install-flow l n terms d p1 in
      elim flow [
        | inr thrown ↦ absurd (ground (arith, h, thrown))
        | inl made_it ↦
            let (a, derives, found) = install-found l n terms d p1 made made_it in
            let ended : peer_complete_transaction l n m2.id Code.ok made ≡ (q, ends) =
              ground (arith, h, made_it) in
            let kept =
              ap (λ (r : PeerState × Flow). r.0.contexts.contexts) (sym ended)
              ∙ complete-KeepsRows l n m2.id Code.ok made in
            record {
              terms = terms;
              same = (refl, refl, refl, refl);
              derived = a;
              derives = derives;
              timer = p.contexts.next_timer;
              context = new n.security_ctx_grace_period_s n.now a p.contexts;
              found = rw kept found;
              holds = (refl, refl, refl, refl, refl, refl, refl);
            }
      ]

  handle-take :
      (s : SecurityProcedure) (key : PublicKey) (from : PeerAddress) (size : ℕ) (m2 : Msg2)
      (p q : PeerState)
      → p.sec_proc ≡ some s
      → p.public_key ≡ some key
      → m2.status ≡ Status.ok
      → handle_msg2 l n from size m2 p ≡ (q, ends)
      → take_msg2 l n s m2 Status.ok (count_activity l n from size p) ≡ (q, ends)
  unfolding handle_msg2
  handle-take s key from size m2 p q going known accepted h =
      ground (arith, going, known, accepted, h)

  handle-consider :
      (own : Identity) (key : PublicKey) (from : PeerAddress) (size : ℕ) (m : Msg1)
      (p q : PeerState)
      → n.identity ≡ some own
      → p.public_key ≡ some key
      → p.sec_proc ≡ none
      → handle_msg1 l n from size m p ≡ (q, ends)
      → consider_msg1 l n own key from m (count_activity l n from size (looked_up n from p))
        ≡ (q, ends)
  unfolding handle_msg1
  handle-consider own key from size m p q named known free h = ground (arith, named, known, free, h)

-- The public key of an identity, as its peers know it.
abbrev pub key_of : Curve → Identity → PublicKey
key_of c own = record { key_type = dhkt_x25519; public_key = c.public_value own.private_key }

-- Both sides hold a context under the number, and read what the other writes.
abbrev pub Established : ℕ → PeerState → PeerState → Type 0
Established i p q =
    (timer : ℕ) × (a : SecurityCtx) × (timer' : ℕ) × (b : SecurityCtx) × (find_if (has_ctx i)
        p.contexts.contexts
      ≡ some (timer, a))
    × (find_if (has_ctx i) q.contexts.contexts ≡ some (timer', b))
    × Matches a b

module _ (l : Libraries) (lawful : IsLawful l.curve) (n n' m : Node) (own other : Identity)
    (asks : n.identity ≡ some own) (answers : m.identity ≡ some other)
    (long : length n.random_ephemeral ≡ 32) (long' : length m.random_ephemeral ≡ 32) where
  exchange-Agreed :
      (d d' : Dhke) (algorithm : ℕ)
      → handshake_for l (key_of l.curve other) n.identity ≡ some d
      → setup_handshake l.curve new_dhke other.private_key (key_of l.curve own).public_key false
        ≡ some d'
      → Agreed l.curve
          (after_exchange l.curve d n.random_ephemeral m.random_ephemeral)
          (after_exchange l.curve d' m.random_ephemeral n.random_ephemeral)
          algorithm
  exchange-Agreed d d' algorithm set_up set_up' =
      handshake-Agreed l.curve lawful new_dhke new_dhke d d' own.private_key other.private_key
        n.random_ephemeral m.random_ephemeral algorithm (ground (arith, asks, set_up)) set_up' long
        long'

  -- With primitives that behave as documented, let two nodes have their identities, and fresh ephemeral
  -- keys of 32 bytes. The first starts a procedure with a peer that it has no transaction with and
  -- whose public key it knows, and does not throw; the second, which knows the key of the first, has
  -- no procedure going on, takes the `msg1` that was sent, at any address, and answers that it is
  -- well; the first takes this answer. If no call throws, then both have a security context with
  -- the number that was proposed, with the same algorithms and the same end, and the key under which
  -- each sends is the key under which the other receives, for integrity and for confidentiality.
  pub procedure-Established :
      (completion : Completion) (s : SecurityProcedure) (m2 : Msg2) (p p1 p2 q q1 : PeerState)
      (from from' to : PeerAddress) (size size' sn : ℕ) (f : Frame)
      → IsIdle p (key_of l.curve other)
      → start_security l n completion true p ≡ (p1, ends)
      → p1.sec_proc ≡ some s
      → q.public_key ≡ some (key_of l.curve own)
      → q.sec_proc ≡ none
      → q.outputs ≡ []
      → handle_msg1 l m from size s.msg1 q ≡ (q1, ends)
      → Answers q1 to sn f m2
      → handle_msg2 l n' from' size' m2 p1 ≡ (p2, ends)
      → Established s.id p2 q1
  unfolding get_own_ephemeral_public
  procedure-Established completion s m2 p p1 p2 q q1 from from' to size size' sn f is_idle started
        going known free quiet handled answered taken =
      let (d, set_up, proposed, kept) =
        start-Proposed l n completion (key_of l.curve other) p p1 s is_idle started going in
      let q0 = count_activity l m from size (looked_up m from q) in
      let considered =
        handle-consider l m other (key_of l.curve own) from size s.msg1 q q1 answers known free
          handled in
      let accepted =
        consider-accepts l m other (key_of l.curve own) from s.msg1 m2 to sn f q0 q1 considered
          quiet answered in
      let there =
        accept-Answered l m other (key_of l.curve own) from s.msg1 m2 to sn f q0 q1 accepted quiet
          answered in
      let here = take-Asked l n' s m2 (count_activity l n' from' size' p1) p2 (
        handle-take l n' s (key_of l.curve other) from' size' m2 p1 p2 going (kept ∙ is_idle.known)
          answered.1 taken) in
      let mine = after_exchange l.curve d n.random_ephemeral m.random_ephemeral in
      let theirs = after_exchange l.curve there.set_up m.random_ephemeral n.random_ephemeral in
      let same_here : set_peer_ephemeral_public s.dhke m2.ephemeral ≡ mine =
        ground (arith, proposed.fresh, there.ephemeral) in
      let same_there : get_own_ephemeral_public l.curve
            (set_peer_ephemeral_public there.set_up s.msg1.ephemeral) m.random_ephemeral
          ≡ theirs =
        ground (arith, proposed.named) in
      let same : SameTerms here.terms there.terms =
        ground (arith, here.same, there.same, proposed.number) in
      let derives_here : agreed_ctx l.curve mine here.terms ≡ some here.derived =
        rw same_here at here.derives in
      let derives_there : agreed_ctx l.curve theirs there.terms ≡ some there.derived =
        rw same_there at there.derives in
      let matches =
        agreed_ctx-Matches l.curve mine theirs here.terms there.terms here.derived there.derived
          same (λ algorithm. exchange-Agreed d there.set_up algorithm set_up there.starts)
          derives_here derives_there in
      let found_there : find_if (has_ctx s.id) q1.contexts.contexts
          ≡ some (there.timer, there.context) =
        rw proposed.number at there.found in
      (
        here.timer,
        here.context,
        there.timer,
        there.context,
        here.found,
        found_there,
        Holds-Matches here.derived there.derived here.context there.context matches here.holds
            there.holds,
      )
