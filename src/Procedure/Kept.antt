-- ===== src/Procedure/Kept.antt =====
-- node.cpp: the transactions of a peer leave its security contexts as they are.
use bfc_tunnel.Base.{
  ℕ, zero, suc, ◌+◌, ◌%◌, ◌≡◌, ◌∙◌, refl, Bool, true, false, none, some, List, [], ◌∷◌, arith,
  Bool-cases, Option-cases, inl, inr, ◌==◌,
}
use bfc_tunnel.Procedure.{
  Code, Completion, acquires_keys, acquires, Transaction, PeerState, Node, Libraries,
  security_contexts,
}
use bfc_tunnel.Procedure.Sending.{
  Flow, ends, completes, throws, queue, peer_start_security_procedure,
}
use bfc_tunnel.Peer.{peer_select_sec_ctx}
use bfc_tunnel.Procedure.Transactions.{
  completed, do_cb, done_cb, end_transaction, process_from, begin, settle, arm_after, after_start,
  go_on, finish, weight, new_acquisition, peer_process_pending_transactions,
  peer_start_network_key_acquisition_procedure, peer_complete_transaction,
}
use bfc_tunnel.Procedure.Settled.{do_cb-Keeps, done_cb-Stays, completed-Stays}

abbrev pub KeepsRows : PeerState → PeerState × Flow → Type 0
KeepsRows p r = r.0.contexts.contexts ≡ p.contexts.contexts

arm_after-KeepsRows :
    (p : PeerState) (r : PeerState × Flow) → KeepsRows p r → KeepsRows p (arm_after r)
arm_after-KeepsRows p (q, throws) k = k
arm_after-KeepsRows p (q, ends) k = k
arm_after-KeepsRows p (q, completes code) k = k

settle-KeepsRows :
    (p : PeerState) (next : Code → PeerState → PeerState × Flow) (r : PeerState × Flow)
    → KeepsRows p r
    → ((code : Code) → KeepsRows p (next code r.0))
    → KeepsRows p (settle next r)
settle-KeepsRows p next (q, ends) e k = e
settle-KeepsRows p next (q, throws) e k = e
settle-KeepsRows p next (q, completes code) e k = arm_after-KeepsRows p (next code q) (k code)

module _ (l : Libraries) (n : Node) where
  begins-KeepsRows :
      (fuel : ℕ) (p : PeerState) (ts : List Transaction)
      → ((q : PeerState) → KeepsRows q (process_from l fuel n q))
      → p.pending_transactions ≡ ts
      → p.current_transaction ≡ none
      → KeepsRows p (process_from l (suc fuel) n p)
  unfolding process_from
  begins-KeepsRows fuel p [] ih waiting idle = rw (process_from, idle, waiting) refl
  begins-KeepsRows fuel p (t ∷ rest) ih waiting idle =
      let r = do_cb l n t.work p.trid_ctr (begin t rest p) in
      let (k, light, kept) = do_cb-Keeps l n t.work p.trid_ctr (begin t rest p) in
      let next : Code → PeerState → PeerState × Flow =
        λ code q. process_from l fuel n (end_transaction (done_cb t.work code q).0) in
      rw (process_from, idle, waiting)
        (settle-KeepsRows p next r kept.0 (λ code.
          ih (end_transaction (done_cb t.work code r.0).0)
          ∙ ((done_cb-Stays t.work code r.0).0 ∙ kept.0)))

  process_from-KeepsRows : (fuel : ℕ) (p : PeerState) → KeepsRows p (process_from l fuel n p)
  unfolding process_from
  process_from-KeepsRows zero p = refl
  process_from-KeepsRows (suc fuel) p = elim (Option-cases p.current_transaction) [
    | inr (t, going) ↦ rw (going, process_from) refl
    | inl idle ↦
        begins-KeepsRows fuel p p.pending_transactions (process_from-KeepsRows fuel) refl idle
  ]

  pub process-KeepsRows : (p : PeerState) → KeepsRows p (peer_process_pending_transactions l n p)
  unfolding peer_process_pending_transactions
  process-KeepsRows p = process_from-KeepsRows (suc (weight p.pending_transactions)) p

  pub start-KeepsRows :
      (c : Completion) (force : Bool) (p : PeerState)
      → KeepsRows p
          (peer_start_security_procedure l (peer_process_pending_transactions l n) n c force p)
  unfolding peer_start_security_procedure
  start-KeepsRows c force p = grind (arith, process-KeepsRows)

  after_start-KeepsRows :
      (p : PeerState) (r : PeerState × Flow) → KeepsRows p r → KeepsRows p (after_start r)
  after_start-KeepsRows p (q, ends) k = k
  after_start-KeepsRows p (q, throws) k = k
  after_start-KeepsRows p (q, completes code) k = ground (arith, k)

  acquire-KeepsRows :
      (p : PeerState) → KeepsRows p (peer_start_network_key_acquisition_procedure l n p)
  unfolding peer_start_network_key_acquisition_procedure
  acquire-KeepsRows p =
      let started =
        peer_start_security_procedure l (peer_process_pending_transactions l n) n acquires_keys
          false p in
      let kept = after_start-KeepsRows p started (start-KeepsRows acquires_keys false p) in
      let selected =
        peer_select_sec_ctx n.security_ctx_grace_period_s n.now (security_contexts p) in
      elim (Option-cases p.net_key_acq_proc) [
        | inr (a, going) ↦ rw (peer_start_network_key_acquisition_procedure, going) refl
        | inl free ↦ elim (Option-cases selected) [
          | inl bare ↦ rw (peer_start_network_key_acquisition_procedure, free, bare) kept
          | inr (ctx, found) ↦ elim (Option-cases n.identity) [
            | inl nobody ↦
                rw (peer_start_network_key_acquisition_procedure, free, found, nobody) refl
            | inr (own, named) ↦
                rw (peer_start_network_key_acquisition_procedure, free, found, named)
                  (process-KeepsRows (
                    queue (acquires p.trid_ctr) (record p {
                      net_key_acq_proc = some (new_acquisition p.trid_ctr);
                      trid_ctr = (p.trid_ctr + 1) % 256;
                    })))
          ]
        ]
      ]

  go_on-KeepsRows :
      (p : PeerState) (r : PeerState × Bool)
      → r.0.contexts.contexts ≡ p.contexts.contexts
      → KeepsRows p (go_on l n r)
  go_on-KeepsRows p (q, true) k = acquire-KeepsRows q ∙ k
  go_on-KeepsRows p (q, false) k = k

  finish-KeepsRows :
      (p : PeerState) (r : PeerState × Flow) → KeepsRows p r → KeepsRows p (finish l n r)
  finish-KeepsRows p (q, throws) k = k
  finish-KeepsRows p (q, ends) k = process-KeepsRows (end_transaction q) ∙ k
  finish-KeepsRows p (q, completes code) k = process-KeepsRows (end_transaction q) ∙ k

  pub complete-KeepsRows :
      (i : ℕ) (code : Code) (p : PeerState) → KeepsRows p (peer_complete_transaction l n i code p)
  unfolding peer_complete_transaction
  complete-KeepsRows i code p = elim (Option-cases p.current_transaction) [
    | inl idle ↦ rw (peer_complete_transaction, idle) refl
    | inr (t, going) ↦ elim (Bool-cases (t.id == i)) [
      | inr other ↦ rw (peer_complete_transaction, going, other) refl
      | inl own ↦
          let r = completed n t.work code p in
          rw (peer_complete_transaction, going, own)
            (finish-KeepsRows p (go_on l n r)
              (go_on-KeepsRows p r (completed-Stays n t.work code p).0))
    ]
  ]
