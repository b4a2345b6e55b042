-- ===== src/Procedure/Settled.antt =====
-- node.cpp: a peer's queue goes on when a transaction ends.
use bfc_tunnel.Base.{
  ℕ, zero, suc, ◌+◌, ◌≤◌, ◌<◌, ◌≡◌, refl, inl, inr, Bool, false, Option, none, some, List, [], ◌∷◌,
  ◌++◌, arith, Option-cases,
}
use bfc_tunnel.Procedure.{
  Code, Completion, nothing, SecurityProcedure, Work, secures, acquires, Transaction, PeerState,
  PeerState, Node, Libraries, Message,
}
use bfc_tunnel.Topology.{PeerAddress}
use bfc_tunnel.Procedure.Sending
use bfc_tunnel.Procedure.Sending.{
  Flow, ends, completes, throws, peer_send_message, peer_start_security_procedure,
}
use bfc_tunnel.Procedure.Transactions.{
  completed, busy, write_msg1, send_msg1, do_cb, done_cb, peer_finish_security_procedure,
  peer_finish_network_key_acquisition_procedure, end_transaction, weight, weight_of, process_from,
  begin, settle, arm_after, peer_process_pending_transactions,
}

abbrev Rows : Type 0
Rows = List (ℕ × bfc_tunnel.Peer.SecurityCtx)

-- The contexts and the current transaction stay, and the queue grows by no more than the weight.
abbrev pub Keeps : PeerState → ℕ → PeerState → Type 0
Keeps p extra q =
    (q.contexts.contexts ≡ p.contexts.contexts)
    × (q.current_transaction ≡ p.current_transaction)
    × (weight q.pending_transactions ≤ extra + weight p.pending_transactions)

send_msg1-Keeps : (n : Node) (s : SecurityProcedure) (p : PeerState) → Keeps p 0 (send_msg1 n s p)
unfolding send_msg1
send_msg1-Keeps n s p = (refl, refl, omega arith)

write_msg1-Keeps :
    (l : Libraries) (n : Node) (i : ℕ) (s : SecurityProcedure) (p : PeerState)
    → Keeps p 0 (write_msg1 l n i s p).0
unfolding write_msg1 send_msg1
write_msg1-Keeps l n i s p = ground arith

weight-queued :
    (ts : List Transaction) (i : ℕ)
    → weight (ts ++ record { id = i; work = secures } ∷ []) ≡ suc (weight ts)
unfolding weight
weight-queued [] i = omega arith
weight-queued (t ∷ ts) i = omega (arith, weight-queued ts i)

start-Keeps :
    (l : Libraries) (n : Node) (c : Completion) (force : Bool) (p : PeerState)
    → Keeps p 1 (peer_start_security_procedure l busy n c force p).0
unfolding peer_start_security_procedure
start-Keeps l n c force p = ground (arith, weight-queued p.pending_transactions p.trid_ctr)

failed-Keeps :
    (p : PeerState) (r : PeerState × Flow) → Keeps p 1 r.0 → Keeps p 1 (Sending.failed r).0
failed-Keeps p (q, ends) k = k
failed-Keeps p (q, throws) k = k
failed-Keeps p (q, completes code) k = k

send-Keeps :
    (l : Libraries) (n : Node) (p : PeerState) (to : PeerAddress) (m : Message)
    → Keeps p 1 (peer_send_message l busy n p to m).0
unfolding peer_send_message
send-Keeps l n p to m =
    let started = start-Keeps l n nothing false p in
    ground (arith, failed-Keeps p (peer_start_security_procedure l busy n nothing false p) started)

-- How much the queue may grow while a transaction begins: by less than its own weight.
pub do_cb-Keeps :
    (l : Libraries) (n : Node) (w : Work) (i : ℕ) (p : PeerState)
    → (k : ℕ) × (k < weight_of w) × Keeps p k (do_cb l n w i p).0
unfolding do_cb
do_cb-Keeps l n secures i p =
    (0, omega arith, ground (arith, write_msg1-Keeps l n i, send_msg1-Keeps n))
do_cb-Keeps l n (acquires request_id) i p = (
  1,
  omega arith,
  ground (arith, send-Keeps l n p p.preferred_peer_address (Message.of_keys_request request_id)),
)

-- The end of a procedure leaves the queue and the contexts.
abbrev pub Stays : PeerState → PeerState → Type 0
Stays p q =
    (q.contexts.contexts ≡ p.contexts.contexts)
    × (q.current_transaction ≡ p.current_transaction)
    × (q.pending_transactions ≡ p.pending_transactions)

pub done_cb-Stays : (w : Work) (code : Code) (p : PeerState) → Stays p (done_cb w code p).0
unfolding done_cb peer_finish_security_procedure peer_finish_network_key_acquisition_procedure
done_cb-Stays secures code p = ground arith
done_cb-Stays (acquires request_id) code p = ground arith

pub completed-Stays :
    (n : Node) (w : Work) (code : Code) (p : PeerState) → Stays p (completed n w code p).0
completed-Stays n secures code p = done_cb-Stays secures code p
completed-Stays n (acquires request_id) code p = done_cb-Stays (acquires request_id) code p

-- A transaction is the current one, or none waits.
abbrev pub GoesOn : Option Transaction → List Transaction → Type 0
GoesOn (some t) pending = Unit
GoesOn none [] = Unit
GoesOn none (t ∷ rest) = ⊥

abbrev pub IsSettled : PeerState × Flow → Type 0
IsSettled (p, throws) = Unit
IsSettled (p, ends) = GoesOn p.current_transaction p.pending_transactions
IsSettled (p, completes code) = GoesOn p.current_transaction p.pending_transactions

arm_after-IsSettled : (r : PeerState × Flow) → IsSettled r → IsSettled (arm_after r)
arm_after-IsSettled (p, throws) s = tt
arm_after-IsSettled (p, ends) s = s
arm_after-IsSettled (p, completes code) s = s

module _ (l : Libraries) (n : Node) where
  -- What follows a transaction that begins, given what follows one that fails at once.
  settle-IsSettled :
      (next : Code → PeerState → PeerState × Flow) (r : PeerState × Flow) (t : Transaction)
      → r.0.current_transaction ≡ some t
      → ((code : Code) → IsSettled (next code r.0))
      → IsSettled (settle next r)
  settle-IsSettled next (p, ends) t e k = ground (arith, e)
  settle-IsSettled next (p, throws) t e k = tt
  settle-IsSettled next (p, completes code) t e k = arm_after-IsSettled (next code p) (k code)

  begins-IsSettled :
      (fuel : ℕ) (p : PeerState) (ts : List Transaction)
      → ((q : PeerState)
          → weight q.pending_transactions < fuel
          → IsSettled (process_from l fuel n q))
      → p.pending_transactions ≡ ts
      → p.current_transaction ≡ none
      → weight ts < suc fuel
      → IsSettled (process_from l (suc fuel) n p)
  unfolding process_from weight
  begins-IsSettled fuel p [] ih waiting idle h =
      rw (process_from, idle, waiting) (rw (idle, waiting) tt)
  begins-IsSettled fuel p (t ∷ rest) ih waiting idle h =
      let begun = begin t rest p in
      let r = do_cb l n t.work p.trid_ctr begun in
      let (k, light, kept) = do_cb-Keeps l n t.work p.trid_ctr begun in
      let next : Code → PeerState → PeerState × Flow =
        λ code q. process_from l fuel n (end_transaction (done_cb t.work code q).0) in
      rw (process_from, idle, waiting)
        (settle-IsSettled next r (record t { id = p.trid_ctr }) kept.1
          (λ code.
            let stays = done_cb-Stays t.work code r.0 in
            ih (end_transaction (done_cb t.work code r.0).0) (rw stays.2 (omega (arith, kept.2)))))

  pub process_from-IsSettled :
      (fuel : ℕ) (p : PeerState)
      → weight p.pending_transactions < fuel
      → IsSettled (process_from l fuel n p)
  unfolding process_from
  process_from-IsSettled zero p h = absurd (omega arith)
  process_from-IsSettled (suc fuel) p h = elim (Option-cases p.current_transaction) [
    | inr (t, going) ↦ rw (going, process_from) (rw going tt)
    | inl idle ↦
        begins-IsSettled fuel p p.pending_transactions (process_from-IsSettled fuel) refl idle h
  ]

  pub process-IsSettled : (p : PeerState) → IsSettled (peer_process_pending_transactions l n p)
  unfolding peer_process_pending_transactions
  process-IsSettled p = process_from-IsSettled (suc (weight p.pending_transactions)) p (omega arith)
