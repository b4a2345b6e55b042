-- ===== src/Procedure/Cleanup.antt =====
-- node.cpp: what is left of a peer that is given up.
use bfc_tunnel.Base.{
  ℕ, ◌+◌, ◌≤◌, ◌≡◌, ◌∙◌, refl, Bool, true, false, Option, none, some, List, [], ◌∷◌, arith,
  Bool-cases, inl, inr, ◌==◌,
}
use bfc_tunnel.Base.Bags.{count, count-append}
use bfc_tunnel.Network.{remove_if}
use bfc_tunnel.Peer.{SecurityCtx}
use bfc_tunnel.Renewal.{Contexts, has_timer, cancel_due}
use bfc_tunnel.Procedure.{
  peer_teardown, acquires_keys, nothing, SecurityProcedure, KeyAcquisition, Work, secures, acquires,
  Transaction, Output, reports, PeerState,
}
use bfc_tunnel.Procedure.Transactions.{
  done_cb, peer_finish_security_procedure, peer_finish_network_key_acquisition_procedure,
  end_transaction,
}
use bfc_tunnel.Procedure.Handlers.{tear_down, to_list, cancel_contexts, peer_cleanup}

abbrev pub is_report : Output → Bool
is_report o = elim o [ reports code acquired ↦ true | _ ↦ false ]

abbrev pub waits : Option SecurityProcedure → ℕ
waits none = 0
waits (some s) = elim s.completion [ nothing ↦ 0 | acquires_keys ↦ 1 ]

abbrev pub is_on : Option KeyAcquisition → ℕ
is_on none = 0
is_on (some a) = 1

-- The acquisitions of a peer that have not been reported on: one that waits for a security context,
-- and one that goes on.
abbrev pub owed : PeerState → ℕ
owed p = waits p.sec_proc + is_on p.net_key_acq_proc

abbrev told : PeerState → ℕ
told p = count is_report p.outputs

finish_security-told :
    (p : PeerState)
    → let q = (peer_finish_security_procedure peer_teardown p).0 in
      (told q + owed q ≡ told p + owed p) × (q.sec_proc ≡ none)
unfolding peer_finish_security_procedure
finish_security-told p =
    ground (arith, count-append is_report p.outputs (reports peer_teardown [] ∷ []))

finish_acquisition-told :
    (p : PeerState)
    → let q = peer_finish_network_key_acquisition_procedure peer_teardown p in
      (told q + owed q ≡ told p + owed p) × (q.net_key_acq_proc ≡ none) × (q.sec_proc ≡ p.sec_proc)
unfolding peer_finish_network_key_acquisition_procedure
finish_acquisition-told p =
    ground (arith, count-append is_report p.outputs (reports peer_teardown [] ∷ []))

-- What the end of a transaction leaves.
abbrev Leaves : PeerState → PeerState → Type 0
Leaves p q =
    (told q + owed q ≡ told p + owed p)
    × (q.contexts ≡ p.contexts)
    × (q.transaction_timers ≡ p.transaction_timers)
    × (q.current_transaction ≡ p.current_transaction)
    × (q.pending_transactions ≡ p.pending_transactions)

Leaves-trans : (p q r : PeerState) → Leaves p q → Leaves q r → Leaves p r
Leaves-trans p q r f g = (g.0 ∙ f.0, g.1 ∙ f.1, g.2 ∙ f.2, g.3 ∙ f.3, g.4 ∙ f.4)

finish_security-Leaves :
    (p : PeerState) → Leaves p (peer_finish_security_procedure peer_teardown p).0
unfolding peer_finish_security_procedure
finish_security-Leaves p =
    ((finish_security-told p).0, ground arith, ground arith, ground arith, ground arith)

finish_acquisition-Leaves :
    (p : PeerState) → Leaves p (peer_finish_network_key_acquisition_procedure peer_teardown p)
unfolding peer_finish_network_key_acquisition_procedure
finish_acquisition-Leaves p =
    ((finish_acquisition-told p).0, ground arith, ground arith, ground arith, ground arith)

done_cb-Leaves : (w : Work) (p : PeerState) → Leaves p (done_cb w peer_teardown p).0
unfolding done_cb
done_cb-Leaves secures p = finish_security-Leaves p
done_cb-Leaves (acquires request_id) p = finish_acquisition-Leaves p

tear_down-Leaves : (ts : List Transaction) (p : PeerState) → Leaves p (tear_down ts p)
unfolding tear_down
tear_down-Leaves [] p = (refl, refl, refl, refl, refl)
tear_down-Leaves (t ∷ ts) p =
    let q = (done_cb t.work peer_teardown p).0 in
    Leaves-trans p q (tear_down ts q) (done_cb-Leaves t.work p) (tear_down-Leaves ts q)

module _ {A : Type 0} (p q : A → Bool) where
  count-remove_if_le : (xs : List A) → count p xs ≡ 0 → count p (remove_if q xs) ≡ 0
  unfolding remove_if
  count-remove_if_le [] h = refl
  count-remove_if_le (x ∷ xs) h = ground (arith, count-remove_if_le xs)

  count-remove_if_same : (xs : List A) → ((x : A) → p x ≡ q x) → count p (remove_if q xs) ≡ 0
  unfolding remove_if
  count-remove_if_same [] h = refl
  count-remove_if_same (x ∷ xs) h = ground (arith, count-remove_if_same xs h, h x)

-- The timers of the rows with a number are cancelled, and no timer is added.
cancel_contexts-none :
    (i : ℕ) (rows : List (ℕ × SecurityCtx)) (c : Contexts)
    → count (has_timer i) c.timers ≡ 0
    → count (has_timer i) (cancel_contexts rows c).timers ≡ 0
unfolding cancel_contexts
cancel_contexts-none i [] c h = h
cancel_contexts-none i (e ∷ rows) c h =
    cancel_contexts-none i rows (record c { timers = cancel_due e.0 c.timers })
      (count-remove_if_le (has_timer i) (has_timer e.0) c.timers h)

abbrev pub has_number : ℕ → ℕ × SecurityCtx → Bool
has_number i e = e.0 == i

cancel_contexts-all :
    (i : ℕ) (rows : List (ℕ × SecurityCtx)) (c : Contexts)
    → 1 ≤ count (has_number i) rows
    → count (has_timer i) (cancel_contexts rows c).timers ≡ 0
unfolding cancel_contexts
cancel_contexts-all i [] c h = absurd (omega arith)
cancel_contexts-all i (e ∷ rows) c h =
    let rest : Contexts = record c { timers = cancel_due e.0 c.timers } in
    elim (Bool-cases (e.0 == i)) [
      | inr other ↦ cancel_contexts-all i rows rest (ground (arith, other, h))
      | inl same ↦
          cancel_contexts-none i rows rest (
            count-remove_if_same (has_timer i) (has_timer e.0) c.timers (λ t. ground (arith, same)))
    ]

cancel_contexts-empty :
    (rows : List (ℕ × SecurityCtx)) (c : Contexts) → (cancel_contexts rows c).contexts ≡ []
unfolding cancel_contexts
cancel_contexts-empty [] c = refl
cancel_contexts-empty (e ∷ rows) c =
    cancel_contexts-empty rows (record c { timers = cancel_due e.0 c.timers })

-- Nothing is left that could still act for the peer.
pub record IsGone (p q : PeerState) : Type 0 where
  pub idle : q.current_transaction ≡ none
  pub empty : q.pending_transactions ≡ []
  pub unsecured : q.sec_proc ≡ none
  pub finished : q.net_key_acq_proc ≡ none
  pub bare : q.contexts.contexts ≡ []
  pub reported : count is_report q.outputs ≡ count is_report p.outputs + owed p
  pub cancelled : count (λ i. i == p.transaction_timer_id) q.transaction_timers ≡ 0
  pub unarmed :
      (i : ℕ)
      → 1 ≤ count (has_number i) p.contexts.contexts
      → count (has_timer i) q.contexts.timers ≡ 0

told_when_gone :
    (q : PeerState) (total : ℕ)
    → q.sec_proc ≡ none
    → q.net_key_acq_proc ≡ none
    → told q + owed q ≡ total
    → told q ≡ total
told_when_gone q total secure finished h = ground (arith, secure, finished, h)

-- A peer that is given up, whatever it was doing, is left without a transaction, a procedure or a
-- security context; the timer of its transaction and those of its contexts are cancelled; and each
-- acquisition of it, one that goes on or one that waits for a security procedure, is reported on
-- exactly once.
pub peer_cleanup-IsGone : (p : PeerState) → IsGone p (peer_cleanup p)
unfolding peer_cleanup
peer_cleanup-IsGone p =
    let emptied = record (end_transaction p) { pending_transactions = [] } in
    let current = tear_down (to_list p.current_transaction) emptied in
    let told_all = tear_down p.pending_transactions current in
    let unsecured = (peer_finish_security_procedure peer_teardown told_all).0 in
    let finished = peer_finish_network_key_acquisition_procedure peer_teardown unsecured in
    let leaves =
      Leaves-trans emptied current finished
        (tear_down-Leaves (to_list p.current_transaction) emptied)
        (Leaves-trans current told_all finished (tear_down-Leaves p.pending_transactions current) (
          Leaves-trans told_all unsecured finished (finish_security-Leaves told_all)
            (finish_acquisition-Leaves unsecured))) in
    let none_on = finish_acquisition-told unsecured in
    let no_security : finished.sec_proc ≡ none = none_on.2 ∙ (finish_security-told told_all).1 in
    record {
      idle = leaves.3;
      empty = leaves.4;
      unsecured = no_security;
      finished = none_on.1;
      bare = cancel_contexts-empty finished.contexts.contexts finished.contexts;
      reported = told_when_gone finished (told p + owed p) no_security none_on.1 leaves.0;
      cancelled = rw leaves.2 (
          count-remove_if_same (λ i. i == p.transaction_timer_id) (λ i. i == p.transaction_timer_id)
            p.transaction_timers (λ i. refl));
      unarmed =
          λ i h. cancel_contexts-all i finished.contexts.contexts finished.contexts (rw leaves.1 h);
    }
