-- ===== src/Procedure/Pages.antt =====
-- node.cpp: the pages of network keys that a peer sends.
use bfc_tunnel.Base.{
  ℕ, suc, ◌≤◌, ◌<◌, ◌≡◌, ◌∙◌, refl, sym, ap, true, false, none, some, List, [], ◌∷◌, ◌++◌, map,
  arith, ltb, lt→ltb, ◌==◌, length, All, length-append,
}
use mathlib.Core.List.{append_assoc, append-nil}
use mathlib.Core.Path.{subst}
use bfc_tunnel.Network.{NetworkKey}
use bfc_tunnel.Topology.{PeerAddress}
use bfc_tunnel.Procedure.{
  Code, KeysResponse, KeyAcquisition, acquires, Transaction, Output, installs, reports, PeerState,
  Node, Libraries, put_out,
}
use bfc_tunnel.Procedure.Sending.{Flow, ends}
use bfc_tunnel.Procedure.Establish.{idle-process}
use bfc_tunnel.Procedure.Transactions.{
  weight, end_transaction, completed, done_cb, peer_complete_transaction,
  peer_process_pending_transactions, peer_finish_network_key_acquisition_procedure,
}
use bfc_tunnel.Procedure.Handlers.{
  and_then, count_activity, looked_up, add_page, add_response, finish_acquisition,
  handle_network_keys_response,
}

-- A page as it comes in: the node as it is then, from where, of what size.
abbrev pub Page : Type 0
Page = (Node × PeerAddress × ℕ) × KeysResponse

-- The numbers of the pages, each once, and all their keys in the order in which they come.
abbrev pub numbers : Libraries → List ℕ → List Page → List ℕ
numbers l known [] = known
numbers l known ((place, m) ∷ pages) = numbers l (add_page l m.current_page known) pages

module _ (l : Libraries) where
  abbrev pub receive_page : Page → PeerState → PeerState × Flow
  receive_page ((n, from, size), m) p = handle_network_keys_response l n from size m p

  abbrev pub receive_pages : List Page → PeerState → PeerState × Flow
  receive_pages [] p = (p, ends)
  receive_pages (page ∷ pages) p = and_then (receive_page page p) (receive_pages pages)

abbrev pub keys_of : List Page → List NetworkKey
keys_of [] = []
keys_of ((place, m) ∷ pages) = m.keys ++ keys_of pages

-- The page is of the acquisition, in so many pages.
abbrev pub IsPage : ℕ → ℕ → Page → Type 0
IsPage i total (place, m) = (m.id ≡ i) × (m.total_page ≡ total)

-- The procedure stands where these pages have come.
abbrev pub Collects : PeerState → PeerState → ℕ → List ℕ → List NetworkKey → Type 0
Collects p q i known keys =
    ((a : KeyAcquisition) × (q.net_key_acq_proc ≡ some a)
      × (a.request_id ≡ i)
      × (a.received_pages ≡ known)
      × (a.collected_keys ≡ keys))
    × (q.outputs ≡ p.outputs)
    × (q.current_transaction ≡ p.current_transaction)
    × (q.pending_transactions ≡ p.pending_transactions)

module _ (l : Libraries) where
  add_page-le : (page : ℕ) (known : List ℕ) → length known ≤ length (add_page l page known)
  add_page-le page known = ground (arith, length-append known (page ∷ []))

  numbers-le : (known : List ℕ) (pages : List Page) → length known ≤ length (numbers l known pages)
  numbers-le known [] = omega arith
  numbers-le known ((place, m) ∷ pages) =
      let next = add_page l m.current_page known in
      omega (arith, add_page-le m.current_page known, numbers-le next pages)

  -- A page that is not the last one that is missing.
  one-Collects :
      (n : Node) (p q : PeerState) (from : PeerAddress) (size i total : ℕ) (m : KeysResponse)
      (known : List ℕ) (keys : List NetworkKey)
      → Collects p q i known keys
      → (m.id ≡ i) × (m.total_page ≡ total)
      → length (add_page l m.current_page known) < total
      → (r : PeerState) × (handle_network_keys_response l n from size m q ≡ (r, ends))
        × Collects p r i (add_page l m.current_page known) (keys ++ m.keys)
  unfolding handle_network_keys_response
  one-Collects n p q from size i total m known keys
        ((a, going, named, pages, held), out, current, pending) (own, last) few =
      let b = add_response l m a in
      let r = record (count_activity l n from size (looked_up n from q)) {
        net_key_acq_proc = some b;
      } in
      let more : ltb (length b.received_pages) m.total_page ≡ true =
        rw (pages, last) (lt→ltb _ _ few) in
      let mine : (m.id == a.request_id) ≡ true = ground (arith, own, named) in
      (
        r,
        rw (handle_network_keys_response, going, mine, more) refl,
        (
          (b, refl, named, ap (add_page l m.current_page) pages, ap (λ ks. ks ++ m.keys) held),
          out,
          current,
          pending,
        ),
      )

  collect :
      (p q : PeerState) (i total : ℕ) (pages : List Page) (known : List ℕ) (keys : List NetworkKey)
      → Collects p q i known keys
      → All (IsPage i total) pages
      → length (numbers l known pages) < total
      → (r : PeerState) × (receive_pages l pages q ≡ (r, ends))
        × Collects p r i (numbers l known pages) (keys ++ keys_of pages)
  collect p q i total [] known keys c own few =
      (q, refl, subst (Collects p q i known) (sym (append-nil keys)) c)
  collect p q i total (((n, from, size), m) ∷ pages) known keys c (mine, own) few =
      let next = add_page l m.current_page known in
      let (r, one, c') =
        one-Collects n p q from size i total m known keys c mine
          (omega (arith, numbers-le next pages)) in
      let (s, rest, c'') = collect p r i total pages next (keys ++ m.keys) c' own few in
      (
        s,
        rw one rest,
        subst (Collects p s i (numbers l next pages)) (append_assoc keys m.keys (keys_of pages))
            c'',
      )

  complete :
      (n : Node) (p : PeerState) (a : KeyAcquisition) (t : Transaction) (i : ℕ)
      → n.asks_again ≡ false
      → p.net_key_acq_proc ≡ some a
      → p.current_transaction ≡ some t
      → t.work ≡ acquires i
      → p.pending_transactions ≡ []
      → (r : PeerState) × (finish_acquisition l n p ≡ (r, ends))
        × (r.outputs
            ≡ p.outputs
              ++ reports Code.ok (map (λ (key : NetworkKey). key.sec_ctx) a.collected_keys) ∷ [])
        × (r.net_key_acq_proc ≡ none)
        × (r.current_transaction ≡ none)
  unfolding finish_acquisition peer_complete_transaction done_cb peer_process_pending_transactions
      peer_finish_network_key_acquisition_procedure
  complete n p a t i alone going current work empty =
      let gone =
        put_out (reports Code.ok (map (λ (key : NetworkKey). key.sec_ctx) a.collected_keys))
          (record p { net_key_acq_proc = none }) in
      let r = end_transaction gone in
      let same : (t.id == t.id) ≡ true = ground arith in
      let over : (peer_process_pending_transactions l n r) ≡ (r, ends) =
        idle-process l n (suc (weight r.pending_transactions)) r refl empty in
      let done : peer_finish_network_key_acquisition_procedure Code.ok p ≡ gone =
        rw (peer_finish_network_key_acquisition_procedure, going) refl in
      let told : (done_cb (acquires i) Code.ok p).0 ≡ gone = done in
      let back : completed n t.work Code.ok p ≡ (gone, false) =
        ap (λ w. completed n w Code.ok p) work ∙ rw (alone, told) refl in
      (
        r,
        rw (finish_acquisition, current, peer_complete_transaction, current, same, back) over,
        refl,
        refl,
        refl,
      )

keys_of-append :
    (pages : List Page) (final : Page)
    → keys_of (pages ++ final ∷ []) ≡ keys_of pages ++ final.1.keys
keys_of-append [] (place, m) = append-nil m.keys
keys_of-append ((place, m) ∷ pages) final =
    ap (λ ks. m.keys ++ ks) (keys_of-append pages final)
    ∙ sym (append_assoc m.keys (keys_of pages) final.1.keys)

abbrev pub report : List NetworkKey → Output
report keys = reports Code.ok (map (λ (key : NetworkKey). key.sec_ctx) keys)

-- All keys are installed, and then reported, in the order in which they came.
abbrev pub Acquired : PeerState → PeerState → List NetworkKey → Type 0
Acquired p r keys =
    (r.outputs ≡ p.outputs ++ installs keys ∷ report keys ∷ [])
    × (r.net_key_acq_proc ≡ none)
    × (r.current_transaction ≡ none)

module _ (l : Libraries) where
  last-Acquired :
      (n : Node) (from : PeerAddress) (size i j total : ℕ) (m : KeysResponse) (p q : PeerState)
      (t : Transaction) (known : List ℕ) (keys : List NetworkKey)
      → Collects p q i known keys
      → n.asks_again ≡ false
      → (m.id ≡ i) × (m.total_page ≡ total)
      → total ≤ length (add_page l m.current_page known)
      → p.current_transaction ≡ some t
      → t.work ≡ acquires j
      → p.pending_transactions ≡ []
      → (r : PeerState) × (handle_network_keys_response l n from size m q ≡ (r, ends))
        × Acquired p r (keys ++ m.keys)
  unfolding handle_network_keys_response
  last-Acquired n from size i j total m p q t known keys
        ((a, going, named, pages, held), out, same, left) alone (own, last) full current work
        empty =
      let b = add_response l m a in
      let taken = record (count_activity l n from size (looked_up n from q)) {
        net_key_acq_proc = some b;
      } in
      let (r, ran, told, gone, idle) =
        complete l n (put_out (installs b.collected_keys) taken) b t j alone refl (same ∙ current)
          work (left ∙ empty) in
      let all : b.collected_keys ≡ keys ++ m.keys = ap (λ ks. ks ++ m.keys) held in
      let no_more : ltb (length b.received_pages) m.total_page ≡ false =
        rw (pages, last) (ground (arith, full)) in
      let mine : (m.id == a.request_id) ≡ true = ground (arith, own, named) in
      let outputs_end =
        told
        ∙ append_assoc q.outputs (installs b.collected_keys ∷ []) (report b.collected_keys ∷ [])
        ∙ ap (λ os. os ++ installs b.collected_keys ∷ report b.collected_keys ∷ []) out
        ∙ ap (λ ks. p.outputs ++ installs ks ∷ report ks ∷ []) all in
      (r, rw (handle_network_keys_response, going, mine, no_more) ran, (outputs_end, gone, idle))

  -- A transaction for the keys is the current one, no other waits, and no page has come yet. Then
  -- pages with the number of the request come in, each with the node as it is then, in any order and
  -- some perhaps twice, and fewer different ones than the total that they name: nothing is done but
  -- to collect. One more page brings their count to the total, and the completion of the
  -- acquisition does not start a further one with the same peer: then the keys of all pages that came,
  -- those of a page that came twice as often, are installed and then reported on as OK, each in one
  -- go and in the order of the pages, and the procedure and the transaction are over.
  pub receive_pages-Acquired :
      (p : PeerState) (a : KeyAcquisition) (t : Transaction) (j total : ℕ) (pages : List Page)
      (final : Page)
      → p.net_key_acq_proc ≡ some a
      → a.received_pages ≡ []
      → a.collected_keys ≡ []
      → p.current_transaction ≡ some t
      → t.work ≡ acquires j
      → p.pending_transactions ≡ []
      → All (IsPage a.request_id total) pages
      → IsPage a.request_id total final
      → final.0.0.asks_again ≡ false
      → length (numbers l [] pages) < total
      → total ≤ length (numbers l (numbers l [] pages) (final ∷ []))
      → (q : PeerState) × (receive_pages l pages p ≡ (q, ends))
        × (q.outputs ≡ p.outputs)
        × (r : PeerState) × (receive_page l final q ≡ (r, ends))
        × Acquired p r (keys_of (pages ++ final ∷ []))
  receive_pages-Acquired p a t j total pages ((n, from, size), m) going none_yet no_keys current
        work empty own mine alone few full =
      let start : Collects p p a.request_id [] [] =
        ((a, going, refl, none_yet, no_keys), refl, refl, refl) in
      let (q, ran, c) = collect l p p a.request_id total pages [] [] start own few in
      let (procedure, out, same, left) = c in
      let (r, last, acquired) =
        last-Acquired n from size a.request_id j total m p q t (numbers l [] pages) (keys_of pages)
          c alone mine full current work empty in
      (
        q,
        ran,
        out,
        r,
        last,
        subst (Acquired p r) (sym (keys_of-append pages ((n, from, size), m))) acquired,
      )
