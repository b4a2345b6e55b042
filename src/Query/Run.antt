-- ===== src/Query/Run.antt =====
-- node.cpp: any calls of the query for network keys.
use bfc_tunnel.Base.{
  ℕ, ◌≡◌, ◌∙◌, refl, sym, Bool, true, false, not, ◌&&◌, Option, none, some, List, [], ◌∷◌, arith,
  ◌==◌, if◌then◌else◌, length, inl, inr, Bool-cases, if-both,
}
use native.Mathlib.Nat.{le_refl}
use mathlib.Core.Path.{ap}
use bfc_tunnel.Network.{remove_if}
use bfc_tunnel.Query.{
  is_asked, drop_acquired, forget_peer, clear_query, Candidate, Information, Wait, collects,
  retries, Query, Peers, has_some, has_any, cancel_timer, network_acquire_keys,
  handle_network_security_information, network_build_acquisition_candidates,
}
use bfc_tunnel.Query.Acquisition.{
  take_next, network_start_next_key_acquisition, network_finish_security_query_procedure,
  network_on_key_acquisition_complete, expire_timer, release, without,
}
use bfc_tunnel.Query.Choice.{IsVisit, IsNext, next_from-IsNext}
use bfc_tunnel.Query.Progress.{
  armed, IsTimed, IsSound, complete-IsSound, schedule-IsSound, start-IsSound, acquire-IsSound,
  handle-IsSound, no_and, drop-IsTimed, forget-IsSound, clear-IsSound,
}

when_IsSound : (b : Bool) (x y : Query) → b ≡ true → IsSound x → IsSound (if b then x else y)
when_IsSound true x y h hx = hx
when_IsSound false x y h hx = absurd (ground arith)

armed-collects :
    (collect retry : Option ℕ) (i : ℕ)
    → armed collect retry ≡ (i, collects) ∷ []
    → (collect ≡ some i) × (retry ≡ none)
armed-collects none none i h = absurd (ground arith)
armed-collects none (some j) i h = absurd (ground arith)
armed-collects (some j) none i h = (ground arith, refl)
armed-collects (some j) (some k) i h = absurd (ground arith)

armed-retries :
    (collect retry : Option ℕ) (i : ℕ)
    → armed collect retry ≡ (i, retries) ∷ []
    → (collect ≡ none) × (retry ≡ some i)
armed-retries none none i h = absurd (ground arith)
armed-retries none (some j) i h = (refl, ground arith)
armed-retries (some j) none i h = absurd (ground arith)
armed-retries (some j) (some k) i h = absurd (ground arith)

one_timer :
    (collect retry : Option ℕ) (t u : ℕ × Wait) (rest : List (ℕ × Wait))
    → armed collect retry ≡ t ∷ u ∷ rest
    → (has_some collect && has_some retry) ≡ false
    → ⊥
one_timer none none t u rest e h = ground arith
one_timer none (some j) t u rest e h = ground arith
one_timer (some j) none t u rest e h = ground arith
one_timer (some j) (some k) t u rest e h = ground arith

module _ (visit : List Candidate → List ℕ) (fair : IsVisit visit) where
  take_next-IsSound :
      (peers : Peers) (q : Query) (r : Option ℕ × List Candidate)
      → IsTimed q
      → IsNext peers r
      → IsSound (take_next visit q (some r))
  take_next-IsSound peers q (none, cs) t next = complete-IsSound (record q { candidates = cs }) t
  take_next-IsSound peers q (some p, cs) t next = (t, ground arith)

  next-IsSound :
      (peers : Peers) (q : Query)
      → IsTimed q
      → IsSound (network_start_next_key_acquisition visit peers q)
  unfolding network_start_next_key_acquisition
  next-IsSound peers q t = elim (Bool-cases (has_some q.ongoing_peer)) [
    | inl asking ↦ rw (network_start_next_key_acquisition, asking) (t, ground (arith, asking))
    | inr free ↦
        let (r, answer, next) =
          next_from-IsNext visit fair (length q.candidates) peers q.candidates (le_refl _) in
        rw (network_start_next_key_acquisition, free, answer) (take_next-IsSound peers q r t next)
  ]

  -- The end of a collection: its timer is cancelled, if it is not gone, and the next peer is asked.
  finish-IsSound :
      (peers : Peers) (now : ℕ) (q : Query)
      → cancel_timer q.collect_timer q.timers ≡ armed none q.retry_timer
      → IsSound (network_finish_security_query_procedure visit peers now q)
  unfolding network_finish_security_query_procedure network_build_acquisition_candidates
  finish-IsSound peers now q gone =
      let stopped : Query = record q {
        timers = cancel_timer q.collect_timer q.timers;
        collect_timer = none;
      } in
      let built = network_build_acquisition_candidates peers now stopped in
      let t : IsTimed built = (gone, refl) in
      if-both IsSound (has_any built.candidates) _ _ (next-IsSound peers built t)
        (complete-IsSound built t)

  on_complete-IsSound :
      (peers : Peers) (has_keys : Bool) (q : Query) (peer : Option ℕ) (ok : Bool)
      → IsTimed q
      → IsSound (network_on_key_acquisition_complete visit peers has_keys q peer ok)
  unfolding network_on_key_acquisition_complete
  on_complete-IsSound peers has_keys q peer ok t =
      let left : Query = record q {
        ongoing_peer = release q.ongoing_peer peer;
        candidates = without q.candidates peer ok;
      } in
      if-both IsSound (ok && has_keys && not (has_any left.candidates)) _ _
        (complete-IsSound left t)
        (if-both IsSound (has_any left.candidates) _ _ (next-IsSound peers left t)
          (complete-IsSound left t))

  expire-IsSound :
      (peers : Peers) (now : ℕ) (q : Query) (i : ℕ) (wait : Wait)
      → q.timers ≡ (i, wait) ∷ []
      → IsSound q
      → IsSound (expire_timer visit peers now q (i, wait))
  unfolding expire_timer remove_if
  expire-IsSound peers now q i collects only ((timers, one), active) =
      let (set, unset) = armed-collects q.collect_timer q.retry_timer i (sym timers ∙ only) in
      let none_left : remove_if (λ (t : ℕ × Wait). t.0 == i) q.timers ≡ [] =
        rw only (ground arith) in
      let due : Query = record q { timers = remove_if (λ (t : ℕ × Wait). t.0 == i) q.timers } in
      let gone : cancel_timer due.collect_timer due.timers ≡ armed none due.retry_timer =
        rw (none_left, set, unset) refl in
      when_IsSound (has_some q.collect_timer) _ due (ap has_some set)
        (finish-IsSound peers now due gone)
  expire-IsSound peers now q i retries only ((timers, one), active) =
      let (unset, set) = armed-retries q.collect_timer q.retry_timer i (sym timers ∙ only) in
      let none_left : remove_if (λ (t : ℕ × Wait). t.0 == i) q.timers ≡ [] =
        rw only (ground arith) in
      let idle : Query = record q { timers = remove_if (λ (t : ℕ × Wait). t.0 == i) q.timers } in
      let due : Query = record idle { retry_timer = none } in
      let t : IsTimed due = (rw (none_left, unset) refl, no_and (has_some q.collect_timer)) in
      when_IsSound (has_some q.retry_timer) _ idle (ap has_some set) (
        if-both IsSound (has_any peers) _ _ (start-IsSound peers due (t, active))
          (schedule-IsSound due t (ap has_some unset) active))

-- What happens to the query: each call comes with the peers as they are then. The end of an
-- acquisition comes with the slots of the keys that it got.
pub data Call : Type 0 where
  acquires : Call
  informs : ℕ → List Information → Call
  expires : Call
  completes : List ℕ → Option ℕ → Bool → Bool → Call
  forgets : ℕ → Call
  uninitializes : Call

module _ (visit : List Candidate → List ℕ) where
  -- The pending timer is due, if there is one.
  abbrev pub expire_first : Peers → ℕ → Query → List (ℕ × Wait) → Query
  expire_first peers now q [] = q
  expire_first peers now q (t ∷ rest) = expire_timer visit peers now q t

  abbrev pub step : Query → (ℕ × Peers) × Call → Query
  step q ((now, peers), acquires) = network_acquire_keys peers q
  step q ((now, peers), informs p infos) = handle_network_security_information peers q p infos
  step q ((now, peers), expires) = expire_first peers now q q.timers
  step q ((now, peers), completes slots peer ok has_keys) =
      network_on_key_acquisition_complete visit peers has_keys (drop_acquired slots q) peer ok
  step q ((now, peers), forgets p) = forget_peer p q
  step q ((now, peers), uninitializes) = clear_query q

  abbrev pub run : Query → List ((ℕ × Peers) × Call) → Query
  run q [] = q
  run q (c ∷ calls) = run (step q c) calls

-- A peer is given up only after the acquisition with it, if one goes on, was reported on.
abbrev pub IsTold : Query → Call → Type 0
IsTold q (forgets p) = is_asked p q ≡ false
IsTold q _ = Unit

abbrev pub AllTold : (List Candidate → List ℕ) → Query → List ((ℕ × Peers) × Call) → Type 0
AllTold visit q [] = Unit
AllTold visit q ((place, c) ∷ calls) = IsTold q c × AllTold visit (step visit q (place, c)) calls

module _ (visit : List Candidate → List ℕ) (fair : IsVisit visit) where
  expire_first-IsSound :
      (peers : Peers) (now : ℕ) (q : Query) (timers : List (ℕ × Wait))
      → q.timers ≡ timers
      → IsSound q
      → IsSound (expire_first visit peers now q timers)
  expire_first-IsSound peers now q [] e s = s
  expire_first-IsSound peers now q ((i, wait) ∷ []) e s =
      expire-IsSound visit fair peers now q i wait e s
  expire_first-IsSound peers now q (t ∷ u ∷ rest) e s =
      absurd (one_timer q.collect_timer q.retry_timer t u rest (sym s.0.0 ∙ e) s.0.1)

  step-IsSound :
      (q : Query) (place : ℕ × Peers) (c : Call)
      → IsTold q c
      → IsSound q
      → IsSound (step visit q (place, c))
  step-IsSound q (now, peers) acquires told s = acquire-IsSound peers q s
  step-IsSound q (now, peers) (informs p infos) told s = handle-IsSound peers q p infos s
  step-IsSound q (now, peers) expires told s = expire_first-IsSound peers now q q.timers refl s
  step-IsSound q (now, peers) (completes slots peer ok has_keys) told s =
      on_complete-IsSound visit fair peers has_keys (drop_acquired slots q) peer ok
        (drop-IsTimed slots q s.0)
  step-IsSound q (now, peers) (forgets p) told s = forget-IsSound p q told s
  step-IsSound q (now, peers) uninitializes told s = clear-IsSound q s.0

  -- Let the map of counts be visited in any order, and start from a sound state. Let any calls follow,
  -- where a peer that is given up is not the one that is being asked any more: its acquisition was
  -- reported on before. Then the state is sound: the pending timers are the one for the end of the
  -- collection or the one for a retry, as the fields say, never both, and while candidates are left
  -- the node collects more of them or asks a peer.
  pub run-IsSound :
      (q : Query) (calls : List ((ℕ × Peers) × Call))
      → AllTold visit q calls
      → IsSound q
      → IsSound (run visit q calls)
  run-IsSound q [] told s = s
  run-IsSound q ((place, c) ∷ calls) (told, rest) s =
      run-IsSound (step visit q (place, c)) calls rest (step-IsSound q place c told s)
