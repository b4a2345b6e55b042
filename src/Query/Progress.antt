-- ===== src/Query/Progress.antt =====
-- node.cpp: the acquisition of network keys never stands still with peers left to ask.
use bfc_tunnel.Base.{
  ℕ, ◌≡◌, ◌∙◌, refl, Bool, true, false, not, ◌&&◌, ◌||◌, Option, none, some, List, [], ◌∷◌, ◌++◌,
  arith, inl, inr, Bool-cases, if-both, if◌then◌else◌,
}
use mathlib.Core.Path.{ap, subst⁻¹}
use bfc_tunnel.Network.{remove_if}
use bfc_tunnel.Query.{
  Candidate, is_asked, of_peer, drop_acquired, forget_peer, clear_query, Information, Wait,
  collects, retries, Query, Peers, is_known, has_some, has_any, cancel_timer,
  network_cancel_security_query_retry, network_schedule_security_query_retry,
  network_start_security_query_procedure, network_key_acquisition_in_progress, network_acquire_keys,
  handle_network_security_information, network_complete_security_procedure,
}

abbrev pub armed_one : Option ℕ → Wait → List (ℕ × Wait)
armed_one none wait = []
armed_one (some i) wait = (i, wait) ∷ []

-- The pending timers that the two fields stand for.
abbrev pub armed : Option ℕ → Option ℕ → List (ℕ × Wait)
armed collect retry = armed_one collect collects ++ armed_one retry retries

-- The pending timers are those of the two fields, of which at most one is set.
abbrev pub IsTimed : Query → Type 0
IsTimed q =
    (q.timers ≡ armed q.collect_timer q.retry_timer)
    × ((has_some q.collect_timer && has_some q.retry_timer) ≡ false)

-- Where candidates are left, the node collects more of them or asks a peer.
abbrev pub IsActive : Query → Type 0
IsActive q =
    (not (has_any q.candidates) || has_some q.collect_timer || has_some q.ongoing_peer) ≡ true

abbrev pub IsSound : Query → Type 0
IsSound q = IsTimed q × IsActive q

cancel_retry :
    (collect retry : Option ℕ)
    → (has_some collect && has_some retry) ≡ false
    → cancel_timer retry (armed collect retry) ≡ armed collect none
unfolding remove_if
cancel_retry none none h = refl
cancel_retry none (some i) h = ground arith
cancel_retry (some i) none h = refl
cancel_retry (some i) (some j) h = absurd (ground arith)

cancel_collect :
    (collect retry : Option ℕ)
    → (has_some collect && has_some retry) ≡ false
    → cancel_timer collect (armed collect retry) ≡ armed none retry
unfolding remove_if
cancel_collect none none h = refl
cancel_collect none (some i) h = refl
cancel_collect (some i) none h = ground arith
cancel_collect (some i) (some j) h = absurd (ground arith)

not_some : (o : Option ℕ) → has_some o ≡ false → o ≡ none
not_some none h = refl
not_some (some i) h = absurd (ground arith)

pub no_and : (b : Bool) → (b && false) ≡ false
no_and true = refl
no_and false = refl

-- What is left of the timers without the one for a retry.
without_retry :
    (q : Query) → IsTimed q → cancel_timer q.retry_timer q.timers ≡ armed q.collect_timer none
without_retry q (timers, one) =
    ap (cancel_timer q.retry_timer) timers ∙ cancel_retry q.collect_timer q.retry_timer one

pub complete-IsSound : (q : Query) → IsTimed q → IsSound (network_complete_security_procedure q)
unfolding network_complete_security_procedure network_cancel_security_query_retry
complete-IsSound q t = ((without_retry q t, no_and (has_some q.collect_timer)), refl)

-- A retry is scheduled only where nothing is collected.
pub schedule-IsSound :
    (q : Query)
    → IsTimed q
    → has_some q.collect_timer ≡ false
    → IsActive q
    → IsSound (network_schedule_security_query_retry q)
unfolding network_schedule_security_query_retry network_cancel_security_query_retry
schedule-IsSound q t idle active =
    let gone : cancel_timer q.retry_timer q.timers ≡ [] =
      without_retry q t ∙ ap (λ o. armed o none) (not_some q.collect_timer idle) in
    ((ground (arith, gone, not_some q.collect_timer idle), ground (arith, idle)), active)

pub start-IsSound :
    (peers : Peers) (q : Query)
    → IsSound q
    → IsSound (network_start_security_query_procedure peers q)
unfolding network_start_security_query_procedure network_cancel_security_query_retry
start-IsSound peers q (t, active) = elim (Bool-cases (has_some q.collect_timer)) [
  | inl on ↦ rw (network_start_security_query_procedure, on) (t, active)
  | inr off ↦ elim (Bool-cases (has_any peers)) [
    | inr empty ↦
        rw (network_start_security_query_procedure, off, empty) (schedule-IsSound q t off active)
    | inl some_peer ↦
        let gone : cancel_timer q.retry_timer q.timers ≡ [] =
          without_retry q t ∙ ap (λ o. armed o none) (not_some q.collect_timer off) in
        rw (network_start_security_query_procedure, off, some_peer, gone) ((refl, refl), refl)
  ]
]

pub acquire-IsSound :
    (peers : Peers) (q : Query) → IsSound q → IsSound (network_acquire_keys peers q)
unfolding network_acquire_keys
acquire-IsSound peers q s =
    elim (Bool-cases (
      has_some q.collect_timer
      || has_some q.retry_timer
      || network_key_acquisition_in_progress peers q)) [
        | inl busy ↦ rw (network_acquire_keys, busy) s
        | inr free ↦ rw (network_acquire_keys, free) (start-IsSound peers q s)
      ]

-- Candidates are added only while the node collects them.
pub handle-IsSound :
    (peers : Peers) (q : Query) (p : ℕ) (infos : List Information)
    → IsSound q
    → IsSound (handle_network_security_information peers q p infos)
unfolding handle_network_security_information
handle-IsSound peers q p infos (t, active) = elim (Bool-cases (has_some q.collect_timer)) [
  | inr off ↦ rw (handle_network_security_information, off) (t, active)
  | inl on ↦ elim (Bool-cases (is_known peers p)) [
    | inr unknown ↦ rw (handle_network_security_information, on, unknown) (t, active)
    | inl known ↦ rw (handle_network_security_information, on, known) (t, ground (arith, on))
  ]
]

has_any-remove_if :
    (test : Candidate → Bool) (cs : List Candidate)
    → has_any cs ≡ false
    → has_any (remove_if test cs) ≡ false
unfolding remove_if
has_any-remove_if test [] h = refl
has_any-remove_if test (c ∷ cs) h = absurd (ground arith)

-- With fewer candidates no more is asked for.
fewer-IsActive :
    (q : Query) (test : Candidate → Bool)
    → IsActive q
    → IsActive (record q { candidates = remove_if test q.candidates })
fewer-IsActive q test active = elim (Bool-cases (has_any q.candidates)) [
  | inl left ↦ ground (arith, active, left)
  | inr none_left ↦ rw (has_any-remove_if test q.candidates none_left) refl
]

pub drop-IsTimed : (slots : List ℕ) (q : Query) → IsTimed q → IsTimed (drop_acquired slots q)
unfolding drop_acquired
drop-IsTimed slots q t = if-both IsTimed (has_any slots) _ q t t

-- A peer that is given up while it is not the one that is asked.
pub forget-IsSound :
    (p : ℕ) (q : Query) → is_asked p q ≡ false → IsSound q → IsSound (forget_peer p q)
unfolding forget_peer
forget-IsSound p q free (t, active) =
    let kept : (if is_asked p q then none else q.ongoing_peer) ≡ q.ongoing_peer = rw free refl in
    let fewer = record q { candidates = remove_if (of_peer p) q.candidates } in
    let same : record fewer { ongoing_peer = if is_asked p q then none else q.ongoing_peer }
        ≡ fewer =
      ap (λ o. record fewer { ongoing_peer = o }) kept in
    if-both IsSound (has_any q.candidates || has_some q.ongoing_peer) _ q
      (subst⁻¹ IsSound same (t, fewer-IsActive q (of_peer p) active)) (t, active)

clear_timers :
    (collect retry : Option ℕ)
    → (has_some collect && has_some retry) ≡ false
    → cancel_timer retry (cancel_timer collect (armed collect retry)) ≡ []
unfolding remove_if
clear_timers none none h = refl
clear_timers none (some i) h = ground arith
clear_timers (some i) none h = ground arith
clear_timers (some i) (some j) h = absurd (ground arith)

pub clear-IsSound : (q : Query) → IsTimed q → IsSound (clear_query q)
unfolding clear_query
clear-IsSound q (timers, one) = (
  (
    ap (λ ts. cancel_timer q.retry_timer (cancel_timer q.collect_timer ts)) timers
        ∙ clear_timers q.collect_timer q.retry_timer one,
    refl,
  ),
  refl,
)
