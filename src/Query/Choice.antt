-- ===== src/Query/Choice.antt =====
-- node.cpp: the loop that chooses the peer to ask for network keys.
use bfc_tunnel.Base.{
  ℕ, zero, suc, ◌+◌, ◌≤◌, ◌≡◌, ◌∙◌, refl, sym, true, false, Option, none, some, List, [], ◌∷◌, map,
  arith, ltb, ◌==◌, length, inl, inr, ◌⊎◌, Bool-cases, Option-cases, All,
}
use mathlib.Core.Path.{subst⁻¹, ap}
use bfc_tunnel.Base.Bags.{count}
use bfc_tunnel.Network.{remove_if, is_member}
use bfc_tunnel.Query.{Candidate, Peers, is_busy, of_peer}
use bfc_tunnel.Query.Acquisition.{best_from, best_peer, next_from}

abbrev pub peer_ids : List Candidate → List ℕ
peer_ids cs = map (λ (c : Candidate). c.peer_id) cs

-- The map of counts has the peers of the candidates as its keys.
abbrev pub IsVisit : (List Candidate → List ℕ) → Type 0
IsVisit visit = (cs : List Candidate) (n : ℕ) → is_member n (visit cs) ≡ is_member n (peer_ids cs)

length-remove_if :
    (p : ℕ) (cs : List Candidate)
    → length (remove_if (of_peer p) cs) + count (of_peer p) cs ≡ length cs
unfolding remove_if
length-remove_if p [] = refl
length-remove_if p (c ∷ cs) = ground (arith, length-remove_if p cs)

count-absent :
    (o : ℕ) (cs : List Candidate) → is_member o (peer_ids cs) ≡ false → count (of_peer o) cs ≡ 0
unfolding is_member
count-absent o [] h = refl
count-absent o (c ∷ cs) h = ground (arith, count-absent o cs)

All-member {κ} : (P : ℕ → Type κ) (ps : List ℕ) (o : ℕ) → All P ps → is_member o ps ≡ true → P o
unfolding is_member
All-member P [] o h m = absurd (ground arith)
All-member P (p ∷ ps) o h m = elim (Bool-cases (p == o)) [
  | inl here ↦ let same : p ≡ o = ground arith in rw same at h.0
  | inr on ↦ All-member P ps o h.1 (ground (arith, m))
]

module _ (visit : List Candidate → List ℕ) (cs : List Candidate) where
  -- The loop ends with the greatest count, and with what it started with or a visited peer.
  abbrev IsBest : List ℕ → ℕ → ℕ → ℕ × ℕ → Type 0
  IsBest ps b n r =
      (n ≤ r.1)
      × All (λ p. count (of_peer p) cs ≤ r.1) ps
      × (((r.0 ≡ b) × (r.1 ≡ n)) ⊎ ((is_member r.0 ps ≡ true) × (r.1 ≡ count (of_peer r.0) cs)))

  best_from-IsBest : (ps : List ℕ) (b n : ℕ) → IsBest ps b n (best_from visit cs ps b n)
  unfolding best_from is_member
  best_from-IsBest [] b n = (omega arith, tt, inl (refl, refl))
  best_from-IsBest (p ∷ ps) b n = elim (Bool-cases (ltb n (count (of_peer p) cs))) [
    | inl better ↦
        let further = best_from visit cs ps p (count (of_peer p) cs) in
        let (grown, rest, origin) = best_from-IsBest ps p (count (of_peer p) cs) in
        let e : best_from visit cs (p ∷ ps) b n ≡ further = rw better refl in
        let whole : IsBest (p ∷ ps) b n further = (
          ground (arith, grown, better),
          (grown, rest),
          inr (elim origin [
            | inl (at, n') ↦ (ground (arith, at), n' ∙ ap (λ o. count (of_peer o) cs) (sym at))
            | inr (listed, n') ↦ (ground (arith, listed), n')
          ]),
        ) in
        subst⁻¹ (IsBest (p ∷ ps) b n) e whole
    | inr same ↦
        let further = best_from visit cs ps b n in
        let (grown, rest, origin) = best_from-IsBest ps b n in
        let e : best_from visit cs (p ∷ ps) b n ≡ further = rw same refl in
        let whole : IsBest (p ∷ ps) b n further = (
          grown,
          (ground (arith, grown, same), rest),
          elim origin [ inl kept ↦ inl kept | inr (listed, n') ↦ inr (ground (arith, listed), n') ],
        ) in
        subst⁻¹ (IsBest (p ∷ ps) b n) e whole
  ]

-- The answer of the loop: no peer and no candidate is left, or a peer that is known and not busy
-- has as many of the candidates that are left as any other, and at least one.
abbrev pub IsNext : Peers → Option ℕ × List Candidate → Type 0
IsNext peers (none, cs) = cs ≡ []
IsNext peers (some p, cs) =
    (is_busy peers p ≡ some false)
    × (1 ≤ count (of_peer p) cs)
    × ((o : ℕ) → count (of_peer o) cs ≤ count (of_peer p) cs)

module _ (visit : List Candidate → List ℕ) (fair : IsVisit visit) where
  best_peer-count :
      (c : Candidate) (cs : List Candidate)
      → let p = best_peer visit (c ∷ cs) in
        (1 ≤ count (of_peer p) (c ∷ cs))
        × ((o : ℕ) → count (of_peer o) (c ∷ cs) ≤ count (of_peer p) (c ∷ cs))
  unfolding best_peer
  best_peer-count c cs =
      let all = c ∷ cs in
      let (grown, most, origin) = best_from-IsBest visit all (visit all) 0 0 in
      let r = best_from visit all (visit all) 0 0 in
      let first : is_member c.peer_id (visit all) ≡ true =
        fair all c.peer_id ∙ (unfold is_member in ground arith) in
      let one : 1 ≤ r.1 =
        ground
          (arith, All-member (λ p. count (of_peer p) all ≤ r.1) (visit all) c.peer_id most first) in
      let exact : r.1 ≡ count (of_peer r.0) all = elim origin [
        | inl (at, zero_count) ↦ absurd (omega (arith, zero_count, one))
        | inr (listed, n) ↦ n
      ] in
      (
        omega (arith, one, exact),
        λ o. elim (Bool-cases (is_member o (visit all))) [
          | inl listed ↦ omega (
            arith,
            exact,
            All-member (λ p. count (of_peer p) all ≤ r.1) (visit all) o most listed,
          )
          | inr unlisted ↦ omega (arith, count-absent o all (sym (fair all o) ∙ unlisted))
        ],
      )

  -- Let the map of counts have the peers of the candidates as its keys, in any order. With as much
  -- fuel as there are candidates the loop that looks for a peer ends: no peer and no candidate is
  -- left, or it chooses a known peer with which no acquisition goes on, and which has the most
  -- candidates of those that are left, at least one.
  pub next_from-IsNext :
      (fuel : ℕ) (peers : Peers) (cs : List Candidate)
      → length cs ≤ fuel
      → (r : Option ℕ × List Candidate) × (next_from visit fuel peers cs ≡ some r) × IsNext peers r
  unfolding next_from
  next_from-IsNext fuel peers [] h = ((none, []), refl, refl)
  next_from-IsNext zero peers (c ∷ cs) h = absurd (omega arith)
  next_from-IsNext (suc fuel) peers (c ∷ cs) h =
      let p = best_peer visit (c ∷ cs) in
      let (many, most) = best_peer-count c cs in
      let (r, answer, next) =
        next_from-IsNext fuel peers (remove_if (of_peer p) (c ∷ cs))
          (omega (arith, h, many, length-remove_if p (c ∷ cs))) in
      elim (Option-cases (is_busy peers p)) [
        | inl unknown ↦ (r, rw (next_from, unknown) answer, next)
        | inr (true, busy) ↦ (r, rw (next_from, busy) answer, next)
        | inr (false, idle) ↦ ((some p, c ∷ cs), rw (next_from, idle) refl, (idle, many, most))
      ]
