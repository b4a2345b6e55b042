-- ===== src/Renewal/Timers.antt =====
-- node.cpp: lists of pending timers.
use bfc_tunnel.Base.{
  ℕ, suc, ◌≡◌, ◌<◌, Bool, false, some, List, [], ◌∷◌, ◌++◌, arith, inl, inr, Bool-cases, All,
}
use bfc_tunnel.Network.{find_if, erase_if, remove_if}
use bfc_tunnel.Renewal.{Due, Contexts, has_timer}

module _ {A : Type 0} (P : A → Type 0) where
  pub All-append_one : (xs : List A) (x : A) → All P xs → P x → All P (xs ++ x ∷ [])
  All-append_one [] x held own = (own, tt)
  All-append_one (y ∷ xs) x (h, held) own = (h, All-append_one xs x held own)

  pub All-erase_if : (q : A → Bool) (xs : List A) → All P xs → All P (erase_if q xs)
  unfolding erase_if
  All-erase_if q [] held = tt
  All-erase_if q (x ∷ xs) (h, held) = elim (Bool-cases (q x)) [
    | inl hit ↦ rw hit held
    | inr miss ↦ rw miss (h, All-erase_if q xs held)
  ]

  pub All-remove_if : (q : A → Bool) (xs : List A) → All P xs → All P (remove_if q xs)
  unfolding remove_if
  All-remove_if q [] held = tt
  All-remove_if q (x ∷ xs) (h, held) = elim (Bool-cases (q x)) [
    | inl hit ↦ rw hit (All-remove_if q xs held)
    | inr miss ↦ rw miss (h, All-remove_if q xs held)
  ]

abbrev pub IsBelow : ℕ → Due × ℕ → Type 0
IsBelow n d = d.0.timer_id < n

-- The reactor has given the pending timers numbers below the next one.
abbrev pub IsIssued : Contexts → Type 0
IsIssued t = All (IsBelow t.next_timer) t.timers

pub Issued-suc :
    (n : ℕ) (timers : List (Due × ℕ)) → All (IsBelow n) timers → All (IsBelow (suc n)) timers
Issued-suc n [] below = tt
Issued-suc n (d ∷ timers) (h, below) = (omega arith, Issued-suc n timers below)

-- A timer with a new number is found among the others.
pub find-armed :
    (n : ℕ) (timers : List (Due × ℕ)) (d : Due × ℕ)
    → All (IsBelow n) timers
    → d.0.timer_id ≡ n
    → find_if (has_timer n) (timers ++ d ∷ []) ≡ some d
unfolding find_if
find-armed n [] d below own = ground (arith, own)
find-armed n (x ∷ timers) d (h, below) own =
    let other : has_timer n x ≡ false = ground (arith, h) in
    rw other (find-armed n timers d below own)
