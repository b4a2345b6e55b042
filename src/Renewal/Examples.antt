-- ===== src/Renewal/Examples.antt =====
-- node.cpp: tests on the contexts of a peer.
use bfc_tunnel.Base.{ℕ, ◌≡◌, refl, true, none, some, List, [], ◌∷◌, map, arith, ◌+◌, ◌*◌}
use bfc_tunnel.Network.{find_if, is_member}
use bfc_tunnel.Peer.{SecurityCtx}
use bfc_tunnel.Renewal.{Due, Contexts, has_ctx, has_timer, new_ctx, put_sec_ctx, expire_timer}
use bfc_tunnel.Renewal.Lookup.{IsDistinct}
use bfc_tunnel.Renewal.Timers.{IsIssued}
use bfc_tunnel.Renewal.Ends.{renewal_of, expiry_of, put_sec_ctx-ends}
use bfc_tunnel.Renewal.Held.{IsHeld, Call, puts, expires, run, run-IsHeld}

abbrev test_agreed : ℕ → ℕ → ℕ → SecurityCtx
test_agreed i creation_id expiration = record (new_ctx i) {
  creation_id = creation_id;
  expiration_time_s = expiration;
}

abbrev none_yet : Contexts
none_yet = record { contexts = []; timers = []; next_timer = 1 }

-- Contexts 3 and 5; then context 3 is renewed.
abbrev two_contexts : Contexts
two_contexts =
    put_sec_ctx 30 100 (test_agreed 5 1 220) (put_sec_ctx 30 100 (test_agreed 3 0 220) none_yet)

numbers_after :
    map
      (λ (e : ℕ × SecurityCtx). e.0)
      (put_sec_ctx 30 150 (test_agreed 3 2 270) two_contexts).contexts
    ≡ 3 ∷ 2 ∷ []
unfolding put_sec_ctx
numbers_after = refl

-- The timers of context 5 run out, one after the other.
after_timers :
    map
      (λ (e : ℕ × SecurityCtx). e.1.id)
      (expire_timer 220 3 (expire_timer 190 2 two_contexts).0).0.contexts
    ≡ 3 ∷ []
unfolding expire_timer put_sec_ctx
after_timers = refl

two-IsDistinct : IsDistinct two_contexts.contexts
unfolding put_sec_ctx is_member
two-IsDistinct = (refl, (refl, tt))

two-IsIssued : IsIssued two_contexts
unfolding put_sec_ctx
two-IsIssued = (omega arith, (omega arith, tt))

-- Context 3 is renewed; its timer is due at 240, and the next one at 270.
put_sec_ctx-ends_example :
    let put = put_sec_ctx 30 150 (test_agreed 3 2 270) two_contexts in
    let (marked, started) = expire_timer 240 3 put in
    let ended = (expire_timer 270 4 marked).0 in
    (find_if (has_timer 3) put.timers ≡ some (renewal_of 3 3 2, 90000))
    × (started ≡ true)
    × (find_if (has_timer 4) marked.timers ≡ some (expiry_of 4 3 2, 30000))
    × (find_if (has_ctx 3) ended.contexts ≡ none)
unfolding put_sec_ctx
put_sec_ctx-ends_example =
    put_sec_ctx-ends 30 150 (test_agreed 3 2 270) two_contexts 240 270 two-IsDistinct two-IsIssued

-- Contexts 3 and 5 are made, context 3 is renewed, and then its old timer would be due, and then those
-- of context 5.
abbrev test_calls : List Call
test_calls =
    puts 30 100 (test_agreed 3 0 220)
    ∷ puts 30 100 (test_agreed 5 1 220)
    ∷ puts 30 150 (test_agreed 3 2 270)
    ∷ expires 190 1
    ∷ expires 190 2
    ∷ expires 220 4
    ∷ []

left_over :
    map
      (λ (d : Due × ℕ). d.0.timer_id * 100 + d.0.id * 10 + d.0.creation_id)
      (run none_yet test_calls).timers
    ≡ 332 ∷ []
unfolding put_sec_ctx expire_timer
left_over = refl

run-IsHeld_example : IsHeld (run none_yet test_calls)
run-IsHeld_example = run-IsHeld none_yet test_calls tt
