-- ===== src/Renewal.antt =====
-- src/bfc_tunnel/node.cpp: how the security contexts of one peer are made, renewed and expired.
-- The clock and the grace period are arguments. The reactor gives its timers the numbers one after
-- the other, from 1; 0 is the number of a timer that was never set. A context stands beside the number
-- of its timer. A derivation of keys that throws midway, and so leaves a context half written with its
-- old timer, is not a call here: Procedure/Handlers has it.
pub mod Lookup
pub mod Timers
pub mod Ends
pub mod Held
mod Examples
use bfc_tunnel.Base.{
  ℕ, suc, ◌+◌, ◌-◌, ◌*◌, ◌%◌, ◌^◌, Bool, true, false, not, ◌&&◌, Option, none, some, List, [], ◌∷◌,
  ◌++◌, ltb, ◌==◌, if◌then◌else◌,
}
use bfc_tunnel.Network.{find_if, erase_if, remove_if}
use bfc_tunnel.Peer.{SecurityCtx}

-- What a timer calls: `peer_mark_sec_ctx_expiring`, or `peer_expire_security_context`, with the id and
-- the creation id that its callback holds.
pub record Due : Type 0 where
  pub timer_id : ℕ
  pub expires : Bool
  pub id : ℕ
  pub creation_id : ℕ

pub record Contexts : Type 0 where
  pub contexts : List (ℕ × SecurityCtx)
  pub timers : List (Due × ℕ)
  pub next_timer : ℕ

abbrev pub has_ctx : ℕ → ℕ × SecurityCtx → Bool
has_ctx i e = e.1.id == i

abbrev pub has_timer : ℕ → Due × ℕ → Bool
has_timer n t = t.0.timer_id == n

-- `security_ctx_s ctx; ctx.id = id;`.
abbrev pub new_ctx : ℕ → SecurityCtx
new_ctx i = record {
  id = i;
  creation_id = 0;
  integrity_key = [];
  confidentiality_key = [];
  rx_integrity_key = [];
  rx_confidentiality_key = [];
  integrity_algorithm = 0;
  confidentiality_algorithm = 0;
  expiration_time_s = 0;
  is_expiring = false;
  last_rx_sn = 0;
  has_rx_sn = false;
}

unfoldable pub peer_get_or_create_sec_ctx : ℕ → List (ℕ × SecurityCtx) → List (ℕ × SecurityCtx)
peer_get_or_create_sec_ctx i [] = (0, new_ctx i) ∷ []
peer_get_or_create_sec_ctx i (e ∷ rest) =
    if has_ctx i e then e ∷ rest else e ∷ peer_get_or_create_sec_ctx i rest

-- A change through the reference to the context with the id.
unfoldable pub change :
    ℕ → (ℕ × SecurityCtx → ℕ × SecurityCtx) → List (ℕ × SecurityCtx) → List (ℕ × SecurityCtx)
change i f [] = []
change i f (e ∷ rest) = if has_ctx i e then f e ∷ rest else e ∷ change i f rest

abbrev pub cancel_due : ℕ → List (Due × ℕ) → List (Due × ℕ)
cancel_due n timers = remove_if (has_timer n) timers

-- The milliseconds of a number of seconds.
abbrev pub wait_ms : ℕ → ℕ
wait_ms s = s * 1000 % 2 ^ 64

-- `peer_schedule_sec_ctx_renewal_timer` for the context with the id. The subtractions stop at 0.
unfoldable pub peer_schedule_sec_ctx_renewal_timer : ℕ → ℕ → ℕ → ℕ → Contexts → Contexts
unfolding find_if change remove_if
peer_schedule_sec_ctx_renewal_timer grace now i expiration t =
    elim (find_if (has_ctx i) t.contexts) [
      | none ↦ t
      | some (timer, ctx) ↦
          let due : Due = record {
            timer_id = t.next_timer;
            expires = false;
            id = i;
            creation_id = ctx.creation_id;
          } in
          record {
            contexts =
                change i (λ e. (t.next_timer, record e.1 { expiration_time_s = expiration }))
                  t.contexts;
            timers = cancel_due timer t.timers ++ (due, wait_ms (expiration - now - grace)) ∷ [];
            next_timer = suc t.next_timer;
          }
    ]

-- What the handlers of `msg1` and `msg2` write into a context: the fields of `agreed`. The last
-- sequence number stays, and is not looked at.
abbrev pub agree : SecurityCtx → ℕ × SecurityCtx → ℕ × SecurityCtx
agree agreed (timer, ctx) = (
  timer,
  record agreed {
    id = ctx.id;
    expiration_time_s = ctx.expiration_time_s;
    is_expiring = false;
    last_rx_sn = ctx.last_rx_sn;
    has_rx_sn = false;
  },
)

-- The part of both handlers that makes or renews the context with the id of `agreed`.
unfoldable pub put_sec_ctx : ℕ → ℕ → SecurityCtx → Contexts → Contexts
unfolding peer_get_or_create_sec_ctx change peer_schedule_sec_ctx_renewal_timer
put_sec_ctx grace now agreed t =
    peer_schedule_sec_ctx_renewal_timer grace now agreed.id agreed.expiration_time_s (record t {
      contexts = change agreed.id (agree agreed) (peer_get_or_create_sec_ctx agreed.id t.contexts);
    })

-- The contexts, and whether `peer_start_security_procedure` is called.
unfoldable pub peer_mark_sec_ctx_expiring : ℕ → ℕ → ℕ → Contexts → Contexts × Bool
unfolding find_if change remove_if
peer_mark_sec_ctx_expiring now i creation_id t = elim (find_if (has_ctx i) t.contexts) [
  | none ↦ (t, false)
  | some (timer, ctx) ↦
      if not (creation_id == ctx.creation_id)
      then (t, false)
      else if ctx.is_expiring
      then (t, false)
      else let due : Due = record {
        timer_id = t.next_timer;
        expires = true;
        id = i;
        creation_id = creation_id;
      } in
        let marked : Contexts = record {
          contexts = change i (λ e. (t.next_timer, record e.1 { is_expiring = true })) t.contexts;
          timers = cancel_due timer t.timers ++ (due, wait_ms (ctx.expiration_time_s - now)) ∷ [];
          next_timer = suc t.next_timer;
        } in
        (marked, true)
]

abbrev pub is_context : ℕ → ℕ → ℕ × SecurityCtx → Bool
is_context i creation_id e = e.1.id == i && e.1.creation_id == creation_id

unfoldable pub peer_expire_security_context : ℕ → ℕ → Contexts → Contexts
unfolding find_if remove_if
peer_expire_security_context i creation_id t = elim (find_if (has_ctx i) t.contexts) [
  | none ↦ t
  | some (timer, ctx) ↦ if not (creation_id == ctx.creation_id) then t else record t {
    contexts = remove_if (is_context i creation_id) t.contexts;
    timers = cancel_due timer t.timers;
  }
]

abbrev pub call_due : ℕ → Contexts → Due → Contexts × Bool
call_due now t due =
    if due.expires
    then (peer_expire_security_context due.id due.creation_id t, false)
    else peer_mark_sec_ctx_expiring now due.id due.creation_id t

-- The timer with the number is due: it is gone, and its call is made.
unfoldable pub expire_timer : ℕ → ℕ → Contexts → Contexts × Bool
unfolding find_if erase_if peer_mark_sec_ctx_expiring peer_expire_security_context
expire_timer now n t = elim (find_if (has_timer n) t.timers) [
  | none ↦ (t, false)
  | some (due, delay) ↦ call_due now (record t { timers = erase_if (has_timer n) t.timers }) due
]
