-- ===== src/Sched/Tick.antt =====
-- kernel/scheduler.c: what a timer tick does to one task.
use epona_os.Base.{
  ℕ, zero, suc, ◌+◌, ◌-◌, ◌^◌, ◌≤◌, ◌<◌, ◌≡◌, refl, ◌∙◌, inl, inr, Bool, true, false, ◌&&◌, ◌||◌,
  not, arith, upd, upd_ne, leb, ◌==◌, if◌then◌else◌, Bool-cases, extend_down,
}
use epona_os.Task.{ready, terminated, Task}
use epona_os.Sched.{is_terminated, is_sleeping, sigint, sigkill, sigterm, deliver, wake, tick_task}

-- The signal is pending and not held back.
abbrev pub due : Task → ℕ → Bool
due t sig = (t.signals sig).pending && not (t.signals sig).mask

-- A signal that ends the task: SIGKILL, or SIGINT or SIGTERM with a handler.
abbrev pub is_fatal : Task → ℕ → Bool
is_fatal t sig =
    due t sig
    && (sig == sigkill || (not ((t.signals sig).handler == 0) && (sig == sigint || sig == sigterm)))

-- What `deliver` leaves when none of the signals [from, from + n) is fatal, and when `sig` is the
-- first that is.
record Quiet (t : Task) (from n : ℕ) (t' : Task) : Type 0 where
  state : t'.state ≡ t.state
  exit_code : t'.exit_code ≡ t.exit_code
  pending : (j : ℕ) → from ≤ j → j < from + n → due t' j ≡ false

deliver_before :
    (n sig : ℕ) (t : Task) (j : ℕ) → j < sig → (deliver n sig t).signals j ≡ t.signals j
unfolding deliver
deliver_before zero sig t j lt = refl
deliver_before (suc n) sig t j lt = ground (
  arith,
  deliver_before n (sig + 1) t j,
  deliver_before n (sig + 1)
      (record t { signals = upd t.signals sig (record (t.signals sig) { pending = false }) }) j,
  upd_ne t.signals sig j (record (t.signals sig) { pending = false }),
)

-- Signal `sig` is taken off.
abbrev cleared : Task → ℕ → Task
cleared t sig = record t {
  signals = upd t.signals sig (record (t.signals sig) { pending = false });
}

cleared-is_fatal : (t : Task) (sig j : ℕ) → sig < j → is_fatal (cleared t sig) j ≡ is_fatal t j
cleared-is_fatal t sig j lt =
    rw (upd_ne t.signals sig j (record (t.signals sig) { pending = false }) (omega arith))

deliver_kills :
    (n from sig : ℕ) (t : Task)
    → from ≤ sig
    → sig < from + n
    → is_fatal t sig ≡ true
    → ((j : ℕ) → from ≤ j → j < sig → is_fatal t j ≡ false)
    → ((deliver n from t).state ≡ terminated) × ((deliver n from t).exit_code ≡ 2 ^ 32 - sig)
unfolding deliver
deliver_kills zero from sig t a b fatal first = absurd (omega arith)
deliver_kills (suc n) from sig t a b fatal first = elim (Bool-cases (from == sig)) [
  | inl e ↦ let same : from ≡ sig = ground arith in ground (arith, fatal)
  | inr ne ↦
      let further : from < sig = ground arith in
      ground (
        arith,
        first from,
        deliver_kills n (from + 1) sig t (omega arith) (omega arith) fatal
            (λ j p q. first j (omega arith) q),
        deliver_kills n (from + 1) sig (cleared t from) (omega arith) (omega arith)
            (cleared-is_fatal t from sig further ∙ fatal)
            (λ j p q. cleared-is_fatal t from j (omega arith) ∙ first j (omega arith) q),
      )
]

deliver-Quiet :
    (n from : ℕ) (t : Task)
    → ((j : ℕ) → from ≤ j → j < from + n → is_fatal t j ≡ false)
    → Quiet t from n (deliver n from t)
unfolding deliver
deliver-Quiet zero from t calm = record {
  state = refl;
  exit_code = refl;
  pending = λ j a b. absurd (omega arith);
}
deliver-Quiet (suc n) from t calm =
    let stays = deliver-Quiet n (from + 1) t (λ j p q. calm j (omega arith) (omega arith)) in
    let on =
      deliver-Quiet n (from + 1) (cleared t from)
        (λ j p q. cleared-is_fatal t from j (omega arith) ∙ calm j (omega arith) (omega arith)) in
    let here = calm from (omega arith) (omega arith) in
    record {
      state = ground (arith, here, stays.state, on.state);
      exit_code = ground (arith, here, stays.exit_code, on.exit_code);
      pending =
          extend_down _ from (from + suc n)
            (ground (
              arith,
              here,
              deliver_before n (from + 1) t from,
              deliver_before n (from + 1) (cleared t from) from,
            ))
            (λ j p q. ground (arith, here, stays.pending j, on.pending j));
    }

module _ (now : ℕ) (t : Task) (alive : is_terminated t.state ≡ false) where
  woken_alive : is_terminated (wake now t).state ≡ false
  unfolding wake
  woken_alive = ground arith

  woken_fatal : (j : ℕ) → is_fatal (wake now t) j ≡ is_fatal t j
  unfolding wake
  woken_fatal j = ground arith

  tick_task-deliver : tick_task now t ≡ deliver 32 0 (wake now t)
  unfolding tick_task
  tick_task-deliver = rw woken_alive

  -- A tick ends a live task whose lowest fatal signal is `sig`, with exit code -sig.
  pub tick_kills :
      (sig : ℕ)
      → sig < 32
      → is_fatal t sig ≡ true
      → ((j : ℕ) → j < sig → is_fatal t j ≡ false)
      → ((tick_task now t).state ≡ terminated) × ((tick_task now t).exit_code ≡ 2 ^ 32 - sig)
  tick_kills sig lt fatal first = rw tick_task-deliver (
      deliver_kills 32 0 sig (wake now t) (omega arith) (omega arith) (woken_fatal sig ∙ fatal)
        (λ j p q. woken_fatal j ∙ first j q))

  -- A tick leaves a live task without a fatal signal in its state and with its exit code, but that
  -- it becomes READY if it sleeps and its time has come; and none of its signals is due any more.
  pub tick_spares :
      ((j : ℕ) → j < 32 → is_fatal t j ≡ false)
      → ((tick_task now t).state
          ≡ (if is_sleeping t.state && leb t.wake_tick now then ready else t.state))
        × ((tick_task now t).exit_code ≡ t.exit_code)
        × ((j : ℕ) → j < 32 → due (tick_task now t) j ≡ false)
  unfolding wake
  tick_spares calm =
      let quiet = deliver-Quiet 32 0 (wake now t) (λ j p q. woken_fatal j ∙ calm j q) in
      rw tick_task-deliver (
        quiet.state ∙ ground arith,
        quiet.exit_code ∙ ground arith,
        λ j q. quiet.pending j (omega arith) q,
      )
