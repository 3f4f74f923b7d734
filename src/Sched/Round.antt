-- ===== src/Sched/Round.antt =====
-- kernel/scheduler.c: `schedule` goes round the tasks.
use epona_os.Base.{
  ℕ, zero, suc, ◌≡◌, refl, sym, ap, ◌∙◌, false, ◌||◌, List, [], ◌∷◌, ◌++◌, arith, length,
}
use mathlib.Core.List.{append_assoc, append-nil}
use epona_os.Task.{Task}
use epona_os.Sched.{
  Sched, is_terminated, is_sleeping, skippable, skip_idle, reap, switch_to, schedule_ring, schedule,
}

-- The addresses of the tasks, in the order of the ring.
abbrev pub addresses : List Task → List ℕ
addresses [] = []
addresses (t ∷ ts) = t.self ∷ addresses ts

pub addresses-append : (ts us : List Task) → addresses (ts ++ us) ≡ addresses ts ++ addresses us
addresses-append [] us = refl
addresses-append (t ∷ ts) us = ap (λ l. t.self ∷ l) (addresses-append ts us)

-- No task is terminated or asleep.
abbrev pub AllRunnable : List Task → Type 0
AllRunnable [] = Unit
AllRunnable (t ∷ ts) = (skippable t ≡ false) × AllRunnable ts

AllRunnable-snoc :
    (ts : List Task) (t : Task)
    → AllRunnable ts
    → skippable t ≡ false
    → AllRunnable (ts ++ (t ∷ []))
AllRunnable-snoc [] t h e = (e, tt)
AllRunnable-snoc (u ∷ ts) t h e = (h.0, AllRunnable-snoc ts t h.1 e)

-- One step round.
abbrev pub rotate : List ℕ → List ℕ
rotate [] = []
rotate (x ∷ xs) = xs ++ (x ∷ [])

abbrev pub times {ℓ} : {A : Type ℓ} → ℕ → (A → A) → A → A
times zero f x = x
times (suc n) f x = times n f (f x)

reap_runnable : (ts : List Task) (s : Sched) → AllRunnable ts → reap ts s ≡ (ts, s)
unfolding reap
reap_runnable [] s h = refl
reap_runnable (t ∷ ts) s h =
    let alive : is_terminated t.state ≡ false = ground (arith, h.0) in
    rw (alive, reap_runnable ts s h.1)

ring_step :
    (ring : List Task) (s : Sched)
    → s.ring ≡ ring
    → AllRunnable ring
    → (addresses (schedule_ring ring s).ring ≡ rotate (addresses ring))
      × AllRunnable (schedule_ring ring s).ring
unfolding schedule_ring skip_idle switch_to
ring_step [] s e h = rw e (refl, tt)
ring_step (cur ∷ []) s e h =
    let alive : is_terminated cur.state ≡ false = ground (arith, h.0) in rw (alive, e) (refl, h)
ring_step (cur ∷ next ∷ tail) s e (a, (b, c)) =
    let here : (is_terminated next.state || is_sleeping next.state) ≡ false = b in
    rw (here, reap_runnable tail s c)
      (ap (λ l. next.self ∷ l) (addresses-append tail _), (refl, AllRunnable-snoc tail _ c refl))

schedule_step :
    (s : Sched)
    → AllRunnable s.ring
    → (addresses (schedule s).ring ≡ rotate (addresses s.ring)) × AllRunnable (schedule s).ring
unfolding schedule
schedule_step s h = ring_step s.ring s refl h

-- While no task is terminated or asleep, every call of `schedule` makes the next task of the ring
-- the current one: after `n` calls the ring has been turned `n` places, with every task kept.
pub round_robin :
    (n : ℕ) (s : Sched)
    → AllRunnable s.ring
    → addresses (times n schedule s).ring ≡ times n rotate (addresses s.ring)
round_robin zero s h = refl
round_robin (suc n) s h =
    let step = schedule_step s h in round_robin n (schedule s) step.1 ∙ ap (times n rotate) step.0

times-rotate : (xs ys : List ℕ) → times (length xs) rotate (xs ++ ys) ≡ ys ++ xs
times-rotate [] ys = sym (append-nil ys)
times-rotate (x ∷ xs) ys =
    ap (times (length xs) rotate) (append_assoc xs ys (x ∷ []))
    ∙ times-rotate xs (ys ++ (x ∷ []))
    ∙ append_assoc ys (x ∷ []) xs

-- So after as many calls as there are tasks, each has been the current one and the ring stands as
-- it did.
pub full_round :
    (s : Sched)
    → AllRunnable s.ring
    → addresses (times (length (addresses s.ring)) schedule s).ring ≡ addresses s.ring
full_round s h =
    round_robin (length (addresses s.ring)) s h
    ∙ ap (times (length (addresses s.ring)) rotate) (sym (append-nil (addresses s.ring)))
    ∙ times-rotate (addresses s.ring) []
