-- ===== src/Pipe/Table.antt =====
-- kernel/syscall.c: taking a slot of the table of pipes.
use epona_os.Base.{
  ℕ, zero, suc, ◌+◌, ◌≤◌, ◌<◌, ◌≡◌, refl, sym, ap, ◌∙◌, ◌≢◌, inl, inr, true, false, Option, none,
  some, [], arith, upd, upd_self, upd_ne, subst, Bool-cases, extend_down,
}
use epona_os.Pipe.{Pipe, max_pipes, alloc_loop, alloc}
use epona_os.Pipe.Fifo.{IsValid, contents, contents-nil}

-- Slot `i` was unused; it now holds an empty pipe with one reader and one writer, and no other
-- slot has changed.
pub record Opened (before after : ℕ → Pipe) (i : ℕ) : Type 0 where
  pub unused : (before i).used ≡ false
  pub used : (after i).used ≡ true
  pub valid : IsValid (after i)
  pub empty : contents (after i) ≡ []
  pub readers : (after i).readers ≡ 1
  pub writers : (after i).writers ≡ 1
  pub others : (j : ℕ) → i ≢ j → after j ≡ before j

-- What the search from slot `from` on finds: the first unused slot, or none.
abbrev pub AllocResult : (ℕ → Pipe) → ℕ → Option ℕ × (ℕ → Pipe) → Type 0
AllocResult before from (none, after) =
    (after ≡ before) × ((j : ℕ) → from ≤ j → j < max_pipes → (before j).used ≡ true)
AllocResult before from (some i, after) =
    (i < max_pipes) × Opened before after i × ((j : ℕ) → from ≤ j → j < i → (before j).used ≡ true)

AllocResult-step :
    (before : ℕ → Pipe) (from : ℕ) (r : Option ℕ × (ℕ → Pipe))
    → (before from).used ≡ true
    → AllocResult before (from + 1) r
    → AllocResult before from r
AllocResult-step before from (none, after) e (same, all) =
    (same, extend_down (λ j. (before j).used ≡ true) from max_pipes e all)
AllocResult-step before from (some i, after) e (lt, opened, all) =
    (lt, opened, extend_down (λ j. (before j).used ≡ true) from i e all)

open_slot :
    (pipes : ℕ → Pipe) (i : ℕ)
    → (pipes i).used ≡ false
    → Opened pipes
        (upd pipes i
          (record (pipes i) { used = true; head = 0; count = 0; readers = 1; writers = 1 }))
        i
open_slot pipes i e =
    let new : Pipe = record (pipes i) {
      used = true;
      head = 0;
      count = 0;
      readers = 1;
      writers = 1;
    } in
    let at : upd pipes i new i ≡ new = upd_self pipes i new in
    record {
      unused = e;
      used = ap (λ (p : Pipe). p.used) at;
      valid = subst IsValid (sym at) (record { head_in = omega arith; count_in = omega arith });
      empty = ap contents at ∙ contents-nil new refl;
      readers = ap (λ (p : Pipe). p.readers) at;
      writers = ap (λ (p : Pipe). p.writers) at;
      others = λ j ne. upd_ne pipes i j new ne;
    }

alloc_loop_lem :
    (n i : ℕ) (pipes : ℕ → Pipe) → i + n ≡ max_pipes → AllocResult pipes i (alloc_loop n i pipes)
unfolding alloc_loop
alloc_loop_lem zero i pipes e = (refl, λ j a b. absurd (omega arith))
alloc_loop_lem (suc n) i pipes e = elim (Bool-cases (pipes i).used) [
  | inl used ↦
      rw used (AllocResult-step pipes i _ used (alloc_loop_lem n (i + 1) pipes (omega arith)))
  | inr unused ↦ rw unused (omega arith, open_slot pipes i unused, λ j a b. absurd (omega arith))
]

-- `pipe_alloc` returns none and changes nothing when all MAX_PIPES slots are in use; otherwise it
-- opens the first unused slot, empty, with one reader and one writer, and changes no other slot.
pub alloc_lem : (pipes : ℕ → Pipe) → AllocResult pipes 0 (alloc pipes)
unfolding alloc
alloc_lem pipes = alloc_loop_lem max_pipes 0 pipes (omega arith)
