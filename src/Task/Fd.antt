-- ===== src/Task/Fd.antt =====
-- kernel/scheduler.c: the file descriptor table of a task.
use epona_os.Base.{
  ℕ, zero, suc, ◌+◌, ◌-◌, ◌≤◌, ◌<◌, ◌≡◌, refl, ◌≢◌, ◌⊎◌, inl, inr, true, false, ◌&&◌, not, Option,
  none, some, List, [], ◌∷◌, arith, upd, upd_ne, ◌==◌, if◌then◌else◌, Bool-cases, extend_down,
}
use epona_os.Task.{
  Task, FdEntry, no_fd, fd_type_file, task_max_fd, fd_alloc_loop, fd_alloc, fd_free, fd_get,
  fd_close_loop, fd_close_all,
}

-- What the search from entry `from` on returns.
abbrev pub AllocResult : Task → ℕ → ℕ → ℕ → Option ℕ × Task → Type 0
AllocResult t from ptr kind (none, t') =
    (t' ≡ t) × ((j : ℕ) → from ≤ j → j < task_max_fd → (t.fd j).used ≡ true)
AllocResult t from ptr kind (some i, t') =
    (from ≤ i)
    × (i < task_max_fd)
    × ((t.fd i).used ≡ false)
    × ((j : ℕ) → from ≤ j → j < i → (t.fd j).used ≡ true)
    × (t' ≡ record t { fd = upd t.fd i (record { ptr = ptr; kind = kind; used = true }) })

AllocResult-step :
    (t : Task) (from ptr kind : ℕ) (r : Option ℕ × Task)
    → (t.fd from).used ≡ true
    → AllocResult t (from + 1) ptr kind r
    → AllocResult t from ptr kind r
AllocResult-step t from ptr kind (none, t') e (same, all) =
    (same, extend_down (λ j. (t.fd j).used ≡ true) from task_max_fd e all)
AllocResult-step t from ptr kind (some i, t') e (le, lt, free, all, final) =
    (omega arith, lt, free, extend_down (λ j. (t.fd j).used ≡ true) from i e all, final)

fd_alloc_loop_lem :
    (n i ptr kind : ℕ) (t : Task)
    → i + n ≡ task_max_fd
    → AllocResult t i ptr kind (fd_alloc_loop n i ptr kind t)
unfolding fd_alloc_loop
fd_alloc_loop_lem zero i ptr kind t e = (refl, λ j a b. absurd (omega arith))
fd_alloc_loop_lem (suc n) i ptr kind t e = elim (Bool-cases (t.fd i).used) [
  | inl used ↦
      rw used (
        AllocResult-step t i ptr kind _ used (fd_alloc_loop_lem n (i + 1) ptr kind t (omega arith)))
  | inr free ↦ rw free (omega arith, omega arith, free, λ j a b. absurd (omega arith), refl)
]

-- `task_fd_alloc` fails, and changes nothing, exactly when the descriptors 3 to 31 are all in use;
-- otherwise it returns the lowest that is not, and fills that entry and no other.
pub fd_alloc_lem : (ptr kind : ℕ) (t : Task) → AllocResult t 3 ptr kind (fd_alloc ptr kind t)
unfolding fd_alloc
fd_alloc_lem ptr kind t = fd_alloc_loop_lem (task_max_fd - 3) 3 ptr kind t (omega arith)

-- A descriptor that `task_fd_alloc` has returned reads back the pointer, and after `task_fd_free`
-- it reads NULL and the table is as it was, but for the entry's old contents.
pub fd_get-alloc :
    (ptr kind : ℕ) (t : Task) {i : ℕ}
    → (fd_alloc ptr kind t).0 ≡ some i
    → (fd_get i (fd_alloc ptr kind t).1 ≡ ptr)
      × (fd_get i (fd_free i (fd_alloc ptr kind t).1) ≡ 0)
      × ((j : ℕ) → j ≢ i → (fd_free i (fd_alloc ptr kind t).1).fd j ≡ t.fd j)
unfolding fd_get fd_free
fd_get-alloc ptr kind t {i} h = after (fd_alloc ptr kind t) (fd_alloc_lem ptr kind t) h
  where
    after :
        (r : Option ℕ × Task)
        → AllocResult t 3 ptr kind r
        → r.0 ≡ some i
        → (fd_get i r.1 ≡ ptr)
          × (fd_get i (fd_free i r.1) ≡ 0)
          × ((j : ℕ) → j ≢ i → (fd_free i r.1).fd j ≡ t.fd j)
    after (none, t') h e = cc
    after (some k, t') (le, lt, free, all, final) e =
        rw final (ground arith, ground arith, λ j ne. ground arith)

-- The files that stand open in `n` entries of a table, from entry `i` on.
unfoldable pub open_files : ℕ → ℕ → (ℕ → FdEntry) → List ℕ
open_files zero i fd = []
open_files (suc n) i fd =
    let rest : List ℕ = open_files n (i + 1) fd in
    if (fd i).used && ((fd i).kind == fd_type_file && not ((fd i).ptr == 0))
    then (fd i).ptr ∷ rest
    else rest

open_files-upd :
    (n i j : ℕ) (fd : ℕ → FdEntry) (e : FdEntry)
    → j < i
    → open_files n i (upd fd j e) ≡ open_files n i fd
unfolding open_files
open_files-upd zero i j fd e lt = refl
open_files-upd (suc n) i j fd e lt =
    rw (upd_ne fd j i e (omega arith), open_files-upd n (i + 1) j fd e (omega arith))

-- What the loop over the entries [i, i + n) leaves.
record Closed (n i : ℕ) (t : Task) (r : List ℕ × Task) : Type 0 where
  files : r.0 ≡ open_files n i t.fd
  unused : (j : ℕ) → i ≤ j → j < i + n → (r.1.fd j).used ≡ false
  others : (j : ℕ) → (j < i) ⊎ (i + n ≤ j) → r.1.fd j ≡ t.fd j

fd_close_loop_lem : (n i : ℕ) (t : Task) → Closed n i t (fd_close_loop n i t)
unfolding fd_close_loop open_files
fd_close_loop_lem zero i t = record {
  files = refl;
  unused = λ j a b. absurd (omega arith);
  others = λ j h. refl;
}
fd_close_loop_lem (suc n) i t =
    let t' : Task = record t { fd = upd t.fd i no_fd } in
    let closed = fd_close_loop_lem n (i + 1) t' in
    let skipped = fd_close_loop_lem n (i + 1) t in
    record {
      files = ground (arith, closed.files, skipped.files, open_files-upd n (i + 1) i t.fd no_fd);
      unused =
          extend_down _ i (i + suc n)
            (ground (arith, closed.others i (omega arith), skipped.others i (omega arith)))
            (λ j a b. ground (arith, closed.unused j, skipped.unused j));
      others = λ j h. ground (arith, closed.others j, skipped.others j);
    }

-- `task_fd_close_all` hands to `vfs_close` exactly the files that stand open in the descriptors 3
-- to 31, in order; leaves those descriptors unused; and does not touch 0, 1 and 2.
pub fd_close_all_lem :
    (t : Task)
    → ((fd_close_all t).0 ≡ open_files 29 3 t.fd)
      × ((j : ℕ) → 3 ≤ j → j < task_max_fd → ((fd_close_all t).1.fd j).used ≡ false)
      × ((j : ℕ) → j < 3 → (fd_close_all t).1.fd j ≡ t.fd j)
unfolding fd_close_all
fd_close_all_lem t =
    let c = fd_close_loop_lem 29 3 t in
    (c.files, λ j a b. c.unused j a b, λ j a. c.others j (inl a))
