-- ===== src/Memory/Mmap/Compact.antt =====
-- kernel/src/memory.c: the loop of construct_mmap_dyn that removes entries in place.
use mathlib.Core.List.{append-nil, append_assoc}
use rubberos.Base.{
  ℕ, zero, suc, ◌+◌, ◌≤◌, ◌<◌, ◌≡◌, refl, inl, inr, some, List, [], ◌∷◌, ◌++◌, length, get_elem?,
  set, take, drop, ◌==◌, if◌then◌else◌, Bool-cases, arith, ltb, true, length-set, drop-eq-cons,
  drop-set, take-set, drop-length,
}
use rubberos.Memory.Mmap.{BootEntry, available, remove_loop}

-- the entries that are available, in their order
unfoldable pub keep : List BootEntry → List BootEntry
keep [] = []
keep (entry ∷ entries) =
    let rest = keep entries in if entry.kind == available then entry ∷ rest else rest

some_at :
    (xs : List BootEntry) (i : ℕ) → i < length xs → (e : BootEntry) × (get_elem? xs i ≡ some e)
some_at [] i h = absurd (omega arith)
some_at (x ∷ xs) zero h = (x, refl)
some_at (x ∷ xs) (suc i) h = some_at xs i (omega arith)

remove_loop_keeps :
    (n i k : ℕ) (xs : List BootEntry)
    → i + n ≡ length xs
    → k ≤ i
    → (ys : List BootEntry) × (k' : ℕ) × (remove_loop n i k xs ≡ some (ys, k'))
      × (take k' ys ≡ take k xs ++ keep (drop i xs))
unfolding remove_loop keep
remove_loop_keeps zero i k xs size le =
    let end : i ≡ length xs = omega arith in
    (xs, k, refl, rw (end, drop-length xs, append-nil) refl)
remove_loop_keeps (suc n) i k xs size le =
    let (e, read) = some_at xs i (omega arith) in
    elim (Bool-cases (e.kind == available)) [
      | inl kept ↦
          let (ys, k', run, taken) =
            remove_loop_keeps n (i + 1) (k + 1) (set xs k e) (omega (arith, length-set xs k e))
              (omega arith) in
          let inside : ltb k (length xs) ≡ true = ground arith in
          let next : i + 1 ≡ suc i = omega arith in
          let more : k + 1 ≡ suc k = omega arith in
          (
            ys,
            k',
            rw (remove_loop, read, kept) (rw inside run),
            rw
                (
                  drop-eq-cons xs i e read,
                  keep,
                  kept,
                  taken,
                  next,
                  more,
                  drop-set xs k (suc i) e (omega arith),
                  take-set xs k e (omega arith),
                  append_assoc,
                )
                refl,
          )
      | inr dropped ↦
          let (ys, k', run, taken) = remove_loop_keeps n (i + 1) k xs (omega arith) (omega arith) in
          let next : i + 1 ≡ suc i = omega arith in
          (
            ys,
            k',
            rw (remove_loop, read, dropped) run,
            rw (drop-eq-cons xs i e read, keep, dropped, taken, next) refl,
          )
    ]

-- The loop that removes in place keeps exactly the entries that a filter keeps, in their order, and
-- reads and writes only inside of the array.
pub remove_loop_lem :
    (entries : List BootEntry)
    → (left : List BootEntry) × (len : ℕ) × (remove_loop (length entries) 0 0 entries
        ≡ some (left, len))
      × (take len left ≡ keep entries)
remove_loop_lem entries = remove_loop_keeps (length entries) 0 0 entries (omega arith) (omega arith)
