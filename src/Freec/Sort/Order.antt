-- ===== src/Freec/Sort/Order.antt =====
-- libfreec/src/stdlib.c: what the calls of the comparison and of swap give inside of the array, and
-- the order of a heap.
use mathlib.Core.List.{Perm}
use mathlib.Core.List.Perm
use rubberos.Base.{
  ℕ, zero, suc, ◌-◌, ◌/◌, ◌≤◌, ◌<◌, ◌≡◌, refl, true, false, some, List, [], ◌∷◌, length, get_or,
  set, ◌==◌, if◌then◌else◌, arith, length-set, get_or-set, get_elem?-eq-get_or,
}
use rubberos.Base.Int.{ℤ}
use rubberos.Freec.Sort.{is_negative, swap, less}

-- `a` may stand before `b`.
abbrev pub Le {ℓ} : {A : Type ℓ} → (A → A → ℤ) → A → A → Type 0
Le comp a b = is_negative (comp b a) ≡ false

-- A comparison is a total order up to ties.
pub record IsOrder {ℓ} {A : Type ℓ} (comp : A → A → ℤ) : Type ℓ where
  pub asym : (a b : A) → is_negative (comp a b) ≡ true → Le comp a b
  pub trans : (a b c : A) → Le comp a b → Le comp b c → Le comp a c

abbrev pub parent : ℕ → ℕ
parent c = (c - 1) / 2

-- In the first `end` places, no child whose parent is at `lo` or behind it is above its parent.
abbrev pub IsHeapFrom {ℓ} : {A : Type ℓ} → (A → A → ℤ) → A → ℕ → ℕ → List A → Type 0
IsHeapFrom comp d lo end xs =
    (c : ℕ) → 0 < c → c < end → lo ≤ parent c → Le comp (get_or xs c d) (get_or xs (parent c) d)

-- From `end` on, each element stands in its place.
abbrev pub Settled {ℓ} : {A : Type ℓ} → (A → A → ℤ) → A → ℕ → List A → Type 0
Settled comp d end xs =
    (i j : ℕ) → i < j → end ≤ j → j < length xs → Le comp (get_or xs i d) (get_or xs j d)

module _ {ℓ} {A : Type ℓ} where
  write_perm :
      (d : A) (xs : List A) (i : ℕ) (v : A)
      → i < length xs
      → Perm (get_or xs i d ∷ set xs i v) (v ∷ xs)
  write_perm d [] i v h = absurd (omega arith)
  write_perm d (x ∷ xs) zero v h = Perm.swap v x xs
  write_perm d (x ∷ xs) (suc i) v h =
      Perm.trans (Perm.swap x _ _)
        (Perm.trans (Perm.cons x (write_perm d xs i v (omega arith))) (Perm.swap v x xs))

  abbrev pub swapped : A → List A → ℕ → ℕ → List A
  swapped d xs i j = set (set xs i (get_or xs j d)) j (get_or xs i d)

  pub length-swapped : (d : A) (xs : List A) (i j : ℕ) → length (swapped d xs i j) ≡ length xs
  length-swapped d xs i j = simp length-set

  module _ (d : A) (xs : List A) (i j : ℕ) (hi : i < length xs) (hj : j < length xs) where
    pub swap_lem : swap xs i j ≡ some (swapped d xs i j)
    unfolding swap
    swap_lem = rw (get_elem?-eq-get_or xs i d hi, get_elem?-eq-get_or xs j d hj) refl

    pub get_or-swapped :
        (c : ℕ)
        → get_or (swapped d xs i j) c d
          ≡ (if c == j then get_or xs i d else if c == i then get_or xs j d else get_or xs c d)
    get_or-swapped c =
        rw
          (
            get_or-set (set xs i (get_or xs j d)) j c (get_or xs i d) d (rw length-set hj),
            get_or-set xs i c (get_or xs j d) d hi,
          )
          refl

    pub swapped-perm : Perm (swapped d xs i j) xs
    swapped-perm =
        let ys = set xs i (get_or xs j d) in
        let same : get_or ys j d ≡ get_or xs j d =
          ground (arith, get_or-set xs i j (get_or xs j d) d hi) in
        let back = rw same at (write_perm d ys j (get_or xs i d) (rw length-set hj)) in
        Perm.cons_inv (Perm.trans back (write_perm d xs i (get_or xs j d) hi))

  pub less_lem :
      (comp : A → A → ℤ) (d : A) (xs : List A) (i j : ℕ)
      → i < length xs
      → j < length xs
      → less comp xs i j ≡ some (is_negative (comp (get_or xs i d) (get_or xs j d)))
  unfolding less
  less_lem comp d xs i j hi hj =
      rw (get_elem?-eq-get_or xs i d hi, get_elem?-eq-get_or xs j d hj) refl
