-- ===== src/Freec/Sort/Sorted.antt =====
-- libfreec/src/stdlib.c: sort puts every array in order.
use mathlib.Core.List.{Perm}
use mathlib.Core.List.Perm
use rubberos.Base.{
  ℕ, zero, suc, ◌+◌, ◌-◌, ◌/◌, ◌≤◌, ◌<◌, ◌≡◌, refl, inl, inr, some, List, [], ◌∷◌, length, get_or,
  ltb, ◌==◌, if◌then◌else◌, Bool-cases, arith, ◌>>=◌,
}
use rubberos.Base.Int.{ℤ}
use rubberos.Freec.Sort.{swap, repair, sort_loop, sort}
use rubberos.Freec.Sort.Order.{
  Le, IsOrder, parent, IsHeapFrom, Settled, swapped, length-swapped, swap_lem, get_or-swapped,
  swapped-perm,
}
use rubberos.Freec.Sort.Sift.{IsBroken, repair_lem, Le_refl}

module _ {ℓ} {A : Type ℓ} (comp : A → A → ℤ) (order : IsOrder comp) (d : A) where
  root_greatest :
      (fuel end c : ℕ) (xs : List A)
      → IsHeapFrom comp d 0 end xs
      → c < fuel
      → c < end
      → Le comp (get_or xs c d) (get_or xs 0 d)
  root_greatest zero end c xs heap lt inside = absurd (omega arith)
  root_greatest (suc fuel) end c xs heap lt inside = ground (
    arith,
    Le_refl comp order d (get_or xs 0 d),
    heap c,
    root_greatest fuel end (parent c) xs heap,
    order.trans (get_or xs c d) (get_or xs (parent c) d) (get_or xs 0 d),
  )

  record IsSorting (start end : ℕ) (xs : List A) : Type 0 where
    inside : end ≤ length xs
    half : start ≤ end / 2
    heap : IsHeapFrom comp d start end xs
    settled : Settled comp d end xs

  build_round :
      (start end : ℕ) (xs : List A)
      → 1 < end
      → 0 < start
      → IsSorting start end xs
      → (ys : List A) × (repair comp end (start - 1) end xs ≡ some ys)
        × IsSorting (start - 1) end ys
        × Perm ys xs
  build_round start end xs more build s =
      let broken : IsBroken comp order d (start - 1) end (start - 1) xs = record {
        edges = λ c p q r t. ground (arith, s.heap c);
        bridged = λ c p q r t u. absurd (omega arith);
      } in
      let (ys, run, y) =
        repair_lem comp order d end (start - 1) end (start - 1) xs s.inside (omega (arith, s.half))
          (omega arith) broken in
      (
        ys,
        run,
        record {
          inside = omega (arith, s.inside, y.size);
          half = omega (arith, s.half);
          heap = y.heap;
          settled = y.settled s.settled;
        },
        y.perm,
      )

  module _ (end : ℕ) (xs : List A) (more : 1 < end) (s : IsSorting 0 end xs) where
    popped : List A
    popped = swapped d xs (end - 1) 0

    popped_at :
        (c : ℕ)
        → get_or popped c d ≡ (
            if c == 0
            then get_or xs (end - 1) d
            else if c == end - 1
            then get_or xs 0 d
            else get_or xs c d)
    unfolding popped
    popped_at = get_or-swapped d xs (end - 1) 0 (omega (arith, s.inside)) (omega (arith, s.inside))

    length-popped : length popped ≡ length xs
    unfolding popped
    length-popped = length-swapped d xs (end - 1) 0

    popped-IsBroken : IsBroken comp order d 0 (end - 1) 0 popped
    popped-IsBroken = record {
      edges = λ c p q r t. ground (arith, popped_at c, popped_at (parent c), s.heap c);
      bridged = λ c p q r t u. absurd (omega arith);
    }

    popped-Settled : Settled comp d (end - 1) popped
    popped-Settled i j lt p q = ground (
      arith,
      popped_at i,
      popped_at j,
      length-popped,
      s.settled i j,
      s.settled (end - 1) j,
      s.settled 0 j,
      root_greatest (suc i) end i xs s.heap,
      root_greatest end end (end - 1) xs s.heap,
    )

    pop_round :
        (ys zs : List A) × (swap xs (end - 1) 0 ≡ some ys)
        × (repair comp end 0 (end - 1) ys ≡ some zs)
        × IsSorting 0 (end - 1) zs
        × Perm zs xs
    unfolding popped
    pop_round =
        let last : end - 1 < length xs = omega (arith, s.inside) in
        let first : 0 < length xs = omega arith in
        let (zs, run, z) =
          repair_lem comp order d end 0 (end - 1) 0 popped (omega (arith, length-popped))
            (omega arith) (omega arith) popped-IsBroken in
        (
          popped,
          zs,
          swap_lem d xs (end - 1) 0 last first,
          run,
          record {
            inside = omega (arith, length-popped, z.size);
            half = omega arith;
            heap = z.heap;
            settled = z.settled popped-Settled;
          },
          Perm.trans {l₁ = zs} {l₂ = popped} z.perm (swapped-perm d xs (end - 1) 0 last first),
        )

  sort_loop_lem :
      (fuel start end : ℕ) (xs : List A)
      → start + end < fuel
      → IsSorting start end xs
      → (ys : List A) × (sort_loop comp fuel start end xs ≡ some ys)
        × Settled comp d 1 ys
        × Perm ys xs
  unfolding sort_loop
  sort_loop_lem zero start end xs enough s = absurd (omega arith)
  sort_loop_lem (suc fuel) start end xs enough s = elim (Bool-cases (ltb 1 end)) [
    | inr done ↦ (xs, rw done refl, λ i j lt p q. ground (arith, s.settled i j), Perm.rfl)
    | inl more ↦ elim (Bool-cases (ltb 0 start)) [
      | inl build ↦
          let (ys, repaired, next, y) = build_round start end xs (ground arith) (ground arith) s in
          let (zs, run, sorted, z) = sort_loop_lem fuel (start - 1) end ys (ground arith) next in
          (zs, rw (more, build, repaired, ◌>>=◌) run, sorted, Perm.trans {l₁ = zs} {l₂ = ys} z y)
      | inr pop ↦
          let none_left : start ≡ 0 = ground arith in
          let (ys, zs, exchanged, repaired, next, z) =
            pop_round end xs (ground arith) (rw none_left at s) in
          let (ws, run, sorted, w) = sort_loop_lem fuel 0 (end - 1) zs (ground arith) next in
          (
            ws,
            rw (more, pop, exchanged, ◌>>=◌, repaired) run,
            sorted,
            Perm.trans {l₁ = ws} {l₂ = zs} w z,
          )
    ]
  ]

-- `a` may stand before every element.
abbrev pub Heads {ℓ} : {A : Type ℓ} → (A → A → ℤ) → A → List A → Type 0
Heads comp a [] = Unit
Heads comp a (x ∷ xs) = Le comp a x × Heads comp a xs

abbrev pub IsSorted {ℓ} : {A : Type ℓ} → (A → A → ℤ) → List A → Type 0
IsSorted comp [] = Unit
IsSorted comp (x ∷ xs) = Heads comp x xs × IsSorted comp xs

module _ {ℓ} {A : Type ℓ} (comp : A → A → ℤ) where
  Heads-get_or :
      (a d : A) (xs : List A)
      → ((i : ℕ) → i < length xs → Le comp a (get_or xs i d))
      → Heads comp a xs
  Heads-get_or a d [] h = tt
  Heads-get_or a d (x ∷ xs) h =
      (h 0 (omega arith), Heads-get_or a d xs (λ i lt. h (suc i) (omega arith)))

  Settled-IsSorted : (d : A) (xs : List A) → Settled comp d 1 xs → IsSorted comp xs
  Settled-IsSorted d [] s = tt
  Settled-IsSorted d (x ∷ xs) s = (
    Heads-get_or x d xs (λ i lt. s 0 (suc i) (omega arith) (omega arith) (omega arith)),
    Settled-IsSorted d xs
        (λ i j lt from inside. s (suc i) (suc j) (omega arith) (omega arith) (omega arith)),
  )

  -- Wherever the comparison is a total order up to ties, sort ends within its fuel and without an
  -- access outside of the array, and the array then holds the same elements, none of them before
  -- one that is below it.
  pub sort_lem :
      (xs : List A)
      → IsOrder comp
      → (ys : List A) × (sort comp xs ≡ some ys) × Perm ys xs × IsSorted comp ys
  unfolding sort sort_loop
  sort_lem [] order = ([], refl, Perm.rfl, tt)
  sort_lem (x ∷ xs) order =
      let n = length (x ∷ xs) in
      let (ys, run, settled, perm) =
        sort_loop_lem comp order x (n / 2 + n + 1) (n / 2) n (x ∷ xs) (omega arith) (record {
          inside = omega arith;
          half = omega arith;
          heap = λ c p q r. absurd (omega arith);
          settled = λ i j lt p q. absurd (omega arith);
        }) in
      (ys, run, perm, Settled-IsSorted x ys settled)
