-- ===== src/Freec/Sort/Sift.antt =====
-- libfreec/src/stdlib.c: the inner loop of sort, which moves one element down to its place.
use mathlib.Core.Logic.{◌≢◌}
use mathlib.Core.List.{Perm}
use mathlib.Core.List.Perm
use rubberos.Base.{
  ℕ, zero, suc, ◌+◌, ◌*◌, ◌≤◌, ◌<◌, ◌≡◌, refl, ◌∙◌, ◌⊎◌, inl, inr, true, some, List, length, get_or,
  ltb, leb, Bool-cases, arith, ◌>>=◌,
}
use rubberos.Base.Int.{ℤ}
use rubberos.Freec.Sort.{is_negative, greater_child, repair}
use rubberos.Freec.Sort.Order.{
  Le, IsOrder, parent, IsHeapFrom, Settled, swapped, length-swapped, swap_lem, get_or-swapped,
  swapped-perm, less_lem,
}

module _ {ℓ} {A : Type ℓ} (comp : A → A → ℤ) (order : IsOrder comp) (d : A) where
  pub Le_refl : (a : A) → Le comp a a
  Le_refl a = elim (Bool-cases (is_negative (comp a a))) [
    | inl below ↦ order.asym a a below
    | inr same ↦ same
  ]

  -- All edges but those below `root` are in order, also past `root`.
  pub record IsBroken (lo end root : ℕ) (xs : List A) : Type 0 where
    pub edges :
        (c : ℕ)
        → 0 < c
        → c < end
        → lo ≤ parent c
        → parent c ≢ root
        → Le comp (get_or xs c d) (get_or xs (parent c) d)
    pub bridged :
        (c : ℕ)
        → 0 < c
        → c < end
        → parent c ≡ root
        → 0 < root
        → lo ≤ parent root
        → Le comp (get_or xs c d) (get_or xs (parent root) d)

  record IsGreater (end root : ℕ) (xs : List A) (m : ℕ) : Type 0 where
    pub inside : m < end
    pub child : (m ≡ root * 2 + 1) ⊎ (m ≡ root * 2 + 2)
    pub greatest :
        (c : ℕ) → 0 < c → c < end → parent c ≡ root → Le comp (get_or xs c d) (get_or xs m d)

  greater_child_lem :
      (end root : ℕ) (xs : List A)
      → end ≤ length xs
      → root * 2 + 1 < end
      → (m : ℕ) × (greater_child comp (root * 2 + 1) end xs ≡ some m) × IsGreater end root xs m
  unfolding greater_child
  greater_child_lem end root xs le lt =
      let l = root * 2 + 1 in
      elim (Bool-cases (ltb (l + 1) end)) [
        | inr last ↦ (
          l,
          rw last refl,
          record {
            inside = lt;
            child = inl refl;
            greatest =
                λ c p q e. let only : c ≡ l = ground arith in rw only (Le_refl (get_or xs l d));
          },
        )
        | inl both ↦
            let reads = less_lem comp d xs l (l + 1) (omega arith) (ground arith) in
            elim (Bool-cases (is_negative (comp (get_or xs l d) (get_or xs (l + 1) d)))) [
              | inl right ↦ (
                l + 1,
                rw (both, reads, right) refl,
                record {
                  inside = ground arith;
                  child = inr (omega arith);
                  greatest = λ c p q e. ground (
                    arith,
                    order.asym (get_or xs l d) (get_or xs (l + 1) d) right,
                    Le_refl (get_or xs (l + 1) d),
                  );
                },
              )
              | inr left ↦ (
                l,
                rw (both, reads, left) refl,
                record {
                  inside = lt;
                  child = inl refl;
                  greatest = λ c p q e. ground (arith, left, Le_refl (get_or xs l d));
                },
              )
            ]
      ]

  swapped-IsBroken :
      (lo end root m : ℕ) (xs : List A)
      → end ≤ length xs
      → root < end
      → IsBroken lo end root xs
      → IsGreater end root xs m
      → is_negative (comp (get_or xs root d) (get_or xs m d)) ≡ true
      → IsBroken lo end m (swapped d xs root m)
  swapped-IsBroken lo end root m xs le lt broken greater below =
      let at = get_or-swapped d xs root m (omega arith) (omega (arith, greater.inside)) in
      let up = order.asym (get_or xs root d) (get_or xs m d) below in
      record {
        edges = λ c p q r t. ground (
          arith,
          at c,
          at (parent c),
          broken.edges c,
          broken.bridged m,
          greater.greatest c,
          greater.child,
          greater.inside,
          up,
        );
        bridged = λ c p q r t u.
            ground (arith, at c, at (parent m), broken.edges c, greater.child, greater.inside);
      }

  swapped-Settled :
      (end root m : ℕ) (xs : List A)
      → end ≤ length xs
      → root < end
      → m < end
      → Settled comp d end xs
      → Settled comp d end (swapped d xs root m)
  swapped-Settled end root m xs le hr hm settled i j lt from inside =
      let at = get_or-swapped d xs root m (omega arith) (omega arith) in
      let len = length-swapped d xs root m in
      let back : j < length xs = omega arith in
      ground (arith, at i, at j, settled i j, settled root j, settled m j)

  -- What the inner loop gives from `xs`.
  pub record IsRepaired (lo end : ℕ) (xs ys : List A) : Type ℓ where
    pub heap : IsHeapFrom comp d lo end ys
    pub perm : Perm ys xs
    pub size : length ys ≡ length xs
    pub settled : Settled comp d end xs → Settled comp d end ys

  pub repair_lem :
      (fuel lo end root : ℕ) (xs : List A)
      → end ≤ length xs
      → root < end
      → end ≤ root + fuel
      → IsBroken lo end root xs
      → (ys : List A) × (repair comp fuel root end xs ≡ some ys) × IsRepaired lo end xs ys
  unfolding repair
  repair_lem zero lo end root xs le lt enough broken = absurd (omega arith)
  repair_lem (suc fuel) lo end root xs le lt enough broken =
      elim (Bool-cases (leb end (root * 2 + 1))) [
        | inl leaf ↦ (
          xs,
          rw leaf refl,
          record {
            heap = λ c p q r. ground (arith, broken.edges c);
            perm = Perm.rfl;
            size = refl;
            settled = λ s. s;
          },
        )
        | inr inner ↦
            let (m, found, greater) = greater_child_lem end root xs le (ground arith) in
            let hm : m < length xs = omega (arith, greater.inside) in
            let read = less_lem comp d xs root m (omega arith) hm in
            elim (Bool-cases (is_negative (comp (get_or xs root d) (get_or xs m d)))) [
              | inr done ↦ (
                xs,
                rw (inner, found, ◌>>=◌, read, done) refl,
                record {
                  heap = λ c p q r. ground (
                    arith,
                    broken.edges c,
                    greater.greatest c,
                    order.trans (get_or xs c d) (get_or xs m d) (get_or xs root d),
                    done,
                  );
                  perm = Perm.rfl;
                  size = refl;
                  settled = λ s. s;
                },
              )
              | inl below ↦
                  let next = swapped d xs root m in
                  let len = length-swapped d xs root m in
                  let (ys, run, done) =
                    repair_lem fuel lo end m next (omega arith) greater.inside
                      (omega (arith, greater.child))
                      (swapped-IsBroken lo end root m xs le lt broken greater below) in
                  (
                    ys,
                    rw (inner, found, ◌>>=◌, read, below, swap_lem d xs root m (omega arith) hm)
                        run,
                    record {
                      heap = done.heap;
                      perm = Perm.trans done.perm (swapped-perm d xs root m (omega arith) hm);
                      size = done.size ∙ len;
                      settled =
                          λ s. done.settled (swapped-Settled end root m xs le lt greater.inside s);
                    },
                  )
            ]
      ]
