-- ===== src/Paging/Dynmem.antt =====
-- The two translations of the dynamic memory are inverse to each other.
use rubberos.Base.{
  ℕ, ◌+◌, ◌-◌, ◌%◌, ◌^◌, ◌≤◌, ◌<◌, ◌≡◌, refl, true, false, some, List, [], ◌∷◌, arith, ltb, leb,
  Bool-cases, any, Bool, ◌&&◌, inl, inr, ap, ◌∙◌,
}
use rubberos.Paging.{
  MmapEntry, dynmem_start_virt, sub_64, to_phys_loop, virt_to_phys_dynmem, to_virt_loop,
  phys_to_virt_dynmem, phys_to_virt,
}

-- Every entry begins at the bound or behind it.
abbrev pub Above : ℕ → List MmapEntry → Type 0
Above bound [] = Unit
Above bound (entry ∷ entries) = (bound ≤ entry.base) × Above bound entries

-- The entries stand in the order of their addresses, and do not overlap.
abbrev pub Ascending : List MmapEntry → Type 0
Ascending [] = Unit
Ascending (entry ∷ entries) = Above (entry.base + entry.len) entries × Ascending entries

-- Every entry ends before the end of the addresses.
abbrev pub Bounded : List MmapEntry → Type 0
Bounded [] = Unit
Bounded (entry ∷ entries) = (entry.base + entry.len < 2 ^ 64) × Bounded entries

unfoldable pub total : List MmapEntry → ℕ
total [] = 0
total (entry ∷ entries) = entry.len + total entries

pub Above-weaken :
    (low high : ℕ) (entries : List MmapEntry) → low ≤ high → Above high entries → Above low entries
Above-weaken low high [] le above = tt
Above-weaken low high (entry ∷ entries) le above =
    (omega (arith, above.0), Above-weaken low high entries le above.1)

-- The entries ascend, so their sum does not wrap either.
pub total-Bounded :
    (bound : ℕ) (entries : List MmapEntry)
    → bound < 2 ^ 64
    → Above bound entries
    → Ascending entries
    → Bounded entries
    → bound + total entries < 2 ^ 64
unfolding total
total-Bounded bound [] low above asc bounded = omega arith
total-Bounded bound (entry ∷ entries) low above asc bounded =
    omega (
      arith,
      above.0,
      total-Bounded (entry.base + entry.len) entries bounded.0 asc.0 asc.1 bounded.1,
    )

-- Both loops go past an entry that does not have the address.
module _ (entry : MmapEntry) (entries : List MmapEntry) where
  to_phys_later :
      (offset sum : ℕ)
      → sum + entry.len < 2 ^ 64
      → ltb offset (sum + entry.len) ≡ false
      → to_phys_loop offset sum (entry ∷ entries) ≡ to_phys_loop offset (sum + entry.len) entries
  unfolding to_phys_loop
  to_phys_later offset sum fits later =
      let no_wrap : (sum + entry.len) % 2 ^ 64 ≡ sum + entry.len = omega arith in
      rw (no_wrap, later) refl

  to_virt_later :
      (phys sum : ℕ)
      → sum + entry.len < 2 ^ 64
      → entry.base + entry.len < 2 ^ 64
      → entry.base + entry.len ≤ phys
      → to_virt_loop phys sum (entry ∷ entries) ≡ to_virt_loop phys (sum + entry.len) entries
  unfolding to_virt_loop
  to_virt_later phys sum fits low past =
      let no_wrap : (sum + entry.len) % 2 ^ 64 ≡ sum + entry.len = omega arith in
      let end_no_wrap : (entry.base + entry.len) % 2 ^ 64 ≡ entry.base + entry.len = omega arith in
      let not_here : ltb phys (entry.base + entry.len) ≡ false = ground arith in
      rw (no_wrap, end_no_wrap, not_here) (ground arith)

loops_lem :
    (entries : List MmapEntry) (offset sum : ℕ)
    → Ascending entries
    → Bounded entries
    → sum + total entries < 2 ^ 64
    → dynmem_start_virt + offset < 2 ^ 64
    → sum ≤ offset
    → offset < sum + total entries
    → (phys : ℕ) × (to_phys_loop offset sum entries ≡ some phys)
      × (to_virt_loop phys sum entries ≡ some (dynmem_start_virt + offset))
      × ((bound : ℕ) → Above bound entries → bound ≤ phys)
unfolding to_phys_loop to_virt_loop total
loops_lem [] offset sum asc bounded fits top lo hi = absurd (omega arith)
loops_lem (entry ∷ entries) offset sum asc bounded fits top lo hi =
    let no_wrap : (sum + entry.len) % 2 ^ 64 ≡ sum + entry.len = omega arith in
    let end_no_wrap : (entry.base + entry.len) % 2 ^ 64 ≡ entry.base + entry.len =
      omega (arith, bounded.0) in
    elim (Bool-cases (ltb offset (sum + entry.len))) [
      | inl here ↦
          let phys = entry.base + (offset - sum) in
          let in_entry : phys < entry.base + entry.len = ground arith in
          let to_phys : (entry.base + sub_64 offset sum) % 2 ^ 64 ≡ phys =
            ground (arith, bounded.0) in
          let to_virt : (dynmem_start_virt + sum + (phys - entry.base)) % 2 ^ 64
              ≡ dynmem_start_virt + offset =
            omega arith in
          (
            phys,
            rw (no_wrap, here, to_phys) refl,
            ground (arith, end_no_wrap, to_virt, in_entry),
            λ bound above. omega arith,
          )
      | inr later ↦
          let (phys, to_phys, to_virt, behind) =
            loops_lem entries offset (sum + entry.len) asc.1 bounded.1 (omega arith) top
              (ground arith) (omega arith) in
          let past : entry.base + entry.len ≤ phys = behind (entry.base + entry.len) asc.0 in
          (
            phys,
            to_phys_later entry entries offset sum (omega arith) later ∙ to_phys,
            to_virt_later entry entries phys sum (omega arith) bounded.0 past ∙ to_virt,
            λ bound above. behind bound above.1,
          )
    ]

-- The address stands in the entry.
abbrev pub covers : ℕ → MmapEntry → Bool
covers phys entry = leb entry.base phys && ltb phys (entry.base + entry.len)

to_phys_loop-covers :
    (entries : List MmapEntry) (offset sum phys : ℕ)
    → Bounded entries
    → sum + total entries < 2 ^ 64
    → sum ≤ offset
    → to_phys_loop offset sum entries ≡ some phys
    → any (covers phys) entries ≡ true
unfolding to_phys_loop total
to_phys_loop-covers [] offset sum phys bounded fits le e = absurd (ground (arith, e))
to_phys_loop-covers (entry ∷ entries) offset sum phys bounded fits le e =
    let no_wrap : (sum + entry.len) % 2 ^ 64 ≡ sum + entry.len = omega arith in
    let e' = rw no_wrap at e in
    elim (Bool-cases (ltb offset (sum + entry.len))) [
      | inl here ↦ ground (arith, e', here, bounded.0)
      | inr later ↦
          let rest =
            to_phys_loop-covers entries offset (sum + entry.len) phys bounded.1 (omega arith)
              (ground arith) (rw later at e') in
          ground (arith, rest)
    ]

-- On a map whose entries ascend without an overlap and end before the end of the addresses, every
-- 64-bit address of the dynamic memory has a physical address, in one of the entries of the map, and
-- translating that back gives the address again, by phys_to_virt_dynmem and by phys_to_virt.
pub phys_to_virt-virt_to_phys_dynmem :
    (entries : List MmapEntry) (virt : ℕ)
    → Ascending entries
    → Bounded entries
    → virt < 2 ^ 64
    → dynmem_start_virt ≤ virt
    → virt < dynmem_start_virt + total entries
    → (phys : ℕ) × (virt_to_phys_dynmem virt entries ≡ some phys)
      × (phys_to_virt_dynmem phys entries ≡ some virt)
      × (phys_to_virt phys entries ≡ some virt)
      × (any (covers phys) entries ≡ true)
unfolding total virt_to_phys_dynmem phys_to_virt_dynmem phys_to_virt
phys_to_virt-virt_to_phys_dynmem [] virt asc bounded top lo hi = absurd (omega arith)
phys_to_virt-virt_to_phys_dynmem (entry ∷ entries) virt asc bounded top lo hi =
    let fits =
      total-Bounded 0 (entry ∷ entries) (omega arith)
        (omega arith, Above-weaken 0 (entry.base + entry.len) entries (omega arith) asc.0) asc
        bounded in
    let (phys, to_phys, to_virt, behind) =
      loops_lem (entry ∷ entries) (virt - dynmem_start_virt) 0 asc bounded (omega (arith, fits))
        (omega arith) (omega arith) (omega arith) in
    let diff : sub_64 virt dynmem_start_virt ≡ virt - dynmem_start_virt = ground arith in
    let back : dynmem_start_virt + (virt - dynmem_start_virt) ≡ virt = omega arith in
    let first : entry.base ≤ phys =
      behind entry.base (
        omega arith,
        Above-weaken entry.base (entry.base + entry.len) entries (omega arith) asc.0,
      ) in
    let low : leb entry.base phys ≡ true = ground (arith, first) in
    (
      phys,
      rw diff to_phys,
      to_virt ∙ ap (λ v. some v) back,
      rw low (to_virt ∙ ap (λ v. some v) back),
      to_phys_loop-covers (entry ∷ entries) (virt - dynmem_start_virt) 0 phys bounded
          (omega (arith, fits)) (omega arith) to_phys,
    )
