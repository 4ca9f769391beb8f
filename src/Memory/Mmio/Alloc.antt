-- ===== src/Memory/Mmio/Alloc.antt =====
-- kernel/src/memory.c: the invariant of the free list of mmio addresses, and mmio_alloc_mapping.
use rubberos.Base.{
  ℕ, suc, ◌+◌, ◌-◌, ◌%◌, ◌^◌, ◌≤◌, ◌<◌, ◌≡◌, refl, ◌⊎◌, inl, inr, Bool, true, false, ◌&&◌, not,
  none, some, List, [], ◌∷◌, length, ltb, leb, ◌==◌, any, arith, Bool-cases,
}
use rubberos.Paging.{page_size, sub_64}
use rubberos.Memory.Mmio.{
  MmioNode, iomap_start_virt, iomap_virt_size, node_count, page_floor, aligned_len, take_range,
  mmio_alloc_mapping,
}

abbrev pub iomap_end : ℕ
iomap_end = iomap_start_virt + iomap_virt_size

-- The nodes are ranges of whole pages from `low` on, ascend, and do not touch each other.
abbrev pub IsFree : ℕ → List MmioNode → Type 0
IsFree low [] = Unit
IsFree low (node ∷ nodes) =
    (low ≤ node.begin)
    × (node.begin < node.end)
    × (node.end ≤ iomap_end)
    × (node.begin % page_size ≡ 0)
    × (node.end % page_size ≡ 0)
    × IsFree (suc node.end) nodes

-- The invariant of the free list.
abbrev pub IsFreelist : List MmioNode → Type 0
IsFreelist nodes = IsFree iomap_start_virt nodes × (length nodes ≤ node_count)

-- The address is free.
abbrev pub is_free : ℕ → MmioNode → Bool
is_free addr node = leb node.begin addr && ltb addr node.end

-- The node has not the room for `len` bytes.
abbrev pub is_short : ℕ → MmioNode → Bool
is_short len node = ltb (node.end - node.begin) len

pub IsFree-weaken :
    (low high : ℕ) (nodes : List MmioNode) → low ≤ high → IsFree high nodes → IsFree low nodes
IsFree-weaken low high [] le f = tt
IsFree-weaken low high (node ∷ nodes) le f = (omega (arith, f.0), f.1, f.2, f.3, f.4, f.5)

pub not_free_below :
    (low addr : ℕ) (nodes : List MmioNode)
    → addr < low
    → IsFree low nodes
    → any (is_free addr) nodes ≡ false
not_free_below low addr [] lt f = refl
not_free_below low addr (node ∷ nodes) lt f =
    let rest = not_free_below (suc node.end) addr nodes (omega (arith, f.0, f.1)) f.5 in
    ground (arith, f.0, rest)

-- What an allocation of `len` bytes takes.
pub record IsTaken (low len : ℕ) (nodes : List MmioNode) (begin : ℕ) (nodes' : List MmioNode)
    : Type 0 where
  pub valid : IsFree low nodes'
  pub above : low ≤ begin
  pub inside : begin + len ≤ iomap_end
  pub whole : begin % page_size ≡ 0
  pub fits : length nodes' ≤ length nodes
  pub exact :
      (addr : ℕ)
      → any (is_free addr) nodes'
        ≡ (any (is_free addr) nodes && not (leb begin addr && ltb addr (begin + len)))
  pub was_free : (addr : ℕ) → begin ≤ addr → addr < begin + len → any (is_free addr) nodes ≡ true

pub take_range_lem :
    (low len : ℕ) (nodes : List MmioNode)
    → IsFree low nodes
    → len % page_size ≡ 0
    → 0 < len
    → any (λ node. not (is_short len node)) nodes ≡ true
    → (begin : ℕ) × (nodes' : List MmioNode) × (take_range len nodes ≡ some (begin, nodes'))
      × IsTaken low len nodes begin nodes'
unfolding take_range
take_range_lem low len [] f whole pos room = absurd (ground (arith, room))
take_range_lem low len (node ∷ nodes) f whole pos room =
    let real : sub_64 node.end node.begin ≡ node.end - node.begin = ground (arith, f.1) in
    let behind =
      λ (addr : ℕ) (lt : addr < suc node.end). not_free_below (suc node.end) addr nodes lt f.5 in
    elim (Bool-cases (is_short len node)) [
      | inl short ↦
          let (begin, nodes', run, t) =
            take_range_lem (suc node.end) len nodes f.5 whole pos (ground (arith, room, short)) in
          (
            begin,
            node ∷ nodes',
            rw (real, short, run) refl,
            record {
              valid = (f.0, f.1, f.2, f.3, f.4, t.valid);
              above = omega (arith, t.above, f.0, f.1);
              inside = t.inside;
              whole = t.whole;
              fits = omega (arith, t.fits);
              exact = λ addr. ground (arith, t.exact addr, t.above);
              was_free = λ addr from lt. ground (arith, t.was_free addr from lt);
            },
          )
      | inr enough ↦ elim (Bool-cases (node.end - node.begin == len)) [
        | inl whole_node ↦
            let sum : node.begin + len ≡ node.end = ground (arith, f.1) in
            (
              node.begin,
              nodes,
              rw (real, enough, whole_node) refl,
              record {
                valid = IsFree-weaken low (suc node.end) nodes (omega (arith, f.0, f.1)) f.5;
                above = f.0;
                inside = omega (arith, f.2);
                whole = f.3;
                fits = omega arith;
                exact = λ addr. ground (arith, behind addr, sum);
                was_free = λ addr from lt. ground arith;
              },
            )
        | inr larger ↦
            let sum : node.begin + len < node.end = ground (arith, f.1) in
            (
              node.begin,
              record node { begin = node.begin + len } ∷ nodes,
              rw (real, enough, larger) refl,
              record {
                valid = (omega (arith, f.0), sum, f.2, omega (arith, f.3), f.4, f.5);
                above = f.0;
                inside = omega (arith, f.2);
                whole = f.3;
                fits = omega arith;
                exact = λ addr. ground (arith, behind addr, sum);
                was_free = λ addr from lt. ground arith;
              },
            )
      ]
    ]

take_range-none :
    (len : ℕ) (low : ℕ) (nodes : List MmioNode)
    → IsFree low nodes
    → any (λ node. not (is_short len node)) nodes ≡ false
    → take_range len nodes ≡ none
unfolding take_range
take_range-none len low [] f room = refl
take_range-none len low (node ∷ nodes) f room =
    let real : sub_64 node.end node.begin ≡ node.end - node.begin = ground (arith, f.1) in
    let short : is_short len node ≡ true = ground (arith, room) in
    rw (real, short, take_range-none len (suc node.end) nodes f.5 (ground (arith, room))) refl

pub aligned_len_lem :
    (begin end : ℕ)
    → begin < end
    → end + page_size ≤ 2 ^ 64
    → (aligned_len begin end % page_size ≡ 0)
      × (0 < aligned_len begin end)
      × (end ≤ page_floor begin + aligned_len begin end)
      × (page_floor begin + aligned_len begin end < end + page_size)
unfolding aligned_len
aligned_len_lem begin end lt top = ground arith

-- On a valid free list, for a range of physical addresses that is not empty and ends at least a page
-- before the end of the addresses, mmio_alloc_mapping panics if no node has the room for its whole
-- pages. Otherwise it gives the begin of whole pages that hold the range, all of them free before
-- and none after, while the other addresses stay as they were, and the list is valid.
pub mmio_alloc_mapping_lem :
    (nodes : List MmioNode) (begin_phys end_phys : ℕ)
    → IsFreelist nodes
    → begin_phys < end_phys
    → end_phys + page_size ≤ 2 ^ 64
    → ((any (λ node. not (is_short (aligned_len begin_phys end_phys) node)) nodes ≡ false)
        × (mmio_alloc_mapping nodes begin_phys end_phys ≡ none))
      ⊎ ((begin : ℕ) × (nodes' : List MmioNode) × (mmio_alloc_mapping nodes begin_phys end_phys
            ≡ some (begin, nodes'))
          × IsFreelist nodes'
          × (end_phys ≤ page_floor begin_phys + aligned_len begin_phys end_phys)
          × IsTaken iomap_start_virt (aligned_len begin_phys end_phys) nodes begin nodes')
unfolding mmio_alloc_mapping
mmio_alloc_mapping_lem nodes begin_phys end_phys f lt top =
    let len = aligned_len begin_phys end_phys in
    let (whole, pos, holds, _) = aligned_len_lem begin_phys end_phys lt top in
    elim (Bool-cases (any (λ node. not (is_short len node)) nodes)) [
      | inr full ↦ inl (full, take_range-none len iomap_start_virt nodes f.0 full)
      | inl room ↦
          let (begin, nodes', run, t) =
            take_range_lem iomap_start_virt len nodes f.0 whole pos room in
          inr (begin, nodes', run, (t.valid, omega (arith, t.fits, f.1)), holds, t)
    ]
