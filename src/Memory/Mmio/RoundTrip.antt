-- ===== src/Memory/Mmio/RoundTrip.antt =====
-- kernel/src/memory.c: mmio_dealloc_mapping as a whole, and after mmio_alloc_mapping.
use rubberos.Base.{
  ℕ, suc, ◌+◌, ◌-◌, ◌%◌, ◌^◌, ◌≤◌, ◌<◌, ◌≡◌, refl, ap, ◌∙◌, ◌⊎◌, inl, inr, Bool, true, false, ◌||◌,
  not, ◌>>=◌, Option, none, some, List, [], ◌∷◌, length, ltb, leb, ◌==◌, if◌then◌else◌, any, arith,
  Bool-cases, Option-cases,
}
use rubberos.Paging.{page_size, sub_64}
use rubberos.Paging.Unmap.{PageTables, pagetable_mmio_unmap}
use rubberos.Memory.Mmio.{
  MmioNode, iomap_start_virt, node_count, page_floor, aligned_len, take_range, with_before,
  insert_range, give_range, mmio_alloc_mapping, mmio_dealloc_mapping,
}
use rubberos.Memory.Mmio.Alloc.{
  iomap_end, IsFree, IsFreelist, IsFree-weaken, aligned_len_lem, mmio_alloc_mapping_lem,
}
use rubberos.Memory.Mmio.Dealloc.{meets, is_behind, IsGiven, give_range_lem, give_range-none}

-- the free list after pagetable_mmio_unmap has taken the pages out of the page tables
abbrev pub unmapped : ℕ → ℕ → PageTables → List MmioNode → Option (List MmioNode × PageTables)
unmapped begin end tables nodes =
    pagetable_mmio_unmap begin end tables >>= λ tables'. some (nodes, tables')

-- On a valid free list with a node to spare, for a range of the addresses that is not empty,
-- mmio_dealloc_mapping fails an assertion if an address of its pages is free already or if no node
-- begins behind them. Otherwise the result is that of pagetable_mmio_unmap on these pages, which may
-- fail an assertion, with a valid list in which exactly these pages are free besides what was free.
pub mmio_dealloc_mapping_lem :
    (nodes : List MmioNode) (tables : PageTables) (begin_virt end_virt : ℕ)
    → IsFreelist nodes
    → length nodes < node_count
    → iomap_start_virt ≤ begin_virt
    → begin_virt < end_virt
    → end_virt ≤ iomap_end
    → (((any
              (meets
                (page_floor begin_virt)
                (page_floor begin_virt + aligned_len begin_virt end_virt))
              nodes
            || not (any (is_behind (page_floor begin_virt)) nodes))
          ≡ true)
        × (mmio_dealloc_mapping nodes tables begin_virt end_virt ≡ none))
      ⊎ ((nodes' : List MmioNode) × (mmio_dealloc_mapping nodes tables begin_virt end_virt
            ≡ unmapped
                (page_floor begin_virt)
                (page_floor begin_virt + aligned_len begin_virt end_virt)
                tables
                nodes')
          × IsFreelist nodes'
          × IsGiven iomap_start_virt
              (page_floor begin_virt)
              (page_floor begin_virt + aligned_len begin_virt end_virt)
              nodes
              nodes')
unfolding mmio_dealloc_mapping
mmio_dealloc_mapping_lem nodes tables begin_virt end_virt f room from lt to =
    let begin = page_floor begin_virt in
    let end = begin + aligned_len begin_virt end_virt in
    let (whole, pos, holds, short) = aligned_len_lem begin_virt end_virt lt (omega arith) in
    let same : end % 2 ^ 64 ≡ end = omega arith in
    let starts : begin % page_size ≡ 0 = omega arith in
    let ends : end % page_size ≡ 0 = omega arith in
    let inside : end ≤ iomap_end = omega arith in
    let step : mmio_dealloc_mapping nodes tables begin_virt end_virt
        ≡ (give_range (length nodes) begin end none nodes >>= λ ys. unmapped begin end tables ys) =
      rw same refl in
    elim (Bool-cases (any (meets begin end) nodes || not (any (is_behind begin) nodes))) [
      | inl bad ↦ inl (
        bad,
        step
            ∙ ap (λ o. o >>= λ ys. unmapped begin end tables ys)
                (give_range-none begin end (omega arith) inside starts ends iomap_start_virt
                  (length nodes) none nodes (omega arith) f.0 bad),
      )
      | inr good ↦
          let (nodes', run, g) =
            give_range_lem begin end (omega arith) inside starts ends iomap_start_virt
              (length nodes) none nodes room (omega arith) (omega arith) (omega arith) f.0
              (ground (arith, good)) (ground (arith, good)) in
          inr (
            nodes',
            step ∙ ap (λ o. o >>= λ ys. unmapped begin end tables ys) run,
            (g.valid, omega (arith, g.fits)),
            g,
          )
    ]

take_range-above :
    (low len : ℕ) (nodes : List MmioNode) (begin : ℕ) (nodes' : List MmioNode)
    → IsFree low nodes
    → take_range len nodes ≡ some (begin, nodes')
    → low ≤ begin
unfolding take_range
take_range-above low len [] begin nodes' f run = absurd (ground (arith, run))
take_range-above low len (node ∷ nodes) begin nodes' f run =
    elim (Option-cases (take_range len nodes)) [
      | inl fails ↦ ground (arith, run, fails, f)
      | inr ((b, ys), later) ↦
          ground (arith, run, later, f, take_range-above (suc node.end) len nodes b ys f.5 later)
    ]

-- What the release gives after an allocation from `nodes`.
abbrev released : ℕ → Option MmioNode → List MmioNode → List MmioNode → Option (List MmioNode)
released begin before nodes nodes' =
    if any (is_behind begin) nodes' then some (with_before before nodes) else none

-- The whole node was taken, so that the range goes in between the nodes on its two sides.
whole_back :
    (low used : ℕ) (before : Option MmioNode) (node : MmioNode) (nodes : List MmioNode)
    → IsFree low (with_before before (node ∷ nodes))
    → iomap_start_virt ≤ low
    → used < node_count
    → give_range used node.begin node.end before nodes
      ≡ released node.begin before (node ∷ nodes) nodes
unfolding give_range insert_range
whole_back low used before node [] f io room = refl
whole_back low used none node (next ∷ nodes) f io room = ground (arith, f)
whole_back low used (some prev) node (next ∷ nodes) f io room = ground (arith, f)

-- The begin of a node was taken, so that the range joins the rest of it.
part_back :
    (low used len : ℕ) (before : Option MmioNode) (node : MmioNode) (nodes : List MmioNode)
    → IsFree low (with_before before (node ∷ nodes))
    → iomap_start_virt ≤ low
    → 0 < len
    → give_range used node.begin
        (node.begin + len)
        before
        (record node { begin = node.begin + len } ∷ nodes)
      ≡ released node.begin before (node ∷ nodes) (record node { begin = node.begin + len } ∷ nodes)
unfolding give_range insert_range
part_back low used len none node nodes f io pos = ground (arith, f)
part_back low used len (some prev) node nodes f io pos = ground (arith, f)

later_back :
    (used begin len : ℕ) (before : Option MmioNode) (node : MmioNode) (nodes nodes' : List MmioNode)
    → node.begin < begin
    → give_range used begin (begin + len) (some node) nodes'
      ≡ released begin (some node) nodes nodes'
    → give_range used begin (begin + len) before (node ∷ nodes')
      ≡ released begin before (node ∷ nodes) (node ∷ nodes')
unfolding give_range
later_back used begin len before node nodes nodes' lt back =
    let skip : leb node.begin begin ≡ true = ground arith in
    let not_behind : is_behind begin node ≡ false = ground arith in
    elim (Bool-cases (any (is_behind begin) nodes')) [
      | inl some_behind ↦ rw (skip, back, not_behind, some_behind) refl
      | inr none_behind ↦ rw (skip, back, not_behind, none_behind) refl
    ]

IsFree-tail :
    (low : ℕ) (before : Option MmioNode) (nodes : List MmioNode)
    → IsFree low (with_before before nodes)
    → IsFree low nodes
IsFree-tail low none nodes f = f
IsFree-tail low (some prev) nodes f =
    IsFree-weaken low (suc prev.end) nodes (omega (arith, f.0, f.1)) f.5

-- What take_range does with the first node.
take_range_cases :
    (low len : ℕ) (node : MmioNode) (nodes : List MmioNode) (begin : ℕ) (nodes' : List MmioNode)
    → IsFree low (node ∷ nodes)
    → take_range len (node ∷ nodes) ≡ some (begin, nodes')
    → ((ys : List MmioNode) × (take_range len nodes ≡ some (begin, ys)) × (nodes' ≡ node ∷ ys))
      ⊎ ((begin ≡ node.begin) × (begin + len ≡ node.end) × (nodes' ≡ nodes))
      ⊎ ((begin ≡ node.begin) × (nodes' ≡ record node { begin = node.begin + len } ∷ nodes))
unfolding take_range
take_range_cases low len node nodes begin nodes' f run =
    let real : sub_64 node.end node.begin ≡ node.end - node.begin = ground (arith, f.1) in
    elim (Bool-cases (ltb (node.end - node.begin) len)) [
      | inl short ↦ elim (Option-cases (take_range len nodes)) [
        | inl fails ↦ absurd (ground (arith, run, real, short, fails))
        | inr ((b, ys), later) ↦
            inl
              (ys, ground (arith, run, real, short, later), ground (arith, run, real, short, later))
      ]
      | inr room ↦ elim (Bool-cases (node.end - node.begin == len)) [
        | inl all ↦ inr (
            inl (
              ground (arith, run, real, room, all),
              ground (arith, run, real, room, all, f.1),
              ground (arith, run, real, room, all),
            ))
        | inr part ↦
            inr (inr (ground (arith, run, real, room, part), ground (arith, run, real, room, part)))
      ]
    ]

give_range-take_range :
    (low used len : ℕ) (before : Option MmioNode) (nodes : List MmioNode) (begin : ℕ)
    (nodes' : List MmioNode)
    → 0 < len
    → IsFree low (with_before before nodes)
    → iomap_start_virt ≤ low
    → used + length nodes ≤ node_count + length nodes'
    → take_range len nodes ≡ some (begin, nodes')
    → give_range used begin (begin + len) before nodes' ≡ released begin before nodes nodes'
unfolding take_range
give_range-take_range low used len before [] begin nodes' pos f io room run =
    absurd (ground (arith, run))
give_range-take_range low used len before (node ∷ nodes) begin nodes' pos f io room run =
    let g = IsFree-tail low before (node ∷ nodes) f in
    elim (take_range_cases low len node nodes begin nodes' g run) [
      | inl (ys, later, e) ↦
          let above = take_range-above (suc node.end) len nodes begin ys g.5 later in
          let back =
            give_range-take_range low used len (some node) nodes begin ys pos g io
              (omega (arith, ap length e)) later in
          rw e (later_back used begin len before node nodes ys (omega (arith, above, g.1)) back)
      | inr (inl (e, sum, e')) ↦
          rw (sum, e, e') (whole_back low used before node nodes f io (omega (arith, ap length e')))
      | inr (inr (e, e')) ↦ rw (e, e') (part_back low used len before node nodes f io pos)
    ]

aligned_len_moved :
    (begin begin_phys end_phys : ℕ)
    → begin % page_size ≡ 0
    → page_floor begin_phys ≤ end_phys
    → aligned_len begin (begin + (end_phys - page_floor begin_phys))
      ≡ aligned_len begin_phys end_phys
unfolding aligned_len
aligned_len_moved begin begin_phys end_phys paged le =
    let len = end_phys - page_floor begin_phys in
    let here : sub_64 (begin + len) (page_floor begin) ≡ len = ground arith in
    let there : sub_64 end_phys (page_floor begin_phys) ≡ len = ground arith in
    rw (here, there) refl

if_then :
    {A B : Type 0} (b : Bool) (x : A) (next : A → Option B)
    → ((if b then some x else none) >>= next) ≡ (if b then next x else none)
if_then true x next = refl
if_then false x next = refl

-- On a valid free list, for a range of physical addresses that is not empty and ends at least a page
-- before the end of the addresses: when what mmio_alloc_mapping gave is released under the same
-- length, from the begin of the first page on, and pagetable_mmio_unmap takes its pages out of the page
-- tables, the free list is again the list of before, node by node, except where no free node is left
-- behind the range. There the release fails an assertion.
pub mmio_dealloc_mapping-mmio_alloc_mapping :
    (nodes : List MmioNode) (tables : PageTables) (begin_phys end_phys begin : ℕ)
    (nodes' : List MmioNode)
    → IsFreelist nodes
    → begin_phys < end_phys
    → end_phys + page_size ≤ 2 ^ 64
    → mmio_alloc_mapping nodes begin_phys end_phys ≡ some (begin, nodes')
    → mmio_dealloc_mapping nodes' tables begin (begin + (end_phys - page_floor begin_phys)) ≡ (
        if any (is_behind begin) nodes'
        then unmapped begin (begin + aligned_len begin_phys end_phys) tables nodes
        else none)
unfolding mmio_alloc_mapping mmio_dealloc_mapping
mmio_dealloc_mapping-mmio_alloc_mapping nodes tables begin_phys end_phys begin nodes' f lt top run =
    let len = aligned_len begin_phys end_phys in
    let (whole, pos, holds, short) = aligned_len_lem begin_phys end_phys lt top in
    elim (mmio_alloc_mapping_lem nodes begin_phys end_phys f lt top) [
      | inl (full, fails) ↦ absurd (ground (arith, run, fails))
      | inr (b, ys, run', f', holds', t) ↦
          let same : b ≡ begin = ground (arith, run, run') in
          let paged : begin % page_size ≡ 0 = rw same at t.whole in
          let at_page : page_floor begin ≡ begin = omega arith in
          let len_same : aligned_len begin (begin + (end_phys - page_floor begin_phys)) ≡ len =
            aligned_len_moved begin begin_phys end_phys paged (omega arith) in
          let no_wrap : (begin + len) % 2 ^ 64 ≡ begin + len = omega (arith, t.inside, same) in
          rw (at_page, len_same, no_wrap)
            (ap (λ o. o >>= λ ys. unmapped begin (begin + len) tables ys)
                (give_range-take_range iomap_start_virt (length nodes') len none nodes begin nodes'
                  pos f.0 (omega arith) (omega (arith, f.1)) run)
              ∙ if_then (any (is_behind begin) nodes') nodes (unmapped begin (begin + len) tables))
    ]
