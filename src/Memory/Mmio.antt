-- ===== src/Memory/Mmio.antt =====
-- kernel/src/memory.c: the free list of the virtual addresses for memory-mapped devices. Here are the
-- nodes of the list in its order. A node of the array is in the list exactly when its `begin` is not
-- zero, so mmio_freelist_newnode finds one when the list has less than all of them. `none` is a
-- panic or a failed assertion. mmio_dealloc_mapping changes the page tables of
-- Paging.Unmap besides; mmio_alloc_mapping is here without them.
pub mod Alloc
pub mod Dealloc
pub mod RoundTrip
mod Tests
use rubberos.Base.{
  ℕ, zero, suc, ◌+◌, ◌-◌, ◌*◌, ◌/◌, ◌%◌, ◌^◌, Bool, true, false, ◌&&◌, not, Option, none, some,
  List, [], ◌∷◌, length, ltb, leb, ◌==◌, if◌then◌else◌, ◌>>=◌,
}
use rubberos.Freec.{div_ceil}
use rubberos.Paging.{page_size, sub_64}
use rubberos.Paging.Unmap.{PageTables, pagetable_mmio_unmap}

-- struct mmio_free_node
pub record MmioNode : Type 0 where
  pub begin : ℕ
  pub end : ℕ

abbrev pub iomap_start_virt : ℕ
iomap_start_virt = 0xffffff8000000000

abbrev pub iomap_virt_size : ℕ
iomap_virt_size = 0x0000007f00000000

-- the length of the array `nodes`
abbrev pub node_count : ℕ
node_count = 24

pub mmio_freelist_init : List MmioNode
mmio_freelist_init =
    record { begin = iomap_start_virt; end = iomap_start_virt + iomap_virt_size } ∷ []

abbrev pub page_floor : ℕ → ℕ
page_floor addr = addr / page_size * page_size

-- `uptrdiv_ceil(end - aligned_begin, PAGE_SIZE) * PAGE_SIZE`
unfoldable pub aligned_len : ℕ → ℕ → ℕ
unfolding div_ceil
aligned_len begin end = div_ceil (sub_64 end (page_floor begin)) page_size * page_size % 2 ^ 64

-- The loop of mmio_alloc_mapping: the address, and the list.
pub take_range : ℕ → List MmioNode → Option (ℕ × List MmioNode)
take_range len [] = none
take_range len (node ∷ nodes) =
    let later : Option (ℕ × List MmioNode) = elim (take_range len nodes) [
      | none ↦ none
      | some (begin, nodes') ↦ some (begin, node ∷ nodes')
    ] in
    let node_len = sub_64 node.end node.begin in
    if ltb node_len len
    then later
    else if node_len == len
    then some (node.begin, nodes)
    else some (node.begin, record node { begin = node.begin + len } ∷ nodes)

pub mmio_alloc_mapping : List MmioNode → ℕ → ℕ → Option (ℕ × List MmioNode)
mmio_alloc_mapping nodes begin_phys end_phys = take_range (aligned_len begin_phys end_phys) nodes

-- `before` is the node before, or none at the head of the list.
abbrev pub with_before : Option MmioNode → List MmioNode → List MmioNode
with_before none nodes = nodes
with_before (some before) nodes = before ∷ nodes

abbrev pub before_end : Option MmioNode → ℕ
before_end none = iomap_start_virt
before_end (some before) = before.end

-- `before != before_head && before_node->end == addr`
abbrev pub ends_at : Option MmioNode → ℕ → Bool
ends_at none addr = false
ends_at (some before) addr = before.end == addr

-- `before_node->end = end`
abbrev pub extend : Option MmioNode → ℕ → Option MmioNode
extend none end = none
extend (some before) end = some (record before { end = end })

-- the body of the loop of mmio_dealloc_mapping for the first node behind the range
pub insert_range : ℕ → ℕ → ℕ → Option MmioNode → MmioNode → List MmioNode → Option (List MmioNode)
insert_range used begin end before node nodes =
    let joined : MmioNode = record node { begin = begin } in
    let lower =
      if ends_at before begin
      then with_before (extend before node.end) nodes
      else with_before before (joined ∷ nodes) in
    let upper = with_before (extend before end) (node ∷ nodes) in
    let new =
      if ltb used node_count
      then some (with_before before (record { begin = begin; end = end } ∷ node ∷ nodes))
      else none in
    if leb (before_end before) begin && leb end node.begin
    then if end == node.begin then some lower else if ends_at before begin then some upper else new
    else none

-- The loop of mmio_dealloc_mapping: the list from `before` on.
pub give_range : ℕ → ℕ → ℕ → Option MmioNode → List MmioNode → Option (List MmioNode)
give_range used begin end before [] = none
give_range used begin end before (node ∷ nodes) =
    let later : Option (List MmioNode) = elim (give_range used begin end (some node) nodes) [
      | none ↦ none
      | some nodes' ↦ some (with_before before nodes')
    ] in
    if leb node.begin begin then later else insert_range used begin end before node nodes

-- the free list, and the page tables
pub mmio_dealloc_mapping : List MmioNode → PageTables → ℕ → ℕ → Option (List MmioNode × PageTables)
mmio_dealloc_mapping nodes tables begin_virt end_virt =
    let begin = page_floor begin_virt in
    let end = (begin + aligned_len begin_virt end_virt) % 2 ^ 64 in
    give_range (length nodes) begin end none nodes >>= λ nodes'.
    pagetable_mmio_unmap begin end tables >>= λ tables'. some (nodes', tables')
