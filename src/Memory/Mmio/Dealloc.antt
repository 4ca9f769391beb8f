-- ===== src/Memory/Mmio/Dealloc.antt =====
-- kernel/src/memory.c: mmio_dealloc_mapping, on every branch.
use rubberos.Base.{
  ℕ, suc, ◌%◌, ◌≤◌, ◌<◌, ◌≡◌, refl, inl, inr, Bool, true, false, ◌&&◌, ◌||◌, not, Option, none,
  some, List, [], ◌∷◌, length, ltb, leb, ◌==◌, any, arith, Bool-cases,
}
use rubberos.Paging.{page_size}
use rubberos.Memory.Mmio.{
  MmioNode, iomap_start_virt, node_count, with_before, before_end, insert_range, give_range,
}
use rubberos.Memory.Mmio.Alloc.{iomap_end, IsFree, is_free}

-- Some address of the range is free.
abbrev pub meets : ℕ → ℕ → MmioNode → Bool
meets begin end node = ltb node.begin end && ltb begin node.end

-- The node begins behind `begin`.
abbrev pub is_behind : ℕ → MmioNode → Bool
is_behind begin node = ltb begin node.begin

abbrev pub before_begin : Option MmioNode → ℕ
before_begin none = 0
before_begin (some before) = before.begin

-- What a range that is given back makes of the list.
pub record IsGiven (low begin end : ℕ) (nodes nodes' : List MmioNode) : Type 0 where
  pub valid : IsFree low nodes'
  pub fits : length nodes' ≤ suc (length nodes)
  pub exact :
      (addr : ℕ)
      → any (is_free addr) nodes' ≡ (any (is_free addr) nodes || (leb begin addr && ltb addr end))

meets_above :
    (low begin end : ℕ) (nodes : List MmioNode)
    → IsFree low nodes
    → any (meets begin end) nodes ≡ true
    → low < end
meets_above low begin end [] f m = absurd (ground (arith, m))
meets_above low begin end (node ∷ nodes) f m =
    ground (arith, f.0, f.1, m, meets_above (suc node.end) begin end nodes f.5)

module _ (begin end : ℕ) (lt : begin < end) (top : end ≤ iomap_end) (from : begin % page_size ≡ 0)
    (to : end % page_size ≡ 0) where
  insert_range_lem :
      (low used : ℕ) (before : Option MmioNode) (node : MmioNode) (nodes : List MmioNode)
      → used < node_count
      → low ≤ begin
      → IsFree low (with_before before (node ∷ nodes))
      → leb (before_end before) begin ≡ true
      → leb node.begin begin ≡ false
      → leb end node.begin ≡ true
      → (nodes' : List MmioNode) × (insert_range used begin end before node nodes ≡ some nodes')
        × IsGiven low begin end (with_before before (node ∷ nodes)) nodes'
  unfolding insert_range
  insert_range_lem low used none node nodes room le f above behind below =
      elim (Bool-cases (end == node.begin)) [
        | inl joins ↦ (
          record node { begin = begin } ∷ nodes,
          rw (above, below, joins) refl,
          record { valid = ground (arith, f); fits = omega arith; exact = λ addr. ground arith },
        )
        | inr apart ↦ (
          record { begin = begin; end = end } ∷ node ∷ nodes,
          ground (arith, above, below, apart),
          record { valid = ground (arith, f); fits = omega arith; exact = λ addr. ground arith },
        )
      ]
  insert_range_lem low used (some prev) node nodes room le f above behind below =
      elim (Bool-cases (end == node.begin)) [
        | inl joins ↦ elim (Bool-cases (prev.end == begin)) [
          | inl touches ↦ (
            record prev { end = node.end } ∷ nodes,
            rw (above, below, joins, touches) refl,
            record { valid = ground (arith, f); fits = omega arith; exact = λ addr. ground arith },
          )
          | inr apart ↦ (
            prev ∷ record node { begin = begin } ∷ nodes,
            rw (above, below, joins, apart) refl,
            record { valid = ground (arith, f); fits = omega arith; exact = λ addr. ground arith },
          )
        ]
        | inr apart ↦ elim (Bool-cases (prev.end == begin)) [
          | inl touches ↦ (
            record prev { end = end } ∷ node ∷ nodes,
            rw (above, below, apart, touches) refl,
            record { valid = ground (arith, f); fits = omega arith; exact = λ addr. ground arith },
          )
          | inr new ↦ (
            prev ∷ record { begin = begin; end = end } ∷ node ∷ nodes,
            ground (arith, above, below, apart, new),
            record { valid = ground (arith, f); fits = omega arith; exact = λ addr. ground arith },
          )
        ]
      ]

  pub give_range_lem :
      (low used : ℕ) (before : Option MmioNode) (nodes : List MmioNode)
      → used < node_count
      → low ≤ begin
      → before_begin before ≤ begin
      → iomap_start_virt ≤ begin
      → IsFree low (with_before before nodes)
      → any (meets begin end) (with_before before nodes) ≡ false
      → any (is_behind begin) nodes ≡ true
      → (nodes' : List MmioNode) × (give_range used begin end before nodes ≡ some nodes')
        × IsGiven low begin end (with_before before nodes) nodes'
  unfolding give_range
  give_range_lem low used before [] room le le' io f apart behind = absurd (ground (arith, behind))
  give_range_lem low used none (node ∷ nodes) room le le' io f apart behind =
      elim (Bool-cases (leb node.begin begin)) [
        | inl skip ↦
            let (nodes', run, g) =
              give_range_lem low used (some node) nodes room le (ground arith) io f apart
                (ground (arith, behind)) in
            (nodes', rw (skip, run) refl, g)
        | inr stop ↦
            let (nodes', run, g) =
              insert_range_lem low used none node nodes room le f (ground arith) stop
                (ground (arith, f, apart)) in
            (nodes', rw (stop, run) refl, g)
      ]
  give_range_lem low used (some prev) (node ∷ nodes) room le le' io f apart behind =
      elim (Bool-cases (leb node.begin begin)) [
        | inl skip ↦
            let (nodes', run, g) =
              give_range_lem (suc prev.end) used (some node) nodes room (ground (arith, f))
                (ground arith) io f.5 (ground (arith, apart)) (ground (arith, behind)) in
            (
              prev ∷ nodes',
              rw (skip, run) refl,
              record {
                valid = (f.0, f.1, f.2, f.3, f.4, g.valid);
                fits = omega (arith, g.fits);
                exact = λ addr. ground (arith, g.exact addr);
              },
            )
        | inr stop ↦
            let (nodes', run, g) =
              insert_range_lem low used (some prev) node nodes room le f (ground (arith, f, apart))
                stop (ground (arith, f, apart)) in
            (nodes', rw (stop, run) refl, g)
      ]

  pub give_range-none :
      (low used : ℕ) (before : Option MmioNode) (nodes : List MmioNode)
      → before_begin before ≤ begin
      → IsFree low (with_before before nodes)
      → (any (meets begin end) (with_before before nodes) || not (any (is_behind begin) nodes))
        ≡ true
      → give_range used begin end before nodes ≡ none
  unfolding give_range insert_range
  give_range-none low used before [] le f bad = refl
  give_range-none low used none (node ∷ nodes) le f bad =
      let later = meets_above (suc node.end) begin end nodes f.5 in
      elim (Bool-cases (leb node.begin begin)) [
        | inl skip ↦
            rw
              (
                skip,
                give_range-none low used (some node) nodes (ground arith) f (ground (arith, bad)),
              )
              refl
        | inr stop ↦ ground (arith, stop, bad, later, f)
      ]
  give_range-none low used (some prev) (node ∷ nodes) le f bad =
      let later = meets_above (suc node.end) begin end nodes f.5.5 in
      elim (Bool-cases (leb node.begin begin)) [
        | inl skip ↦
            rw
              (
                skip,
                give_range-none (suc prev.end) used (some node) nodes (ground arith) f.5
                    (ground (arith, bad, f)),
              )
              refl
        | inr stop ↦ ground (arith, stop, bad, later, f)
      ]
