-- ===== src/Buddy/Init/Valid.antt =====
-- buddy_init as a whole: when it fails, and what it leaves.
use rubberos.Base.{
  ℕ, zero, suc, ◌+◌, ◌-◌, ◌*◌, ◌/◌, ◌%◌, ◌^◌, ◌≤◌, ◌<◌, ◌≡◌, ◌≢◌, refl, true, none, some, List,
  arith, ltb, ◌==◌, Bool-cases, inl, inr, ◌⊎◌, length, if◌then◌else◌, Option-cases, sym, ◌∙◌,
}
use rubberos.Freec.{div_ceil}
use rubberos.Buddy.{unit, Buddy}
use rubberos.Buddy.Bits.{Bitmap}
use rubberos.Buddy.Levels.{size, weight}
use rubberos.Buddy.Invariant.{IsValid}
use rubberos.Buddy.Dealloc.{IsAligned}
use rubberos.Buddy.Init.{
  bitmap_sizeof, Metadata, calc_metadata, info_init, first_bitmap, bitmap_loop, total_bits, init,
}
use rubberos.Buddy.Init.First.{IsFirst, bitmap_loop-IsFirst, IsFirst-Apart}
use rubberos.Buddy.Init.Laws.{calc_metadata_lem, first_bytes}

bitmap_loop-levels :
    (fuel count n : ℕ) (bitmaps : List Bitmap)
    → count ≢ 0
    → bitmap_loop fuel count ≡ some bitmaps
    → count < size n
    → length bitmaps ≤ n
unfolding bitmap_loop size
bitmap_loop-levels zero count n bitmaps nz e h = cc
bitmap_loop-levels (suc fuel) count zero bitmaps nz e h = absurd (omega arith)
bitmap_loop-levels (suc fuel) count (suc n) bitmaps nz e h = elim (Bool-cases (count / 2 == 0)) [
  | inl top ↦ ground (arith, top)
  | inr more ↦ elim (Option-cases (bitmap_loop fuel (count / 2))) [
    | inl stuck ↦ absurd (ground arith)
    | inr (rest, built) ↦
        let few = bitmap_loop-levels fuel (count / 2) n rest (ground arith) built (omega arith) in
        ground arith
  ]
]

-- The metadata of fewer units is not larger.
bitmap_loop_mono :
    (fuel few many : ℕ) (small large : List Bitmap)
    → few ≢ 0
    → few ≤ many
    → bitmap_loop fuel few ≡ some small
    → bitmap_loop fuel many ≡ some large
    → (length small ≤ length large) × (total_bits small ≤ total_bits large)
unfolding bitmap_loop total_bits
bitmap_loop_mono zero few many small large nz le e₁ e₂ = cc
bitmap_loop_mono (suc fuel) few many small large nz le e₁ e₂ =
    let bytes : length (first_bitmap few).bits ≤ length (first_bitmap many).bits =
      omega (arith, first_bytes few, first_bytes many) in
    elim (Bool-cases (few / 2 == 0)) [
      | inl top ↦ elim (Option-cases (bitmap_loop fuel (many / 2))) [
        | inl stuck ↦ ground arith
        | inr (rest, built) ↦ ground arith
      ]
      | inr more ↦ elim (Option-cases (bitmap_loop fuel (few / 2))) [
        | inl stuck ↦ absurd (ground arith)
        | inr (small', built) ↦ elim (Option-cases (bitmap_loop fuel (many / 2))) [
          | inl stuck ↦ absurd (ground arith)
          | inr (large', built') ↦
              let (fewer, smaller) =
                bitmap_loop_mono fuel (few / 2) (many / 2) small' large' (ground arith)
                  (omega arith) built built' in
              ground arith
        ]
      ]
    ]

size_19 : size 19 ≡ 2 ^ 19
unfolding size
size_19 = refl

offset_bounds :
    (len : ℕ) → (len ≤ div_ceil len unit * unit) × (div_ceil len unit * unit < len + unit)
unfolding div_ceil
offset_bounds len = ground arith

-- what buddy_init makes of an area: a valid allocator that has used nothing
pub record IsFresh (start_addr total_len : ℕ) (buddy : Buddy) : Type 0 where
  pub start : buddy.start_addr ≡ start_addr
  pub total : buddy.total_len ≡ total_len
  pub valid : IsValid buddy
  pub unused : buddy.used ≡ 0
  pub all_free : weight buddy.bitmaps ≡ buddy.units
  pub whole_units : buddy.units ≡ (total_len - buddy.data_offset - 1) / unit + 1
  pub offset_units : buddy.data_offset % unit ≡ 0
  pub metadata : buddy.metadata_len < buddy.data_offset
  pub inside : buddy.data_offset + unit < total_len

-- the allocator that the fields make up
abbrev pub made : ℕ → ℕ → Metadata → ℕ → List Bitmap → Buddy
made start_addr total_len meta offset bitmaps = record {
  start_addr = start_addr;
  total_len = total_len;
  metadata_len = meta.metadata_len;
  data_offset = offset;
  units = meta.units;
  levels = meta.levels;
  used = 0;
  bitmaps = bitmaps;
  bitmaps_len = meta.levels;
}

info_init_eq :
    (total_len : ℕ) (first meta : Metadata)
    → calc_metadata total_len ≡ some first
    → calc_metadata (total_len - div_ceil first.metadata_len unit * unit) ≡ some meta
    → info_init total_len ≡ (
        if ltb meta.metadata_len (div_ceil first.metadata_len unit * unit)
        then some (meta, div_ceil first.metadata_len unit * unit)
        else none)
unfolding info_init
info_init_eq total_len first meta calc₁ calc₂ = rw (info_init, calc₁, calc₂) refl

init_eq :
    (start_addr total_len offset : ℕ) (meta : Metadata) (bitmaps : List Bitmap)
    → info_init total_len ≡ (if ltb meta.metadata_len offset then some (meta, offset) else none)
    → bitmap_loop 64 meta.units ≡ some bitmaps
    → length bitmaps ≡ meta.levels
    → meta.metadata_len ≡ meta.levels * bitmap_sizeof + total_bits bitmaps
    → init start_addr total_len ≡ (
        if ltb meta.metadata_len offset
        then some (made start_addr total_len meta offset bitmaps)
        else none)
unfolding init
init_eq start_addr total_len offset meta bitmaps info built levels len =
    let ready : (length bitmaps == meta.levels) ≡ true = ground arith in
    let sized : (total_bits bitmaps == meta.metadata_len - meta.levels * bitmap_sizeof) ≡ true =
      ground arith in
    elim (Bool-cases (ltb meta.metadata_len offset)) [
      | inr exact ↦ rw (init, info, exact) refl
      | inl before ↦ rw (init, info, before, built, sized, ready) refl
    ]

pub made-IsFresh :
    (start_addr total_len : ℕ) (meta : Metadata) (offset : ℕ) (bitmaps : List Bitmap)
    → IsFirst meta.units bitmaps
    → length bitmaps ≡ meta.levels
    → meta.levels ≤ 19
    → meta.units ≡ (total_len - offset - 1) / unit + 1
    → offset % unit ≡ 0
    → meta.metadata_len < offset
    → offset + unit < total_len
    → IsFresh start_addr total_len (made start_addr total_len meta offset bitmaps)
made-IsFresh start_addr total_len meta offset bitmaps first levels few units aligned before inside =
    record {
      start = refl;
      total = refl;
      valid = record {
        all_levels = levels;
        few_levels = few;
        shape = first.shape;
        apart = IsFirst-Apart meta.units bitmaps first;
        conserved = omega (arith, first.all_free);
      };
      unused = refl;
      all_free = first.all_free;
      whole_units = units;
      offset_units = aligned;
      metadata = before;
      inside = inside;
    }

-- buddy_init of an area of three units to 2 GiB either fails the assertion that the metadata ends
-- before the data, and then the metadata fits exactly; or it leaves a valid allocator over the
-- rest of the area, with every unit free, in which no byte is used.
pub init_lem :
    (start_addr total_len : ℕ)
    → 3 * unit ≤ total_len
    → total_len ≤ 2 ^ 31
    → ((meta : Metadata) × (calc_metadata (total_len - meta.metadata_len) ≡ some meta)
        × (meta.metadata_len % unit ≡ 0)
        × (init start_addr total_len ≡ none))
      ⊎ ((buddy : Buddy) × (init start_addr total_len ≡ some buddy)
          × IsFresh start_addr total_len buddy)
init_lem start_addr total_len lo hi =
    let (first, all, calc₁, units₁, built₁, levels₁, len₁, small₁) =
      calc_metadata_lem total_len (omega arith) (omega arith) in
    let offset = div_ceil first.metadata_len unit * unit in
    let bounds = offset_bounds first.metadata_len in
    let (meta, bitmaps, calc₂, units₂, built₂, levels₂, len₂, small₂) =
      calc_metadata_lem (total_len - offset) (omega arith) (omega arith) in
    let (fewer, smaller) =
      bitmap_loop_mono 64 meta.units first.units bitmaps all (omega arith) (omega arith) built₂
        built₁ in
    let least : meta.metadata_len ≤ offset = omega (arith, bounds) in
    let returns =
      init_eq start_addr total_len offset meta bitmaps
        (info_init_eq total_len first meta calc₁ calc₂) built₂ levels₂ len₂ in
    elim (Bool-cases (ltb meta.metadata_len offset)) [
      | inr exact ↦
          let same : offset ≡ meta.metadata_len = ground arith in
          inl (meta, rw (sym same) calc₂, omega arith, returns ∙ rw exact refl)
      | inl before ↦
          let lt : meta.metadata_len < offset = ground arith in
          let nz : meta.units ≢ 0 = omega arith in
          let few =
            bitmap_loop-levels 64 meta.units 19 bitmaps nz built₂ (omega (arith, size_19)) in
          inr (
            made start_addr total_len meta offset bitmaps,
            returns ∙ rw before refl,
            made-IsFresh start_addr total_len meta offset bitmaps
                (bitmap_loop-IsFirst 64 meta.units bitmaps nz built₂) levels₂ (omega arith) units₂
                (omega arith) lt (omega arith),
          )
    ]

pub IsFresh-IsAligned :
    (start_addr total_len : ℕ) (buddy : Buddy)
    → IsFresh start_addr total_len buddy
    → start_addr % unit ≡ 0
    → total_len % unit ≡ 0
    → IsAligned buddy
IsFresh-IsAligned start_addr total_len buddy f start total = record {
  start = omega (arith, f.start, f.offset_units);
  whole = omega (arith, f.total, f.whole_units, f.offset_units, f.inside);
}
