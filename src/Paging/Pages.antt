-- ===== src/Paging/Pages.antt =====
-- The page iterator counts pages.
use rubberos.Base.{ℕ, ◌+◌, ◌%◌, ◌^◌, ◌≡◌, none, some, arith, ltb, if◌then◌else◌}
use rubberos.Paging.{
  page_size, page_iterator_from_virt, page_iterator_next, page_iterator_next_pdti,
  page_iterator_next_pdpi, page_iterator_next_pl4i,
}

-- At any address the next iterator is the one of the next page, and there is none exactly where the
-- page is the last one of the 48 bits that the tables translate.
pub page_iterator_next_lem :
    (virt : ℕ)
    → page_iterator_next (page_iterator_from_virt virt) ≡ (
        if ltb (virt % 2 ^ 48 + page_size) (2 ^ 48)
        then some (page_iterator_from_virt (virt + page_size))
        else none)
unfolding page_iterator_next page_iterator_next_pdti page_iterator_next_pdpi page_iterator_next_pl4i
    page_iterator_from_virt
page_iterator_next_lem virt = ground arith
