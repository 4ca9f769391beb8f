-- ===== src/LinkedList/Laws.antt =====
-- Insertion and removal of a link are inverse to each other, and the pops undo the pushes.
use rubberos.Base.{ℕ, ◌≡◌, ◌≢◌, if◌then◌else◌, arith}
use rubberos.LinkedList.{
  Links, insert_before, insert_after, remove, push_front, push_back, pop_front, pop_back,
  list_is_empty,
}

-- The two heaps have the same pointers everywhere but in one link.
abbrev pub SameBut : ℕ → Links → Links → Type 0
SameBut link h h' = (a : ℕ) → a ≢ link → (h'.prev a ≡ h.prev a) × (h'.next a ≡ h.next a)

-- The link stands between the two others, and their other pointers and all other links are as before.
pub record IsBetween (left link right : ℕ) (h h' : Links) : Type 0 where
  pub from_left : h'.next left ≡ link
  pub to_left : h'.prev link ≡ left
  pub to_right : h'.next link ≡ right
  pub from_right : h'.prev right ≡ link
  pub prev_same : (a : ℕ) → a ≢ link → a ≢ right → h'.prev a ≡ h.prev a
  pub next_same : (a : ℕ) → a ≢ link → a ≢ left → h'.next a ≡ h.next a

-- Where the links on both sides point to each other, a link that is put behind or before another one
-- then stands between that one and its old neighbour, in both directions, and no other pointer
-- changes; removed again, it leaves the rest of the heap as it was.
pub remove-insert :
    (h : Links) (link new : ℕ)
    → h.prev (h.next link) ≡ link
    → h.next (h.prev link) ≡ link
    → new ≢ link
    → new ≢ h.next link
    → new ≢ h.prev link
    → IsBetween link new (h.next link) h (insert_after h link new)
      × IsBetween (h.prev link) new link h (insert_before h link new)
      × SameBut new h (remove (insert_after h link new) new)
      × SameBut new h (remove (insert_before h link new) new)
unfolding remove insert_after insert_before
remove-insert h link new after before apart apart_next apart_prev = (
  record {
    from_left = ground arith;
    to_left = ground arith;
    to_right = ground arith;
    from_right = ground arith;
    prev_same = λ a n r. ground arith;
    next_same = λ a n l. ground arith;
  },
  record {
    from_left = ground arith;
    to_left = ground arith;
    to_right = ground arith;
    from_right = ground arith;
    prev_same = λ a n r. ground arith;
    next_same = λ a n l. ground arith;
  },
  λ a other. (ground arith, ground arith),
  λ a other. (ground arith, ground arith),
)

-- A pop at the end of the last push gives the link back if there was another one, and NULL if the
-- list was empty.
pub pop-push :
    (h : Links) (list new : ℕ)
    → h.prev (h.next list) ≡ list
    → h.next (h.prev list) ≡ list
    → new ≢ list
    → new ≢ h.next list
    → new ≢ h.prev list
    → ((pop_front (push_front h list new) list).1 ≡ (if list_is_empty h list then 0 else new))
      × ((pop_back (push_back h list new) list).1 ≡ (if list_is_empty h list then 0 else new))
unfolding pop_front push_front pop_back push_back insert_before insert_after list_is_empty
pop-push h list new after before apart apart_next apart_prev = (ground arith, ground arith)
