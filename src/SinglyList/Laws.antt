-- ===== src/SinglyList/Laws.antt =====
-- A singly linked list is a stack at its front.
use rubberos.Base.{ℕ, ◌≡◌, ◌≢◌, refl, false, some, ◌==◌, arith, ap, ◌∙◌}
use rubberos.SinglyList.{
  Nexts, set_link, link_after, remove_after, singly_push_front, singly_pop_front,
}

-- A pop undoes a push: it gives the link that was pushed, and no other link has changed.
pub singly_pop_front-push_front :
    (h : Nexts) (list new : ℕ)
    → new ≢ 0
    → new ≢ list
    → (h' : Nexts) × (singly_pop_front (singly_push_front h list new) list ≡ some (h', new))
      × ((link : ℕ) → link ≢ new → h' link ≡ h link)
unfolding singly_pop_front singly_push_front link_after remove_after
singly_pop_front-push_front h list new nz apart =
    let pushed = set_link (set_link h new (h list)) list new in
    let first : pushed list ≡ new = ground arith in
    let some_link : (pushed list == 0) ≡ false = ground (arith, first) in
    let after = set_link pushed list (pushed (pushed list)) in
    let popped : singly_pop_front (singly_push_front h list new) list ≡ some (after, pushed list) =
      rw some_link refl in
    (after, popped ∙ ap (λ l. some (after, l)) first, λ link other. ground arith)
