-- ===== src/RingBuffer/Fifo.antt =====
-- The ring buffer is a bounded queue: it holds a list, push appends and pop takes the first.
use rubberos.Base.{
  ℕ, suc, ◌+◌, ◌-◌, ◌≤◌, ◌<◌, ◌≡◌, refl, true, false, some, List, [], ◌∷◌, ◌++◌, arith, ltb, ◌==◌,
  length, set, get_elem?, if◌then◌else◌, length-set, length-append, get_elem?-set,
  get_elem?-append_one, Bool-cases, inl, inr,
}
use rubberos.RingBuffer.{RingBuffer, ring_init, is_full, is_empty, push, pop}

abbrev pub wrapped : ℕ → ℕ → ℕ
wrapped maxlen i = if ltb i maxlen then i else i - maxlen

module _ {ℓ} {A : Type ℓ} where
  -- the place of the element `i` behind the head
  abbrev pub slot : RingBuffer A → ℕ → ℕ
  slot rb i = wrapped rb.maxlen (rb.head + i)

  -- The ring buffer holds the elements, in this order from its head.
  pub record Holds (rb : RingBuffer A) (xs : List A) : Type ℓ where
    pub sized : length rb.buffer ≡ rb.maxlen
    pub head_in : rb.head < rb.maxlen
    pub counted : rb.count ≡ length xs
    pub fits : rb.count ≤ rb.maxlen
    pub tail_at : rb.tail ≡ wrapped rb.maxlen (rb.head + rb.count)
    pub at : (i : ℕ) → i < length xs → get_elem? rb.buffer (slot rb i) ≡ get_elem? xs i

  pub Holds-ring_init :
      (buffer : List A) (maxlen : ℕ)
      → length buffer ≡ maxlen
      → 0 < maxlen
      → Holds (ring_init buffer maxlen) [] × ((ring_init buffer maxlen).maxlen ≡ maxlen)
  unfolding ring_init
  Holds-ring_init buffer maxlen sized pos = (
    record {
      sized = sized;
      head_in = pos;
      counted = refl;
      fits = omega arith;
      tail_at = ground arith;
      at = λ i h. absurd (omega arith);
    },
    refl,
  )

  push_at :
      (rb : RingBuffer A) (xs : List A) (v : A)
      → Holds rb xs
      → length xs < rb.maxlen
      → rb.tail < length rb.buffer
      → (i : ℕ) → i < suc (length xs)
      → get_elem? (set rb.buffer rb.tail v) (slot rb i) ≡ get_elem? (xs ++ v ∷ []) i
  push_at rb xs v h room tail_in i l =
      let written = get_elem?-set rb.buffer rb.tail (slot rb i) v tail_in in
      let appended = get_elem?-append_one xs v i l in
      elim (Bool-cases (i == length xs)) [
        | inl last ↦
            let hit : (slot rb i == rb.tail) ≡ true = ground (arith, h.tail_at, h.counted) in
            rw (written, appended, last, hit) refl
        | inr old ↦
            let miss : (slot rb i == rb.tail) ≡ false =
              ground (arith, h.tail_at, h.counted, h.head_in, h.fits) in
            rw (written, appended, old, miss) (h.at i (ground arith))
      ]

  -- A push on a ring buffer that is not full appends the element.
  pub push_lem :
      (rb : RingBuffer A) (xs : List A) (v : A)
      → Holds rb xs
      → length xs < rb.maxlen
      → (rb' : RingBuffer A) × (push rb v ≡ some rb')
        × Holds rb' (xs ++ v ∷ [])
        × (rb'.maxlen ≡ rb.maxlen)
  unfolding push
  push_lem rb xs v h room =
      let tail = rb.tail + 1 in
      let low : ltb rb.count rb.maxlen ≡ true = ground (arith, h.counted) in
      let tail_in : rb.tail < length rb.buffer =
        ground (arith, h.counted, h.tail_at, h.head_in, h.sized) in
      let inside : ltb rb.tail (length rb.buffer) ≡ true = ground arith in
      (
        record rb {
          tail = if tail == rb.maxlen then 0 else tail;
          count = rb.count + 1;
          buffer = set rb.buffer rb.tail v;
        },
        rw (push, low, inside) refl,
        record {
          sized = ground (arith, length-set rb.buffer rb.tail v, h.sized);
          head_in = h.head_in;
          counted = omega (arith, h.counted, length-append xs (v ∷ []));
          fits = ground (arith, h.counted);
          tail_at = ground (arith, h.counted, h.tail_at, h.head_in);
          at = λ i l. push_at rb xs v h room tail_in i (omega (arith, length-append xs (v ∷ [])));
        },
        refl,
      )

  -- A pop of a ring buffer that holds something takes the first element.
  pub pop_lem :
      (rb : RingBuffer A) (x : A) (xs : List A)
      → Holds rb (x ∷ xs)
      → (rb' : RingBuffer A) × (pop rb ≡ some (rb', x)) × Holds rb' xs × (rb'.maxlen ≡ rb.maxlen)
  unfolding pop
  pop_lem rb x xs h =
      let head = rb.head + 1 in
      let first : get_elem? rb.buffer rb.head ≡ some x =
        ground (arith, h.at 0 (omega arith), h.head_in) in
      (
        record rb { head = if head == rb.maxlen then 0 else head; count = rb.count - 1 },
        ground (arith, first, h.counted),
        record {
          sized = h.sized;
          head_in = ground (arith, h.head_in);
          counted = omega (arith, h.counted);
          fits = ground (arith, h.fits);
          tail_at = ground (arith, h.counted, h.tail_at, h.head_in, h.fits);
          at = λ i l.
              let same : wrapped rb.maxlen
                    ((if rb.head + 1 == rb.maxlen then 0 else rb.head + 1) + i)
                  ≡ slot rb (suc i) =
                ground (arith, h.head_in, h.fits, h.counted) in
              rw same (h.at (suc i) (omega arith));
        },
        refl,
      )

  module _ (rb : RingBuffer A) (xs : List A) (h : Holds rb xs) where
    pub is_full_lem : is_full rb ≡ (length xs == rb.maxlen)
    unfolding is_full
    is_full_lem = rw (h.counted) refl

    pub is_empty_lem : is_empty rb ≡ (length xs == 0)
    unfolding is_empty
    is_empty_lem = rw (h.counted) refl
