-- ===== src/RingBuffer.antt =====
-- libcoll/src/ringbuffer.c, struct ringbuffer of libcoll/include/collections/ringbuffer.h, and its
-- macros ringbuffer_push and ringbuffer_pop. The buffer is the list of its elements. `none` is a
-- failed assertion, or an access behind the buffer.
pub mod Fifo
use rubberos.Base.{
  ℕ, ◌+◌, ◌-◌, Bool, Option, none, some, List, ltb, ◌==◌, length, set, get_elem?, if◌then◌else◌,
}

pub record RingBuffer {ℓ} (A : Type ℓ) : Type ℓ where
  pub buffer : List A
  pub head : ℕ
  pub tail : ℕ
  pub count : ℕ
  pub maxlen : ℕ

module _ {ℓ} {A : Type ℓ} where
  pub ring_init : List A → ℕ → RingBuffer A
  ring_init buffer maxlen = record {
    buffer = buffer;
    head = 0;
    tail = 0;
    count = 0;
    maxlen = maxlen;
  }

  pub is_full : RingBuffer A → Bool
  is_full rb = rb.count == rb.maxlen

  pub is_empty : RingBuffer A → Bool
  is_empty rb = rb.count == 0

  pub push_index : RingBuffer A → Option (RingBuffer A × ℕ)
  push_index rb =
      let tail = rb.tail + 1 in
      if ltb rb.count rb.maxlen
      then some (
        record rb { tail = if tail == rb.maxlen then 0 else tail; count = rb.count + 1 },
        rb.tail,
      )
      else none

  pub pop_index : RingBuffer A → Option (RingBuffer A × ℕ)
  pop_index rb =
      let head = rb.head + 1 in
      if ltb 0 rb.count
      then some (
        record rb { head = if head == rb.maxlen then 0 else head; count = rb.count - 1 },
        rb.head,
      )
      else none

  -- the macro ringbuffer_push
  pub push : RingBuffer A → A → Option (RingBuffer A)
  unfolding push_index
  push rb val = elim (push_index rb) [
    | none ↦ none
    | some (rb', idx) ↦
        if ltb idx (length rb'.buffer)
        then some (record rb' { buffer = set rb'.buffer idx val })
        else none
  ]

  -- the macro ringbuffer_pop
  pub pop : RingBuffer A → Option (RingBuffer A × A)
  unfolding pop_index
  pop rb = elim (pop_index rb) [
    | none ↦ none
    | some (rb', idx) ↦ elim (get_elem? rb'.buffer idx) [ none ↦ none | some val ↦ some (rb', val) ]
  ]
