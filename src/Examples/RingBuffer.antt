-- ===== src/Examples/RingBuffer.antt =====
-- examples/ring_buffer_demo.c: a producer and a consumer on a bounded buffer.
pub mod Order
pub mod Progress
use c_coroutine.Base.{
  ℕ, ◌+◌, List, [], ◌∷◌, ◌++◌, Option, none, some, get_or, ltb, ◌==◌, if◌then◌else◌,
}
use c_coroutine.Ring.{Ring, insert, remove, empty}

abbrev pub buffer_capacity : ℕ
buffer_capacity = 4

abbrev pub item_count : ℕ
item_count = 20

-- `none` is the result -1.
unfoldable pub rb_push : Ring ℕ → ℕ → Option (Ring ℕ)
rb_push rb value =
    if rb.size == buffer_capacity then none else some (insert buffer_capacity value rb)

-- The value that `out` gets, and the buffer that is left; `none` is the result -1.
unfoldable pub rb_pop : Ring ℕ → Option (ℕ × Ring ℕ)
rb_pop rb =
    if rb.size == 0 then none else some (get_or rb.slots rb.head 0, remove buffer_capacity rb)

-- `i` and `received` of the two coroutines, `none` once they have returned, and the values that
-- the consumer has printed.
pub record Demo : Type 0 where
  pub rb : Ring ℕ
  pub i : Option ℕ
  pub received : Option ℕ
  pub consumed : List ℕ

unfoldable pub producer : Option ℕ → Demo → Demo
producer none s = s
producer (some i) s =
    if ltb i item_count
    then elim (rb_push s.rb i) [ none ↦ s | some rb ↦ record s { rb = rb; i = some (i + 1) } ]
    else record s { i = none }

unfoldable pub consumer : Option ℕ → Demo → Demo
consumer none s = s
consumer (some received) s =
    if ltb received item_count
    then elim (rb_pop s.rb) [
      | none ↦ s
      | some popped ↦ record {
        rb = popped.1;
        i = s.i;
        received = some (received + 1);
        consumed = s.consumed ++ (popped.0 ∷ []);
      }
    ]
    else record s { received = none }

pub data Who : Type 0 where
  producing consuming : Who

unfoldable pub turn : Who → Demo → Demo
turn producing s = producer s.i s
turn consuming s = consumer s.received s

abbrev pub started : Demo
started = record { rb = empty buffer_capacity 0; i = some 0; received = some 0; consumed = [] }
