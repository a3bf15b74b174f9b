-- ===== src/Examples/ProducerConsumer.antt =====
-- examples/producer_consumer.c: producers that fill one buffer and consumers that drain it. `id`
-- is printed only; the buffer does not check that it has room, or an entry: its callers do.
pub mod Accounts
pub mod Kept
pub mod Progress
use c_coroutine.Base.{
  ℕ, ◌+◌, List, [], ◌∷◌, ◌++◌, Option, none, some, Bool, get_or, ltb, ◌==◌, if◌then◌else◌,
}
use c_coroutine.Ring.{Ring, insert, remove, empty}
use c_coroutine.Examples.Crowd.{Body, Crowd}

abbrev pub buf_size : ℕ
buf_size = 8

abbrev pub n_items : ℕ
n_items = 16

-- `buf`, `head`, `tail` and `count`, and the values that the consumers have printed, oldest first.
pub record Shared : Type 0 where
  pub buf : Ring ℕ
  pub popped : List ℕ

unfoldable pub buf_full : Ring ℕ → Bool
buf_full q = q.size == buf_size

unfoldable pub buf_empty : Ring ℕ → Bool
buf_empty q = q.size == 0

unfoldable pub buf_push : ℕ → Ring ℕ → Ring ℕ
buf_push val q = insert buf_size val q

unfoldable pub buf_pop : Ring ℕ → ℕ × Ring ℕ
buf_pop q = (get_or q.slots q.head 0, remove buf_size q)

-- What a coroutine keeps: `start` and `i` of a producer, `total` and `received` of a consumer.
pub data Role : Type 0 where
  producing consuming : ℕ → ℕ → Role

-- From the test of the outer loop to the next `co_yield`. A coroutine that yields in its inner
-- loop is back at the test of the outer loop with nothing changed, which holds again.
unfoldable pub producer : ℕ → ℕ → Shared → Option Role × Shared
producer start i u =
    if ltb i n_items
    then if buf_full u.buf
      then (some (producing start i), u)
      else (some (producing start (i + 1)), record u { buf = buf_push (start + i) u.buf })
    else (none, u)

unfoldable pub consumer : ℕ → ℕ → Shared → Option Role × Shared
consumer total received u =
    if ltb received total
    then if buf_empty u.buf
      then (some (consuming total received), u)
      else (let val = buf_pop u.buf in
          (
            some (consuming total (received + 1)),
            record { buf = val.1; popped = u.popped ++ (val.0 ∷ []) },
          ))
    else (none, u)

unfoldable pub role : Body Role Shared
role (producing start i) u = producer start i u
role (consuming total received) u = consumer total received u

-- A producer for each of `starts` and a consumer after it, as `main` spawns them.
abbrev pub pairs : List ℕ → List (Option Role)
pairs [] = []
pairs (start ∷ starts) = some (producing start 0) ∷ some (consuming n_items 0) ∷ pairs starts

unfoldable pub started : List ℕ → Crowd Role Shared
started starts = record {
  locals = pairs starts;
  shared = record { buf = empty buf_size 0; popped = [] };
}

-- The arguments that `main` gives.
abbrev pub main_starts : List ℕ
main_starts = 100 ∷ 200 ∷ []
