-- ===== src/Examples/Generator.antt =====
-- examples/generator.c: a generator of Fibonacci numbers and a consumer that share one place.
pub mod Printed
pub mod Progress
use c_coroutine.Base.{
  ℕ, ◌+◌, List, [], ◌∷◌, ◌++◌, Option, none, some, Bool, true, false, ltb, if◌then◌else◌,
}

abbrev pub fib_count : ℕ
fib_count = 12

pub record Chan : Type 0 where
  pub value : ℕ
  pub ready : Bool

-- `i`, `a` and `b` of the generator, `sum` of the consumer, `none` once they have returned, and
-- the numbers that the consumer has printed with the sum that it has printed after them.
pub record GenLocals : Type 0 where
  pub i : ℕ
  pub a : ℕ
  pub b : ℕ

pub record Demo : Type 0 where
  pub ch : Chan
  pub gen : Option GenLocals
  pub sum : Option ℕ
  pub printed : List ℕ
  pub printed_sum : Option ℕ

-- The next number made.
abbrev pub made : GenLocals → Demo → Demo
made l s = record s {
  ch = record { value = l.a; ready = true };
  gen = some (record { i = l.i + 1; a = l.b; b = l.a + l.b });
}

-- From the test of the outer loop to the next `co_yield`. A generator that yields in its inner loop
-- is back at the test of the outer loop with nothing changed, which holds again.
unfoldable pub fib_gen : GenLocals → Demo → Demo
fib_gen l s =
    if ltb l.i fib_count
    then if s.ch.ready then s else record s {
      ch = record { value = l.a; ready = true };
      gen = some (record { i = l.i + 1; a = l.b; b = l.a + l.b });
    }
    else record s { gen = none }

abbrev pub taken : ℕ → Demo → Demo
taken sum s = record s {
  ch = record { value = s.ch.value; ready = false };
  sum = some (sum + s.ch.value);
  printed = s.printed ++ (s.ch.value ∷ []);
}

-- A value that is ready is taken.
unfoldable pub consume : ℕ → Demo → Demo
consume sum s = if s.ch.ready then taken sum s else s

-- `co_state(gen) == CO_DONE`.
abbrev pub gen_done : Demo → Bool
gen_done s = elim s.gen [ none ↦ true | some l ↦ false ]

-- From the test for a ready value to the next `co_yield`, or to the end.
unfoldable pub fib_consumer : ℕ → Demo → Demo
fib_consumer sum s =
    let next = consume sum s in
    if gen_done next then record next { sum = none; printed_sum = next.sum } else next

pub data Who : Type 0 where
  generating consuming : Who

unfoldable pub turn : Who → Demo → Demo
turn generating s = elim s.gen [ none ↦ s | some l ↦ fib_gen l s ]
turn consuming s = elim s.sum [ none ↦ s | some sum ↦ fib_consumer sum s ]

abbrev pub started : Demo
started = record {
  ch = record { value = 0; ready = false };
  gen = some (record { i = 0; a = 0; b = 1 });
  sum = some 0;
  printed = [];
  printed_sum = none;
}
