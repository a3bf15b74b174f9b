-- ===== src/Examples/PingPong.antt =====
-- examples/ping_pong.c: two coroutines that count up to a limit in turn.
pub mod Counter
pub mod Exchanges
use c_coroutine.Base.{
  ℕ, ◌+◌, List, [], ◌∷◌, ◌++◌, Option, none, some, Bool, true, false, ◌&&◌, ◌||◌, not, ltb, ◌==◌,
  if◌then◌else◌,
}

pub record PpState : Type 0 where
  pub counter : ℕ
  pub limit : ℕ
  pub done : Bool

-- Before the first test of the loop, at the yield in it, and at the end.
pub data Place : Type 0 where
  fresh yielded returned : Place

pub data Who : Type 0 where
  pinging ponging : Who

-- The shared state, the two coroutines, and the lines that are printed.
pub record Demo : Type 0 where
  pub st : PpState
  pub ping : Place
  pub pong : Place
  pub printed : List (Who × ℕ)

-- `st->counter += 1`, and the line that is printed.
abbrev pub count : Who → Demo → Demo
count who s =
    let next = s.st.counter + 1 in
    record s {
      st = record { counter = next; limit = s.st.limit; done = s.st.done };
      printed = s.printed ++ ((who, next) ∷ []);
    }

abbrev pub short : PpState → Bool
short st = ltb st.counter st.limit

-- From the test of the loop to the next yield, or to the end.
unfoldable pub ping_test : Demo → Demo
ping_test s = if short s.st then record (count pinging s) { ping = yielded } else record s {
  st = record { counter = s.st.counter; limit = s.st.limit; done = true };
  ping = returned;
}

unfoldable pub going : PpState → Bool
going st = short st && not st.done

unfoldable pub pong_test : Demo → Demo
pong_test s = if going s.st then record s { pong = yielded } else record s { pong = returned }

-- What follows the yield of `pong`.
unfoldable pub pong_after : Demo → Demo
pong_after s = if short s.st then pong_test (count ponging s) else record s { pong = returned }

unfoldable pub turn : Who → Demo → Demo
turn pinging s = elim s.ping [ returned ↦ s | _ ↦ ping_test s ]
turn ponging s = elim s.pong [ fresh ↦ pong_test s | yielded ↦ pong_after s | returned ↦ s ]

abbrev pub started : ℕ → Demo
started limit = record {
  st = record { counter = 0; limit = limit; done = false };
  ping = fresh;
  pong = fresh;
  printed = [];
}

-- What strtol finds in an argument: whether it ends where the number does, and the number.
pub record Parsed : Type 0 where
  pub complete : Bool
  pub negative : Bool
  pub magnitude : ℕ

-- `none` without an argument.
unfoldable pub parse_limit : Option Parsed → ℕ → ℕ
parse_limit none fallback = fallback
parse_limit (some v) fallback =
    if not v.complete || v.negative || (v.magnitude == 0) || ltb 1000000 v.magnitude
    then fallback
    else v.magnitude
