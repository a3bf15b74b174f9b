-- ===== src/Examples/PingPong/Exchanges.antt =====
-- The counter of examples/ping_pong.c reaches its limit and does not pass it, in every order of
-- the turns.
use c_coroutine.Base.{
  some, none, ltb→lt, ℕ, ◌+◌, ◌-◌, ◌≤◌, ◌<◌, ◌≡◌, refl, ap, List, arith, length, Option, Bool-cases,
  inl, inr, ◌⊎◌,
}
use c_coroutine.Examples.Turns.{rounds, AllFair, Everyone, rounds_done, turns, turns_keep}
use c_coroutine.Examples.PingPong.{
  Place, fresh, yielded, returned, Who, pinging, ponging, Demo, count, short, ping_test, going,
  pong_test, pong_after, turn, started, Parsed, parse_limit,
}
use c_coroutine.Examples.PingPong.Counter.{
  IsExact, ping_test-IsExact, pong_test-IsExact, pong_after-IsExact,
}

-- The turns that a coroutine is from its end when the counter stands still.
abbrev pinged : Place → ℕ
pinged returned = 0
pinged _ = 1

abbrev ponged : Place → ℕ
ponged fresh = 2
ponged yielded = 1
ponged returned = 0

abbrev work : Demo → ℕ
work s = (s.st.limit - s.st.counter) + pinged s.ping + ponged s.pong

ping_test-work : (s : Demo) → pinged s.ping ≡ 1 → work (ping_test s) < work s
unfolding ping_test
ping_test-work s e = elim (Bool-cases (short s.st)) [
  | inl more ↦ rw (more, ping_test) (omega (arith, e, ltb→lt s.st.counter s.st.limit more))
  | inr full ↦ rw (full, ping_test) (omega (arith, e))
]

pong_test-work : (s : Demo) → work (pong_test s) ≤ (s.st.limit - s.st.counter) + pinged s.ping + 1
unfolding pong_test
pong_test-work s = elim (Bool-cases (going s.st)) [
  | inl more ↦ rw (more, pong_test) (omega arith)
  | inr stop ↦ rw (stop, pong_test) (omega arith)
]

pong_after-work : (s : Demo) → ponged s.pong ≡ 1 → work (pong_after s) < work s
unfolding pong_after
pong_after-work s e = elim (Bool-cases (short s.st)) [
  | inl more ↦
      rw (more, pong_after)
        (omega (arith, e, pong_test-work (count ponging s), ltb→lt s.st.counter s.st.limit more))
  | inr full ↦ rw (full, pong_after) (omega (arith, e))
]

-- What is left to do after a turn; nothing changes only if the coroutine has returned.
record Turned (limit : ℕ) (over : Place) (s s' : Demo) : Type 0 where
  exact : IsExact limit s'
  moved : (over ≡ returned) × (s' ≡ s) ⊎ (work s' < work s)

ping-Turned :
    (limit : ℕ) (s : Demo) (p : Place)
    → s.ping ≡ p
    → IsExact limit s
    → Turned limit p s (elim p [ returned ↦ s | _ ↦ ping_test s ])
ping-Turned limit s returned e h = record { exact = h; moved = inl (refl, refl) }
ping-Turned limit s fresh e h = record {
  exact = ping_test-IsExact limit s h;
  moved = inr (ping_test-work s (ap pinged e));
}
ping-Turned limit s yielded e h = record {
  exact = ping_test-IsExact limit s h;
  moved = inr (ping_test-work s (ap pinged e));
}

pong-Turned :
    (limit : ℕ) (s : Demo) (p : Place)
    → s.pong ≡ p
    → IsExact limit s
    → Turned limit p s (elim p [ fresh ↦ pong_test s | yielded ↦ pong_after s | returned ↦ s ])
pong-Turned limit s returned e h = record { exact = h; moved = inl (refl, refl) }
pong-Turned limit s fresh e h = record {
  exact = pong_test-IsExact limit s h;
  moved = inr (omega (arith, pong_test-work s, ap ponged e));
}
pong-Turned limit s yielded e h = record {
  exact = pong_after-IsExact limit s h;
  moved = inr (pong_after-work s (ap ponged e));
}

pub turn-IsExact : (limit : ℕ) (who : Who) (s : Demo) → IsExact limit s → IsExact limit (turn who s)
unfolding turn
turn-IsExact limit pinging s h = (ping-Turned limit s s.ping refl h).exact
turn-IsExact limit ponging s h = (pong-Turned limit s s.pong refl h).exact

started-IsExact : (limit : ℕ) → IsExact limit (started limit)
started-IsExact limit = record {
  limited = refl;
  bound = omega arith;
  done_full = λ e. cc e;
  ping_full = λ e. cc e;
  pong_full = λ e. cc e;
}

-- The counter stays within the limit, and has reached it once either has returned.
pub counter_bound :
    (limit : ℕ) (schedule : List Who)
    → let s = turns turn schedule (started limit) in
      (s.st.counter ≤ limit) × ((s.ping ≡ returned) ⊎ (s.pong ≡ returned) → s.st.counter ≡ limit)
counter_bound limit schedule =
    let h =
      turns_keep turn (IsExact limit) (turn-IsExact limit) schedule (started limit)
        (started-IsExact limit) in
    (h.bound, λ e. elim e [ inl p ↦ h.ping_full p | inr p ↦ h.pong_full p ])

abbrev pub AllDone : ℕ → Demo → Type 0
AllDone limit s = (s.ping ≡ returned) × (s.pong ≡ returned) × (s.st.counter ≡ limit)

turn-moves :
    (limit : ℕ) (who : Who) (s : Demo)
    → IsExact limit s
    → (turn who s ≡ s) ⊎ (work (turn who s) < work s)
unfolding turn
turn-moves limit pinging s h = elim (ping-Turned limit s s.ping refl h).moved [
  | inl (_, same) ↦ inl same
  | inr less ↦ inr less
]
turn-moves limit ponging s h = elim (pong-Turned limit s s.pong refl h).moved [
  | inl (_, same) ↦ inl same
  | inr less ↦ inr less
]

both-stuck :
    (limit : ℕ) (s : Demo) → IsExact limit s → ((who : Who) → turn who s ≡ s) → AllDone limit s
unfolding turn
both-stuck limit s h same =
    let p = ap work (same pinging) in
    let q = ap work (same ponging) in
    elim (ping-Turned limit s s.ping refl h).moved [
      | inr less ↦ absurd (omega arith)
      | inl (e, _) ↦ elim (pong-Turned limit s s.pong refl h).moved [
        | inr less ↦ absurd (omega arith)
        | inl (e', _) ↦ (e, e', h.ping_full e)
      ]
    ]

-- More than limit + 3 fair rounds lead to the return of both, with the counter at the limit.
pub exchanges_end :
    (limit : ℕ) (schedule : List (List Who))
    → AllFair Everyone schedule
    → limit + 3 < length schedule
    → AllDone limit (rounds turn schedule (started limit))
exchanges_end limit schedule fair enough =
    rounds_done turn Everyone (IsExact limit) (AllDone limit)
      (record {
        work = work;
        keep = turn-IsExact limit;
        moves = turn-moves limit;
        stuck = both-stuck limit;
        absent = λ who s h. inl tt;
      })
      schedule (started limit) fair (omega arith) (started-IsExact limit)

-- The limit that main uses.
pub parse_limit_bound :
    (argument : Option Parsed) (fallback : ℕ)
    → 0 < fallback
    → fallback ≤ 1000000
    → (0 < parse_limit argument fallback) × (parse_limit argument fallback ≤ 1000000)
unfolding parse_limit
parse_limit_bound none fallback low high = (low, high)
parse_limit_bound (some v) fallback low high = ground arith
