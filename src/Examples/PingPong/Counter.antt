-- ===== src/Examples/PingPong/Counter.antt =====
-- What keeps the counter of examples/ping_pong.c within its limit, piece by piece of the code.
use c_coroutine.Base.{ℕ, ◌≤◌, ◌≡◌, true, false, arith, Bool-cases, inl, inr}
use c_coroutine.Examples.PingPong.{
  returned, Who, pinging, ponging, Demo, count, short, ping_test, going, pong_test, pong_after,
}

pub record IsExact (limit : ℕ) (s : Demo) : Type 0 where
  pub limited : s.st.limit ≡ limit
  pub bound : s.st.counter ≤ limit
  pub done_full : s.st.done ≡ true → s.st.counter ≡ limit
  pub ping_full : s.ping ≡ returned → s.st.counter ≡ limit
  pub pong_full : s.pong ≡ returned → s.st.counter ≡ limit

count-IsExact :
    (who : Who) (limit : ℕ) (s : Demo)
    → short s.st ≡ true
    → IsExact limit s
    → IsExact limit (count who s)
count-IsExact who limit s more h = record {
  limited = h.limited;
  bound = ground (arith, more, h.limited);
  done_full = λ e. absurd (ground (arith, more, h.limited, h.done_full e));
  ping_full = λ e. absurd (ground (arith, more, h.limited, h.ping_full e));
  pong_full = λ e. absurd (ground (arith, more, h.limited, h.pong_full e));
}

pub ping_test-IsExact : (limit : ℕ) (s : Demo) → IsExact limit s → IsExact limit (ping_test s)
unfolding ping_test
ping_test-IsExact limit s h = elim (Bool-cases (short s.st)) [
  | inl more ↦
      let h' = count-IsExact pinging limit s more h in
      rw (more, ping_test)
        (record {
          limited = h'.limited;
          bound = h'.bound;
          done_full = h'.done_full;
          ping_full = λ e. cc e;
          pong_full = h'.pong_full;
        })
  | inr full ↦
      let all : s.st.counter ≡ limit = ground (arith, full, h.limited, h.bound) in
      rw (full, ping_test)
        (record {
          limited = h.limited;
          bound = h.bound;
          done_full = λ _. all;
          ping_full = λ _. all;
          pong_full = λ _. all;
        })
]

not-going : (limit : ℕ) (s : Demo) → IsExact limit s → going s.st ≡ false → s.st.counter ≡ limit
unfolding going
not-going limit s h e = elim (Bool-cases s.st.done) [
  | inl done ↦ h.done_full done
  | inr more ↦ ground (arith, e, more, h.limited, h.bound)
]

pub pong_test-IsExact : (limit : ℕ) (s : Demo) → IsExact limit s → IsExact limit (pong_test s)
unfolding pong_test
pong_test-IsExact limit s h = elim (Bool-cases (going s.st)) [
  | inl more ↦
      rw (more, pong_test)
        (record {
          limited = h.limited;
          bound = h.bound;
          done_full = h.done_full;
          ping_full = h.ping_full;
          pong_full = λ e. cc e;
        })
  | inr stop ↦
      rw (stop, pong_test)
        (record {
          limited = h.limited;
          bound = h.bound;
          done_full = h.done_full;
          ping_full = h.ping_full;
          pong_full = λ _. not-going limit s h stop;
        })
]

pub pong_after-IsExact : (limit : ℕ) (s : Demo) → IsExact limit s → IsExact limit (pong_after s)
unfolding pong_after
pong_after-IsExact limit s h = elim (Bool-cases (short s.st)) [
  | inl more ↦
      rw (more, pong_after)
        (pong_test-IsExact limit (count ponging s) (count-IsExact ponging limit s more h))
  | inr full ↦
      rw (full, pong_after)
        (record {
          limited = h.limited;
          bound = h.bound;
          done_full = h.done_full;
          ping_full = h.ping_full;
          pong_full = λ _. ground (arith, full, h.limited, h.bound);
        })
]
