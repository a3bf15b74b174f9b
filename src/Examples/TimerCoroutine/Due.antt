-- ===== src/Examples/TimerCoroutine/Due.antt =====
-- One turn of a timer of examples/timer_coroutine.c, and when it is to fire.
use c_coroutine.Base.{
  ℕ, ◌+◌, ◌-◌, ◌*◌, ◌<◌, ◌≡◌, ◌≢◌, ap, List, [], ◌∷◌, ◌++◌, Option, none, some, arith, ltb, ◌==◌,
  if◌then◌else◌, Bool-cases, ltb→lt, inl, inr, weigh, weigh-append,
}
use c_coroutine.Examples.TimerCoroutine.{TimerCfg, Timer, Fired, tick, timer_coroutine}

abbrev pub is : ℕ → ℕ → ℕ
is i n = if n == i then 1 else 0

-- How often a number occurs in a list.
abbrev pub occurrences : ℕ → List ℕ → ℕ
occurrences i ns = weigh (is i) ns

-- A timer after `k` turns of its own, `f` times fired: a repeating one has counted its ticks and
-- a period for each firing, and a one-shot ends with its only firing.
pub data Due (cfg : TimerCfg) (k f : ℕ) : Option Timer → Type 0 where
  first :
      (r : ℕ) → f ≡ 0 → k + r ≡ cfg.ticks → Due cfg k f (some (record { cfg = cfg; remaining = r }))
  again :
      (r : ℕ)
      → 0 < cfg.period
      → 0 < f
      → r < cfg.period
      → k + r ≡ cfg.ticks + f * cfg.period
      → Due cfg k f (some (record { cfg = cfg; remaining = r }))
  over : cfg.period ≡ 0 → f ≡ 1 → cfg.ticks < k → Due cfg k f none

occurrences-same : (n : ℕ) (ns : List ℕ) → occurrences n (ns ++ (n ∷ [])) ≡ occurrences n ns + 1
occurrences-same n ns = ground (arith, weigh-append (is n) ns (n ∷ []))

pub occurrences-other :
    (n m : ℕ) (ns : List ℕ) → m ≢ n → occurrences n (ns ++ (m ∷ [])) ≡ occurrences n ns
occurrences-other n m ns other = ground (arith, weigh-append (is n) ns (m ∷ []))

one_more : (f p : ℕ) → (f + 1) * p ≡ f * p + p
one_more f p = omega arith

-- A firing, with nothing remaining.
fire-Due :
    (cfg : TimerCfg) (k f : ℕ)
    → k ≡ cfg.ticks + f * cfg.period
    → (cfg.period ≡ 0 → f ≡ 0)
    → Due cfg (k + 1) (f + 1) (if ltb 0 cfg.period then tick cfg cfg.period else none)
fire-Due cfg k f e once = elim (Bool-cases (ltb 0 cfg.period)) [
  | inl repeats ↦
      let p = ltb→lt 0 cfg.period repeats in
      rw repeats (
        again (cfg.period - 1) p (omega arith) (omega arith) (omega (arith, one_more f cfg.period)))
  | inr one_shot ↦
      let zero_period : cfg.period ≡ 0 = ground (arith, one_shot) in
      let f0 = once zero_period in
      rw one_shot (over zero_period (omega arith) (omega (arith, ap (λ g. g * cfg.period) f0)))
]

-- A turn of the timer itself.
pub turn-Due :
    (cfg : TimerCfg) (k : ℕ) (t : Timer) (fired : Fired)
    → Due cfg k (occurrences cfg.name fired) (some t)
    → let r = timer_coroutine t fired in Due cfg (k + 1) (occurrences cfg.name r.1) r.0
unfolding timer_coroutine
turn-Due cfg k t fired (first r zero_fired e) = elim (Bool-cases (ltb 0 r)) [
  | inl more ↦
      rw (more, timer_coroutine) (first (r - 1) zero_fired (omega (arith, e, ltb→lt 0 r more)))
  | inr end ↦
      rw (end, timer_coroutine, occurrences-same cfg.name fired)
        (fire-Due cfg k (occurrences cfg.name fired)
          (ground (arith, e, end, ap (λ g. g * cfg.period) zero_fired)) (λ _. zero_fired))
]
turn-Due cfg k t fired (again r repeating some_fired less e) = elim (Bool-cases (ltb 0 r)) [
  | inl more ↦
      rw (more, timer_coroutine)
        (again (r - 1) repeating some_fired (omega arith) (omega (arith, e, ltb→lt 0 r more)))
  | inr end ↦
      rw (end, timer_coroutine, occurrences-same cfg.name fired)
        (fire-Due cfg k (occurrences cfg.name fired) (ground (arith, e, end))
          (λ z. absurd (omega arith)))
]
