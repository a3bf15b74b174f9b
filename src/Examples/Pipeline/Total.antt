-- ===== src/Examples/Pipeline/Total.antt =====
-- What the sink of examples/pipeline.c has summed up when it returns.
use c_coroutine.Base.{
  ℕ, ◌≤◌, ◌+◌, ◌*◌, ◌≡◌, refl, ap, Option, none, some, Bool, true, false, List, arith,
}
use c_coroutine.Examples.Turns.{turns, turns_keep}
use c_coroutine.Examples.Pipeline.{
  Message, item, eof, Transform, reading, writing, closing, Stage, turn, started,
}
use c_coroutine.Examples.Pipeline.Flow.{
  sum_below, items, load, feeding, emitted, doubling, kept, going,
}
use c_coroutine.Examples.Pipeline.Range.{
  most, sum_below_square, IsInRange, turn-IsInRange, started-IsInRange,
}

load-items : (r : Bool) (m : Message) → items r m ≡ 0 → load r m ≡ 0
load-items false m h = refl
load-items true (item v) h = absurd (omega arith)
load-items true eof h = refl

kept-doubling : (o : Option Transform) → doubling o ≡ 0 → kept o ≡ 0
kept-doubling none h = refl
kept-doubling (some reading) h = refl
kept-doubling (some (writing v)) h = absurd (omega arith)
kept-doubling (some closing) h = refl

emitted-feeding : (n : ℕ) (o : Option ℕ) → feeding o ≡ 0 → emitted n o ≡ n
emitted-feeding n none h = refl
emitted-feeding n (some i) h = absurd (omega arith)

pub always-IsInRange :
    (n : ℕ) → n ≤ most → (schedule : List Stage) → IsInRange n (turns (turn n) schedule started)
always-IsInRange n b schedule =
    turns_keep (turn n) (IsInRange n) (turn-IsInRange n b) schedule started (started-IsInRange n)

-- After any sequence of turns of the three stages, n being how many numbers the source is to emit,
-- at most 46341: if the sink has returned, its total is twice the sum of the numbers below n, which
-- is n squared less n.
pub total_at_the_end :
    (n : ℕ)
    → n ≤ most
    → (schedule : List Stage)
    → let s = turns (turn n) schedule started in s.sink ≡ false → s.total + n ≡ n * n
total_at_the_end n b schedule closed =
    let s = turns (turn n) schedule started in
    let h = (always-IsInRange n b schedule).flow in
    let c = ap going closed in
    let snk = load-items s.xfm_to_snk.ready s.xfm_to_snk.value (omega (arith, h.last)) in
    let src =
      load-items s.src_to_xfm.ready s.src_to_xfm.value
        (omega (arith, h.first, h.second, h.third)) in
    let k = kept-doubling s.transform (omega (arith, h.third)) in
    let e = emitted-feeding n s.source (omega (arith, h.second, h.third)) in
    omega (arith, h.sum, sum_below_square n, ap sum_below e)
