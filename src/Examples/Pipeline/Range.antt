-- ===== src/Examples/Pipeline/Range.antt =====
-- Which numbers of examples/pipeline.c stay within an int.
use c_coroutine.Base.{
  ℕ, zero, suc, ◌+◌, ◌*◌, ◌≤◌, ◌≡◌, refl, ap, ◌∙◌, Option, none, some, Bool, true, false, ◌||◌,
  arith, le→ltb, if◌then◌else◌,
}
use c_coroutine.Examples.Pipeline.{
  Message, item, eof, int_max, Transform, reading, writing, closing, transform_fn, sink_fn, Pipe,
  Stage, source, transform, sink, turn, started, source_turn, transform_turn, sink_turn, stage_turn,
}
use c_coroutine.Examples.Pipeline.Flow.{
  sum_below, load, emitted, IsFlowing, source-IsFlowing, transform-IsFlowing, sink-IsFlowing,
}

-- The most numbers that the source can emit without an overflow.
abbrev pub most : ℕ
most = 46341

pub sum_below_square : (n : ℕ) → 2 * sum_below n + n ≡ n * n
sum_below_square zero = refl
sum_below_square (suc n) = grind (arith, sum_below_square n)

sum_below-le : (m : ℕ) → m ≤ most → 2 * sum_below m ≤ int_max
sum_below-le m h =
    let square : m * m ≤ most * m = grind arith in omega (arith, sum_below_square m, square)

source_turn-IsFlowing :
    (n : ℕ) (o : Option ℕ) (s : Pipe)
    → IsFlowing n (record s { source = o })
    → IsFlowing n (source_turn n o (record s { source = o }))
source_turn-IsFlowing n none s h = h
source_turn-IsFlowing n (some i) s h =
    source-IsFlowing n i s s.src_to_xfm.value s.src_to_xfm.ready h

transform_turn-IsFlowing :
    (n : ℕ) (o : Option Transform) (s : Pipe)
    → IsFlowing n (record s { transform = o })
    → IsFlowing n (transform_turn o (record s { transform = o }))
transform_turn-IsFlowing n none s h = h
transform_turn-IsFlowing n (some t) s h =
    transform-IsFlowing n s t s.src_to_xfm.value s.xfm_to_snk.value s.src_to_xfm.ready
      s.xfm_to_snk.ready h

sink_turn-IsFlowing :
    (n : ℕ) (b : Bool) (s : Pipe)
    → IsFlowing n (record s { sink = b })
    → IsFlowing n (sink_turn b (record s { sink = b }))
sink_turn-IsFlowing n false s h = h
sink_turn-IsFlowing n true s h = sink-IsFlowing n s s.xfm_to_snk.value s.xfm_to_snk.ready h

stage_turn-IsFlowing :
    (n : ℕ) (stage : Stage) (s : Pipe) → IsFlowing n s → IsFlowing n (stage_turn n stage s)
stage_turn-IsFlowing n source s h = source_turn-IsFlowing n s.source s h
stage_turn-IsFlowing n transform s h = transform_turn-IsFlowing n s.transform s h
stage_turn-IsFlowing n sink s h = sink_turn-IsFlowing n s.sink s h

-- No int has overflowed.
pub record IsInRange (n : ℕ) (s : Pipe) : Type 0 where
  pub flow : IsFlowing n s
  pub fits : s.overflow ≡ false

source-fits : (n : ℕ) (o : Option ℕ) (s : Pipe) → (source_turn n o s).overflow ≡ s.overflow
source-fits n none s = refl
source-fits n (some i) s = refl

transform_fn-fits :
    (t : Transform) (v : Message) (r : Bool) (w : Message) (q : Bool)
    → 2 * load r v ≤ int_max
    → (transform_fn t (record { value = v; ready = r }) (record { value = w; ready = q })).3 ≡ false
unfolding transform_fn
transform_fn-fits reading v false w q h = refl
transform_fn-fits reading (item x) true w q h = le→ltb int_max (x * 2) (omega arith)
transform_fn-fits reading eof true w q h = refl
transform_fn-fits (writing x) v r w q h = refl
transform_fn-fits closing v r w q h = refl

transform-fits :
    (o : Option Transform) (s : Pipe)
    → 2 * load s.src_to_xfm.ready s.src_to_xfm.value ≤ int_max
    → (transform_turn o s).overflow ≡ s.overflow
transform-fits none s h = refl
transform-fits (some t) s h =
    ap (λ b. b || s.overflow)
      (transform_fn-fits t s.src_to_xfm.value s.src_to_xfm.ready s.xfm_to_snk.value
        s.xfm_to_snk.ready h)

sink_fn-fits :
    (v : Message) (r : Bool) (total : ℕ)
    → total + load r v ≤ int_max
    → (sink_fn (record { value = v; ready = r }) total).3 ≡ false
unfolding sink_fn
sink_fn-fits v false total h = refl
sink_fn-fits (item x) true total h = le→ltb int_max (total + x) (omega arith)
sink_fn-fits eof true total h = refl

sink-fits :
    (b : Bool) (s : Pipe)
    → s.total + load s.xfm_to_snk.ready s.xfm_to_snk.value ≤ int_max
    → (sink_turn b s).overflow ≡ s.overflow
sink-fits false s h = refl
sink-fits true s h =
    ap (λ b. b || s.overflow) (sink_fn-fits s.xfm_to_snk.value s.xfm_to_snk.ready s.total h)

stage_turn-fits :
    (n : ℕ) (stage : Stage) (s : Pipe)
    → n ≤ most
    → IsFlowing n s
    → (stage_turn n stage s).overflow ≡ s.overflow
stage_turn-fits n source s b h = source-fits n s.source s
stage_turn-fits n transform s b h =
    transform-fits s.transform s
      (omega (arith, h.sum, sum_below-le (emitted n s.source) (omega (arith, h.bound))))
stage_turn-fits n sink s b h =
    sink-fits s.sink s
      (omega (arith, h.sum, sum_below-le (emitted n s.source) (omega (arith, h.bound))))

-- Without an overflow a turn is that of the stage.
pub turn-stage_turn :
    (n : ℕ) (stage : Stage) (s : Pipe) → IsInRange n s → turn n stage s ≡ stage_turn n stage s
unfolding turn
turn-stage_turn n stage s h = ap (λ b. if b then s else stage_turn n stage s) h.fits

pub turn-IsInRange :
    (n : ℕ) → n ≤ most → (stage : Stage) (s : Pipe) → IsInRange n s → IsInRange n (turn n stage s)
turn-IsInRange n b stage s h = rw (turn-stage_turn n stage s h) (record {
  flow = stage_turn-IsFlowing n stage s h.flow;
  fits = stage_turn-fits n stage s b h.flow ∙ h.fits;
})

pub started-IsInRange : (n : ℕ) → IsInRange n started
started-IsInRange n = record {
  flow = record {
    sum = refl;
    bound = omega arith;
    first = omega arith;
    second = refl;
    third = refl;
    last = omega arith;
  };
  fits = refl;
}
