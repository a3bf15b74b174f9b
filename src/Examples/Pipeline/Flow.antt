-- ===== src/Examples/Pipeline/Flow.antt =====
-- What the sink of examples/pipeline.c has summed up, in every order of the turns.
use c_coroutine.Base.{
  ℕ, zero, suc, ◌+◌, ◌*◌, ◌≤◌, ◌≡◌, refl, Option, none, some, Bool, true, false, arith, ltb,
  Bool-cases, inl, inr,
}
use c_coroutine.Examples.Pipeline.{
  Message, item, eof, source_fn, Transform, reading, writing, closing, transform_fn, sink_fn, Pipe,
  source_turn, transform_turn, sink_turn,
}

-- The sum of the numbers below `i`.
abbrev pub sum_below : ℕ → ℕ
sum_below zero = 0
sum_below (suc i) = sum_below i + i

-- Of a slot: whether it holds a number, what it holds, and whether it holds the sentinel.
abbrev pub items : Bool → Message → ℕ
items false m = 0
items true (item v) = 1
items true eof = 0

abbrev pub load : Bool → Message → ℕ
load false m = 0
load true (item v) = v
load true eof = 0

abbrev pub ends : Bool → Message → ℕ
ends false m = 0
ends true (item v) = 0
ends true eof = 1

-- Of the source: whether it is still running, and how many numbers it has emitted.
abbrev pub feeding : Option ℕ → ℕ
feeding none = 0
feeding (some i) = 1

abbrev pub emitted : ℕ → Option ℕ → ℕ
emitted n none = n
emitted n (some i) = i

-- Of the transformer: whether it reads or writes numbers, what it is to write, and whether it has
-- read the sentinel, or returned.
abbrev pub doubling : Option Transform → ℕ
doubling (some reading) = 1
doubling (some (writing v)) = 1
doubling _ = 0

abbrev pub kept : Option Transform → ℕ
kept (some (writing v)) = v
kept _ = 0

abbrev pub ending : Option Transform → ℕ
ending (some closing) = 1
ending _ = 0

abbrev pub going : Bool → ℕ
going true = 1
going false = 0

-- The numbers on their way make up for the total, and the sentinel is at one place, with no number
-- behind it.
pub record IsFlowing (n : ℕ) (s : Pipe) : Type 0 where
  pub sum :
      s.total
        + load s.xfm_to_snk.ready s.xfm_to_snk.value
        + 2 * (kept s.transform + load s.src_to_xfm.ready s.src_to_xfm.value)
      ≡ 2 * sum_below (emitted n s.source)
  pub bound : emitted n s.source ≤ n
  pub first : items s.src_to_xfm.ready s.src_to_xfm.value ≤ feeding s.source
  pub second : doubling s.transform ≡ feeding s.source + ends s.src_to_xfm.ready s.src_to_xfm.value
  pub third :
      going s.sink
      ≡ doubling s.transform + ending s.transform + ends s.xfm_to_snk.ready s.xfm_to_snk.value
  pub last : items s.xfm_to_snk.ready s.xfm_to_snk.value ≤ going s.sink

sum_below_next : (i : ℕ) → sum_below (i + 1) ≡ sum_below i + i
sum_below_next i = let e : i + 1 ≡ suc i = omega arith in rw e refl

pub source-IsFlowing :
    (n i : ℕ) (s : Pipe) (v : Message) (r : Bool)
    → let s' = record s { source = some i; src_to_xfm = record { value = v; ready = r } } in
      IsFlowing n s' → IsFlowing n (source_turn n (some i) s')
unfolding source_fn
source-IsFlowing n i s v true h = h
source-IsFlowing n i s v false h = elim (Bool-cases (ltb i n)) [
  | inl more ↦
      rw (more, source_fn)
        (record {
          sum = omega (arith, sum_below_next i, h.sum);
          bound = ground (arith, more);
          first = omega arith;
          second = omega (arith, h.second);
          third = h.third;
          last = h.last;
        })
  | inr no_more ↦
      let e : i ≡ n = ground (arith, no_more, h.bound) in
      rw (no_more, source_fn)
        (record {
          sum = rw (← e) (omega (arith, h.sum));
          bound = omega arith;
          first = omega arith;
          second = omega (arith, h.second);
          third = h.third;
          last = h.last;
        })
]

pub transform-IsFlowing :
    (n : ℕ) (s : Pipe) (t : Transform) (v w : Message) (r q : Bool)
    → let s' = record s {
      transform = some t;
      src_to_xfm = record { value = v; ready = r };
      xfm_to_snk = record { value = w; ready = q };
    } in
      IsFlowing n s' → IsFlowing n (transform_turn (some t) s')
unfolding transform_fn
transform-IsFlowing n s reading v w false q h = h
transform-IsFlowing n s reading (item v) w true false h = record {
  sum = omega (arith, h.sum);
  bound = h.bound;
  first = omega (arith, h.first);
  second = omega (arith, h.second, h.first);
  third = omega (arith, h.third, h.second, h.first);
  last = omega (arith, h.last, h.third, h.second);
}
transform-IsFlowing n s reading (item v) w true true h = record {
  sum = omega (arith, h.sum);
  bound = h.bound;
  first = omega (arith, h.first);
  second = omega (arith, h.second, h.first);
  third = omega (arith, h.third, h.second, h.first);
  last = omega (arith, h.last, h.third, h.second);
}
transform-IsFlowing n s reading eof w true false h = record {
  sum = omega (arith, h.sum);
  bound = h.bound;
  first = omega (arith, h.first);
  second = omega (arith, h.second, h.first);
  third = omega (arith, h.third, h.second, h.first);
  last = omega (arith, h.last, h.third, h.second);
}
transform-IsFlowing n s reading eof w true true h = record {
  sum = omega (arith, h.sum);
  bound = h.bound;
  first = omega (arith, h.first);
  second = omega (arith, h.second, h.first);
  third = omega (arith, h.third, h.second, h.first);
  last = omega (arith, h.last, h.third, h.second);
}
transform-IsFlowing n s (writing x) v w r true h = h
transform-IsFlowing n s (writing x) v w r false h = record {
  sum = omega (arith, h.sum);
  bound = h.bound;
  first = h.first;
  second = omega (arith, h.second);
  third = omega (arith, h.third);
  last = omega (arith, h.third, h.second);
}
transform-IsFlowing n s closing v w r true h = h
transform-IsFlowing n s closing v w r false h = record {
  sum = omega (arith, h.sum);
  bound = h.bound;
  first = h.first;
  second = omega (arith, h.second);
  third = omega (arith, h.third);
  last = omega arith;
}

pub sink-IsFlowing :
    (n : ℕ) (s : Pipe) (w : Message) (q : Bool)
    → let s' = record s { sink = true; xfm_to_snk = record { value = w; ready = q } } in
      IsFlowing n s' → IsFlowing n (sink_turn true s')
unfolding sink_fn
sink-IsFlowing n s w false h = h
sink-IsFlowing n s (item w) true h = record {
  sum = omega (arith, h.sum);
  bound = h.bound;
  first = h.first;
  second = h.second;
  third = omega (arith, h.third);
  last = omega arith;
}
sink-IsFlowing n s eof true h = record {
  sum = omega (arith, h.sum);
  bound = h.bound;
  first = h.first;
  second = h.second;
  third = omega (arith, h.third);
  last = omega arith;
}
