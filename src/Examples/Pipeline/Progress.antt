-- ===== src/Examples/Pipeline/Progress.antt =====
-- The stages of examples/pipeline.c cannot block one another.
use c_coroutine.Base.{
  ℕ, ◌+◌, ◌*◌, ◌-◌, ◌≤◌, ◌<◌, ◌≡◌, refl, sym, ◌∙◌, ap, Option, none, some, Bool, true, false, List,
  arith, ltb, Bool-cases, inl, inr, ◌⊎◌, length,
}
use c_coroutine.Examples.Turns.{rounds_end, rounds, AllFair, Everyone, rounds_done}
use c_coroutine.Examples.Pipeline.{
  Message, item, eof, full, source_fn, Transform, reading, writing, closing, transform_fn, sink_fn,
  Pipe, Stage, source, transform, sink, turn, started, source_turn, transform_turn, sink_turn,
  stage_turn,
}
use c_coroutine.Examples.Pipeline.Flow.{IsFlowing, doubling, feeding, ends, ending, going, emitted}
use c_coroutine.Examples.Pipeline.Range.{
  most, IsInRange, turn-stage_turn, turn-IsInRange, started-IsInRange,
}
use c_coroutine.Examples.Pipeline.Total.{always-IsInRange, total_at_the_end}

abbrev busy : Bool → ℕ
busy true = 1
busy false = 0

abbrev left : ℕ → Option ℕ → ℕ
left n none = 0
left n (some i) = n + 1 - i

abbrev holds : Option Transform → ℕ
holds (some (writing v)) = 1
holds (some closing) = 1
holds _ = 0

-- A message has up to four turns before it.
abbrev work : ℕ → Pipe → ℕ
work n s =
    4 * left n s.source
    + 3 * busy s.src_to_xfm.ready
    + 2 * holds s.transform
    + busy s.xfm_to_snk.ready

source-moves :
    (n i : ℕ) (s : Pipe) (v : Message) (r : Bool)
    → i ≤ n
    → let s' = record s { source = some i; src_to_xfm = record { value = v; ready = r } } in
      (busy r ≡ 1) × (source_turn n (some i) s' ≡ s')
      ⊎ (work n (source_turn n (some i) s') < work n s')
unfolding source_fn
source-moves n i s v true h = inl (refl, refl)
source-moves n i s v false h = inr (elim (Bool-cases (ltb i n)) [
  | inl more ↦ rw (more, source_fn) (ground (arith, more))
  | inr no_more ↦ rw (no_more, source_fn) (omega arith)
])

-- What a transformer that a turn does not change is doing.
abbrev Blocked : Option Transform → ℕ → ℕ → Type 0
Blocked o input out =
    (o ≡ none) ⊎ (holds o ≡ 0) × (doubling o ≡ 1) × (input ≡ 0) ⊎ (holds o ≡ 1) × (out ≡ 1)

transform-moves :
    (n : ℕ) (s : Pipe) (t : Transform) (v w : Message) (r q : Bool)
    → let s' = record s {
      transform = some t;
      src_to_xfm = record { value = v; ready = r };
      xfm_to_snk = record { value = w; ready = q };
    } in
      Blocked (some t) (busy r) (busy q) × (transform_turn (some t) s' ≡ s')
      ⊎ (work n (transform_turn (some t) s') < work n s')
unfolding transform_fn
transform-moves n s reading v w false q = inl (inr (inl (refl, refl, refl)), refl)
transform-moves n s reading (item v) w true false = inr (omega arith)
transform-moves n s reading (item v) w true true = inr (omega arith)
transform-moves n s reading eof w true false = inr (omega arith)
transform-moves n s reading eof w true true = inr (omega arith)
transform-moves n s (writing x) v w r true = inl (inr (inr (refl, refl)), refl)
transform-moves n s (writing x) v w r false = inr (omega arith)
transform-moves n s closing v w r true = inl (inr (inr (refl, refl)), refl)
transform-moves n s closing v w r false = inr (omega arith)

sink-moves :
    (n : ℕ) (s : Pipe) (w : Message) (q : Bool)
    → let s' = record s { sink = true; xfm_to_snk = record { value = w; ready = q } } in
      (busy q ≡ 0) × (sink_turn true s' ≡ s') ⊎ (work n (sink_turn true s') < work n s')
unfolding sink_fn
sink-moves n s w false = inl (refl, refl)
sink-moves n s (item w) true = inr (omega arith)
sink-moves n s eof true = inr (omega arith)

source_turn-moves :
    (n : ℕ) (o : Option ℕ) (s : Pipe)
    → emitted n o ≤ n
    → ((o ≡ none) ⊎ (busy s.src_to_xfm.ready ≡ 1))
        × (source_turn n o (record s { source = o }) ≡ record s { source = o })
      ⊎ (work n (source_turn n o (record s { source = o })) < work n (record s { source = o }))
source_turn-moves n none s h = inl (inl refl, refl)
source_turn-moves n (some i) s h =
    elim (source-moves n i s s.src_to_xfm.value s.src_to_xfm.ready h) [
      | inl (b, same) ↦ inl (inr b, same)
      | inr less ↦ inr less
    ]

transform_turn-moves :
    (n : ℕ) (o : Option Transform) (s : Pipe)
    → Blocked o (busy s.src_to_xfm.ready) (busy s.xfm_to_snk.ready)
        × (transform_turn o (record s { transform = o }) ≡ record s { transform = o })
      ⊎ (work n (transform_turn o (record s { transform = o }))
          < work n (record s { transform = o }))
transform_turn-moves n none s = inl (inl refl, refl)
transform_turn-moves n (some t) s =
    transform-moves n s t s.src_to_xfm.value s.xfm_to_snk.value s.src_to_xfm.ready
      s.xfm_to_snk.ready

sink_turn-moves :
    (n : ℕ) (b : Bool) (s : Pipe)
    → ((b ≡ false) ⊎ (busy s.xfm_to_snk.ready ≡ 0))
        × (sink_turn b (record s { sink = b }) ≡ record s { sink = b })
      ⊎ (work n (sink_turn b (record s { sink = b })) < work n (record s { sink = b }))
sink_turn-moves n false s = inl (inl refl, refl)
sink_turn-moves n true s = elim (sink-moves n s s.xfm_to_snk.value s.xfm_to_snk.ready) [
  | inl (b, same) ↦ inl (inr b, same)
  | inr less ↦ inr less
]

-- What blocks a stage.
abbrev Waits : Stage → Pipe → Type 0
Waits source s = (s.source ≡ none) ⊎ (busy s.src_to_xfm.ready ≡ 1)
Waits transform s = Blocked s.transform (busy s.src_to_xfm.ready) (busy s.xfm_to_snk.ready)
Waits sink s = (s.sink ≡ false) ⊎ (busy s.xfm_to_snk.ready ≡ 0)

moves :
    (n : ℕ) (stage : Stage) (s : Pipe)
    → IsFlowing n s
    → Waits stage s × (stage_turn n stage s ≡ s) ⊎ (work n (stage_turn n stage s) < work n s)
moves n source s h = source_turn-moves n s.source s h.bound
moves n transform s h = transform_turn-moves n s.transform s
moves n sink s h = sink_turn-moves n s.sink s

abbrev pub AllReturned : Pipe → Type 0
AllReturned s = (s.source ≡ none) × (s.transform ≡ none) × (s.sink ≡ false)

ends-busy : (r : Bool) (m : Message) → ends r m ≤ busy r
ends-busy false m = omega arith
ends-busy true (item v) = omega arith
ends-busy true eof = omega arith

no_transform : (o : Option Transform) → doubling o ≡ 0 → ending o ≡ 0 → o ≡ none
no_transform none d e = refl
no_transform (some reading) d e = absurd (omega arith)
no_transform (some (writing v)) d e = absurd (omega arith)
no_transform (some closing) d e = absurd (omega arith)

no_source : (o : Option ℕ) → feeding o ≡ 0 → o ≡ none
no_source none h = refl
no_source (some i) h = absurd (omega arith)

-- A sink that runs is not the only stage that waits.
sink-returned :
    (n : ℕ) (s : Pipe) → IsFlowing n s → ((stage : Stage) → Waits stage s) → s.sink ≡ false
sink-returned n s h waits =
    let input = ends-busy s.src_to_xfm.ready s.src_to_xfm.value in
    let out = ends-busy s.xfm_to_snk.ready s.xfm_to_snk.value in
    elim (waits sink) [
      | inl closed ↦ closed
      | inr idle ↦ elim (Bool-cases s.sink) [
        | inr closed ↦ closed
        | inl still ↦
            let g = ap going still in
            absurd (elim (waits transform) [
              | inl gone ↦ omega (arith, ap doubling gone, ap ending gone, h.third)
              | inr (inl (_, d, z)) ↦ elim (waits source) [
                | inl gone ↦ omega (arith, ap feeding gone, h.second)
                | inr full ↦ omega arith
              ]
              | inr (inr (_, o)) ↦ omega arith
            ])
      ]
    ]

all-stuck :
    (n : ℕ) (s : Pipe) → IsInRange n s → ((stage : Stage) → turn n stage s ≡ s) → AllReturned s
all-stuck n s range same =
    let h = range.flow in
    let waits : (stage : Stage) → Waits stage s = λ stage. elim (moves n stage s h) [
      | inl (w, _) ↦ w
      | inr less ↦
          let still = ap (work n) (sym (turn-stage_turn n stage s range) ∙ same stage) in
          absurd (omega (arith, less, still))
    ] in
    let closed = sink-returned n s h waits in
    let g = ap going closed in
    (
      no_source s.source (omega (arith, h.second, h.third)),
      no_transform s.transform (omega (arith, h.third)) (omega (arith, h.third)),
      closed,
    )

turn-moves :
    (n : ℕ) (stage : Stage) (s : Pipe)
    → IsInRange n s
    → (turn n stage s ≡ s) ⊎ (work n (turn n stage s) < work n s)
turn-moves n stage s range =
    rw (turn-stage_turn n stage s range)
      (elim (moves n stage s range.flow) [ inl (_, same) ↦ inl same | inr less ↦ inr less ])

-- If the source is to emit n numbers, at most 46341, with more than 4 (n + 1) rounds in which each
-- of the three stages has a turn, in any order, all three stages return.
pub all_stages_finish :
    (n : ℕ)
    → n ≤ most
    → (schedule : List (List Stage)) → AllFair Everyone schedule
    → 4 * (n + 1) < length schedule
    → AllReturned (rounds (turn n) schedule started)
all_stages_finish n b schedule fair enough =
    rounds_done (turn n) Everyone (IsInRange n) AllReturned
      (record {
        work = work n;
        keep = turn-IsInRange n b;
        moves = turn-moves n;
        stuck = all-stuck n;
        absent = λ stage s h. inl tt;
      })
      schedule started fair (omega arith) (started-IsInRange n)

-- If the source is to emit n numbers, at most 46341, with more than 4 (n + 1) rounds in which each
-- of the three stages has a turn, in any order, all three return, no int has overflowed, and the
-- total of the sink is twice the sum of the n numbers: total + n is n squared.
pub totals_everything :
    (n : ℕ)
    → n ≤ most
    → (schedule : List (List Stage)) → AllFair Everyone schedule
    → 4 * (n + 1) < length schedule
    → let s = rounds (turn n) schedule started in
      AllReturned s × (s.overflow ≡ false) × (s.total + n ≡ n * n)
totals_everything n b schedule fair enough =
    let (over, holds) =
      rounds_end (turn n) AllReturned (λ s. (s.overflow ≡ false) × (s.total + n ≡ n * n)) schedule
        started
        (λ order over. ((always-IsInRange n b order).fits, total_at_the_end n b order over.2))
        (all_stages_finish n b schedule fair enough) in
    (over, holds.0, holds.1)
