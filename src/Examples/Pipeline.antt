-- ===== src/Examples/Pipeline.antt =====
-- examples/pipeline.c: a source, a transformer and a sink, connected by channels of one slot.
pub mod Flow
pub mod Range
pub mod Total
pub mod Progress
use c_coroutine.Base.{ℕ, ◌+◌, ◌*◌, Option, none, some, Bool, true, false, ltb, if◌then◌else◌, ◌||◌}

-- The largest int. An int past it is an overflow, after which the program has no defined behaviour:
-- in the model all stages stand still.
abbrev pub int_max : ℕ
int_max = 2147483647

abbrev pub overflows : ℕ → Bool
overflows v = ltb int_max v

-- What a channel carries: a number from 0, or the negative sentinel.
pub data Message : Type 0 where
  item : ℕ → Message
  eof : Message

pub record Channel : Type 0 where
  pub value : Message
  pub ready : Bool

abbrev pub full : Message → Channel
full message = record { value = message; ready = true }

-- The slot after it is consumed keeps its value.
abbrev pub consumed : Channel → Channel
consumed c = record c { ready = false }

-- The source before it emits `i`, or the sentinel once all `n` are emitted.
unfoldable pub source_fn : (n : ℕ) → ℕ → Channel → Option ℕ × Channel
source_fn n i out =
    if out.ready
    then (some i, out)
    else if ltb i n
    then (some (i + 1), full (item i))
    else (none, full eof)

-- The transformer at the loop that waits for input, at the one that waits to write `val * 2`, and
-- at the one that waits to pass the sentinel on.
pub data Transform : Type 0 where
  reading : Transform
  writing : (val : ℕ) → Transform
  closing : Transform

abbrev pub write : ℕ → Channel → Option Transform × Channel
write val out =
    if out.ready then (some (writing val), out) else (some reading, full (item (val * 2)))

abbrev pub close : Channel → Option Transform × Channel
close out = if out.ready then (some closing, out) else (none, full eof)

-- `val * 2` is first computed where it is printed.
abbrev pub forward : Message → Channel → Option Transform × Channel × Bool
forward (item val) out = let r = write val out in (r.0, r.1, overflows (val * 2))
forward eof out = let r = close out in (r.0, r.1, false)

-- What the transformer does next, the channel that it reads, the channel that it writes, and
-- whether an int overflows.
unfoldable pub transform_fn :
    Transform → Channel → Channel → Option Transform × Channel × Channel × Bool
transform_fn reading input out =
    if input.ready
    then (let r = forward input.value out in (r.0, consumed input, r.1, r.2))
    else (some reading, input, out, false)
transform_fn (writing val) input out = let r = write val out in (r.0, input, r.1, false)
transform_fn closing input out = let r = close out in (r.0, input, r.1, false)

-- Whether the sink goes on, its total, and whether that overflows.
abbrev pub receive : Message → ℕ → Bool × ℕ × Bool
receive (item val) total = (true, total + val, overflows (total + val))
receive eof total = (false, total, false)

unfoldable pub sink_fn : Channel → ℕ → Bool × Channel × ℕ × Bool
sink_fn input total =
    if input.ready
    then (let r = receive input.value total in (r.0, consumed input, r.1, r.2))
    else (true, input, total, false)

-- The two channels, the three coroutines (`none` and false once they have returned), the total, and
-- whether an int has overflowed.
pub record Pipe : Type 0 where
  pub src_to_xfm : Channel
  pub xfm_to_snk : Channel
  pub source : Option ℕ
  pub transform : Option Transform
  pub sink : Bool
  pub total : ℕ
  pub overflow : Bool

pub data Stage : Type 0 where
  source transform sink : Stage

abbrev pub source_turn : ℕ → Option ℕ → Pipe → Pipe
source_turn n none s = s
source_turn n (some i) s =
    let r = source_fn n i s.src_to_xfm in record s { source = r.0; src_to_xfm = r.1 }

abbrev pub transform_turn : Option Transform → Pipe → Pipe
transform_turn none s = s
transform_turn (some t) s =
    let r = transform_fn t s.src_to_xfm s.xfm_to_snk in
    record s { transform = r.0; src_to_xfm = r.1; xfm_to_snk = r.2; overflow = r.3 || s.overflow }

abbrev pub sink_turn : Bool → Pipe → Pipe
sink_turn false s = s
sink_turn true s =
    let r = sink_fn s.xfm_to_snk s.total in
    record s { sink = r.0; xfm_to_snk = r.1; total = r.2; overflow = r.3 || s.overflow }

abbrev pub stage_turn : ℕ → Stage → Pipe → Pipe
stage_turn n source s = source_turn n s.source s
stage_turn n transform s = transform_turn s.transform s
stage_turn n sink s = sink_turn s.sink s

unfoldable pub turn : ℕ → Stage → Pipe → Pipe
turn n stage s = if s.overflow then s else stage_turn n stage s

-- Before `main` runs the scheduler; the source is to emit `n` numbers.
abbrev pub started : Pipe
started = record {
  src_to_xfm = record { value = item 0; ready = false };
  xfm_to_snk = record { value = item 0; ready = false };
  source = some 0;
  transform = some reading;
  sink = true;
  total = 0;
  overflow = false;
}
