-- ===== src/Examples/Tests/Services.antt =====
-- The theorems on the channel, the fiber pool and the asynchronous I/O at concrete inputs.
use c_coroutine.Base.{
  ℕ, ◌≡◌, refl, List, [], ◌∷◌, ◌++◌, Option, none, some, arith, false, not, ltb, get_or, upto,
  replicate, ◌⊎◌,
}
use c_coroutine.Examples.Turns.{turns}
use c_coroutine.Examples.Channel
use c_coroutine.Examples.Channel.{Who}
use c_coroutine.Examples.Channel.Wakeups.{all_received, no_lost_wakeup}
use c_coroutine.Examples.FiberPool.{main}
use c_coroutine.Examples.FiberPool.Drained.{main_returns_zero}
use c_coroutine.Examples.AsyncIo.{
  IoOp, op_read, op_write, Io, no_request, io_submit, submit_from, io_done, io_tick, Worker, fresh,
  io_worker, elapsed, event_loop, resume_workers, advance_all,
}
use c_coroutine.Examples.AsyncIo.Latency.{ticks, ticks_of, done_after}

abbrev pair : List Who
pair = Channel.consumer ∷ Channel.producer ∷ []

abbrev ten_each : List Who
ten_each = pair ++ pair ++ pair ++ pair ++ pair ++ pair ++ pair ++ pair ++ pair ++ pair

consumer_returned : (turns Channel.turn ten_each Channel.started).receiving ≡ false
unfolding Channel.turn Channel.producer_run Channel.consumer_run Channel.chan_send Channel.chan_recv
    Channel.chan_close Channel.chan_init Channel.started
consumer_returned = refl

all_received_example : (turns Channel.turn ten_each Channel.started).got ≡ upto 16
all_received_example = all_received ten_each consumer_returned

no_lost_wakeup_example :
    let s = turns Channel.turn pair Channel.started in
    ((s.chan.sender ≡ none) ⊎ (s.chan.ring.size ≡ 4))
    × ((s.chan.receiver ≡ none) ⊎ (s.chan.ring.size ≡ 0) × (s.chan.closed ≡ false))
    × (s.has_aborted ≡ false)
no_lost_wakeup_example = no_lost_wakeup pair

main_returns_zero_example : main 22 4 20 ≡ some 0
main_returns_zero_example =
    main_returns_zero 22 4 20 (omega arith) (omega arith) (omega arith) (omega arith) (omega arith)

abbrev idle_io : Io
idle_io = record { io_queue = replicate 16 no_request; global_tick = 0 }

slot_zero : (io_submit op_read 3 64 2 0 idle_io).0 ≡ some 0
unfolding io_submit submit_from
slot_zero = refl

done_after_example :
    ((get_or idle_io.io_queue 0 no_request).active ≡ false)
    × (io_done 0 (ticks 2 (io_submit op_read 3 64 2 0 idle_io).1) ≡ not (ltb 2 (ticks_of 2)))
done_after_example = done_after op_read 3 64 2 0 0 2 idle_io slot_zero

abbrev worker : (id : ℕ) → IoOp → (fd nbytes latency : ℕ) → Option Worker
worker id kind fd nbytes latency =
    some (fresh (record { id = id; kind = kind; fd = fd; nbytes = nbytes; latency = latency }))

-- The run of the demo: three ticks, and the workers end in the order of their latencies.
demo :
    event_loop 5
      (worker 0 op_read 3 64 2 ∷ worker 1 op_read 4 128 3 ∷ worker 2 op_write 5 32 1 ∷ [])
      idle_io
    ≡ some (3, elapsed 1 ∷ elapsed 2 ∷ elapsed 3 ∷ [])
unfolding io_submit submit_from io_done io_tick io_worker event_loop resume_workers advance_all
demo = refl
