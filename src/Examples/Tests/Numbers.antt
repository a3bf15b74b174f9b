-- ===== src/Examples/Tests/Numbers.antt =====
-- The theorems on the programs that pass numbers on, at concrete inputs.
use c_coroutine.Base.{◌≡◌, refl, [], ◌∷◌, some, none, arith, replicate, upto, weigh, false, true}
use mathlib.Core.List.Memᴰ
use c_coroutine.Examples.Turns.{rounds, IsFair, Everyone, AllFair-replicate, upto-IsFair}
use c_coroutine.Examples.Crowd.{crowd_turn, AllReturned}
use c_coroutine.Examples.ProducerConsumer
use c_coroutine.Examples.ProducerConsumer.Accounts.{products}
use c_coroutine.Examples.ProducerConsumer.Progress.{everything_consumed}
use c_coroutine.Examples.Generator
use c_coroutine.Examples.Generator.{generating, consuming}
use c_coroutine.Examples.Generator.Printed.{AllPrinted}
use c_coroutine.Examples.Generator.Progress.{BothReturned, generator_completes}
use c_coroutine.Examples.RecursiveFib
use c_coroutine.Examples.RecursiveFib.Sequence.{fib, fibs}
use c_coroutine.Examples.RecursiveFib.Generator.{run_generator_lem}
use c_coroutine.Examples.PingPong
use c_coroutine.Examples.PingPong.{pinging, ponging}
use c_coroutine.Examples.PingPong.Exchanges.{AllDone, exchanges_end}

everything_consumed_example :
    let c =
      rounds
        (crowd_turn ProducerConsumer.role)
        (replicate 69 (upto 4))
        (ProducerConsumer.started ProducerConsumer.main_starts) in
    AllReturned c
    × (weigh (λ v. v) c.shared.popped ≡ weigh (λ v. v) (products ProducerConsumer.main_starts))
everything_consumed_example =
    everything_consumed ProducerConsumer.main_starts (replicate 69 (upto 4)) (λ v. v)
      (AllFair-replicate 69 (upto-IsFair 4)) (omega arith)

both_in_turn : IsFair Everyone (consuming ∷ generating ∷ [])
both_in_turn generating _ = Memᴰ.tail (Memᴰ.head refl)
both_in_turn consuming _ = Memᴰ.head refl

generator_completes_example :
    let s = rounds Generator.turn (replicate 27 (consuming ∷ generating ∷ [])) Generator.started in
    BothReturned s × AllPrinted s
generator_completes_example =
    generator_completes (replicate 27 (consuming ∷ generating ∷ []))
      (AllFair-replicate 27 both_in_turn) (omega arith)

-- The calls of main of examples/recursive_fib.c.
run_generator_lem_example : RecursiveFib.run_generator 20 16 ≡ some (fibs 16)
run_generator_lem_example = run_generator_lem 20 16 (omega arith)

expected : fib 0 ∷ fib 1 ∷ fib 5 ∷ fib 10 ∷ fib 15 ∷ fib 20 ∷ [] ≡ 0 ∷ 1 ∷ 5 ∷ 55 ∷ 610 ∷ 6765 ∷ []
unfolding fib
expected = refl

ping_and_pong : IsFair Everyone (pinging ∷ ponging ∷ [])
ping_and_pong pinging _ = Memᴰ.head refl
ping_and_pong ponging _ = Memᴰ.tail (Memᴰ.head refl)

exchanges_end_test :
    AllDone 4 (rounds PingPong.turn (replicate 8 (pinging ∷ ponging ∷ [])) (PingPong.started 4))
exchanges_end_test =
    exchanges_end 4 (replicate 8 (pinging ∷ ponging ∷ [])) (AllFair-replicate 8 ping_and_pong)
      (omega arith)

-- The lines for a limit of 4, in the order of co_run.
printed_for_four :
    (rounds PingPong.turn (replicate 8 (pinging ∷ ponging ∷ [])) (PingPong.started 4)).printed
    ≡ (pinging, 1) ∷ (pinging, 2) ∷ (ponging, 3) ∷ (pinging, 4) ∷ []
unfolding PingPong.turn PingPong.ping_test PingPong.pong_test PingPong.pong_after PingPong.going
printed_for_four = refl

limits :
    PingPong.parse_limit none 10
      ∷ PingPong.parse_limit
          (some (record { complete = true; negative = false; magnitude = 25 }))
          10
      ∷ PingPong.parse_limit (some (record { complete = true; negative = true; magnitude = 25 })) 10
      ∷ PingPong.parse_limit
          (some (record { complete = true; negative = false; magnitude = 1000001 }))
          10
      ∷ []
    ≡ 10 ∷ 25 ∷ 10 ∷ 10 ∷ []
unfolding PingPong.parse_limit
limits = refl
