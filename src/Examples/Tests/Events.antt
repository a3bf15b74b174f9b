-- ===== src/Examples/Tests/Events.antt =====
-- The theorems on the state machine, the timers, the echo server and the loggers at concrete
-- inputs.
use c_coroutine.Base.{
  ℕ, zero, suc, ◌+◌, ◌≡◌, refl, sym, ap, List, [], ◌∷◌, ◌++◌, Option, some, none, arith, replicate,
  upto, weigh, get_or,
}
use c_coroutine.Ring.{empty-Holds}
use c_coroutine.Examples.Turns.{turns, rounds, AllFair-replicate, upto-IsFair}
use c_coroutine.Examples.Crowd.{crowd_turn, AllReturned}
use c_coroutine.Examples.StateMachine
use c_coroutine.Examples.StateMachine.{evt_none, evt_syn, evt_syn_ack, evt_fin, event_cap, arrives}
use c_coroutine.Examples.StateMachine.Queue.{push_event-Queued}
use c_coroutine.Examples.StateMachine.Transfer.{IsCounted, whole_blocks}
use c_coroutine.Examples.StateMachine.Handshake.{IsAt, completing, handshake_needs}
use c_coroutine.Examples.TimerCoroutine
use c_coroutine.Examples.TimerCoroutine.{TimerCfg, Timer}
use c_coroutine.Examples.TimerCoroutine.Due.{Due, occurrences}
use c_coroutine.Examples.TimerCoroutine.Firings.{IsNamed, fires_on_time}
use c_coroutine.Examples.EchoServer
use c_coroutine.Examples.EchoServer.Progress.{everything_echoed}
use c_coroutine.Examples.EchoServer.Echoes.{all_echoes}
use c_coroutine.Examples.Semaphore.Logger
use c_coroutine.Examples.Semaphore.Logger.Log.{HasAll}
use c_coroutine.Examples.Semaphore.Logger.Progress.{everything_logged}

-- Where the pump stands before it resumes SYN_SENT for the second and last time.
abbrev pump_acknowledges : StateMachine.Fsm
pump_acknowledges =
    turns StateMachine.act
      (arrives evt_syn ∷ StateMachine.resumes_syn_sent ∷ arrives evt_syn_ack ∷ [])
      StateMachine.started

pump-IsAt :
    IsAt StateMachine.waiting StateMachine.fresh StateMachine.fresh 0
      ((evt_syn ∷ []) ++ (evt_syn_ack ∷ []))
      pump_acknowledges
unfolding StateMachine.act StateMachine.resume_syn_sent
pump-IsAt = record {
  first = refl;
  second = refl;
  third = refl;
  transferred = refl;
  queued =
      push_event-Queued (evt_syn ∷ []) evt_syn_ack
        (push_event-Queued [] evt_syn (empty-Holds event_cap evt_none (omega arith)));
}

-- The pump resumes SYN_SENT once more, and two resumptions are needed.
handshake_needs_example :
    IsAt StateMachine.waiting StateMachine.fresh StateMachine.fresh 0
      (evt_syn_ack ∷ [])
      (turns StateMachine.act (StateMachine.resumes_syn_sent ∷ []) pump_acknowledges)
    × IsAt StateMachine.returned StateMachine.returned StateMachine.returned 1024
        (evt_fin ∷ [])
        (turns StateMachine.act (completing 1) pump_acknowledges)
handshake_needs_example = handshake_needs (evt_syn ∷ []) pump_acknowledges (refl, tt) pump-IsAt

whole_blocks_example :
    IsCounted (turns StateMachine.act StateMachine.event_pump StateMachine.started)
whole_blocks_example = whole_blocks StateMachine.event_pump

-- The run of main: the event SYN stands before SYN_ACK in the queue, and nothing is transferred.
pump_transfers_nothing :
    (turns StateMachine.act StateMachine.event_pump StateMachine.started).bytes_transferred ≡ 0
unfolding StateMachine.act StateMachine.resume_syn_sent StateMachine.resume_established
    StateMachine.resume_closing StateMachine.on_syn_sent StateMachine.on_established
    StateMachine.push_event StateMachine.pop_event
pump_transfers_nothing = refl

abbrev fast : TimerCfg
fast = record { name = 0; ticks = 2; period = 2 }

abbrev name_of : Option Timer → ℕ → ℕ
name_of none d = d
name_of (some t) d = t.cfg.name

main-IsNamed : IsNamed (TimerCoroutine.started TimerCoroutine.main_timers)
unfolding TimerCoroutine.started
main-IsNamed zero t e = ap (λ o. name_of o 0) (sym e)
main-IsNamed (suc zero) t e = ap (λ o. name_of o 0) (sym e)
main-IsNamed (suc (suc zero)) t e = ap (λ o. name_of o 0) (sym e)
main-IsNamed (suc (suc (suc j))) t e = cc e

fires_on_time_example :
    let c =
      turns
        (crowd_turn TimerCoroutine.timer_coroutine)
        (upto 3 ++ upto 3 ++ upto 3 ++ (0 ∷ []))
        (TimerCoroutine.started TimerCoroutine.main_timers) in
    Due fast
      (occurrences 0 (upto 3 ++ upto 3 ++ upto 3 ++ (0 ∷ [])))
      (occurrences 0 c.shared)
      (get_or c.locals 0 none)
fires_on_time_example =
    fires_on_time TimerCoroutine.main_timers fast main-IsNamed refl
      (upto 3 ++ upto 3 ++ upto 3 ++ (0 ∷ []))

four_connections :
    let c =
      rounds
        (crowd_turn EchoServer.handle_connection)
        (replicate 45 (upto EchoServer.num_conns))
        (EchoServer.started EchoServer.num_conns) in
    AllReturned c
    × (weigh (λ l. l.text.msg) c.shared ≡ weigh (λ l. l.text.msg) (all_echoes (upto 4)))
four_connections =
    everything_echoed EchoServer.num_conns (replicate 45 (upto 4)) (λ l. l.text.msg)
      (AllFair-replicate 45 (upto-IsFair 4)) (omega arith)

-- A short text with the digit of a logger.
abbrev text_of : ℕ → List ℕ
text_of i = 108 ∷ 111 ∷ 103 ∷ 45 ∷ (48 + i) ∷ 59 ∷ []

everything_logged_example :
    let c =
      rounds
        (crowd_turn (Logger.logger text_of))
        (replicate 10 (upto 3))
        (Logger.logging_started 3) in
    AllReturned c × HasAll text_of 3 c
everything_logged_example =
    everything_logged text_of 3 (replicate 10 (upto 3)) (AllFair-replicate 10 (upto-IsFair 3))
      (omega arith) (omega arith)
