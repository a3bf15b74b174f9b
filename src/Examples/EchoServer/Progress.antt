-- ===== src/Examples/EchoServer/Progress.antt =====
-- The connections of examples/echo_server.c are all closed in the end.
use c_coroutine.Base.{
  weigh, ℕ, ◌+◌, ◌-◌, ◌*◌, ◌<◌, ◌≡◌, refl, sym, ◌∙◌, subst, List, [], ◌∷◌, Option, none, some,
  arith, ltb, Bool-cases, inl, inr, length, upto, length-upto,
}
use c_coroutine.Examples.Crowd.{crowd_turn, total, AllReturned}
use c_coroutine.Examples.Turns.{rounds_end, rounds, AllFair}
use c_coroutine.Examples.Unblocked
use c_coroutine.Examples.EchoServer.{
  max_messages, Line, Handler, accepted, reading, flushing, next_message, sim_read,
  handle_connection, handlers, started,
}
use c_coroutine.Examples.EchoServer.Echoes.{all_echoed, all_echoes}

-- The turns that a connection has before it.
abbrev needs : Option Handler → ℕ
needs none = 0
needs (some (accepted c)) = 2 * max_messages + 1
needs (some (reading c)) = 2 * (max_messages - c.seq) + 2
needs (some (flushing c)) = 2 * (max_messages - c.seq) + 1

turn-lowers :
    (h : Handler) (lines : List Line) → needs (handle_connection h lines).0 < needs (some h)
unfolding handle_connection next_message sim_read
turn-lowers (accepted c) lines = omega arith
turn-lowers (reading c) lines = omega arith
turn-lowers (flushing c) lines = elim (Bool-cases (ltb max_messages (c.seq + 1))) [
  | inl past ↦ rw (past, next_message) (omega arith)
  | inr within ↦ rw (within, next_message) (ground (arith, within))
]

needs-handlers : (is : List ℕ) → total needs (handlers is) ≡ (2 * max_messages + 1) * length is
needs-handlers [] = refl
needs-handlers (i ∷ is) = omega (arith, needs-handlers is)

length-handlers : (is : List ℕ) → length (handlers is) ≡ length is
length-handlers [] = refl
length-handlers (i ∷ is) = omega (arith, length-handlers is)

-- More than 11 fair rounds for each connection close them all.
pub all_closed :
    (conns : ℕ) (schedule : List (List ℕ))
    → AllFair (λ i. i < conns) schedule
    → (2 * max_messages + 1) * conns < length schedule
    → AllReturned (rounds (crowd_turn handle_connection) schedule (started conns))
unfolding started
all_closed conns schedule fair enough =
    Unblocked.all_return handle_connection needs turn-lowers schedule (started conns)
      (subst (λ n. AllFair (λ i. i < n) schedule)
        (sym (length-handlers (upto conns) ∙ length-upto conns)) fair)
      (omega (arith, needs-handlers (upto conns), length-upto conns))

-- With enough fair rounds all are closed, and the lines are the echoes of all messages.
pub everything_echoed :
    (conns : ℕ) (schedule : List (List ℕ)) (f : Line → ℕ)
    → AllFair (λ i. i < conns) schedule
    → (2 * max_messages + 1) * conns < length schedule
    → let c = rounds (crowd_turn handle_connection) schedule (started conns) in
      AllReturned c × (weigh f c.shared ≡ weigh f (all_echoes (upto conns)))
everything_echoed conns schedule f fair enough =
    rounds_end (crowd_turn handle_connection) AllReturned
      (λ c. weigh f c.shared ≡ weigh f (all_echoes (upto conns))) schedule (started conns)
      (λ order over. all_echoed conns order f over) (all_closed conns schedule fair enough)
