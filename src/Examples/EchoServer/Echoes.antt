-- ===== src/Examples/EchoServer/Echoes.antt =====
-- What the connections of examples/echo_server.c echo, in every order of the turns.
use c_coroutine.Base.{
  ℕ, zero, suc, ◌+◌, ◌-◌, ◌≡◌, refl, ap, List, [], ◌∷◌, ◌++◌, Option, none, some, true, false,
  arith, ltb, inl, inr, weigh, weigh-append, upto,
}
use c_coroutine.Examples.Crowd.{
  Crowd, crowd_turn, turn-cases, total, total-set, total-nowhere, AllReturned,
}
use c_coroutine.Examples.Turns.{turns, turns_keep}
use c_coroutine.Examples.EchoServer.{
  max_messages, Message, Conn, Line, sim_read, sim_write, Handler, accepted, reading, flushing,
  next_message, handle_connection, handlers, started,
}

-- The echo of a message, and of `n` messages from `seq` on.
abbrev pub echo : (id seq : ℕ) → Line
echo id seq =
    let m : Message = record { conn = id; msg = seq } in
    record { on = record { id = id; seq = seq; recv_buf = m }; text = m }

abbrev pub echoes : (id seq n : ℕ) → List Line
echoes id seq zero = []
echoes id seq (suc n) = echo id seq ∷ echoes id (seq + 1) n

-- All those of the connections of some numbers.
abbrev pub all_echoes : List ℕ → List Line
all_echoes [] = []
all_echoes (i ∷ is) = echoes (i + 1) 1 max_messages ++ all_echoes is

-- The weight of the lines that a connection has yet to print.
abbrev owed : (Line → ℕ) → Option Handler → ℕ
owed f none = 0
owed f (some (accepted c)) = weigh f (echoes c.id 1 max_messages)
owed f (some (reading c)) =
    f (echo c.id c.seq) + weigh f (echoes c.id (c.seq + 1) (max_messages - c.seq))
owed f (some (flushing c)) = weigh f (echoes c.id (c.seq + 1) (max_messages - c.seq))

-- The loop test loses nothing and adds nothing.
next_message-owed :
    (f : Line → ℕ) (c : Conn) (k : ℕ)
    → max_messages + 1 - c.seq ≡ k
    → owed f (next_message c) ≡ weigh f (echoes c.id c.seq k)
unfolding next_message
next_message-owed f c zero e =
    let past : ltb max_messages c.seq ≡ true = ground arith in rw (past, next_message) refl
next_message-owed f c (suc k) e =
    let within : ltb max_messages c.seq ≡ false = ground arith in
    let left : max_messages - c.seq ≡ k = omega arith in rw (within, next_message, left) refl

turn-owed :
    (f : Line → ℕ) (h : Handler) (lines : List Line)
    → let r = handle_connection h lines in
      weigh f r.1 + owed f r.0 ≡ weigh f lines + owed f (some h)
unfolding handle_connection sim_read sim_write
turn-owed f (accepted c) lines =
    omega (arith, next_message-owed f (record c { seq = 1 }) max_messages refl)
turn-owed f (reading c) lines = omega (arith, weigh-append f lines (echo c.id c.seq ∷ []))
turn-owed f (flushing c) lines =
    omega (
      arith,
      next_message-owed f (record c { seq = c.seq + 1 }) (max_messages - c.seq) (omega arith),
    )

owed-handlers :
    (f : Line → ℕ) (is : List ℕ) → total (owed f) (handlers is) ≡ weigh f (all_echoes is)
owed-handlers f [] = refl
owed-handlers f (i ∷ is) =
    omega
      (arith, weigh-append f (echoes (i + 1) 1 max_messages) (all_echoes is), owed-handlers f is)

abbrev IsKept : ℕ → Crowd Handler (List Line) → Type 0
IsKept conns c =
    (f : Line → ℕ) → weigh f c.shared + total (owed f) c.locals ≡ weigh f (all_echoes (upto conns))

turn-IsKept :
    (conns i : ℕ) (c : Crowd Handler (List Line))
    → IsKept conns c
    → IsKept conns (crowd_turn handle_connection i c)
turn-IsKept conns i c h = elim (turn-cases handle_connection i c) [
  | inl (_, same) ↦ rw same h
  | inr (l, here, e) ↦ rw e (λ f. omega (
    arith,
    h f,
    turn-owed f l c.shared,
    total-set (owed f) c.locals i (handle_connection l c.shared).0 here,
  ))
]

-- When all have returned, the lines are the echoes of all messages of all connections.
pub all_echoed :
    (conns : ℕ) (schedule : List ℕ) (f : Line → ℕ)
    → let c = turns (crowd_turn handle_connection) schedule (started conns) in
      AllReturned c → weigh f c.shared ≡ weigh f (all_echoes (upto conns))
unfolding started
all_echoed conns schedule f all =
    let c = turns (crowd_turn handle_connection) schedule (started conns) in
    let h =
      turns_keep (crowd_turn handle_connection) (IsKept conns) (turn-IsKept conns) schedule
        (started conns) (λ g. omega (arith, owed-handlers g (upto conns))) in
    omega (arith, h f, total-nowhere (owed f) c.locals (λ i. ap (owed f) (all i)))
