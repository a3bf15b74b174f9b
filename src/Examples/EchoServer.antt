-- ===== src/Examples/EchoServer.antt =====
-- examples/echo_server.c: connections that read a message and echo it, in turn.
pub mod Echoes
pub mod Progress
use c_coroutine.Base.{
  ℕ, zero, suc, ◌+◌, ◌≤◌, ◌<◌, List, [], ◌∷◌, ◌++◌, Option, none, some, ltb, if◌then◌else◌, upto,
}
use c_coroutine.Examples.Crowd.{Body, Crowd}

abbrev pub max_messages : ℕ
max_messages = 5

abbrev pub num_conns : ℕ
num_conns = 4

-- The message in `recv_buf`: the connection and the number that are written into the text.
pub record Message : Type 0 where
  pub conn : ℕ
  pub msg : ℕ

abbrev pub no_message : Message
no_message = record { conn = 0; msg = 0 }

pub record Conn : Type 0 where
  pub id : ℕ
  pub seq : ℕ
  pub recv_buf : Message

unfoldable pub sim_read : Conn → Conn
sim_read c = record c { recv_buf = record { conn = c.id; msg = c.seq } }

-- A line that is printed: the connection, its `seq`, and the text that is echoed.
pub record Line : Type 0 where
  pub on : Conn
  pub text : Message

unfoldable pub sim_write : Conn → Message → List Line → List Line
sim_write c text lines = lines ++ (record { on = c; text = text } ∷ [])

-- Before the first turn, at the yield before a message is read, and at the one after the echo.
pub data Handler : Type 0 where
  accepted reading flushing : Conn → Handler

-- From the test of the loop to the next yield, or to the end.
unfoldable pub next_message : Conn → Option Handler
next_message c = if ltb max_messages c.seq then none else some (reading c)

unfoldable pub handle_connection : Body Handler (List Line)
handle_connection (accepted c) lines = (next_message (record c { seq = 1 }), lines)
handle_connection (reading c) lines =
    let c' = sim_read c in (some (flushing c'), sim_write c' c'.recv_buf lines)
handle_connection (flushing c) lines = (next_message (record c { seq = c.seq + 1 }), lines)

-- A coroutine for each number.
abbrev pub handlers : List ℕ → List (Option Handler)
handlers [] = []
handlers (i ∷ is) =
    some (accepted (record { id = i + 1; seq = 0; recv_buf = no_message })) ∷ handlers is

unfoldable pub started : ℕ → Crowd Handler (List Line)
started conns = record { locals = handlers (upto conns); shared = [] }
