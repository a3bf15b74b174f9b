-- ===== src/Runtime/Types.antt =====
-- The data of include/coroutine.h and src/coroutine.c: states, coroutine objects, the scheduler's
-- globals with the memory that they point into, and the outcomes of a call.
use c_coroutine.Base.{ℕ, ◌*◌, List, ◌==◌, if◌then◌else◌, Bool, Option, none, some}

-- An address; `null` is the null pointer.
abbrev pub Ptr : Type 0
Ptr = ℕ

abbrev pub null : Ptr
null = 0

pub data CoState : Type 0 where
  ready running waiting done : CoState

-- The values that the header gives to the enumerators.
abbrev pub code : CoState → ℕ
code ready = 0
code running = 1
code waiting = 2
code done = 3

abbrev pub is_state : CoState → CoState → Bool
is_state a b = code a == code b

abbrev pub default_stack_size : ℕ
default_stack_size = 256 * 1024

abbrev pub max_coroutines : ℕ
max_coroutines = 512

abbrev pub queue_cap : ℕ
queue_cap = max_coroutines * 2

-- `struct Coroutine`. `L` is what its context and stack hold: a suspended computation.
pub record Coroutine (L : Type 0) : Type 0 where
  pub id : ℕ
  pub state : CoState
  pub fn : ℕ
  pub arg : ℕ
  pub stack : Ptr
  pub stack_size : ℕ
  pub awaiting : Ptr
  pub ctx : L

-- The circular buffer among the scheduler's globals.
pub record RunQueue : Type 0 where
  pub queue : List Ptr
  pub q_head : ℕ
  pub q_tail : ℕ
  pub q_size : ℕ

-- The scheduler's globals, the coroutine objects by address (`none`: not allocated, or freed),
-- and the sizes of the allocated stacks by address.
pub record World (L : Type 0) : Type 0 where
  pub all : List Ptr
  pub count : ℕ
  pub run_queue : RunQueue
  pub running : Ptr
  pub heap : Ptr → Option (Coroutine L)
  pub stacks : Ptr → Option ℕ

-- The assertions of the source, one constructor for each.
pub data Assertion : Type 0 where
  queue_overflow null_fn too_many free_null free_unfinished not_ready : Assertion
  yield_outside await_null await_outside state_null : Assertion

-- A call returns, fails an assertion, or accesses an object that is not allocated.
pub data Outcome (L : Type 0) (A : Type 0) : Type 0 where
  ok : A → World L → Outcome L A
  failed : Assertion → Outcome L A
  fault : Outcome L A

abbrev pub M : Type 0 → Type 0 → Type 0
M L A = World L → Outcome L A

abbrev pub pure : {L A : Type 0} → A → M L A
pure a w = ok a w

module _ {L A B : Type 0} where
  abbrev pub and_then : Outcome L A → (A → M L B) → Outcome L B
  and_then (ok a w) k = k a w
  and_then (failed e) k = failed e
  and_then fault k = fault

  infixl 5 ◌>>=◌ ◌>>◌
  abbrev pub ◌>>=◌ : M L A → (A → M L B) → M L B
  m >>= k = λ w. and_then (m w) k

  abbrev pub ◌>>◌ : M L A → M L B → M L B
  m >> n = m >>= λ _. n

abbrev pub update : {V : Type 0} → (Ptr → V) → Ptr → V → Ptr → V
update f p v a = if a == p then v else f a

module _ {L : Type 0} where
  abbrev pub assert : Bool → Assertion → M L (Unit {0})
  assert b e w = if b then ok tt w else failed e

  abbrev pub get : M L (World L)
  get w = ok w w

  abbrev pub put : World L → M L (Unit {0})
  put w _ = ok tt w

  -- Reading an object through a pointer.
  unfoldable pub load : Ptr → M L (Coroutine L)
  load p w = elim (w.heap p) [ none ↦ fault | some c ↦ ok c w ]

  -- Writing an object's fields back through a pointer that was read before.
  unfoldable pub store : Ptr → Coroutine L → M L (Unit {0})
  store p c w = ok tt (record w { heap = update w.heap p (some c) })
