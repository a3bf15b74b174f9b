-- ===== src/Examples/Semaphore/Logger/Log.antt =====
-- The log of examples/semaphore.c: its bound, who writes it, and what it holds.
use c_coroutine.Base.{
  ℕ, ◌+◌, ◌≤◌, ◌<◌, ◌≡◌, refl, sym, ap, ◌∙◌, List, [], ◌∷◌, ◌++◌, Option, none, some, arith, length,
  get_or, lt→ltb, le→ltb, inl, inr, ℕ-cases, weigh, weigh-append, upto,
}
use c_coroutine.Examples.Crowd.{
  Crowd, crowd_turn, resume, turn-cases, total, total-set, total-nowhere, AllReturned,
}
use c_coroutine.Examples.Turns.{turns, turns_keep}
use c_coroutine.Examples.Semaphore.{sem_init, sem_wait, sem_post}
use c_coroutine.Examples.Semaphore.Logger.{
  log_size, mutex_init, mutex_lock, mutex_unlock, Logged, append, LoggerPlace, created, locking,
  logging, logger, loggers, logging_started,
}
use c_coroutine.Examples.Semaphore.Logger.Text.{
  texts, length-texts, texts-append, append-bound, append-fits,
}

-- One for a logger that holds the mutex.
abbrev pub inside : Option LoggerPlace → ℕ
inside (some (logging id)) = 1
inside _ = 0

-- The weight of a logger that has yet to write.
abbrev pub unwritten : (ℕ → ℕ) → Option LoggerPlace → ℕ
unwritten f none = 0
unwritten f (some (created id)) = f id
unwritten f (some (locking id)) = f id
unwritten f (some (logging id)) = 0

-- `order` are those that have written, in order.
pub record IsLogged (text_of : ℕ → List ℕ) (n : ℕ) (c : Crowd LoggerPlace Logged) (order : List ℕ)
    : Type 0 where
  pub slots : c.shared.mutex.max ≡ 1
  pub counted : c.shared.mutex.count + total inside c.locals ≡ 1
  pub bound : length c.shared.log < log_size
  pub written : (f : ℕ → ℕ) → weigh f order + total (unwritten f) c.locals ≡ weigh f (upto n)
  pub content : length (texts text_of (upto n)) < log_size → c.shared.log ≡ texts text_of order

-- The log of a logger that gets the mutex.
content-logged :
    (text_of : ℕ → List ℕ) (n i : ℕ) (c : Crowd LoggerPlace Logged) (order : List ℕ) (id : ℕ)
    → get_or c.locals i none ≡ some (locking id)
    → IsLogged text_of n c order
    → length (texts text_of (upto n)) < log_size
    → append c.shared.log (text_of id) ≡ texts text_of (order ++ (id ∷ []))
content-logged text_of n i c order id e h small =
    let size : ℕ → ℕ = λ j. length (text_of j) in
    let same = h.content small in
    let fits : length c.shared.log + length (text_of id) < log_size = omega (
      arith,
      small,
      ap length same,
      length-texts text_of order,
      length-texts text_of (upto n),
      h.written size,
      total-set (unwritten size) c.locals i (some (logging id)) e,
    ) in
    append-fits c.shared.log (text_of id) fits
    ∙ ap (λ t. t ++ text_of id) same
    ∙ sym (texts-append text_of order id)

resume-Logged :
    (text_of : ℕ → List ℕ) (n i : ℕ) (c : Crowd LoggerPlace Logged) (order : List ℕ)
    (l : LoggerPlace)
    → get_or c.locals i none ≡ some l
    → IsLogged text_of n c order
    → (order' : List ℕ) × IsLogged text_of n (resume (logger text_of) i (some l) c) order'
unfolding logger mutex_lock mutex_unlock sem_wait sem_post
resume-Logged text_of n i c order (created id) e h = (
  order,
  record {
    slots = h.slots;
    counted = omega (arith, total-set inside c.locals i (some (locking id)) e, h.counted);
    bound = h.bound;
    written =
        λ f. omega (arith, total-set (unwritten f) c.locals i (some (locking id)) e, h.written f);
    content = h.content;
  },
)
resume-Logged text_of n i c order (locking id) e h = elim (ℕ-cases c.shared.mutex.count 0) [
  | inl z ↦
      rw (le→ltb 0 c.shared.mutex.count (omega arith), sem_wait, mutex_lock, logger)
        (
          order,
          record {
            slots = h.slots;
            counted = omega (arith, total-set inside c.locals i (some (locking id)) e, h.counted);
            bound = h.bound;
            written = λ f.
                omega
                  (arith, total-set (unwritten f) c.locals i (some (locking id)) e, h.written f);
            content = h.content;
          },
        )
  | inr nz ↦
      rw (lt→ltb 0 c.shared.mutex.count (omega arith), sem_wait, mutex_lock, logger)
        (
          order ++ (id ∷ []),
          record {
            slots = h.slots;
            counted = omega (arith, total-set inside c.locals i (some (logging id)) e, h.counted);
            bound = append-bound c.shared.log (text_of id) h.bound;
            written = λ f. omega (
              arith,
              total-set (unwritten f) c.locals i (some (logging id)) e,
              weigh-append f order (id ∷ []),
              h.written f,
            );
            content = content-logged text_of n i c order id e h;
          },
        )
]
resume-Logged text_of n i c order (logging id) e h =
    let t = total-set inside c.locals i none e in
    let room : c.shared.mutex.count < c.shared.mutex.max = omega (arith, h.slots, h.counted) in
    rw (lt→ltb c.shared.mutex.count c.shared.mutex.max room, sem_post, mutex_unlock, logger)
      (
        order,
        record {
          slots = h.slots;
          counted = omega (arith, t, h.counted);
          bound = h.bound;
          written = λ f. omega (arith, total-set (unwritten f) c.locals i none e, h.written f);
          content = h.content;
        },
      )

abbrev pub IsOrderly : (ℕ → List ℕ) → ℕ → Crowd LoggerPlace Logged → Type 0
IsOrderly text_of n c = (order : List ℕ) × IsLogged text_of n c order

pub turn-IsOrderly :
    (text_of : ℕ → List ℕ) (n i : ℕ) (c : Crowd LoggerPlace Logged)
    → IsOrderly text_of n c
    → IsOrderly text_of n (crowd_turn (logger text_of) i c)
turn-IsOrderly text_of n i c (order, h) = elim (turn-cases (logger text_of) i c) [
  | inl (_, same) ↦ rw same (order, h)
  | inr (l, e, e') ↦ rw e' (resume-Logged text_of n i c order l e h)
]

inside-loggers : (is : List ℕ) → total inside (loggers is) ≡ 0
inside-loggers [] = refl
inside-loggers (i ∷ is) = omega (arith, inside-loggers is)

unwritten-loggers : (f : ℕ → ℕ) (is : List ℕ) → total (unwritten f) (loggers is) ≡ weigh f is
unwritten-loggers f [] = refl
unwritten-loggers f (i ∷ is) = omega (arith, unwritten-loggers f is)

pub started-IsOrderly : (text_of : ℕ → List ℕ) (n : ℕ) → IsOrderly text_of n (logging_started n)
unfolding logging_started mutex_init sem_init
started-IsOrderly text_of n = (
  [],
  record {
    slots = refl;
    counted = omega (arith, inside-loggers (upto n));
    bound = omega arith;
    written = λ f. omega (arith, unwritten-loggers f (upto n));
    content = λ small. refl;
  },
)

-- The log stays within its buffer, and no two loggers hold the mutex.
pub log_bound :
    (text_of : ℕ → List ℕ) (n : ℕ) (schedule : List ℕ)
    → let c = turns (crowd_turn (logger text_of)) schedule (logging_started n) in
      (length c.shared.log < log_size) × (total inside c.locals ≤ 1)
log_bound text_of n schedule =
    let (order, h) =
      turns_keep (crowd_turn (logger text_of)) (IsOrderly text_of n) (turn-IsOrderly text_of n)
        schedule (logging_started n) (started-IsOrderly text_of n) in
    (h.bound, omega (arith, h.counted))

-- The log is the texts of all loggers, in some order.
abbrev pub HasAll : (ℕ → List ℕ) → ℕ → Crowd LoggerPlace Logged → Type 0
HasAll text_of n c =
    (order : List ℕ) × ((f : ℕ → ℕ) → weigh f order ≡ weigh f (upto n))
    × (c.shared.log ≡ texts text_of order)

pub all_logged :
    (text_of : ℕ → List ℕ) (n : ℕ) (schedule : List ℕ)
    → length (texts text_of (upto n)) < log_size
    → let c = turns (crowd_turn (logger text_of)) schedule (logging_started n) in
      AllReturned c → HasAll text_of n c
all_logged text_of n schedule small all =
    let c = turns (crowd_turn (logger text_of)) schedule (logging_started n) in
    let (order, h) =
      turns_keep (crowd_turn (logger text_of)) (IsOrderly text_of n) (turn-IsOrderly text_of n)
        schedule (logging_started n) (started-IsOrderly text_of n) in
    (
      order,
      (λ f. omega (
        arith,
        h.written f,
        total-nowhere (unwritten f) c.locals (λ i. ap (unwritten f) (all i)),
      )),
      h.content small,
    )
