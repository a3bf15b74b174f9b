-- ===== src/Examples/Semaphore/Logger/Progress.antt =====
-- The loggers of examples/semaphore.c all get the mutex.
use c_coroutine.Base.{
  ℕ, ◌*◌, ◌<◌, ◌≡◌, refl, ap, ◌∙◌, List, [], ◌∷◌, Option, none, some, arith, get_or, lt→ltb, le→ltb,
  inl, inr, ℕ-cases, ◌⊎◌, length, upto, length-upto,
}
use c_coroutine.Examples.Crowd.{
  Crowd, crowd_turn, turn-cases, total, total-set, total-nowhere, AllReturned, set_same,
  length-turn, turn-absent,
}
use c_coroutine.Examples.Turns.{rounds_end, rounds, AllFair, rounds_done}
use c_coroutine.Examples.Semaphore.{sem_wait}
use c_coroutine.Examples.Semaphore.Logger.{
  log_size, mutex_lock, Logged, LoggerPlace, created, locking, logging, logger, loggers,
  logging_started,
}
use c_coroutine.Examples.Semaphore.Logger.Log.{
  all_logged, HasAll, inside, IsOrderly, turn-IsOrderly, started-IsOrderly,
}
use c_coroutine.Examples.Semaphore.Logger.Text.{texts}

-- The turns that a logger needs, those in which it is suspended not counted.
abbrev needs : Option LoggerPlace → ℕ
needs none = 0
needs (some (created id)) = 3
needs (some (locking id)) = 2
needs (some (logging id)) = 1

abbrev work : Crowd LoggerPlace Logged → ℕ
work c = total needs c.locals

module _ (text_of : ℕ → List ℕ) where
  -- A logger that a turn does not change has returned, or waits for the mutex.
  moves :
      (i : ℕ) (c : Crowd LoggerPlace Logged)
      → ((get_or c.locals i none ≡ none)
            ⊎ (c.shared.mutex.count ≡ 0) × (inside (get_or c.locals i none) ≡ 0))
          × (crowd_turn (logger text_of) i c ≡ c)
        ⊎ (work (crowd_turn (logger text_of) i c) < work c)
  unfolding logger mutex_lock sem_wait
  moves i c = elim (turn-cases (logger text_of) i c) [
    | inl (e, same) ↦ inl (inl e, same)
    | inr (created id, e, e') ↦
        inr (rw e' (omega (arith, total-set needs c.locals i (some (locking id)) e)))
    | inr (logging id, e, e') ↦ inr (rw e' (omega (arith, total-set needs c.locals i none e)))
    | inr (locking id, e, e') ↦ elim (ℕ-cases c.shared.mutex.count 0) [
      | inl z ↦ inl (
        inr (z, ap inside e),
        e'
            ∙ rw (le→ltb 0 c.shared.mutex.count (omega arith), sem_wait, mutex_lock, logger)
                (ap (λ os. record c { locals = os }) (set_same c.locals i e)),
      )
      | inr nz ↦ inr (
          rw e' (
            rw (lt→ltb 0 c.shared.mutex.count (omega arith), sem_wait, mutex_lock, logger)
              (omega (arith, total-set needs c.locals i (some (logging id)) e))))
    ]
  ]

  abbrev IsGoing : ℕ → Crowd LoggerPlace Logged → Type 0
  IsGoing n c = IsOrderly text_of n c × (length c.locals ≡ n)

  all-stuck :
      (n : ℕ) (c : Crowd LoggerPlace Logged)
      → IsGoing n c
      → ((i : ℕ) → crowd_turn (logger text_of) i c ≡ c)
      → AllReturned c
  all-stuck n c ((order, h), _) same =
      let waiting : (j : ℕ)
          → (get_or c.locals j none ≡ none)
            ⊎ (c.shared.mutex.count ≡ 0) × (inside (get_or c.locals j none) ≡ 0) =
        λ j. elim (moves j c) [
          | inl (b, _) ↦ b
          | inr less ↦ absurd (omega (arith, ap work (same j)))
        ] in
      let none_inside : total inside c.locals ≡ 0 =
        total-nowhere inside c.locals
          (λ j. elim (waiting j) [ inl e ↦ ap inside e | inr (_, z) ↦ z ]) in
      λ j. elim (waiting j) [ inl e ↦ e | inr (z, _) ↦ absurd (omega (arith, h.counted)) ]

needs-loggers : (is : List ℕ) → total needs (loggers is) ≡ 3 * length is
needs-loggers [] = refl
needs-loggers (i ∷ is) = omega (arith, needs-loggers is)

length-loggers : (is : List ℕ) → length (loggers is) ≡ length is
length-loggers [] = refl
length-loggers (i ∷ is) = omega (arith, length-loggers is)

-- More than three fair rounds for each logger lead to the return of all.
pub all_loggers_finish :
    (text_of : ℕ → List ℕ) (n : ℕ) (schedule : List (List ℕ))
    → AllFair (λ i. i < n) schedule
    → 3 * n < length schedule
    → AllReturned (rounds (crowd_turn (logger text_of)) schedule (logging_started n))
unfolding logging_started
all_loggers_finish text_of n schedule fair enough =
    rounds_done (crowd_turn (logger text_of)) (λ i. i < n) (IsGoing text_of n) AllReturned
      (record {
        work = work;
        keep = λ i c (h, m). (turn-IsOrderly text_of n i c h, length-turn (logger text_of) i c ∙ m);
        moves =
            λ i c h. elim (moves text_of i c) [ inl (_, same) ↦ inl same | inr less ↦ inr less ];
        stuck = λ c h same. all-stuck text_of n c h same;
        absent = λ i c (_, m). turn-absent (logger text_of) i n c m;
      })
      schedule (logging_started n) fair (omega (arith, needs-loggers (upto n), length-upto n))
      (started-IsOrderly text_of n, length-loggers (upto n) ∙ length-upto n)

-- If the texts of all loggers fit into the log together, more than three rounds for each logger,
-- in which every logger has a turn, in any order, lead to the return of all, and the log is the
-- texts of all loggers, each once, one after another in some order.
pub everything_logged :
    (text_of : ℕ → List ℕ) (n : ℕ) (schedule : List (List ℕ))
    → AllFair (λ i. i < n) schedule
    → 3 * n < length schedule
    → length (texts text_of (upto n)) < log_size
    → let c = rounds (crowd_turn (logger text_of)) schedule (logging_started n) in
      AllReturned c × HasAll text_of n c
everything_logged text_of n schedule fair enough small =
    rounds_end (crowd_turn (logger text_of)) AllReturned (HasAll text_of n) schedule
      (logging_started n) (λ order over. all_logged text_of n order small over)
      (all_loggers_finish text_of n schedule fair enough)
