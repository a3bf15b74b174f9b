-- ===== src/Examples/Barrier/Progress.antt =====
-- All workers of examples/barrier.c pass the barrier.
use c_coroutine.Base.{
  ℕ, ◌+◌, ◌*◌, ◌<◌, ◌≡◌, refl, ap, ◌∙◌, List, Option, none, some, arith, get_or, ltb, Bool-cases,
  inl, inr, ◌⊎◌, length, length-replicate,
}
use c_coroutine.Examples.Crowd.{
  Crowd, crowd_turn, resume, turn-cases, total, total-set, total-replicate, total-nowhere,
  AllReturned, get_or-outside, length-turn, turn-absent,
}
use c_coroutine.Examples.Turns.{rounds, AllFair, rounds_done}
use c_coroutine.Examples.Barrier.{CoBarrier, cob_arrive, Worker, fresh, waiting, worker, started}
use c_coroutine.Examples.Barrier.Rendezvous.{
  before, Closed, IsMeeting, phases-of, waiting-IsMeeting, turn-IsMeeting, started-IsMeeting,
}

-- The turns that a worker needs, those in which the barrier is closed not counted.
abbrev needs : Option Worker → ℕ
needs none = 0
needs (some fresh) = 2
needs (some (waiting my_phase)) = 1

abbrev work : Crowd Worker CoBarrier → ℕ
work c = total needs c.locals

fresh-moves :
    (i : ℕ) (c : Crowd Worker CoBarrier)
    → get_or c.locals i none ≡ some fresh
    → work (resume worker i (some fresh) c) < work c
unfolding worker cob_arrive
fresh-moves i c e = elim (Bool-cases (ltb (c.shared.arrived + 1) c.shared.required)) [
  | inl less ↦
      rw (less, cob_arrive, worker)
        (omega (arith, total-set needs c.locals i (some (waiting c.shared.phase)) e))
  | inr last ↦ rw (last, cob_arrive, worker) (omega (arith, total-set needs c.locals i none e))
]

resume-moves :
    (n i : ℕ) (c : Crowd Worker CoBarrier) (l : Worker)
    → get_or c.locals i none ≡ some l
    → IsMeeting n c
    → (Closed n c × (before (some l) ≡ 0) × (resume worker i (some l) c ≡ c))
      ⊎ (work (resume worker i (some l) c) < work c)
resume-moves n i c fresh e h = inr (fresh-moves i c e)
resume-moves n i c (waiting p) e h =
    let z : p ≡ 0 = phases-of c.locals i h.remembered e in
    let e' : get_or c.locals i none ≡ some (waiting 0) = e ∙ ap (λ q. some (waiting q)) z in
    rw z (elim (waiting-IsMeeting n i c e' h) [
      | inl (closed, same) ↦ inl (closed, refl, same)
      | inr (_, next) ↦ inr (omega (arith, total-set needs c.locals i none e', ap work next))
    ])

moves :
    (n i : ℕ) (c : Crowd Worker CoBarrier)
    → IsMeeting n c
    → ((get_or c.locals i none ≡ none) ⊎ Closed n c × (before (get_or c.locals i none) ≡ 0))
        × (crowd_turn worker i c ≡ c)
      ⊎ (work (crowd_turn worker i c) < work c)
moves n i c h = elim (turn-cases worker i c) [
  | inl (e, same) ↦ inl (inl e, same)
  | inr (l, e, e') ↦ elim (resume-moves n i c l e h) [
    | inl (closed, z, same) ↦ inl (inr (closed, ap before e ∙ z), e' ∙ same)
    | inr less ↦ inr (rw e' less)
  ]
]

abbrev IsGoing : ℕ → Crowd Worker CoBarrier → Type 0
IsGoing n c = IsMeeting n c × (length c.locals ≡ n)

all-stuck :
    (n : ℕ) (c : Crowd Worker CoBarrier)
    → IsGoing n c
    → ((i : ℕ) → crowd_turn worker i c ≡ c)
    → AllReturned c
all-stuck n c (h, l) same =
    let blocked : (j : ℕ)
        → (get_or c.locals j none ≡ none) ⊎ Closed n c × (before (get_or c.locals j none) ≡ 0) =
      λ j. elim (moves n j c h) [
        | inl (b, _) ↦ b
        | inr less ↦ absurd (omega (arith, ap work (same j)))
      ] in
    let arrived : total before c.locals ≡ 0 =
      total-nowhere before c.locals
        (λ j. elim (blocked j) [ inl e ↦ ap before e | inr (_, z) ↦ z ]) in
    λ i. elim (blocked i) [
      | inl e ↦ e
      | inr (closed, _) ↦ elim closed.short [
        | inl none_at_all ↦ get_or-outside c.locals i (omega arith)
        | inr short ↦ absurd (omega (arith, closed.arrived, closed.everyone))
      ]
    ]

-- More than two rounds for each of the n workers on a barrier for n, in which every worker has a
-- turn, in any order, lead to the return of all.
pub all_pass :
    (n : ℕ) (schedule : List (List ℕ))
    → AllFair (λ i. i < n) schedule
    → 2 * n < length schedule
    → AllReturned (rounds (crowd_turn worker) schedule (started n))
unfolding started
all_pass n schedule fair enough =
    rounds_done (crowd_turn worker) (λ i. i < n) (IsGoing n) AllReturned
      (record {
        work = work;
        keep = λ i c (h, l). (turn-IsMeeting n i c h, length-turn worker i c ∙ l);
        moves =
            λ i c (h, _). elim (moves n i c h) [ inl (_, same) ↦ inl same | inr less ↦ inr less ];
        stuck = all-stuck n;
        absent = λ i c (_, l). turn-absent worker i n c l;
      })
      schedule (started n) fair (omega (arith, total-replicate needs n (some fresh)))
      (started-IsMeeting n, length-replicate n (some fresh))
