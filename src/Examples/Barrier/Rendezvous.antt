-- ===== src/Examples/Barrier/Rendezvous.antt =====
-- No worker of examples/barrier.c passes the barrier before all have reached it, and all pass.
use c_coroutine.Base.{
  ℕ, ◌+◌, ◌<◌, ◌≡◌, ◌≢◌, refl, sym, ap, ◌∙◌, List, Option, none, some, arith, get_or, ltb, ◌==◌,
  true, false, Bool-cases, inl, inr, ◌⊎◌, set,
}
use c_coroutine.Examples.Crowd.{
  Crowd, crowd_turn, resume, turn-cases, total, total-set, total-replicate, total-zero, set_same,
}
use c_coroutine.Examples.Turns.{turns, turns_keep}
use c_coroutine.Examples.Barrier.{
  CoBarrier, cob_init, cob_arrive, Worker, fresh, waiting, worker, started,
}

-- One for a worker that has not arrived, one for a worker in `cob_wait`, one for a worker that has
-- passed, and the phases that the waiting workers remember.
abbrev pub before : Option Worker → ℕ
before (some fresh) = 1
before _ = 0

abbrev inside : Option Worker → ℕ
inside (some (waiting my_phase)) = 1
inside _ = 0

abbrev pub passed : Option Worker → ℕ
passed none = 1
passed _ = 0

abbrev phases : Option Worker → ℕ
phases (some (waiting my_phase)) = my_phase
phases _ = 0

-- The barrier is closed, with all that have arrived in it.
pub record Closed (n : ℕ) (c : Crowd Worker CoBarrier) : Type 0 where
  pub phase : c.shared.phase ≡ 0
  pub arrived : c.shared.arrived ≡ total inside c.locals
  pub everyone : total before c.locals + total inside c.locals ≡ n
  pub nobody : total passed c.locals ≡ 0
  pub short : (n ≡ 0) ⊎ (c.shared.arrived < n)

-- The barrier has opened, and all have arrived.
pub record Opened (c : Crowd Worker CoBarrier) : Type 0 where
  pub phase : c.shared.phase ≡ 1
  pub nobody_before : total before c.locals ≡ 0

pub record IsMeeting (n : ℕ) (c : Crowd Worker CoBarrier) : Type 0 where
  pub required : c.shared.required ≡ n
  pub remembered : total phases c.locals ≡ 0
  pub side : Closed n c ⊎ Opened c

pub phases-of :
    (os : List (Option Worker)) (i : ℕ) {p : ℕ}
    → total phases os ≡ 0
    → get_or os i none ≡ some (waiting p)
    → p ≡ 0
phases-of os i h e = sym (ap phases e) ∙ total-zero phases os i h refl

-- A worker that waits goes on waiting, or passes.
pub waiting-IsMeeting :
    (n i : ℕ) (c : Crowd Worker CoBarrier)
    → get_or c.locals i none ≡ some (waiting 0)
    → IsMeeting n c
    → (Closed n c × (resume worker i (some (waiting 0)) c ≡ c))
      ⊎ IsMeeting n (resume worker i (some (waiting 0)) c)
        × (resume worker i (some (waiting 0)) c ≡ record c { locals = set c.locals i none })
unfolding worker
waiting-IsMeeting n i c e h = elim h.side [
  | inl closed ↦
      let test : (c.shared.phase == 0) ≡ true = ground (arith, closed.phase) in
      inl (closed, rw (test, worker) (ap (λ os. record c { locals = os }) (set_same c.locals i e)))
  | inr opened ↦
      let test : (c.shared.phase == 0) ≡ false = ground (arith, opened.phase) in
      inr (
        rw (test, worker)
            (record {
              required = h.required;
              remembered = omega (arith, total-set phases c.locals i none e, h.remembered);
              side = inr (record {
                phase = opened.phase;
                nobody_before =
                    omega (arith, total-set before c.locals i none e, opened.nobody_before);
              });
            }),
        rw (test, worker) refl,
      )
]

fresh-IsMeeting :
    (n i : ℕ) (c : Crowd Worker CoBarrier)
    → get_or c.locals i none ≡ some fresh
    → IsMeeting n c
    → IsMeeting n (resume worker i (some fresh) c)
unfolding worker cob_arrive
fresh-IsMeeting n i c e h = elim h.side [
  | inr opened ↦ absurd (omega (arith, total-set before c.locals i none e, opened.nobody_before))
  | inl closed ↦
      let some_before = total-set before c.locals i (some (waiting 0)) e in
      let some_inside = total-set inside c.locals i (some (waiting 0)) e in
      elim (Bool-cases (ltb (c.shared.arrived + 1) c.shared.required)) [
        | inl less ↦
            rw (less, closed.phase, cob_arrive, worker)
              (record {
                required = h.required;
                remembered =
                    omega (arith, total-set phases c.locals i (some (waiting 0)) e, h.remembered);
                side = inl (record {
                  phase = refl;
                  arrived = omega (arith, closed.arrived);
                  everyone = omega (arith, closed.everyone);
                  nobody =
                      omega
                        (arith, total-set passed c.locals i (some (waiting 0)) e, closed.nobody);
                  short = inr (ground (arith, less, h.required));
                });
              })
        | inr last ↦
            rw (last, cob_arrive, worker)
              (record {
                required = h.required;
                remembered = omega (arith, total-set phases c.locals i none e, h.remembered);
                side = inr (record {
                  phase = omega (arith, closed.phase);
                  nobody_before = ground (
                    arith,
                    last,
                    h.required,
                    closed.arrived,
                    closed.everyone,
                    total-set before c.locals i none e,
                  );
                });
              })
      ]
]

resume-IsMeeting :
    (n i : ℕ) (c : Crowd Worker CoBarrier) (l : Worker)
    → get_or c.locals i none ≡ some l
    → IsMeeting n c
    → IsMeeting n (resume worker i (some l) c)
resume-IsMeeting n i c fresh e h = fresh-IsMeeting n i c e h
resume-IsMeeting n i c (waiting p) e h =
    let z : p ≡ 0 = phases-of c.locals i h.remembered e in
    rw z (elim (waiting-IsMeeting n i c (rw (← z) e) h) [
      | inl (_, same) ↦ rw same h
      | inr (h', _) ↦ h'
    ])

pub turn-IsMeeting :
    (n i : ℕ) (c : Crowd Worker CoBarrier) → IsMeeting n c → IsMeeting n (crowd_turn worker i c)
turn-IsMeeting n i c h = elim (turn-cases worker i c) [
  | inl (_, same) ↦ rw same h
  | inr (l, e, e') ↦ rw e' (resume-IsMeeting n i c l e h)
]

pub started-IsMeeting : (n : ℕ) → IsMeeting n (started n)
unfolding started cob_init
started-IsMeeting n = record {
  required = refl;
  remembered = omega (arith, total-replicate phases n (some fresh));
  side = inl (record {
    phase = refl;
    arrived = omega (arith, total-replicate inside n (some fresh));
    everyone =
        omega (arith, total-replicate inside n (some fresh), total-replicate before n (some fresh));
    nobody = omega (arith, total-replicate passed n (some fresh));
    short = ground arith;
  });
}

-- After any sequence of turns, if some of the n workers on a barrier for n has not arrived, none
-- has passed it.
pub none_passes_early :
    (n : ℕ) (schedule : List ℕ)
    → let c = turns (crowd_turn worker) schedule (started n) in
      total before c.locals ≢ 0 → total passed c.locals ≡ 0
none_passes_early n schedule some_before =
    let c = turns (crowd_turn worker) schedule (started n) in
    let h : IsMeeting n c =
      turns_keep (crowd_turn worker) (IsMeeting n) (turn-IsMeeting n) schedule (started n)
        (started-IsMeeting n) in
    elim h.side [
      | inl closed ↦ closed.nobody
      | inr opened ↦ absurd (some_before opened.nobody_before)
    ]
