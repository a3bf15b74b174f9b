-- ===== src/Examples/TimerCoroutine/Firings.antt =====
-- When the timers of examples/timer_coroutine.c fire, in every order of the turns.
use c_coroutine.Base.{
  ℕ, ◌+◌, ◌<◌, ◌≡◌, ◌≢◌, refl, sym, ap, ◌∙◌, List, [], ◌∷◌, none, some, arith, ltb, Bool-cases,
  get_or, set, get_or-set_self, get_or-set_ne, ℕ-cases, inl, inr, subst,
}
use c_coroutine.Examples.Crowd.{Crowd, crowd_turn, turn-cases, get_or-inside}
use c_coroutine.Examples.Turns.{turns}
use c_coroutine.Examples.TimerCoroutine.{
  TimerCfg, Timer, Fired, timer_coroutine, coroutines, started,
}
use c_coroutine.Examples.TimerCoroutine.Due.{
  is, occurrences, occurrences-other, Due, first, over, turn-Due,
}

-- The timers have the names of their places.
abbrev pub IsNamed : Crowd Timer Fired → Type 0
IsNamed c = (j : ℕ) → (t : Timer) → get_or c.locals j none ≡ some t → t.cfg.name ≡ j

-- A turn says at most the name of its own timer, which keeps it.
timer-keeps :
    (t : Timer) (fired : Fired)
    → let r = timer_coroutine t fired in
      ((t' : Timer) → r.0 ≡ some t' → t'.cfg.name ≡ t.cfg.name)
      × ((n : ℕ) → t.cfg.name ≢ n → occurrences n r.1 ≡ occurrences n fired)
unfolding timer_coroutine
timer-keeps t fired = elim (Bool-cases (ltb 0 t.remaining)) [
  | inl more ↦ rw (more, timer_coroutine) ((λ t' e. cc e), (λ n other. refl))
  | inr end ↦ elim (Bool-cases (ltb 0 t.cfg.period)) [
    | inl repeats ↦
        rw (end, repeats, timer_coroutine)
          ((λ t' e. cc e), (λ n other. occurrences-other n t.cfg.name fired other))
    | inr once ↦
        rw (end, once, timer_coroutine)
          ((λ t' e. cc e), (λ n other. occurrences-other n t.cfg.name fired other))
  ]
]

turn-IsNamed :
    (j : ℕ) (c : Crowd Timer Fired) → IsNamed c → IsNamed (crowd_turn timer_coroutine j c)
turn-IsNamed j c named = elim (turn-cases timer_coroutine j c) [
  | inl (_, same) ↦ rw same named
  | inr (t, here, e) ↦
      let r = timer_coroutine t c.shared in
      rw e (λ n t' there. elim (ℕ-cases j n) [
        | inl eq ↦
            (timer-keeps t c.shared).0 t' (
              sym (get_or-set_self c.locals j r.0 none (get_or-inside c.locals j here))
              ∙ ap (λ m. get_or (set c.locals j r.0) m none) eq
              ∙ there)
            ∙ named j t here
            ∙ eq
        | inr ne ↦ named n t' (sym (get_or-set_ne c.locals j n r.0 none ne) ∙ there)
      ])
]

none-Due : {cfg : TimerCfg} {k f : ℕ} → Due cfg k f none → Due cfg (k + 1) f none
none-Due (over z f late) = over z f (omega arith)

-- What the timer at a place keeps, after a turn of any of them.
resume-Due :
    (cfg : TimerCfg) (k j : ℕ) (c : Crowd Timer Fired)
    → IsNamed c
    → Due cfg k (occurrences cfg.name c.shared) (get_or c.locals cfg.name none)
    → let c' = crowd_turn timer_coroutine j c in
      Due cfg (k + is cfg.name j) (occurrences cfg.name c'.shared) (get_or c'.locals cfg.name none)
resume-Due cfg k j c named h = elim (ℕ-cases j cfg.name) [
  | inl own ↦
      let own_turn : is cfg.name j ≡ 1 = ground arith in
      elim (turn-cases timer_coroutine j c) [
        | inl (gone, same) ↦
            let gone' = ap (λ n. get_or c.locals n none) (sym own) ∙ gone in
            rw (own_turn, same, gone')
              (none-Due (subst (Due cfg k (occurrences cfg.name c.shared)) gone' h))
        | inr (t, here, e) ↦
            let r = timer_coroutine t c.shared in
            let here' = ap (λ n. get_or c.locals n none) (sym own) ∙ here in
            let stored =
              ap (λ n. get_or (set c.locals j r.0) n none) (sym own)
              ∙ get_or-set_self c.locals j r.0 none (get_or-inside c.locals j here) in
            rw (own_turn, e, stored)
              (turn-Due cfg k t c.shared
                (subst (Due cfg k (occurrences cfg.name c.shared)) here' h))
      ]
  | inr other ↦
      let no_turn : k + is cfg.name j ≡ k = ground arith in
      elim (turn-cases timer_coroutine j c) [
        | inl (_, same) ↦ rw (no_turn, same) h
        | inr (t, here, e) ↦
            let kept =
              get_or-set_ne c.locals j cfg.name (timer_coroutine t c.shared).0 none other in
            let unsaid =
              (timer-keeps t c.shared).1 cfg.name (λ eq. other (sym (named j t here) ∙ eq)) in
            rw (no_turn, e, kept, unsaid) h
      ]
]

after-Due :
    (cfg : TimerCfg) (schedule : List ℕ) (k : ℕ) (c : Crowd Timer Fired)
    → IsNamed c
    → Due cfg k (occurrences cfg.name c.shared) (get_or c.locals cfg.name none)
    → let c' = turns (crowd_turn timer_coroutine) schedule c in
      Due cfg
        (k + occurrences cfg.name schedule)
        (occurrences cfg.name c'.shared)
        (get_or c'.locals cfg.name none)
after-Due cfg [] k c named h = let e : k + 0 ≡ k = omega arith in rw e h
after-Due cfg (j ∷ schedule) k c named h =
    let e : k + (is cfg.name j + occurrences cfg.name schedule)
        ≡ k + is cfg.name j + occurrences cfg.name schedule =
      omega arith in
    rw e (
      after-Due cfg schedule (k + is cfg.name j) (crowd_turn timer_coroutine j c)
        (turn-IsNamed j c named) (resume-Due cfg k j c named h))

-- If timers are named by their places, then after any sequence of turns the timer at a place is
-- due by the number of its turns and of its firings: before it first fires, turns and remaining
-- ticks together are its ticks; a repeating one that has fired has less than a period remaining,
-- and turns and remaining ticks together are its ticks and a period for each firing; it has
-- returned only if its period is 0, having fired once.
pub fires_on_time :
    (cfgs : List TimerCfg) (cfg : TimerCfg)
    → IsNamed (started cfgs)
    → get_or (coroutines cfgs) cfg.name none ≡ some (record { cfg = cfg; remaining = cfg.ticks })
    → (schedule : List ℕ)
    → let c = turns (crowd_turn timer_coroutine) schedule (started cfgs) in
      Due cfg
        (occurrences cfg.name schedule)
        (occurrences cfg.name c.shared)
        (get_or c.locals cfg.name none)
unfolding started
fires_on_time cfgs cfg named here schedule =
    let c = turns (crowd_turn timer_coroutine) schedule (started cfgs) in
    let none_before : 0 + occurrences cfg.name schedule ≡ occurrences cfg.name schedule =
      omega arith in
    subst (λ k. Due cfg k (occurrences cfg.name c.shared) (get_or c.locals cfg.name none))
      none_before
      (after-Due cfg schedule 0 (started cfgs) named (rw here (first cfg.ticks refl (omega arith))))

Due-repeating : {cfg : TimerCfg} {k f : ℕ} → Due cfg k f none → cfg.period ≡ 0
Due-repeating (over z f late) = z

-- A timer with a period is never done, however often it has a turn.
pub repeating_never_returns :
    (cfgs : List TimerCfg) (cfg : TimerCfg)
    → IsNamed (started cfgs)
    → get_or (coroutines cfgs) cfg.name none ≡ some (record { cfg = cfg; remaining = cfg.ticks })
    → 0 < cfg.period
    → (schedule : List ℕ)
    → get_or (turns (crowd_turn timer_coroutine) schedule (started cfgs)).locals cfg.name none
      ≢ none
repeating_never_returns cfgs cfg named here repeats schedule gone =
    let c = turns (crowd_turn timer_coroutine) schedule (started cfgs) in
    absurd (
      omega (
        arith,
        Due-repeating (
            subst (Due cfg (occurrences cfg.name schedule) (occurrences cfg.name c.shared)) gone
              (fires_on_time cfgs cfg named here schedule)),
      ))
