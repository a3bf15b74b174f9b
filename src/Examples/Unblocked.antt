-- ===== src/Examples/Unblocked.antt =====
-- Coroutines that never wait: each turn brings each of them closer to its end.
use c_coroutine.Base.{
  ℕ, ◌<◌, ◌≡◌, refl, ap, ◌∙◌, List, Option, none, some, arith, length, get_or, inl, inr, ◌⊎◌,
}
use c_coroutine.Examples.Crowd.{
  Crowd, Body, crowd_turn, turn-cases, total, total-set, AllReturned, length-turn, turn-absent,
}
use c_coroutine.Examples.Turns.{rounds, AllFair, rounds_done}

module _ {L U : Type 0} (body : Body L U) (needs : Option L → ℕ)
    (lowers : (l : L) (u : U) → needs (body l u).0 < needs (some l)) where
  turn-lowers :
      (i : ℕ) (c : Crowd L U)
      → (get_or c.locals i none ≡ none) × (crowd_turn body i c ≡ c)
        ⊎ (total needs (crowd_turn body i c).locals < total needs c.locals)
  turn-lowers i c = elim (turn-cases body i c) [
    | inl (gone, same) ↦ inl (gone, same)
    | inr (l, here, e) ↦ inr (
        rw e
          (omega (arith, lowers l c.shared, total-set needs c.locals i (body l c.shared).0 here)))
  ]

  -- More fair rounds than they need turns lead to their return.
  pub all_return :
      (schedule : List (List ℕ)) (c : Crowd L U)
      → AllFair (λ i. i < length c.locals) schedule
      → total needs c.locals < length schedule
      → AllReturned (rounds (crowd_turn body) schedule c)
  all_return schedule c fair enough =
      rounds_done (crowd_turn body) (λ i. i < length c.locals)
        (λ c'. length c'.locals ≡ length c.locals) AllReturned
        (record {
          work = λ c'. total needs c'.locals;
          keep = λ i c' n. length-turn body i c' ∙ n;
          moves =
              λ i c' n. elim (turn-lowers i c') [ inl (_, same) ↦ inl same | inr less ↦ inr less ];
          stuck = λ c' n same. λ i. elim (turn-lowers i c') [
            | inl (gone, _) ↦ gone
            | inr less ↦ absurd (omega (arith, ap (λ c''. total needs c''.locals) (same i)))
          ];
          absent = λ i c' n. turn-absent body i (length c.locals) c' n;
        })
        schedule c fair enough refl
