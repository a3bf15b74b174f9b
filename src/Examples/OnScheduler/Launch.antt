-- ===== src/Examples/OnScheduler/Launch.antt =====
-- Coroutines with one body that are created one after another by co_create of src/coroutine.c.
use c_coroutine.Base.{
  ℕ, ◌+◌, ◌≤◌, ◌≡◌, ◌≢◌, refl, sym, ap, ap₂, ◌∙◌, subst, List, [], ◌∷◌, ◌++◌, append-nil,
  append_assoc, Option, none, some, has, true, false, ◌==◌, if◌then◌else◌, arith, length,
  length-append, length-take, replicate,
}
use c_coroutine.Runtime.Types.{
  Ptr, null, max_coroutines, Coroutine, World, ok, M, pure, ◌>>◌, and_then, update,
}
use c_coroutine.Runtime.Ops.{co_create}
use c_coroutine.Runtime.Spec.{View, create_view, fresh}
use c_coroutine.Runtime.Refine.Defs.{view}
use c_coroutine.Runtime.Invariant.Defs.{IsConsistent}
use c_coroutine.Runtime.Machine.Good.{IsGood}
use c_coroutine.Runtime.Boot.{co_create-IsGood}
use c_coroutine.Examples.OnScheduler.{local_of, locals_of}
use c_coroutine.Examples.OnScheduler.Locals.{locals_congr}

-- The addresses that `calloc` and `malloc` answer with, and those of the coroutines among them.
abbrev pub Memory : Type 0
Memory = List (Ptr × Ptr)

abbrev pub addresses : Memory → List Ptr
addresses [] = []
addresses ((p, _) ∷ mems) = p ∷ addresses mems

module _ {L : Type 0} where
  abbrev pub view_locals : View L → List (Option L)
  view_locals v = locals_of v.cell v.registered

  -- The loop of `main`, in which the argument counts up.
  unfoldable pub create_each : (fn arg : ℕ) → L → Memory → M L (Unit {0})
  create_each fn arg entry [] = pure tt
  create_each fn arg entry ((p, s) ∷ mems) = do
    co_create p s fn arg 0 entry
    create_each fn (arg + 1) entry mems

  -- What is documented of `calloc` and `malloc` where they succeed: the memory is not in use.
  abbrev pub AllFree : (Ptr → Option (Coroutine L)) → Memory → Type 0
  AllFree cell [] = Unit {0}
  AllFree cell ((p, s) ∷ mems) =
      (p ≢ null)
      × (s ≢ null)
      × (cell p ≡ none)
      × (has p (addresses mems) ≡ false)
      × AllFree cell mems

  AllFree-update :
      (cell : Ptr → Option (Coroutine L)) (p : Ptr) (x : Option (Coroutine L)) (mems : Memory)
      → has p (addresses mems) ≡ false
      → AllFree cell mems
      → AllFree (update cell p x) mems
  AllFree-update cell p x [] out f = tt
  AllFree-update cell p x ((q, s) ∷ mems) out (np, ns, free, apart, later) =
      let other : (q == p) ≡ false = ground (arith, out) in
      (
        np,
        ns,
        ap (λ b. if b then x else cell q) other ∙ free,
        apart,
        AllFree-update cell p x mems (ground (arith, out)) later,
      )

  locals_of-append :
      (cell : Ptr → Option (Coroutine L)) (ps qs : List Ptr)
      → locals_of cell (ps ++ qs) ≡ locals_of cell ps ++ locals_of cell qs
  locals_of-append cell [] qs = refl
  locals_of-append cell (p ∷ ps) qs =
      ap (λ ls. local_of (cell p) ∷ ls) (locals_of-append cell ps qs)

  -- A new coroutine keeps its entry, and no other changes.
  view_locals-create_view :
      {v : View L} (p s fn arg : ℕ) (entry : L)
      → IsConsistent v
      → v.cell p ≡ none
      → view_locals (create_view p s fn arg 0 entry v) ≡ view_locals v ++ (some entry ∷ [])
  view_locals-create_view {v} p s fn arg entry k free =
      let cell = (create_view p s fn arg 0 entry v).cell in
      let x : Option (Coroutine L) = some (fresh (length v.registered + 1) s fn arg 0 entry) in
      let here : (p == p) ≡ true = ground arith in
      let old : locals_of cell v.registered ≡ locals_of v.cell v.registered =
        locals_congr cell v.cell v.registered (λ a m.
          let apart : (a == p) ≡ false = ground (arith, k.allocated a m, free) in
          ap (λ b. local_of (if b then x else v.cell a)) apart) in
      locals_of-append cell v.registered (p ∷ [])
      ∙ ap₂ ◌++◌ old (ap (λ b. local_of (if b then x else v.cell p) ∷ []) here)

  -- The loop of creations succeeds in a good state with room for all.
  pub create_each_lem :
      (fn arg : ℕ) (entry : L) (mems : Memory) (w : World L)
      → fn ≢ 0
      → IsGood w
      → AllFree w.heap mems
      → w.count + length mems ≤ max_coroutines
      → (w' : World L) × (create_each fn arg entry mems w ≡ ok tt w')
        × IsGood w'
        × (view_locals (view w') ≡ view_locals (view w) ++ replicate (length mems) (some entry))
  unfolding create_each
  create_each_lem fn arg entry [] w nf g f room =
      (w, refl, g, sym (append-nil (view_locals (view w))))
  create_each_lem fn arg entry ((p, s) ∷ mems) w nf g (np, ns, free, apart, later) room =
      let (w1, e, g1, v) =
        co_create-IsGood p s fn arg 0 entry g nf (omega (arith, room)) np ns free in
      let x : Option (Coroutine L) =
        some (fresh (length (view w).registered + 1) s fn arg 0 entry) in
      let free' : AllFree w1.heap mems =
        subst (λ (u : View L). AllFree u.cell mems) (sym v)
          (AllFree-update w.heap p x mems apart later) in
      let grows =
        ap (λ (u : View L). length u.registered) v ∙ length-append (view w).registered (p ∷ []) in
      let before = length-take w.count w.all (omega (arith, g.sound)) in
      let after = length-take w1.count w1.all (omega (arith, g1.sound)) in
      let (w2, e2, g2, ls) =
        create_each_lem fn (arg + 1) entry mems w1 nf g1 free'
          (omega (arith, room, grows, before, after)) in
      (
        w2,
        ap (λ o. and_then o (λ _. create_each fn (arg + 1) entry mems)) e ∙ e2,
        g2,
        ls
            ∙ ap (λ xs. xs ++ replicate (length mems) (some entry))
                (ap view_locals v ∙ view_locals-create_view p s fn arg entry g.consistent free)
            ∙ append_assoc (view_locals (view w)) (some entry ∷ [])
                (replicate (length mems) (some entry)),
      )
