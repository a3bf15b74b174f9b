-- ===== src/Examples/AsyncIo/Latency.antt =====
-- How long a request of examples/async_io.c takes.
use c_coroutine.Base.{
  ℕ, zero, suc, ◌+◌, ◌-◌, ◌≡◌, refl, sym, ap, ◌∙◌, List, [], ◌∷◌, Option, none, some, arith, true,
  false, not, ltb, if◌then◌else◌, get_or, Bool-cases, inl, inr,
}
use c_coroutine.Examples.AsyncIo.{
  IoOp, IoRequest, no_request, Io, submit_from, io_submit, advance, advance_all, io_tick, io_done,
}

-- The state after `n` ticks.
abbrev pub ticks : ℕ → Io → Io
ticks zero io = io
ticks (suc n) io = ticks n (io_tick io).1

get_or-advance_all :
    (slots : List IoRequest) (i : ℕ)
    → get_or (advance_all slots) i no_request ≡ advance (get_or slots i no_request)
unfolding advance_all
get_or-advance_all [] i = refl
get_or-advance_all (r ∷ slots) zero = refl
get_or-advance_all (r ∷ slots) (suc i) = get_or-advance_all slots i

abbrev number : ℕ → Option ℕ → ℕ
number d none = d
number d (some n) = n

-- A request that is submitted stands in its slot, and the others stay as they were.
submit-cases :
    (request : IoRequest) (i : ℕ) (slots : List IoRequest) (slot : ℕ)
    → (submit_from request i slots).0 ≡ some slot
    → (j : ℕ) × (slot ≡ i + j)
      × ((get_or slots j no_request).active ≡ false)
      × (get_or (submit_from request i slots).1 j no_request ≡ request)
unfolding submit_from
submit-cases request i [] slot e = ground (arith, e)
submit-cases request i (r ∷ slots) slot e = elim (Bool-cases r.active) [
  | inl taken ↦
      let later = submit_from request (i + 1) slots in
      let e0 : (submit_from request i (r ∷ slots)).0 ≡ later.0 = rw (taken, submit_from) refl in
      let e1 : (submit_from request i (r ∷ slots)).1 ≡ r ∷ later.1 = rw (taken, submit_from) refl in
      let (j, place, free, there) = submit-cases request (i + 1) slots slot (sym e0 ∙ e) in
      (suc j, omega arith, free, ap (λ xs. get_or xs (suc j) no_request) e1 ∙ there)
  | inr free ↦
      let e0 : (submit_from request i (r ∷ slots)).0 ≡ some i = rw (free, submit_from) refl in
      let e1 : (submit_from request i (r ∷ slots)).1 ≡ request ∷ slots =
        rw (free, submit_from) refl in
      (
        0,
        (let at : some slot ≡ some i = sym e ∙ e0 in ap (number i) at ∙ omega arith),
        free,
        ap (λ xs. get_or xs 0 no_request) e1,
      )
]

inactive-ticks :
    (n slot : ℕ) (io : Io)
    → (get_or io.io_queue slot no_request).active ≡ false
    → io_done slot (ticks n io) ≡ true
unfolding io_tick io_done
inactive-ticks zero slot io z = ap not z
inactive-ticks (suc n) slot io z =
    let r = get_or io.io_queue slot no_request in
    let same : advance r ≡ r =
      ap
        (λ b.
          if b
          then record r { ticks_left = r.ticks_left - 1; active = ltb 0 (r.ticks_left - 1) }
          else r)
        z in
    inactive-ticks n slot (io_tick io).1
      (ap (λ q. q.active) (get_or-advance_all io.io_queue slot ∙ same) ∙ z)

-- The ticks that a request of this latency takes.
abbrev pub ticks_of : ℕ → ℕ
ticks_of latency = if ltb 0 latency then latency else 1

-- An active request is done once its ticks are over.
active-ticks :
    (n slot : ℕ) (io : Io) (r : IoRequest)
    → get_or io.io_queue slot no_request ≡ r
    → r.active ≡ true
    → io_done slot (ticks n io) ≡ not (ltb n (ticks_of r.ticks_left))
unfolding io_tick io_done
active-ticks zero slot io r e a =
    let m : ltb 0 (ticks_of r.ticks_left) ≡ true = ground arith in
    ap (λ q. not q.active) e ∙ ap not a ∙ ap not (sym m)
active-ticks (suc n) slot io r e a =
    let next : advance r
        ≡ record r { ticks_left = r.ticks_left - 1; active = ltb 0 (r.ticks_left - 1) } =
      ap
        (λ b.
          if b
          then record r { ticks_left = r.ticks_left - 1; active = ltb 0 (r.ticks_left - 1) }
          else r)
        a in
    let there = get_or-advance_all io.io_queue slot ∙ ap advance e ∙ next in
    elim (Bool-cases (ltb 0 (r.ticks_left - 1))) [
      | inl going ↦
          let m : ltb n (ticks_of (r.ticks_left - 1)) ≡ ltb (suc n) (ticks_of r.ticks_left) =
            ground (arith, going) in
          active-ticks n slot (io_tick io).1
            (record r { ticks_left = r.ticks_left - 1; active = ltb 0 (r.ticks_left - 1) }) there
            going
          ∙ ap not m
      | inr over ↦
          let m : ltb (suc n) (ticks_of r.ticks_left) ≡ false = ground (arith, over) in
          inactive-ticks n slot (io_tick io).1 (ap (λ q. q.active) there ∙ over) ∙ ap not (sym m)
    ]

-- If io_submit returns a slot, the slot was not active, and after n ticks with no other request
-- the request is done exactly if n is not below its latency, or not below 1 if the latency is 0.
pub done_after :
    (kind : IoOp) (fd nbytes latency wid slot n : ℕ) (io : Io)
    → (io_submit kind fd nbytes latency wid io).0 ≡ some slot
    → ((get_or io.io_queue slot no_request).active ≡ false)
      × (io_done slot (ticks n (io_submit kind fd nbytes latency wid io).1)
          ≡ not (ltb n (ticks_of latency)))
unfolding io_submit
done_after kind fd nbytes latency wid slot n io e =
    let request : IoRequest = record {
      active = true;
      kind = kind;
      fd = fd;
      nbytes = nbytes;
      ticks_left = latency;
      worker_id = wid;
    } in
    let (j, place, free, there) = submit-cases request 0 io.io_queue slot e in
    let same : j ≡ slot = omega arith in
    (
      ap (λ k. (get_or io.io_queue k no_request).active) (sym same) ∙ free,
      active-ticks n slot (io_submit kind fd nbytes latency wid io).1 request
          (ap (λ k. get_or (submit_from request 0 io.io_queue).1 k no_request) (sym same) ∙ there)
          refl,
    )
