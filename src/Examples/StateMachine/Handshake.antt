-- ===== src/Examples/StateMachine/Handshake.antt =====
-- The events that the coroutines of examples/state_machine.c take from the start of the handshake.
use c_coroutine.Base.{
  ℕ, ◌+◌, ◌<◌, ◌≤◌, ◌≡◌, refl, sym, ap, ◌∙◌, subst, Bool, true, false, List, [], ◌∷◌, ◌++◌, arith,
  length, replicate, lt→ltb, le→ltb,
}
use c_coroutine.Examples.Turns.{turns, turns-append}
use c_coroutine.Examples.StateMachine.{
  Event, evt_none, evt_syn, evt_syn_ack, evt_fin, evt_reset, evt_data, pop_event, Place, fresh,
  waiting, returned, Fsm, resume_closing, on_established, resume_established, on_syn_sent,
  resume_syn_sent, Action, resumes_syn_sent, resumes_established, resumes_closing, act,
}
use c_coroutine.Examples.StateMachine.Queue.{Queued, push_event-Queued, pop_event-Queued}

-- The events on which SYN_SENT stays.
abbrev pub ignored : Event → Bool
ignored evt_syn_ack = false
ignored evt_reset = false
ignored _ = true

abbrev pub AllIgnored : List Event → Type 0
AllIgnored [] = Unit {0}
AllIgnored (e ∷ es) = (ignored e ≡ true) × AllIgnored es

-- Where the coroutines are, the bytes, and the queued events.
pub record IsAt (syn_sent established closing : Place) (bytes : ℕ) (es : List Event) (s : Fsm)
    : Type 0 where
  pub first : s.syn_sent ≡ syn_sent
  pub second : s.established ≡ established
  pub third : s.closing ≡ closing
  pub transferred : s.bytes_transferred ≡ bytes
  pub queued : Queued s.queue es

on_syn_sent-ignored : (e : Event) (s : Fsm) → ignored e ≡ true → on_syn_sent e s ≡ s
unfolding on_syn_sent
on_syn_sent-ignored evt_none s h = refl
on_syn_sent-ignored evt_syn s h = refl
on_syn_sent-ignored evt_fin s h = refl
on_syn_sent-ignored evt_data s h = refl
on_syn_sent-ignored evt_syn_ack s h = cc h
on_syn_sent-ignored evt_reset s h = cc h

-- A resumption of SYN_SENT takes the oldest event.
syn_sent-takes :
    {p q : Place} {b : ℕ} (e : Event) (es : List Event) (s : Fsm)
    → IsAt waiting p q b (e ∷ es) s
    → (act resumes_syn_sent s ≡ on_syn_sent e (record s { queue = (pop_event s.queue).1 }))
      × IsAt waiting p q b es (record s { queue = (pop_event s.queue).1 })
unfolding act resume_syn_sent
syn_sent-takes e es s at =
    let (taken, rest) = pop_event-Queued (e ∷ es) at.queued in
    (
      rw (at.first, resume_syn_sent, taken)
          (ap (λ p. on_syn_sent e (record s { queue = (pop_event s.queue).1; syn_sent = p }))
            at.first),
      record {
        first = at.first;
        second = at.second;
        third = at.third;
        transferred = at.transferred;
        queued = rest;
      },
    )

resume-ignored :
    {p q : Place} {b : ℕ} (e : Event) (es : List Event) (s : Fsm)
    → ignored e ≡ true
    → IsAt waiting p q b (e ∷ es) s
    → IsAt waiting p q b es (act resumes_syn_sent s)
resume-ignored {p} {q} {b} e es s h at =
    let (run, taken) = syn_sent-takes e es s at in
    subst (IsAt waiting p q b es)
      (sym (run ∙ on_syn_sent-ignored e (record s { queue = (pop_event s.queue).1 }) h)) taken

-- SYN_SENT stays for as many resumptions as there are events that it does not know.
pub stays_waiting :
    {p q : Place} {b : ℕ} (es later : List Event) (s : Fsm)
    → AllIgnored es
    → IsAt waiting p q b (es ++ later) s
    → IsAt waiting p q b later (turns act (replicate (length es) resumes_syn_sent) s)
stays_waiting [] later s h at = at
stays_waiting (e ∷ es) later s (h, hs) at =
    stays_waiting es later (act resumes_syn_sent s) hs (resume-ignored e (es ++ later) s h at)

resume-acknowledged :
    {q : Place} {b : ℕ} (s : Fsm)
    → IsAt waiting fresh q b (evt_syn_ack ∷ []) s
    → IsAt returned waiting q b (evt_data ∷ []) (act resumes_syn_sent s)
unfolding on_syn_sent resume_established
resume-acknowledged {q} {b} s at =
    let (run, taken) = syn_sent-takes evt_syn_ack [] s at in
    let s1 = record s { queue = (pop_event s.queue).1 } in
    subst (IsAt returned waiting q b (evt_data ∷ [])) (sym run) (
      rw (on_syn_sent, at.second, resume_established)
        (record {
          first = refl;
          second = refl;
          third = at.third;
          transferred = at.transferred;
          queued = push_event-Queued [] evt_data taken.queued;
        }))

established-takes :
    {p q : Place} {b : ℕ} (e : Event) (es : List Event) (s : Fsm)
    → IsAt p waiting q b (e ∷ es) s
    → (act resumes_established s ≡ on_established e (record s { queue = (pop_event s.queue).1 }))
      × IsAt p waiting q b es (record s { queue = (pop_event s.queue).1 })
unfolding act resume_established
established-takes e es s at =
    let (taken, rest) = pop_event-Queued (e ∷ es) at.queued in
    (
      rw (at.second, resume_established, taken)
          (ap (λ p. on_established e (record s { queue = (pop_event s.queue).1; established = p }))
            at.second),
      record {
        first = at.first;
        second = at.second;
        third = at.third;
        transferred = at.transferred;
        queued = rest;
      },
    )

resume-block :
    {p q : Place} {b : ℕ} (s : Fsm)
    → b + 512 < 1024
    → IsAt p waiting q b (evt_data ∷ []) s
    → IsAt p waiting q (b + 512) (evt_data ∷ []) (act resumes_established s)
unfolding on_established
resume-block {p} {q} {b} s more at =
    let (run, taken) = established-takes evt_data [] s at in
    let test = lt→ltb (b + 512) 1024 more in
    subst (IsAt p waiting q (b + 512) (evt_data ∷ [])) (sym run) (
      rw (at.transferred, test, on_established)
        (record {
          first = at.first;
          second = at.second;
          third = at.third;
          transferred = refl;
          queued = push_event-Queued [] evt_data taken.queued;
        }))

resume-last_block :
    {p : Place} {b : ℕ} (s : Fsm)
    → 1024 ≤ b + 512
    → IsAt p waiting fresh b (evt_data ∷ []) s
    → IsAt p returned waiting (b + 512) (evt_fin ∷ []) (act resumes_established s)
unfolding on_established resume_closing
resume-last_block {p} {b} s last at =
    let (run, taken) = established-takes evt_data [] s at in
    let test = le→ltb (b + 512) 1024 last in
    subst (IsAt p returned waiting (b + 512) (evt_fin ∷ [])) (sym run) (
      rw (at.transferred, test, on_established, at.third, resume_closing)
        (record {
          first = at.first;
          second = refl;
          third = refl;
          transferred = ap (λ n. n + 512) at.transferred;
          queued = push_event-Queued [] evt_fin taken.queued;
        }))

resume-drained :
    {p q : Place} {b : ℕ} {es : List Event} (s : Fsm)
    → IsAt p q waiting b es s
    → IsAt p q returned b es (act resumes_closing s)
unfolding act resume_closing
resume-drained s at =
    rw (at.third, resume_closing)
      (record {
        first = at.first;
        second = at.second;
        third = refl;
        transferred = at.transferred;
        queued = at.queued;
      })

-- The resumptions that take a connection from SYN_SENT to its end, with `n` unknown events.
abbrev pub completing : ℕ → List Action
completing n =
    replicate n resumes_syn_sent
    ++ (resumes_syn_sent ∷ resumes_established ∷ resumes_established ∷ resumes_closing ∷ [])

-- If SYN_SENT waits, ESTABLISHED and CLOSING are not started, no bytes are transferred, and some
-- events, none of them SYN_ACK or RESET, stand before SYN_ACK at the end of the queue: as many
-- resumptions of SYN_SENT as there are such events leave it waiting, with SYN_ACK queued and
-- nothing transferred; one more, two of ESTABLISHED and one of CLOSING lead to the return of all
-- three, with 1024 bytes transferred and FIN queued.
pub handshake_needs :
    (es : List Event) (s : Fsm)
    → AllIgnored es
    → IsAt waiting fresh fresh 0 (es ++ (evt_syn_ack ∷ [])) s
    → IsAt waiting fresh fresh 0
        (evt_syn_ack ∷ [])
        (turns act (replicate (length es) resumes_syn_sent) s)
      × IsAt returned returned returned 1024 (evt_fin ∷ []) (turns act (completing (length es)) s)
handshake_needs es s h at =
    let stays = stays_waiting es (evt_syn_ack ∷ []) s h at in
    let s0 = turns act (replicate (length es) resumes_syn_sent) s in
    let s1 = act resumes_syn_sent s0 in
    let s2 = act resumes_established s1 in
    let s3 = act resumes_established s2 in
    let one = resume-acknowledged s0 stays in
    let two = resume-block s1 (omega arith) one in
    let three = resume-last_block s2 (omega arith) two in
    (
      stays,
      subst (IsAt returned returned returned 1024 (evt_fin ∷ []))
          (sym (
            turns-append act (replicate (length es) resumes_syn_sent)
              (resumes_syn_sent ∷ resumes_established ∷ resumes_established ∷ resumes_closing ∷ [])
              s))
          (resume-drained s3 three),
    )
