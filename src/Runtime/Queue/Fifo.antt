-- ===== src/Runtime/Queue/Fifo.antt =====
-- The circular buffer of the scheduler behaves as a bounded first-in first-out queue.
use c_coroutine.Base.{
  ℕ, zero, suc, ◌+◌, ◌-◌, inl, inr, ℕ-cases, ◌%◌, ◌≤◌, ◌<◌, ◌≡◌, ◌≢◌, refl, ap, ap₂, ◌∙◌, List, [],
  ◌∷◌, ◌++◌, some, none, arith, ltb, false, length, get_or, set, length-set, get_or-set_self,
  get_or-set_ne,
}
use c_coroutine.Runtime.Types.{Ptr, null, queue_cap, RunQueue}
use c_coroutine.Runtime.Queue.{q_push, q_pop}

-- The `n` entries from index `h` on, the indices taken round the buffer.
abbrev pub window : List Ptr → ℕ → ℕ → List Ptr
window buf h zero = []
window buf h (suc n) = get_or buf (h % queue_cap) null ∷ window buf (h + 1) n

-- The queued pointers, oldest first.
abbrev pub contents : RunQueue → List Ptr
contents q = window q.queue q.q_head q.q_size

-- The indices stay in range, and the tail is `size` places behind the head.
pub record IsRing (q : RunQueue) : Type 0 where
  pub storage : length q.queue ≡ queue_cap
  pub head_in : q.q_head < queue_cap
  pub size_in : q.q_size ≤ queue_cap
  pub tail_at : q.q_tail ≡ (q.q_head + q.q_size) % queue_cap

pub length-window : (buf : List Ptr) (h n : ℕ) → length (window buf h n) ≡ n
length-window buf h zero = refl
length-window buf h (suc n) = ap suc (length-window buf (h + 1) n)

window-mod :
    (buf : List Ptr) (h k n : ℕ) → h % queue_cap ≡ k % queue_cap → window buf h n ≡ window buf k n
window-mod buf h k zero e = refl
window-mod buf h k (suc n) e =
    ap₂ ◌∷◌ (ap (λ i. get_or buf i null) e) (window-mod buf (h + 1) (k + 1) n (omega arith))

-- Writing just past a window extends it by the entry.
window-set :
    (buf : List Ptr) (x : Ptr) (n h i : ℕ)
    → length buf ≡ queue_cap
    → n < queue_cap
    → i ≡ (h + n) % queue_cap
    → window (set buf i x) h (suc n) ≡ window buf h n ++ (x ∷ [])
window-set buf x zero h i s hn e =
    let e' : i ≡ h % queue_cap = omega arith in
    rw (← e') (ap (λ (y : Ptr). y ∷ []) (get_or-set_self buf i x null (omega arith)))
window-set buf x (suc n) h i s hn e =
    ap₂ ◌∷◌ (get_or-set_ne buf i (h % queue_cap) x null (omega arith))
      (window-set buf x n (h + 1) i s (omega arith) (omega arith))

-- A push onto a queue that is not full succeeds, keeps the ring well formed, and appends.
pub q_push_fifo :
    (p : Ptr) {q : RunQueue}
    → IsRing q
    → q.q_size < queue_cap
    → (q' : RunQueue) × (q_push p q ≡ some q') × IsRing q' × (contents q' ≡ contents q ++ (p ∷ []))
unfolding q_push
q_push_fifo p {q} r h = (
  record {
    queue = set q.queue q.q_tail p;
    q_head = q.q_head;
    q_tail = (q.q_tail + 1) % queue_cap;
    q_size = q.q_size + 1;
  },
  ground arith,
  record {
    storage = length-set q.queue q.q_tail p ∙ r.storage;
    head_in = r.head_in;
    size_in = omega arith;
    tail_at = omega arith;
  },
  (let e : q.q_size + 1 ≡ suc q.q_size = omega arith in
      rw e (window-set q.queue p q.q_size q.q_head q.q_tail r.storage h r.tail_at)),
)

-- A push onto a full queue fails the assertion.
pub q_push-full : (p : Ptr) (q : RunQueue) → ltb q.q_size queue_cap ≡ false → q_push p q ≡ none
unfolding q_push
q_push-full p q e = rw e refl

-- The first-in first-out queue of the specification: the oldest entry, null if there is none.
abbrev pub pop_front : List Ptr → Ptr × List Ptr
pop_front [] = (null, [])
pop_front (p ∷ ps) = (p, ps)

window_front :
    (buf : List Ptr) (h n : ℕ)
    → h < queue_cap
    → n ≢ 0
    → window buf h n ≡ get_or buf h null ∷ window buf ((h + 1) % queue_cap) (n - 1)
window_front buf h zero hh ne = absurd (ne refl)
window_front buf h (suc n) hh ne =
    ap₂ (λ i ps. get_or buf i null ∷ ps) (omega arith)
      (let e : suc n - 1 ≡ n = omega arith in
        rw e (window-mod buf (h + 1) ((h + 1) % queue_cap) n (omega arith)))

-- A pop takes the oldest entry, or null of an empty queue, and keeps the ring well formed.
pub q_pop_fifo :
    {q : RunQueue}
    → IsRing q
    → IsRing (q_pop q).1
      × ((q_pop q).0 ≡ (pop_front (contents q)).0)
      × (contents (q_pop q).1 ≡ (pop_front (contents q)).1)
unfolding q_pop
q_pop_fifo {q} r = elim (ℕ-cases q.q_size 0) [
  | inl e ↦ ground arith
  | inr ne ↦ ground (arith, window_front q.queue q.q_head q.q_size)
]
