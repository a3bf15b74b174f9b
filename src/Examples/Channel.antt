-- ===== src/Examples/Channel.antt =====
-- examples/channel.c: a bounded channel between a producer and a consumer, each of which parks
-- itself in the channel when it has to wait. `co_self` is the name of the coroutine. It then calls
-- co_yield, which leaves it ready, so that it looks again at each of its turns; what `co_wake`, which
-- the repository does not have, adds to that is left open: any order of the turns is allowed.
pub mod Delivery
pub mod Wakeups
use c_coroutine.Base.{
  ℕ, zero, suc, ◌+◌, ◌-◌, List, [], ◌∷◌, ◌++◌, Option, none, some, Bool, true, false, ◌&&◌, not,
  get_or, ◌==◌, if◌then◌else◌,
}
use c_coroutine.Ring.{Ring, insert, remove, empty}

abbrev pub chan_cap : ℕ
chan_cap = 4

abbrev pub n_items : ℕ
n_items = 16

pub data Who : Type 0 where
  producer consumer : Who

pub record Chan : Type 0 where
  pub ring : Ring ℕ
  pub sender : Option Who
  pub receiver : Option Who
  pub closed : Bool

unfoldable pub chan_init : Chan
chan_init = record { ring = empty chan_cap 0; sender = none; receiver = none; closed = false }

-- A call of `chan_send` parks its caller and yields, aborts on a closed channel, or sends.
pub data Sent : Type 0 where
  parked : Chan → Sent
  aborted : Sent
  sent : Chan → Sent

unfoldable pub chan_send : Chan → ℕ → Sent
chan_send c v =
    if c.ring.size == chan_cap && not c.closed
    then parked (record c { sender = some producer })
    else if c.closed
    then aborted
    else sent (record c { ring = insert chan_cap v c.ring; receiver = none })

-- A call of `chan_recv` parks its caller and yields, finds the channel drained, or receives.
pub data Received : Type 0 where
  parked : Chan → Received
  drained : Received
  received : ℕ → Chan → Received

unfoldable pub chan_recv : Chan → Received
chan_recv c =
    if c.ring.size == 0 && not c.closed
    then parked (record c { receiver = some consumer })
    else if c.ring.size == 0
    then drained
    else received (get_or c.ring.slots c.ring.head 0)
        (record c { ring = remove chan_cap c.ring; sender = none })

unfoldable pub chan_close : Chan → Chan
chan_close c = record c { closed = true; receiver = none }

-- The channel, the items that the producer has yet to send, whether the consumer goes on (`none`
-- and false once they have returned), the values that are printed as received, and whether the
-- program has aborted.
pub record Demo : Type 0 where
  pub chan : Chan
  pub left : Option ℕ
  pub receiving : Bool
  pub got : List ℕ
  pub has_aborted : Bool

-- The producer with `left` items to send, up to its next yield.
unfoldable pub producer_run : (left : ℕ) → Demo → Demo
producer_run zero s = record s { chan = chan_close s.chan; left = none }
producer_run (suc left) s = elim (chan_send s.chan (n_items - suc left)) [
  | parked c ↦ record s { chan = c; left = some (suc left) }
  | aborted ↦ record s { has_aborted = true; left = some (suc left) }
  | sent c ↦ producer_run left (record s { chan = c; left = some left })
]

-- The consumer up to its next yield, for at most `fuel` receptions.
unfoldable pub consumer_run : (fuel : ℕ) → Demo → Demo
consumer_run zero s = s
consumer_run (suc fuel) s = elim (chan_recv s.chan) [
  | parked c ↦ record s { chan = c }
  | drained ↦ record s { receiving = false }
  | received v c ↦ consumer_run fuel (record s { chan = c; got = s.got ++ (v ∷ []) })
]

-- A turn of the consumer empties the channel, and then parks or returns.
abbrev pub producer_turn : Option ℕ → Demo → Demo
producer_turn none s = s
producer_turn (some left) s = producer_run left s

abbrev pub consumer_turn : Bool → Demo → Demo
consumer_turn false s = s
consumer_turn true s = consumer_run (s.chan.ring.size + 1) s

unfoldable pub turn : Who → Demo → Demo
turn producer s = if s.has_aborted then s else producer_turn s.left s
turn consumer s = if s.has_aborted then s else consumer_turn s.receiving s

unfoldable pub started : Demo
started = record {
  chan = chan_init;
  left = some n_items;
  receiving = true;
  got = [];
  has_aborted = false;
}
