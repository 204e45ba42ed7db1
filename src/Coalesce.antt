-- ===== src/Coalesce.antt =====
-- internal/coalesce: bursts of events per key, flushed by a timer, by the next event past the
-- deadline, or dropped by Stop. Times are nanoseconds; one `Push` reads the clock once. `calls` is
-- what `fn` was called with, in the order in which bursts are taken out under the lock.
pub mod Groups
pub mod Delivery
pub mod Deadline
pub mod Reasons
pub mod Windows
mod Tests
use fastconf.Base.{
  ℕ, zero, suc, ◌+◌, ◌-◌, ◌*◌, min, Bool, true, false, not, ◌||◌, Option, none, some, List, [], ◌∷◌,
  ◌++◌, ltb, leb, ◌==◌, if◌then◌else◌, length, Text, text_eq, join,
}
use fastconf.Base.Dict
use fastconf.Base.Dict.{Dict}

-- A duration that is not positive is 0.
pub record Options : Type 0 where
  pub quiet : ℕ
  pub max_lag : ℕ
  pub swap_hint : ℕ

abbrev pub millisecond : ℕ
millisecond = 1000000

abbrev pub or_default : ℕ → ℕ → ℕ
or_default zero d = d
or_default (suc n) d = suc n

unfoldable pub normalize : Options → Options
normalize o =
    let quiet = or_default o.quiet (30 * millisecond) in
    record {
      quiet = quiet;
      max_lag = or_default o.max_lag (250 * millisecond);
      swap_hint = min (or_default o.swap_hint (5 * millisecond)) quiet;
    }

-- `identity` tells bursts apart, as their addresses do; `fires_at` is when the timer goes off.
pub record Burst : Type 0 where
  pub identity : ℕ
  pub deadline : ℕ
  pub reasons : List Text
  pub swap_seen : Bool
  pub fires_at : ℕ

pub record Coalescer : Type 0 where
  pub opts : Options
  pub bursts : Dict Burst
  pub stopped : Bool
  pub next_identity : ℕ
  pub calls : List (Text × Text)

unfoldable pub new_coalescer : Options → Coalescer
unfolding normalize
new_coalescer o = record {
  opts = normalize o;
  bursts = [];
  stopped = false;
  next_identity = 0;
  calls = [];
}

abbrev pub window_of : Options → Bool → ℕ
window_of o swap = if swap then o.swap_hint else o.quiet

-- The first event of a burst.
unfoldable pub seed : Coalescer → ℕ → Text → Text → Bool → Coalescer
seed c now key reason swap = record c {
  next_identity = c.next_identity + 1;
  bursts =
      Dict.put key
        (record {
          identity = c.next_identity;
          deadline = now + c.opts.max_lag;
          reasons = reason ∷ [];
          swap_seen = swap;
          fires_at = now + min (window_of c.opts swap) c.opts.max_lag;
        })
        c.bursts;
}

-- A further event of a burst whose deadline is ahead.
unfoldable pub extend : Options → Burst → ℕ → Text → Bool → Burst
extend o b now reason swap =
    let grown = record b { reasons = b.reasons ++ reason ∷ [] } in
    let window = min o.quiet (b.deadline - now) in
    if swap
    then record grown { swap_seen = true; fires_at = now + min o.swap_hint (b.deadline - now) }
    else if b.swap_seen
    then grown
    else if ltb 0 window
    then record grown { fires_at = now + window }
    else grown

abbrev pub has_text : Text → List Text → Bool
has_text s [] = false
has_text s (x ∷ xs) = text_eq x s || has_text s xs

-- The loop of `joinUnique`, with what was seen so far.
unfoldable pub unique_from : List Text → List Text → List Text
unique_from seen [] = []
unique_from seen (s ∷ l) =
    let dropped = unique_from seen l in
    let kept = unique_from (s ∷ seen) l in if has_text s seen then dropped else s ∷ kept

-- The reason that `fn` is called with.
unfoldable pub join_unique : List Text → Text
unfolding unique_from
join_unique l = if leb (length l) 1 then join b',' l else join b',' (unique_from [] l)

-- A burst with reasons is handed to `fn`, each reason once.
abbrev pub call : Text → List Text → List (Text × Text) → List (Text × Text)
call key [] calls = calls
call key (r ∷ rs) calls = calls ++ (key, join_unique (r ∷ rs)) ∷ []

abbrev pub push_burst : Coalescer → ℕ → Text → Text → Bool → Option Burst → Coalescer
push_burst c now key reason swap none = seed c now key reason swap
push_burst c now key reason swap (some b) =
    if leb b.deadline now
    then seed (record c { bursts = Dict.remove key c.bursts; calls = call key b.reasons c.calls })
        now key reason swap
    else record c { bursts = Dict.put key (extend c.opts b now reason swap) c.bursts }

-- `Push`
unfoldable pub push_event : Coalescer → ℕ → Text → Text → Bool → Coalescer
unfolding seed extend
push_event c now key reason swap =
    if c.stopped then c else push_burst c now key reason swap (Dict.get key c.bursts)

abbrev pub flush_burst : Coalescer → Text → ℕ → Option Burst → Coalescer
flush_burst c key self none = c
flush_burst c key self (some b) =
    if not (b.identity == self) || c.stopped
    then c
    else record c { bursts = Dict.remove key c.bursts; calls = call key b.reasons c.calls }

-- `flush`, the callback of the timer of the burst `self`
unfoldable pub flush : Coalescer → Text → ℕ → Coalescer
flush c key self = flush_burst c key self (Dict.get key c.bursts)

unfoldable pub stop : Coalescer → Coalescer
stop c = record c { stopped = true; bursts = [] }

pub data Event : Type 0 where
  pushes : ℕ → Text → Text → Bool → Event
  fires : Text → ℕ → Event
  stops : Event

unfoldable pub step : Coalescer → Event → Coalescer
unfolding push_event flush stop
step c (pushes now key reason swap) = push_event c now key reason swap
step c (fires key self) = flush c key self
step c stops = stop c

unfoldable pub run_events : Coalescer → List Event → Coalescer
unfolding step
run_events c [] = c
run_events c (e ∷ es) = run_events (step c e) es
