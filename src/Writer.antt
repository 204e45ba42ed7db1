-- ===== src/Writer.antt =====
-- reload_queue.go and provider_watch.go: the writer goroutine over its two queues, the provider events
-- that fill them, and the callers that submit requests. One `Action` is one step of a goroutine, up to
-- the next select; a list of actions is an interleaving. A request runs in the step that takes it, so
-- what arrives while it runs comes after it in the list.
pub mod Log
mod Settled
pub mod Kept
pub mod Rounds
pub mod Ledger
pub mod Liveness
mod Tests
use fastconf.Base.{ℕ, Bool, true, false, ◌||◌, List, [], ◌∷◌, ◌++◌, ltb, if◌then◌else◌, length}

-- What happened to the requests and events, oldest first.
pub data Entry (R : Type 0) : Type 0 where
  queued : R → Entry R
  dropped : R → Entry R
  ignored : R → Entry R
  turned_away : R → Entry R
  ran : R → Entry R
  refused : R → Entry R
  refreshed : Entry R
  skipped : Entry R

-- Where the loop of `reloadLoop` stands: before the check of the lifetime, before the select that
-- prefers requests, in the blocking select, before the last select, or returned.
pub data Phase : Type 0 where
  at_check at_prefer at_wait at_tail returned : Phase

-- `token` is the content of `overflowResyncCh`, `paused` is `eventsPaused`, and `closed` says that the
-- lifetime is canceled.
pub record Loop (R : Type 0) : Type 0 where
  pub queue : List R
  pub token : Bool
  pub paused : Bool
  pub closed : Bool
  pub phase : Phase
  pub log : List (Entry R)

abbrev pub reload_chan_cap : ℕ
reload_chan_cap = 16

-- The case that the blocking select takes, when it is ready.
pub data Branch : Type 0 where
  on_done on_request on_token : Branch

pub data Action (R : Type 0) : Type 0 where
  event : R → Action R
  offer : R → Action R
  submit : R → Action R
  send : R → Action R
  write : Branch → Action R
  pause : Action R
  discard : Action R
  resume : Action R
  close : Action R

module _ {R : Type 0} where
  abbrev pub new_loop : Loop R
  new_loop = record {
    queue = [];
    token = false;
    paused = false;
    closed = false;
    phase = at_check;
    log = [];
  }

  abbrev pub note : Entry R → Loop R → Loop R
  note e s = record s { log = s.log ++ e ∷ [] }

  abbrev pub has_room : Loop R → Bool
  has_room s = ltb (length s.queue) reload_chan_cap

  abbrev pub enqueue : R → Loop R → Loop R
  enqueue r s = record s { queue = s.queue ++ r ∷ []; log = s.log ++ queued r ∷ [] }

  -- An event that finds no room leaves the token.
  abbrev pub drop_event : R → Loop R → Loop R
  drop_event r s = record s { token = true; log = s.log ++ dropped r ∷ [] }

  -- The select of `consumeProviderEvents`, which never waits.
  unfoldable pub offer_event : R → Loop R → Loop R
  offer_event r s = if has_room s then enqueue r s else drop_event r s

  -- The body of `consumeProviderEvents` for one event.
  unfoldable pub on_event : R → Loop R → Loop R
  unfolding offer_event
  on_event r s = if s.paused then note (ignored r) s else offer_event r s

  -- The select of `Pause`, after its store.
  unfoldable pub discard_token : Loop R → Loop R
  discard_token s = if s.token then record s { token = false; log = s.log ++ skipped ∷ [] } else s

  -- The send of `submitAndWait`: a caller that finds no room waits, or gives up.
  abbrev pub send_request : R → Loop R → Loop R
  send_request r s = if has_room s then enqueue r s else s

  -- `submitAndWait` up to the send.
  unfoldable pub submit_request : R → Loop R → Loop R
  submit_request r s = if s.closed then note (turned_away r) s else send_request r s

  -- `rejectPendingReloads`
  unfoldable pub reject_pending : List R → List (Entry R)
  reject_pending [] = []
  reject_pending (r ∷ q) = refused r ∷ reject_pending q

  abbrev pub finish : Loop R → Loop R
  finish s = record s { queue = []; phase = returned; log = s.log ++ reject_pending s.queue }

  -- The head of the queue is taken, and run unless the lifetime is over.
  abbrev pub serve : R → List R → Loop R → Loop R
  serve r q s = record s {
    queue = q;
    phase = at_tail;
    log = s.log ++ (if s.closed then refused r else ran r) ∷ [];
  }

  -- `runOverflowResync`, with its token taken
  unfoldable pub resync : Loop R → Loop R
  resync s = record s {
    token = false;
    phase = at_check;
    log = s.log ++ (if s.paused || s.closed then skipped else refreshed) ∷ [];
  }

  abbrev pub prefer_request : List R → Loop R → Loop R
  prefer_request [] s = record s { phase = at_wait }
  prefer_request (r ∷ q) s = serve r q s

  -- The blocking select: its chosen case if that is ready, else one that is; with none it waits.
  abbrev pub wait_for : Branch → Bool → List R → Bool → Loop R → Loop R
  wait_for on_done true q t s = finish s
  wait_for on_request c (r ∷ q) t s = serve r q s
  wait_for on_token c q true s = resync s
  wait_for b true q t s = finish s
  wait_for b false (r ∷ q) t s = serve r q s
  wait_for b false [] true s = resync s
  wait_for b false [] false s = s

  -- One step of `reloadLoop`.
  abbrev pub write_at : Phase → Branch → Loop R → Loop R
  write_at at_check b s = if s.closed then finish s else record s { phase = at_prefer }
  write_at at_prefer b s = prefer_request s.queue s
  write_at at_wait b s = wait_for b s.closed s.queue s.token s
  write_at at_tail b s = if s.token then resync s else record s { phase = at_check }
  write_at returned b s = s

  unfoldable pub write_step : Branch → Loop R → Loop R
  unfolding resync reject_pending
  write_step b s = write_at s.phase b s

  unfoldable pub act : Action R → Loop R → Loop R
  unfolding on_event offer_event submit_request write_step discard_token
  act (event r) s = on_event r s
  act (offer r) s = offer_event r s
  act (submit r) s = submit_request r s
  act (send r) s = send_request r s
  act (write b) s = write_step b s
  act pause s = record s { paused = true }
  act discard s = discard_token s
  act resume s = record s { paused = false }
  act close s = record s { closed = true }

  unfoldable pub act_all : List (Action R) → Loop R → Loop R
  unfolding act
  act_all [] s = s
  act_all (a ∷ l) s = act_all l (act a s)
