-- ===== src/Writer/Tests.antt =====
-- Runs and instances: seventeen events while the writer is away fill the queue and leave the token.
use fastconf.Base.{
  ℕ, ◌+◌, ◌≤◌, ◌≡◌, refl, ◌⊎◌, true, false, List, [], ◌∷◌, ◌++◌, map, arith, length, replicate,
  length-replicate,
}
use fastconf.Writer.{
  Loop, Action, Branch, act, act_all, write_step, new_loop, event, write, close, on_token, on_event,
  reload_chan_cap, offer_event,
}
use fastconf.Writer.Ledger.{nothing_lost}
use fastconf.Writer.Log.{queued_in, ran_in, refused_in, owed_after}
use fastconf.Writer.Liveness.{writer_catches_up}
use fastconf.Writer.Rounds.{refreshes, bit}

abbrev flood : List (Action ℕ)
flood = replicate 17 (event 4)

abbrev flooded : Loop ℕ
flooded = act_all flood new_loop

nothing_lost_example :
    (queued_in flooded.log ≡ (ran_in flooded.log ++ refused_in flooded.log) ++ flooded.queue)
    × ((refused_in flooded.log ≡ []) ⊎ (flooded.closed ≡ true))
    × (owed_after false flooded.log ≡ flooded.token)
    × (length flooded.queue ≤ reload_chan_cap)
nothing_lost_example = nothing_lost flood

flooded_token : flooded.token ≡ true
unfolding act_all act on_event offer_event
flooded_token = refl

abbrev steps : List Branch
steps = replicate 71 on_token

open_flood : (flooded.closed ≡ false) × (flooded.paused ≡ false)
unfolding act_all act on_event offer_event
open_flood = (refl, refl)

abbrev served : Loop ℕ
served = act_all (map write steps) flooded

writer_catches_up_example :
    (served.queue ≡ [])
    × (served.token ≡ false)
    × (ran_in served.log ≡ queued_in flooded.log)
    × (refreshes served.log ≡ refreshes flooded.log + bit flooded.token)
writer_catches_up_example =
    writer_catches_up flood steps flooded served refl open_flood.0 open_flood.1
      (ground (arith, length-replicate 71 on_token)) refl

closed_run : (act_all (event 4 ∷ close ∷ write on_token ∷ []) (new_loop {R = ℕ})).queue ≡ []
unfolding act_all act on_event offer_event write_step
closed_run = refl
