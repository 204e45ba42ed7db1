-- ===== src/Coalesce/Tests.antt =====
-- Runs and instances: two pushes within one window, a swap, and a timer.
use fastconf.Base.{◌≡◌, refl, true, false, List, [], ◌∷◌, ◌++◌, arith, codes, text_eq, join, Text}
use fastconf.Base.Dict
use fastconf.Base.Dict.{Dict}
use fastconf.Coalesce.{
  Options, Burst, Coalescer, Event, new_coalescer, pushes, fires, run_events, join_unique,
}
use fastconf.Coalesce.Groups.{pending, arriving, flat, AreFilled, delivered, AreJoined}
use fastconf.Coalesce.Delivery.{reasons_kept}
use fastconf.Coalesce.Deadline.{bare-IsPunctual, IsPunctual, lag_bounded}

abbrev windows : Options
windows = record { quiet = 30; max_lag = 250; swap_hint = 5 }

abbrev fresh : Coalescer
fresh = record { opts = windows; bursts = []; stopped = false; next_identity = 0; calls = [] }

fresh-new : new_coalescer windows ≡ fresh
unfolding new_coalescer
fresh-new = refl

-- The second push extends the first burst, whose timer then goes off; a third one starts another.
abbrev day : List Event
day =
    pushes 100 (codes "a") (codes "write") false
    ∷ pushes 110 (codes "a") (codes "chmod") false
    ∷ fires (codes "a") 0
    ∷ pushes 200 (codes "a") (codes "write") false
    ∷ []

day_run : (run_events fresh day).calls ≡ (codes "a", codes "write,chmod") ∷ []
unfolding run_events Dict.get Dict.put Dict.remove text_eq join_unique join
day_run = refl

reasons_kept_example :
    (gs : List (List Text)) × (reasons : List Text) × (pending (codes "a") fresh
        ++ arriving (codes "a") day
      ≡ flat gs ++ pending (codes "a") (run_events fresh day))
    × AreFilled gs
    × (delivered (codes "a") (run_events fresh day).calls
        ≡ delivered (codes "a") fresh.calls ++ reasons)
    × AreJoined gs reasons
reasons_kept_example = reasons_kept fresh day (codes "a") refl tt

lag_bounded_example : IsPunctual 300 (run_events fresh day)
lag_bounded_example =
    lag_bounded fresh day 50 300 (bare-IsPunctual fresh 50 refl)
      (omega arith, (omega arith, (omega arith, omega arith)))

abbrev swapped : Burst
swapped = record {
  identity = 0;
  deadline = 350;
  reasons = codes "swap" ∷ [];
  swap_seen = true;
  fires_at = 105;
}

join_unique_run : join_unique (codes "a" ∷ codes "b" ∷ codes "a" ∷ []) ≡ codes "a,b"
unfolding join_unique join text_eq
join_unique_run = refl
