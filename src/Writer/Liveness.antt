-- ===== src/Writer/Liveness.antt =====
-- The writer, left alone, serves all that is pending within a bounded number of steps.
use fastconf.Base.{
  ◌+◌, ◌-◌, ◌≤◌, ◌≡◌, refl, sym, ap, ◌∙◌, false, not, ◌||◌, List, [], ◌∷◌, map, arith, length,
}
use fastconf.Writer.{Loop, Action, Branch, act, act_all, write_step, new_loop, write}
use fastconf.Writer.Kept.{IsKept}
use fastconf.Writer.Ledger.{start-IsKept, acts-IsKept}
use fastconf.Writer.Log.{queued_in, ran_in}
use fastconf.Writer.Rounds.{
  refreshes, bit, left, is_returned, write-IsStep, weight-max, bit-max, bit_zero,
}
use fastconf.Writer.Settled.{acts-IsSettled}
use mathlib.Core.List.{append-nil}

module _ {R : Type 0} where
  -- The same over several steps.
  writes-IsStep :
      (bs : List Branch) (s : Loop R)
      → s.closed ≡ false
      → s.paused ≡ false
      → is_returned s.phase ≡ false
      → let t = act_all (map write bs) s in
        (left t ≤ left s - length bs)
        × (queued_in t.log ≡ queued_in s.log)
        × (refreshes t.log + bit t.token ≡ refreshes s.log + bit s.token)
        × (t.closed ≡ false)
  unfolding act_all act
  writes-IsStep [] s c p n = (ground arith, refl, refl, c)
  writes-IsStep (b ∷ bs) s c p n =
      let step = write-IsStep b s c p n in
      let (l, q, f, d) =
        writes-IsStep bs (write_step b s) (step.closed_same ∙ c) (step.paused_same ∙ p)
          step.working in
      (ground (arith, step.progress, l), q ∙ step.queued_same, f ∙ step.refresh_same, d)

  length_zero : (q : List R) → length q ≤ 0 → q ≡ []
  length_zero [] h = refl
  length_zero (r ∷ q) h = ground arith

  kept_catches_up :
      (bs : List Branch) (s : Loop R)
      → IsKept s
      → is_returned s.phase ≡ false
      → s.closed ≡ false
      → s.paused ≡ false
      → 71 ≤ length bs
      → let t = act_all (map write bs) s in
        (t.queue ≡ [])
        × (t.token ≡ false)
        × (ran_in t.log ≡ queued_in s.log)
        × (refreshes t.log ≡ refreshes s.log + bit s.token)
  kept_catches_up bs s kept w c p n =
      let t = act_all (map write bs) s in
      let after : IsKept t = acts-IsKept (map write bs) s kept in
      let (fewer, q, f, d) = writes-IsStep bs s c p w in
      let done : left t ≤ 0 =
        ground (arith, weight-max s.phase, bit-max s.token, kept.bounded, fewer) in
      let empty : t.queue ≡ [] = length_zero t.queue (ground (arith, done)) in
      let taken : t.token ≡ false = bit_zero t.token (ground (arith, done)) in
      let ran_all : queued_in t.log ≡ ran_in t.log =
        after.in_order
        ∙ rw (empty, after.open_runs d, append-nil (ran_in t.log)) (append-nil (ran_in t.log)) in
      (empty, taken, sym ran_all ∙ q, ground (arith, f, taken, ap bit taken))

  -- After every interleaving from the start that leaves the manager open and not paused, 71 steps of
  -- the writer with nothing arriving, whichever ready case its blocking selects take, run every queued
  -- request, in order, and the compensating reload if one is owed, just once; then both queues are
  -- empty.
  pub writer_catches_up :
      (l : List (Action R)) (bs : List Branch) (s t : Loop R)
      → s ≡ act_all l new_loop
      → s.closed ≡ false
      → s.paused ≡ false
      → 71 ≤ length bs
      → t ≡ act_all (map write bs) s
      → (t.queue ≡ [])
        × (t.token ≡ false)
        × (ran_in t.log ≡ queued_in s.log)
        × (refreshes t.log ≡ refreshes s.log + bit s.token)
  writer_catches_up l bs s t from c p n to = rw to (
      kept_catches_up bs s (rw from (start-IsKept l))
        (ground (
          arith,
          acts-IsSettled l new_loop refl,
          from,
          ap (λ (x : Loop R). not (is_returned x.phase) || x.closed) from,
          c,
        ))
        c p n)
