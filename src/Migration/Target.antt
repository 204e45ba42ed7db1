-- ===== src/Migration/Target.antt =====
-- How a run of a chain ends.
use fastconf.Migration.Stamped.{panics_at_nil, IsStamped, set_version-IsStamped}
use fastconf.Base.{
  ℕ, zero, suc, ◌≤◌, ◌≡◌, refl, ap, ◌∙◌, ◌⊎◌, inl, inr, true, false, Option, none, some, List, [],
  ◌∷◌, arith, Bool-cases, All, Result, ok, err, ◌>>=◌, >>=-eq-ok, Text, ok_eq, Option-cases,
  Result-cases,
}
use fastconf.Confmap.Value.{Fields, nil_obj, field}
use fastconf.Base.Int.{ℤ, ltℤ, eqℤ, eqℤ→eq}
use fastconf.Assembly.Sorting.{sort_stable}
use fastconf.Migration.{
  no_migration, apply_failed, out_of_steps, distance, applied, run_loop, settled, run_chain,
  meta_key, Outcome, returns, fails, panics, current_version, set_version, Migration, Step, Chain,
  RunError, find_from, chain_step, chain_loop, new_chain,
}

distance_zero : (a b : ℤ) → distance a b ≤ 0 → ltℤ a b ≡ false
unfolding ltℤ
distance_zero a b h = ground arith

distance-below : (a b t : ℤ) (f : ℕ) → ltℤ a b ≡ true → distance a t ≤ suc f → distance b t ≤ f
unfolding ltℤ
distance-below a b t f h d = ground arith

module _ {E : Type 0} where
  -- Every migration leads upwards.
  abbrev AreRising : List (Step E) → Type 0
  AreRising l = All (λ (s : Step E). ltℤ s.from s.to ≡ true) l

  step-AreRising :
      (i : ℕ) (done next : List (Step E)) (m : Migration E)
      → AreRising done
      → chain_step i done m ≡ ok next
      → AreRising next
  step-AreRising i done next m k h = elim (Option-cases m.apply) [
    | inl e ↦ cc (rw e at h)
    | inr (apply, e) ↦ elim (Bool-cases (ltℤ m.from m.to)) [
      | inl up ↦ elim (Option-cases (find_from m.from done)) [
        | inl f ↦ rw (← ok_eq (rw (e, up, f) at h)) (up, k)
        | inr (s, f) ↦ cc (rw (e, up, f) at h)
      ]
      | inr down ↦ cc (rw (e, down) at h)
    ]
  ]

  loop-AreRising :
      (i : ℕ) (done last : List (Step E)) (ms : List (Migration E))
      → AreRising done
      → chain_loop i done ms ≡ ok last
      → AreRising last
  unfolding chain_loop
  loop-AreRising i done last [] k h = rw (← ok_eq h) k
  loop-AreRising i done last (m ∷ ms) k h =
      let (next, here, rest) = >>=-eq-ok (chain_step i done m) _ h in
      loop-AreRising (suc i) next last ms (step-AreRising i done next m k here) rest

  chain-AreRising :
      (target : ℤ) (ms : List (Migration E)) (c : Chain E)
      → new_chain target ms ≡ ok c
      → AreRising c.by_from
  unfolding new_chain
  chain-AreRising target ms c h =
      let (steps, here, rest) =
        >>=-eq-ok (chain_loop 0 [] (sort_stable (λ a b. ltℤ a.from b.from) ms)) _ h in
      rw (← ok_eq rest) (
        loop-AreRising 0 [] steps (sort_stable (λ (a b : Migration E). ltℤ a.from b.from) ms) tt
          here)

  find_from-eq :
      (v : ℤ) (l : List (Step E)) (s : Step E)
      → AreRising l
      → find_from v l ≡ some s
      → (s.from ≡ v) × (ltℤ s.from s.to ≡ true)
  unfolding find_from
  find_from-eq v [] s k h = cc
  find_from-eq v (x ∷ l) s k h = elim (Bool-cases (eqℤ x.from v)) [
    | inl e ↦ let same : x ≡ s = cc (rw e at h) in rw (← same) (eqℤ→eq x.from v e, k.0)
    | inr e ↦ find_from-eq v l s k.1 (rw e at h)
  ]

  -- The migrations of the chain that begin below its target lead from a version and a tree to
  -- another one, each taking the tree that the one before it left.
  pub data Upgrades (c : Chain E) : ℤ → Fields → ℤ → Fields → Type 0 where
    done : (v : ℤ) → (m : Fields) → Upgrades c v m v m
    migrates :
        (s : Step E) (m next : Fields) (w : ℤ) (out : Fields)
        → find_from s.from c.by_from ≡ some s
        → ltℤ s.from c.target ≡ true
        → s.apply m ≡ ok next
        → Upgrades c s.to next w out
        → Upgrades c s.from m w out

  -- How the loop ends, from a version and a tree.
  abbrev pub LoopEnds : Chain E → ℤ → Fields → Result (RunError E) (ℤ × Fields) → Type 0
  LoopEnds c v m (ok (w, out)) = Upgrades c v m w out × (ltℤ w c.target ≡ false)
  LoopEnds c v m (err (no_migration w)) =
      (out : Fields) × Upgrades c v m w out
      × (ltℤ w c.target ≡ true)
      × (find_from w c.by_from ≡ none)
  LoopEnds c v m (err (apply_failed a b e)) =
      (out : Fields) × Upgrades c v m a out
      × ((s : Step E) × (find_from a c.by_from ≡ some s)
          × (ltℤ a c.target ≡ true)
          × (s.to ≡ b)
          × (s.apply out ≡ err e))
  LoopEnds c v m (err out_of_steps) = ⊥

  -- A migration goes before how the loop ends after it.
  LoopEnds-later :
      (c : Chain E) (s : Step E) (m next : Fields) (r : Result (RunError E) (ℤ × Fields))
      → find_from s.from c.by_from ≡ some s
      → ltℤ s.from c.target ≡ true
      → s.apply m ≡ ok next
      → LoopEnds c s.to next r
      → LoopEnds c s.from m r
  LoopEnds-later c s m next (ok (w, out)) found below runs (u, up) =
      (migrates s m next w out found below runs u, up)
  LoopEnds-later c s m next (err out_of_steps) found below runs h = absurd h
  LoopEnds-later c s m next (err (no_migration w)) found below runs (out, u, low, none') =
      (out, migrates s m next w out found below runs u, low, none')
  LoopEnds-later c s m next (err (apply_failed a b e)) found below runs (out, u, h) =
      (out, migrates s m next a out found below runs u, h)

  loop_done :
      (c : Chain E) (f : ℕ) (cur : ℤ) (m : Fields)
      → ltℤ cur c.target ≡ false
      → run_loop (suc f) c cur m ≡ ok (cur, m)
  unfolding run_loop
  loop_done c f cur m h = rw (h, run_loop) refl

  loop_stuck :
      (c : Chain E) (f : ℕ) (cur : ℤ) (m : Fields)
      → ltℤ cur c.target ≡ true
      → find_from cur c.by_from ≡ none
      → run_loop (suc f) c cur m ≡ err (no_migration cur)
  unfolding run_loop
  loop_stuck c f cur m h e = rw (h, e, run_loop) refl

  loop_step :
      (c : Chain E) (f : ℕ) (cur : ℤ) (m : Fields) (s : Step E)
      → ltℤ cur c.target ≡ true
      → find_from cur c.by_from ≡ some s
      → run_loop (suc f) c cur m ≡ (applied s (s.apply m) >>= λ next. run_loop f c s.to next)
  unfolding run_loop
  loop_step c f cur m s h e = rw (h, e, run_loop) refl

  step-LoopEnds :
      (c : Chain E) (f : ℕ) (cur : ℤ) (m : Fields) (s : Step E)
      → s.from ≡ cur
      → find_from cur c.by_from ≡ some s
      → ltℤ cur c.target ≡ true
      → ((next : Fields) → LoopEnds c s.to next (run_loop f c s.to next))
      → LoopEnds c cur m (applied s (s.apply m) >>= λ next. run_loop f c s.to next)
  step-LoopEnds c f cur m s from found below later =
      let found' : find_from s.from c.by_from ≡ some s =
        ap (λ v. find_from v c.by_from) from ∙ found in
      let below' : ltℤ s.from c.target ≡ true = ap (λ v. ltℤ v c.target) from ∙ below in
      rw (← from) (elim (Result-cases (s.apply m)) [
        | inl (next, runs) ↦
            rw runs
              (LoopEnds-later c s m next (run_loop f c s.to next) found' below' runs (later next))
        | inr (e, fails') ↦ rw fails' (m, done s.from m, (s, found', below', refl, fails'))
      ])

  loop-LoopEnds :
      (c : Chain E) (f : ℕ) (cur : ℤ) (m : Fields)
      → AreRising c.by_from
      → distance cur c.target ≤ f
      → LoopEnds c cur m (run_loop f c cur m)
  unfolding run_loop
  loop-LoopEnds c zero cur m k h =
      let up : ltℤ cur c.target ≡ false = distance_zero cur c.target h in rw up (done cur m, up)
  loop-LoopEnds c (suc f) cur m k h = elim (Bool-cases (ltℤ cur c.target)) [
    | inr up ↦ rw (loop_done c f cur m up) (done cur m, up)
    | inl low ↦ elim (Option-cases (find_from cur c.by_from)) [
      | inl e ↦ rw (loop_stuck c f cur m low e) (m, done cur m, low, e)
      | inr (s, e) ↦
          let (from, rise) = find_from-eq cur c.by_from s k e in
          let shorter : distance s.to c.target ≤ f =
            distance-below cur s.to c.target f (rw from at rise) h in
          rw (loop_step c f cur m s low e)
            (step-LoopEnds c f cur m s from e low (λ next. loop-LoopEnds c f s.to next k shorter))
    ]
  ]

  -- How `Run` ends, by the upgrades from the tree's version.
  abbrev pub RunEnds : (Text → Option ℤ) → Chain E → Fields → Outcome E → Type 0
  RunEnds integral c m (returns v out) =
      (ltℤ v c.target ≡ false)
      × (((v ≡ current_version integral m) × (out ≡ m))
          ⊎ ((ltℤ (current_version integral m) c.target ≡ true)
              × ((w : Fields) × Upgrades c (current_version integral m) m v w × IsStamped w v out)))
  RunEnds integral c m (fails e) = LoopEnds c (current_version integral m) m (err e)
  RunEnds integral c m panics =
      (v : ℤ) × (w : Fields) × Upgrades c (current_version integral m) m v w
      × (ltℤ v c.target ≡ false)
      × (field meta_key w ≡ some nil_obj)

  settled-RunEnds :
      (integral : Text → Option ℤ) (c : Chain E) (m : Fields) (r : Result (RunError E) (ℤ × Fields))
      → ltℤ (current_version integral m) c.target ≡ true
      → LoopEnds c (current_version integral m) m r
      → RunEnds integral c m (settled r)
  settled-RunEnds integral c m (err e) low h = h
  settled-RunEnds integral c m (ok (v, w)) low (u, up) = elim (Option-cases (set_version w v)) [
    | inl e ↦ rw e (v, w, u, up, panics_at_nil w v e)
    | inr (out, e) ↦ rw e (up, inr (low, (w, u, set_version-IsStamped w out v e)))
  ]

  -- For every chain that `NewChain` accepts and every tree, `Run` ends, in one of four ways. It
  -- returns the tree as it is, at its own version, which is not below the target. Or migrations of the
  -- chain that begin below the target lead from the tree and its version to a tree and a version that
  -- is not below it, and `Run` returns that version and that tree
  -- with the version stored at _meta.schemaVersion and all else kept. Or
  -- they lead to a version below the target, and it fails since the chain has no migration there, or
  -- since the one there fails on the tree they lead to. Or it panics, where they lead to a tree with a
  -- nil "_meta" map.
  pub run_chain-RunEnds :
      (integral : Text → Option ℤ) (target : ℤ) (ms : List (Migration E)) (c : Chain E) (m : Fields)
      → new_chain target ms ≡ ok c
      → RunEnds integral c m (run_chain integral c m)
  unfolding run_chain
  run_chain-RunEnds integral target ms c m h =
      elim (Bool-cases (ltℤ (current_version integral m) c.target)) [
        | inr up ↦ rw up (up, inl (refl, refl))
        | inl low ↦ rw low (
            settled-RunEnds integral c m
              (run_loop (distance (current_version integral m) c.target) c
                (current_version integral m) m)
              low
              (loop-LoopEnds c (distance (current_version integral m) c.target)
                (current_version integral m) m (chain-AreRising target ms c h) (ground arith)))
      ]
