-- ===== src/Manager/Rollback.antt =====
-- Rollback: only a retained snapshot passes the check, and what is published is that snapshot's value.
use fastconf.Base.{
  ℕ, ◌+◌, ◌≡◌, refl, ap, ◌⊎◌, inl, inr, Bool, true, false, not, ◌&&◌, Option, none, some, List, [],
  ◌∷◌, arith, ◌==◌, Bool-cases, Option-cases, ==→eq, some_eq,
}
use fastconf.History.{Ring, find, find_in, snapshot}
use fastconf.Manager.{
  State, Manager, Attempt, check_rollback, apply_rollback, commit, commit_result,
}

-- The list holds the item.
abbrev pub Holds : {A : Type 0} → A → List A → Type 0
Holds x [] = ⊥
Holds x (y ∷ l) = (y ≡ x) ⊎ Holds x l

find_in-Holds :
    {A : Type 0} (test : A → Bool) (l : List (Option A)) (x : A)
    → find_in test l ≡ some x
    → Holds (some x) l × (test x ≡ true)
unfolding find_in
find_in-Holds test [] x h = cc
find_in-Holds test (none ∷ l) x h = let (a, b) = find_in-Holds test l x h in (inr a, b)
find_in-Holds test (some y ∷ l) x h = elim (Bool-cases (test y)) [
  | inl e ↦ let p : y ≡ x = some_eq (rw e at h) in (inl (ap some p), rw (← p) e)
  | inr e ↦ let (a, b) = find_in-Holds test l x (rw e at h) in (inr a, b)
]

-- The snapshots that a manager retains.
abbrev pub retained_states : {V : Type 0} → Option (Ring (State V)) → List (Option (State V))
retained_states none = []
retained_states (some r) = snapshot r

find-Holds :
    {V : Type 0} (test : State V → Bool) (h : Option (Ring (State V))) (s : State V)
    → find test h ≡ some s
    → Holds (some s) (retained_states h) × (test s ≡ true)
unfolding find
find-Holds test none s e = cc
find-Holds test (some r) s e = find_in-Holds test (snapshot r) s e

never_same : (fp : ℕ) → (not (fp == 0) && fp == 0) ≡ false
never_same fp = ground arith

module _ {V E : Type 0} where
  -- A rollback that passes the check: the manager retains a snapshot with the target's address and
  -- generation; the target's value and hash are published under the next generation; and the next
  -- reload with a live context runs the pipeline, whatever its inputs.
  pub rollback_restores :
      (m : Manager V E) (target : State V) (address : ℕ) (fp : ℕ) (a : Attempt V E)
      → check_rollback m target ≡ true
      → a.context_before ≡ none
      → ((s : State V) × Holds (some s) (retained_states m.history)
          × (s.address ≡ target.address)
          × (s.generation ≡ target.generation))
        × ((apply_rollback m target address).state
            ≡ some (record target { generation = m.gen + 1; address = address }))
        × ((apply_rollback m target address).gen ≡ m.gen + 1)
        × (commit (apply_rollback m target address) fp a
            ≡ commit_result (apply_rollback m target address) fp a a.pipeline)
  unfolding check_rollback apply_rollback commit
  rollback_restores m target address fp a h before =
      elim (Option-cases (find (λ s. s.generation == target.generation) m.history)) [
        | inl e ↦ cc (rw (e, check_rollback) at h)
        | inr (s, e) ↦
            let (held, found) = find-Holds _ m.history s e in
            (
              (s, held, ==→eq _ _ (rw (e, check_rollback) at h), ==→eq _ _ found),
              refl,
              refl,
              rw (before, never_same fp) refl,
            )
      ]
