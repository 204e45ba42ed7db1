-- ===== src/Manager.antt =====
-- The writer of manager.go, reload.go, commit.go, reload_queue.go and history.go: one request at a
-- time, from the state and with what the sources, the pipeline and the context gave as inputs.
mod Tests
pub mod Invariant
pub mod Outcomes
pub mod Rollback
use fastconf.Base.{
  ℕ, ◌+◌, Bool, false, not, ◌&&◌, Option, none, some, List, [], ◌∷◌, ◌++◌, ltb, ◌==◌, if◌then◌else◌,
  length, Result, ok, err, drop, Text,
}
use fastconf.LayerCache.{Cache, MetaKeys}
use fastconf.History.{Ring, push_opt, find}

-- A published snapshot. Pointer equality of snapshots is equality of addresses; `hash` is the
-- canonical hash of the value.
pub record State (V : Type 0) : Type 0 where
  pub generation : ℕ
  pub hash : ℕ
  pub address : ℕ
  pub value : V

-- What assembling leaves for the next time: `layerCache` and `metaKeys`.
pub record Caches : Type 0 where
  pub layers : Cache
  pub merge_keys : MetaKeys

-- `fingerprint` is `publishedFingerprint`, 0 for the zero array; `errors` is the pending content of
-- `errorsCh`, oldest first; `commits` is what observers and subscribers were told, oldest first.
pub record Manager (V E : Type 0) : Type 0 where
  pub state : Option (State V)
  pub gen : ℕ
  pub history : Option (Ring (State V))
  pub fingerprint : ℕ
  pub errors : List E
  pub commits : List (Option (State V) × State V)
  pub scanned_dirs : List Text
  pub caches : Caches

-- One run of `reload`: the directories that assembling scanned and the caches as it leaves them,
-- also where it fails; the fingerprint of the assembled inputs, the context's error before and after
-- the pipeline, the pipeline's value and hash, and the address of a new snapshot.
pub record Attempt (V E : Type 0) : Type 0 where
  pub scanned_dirs : List Text
  pub caches : Caches
  pub assembled : Result E ℕ
  pub context_before : Option E
  pub pipeline : Result E (V × ℕ)
  pub context_after : Option E
  pub address : ℕ

abbrev pub errors_cap : ℕ
errors_cap = 16

abbrev pub pushed :
    {V : Type 0} → Option (State V) → Option (Ring (State V)) → Option (Ring (State V))
pushed none h = h
pushed (some prev) h = push_opt (some prev) h

abbrev pub same_hash : {V : Type 0} → Option (State V) → ℕ → Bool
same_hash none h = false
same_hash (some s) h = s.hash == h

abbrev pub hook_result : {E : Type 0} → Option E → Result E (Unit {0})
hook_result none = ok tt
hook_result (some e) = err e

module _ {V E : Type 0} where
  unfoldable pub publish_snapshot : Manager V E → State V → Manager V E
  publish_snapshot m next = record m {
    state = some next;
    history = pushed m.state m.history;
    commits = m.commits ++ (m.state, next) ∷ [];
  }

  -- `newCommittedState`, then publication
  unfoldable pub publish_new : Manager V E → ℕ → V → ℕ → ℕ → Manager V E
  unfolding publish_snapshot
  publish_new m fp v h address =
      publish_snapshot (record m { gen = m.gen + 1; fingerprint = fp })
        (record { generation = m.gen + 1; hash = h; address = address; value = v })

  -- The end of `commit`: an equal hash publishes nothing.
  unfoldable pub commit_value : Manager V E → ℕ → ℕ → V × ℕ → Manager V E
  unfolding publish_new
  commit_value m fp address (v, h) =
      if same_hash m.state h then record m { fingerprint = fp } else publish_new m fp v h address

  -- A context that has ended returns its error.
  abbrev pub live :
      Option E → Manager V E → Manager V E × Result E (Unit {0}) → Manager V E × Result E (Unit {0})
  live (some e) m k = (m, err e)
  live none m k = k

  -- The rest of `commit`, on what the pipeline returned.
  unfoldable pub commit_result :
      Manager V E → ℕ → Attempt V E → Result E (V × ℕ) → Manager V E × Result E (Unit {0})
  unfolding commit_value
  commit_result m fp a (err e) = (m, err e)
  commit_result m fp a (ok p) = live a.context_after m (commit_value m fp a.address p, ok tt)

  -- `commit`: identical inputs publish nothing and do not run the pipeline.
  unfoldable pub commit : Manager V E → ℕ → Attempt V E → Manager V E × Result E (Unit {0})
  unfolding commit_result
  commit m fp a =
      live a.context_before m (
        if not (fp == 0) && fp == m.fingerprint
        then (m, ok tt)
        else commit_result m fp a a.pipeline)

  abbrev pub reload_with :
      Manager V E → Attempt V E → Result E ℕ → Manager V E × Result E (Unit {0})
  reload_with m a (err e) = (m, err e)
  reload_with m a (ok fp) = commit m fp a

  -- What assembling changes, whatever it returns.
  abbrev pub gathered : Manager V E → Attempt V E → Manager V E
  gathered m a = record m { scanned_dirs = a.scanned_dirs; caches = a.caches }

  unfoldable pub reload : Manager V E → Attempt V E → Manager V E × Result E (Unit {0})
  unfolding commit
  reload m a = reload_with (gathered m a) a a.assembled

  -- The check of `Rollback`, on the caller's side.
  unfoldable pub check_rollback : Manager V E → State V → Bool
  check_rollback m target = elim (find (λ s. s.generation == target.generation) m.history) [
    | none ↦ false
    | some s ↦ s.address == target.address
  ]

  -- `applyRollback`: the target's value and hash under a new generation.
  unfoldable pub apply_rollback : Manager V E → State V → ℕ → Manager V E
  unfolding publish_snapshot
  apply_rollback m target address =
      publish_snapshot (record m { gen = m.gen + 1; fingerprint = 0 })
        (record target { generation = m.gen + 1; address = address })

  -- `publishReloadError`: the oldest pending error makes room.
  unfoldable pub publish_error : Manager V E → E → Manager V E
  publish_error m e = record m {
    errors = (if ltb (length m.errors) errors_cap then m.errors else drop 1 m.errors) ++ e ∷ [];
  }

-- A queued request: a reload, a rollback to a checked target, or a hook (Plan, a rejected option)
-- that returns an error or none, leaves the caches as given, and publishes nothing.
pub data Request (V E : Type 0) : Type 0 where
  to_reload : Attempt V E → Request V E
  to_rollback : State V → ℕ → Request V E
  to_hook : Option E → Caches → Request V E

module _ {V E : Type 0} where
  abbrev pub report : Manager V E × Result E (Unit {0}) → Manager V E
  report (m, ok _) = m
  report (m, err e) = publish_error m e

  -- The request's own work, once its context is known to be live.
  unfoldable pub run : Manager V E → Request V E → Manager V E × Result E (Unit {0})
  unfolding reload apply_rollback
  run m (to_reload a) = reload m a
  run m (to_rollback target address) = (apply_rollback m target address, ok tt)
  run m (to_hook e c) = (record m { caches = c }, hook_result e)

  -- `runReloadRequest`: a request whose context has ended is not run.
  unfoldable pub run_request : Manager V E → Option E → Request V E → Manager V E
  unfolding run publish_error
  run_request m (some e) req = report (m, err e)
  run_request m none req = report (run m req)

  -- The writer's requests in the order in which it takes them.
  unfoldable pub run_all : Manager V E → List (Option E × Request V E) → Manager V E
  unfolding run_request
  run_all m [] = m
  run_all m ((canceled, req) ∷ rest) = run_all (run_request m canceled req) rest
