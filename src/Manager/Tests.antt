-- ===== src/Manager/Tests.antt =====
-- Runs and instances: a manager that publishes, fails, skips and rolls back.
use fastconf.Base.{
  ℕ, ◌≡◌, refl, sym, ap, false, Option, none, some, List, [], ◌∷◌, ◌++◌, map, arith, ok, err,
  some_eq, codes,
}
use fastconf.History.{Ring, new_ring, snapshot, push, find}
use fastconf.History.Window.{push_all, keep_last, history_window}
use fastconf.Manager.{
  State, Manager, Attempt, Request, Caches, reload, run_all, to_reload, to_rollback, check_rollback,
  apply_rollback, commit, commit_result,
}
use fastconf.Manager.Rollback.{Holds, retained_states, rollback_restores}
use fastconf.Manager.Outcomes.{reload_settles}
use fastconf.LayerCache.{empty_cache}
use fastconf.Manager.Invariant.{Told, IsConsistent, run_all-Told, run_all-IsConsistent}

abbrev small_ring : Ring ℕ
small_ring = record { cap = 2; items = none ∷ none ∷ []; head = 0; size = 0 }

small_ring-new : new_ring 2 ≡ some small_ring
unfolding new_ring
small_ring-new = refl

window_run : snapshot (push_all (7 ∷ 8 ∷ 9 ∷ []) small_ring) ≡ some 8 ∷ some 9 ∷ []
unfolding snapshot push
window_run = refl

history_window_example :
    snapshot (push_all (7 ∷ 8 ∷ 9 ∷ []) small_ring) ≡ keep_last 2 (map some (7 ∷ 8 ∷ 9 ∷ []))
history_window_example = history_window 2 (7 ∷ 8 ∷ 9 ∷ []) small_ring small_ring-new

abbrev first_state : State ℕ
first_state = record { generation = 1; hash = 11; address = 100; value = 5 }

abbrev no_caches : Caches
no_caches = record {
  layers = empty_cache;
  merge_keys = record { sum = []; keys = []; is_set = false };
}

-- A manager after its first load.
abbrev started : Manager ℕ ℕ
started = record {
  state = some first_state;
  gen = 1;
  history = some (record { cap = 2; items = none ∷ none ∷ []; head = 0; size = 0 });
  fingerprint = 21;
  errors = [];
  commits = (none, first_state) ∷ [];
  scanned_dirs = [];
  caches = no_caches;
}

abbrev good_attempt : Attempt ℕ ℕ
good_attempt = record {
  scanned_dirs = codes "base" ∷ [];
  caches = no_caches;
  assembled = ok 22;
  context_before = none;
  pipeline = ok (6, 12);
  context_after = none;
  address = 101;
}

abbrev bad_attempt : Attempt ℕ ℕ
bad_attempt = record good_attempt { pipeline = err 3 }

abbrev published : Manager ℕ ℕ
published = (reload started good_attempt).0

published_run : reload started good_attempt ≡ (published, ok tt)
unfolding reload
published_run = refl

-- The pipeline would give another value, of another hash.
abbrev again : Attempt ℕ ℕ
again = record good_attempt { pipeline = ok (8, 13); scanned_dirs = [] }

reload_settles_example :
    reload published again ≡ (record published { scanned_dirs = []; caches = no_caches }, ok tt)
reload_settles_example =
    reload_settles started published good_attempt again 22 refl refl published_run refl refl

-- A reload, a canceled one, a failing one and a rollback.
abbrev session : List (Option ℕ × Request ℕ ℕ)
session =
    (none, to_reload good_attempt)
    ∷ (some 1, to_reload good_attempt)
    ∷ (none, to_reload bad_attempt)
    ∷ (none, to_rollback first_state 102)
    ∷ []

session_run : (run_all started session).gen ≡ 3
unfolding run_all
session_run = refl

run_all-Told_example :
    (new : List (Option (State ℕ) × State ℕ)) × ((run_all started session).commits
      ≡ started.commits ++ new)
    × Told started.state started.gen new
        (run_all started session).state
        (run_all started session).gen
run_all-Told_example = run_all-Told started session

started-IsConsistent : IsConsistent started
unfolding snapshot
started-IsConsistent = record {
  current = λ s e. ap (λ (x : State ℕ). x.generation) (sym (some_eq e));
  retained = (
    record {
      slots = refl;
      open_cap = omega arith;
      head_fits = omega arith;
      size_fits = omega arith;
    },
    omega arith,
  );
}

run_all-IsConsistent_example : IsConsistent (run_all started session)
run_all-IsConsistent_example = run_all-IsConsistent started session started-IsConsistent

-- The session's manager retains the first snapshot.
abbrev moved : Manager ℕ ℕ
moved = record started {
  state = some (record { generation = 2; hash = 12; address = 101; value = 6 });
  gen = 2;
  history = some (record { cap = 2; items = some first_state ∷ none ∷ []; head = 0; size = 1 });
}

rollback_restores_example :
    ((s : State ℕ) × Holds (some s) (retained_states moved.history)
      × (s.address ≡ 100)
      × (s.generation ≡ 1))
    × ((apply_rollback moved first_state 102).state
        ≡ some (record first_state { generation = 3; address = 102 }))
    × ((apply_rollback moved first_state 102).gen ≡ 3)
    × (commit (apply_rollback moved first_state 102) 22 good_attempt
        ≡ commit_result
            (apply_rollback moved first_state 102)
            22
            good_attempt
            good_attempt.pipeline)
unfolding check_rollback find snapshot
rollback_restores_example = rollback_restores moved first_state 102 22 good_attempt refl refl
