-- ===== src/Subscribe/Tests.antt =====
-- Runs and instances: a subscriber of one field over a publication and a rollback.
use fastconf.Base.{
  ℕ, ◌≡◌, refl, ◌↔◌, true, false, Option, none, some, List, [], ◌∷◌, ◌++◌, arith, ◌==◌, ok, ==→eq,
}
use fastconf.LayerCache.{empty_cache}
use fastconf.Manager.{State, Manager, Request, Caches, run_all, to_reload, to_rollback}
use fastconf.Subscribe.{Subscriber, Registry, subscribe, cancel, extracted, notify_commits}
use fastconf.Subscribe.Changes.{Leads, calls_of, subscriber-Leads}
use fastconf.Assembly.Sorting.{keep}

abbrev first_state : State ℕ
first_state = record { generation = 1; hash = 4; address = 100; value = 4 }

abbrev no_caches : Caches
no_caches = record {
  layers = empty_cache;
  merge_keys = record { sum = []; keys = []; is_set = false };
}

abbrev started : Manager ℕ ℕ
started = record {
  state = some first_state;
  gen = 1;
  history = some (record { cap = 2; items = none ∷ none ∷ []; head = 0; size = 0 });
  fingerprint = 3;
  errors = [];
  commits = [];
  scanned_dirs = [];
  caches = no_caches;
}

abbrev session : List (Option ℕ × Request ℕ ℕ)
session =
    (
      none,
      to_reload (record {
        scanned_dirs = [];
        caches = no_caches;
        assembled = ok 7;
        context_before = none;
        pipeline = ok (5, 9);
        context_after = none;
        address = 101;
      }),
    )
    ∷ (none, to_rollback first_state 102)
    ∷ []

abbrev whole : Subscriber ℕ ℕ
whole = record { id = 2; extract = some; equal = λ a b. a == b }

abbrev registry : Registry ℕ ℕ
registry = record {
  seq = 2;
  subscribers = record { id = 1; extract = λ v. none; equal = λ a b. a == b } ∷ whole ∷ [];
}

subscribe_run :
    subscribe (record { seq = 1; subscribers = [] }) some (λ a b. a == b)
    ≡ record { seq = 2; subscribers = whole ∷ [] }
unfolding subscribe
subscribe_run = refl

cancel_run : (cancel registry 1).subscribers ≡ whole ∷ []
unfolding cancel
cancel_run = refl

same_number : (a b : ℕ) → ((a == b) ≡ true) ↔ (a ≡ b)
same_number a b = (==→eq a b, λ e. ground (arith, e))

registered : keep (λ (t : Subscriber ℕ ℕ). t.id == 2) registry.subscribers ≡ whole ∷ []
unfolding keep
registered = refl

subscriber-Leads_example :
    (new : List (Option (State ℕ) × State ℕ)) × ((run_all started session).commits
      ≡ started.commits ++ new)
    × Leads
        (extracted whole started.state)
        (calls_of 2 (notify_commits registry new))
        (extracted whole (run_all started session).state)
subscriber-Leads_example = subscriber-Leads registry whole started session same_number registered
