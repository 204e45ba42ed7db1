-- ===== src/Manager/Invariant.antt =====
-- Over every sequence of requests: generations, the history and what observers are told.
use fastconf.Base.{
  some_eq, ℕ, zero, suc, ◌+◌, ◌-◌, ◌≤◌, ◌≡◌, refl, sym, ap, ◌∙◌, inl, inr, Bool, true, false, not,
  ◌&&◌, Option, none, some, List, [], ◌∷◌, ◌++◌, arith, ◌==◌, if◌then◌else◌, Bool-cases, length,
  Result, ok, err, drop,
}
use mathlib.Core.List.{append-nil, append_assoc}
use fastconf.History.{Ring, snapshot, push, push_opt}
use fastconf.History.Window.{IsRing, push-IsRing, snapshot-push}
use fastconf.Manager.{
  live, commit_result, reload_with, State, Manager, Attempt, Request, reload, commit, commit_value,
  publish_error, run, run_request, same_hash, report, pushed, to_reload, to_rollback, to_hook,
  gathered, run_all,
}

-- What a request does to the published part of a manager: nothing, or one publication.
pub data Moves {V E : Type 0} (m m' : Manager V E) : Type 0 where
  stays :
      m'.state ≡ m.state
      → m'.gen ≡ m.gen
      → m'.history ≡ m.history
      → m'.commits ≡ m.commits
      → Moves m m'
  publishes :
      (s : State V)
      → s.generation ≡ m.gen + 1
      → m'.state ≡ some s
      → m'.gen ≡ m.gen + 1
      → m'.history ≡ pushed m.state m.history
      → m'.commits ≡ m.commits ++ (m.state, s) ∷ []
      → Moves m m'

-- The commits `new` that observers are told lead from one published snapshot to the next without
-- a gap, from `cur` to `now`, under consecutive generations from `g` to `g'`.
abbrev pub Told :
    {V : Type 0}
    → Option (State V)
    → ℕ
    → List (Option (State V) × State V)
    → Option (State V)
    → ℕ
    → Type 0
Told cur g [] now g' = (cur ≡ now) × (g ≡ g')
Told cur g ((prev, next) ∷ new) now g' =
    (prev ≡ cur) × (next.generation ≡ g + 1) × Told (some next) (g + 1) new now g'

module _ {V E : Type 0} where
  same : (m : Manager V E) → Moves m m
  same m = stays refl refl refl refl

  commit_value-Moves :
      (m : Manager V E) (fp address : ℕ) (p : V × ℕ) → Moves m (commit_value m fp address p)
  unfolding commit_value
  commit_value-Moves m fp address (v, h) = elim (Bool-cases (same_hash m.state h)) [
    | inl e ↦ rw e (stays refl refl refl refl)
    | inr e ↦ rw e (
        publishes (record { generation = m.gen + 1; hash = h; address = address; value = v }) refl
          refl refl refl refl)
  ]

  live-Moves :
      (o : Option E) (m : Manager V E) (k : Manager V E × Result E (Unit {0}))
      → Moves m k.0
      → Moves m (live o m k).0
  live-Moves none m k h = h
  live-Moves (some e) m k h = same m

  commit_result-Moves :
      (m : Manager V E) (fp : ℕ) (a : Attempt V E) (r : Result E (V × ℕ))
      → Moves m (commit_result m fp a r).0
  unfolding commit_result
  commit_result-Moves m fp a (err e) = same m
  commit_result-Moves m fp a (ok p) =
      live-Moves a.context_after m _ (commit_value-Moves m fp a.address p)

  skip-Moves :
      (b : Bool) (m : Manager V E) (r : Result E (Unit {0})) (k : Manager V E × Result E (Unit {0}))
      → Moves m k.0
      → Moves m (if b then (m, r) else k).0
  skip-Moves true m r k h = same m
  skip-Moves false m r k h = h

  commit-Moves : (m : Manager V E) (fp : ℕ) (a : Attempt V E) → Moves m (commit m fp a).0
  unfolding commit
  commit-Moves m fp a = live-Moves a.context_before m _ (
      skip-Moves (not (fp == 0) && fp == m.fingerprint) m (ok tt) _
        (commit_result-Moves m fp a a.pipeline))

  -- The two managers have published the same.
  Moves-same :
      (m m' m'' : Manager V E)
      → m'.state ≡ m.state
      → m'.gen ≡ m.gen
      → m'.history ≡ m.history
      → m'.commits ≡ m.commits
      → Moves m' m''
      → Moves m m''
  Moves-same m m' m'' e f g h (stays a b c d) = stays (a ∙ e) (b ∙ f) (c ∙ g) (d ∙ h)
  Moves-same m m' m'' e f g h (publishes s n a b c d) =
      publishes s (rw f at n) a (rw f at b) (rw (e, g) at c) (rw (e, h) at d)

  reload-Moves : (m : Manager V E) (a : Attempt V E) → Moves m (reload m a).0
  unfolding reload
  reload-Moves m a = go a.assembled
    where
      go : (r : Result E ℕ) → Moves m (reload_with (gathered m a) a r).0
      go (err e) = stays refl refl refl refl
      go (ok fp) =
          Moves-same m (gathered m a) _ refl refl refl refl (commit-Moves (gathered m a) fp a)

  run-Moves : (m : Manager V E) (req : Request V E) → Moves m (run m req).0
  unfolding run
  run-Moves m (to_reload a) = reload-Moves m a
  run-Moves m (to_rollback target address) =
      publishes (record target { generation = m.gen + 1; address = address }) refl refl refl refl
        refl
  run-Moves m (to_hook e c) = stays refl refl refl refl

  report-Moves :
      (m : Manager V E) (p : Manager V E × Result E (Unit {0})) → Moves m p.0 → Moves m (report p)
  unfolding publish_error
  report-Moves m (m', ok _) h = h
  report-Moves m (m', err e) (stays a b c d) = stays a b c d
  report-Moves m (m', err e) (publishes s a b c d f) = publishes s a b c d f

  run_request-Moves :
      (m : Manager V E) (c : Option E) (req : Request V E) → Moves m (run_request m c req)
  unfolding run_request
  run_request-Moves m (some e) req = report-Moves m (m, err e) (same m)
  run_request-Moves m none req = report-Moves m (run m req) (run-Moves m req)

  Moves-Told :
      (m m' m'' : Manager V E) (new : List (Option (State V) × State V))
      → Moves m m'
      → m''.commits ≡ m'.commits ++ new
      → Told m'.state m'.gen new m''.state m''.gen
      → (all : List (Option (State V) × State V)) × (m''.commits ≡ m.commits ++ all)
        × Told m.state m.gen all m''.state m''.gen
  Moves-Told m m' m'' new (stays a b c d) e t = (new, rw d at e, rw (a, b) at t)
  Moves-Told m m' m'' new (publishes s g a b c d) e t = (
    (m.state, s) ∷ new,
    e ∙ ap (λ l. l ++ new) d ∙ append_assoc m.commits ((m.state, s) ∷ []) new,
    (refl, g, rw (a, b) at t),
  )

  -- Whatever requests the writer takes, the snapshots that observers are told of form one chain
  -- from the snapshot published before to the one published after, each with the next generation.
  pub run_all-Told :
      (m : Manager V E) (reqs : List (Option E × Request V E))
      → (new : List (Option (State V) × State V)) × ((run_all m reqs).commits ≡ m.commits ++ new)
        × Told m.state m.gen new (run_all m reqs).state (run_all m reqs).gen
  unfolding run_all
  run_all-Told m [] = ([], sym (append-nil m.commits), (refl, refl))
  run_all-Told m ((canceled, req) ∷ rest) =
      let (new, commits, told) = run_all-Told (run_request m canceled req) rest in
      Moves-Told m (run_request m canceled req) (run_all (run_request m canceled req) rest) new
        (run_request-Moves m canceled req) commits told

-- The generations of retained snapshots rise, from `lo` on and below `hi`.
abbrev pub Rising : {V : Type 0} → ℕ → List (Option (State V)) → ℕ → Type 0
Rising lo [] hi = lo ≤ hi
Rising lo (none ∷ l) hi = ⊥
Rising lo (some s ∷ l) hi = (lo ≤ s.generation) × Rising (s.generation + 1) l hi

module _ {V : Type 0} where
  Rising-append :
      (lo : ℕ) (l : List (Option (State V))) (s : State V)
      → Rising lo l s.generation
      → Rising lo (l ++ some s ∷ []) (s.generation + 1)
  Rising-append lo [] s h = (h, omega arith)
  Rising-append lo (none ∷ l) s h = h
  Rising-append lo (some t ∷ l) s h = (h.0, Rising-append (t.generation + 1) l s h.1)

  Rising-weaken :
      (lo lo' hi hi' : ℕ) (l : List (Option (State V)))
      → lo' ≤ lo
      → hi ≤ hi'
      → Rising lo l hi
      → Rising lo' l hi'
  Rising-weaken lo lo' hi hi' [] a b h = omega arith
  Rising-weaken lo lo' hi hi' (none ∷ l) a b h = h
  Rising-weaken lo lo' hi hi' (some t ∷ l) a b h = (
    omega (arith, h.0),
    Rising-weaken (t.generation + 1) (t.generation + 1) hi hi' l (omega arith) b h.1,
  )

  Rising-drop :
      (k lo hi : ℕ) (l : List (Option (State V))) → Rising lo l hi → Rising lo (drop k l) hi
  Rising-drop zero lo hi l h = h
  Rising-drop (suc k) lo hi [] h = h
  Rising-drop (suc k) lo hi (none ∷ l) h = absurd h
  Rising-drop (suc k) lo hi (some t ∷ l) h =
      Rising-weaken (t.generation + 1) lo hi hi (drop k l) (omega (arith, h.0)) (omega arith)
        (Rising-drop k (t.generation + 1) hi l h.1)

  push-Rising :
      (p : State V) (r : Ring (State V))
      → IsRing r
      → Rising 0 (snapshot r) p.generation
      → Rising 0 (snapshot (push (some p) r)) (p.generation + 1)
  push-Rising p r w h = rw (snapshot-push (some p) r w) (
      Rising-drop (length (snapshot r ++ some p ∷ []) - r.cap) 0 (p.generation + 1)
        (snapshot r ++ some p ∷ []) (Rising-append 0 (snapshot r) p h))

  -- Retained snapshots: a proper ring whose generations rise and lie below `g`.
  abbrev pub Retains : ℕ → Option (Ring (State V)) → Type 0
  Retains g none = Unit
  Retains g (some r) = IsRing r × Rising 0 (snapshot r) g

  pushed-Retains :
      (g : ℕ) (cur : Option (State V)) (h : Option (Ring (State V)))
      → ((s : State V) → cur ≡ some s → s.generation ≡ g)
      → Retains g h
      → Retains (g + 1) (pushed cur h)
  unfolding push_opt
  pushed-Retains g none none now t = tt
  pushed-Retains g none (some r) now t =
      (t.0, Rising-weaken 0 0 g (g + 1) (snapshot r) (omega arith) (omega arith) t.1)
  pushed-Retains g (some p) none now t = tt
  pushed-Retains g (some p) (some r) now t =
      rw (← now p refl) (push-IsRing (some p) r t.0, push-Rising p r t.0 (rw (now p refl) t.1))

-- The published snapshot has the current generation; the retained ones have rising generations
-- below it.
pub record IsConsistent {V E : Type 0} (m : Manager V E) : Type 0 where
  pub current : (s : State V) → m.state ≡ some s → s.generation ≡ m.gen
  pub retained : Retains m.gen m.history

module _ {V E : Type 0} where
  Moves-IsConsistent : (m m' : Manager V E) → Moves m m' → IsConsistent m → IsConsistent m'
  Moves-IsConsistent m m' (stays a b c d) k = record {
    current = λ s e. k.current s (sym a ∙ e) ∙ sym b;
    retained = rw (b, c) k.retained;
  }
  Moves-IsConsistent m m' (publishes s g a b c d) k = record {
    current = λ t e. ap (λ (x : State V). x.generation) (some_eq (sym e ∙ a)) ∙ g ∙ sym b;
    retained = rw (b, c) (pushed-Retains m.gen m.state m.history k.current k.retained);
  }

  -- Over every sequence of requests, failed ones and rollbacks among them, the published snapshot
  -- keeps the manager's generation, and the history keeps to rising generations below it.
  pub run_all-IsConsistent :
      (m : Manager V E) (reqs : List (Option E × Request V E))
      → IsConsistent m
      → IsConsistent (run_all m reqs)
  unfolding run_all
  run_all-IsConsistent m [] k = k
  run_all-IsConsistent m ((canceled, req) ∷ rest) k =
      run_all-IsConsistent (run_request m canceled req) rest
        (Moves-IsConsistent m _ (run_request-Moves m canceled req) k)
