-- ===== src/Manager/Outcomes.antt =====
-- What one reload does: a failed one publishes nothing, and after a successful one the same inputs
-- publish nothing more.
use fastconf.Base.{
  ltb→lt, ℕ, ◌≤◌, ◌≡◌, refl, inl, inr, true, false, not, ◌&&◌, none, some, List, [], ◌∷◌, ◌++◌,
  arith, ltb, ◌==◌, Bool-cases, length, length-append, ok, err, drop, length-drop, ap, ◌∙◌, sym,
  Option, ==→eq, Result,
}
use fastconf.Manager.{
  Manager, Attempt, reload, publish_error, errors_cap, gathered, live, commit, commit_value,
  commit_result,
}

module _ {V E : Type 0} where
  live-ok :
      (o : Option E) (m m' : Manager V E) (k : Manager V E × Result E (Unit {0}))
      → live o m k ≡ (m', ok tt)
      → k ≡ (m', ok tt)
  live-ok none m m' k h = h
  live-ok (some e) m m' k h = cc

  commit_value-fingerprint :
      (m : Manager V E) (fp address : ℕ) (p : V × ℕ)
      → (commit_value m fp address p).fingerprint ≡ fp
  unfolding commit_value
  commit_value-fingerprint m fp address (v, h) = ground arith

  commit_result-fingerprint :
      (m m' : Manager V E) (fp : ℕ) (a : Attempt V E) (r : Result E (V × ℕ))
      → commit_result m fp a r ≡ (m', ok tt)
      → m'.fingerprint ≡ fp
  unfolding commit_result
  commit_result-fingerprint m m' fp a (err e) h = cc
  commit_result-fingerprint m m' fp a (ok p) h =
      let k = live-ok a.context_after m m' _ h in
      ap (λ (x : Manager V E × Result E (Unit {0})). x.0.fingerprint) (sym k)
      ∙ commit_value-fingerprint m fp a.address p

  -- A successful commit leaves its inputs' fingerprint.
  commit-fingerprint :
      (m m' : Manager V E) (fp : ℕ) (a : Attempt V E)
      → commit m fp a ≡ (m', ok tt)
      → m'.fingerprint ≡ fp
  unfolding commit
  commit-fingerprint m m' fp a h =
      let k = live-ok a.context_before m m' _ h in
      elim (Bool-cases (not (fp == 0) && fp == m.fingerprint)) [
        | inl e ↦
            ap (λ (x : Manager V E × Result E (Unit {0})). x.0.fingerprint) (sym (rw e at k))
            ∙ sym (==→eq fp m.fingerprint (ground arith))
        | inr e ↦ commit_result-fingerprint m m' fp a a.pipeline (rw e at k)
      ]

  -- After a reload that succeeds, another one that assembles the same inputs, where these have a
  -- fingerprint, and whose context is live, succeeds as well and changes the scanned directories and
  -- the caches only, whatever the pipeline would give.
  pub reload_settles :
      (m m' : Manager V E) (a b : Attempt V E) (fp : ℕ)
      → (fp == 0) ≡ false
      → a.assembled ≡ ok fp
      → reload m a ≡ (m', ok tt)
      → b.assembled ≡ ok fp
      → b.context_before ≡ none
      → reload m' b ≡ (record m' { scanned_dirs = b.scanned_dirs; caches = b.caches }, ok tt)
  unfolding reload
  reload_settles m m' a b fp z first done second before =
      let published : m'.fingerprint ≡ fp =
        commit-fingerprint (gathered m a) m' fp a (rw first at done) in
      let skipped : (not (fp == 0) && fp == m'.fingerprint) ≡ true =
        rw (z, published) (ground arith) in
      rw second (unfold commit in rw (before, skipped) refl)

  -- Where at most `errors_cap` errors are pending, publishing one more leaves at most `errors_cap`,
  -- and the published one is the newest of them.
  pub publish_error_bounded :
      (m : Manager V E) (e : E)
      → length m.errors ≤ errors_cap
      → (length (publish_error m e).errors ≤ errors_cap)
        × ((kept : List E) × ((publish_error m e).errors ≡ kept ++ e ∷ []))
  unfolding publish_error
  publish_error_bounded m e h = elim (Bool-cases (ltb (length m.errors) errors_cap)) [
    | inl free ↦
        rw free
          (omega (arith, length-append {0} m.errors (e ∷ []), ltb→lt _ _ free), (m.errors, refl))
    | inr full ↦ rw full (
      omega (arith, length-append {0} (drop 1 m.errors) (e ∷ []), length-drop {0} 1 m.errors),
      (drop 1 m.errors, refl),
    )
  ]
