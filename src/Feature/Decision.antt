-- ===== src/Feature/Decision.antt =====
-- Which target or rollout decides, and that a larger percentage keeps whom a smaller one has.
use fastconf.Base.{
  Option-cases, ℕ, ◌≤◌, ◌≡◌, refl, ap, ◌∙◌, ◌≢◌, ◌↔◌, ◌⊎◌, inl, inr, Bool, true, false, Option,
  none, some, List, [], ◌∷◌, ◌++◌, arith, Bool-cases, All, Text, text_eq_iff, some_eq,
}
use fastconf.Base.Dict
use fastconf.Base.Dict.{Dict}
use fastconf.Feature.{
  in_bucket, pos, first_rollout, first_target, evaluate, rollout_anchor, Target, Rollout, Rule,
  all_match, matches, has_value, lands,
}

-- Every condition stands in the context with its value.
abbrev pub Meets : Dict Text → Dict Text → Type 0
Meets [] have = Unit
Meets ((k, v) ∷ want) have = (Dict.get k have ≡ some v) × Meets want have

has_value-eq : (o : Option Text) (v : Text) → (has_value o v ≡ true) ↔ (o ≡ some v)
has_value-eq none v = (λ h. cc, λ h. cc)
has_value-eq (some got) v =
    (λ h. ap some ((text_eq_iff got v).0 h), λ h. (text_eq_iff got v).1 (some_eq h))

all_match-Meets : (want have : Dict Text) → (all_match want have ≡ true) ↔ Meets want have
unfolding all_match
all_match-Meets [] have = (λ h. tt, λ h. refl)
all_match-Meets ((k, v) ∷ want) have =
    let first = has_value-eq (Dict.get k have) v in
    let rest = all_match-Meets want have in
    elim (Bool-cases (has_value (Dict.get k have) v)) [
      | inl e ↦ (λ h. (first.0 e, rest.0 (rw e at h)), λ h. rw e (rest.1 h.1))
      | inr e ↦ (λ h. cc (rw e at h), λ h. cc (first.1 h.0))
    ]

-- A target matches exactly when it has a condition, and every condition stands in the context with
-- its value.
pub matches_iff :
    (want have : Dict Text) → (matches want have ≡ true) ↔ ((want ≢ []) × Meets want have)
unfolding matches
matches_iff [] have = (λ h. cc, λ h. absurd (h.0 refl))
matches_iff (c ∷ want) have =
    let go = all_match-Meets (c ∷ want) have in (λ h. ((λ e. cc), go.0 h), λ h. go.1 h.1)

module _ {V : Type 0} (digest : Text → ℕ) where
  -- What decides a flag: the first target that matches, then the first rollout in which the request
  -- lands, then the default.
  pub data Decides (r : Rule V) (ctx : Dict Text) (v : V) : Type 0 where
    by_target :
        (before after : List (Target V)) (t : Target V)
        → r.targets ≡ before ++ t ∷ after
        → All (λ (u : Target V). matches u.conditions ctx ≡ false) before
        → matches t.conditions ctx ≡ true
        → v ≡ t.value
        → Decides r ctx v
    by_rollout :
        (before after : List (Rollout V)) (ro : Rollout V)
        → All (λ (u : Target V). matches u.conditions ctx ≡ false) r.targets
        → r.rollouts ≡ before ++ ro ∷ after
        → All (λ u. lands digest ctx u ≡ false) before
        → lands digest ctx ro ≡ true
        → v ≡ ro.value
        → Decides r ctx v
    by_default :
        All (λ (u : Target V). matches u.conditions ctx ≡ false) r.targets
        → All (λ u. lands digest ctx u ≡ false) r.rollouts
        → v ≡ r.default
        → Decides r ctx v

-- The first item that passes the test gives the value; where none does, it is `d`.
First : {A V : Type 0} → (A → Bool) → (A → V) → List A → V → V → Type 0
First {A} test value l d v =
    ((before : List A) × (after : List A) × (a : A) × (l ≡ before ++ a ∷ after)
      × All (λ b. test b ≡ false) before
      × (test a ≡ true)
      × (v ≡ value a))
    ⊎ (All (λ b. test b ≡ false) l × (v ≡ d))

module _ {A V : Type 0} (test : A → Bool) (value : A → V) where
  First-none : (d : V) → First test value [] d d
  unfolding First
  First-none d = inr (tt, refl)

  First-here : (a : A) (l : List A) (d : V) → test a ≡ true → First test value (a ∷ l) d (value a)
  unfolding First
  First-here a l d h = inl ([], l, a, refl, tt, h, refl)

  First-later :
      (a : A) (l : List A) (d v : V)
      → test a ≡ false
      → First test value l d v
      → First test value (a ∷ l) d v
  unfolding First
  First-later a l d v h (inl (before, after, b, e, none_before, hit, eq)) =
      inl (a ∷ before, after, b, ap (λ k. a ∷ k) e, (h, none_before), hit, eq)
  First-later a l d v h (inr (none_all, eq)) = inr ((h, none_all), eq)

module _ (digest : Text → ℕ) (anchor : Text) where
  bucket-raise :
      (p q : ℕ)
      → p ≤ q
      → in_bucket digest anchor (pos p) ≡ true
      → in_bucket digest anchor (pos q) ≡ true
  unfolding in_bucket
  bucket-raise p q h e = ground arith

  bucket-full : in_bucket digest anchor (pos 100) ≡ true
  unfolding in_bucket
  bucket-full = refl

  bucket-none : in_bucket digest anchor (pos 0) ≡ false
  unfolding in_bucket
  bucket-none = refl

module _ {V : Type 0} (digest : Text → ℕ) (ctx : Dict Text) where
  target-First :
      (l : List (Target V)) (d : V)
      → First (λ u. matches u.conditions ctx) (λ u. u.value) l d (first_target digest ctx l d)
  unfolding first_target
  target-First [] d = First-none _ _ d
  target-First (t ∷ l) d = elim (Bool-cases (matches t.conditions ctx)) [
    | inl e ↦ rw e (First-here _ _ t l d e)
    | inr e ↦ rw e (First-later _ _ t l d _ e (target-First l d))
  ]

  rollout-First :
      (l : List (Rollout V)) (d : V)
      → First (lands digest ctx) (λ u. u.value) l d (first_rollout digest ctx l d)
  unfolding first_rollout
  rollout-First [] d = First-none _ _ d
  rollout-First (ro ∷ l) d = elim (Bool-cases (lands digest ctx ro)) [
    | inl e ↦ rw e (First-here _ _ ro l d e)
    | inr e ↦ rw e (First-later _ _ ro l d _ e (rollout-First l d))
  ]

  -- For every hash function: what `Evaluate` returns is the value of the first target that matches,
  -- else that of the first rollout in which the request lands, else the default.
  pub evaluate-Decides : (r : Rule V) → Decides digest r ctx (evaluate digest r ctx)
  unfolding evaluate First
  evaluate-Decides r =
      elim (target-First r.targets (first_rollout digest ctx r.rollouts r.default)) [
        | inl (before, after, t, e, missed, hit, eq) ↦ by_target before after t e missed hit eq
        | inr (missed, eq) ↦ elim (rollout-First r.rollouts r.default) [
          | inl (before, after, ro, e, missed', hit, eq') ↦
              by_rollout before after ro missed e missed' hit (eq ∙ eq')
          | inr (missed', eq') ↦ by_default missed missed' (eq ∙ eq')
        ]
      ]

  -- For every hash function: who lands in a rollout still lands in it when its percentage is raised,
  -- up to 100 and over, and no longer when it is 0.
  pub rollout_grows :
      (ro : Rollout V) (p q : ℕ)
      → p ≤ q
      → lands digest ctx (record ro { percent = pos p }) ≡ true
      → (lands digest ctx (record ro { percent = pos q }) ≡ true)
        × (lands digest ctx (record ro { percent = pos 100 }) ≡ true)
        × (lands digest ctx (record ro { percent = pos 0 }) ≡ false)
  unfolding lands
  rollout_grows ro p q h e = elim (Option-cases (rollout_anchor ro.hash_key ctx)) [
    | inl n ↦ cc (rw (n, lands) at e)
    | inr (a, s) ↦
        rw (s, lands)
          (
            bucket-raise digest a p q h (rw (s, lands) at e),
            bucket-full digest a,
            bucket-none digest a,
          )
  ]
