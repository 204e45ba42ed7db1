-- ===== src/Stages/Checks/Preview.antt =====
-- A plan collects what a reload would refuse.
use fastconf.Base.{
  ℕ, suc, ◌≡◌, refl, sym, ap, ◌∙◌, ◌⊎◌, inl, inr, Bool, true, false, not, ◌&&◌, Option, none, some,
  List, [], ◌∷◌, ◌++◌, arith, Bool-cases, All, Result, ok, err, Text,
}
use mathlib.Core.List.{append-nil, append_assoc}
use fastconf.Stages.Checks.{
  Violation, ValidatorReport, Findings, CheckFailure, PolicyResult, field_meta, validator, is_error,
  named, sort_one, sort_violations, evaluate_policies, failed_policy, finding, field_meta_loop,
  joined, run_field_meta, run_validate, policies_done, run_policy, run_checks, invalid,
}

-- No report has an error.
abbrev pub is_clean : {E : Type 0} → List (ValidatorReport E) → Bool
is_clean [] = true
is_clean (r ∷ rs) = elim r.outcome [ none ↦ is_clean rs | some e ↦ false ]

-- No violation is of error severity.
abbrev pub no_errors : List Violation → Bool
no_errors [] = true
no_errors (v ∷ vs) = not (is_error v.severity) && no_errors vs

abbrev pub is_ok : {E A : Type 0} → Result E A → Bool
is_ok (ok a) = true
is_ok (err e) = false

no_errors-append : (a b : List Violation) → no_errors (a ++ b) ≡ (no_errors a && no_errors b)
no_errors-append [] b = refl
no_errors-append (v ∷ vs) b = ground (arith, no_errors-append vs b)

no_errors-snoc :
    (l : List Violation) (v : Violation)
    → no_errors l ≡ true
    → is_error v.severity ≡ false
    → no_errors (l ++ v ∷ []) ≡ true
no_errors-snoc l v h k = ground (arith, no_errors-append l (v ∷ []))

-- Nothing of error severity is among the warnings, and nothing else among the errors.
abbrev AllErrors : List Violation → Type 0
AllErrors l = All (λ (v : Violation). is_error v.severity ≡ true) l

AllErrors-snoc :
    (l : List Violation) (v : Violation)
    → AllErrors l
    → is_error v.severity ≡ true
    → AllErrors (l ++ v ∷ [])
AllErrors-snoc [] v h k = (k, tt)
AllErrors-snoc (x ∷ l) v h k = (h.0, AllErrors-snoc l v h.1 k)

IsSplit : List Violation × List Violation → Type 0
IsSplit (errs, warns) = AllErrors errs × (no_errors warns ≡ true)

bare-IsSplit : IsSplit ([], [])
unfolding IsSplit
bare-IsSplit = (tt, refl)

one-IsSplit :
    (v : Violation) (p : List Violation × List Violation) → IsSplit p → IsSplit (sort_one v p)
unfolding IsSplit
one-IsSplit v (errs, warns) h = elim (Bool-cases (is_error v.severity)) [
  | inl e ↦ rw e (AllErrors-snoc errs v h.0 e, h.1)
  | inr e ↦ rw e (h.0, no_errors-snoc warns v h.1 e)
]

sort-IsSplit :
    (name : Text) (vs : List Violation) (p : List Violation × List Violation)
    → IsSplit p
    → IsSplit (sort_violations name vs p)
unfolding sort_violations
sort-IsSplit name [] p h = h
sort-IsSplit name (v ∷ vs) (errs, warns) h =
    sort-IsSplit name vs (sort_one (named name v) (errs, warns))
      (one-IsSplit (named name v) (errs, warns) h)

split_agrees :
    (errs warns : List Violation)
    → IsSplit (errs, warns)
    → (no_errors (warns ++ errs) ≡ false) ⊎ (errs ≡ [])
unfolding IsSplit
split_agrees [] warns h = inr refl
split_agrees (e ∷ es) warns h = inl (ground (arith, no_errors-append warns (e ∷ es), h.0))

failed-IsSplit :
    (errs warns : List Violation) (v : Violation)
    → is_error v.severity ≡ true
    → IsSplit (errs, warns)
    → IsSplit (errs ++ v ∷ [], warns)
unfolding IsSplit
failed-IsSplit errs warns v e h = (AllErrors-snoc errs v h.0 e, h.1)

module _ {E : Type 0} (error_text : E → Text) where
  evaluate-IsSplit :
      (rs : List (PolicyResult E)) (p : List Violation × List Violation)
      → IsSplit p
      → IsSplit (evaluate_policies error_text rs p)
  unfolding evaluate_policies
  evaluate-IsSplit [] p h = h
  evaluate-IsSplit (r ∷ rs) (errs, warns) h = evaluate-IsSplit rs _ (go r.result)
    where
      go :
          (res : Result E (List Violation))
          → IsSplit (elim res [
            | err e ↦ (errs ++ failed_policy error_text r.name e ∷ [], warns)
            | ok vs ↦ sort_violations r.name vs (errs, warns)
          ])
      go (ok vs) = sort-IsSplit r.name vs (errs, warns) h
      go (err e) = failed-IsSplit errs warns (failed_policy error_text r.name e) refl h

-- The reports that a plan makes of a list of validators.
reports_from : {E : Type 0} → ℕ → List (Option E) → List (ValidatorReport E)
reports_from i [] = []
reports_from i (o ∷ os) = record { name = validator i; outcome = o } ∷ reports_from (suc i) os

module _ {E : Type 0} where
  validate-plan :
      (i : ℕ) (os : List (Option E)) (f : Findings E)
      → run_validate true i os f ≡ ok (record f { reports = f.reports ++ reports_from i os })
  unfolding run_validate reports_from
  validate-plan i [] f = rw (append-nil f.reports) refl
  validate-plan i (o ∷ os) f =
      validate-plan (suc i) os _
      ∙ rw
          (append_assoc f.reports (record { name = validator i; outcome = o } ∷ [])
            (reports_from (suc i) os))
          refl

  validate-reload :
      (i : ℕ) (os : List (Option E)) (f : Findings E)
      → (run_validate false i os f ≡ ok f)
        ⊎ ((e : CheckFailure E) × (run_validate false i os f ≡ err e))
  unfolding run_validate
  validate-reload i [] f = inl refl
  validate-reload i (none ∷ os) f = validate-reload (suc i) os f
  validate-reload i (some e ∷ os) f = inr (invalid (e ∷ []), refl)

  validate_ok :
      (i : ℕ) (os : List (Option E)) (f : Findings E)
      → is_ok (run_validate false i os f) ≡ is_clean (reports_from i os)
  unfolding run_validate reports_from
  validate_ok i [] f = refl
  validate_ok i (none ∷ os) f = validate_ok (suc i) os f
  validate_ok i (some e ∷ os) f = refl

  meta_reports : List E → List (ValidatorReport E)
  meta_reports [] = []
  meta_reports (v ∷ vs) = record { name = field_meta; outcome = some v } ∷ meta_reports vs

  meta-plan :
      (vs es : List E) (f : Findings E)
      → field_meta_loop true f vs es ≡ (record f { reports = f.reports ++ meta_reports vs }, es)
  unfolding field_meta_loop meta_reports
  meta-plan [] es f = rw (append-nil f.reports) refl
  meta-plan (v ∷ vs) es f =
      meta-plan vs es (finding true f field_meta (some v)).0
      ∙ rw
          (append_assoc f.reports (record { name = field_meta; outcome = some v } ∷ [])
            (meta_reports vs))
          refl

  meta-refuses :
      (v : E) (vs es : List E) (f : Findings E)
      → (x : CheckFailure E) × (joined (field_meta_loop false f vs (es ++ v ∷ [])) ≡ err x)
  unfolding field_meta_loop
  meta-refuses v [] [] f = (invalid (v ∷ []), refl)
  meta-refuses v [] (e ∷ es) f = (invalid (e ∷ (es ++ v ∷ [])), refl)
  meta-refuses v (w ∷ vs) es f = meta-refuses w vs (es ++ v ∷ []) f

  -- The reports of a plan: metadata first.
  clean-reports :
      (vs : List E) (os : List (Option E))
      → is_clean (meta_reports vs ++ reports_from 0 os)
        ≡ (elim vs [ [] ↦ is_clean (reports_from 0 os) | v ∷ l ↦ false ])
  unfolding meta_reports
  clean-reports [] os = refl
  clean-reports (v ∷ vs) os = refl

  policies-reload :
      (f : Findings E) (p : List Violation × List Violation)
      → IsSplit p
      → is_ok (policies_done false f p) ≡ no_errors (p.1 ++ p.0)
  unfolding IsSplit
  policies-reload f ([], warns) h = sym (rw (append-nil warns) h.1)
  policies-reload f (e ∷ es, warns) h = ground (arith, no_errors-append warns (e ∷ es), h.0)

module _ {E : Type 0} (error_text : E → Text) where
  checks-plan :
      (vs : List E) (os : List (Option E)) (ps : List (PolicyResult E))
      → let p = evaluate_policies error_text ps ([], []) in
        run_checks error_text true vs os ps
        ≡ ok (record { reports = meta_reports vs ++ reports_from 0 os; violations = p.1 ++ p.0 })
  unfolding run_checks run_field_meta run_policy
  checks-plan vs os ps =
      rw
        (
          meta-plan vs [] (record { reports = []; violations = [] }),
          validate-plan 0 os (record { reports = meta_reports vs; violations = [] }),
        )
        refl

  checks-reload :
      (vs : List E) (os : List (Option E)) (ps : List (PolicyResult E))
      → let p = evaluate_policies error_text ps ([], []) in
        is_ok (run_checks error_text false vs os ps)
        ≡ (is_clean (meta_reports vs ++ reports_from 0 os) && no_errors (p.1 ++ p.0))
  unfolding run_checks run_field_meta run_policy
  checks-reload [] os ps = elim (validate-reload 0 os (record { reports = []; violations = [] })) [
    | inl e ↦
        let clean : is_clean (reports_from 0 os) ≡ true =
          sym (validate_ok 0 os (record { reports = []; violations = [] })) ∙ ap is_ok e in
        rw (e, clean-reports [] os, clean)
          (policies-reload (record { reports = []; violations = [] })
            (evaluate_policies error_text ps ([], []))
            (evaluate-IsSplit error_text ps ([], []) bare-IsSplit))
    | inr (x, e) ↦
        let dirty : is_clean (reports_from 0 os) ≡ false =
          sym (validate_ok 0 os (record { reports = []; violations = [] })) ∙ ap is_ok e in
        rw (e, clean-reports [] os, dirty) refl
  ]
  checks-reload (v ∷ vs) os ps =
      let (x, e) = meta-refuses v vs [] (record { reports = []; violations = [] }) in
      rw (e, clean-reports (v ∷ vs) os) refl

  -- Whatever the field metadata, the validators and the policies say of a value: a plan always gets
  -- through the checks, and a reload gets through them exactly if, among what the plan collected, no
  -- report has an error and no violation is of error severity.
  pub preview_agrees :
      (violations : List E) (validators : List (Option E)) (policies : List (PolicyResult E))
      → (r : Findings E) × (run_checks error_text true violations validators policies ≡ ok r)
        × (is_ok (run_checks error_text false violations validators policies)
            ≡ (is_clean r.reports && no_errors r.violations))
  preview_agrees vs os ps = (_, checks-plan vs os ps, checks-reload vs os ps)
