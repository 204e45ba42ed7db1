-- ===== src/Stages/Checks.antt =====
-- The checks of stages.go on the decoded value: field metadata, validators and policies, for a reload
-- and for a plan. What a validator or a policy says of the value stands in the inputs.
pub mod Preview
use fastconf.Base.{
  ℕ, suc, ◌+◌, Bool, true, false, Option, none, some, List, [], ◌∷◌, ◌++◌, if◌then◌else◌, Result,
  ok, err, ◌>>=◌, Text, codes,
}

pub data Severity : Type 0 where
  severity_warning severity_error severity_other : Severity

pub record Violation : Type 0 where
  pub path : Text
  pub message : Text
  pub severity : Severity
  pub rule : Text

-- The names "fastconf:field-meta" and "validator[i]".
pub data ReportName : Type 0 where
  field_meta : ReportName
  validator : ℕ → ReportName

pub record ValidatorReport (E : Type 0) : Type 0 where
  pub name : ReportName
  pub outcome : Option E

pub record Findings (E : Type 0) : Type 0 where
  pub reports : List (ValidatorReport E)
  pub violations : List Violation

pub data CheckFailure (E : Type 0) : Type 0 where
  invalid : List E → CheckFailure E
  policy_failed : List Violation → CheckFailure E

-- A policy's name, and its violations or its evaluation error.
pub record PolicyResult (E : Type 0) : Type 0 where
  pub name : Text
  pub result : Result E (List Violation)

abbrev pub is_error : Severity → Bool
is_error severity_error = true
is_error _ = false

abbrev pub named : Text → Violation → Violation
named name v = elim v.rule [ [] ↦ record v { rule = name } | c ∷ s ↦ v ]

abbrev pub sort_one : Violation → List Violation × List Violation → List Violation × List Violation
sort_one v (errs, warns) =
    if is_error v.severity then (errs ++ v ∷ [], warns) else (errs, warns ++ v ∷ [])

-- The inner loop of `evaluatePolicies`: the errors and the warnings so far.
unfoldable pub sort_violations :
    Text → List Violation → List Violation × List Violation → List Violation × List Violation
sort_violations name [] p = p
sort_violations name (v ∷ vs) (errs, warns) =
    sort_violations name vs (sort_one (named name v) (errs, warns))

module _ {E : Type 0} where
  -- `finding`: a preview keeps the outcome and goes on.
  abbrev pub finding : Bool → Findings E → ReportName → Option E → Findings E × Option E
  finding true f name outcome =
      (record f { reports = f.reports ++ record { name = name; outcome = outcome } ∷ [] }, none)
  finding false f name outcome = (f, outcome)

  -- The loop of `runFieldMetaCheck`, with the errors so far.
  unfoldable pub field_meta_loop : Bool → Findings E → List E → List E → Findings E × List E
  field_meta_loop dry f [] errs = (f, errs)
  field_meta_loop dry f (v ∷ vs) errs =
      field_meta_loop dry (finding dry f field_meta (some v)).0 vs
        (elim (finding dry f field_meta (some v)).1 [ none ↦ errs | some e ↦ errs ++ e ∷ [] ])

  -- errors.Join gives nil for no errors.
  abbrev pub joined : Findings E × List E → Result (CheckFailure E) (Findings E)
  joined (f, []) = ok f
  joined (f, e ∷ es) = err (invalid (e ∷ es))

  unfoldable pub run_field_meta : Bool → List E → Findings E → Result (CheckFailure E) (Findings E)
  unfolding field_meta_loop
  run_field_meta dry violations f = joined (field_meta_loop dry f violations [])

  abbrev pub checked : Findings E × Option E → Result (CheckFailure E) (Findings E)
  checked (f, none) = ok f
  checked (f, some e) = err (invalid (e ∷ []))

  -- `runValidate`, from the `i`th validator on
  unfoldable pub run_validate :
      Bool → ℕ → List (Option E) → Findings E → Result (CheckFailure E) (Findings E)
  run_validate dry i [] f = ok f
  run_validate dry i (o ∷ os) f =
      checked (finding dry f (validator i) o) >>= λ g. run_validate dry (suc i) os g

  abbrev pub policies_done :
      Bool → Findings E → List Violation × List Violation → Result (CheckFailure E) (Findings E)
  policies_done true f (errs, warns) =
      ok (record f { violations = f.violations ++ (warns ++ errs) })
  policies_done false f ([], warns) = ok f
  policies_done false f (e ∷ es, warns) = err (policy_failed (e ∷ es))

module _ {E : Type 0} (error_text : E → Text) where
  abbrev failed_policy : Text → E → Violation
  failed_policy name e = record {
    path = [];
    message = codes "evaluation error: " ++ error_text e;
    severity = severity_error;
    rule = name;
  }

  -- `evaluatePolicies`
  unfoldable pub evaluate_policies :
      List (PolicyResult E) → List Violation × List Violation → List Violation × List Violation
  unfolding sort_violations
  evaluate_policies [] p = p
  evaluate_policies (r ∷ rs) (errs, warns) = evaluate_policies rs (elim r.result [
    | err e ↦ (errs ++ failed_policy r.name e ∷ [], warns)
    | ok vs ↦ sort_violations r.name vs (errs, warns)
  ])

  -- `runPolicy`
  unfoldable pub run_policy :
      Bool → List (PolicyResult E) → Findings E → Result (CheckFailure E) (Findings E)
  unfolding evaluate_policies
  run_policy dry policies f = policies_done dry f (evaluate_policies policies ([], []))

  -- The stages "field-meta", "validate" and "policy", in this order.
  unfoldable pub run_checks :
      Bool → List E → List (Option E) → List (PolicyResult E) → Result (CheckFailure E) (Findings E)
  unfolding run_field_meta run_validate run_policy
  run_checks dry violations validators policies = do
    f ← run_field_meta dry violations (record { reports = []; violations = [] })
    g ← run_validate dry 0 validators f
    run_policy dry policies g
