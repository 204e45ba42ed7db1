-- ===== src/Profile/Tests.antt =====
-- Runs and instances of the profile expressions.
use fastconf.Base.{◌≡◌, refl, ◌≢◌, true, [], ◌∷◌, ok, err, Text, codes, text_eq}
use fastconf.Profile.{
  peek, next, parse_ident, EvalFn, missing_paren, trailing_input, out_of_fuel, compile,
  eval_profile, new_profile_set, ProfileSet,
}
use fastconf.Profile.Fuel.{compile_total}
use fastconf.Profile.Syntax.{
  OrExpr, alternatives, or_end, or_more, conjuncts, and_end, and_more, negation, plain, name,
  write_or, holds_or,
}
use fastconf.Profile.RoundTrip.{compile-write}

abbrev active : ProfileSet
active = new_profile_set (codes " prod" ∷ codes "" ∷ codes "eu" ∷ [])

eval_run : eval_profile (codes "prod & !(us | dev)") active ≡ ok true
unfolding eval_profile compile new_profile_set peek parse_ident next text_eq
eval_run = refl

precedence_run : eval_profile (codes "us & dev | eu") active ≡ ok true
unfolding eval_profile compile new_profile_set peek parse_ident next text_eq
precedence_run = refl

paren_run : compile (codes "(prod") ≡ err (missing_paren [])
unfolding compile peek next parse_ident
paren_run = refl

trailing_run : compile (codes "prod us") ≡ err (trailing_input (codes "us"))
unfolding compile peek next parse_ident
trailing_run = refl

compile_total_example : compile (codes "!(a & b") ≢ err out_of_fuel
compile_total_example = compile_total (codes "!(a & b")

-- a & !b | c
abbrev mixed : OrExpr
mixed =
    alternatives
      (conjuncts (plain (name (codes "a") refl))
        (and_more (negation (plain (name (codes "b") refl))) and_end))
      (or_more (conjuncts (plain (name (codes "c") refl)) and_end) or_end)

abbrev mixed_text : Text
mixed_text = write_or (codes " ") mixed []

compile-write_example :
    (v : EvalFn) × (compile mixed_text ≡ ok v) × ((set : ProfileSet) → v set ≡ holds_or mixed set)
compile-write_example = compile-write (codes " ") mixed refl
