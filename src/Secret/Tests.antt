-- ===== src/Secret/Tests.antt =====
-- Runs and instances: a password under a key with a dot.
use fastconf.Base.{ℕ, ◌==◌, if◌then◌else◌, false, inl, inr, some}
use fastconf.Confmap.Value.{as_map, field}
use fastconf.Confmap.Path.{walk}
use fastconf.Secret.Plan.{TypePlan, plan_struct, plan_map, plan_other, field_of, mask_value}
use fastconf.Secret.Masked.{Leads, masked-walk}
use fastconf.Base.{◌≡◌, refl, ◌↔◌, true, List, [], ◌∷◌, ◌++◌, Text, codes, text_eq, join, split}
use fastconf.Confmap.Value.{Value, null, str, obj, end, entry}
use fastconf.Secret.{
  PatternPlan, Redactor, double_star, match_segments, compile_patterns, any_match, matches_value,
}
use fastconf.Secret.Matching.{Fits, match_segments-Fits}
use fastconf.Secret.Flattened.{secret_found}

abbrev patterns : List Text
patterns = codes "users.*.password" ∷ codes "**.token" ∷ []

abbrev plan : PatternPlan
plan = compile_patterns patterns

abbrev secret_path : List Text
secret_path = codes "users" ∷ codes "ann.lee" ∷ codes "password" ∷ []

tree_match : any_match plan.tree secret_path ≡ true
unfolding any_match compile_patterns split text_eq
tree_match = refl

secret_found_example :
    matches_value plan null
      (join b'.' (codes "users" ∷ (codes "ann.lee" ∷ codes "password" ∷ []) ++ []))
    ≡ true
secret_found_example =
    secret_found patterns null (codes "users") (codes "ann.lee" ∷ codes "password" ∷ []) []
      tree_match

match_segments-Fits_example :
    (match_segments (double_star ∷ codes "token" ∷ []) (codes "a" ∷ codes "token" ∷ []) ≡ true)
    ↔ Fits (double_star ∷ codes "token" ∷ []) (codes "a" ∷ codes "token" ∷ [])
match_segments-Fits_example =
    match_segments-Fits (double_star ∷ codes "token" ∷ []) (codes "a" ∷ codes "token" ∷ [])

abbrev hide : Redactor
hide path v = str (codes "***REDACTED***")

abbrev users : Value
users = obj (
    entry (codes "users")
      (obj (entry (codes "ann.lee") (obj (entry (codes "password") (str (codes "pw")) end)) end))
      end)

abbrev users_plan : TypePlan
users_plan = record {
  kind = plan_struct;
  is_opaque = false;
  secrets = true;
  fields = record { name = codes "users"; marked = false; child = 1 } ∷ [];
  elem_plan = 0;
}

abbrev user_plan : TypePlan
user_plan = record users_plan {
  fields = record { name = codes "password"; marked = true; child = 3 } ∷ [];
}

-- A struct of a map of structs with a marked field.
abbrev plan_table : ℕ → TypePlan
plan_table n =
    if n == 0
    then users_plan
    else if n == 1
    then record users_plan { kind = plan_map; elem_plan = 2 }
    else if n == 2
    then user_plan
    else record users_plan { kind = plan_other; secrets = false }

abbrev user_keys : List Text
user_keys = codes "users" ∷ codes "ann" ∷ codes "password" ∷ []

abbrev user_tree : Value
user_tree = obj (
    entry (codes "users")
      (obj (entry (codes "ann") (obj (entry (codes "password") (str (codes "pw")) end)) end)) end)

user_keys-Leads : Leads plan_table users_plan user_keys
unfolding field_of
user_keys-Leads = (
  refl,
  refl,
  inl (
    refl,
    (
      _,
      refl,
      inr (
        refl,
        refl,
        (refl, refl, inr (refl, (refl, refl, inl (refl, (_, refl, inl (refl, refl)))))),
      ),
    ),
  ),
)

user_walk : walk user_tree user_keys ≡ some (str (codes "pw"))
unfolding walk as_map field text_eq
user_walk = refl

masked-walk_example :
    walk (mask_value plan_table (λ path v. null) users_plan [] user_tree) user_keys ≡ some null
masked-walk_example =
    masked-walk plan_table (λ path v. null) user_keys users_plan [] user_tree (str (codes "pw"))
      user_keys-Leads user_walk
