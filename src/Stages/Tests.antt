-- ===== src/Stages/Tests.antt =====
-- Runs and instances: a file and an override that both write the port, and a validator that refuses.
use fastconf.Base.{
  ℕ, ◌≡◌, refl, Bool, true, false, ◌&&◌, none, some, [], ◌∷◌, ok, Text, codes, text_eq,
}
use fastconf.Confmap.Value.{Fields, bool, obj, end, entry, field, put_field, as_map}
use fastconf.Base.Int.{pos}
use fastconf.Confmap.Path.{walk}
use fastconf.Confmap.Deep.{Options, deep_at, merge_scalar}
use fastconf.Provenance.{off, full, explain, record_tree, new_index}
use fastconf.Assembly.{StagedLayer, blank_source, class_file, tree}
use fastconf.Stages.{Merged, run_merge}
use fastconf.Stages.Layers.{layer_wins}
use fastconf.Stages.Origins.{writers, run_merge_origins}
use fastconf.Stages.Checks.{Findings, run_checks}
use fastconf.Stages.Checks.Preview.{is_ok, is_clean, no_errors, preview_agrees}

abbrev layer : Text → Bool → StagedLayer
layer path b = record {
  src = record blank_source { path = path };
  class = class_file;
  class_priority = pos 0;
  content = tree (entry (codes "port") (bool b) end);
}

abbrev plain : Options
plain = record { append_slices = false; strict = false; merge_keys = [] }

abbrev merged_layers : Merged
merged_layers = record {
  merged = entry (codes "port") (bool true) end;
  sources =
      record blank_source { path = codes "a" } ∷ record blank_source { path = codes "b" } ∷ [];
  origins = none;
}

abbrev keep_left : Fields → Fields → Fields
keep_left dst m = m

merge_run :
    run_merge keep_left plain off (layer (codes "a") false ∷ layer (codes "b") true ∷ [])
    ≡ ok merged_layers
unfolding run_merge deep_at field put_field text_eq merge_scalar record_tree new_index
merge_run = refl

layer_wins_example : walk (obj merged_layers.merged) (codes "port" ∷ []) ≡ some (bool true)
unfolding walk as_map field text_eq
layer_wins_example =
    layer_wins keep_left plain off (layer (codes "a") false ∷ []) [] (layer (codes "b") true)
      (entry (codes "port") (bool true) end) (codes "port") [] (bool true) merged_layers refl
      (refl, tt) (tt, tt) refl refl tt merge_run

merge_full :
    (r : Merged) × (run_merge keep_left plain full
        (layer (codes "a") false ∷ layer (codes "b") true ∷ [])
      ≡ ok r)
unfolding run_merge deep_at field put_field text_eq merge_scalar record_tree new_index
merge_full = (_, refl)

run_merge_origins_example :
    (merge_full.0.sources ≡ merged_layers.sources)
    × (explain merge_full.0.origins (codes "port")
        ≡ writers (codes "port") (layer (codes "a") false ∷ layer (codes "b") true ∷ []))
run_merge_origins_example =
    run_merge_origins keep_left false false (layer (codes "a") false ∷ layer (codes "b") true ∷ [])
      merge_full.0 (codes "port") merge_full.1

abbrev no_text : ℕ → Text
no_text e = []

preview_agrees_example :
    (r : Findings ℕ) × (run_checks no_text true [] (none ∷ some 3 ∷ []) [] ≡ ok r)
    × (is_ok (run_checks no_text false [] (none ∷ some 3 ∷ []) [])
        ≡ (is_clean r.reports && no_errors r.violations))
preview_agrees_example = preview_agrees no_text [] (none ∷ some 3 ∷ []) []

refused_run : is_ok (run_checks no_text false [] (none ∷ some 3 ∷ []) []) ≡ false
unfolding run_checks
refused_run = refl
