-- ===== src/Stages.antt =====
-- stages.go and pipeline.go: the merge stage over the assembled layers, the checks after decoding,
-- and the run of all stages.
pub mod Layers
pub mod Origins
pub mod Checks
mod Tests
use fastconf.Base.{◌+◌, Option, none, some, List, [], ◌∷◌, ◌++◌, Result, ok, err, ◌>>=◌, Text}
use fastconf.Confmap.Value.{Fields, null, end}
use fastconf.Confmap.Deep.{Options, MergeError, deep_at}
use fastconf.Confmap.Pointer.{PatchError, patch_paths}
use fastconf.Confmap.Patch.{apply_patch}
use fastconf.Provenance.{Level, Index, new_index, record_value, record_tree}
use fastconf.Assembly.{SourceRef, StagedLayer, Content, tree, patch}

pub record Merged : Type 0 where
  pub merged : Fields
  pub sources : List SourceRef
  pub origins : Option (Index SourceRef)

pub data MergeFailure : Type 0 where
  patch_failed : Text → PatchError → MergeFailure
  merge_failed : Text → MergeError → MergeFailure

-- The paths that a patch names, less the root.
unfoldable pub record_paths : SourceRef → List Text → Index SourceRef → Index SourceRef
record_paths src [] o = o
record_paths src ([] ∷ l) o = record_paths src l o
record_paths src ((c ∷ p) ∷ l) o = record_paths src l (record_value o (c ∷ p) src null)

unfoldable pub record_patch :
    SourceRef → Option (List Text) → Option (Index SourceRef) → Option (Index SourceRef)
unfolding record_paths
record_patch src (some paths) (some o) = some (record_paths src (patch_paths paths) o)
record_patch src _ o = o

-- `left` tells what a layer's tree has become once it is merged into another tree: where merge keys are
-- set and a list of the layer repeats one, Deep merges the later entries into the layer's own first
-- one, and what shares its parts changes with it.
module _ (left : Fields → Fields → Fields) where
  -- The layer's tree as RecordTree finds it after the merge; without merge keys, as it was given.
  abbrev pub recorded : Options → Fields → Fields → Fields
  recorded opt dst m = elim opt.merge_keys [ [] ↦ m | _ ↦ left dst m ]

  -- One round of the loop of `runMerge`.
  abbrev pub merge_content : Options → Merged → SourceRef → Content → Result MergeFailure Merged
  merge_content opt st src (patch p paths) = elim (apply_patch st.merged p) [
    | err e ↦ err (patch_failed src.path e)
    | ok next ↦ ok (record {
      merged = next;
      sources = st.sources ++ src ∷ [];
      origins = record_patch src paths st.origins;
    })
  ]
  merge_content opt st src (tree m) = elim (deep_at opt [] st.merged m) [
    | err e ↦ err (merge_failed src.path e)
    | ok next ↦ ok (record {
      merged = next;
      sources = st.sources ++ src ∷ [];
      origins = record_tree st.origins [] (recorded opt st.merged m) src;
    })
  ]

  unfoldable pub merge_layer : Options → Merged → StagedLayer → Result MergeFailure Merged
  merge_layer opt st l = merge_content opt st l.src l.content

  unfoldable pub merge_layers : Options → Merged → List StagedLayer → Result MergeFailure Merged
  unfolding merge_layer
  merge_layers opt st [] = ok st
  merge_layers opt st (l ∷ ls) = merge_layer opt st l >>= λ next. merge_layers opt next ls

  -- `runMerge`
  unfoldable pub run_merge : Options → Level → List StagedLayer → Result MergeFailure Merged
  unfolding merge_layers
  run_merge opt level staged =
      merge_layers opt (record { merged = end; sources = []; origins = new_index level }) staged

-- A stage, or the whole pipeline: `names` are the stages to run, `step` runs one on the state, and
-- `ended` tells, before each stage and at the end, whether the context has ended.
unfoldable pub run_stages :
    {E P N : Type 0} → (N → P → Result E P) → (N → Option E) → Option E → List N → P → Result E P
run_stages step ended last [] p = elim last [ none ↦ ok p | some e ↦ err e ]
run_stages step ended last (n ∷ ns) p = elim (ended n) [
  | some e ↦ err e
  | none ↦ step n p >>= λ q. run_stages step ended last ns q
]
