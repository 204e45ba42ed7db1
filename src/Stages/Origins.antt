-- ===== src/Stages/Origins.antt =====
-- The sources and the provenance that the merge stage leaves.
use fastconf.Base.{
  Bool, ◌≡◌, refl, sym, ap, ◌∙◌, inl, inr, Option, none, some, List, [], ◌∷◌, ◌++◌, map, ok,
  >>=-eq-ok, Text, Result-cases, ok_eq,
}
use fastconf.Confmap.Value.{Fields, Value, null, end}
use fastconf.Base.Dict
use fastconf.Confmap.Deep.{Options, deep_at}
use fastconf.Confmap.Pointer.{patch_paths}
use fastconf.Confmap.Patch.{apply_patch}
use fastconf.Provenance.{full, Origin, Index, new_index, record_value, record_tree, explain}
use fastconf.Provenance.Chains.{join-chain, leaves, origins_at, chain, chain-record, fields-chain}
use fastconf.Assembly.{SourceRef, StagedLayer, Content, tree, patch}
use fastconf.Stages.{
  Merged, merge_content, merge_layer, merge_layers, run_merge, record_paths, record_patch,
}
use mathlib.Core.List.{append-nil, append_assoc}

-- The paths that are named, less the root, each with no value.
abbrev pub named_paths : List Text → List (Text × Value)
named_paths [] = []
named_paths ([] ∷ l) = named_paths l
named_paths ((c ∷ p) ∷ l) = (c ∷ p, null) ∷ named_paths l

abbrev pub patch_writes : Option (List Text) → List (Text × Value)
patch_writes none = []
patch_writes (some paths) = named_paths (patch_paths paths)

-- The paths that a layer writes: the leaves of its tree, or the paths that its patch names.
abbrev pub writes : Content → List (Text × Value)
writes (tree m) = leaves 0 [] m
writes (patch p paths) = patch_writes paths

-- What the layers write at a path, in order.
abbrev pub writers : Text → List StagedLayer → List (Origin SourceRef)
writers p [] = []
writers p (l ∷ ls) = origins_at p l.src (writes l.content) ++ writers p ls

paths-chain :
    (src : SourceRef) (l : List Text) (o : Index SourceRef) (p : Text)
    → o.level ≡ full
    → (chain (record_paths src l o) p ≡ chain o p ++ origins_at p src (named_paths l))
      × ((record_paths src l o).level ≡ full)
unfolding record_paths
paths-chain src [] o p h = (sym (append-nil (chain o p)), h)
paths-chain src ([] ∷ l) o p h = paths-chain src l o p h
paths-chain src ((c ∷ q) ∷ l) o p h =
    let (first, level) = chain-record o (c ∷ q) p src null h in
    let (rest, level') = paths-chain src l (record_value o (c ∷ q) src null) p level in
    (rest ∙ join-chain p src _ (chain o p) ((c ∷ q, null) ∷ []) (named_paths l) first, level')

abbrev record_content : SourceRef → Content → Option (Index SourceRef) → Option (Index SourceRef)
record_content src (tree m) o = record_tree o [] m src
record_content src (patch p paths) o = record_patch src paths o

abbrev pub without_keys : Bool → Bool → Options
without_keys append strict = record { append_slices = append; strict = strict; merge_keys = [] }

content-facts :
    (left : Fields → Fields → Fields) (append strict : Bool) (st next : Merged) (src : SourceRef)
    (c : Content)
    → merge_content left (without_keys append strict) st src c ≡ ok next
    → (next.sources ≡ st.sources ++ src ∷ []) × (next.origins ≡ record_content src c st.origins)
content-facts left append strict st next src (patch p paths) h =
    elim (Result-cases (apply_patch st.merged p)) [
      | inl (m, e) ↦ let same = ok_eq (rw (e, merge_content) at h) in rw (← same) (refl, refl)
      | inr (x, e) ↦ cc (rw (e, merge_content) at h)
    ]
content-facts left append strict st next src (tree m) h =
    elim (Result-cases (deep_at (without_keys append strict) [] st.merged m)) [
      | inl (r, e) ↦ let same = ok_eq (rw (e, merge_content) at h) in rw (← same) (refl, refl)
      | inr (x, e) ↦ cc (rw (e, merge_content) at h)
    ]

-- The index that a layer's record leaves.
abbrev IsExtended : Text → Index SourceRef → SourceRef → Content → Option (Index SourceRef) → Type 0
IsExtended p o src c r =
    (o' : Index SourceRef) × (r ≡ some o')
    × (o'.level ≡ full)
    × (chain o' p ≡ chain o p ++ origins_at p src (writes c))

content-chain :
    (p : Text) (o : Index SourceRef) (src : SourceRef) (c : Content)
    → o.level ≡ full
    → IsExtended p o src c (record_content src c (some o))
unfolding record_tree record_patch
content-chain p o src (tree m) h =
    let (grows, level) = fields-chain o 0 [] p src m h in (_, refl, level, grows)
content-chain p o src (patch q none) h = (o, refl, h, sym (append-nil (chain o p)))
content-chain p o src (patch q (some paths)) h =
    let (grows, level) = paths-chain src (patch_paths paths) o p h in (_, refl, level, grows)

layers-chain :
    (left : Fields → Fields → Fields) (append strict : Bool) (st last : Merged)
    (ls : List StagedLayer) (p : Text) (o : Index SourceRef)
    → st.origins ≡ some o
    → o.level ≡ full
    → merge_layers left (without_keys append strict) st ls ≡ ok last
    → (last.sources ≡ st.sources ++ map (λ (l : StagedLayer). l.src) ls)
      × (explain last.origins p ≡ chain o p ++ writers p ls)
unfolding merge_layers merge_layer explain
layers-chain left append strict st last [] p o h full_level e =
    rw (← ok_eq e, h) (sym (append-nil st.sources), sym (append-nil (chain o p)))
layers-chain left append strict st last (l ∷ ls) p o h full_level e =
    let (next, first, rest) = >>=-eq-ok (merge_layer left (without_keys append strict) st l) _ e in
    let (sources, origins) = content-facts left append strict st next l.src l.content first in
    let (o', here, level, grows) = content-chain p o l.src l.content full_level in
    let (all_sources, all_origins) =
      layers-chain left append strict next last ls p o'
        (origins ∙ ap (record_content l.src l.content) h ∙ here) level rest in
    (
      all_sources
          ∙ ap (λ k. k ++ map (λ (x : StagedLayer). x.src) ls) sources
          ∙ append_assoc st.sources (l.src ∷ []) _,
      all_origins ∙ ap (λ k. k ++ writers p ls) grows ∙ append_assoc (chain o p) _ _,
    )

-- When `runMerge` succeeds without merge keys, the sources are those of all layers, in their order;
-- and at the full level `Explain` of a path lists, in the order of the layers, each write of that path:
-- the leaves of the trees, with their values, and the paths that the patches name, without one.
pub run_merge_origins :
    (left : Fields → Fields → Fields) (append strict : Bool) (staged : List StagedLayer)
    (last : Merged) (p : Text)
    → run_merge left (without_keys append strict) full staged ≡ ok last
    → (last.sources ≡ map (λ (l : StagedLayer). l.src) staged)
      × (explain last.origins p ≡ writers p staged)
unfolding run_merge new_index Dict.get
run_merge_origins left append strict staged last p h =
    layers-chain left append strict
      (record {
        merged = end;
        sources = [];
        origins = some (record { entries = []; level = full });
      })
      last staged p (record { entries = []; level = full }) refl refl h
