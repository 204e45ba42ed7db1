-- ===== src/Stages/Layers.antt =====
-- Which layer decides a value of the merged tree.
use fastconf.Base.{
  ◌≡◌, refl, sym, ap, ◌∙◌, true, some, List, [], ◌∷◌, ◌++◌, All, Result, ok, err, ◌>>=◌, >>=-eq-ok,
  Text, ok_eq,
}
use fastconf.Confmap.Value.{Value, Fields, obj, end}
use fastconf.Confmap.Deep.{MergeError, Options, deep_at}
use fastconf.Confmap.Deep.ByKey.{IsDistinct}
use fastconf.Confmap.Deep.Paths.{IsTreeFields, is_scalar, untouched, leaf_wins, untouched_stays}
use fastconf.Confmap.Path.{walk}
use fastconf.Assembly.{StagedLayer, tree}
use fastconf.Provenance.{Level, new_index, record_tree}
use fastconf.Stages.{
  merge_failed, recorded, Merged, MergeFailure, merge_content, merge_layer, merge_layers, run_merge,
}

-- A tree, with distinct keys, that holds nothing on the path.
abbrev pub Leaves : Text → List Text → StagedLayer → Type 0
Leaves p ps l =
    (m : Fields) × (l.content ≡ tree m)
    × IsDistinct m
    × IsTreeFields m
    × (untouched m (p ∷ ps) ≡ true)

merge_tree :
    (left : Fields → Fields → Fields) (opt : Options) (st next : Merged) (l : StagedLayer)
    (m : Fields)
    → l.content ≡ tree m
    → merge_layer left opt st l ≡ ok next
    → deep_at opt [] st.merged m ≡ ok next.merged
unfolding merge_layer
merge_tree left opt st next l m c h =
    let content : merge_content left opt st l.src (tree m) ≡ ok next =
      ap (merge_content left opt st l.src) (sym c) ∙ h in
    go (deep_at opt [] st.merged m) content
  where
    go :
        (r : Result MergeError Fields)
        → elim r [
          | err e ↦ err (merge_failed l.src.path e)
          | ok m' ↦ ok (record {
            merged = m';
            sources = st.sources ++ l.src ∷ [];
            origins = record_tree st.origins [] (recorded left opt st.merged m) l.src;
          })
        ]
          ≡ ok next
        → r ≡ ok next.merged
    go (err e) k = cc
    go (ok m') k = ap ok (ap (λ (x : Merged). x.merged) (ok_eq k))

rest_stays :
    (left : Fields → Fields → Fields) (opt : Options) (st last : Merged) (ls : List StagedLayer)
    (p : Text) (ps : List Text)
    → All (Leaves p ps) ls
    → merge_layers left opt st ls ≡ ok last
    → walk (obj last.merged) (p ∷ ps) ≡ walk (obj st.merged) (p ∷ ps)
unfolding merge_layers
rest_stays left opt st last [] p ps a h = rw (ok_eq h) refl
rest_stays left opt st last (l ∷ ls) p ps a h =
    let (next, first, rest) = >>=-eq-ok (merge_layer left opt st l) _ h in
    let (m, c, d, t, u) = a.0 in
    rest_stays left opt next last ls p ps a.1 rest
    ∙ untouched_stays opt [] st.merged m next.merged p ps d t
        (merge_tree left opt st next l m c first) u

merge_layers-append :
    (left : Fields → Fields → Fields) (opt : Options) (st : Merged) (xs ys : List StagedLayer)
    → merge_layers left opt st (xs ++ ys)
      ≡ (merge_layers left opt st xs >>= λ mid. merge_layers left opt mid ys)
unfolding merge_layers
merge_layers-append left opt st [] ys = refl
merge_layers-append left opt st (l ∷ ls) ys =
    go (merge_layer left opt st l) (λ next. merge_layers-append left opt next ls ys)
  where
    go :
        (r : Result MergeFailure Merged)
        → ((next : Merged)
            → merge_layers left opt next (ls ++ ys)
              ≡ (merge_layers left opt next ls >>= λ mid. merge_layers left opt mid ys))
        → (r >>= λ next. merge_layers left opt next (ls ++ ys))
          ≡ ((r >>= λ next. merge_layers left opt next ls) >>= λ mid. merge_layers left opt mid ys)
    go (err e) ih = refl
    go (ok next) ih = ih next

-- When `runMerge` succeeds, a scalar that a layer's tree holds at a path is what the merged tree
-- holds there, whatever the layers before it hold, if the layers after it are trees that hold
-- nothing on the path. The maps of these trees have distinct keys.
pub layer_wins :
    (left : Fields → Fields → Fields) (opt : Options) (level : Level)
    (before after : List StagedLayer) (l : StagedLayer) (m : Fields) (p : Text) (ps : List Text)
    (v : Value) (last : Merged)
    → l.content ≡ tree m
    → IsDistinct m
    → IsTreeFields m
    → is_scalar v ≡ true
    → walk (obj m) (p ∷ ps) ≡ some v
    → All (Leaves p ps) after
    → run_merge left opt level (before ++ l ∷ after) ≡ ok last
    → walk (obj last.merged) (p ∷ ps) ≡ some v
unfolding run_merge
layer_wins left opt level before after l m p ps v last c d t s held rest h =
    let start : Merged = record { merged = end; sources = []; origins = new_index level } in
    let (mid, _, tail) =
      >>=-eq-ok (merge_layers left opt start before) _
        (sym (merge_layers-append left opt start before (l ∷ after)) ∙ h) in
    let (next, here, later) = >>=-eq-ok (merge_layer left opt mid l) _ tail in
    rest_stays left opt next last after p ps rest later
    ∙ leaf_wins opt [] mid.merged m next.merged p ps v d t (merge_tree left opt mid next l m c here)
        s held
