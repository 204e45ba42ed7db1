-- ===== src/Confmap/Labels.antt =====
-- confmap/labels.go: trees from flat labels.
use fastconf.Base.{
  first_cons, trim_prefix, has_prefix, cut, ℕ, zero, suc, ◌-◌, Bool, true, false, not, ◌&&◌, Option,
  none, some, List, [], ◌∷◌, ◌++◌, map, if◌then◌else◌, length, Text, codes, text_eq,
}
use fastconf.Confmap.Value.{Value, Items, Fields, str, nil, cons, end, entry}
use fastconf.Confmap.Path.{set}
use fastconf.Confmap.Coerce.{coerce}

pub record LabelOptions : Type 0 where
  pub prefix : Text
  pub strip_prefix : Bool
  pub separator : Text
  pub separators : List Text
  pub coerces : Bool

pub record LabelPair : Type 0 where
  pub key : Text
  pub value : Text

unfoldable pub non_empty : List Text → List Text
non_empty [] = []
non_empty ([] ∷ l) = non_empty l
non_empty ((c ∷ s) ∷ l) = (c ∷ s) ∷ non_empty l

abbrev pub one_separator : Text → List Text
one_separator [] = codes "." ∷ []
one_separator (c ∷ s) = (c ∷ s) ∷ []

abbrev pub or_single : List Text → Text → List Text
or_single [] single = one_separator single
or_single (s ∷ l) single = s ∷ l

-- `resolveSeparators`
unfoldable pub resolve_separators : LabelOptions → List Text
unfolding non_empty
resolve_separators o = or_single (non_empty o.separators) o.separator

-- strings.Split at a separator of several bytes: `skip` counts what is left of the one last found.
unfoldable pub split_from : Text → ℕ → Text → List Text
unfolding has_prefix
split_from sep skip [] = [] ∷ []
split_from sep (suc skip) (c ∷ s) = split_from sep skip s
split_from sep zero (c ∷ s) =
    let after = split_from sep (length sep - 1) s in
    let rest = split_from sep zero s in
    if has_prefix (c ∷ s) sep then [] ∷ after else first_cons c rest

abbrev pub split_text : Text → Text → List Text
split_text sep s = split_from sep zero s

-- The parts of all parts that are not empty.
unfoldable pub split_parts : Text → List Text → List Text
unfolding split_from non_empty
split_parts sep [] = []
split_parts sep (p ∷ parts) = non_empty (split_text sep p) ++ split_parts sep parts

-- The loop of `splitMulti`.
unfoldable pub split_all : List Text → List Text → List Text
unfolding split_parts
split_all [] parts = parts
split_all (sep ∷ seps) parts = split_all seps (split_parts sep parts)

abbrev pub split_multi : Text → List Text → List Text
split_multi s seps = split_all seps (s ∷ [])

-- A key without the first separator that it begins with.
unfoldable pub trim_separator : List Text → Text → Text
unfolding has_prefix trim_prefix
trim_separator [] k = k
trim_separator (sep ∷ seps) k =
    let rest = trim_separator seps k in
    if not (text_eq sep []) && has_prefix k sep then trim_prefix k sep else rest

-- The key to split, without one for a label that is skipped.
unfoldable pub label_key : LabelOptions → Text → Option Text
unfolding text_eq has_prefix trim_prefix trim_separator resolve_separators
label_key o k =
    if text_eq o.prefix []
    then some k
    else if has_prefix k o.prefix
    then some (
        if o.strip_prefix
        then trim_separator (resolve_separators o) (trim_prefix k o.prefix)
        else k)
    else none

module _ (parse_float : Text → Option Value) where
  abbrev pub label_value : Bool → Text → Value
  label_value false s = str s
  label_value true s = coerce parse_float (record { trims = false; ignore_case = false }) s

  abbrev pub add_label : LabelOptions → Option Text → Text → Fields → Fields
  add_label o none v out = out
  add_label o (some []) v out = out
  add_label o (some (c ∷ k)) v out =
      set out (split_multi (c ∷ k) (resolve_separators o)) (label_value o.coerces v)

  unfoldable pub expand_pairs : LabelOptions → List LabelPair → Fields → Fields
  unfolding label_key set split_all resolve_separators coerce
  expand_pairs o [] out = out
  expand_pairs o (p ∷ l) out = expand_pairs o l (add_label o (label_key o p.key) p.value out)

-- The shapes that `NormalizeLabelInput` takes.
pub data LabelInput : Type 0 where
  label_pairs : List LabelPair → LabelInput
  label_texts : List Text → LabelInput
  label_items : Items → LabelInput
  label_map : List (Text × Text) → LabelInput
  label_fields : Fields → LabelInput
  label_other : LabelInput

abbrev pub add_text : Text → List LabelPair → List LabelPair
add_text kv rest = elim (cut b'=' kv) [
  | none ↦ rest
  | some (k, v) ↦ record { key = k; value = v } ∷ rest
]

unfoldable pub text_pairs : List Text → List LabelPair
unfolding cut
text_pairs [] = []
text_pairs (kv ∷ l) = add_text kv (text_pairs l)

unfoldable pub item_pairs : Items → List LabelPair
unfolding cut
item_pairs nil = []
item_pairs (cons (str s) xs) = add_text s (item_pairs xs)
item_pairs (cons v xs) = item_pairs xs

unfoldable pub field_pairs : Fields → List LabelPair
field_pairs end = []
field_pairs (entry k (str s) m) = record { key = k; value = s } ∷ field_pairs m
field_pairs (entry k v m) = field_pairs m

unfoldable pub normalize_label_input : LabelInput → List LabelPair
unfolding text_pairs item_pairs field_pairs
normalize_label_input (label_pairs l) = l
normalize_label_input (label_texts l) = text_pairs l
normalize_label_input (label_items xs) = item_pairs xs
normalize_label_input (label_map l) = map (λ (k, v). record { key = k; value = v }) l
normalize_label_input (label_fields m) = field_pairs m
normalize_label_input label_other = []

-- `ExpandLabels`
unfoldable pub expand_labels : (Text → Option Value) → LabelInput → LabelOptions → Fields
unfolding normalize_label_input expand_pairs
expand_labels parse_float input o = expand_pairs parse_float o (normalize_label_input input) end
