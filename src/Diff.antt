-- ===== src/Diff.antt =====
-- diff.go: the differences of two trees, by path. json.Marshal is a parameter, which gives no text
-- where it fails; what is shown of secrets comes in as the redacted trees.
pub mod Reported
mod Tests
use fastconf.Base.{
  ℕ, zero, suc, ◌+◌, ◌-◌, ◌*◌, ◌/◌, ◌%◌, ◌≤◌, ◌<◌, min, max, String, ◌≡◌, refl, sym, ap, ◌∙◌,
  ◌≡⟨◌⟩◌, ◌∎, fun_ext, ◌≢◌, ◌↔◌, ◌⊎◌, inl, inr, Bool, true, false, not, ◌&&◌, ◌||◌, Option, none,
  some, List, [], ◌∷◌, ◌++◌, map, arith, ltb, leb, ◌==◌, if◌then◌else◌, Bool-cases, length,
  get_elem?, length-append, All, Result, ok, err, ◌>>=◌, >>=-eq-ok, Text, codes, text_eq,
  text_eq_iff, text_eq_refl,
}
use fastconf.Confmap.Value.{
  Number, Value, Items, Fields, null, bool, str, num, other, nil_arr, arr, nil_obj, obj, nil, cons,
  end, entry, field, put_field, delete_field, field-put, field-delete, field_laws, as_map,
}
use fastconf.Base.{join}
use fastconf.Confmap.Value.{json_number, NumKind}
use fastconf.Assembly.Sorting.{sort_stable}
use fastconf.Scan.Paths.{text_less, valid_utf8}
use fastconf.Confmap.Path.{get}

pub data DiffChange : Type 0 where
  added removed modified : DiffChange

-- `segmentedDiff`; a side where there is nothing holds nil.
pub record DiffEntry : Type 0 where
  pub path : Text
  pub change : DiffChange
  pub before : Value
  pub after : Value
  pub segs : List Text

abbrev pub entry_at : List Text → DiffChange → Value → Value → DiffEntry
entry_at segs change before after = record {
  path = join b'.' segs;
  change = change;
  before = before;
  after = after;
  segs = segs;
}

unfoldable pub keys_of : Fields → List Text
keys_of end = []
keys_of (entry k v m) = k ∷ keys_of m

-- The keys of the second map that the first lacks.
unfoldable pub other_keys : Fields → Fields → List Text
unfolding field
other_keys m end = []
other_keys m (entry k v n) = elim (field k m) [
  | none ↦ k ∷ other_keys m n
  | some w ↦ other_keys m n
]

-- The keys of two maps, sorted.
unfoldable pub ordered_keys : Fields → Fields → List Text
unfolding keys_of other_keys sort_stable text_less
ordered_keys m n = sort_stable text_less (keys_of m ++ other_keys m n)

abbrev pub all_of : {A : Type 0} → (Text → List A) → List Text → List A
all_of f [] = []
all_of f (k ∷ ks) = f k ++ all_of f ks

abbrev pub same_number : Number → Number → Bool
same_number a b = elim b.kind [ json_number ↦ text_eq a.literal b.literal | _ ↦ false ]

-- What `jsonEqual` finds without json.Marshal, if anything.
unfoldable pub quick_equal : Value → Value → Option Bool
unfolding text_eq valid_utf8
quick_equal null null = some true
quick_equal (bool true) (bool true) = some true
quick_equal (bool false) (bool false) = some true
quick_equal (num a) (num b) = elim a.kind [
  | json_number ↦ if same_number a b then some true else none
  | _ ↦ none
]
quick_equal (str a) (str b) = if valid_utf8 a && valid_utf8 b then some (text_eq a b) else none
quick_equal a b = none

abbrev pub if_added : List Text → Option Value → List DiffEntry
if_added path none = []
if_added path (some b) = entry_at path added null b ∷ []

abbrev pub or_null : Option Value → Value
or_null none = null
or_null (some v) = v

abbrev pub safe_entry : Fields → Fields → DiffEntry → DiffEntry
safe_entry a b d = record d { before = or_null (get a d.segs); after = or_null (get b d.segs) }

module _ (marshal : Value → Text) where
  unfoldable pub json_equal : Value → Value → Bool
  unfolding quick_equal text_eq
  json_equal a b = elim (quick_equal a b) [ some e ↦ e | none ↦ text_eq (marshal a) (marshal b) ]

  abbrev pub if_changed : List Text → Value → Value → List DiffEntry
  if_changed path a b = if json_equal a b then [] else entry_at path modified a b ∷ []

  -- `appendDiffs`
  unfoldable mutual
    unfolding ordered_keys json_equal field

    -- The differences at a key of the first map, and below it.
    pub diff_value : List Text → Value → Option Value → List DiffEntry
    diff_value path a none = entry_at path removed a null ∷ []
    diff_value path (obj m) (some (obj n)) = all_of (λ k. diff_at path k n m) (ordered_keys m n)
    diff_value path a (some b) = if_changed path a b

    -- The differences at one key of two maps.
    pub diff_at : List Text → Text → Fields → Fields → List DiffEntry
    diff_at path k n end = if_added (path ++ (k ∷ [])) (field k n)
    diff_at path k n (entry j v m) =
        let rest = diff_at path k n m in
        let here = diff_value (path ++ (k ∷ [])) v (field k n) in if text_eq j k then here else rest

  -- `diffMaps`
  unfoldable pub diff_maps : List Text → Fields → Fields → List DiffEntry
  unfolding ordered_keys diff_at
  diff_maps prefix a b = all_of (λ k. diff_at prefix k b a) (ordered_keys a b)

  -- `diagnosticDiff`, on the trees and on their redacted views
  unfoldable pub diagnostic_diff : Fields → Fields → Fields → Fields → List DiffEntry
  unfolding diff_maps get
  diagnostic_diff a b shown_a shown_b = map (safe_entry shown_a shown_b) (diff_maps [] a b)
