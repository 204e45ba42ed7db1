-- ===== src/Confmap/Deep.antt =====
-- confmap/deep.go: the deep merge of a layer into the tree, with strict mode, appended slices and
-- lists merged by key. A merge that fails hands no tree on: the caller drops it.
pub mod ByKey
pub mod Paths
pub mod Strict
pub mod Total
use fastconf.Base.{
  ℕ, suc, Bool, true, false, not, ◌&&◌, Option, none, some, [], ◌∷◌, ◌++◌, if◌then◌else◌, Result,
  ok, err, ◌>>=◌, Text, codes,
}
use fastconf.Confmap.Value.{
  Value, Items, Fields, null, bool, str, num, nil_arr, arr, nil_obj, obj, nil, cons, end, entry,
  field, put_field, len, item, set_item, append_items,
}
use fastconf.Base.Dict
use fastconf.Base.Dict.{Dict}

pub record Options : Type 0 where
  pub append_slices : Bool
  pub strict : Bool
  pub merge_keys : Dict Text

-- `panic` is a write to a nil map or an index out of range: neither is ever reached.
pub data MergeError : Type 0 where
  nil_destination panic : MergeError
  type_mismatch : Text → MergeError

unfoldable pub is_number : Value → Bool
is_number (num n) = true
is_number _ = false

unfoldable pub same_kind : Value → Value → Bool
unfolding is_number
same_kind null null = true
same_kind null b = false
same_kind (bool x) (bool y) = true
same_kind (bool x) b = false
same_kind (str x) (str y) = true
same_kind (str x) b = false
same_kind a b = is_number a && is_number b

-- `stringKey`: a non-empty string
unfoldable pub string_key : Option Value → Option Text
string_key (some (str [])) = none
string_key (some (str (c ∷ s))) = some (c ∷ s)
string_key _ = none

-- The merge key of a list entry, if the entry is a map that has one.
unfoldable pub entry_key : Text → Value → Option Text
unfolding string_key
entry_key key (obj m) = string_key (field key m)
entry_key key _ = none

-- `idx`: where the last entry with each merge key stands, counted from `i`.
unfoldable pub index_entries : Text → ℕ → Items → Dict ℕ → Dict ℕ
index_entries key i nil idx = idx
index_entries key i (cons e a) idx =
    index_entries key (suc i) a (elim (entry_key key e) [ none ↦ idx | some k ↦ Dict.put k i idx ])

abbrev pub child_path : Text → Text → Text
child_path [] k = k
child_path (c ∷ prefix) k = (c ∷ prefix) ++ (b'.' ∷ k)

abbrev pub list_path : Text → Text
list_path path = path ++ codes "[]"

-- The registered, non-empty merge key of a list path.
unfoldable pub merge_key : Options → Text → Option Text
merge_key opt path = elim (Dict.get path opt.merge_keys) [
  | none ↦ none
  | some [] ↦ none
  | some (c ∷ s) ↦ some (c ∷ s)
]

-- append to a nil slice leaves it nil where nothing is appended.
abbrev pub grown : Value → Items → Value
grown nil_arr nil = nil_arr
grown dv xs = arr xs

-- The slice case of `mergeValue`, for the slices `ds` of `dv` and `ss` of `sv`.
abbrev pub merge_slices_by :
    Options
    → Value
    → Items
    → Value
    → Items
    → (Text → Result MergeError Items)
    → Option Text
    → Result MergeError Value
merge_slices_by opt dv ds sv ss strategic (some key) = strategic key >>= λ a. ok (grown dv a)
merge_slices_by opt dv ds sv ss strategic none =
    if opt.append_slices then ok (grown dv (append_items ds ss)) else ok sv

unfoldable pub merge_slices :
    Options
    → Text
    → Value
    → Items
    → Value
    → Items
    → (Text → Result MergeError Items)
    → Result MergeError Value
unfolding merge_key
merge_slices opt path dv ds sv ss strategic =
    merge_slices_by opt dv ds sv ss strategic (merge_key opt path)

-- A value of another kind than the one there: refused in strict mode, else it replaces.
abbrev pub replace : Options → Text → Value → Result MergeError Value
replace opt path sv = if opt.strict then err (type_mismatch path) else ok sv

-- The `default` case of `mergeValue`.
unfoldable pub merge_scalar : Options → Text → Value → Value → Result MergeError Value
unfolding same_kind
merge_scalar opt path dv sv =
    if opt.strict && not (same_kind dv sv) then err (type_mismatch path) else ok sv

-- `deepAt`, `mergeValue` and the loop of `strategicMergeList`, with its call of `deepAt`.
unfoldable mutual
  pub deep_at : Options → Text → Fields → Fields → Result MergeError Fields
  deep_at opt prefix dst end = ok dst
  deep_at opt prefix dst (entry k sv src) = elim (field k dst) [
    | none ↦ deep_at opt prefix (put_field k sv dst) src
    | some dv ↦ merge_value opt (child_path prefix k) dv sv >>= λ merged.
        deep_at opt prefix (put_field k merged dst) src
  ]

  pub merge_value : Options → Text → Value → Value → Result MergeError Value
  merge_value opt path (obj ds) (obj ss) = deep_at opt path ds ss >>= λ m. ok (obj m)
  merge_value opt path (obj ds) nil_obj = ok (obj ds)
  merge_value opt path (obj ds) sv = replace opt path sv
  merge_value opt path nil_obj (obj ss) = ok (obj ss)
  merge_value opt path nil_obj nil_obj = ok nil_obj
  merge_value opt path nil_obj sv = replace opt path sv
  merge_value opt path (arr ds) (arr ss) =
      merge_slices opt path (arr ds) ds (arr ss) ss
        (λ key. merge_items opt path key ds (index_entries key 0 ds []) ss)
  merge_value opt path (arr ds) nil_arr =
      merge_slices opt path (arr ds) ds nil_arr nil (λ key. ok ds)
  merge_value opt path (arr ds) sv = replace opt path sv
  merge_value opt path nil_arr (arr ss) =
      merge_slices opt path nil_arr nil (arr ss) ss (λ key. merge_items opt path key nil [] ss)
  merge_value opt path nil_arr nil_arr =
      merge_slices opt path nil_arr nil nil_arr nil (λ key. ok nil)
  merge_value opt path nil_arr sv = replace opt path sv
  merge_value opt path dv sv = merge_scalar opt path dv sv

  pub merge_items : Options → Text → Text → Items → Dict ℕ → Items → Result MergeError Items
  merge_items opt path key a idx nil = ok a
  merge_items opt path key a idx (cons e b) = elim (entry_key key e) [
    | none ↦ merge_items opt path key (append_items a (cons e nil)) idx b
    | some k ↦ elim (Dict.get k idx) [
      | none ↦ merge_items opt path key (append_items a (cons e nil)) (Dict.put k (len a) idx) b
      | some i ↦ merge_existing opt path (item a i) e >>= λ x.
          merge_items opt path key (set_item a i x) idx b
    ]
  ]

  pub merge_existing : Options → Text → Option Value → Value → Result MergeError Value
  merge_existing opt path (some (obj existing)) (obj m) =
      deep_at opt (list_path path) existing m >>= λ r. ok (obj r)
  merge_existing opt path (some nil_obj) e = err panic
  merge_existing opt path none e = err panic
  merge_existing opt path (some x) e = replace opt path e

-- `Deep`, where `none` is the nil destination.
unfoldable pub deep : Options → Option Fields → Fields → Result MergeError (Option Fields)
deep opt none end = ok none
deep opt none (entry k v src) = err nil_destination
deep opt (some dst) src = deep_at opt [] dst src >>= λ r. ok (some r)
