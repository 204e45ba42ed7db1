-- ===== src/Confmap/Patch.antt =====
-- confmap/patch.go: RFC 6902 patches. A failing patch hands no document on; the clone on which the
-- operations run is the argument itself here, where values are not shared.
pub mod Edits
pub mod Operations
pub mod Numbers
use fastconf.Base.{
  Bool, true, false, ◌&&◌, Option, none, some, List, [], ◌∷◌, ◌==◌, if◌then◌else◌, length, Result,
  ok, err, ◌>>=◌, Text, codes, text_eq,
}
use fastconf.Confmap.Value.{
  Value, Fields, null, nil_arr, arr, nil_obj, obj, nil, end, field, put_field, delete_field, len,
  item, set_item, insert_item, delete_item,
}
use fastconf.Confmap.Pointer.{
  PatchError, Member, absent, not_string, text, pointer, array_index, not_a_string, not_found,
  not_container, into_null, unknown_op, into_child, remove_root, test_failed, root_not_object,
  undecodable, not_an_array, panic, missing_member,
}
use fastconf.Confmap.Patch.Numbers.{patch_equal, patch_null}

-- One operation. `value` is decoded, with numbers as json.Number.
pub record PatchOp : Type 0 where
  pub op : Member
  pub path : Member
  pub from : Member
  pub value : Option Value

abbrev pub found : Option Value → Result PatchError Value
found none = err not_found
found (some v) = ok v

-- a[i], for an index that `arrayIndex` let through
abbrev pub item_or_panic : Option Value → Result PatchError Value
item_or_panic none = err panic
item_or_panic (some v) = ok v

-- One step of `getAt`.
unfoldable pub child_at : Value → Text → Result PatchError Value
child_at (obj m) tok = found (field tok m)
child_at nil_obj tok = err not_found
child_at (arr xs) tok = array_index tok (len xs) false >>= λ i. item_or_panic (item xs i)
child_at nil_arr tok = array_index tok 0 false >>= λ i. err panic
child_at _ tok = err not_container

unfoldable pub get_at : Value → List Text → Result PatchError Value
unfolding child_at
get_at node [] = ok node
get_at node (tok ∷ path) = child_at node tok >>= λ child. get_at child path

abbrev pub LeafEdit : Type 0
LeafEdit = Value → Text → Result PatchError Value

-- What `editAt` stores back into `node` under `tok`; its caller has read a child there.
unfoldable pub store_child : Value → Text → Value → Value
store_child (obj m) tok v = obj (put_field tok v m)
store_child (arr xs) tok v = elim (array_index tok (len xs) false) [
  | ok i ↦ arr (set_item xs i v)
  | err e ↦ arr xs
]
store_child node tok v = node

unfoldable pub edit_at : Value → List Text → LeafEdit → Result PatchError Value
unfolding child_at store_child patch_null
edit_at node [] edit = edit null []
edit_at node (tok ∷ []) edit = if patch_null node then err into_null else edit node tok
edit_at node (tok ∷ tok' ∷ path) edit = if patch_null node then err into_null else (do
  child ← child_at node tok
  updated ← edit_at child (tok' ∷ path) edit
  ok (store_child node tok updated))

unfoldable pub add_to : Value → LeafEdit
add_to value null tok = ok value
add_to value (obj m) tok = ok (obj (put_field tok value m))
add_to value nil_obj tok = err panic
add_to value (arr xs) tok = array_index tok (len xs) true >>= λ i. ok (arr (insert_item xs i value))
add_to value nil_arr tok = array_index tok 0 true >>= λ i. ok (arr (insert_item nil i value))
add_to value container tok = err not_container

abbrev pub present : Option Value → Result PatchError Value
present none = err not_found
present (some v) = ok v

unfoldable pub remove_from : LeafEdit
remove_from null tok = ok null
remove_from (obj m) tok = present (field tok m) >>= λ _. ok (obj (delete_field tok m))
remove_from nil_obj tok = err not_found
remove_from (arr xs) tok = array_index tok (len xs) false >>= λ i. ok (arr (delete_item xs i))
remove_from nil_arr tok = array_index tok 0 false >>= λ i. err panic
remove_from container tok = err not_container

-- `isPrefix`
unfoldable pub is_prefix : List Text → List Text → Bool
is_prefix [] path = true
is_prefix (p ∷ ps) [] = false
is_prefix (p ∷ ps) (q ∷ qs) = text_eq p q && is_prefix ps qs

unfoldable pub member_text : Member → Result PatchError Text
member_text absent = ok []
member_text not_string = err not_a_string
member_text (text t) = ok t

abbrev required : Option Value → Result PatchError Value
required none = err missing_member
required (some v) = ok v

unfoldable pub move_to : Value → List Text → List Text → Value → Result PatchError Value
unfolding is_prefix
move_to root from path value =
    if length from == length path && is_prefix from path
    then ok root
    else if is_prefix from path
    then err into_child
    else edit_at root from remove_from >>= λ rest. edit_at rest path (add_to value)

abbrev pub check_equal : Value → Value → Value → Result PatchError Value
check_equal root cur value = if patch_equal cur value then ok root else err test_failed

unfoldable pub remove_at : Value → List Text → Result PatchError Value
remove_at root [] = err remove_root
remove_at root (tok ∷ path) = edit_at root (tok ∷ path) remove_from

-- `applyOp`, once its name and path are read
unfoldable pub run_op : Value → PatchOp → Text → List Text → Result PatchError Value
unfolding move_to remove_at
run_op root op name path =
    if text_eq name (codes "add")
    then (required op.value >>= λ v. edit_at root path (add_to v))
    else if text_eq name (codes "replace")
    then (do
      v ← required op.value
      rest ← edit_at root path remove_from
      edit_at rest path (add_to v))
    else if text_eq name (codes "test")
    then (do v ← required op.value; cur ← get_at root path; check_equal root cur v)
    else if text_eq name (codes "copy")
    then (do from ← pointer op.from; v ← get_at root from; edit_at root path (add_to v))
    else if text_eq name (codes "move")
    then (do from ← pointer op.from; v ← get_at root from; move_to root from path v)
    else if text_eq name (codes "remove")
    then remove_at root path
    else err unknown_op

unfoldable pub apply_op : Value → PatchOp → Result PatchError Value
unfolding member_text run_op
apply_op root op = do name ← member_text op.op; path ← pointer op.path; run_op root op name path

-- The bytes of a patch: none, no JSON array of objects, the JSON null, or the operations.
pub data PatchInput : Type 0 where
  empty malformed null_patch : PatchInput
  ops : List PatchOp → PatchInput

unfoldable pub apply_ops : Value → List PatchOp → Result PatchError Value
apply_ops root [] = ok root
apply_ops root (op ∷ rest) = apply_op root op >>= λ next. apply_ops next rest

abbrev pub as_document : Value → Result PatchError Fields
as_document (obj m) = ok m
as_document nil_obj = ok end
as_document _ = err root_not_object

-- `ApplyPatch`
unfoldable pub apply_patch : Fields → PatchInput → Result PatchError Fields
unfolding apply_ops
apply_patch doc empty = ok doc
apply_patch doc malformed = err undecodable
apply_patch doc null_patch = err not_an_array
apply_patch doc (ops l) = apply_ops (obj doc) l >>= as_document
