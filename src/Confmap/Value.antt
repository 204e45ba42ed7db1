-- ===== src/Confmap/Value.antt =====
-- The JSON-shaped `any` trees of package confmap, and Go's reads and writes on their maps and
-- slices. A map is an association list: its order is no part of a statement, which reads by key.
use fastconf.Base.{
  ℕ, zero, suc, ◌≡◌, refl, Bool, Option, none, some, arith, Text, text_eq, text_eq_iff,
  if◌then◌else◌,
}

-- The Go kinds that `isNumber` counts.
pub data NumKind : Type 0 where
  signed unsigned float json_number : NumKind

-- A number: its Go kind, and its text as encoding/json writes it.
pub record Number : Type 0 where
  pub kind : NumKind
  pub literal : Text

-- `nil_arr` and `nil_obj` are the typed nils `[]any(nil)` and `map[string]any(nil)`; `other` is a
-- Go value of any other type, known by an identity only.
mutual
  pub data Value : Type 0 where
    null : Value
    bool : Bool → Value
    str : Text → Value
    num : Number → Value
    other : ℕ → Value
    nil_arr : Value
    arr : Items → Value
    nil_obj : Value
    obj : Fields → Value

  pub data Fields : Type 0 where
    end : Fields
    entry : Text → Value → Fields → Fields

  pub data Items : Type 0 where
    cons : Value → Items → Items
    nil : Items

-- m[k]
unfoldable pub field : Text → Fields → Option Value
field k end = none
field k (entry j v m) = if text_eq j k then some v else field k m

-- m[k] = v
unfoldable pub put_field : Text → Value → Fields → Fields
put_field k v end = entry k v end
put_field k v (entry j w m) = if text_eq j k then entry k v m else entry j w (put_field k v m)

-- delete(m, k)
unfoldable pub delete_field : Text → Fields → Fields
delete_field k end = end
delete_field k (entry j v m) =
    let rest = delete_field k m in if text_eq j k then rest else entry j v rest

pub field-put :
    (k j : Text) (v : Value) (m : Fields)
    → field j (put_field k v m) ≡ (if text_eq k j then some v else field j m)
unfolding field put_field
field-put k j v end = refl
field-put k j v (entry i w m) =
    ground (arith, text_eq_iff k j, text_eq_iff i k, text_eq_iff i j, field-put k j v m)

pub field-delete :
    (k j : Text) (m : Fields)
    → field j (delete_field k m) ≡ (if text_eq k j then none else field j m)
unfolding field delete_field
field-delete k j end = ground arith
field-delete k j (entry i w m) =
    ground (arith, text_eq_iff k j, text_eq_iff i k, text_eq_iff i j, field-delete k j m)

-- Writing back what is there changes nothing.
pub put-field_self : (k : Text) (v : Value) (m : Fields) → field k m ≡ some v → put_field k v m ≡ m
unfolding field put_field
put-field_self k v end h = cc
put-field_self k v (entry j w m) h = ground (arith, text_eq_iff j k, put-field_self k v m)

pub ruleset field_laws = (field-put, field-delete)

-- `v.(map[string]any)`: a typed nil map passes, and reads as the empty one.
unfoldable pub as_map : Value → Option Fields
as_map (obj m) = some m
as_map nil_obj = some end
as_map _ = none

-- `v.([]any)`
unfoldable pub as_slice : Value → Option Items
as_slice (arr xs) = some xs
as_slice nil_arr = some nil
as_slice _ = none

abbrev pub len : Items → ℕ
len nil = 0
len (cons x xs) = suc (len xs)

-- a[i], where i is in range
unfoldable pub item : Items → ℕ → Option Value
item nil i = none
item (cons x xs) zero = some x
item (cons x xs) (suc i) = item xs i

-- a[i] = v; the code writes in range only
unfoldable pub set_item : Items → ℕ → Value → Items
set_item nil i v = nil
set_item (cons x xs) zero v = cons v xs
set_item (cons x xs) (suc i) v = cons x (set_item xs i v)

-- append(a, b...)
unfoldable pub append_items : Items → Items → Items
append_items nil ys = ys
append_items (cons x xs) ys = cons x (append_items xs ys)

-- slices.Insert(a, i, v), for i up to the length
unfoldable pub insert_item : Items → ℕ → Value → Items
insert_item xs zero v = cons v xs
insert_item nil (suc i) v = cons v nil
insert_item (cons x xs) (suc i) v = cons x (insert_item xs i v)

-- slices.Delete(a, i, i+1)
unfoldable pub delete_item : Items → ℕ → Items
delete_item nil i = nil
delete_item (cons x xs) zero = xs
delete_item (cons x xs) (suc i) = cons x (delete_item xs i)
