-- ===== src/Confmap/Clone.antt =====
-- confmap/clone.go: deep copies. Values are not shared in the model, so a copy is an equal tree; the
-- typed nils stay nil.
use fastconf.Confmap.Value.{
  Value, Items, Fields, null, bool, str, num, other, nil_arr, arr, nil_obj, obj, nil, cons, end,
  entry,
}

unfoldable mutual
  -- `CloneValue`
  pub clone_value : Value → Value
  clone_value nil_obj = nil_obj
  clone_value (obj m) = obj (clone_fields m)
  clone_value nil_arr = nil_arr
  clone_value (arr xs) = arr (clone_items xs)
  clone_value null = null
  clone_value (bool b) = bool b
  clone_value (str s) = str s
  clone_value (num n) = num n
  clone_value (other i) = other i

  -- The loop of `DeepClone`.
  pub clone_fields : Fields → Fields
  clone_fields end = end
  clone_fields (entry k v m) = entry k (clone_value v) (clone_fields m)

  pub clone_items : Items → Items
  clone_items nil = nil
  clone_items (cons v xs) = cons (clone_value v) (clone_items xs)
