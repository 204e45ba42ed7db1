-- ===== src/Confmap/Patch/Edits.antt =====
-- `editAt` changes the container that holds the last token, and what an edit stores is read back.
use fastconf.Base.{
  ok_eq, ℕ, zero, suc, ◌≤◌, ◌≡◌, refl, ap, inl, inr, true, false, Option, none, some, List, [], ◌∷◌,
  arith, Bool-cases, ok, >>=-eq-ok, Text, codes, text_eq, text_eq_refl,
}
use fastconf.Confmap.Value.{
  Value, Items, null, nil_arr, arr, nil_obj, obj, nil, cons, field-put, len, item, set_item,
  insert_item,
}
use fastconf.Confmap.Pointer.{array_index}
use fastconf.Confmap.Patch.Numbers.{patch_null}
use fastconf.Confmap.Patch.{child_at, get_at, edit_at, store_child, add_to, LeafEdit, item_or_panic}

-- The tokens before the last, and the last.
abbrev pub init : Text → List Text → List Text
init p [] = []
init p (q ∷ qs) = p ∷ init q qs

abbrev pub last : Text → List Text → Text
last p [] = p
last p (q ∷ qs) = last q qs

len-set : (xs : Items) (i : ℕ) (v : Value) → len (set_item xs i v) ≡ len xs
unfolding set_item
len-set nil i v = refl
len-set (cons x xs) zero v = refl
len-set (cons x xs) (suc i) v = ap suc (len-set xs i v)

item-set_self :
    (xs : Items) (i : ℕ) (v : Value) {x : Value}
    → item xs i ≡ some x
    → item (set_item xs i v) i ≡ some v
unfolding item set_item
item-set_self nil i v h = cc
item-set_self (cons x xs) zero v h = refl
item-set_self (cons x xs) (suc i) v h = item-set_self xs i v h

len-insert : (xs : Items) (i : ℕ) (v : Value) → i ≤ len xs → len (insert_item xs i v) ≡ suc (len xs)
unfolding insert_item
len-insert xs zero v h = refl
len-insert nil (suc i) v h = absurd (omega arith)
len-insert (cons x xs) (suc i) v h = ap suc (len-insert xs i v (omega arith))

item-insert : (xs : Items) (i : ℕ) (v : Value) → i ≤ len xs → item (insert_item xs i v) i ≡ some v
unfolding item insert_item
item-insert xs zero v h = refl
item-insert nil (suc i) v h = absurd (omega arith)
item-insert (cons x xs) (suc i) v h = item-insert xs i v (omega arith)

-- An index that an insertion takes is one that a read takes afterwards.
array_index-add :
    (tok : Text) (n i : ℕ)
    → text_eq tok (codes "-") ≡ false
    → array_index tok n true ≡ ok i
    → (array_index tok (suc n) false ≡ ok i) × (i ≤ n)
unfolding array_index
array_index-add tok n i dash h = ground arith

item-ok : (xs : Items) (i : ℕ) {x : Value} → item_or_panic (item xs i) ≡ ok x → item xs i ≡ some x
item-ok xs i {x} h = go (item xs i) h
  where
    go : (o : Option Value) → item_or_panic o ≡ ok x → o ≡ some x
    go none h = cc
    go (some y) h = ap some (ok_eq h)

child-store :
    (node : Value) (tok : Text) (child v : Value)
    → child_at node tok ≡ ok child
    → child_at (store_child node tok v) tok ≡ ok v
unfolding child_at store_child
child-store (obj m) tok child v h = rw (field-put, text_eq_refl) refl
child-store nil_obj tok child v h = cc
child-store (arr xs) tok child v h =
    let (i, index, read) = >>=-eq-ok (array_index tok (len xs) false) _ h in
    rw (index, store_child)
      (unfold child_at in rw (len-set xs i v, index, item-set_self xs i v (item-ok xs i read)) refl)
child-store nil_arr tok child v h = let (i, _, read) = >>=-eq-ok (array_index tok 0 false) _ h in cc
child-store node tok child v h = cc

pub child-add :
    (v c : Value) (tok : Text) (c' : Value)
    → text_eq tok (codes "-") ≡ false
    → patch_null c ≡ false
    → add_to v c tok ≡ ok c'
    → child_at c' tok ≡ ok v
unfolding child_at add_to patch_null
child-add v null tok c' dash n h = cc
child-add v (obj m) tok c' dash n h = rw (← ok_eq h, field-put, text_eq_refl) refl
child-add v (arr xs) tok c' dash n h =
    let (i, index, stored) = >>=-eq-ok (array_index tok (len xs) true) _ h in
    let (again, fits) = array_index-add tok (len xs) i dash index in
    rw (← ok_eq stored, len-insert xs i v fits, again, item-insert xs i v fits) refl
child-add v nil_obj tok c' dash n h = cc
child-add v nil_arr tok c' dash n h = cc
child-add v c tok c' dash n h = cc

edit-one :
    (node : Value) (p : Text) (edit : LeafEdit) (r : Value)
    → edit_at node (p ∷ []) edit ≡ ok r
    → (patch_null node ≡ false) × (edit node p ≡ ok r)
unfolding edit_at
edit-one node p edit r h = elim (Bool-cases (patch_null node)) [
  | inl e ↦ cc
  | inr e ↦ (e, rw e at h)
]

edit-step :
    (node : Value) (p q : Text) (qs : List Text) (edit : LeafEdit) (r : Value)
    → edit_at node (p ∷ q ∷ qs) edit ≡ ok r
    → (child : Value) × (updated : Value) × (child_at node p ≡ ok child)
      × (edit_at child (q ∷ qs) edit ≡ ok updated)
      × (store_child node p updated ≡ r)
unfolding edit_at
edit-step node p q qs edit r h = elim (Bool-cases (patch_null node)) [
  | inl e ↦ cc
  | inr e ↦
      let (child, read, rest) = >>=-eq-ok (child_at node p) _ (rw e at h) in
      let (updated, edited, stored) = >>=-eq-ok (edit_at child (q ∷ qs) edit) _ rest in
      (child, updated, read, edited, ok_eq stored)
]

-- When `editAt` succeeds at a non-empty path, the edit was applied, with the last token, to the
-- container that `getAt` finds at the tokens before it, which is not null, and `getAt` finds the
-- edited container there afterwards.
pub edit_at-parent :
    (node : Value) (p : Text) (ps : List Text) (edit : LeafEdit) (r : Value)
    → edit_at node (p ∷ ps) edit ≡ ok r
    → (c : Value) × (c' : Value) × (get_at node (init p ps) ≡ ok c)
      × (patch_null c ≡ false)
      × (edit c (last p ps) ≡ ok c')
      × (get_at r (init p ps) ≡ ok c')
unfolding get_at
edit_at-parent node p [] edit r h =
    let (full, applied) = edit-one node p edit r h in (node, r, refl, full, applied, refl)
edit_at-parent node p (q ∷ qs) edit r h =
    let (child, updated, read, edited, stored) = edit-step node p q qs edit r h in
    let (c, c', before, full, applied, after) = edit_at-parent child q qs edit updated edited in
    (
      c,
      c',
      rw read before,
      full,
      applied,
      rw (← stored, child-store node p child updated read) after,
    )
