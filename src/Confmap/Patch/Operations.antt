-- ===== src/Confmap/Patch/Operations.antt =====
-- What each operation of a patch guarantees of the document that it leaves.
use fastconf.Base.{
  ok_eq, ◌≡◌, refl, sym, ap, ◌∙◌, ◌↔◌, inl, inr, true, false, some, List, [], ◌∷◌, ◌==◌, Bool-cases,
  length, Result, ok, err, ◌>>=◌, >>=-eq-ok, Text, codes, text_eq, text_eq_refl,
}
use fastconf.Confmap.Value.{Value, Fields, obj, field, delete_field, field-delete}
use fastconf.Confmap.Pointer.{PatchError, pointer, not_found}
use fastconf.Confmap.Patch.Numbers.{patch_equal}
use fastconf.Confmap.Patch.{
  present, PatchOp, run_op, move_to, remove_at, child_at, get_at, edit_at, add_to, remove_from,
  is_prefix,
}
use fastconf.Confmap.Patch.Edits.{init, last, edit_at-parent, child-add}

module _ {A B C : Type 0} where
  bind-eq :
      (m : Result PatchError A) (f : A → Result PatchError B) (g : A → Result PatchError C)
      (h : C → Result PatchError B)
      → ((a : A) → f a ≡ (g a >>= h))
      → (m >>= f) ≡ ((m >>= g) >>= h)
  bind-eq (ok a) f g h e = e a
  bind-eq (err x) f g h e = refl

bind-ok : {A : Type 0} (m : Result PatchError A) → (m >>= λ a. ok a) ≡ m
bind-ok (ok a) = refl
bind-ok (err e) = refl

get_at-last :
    (node : Value) (p : Text) (ps : List Text)
    → get_at node (p ∷ ps) ≡ (get_at node (init p ps) >>= λ c. child_at c (last p ps))
unfolding get_at
get_at-last node p [] = bind-ok (child_at node p)
get_at-last node p (q ∷ qs) = bind-eq (child_at node p) _ _ _ (λ child. get_at-last child q qs)

add-get :
    (root v r : Value) (p : Text) (ps : List Text)
    → text_eq (last p ps) (codes "-") ≡ false
    → edit_at root (p ∷ ps) (add_to v) ≡ ok r
    → get_at r (p ∷ ps) ≡ ok v
add-get root v r p ps dash h =
    let (c, c', before, full, applied, after) = edit_at-parent root p ps (add_to v) r h in
    rw (get_at-last r p ps, after) (child-add v c (last p ps) c' dash full applied)

move-apart :
    (root : Value) (from path : List Text) (v r : Value)
    → is_prefix from path ≡ false
    → move_to root from path v ≡ ok r
    → (rest : Value) × (edit_at root from remove_from ≡ ok rest)
      × (edit_at rest path (add_to v) ≡ ok r)
unfolding move_to
move-apart root from path v r apart h = elim (Bool-cases (length from == length path)) [
  | inl e ↦ >>=-eq-ok (edit_at root from remove_from) _ (rw (e, apart) at h)
  | inr e ↦ >>=-eq-ok (edit_at root from remove_from) _ (rw (e, apart) at h)
]

-- The value that an operation is to write: its own, or the one at `from`; a move onto itself
-- writes nothing.
pub data Writes (root : Value) (op : PatchOp) (path : List Text) (name : Text) (v : Value)
    : Type 0 where
  by_add : name ≡ codes "add" → op.value ≡ some v → Writes root op path name v
  by_replace : name ≡ codes "replace" → op.value ≡ some v → Writes root op path name v
  by_copy :
      (from : List Text)
      → name ≡ codes "copy"
      → pointer op.from ≡ ok from
      → get_at root from ≡ ok v
      → Writes root op path name v
  by_move :
      (from : List Text)
      → name ≡ codes "move"
      → pointer op.from ≡ ok from
      → get_at root from ≡ ok v
      → is_prefix from path ≡ false
      → Writes root op path name v

-- After an add, a replace, a copy or a move from elsewhere succeeds at a non-empty path whose last
-- token is not "-", `getAt` finds there the value that was to be written.
pub run_op-Writes :
    (root : Value) (op : PatchOp) (name p : Text) (ps : List Text) (v r : Value)
    → Writes root op (p ∷ ps) name v
    → text_eq (last p ps) (codes "-") ≡ false
    → run_op root op name (p ∷ ps) ≡ ok r
    → get_at r (p ∷ ps) ≡ ok v
unfolding run_op text_eq
run_op-Writes root op name p ps v r (by_add n value) dash h =
    add-get root v r p ps dash (rw (n, value) at h)
run_op-Writes root op name p ps v r (by_replace n value) dash h =
    let (rest, _, added) = >>=-eq-ok (edit_at root (p ∷ ps) remove_from) _ (rw (n, value) at h) in
    add-get rest v r p ps dash added
run_op-Writes root op name p ps v r (by_copy from n source read) dash h =
    add-get root v r p ps dash (rw (n, source, read) at h)
run_op-Writes root op name p ps v r (by_move from n source read apart) dash h =
    let moved : move_to root from (p ∷ ps) v ≡ ok r = rw (n, source, read) at h in
    let (rest, _, added) = move-apart root from (p ∷ ps) v r apart moved in
    add-get rest v r p ps dash added

-- A test operation changes no document: it succeeds, with the document as it is, exactly when
-- `getAt` finds at the path a value that `patchEqual` takes for the one that is given.
pub run_op-test :
    (root r : Value) (op : PatchOp) (path : List Text) (v : Value)
    → op.value ≡ some v
    → (run_op root op (codes "test") path ≡ ok r)
      ↔ ((r ≡ root) × ((cur : Value) × (get_at root path ≡ ok cur) × (patch_equal cur v ≡ true)))
unfolding run_op text_eq
run_op-test root r op path v value = (
  λ h.
      let (cur, read, checked) = >>=-eq-ok (get_at root path) _ (rw value at h) in
      elim (Bool-cases (patch_equal cur v)) [
        | inl e ↦ (sym (ok_eq (rw e at checked)), (cur, read, e))
        | inr e ↦ cc (rw e at checked)
      ],
  λ (same, (cur, read, e)). rw (value, read, e) (ap ok (sym same)),
)

child-remove :
    (m : Fields) (tok : Text) (c' : Value)
    → remove_from (obj m) tok ≡ ok c'
    → child_at c' tok ≡ err not_found
unfolding remove_from child_at
child-remove m tok c' h =
    let (_, _, removed) = >>=-eq-ok (present (field tok m)) _ h in
    let gone : obj (delete_field tok m) ≡ c' = ok_eq removed in
    rw (← gone, field-delete tok tok m, text_eq_refl tok) refl

-- After a remove succeeds at a member of an object, `getAt` finds nothing there.
pub run_op-remove :
    (root r : Value) (op : PatchOp) (p : Text) (ps : List Text) (m : Fields)
    → get_at root (init p ps) ≡ ok (obj m)
    → run_op root op (codes "remove") (p ∷ ps) ≡ ok r
    → get_at r (p ∷ ps) ≡ err not_found
unfolding run_op text_eq remove_at
run_op-remove root r op p ps m at h =
    let (c, c', before, full, applied, after) = edit_at-parent root p ps remove_from r h in
    let here : c ≡ obj m = ok_eq (sym before ∙ at) in
    rw (get_at-last r p ps, after) (child-remove m (last p ps) c' (rw here at applied))
