-- ===== src/Confmap/Deep/Total.antt =====
-- Without strict mode no merge fails: the index of a list merged by key always points at a map of
-- the list, so neither a nil map is written nor an index runs out of range.
use fastconf.Base.{
  some_eq, ℕ, zero, suc, ◌≡◌, refl, ap, ◌∙◌, inl, inr, Bool, true, false, Option, none, some, [],
  arith, ◌==◌, if◌then◌else◌, Bool-cases, Result, ok, ◌>>=◌, Text, text_eq,
}
use fastconf.Confmap.Value.{
  Value, Items, Fields, nil_arr, arr, nil_obj, obj, nil, cons, end, entry, field, put_field, len,
  item, set_item, append_items,
}
use fastconf.Base.Dict
use fastconf.Base.Dict.{Dict, get-put}
use fastconf.Confmap.Deep.{
  Options, MergeError, deep_at, merge_value, merge_items, merge_existing, merge_slices,
  merge_scalar, child_path, list_path, entry_key, index_entries, merge_key, replace, grown,
  merge_slices_by, deep,
}

item-append_left :
    (i : ℕ) (a b : Items) {x : Value} → item a i ≡ some x → item (append_items a b) i ≡ some x
unfolding item append_items
item-append_left i nil b h = cc
item-append_left zero (cons y a) b h = h
item-append_left (suc i) (cons y a) b h = item-append_left i a b h

item-append_len : (a b : Items) (x : Value) → item (append_items a (cons x b)) (len a) ≡ some x
unfolding item append_items
item-append_len nil b x = refl
item-append_len (cons y a) b x = item-append_len a b x

same_test : (i j : ℕ) → (i == j) ≡ (suc i == suc j)
same_test i j = ground arith

item-set :
    (a : Items) (i j : ℕ) (v : Value) {x : Value}
    → item a j ≡ some x
    → item (set_item a i v) j ≡ some (if i == j then v else x)
unfolding item set_item
item-set nil i j v h = cc
item-set (cons y a) zero zero v h = ground arith
item-set (cons y a) zero (suc j) v h = ground arith
item-set (cons y a) (suc i) zero v h = ground arith
item-set (cons y a) (suc i) (suc j) v {x} h =
    item-set a i j v h ∙ ap (λ b. some (if b then v else x)) (same_test i j)

-- Every index in `idx` is that of a map of the list.
abbrev IsIndex : Items → Dict ℕ → Type 0
IsIndex a idx =
    (k : Text) (i : ℕ) → Dict.get k idx ≡ some i → (m : Fields) × (item a i ≡ some (obj m))

IsIndex-empty : (a : Items) → IsIndex a []
unfolding Dict.get
IsIndex-empty a k i e = absurd (cc)

IsIndex-put :
    (a : Items) (idx : Dict ℕ) (k : Text) (i : ℕ) (m : Fields)
    → IsIndex a idx
    → item a i ≡ some (obj m)
    → IsIndex a (Dict.put k i idx)
IsIndex-put a idx k i m h at j n e = elim (Bool-cases (text_eq k j)) [
  | inl same ↦ let hit : i ≡ n = some_eq (rw (get-put k j i idx, same) at e) in (m, rw (← hit) at)
  | inr differ ↦ h j n (rw (get-put k j i idx, differ) at e)
]

IsIndex-append : (a b : Items) (idx : Dict ℕ) → IsIndex a idx → IsIndex (append_items a b) idx
IsIndex-append a b idx h k i e = let (m, at) = h k i e in (m, item-append_left i a b at)

IsIndex-set :
    (a : Items) (idx : Dict ℕ) (i : ℕ) (r : Fields)
    → IsIndex a idx
    → IsIndex (set_item a i (obj r)) idx
IsIndex-set a idx i r h k j e =
    let (m, at) = h k j e in
    elim (Bool-cases (i == j)) [
      | inl same ↦ (r, rw same at (item-set a i j (obj r) at))
      | inr differ ↦ (m, rw differ at (item-set a i j (obj r) at))
    ]

entry_key-obj : (key k : Text) (e : Value) → entry_key key e ≡ some k → (m : Fields) × (e ≡ obj m)
unfolding entry_key
entry_key-obj key k (obj m) h = (m, refl)
entry_key-obj key k e h = cc

append-append :
    (a : Items) (x : Value) (b : Items)
    → append_items (append_items a (cons x nil)) b ≡ append_items a (cons x b)
unfolding append_items
append-append nil x b = refl
append-append (cons y a) x b = ap (cons y) (append-append a x b)

len-append : (a : Items) (x : Value) → len (append_items a (cons x nil)) ≡ suc (len a)
unfolding append_items
len-append nil x = refl
len-append (cons y a) x = ap suc (len-append a x)

-- The index that `strategicMergeList` builds is right: `pre` is what its loop has passed.
index_entries-IsIndex :
    (key : Text) (pre a : Items) (idx : Dict ℕ)
    → IsIndex (append_items pre a) idx
    → IsIndex (append_items pre a) (index_entries key (len pre) a idx)
unfolding index_entries
index_entries-IsIndex key pre nil idx h = h
index_entries-IsIndex key pre (cons e a) idx h =
    rw (← append-append pre e a, ← len-append pre e)
      (index_entries-IsIndex key (append_items pre (cons e nil)) a _
        (rw (append-append pre e a) (go (entry_key key e) refl)))
  where
    go :
        (o : Option Text)
        → entry_key key e ≡ o
        → IsIndex
            (append_items pre (cons e a))
            (elim o [ none ↦ idx | some k ↦ Dict.put k (len pre) idx ])
    go none eq = h
    go (some k) eq =
        let (m, is_map) = entry_key-obj key k e eq in
        IsIndex-put (append_items pre (cons e a)) idx k (len pre) m h
          (rw (← is_map) (item-append_len pre a e))

starts-IsIndex : (key : Text) (a : Items) → IsIndex a (index_entries key 0 a [])
unfolding append_items
starts-IsIndex key a = index_entries-IsIndex key nil a [] (IsIndex-empty a)

abbrev IsOk : {A : Type 0} → Result MergeError A → Type 0
IsOk {A} r = (a : A) × (r ≡ ok a)

IsOk-bind :
    {A B : Type 0} (m : Result MergeError A) (f : A → Result MergeError B)
    → IsOk m
    → ((a : A) → IsOk (f a))
    → IsOk (m >>= f)
IsOk-bind m f (a, h) k = rw h (k a)

IsOk-option :
    {A B : Type 0} (o : Option A) (x : Result MergeError B) (f : A → Result MergeError B)
    → IsOk x
    → ((a : A) → o ≡ some a → IsOk (f a))
    → IsOk (elim o [ none ↦ x | some a ↦ f a ])
IsOk-option none x f h k = h
IsOk-option (some a) x f h k = k a refl

module _ (opt : Options) (relaxed : opt.strict ≡ false) where
  replace-IsOk : (path : Text) (v : Value) → IsOk (replace opt path v)
  replace-IsOk path v = (v, rw relaxed refl)

  scalar-IsOk : (path : Text) (d v : Value) → IsOk (merge_scalar opt path d v)
  unfolding merge_scalar
  scalar-IsOk path d v = (v, rw relaxed refl)

  slices-IsOk :
      (path : Text) (dv : Value) (ds : Items) (sv : Value) (ss : Items)
      (f : Text → Result MergeError Items)
      → ((key : Text) → IsOk (f key))
      → IsOk (merge_slices opt path dv ds sv ss f)
  unfolding merge_slices
  slices-IsOk path dv ds sv ss f h = go (merge_key opt path)
    where
      appended : (b : Bool) → IsOk (if b then ok (grown dv (append_items ds ss)) else ok sv)
      appended true = (_, refl)
      appended false = (_, refl)

      go : (o : Option Text) → IsOk (merge_slices_by opt dv ds sv ss f o)
      go none = appended opt.append_slices
      go (some key) = IsOk-bind (f key) _ (h key) (λ a. (grown dv a, refl))

  mutual
    unfolding deep_at entry_key

    deep_at-IsOk : (prefix : Text) (dst src : Fields) → IsOk (deep_at opt prefix dst src)
    deep_at-IsOk prefix dst end = (dst, refl)
    deep_at-IsOk prefix dst (entry k sv src) =
        IsOk-option (field k dst) _ _ (deep_at-IsOk prefix (put_field k sv dst) src) λ dv _.
          IsOk-bind _ _ (value-IsOk (child_path prefix k) dv sv)
            (λ m. deep_at-IsOk prefix (put_field k m dst) src)

    value-IsOk : (path : Text) (dv sv : Value) → IsOk (merge_value opt path dv sv)
    value-IsOk path (obj ds) (obj ss) = IsOk-bind _ _ (deep_at-IsOk path ds ss) (λ m. (obj m, refl))
    value-IsOk path (obj ds) nil_obj = (obj ds, refl)
    value-IsOk path (obj ds) sv = replace-IsOk path sv
    value-IsOk path nil_obj (obj ss) = (obj ss, refl)
    value-IsOk path nil_obj nil_obj = (nil_obj, refl)
    value-IsOk path nil_obj sv = replace-IsOk path sv
    value-IsOk path (arr ds) (arr ss) =
        slices-IsOk path (arr ds) ds (arr ss) ss _
          (λ key. items-IsOk path key ds (index_entries key 0 ds []) ss (starts-IsIndex key ds))
    value-IsOk path (arr ds) nil_arr =
        slices-IsOk path (arr ds) ds nil_arr nil _ (λ key. (ds, refl))
    value-IsOk path (arr ds) sv = replace-IsOk path sv
    value-IsOk path nil_arr (arr ss) =
        slices-IsOk path nil_arr nil (arr ss) ss _
          (λ key. items-IsOk path key nil [] ss (IsIndex-empty nil))
    value-IsOk path nil_arr nil_arr =
        slices-IsOk path nil_arr nil nil_arr nil _ (λ key. (nil, refl))
    value-IsOk path nil_arr sv = replace-IsOk path sv
    value-IsOk path dv sv = scalar-IsOk path dv sv

    items-IsOk :
        (path key : Text) (a : Items) (idx : Dict ℕ) (b : Items)
        → IsIndex a idx
        → IsOk (merge_items opt path key a idx b)
    items-IsOk path key a idx nil h = (a, refl)
    items-IsOk path key a idx (cons e b) h =
        IsOk-option (entry_key key e) _ _
          (items-IsOk path key (append_items a (cons e nil)) idx b (IsIndex-append a _ idx h))
          λ k eq.
            IsOk-option (Dict.get k idx) _ _
              (items-IsOk path key (append_items a (cons e nil)) (Dict.put k (len a) idx) b (
                let (m, is_map) = entry_key-obj key k e eq in
                IsIndex-put (append_items a (cons e nil)) idx k (len a) m (IsIndex-append a _ idx h)
                  (rw (← is_map) (item-append_len a nil e))))
              λ i at.
                let (m, here) = h k i at in
                let (r, merged) = existing-IsOk path key k m e eq in
                rw (here, merged)
                  (items-IsOk path key (set_item a i (obj r)) idx b (IsIndex-set a idx i r h))

    existing-IsOk :
        (path key k : Text) (existing : Fields) (e : Value)
        → entry_key key e ≡ some k
        → (r : Fields) × (merge_existing opt path (some (obj existing)) e ≡ ok (obj r))
    existing-IsOk path key k existing (obj m) h =
        let (r, merged) = deep_at-IsOk (list_path path) existing m in (r, rw merged refl)
    existing-IsOk path key k existing e h = cc

-- Without strict mode `Deep` into a map that is there returns a tree, whatever it merges.
pub deep_total :
    (opt : Options) (dst src : Fields)
    → opt.strict ≡ false
    → (r : Fields) × (deep opt (some dst) src ≡ ok (some r))
unfolding deep
deep_total opt dst src relaxed = let (r, h) = deep_at-IsOk opt relaxed [] dst src in (r, rw h refl)
