-- ===== src/Confmap/Deep/Strict.antt =====
-- Strict mode only refuses: where it accepts a merge, the lenient merge gives the same tree.
use fastconf.Base.{
  ℕ, ◌≡◌, refl, ◌∙◌, Bool, true, false, Option, none, some, [], if◌then◌else◌, Result, ok, err,
  ◌>>=◌, Text,
}
use fastconf.Confmap.Value.{
  Value, Items, Fields, nil_arr, arr, nil_obj, obj, nil, cons, end, entry, field, put_field, len,
  item, set_item, append_items,
}
use fastconf.Base.Dict
use fastconf.Base.Dict.{Dict}
use fastconf.Confmap.Deep.{
  merge_slices_by, type_mismatch, Options, MergeError, deep_at, merge_value, merge_items,
  merge_existing, merge_slices, merge_scalar, child_path, list_path, entry_key, index_entries,
  replace,
}

abbrev pub lenient : Options → Options
lenient opt = record opt { strict = false }

-- The second result is `ok` with the same value wherever the first is `ok`.
abbrev pub Agrees : {A : Type 0} → Result MergeError A → Result MergeError A → Type 0
Agrees (ok a) s = s ≡ ok a
Agrees (err e) s = Unit

Agrees-bind :
    {A B : Type 0} (m n : Result MergeError A) (f g : A → Result MergeError B)
    → Agrees m n
    → ((a : A) → Agrees (f a) (g a))
    → Agrees (m >>= f) (n >>= g)
Agrees-bind (ok a) n f g h k = rw h (k a)
Agrees-bind (err e) n f g h k = tt

Agrees-option :
    {A B : Type 0} (o : Option A) (x y : Result MergeError B) (f g : A → Result MergeError B)
    → Agrees x y
    → ((a : A) → Agrees (f a) (g a))
    → Agrees (elim o [ none ↦ x | some a ↦ f a ]) (elim o [ none ↦ y | some a ↦ g a ])
Agrees-option none x y f g h k = h
Agrees-option (some a) x y f g h k = k a

Agrees-refl : {A : Type 0} (m : Result MergeError A) → Agrees m m
Agrees-refl (ok a) = refl
Agrees-refl (err e) = tt

Agrees-if :
    {A : Type 0} (b : Bool) (a : A) (e : MergeError) → Agrees (if b then err e else ok a) (ok a)
Agrees-if true a e = tt
Agrees-if false a e = refl

module _ (opt : Options) where
  replace-Agrees :
      (path : Text) (v : Value) → Agrees (replace opt path v) (replace (lenient opt) path v)
  replace-Agrees path v = Agrees-if opt.strict v (type_mismatch path)

  scalar-Agrees :
      (path : Text) (d v : Value)
      → Agrees (merge_scalar opt path d v) (merge_scalar (lenient opt) path d v)
  unfolding merge_scalar
  scalar-Agrees path d v = Agrees-if _ v _

  slices_by-Agrees :
      (dv : Value) (ds : Items) (sv : Value) (ss : Items) (o : Option Text)
      (f g : Text → Result MergeError Items)
      → ((key : Text) → Agrees (f key) (g key))
      → Agrees (merge_slices_by opt dv ds sv ss f o) (merge_slices_by (lenient opt) dv ds sv ss g o)
  slices_by-Agrees dv ds sv ss none f g h = Agrees-refl _
  slices_by-Agrees dv ds sv ss (some key) f g h =
      Agrees-bind (f key) (g key) _ _ (h key) (λ a. refl)

  slices-Agrees :
      (path : Text) (dv : Value) (ds : Items) (sv : Value) (ss : Items)
      (f g : Text → Result MergeError Items)
      → ((key : Text) → Agrees (f key) (g key))
      → Agrees (merge_slices opt path dv ds sv ss f) (merge_slices (lenient opt) path dv ds sv ss g)
  unfolding merge_slices
  slices-Agrees path dv ds sv ss f g h = slices_by-Agrees dv ds sv ss _ f g h

  mutual
    unfolding deep_at

    deep_at-Agrees :
        (prefix : Text) (dst src : Fields)
        → Agrees (deep_at opt prefix dst src) (deep_at (lenient opt) prefix dst src)
    deep_at-Agrees prefix dst end = refl
    deep_at-Agrees prefix dst (entry k sv src) =
        Agrees-option (field k dst) _ _ _ _ (deep_at-Agrees prefix (put_field k sv dst) src) λ dv.
          Agrees-bind _ _ _ _ (value-Agrees (child_path prefix k) dv sv)
            (λ m. deep_at-Agrees prefix (put_field k m dst) src)

    value-Agrees :
        (path : Text) (dv sv : Value)
        → Agrees (merge_value opt path dv sv) (merge_value (lenient opt) path dv sv)
    value-Agrees path (obj ds) (obj ss) =
        Agrees-bind _ _ _ _ (deep_at-Agrees path ds ss) (λ m. refl)
    value-Agrees path (obj ds) nil_obj = refl
    value-Agrees path (obj ds) sv = replace-Agrees path sv
    value-Agrees path nil_obj (obj ss) = refl
    value-Agrees path nil_obj nil_obj = refl
    value-Agrees path nil_obj sv = replace-Agrees path sv
    value-Agrees path (arr ds) (arr ss) =
        slices-Agrees path (arr ds) ds (arr ss) ss _ _
          (λ key. items-Agrees path key ds (index_entries key 0 ds []) ss)
    value-Agrees path (arr ds) nil_arr =
        slices-Agrees path (arr ds) ds nil_arr nil _ _ (λ key. refl)
    value-Agrees path (arr ds) sv = replace-Agrees path sv
    value-Agrees path nil_arr (arr ss) =
        slices-Agrees path nil_arr nil (arr ss) ss _ _ (λ key. items-Agrees path key nil [] ss)
    value-Agrees path nil_arr nil_arr = slices-Agrees path nil_arr nil nil_arr nil _ _ (λ key. refl)
    value-Agrees path nil_arr sv = replace-Agrees path sv
    value-Agrees path dv sv = scalar-Agrees path dv sv

    items-Agrees :
        (path key : Text) (a : Items) (idx : Dict ℕ) (b : Items)
        → Agrees (merge_items opt path key a idx b) (merge_items (lenient opt) path key a idx b)
    items-Agrees path key a idx nil = refl
    items-Agrees path key a idx (cons e b) =
        Agrees-option (entry_key key e) _ _ _ _
          (items-Agrees path key (append_items a (cons e nil)) idx b)
          λ k.
            Agrees-option (Dict.get k idx) _ _ _ _
              (items-Agrees path key (append_items a (cons e nil)) (Dict.put k (len a) idx) b)
              λ i.
                Agrees-bind _ _ _ _ (existing-Agrees path (item a i) e)
                  (λ x. items-Agrees path key (set_item a i x) idx b)

    existing-Agrees :
        (path : Text) (o : Option Value) (e : Value)
        → Agrees (merge_existing opt path o e) (merge_existing (lenient opt) path o e)
    existing-Agrees path (some (obj existing)) (obj m) =
        Agrees-bind _ _ _ _ (deep_at-Agrees (list_path path) existing m) (λ r. refl)
    existing-Agrees path (some nil_obj) e = tt
    existing-Agrees path none e = tt
    existing-Agrees path (some x) e = replace-Agrees path e

Agrees-eq-ok : {A : Type 0} (m n : Result MergeError A) {a : A} → Agrees m n → m ≡ ok a → n ≡ ok a
Agrees-eq-ok (ok a) n h e = h ∙ e
Agrees-eq-ok (err x) n h e = cc

-- Whatever strict mode accepts, the merge without it gives the same tree.
pub strict_refines :
    (opt : Options) (prefix : Text) (dst src r : Fields)
    → deep_at opt prefix dst src ≡ ok r
    → deep_at (lenient opt) prefix dst src ≡ ok r
strict_refines opt prefix dst src r h = Agrees-eq-ok _ _ (deep_at-Agrees opt prefix dst src) h
