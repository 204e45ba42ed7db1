-- ===== src/Migration/Stamped.antt =====
-- transform/migration.go: what SetVersion leaves of a tree, and where it panics.
use fastconf.Base.{
  ◌≡◌, refl, sym, ap, ◌∙◌, false, Option, none, some, Text, text_eq_refl, text_eq, some_eq,
}
use fastconf.Confmap.Value.{
  Value, Fields, null, bool, str, num, other, nil_arr, arr, nil_obj, obj, end, field, put_field,
  field-put,
}
use fastconf.Base.Int.{ℤ}
use fastconf.Migration.{meta_key, field_key, int_value, write_version, set_version}

pub panics_at_nil : (m : Fields) (v : ℤ) → set_version m v ≡ none → field meta_key m ≡ some nil_obj
unfolding set_version
panics_at_nil m v h = go (field meta_key m) h
  where
    go : (o : Option Value) → write_version m v o ≡ none → o ≡ some nil_obj
    go (some nil_obj) e = refl
    go none e = cc
    go (some null) e = cc
    go (some (bool x)) e = cc
    go (some (str x)) e = cc
    go (some (num x)) e = cc
    go (some (other x)) e = cc
    go (some nil_arr) e = cc
    go (some (arr x)) e = cc
    go (some (obj x)) e = cc

-- The tree with the version stored at _meta.schemaVersion, and all else as it was.
abbrev pub IsStamped : Fields → ℤ → Fields → Type 0
IsStamped m v out =
    ((meta : Fields) × (field meta_key out ≡ some (obj meta))
      × (field field_key meta ≡ some (int_value v))
      × ((old : Fields)
          → field meta_key m ≡ some (obj old)
          → (k : Text) → text_eq field_key k ≡ false
          → field k meta ≡ field k old))
    × ((k : Text) → text_eq meta_key k ≡ false → field k out ≡ field k m)

abbrev as_obj : Value → Option Fields
as_obj (obj m) = some m
as_obj _ = none

obj_eq : {m n : Fields} → obj m ≡ obj n → m ≡ n
obj_eq h = some_eq (ap as_obj h)

-- A map stored under "_meta" that is another one with the version put into it.
stamped :
    (m meta : Fields) (v : ℤ)
    → ((old : Fields) → field meta_key m ≡ some (obj old) → old ≡ meta)
    → IsStamped m v (put_field meta_key (obj (put_field field_key (int_value v) meta)) m)
stamped m meta v same = (
  (
    put_field field_key (int_value v) meta,
    rw
        (
          field-put meta_key meta_key (obj (put_field field_key (int_value v) meta)) m,
          text_eq_refl meta_key,
        )
        refl,
    rw (field-put field_key field_key (int_value v) meta, text_eq_refl field_key) refl,
    λ old e k d. rw (field-put field_key k (int_value v) meta, d) (sym (ap (field k) (same old e))),
  ),
  λ k d. rw (field-put meta_key k (obj (put_field field_key (int_value v) meta)) m, d) refl,
)

pub set_version-IsStamped :
    (m out : Fields) (v : ℤ) → set_version m v ≡ some out → IsStamped m v out
unfolding set_version
set_version-IsStamped m out v h = go (field meta_key m) refl h
  where
    fresh :
        (x : Value)
        → field meta_key m ≡ some x
        → as_obj x ≡ none
        → IsStamped m v (put_field meta_key (obj (put_field field_key (int_value v) end)) m)
    fresh x e n = stamped m end v (λ old f. cc (ap as_obj (some_eq (sym e ∙ f)), n))

    go :
        (o : Option Value)
        → field meta_key m ≡ o
        → write_version m v o ≡ some out
        → IsStamped m v out
    go none e w = rw (← some_eq w) (stamped m end v (λ old f. cc))
    go (some (obj meta)) e w =
        rw (← some_eq w) (stamped m meta v (λ old f. sym (obj_eq (some_eq (sym e ∙ f)))))
    go (some nil_obj) e w = cc
    go (some null) e w = rw (← some_eq w) (fresh null e refl)
    go (some (bool x)) e w = rw (← some_eq w) (fresh (bool x) e refl)
    go (some (str x)) e w = rw (← some_eq w) (fresh (str x) e refl)
    go (some (num x)) e w = rw (← some_eq w) (fresh (num x) e refl)
    go (some (other x)) e w = rw (← some_eq w) (fresh (other x) e refl)
    go (some nil_arr) e w = rw (← some_eq w) (fresh nil_arr e refl)
    go (some (arr x)) e w = rw (← some_eq w) (fresh (arr x) e refl)
