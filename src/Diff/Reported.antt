-- ===== src/Diff/Reported.antt =====
-- What a difference reports is what the two trees hold.
use fastconf.Base.{All-append, All-weaken}
use mathlib.Core.List.{append_assoc, append-nil}
use fastconf.Base.{
  ◌≡◌, refl, sym, ◌∙◌, inl, inr, false, Option, none, some, List, [], ◌∷◌, ◌++◌, Bool-cases, All,
  Text, text_eq,
}
use fastconf.Confmap.Value.{Value, Fields, null, obj, end, entry, field}
use fastconf.Confmap.Path.Found.{walk_found, walk-found}
use fastconf.Confmap.Path.{walk}
use fastconf.Diff.{
  added, removed, modified, DiffEntry, entry_at, ordered_keys, all_of, json_equal, if_changed,
  if_added, diff_value, diff_at, diff_maps,
}

module _ (marshal : Value → Text) where
  -- The change of an entry fits what two paths read, and the entry shows what they read.
  abbrev pub Reports : DiffEntry → Option Value → Option Value → Type 0
  Reports d a b = elim d.change [
    | added ↦ (a ≡ none) × (d.before ≡ null) × (b ≡ some d.after)
    | removed ↦ (a ≡ some d.before) × (b ≡ none) × (d.after ≡ null)
    | modified ↦
        (a ≡ some d.before) × (b ≡ some d.after) × (json_equal marshal d.before d.after ≡ false)
  ]

  -- An entry below a path, where the two sides hold so much.
  abbrev pub IsBelow : List Text → Option Value → Option Value → DiffEntry → Type 0
  IsBelow path a b d =
      (rest : List Text) × (d.segs ≡ path ++ rest)
      × Reports d (walk_found a rest) (walk_found b rest)

  All-all_of :
      (P : DiffEntry → Type 0) (f : Text → List DiffEntry) (ks : List Text)
      → ((k : Text) → All P (f k))
      → All P (all_of f ks)
  All-all_of P f [] h = tt
  All-all_of P f (k ∷ ks) h = All-append P (f k) (all_of f ks) (h k) (All-all_of P f ks h)

  -- From a key to the map that has it.
  IsBelow-key :
      (path : List Text) (k : Text) (m n : Fields) (d : DiffEntry)
      → IsBelow (path ++ (k ∷ [])) (field k m) (field k n) d
      → IsBelow path (some (obj m)) (some (obj n)) d
  IsBelow-key path k m n d (rest, e, r) = (
    k ∷ rest,
    e ∙ append_assoc path (k ∷ []) rest,
    rw (walk-found m k rest, walk-found n k rest) r,
  )

  if_changed-IsBelow :
      (path : List Text) (a b : Value)
      → All (IsBelow path (some a) (some b)) (if_changed marshal path a b)
  if_changed-IsBelow path a b = elim (Bool-cases (json_equal marshal a b)) [
    | inl e ↦ rw e tt
    | inr e ↦ rw e (([], sym (append-nil path), (unfold walk in refl, unfold walk in refl, e)), tt)
  ]

  if_added-IsBelow :
      (path : List Text) (o : Option Value) → All (IsBelow path none o) (if_added path o)
  if_added-IsBelow path none = tt
  if_added-IsBelow path (some b) =
      (([], sym (append-nil path), (refl, refl, unfold walk in refl)), tt)

  removed-IsBelow :
      (path : List Text) (a : Value)
      → All (IsBelow path (some a) none) (entry_at path removed a null ∷ [])
  removed-IsBelow path a = (([], sym (append-nil path), (unfold walk in refl, refl, refl)), tt)

  mutual
    unfolding diff_value field

    diff_value-IsBelow :
        (path : List Text) (a : Value) (o : Option Value)
        → All (IsBelow path (some a) o) (diff_value marshal path a o)
    diff_value-IsBelow path a none = removed-IsBelow path a
    diff_value-IsBelow path (obj m) (some (obj n)) =
        All-all_of (IsBelow path (some (obj m)) (some (obj n))) _ (ordered_keys m n) (λ k.
          All-weaken _ _ (diff_at marshal path k n m) (λ d h. IsBelow-key path k m n d h)
            (diff_at-IsBelow path k n m))
    diff_value-IsBelow path a (some b) = if_changed-IsBelow path a b

    diff_at-IsBelow :
        (path : List Text) (k : Text) (n m : Fields)
        → All (IsBelow (path ++ (k ∷ [])) (field k m) (field k n)) (diff_at marshal path k n m)
    diff_at-IsBelow path k n end = if_added-IsBelow (path ++ (k ∷ [])) (field k n)
    diff_at-IsBelow path k n (entry j v m) = elim (Bool-cases (text_eq j k)) [
      | inl e ↦ rw e (diff_value-IsBelow (path ++ (k ∷ [])) v (field k n))
      | inr e ↦ rw e (diff_at-IsBelow path k n m)
    ]

  -- Each difference of two maps names a path of keys, and what its change tells is what the two hold
  -- there: added, nothing and the value after; removed, the value before and nothing; modified, two
  -- values that jsonEqual tells apart.
  pub diff_maps-Reports :
      (a b : Fields)
      → All (λ d. Reports d (walk (obj a) d.segs) (walk (obj b) d.segs)) (diff_maps marshal [] a b)
  unfolding diff_maps
  diff_maps-Reports a b = All-all_of _ _ (ordered_keys a b) (λ k.
      All-weaken _ _ (diff_at marshal [] k b a)
        (λ d h. let (rest, e, r) = IsBelow-key [] k a b d h in rw e r) (diff_at-IsBelow [] k b a))
