-- ===== src/Confmap/Deep/ByKey.antt =====
-- `deepAt` merges key by key: what stands under a key in the result depends on what the two maps
-- hold under that key, and on nothing else.
use fastconf.Base.{
  ◌≡◌, refl, ap, ◌∙◌, inl, inr, Option, none, some, Bool-cases, Result, ok, ◌>>=◌, >>=-eq-ok, Text,
  text_eq, text_eq_iff, Option-cases,
}
use fastconf.Confmap.Value.{Value, Fields, end, entry, field, put_field, field-put}
use fastconf.Confmap.Deep.{Options, MergeError, deep_at, merge_value, child_path}

-- No key stands twice: every map of a Go program is so.
abbrev pub IsDistinct : Fields → Type 0
IsDistinct end = Unit
IsDistinct (entry k v m) = (field k m ≡ none) × IsDistinct m

-- The specification: the merge under one key, each side holding a value there or none.
abbrev pub merged_at :
    Options → Text → Option Value → Option Value → Result MergeError (Option Value)
merged_at opt path dv none = ok dv
merged_at opt path none (some sv) = ok (some sv)
merged_at opt path (some dv) (some sv) = merge_value opt path dv sv >>= λ m. ok (some m)

-- One round of the loop stores the merged value under the entry's key.
pub deep_at-entry :
    (opt : Options) (prefix k : Text) (sv : Value) (dst src r : Fields)
    → deep_at opt prefix dst (entry k sv src) ≡ ok r
    → (m : Value) × (merged_at opt (child_path prefix k) (field k dst) (some sv) ≡ ok (some m))
      × (deep_at opt prefix (put_field k m dst) src ≡ ok r)
unfolding deep_at
deep_at-entry opt prefix k sv dst src r h = elim (Option-cases (field k dst)) [
  | inl e ↦ (sv, rw e refl, rw (e, deep_at) at h)
  | inr (dv, e) ↦
      let (m, merge, rest) =
        >>=-eq-ok (merge_value opt (child_path prefix k) dv sv) _ (rw (e, deep_at) at h) in
      (m, rw (e, merge) refl, rest)
]

-- When `deepAt` succeeds, the value under each key is the merge of the two values under that key:
-- the destination's where the source has none, the source's where the destination has none, and
-- `mergeValue` of the two at the key's path where both have one.
pub deep_at_by_key :
    (opt : Options) (prefix : Text) (dst src r : Fields) (k : Text)
    → IsDistinct src
    → deep_at opt prefix dst src ≡ ok r
    → merged_at opt (child_path prefix k) (field k dst) (field k src) ≡ ok (field k r)
unfolding deep_at field
deep_at_by_key opt prefix dst end r k d h = ap (λ x. x >>= λ m. ok (field k m)) h
deep_at_by_key opt prefix dst (entry j sv src) r k d h =
    let (m, merge, rest) = deep_at-entry opt prefix j sv dst src r h in
    let ih = deep_at_by_key opt prefix (put_field j m dst) src r k d.1 rest in
    elim (Bool-cases (text_eq j k)) [
      | inl e ↦
          let p = (text_eq_iff j k).0 e in
          let gone : field k src ≡ none = rw p at d.0 in
          rw e ((rw p at merge) ∙ (rw (field-put j k m dst, e, gone) at ih))
      | inr e ↦ rw e (rw (field-put j k m dst, e) at ih)
    ]
