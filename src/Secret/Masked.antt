-- ===== src/Secret/Masked.antt =====
-- Where the type marks a field as secret, the mask reaches it.
use mathlib.Core.Path.{subst}
use fastconf.Base.{not, if◌then◌else◌}
use fastconf.Base.{Option-cases, some_eq, sym, inl, inr}
use fastconf.Base.{
  ℕ, ◌≡◌, refl, sym, ap, ◌∙◌, ◌⊎◌, inl, inr, Bool, true, false, not, some, List, [], ◌∷◌,
  if◌then◌else◌, Bool-cases, Text, text_eq, text_eq_iff, Option-cases, some_eq,
}
use fastconf.Confmap.Value.{Value, Fields, obj, end, entry, field}
use fastconf.Confmap.Path.{walk}
use fastconf.Confmap.Path.Found.{walk_found, walk-found, walk-map}
use fastconf.Secret.Plan.{
  PlanKind, plan_struct, plan_map, PlanField, TypePlan, join_key, field_of, masked_member,
  mask_value, mask_members, mask_entries,
}

-- The dotted path of keys below a path.
abbrev pub dotted : Text → List Text → Text
dotted path [] = path
dotted path (k ∷ ks) = dotted (join_key path k) ks

-- The choice that the mask of a map makes.
abbrev chosen : Bool → Bool → PlanKind → Value → Value → Value → Value → Value
chosen secrets is_opaque kind same hidden fields values =
    if not secrets
    then same
    else if is_opaque
    then hidden
    else elim kind [ plan_struct ↦ fields | plan_map ↦ values | _ ↦ same ]

chosen-struct :
    (secrets is_opaque : Bool) (kind : PlanKind) (same hidden fields values : Value)
    → secrets ≡ true
    → is_opaque ≡ false
    → kind ≡ plan_struct
    → chosen secrets is_opaque kind same hidden fields values ≡ fields
chosen-struct secrets is_opaque kind same hidden fields values h k e = rw (h, k, e) refl

if_true : (b : Bool) (x y : Value) → b ≡ true → (if b then x else y) ≡ x
if_true b x y h = rw h refl

walk-nil : (w x : Value) → walk w [] ≡ some x → w ≡ x
unfolding walk
walk-nil w x h = some_eq h

module _ (plans : ℕ → TypePlan) where
  -- The keys lead through struct fields that are not marked, and through map keys, to a marked field.
  abbrev pub Leads : TypePlan → List Text → Type 0
  Leads p [] = ⊥
  Leads p (k ∷ ks) =
      (p.secrets ≡ true)
      × (p.is_opaque ≡ false)
      × (((p.kind ≡ plan_struct)
            × ((f : PlanField) × (field_of k p.fields ≡ some f)
                × (((f.marked ≡ true) × (ks ≡ []))
                    ⊎ ((f.marked ≡ false)
                        × ((plans f.child).secrets ≡ true)
                        × Leads (plans f.child) ks))))
          ⊎ ((p.kind ≡ plan_map) × Leads (plans p.elem_plan) ks))

  module _ (redactor : Text → Value → Value) where
    -- What a struct's mask makes of a member.
    abbrev member_mask : TypePlan → Text → Text → Value → Value
    member_mask p path k v =
        masked_member plans redactor (field_of k p.fields) (join_key path k) v
          (λ q. mask_value plans redactor q (join_key path k) v)

    field-mask_members :
        (p : TypePlan) (path k : Text) (m : Fields) (v : Value)
        → field k m ≡ some v
        → field k (mask_members plans redactor p path m) ≡ some (member_mask p path k v)
    unfolding field mask_members
    field-mask_members p path k end v h = cc
    field-mask_members p path k (entry j w m) v h = elim (Bool-cases (text_eq j k)) [
      | inl e ↦
          let same : j ≡ k = (text_eq_iff j k).0 e in
          let value : w ≡ v = some_eq (rw e at h) in
          rw e (
            ap (λ x. some (member_mask p path x w)) same
            ∙ ap (λ x. some (member_mask p path k x)) value)
      | inr e ↦ rw e (field-mask_members p path k m v (rw e at h))
    ]

    field-mask_entries :
        (p : TypePlan) (path k : Text) (m : Fields) (v : Value)
        → field k m ≡ some v
        → field k (mask_entries plans redactor p path m)
          ≡ some (mask_value plans redactor p (join_key path k) v)
    unfolding field mask_value
    field-mask_entries p path k end v h = cc
    field-mask_entries p path k (entry j w m) v h = elim (Bool-cases (text_eq j k)) [
      | inl e ↦
          let same : j ≡ k = (text_eq_iff j k).0 e in
          let value : w ≡ v = some_eq (rw e at h) in rw (e, same, value) refl
      | inr e ↦ rw e (field-mask_entries p path k m v (rw e at h))
    ]

    mask_value-struct :
        (p : TypePlan) (path : Text) (m : Fields)
        → p.secrets ≡ true
        → p.is_opaque ≡ false
        → p.kind ≡ plan_struct
        → mask_value plans redactor p path (obj m) ≡ obj (mask_members plans redactor p path m)
    unfolding mask_value
    mask_value-struct p path m h k e =
        chosen-struct p.secrets p.is_opaque p.kind (obj m) (redactor path (obj m))
          (obj (mask_members plans redactor p path m))
          (obj (mask_entries plans redactor (plans p.elem_plan) path m)) h k e

    mask_value-map :
        (p : TypePlan) (path : Text) (m : Fields)
        → p.secrets ≡ true
        → p.is_opaque ≡ false
        → p.kind ≡ plan_map
        → mask_value plans redactor p path (obj m)
          ≡ obj (mask_entries plans redactor (plans p.elem_plan) path m)
    unfolding mask_value
    mask_value-map p path m h k e = rw (h, k, e) refl

    -- A value that is read through keys that lead to a marked field: the masked value reads there what
    -- the redactor makes of the dotted path and the value.
    pub masked-walk :
        (ks : List Text) (p : TypePlan) (path : Text) (v x : Value)
        → Leads p ks
        → walk v ks ≡ some x
        → walk (mask_value plans redactor p path v) ks ≡ some (redactor (dotted path ks) x)
    masked-walk [] p path v x l h = absurd l
    masked-walk (k ∷ ks) p path v x (secret, seen, ways) h =
        let (m, is_map) = walk-map v k ks x h in
        let there : walk_found (field k m) ks ≡ some x =
          sym (walk-found m k ks) ∙ (rw is_map at h) in
        elim (Option-cases (field k m)) [
          | inl e ↦ cc (rw e at there)
          | inr (w, e) ↦ elim ways [
            | inl (kind, (f, is_field, end_or_more)) ↦
                let here = join_key path k in
                rw (is_map, mask_value-struct p path m secret seen kind)
                  (walk-found _ k ks
                    ∙ (ap (λ o. walk_found o ks) (field-mask_members p path k m w e)
                        ∙ rw is_field (elim end_or_more [
                          | inl (marked, last) ↦
                              let same : w ≡ x =
                                walk-nil w x
                                  (subst (λ z. walk w z ≡ some x) last (rw e at there)) in
                              rw (marked, same)
                                (subst
                                  (λ z.
                                    walk (redactor here x) z ≡ some (redactor (dotted here z) x))
                                  (sym last) (unfold walk in refl))
                          | inr (plain, deeper, more) ↦ rw plain (
                              ap (λ z. walk z ks) (if_true (plans f.child).secrets _ w deeper)
                              ∙ masked-walk ks (plans f.child) here w x more (rw e at there))
                        ])))
            | inr (kind, more) ↦
                rw (is_map, mask_value-map p path m secret seen kind)
                  (walk-found _ k ks
                    ∙ (ap (λ o. walk_found o ks)
                          (field-mask_entries (plans p.elem_plan) path k m w e)
                        ∙ masked-walk ks (plans p.elem_plan) (join_key path k) w x more
                            (rw e at there)))
          ]
        ]
