-- ===== src/Secret/Plan.antt =====
-- internal/secret/plan.go: the masks of a tree by the secret fields of its type. The plans of types
-- are nodes of a graph, since types can be recursive: `plans` gives the node of each number.
-- Reflection, which builds them, is left out.
use fastconf.Base.{
  itoa, digits, ℕ, suc, Bool, not, ◌&&◌, Option, none, some, List, [], ◌∷◌, ◌++◌, if◌then◌else◌,
  Text, text_eq,
}
use fastconf.Base.{codes}
use fastconf.Confmap.Value.{as_map}
use fastconf.Secret.{Redactor, redact_patterns}
use fastconf.Confmap.Value.{Value, Items, Fields, null, arr, obj, nil, cons, end, entry}

pub data PlanKind : Type 0 where
  plan_struct plan_list plan_map plan_other : PlanKind

pub record PlanField : Type 0 where
  pub name : Text
  pub marked : Bool
  pub child : ℕ

-- `typePlan`
pub record TypePlan : Type 0 where
  pub kind : PlanKind
  pub is_opaque : Bool
  pub secrets : Bool
  pub fields : List PlanField
  pub elem_plan : ℕ

-- `joinPath`
unfoldable pub join_key : Text → Text → Text
join_key [] child = child
join_key (c ∷ parent) child = (c ∷ parent) ++ (b'.' ∷ child)

-- The field of a name.
unfoldable pub field_of : Text → List PlanField → Option PlanField
unfolding text_eq
field_of name [] = none
field_of name (f ∷ l) = let rest = field_of name l in if text_eq f.name name then some f else rest

module _ (plans : ℕ → TypePlan) (redactor : Text → Value → Value) where
  -- A marked member goes to the redactor; any other is masked by its own type, if that has secrets.
  abbrev pub masked_member : Option PlanField → Text → Value → (TypePlan → Value) → Value
  masked_member none path v mask = v
  masked_member (some f) path v mask =
      if f.marked
      then redactor path v
      else if (plans f.child).secrets
      then mask (plans f.child)
      else v

  -- `redact`. The loop over the fields of a struct goes over the members of the map instead, each with
  -- its field: the names of JSON fields are distinct.
  unfoldable mutual
    unfolding field_of join_key digits

    pub mask_value : TypePlan → Text → Value → Value
    mask_value p path null = null
    mask_value p path (obj m) =
        let fields = mask_members p path m in
        let values = mask_entries (plans p.elem_plan) path m in
        if not p.secrets
        then obj m
        else if p.is_opaque
        then redactor path (obj m)
        else elim p.kind [ plan_struct ↦ obj fields | plan_map ↦ obj values | _ ↦ obj m ]
    mask_value p path (arr xs) =
        let items = mask_items (plans p.elem_plan) path 0 xs in
        if not p.secrets
        then arr xs
        else if p.is_opaque
        then redactor path (arr xs)
        else elim p.kind [ plan_list ↦ arr items | _ ↦ arr xs ]
    mask_value p path v = if p.secrets && p.is_opaque then redactor path v else v

    -- The members of a struct.
    pub mask_members : TypePlan → Text → Fields → Fields
    mask_members p path end = end
    mask_members p path (entry k v m) =
        entry k
          (masked_member (field_of k p.fields) (join_key path k) v
            (λ q. mask_value q (join_key path k) v))
          (mask_members p path m)

    pub mask_entries : TypePlan → Text → Fields → Fields
    mask_entries p path end = end
    mask_entries p path (entry k v m) =
        entry k (mask_value p (join_key path k) v) (mask_entries p path m)

    pub mask_items : TypePlan → Text → ℕ → Items → Items
    mask_items p path i nil = nil
    mask_items p path i (cons v xs) =
        cons (mask_value p (join_key path (itoa i)) v) (mask_items p path (suc i) xs)

abbrev pub redacted_key : Text
redacted_key = codes "$redacted"

abbrev pub map_or_wrapped : Value → Option Fields → Fields
map_or_wrapped v (some m) = m
map_or_wrapped v none = entry redacted_key v end

-- `Apply`, with the patterns of the plan
unfoldable pub apply_plan : (ℕ → TypePlan) → TypePlan → List (List Text) → Redactor → Fields → Value
unfolding mask_value as_map redact_patterns
apply_plan plans root patterns redactor tree =
    let value = mask_value plans redactor root [] (obj tree) in
    redact_patterns (obj (map_or_wrapped value (as_map value))) [] patterns redactor
