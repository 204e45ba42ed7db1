-- ===== src/Assembly/Order.antt =====
-- The order of the assembled layers: by source class, then by priority, then as declared.
use fastconf.Base.{
  ◌<◌, ◌≡◌, sym, ◌⊎◌, inl, inr, Bool, true, false, ◌&&◌, List, [], ◌∷◌, arith, ltb, ◌==◌,
  Bool-cases, All, ok, >>=-eq-ok, Option-cases, ltb→lt, ok_eq,
}
use fastconf.Base.Int.{eqℤ→eq, eqℤ, ℤ, ltℤ}
use fastconf.Assembly.Sorting.{keep-sort, sort_stable-IsSorted, keep, IsSorted, IsOrder}
use fastconf.Assembly.{
  collect_layers, sort_stable, Inputs, assemble, ordered, class_number, StagedLayer, layer_before,
}

-- The same class and the same priority.
abbrev pub same_rank : StagedLayer → StagedLayer → Bool
same_rank a b =
    class_number a.class == class_number b.class && eqℤ a.class_priority b.class_priority

ltℤ_asym : (a b : ℤ) → ltℤ a b ≡ true → ltℤ b a ≡ false
unfolding ltℤ
ltℤ_asym a b h = ground arith

ltℤ_trans : (a b c : ℤ) → ltℤ b a ≡ false → ltℤ c b ≡ false → ltℤ c a ≡ false
unfolding ltℤ
ltℤ_trans a b c h k = ground arith

ltℤ_refl : (a : ℤ) → ltℤ a a ≡ false
unfolding ltℤ
ltℤ_refl a = ground arith

layer_before-IsOrder : IsOrder layer_before
unfolding layer_before
layer_before-IsOrder = record {
  asym = λ a b h. ground (arith, ltℤ_asym a.class_priority b.class_priority);
  trans = λ a b c h k. ground (
    arith,
    ltℤ_trans a.class_priority b.class_priority c.class_priority,
    ltℤ_asym a.class_priority b.class_priority,
    ltℤ_asym b.class_priority c.class_priority,
  );
}

same_rank-even :
    (l a b : StagedLayer) → same_rank l a ≡ true → same_rank l b ≡ true → layer_before a b ≡ false
unfolding layer_before
same_rank-even l a b h k = ground (
  arith,
  eqℤ→eq l.class_priority a.class_priority,
  eqℤ→eq l.class_priority b.class_priority,
  ltℤ_refl l.class_priority,
)

-- A lower class, or the same class and no greater priority.
abbrev pub NoLater : StagedLayer → StagedLayer → Type 0
NoLater x y =
    (class_number x.class < class_number y.class)
    ⊎ ((class_number x.class ≡ class_number y.class)
        × (ltℤ y.class_priority x.class_priority ≡ false))

-- Each layer comes no later than those after it.
abbrev pub IsRanked : List StagedLayer → Type 0
IsRanked [] = Unit
IsRanked (x ∷ l) = All (NoLater x) l × IsRanked l

not_before-NoLater : (x y : StagedLayer) → layer_before y x ≡ false → NoLater x y
unfolding layer_before
not_before-NoLater x y h = elim (Bool-cases (ltb (class_number x.class) (class_number y.class))) [
  | inl e ↦ inl (ltb→lt _ _ e)
  | inr e ↦ inr (ground arith, ground arith)
]

All-NoLater :
    (x : StagedLayer) (l : List StagedLayer)
    → All (λ y. layer_before y x ≡ false) l
    → All (NoLater x) l
All-NoLater x [] h = tt
All-NoLater x (y ∷ l) h = (not_before-NoLater x y h.0, All-NoLater x l h.1)

IsSorted-IsRanked : (l : List StagedLayer) → IsSorted layer_before l → IsRanked l
IsSorted-IsRanked [] h = tt
IsSorted-IsRanked (x ∷ l) h = (All-NoLater x l h.0, IsSorted-IsRanked l h.1)

module _ {E : Type 0} where
  ordered-sorts :
      (l staged : List StagedLayer)
      → ordered {E = E} l ≡ ok staged
      → staged ≡ sort_stable layer_before l
  ordered-sorts [] staged h = cc
  ordered-sorts (x ∷ l) staged h = sym (ok_eq h)

  pub assemble-collects :
      (i : Inputs E) (staged : List StagedLayer)
      → assemble i ≡ ok staged
      → (all : List StagedLayer) × (collect_layers i ≡ ok all)
        × (staged ≡ sort_stable layer_before all)
  unfolding assemble
  assemble-collects i staged h = elim (Option-cases i.context) [
    | inl e ↦
        let (all, collected, sorted) =
          >>=-eq-ok (collect_layers i) ordered (rw (e, assemble) at h) in
        (all, collected, ordered-sorts all staged sorted)
    | inr (x, e) ↦ cc (rw (e, assemble) at h)
  ]

  -- When `assemble` succeeds, its layers stand in the order of their classes, files before generators
  -- before providers before overrides, whatever their priorities; within a class in the order of
  -- their priorities; and those of one class and priority in the order in which the sources gave
  -- them, each as often as they did.
  pub assemble_order :
      (i : Inputs E) (staged : List StagedLayer)
      → assemble i ≡ ok staged
      → (all : List StagedLayer) × (collect_layers i ≡ ok all)
        × IsRanked staged
        × ((l : StagedLayer) → keep (same_rank l) staged ≡ keep (same_rank l) all)
  assemble_order i staged h =
      let (all, collected, sorted) = assemble-collects i staged h in
      (
        all,
        collected,
        rw sorted
            (IsSorted-IsRanked _ (sort_stable-IsSorted layer_before all layer_before-IsOrder)),
        λ l. rw sorted (keep-sort layer_before (same_rank l) all (same_rank-even l)),
      )
