-- ===== src/Confmap/Deep/Paths.antt =====
-- What a merge does at a path: the leaves of the source win, and the rest of the destination stays.
use fastconf.Base.{
  ok_eq, ◌≡◌, refl, sym, ◌∙◌, ◌⊎◌, inl, inr, Bool, true, false, Option, none, some, List, [], ◌∷◌,
  arith, Bool-cases, Result, ok, err, ◌>>=◌, Text, text_eq, some_eq,
}
use fastconf.Confmap.Value.{
  Value, Items, Fields, nil_arr, arr, nil_obj, obj, nil, cons, end, entry, field, as_map,
}
use mathlib.Core.Path.{subst}
use fastconf.Confmap.Path.{walk, next_map}
use fastconf.Confmap.Path.Laws.{then_walk, walk-obj, walk-next_map}
use fastconf.Confmap.Deep.{Options, MergeError, deep_at, merge_value, child_path, merge_scalar}
use fastconf.Confmap.Deep.ByKey.{IsDistinct, merged_at, deep_at_by_key}

-- Every map below has distinct keys.
abbrev mutual
  pub IsTree : Value → Type 0
  IsTree (arr xs) = IsTreeItems xs
  IsTree (obj m) = IsDistinct m × IsTreeFields m
  IsTree _ = Unit

  pub IsTreeItems : Items → Type 0
  IsTreeItems nil = Unit
  IsTreeItems (cons x xs) = IsTree x × IsTreeItems xs

  pub IsTreeFields : Fields → Type 0
  IsTreeFields end = Unit
  IsTreeFields (entry k v m) = IsTree v × IsTreeFields m

abbrev pub is_scalar : Value → Bool
is_scalar nil_arr = false
is_scalar (arr xs) = false
is_scalar nil_obj = false
is_scalar (obj m) = false
is_scalar _ = true

field-IsTree : (k : Text) (m : Fields) {v : Value} → IsTreeFields m → field k m ≡ some v → IsTree v
unfolding field
field-IsTree k end t h = cc
field-IsTree k (entry j w m) t h = elim (Bool-cases (text_eq j k)) [
  | inl e ↦ subst IsTree (some_eq (rw e at h)) t.0
  | inr e ↦ field-IsTree k m t.1 (rw e at h)
]

-- A scalar of the source is what is stored, whatever stood there.
merged-scalar :
    (opt : Options) (path : Text) (o : Option Value) (v : Value) (x : Option Value)
    → is_scalar v ≡ true
    → merged_at opt path o (some v) ≡ ok x
    → x ≡ some v
unfolding merge_value merge_scalar
merged-scalar opt path none v x s h = cc
merged-scalar opt path (some (obj ds)) v x s h = ground arith
merged-scalar opt path (some dv) v x s h = ground arith

stored_map :
    (res : Result MergeError Fields) (x : Option Value)
    → ((res >>= λ m. ok (obj m)) >>= λ v. ok (some v)) ≡ ok x
    → (m : Fields) × (x ≡ some (obj m)) × (res ≡ ok m)
stored_map (ok m) x h = (m, cc, refl)
stored_map (err e) x h = cc

-- A map of the source is stored merged into the map there, or whole where there is none.
merged-map :
    (opt : Options) (path : Text) (o : Option Value) (ss : Fields) (x : Option Value)
    → merged_at opt path o (some (obj ss)) ≡ ok x
    → (m : Fields) × (x ≡ some (obj m))
      × (((m ≡ ss) × (next_map o ≡ end))
          ⊎ ((ds : Fields) × (o ≡ some (obj ds)) × (deep_at opt path ds ss ≡ ok m)))
unfolding merge_value merge_scalar
merged-map opt path none ss x h = (ss, cc, inl (refl, refl))
merged-map opt path (some (obj ds)) ss x h =
    let (m, stored, merge) = stored_map (deep_at opt path ds ss) x h in
    (m, stored, inr (ds, refl, merge))
merged-map opt path (some dv) ss x h = (ss, ground arith, inl (refl, refl))

walk-next :
    {v : Value} (o : Option Value) (ps : List Text)
    → then_walk o ps ≡ some v
    → (x : Value) × (o ≡ some x) × (walk x ps ≡ some v)
walk-next none ps h = cc
walk-next (some x) ps h = (x, refl, h)

walk-eq-map :
    {v : Value} (x : Value) (p : Text) (ps : List Text)
    → walk x (p ∷ ps) ≡ some v
    → (x ≡ nil_obj) ⊎ ((m : Fields) × (x ≡ obj m))
unfolding walk as_map
walk-eq-map (obj m) p ps h = inr (m, refl)
walk-eq-map nil_obj p ps h = inl refl
walk-eq-map x p ps h = cc

walk-nil : (x : Value) → walk x [] ≡ some x
unfolding walk
walk-nil x = refl

walk-nil_obj : (p : Text) (ps : List Text) → walk nil_obj (p ∷ ps) ≡ none
unfolding walk as_map field
walk-nil_obj p ps = refl

-- Below a merged map, what holds of a merge into any map holds of the map that was stored.
leaf_below :
    (opt : Options) (path : Text) (o : Option Value) (m m' : Fields) (q : Text) (qs : List Text)
    (v : Value)
    → ((m' ≡ m) × (next_map o ≡ end))
      ⊎ ((ds : Fields) × (o ≡ some (obj ds)) × (deep_at opt path ds m ≡ ok m'))
    → walk (obj m) (q ∷ qs) ≡ some v
    → ((ds : Fields) → deep_at opt path ds m ≡ ok m' → walk (obj m') (q ∷ qs) ≡ some v)
    → walk (obj m') (q ∷ qs) ≡ some v
leaf_below opt path o m m' q qs v (inl (e, _)) w below = rw e w
leaf_below opt path o m m' q qs v (inr (ds, _, step)) w below = below ds step

-- A scalar that the source holds at a path is what a successful merge leaves at that path.
pub leaf_wins :
    (opt : Options) (prefix : Text) (dst src r : Fields) (p : Text) (ps : List Text) (v : Value)
    → IsDistinct src
    → IsTreeFields src
    → deep_at opt prefix dst src ≡ ok r
    → is_scalar v ≡ true
    → walk (obj src) (p ∷ ps) ≡ some v
    → walk (obj r) (p ∷ ps) ≡ some v
leaf_wins opt prefix dst src r p [] v d t h s w =
    let (x, e, wx) = walk-next (field p src) [] (rw walk-obj at w) in
    let scalar : is_scalar x ≡ true = rw (some_eq (sym (walk-nil x) ∙ wx)) s in
    let stored =
      merged-scalar opt (child_path prefix p) (field p dst) x (field p r) scalar
        (rw e at (deep_at_by_key opt prefix dst src r p d h)) in
    rw (walk-obj, stored) wx
leaf_wins opt prefix dst src r p (q ∷ qs) v d t h s w =
    let (x, e, wx) = walk-next (field p src) (q ∷ qs) (rw walk-obj at w) in
    elim (walk-eq-map x q qs wx) [
      | inl xe ↦ cc (walk-nil_obj q qs)
      | inr (m, xe) ↦
          let tree = subst IsTree xe (field-IsTree p src t e) in
          let (m', stored, merge) =
            merged-map opt (child_path prefix p) (field p dst) m (field p r)
              (rw (e, xe) at (deep_at_by_key opt prefix dst src r p d h)) in
          rw (walk-obj p, stored)
            (leaf_below opt (child_path prefix p) (field p dst) m m' q qs v merge (rw xe at wx)
              λ ds step.
                leaf_wins opt (child_path prefix p) ds m m' q qs v tree.0 tree.1 step s
                  (rw xe at wx))
    ]

abbrev untouched_at : Option Value → (Fields → Bool) → Bool
untouched_at none below = true
untouched_at (some (obj m)) below = below m
untouched_at (some _) below = false

-- The source has nothing on the path: below maps of its own, it lacks a key of the path.
unfoldable pub untouched : Fields → List Text → Bool
untouched src [] = false
untouched src (p ∷ ps) = untouched_at (field p src) (λ m. untouched m ps)

untouched_cases :
    (p : Text) (ps : List Text) (src : Fields)
    → untouched src (p ∷ ps) ≡ true
    → (field p src ≡ none) ⊎ ((m : Fields) × (field p src ≡ some (obj m)) × (untouched m ps ≡ true))
unfolding untouched
untouched_cases p ps src h = go (field p src) refl h
  where
    go :
        (o : Option Value)
        → field p src ≡ o
        → untouched_at o (λ m. untouched m ps) ≡ true
        → (field p src ≡ none)
          ⊎ ((m : Fields) × (field p src ≡ some (obj m)) × (untouched m ps ≡ true))
    go none e h = inl e
    go (some (obj m)) e h = inr (m, e, h)
    go (some v) e h = cc

untouched_root : (m : Fields) → untouched m [] ≡ true → ⊥
unfolding untouched
untouched_root m h = cc

walk-untouched :
    (p : Text) (ps : List Text) (src : Fields)
    → untouched src (p ∷ ps) ≡ true
    → walk (obj src) (p ∷ ps) ≡ none
walk-untouched p [] src h = elim (untouched_cases p [] src h) [
  | inl e ↦ rw (walk-obj, e) refl
  | inr (m, e, below) ↦ absurd (untouched_root m below)
]
walk-untouched p (q ∷ qs) src h = elim (untouched_cases p (q ∷ qs) src h) [
  | inl e ↦ rw (walk-obj, e) refl
  | inr (m, e, below) ↦ rw (walk-obj p, e) (walk-untouched q qs m below)
]

walk-end : (q : Text) (qs : List Text) → walk (obj end) (q ∷ qs) ≡ none
unfolding walk as_map field
walk-end q qs = refl

-- A key that the source lacks keeps the destination's value, and so all that is read below it.
key_stays :
    (opt : Options) (prefix : Text) (dst src r : Fields) (p : Text) (ps : List Text)
    → IsDistinct src
    → deep_at opt prefix dst src ≡ ok r
    → field p src ≡ none
    → walk (obj r) (p ∷ ps) ≡ walk (obj dst) (p ∷ ps)
key_stays opt prefix dst src r p ps d h e =
    let same : field p dst ≡ field p r =
      ok_eq (rw e at (deep_at_by_key opt prefix dst src r p d h)) in
    simp walk-obj (rw same)

below_stays :
    (opt : Options) (path : Text) (o : Option Value) (m m' : Fields) (q : Text) (qs : List Text)
    → ((m' ≡ m) × (next_map o ≡ end))
      ⊎ ((ds : Fields) × (o ≡ some (obj ds)) × (deep_at opt path ds m ≡ ok m'))
    → untouched m (q ∷ qs) ≡ true
    → ((ds : Fields)
        → deep_at opt path ds m ≡ ok m'
        → walk (obj m') (q ∷ qs) ≡ walk (obj ds) (q ∷ qs))
    → walk (obj m') (q ∷ qs) ≡ then_walk o (q ∷ qs)
below_stays opt path o m m' q qs (inl (e, gone)) u below =
    rw (e, walk-untouched q qs m u, walk-next_map q qs o, gone) (sym (walk-end q qs))
below_stays opt path o m m' q qs (inr (ds, e, step)) u below = rw e (below ds step)

-- A successful merge of a source that has nothing on a path leaves what the destination reads there.
pub untouched_stays :
    (opt : Options) (prefix : Text) (dst src r : Fields) (p : Text) (ps : List Text)
    → IsDistinct src
    → IsTreeFields src
    → deep_at opt prefix dst src ≡ ok r
    → untouched src (p ∷ ps) ≡ true
    → walk (obj r) (p ∷ ps) ≡ walk (obj dst) (p ∷ ps)
untouched_stays opt prefix dst src r p [] d t h u = elim (untouched_cases p [] src u) [
  | inl e ↦ key_stays opt prefix dst src r p [] d h e
  | inr (m, e, below) ↦ absurd (untouched_root m below)
]
untouched_stays opt prefix dst src r p (q ∷ qs) d t h u = elim (untouched_cases p (q ∷ qs) src u) [
  | inl e ↦ key_stays opt prefix dst src r p (q ∷ qs) d h e
  | inr (m, e, below) ↦
      let tree = field-IsTree p src t e in
      let (m', stored, merge) =
        merged-map opt (child_path prefix p) (field p dst) m (field p r)
          (rw e at (deep_at_by_key opt prefix dst src r p d h)) in
      rw (walk-obj p, stored)
        (below_stays opt (child_path prefix p) (field p dst) m m' q qs merge below (λ ds step.
            untouched_stays opt (child_path prefix p) ds m m' q qs tree.0 tree.1 step below)
          ∙ sym (walk-obj p (q ∷ qs) dst))
]
