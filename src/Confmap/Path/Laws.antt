-- ===== src/Confmap/Path/Laws.antt =====
-- What `Set` and `Delete` do to a later `Get`, at every path.
use fastconf.Base.{
  ◌≡◌, refl, sym, ◌∙◌, inl, inr, Bool, true, false, not, ◌||◌, Option, none, some, List, [], ◌∷◌,
  ◌++◌, Bool-cases, Text, text_eq, text_eq_iff, text_eq_refl,
}
use fastconf.Confmap.Value.{
  Value, Fields, obj, end, field, delete_field, field-put, field-delete, as_map,
}
use fastconf.Confmap.Path.{walk, get, set, delete, next_map, store_back}

-- The two paths part before either ends.
abbrev pub diverges : List Text → List Text → Bool
diverges (p ∷ ps) (q ∷ qs) = not (text_eq p q) || diverges ps qs
diverges _ _ = false

abbrev pub then_walk : Option Value → List Text → Option Value
then_walk none ps = none
then_walk (some v) ps = walk v ps

pub walk-obj :
    (p : Text) (ps : List Text) (m : Fields) → walk (obj m) (p ∷ ps) ≡ then_walk (field p m) ps
unfolding walk as_map
walk-obj p ps m =
    elim (field p m) as (λ o. elim o [ none ↦ none | some v ↦ walk v ps ] ≡ then_walk o ps) [
      | none ↦ refl
      | some v ↦ refl
    ]

-- After `set root (p ∷ ps) v`, a read below `p ∷ ps` reads in `v`.
pub walk-set :
    (p : Text) (ps qs : List Text) (root : Fields) (v : Value)
    → walk (obj (set root (p ∷ ps) v)) (p ∷ (ps ++ qs)) ≡ walk v qs
unfolding set
walk-set p [] qs root v = simp (walk-obj, field-put, text_eq_refl)
walk-set p (q ∷ ps) qs root v =
    rw (walk-obj p, field-put p p, text_eq_refl p) (walk-set q ps qs (next_map (field p root)) v)

-- Reading where there is no map to go on in finds nothing, and so does reading the empty map.
pub walk-next_map :
    (q : Text) (qs : List Text) (o : Option Value)
    → then_walk o (q ∷ qs) ≡ walk (obj (next_map o)) (q ∷ qs)
unfolding walk as_map field
walk-next_map q qs none = refl
walk-next_map q qs (some (obj m)) = refl
walk-next_map q qs (some v) = refl

set-diverges :
    (p : Text) (ps : List Text) (q : Text) (qs : List Text) (root : Fields) (v : Value)
    → diverges (p ∷ ps) (q ∷ qs) ≡ true
    → walk (obj (set root (p ∷ ps) v)) (q ∷ qs) ≡ walk (obj root) (q ∷ qs)
unfolding set
set-diverges p [] q qs root v h = elim (Bool-cases (text_eq p q)) [
  | inl e ↦ cc
  | inr e ↦ simp (walk-obj, field-put, e)
]
set-diverges p (r ∷ ps) q [] root v h = elim (Bool-cases (text_eq p q)) [
  | inl e ↦ cc
  | inr e ↦ simp (walk-obj, field-put, e)
]
set-diverges p (r ∷ ps) q (s ∷ qs) root v h = elim (Bool-cases (text_eq p q)) [
  | inl e ↦
      rw (walk-obj q, field-put p q, e)
        (set-diverges r ps s qs (next_map (field p root)) v (rw e at h)
          ∙ sym (rw (walk-obj q, ← (text_eq_iff p q).0 e) (walk-next_map s qs (field p root))))
  | inr e ↦ simp (walk-obj, field-put, e)
]

-- What a delete stores back under its own key is read from the map that was there, if one was.
walk-store_back :
    (p q : Text) (qs : List Text) (root : Fields) (f : Fields → Fields) (o : Option Value)
    → f end ≡ end
    → field p root ≡ o
    → walk (obj (store_back p root f o)) (p ∷ q ∷ qs) ≡ walk (obj (f (next_map o))) (q ∷ qs)
walk-store_back p q qs root f (some (obj m)) e h =
    rw (walk-obj p, field-put p p, text_eq_refl p) refl
walk-store_back p q qs root f o e h = rw (walk-obj p, h, e) (walk-next_map q qs o)

store_back_ne :
    (p q : Text) (qs : List Text) (root : Fields) (f : Fields → Fields) (o : Option Value)
    → text_eq p q ≡ false
    → walk (obj (store_back p root f o)) (q ∷ qs) ≡ walk (obj root) (q ∷ qs)
store_back_ne p q qs root f (some (obj m)) h = simp (walk-obj, field-put, h)
store_back_ne p q qs root f o h = refl

delete-end : (p : Text) (ps : List Text) → delete end (p ∷ ps) ≡ end
unfolding delete delete_field field
delete-end p [] = refl
delete-end p (q ∷ ps) = refl

delete_self :
    (p : Text) (ps : List Text) (root : Fields) → walk (obj (delete root (p ∷ ps))) (p ∷ ps) ≡ none
unfolding delete
delete_self p [] root = simp (walk-obj, field-delete, text_eq_refl)
delete_self p (q ∷ ps) root =
    walk-store_back p q ps root (λ m. delete m (q ∷ ps)) (field p root) (delete-end q ps) refl
    ∙ delete_self q ps (next_map (field p root))

delete-diverges :
    (p : Text) (ps : List Text) (q : Text) (qs : List Text) (root : Fields)
    → diverges (p ∷ ps) (q ∷ qs) ≡ true
    → walk (obj (delete root (p ∷ ps))) (q ∷ qs) ≡ walk (obj root) (q ∷ qs)
unfolding delete
delete-diverges p [] q qs root h = elim (Bool-cases (text_eq p q)) [
  | inl e ↦ cc
  | inr e ↦ simp (walk-obj, field-delete, e)
]
delete-diverges p (r ∷ ps) q [] root h = elim (Bool-cases (text_eq p q)) [
  | inl e ↦ cc
  | inr e ↦ store_back_ne p q [] root _ (field p root) e
]
delete-diverges p (r ∷ ps) q (s ∷ qs) root h = elim (Bool-cases (text_eq p q)) [
  | inl e ↦ rw (← (text_eq_iff p q).0 e) (
      walk-store_back p s qs root (λ m. delete m (r ∷ ps)) (field p root) (delete-end r ps) refl
      ∙ delete-diverges r ps s qs (next_map (field p root)) (rw e at h)
      ∙ sym (rw (walk-obj p) (walk-next_map s qs (field p root))))
  | inr e ↦ store_back_ne p q (s ∷ qs) root _ (field p root) e
]

-- After `Set root parts v`, for non-empty parts, `Get` at any path that extends `parts` by `qs` is
-- the walk of `qs` from `v`: the value `v` itself at `parts`.
pub get-set :
    (root : Fields) (p : Text) (ps qs : List Text) (v : Value)
    → get (set root (p ∷ ps) v) (p ∷ (ps ++ qs)) ≡ walk v qs
unfolding get
get-set root p ps qs v = walk-set p ps qs root v

-- `Set` at one path, whatever maps it creates or overwrites on the way, changes no `Get` at a path
-- that parts from it before either of the two ends.
pub get-set-diverges :
    (root : Fields) (ps qs : List Text) (v : Value)
    → diverges ps qs ≡ true
    → get (set root ps v) qs ≡ get root qs
unfolding get
get-set-diverges root [] qs v h = cc
get-set-diverges root (p ∷ ps) [] v h = cc
get-set-diverges root (p ∷ ps) (q ∷ qs) v h = set-diverges p ps q qs root v h

-- After `Delete` at a path, `Get` at it finds nothing, and every `Get` at a path that parts from it
-- before either ends is unchanged.
pub get-delete :
    (root : Fields) (ps : List Text)
    → (get (delete root ps) ps ≡ none)
      × ((qs : List Text) → diverges ps qs ≡ true → get (delete root ps) qs ≡ get root qs)
unfolding get
get-delete root [] = (refl, λ qs h. cc)
get-delete root (p ∷ ps) =
    (delete_self p ps root, elim [ [] ↦ λ h. cc | q ∷ qs ↦ λ h. delete-diverges p ps q qs root h ])
