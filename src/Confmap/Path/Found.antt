-- ===== src/Confmap/Path/Found.antt =====
-- A walk through a map, as a walk from what its first key holds.
use fastconf.Base.{◌≡◌, refl, inl, inr, Option, none, some, List, ◌∷◌, Text}
use fastconf.Confmap.Value.{Value, Fields, nil_obj, obj, field, as_map}
use fastconf.Base.{Option-cases}
use fastconf.Confmap.Path.{walk}

-- The walk of a rest from what was found, if anything was.
abbrev pub walk_found : Option Value → List Text → Option Value
walk_found none ps = none
walk_found (some v) ps = walk v ps

pub walk-found :
    (m : Fields) (p : Text) (ps : List Text) → walk (obj m) (p ∷ ps) ≡ walk_found (field p m) ps
unfolding walk as_map
walk-found m p ps = elim (Option-cases (field p m)) [
  | inl e ↦ rw (e, walk) refl
  | inr (v, e) ↦ rw (e, walk) refl
]

-- Nothing is found below what is no map.
pub walk-map :
    (v : Value) (p : Text) (ps : List Text) (x : Value)
    → walk v (p ∷ ps) ≡ some x
    → (m : Fields) × (v ≡ obj m)
unfolding walk as_map field
walk-map (obj m) p ps x h = (m, refl)
walk-map nil_obj p ps x h = cc
walk-map v p ps x h = cc
