-- ===== src/Secret/Redaction.antt =====
-- What redaction shows of a tree.
use fastconf.Base.{
  ◌≡◌, refl, ap, ◌∙◌, inl, inr, Bool, true, false, not, ◌&&◌, some, List, [], ◌∷◌, ◌++◌, arith,
  Bool-cases, Text, text_eq, text_eq_iff, join, Option-cases,
}
use fastconf.Confmap.Value.{
  Value, Fields, null, bool, str, num, other, nil_arr, arr, nil_obj, obj, end, entry, field, as_map,
}
use fastconf.Confmap.Path.{walk}
use fastconf.Secret.{Redactor, any_match, visit, redact_value, redact_fields, redact_patterns}
use mathlib.Core.List.{append-nil, append_assoc}

-- A value that is reached below a key stands in a map, below the value under that key.
walk-eq :
    (node : Value) (k : Text) (ks : List Text) (v : Value)
    → walk node (k ∷ ks) ≡ some v
    → (m : Fields) × (u : Value) × (as_map node ≡ some m)
      × (field k m ≡ some u)
      × (walk u ks ≡ some v)
unfolding walk
walk-eq node k ks v h = elim (Option-cases (as_map node)) [
  | inl e ↦ cc (rw (e, walk) at h)
  | inr (m, e) ↦ elim (Option-cases (field k m)) [
    | inl f ↦ cc (rw (e, walk, f) at h)
    | inr (u, f) ↦ (m, u, e, f, rw (e, walk, f) at h)
  ]
]

walk-some :
    (node : Value) (k : Text) (ks : List Text) (m : Fields) (u : Value)
    → as_map node ≡ some m
    → field k m ≡ some u
    → walk node (k ∷ ks) ≡ walk u ks
unfolding walk
walk-some node k ks m u e f = rw (e, walk, f) refl

module _ (patterns : List (List Text)) (redact : Redactor) where
  -- What stands for the value under a path.
  abbrev shown : List Text → Value → Value
  shown path v = visit patterns redact path v (redact_value patterns redact path v)

  field-redact :
      (path : List Text) (k : Text) (m : Fields) (u : Value)
      → field k m ≡ some u
      → field k (redact_fields patterns redact path m) ≡ some (shown (path ++ k ∷ []) u)
  unfolding field redact_fields
  field-redact path k end u h = cc
  field-redact path k (entry j w m) u h = elim (Bool-cases (text_eq j k)) [
    | inl e ↦ let here : w ≡ u = cc (rw e at h) in rw (e, ← here, (text_eq_iff j k).0 e) refl
    | inr e ↦ rw e (field-redact path k m u (rw e at h))
  ]

  map-redact :
      (path : List Text) (node : Value) (m : Fields)
      → as_map node ≡ some m
      → as_map (redact_value patterns redact path node)
        ≡ some (redact_fields patterns redact path m)
  unfolding as_map redact_value
  map-redact path (obj n) m e = cc
  map-redact path nil_obj m e = let same : end ≡ m = cc in rw (← same) refl
  map-redact path null m e = cc
  map-redact path (bool b) m e = cc
  map-redact path (str t) m e = cc
  map-redact path (num n) m e = cc
  map-redact path (other n) m e = cc
  map-redact path nil_arr m e = cc
  map-redact path (arr l) m e = cc

  -- One key down.
  walk-redact :
      (path : List Text) (node : Value) (k : Text) (ks : List Text) (v : Value)
      → walk node (k ∷ ks) ≡ some v
      → (u : Value) × (walk u ks ≡ some v)
        × (walk (redact_value patterns redact path node) (k ∷ ks)
            ≡ walk (shown (path ++ k ∷ []) u) ks)
  walk-redact path node k ks v h =
      let (m, u, e, f, rest) = walk-eq node k ks v h in
      (
        u,
        rest,
        walk-some (redact_value patterns redact path node) k ks
            (redact_fields patterns redact path m) (shown (path ++ k ∷ []) u)
            (map-redact path node m e) (field-redact path k m u f),
      )

-- The patterns match the whole path, and none of its beginnings, after `before`.
unfoldable pub first_hit : List (List Text) → List Text → List Text → Bool
first_hit patterns before [] = false
first_hit patterns before (k ∷ []) = any_match patterns (before ++ k ∷ [])
first_hit patterns before (k ∷ j ∷ ks) =
    not (any_match patterns (before ++ k ∷ [])) && first_hit patterns (before ++ k ∷ []) (j ∷ ks)

-- They match no beginning of the path, nor the path.
unfoldable pub no_hit : List (List Text) → List Text → List Text → Bool
no_hit patterns before [] = true
no_hit patterns before (k ∷ ks) =
    not (any_match patterns (before ++ k ∷ [])) && no_hit patterns (before ++ k ∷ []) ks

value-hit :
    (patterns : List (List Text)) (redact : Redactor) (path : List Text) (node : Value) (k : Text)
    (ks : List Text) (v : Value)
    → first_hit patterns path (k ∷ ks) ≡ true
    → walk node (k ∷ ks) ≡ some v
    → walk (redact_value patterns redact path node) (k ∷ ks)
      ≡ some (redact (join b'.' (path ++ k ∷ ks)) v)
unfolding first_hit walk
value-hit patterns redact path node k [] v hit h =
    let (u, rest, e) = walk-redact patterns redact path node k [] v h in
    let same : u ≡ v = cc in e ∙ rw (hit, same) refl
value-hit patterns redact path node k (j ∷ ks) v hit h =
    let (u, rest, e) = walk-redact patterns redact path node k (j ∷ ks) v h in
    let miss : any_match patterns (path ++ k ∷ []) ≡ false = ground arith in
    let later : first_hit patterns (path ++ k ∷ []) (j ∷ ks) ≡ true = ground arith in
    e
    ∙ rw miss (
        value-hit patterns redact (path ++ k ∷ []) u j ks v later rest
        ∙ ap (λ p. some (redact (join b'.' p) v)) (append_assoc path (k ∷ []) (j ∷ ks)))

value-miss :
    (patterns : List (List Text)) (redact : Redactor) (path : List Text) (node : Value)
    (ks : List Text) (v : Value)
    → no_hit patterns path ks ≡ true
    → walk node ks ≡ some v
    → walk (redact_value patterns redact path node) ks
      ≡ some (redact_value patterns redact (path ++ ks) v)
unfolding no_hit walk
value-miss patterns redact path node [] v miss h =
    let same : node ≡ v = cc in rw (same, append-nil path) refl
value-miss patterns redact path node (k ∷ ks) v miss h =
    let (u, rest, e) = walk-redact patterns redact path node k ks v h in
    let here : any_match patterns (path ++ k ∷ []) ≡ false = ground arith in
    let later : no_hit patterns (path ++ k ∷ []) ks ≡ true = ground arith in
    e
    ∙ rw here (
        value-miss patterns redact (path ++ k ∷ []) u ks v later rest
        ∙ ap (λ p. some (redact_value patterns redact p v)) (append_assoc path (k ∷ []) ks))

hit-some :
    (patterns : List (List Text)) (before ks : List Text)
    → first_hit patterns before ks ≡ true
    → (pat : List Text) × (pats : List (List Text)) × (patterns ≡ pat ∷ pats)
unfolding first_hit any_match
hit-some [] before [] h = cc
hit-some [] before (k ∷ []) h = cc
hit-some [] before (k ∷ j ∷ ks) h = hit-some [] (before ++ k ∷ []) (j ∷ ks) (ground arith)
hit-some (pat ∷ pats) before ks h = (pat, pats, refl)

-- A value at a path of map keys that the patterns match, while they match no beginning of the path,
-- is shown as what the redactor makes of the dotted path and the value.
pub redact-hit :
    (patterns : List (List Text)) (redact : Redactor) (node : Value) (k : Text) (ks : List Text)
    (v : Value)
    → first_hit patterns [] (k ∷ ks) ≡ true
    → walk node (k ∷ ks) ≡ some v
    → walk (redact_patterns node [] patterns redact) (k ∷ ks) ≡ some (redact (join b'.' (k ∷ ks)) v)
unfolding redact_patterns
redact-hit patterns redact node k ks v hit h =
    let (pat, pats, e) = hit-some patterns [] (k ∷ ks) hit in
    rw e (value-hit (pat ∷ pats) redact [] node k ks v (rw e at hit) h)

-- A value at a path of map keys that no pattern matches, nor a beginning of it, is shown with its own
-- redaction, which is itself if it is no map and no slice.
pub redact-miss :
    (pat : List Text) (pats : List (List Text)) (redact : Redactor) (node : Value) (ks : List Text)
    (v : Value)
    → no_hit (pat ∷ pats) [] ks ≡ true
    → walk node ks ≡ some v
    → walk (redact_patterns node [] (pat ∷ pats) redact) ks
      ≡ some (redact_value (pat ∷ pats) redact ks v)
unfolding redact_patterns
redact-miss pat pats redact node ks v miss h = value-miss (pat ∷ pats) redact [] node ks v miss h
