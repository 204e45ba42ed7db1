-- ===== src/Secret.antt =====
-- internal/secret/patterns.go: the patterns that mark values as secret, and the redaction of a tree.
-- `Redactor`s are functions of the dotted path and the value.
mod Tests
pub mod Matching
pub mod Plan
pub mod Masked
pub mod Flattened
pub mod Redaction
use fastconf.Base.{
  itoa, ℕ, suc, ◌+◌, Bool, true, false, ◌&&◌, ◌||◌, List, [], ◌∷◌, ◌++◌, map, if◌then◌else◌, Text,
  codes, text_eq, split, join,
}
use fastconf.Confmap.Value.{Value, Items, Fields, arr, obj, nil, cons, end, entry}

abbrev pub star : Text
star = codes "*"

abbrev pub double_star : Text
double_star = codes "**"

-- The loop of the "**" case: some tail of the path, the path itself and the empty one included.
unfoldable pub some_tail : (List Text → Bool) → List Text → Bool
some_tail f [] = f []
some_tail f (s ∷ path) = f (s ∷ path) || some_tail f path

unfoldable pub match_segments : List Text → List Text → Bool
unfolding some_tail
match_segments [] [] = true
match_segments [] (s ∷ path) = false
match_segments (p ∷ pat) [] =
    if text_eq p double_star then some_tail (match_segments pat) [] else false
match_segments (p ∷ pat) (s ∷ path) =
    if text_eq p double_star
    then some_tail (match_segments pat) (s ∷ path)
    else (text_eq p star || text_eq p s) && match_segments pat path

-- The patterns for the segments of a tree, and for dotted paths, whose segments may be parts of keys.
pub record PatternPlan : Type 0 where
  pub tree : List (List Text)
  pub provenance : List (List Text)

unfoldable pub conservative : List Text → List Text
conservative [] = []
conservative (p ∷ pat) =
    if text_eq p star then p ∷ double_star ∷ conservative pat else p ∷ conservative pat

unfoldable pub compile_patterns : List Text → PatternPlan
unfolding conservative
compile_patterns patterns = record {
  tree = map (split b'.') patterns;
  provenance = map (λ p. conservative (split b'.' p)) patterns;
}

unfoldable pub any_match : List (List Text) → List Text → Bool
unfolding match_segments
any_match [] path = false
any_match (pat ∷ pats) path = match_segments pat path || any_match pats path

abbrev pub Redactor : Type 0
Redactor = Text → Value → Value

module _ (patterns : List (List Text)) (redact : Redactor) where
  -- `visit`, with the segments down to the value, and what the recursion makes of the value
  abbrev pub visit : List Text → Value → Value → Value
  visit path v inner = if any_match patterns path then redact (join b'.' path) v else inner

  unfoldable mutual
    unfolding any_match

    pub redact_value : List Text → Value → Value
    redact_value path (arr l) = arr (redact_items path 0 l)
    redact_value path (obj m) = obj (redact_fields path m)
    redact_value path v = v

    pub redact_fields : List Text → Fields → Fields
    redact_fields path end = end
    redact_fields path (entry k v m) =
        entry k (visit (path ++ k ∷ []) v (redact_value (path ++ k ∷ []) v)) (redact_fields path m)

    pub redact_items : List Text → ℕ → Items → Items
    redact_items path i nil = nil
    redact_items path i (cons v l) =
        cons (visit (path ++ itoa i ∷ []) v (redact_value (path ++ itoa i ∷ []) v))
          (redact_items path (suc i) l)

-- `redactPatterns`
unfoldable pub redact_patterns : Value → List Text → List (List Text) → Redactor → Value
unfolding redact_value
redact_patterns node path [] redact = node
redact_patterns node path (pat ∷ pats) redact = redact_value (pat ∷ pats) redact path node

-- Whether redaction reaches a value below a node.
module _ (patterns : List (List Text)) where
  unfoldable mutual
    unfolding any_match

    pub touches_value : List Text → Value → Bool
    touches_value path (arr l) = touches_items path 0 l
    touches_value path (obj m) = touches_fields path m
    touches_value path v = false

    pub touches_fields : List Text → Fields → Bool
    touches_fields path end = false
    touches_fields path (entry k v m) =
        any_match patterns (path ++ k ∷ [])
        || (touches_value (path ++ k ∷ []) v || touches_fields path m)

    pub touches_items : List Text → ℕ → Items → Bool
    touches_items path i nil = false
    touches_items path i (cons v l) =
        any_match patterns (path ++ itoa i ∷ [])
        || (touches_value (path ++ itoa i ∷ []) v || touches_items path (suc i) l)

-- `segments[:n]` for n from 1 on, with the segments before them
unfoldable pub some_prefix : (List Text → Bool) → List Text → List Text → Bool
some_prefix f before [] = false
some_prefix f before (s ∷ rest) = f (before ++ s ∷ []) || some_prefix f (before ++ s ∷ []) rest

unfoldable pub any_prefix : List (List Text) → List Text → Bool
unfolding some_prefix match_segments
any_prefix [] segments = false
any_prefix (pat ∷ pats) segments =
    some_prefix (match_segments pat) [] segments || any_prefix pats segments

unfoldable pub matches_value : PatternPlan → Value → Text → Bool
unfolding any_prefix touches_value
matches_value plan value path = elim plan.provenance [
  | [] ↦ false
  | pat ∷ pats ↦
      any_prefix (pat ∷ pats) (split b'.' path)
      || touches_value (pat ∷ pats) (split b'.' path) value
]
