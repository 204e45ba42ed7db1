-- ===== src/Transform/EnvSubst.antt =====
-- transform/envsubst.go: ${VAR}, ${VAR:-default} and ${VAR:?message} in the strings of a tree. The
-- lookup of a variable is a parameter. The regular expression is read at one place of a text by
-- `match_ref`; after a match the scan goes on behind it.
use fastconf.Base.{
  ℕ, zero, suc, ◌-◌, Bool, ◌&&◌, ◌||◌, Option, none, some, [], ◌∷◌, ◌++◌, leb, ◌==◌, if◌then◌else◌,
  length, Result, ok, err, Text, codes,
}
use fastconf.Confmap.Value.{
  Value, Items, Fields, null, bool, str, num, other, nil_arr, arr, nil_obj, obj, nil, cons, end,
  entry,
}
use fastconf.Base.{cut}

pub data Operator : Type 0 where
  bare default_to required : Operator

-- The capture groups of a match.
pub record Ref : Type 0 where
  pub name : Text
  pub op : Operator
  pub body : Text

abbrev pub is_name_start : ℕ → Bool
is_name_start c = c == b'_' || ((leb b'a' c && leb c b'z') || (leb b'A' c && leb c b'Z'))

abbrev pub is_name_byte : ℕ → Bool
is_name_byte c = is_name_start c || (leb b'0' c && leb c b'9')

-- The bytes of a name at the start, and the rest.
unfoldable pub span_name : Text → Text × Text
span_name [] = ([], [])
span_name (c ∷ s) =
    let (name, rest) = span_name s in if is_name_byte c then (c ∷ name, rest) else ([], c ∷ s)

abbrev pub operator : ℕ → Option Operator
operator c = if c == b'-' then some default_to else if c == b'?' then some required else none

abbrev pub with_body : Text → Operator → Option (Text × Text) → Option (Ref × Text)
with_body name op none = none
with_body name op (some (body, rest)) = some (record { name = name; op = op; body = body }, rest)

-- What follows the name and a colon.
unfoldable pub match_op : Text → Text → Option (Ref × Text)
unfolding cut
match_op name [] = none
match_op name (c ∷ s) = elim (operator c) [ none ↦ none | some op ↦ with_body name op (cut b'}' s) ]

-- What follows the name.
unfoldable pub match_end : Text → Text → Option (Ref × Text)
unfolding match_op
match_end name [] = none
match_end name (c ∷ s) =
    if c == b'}'
    then some (record { name = name; op = bare; body = [] }, s)
    else if c == b':'
    then match_op name s
    else none

abbrev pub match_tail : ℕ → Text × Text → Option (Ref × Text)
match_tail c (name, rest) = match_end (c ∷ name) rest

abbrev pub match_name : Text → Option (Ref × Text)
match_name [] = none
match_name (c ∷ s) = if is_name_start c then match_tail c (span_name s) else none

-- A match of the pattern at the start of a text, and what is behind it.
unfoldable pub match_ref : Text → Option (Ref × Text)
unfolding match_end span_name
match_ref [] = none
match_ref (c ∷ []) = none
match_ref (c ∷ d ∷ s) = if c == b'$' && d == b'{' then match_name s else none

-- An unset variable that is required, with the message.
pub data EnvError : Type 0 where
  required_unset : Text → Text → EnvError

abbrev pub message : Text → Text
message [] = codes "variable is required"
message (c ∷ s) = c ∷ s

abbrev pub or_body : Text → Text → Text
or_body [] body = body
or_body (c ∷ s) body = c ∷ s

abbrev pub error_if_empty : Text → Ref → Option EnvError
error_if_empty [] r = some (required_unset r.name (message r.body))
error_if_empty (c ∷ s) r = none

-- The error that came first stays.
abbrev pub first : Option EnvError → Option EnvError → Option EnvError
first none f = f
first (some e) f = some e

abbrev pub join_pieces : Text × Option EnvError → Text × Option EnvError → Text × Option EnvError
join_pieces (s, e) (t, f) = (s ++ t, first e f)

abbrev pub first_error : Fields × Option EnvError → Result EnvError Fields
first_error (m, none) = ok m
first_error (m, some e) = err e

-- What stands in the place of a match, by the value of its variable.
abbrev pub replaced : Ref → Text → Text × Option EnvError
replaced r value = elim r.op [
  | bare ↦ (value, none)
  | default_to ↦ (or_body value r.body, none)
  | required ↦ (value, error_if_empty value r)
]

module _ (lookup : Text → Text) where
  -- What stands in the place of a match, and its error.
  abbrev pub replace_ref : Ref → Text × Option EnvError
  replace_ref r = replaced r (lookup r.name)

  -- ReplaceAllStringFunc; `skip` counts what is left of the match last found.
  unfoldable pub expand_from : ℕ → Text → Text × Option EnvError
  unfolding match_ref
  expand_from skip [] = ([], none)
  expand_from (suc skip) (c ∷ s) = expand_from skip s
  expand_from zero (c ∷ s) = elim (match_ref (c ∷ s)) [
    | none ↦ join_pieces (c ∷ [], none) (expand_from zero s)
    | some (r, rest) ↦ join_pieces (replace_ref r) (expand_from (length s - length rest) s)
  ]

  abbrev pub expand : Text → Text × Option EnvError
  expand s = expand_from zero s

  -- `walkStrings`
  unfoldable mutual
    unfolding expand_from

    pub walk_value : Value → Value × Option EnvError
    walk_value (str s) = let (t, e) = expand s in (str t, e)
    walk_value (obj m) = let (n, e) = walk_fields m in (obj n, e)
    walk_value (arr xs) = let (ys, e) = walk_items xs in (arr ys, e)
    walk_value null = (null, none)
    walk_value (bool b) = (bool b, none)
    walk_value (num n) = (num n, none)
    walk_value (other i) = (other i, none)
    walk_value nil_arr = (nil_arr, none)
    walk_value nil_obj = (nil_obj, none)

    pub walk_fields : Fields → Fields × Option EnvError
    walk_fields end = (end, none)
    walk_fields (entry k v m) =
        let (w, e) = walk_value v in let (n, f) = walk_fields m in (entry k w n, first e f)

    pub walk_items : Items → Items × Option EnvError
    walk_items nil = (nil, none)
    walk_items (cons v xs) =
        let (w, e) = walk_value v in let (ys, f) = walk_items xs in (cons w ys, first e f)

  -- `EnvSubstWith`
  unfoldable pub env_subst : Fields → Result EnvError Fields
  unfolding walk_fields
  env_subst root = first_error (walk_fields root)
