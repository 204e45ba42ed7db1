-- ===== src/Providers/Env.antt =====
-- providers/env/env.go: the environment as a tree. os.Environ is a parameter.
use fastconf.Base.{
  split, trim_prefix, join, cut, has_prefix, to_lower, ℕ, Bool, true, false, Option, none, some,
  List, [], ◌∷◌, map, ◌==◌, if◌then◌else◌, Text, codes,
}
use fastconf.Confmap.Value.{Value, Fields, end}
use fastconf.Base.{lower_byte}
use fastconf.Confmap.Path.{set}
use fastconf.Confmap.Labels.{split_text}
use fastconf.Providers.Shared.{graft_at, maybe_coerce}

abbrev pub dot_or_lower : ℕ → ℕ
dot_or_lower c = if c == b'_' then b'.' else lower_byte c

-- The loop of `DotReplacer`; the flag is `prevDot`.
unfoldable pub dot_keys : Bool → Text → Text
dot_keys prev_dot [] = []
dot_keys prev_dot (c ∷ s) =
    let after_dot = dot_keys true s in
    let after_other = dot_keys false s in
    if dot_or_lower c == b'.'
    then if prev_dot then after_dot else b'.' ∷ after_dot
    else dot_or_lower c ∷ after_other

-- strings.TrimSuffix of one dot
unfoldable pub trim_dot : Text → Text
trim_dot [] = []
trim_dot (c ∷ []) = if c == b'.' then [] else c ∷ []
trim_dot (c ∷ d ∷ s) = c ∷ trim_dot (d ∷ s)

-- `DotReplacer`
unfoldable pub dot_replacer : Text → Text
unfolding dot_keys trim_dot
dot_replacer s = trim_dot (dot_keys true s)

-- `DoubleUnderscoreReplacer`
unfoldable pub double_underscore_replacer : Text → Text
unfolding to_lower join has_prefix
double_underscore_replacer s = join b'.' (map to_lower (split_text (codes "__") s))

pub record Provider : Type 0 where
  pub prefix : Text
  pub coerces : Bool
  pub replacer : Text → Text
  pub root : List Text

-- The path of a variable that the provider takes.
unfoldable pub key_path : Text → (Text → Text) → Text → Option (List Text)
unfolding has_prefix trim_prefix split
key_path prefix replacer k =
    if has_prefix k prefix
    then elim (trim_prefix k prefix) [
      | [] ↦ none
      | c ∷ s ↦ elim (replacer (c ∷ s)) [ [] ↦ none | d ∷ t ↦ some (split b'.' (d ∷ t)) ]
    ]
    else none

module _ (parse_float : Text → Option Value) where
  abbrev pub set_variable : Provider → Fields → Option (List Text) → Text → Fields
  set_variable p inner none v = inner
  set_variable p inner (some path) v = set inner path (maybe_coerce parse_float v p.coerces)

  abbrev pub add_variable : Provider → Fields → Option (Text × Text) → Fields
  add_variable p inner none = inner
  add_variable p inner (some (k, v)) = set_variable p inner (key_path p.prefix p.replacer k) v

  -- The loop of `loadMap`.
  unfoldable pub load_variables : Provider → List Text → Fields → Fields
  unfolding cut key_path set maybe_coerce
  load_variables p [] inner = inner
  load_variables p (kv ∷ l) inner = load_variables p l (add_variable p inner (cut b'=' kv))

  -- `loadMap`
  unfoldable pub load_env : Provider → List Text → Fields
  unfolding load_variables graft_at
  load_env p environ = graft_at (load_variables p environ end) p.root
