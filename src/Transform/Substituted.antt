-- ===== src/Transform/Substituted.antt =====
-- What the substitution makes of a tree: the same tree with expanded strings.
use fastconf.Base.{
  ℕ, zero, suc, ◌≡◌, refl, sym, ap, ◌∙◌, inl, inr, Option, none, some, List, [], ◌∷◌, Bool-cases,
  ok, Text, text_eq, ok_eq,
}
use fastconf.Confmap.Value.{
  Value, Items, Fields, null, bool, str, num, other, nil_arr, arr, nil_obj, obj, nil, cons, end,
  entry, field, item, len,
}
use fastconf.Transform.EnvSubst.{
  EnvError, walk_value, walk_fields, walk_items, first_error, env_subst, expand,
}

-- One step into a tree.
pub data Step : Type 0 where
  key : Text → Step
  index : ℕ → Step

abbrev pub child : Step → Value → Option Value
child (key k) (obj m) = field k m
child (index i) (arr xs) = item xs i
child s v = none

-- What a tree holds at the end of some steps.
abbrev pub read : Value → List Step → Option Value
read v [] = some v
read v (s ∷ ss) = elim (child s v) [ none ↦ none | some w ↦ read w ss ]

substitution_ok : (r : Fields × Option EnvError) (out : Fields) → first_error r ≡ ok out → r.0 ≡ out
substitution_ok (m, none) out h = ok_eq h
substitution_ok (m, some e) out h = cc

module _ (lookup : Text → Text) where
  -- What is to be read after the substitution, by what was read before: an expanded string, a map, a
  -- list of the same length, the same other value, or nothing.
  abbrev pub Shows : Option Value → Option Value → Type 0
  Shows none r = r ≡ none
  Shows (some (str s)) r = r ≡ some (str (expand lookup s).0)
  Shows (some (obj m)) r = (n : Fields) × (r ≡ some (obj n))
  Shows (some (arr xs)) r = (ys : Items) × (r ≡ some (arr ys)) × (len ys ≡ len xs)
  Shows (some v) r = r ≡ some v

  abbrev walked : Option Value → Option Value
  walked none = none
  walked (some v) = some (walk_value lookup v).0

  field-walk_fields :
      (k : Text) (m : Fields) → field k (walk_fields lookup m).0 ≡ walked (field k m)
  unfolding field walk_value
  field-walk_fields k end = refl
  field-walk_fields k (entry j v m) = elim (Bool-cases (text_eq j k)) [
    | inl e ↦ rw e refl
    | inr e ↦ rw e (field-walk_fields k m)
  ]

  item-walk_items : (xs : Items) (i : ℕ) → item (walk_items lookup xs).0 i ≡ walked (item xs i)
  unfolding item walk_value
  item-walk_items nil i = refl
  item-walk_items (cons x xs) zero = refl
  item-walk_items (cons x xs) (suc i) = item-walk_items xs i

  len-walk_items : (xs : Items) → len (walk_items lookup xs).0 ≡ len xs
  unfolding walk_value
  len-walk_items nil = refl
  len-walk_items (cons x xs) = ap suc (len-walk_items xs)

  child-walk_value : (s : Step) (v : Value) → child s (walk_value lookup v).0 ≡ walked (child s v)
  unfolding walk_value
  child-walk_value (key k) (obj m) = field-walk_fields k m
  child-walk_value (index i) (arr xs) = item-walk_items xs i
  child-walk_value s v = refl

  read-walk_value :
      (ss : List Step) (v : Value) → read (walk_value lookup v).0 ss ≡ walked (read v ss)
  read-walk_value [] v = refl
  read-walk_value (s ∷ ss) v =
      go (read-walk_value ss) (child s (walk_value lookup v).0) (child s v) (child-walk_value s v)
    where
      go :
          ((w : Value) → read (walk_value lookup w).0 ss ≡ walked (read w ss))
          → (o p : Option Value) → o ≡ walked p
          → (elim o [ none ↦ none | some w ↦ read w ss ])
            ≡ walked (elim p [ none ↦ none | some w ↦ read w ss ])
      go h o none e = rw e refl
      go h o (some w) e = rw e (h w)

  walked-Shows : (o : Option Value) → Shows o (walked o)
  unfolding walk_value
  walked-Shows none = refl
  walked-Shows (some (str s)) = refl
  walked-Shows (some (obj m)) = ((walk_fields lookup m).0, refl)
  walked-Shows (some (arr xs)) = ((walk_items lookup xs).0, refl, len-walk_items xs)
  walked-Shows (some null) = refl
  walked-Shows (some (bool b)) = refl
  walked-Shows (some (num n)) = refl
  walked-Shows (some (other i)) = refl
  walked-Shows (some nil_arr) = refl
  walked-Shows (some nil_obj) = refl

  -- When EnvSubst succeeds, whatever steps by keys and indices lead into the tree: where a string was,
  -- its expansion is read; where a map was, a map; where a list was, a list of the same length; where
  -- another value was, the same one; and where nothing was, nothing.
  pub env_subst-read :
      (root out : Fields) (ss : List Step)
      → env_subst lookup root ≡ ok out
      → Shows (read (obj root) ss) (read (obj out) ss)
  unfolding env_subst
  env_subst-read root out ss h =
      let same : read (obj out) ss ≡ walked (read (obj root) ss) =
        ap (λ m. read (obj m) ss) (sym (substitution_ok (walk_fields lookup root) out h))
        ∙ (unfold walk_value in read-walk_value ss (obj root)) in
      rw same (walked-Shows (read (obj root) ss))
