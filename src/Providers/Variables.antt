-- ===== src/Providers/Variables.antt =====
-- Reading what the environment provider loaded.
use mathlib.Core.List.{append-nil}
use fastconf.Base.{◌∙◌, ap, sym}
use fastconf.Base.{
  ◌≡◌, refl, sym, ap, ◌∙◌, inl, inr, true, Option, some, List, [], ◌∷◌, ◌++◌, ◌==◌, Bool-cases,
  Text,
}
use fastconf.Confmap.Value.{Value, Fields, obj, end}
use fastconf.Base.{cut, lacks}
use fastconf.Confmap.Path.{get, set, walk}
use fastconf.Confmap.Path.Laws.{get-set}
use fastconf.Providers.Shared.{graft_at, maybe_coerce}
use fastconf.Providers.Env.{
  set_variable, Provider, key_path, load_variables, load_env, add_variable,
}

-- A variable as os.Environ gives it.
abbrev pub variable : Text → Text → Text
variable k v = k ++ (b'=' ∷ v)

cut-variable : (k v : Text) → lacks b'=' k ≡ true → cut b'=' (variable k v) ≡ some (k, v)
unfolding cut
cut-variable [] v h = refl
cut-variable (c ∷ k) v h = elim (Bool-cases (c == b'=')) [
  | inl e ↦ cc
  | inr e ↦ rw (e, cut-variable k v (rw e at h)) refl
]

walk-obj : (m : Fields) (q : Text) (qs : List Text) → walk (obj m) (q ∷ qs) ≡ get m (q ∷ qs)
unfolding get
walk-obj m q qs = refl

get-set_self :
    (root : Fields) (p : Text) (ps : List Text) (v : Value)
    → get (set root (p ∷ ps) v) (p ∷ ps) ≡ some v
get-set_self root p ps v =
    ap (λ l. get (set root (p ∷ ps) v) (p ∷ l)) (sym (append-nil ps))
    ∙ (get-set root p ps [] v ∙ unfold walk in refl)

graft_at-get :
    (inner : Fields) (root : List Text) (q : Text) (qs : List Text)
    → get (graft_at inner root) (root ++ (q ∷ qs)) ≡ get inner (q ∷ qs)
unfolding graft_at
graft_at-get inner [] q qs = refl
graft_at-get inner (r ∷ root) q qs = get-set end r root (q ∷ qs) (obj inner) ∙ walk-obj inner q qs

module _ (parse_float : Text → Option Value) where
  load_variables-append :
      (p : Provider) (l r : List Text) (inner : Fields)
      → load_variables parse_float p (l ++ r) inner
        ≡ load_variables parse_float p r (load_variables parse_float p l inner)
  unfolding load_variables
  load_variables-append p [] r inner = refl
  load_variables-append p (kv ∷ l) r inner = load_variables-append p l r _

  load_variables-last :
      (p : Provider) (inner : Fields) (k v q : Text) (qs : List Text)
      → lacks b'=' k ≡ true
      → key_path p.prefix p.replacer k ≡ some (q ∷ qs)
      → load_variables parse_float p (variable k v ∷ []) inner
        ≡ set inner (q ∷ qs) (maybe_coerce parse_float v p.coerces)
  unfolding load_variables
  load_variables-last p inner k v q qs h path =
      ap (add_variable parse_float p inner) (cut-variable k v h)
      ∙ ap (λ o. set_variable parse_float p inner o v) path

  -- A variable that the provider takes, and that no later one follows: its value, coerced if the
  -- provider coerces, is what the loaded tree holds at the path of its key below the graft.
  pub load_env-get :
      (p : Provider) (l : List Text) (k v q : Text) (qs : List Text)
      → lacks b'=' k ≡ true
      → key_path p.prefix p.replacer k ≡ some (q ∷ qs)
      → get (load_env parse_float p (l ++ (variable k v ∷ []))) (p.root ++ (q ∷ qs))
        ≡ some (maybe_coerce parse_float v p.coerces)
  unfolding load_env
  load_env-get p l k v q qs h path =
      let before = load_variables parse_float p l end in
      graft_at-get _ p.root q qs
      ∙ (ap (λ m. get m (q ∷ qs))
            (load_variables-append p l (variable k v ∷ []) end
              ∙ load_variables-last p before k v q qs h path)
          ∙ get-set_self before q qs (maybe_coerce parse_float v p.coerces))
