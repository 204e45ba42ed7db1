-- ===== src/Provenance/Chains.antt =====
-- A recorded layer extends the chain of each path by what it holds there, and changes no other.
use fastconf.Base.{
  ℕ, suc, ◌≡◌, refl, sym, ap, ◌∙◌, inl, inr, true, false, Option, none, some, List, [], ◌∷◌, ◌++◌,
  ltb, if◌then◌else◌, Bool-cases, Text, text_eq, text_eq_iff, text_eq_refl,
}
use fastconf.Confmap.Value.{Value, Fields, null, nil_obj, obj, end, entry, field}
use fastconf.Base.Dict
use fastconf.Base.Dict.{Dict, get-put}
use fastconf.Confmap.Deep.ByKey.{IsDistinct}
use fastconf.Confmap.Deep.{child_path}
use fastconf.Provenance.{
  top_level, full, Origin, Index, max_tree_depth, is_full, has_byte, chain_of, record_value,
  record_leaf, record_fields, record_entry, record_tree, explain,
}
use mathlib.Core.List.{append-nil, append_assoc}

-- The leaves of a layer with their dotted paths, down to the greatest depth.
unfoldable mutual
  pub leaves : ℕ → Text → Fields → List (Text × Value)
  leaves depth prefix end = []
  leaves depth prefix (entry k v m) =
      leaves_at depth (child_path prefix k) v ++ leaves depth prefix m

  pub leaves_at : ℕ → Text → Value → List (Text × Value)
  leaves_at depth path (obj m) =
      let nested = leaves (suc depth) path m in
      if ltb max_tree_depth (suc depth) then [] else nested
  leaves_at depth path nil_obj = []
  leaves_at depth path v = (path, v) ∷ []

module _ {S : Type 0} where
  -- What a layer's leaves add to the chain of a path.
  abbrev pub origins_at : Text → S → List (Text × Value) → List (Origin S)
  origins_at p src [] = []
  origins_at p src ((path, v) ∷ l) =
      if text_eq path p
      then record { path = path; source = src; value = v } ∷ origins_at p src l
      else origins_at p src l

  origins-append :
      (p : Text) (src : S) (l k : List (Text × Value))
      → origins_at p src (l ++ k) ≡ origins_at p src l ++ origins_at p src k
  origins-append p src [] k = refl
  origins-append p src ((path, v) ∷ l) k = elim (Bool-cases (text_eq path p)) [
    | inl e ↦
        rw e
          (ap (λ t. record { path = path; source = src; value = v } ∷ t) (origins-append p src l k))
    | inr e ↦ rw e (origins-append p src l k)
  ]

  abbrev pub chain : Index S → Text → List (Origin S)
  chain o p = chain_of (Dict.get p o.entries)

  pub chain-record :
      (o : Index S) (path p : Text) (src : S) (v : Value)
      → o.level ≡ full
      → (chain (record_value o path src v) p ≡ chain o p ++ origins_at p src ((path, v) ∷ []))
        × ((record_value o path src v).level ≡ full)
  unfolding record_value
  chain-record o path p src v h = elim (Bool-cases (text_eq path p)) [
    | inl e ↦ rw (h, (text_eq_iff path p).0 e, get-put p p _ o.entries, text_eq_refl p) (refl, refl)
    | inr e ↦ rw (h, get-put path p _ o.entries, e) (sym (append-nil (chain o p)), refl)
  ]

  leaf-chain :
      (o : Index S) (path p : Text) (src : S) (v : Value)
      → o.level ≡ full
      → (chain (record_leaf o path src v) p ≡ chain o p ++ origins_at p src ((path, v) ∷ []))
        × ((record_leaf o path src v).level ≡ full)
  leaf-chain o path p src v h =
      let kept : (if is_full o.level then v else null) ≡ v = rw h refl in
      rw kept (chain-record o path p src v h)

  -- Two parts of a layer, one recorded after the other.
  pub join-chain :
      (p : Text) (src : S) (now before : List (Origin S)) (l k : List (Text × Value))
      → now ≡ before ++ origins_at p src l
      → now ++ origins_at p src k ≡ before ++ origins_at p src (l ++ k)
  join-chain p src now before l k e =
      rw (e, origins-append p src l k)
        (append_assoc before (origins_at p src l) (origins_at p src k))

  mutual
    unfolding record_fields leaves

    pub fields-chain :
        (o : Index S) (depth : ℕ) (prefix p : Text) (src : S) (m : Fields)
        → o.level ≡ full
        → (chain (record_fields o depth prefix src m) p
            ≡ chain o p ++ origins_at p src (leaves depth prefix m))
          × ((record_fields o depth prefix src m).level ≡ full)
    fields-chain o depth prefix p src end h = (sym (append-nil (chain o p)), h)
    fields-chain o depth prefix p src (entry k v m) h =
        let (first, level) = entry-chain o depth (child_path prefix k) p src v h in
        let (rest, level') =
          fields-chain (record_entry o depth (child_path prefix k) src v) depth prefix p src m
            level in
        (
          rest
              ∙ join-chain p src _ (chain o p) (leaves_at depth (child_path prefix k) v)
                  (leaves depth prefix m) first,
          level',
        )

    entry-chain :
        (o : Index S) (depth : ℕ) (path p : Text) (src : S) (v : Value)
        → o.level ≡ full
        → (chain (record_entry o depth path src v) p
            ≡ chain o p ++ origins_at p src (leaves_at depth path v))
          × ((record_entry o depth path src v).level ≡ full)
    entry-chain o depth path p src (obj m) h = elim (Bool-cases (ltb max_tree_depth (suc depth))) [
      | inl e ↦ rw (h, e) (sym (append-nil (chain o p)), refl)
      | inr e ↦
          let level : is_full o.level ≡ true = ap is_full h in
          rw (level, e) (fields-chain o (suc depth) path p src m h)
    ]
    entry-chain o depth path p src nil_obj h = rw h (sym (append-nil (chain o p)), refl)
    entry-chain o depth path p src v h = leaf-chain o path p src v h

  -- At the full level, recording a layer extends the chain of every path by the layer's leaves at
  -- that path, with their values and in order, and loses nothing of what the chain held.
  pub record_tree_full :
      (o : Index S) (prefix p : Text) (m : Fields) (src : S)
      → o.level ≡ full
      → explain (record_tree (some o) prefix m src) p
        ≡ explain (some o) p ++ origins_at p src (leaves 0 prefix m)
  unfolding explain record_tree
  record_tree_full o prefix p m src h = (fields-chain o 0 prefix p src m h).0

  -- What a layer adds at the top level: one origin without a value for a key without a dot.
  abbrev pub top_origin : Text → S → Option Value → List (Origin S)
  top_origin p src none = []
  top_origin p src (some v) = record { path = p; source = src; value = null } ∷ []

  chain-plain :
      (o : Index S) (path p : Text) (src : S)
      → o.level ≡ top_level
      → has_byte b'.' p ≡ false
      → (chain (record_value o path src null) p
          ≡ chain o p ++ (if text_eq path p then top_origin p src (some null) else []))
        × ((record_value o path src null).level ≡ top_level)
  unfolding record_value
  chain-plain o path p src h plain = elim (Bool-cases (text_eq path p)) [
    | inl e ↦
        rw (h, (text_eq_iff path p).0 e, plain, get-put p p _ o.entries, text_eq_refl p)
          (refl, refl)
    | inr e ↦ elim (Bool-cases (has_byte b'.' path)) [
      | inl f ↦ rw (h, f, e) (sym (append-nil (chain o p)), refl)
      | inr f ↦ rw (h, f, get-put path p _ o.entries, e) (sym (append-nil (chain o p)), refl)
    ]
  ]

  record-top :
      (o : Index S) (path : Text) (src : S) (v : Value)
      → o.level ≡ top_level
      → record_entry o 0 path src v ≡ record_value o path src null
  unfolding record_entry
  record-top o path src (obj m) h = rw h refl
  record-top o path src nil_obj h = rw h refl
  record-top o path src v h = rw h refl

  -- At the top level, recording a layer with distinct keys under no prefix extends the chain of a path
  -- without a dot by one origin without a value if the layer has that key, and by nothing if not.
  pub record_tree_top :
      (o : Index S) (p : Text) (m : Fields) (src : S)
      → o.level ≡ top_level
      → has_byte b'.' p ≡ false
      → IsDistinct m
      → explain (record_tree (some o) [] m src) p
        ≡ explain (some o) p ++ top_origin p src (field p m)
  unfolding explain record_tree record_fields field
  record_tree_top o p end src h plain d = sym (append-nil (chain o p))
  record_tree_top o p (entry k v m) src h plain d =
      let (first, level) = chain-plain o k p src h plain in
      rw (record-top o k src v h) (
        record_tree_top (record_value o k src null) p m src level plain d.1
        ∙ elim (Bool-cases (text_eq k p)) [
          | inl e ↦
              let gone : field p m ≡ none = rw ((text_eq_iff k p).0 e) at d.0 in
              rw (first, e, gone) (append-nil (chain o p ++ top_origin p src (some null)))
          | inr e ↦
              rw (first, e) (ap (λ l. l ++ top_origin p src (field p m)) (append-nil (chain o p)))
        ])
