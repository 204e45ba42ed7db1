-- ===== src/Provenance.antt =====
-- internal/provenance/index.go: which layers wrote a dotted path, oldest first. `S` is SourceRef.
-- A path that is recorded without a value has the value null.
pub mod Chains
mod Tests
use fastconf.Base.{
  ℕ, suc, ◌+◌, Bool, true, false, ◌&&◌, ◌||◌, Option, none, some, List, [], ◌∷◌, ◌++◌, ltb, ◌==◌,
  if◌then◌else◌, Text,
}
use fastconf.Confmap.Value.{Value, Fields, null, nil_obj, obj, end, entry}
use fastconf.Base.Dict
use fastconf.Base.Dict.{Dict}
use fastconf.Confmap.Deep.{child_path}

pub data Level : Type 0 where
  off top_level full : Level

pub record Origin (S : Type 0) : Type 0 where
  pub path : Text
  pub source : S
  pub value : Value

pub record Index (S : Type 0) : Type 0 where
  pub entries : Dict (List (Origin S))
  pub level : Level

abbrev pub max_tree_depth : ℕ
max_tree_depth = 256

abbrev pub is_top : Level → Bool
is_top top_level = true
is_top _ = false

abbrev pub is_full : Level → Bool
is_full full = true
is_full _ = false

-- strings.Contains of one byte
unfoldable pub has_byte : ℕ → Text → Bool
has_byte b [] = false
has_byte b (c ∷ s) = c == b || has_byte b s

abbrev pub chain_of : {S : Type 0} → Option (List (Origin S)) → List (Origin S)
chain_of none = []
chain_of (some l) = l

module _ {S : Type 0} where
  unfoldable pub new_index : Level → Option (Index S)
  new_index off = none
  new_index l = some (record { entries = []; level = l })

  unfoldable pub record_value : Index S → Text → S → Value → Index S
  unfolding has_byte
  record_value o path src v = if is_top o.level && has_byte b'.' path then o else record o {
    entries =
        Dict.put path
          (chain_of (Dict.get path o.entries)
            ++ record { path = path; source = src; value = v } ∷ [])
          o.entries;
  }

  -- A leaf keeps its value at the full level only.
  abbrev pub record_leaf : Index S → Text → S → Value → Index S
  record_leaf o path src v = record_value o path src (if is_full o.level then v else null)

  -- `recordTreeDepth`: `record_fields` is its loop, for a depth within bounds.
  unfoldable mutual
    pub record_fields : Index S → ℕ → Text → S → Fields → Index S
    record_fields o depth prefix src end = o
    record_fields o depth prefix src (entry k v m) =
        record_fields (record_entry o depth (child_path prefix k) src v) depth prefix src m

    pub record_entry : Index S → ℕ → Text → S → Value → Index S
    record_entry o depth path src (obj m) =
        let nested = record_fields o (suc depth) path src m in
        if is_full o.level
        then (if ltb max_tree_depth (suc depth) then o else nested)
        else record_value o path src null
    record_entry o depth path src nil_obj =
        if is_full o.level then o else record_value o path src null
    record_entry o depth path src v = record_leaf o path src v

  unfoldable pub record_tree : Option (Index S) → Text → Fields → S → Option (Index S)
  unfolding record_fields
  record_tree none prefix m src = none
  record_tree (some o) prefix m src = some (record_fields o 0 prefix src m)

  unfoldable pub explain : Option (Index S) → Text → List (Origin S)
  explain none path = []
  explain (some o) path = chain_of (Dict.get path o.entries)
