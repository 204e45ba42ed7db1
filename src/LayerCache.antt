-- ===== src/LayerCache.antt =====
-- layer_cache.go: the decoded layers that reloads and plans share, and the merge-key table of the
-- last _meta.yaml. A decoder and SHA-256 are parameters.
pub mod Transparent
pub mod Entered
pub mod Filled
pub mod Bounded
mod Tests
use fastconf.Base.{
  ℕ, zero, suc, ◌+◌, ◌-◌, ◌*◌, ◌/◌, ◌%◌, ◌≤◌, ◌<◌, min, max, String, ◌≡◌, refl, sym, ap, ◌∙◌,
  ◌≡⟨◌⟩◌, ◌∎, fun_ext, ◌≢◌, ◌↔◌, ◌⊎◌, inl, inr, Bool, true, false, not, ◌&&◌, ◌||◌, Option, none,
  some, List, [], ◌∷◌, ◌++◌, map, arith, ltb, leb, ◌==◌, if◌then◌else◌, Bool-cases, length,
  get_elem?, length-append, All, Result, ok, err, ◌>>=◌, >>=-eq-ok, Text, codes, text_eq,
  text_eq_iff, text_eq_refl,
}
use fastconf.Base.{set, get_or}
use fastconf.Confmap.Value.{Fields}

pub record LayerKey : Type 0 where
  pub path : Text
  pub codec : Text

abbrev pub same_key : LayerKey → LayerKey → Bool
same_key a b = text_eq a.path b.path && text_eq a.codec b.codec

pub record DecodedLayer : Type 0 where
  pub sum : Text
  pub generation : ℕ
  pub tree : Fields

abbrev pub Entries : Type 0
Entries = List (LayerKey × DecodedLayer)

unfoldable pub find_entry : LayerKey → Entries → Option DecodedLayer
unfolding text_eq
find_entry k [] = none
find_entry k ((j, e) ∷ l) = let rest = find_entry k l in if same_key j k then some e else rest

unfoldable pub put_entry : LayerKey → DecodedLayer → Entries → Entries
unfolding text_eq
put_entry k e [] = (k, e) ∷ []
put_entry k e ((j, d) ∷ l) =
    let rest = put_entry k e l in if same_key j k then (k, e) ∷ l else (j, d) ∷ rest

unfoldable pub delete_entry : LayerKey → Entries → Entries
unfolding text_eq
delete_entry k [] = []
delete_entry k ((j, e) ∷ l) =
    let rest = delete_entry k l in if same_key j k then rest else (j, e) ∷ rest

-- `layerCache`
pub record Cache : Type 0 where
  pub entries : Entries
  pub keys : List LayerKey
  pub next : ℕ

abbrev pub empty_cache : Cache
empty_cache = record { entries = []; keys = []; next = 0 }

abbrev pub max_cached_layers : ℕ
max_cached_layers = 512

-- Room for a key that has no entry: at first a new place, then the place of the oldest.
abbrev pub make_room : LayerKey → Cache → Cache
make_room k c =
    if length c.keys == max_cached_layers
    then record {
      entries = delete_entry (get_or c.keys c.next k) c.entries;
      keys = set c.keys c.next k;
      next = (c.next + 1) % max_cached_layers;
    }
    else record c { keys = c.keys ++ (k ∷ []) }

abbrev pub room_for : LayerKey → Cache → Option DecodedLayer → Cache
room_for k c none = make_room k c
room_for k c (some e) = c

abbrev pub store_entry : LayerKey → DecodedLayer → Cache → Cache
store_entry k e c = record c { entries = put_entry k e c.entries }

abbrev pub is_current : Text → ℕ → Option DecodedLayer → Option DecodedLayer
is_current sum generation none = none
is_current sum generation (some e) =
    if text_eq e.sum sum && e.generation == generation then some e else none

module _ {E : Type 0} where
  abbrev pub decode_into :
      LayerKey → Text → ℕ → Result E Fields → Cache → Result E DecodedLayer × Cache
  decode_into k sum generation (err x) c = (err x, c)
  decode_into k sum generation (ok tree) c =
      let entry : DecodedLayer = record { sum = sum; generation = generation; tree = tree } in
      (ok entry, store_entry k entry (room_for k c (find_entry k c.entries)))

  -- `getOrDecode`; `decoded` is what the decoder gives for the layer's bytes.
  unfoldable pub get_or_decode :
      LayerKey → Text → ℕ → Result E Fields → Cache → Result E DecodedLayer × Cache
  unfolding find_entry put_entry delete_entry text_eq
  get_or_decode k sum generation decoded c =
      elim (is_current sum generation (find_entry k c.entries)) [
        | some e ↦ (ok e, c)
        | none ↦ decode_into k sum generation decoded c
      ]

-- `metaKeysCache`; the table of merge keys is a list of paths and fields.
pub record MetaKeys : Type 0 where
  pub sum : Text
  pub keys : List (Text × Text)
  pub is_set : Bool

-- `getOrBuild`
unfoldable pub get_or_build :
    (Text → Text) → Text → List (Text × Text) → MetaKeys → List (Text × Text) × MetaKeys
unfolding text_eq
get_or_build sha256 meta_bytes built c =
    let sum = sha256 meta_bytes in
    if not c.is_set || not (text_eq c.sum sum)
    then (built, record { sum = sum; keys = built; is_set = true })
    else (c.keys, c)
