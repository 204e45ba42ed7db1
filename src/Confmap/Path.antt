-- ===== src/Confmap/Path.antt =====
-- confmap/path.go: reading, writing and deleting by path. A nil root reads as an empty one.
pub mod Laws
pub mod Found
pub mod Dotted
use fastconf.Base.{Option, none, some, List, [], ◌∷◌, Text, split}
use fastconf.Confmap.Value.{Value, Fields, obj, end, field, put_field, delete_field, as_map}

-- The loop of `Get`, from the node reached so far.
unfoldable pub walk : Value → List Text → Option Value
walk cur [] = some cur
walk cur (p ∷ ps) = elim (as_map cur) [
  | none ↦ none
  | some m ↦ elim (field p m) [ none ↦ none | some v ↦ walk v ps ]
]

unfoldable pub get : Fields → List Text → Option Value
get root [] = none
get root (p ∷ ps) = walk (obj root) (p ∷ ps)

-- The map to go on in: the one that is there, or a fresh one for anything else.
abbrev pub next_map : Option Value → Fields
next_map (some (obj m)) = m
next_map _ = end

unfoldable pub set : Fields → List Text → Value → Fields
set root [] v = root
set root (p ∷ []) v = put_field p v root
set root (p ∷ q ∷ ps) v = put_field p (obj (set (next_map (field p root)) (q ∷ ps) v)) root

-- What a delete below a map stores back: nothing where the path ends early.
abbrev pub store_back : Text → Fields → (Fields → Fields) → Option Value → Fields
store_back p root f (some (obj m)) = put_field p (obj (f m)) root
store_back p root f _ = root

unfoldable pub delete : Fields → List Text → Fields
delete root [] = root
delete root (p ∷ []) = delete_field p root
delete root (p ∷ q ∷ ps) = store_back p root (λ m. delete m (q ∷ ps)) (field p root)

-- `Split`: the empty path is the root.
unfoldable pub split_path : Text → List Text
split_path [] = []
split_path (c ∷ s) = split b'.' (c ∷ s)

unfoldable pub get_dotted : Fields → Text → Option Value
get_dotted root dotted = get root (split_path dotted)

unfoldable pub set_dotted : Fields → Text → Value → Fields
set_dotted root dotted v = set root (split_path dotted) v

unfoldable pub delete_dotted : Fields → Text → Fields
delete_dotted root dotted = delete root (split_path dotted)
