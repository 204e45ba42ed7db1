-- ===== src/Confmap/Path/Dotted.antt =====
-- The dotted forms of `Get`, `Set` and `Delete`, from path.go.
use fastconf.Base.{◌≡◌, refl, ◌≢◌, none, some, List, [], ◌∷◌, Text, split-eq-cons}
use fastconf.Confmap.Value.{Value, Fields}
use mathlib.Core.List.{append-nil}
use fastconf.Confmap.Path.{walk, get, set, split_path, get_dotted, set_dotted, delete_dotted}
use fastconf.Confmap.Path.Laws.{get-set, get-delete}

split_path-cons : (s : Text) → s ≢ [] → (p : Text) × (ps : List Text) × (split_path s ≡ p ∷ ps)
unfolding split_path
split_path-cons [] h = absurd (h refl)
split_path-cons (c ∷ s) h = split-eq-cons b'.' (c ∷ s)

get-set_self :
    (root : Fields) (p : Text) (ps : List Text) (v : Value)
    → get (set root (p ∷ ps) v) (p ∷ ps) ≡ some v
unfolding walk
get-set_self root p ps v = rw (append-nil ps) at (get-set root p ps [] v)

-- For a non-empty dotted path: what `SetDotted` stores there `GetDotted` finds, and after
-- `DeleteDotted` it finds nothing.
pub dotted_roundtrip :
    (root : Fields) (dotted : Text) (v : Value)
    → dotted ≢ []
    → (get_dotted (set_dotted root dotted v) dotted ≡ some v)
      × (get_dotted (delete_dotted root dotted) dotted ≡ none)
unfolding get_dotted set_dotted delete_dotted
dotted_roundtrip root dotted v h =
    let (p, ps, e) = split_path-cons dotted h in
    (rw e (get-set_self root p ps v), rw e (get-delete root (p ∷ ps)).0)
