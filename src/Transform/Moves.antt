-- ===== src/Transform/Moves.antt =====
-- What an alias moves, what a deletion leaves, and where an alias loses its value.
use fastconf.Base.{
  ◌≡◌, refl, sym, ap, ◌∙◌, ◌≢◌, true, Option, none, some, List, [], ◌∷◌, ◌++◌, Text,
}
use fastconf.Confmap.Value.{Value, Fields, obj, field, as_map}
use fastconf.Confmap.Path.{walk, get, split_path, get_dotted, set_dotted, delete_dotted}
use fastconf.Confmap.Path.Laws.{diverges, walk-obj, then_walk, get-set-diverges, get-delete}
use fastconf.Confmap.Path.Dotted.{dotted_roundtrip}
use fastconf.Transform.{write_alias, alias_found, alias_one}

abbrev pub kept_or : Option Value → Value → Value
kept_or none v = v
kept_or (some w) v = w

write-target :
    (root : Fields) (to : Text) (v : Value) (o : Option Value)
    → to ≢ []
    → get_dotted root to ≡ o
    → get_dotted (write_alias root to v o) to ≡ some (kept_or o v)
write-target root to v none full h = (dotted_roundtrip root to v full).0
write-target root to v (some w) full h = h

write-apart :
    (root : Fields) (to q : Text) (v : Value) (o : Option Value)
    → diverges (split_path to) (split_path q) ≡ true
    → get_dotted (write_alias root to v o) q ≡ get_dotted root q
unfolding get_dotted set_dotted
write-apart root to q v none h = get-set-diverges root (split_path to) (split_path q) v h
write-apart root to q v (some w) h = refl

delete-apart :
    (root : Fields) (from q : Text)
    → diverges (split_path from) (split_path q) ≡ true
    → get_dotted (delete_dotted root from) q ≡ get_dotted root q
unfolding get_dotted delete_dotted
delete-apart root from q h = (get-delete root (split_path from)).1 (split_path q) h

delete-gone : (root : Fields) (from : Text) → get_dotted (delete_dotted root from) from ≡ none
unfolding get_dotted delete_dotted
delete-gone root from = (get-delete root (split_path from)).0

alias-here :
    (root : Fields) (from to : Text) (v : Value)
    → get_dotted root from ≡ some v
    → alias_one root from to ≡ delete_dotted (write_alias root to v (get_dotted root to)) from
unfolding alias_one
alias-here root from to v h = ap (alias_found root from to) h

-- An alias whose old key has a value, and whose new key is not empty and parts from the old one:
-- afterwards the old key reads nothing, the new key reads its own value if it had one and the old
-- key's if not, and every key that parts from both reads as before.
pub alias_moves :
    (root : Fields) (from to q : Text) (v : Value)
    → to ≢ []
    → get_dotted root from ≡ some v
    → diverges (split_path from) (split_path to) ≡ true
    → diverges (split_path from) (split_path q) ≡ true
    → diverges (split_path to) (split_path q) ≡ true
    → (get_dotted (alias_one root from to) from ≡ none)
      × (get_dotted (alias_one root from to) to ≡ some (kept_or (get_dotted root to) v))
      × (get_dotted (alias_one root from to) q ≡ get_dotted root q)
alias_moves root from to q v full h apart apart_from apart_to =
    let written = write_alias root to v (get_dotted root to) in
    rw (alias-here root from to v h) (
      delete-gone written from,
      delete-apart written from to apart ∙ write-target root to v (get_dotted root to) full refl,
      delete-apart written from q apart_from
          ∙ write-apart root to q v (get_dotted root to) apart_to,
    )

then_walk-none :
    (o : Option Value) (ps qs : List Text) → then_walk o ps ≡ none → then_walk o (ps ++ qs) ≡ none
unfolding walk as_map field
then_walk-none none ps qs h = refl
then_walk-none (some v) [] qs h = cc
then_walk-none (some (obj m)) (p ∷ ps) qs h =
    walk-obj p (ps ++ qs) m ∙ then_walk-none (field p m) ps qs (sym (walk-obj p ps m) ∙ h)
then_walk-none (some v) (p ∷ ps) qs h = refl

-- Where nothing is read, nothing is read below.
get-below :
    (root : Fields) (ps qs : List Text) → ps ≢ [] → get root ps ≡ none → get root (ps ++ qs) ≡ none
unfolding get
get-below root [] qs full h = absurd (full refl)
get-below root (p ∷ ps) qs full h =
    walk-obj p (ps ++ qs) root ∙ then_walk-none (field p root) ps qs (sym (walk-obj p ps root) ∙ h)

-- An alias of a non-empty key that has a value to a key below it, or to itself, loses the value:
-- afterwards neither key reads anything.
pub alias_below :
    (root : Fields) (from to : Text) (v : Value) (qs : List Text)
    → get_dotted root from ≡ some v
    → split_path from ≢ []
    → split_path to ≡ split_path from ++ qs
    → (get_dotted (alias_one root from to) from ≡ none)
      × (get_dotted (alias_one root from to) to ≡ none)
unfolding get_dotted
alias_below root from to v qs h full below =
    let written = write_alias root to v (get_dotted root to) in
    rw (alias-here root from to v h) (
      delete-gone written from,
      ap (get (delete_dotted written from)) below
          ∙ get-below (delete_dotted written from) (split_path from) qs full
              (delete-gone written from),
    )
