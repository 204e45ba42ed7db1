-- ===== src/Transform.antt =====
-- transform/transform.go: aliases, deletions and captures on the merged tree. `Func`s mutate the
-- tree; here they return it.
pub mod Moves
pub mod EnvSubst
pub mod Matched
pub mod Expanded
pub mod Substituted
mod Tests
use fastconf.Base.{Option, none, some, List, [], ◌∷◌, Result, ok, ◌>>=◌, Text}
use fastconf.Confmap.Value.{Value, Fields}
use fastconf.Base.Dict
use fastconf.Base.Dict.{Dict}
use fastconf.Confmap.Path.{get_dotted, set_dotted, delete_dotted}

-- The write of one alias: a value at the target is kept.
abbrev pub write_alias : Fields → Text → Value → Option Value → Fields
write_alias root to v none = set_dotted root to v
write_alias root to v (some _) = root

abbrev pub alias_found : Fields → Text → Text → Option Value → Fields
alias_found root from to none = root
alias_found root from to (some v) = delete_dotted (write_alias root to v (get_dotted root to)) from

-- One round of the loop of `Aliases`.
unfoldable pub alias_one : Fields → Text → Text → Fields
alias_one root from to = alias_found root from to (get_dotted root from)

unfoldable pub aliases : Dict Text → Fields → Fields
unfolding alias_one
aliases [] root = root
aliases ((from, to) ∷ l) root = aliases l (alias_one root from to)

unfoldable pub delete_paths : List Text → Fields → Fields
delete_paths [] root = root
delete_paths (p ∷ l) root = delete_paths l (delete_dotted root p)

-- The loop of `RawCapture.Transform`; `marshal` stands for json.Marshal.
unfoldable pub capture_from :
    {E : Type 0} → (Value → Result E Text) → List Text → Fields → Dict Text → Result E (Dict Text)
capture_from marshal [] root values = ok values
capture_from marshal (p ∷ l) root values = elim (get_dotted root p) [
  | none ↦ capture_from marshal l root values
  | some v ↦ marshal v >>= λ b. capture_from marshal l root (Dict.put p b values)
]

-- `RawCapture.Transform`: the captured values, for the registered paths; an error keeps the old ones.
unfoldable pub capture :
    {E : Type 0} → (Value → Result E Text) → List Text → Fields → Result E (Dict Text)
unfolding capture_from
capture marshal paths root = capture_from marshal paths root []
