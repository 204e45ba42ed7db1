-- ===== src/Base/Spaces.antt =====
-- strings.TrimSpace on texts in UTF-8.
use Prim.Native.Nat.{ℕ, zero, suc}
use mathlib.Core.Bool.{Bool, ◌&&◌, ◌||◌}
use mathlib.Core.List.{[], ◌∷◌, reverse}
use fastconf.Base.Tests.{leb, ◌==◌, if◌then◌else◌}
use fastconf.Base.Texts.{Text, is_space}

-- U+0085 and U+00A0, in UTF-8
abbrev pub is_space_pair : ℕ → ℕ → Bool
is_space_pair c d = c == 194 && (d == 133 || d == 160)

-- U+1680, U+2000 to U+200A, U+2028, U+2029, U+202F, U+205F and U+3000, in UTF-8
abbrev pub is_space_triple : ℕ → ℕ → ℕ → Bool
is_space_triple c d e =
    (c == 225 && (d == 154 && e == 128))
    || ((c == 226
          && (d == 128 && ((leb 128 e && leb e 138) || (e == 168 || (e == 169 || e == 175)))))
        || ((c == 226 && (d == 129 && e == 159)) || (c == 227 && (d == 128 && e == 128))))

-- How many bytes the white space character takes with which a text begins, 0 for another one.
unfoldable pub leading_width : Text → ℕ
leading_width [] = 0
leading_width (c ∷ []) = if is_space c then 1 else 0
leading_width (c ∷ d ∷ []) = if is_space c then 1 else if is_space_pair c d then 2 else 0
leading_width (c ∷ d ∷ e ∷ s) =
    if is_space c
    then 1
    else if is_space_pair c d
    then 2
    else if is_space_triple c d e
    then 3
    else 0

-- The same for the end of a text that is given backwards.
unfoldable pub trailing_width : Text → ℕ
trailing_width [] = 0
trailing_width (e ∷ []) = if is_space e then 1 else 0
trailing_width (e ∷ d ∷ []) = if is_space e then 1 else if is_space_pair d e then 2 else 0
trailing_width (e ∷ d ∷ c ∷ s) =
    if is_space e
    then 1
    else if is_space_pair d e
    then 2
    else if is_space_triple c d e
    then 3
    else 0

-- The text without the white space at its start; `skip` counts what is left of a character.
unfoldable pub trim_by : (Text → ℕ) → ℕ → Text → Text
trim_by width skip [] = []
trim_by width (suc skip) (c ∷ s) = trim_by width skip s
trim_by width zero (c ∷ s) = elim (width (c ∷ s)) [ zero ↦ c ∷ s | suc more ↦ trim_by width more s ]

-- strings.TrimSpace
unfoldable pub trim_text : Text → Text
unfolding trim_by leading_width trailing_width
trim_text s = reverse (trim_by trailing_width 0 (reverse (trim_by leading_width 0 s)))
