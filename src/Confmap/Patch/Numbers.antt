-- ===== src/Confmap/Patch/Numbers.antt =====
-- `patchEqual` and `toNumber` of confmap/patch.go: JSON values are compared by structure, numbers by
-- value.
use fastconf.Base.{
  ℕ, suc, ◌-◌, Bool, true, false, not, ◌&&◌, ◌||◌, Option, none, some, [], ◌∷◌, ◌==◌, if◌then◌else◌,
  length, Text, text_eq,
}
use fastconf.Confmap.Value.{
  Value, Items, Fields, null, bool, str, num, other, nil_arr, arr, nil_obj, obj, nil, cons, end,
  entry, field,
}
use mathlib.Core.List.{reverse}
use fastconf.Base.Int.{ℤ, pos, ◌+ℤ◌, neg, eqℤ}
use fastconf.Confmap.Pointer.{digits_value}

-- A number by its sign, its digits without zeros at either end, and the exponent of ten.
pub data Canonical : Type 0 where
  zero_number : Canonical
  digits : Bool → Text → ℤ → Canonical

abbrev is_exponent_mark : ℕ → Bool
is_exponent_mark c = c == b'e' || c == b'E'

-- The text before the exponent mark, and after it if there is one.
unfoldable pub split_exponent : Text → Text × Option Text
split_exponent [] = ([], none)
split_exponent (c ∷ s) =
    let (mantissa, exponent) = split_exponent s in
    if is_exponent_mark c then ([], some s) else (c ∷ mantissa, exponent)

-- big.Int's SetString of a signed decimal
unfoldable pub signed_value : Text → ℤ
unfolding digits_value
signed_value [] = pos 0
signed_value (c ∷ s) =
    if c == b'-'
    then neg (pos (digits_value 0 s))
    else if c == b'+'
    then pos (digits_value 0 s)
    else pos (digits_value 0 (c ∷ s))

abbrev exponent_value : Option Text → ℤ
exponent_value none = pos 0
exponent_value (some s) = signed_value s

-- The digits with the point taken out, and how many stood behind it.
unfoldable pub drop_point : Text → Text × ℕ
drop_point [] = ([], 0)
drop_point (c ∷ s) =
    let (rest, behind) = drop_point s in if c == b'.' then (s, length s) else (c ∷ rest, behind)

unfoldable pub trim_zeros : Text → Text
trim_zeros [] = []
trim_zeros (c ∷ s) = if c == b'0' then trim_zeros s else c ∷ s

abbrev canonical_digits : Bool → ℤ → Text → Canonical
canonical_digits negative e [] = zero_number
canonical_digits negative e (c ∷ s) =
    let kept = reverse (trim_zeros (reverse (c ∷ s))) in
    digits negative kept (e +ℤ pos (length (c ∷ s) - length kept))

abbrev of_digits : Bool → ℤ → Text → Canonical
of_digits negative e s =
    let (all, behind) = drop_point s in
    canonical_digits negative (e +ℤ neg (pos behind)) (trim_zeros all)

abbrev of_mantissa : ℤ → Text → Canonical
of_mantissa e [] = zero_number
of_mantissa e (c ∷ s) = if c == b'-' then of_digits true e s else of_digits false e (c ∷ s)

-- `toNumber`, of the text that encoding/json writes for the number
unfoldable pub canonical : Text → Canonical
unfolding split_exponent signed_value drop_point trim_zeros
canonical s =
    let (mantissa, exponent) = split_exponent s in of_mantissa (exponent_value exponent) mantissa

unfoldable pub same_bool : Bool → Bool → Bool
same_bool true b = b
same_bool false b = not b

unfoldable pub canonical_eq : Canonical → Canonical → Bool
unfolding same_bool
canonical_eq zero_number zero_number = true
canonical_eq (digits n s e) (digits m t f) = same_bool n m && text_eq s t && eqℤ e f
canonical_eq _ _ = false

-- `patchNull`: typed nils are null.
unfoldable pub patch_null : Value → Bool
patch_null null = true
patch_null nil_arr = true
patch_null nil_obj = true
patch_null _ = false

-- maps.EqualFunc compares the sizes first.
unfoldable pub size : Fields → ℕ
size end = 0
size (entry k v m) = suc (size m)

-- `patchEqual`; the typed nils are null. `same_entries` is maps.EqualFunc's loop over the left map
-- and `same_items` is slices.EqualFunc.
unfoldable mutual
  pub patch_equal : Value → Value → Bool
  patch_equal null b = patch_null b
  patch_equal nil_arr b = patch_null b
  patch_equal nil_obj b = patch_null b
  patch_equal (num x) (num y) = canonical_eq (canonical x.literal) (canonical y.literal)
  patch_equal (bool x) (bool y) = same_bool x y
  patch_equal (str x) (str y) = text_eq x y
  patch_equal (other x) (other y) = x == y
  patch_equal (arr xs) (arr ys) = same_items xs ys
  patch_equal (obj m) (obj n) = size m == size n && same_entries m n
  patch_equal _ _ = false

  pub same_items : Items → Items → Bool
  same_items nil nil = true
  same_items (cons x xs) (cons y ys) = patch_equal x y && same_items xs ys
  same_items _ _ = false

  pub same_entries : Fields → Fields → Bool
  same_entries end n = true
  same_entries (entry k v m) n = elim (field k n) [
    | none ↦ false
    | some w ↦ patch_equal v w && same_entries m n
  ]
