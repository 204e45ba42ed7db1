-- ===== src/Confmap/Coerce.antt =====
-- confmap/coerce.go: from a text to a scalar. strconv.ParseFloat is a parameter, which gives the
-- float64 as a value.
use fastconf.Base.{
  trim_text, to_lower, digits, itoa, suc, Bool, true, false, Option, none, some, ◌∷◌, if◌then◌else◌,
  Text, codes, text_eq,
}
use fastconf.Base.Int.{ℤ, pos, negsuc}
use fastconf.Migration.{parse_int}
use fastconf.Confmap.Value.{Value, bool, str, num, signed}

pub record CoerceOptions : Type 0 where
  pub trims : Bool
  pub ignore_case : Bool

abbrev pub itoa_ℤ : ℤ → Text
itoa_ℤ (pos n) = itoa n
itoa_ℤ (negsuc n) = b'-' ∷ itoa (suc n)

-- An int64
abbrev pub int_value : ℤ → Value
int_value n = num (record { kind = signed; literal = itoa_ℤ n })

abbrev pub number_or_text : Option Value → Text → Value
number_or_text (some v) s = v
number_or_text none s = str s

module _ (parse_float : Text → Option Value) where
  abbrev pub coerce_number : Option ℤ → Text → Value
  coerce_number (some n) s = int_value n
  coerce_number none s = number_or_text (parse_float s) s

  -- The ladder, for the text and the candidate of the Boolean literals.
  unfoldable pub coerce_text : Text → Text → Value
  unfolding text_eq parse_int digits
  coerce_text candidate s =
      if text_eq candidate (codes "true")
      then bool true
      else if text_eq candidate (codes "false")
      then bool false
      else coerce_number (parse_int s) s

  -- `Coerce`
  unfoldable pub coerce : CoerceOptions → Text → Value
  unfolding coerce_text to_lower trim_text
  coerce o s =
      let t = if o.trims then trim_text s else s in
      coerce_text (if o.ignore_case then to_lower t else t) t
