-- ===== src/Migration.antt =====
-- transform/migration.go: the chain of schema migrations. Versions are ints of 64 bits, as signed
-- integers; `Apply` takes the tree and returns the one that it leaves, or its error.
mod Tests
pub mod Stamped
pub mod Target
use fastconf.Base.{
  ℕ, zero, suc, ◌+◌, ◌-◌, Bool, true, false, not, Option, none, some, List, [], ◌∷◌, leb, ◌==◌,
  if◌then◌else◌, Result, ok, err, ◌>>=◌, Text, codes, trim_text, itoa,
}
use fastconf.Confmap.Value.{NumKind, Value, Fields, str, num, nil_obj, obj, end, field, put_field}
use fastconf.Base.Int.{ℤ, pos, negsuc, ltℤ, eqℤ, pos_part, neg_part, neg}
use fastconf.Confmap.Pointer.{all_digits, digits_value}
use fastconf.Assembly.Sorting.{sort_stable}

pub record Migration (E : Type 0) : Type 0 where
  pub from : ℤ
  pub to : ℤ
  pub apply : Option (Fields → Result E Fields)

pub data ChainError : Type 0 where
  nil_apply : ℕ → ChainError
  not_rising : ℤ → ℤ → ChainError
  duplicate_from : ℤ → ChainError

-- A migration of a chain: `Apply` is there.
pub record Step (E : Type 0) : Type 0 where
  pub from : ℤ
  pub to : ℤ
  pub apply : Fields → Result E Fields

pub record Chain (E : Type 0) : Type 0 where
  pub target : ℤ
  pub by_from : List (Step E)

pub data RunError (E : Type 0) : Type 0 where
  no_migration : ℤ → RunError E
  apply_failed : ℤ → ℤ → E → RunError E
  out_of_steps : RunError E

-- How a run ends; a write to a nil map panics.
pub data Outcome (E : Type 0) : Type 0 where
  returns : ℤ → Fields → Outcome E
  fails : RunError E → Outcome E
  panics : Outcome E

abbrev pub meta_key : Text
meta_key = codes "_meta"

abbrev pub field_key : Text
field_key = codes "schemaVersion"

-- The largest int
abbrev pub max_version : ℕ
max_version = 9223372036854775807

abbrev pub in_int : ℤ → Bool
in_int (pos n) = leb n max_version
in_int (negsuc n) = leb n max_version

abbrev pub unsigned_digits : Text → Option ℕ
unsigned_digits [] = none
unsigned_digits (c ∷ s) = if all_digits (c ∷ s) then some (digits_value 0 (c ∷ s)) else none

abbrev pub ranged : Option ℤ → Option ℤ
ranged none = none
ranged (some v) = if in_int v then some v else none

-- strconv.ParseInt(s, 10, 64)
unfoldable pub parse_int : Text → Option ℤ
unfolding neg digits_value all_digits
parse_int [] = none
parse_int (c ∷ s) =
    if c == b'-'
    then ranged (elim (unsigned_digits s) [ none ↦ none | some n ↦ some (neg (pos n)) ])
    else ranged (elim (unsigned_digits (if c == b'+' then s else c ∷ s)) [
      | none ↦ none
      | some n ↦ some (pos n)
    ])

abbrev pub or_zero : Option ℤ → ℤ
or_zero none = pos 0
or_zero (some v) = v

-- `integral` is the integer of 64 bits that a float stands for, if it does: the text of a number does
-- not hold all bits of a float.
module _ (integral : Text → Option ℤ) where
  abbrev pub version_of : Option Value → ℤ
  version_of (some (num n)) = elim n.kind [
    | NumKind.float ↦ or_zero (integral n.literal)
    | _ ↦ or_zero (parse_int n.literal)
  ]
  version_of (some (str s)) = or_zero (parse_int (trim_text s))
  version_of _ = pos 0

  abbrev pub version_in : Option Value → ℤ
  version_in (some (obj m)) = version_of (field field_key m)
  version_in _ = pos 0

  unfoldable pub current_version : Fields → ℤ
  unfolding parse_int trim_text field
  current_version m = version_in (field meta_key m)

unfoldable pub int_text : ℤ → Text
int_text (pos n) = itoa n
int_text (negsuc n) = b'-' ∷ itoa (suc n)

abbrev pub int_value : ℤ → Value
int_value v = num (record { kind = NumKind.signed; literal = int_text v })

-- A write to a nil map panics.
abbrev pub write_version : Fields → ℤ → Option Value → Option Fields
write_version m v (some (obj meta)) =
    some (put_field meta_key (obj (put_field field_key (int_value v) meta)) m)
write_version m v (some nil_obj) = none
write_version m v _ = some (put_field meta_key (obj (put_field field_key (int_value v) end)) m)

unfoldable pub set_version : Fields → ℤ → Option Fields
unfolding int_text field put_field
set_version m v = write_version m v (field meta_key m)

-- How far `a` is below `b`.
abbrev pub distance : ℤ → ℤ → ℕ
distance a b = (pos_part b + neg_part a) - (pos_part a + neg_part b)

module _ {E : Type 0} where
  unfoldable pub find_from : ℤ → List (Step E) → Option (Step E)
  unfolding eqℤ
  find_from v [] = none
  find_from v (s ∷ l) = if eqℤ s.from v then some s else find_from v l

  abbrev pub chain_step : ℕ → List (Step E) → Migration E → Result ChainError (List (Step E))
  chain_step i done m = elim m.apply [
    | none ↦ err (nil_apply i)
    | some apply ↦
        if not (ltℤ m.from m.to)
        then err (not_rising m.from m.to)
        else elim (find_from m.from done) [
          | some s ↦ err (duplicate_from m.from)
          | none ↦ ok (record { from = m.from; to = m.to; apply = apply } ∷ done)
        ]
  ]

  -- The loop of `NewChain`, from index `i` on.
  unfoldable pub chain_loop :
      ℕ → List (Step E) → List (Migration E) → Result ChainError (List (Step E))
  unfolding find_from ltℤ
  chain_loop i done [] = ok done
  chain_loop i done (m ∷ ms) = chain_step i done m >>= λ next. chain_loop (suc i) next ms

  unfoldable pub new_chain : ℤ → List (Migration E) → Result ChainError (Chain E)
  unfolding chain_loop sort_stable ltℤ
  new_chain target ms = chain_loop 0 [] (sort_stable (λ a b. ltℤ a.from b.from) ms) >>= λ steps.
      ok (record { target = target; by_from = steps })

  abbrev pub applied : Step E → Result E Fields → Result (RunError E) Fields
  applied s (ok m) = ok m
  applied s (err e) = err (apply_failed s.from s.to e)

  -- The loop of `Run`, on fuel.
  unfoldable pub run_loop : ℕ → Chain E → ℤ → Fields → Result (RunError E) (ℤ × Fields)
  unfolding ltℤ find_from
  run_loop zero c cur m = if ltℤ cur c.target then err out_of_steps else ok (cur, m)
  run_loop (suc f) c cur m = elim (ltℤ cur c.target) [
    | false ↦ ok (cur, m)
    | true ↦ elim (find_from cur c.by_from) [
      | none ↦ err (no_migration cur)
      | some s ↦ applied s (s.apply m) >>= λ next. run_loop f c s.to next
    ]
  ]

  abbrev pub stored : ℤ → Option Fields → Outcome E
  stored cur none = panics
  stored cur (some m) = returns cur m

  -- What follows the loop.
  abbrev pub settled : Result (RunError E) (ℤ × Fields) → Outcome E
  settled (err e) = fails e
  settled (ok (last, out)) = stored last (set_version out last)

  -- `Run`
  unfoldable pub run_chain : (Text → Option ℤ) → Chain E → Fields → Outcome E
  unfolding run_loop current_version set_version ltℤ
  run_chain integral c m =
      let cur = current_version integral m in
      if not (ltℤ cur c.target)
      then returns cur m
      else settled (run_loop (distance cur c.target) c cur m)
