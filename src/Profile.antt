-- ===== src/Profile.antt =====
-- internal/scan/profile_expr.go: the expressions over profile names. The parser's position is the
-- text that is left; a compiled expression is a function of the set, which is its `Has`. Recursive
-- descent runs on fuel, four units for each byte of the text.
mod Tests
mod Steps
pub mod Fuel
pub mod Syntax
pub mod Trimmed
mod Lengths
pub mod Tokens
pub mod Reads
pub mod RoundTrip
use fastconf.Base.{
  ℕ, zero, suc, ◌+◌, ◌*◌, Bool, true, false, not, ◌&&◌, ◌||◌, List, [], ◌∷◌, leb, ◌==◌,
  if◌then◌else◌, length, Result, ok, err, ◌>>=◌, Text, text_eq, trim_text, is_space,
}

abbrev pub ProfileSet : Type 0
ProfileSet = Text → Bool

-- `NewProfileSet`, read through `Has`
unfoldable pub new_profile_set : List Text → ProfileSet
unfolding trim_text
new_profile_set [] name = false
new_profile_set (a ∷ l) name = elim (trim_text a) [
  | [] ↦ new_profile_set l name
  | c ∷ s ↦ text_eq (c ∷ s) name || new_profile_set l name
]

abbrev pub EvalFn : Type 0
EvalFn = ProfileSet → Bool

-- An error, with the text that is left where the source gives the position.
pub data ExprError : Type 0 where
  unexpected_end : ExprError
  missing_paren : Text → ExprError
  expected_ident : Text → ExprError
  trailing_input : Text → ExprError
  out_of_fuel : ExprError

-- unicode.IsSpace of one byte
abbrev pub is_blank : ℕ → Bool
is_blank c = is_space c || (c == 133 || c == 160)

-- What `peek` moves over.
unfoldable pub skip : Text → Text
skip [] = []
skip (c ∷ s) = if is_blank c then skip s else c ∷ s

abbrev pub head_or_zero : Text → ℕ
head_or_zero [] = 0
head_or_zero (c ∷ s) = c

unfoldable pub peek : Text → ℕ
unfolding skip
peek s = head_or_zero (skip s)

abbrev pub tail_of : Text → Text
tail_of [] = []
tail_of (c ∷ s) = s

-- `p.pos++` after a `peek`
unfoldable pub next : Text → Text
unfolding skip
next s = tail_of (skip s)

abbrev pub is_ident_char : ℕ → Bool
is_ident_char c =
    c == b'_'
    || (c == b'-'
        || (c == b'.'
            || ((leb b'a' c && leb c b'z')
                || ((leb b'A' c && leb c b'Z') || (leb b'0' c && leb c b'9')))))

-- The identifier at the start, and the rest.
unfoldable pub span_ident : Text → Text × Text
span_ident [] = ([], [])
span_ident (c ∷ s) =
    let (id, rest) = span_ident s in if is_ident_char c then (c ∷ id, rest) else ([], c ∷ s)

abbrev pub ident_or_error : Text × Text → Result ExprError (Text × Text)
ident_or_error ([], rest) = err (expected_ident rest)
ident_or_error (c ∷ id, rest) = ok (c ∷ id, rest)

unfoldable pub parse_ident : Text → Result ExprError (Text × Text)
unfolding span_ident
parse_ident s = ident_or_error (span_ident s)

abbrev pub close_paren : EvalFn × Text → Result ExprError (EvalFn × Text)
close_paren (inner, rest) =
    if peek rest == b')' then ok (inner, next rest) else err (missing_paren (skip rest))

abbrev pub has_name : Text × Text → Result ExprError (EvalFn × Text)
has_name (id, rest) = ok (λ set. set id, rest)

abbrev pub negated : EvalFn × Text → Result ExprError (EvalFn × Text)
negated (inner, rest) = ok (λ set. not (inner set), rest)

unfoldable mutual
  pub parse_or : ℕ → Text → Result ExprError (EvalFn × Text)
  parse_or zero s = err out_of_fuel
  parse_or (suc f) s = parse_and f s >>= λ (left, rest). or_loop f left rest

  -- The loop of `parseOr`.
  pub or_loop : ℕ → EvalFn → Text → Result ExprError (EvalFn × Text)
  or_loop zero left s = err out_of_fuel
  or_loop (suc f) left s = elim (peek s == b'|') [
    | true ↦ parse_and f (next s) >>= λ (right, rest). or_loop f (λ set. left set || right set) rest
    | false ↦ ok (left, skip s)
  ]

  pub parse_and : ℕ → Text → Result ExprError (EvalFn × Text)
  parse_and zero s = err out_of_fuel
  parse_and (suc f) s = parse_not f s >>= λ (left, rest). and_loop f left rest

  -- The loop of `parseAnd`.
  pub and_loop : ℕ → EvalFn → Text → Result ExprError (EvalFn × Text)
  and_loop zero left s = err out_of_fuel
  and_loop (suc f) left s = elim (peek s == b'&') [
    | true ↦
        parse_not f (next s) >>= λ (right, rest). and_loop f (λ set. left set && right set) rest
    | false ↦ ok (left, skip s)
  ]

  pub parse_not : ℕ → Text → Result ExprError (EvalFn × Text)
  parse_not zero s = err out_of_fuel
  parse_not (suc f) s = elim (peek s == b'!') [
    | true ↦ parse_not f (next s) >>= negated
    | false ↦ parse_atom f s
  ]

  pub parse_atom : ℕ → Text → Result ExprError (EvalFn × Text)
  parse_atom zero s = err out_of_fuel
  parse_atom (suc f) s = elim (peek s == 0) [
    | true ↦ err unexpected_end
    | false ↦ elim (peek s == b'(') [
      | true ↦ parse_or f (next s) >>= close_paren
      | false ↦ parse_ident (skip s) >>= has_name
    ]
  ]

abbrev pub fuel_for : Text → ℕ
fuel_for s = 4 * length s + 4

abbrev pub at_end : EvalFn × Text → Result ExprError EvalFn
at_end (v, []) = ok v
at_end (v, c ∷ rest) = err (trailing_input (c ∷ rest))

unfoldable pub compile_trimmed : ℕ → Text → Result ExprError EvalFn
unfolding parse_or
compile_trimmed f [] = ok (λ set. true)
compile_trimmed f (c ∷ s) = parse_or f (c ∷ s) >>= at_end

unfoldable pub compile : Text → Result ExprError EvalFn
unfolding compile_trimmed trim_text
compile expr = compile_trimmed (fuel_for expr) (trim_text expr)

-- `Eval`
unfoldable pub eval_profile : Text → ProfileSet → Result ExprError Bool
unfolding compile
eval_profile expr active = compile expr >>= λ fn. ok (fn active)
