-- ===== src/Transform/Matched.antt =====
-- The written forms of references, and what the pattern makes of them.
use mathlib.Core.List.{append_assoc}
use fastconf.Base.{
  ℕ, ◌≡◌, refl, ap, ◌∙◌, inl, inr, Bool, true, false, ◌&&◌, none, some, List, [], ◌∷◌, ◌++◌, arith,
  ◌==◌, Bool-cases, Text, cut, lacks, Option, codes,
}
use fastconf.Transform.EnvSubst.{
  match_tail, EnvError, match_name, match_ref, Operator, bare, default_to, required, Ref,
  is_name_start, is_name_byte, span_name, match_op, match_end, required_unset,
}

-- A text without `$`, or a reference.
pub data Piece : Type 0 where
  literal : Text → Piece
  reference : Ref → Piece

abbrev pub write_op : Operator → Text → Text
write_op bare body = []
write_op default_to body = b':' ∷ b'-' ∷ body
write_op required body = b':' ∷ b'?' ∷ body

-- A reference as it is written.
abbrev pub write_ref : Ref → Text
write_ref r = b'$' ∷ b'{' ∷ (r.name ++ (write_op r.op r.body ++ (b'}' ∷ [])))

abbrev pub write_piece : Piece → Text
write_piece (literal s) = s
write_piece (reference r) = write_ref r

abbrev pub every_name_byte : Text → Bool
every_name_byte [] = true
every_name_byte (c ∷ s) = is_name_byte c && every_name_byte s

abbrev pub IsName : Text → Type 0
IsName [] = ⊥
IsName (c ∷ s) = (is_name_start c ≡ true) × (every_name_byte s ≡ true)

abbrev pub IsBody : Operator → Text → Type 0
IsBody bare body = body ≡ []
IsBody default_to body = lacks b'}' body ≡ true
IsBody required body = lacks b'}' body ≡ true

abbrev pub IsPiece : Piece → Type 0
IsPiece (literal s) = lacks b'$' s ≡ true
IsPiece (reference r) = IsName r.name × IsBody r.op r.body

abbrev pub write_pieces : List Piece → Text
write_pieces [] = []
write_pieces (p ∷ ps) = write_piece p ++ write_pieces ps

-- The error of a required variable, if there is one.
abbrev pub as_error : Option (Text × Text) → Option EnvError
as_error none = none
as_error (some (name, said)) = some (required_unset name said)

-- The text in the place of a reference, by the value of its variable.
abbrev pub reference_text : Text → Operator → Text → Text
reference_text [] default_to body = body
reference_text [] op body = []
reference_text (c ∷ value) op body = c ∷ value

-- A variable that is required and has no value, with what its error says.
abbrev pub in_vain : Text → Text → Operator → Text → Option (Text × Text)
in_vain name [] required [] = some (name, codes "variable is required")
in_vain name [] required (c ∷ said) = some (name, c ∷ said)
in_vain name value op body = none

span_name-end :
    (name : Text) (c : ℕ) (rest : Text)
    → every_name_byte name ≡ true
    → is_name_byte c ≡ false
    → span_name (name ++ (c ∷ rest)) ≡ (name, c ∷ rest)
unfolding span_name
span_name-end [] c rest h k = rw k refl
span_name-end (d ∷ name) c rest h k =
    let head : is_name_byte d ≡ true = ground arith in
    rw (head, span_name-end name c rest (ground arith) k) refl

cut-body :
    (body rest : Text)
    → lacks b'}' body ≡ true
    → cut b'}' (body ++ (b'}' ∷ rest)) ≡ some (body, rest)
unfolding cut
cut-body [] rest h = refl
cut-body (c ∷ body) rest h = elim (Bool-cases (c == b'}')) [
  | inl e ↦ cc
  | inr e ↦ rw (e, cut-body body rest (rw e at h)) refl
]

match_end-op :
    (name : Text) (op : Operator) (body rest : Text)
    → IsBody op body
    → match_end name (write_op op body ++ (b'}' ∷ rest))
      ≡ some (record { name = name; op = op; body = body }, rest)
unfolding match_end match_op
match_end-op name bare body rest h = rw h refl
match_end-op name default_to body rest h = rw (cut-body body rest h) refl
match_end-op name required body rest h = rw (cut-body body rest h) refl

-- The end of a reference ends its name.
span_name-op :
    (name : Text) (op : Operator) (body rest : Text)
    → every_name_byte name ≡ true
    → span_name (name ++ (write_op op body ++ (b'}' ∷ rest)))
      ≡ (name, write_op op body ++ (b'}' ∷ rest))
span_name-op name bare body rest h = span_name-end name b'}' rest h refl
span_name-op name default_to body rest h =
    span_name-end name b':' (b'-' ∷ (body ++ (b'}' ∷ rest))) h refl
span_name-op name required body rest h =
    span_name-end name b':' (b'?' ∷ (body ++ (b'}' ∷ rest))) h refl

match_name-write :
    (name : Text) (op : Operator) (body rest : Text)
    → IsName name
    → IsBody op body
    → match_name (name ++ (write_op op body ++ (b'}' ∷ rest)))
      ≡ some (record { name = name; op = op; body = body }, rest)
match_name-write [] op body rest h k = absurd h
match_name-write (c ∷ name) op body rest h k = rw h.0 (
    ap (match_tail c) (span_name-op name op body rest h.1) ∙ match_end-op (c ∷ name) op body rest k)

-- What a reference writes behind its `$`.
abbrev pub after_dollar : Ref → Text
after_dollar r = b'{' ∷ (r.name ++ (write_op r.op r.body ++ (b'}' ∷ [])))

after_dollar-append :
    (r : Ref) (rest : Text)
    → after_dollar r ++ rest ≡ b'{' ∷ (r.name ++ (write_op r.op r.body ++ (b'}' ∷ rest)))
after_dollar-append r rest =
    ap (λ t. b'{' ∷ t)
      (append_assoc r.name (write_op r.op r.body ++ (b'}' ∷ [])) rest
        ∙ ap (λ t. r.name ++ t) (append_assoc (write_op r.op r.body) (b'}' ∷ []) rest))

pub match_ref-write :
    (r : Ref) (rest : Text)
    → IsPiece (reference r)
    → match_ref (b'$' ∷ (after_dollar r ++ rest)) ≡ some (r, rest)
unfolding match_ref
match_ref-write r rest h =
    ap match_ref (ap (λ t. b'$' ∷ t) (after_dollar-append r rest))
    ∙ match_name-write r.name r.op r.body rest h.0 h.1

pub match_ref-plain : (c : ℕ) (s : Text) → (c == b'$') ≡ false → match_ref (c ∷ s) ≡ none
unfolding match_ref
match_ref-plain c [] h = refl
match_ref-plain c (d ∷ s) h = rw h refl
