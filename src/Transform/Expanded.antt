-- ===== src/Transform/Expanded.antt =====
-- What the expansion makes of a text: each reference replaced, everything else kept.
use fastconf.Transform.Matched.{
  literal, reference, Piece, write_ref, IsPiece, write_pieces, as_error, reference_text, in_vain,
  after_dollar, match_ref-write, match_ref-plain,
}
use fastconf.Base.{
  ℕ, zero, ◌-◌, ◌≡◌, refl, ap, ◌∙◌, true, false, none, some, List, [], ◌∷◌, ◌++◌, arith, ◌==◌,
  length, length-append, All, Text, lacks, Option,
}
use fastconf.Transform.EnvSubst.{
  replaced, replace_ref, join_pieces, expand_from, expand, Operator, bare, default_to, required,
  Ref, first,
}

module _ (lookup : Text → Text) where
  expand_from-skip :
      (p rest : Text) → expand_from lookup (length p) (p ++ rest) ≡ expand_from lookup zero rest
  unfolding expand_from
  expand_from-skip [] rest = refl
  expand_from-skip (c ∷ p) rest = expand_from-skip p rest

  expand-ref :
      (r : Ref) (rest : Text)
      → IsPiece (reference r)
      → expand lookup (write_ref r ++ rest)
        ≡ join_pieces (replace_ref lookup r) (expand lookup rest)
  unfolding expand_from
  expand-ref r rest h =
      let behind = after_dollar r ++ rest in
      let skip : length behind - length rest ≡ length (after_dollar r) =
        omega (arith, length-append (after_dollar r) rest) in
      rw (match_ref-write r rest h, expand_from)
        (ap (λ n. join_pieces (replace_ref lookup r) (expand_from lookup n behind)) skip
          ∙ ap (join_pieces (replace_ref lookup r)) (expand_from-skip (after_dollar r) rest))

  expand-plain :
      (c : ℕ) (s : Text)
      → (c == b'$') ≡ false
      → expand lookup (c ∷ s) ≡ join_pieces (c ∷ [], none) (expand lookup s)
  unfolding expand_from
  expand-plain c s h = rw (match_ref-plain c s h, expand_from) refl

  expand-literal :
      (s rest : Text)
      → lacks b'$' s ≡ true
      → expand lookup (s ++ rest) ≡ join_pieces (s, none) (expand lookup rest)
  expand-literal [] rest h = refl
  expand-literal (c ∷ s) rest h =
      expand-plain c (s ++ rest) (ground arith)
      ∙ ap (join_pieces (c ∷ [], none)) (expand-literal s rest (ground arith))

  -- The text that a piece becomes: a literal stays, a reference gives its variable's value, or its
  -- default where it has one and the value is empty.
  abbrev pub piece_text : Piece → Text
  piece_text (literal s) = s
  piece_text (reference r) = reference_text (lookup r.name) r.op r.body

  abbrev pub pieces_text : List Piece → Text
  pieces_text [] = []
  pieces_text (p ∷ ps) = piece_text p ++ pieces_text ps

  -- The variable that a piece requires in vain, with what its error says.
  abbrev pub missing : Piece → Option (Text × Text)
  missing (literal s) = none
  missing (reference r) = in_vain r.name (lookup r.name) r.op r.body

  -- The first of them.
  abbrev pub first_missing : List Piece → Option (Text × Text)
  first_missing [] = none
  first_missing (p ∷ ps) = elim (missing p) [ some x ↦ some x | none ↦ first_missing ps ]

  replace_ref-piece :
      (r : Ref)
      → replace_ref lookup r ≡ (piece_text (reference r), as_error (missing (reference r)))
  replace_ref-piece r = go r.op r.body (lookup r.name)
    where
      go :
          (op : Operator) (body value : Text)
          → replaced (record { name = r.name; op = op; body = body }) value
            ≡ (reference_text value op body, as_error (in_vain r.name value op body))
      go bare body [] = refl
      go bare body (c ∷ v) = refl
      go default_to body [] = refl
      go default_to body (c ∷ v) = refl
      go required [] [] = refl
      go required (d ∷ body) [] = refl
      go required body (c ∷ v) = refl

  first-missing :
      (p : Piece) (ps : List Piece)
      → first (as_error (missing p)) (as_error (first_missing ps))
        ≡ as_error (first_missing (p ∷ ps))
  first-missing p ps =
      elim (missing p)
        as (λ o.
          first (as_error o) (as_error (first_missing ps))
          ≡ as_error (elim o [ some x ↦ some x | none ↦ first_missing ps ])) [
            | none ↦ refl
            | some x ↦ refl
          ]

  -- A text of pieces without `$` and of references ${NAME}, ${NAME:-default} and ${NAME:?message}
  -- becomes their texts, one after the other: a piece without `$` is kept, a reference becomes the
  -- variable's value, which is not expanded again, or its default where the value is empty; and the
  -- error is that of the first required variable that is empty, if there is one, with its message.
  pub expand-pieces :
      (ps : List Piece)
      → All IsPiece ps
      → expand lookup (write_pieces ps) ≡ (pieces_text ps, as_error (first_missing ps))
  expand-pieces [] h = unfold expand_from in refl
  expand-pieces (literal s ∷ ps) h =
      expand-literal s (write_pieces ps) h.0 ∙ ap (join_pieces (s, none)) (expand-pieces ps h.1)
  expand-pieces (reference r ∷ ps) h =
      expand-ref r (write_pieces ps) h.0
      ∙ ap (join_pieces (replace_ref lookup r)) (expand-pieces ps h.1)
      ∙ ap (λ x. join_pieces x (pieces_text ps, as_error (first_missing ps))) (replace_ref-piece r)
      ∙ ap (λ e. (pieces_text (reference r ∷ ps), e)) (first-missing (reference r) ps)
