-- ===== src/Profile/Lengths.antt =====
-- What a written expression adds to the length of a text.
use fastconf.Base.{◌≤◌, ◌<◌, [], ◌∷◌, ◌++◌, arith, length, length-append, Text}
use fastconf.Profile.Syntax.{
  OrExpr, OrTail, AndExpr, AndTail, NotExpr, Atom, alternatives, or_end, or_more, conjuncts,
  and_end, and_more, negation, plain, name, parens, write_or, write_or_tail, write_and,
  write_and_tail, write_not, write_atom,
}

module _ (gap : Text) where
  mutual
    unfolding write_or

    pub and-longer : (a : AndExpr) (r : Text) → length r < length (write_and gap a r)
    and-longer (conjuncts n t) r =
        ground (arith, not-longer n (write_and_tail gap t r), and_tail-longer t r)

    and_tail-longer : (t : AndTail) (r : Text) → length r ≤ length (write_and_tail gap t r)
    and_tail-longer and_end r = ground arith
    and_tail-longer (and_more n t) r = ground (
      arith,
      not-longer n (write_and_tail gap t r),
      and_tail-longer t r,
      length-append gap (b'&' ∷ write_not gap n (write_and_tail gap t r)),
    )

    pub not-longer : (n : NotExpr) (r : Text) → length r < length (write_not gap n r)
    not-longer (negation n) r =
        ground (arith, not-longer n r, length-append gap (b'!' ∷ write_not gap n r))
    not-longer (plain a) r = atom-longer a r

    atom-longer : (a : Atom) (r : Text) → length r < length (write_atom gap a r)
    atom-longer (name [] h) r = ground arith
    atom-longer (name (c ∷ n) h) r =
        ground (arith, length-append gap (c ∷ (n ++ r)), length-append n r)
    atom-longer (parens e) r = ground (
      arith,
      or-longer e (gap ++ b')' ∷ r),
      length-append gap (b')' ∷ r),
      length-append gap (b'(' ∷ write_or gap e (gap ++ b')' ∷ r)),
    )

    or-longer : (e : OrExpr) (r : Text) → length r < length (write_or gap e r)
    or-longer (alternatives a t) r =
        ground (arith, and-longer a (write_or_tail gap t r), or_tail-longer t r)

    or_tail-longer : (t : OrTail) (r : Text) → length r ≤ length (write_or_tail gap t r)
    or_tail-longer or_end r = ground arith
    or_tail-longer (or_more a t) r = ground (
      arith,
      and-longer a (write_or_tail gap t r),
      or_tail-longer t r,
      length-append gap (b'|' ∷ write_and gap a (write_or_tail gap t r)),
    )
