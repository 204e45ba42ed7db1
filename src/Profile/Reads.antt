-- ===== src/Profile/Reads.antt =====
-- The parser reads every written expression, up to its end, as its meaning.
use fastconf.Base.{
  ℕ, zero, suc, ◌+◌, ◌*◌, ◌≤◌, ◌<◌, ◌≡◌, refl, ap, ◌∙◌, true, false, not, ◌&&◌, ◌||◌, ◌∷◌, ◌++◌,
  arith, ◌==◌, length, length-append, ◌>>=◌, Text,
}
use fastconf.Profile.{
  EvalFn, skip, peek, or_loop, parse_and, and_loop, parse_not, close_paren, negated, parse_atom,
  parse_or,
}
use fastconf.Profile.Syntax.{
  holds_or, holds_or_tail, holds_and, holds_and_tail, holds_not, holds_atom, is_gap, gap-token,
  OrExpr, OrTail, AndExpr, AndTail, NotExpr, Atom, alternatives, or_end, or_more, conjuncts,
  and_end, and_more, negation, plain, name, parens, write_or, write_or_tail, write_and,
  write_and_tail, write_not, write_atom, starts_ident,
}
use fastconf.Profile.Tokens.{
  paren-closes, paren-IsClosed, name-Reads, atom-front, and_tail-stops, or_loop-skip, or_tail-amp,
  or_tail-stops, Reads, IsClosed,
}
use fastconf.Profile.Lengths.{and-longer, not-longer}
use fastconf.Profile.Steps.{
  not_bang, not_plain, atom_paren, or_loop_more, or_loop_done, and_loop_more, and_loop_done,
}

module _ (gap : Text) (spaced : is_gap gap ≡ true) where
  mutual
    unfolding write_or holds_or parse_or

    pub or-Reads :
        (e : OrExpr) (f : ℕ) (r : Text)
        → 4 * length (write_or gap e r) + 4 ≤ f
        → IsClosed r
        → Reads (parse_or f (write_or gap e r)) (holds_or e) (skip r)
    or-Reads e zero r h k = ground arith
    or-Reads (alternatives a t) (suc f) r h k =
        let x = write_or_tail gap t r in
        let longer : length x < length (write_and gap a x) = and-longer gap a x in
        let (v, p, m) =
          and-Reads a f x (ground arith) (or_tail-stops gap spaced t r k)
            (or_tail-amp gap spaced t r k) in
        let (w, q, l) = or_tail-Reads t f v r (ground (arith, longer)) k in
        (
          w,
          ap (λ y. y >>= λ (left, rest). or_loop f left rest) p ∙ or_loop-skip f v x ∙ q,
          λ set. l set ∙ ap (λ b. b || holds_or_tail t set) (m set),
        )

    or_tail-Reads :
        (t : OrTail) (f : ℕ) (left : EvalFn) (r : Text)
        → 4 * length (write_or_tail gap t r) + 1 ≤ f
        → IsClosed r
        → Reads
            (or_loop f left (write_or_tail gap t r))
            (λ set. left set || holds_or_tail t set)
            (skip r)
    or_tail-Reads t zero left r h k = ground arith
    or_tail-Reads or_end (suc f) left r h k =
        (left, or_loop_done f left r k.no_bar, λ set. ground arith)
    or_tail-Reads (or_more a t) (suc f) left r h k =
        let x = write_or_tail gap t r in
        let s = write_and gap a x in
        let longer : length x < length s = and-longer gap a x in
        let total : length (gap ++ b'|' ∷ s) ≡ length gap + suc (length s) =
          length-append gap (b'|' ∷ s) in
        let (_, seen, after) = gap-token gap b'|' s spaced (ground arith) in
        let (v, p, m) =
          and-Reads a f x (ground (arith, total)) (or_tail-stops gap spaced t r k)
            (or_tail-amp gap spaced t r k) in
        let (w, q, l) =
          or_tail-Reads t f (λ set. left set || v set) r (ground (arith, total, longer)) k in
        (
          w,
          or_loop_more f left (gap ++ b'|' ∷ s) (rw seen (ground arith))
              ∙ ap
                  (λ y. parse_and f y >>= λ (right, rest).
                    or_loop f (λ set. left set || right set) rest)
                  after
              ∙ ap (λ y. y >>= λ (right, rest). or_loop f (λ set. left set || right set) rest) p
              ∙ or_loop-skip f (λ set. left set || v set) x
              ∙ q,
          λ set. l set ∙ ground (arith, m set),
        )

    and-Reads :
        (a : AndExpr) (f : ℕ) (r : Text)
        → 4 * length (write_and gap a r) + 3 ≤ f
        → starts_ident r ≡ false
        → (peek r == b'&') ≡ false
        → Reads (parse_and f (write_and gap a r)) (holds_and a) (skip r)
    and-Reads a zero r h k j = ground arith
    and-Reads (conjuncts n t) (suc f) r h k j =
        let x = write_and_tail gap t r in
        let longer : length x < length (write_not gap n x) = not-longer gap n x in
        let (v, p, m) = not-Reads n f x (ground arith) (and_tail-stops gap spaced t r k) in
        let (w, q, l) = and_tail-Reads t f v r (ground (arith, longer)) k j in
        (
          w,
          ap (λ y. y >>= λ (left, rest). and_loop f left rest) p ∙ q,
          λ set. l set ∙ ap (λ b. b && holds_and_tail t set) (m set),
        )

    and_tail-Reads :
        (t : AndTail) (f : ℕ) (left : EvalFn) (r : Text)
        → 4 * length (write_and_tail gap t r) + 1 ≤ f
        → starts_ident r ≡ false
        → (peek r == b'&') ≡ false
        → Reads
            (and_loop f left (write_and_tail gap t r))
            (λ set. left set && holds_and_tail t set)
            (skip r)
    and_tail-Reads t zero left r h k j = ground arith
    and_tail-Reads and_end (suc f) left r h k j =
        (left, and_loop_done f left r j, λ set. ground arith)
    and_tail-Reads (and_more n t) (suc f) left r h k j =
        let x = write_and_tail gap t r in
        let s = write_not gap n x in
        let longer : length x < length s = not-longer gap n x in
        let total : length (gap ++ b'&' ∷ s) ≡ length gap + suc (length s) =
          length-append gap (b'&' ∷ s) in
        let (_, seen, after) = gap-token gap b'&' s spaced (ground arith) in
        let (v, p, m) = not-Reads n f x (ground (arith, total)) (and_tail-stops gap spaced t r k) in
        let (w, q, l) =
          and_tail-Reads t f (λ set. left set && v set) r (ground (arith, total, longer)) k j in
        (
          w,
          and_loop_more f left (gap ++ b'&' ∷ s) (rw seen (ground arith))
              ∙ ap
                  (λ y. parse_not f y >>= λ (right, rest).
                    and_loop f (λ set. left set && right set) rest)
                  after
              ∙ ap (λ y. y >>= λ (right, rest). and_loop f (λ set. left set && right set) rest) p
              ∙ q,
          λ set. l set ∙ ground (arith, m set),
        )

    not-Reads :
        (n : NotExpr) (f : ℕ) (r : Text)
        → 4 * length (write_not gap n r) + 2 ≤ f
        → starts_ident r ≡ false
        → Reads (parse_not f (write_not gap n r)) (holds_not n) r
    not-Reads n zero r h k = ground arith
    not-Reads (negation n) (suc f) r h k =
        let s = write_not gap n r in
        let total : length (gap ++ b'!' ∷ s) ≡ length gap + suc (length s) =
          length-append gap (b'!' ∷ s) in
        let (_, seen, after) = gap-token gap b'!' s spaced (ground arith) in
        let (v, p, m) = not-Reads n f r (ground (arith, total)) k in
        (
          λ set. not (v set),
          not_bang f (gap ++ b'!' ∷ s) (rw seen (ground arith))
              ∙ ap (λ y. parse_not f y >>= negated) after
              ∙ ap (λ y. y >>= negated) p,
          λ set. ap not (m set),
        )
    not-Reads (plain a) (suc f) r h k =
        let (v, p, m) = atom-Reads a f r (ground arith) k in
        (v, not_plain f (write_atom gap a r) (atom-front gap spaced a r) ∙ p, m)

    atom-Reads :
        (a : Atom) (f : ℕ) (r : Text)
        → 4 * length (write_atom gap a r) + 1 ≤ f
        → starts_ident r ≡ false
        → Reads (parse_atom f (write_atom gap a r)) (holds_atom a) r
    atom-Reads a zero r h k = ground arith
    atom-Reads (name n i) (suc f) r h k =
        (λ set. set n, name-Reads gap spaced n f r i k, λ set. refl)
    atom-Reads (parens e) (suc f) r h k =
        let x = gap ++ b')' ∷ r in
        let s = write_or gap e x in
        let total : length (gap ++ b'(' ∷ s) ≡ length gap + suc (length s) =
          length-append gap (b'(' ∷ s) in
        let (_, seen, after) = gap-token gap b'(' s spaced (ground arith) in
        let (_, closed, behind) = gap-token gap b')' r spaced (ground arith) in
        let (v, p, m) = or-Reads e f x (ground (arith, total)) (paren-IsClosed gap spaced r) in
        (
          v,
          atom_paren f (gap ++ b'(' ∷ s) (rw seen (ground arith))
              ∙ ap (λ y. parse_or f y >>= close_paren) after
              ∙ ap (λ y. y >>= close_paren) p
              ∙ paren-closes gap spaced v r,
          m,
        )
