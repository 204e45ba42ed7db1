-- ===== src/Profile/Tokens.antt =====
-- Tokens behind a gap, and what may follow an expression.
use fastconf.Base.{
  ℕ, zero, suc, ◌≡◌, refl, sym, ap, ◌∙◌, inl, inr, Bool, true, false, ◌&&◌, ◌||◌, [], ◌∷◌, ◌++◌,
  arith, ◌==◌, Bool-cases, Result, ok, ◌>>=◌, Text,
}
use fastconf.Profile.{
  EvalFn, ExprError, is_ident_char, skip, peek, next, span_ident, or_loop, parse_and, and_loop,
  parse_not, head_or_zero, tail_of, close_paren, has_name, parse_ident, ident_or_error, parse_atom,
  is_blank,
}
use fastconf.Profile.Syntax.{
  is_name, is_gap, gap-token, gap-stops, OrTail, AndTail, Atom, or_end, or_more, and_end, and_more,
  name, parens, write_or_tail, write_and_tail, write_atom, all_ident, starts_ident, skip-skip,
}
use fastconf.Profile.Steps.{atom_name, or_loop_more, or_loop_done, and_loop_more, and_loop_done}

pub span-name :
    (n r : Text) → all_ident n ≡ true → starts_ident r ≡ false → span_ident (n ++ r) ≡ (n, r)
unfolding span_ident
span-name [] [] h e = refl
span-name [] (c ∷ r) h e = rw e refl
span-name (c ∷ n) r h e =
    let rest : span_ident (n ++ r) ≡ (n, r) = span-name n r (ground arith) e in
    let here : is_ident_char c ≡ true = ground arith in rw (rest, here) refl

pub peek-skip : (s : Text) → peek (skip s) ≡ peek s
unfolding peek
peek-skip s = ap head_or_zero (skip-skip s)

pub next-skip : (s : Text) → next (skip s) ≡ next s
unfolding next
next-skip s = ap tail_of (skip-skip s)

pub or_loop-skip : (f : ℕ) (v : EvalFn) (s : Text) → or_loop f v (skip s) ≡ or_loop f v s
unfolding or_loop
or_loop-skip zero v s = refl
or_loop-skip (suc f) v s = elim (Bool-cases (peek s == b'|')) [
  | inl e ↦
      or_loop_more f v (skip s) (rw (peek-skip s) e)
      ∙ ap (λ x. parse_and f x >>= λ (right, rest). or_loop f (λ set. v set || right set) rest)
          (next-skip s)
      ∙ sym (or_loop_more f v s e)
  | inr e ↦
      or_loop_done f v (skip s) (rw (peek-skip s) e)
      ∙ ap (λ x. ok (v, x)) (skip-skip s)
      ∙ sym (or_loop_done f v s e)
]

pub and_loop-skip : (f : ℕ) (v : EvalFn) (s : Text) → and_loop f v (skip s) ≡ and_loop f v s
unfolding and_loop
and_loop-skip zero v s = refl
and_loop-skip (suc f) v s = elim (Bool-cases (peek s == b'&')) [
  | inl e ↦
      and_loop_more f v (skip s) (rw (peek-skip s) e)
      ∙ ap (λ x. parse_not f x >>= λ (right, rest). and_loop f (λ set. v set && right set) rest)
          (next-skip s)
      ∙ sym (and_loop_more f v s e)
  | inr e ↦
      and_loop_done f v (skip s) (rw (peek-skip s) e)
      ∙ ap (λ x. ok (v, x)) (skip-skip s)
      ∙ sym (and_loop_done f v s e)
]

-- The parser gives the meaning, with nothing but `rest` left.
abbrev pub Reads : Result ExprError (EvalFn × Text) → EvalFn → Text → Type 0
Reads r meaning rest =
    (v : EvalFn) × (r ≡ ok (v, rest)) × ((set : Text → Bool) → v set ≡ meaning set)

-- What may stand behind an expression.
pub record IsClosed (r : Text) : Type 0 where
  pub no_ident : starts_ident r ≡ false
  pub no_bar : (peek r == b'|') ≡ false
  pub no_amp : (peek r == b'&') ≡ false

module _ (gap : Text) (spaced : is_gap gap ≡ true) where
  -- A token behind the gap.
  pub token-seen : (c : ℕ) (s : Text) → is_blank c ≡ false → peek (gap ++ c ∷ s) ≡ c
  token-seen c s b = let (_, seen, _) = gap-token gap c s spaced b in seen

  pub token-peek :
      (c d : ℕ) (s : Text)
      → is_blank c ≡ false
      → (c == d) ≡ false
      → (peek (gap ++ c ∷ s) == d) ≡ false
  token-peek c d s b n = rw (token-seen c s b) n

  pub or_tail-stops :
      (t : OrTail) (r : Text) → IsClosed r → starts_ident (write_or_tail gap t r) ≡ false
  unfolding write_or_tail
  or_tail-stops or_end r k = k.no_ident
  or_tail-stops (or_more a t) r k = gap-stops gap b'|' _ spaced (ground arith)

  pub or_tail-amp :
      (t : OrTail) (r : Text) → IsClosed r → (peek (write_or_tail gap t r) == b'&') ≡ false
  unfolding write_or_tail
  or_tail-amp or_end r k = k.no_amp
  or_tail-amp (or_more a t) r k = token-peek b'|' b'&' _ (ground arith) (ground arith)

  pub and_tail-stops :
      (t : AndTail) (r : Text)
      → starts_ident r ≡ false
      → starts_ident (write_and_tail gap t r) ≡ false
  unfolding write_and_tail
  and_tail-stops and_end r k = k
  and_tail-stops (and_more n t) r k = gap-stops gap b'&' _ spaced (ground arith)

  pub atom-front : (a : Atom) (r : Text) → (peek (write_atom gap a r) == b'!') ≡ false
  unfolding write_atom
  atom-front (name [] h) r = cc
  atom-front (name (c ∷ n) h) r = token-peek c b'!' (n ++ r) (ground arith) (ground arith)
  atom-front (parens e) r = token-peek b'(' b'!' _ (ground arith) (ground arith)

  pub name-Reads :
      (n : Text) (f : ℕ) (r : Text)
      → is_name n ≡ true
      → starts_ident r ≡ false
      → parse_atom (suc f) (gap ++ (n ++ r)) ≡ ok (λ set. set n, r)
  unfolding parse_ident
  name-Reads [] f r h k = cc
  name-Reads (c ∷ n) f r h k =
      let here : is_ident_char c ≡ true = ground arith in
      let solid : is_blank c ≡ false = ground (arith, here) in
      let (e, _, _) = gap-token gap c (n ++ r) spaced solid in
      atom_name f (gap ++ (c ∷ n ++ r)) (token-peek c 0 (n ++ r) solid (ground arith))
        (token-peek c b'(' (n ++ r) solid (ground arith))
      ∙ ap (λ x. parse_ident x >>= has_name) e
      ∙ ap (λ p. ident_or_error p >>= has_name) (span-name (c ∷ n) r h k)

  pub paren-IsClosed : (r : Text) → IsClosed (gap ++ b')' ∷ r)
  paren-IsClosed r = record {
    no_ident = gap-stops gap b')' r spaced (ground arith);
    no_bar = token-peek b')' b'|' r (ground arith) (ground arith);
    no_amp = token-peek b')' b'&' r (ground arith) (ground arith);
  }

  pub paren-closes : (v : EvalFn) (r : Text) → close_paren (v, skip (gap ++ b')' ∷ r)) ≡ ok (v, r)
  paren-closes v r =
      let (_, seen, after) = gap-token gap b')' r spaced (ground arith) in
      let here : (peek (skip (gap ++ b')' ∷ r)) == b')') ≡ true =
        rw (peek-skip (gap ++ b')' ∷ r), seen) (ground arith) in
      rw here (ap (λ y. ok (v, y)) (next-skip (gap ++ b')' ∷ r) ∙ after))
