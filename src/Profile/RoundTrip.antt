-- ===== src/Profile/RoundTrip.antt =====
-- Every written expression compiles to its meaning.
use fastconf.Base.{
  ℕ, zero, suc, ◌≡◌, refl, sym, ap, ◌∙◌, inl, inr, true, false, [], ◌∷◌, ◌++◌, arith, ◌==◌,
  Bool-cases, ok, ◌>>=◌, Text, is_space, trim_left, trim_space, trim_text,
}
use fastconf.Profile.{
  ProfileSet, EvalFn, skip, parse_or, parse_and, parse_not, compile, compile_trimmed, fuel_for,
  at_end, peek, next, close_paren, has_name, negated, parse_ident, parse_atom, and_loop, or_loop,
  head_or_zero, tail_of,
}
use fastconf.Profile.Steps.{not_bang, not_plain, atom_end, atom_paren, atom_name}
use fastconf.Profile.Syntax.{
  OrExpr, OrTail, AndExpr, AndTail, NotExpr, Atom, alternatives, or_end, or_more, conjuncts,
  and_end, and_more, negation, plain, name, parens, holds_or, write_or, write_or_tail, write_and,
  write_and_tail, write_not, write_atom, is_name, is_gap,
}
use fastconf.Profile.Trimmed.{trim_text-ascii, or-ascii, gap-ascii}
use fastconf.Profile.Reads.{or-Reads}
use fastconf.Profile.Tokens.{IsClosed}
use mathlib.Core.List.{reverse, reverse-append, reverse-reverse, append_assoc}

-- A writer that puts a text before its argument that ends in a byte that is no space.
abbrev Ends : (Text → Text) → Type 0
Ends g = (x : Text) × (c : ℕ) × (is_space c ≡ false) × ((r : Text) → g r ≡ x ++ c ∷ r)

Ends-then : (g h : Text → Text) → Ends g → Ends h → Ends (λ r. g (h r))
Ends-then g h (x, c, n, e) (y, d, m, k) = (
  x ++ c ∷ y,
  d,
  m,
  λ r. e (h r) ∙ ap (λ z. x ++ c ∷ z) (k r) ∙ sym (append_assoc x (c ∷ y) (d ∷ r)),
)

Ends-after : (p : Text) (g : Text → Text) → Ends g → Ends (λ r. p ++ g r)
Ends-after p g (x, c, n, e) =
    (p ++ x, c, n, λ r. ap (λ z. p ++ z) (e r) ∙ sym (append_assoc p x (c ∷ r)))

name-last : (n : Text) → is_name n ≡ true → Ends (λ r. n ++ r)
name-last [] h = cc
name-last (c ∷ []) h = ([], c, ground arith, λ r. refl)
name-last (c ∷ d ∷ n) h =
    let rest : is_name (d ∷ n) ≡ true = ground arith in
    Ends-after (c ∷ []) (λ r. d ∷ n ++ r) (name-last (d ∷ n) rest)

module _ (gap : Text) where
  mutual
    unfolding write_or

    or-last : (e : OrExpr) → Ends (write_or gap e)
    or-last (alternatives a t) = or_tail-last t (write_and gap a) (and-last a)

    or_tail-last : (t : OrTail) (g : Text → Text) → Ends g → Ends (λ r. g (write_or_tail gap t r))
    or_tail-last or_end g e = e
    or_tail-last (or_more a t) g e =
        Ends-then g (λ r. gap ++ b'|' ∷ write_and gap a (write_or_tail gap t r)) e
          (Ends-after gap (λ r. b'|' ∷ write_and gap a (write_or_tail gap t r))
            (Ends-after (b'|' ∷ []) (λ r. write_and gap a (write_or_tail gap t r))
              (or_tail-last t (write_and gap a) (and-last a))))

    and-last : (a : AndExpr) → Ends (write_and gap a)
    and-last (conjuncts n t) = and_tail-last t (write_not gap n) (not-last n)

    and_tail-last :
        (t : AndTail) (g : Text → Text) → Ends g → Ends (λ r. g (write_and_tail gap t r))
    and_tail-last and_end g e = e
    and_tail-last (and_more n t) g e =
        Ends-then g (λ r. gap ++ b'&' ∷ write_not gap n (write_and_tail gap t r)) e
          (Ends-after gap (λ r. b'&' ∷ write_not gap n (write_and_tail gap t r))
            (Ends-after (b'&' ∷ []) (λ r. write_not gap n (write_and_tail gap t r))
              (and_tail-last t (write_not gap n) (not-last n))))

    not-last : (n : NotExpr) → Ends (write_not gap n)
    not-last (negation n) =
        Ends-after gap (λ r. b'!' ∷ write_not gap n r)
          (Ends-after (b'!' ∷ []) (write_not gap n) (not-last n))
    not-last (plain a) = atom-last a

    atom-last : (a : Atom) → Ends (write_atom gap a)
    atom-last (name n h) = Ends-after gap (λ r. n ++ r) (name-last n h)
    atom-last (parens e) =
        Ends-after gap (λ r. b'(' ∷ write_or gap e (gap ++ b')' ∷ r))
          (Ends-after (b'(' ∷ []) (λ r. write_or gap e (gap ++ b')' ∷ r))
            (Ends-then (write_or gap e) (λ r. gap ++ b')' ∷ r) (or-last e)
              (gap, b')', ground arith, λ r. refl)))

trim_left-last :
    (x : Text) (c : ℕ) → is_space c ≡ false → trim_left (x ++ c ∷ []) ≡ trim_left x ++ c ∷ []
unfolding trim_left
trim_left-last [] c h = rw h refl
trim_left-last (d ∷ x) c h = elim (Bool-cases (is_space d)) [
  | inl e ↦ rw e (trim_left-last x c h)
  | inr e ↦ rw e refl
]

reverse-last : (y : Text) (c : ℕ) → reverse (c ∷ reverse y) ≡ y ++ c ∷ []
reverse-last y c = ap reverse (sym (reverse-append y (c ∷ []))) ∙ reverse-reverse (y ++ c ∷ [])

trim-last :
    (x : Text) (c : ℕ) → is_space c ≡ false → trim_space (x ++ c ∷ []) ≡ trim_left x ++ c ∷ []
unfolding trim_space trim_left
trim-last x c h =
    let solid : trim_left (c ∷ reverse (trim_left x)) ≡ c ∷ reverse (trim_left x) = rw h refl in
    ap (λ y. reverse (trim_left (reverse y))) (trim_left-last x c h)
    ∙ ap (λ y. reverse (trim_left y)) (reverse-append (trim_left x) (c ∷ []))
    ∙ ap reverse solid
    ∙ reverse-last (trim_left x) c

skip-trim_left : (s : Text) → skip (trim_left s) ≡ skip s
unfolding skip trim_left
skip-trim_left [] = refl
skip-trim_left (c ∷ s) = ground (arith, skip-trim_left s)

peek-same : (s t : Text) → skip s ≡ skip t → peek s ≡ peek t
unfolding peek
peek-same s t h = ap head_or_zero h

next-same : (s t : Text) → skip s ≡ skip t → next s ≡ next t
unfolding next
next-same s t h = ap tail_of h

-- The parsers read a text as they read another that differs in leading white space.
atom-same : (f : ℕ) (s t : Text) → skip s ≡ skip t → parse_atom f s ≡ parse_atom f t
unfolding parse_atom
atom-same zero s t h = refl
atom-same (suc f) s t h = elim (Bool-cases (peek t == 0)) [
  | inl z ↦ atom_end f s (rw (peek-same s t h) z) ∙ sym (atom_end f t z)
  | inr z ↦ elim (Bool-cases (peek t == b'(')) [
    | inl e ↦
        atom_paren f s (rw (peek-same s t h) e)
        ∙ ap (λ x. parse_or f x >>= close_paren) (next-same s t h)
        ∙ sym (atom_paren f t e)
    | inr e ↦
        atom_name f s (rw (peek-same s t h) z) (rw (peek-same s t h) e)
        ∙ ap (λ x. parse_ident x >>= has_name) h
        ∙ sym (atom_name f t z e)
  ]
]

not-same : (f : ℕ) (s t : Text) → skip s ≡ skip t → parse_not f s ≡ parse_not f t
unfolding parse_not
not-same zero s t h = refl
not-same (suc f) s t h = elim (Bool-cases (peek t == b'!')) [
  | inl e ↦
      not_bang f s (rw (peek-same s t h) e)
      ∙ ap (λ x. parse_not f x >>= negated) (next-same s t h)
      ∙ sym (not_bang f t e)
  | inr e ↦ not_plain f s (rw (peek-same s t h) e) ∙ atom-same f s t h ∙ sym (not_plain f t e)
]

and-same : (f : ℕ) (s t : Text) → skip s ≡ skip t → parse_and f s ≡ parse_and f t
unfolding parse_and
and-same zero s t h = refl
and-same (suc f) s t h = ap (λ r. r >>= λ (left, rest). and_loop f left rest) (not-same f s t h)

or-same : (f : ℕ) (s t : Text) → skip s ≡ skip t → parse_or f s ≡ parse_or f t
unfolding parse_or
or-same zero s t h = refl
or-same (suc f) s t h = ap (λ r. r >>= λ (left, rest). or_loop f left rest) (and-same f s t h)

trimmed-parses :
    (f : ℕ) (y : Text) (c : ℕ)
    → compile_trimmed f (y ++ c ∷ []) ≡ (parse_or f (y ++ c ∷ []) >>= at_end)
unfolding compile_trimmed
trimmed-parses f [] c = refl
trimmed-parses f (d ∷ y) c = refl

-- Any expression of the grammar, with the same white space before each token, compiles to a function
-- that holds of exactly the sets that satisfy it: "!" binds tighter than "&", and "&" than "|".
pub compile-write :
    (gap : Text) (e : OrExpr)
    → is_gap gap ≡ true
    → (v : EvalFn) × (compile (write_or gap e []) ≡ ok v)
      × ((set : ProfileSet) → v set ≡ holds_or e set)
unfolding compile peek
compile-write gap e spaced =
    let t = write_or gap e [] in
    let (x, c, n, last) = or-last gap e in
    let closed : IsClosed [] = record { no_ident = refl; no_bar = refl; no_amp = refl } in
    let (v, p, m) = or-Reads gap spaced e (fuel_for t) [] (ground arith) closed in
    let trimmed : trim_text t ≡ trim_left t =
      trim_text-ascii t (or-ascii gap (gap-ascii gap spaced) e [] refl)
      ∙ ap trim_space (last [])
      ∙ trim-last x c n
      ∙ sym (trim_left-last x c n)
      ∙ ap trim_left (sym (last [])) in
    let ended : trim_left t ≡ trim_left x ++ c ∷ [] =
      ap trim_left (last []) ∙ trim_left-last x c n in
    (
      v,
      ap (compile_trimmed (fuel_for t)) (trimmed ∙ ended)
          ∙ trimmed-parses (fuel_for t) (trim_left x) c
          ∙ ap (λ s. parse_or (fuel_for t) s >>= at_end) (sym ended)
          ∙ ap (λ r. r >>= at_end) (or-same (fuel_for t) (trim_left t) t (skip-trim_left t) ∙ p),
      m,
    )
