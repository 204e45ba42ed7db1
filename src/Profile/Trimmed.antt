-- ===== src/Profile/Trimmed.antt =====
-- The white space that Compile trims, on the texts that the grammar writes, which are ASCII.
use fastconf.Base.{
  ℕ, zero, suc, ◌≤◌, ◌≡◌, refl, ap, ◌∙◌, inl, inr, Bool, true, ◌&&◌, [], ◌∷◌, ◌++◌, arith, ltb,
  Bool-cases, length, Text, is_space, trim_left, trim_space, trim_text, trim_by, leading_width,
  trailing_width, length-reverse, if◌then◌else◌,
}
use mathlib.Core.List.{reverse, reverse-append}
use fastconf.Profile.Syntax.{
  OrExpr, OrTail, AndExpr, AndTail, NotExpr, Atom, alternatives, or_end, or_more, conjuncts,
  and_end, and_more, negation, plain, name, parens, write_or, write_or_tail, write_and,
  write_and_tail, write_not, write_atom, is_name, is_gap, all_ident,
}

abbrev pub is_ascii : Text → Bool
is_ascii [] = true
is_ascii (c ∷ s) = ltb c 128 && is_ascii s

trim_by-shorter :
    (width : Text → ℕ) (skip : ℕ) (s : Text) → length (trim_by width skip s) ≤ length s
unfolding trim_by
trim_by-shorter width skip [] = omega arith
trim_by-shorter width (suc skip) (c ∷ s) = omega (arith, trim_by-shorter width skip s)
trim_by-shorter width zero (c ∷ s) = go (width (c ∷ s)) (λ n. trim_by-shorter width n s)
  where
    go :
        (n : ℕ)
        → ((k : ℕ) → length (trim_by width k s) ≤ length s)
        → length (elim n [ zero ↦ c ∷ s | suc more ↦ trim_by width more s ]) ≤ length (c ∷ s)
    go zero h = omega arith
    go (suc k) h = omega (arith, h k)

pub trim_text-shorter : (s : Text) → length (trim_text s) ≤ length s
unfolding trim_text
trim_text-shorter s =
    let front = trim_by leading_width 0 s in
    let back = trim_by trailing_width 0 (reverse front) in
    omega (
      arith,
      trim_by-shorter leading_width 0 s,
      length-reverse front,
      trim_by-shorter trailing_width 0 (reverse front),
      length-reverse back,
    )

leading-ascii :
    (c : ℕ) (s : Text)
    → is_ascii (c ∷ s) ≡ true
    → leading_width (c ∷ s) ≡ (if is_space c then 1 else 0)
unfolding leading_width
leading-ascii c [] h = ground arith
leading-ascii c (d ∷ []) h = ground arith
leading-ascii c (d ∷ e ∷ s) h = ground arith

trailing-ascii :
    (c : ℕ) (s : Text)
    → is_ascii (c ∷ s) ≡ true
    → trailing_width (c ∷ s) ≡ (if is_space c then 1 else 0)
unfolding trailing_width
trailing-ascii c [] h = ground arith
trailing-ascii c (d ∷ []) h = ground arith
trailing-ascii c (d ∷ e ∷ s) h = ground arith

-- A width that finds ASCII white space only, on ASCII texts.
trim_by-ascii :
    (width : Text → ℕ) (s : Text)
    → ((c : ℕ) (t : Text) → is_ascii (c ∷ t) ≡ true → width (c ∷ t) ≡ (if is_space c then 1 else 0))
    → is_ascii s ≡ true
    → trim_by width 0 s ≡ trim_left s
unfolding trim_by trim_left
trim_by-ascii width [] w h = refl
trim_by-ascii width (c ∷ s) w h = elim (Bool-cases (is_space c)) [
  | inl e ↦
      let one : width (c ∷ s) ≡ 1 = rw e at (w c s h) in
      rw (e, one, trim_by) (trim_by-ascii width s w (ground arith))
  | inr e ↦ let none' : width (c ∷ s) ≡ 0 = rw e at (w c s h) in rw (e, none', trim_by) refl
]

pub ascii-append : (s t : Text) → is_ascii s ≡ true → is_ascii t ≡ true → is_ascii (s ++ t) ≡ true
ascii-append [] t h k = k
ascii-append (c ∷ s) t h k = ground (arith, ascii-append s t)

ascii-reverse : (s : Text) → is_ascii s ≡ true → is_ascii (reverse s) ≡ true
ascii-reverse [] h = refl
ascii-reverse (c ∷ s) h =
    rw (reverse-append (c ∷ []) s)
      (ascii-append (reverse s) (c ∷ []) (ascii-reverse s (ground arith)) (ground arith))

ascii-trim_left : (s : Text) → is_ascii s ≡ true → is_ascii (trim_left s) ≡ true
unfolding trim_left
ascii-trim_left [] h = refl
ascii-trim_left (c ∷ s) h = ground (arith, ascii-trim_left s)

pub trim_text-ascii : (s : Text) → is_ascii s ≡ true → trim_text s ≡ trim_space s
unfolding trim_text trim_space
trim_text-ascii s h =
    ap (λ x. reverse (trim_by trailing_width 0 (reverse x)))
      (trim_by-ascii leading_width s leading-ascii h)
    ∙ ap reverse (
        trim_by-ascii trailing_width (reverse (trim_left s)) trailing-ascii
          (ascii-reverse (trim_left s) (ascii-trim_left s h)))

pub gap-ascii : (gap : Text) → is_gap gap ≡ true → is_ascii gap ≡ true
gap-ascii [] h = refl
gap-ascii (c ∷ gap) h = ground (arith, gap-ascii gap)

ident-ascii : (n : Text) → all_ident n ≡ true → is_ascii n ≡ true
ident-ascii [] h = refl
ident-ascii (c ∷ n) h = ground (arith, ident-ascii n)

name-ascii : (n : Text) → is_name n ≡ true → is_ascii n ≡ true
name-ascii [] h = refl
name-ascii (c ∷ n) h = ground (arith, ident-ascii n)

module _ (gap : Text) (spaced : is_ascii gap ≡ true) where
  mutual
    unfolding write_or

    pub or-ascii : (e : OrExpr) (r : Text) → is_ascii r ≡ true → is_ascii (write_or gap e r) ≡ true
    or-ascii (alternatives a t) r h = and-ascii a (write_or_tail gap t r) (or_tail-ascii t r h)

    or_tail-ascii :
        (t : OrTail) (r : Text) → is_ascii r ≡ true → is_ascii (write_or_tail gap t r) ≡ true
    or_tail-ascii or_end r h = h
    or_tail-ascii (or_more a t) r h =
        ascii-append gap (b'|' ∷ write_and gap a (write_or_tail gap t r)) spaced
          (and-ascii a (write_or_tail gap t r) (or_tail-ascii t r h))

    and-ascii : (a : AndExpr) (r : Text) → is_ascii r ≡ true → is_ascii (write_and gap a r) ≡ true
    and-ascii (conjuncts n t) r h = not-ascii n (write_and_tail gap t r) (and_tail-ascii t r h)

    and_tail-ascii :
        (t : AndTail) (r : Text) → is_ascii r ≡ true → is_ascii (write_and_tail gap t r) ≡ true
    and_tail-ascii and_end r h = h
    and_tail-ascii (and_more n t) r h =
        ascii-append gap (b'&' ∷ write_not gap n (write_and_tail gap t r)) spaced
          (not-ascii n (write_and_tail gap t r) (and_tail-ascii t r h))

    not-ascii : (n : NotExpr) (r : Text) → is_ascii r ≡ true → is_ascii (write_not gap n r) ≡ true
    not-ascii (negation n) r h =
        ascii-append gap (b'!' ∷ write_not gap n r) spaced (not-ascii n r h)
    not-ascii (plain a) r h = atom-ascii a r h

    atom-ascii : (a : Atom) (r : Text) → is_ascii r ≡ true → is_ascii (write_atom gap a r) ≡ true
    atom-ascii (name n k) r h =
        ascii-append gap (n ++ r) spaced (ascii-append n r (name-ascii n k) h)
    atom-ascii (parens e) r h =
        ascii-append gap (b'(' ∷ write_or gap e (gap ++ b')' ∷ r)) spaced
          (or-ascii e (gap ++ b')' ∷ r) (ascii-append gap (b')' ∷ r) spaced h))
