-- ===== src/Profile/Syntax.antt =====
-- The grammar of profile expressions, how they are written, and what they mean.
use fastconf.Base.{
  ℕ, ◌≡◌, refl, ◌∙◌, inl, inr, Bool, true, false, not, ◌&&◌, ◌||◌, [], ◌∷◌, ◌++◌, arith, Bool-cases,
  Text, is_space,
}
use fastconf.Profile.{EvalFn, is_blank, is_ident_char, skip, peek, next}

abbrev pub all_ident : Text → Bool
all_ident [] = true
all_ident (c ∷ s) = is_ident_char c && all_ident s

abbrev pub is_name : Text → Bool
is_name [] = false
is_name (c ∷ s) = is_ident_char c && all_ident s

-- "|" joins conjunctions, "&" joins negations, and "!" stands before a negation.
mutual
  pub data OrExpr : Type 0 where
    alternatives : AndExpr → OrTail → OrExpr

  pub data OrTail : Type 0 where
    or_end : OrTail
    or_more : AndExpr → OrTail → OrTail

  pub data AndExpr : Type 0 where
    conjuncts : NotExpr → AndTail → AndExpr

  pub data AndTail : Type 0 where
    and_end : AndTail
    and_more : NotExpr → AndTail → AndTail

  pub data NotExpr : Type 0 where
    negation : NotExpr → NotExpr
    plain : Atom → NotExpr

  pub data Atom : Type 0 where
    name : (n : Text) → is_name n ≡ true → Atom
    parens : OrExpr → Atom

-- Whether a set satisfies an expression.
unfoldable mutual
  pub holds_or : OrExpr → EvalFn
  holds_or (alternatives a t) s = holds_and a s || holds_or_tail t s

  pub holds_or_tail : OrTail → EvalFn
  holds_or_tail or_end s = false
  holds_or_tail (or_more a t) s = holds_and a s || holds_or_tail t s

  pub holds_and : AndExpr → EvalFn
  holds_and (conjuncts n t) s = holds_not n s && holds_and_tail t s

  pub holds_and_tail : AndTail → EvalFn
  holds_and_tail and_end s = true
  holds_and_tail (and_more n t) s = holds_not n s && holds_and_tail t s

  pub holds_not : NotExpr → EvalFn
  holds_not (negation n) s = not (holds_not n s)
  holds_not (plain a) s = holds_atom a s

  pub holds_atom : Atom → EvalFn
  holds_atom (name n h) s = s n
  holds_atom (parens e) s = holds_or e s

module _ (gap : Text) where
  -- The text of an expression, with `gap` before each token, and then `r`.
  unfoldable mutual
    pub write_or : OrExpr → Text → Text
    write_or (alternatives a t) r = write_and a (write_or_tail t r)

    pub write_or_tail : OrTail → Text → Text
    write_or_tail or_end r = r
    write_or_tail (or_more a t) r = gap ++ b'|' ∷ write_and a (write_or_tail t r)

    pub write_and : AndExpr → Text → Text
    write_and (conjuncts n t) r = write_not n (write_and_tail t r)

    pub write_and_tail : AndTail → Text → Text
    write_and_tail and_end r = r
    write_and_tail (and_more n t) r = gap ++ b'&' ∷ write_not n (write_and_tail t r)

    pub write_not : NotExpr → Text → Text
    write_not (negation n) r = gap ++ b'!' ∷ write_not n r
    write_not (plain a) r = write_atom a r

    pub write_atom : Atom → Text → Text
    write_atom (name n h) r = gap ++ (n ++ r)
    write_atom (parens e) r = gap ++ b'(' ∷ write_or e (gap ++ b')' ∷ r)

abbrev pub is_gap : Text → Bool
is_gap [] = true
is_gap (c ∷ s) = is_space c && is_gap s

abbrev pub starts_ident : Text → Bool
starts_ident [] = false
starts_ident (c ∷ s) = is_ident_char c

-- What `peek` sees behind a gap.
pub skip-gap : (gap s : Text) → is_gap gap ≡ true → skip (gap ++ s) ≡ skip s
unfolding skip
skip-gap [] s h = refl
skip-gap (c ∷ gap) s h = ground (arith, skip-gap gap s)

pub skip-token : (c : ℕ) (s : Text) → is_blank c ≡ false → skip (c ∷ s) ≡ c ∷ s
unfolding skip
skip-token c s h = rw h refl

pub skip-skip : (s : Text) → skip (skip s) ≡ skip s
unfolding skip
skip-skip [] = refl
skip-skip (c ∷ s) = elim (Bool-cases (is_blank c)) [
  | inl e ↦ rw e (skip-skip s)
  | inr e ↦ rw (e, e) refl
]

pub gap-token :
    (gap : Text) (c : ℕ) (s : Text)
    → is_gap gap ≡ true
    → is_blank c ≡ false
    → (skip (gap ++ c ∷ s) ≡ c ∷ s) × (peek (gap ++ c ∷ s) ≡ c) × (next (gap ++ c ∷ s) ≡ s)
unfolding peek next
gap-token gap c s h b =
    let e : skip (gap ++ c ∷ s) ≡ c ∷ s = skip-gap gap (c ∷ s) h ∙ skip-token c s b in
    (e, rw e refl, rw e refl)

pub gap-stops :
    (gap : Text) (c : ℕ) (s : Text)
    → is_gap gap ≡ true
    → is_ident_char c ≡ false
    → starts_ident (gap ++ c ∷ s) ≡ false
gap-stops [] c s h n = n
gap-stops (x ∷ gap) c s h n = ground arith
