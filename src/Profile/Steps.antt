-- ===== src/Profile/Steps.antt =====
-- One step of each parser, by what `peek` sees.
use fastconf.Base.{ℕ, suc, ◌≡◌, refl, true, false, ◌&&◌, ◌||◌, arith, ◌==◌, ok, err, ◌>>=◌, Text}
use fastconf.Profile.{
  EvalFn, unexpected_end, peek, skip, next, parse_or, or_loop, parse_and, and_loop, parse_not,
  parse_atom, parse_ident, close_paren, has_name, negated,
}

pub or_loop_more :
    (f : ℕ) (v : EvalFn) (s : Text)
    → (peek s == b'|') ≡ true
    → or_loop (suc f) v s
      ≡ (parse_and f (next s) >>= λ (right, rest). or_loop f (λ set. v set || right set) rest)
unfolding or_loop
or_loop_more f v s e = rw (e, or_loop) refl

pub or_loop_done :
    (f : ℕ) (v : EvalFn) (s : Text)
    → (peek s == b'|') ≡ false
    → or_loop (suc f) v s ≡ ok (v, skip s)
unfolding or_loop
or_loop_done f v s e = rw (e, or_loop) refl

pub and_loop_more :
    (f : ℕ) (v : EvalFn) (s : Text)
    → (peek s == b'&') ≡ true
    → and_loop (suc f) v s
      ≡ (parse_not f (next s) >>= λ (right, rest). and_loop f (λ set. v set && right set) rest)
unfolding and_loop
and_loop_more f v s e = rw (e, and_loop) refl

pub and_loop_done :
    (f : ℕ) (v : EvalFn) (s : Text)
    → (peek s == b'&') ≡ false
    → and_loop (suc f) v s ≡ ok (v, skip s)
unfolding and_loop
and_loop_done f v s e = rw (e, and_loop) refl

pub not_bang :
    (f : ℕ) (s : Text)
    → (peek s == b'!') ≡ true
    → parse_not (suc f) s ≡ (parse_not f (next s) >>= negated)
unfolding parse_not
not_bang f s e = rw (e, parse_not) refl

pub not_plain : (f : ℕ) (s : Text) → (peek s == b'!') ≡ false → parse_not (suc f) s ≡ parse_atom f s
unfolding parse_not
not_plain f s e = rw (e, parse_not) refl

pub atom_end : (f : ℕ) (s : Text) → (peek s == 0) ≡ true → parse_atom (suc f) s ≡ err unexpected_end
unfolding parse_atom
atom_end f s e = rw (e, parse_atom) refl

pub atom_paren :
    (f : ℕ) (s : Text)
    → (peek s == b'(') ≡ true
    → parse_atom (suc f) s ≡ (parse_or f (next s) >>= close_paren)
unfolding parse_atom
atom_paren f s e = let z : (peek s == 0) ≡ false = ground (arith, e) in rw (z, e, parse_atom) refl

pub atom_name :
    (f : ℕ) (s : Text)
    → (peek s == 0) ≡ false
    → (peek s == b'(') ≡ false
    → parse_atom (suc f) s ≡ (parse_ident (skip s) >>= has_name)
unfolding parse_atom
atom_name f s z e = rw (z, e, parse_atom) refl
