-- ===== src/Profile/Fuel.antt =====
-- The fuel of the profile parser is enough for every text.
use fastconf.Profile.Trimmed.{trim_text-shorter}
use fastconf.Base.{
  trim_text, zero, inr, inl, ◌≢◌, Bool-cases, ℕ, suc, ◌+◌, ◌*◌, ◌≤◌, ◌<◌, ◌≡◌, true, [], ◌∷◌, arith,
  ◌==◌, length, Result, ok, err, ◌>>=◌, Text, if_cases,
}
use fastconf.Profile.Steps.{
  or_loop_more, or_loop_done, and_loop_more, and_loop_done, not_bang, not_plain, atom_end,
  atom_paren, atom_name,
}
use fastconf.Profile.{
  compile, fuel_for, at_end, compile_trimmed, EvalFn, ExprError, unexpected_end, missing_paren,
  expected_ident, trailing_input, out_of_fuel, skip, peek, next, span_ident, ident_or_error,
  parse_ident, close_paren, parse_or, or_loop, parse_and, and_loop, parse_not, parse_atom,
  head_or_zero, tail_of,
}

-- Fuel was left, and the rest is shorter than `k`.
abbrev IsFine {ℓ} : {A : Type ℓ} → ℕ → Result ExprError (A × Text) → Type 0
IsFine k (ok (v, rest)) = length rest < k
IsFine k (err out_of_fuel) = ⊥
IsFine k (err _) = Unit

IsFine-then {ℓ κ} :
    {A : Type ℓ} {B : Type κ} (k j : ℕ) (r : Result ExprError (A × Text))
    (g : A × Text → Result ExprError (B × Text))
    → IsFine k r
    → ((v : A) (rest : Text) → length rest < k → IsFine j (g (v, rest)))
    → IsFine j (r >>= g)
IsFine-then k j (ok (v, rest)) g h n = n v rest h
IsFine-then k j (err unexpected_end) g h n = tt
IsFine-then k j (err (missing_paren _)) g h n = tt
IsFine-then k j (err (expected_ident _)) g h n = tt
IsFine-then k j (err (trailing_input _)) g h n = tt
IsFine-then k j (err out_of_fuel) g h n = h

pub skip-shorter : (s : Text) → length (skip s) ≤ length s
unfolding skip
skip-shorter [] = ground arith
skip-shorter (c ∷ s) = ground (arith, skip-shorter s)

-- Past a byte that `peek` saw.
pub next-shorter : (s : Text) (c : ℕ) → 0 < c → (peek s == c) ≡ true → length (next s) < length s
unfolding peek next
next-shorter s c p h = go (skip s) h (skip-shorter s)
  where
    go :
        (t : Text)
        → (head_or_zero t == c) ≡ true
        → length t ≤ length s
        → length (tail_of t) < length s
    go [] h l = ground arith
    go (x ∷ t) h l = ground arith

span-shorter : (s : Text) → length (span_ident s).0 + length (span_ident s).1 ≡ length s
unfolding span_ident
span-shorter [] = ground arith
span-shorter (c ∷ s) = ground (arith, span-shorter s)

ident-IsFine : (k : ℕ) (s : Text) → length s ≤ k → IsFine k (parse_ident s)
unfolding parse_ident
ident-IsFine k s h = go (span_ident s) (span-shorter s)
  where
    go : (p : Text × Text) → length p.0 + length p.1 ≡ length s → IsFine k (ident_or_error p)
    go ([], rest) e = tt
    go (c ∷ id, rest) e = ground arith

close-IsFine :
    (k : ℕ) (v : EvalFn) (rest : Text) → length rest < k → IsFine k (close_paren (v, rest))
close-IsFine k v rest h =
    if_cases (IsFine k) (peek rest == b')') _ _
      (λ e. ground (arith, next-shorter rest b')' (ground arith) e)) (λ e. tt)

-- Each parser reads something; each loop leaves no more than it got.
record IsEnough (f : ℕ) : Type 0 where
  or_fine : (s : Text) → 4 * length s + 4 ≤ f → IsFine (length s) (parse_or f s)
  or_loop_fine :
      (v : EvalFn) (s : Text) → 4 * length s + 1 ≤ f → IsFine (suc (length s)) (or_loop f v s)
  and_fine : (s : Text) → 4 * length s + 3 ≤ f → IsFine (length s) (parse_and f s)
  and_loop_fine :
      (v : EvalFn) (s : Text) → 4 * length s + 1 ≤ f → IsFine (suc (length s)) (and_loop f v s)
  not_fine : (s : Text) → 4 * length s + 2 ≤ f → IsFine (length s) (parse_not f s)
  atom_fine : (s : Text) → 4 * length s + 1 ≤ f → IsFine (length s) (parse_atom f s)

IsFine-weaken {ℓ} :
    {A : Type ℓ} (j k : ℕ) (r : Result ExprError (A × Text)) → j ≤ k → IsFine j r → IsFine k r
IsFine-weaken j k (ok (v, rest)) h n = ground arith
IsFine-weaken j k (err unexpected_end) h n = tt
IsFine-weaken j k (err (missing_paren _)) h n = tt
IsFine-weaken j k (err (expected_ident _)) h n = tt
IsFine-weaken j k (err (trailing_input _)) h n = tt
IsFine-weaken j k (err out_of_fuel) h n = n

-- The step from fuel `f` to one more unit.
module _ (f : ℕ) (enough : IsEnough f) where
  or-IsFine : (s : Text) → 4 * length s + 4 ≤ suc f → IsFine (length s) (parse_or (suc f) s)
  unfolding parse_or
  or-IsFine s h =
      IsFine-then (length s) (length s) (parse_and f s) _ (enough.and_fine s (ground arith))
        (λ v rest l.
          IsFine-weaken (suc (length rest)) (length s) (or_loop f v rest) (ground arith)
            (enough.or_loop_fine v rest (ground arith)))

  or_loop-IsFine :
      (v : EvalFn) (s : Text)
      → 4 * length s + 1 ≤ suc f
      → IsFine (suc (length s)) (or_loop (suc f) v s)
  or_loop-IsFine v s h = elim (Bool-cases (peek s == b'|')) [
    | inl e ↦
        let l : length (next s) < length s = next-shorter s b'|' (ground arith) e in
        rw (or_loop_more f v s e) (
          IsFine-then (length (next s)) (suc (length s)) (parse_and f (next s)) _
            (enough.and_fine (next s) (ground arith))
            (λ v rest k.
              IsFine-weaken (suc (length rest)) (suc (length s)) (or_loop f _ rest) (ground arith)
                (enough.or_loop_fine _ rest (ground arith))))
    | inr e ↦ rw (or_loop_done f v s e) (ground (arith, skip-shorter s))
  ]

  and-IsFine : (s : Text) → 4 * length s + 3 ≤ suc f → IsFine (length s) (parse_and (suc f) s)
  unfolding parse_and
  and-IsFine s h =
      IsFine-then (length s) (length s) (parse_not f s) _ (enough.not_fine s (ground arith))
        (λ v rest l.
          IsFine-weaken (suc (length rest)) (length s) (and_loop f v rest) (ground arith)
            (enough.and_loop_fine v rest (ground arith)))

  and_loop-IsFine :
      (v : EvalFn) (s : Text)
      → 4 * length s + 1 ≤ suc f
      → IsFine (suc (length s)) (and_loop (suc f) v s)
  and_loop-IsFine v s h = elim (Bool-cases (peek s == b'&')) [
    | inl e ↦
        let l : length (next s) < length s = next-shorter s b'&' (ground arith) e in
        rw (and_loop_more f v s e) (
          IsFine-then (length (next s)) (suc (length s)) (parse_not f (next s)) _
            (enough.not_fine (next s) (ground arith))
            (λ v rest k.
              IsFine-weaken (suc (length rest)) (suc (length s)) (and_loop f _ rest) (ground arith)
                (enough.and_loop_fine _ rest (ground arith))))
    | inr e ↦ rw (and_loop_done f v s e) (ground (arith, skip-shorter s))
  ]

  not-IsFine : (s : Text) → 4 * length s + 2 ≤ suc f → IsFine (length s) (parse_not (suc f) s)
  not-IsFine s h = elim (Bool-cases (peek s == b'!')) [
    | inl e ↦
        let l : length (next s) < length s = next-shorter s b'!' (ground arith) e in
        rw (not_bang f s e) (
          IsFine-then (length (next s)) (length s) (parse_not f (next s)) _
            (enough.not_fine (next s) (ground arith)) (λ v rest k. ground arith))
    | inr e ↦ rw (not_plain f s e) (enough.atom_fine s (ground arith))
  ]

  atom-IsFine : (s : Text) → 4 * length s + 1 ≤ suc f → IsFine (length s) (parse_atom (suc f) s)
  atom-IsFine s h = elim (Bool-cases (peek s == 0)) [
    | inl z ↦ rw (atom_end f s z) tt
    | inr z ↦ (elim (Bool-cases (peek s == b'(')) [
      | inl e ↦
          let l : length (next s) < length s = next-shorter s b'(' (ground arith) e in
          rw (atom_paren f s e) (
            IsFine-then (length (next s)) (length s) (parse_or f (next s)) _
              (enough.or_fine (next s) (ground arith))
              (λ v rest k. close-IsFine (length s) v rest (ground arith)))
      | inr e ↦ rw (atom_name f s z e) (
          IsFine-then (length s) (length s) (parse_ident (skip s)) _
            (ident-IsFine (length s) (skip s) (skip-shorter s)) (λ v rest k. k))
    ])
  ]

all-IsEnough : (f : ℕ) → IsEnough f
all-IsEnough zero = record {
  or_fine = λ s h. ground arith;
  or_loop_fine = λ v s h. ground arith;
  and_fine = λ s h. ground arith;
  and_loop_fine = λ v s h. ground arith;
  not_fine = λ s h. ground arith;
  atom_fine = λ s h. ground arith;
}
all-IsEnough (suc f) = record {
  or_fine = or-IsFine f (all-IsEnough f);
  or_loop_fine = or_loop-IsFine f (all-IsEnough f);
  and_fine = and-IsFine f (all-IsEnough f);
  and_loop_fine = and_loop-IsFine f (all-IsEnough f);
  not_fine = not-IsFine f (all-IsEnough f);
  atom_fine = atom-IsFine f (all-IsEnough f);
}

ended-IsFine :
    (k : ℕ) (r : Result ExprError (EvalFn × Text)) → IsFine k r → r >>= at_end ≢ err out_of_fuel
ended-IsFine k (ok (v, [])) h = cc
ended-IsFine k (ok (v, c ∷ rest)) h = cc
ended-IsFine k (err unexpected_end) h = cc
ended-IsFine k (err (missing_paren _)) h = cc
ended-IsFine k (err (expected_ident _)) h = cc
ended-IsFine k (err (trailing_input _)) h = cc
ended-IsFine k (err out_of_fuel) h = absurd h

trimmed-fuel : (f : ℕ) (s : Text) → 4 * length s + 4 ≤ f → compile_trimmed f s ≢ err out_of_fuel
unfolding compile_trimmed
trimmed-fuel f [] h = cc
trimmed-fuel f (c ∷ s) h =
    ended-IsFine (length (c ∷ s)) (parse_or f (c ∷ s)) ((all-IsEnough f).or_fine (c ∷ s) h)

-- `Compile` has fuel for every text.
pub compile_total : (expr : Text) → compile expr ≢ err out_of_fuel
unfolding compile
compile_total expr =
    trimmed-fuel (fuel_for expr) (trim_text expr) (ground (arith, trim_text-shorter expr))
