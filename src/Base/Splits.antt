-- ===== src/Base/Splits.antt =====
-- strings.Split and strings.Join undo each other.
use mathlib.Core.Path.{◌∙◌, ◌≡◌, refl, sym, ap}
use mathlib.Core.Bool.{Bool, true, not, ◌&&◌}
use mathlib.Core.List.{List, [], ◌∷◌, ◌++◌}
use mathlib.Core.Logic.{inl, inr}
use native.Mathlib.Omega.{arith}
use Prim.Native.Nat.{ℕ}
use fastconf.Base.Tests.{◌==◌, Bool-cases, ==→eq}
use fastconf.Base.Lists.{All}
use fastconf.Base.Texts.{Text, split, join, first_cons}

-- No byte of the text is `c`.
abbrev pub lacks : ℕ → Text → Bool
lacks c [] = true
lacks c (x ∷ s) = not (x == c) && lacks c s

pub split-eq-cons : (sep : ℕ) (s : Text) → (p : Text) × (ps : List Text) × (split sep s ≡ p ∷ ps)
unfolding split
split-eq-cons sep [] = ([], [], refl)
split-eq-cons sep (c ∷ s) =
    let (p, ps, e) = split-eq-cons sep s in
    elim (Bool-cases (c == sep)) [
      | inl h ↦ ([], p ∷ ps, rw (h, e) refl)
      | inr h ↦ (c ∷ p, ps, rw (h, e) refl)
    ]

join-first_cons : (sep c : ℕ) (ps : List Text) → join sep (first_cons c ps) ≡ c ∷ join sep ps
unfolding join
join-first_cons sep c [] = refl
join-first_cons sep c (p ∷ []) = refl
join-first_cons sep c (p ∷ q ∷ ps) = refl

join-cons_nil :
    (sep : ℕ) (p : Text) (ps : List Text) → join sep ([] ∷ p ∷ ps) ≡ sep ∷ join sep (p ∷ ps)
unfolding join
join-cons_nil sep p ps = refl

-- Joining the parts of a split text gives the text.
pub join-split : (sep : ℕ) (s : Text) → join sep (split sep s) ≡ s
unfolding split
join-split sep [] = unfold join in refl
join-split sep (c ∷ s) =
    let (p, ps, e) = split-eq-cons sep s in
    elim (Bool-cases (c == sep)) [
      | inl h ↦
          rw (h, e, join-cons_nil sep p ps, ← e, join-split sep s)
            (ap (λ x. x ∷ s) (sym (==→eq c sep h)))
      | inr h ↦ rw (h, join-first_cons) (ap (λ t. c ∷ t) (join-split sep s))
    ]

-- A part without the separator is the first of what a split finds.
split-append :
    (sep : ℕ) (p s : Text) → lacks sep p ≡ true → split sep (p ++ (sep ∷ s)) ≡ p ∷ split sep s
unfolding split
split-append sep [] s h = ground arith
split-append sep (c ∷ p) s h = elim (Bool-cases (c == sep)) [
  | inl e ↦ cc
  | inr e ↦ rw (e, split-append sep p s (rw e at h)) refl
]

pub split-lacks : (sep : ℕ) (p : Text) → lacks sep p ≡ true → split sep p ≡ p ∷ []
unfolding split
split-lacks sep [] h = refl
split-lacks sep (c ∷ p) h = elim (Bool-cases (c == sep)) [
  | inl e ↦ cc
  | inr e ↦ rw (e, split-lacks sep p (rw e at h)) refl
]

-- Splitting what was joined from parts without the separator gives the parts.
pub split-join :
    (sep : ℕ) (p : Text) (ps : List Text)
    → lacks sep p ≡ true
    → All (λ q. lacks sep q ≡ true) ps
    → split sep (join sep (p ∷ ps)) ≡ p ∷ ps
unfolding join
split-join sep p [] h hs = split-lacks sep p h
split-join sep p (q ∷ ps) h hs =
    split-append sep p (join sep (q ∷ ps)) h ∙ ap (λ l. p ∷ l) (split-join sep q ps hs.0 hs.1)
