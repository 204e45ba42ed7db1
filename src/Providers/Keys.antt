-- ===== src/Providers/Keys.antt =====
-- The dotted keys that DotReplacer makes.
use fastconf.Base.{
  ℕ, ◌≡◌, refl, sym, ap, ◌∙◌, inl, inr, true, false, List, [], ◌∷◌, ◌++◌, map, ◌==◌, Bool-cases,
  Bool, ◌+◌, ◌&&◌, ◌||◌, ltb, if◌then◌else◌, arith, Text,
}
use fastconf.Base.{join, split, split-eq-cons, first_cons}
use fastconf.Confmap.Labels.{non_empty}
use fastconf.Providers.Env.{dot_keys, trim_dot, dot_replacer, dot_or_lower}

-- An ASCII letter as a small one.
abbrev pub small : ℕ → ℕ
small c = if ltb 64 c && ltb c 91 then c + 32 else c

abbrev pub is_separator : ℕ → Bool
is_separator c = c == b'.' || c == b'_'

-- The parts between separators, the empty ones included.
unfoldable pub split_keys : Text → List Text
split_keys [] = [] ∷ []
split_keys (c ∷ s) =
    let rest = split_keys s in if is_separator c then [] ∷ rest else first_cons c rest

-- The parts between dots and underscores, with small letters, that are not empty.
abbrev pub key_parts : Text → List Text
key_parts s = non_empty (split_keys (map small s))

split_keys-dots : (s : Text) → split_keys (map small s) ≡ split b'.' (map dot_or_lower s)
unfolding split_keys split
split_keys-dots [] = refl
split_keys-dots (c ∷ s) = elim (Bool-cases (is_separator (small c))) [
  | inl e ↦
      let dot : (dot_or_lower c == b'.') ≡ true = ground arith in
      rw (e, dot, split_keys-dots s) refl
  | inr e ↦
      let other : (dot_or_lower c == b'.') ≡ false = ground arith in
      let same : small c ≡ dot_or_lower c = ground arith in
      rw (e, other, split_keys-dots s)
        (ap (λ x. first_cons x (split b'.' (map dot_or_lower s))) same)
]

-- The same parts, as the loop sees the key.
abbrev loop_parts : Text → List Text
loop_parts s = non_empty (split b'.' (map dot_or_lower s))

-- What follows a part: nothing, or a dot and more parts.
abbrev pub more_parts : List Text → Text
more_parts [] = []
more_parts (p ∷ ps) = b'.' ∷ join b'.' (p ∷ ps)

trim_dot-cons : (c : ℕ) (s : Text) → (c == b'.') ≡ false → trim_dot (c ∷ s) ≡ c ∷ trim_dot s
unfolding trim_dot
trim_dot-cons c [] h = rw h refl
trim_dot-cons c (d ∷ s) h = refl

join-more_parts : (p : Text) (ps : List Text) → join b'.' (p ∷ ps) ≡ p ++ more_parts ps
unfolding join
join-more_parts [] [] = refl
join-more_parts (c ∷ p) [] = ap (λ t. c ∷ t) (join-more_parts p [])
join-more_parts p (q ∷ ps) = refl

-- What the loop gives at the start of a part.
abbrev Starts : Text → List Text → Type 0
Starts [] [] = Unit
Starts [] (q ∷ qs) = ⊥
Starts (c ∷ s) [] = ⊥
Starts (c ∷ s) (q ∷ qs) = trim_dot (c ∷ s) ≡ join b'.' (q ∷ qs)

trim_dot-dot : (s : Text) (qs : List Text) → Starts s qs → trim_dot (b'.' ∷ s) ≡ more_parts qs
unfolding trim_dot
trim_dot-dot [] [] h = refl
trim_dot-dot [] (q ∷ qs) h = absurd h
trim_dot-dot (c ∷ s) [] h = absurd h
trim_dot-dot (c ∷ s) (q ∷ qs) h = ap (λ t. b'.' ∷ t) h

abbrev Goes : Text → List Text → Type 0
Goes t [] = Unit
Goes t (p ∷ ps) = t ≡ p ++ more_parts (non_empty ps)

Goes-cons :
    (c : ℕ) (t : Text) (ps : List Text) (p : Text) (qs : List Text)
    → (c == b'.') ≡ false
    → ps ≡ p ∷ qs
    → Goes (trim_dot t) ps
    → Goes (trim_dot (c ∷ t)) (first_cons c ps)
Goes-cons c t [] p qs h e g = cc
Goes-cons c t (q ∷ ps) p qs h e g = trim_dot-cons c t h ∙ ap (λ x. c ∷ x) g

Starts-cons :
    (c : ℕ) (t : Text) (ps : List Text) (p : Text) (qs : List Text)
    → (c == b'.') ≡ false
    → ps ≡ p ∷ qs
    → Goes (trim_dot t) ps
    → Starts (c ∷ t) (non_empty (first_cons c ps))
unfolding non_empty
Starts-cons c t [] p qs h e g = cc
Starts-cons c t (q ∷ ps) p qs h e g =
    trim_dot-cons c t h ∙ (ap (λ x. c ∷ x) g ∙ sym (join-more_parts (c ∷ q) (non_empty ps)))

dot_keys-parts :
    (s : Text)
    → Starts (dot_keys true s) (loop_parts s)
      × Goes (trim_dot (dot_keys false s)) (split b'.' (map dot_or_lower s))
unfolding split dot_keys non_empty
dot_keys-parts [] = (tt, unfold trim_dot in refl)
dot_keys-parts (c ∷ s) =
    let (start, go) = dot_keys-parts s in
    let (p, ps, e) = split-eq-cons b'.' (map dot_or_lower s) in
    elim (Bool-cases (dot_or_lower c == b'.')) [
      | inl h ↦ rw h (start, trim_dot-dot (dot_keys true s) (loop_parts s) start)
      | inr h ↦ rw h (
        Starts-cons (dot_or_lower c) (dot_keys false s) _ p ps h e go,
        Goes-cons (dot_or_lower c) (dot_keys false s) _ p ps h e go,
      )
    ]

Starts-whole : (s : Text) (qs : List Text) → Starts s qs → trim_dot s ≡ join b'.' qs
unfolding trim_dot join
Starts-whole [] [] h = refl
Starts-whole [] (q ∷ qs) h = absurd h
Starts-whole (c ∷ s) [] h = absurd h
Starts-whole (c ∷ s) (q ∷ qs) h = h

-- DotReplacer gives the parts of a key between its dots and underscores, with ASCII capitals as small
-- letters, without those parts that are empty, joined by dots.
pub dot_replacer-join : (s : Text) → dot_replacer s ≡ join b'.' (key_parts s)
unfolding dot_replacer
dot_replacer-join s =
    Starts-whole (dot_keys true s) (loop_parts s) (dot_keys-parts s).0
    ∙ ap (λ ps. join b'.' (non_empty ps)) (sym (split_keys-dots s))
