-- ===== src/Secret/Matching.antt =====
-- What a pattern matches.
use fastconf.Base.{
  ◌≡◌, refl, ap, ◌≢◌, ◌↔◌, ◌⊎◌, inl, inr, Bool, true, false, ◌&&◌, ◌||◌, List, [], ◌∷◌, ◌++◌, arith,
  Bool-cases, Text, text_eq, text_eq_iff,
}
use fastconf.Secret.{star, double_star, some_tail, match_segments}

pub some_tail-append :
    (f : List Text → Bool) (xs ys : List Text) → f ys ≡ true → some_tail f (xs ++ ys) ≡ true
unfolding some_tail
some_tail-append f [] [] h = h
some_tail-append f [] (y ∷ ys) h = ground (arith, h)
some_tail-append f (x ∷ xs) ys h = ground (arith, some_tail-append f xs ys h)

pub some_tail-eq :
    (f : List Text → Bool) (path : List Text)
    → some_tail f path ≡ true
    → (xs : List Text) × (ys : List Text) × (path ≡ xs ++ ys) × (f ys ≡ true)
unfolding some_tail
some_tail-eq f [] h = ([], [], refl, h)
some_tail-eq f (s ∷ path) h = elim (Bool-cases (f (s ∷ path))) [
  | inl e ↦ ([], s ∷ path, refl, e)
  | inr e ↦
      let (xs, ys, p, k) = some_tail-eq f path (rw e at h) in (s ∷ xs, ys, ap (λ l. s ∷ l) p, k)
]

-- A pattern fits a path: "**" stands for any number of segments, "*" for any one, and every other
-- segment for itself.
abbrev pub Fits : List Text → List Text → Type 0
Fits [] path = path ≡ []
Fits (p ∷ pat) path =
    ((xs : List Text) × (ys : List Text) × (p ≡ double_star) × (path ≡ xs ++ ys) × Fits pat ys)
    ⊎ ((s : Text) × (rest : List Text) × (p ≢ double_star)
        × (path ≡ s ∷ rest)
        × ((p ≡ star) ⊎ (p ≡ s))
        × Fits pat rest)

or-true : (a b : Bool) → (a || b) ≡ true → (a ≡ true) ⊎ (b ≡ true)
or-true true b h = inl refl
or-true false b h = inr h

and-true : (a b : Bool) → (a && b) ≡ true → (a ≡ true) × (b ≡ true)
and-true true b h = (refl, h)
and-true false b h = cc

pub many-match :
    (pat path : List Text)
    → some_tail (match_segments pat) path ≡ true
    → match_segments (double_star ∷ pat) path ≡ true
unfolding match_segments text_eq
many-match pat [] h = h
many-match pat (s ∷ path) h = h

pub one-match :
    (p : Text) (pat : List Text) (s : Text) (rest : List Text)
    → p ≢ double_star
    → (p ≡ star) ⊎ (p ≡ s)
    → match_segments pat rest ≡ true
    → match_segments (p ∷ pat) (s ∷ rest) ≡ true
unfolding match_segments
one-match p pat s rest n same h = elim (Bool-cases (text_eq p double_star)) [
  | inl e ↦ absurd (n ((text_eq_iff p double_star).0 e))
  | inr e ↦ elim same [
    | inl q ↦ rw (e, (text_eq_iff p star).1 q) h
    | inr q ↦ ground (arith, e, (text_eq_iff p s).1 q, h)
  ]
]

pub match-Fits : (pat path : List Text) → match_segments pat path ≡ true → Fits pat path
unfolding match_segments
match-Fits [] [] h = refl
match-Fits [] (s ∷ path) h = cc
match-Fits (p ∷ pat) [] h = elim (Bool-cases (text_eq p double_star)) [
  | inl e ↦
      let (xs, ys, q, k) = some_tail-eq (match_segments pat) [] (rw e at h) in
      inl (xs, ys, (text_eq_iff p double_star).0 e, q, match-Fits pat ys k)
  | inr e ↦ cc (rw e at h)
]
match-Fits (p ∷ pat) (s ∷ path) h = elim (Bool-cases (text_eq p double_star)) [
  | inl e ↦
      let (xs, ys, q, k) = some_tail-eq (match_segments pat) (s ∷ path) (rw e at h) in
      inl (xs, ys, (text_eq_iff p double_star).0 e, q, match-Fits pat ys k)
  | inr e ↦
      let (here, rest) =
        and-true (text_eq p star || text_eq p s) (match_segments pat path) (rw e at h) in
      inr (
        s,
        path,
        (λ q. cc (e, (text_eq_iff p double_star).1 q)),
        refl,
        (elim (or-true (text_eq p star) (text_eq p s) here) [
          | inl q ↦ inl ((text_eq_iff p star).0 q)
          | inr q ↦ inr ((text_eq_iff p s).0 q)
        ]),
        match-Fits pat path rest,
      )
]

pub Fits-match : (pat path : List Text) → Fits pat path → match_segments pat path ≡ true
unfolding match_segments
Fits-match [] [] h = refl
Fits-match [] (s ∷ path) h = cc
Fits-match (p ∷ pat) path (inl (xs, ys, d, q, k)) =
    rw (d, q)
      (many-match pat (xs ++ ys)
        (some_tail-append (match_segments pat) xs ys (Fits-match pat ys k)))
Fits-match (p ∷ pat) path (inr (s, rest, n, q, same, k)) =
    rw q (one-match p pat s rest n same (Fits-match pat rest k))

-- A pattern matches a path exactly when it fits it.
pub match_segments-Fits : (pat path : List Text) → (match_segments pat path ≡ true) ↔ Fits pat path
match_segments-Fits pat path = (match-Fits pat path, Fits-match pat path)
