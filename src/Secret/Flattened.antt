-- ===== src/Secret/Flattened.antt =====
-- A secret of the tree is a secret of its dotted path.
use fastconf.Base.{
  ℕ, ◌≡◌, refl, sym, ap, ◌∙◌, ◌≢◌, inl, inr, Bool, true, false, List, [], ◌∷◌, ◌++◌, arith, ◌==◌,
  Bool-cases, All, Text, text_eq, text_eq_iff, split, join, lacks, split-eq-cons, if_cases,
  first_cons, split-lacks,
}
use fastconf.Secret.{
  Value, any_prefix, compile_patterns, any_match, matches_value, some_prefix, star, double_star,
  match_segments, conservative,
}
use fastconf.Secret.Matching.{match-Fits, many-match, one-match, Fits, some_tail-append}
use mathlib.Core.List.{append-nil, append_assoc}

-- The segments that the dotted path of some keys is split into.
abbrev pub flat : List Text → List Text
flat [] = []
flat (s ∷ path) = split b'.' s ++ flat path

flat-append : (xs ys : List Text) → flat (xs ++ ys) ≡ flat xs ++ flat ys
flat-append [] ys = refl
flat-append (s ∷ xs) ys =
    ap (λ l. split b'.' s ++ l) (flat-append xs ys)
    ∙ sym (append_assoc (split b'.' s) (flat xs) (flat ys))

split-dot : (s rest : Text) → split b'.' (s ++ (b'.' ∷ rest)) ≡ split b'.' s ++ split b'.' rest
unfolding split
split-dot [] rest = refl
split-dot (c ∷ s) rest =
    let (p, ps, e) = split-eq-cons b'.' s in
    elim (Bool-cases (c == b'.')) [
      | inl q ↦ rw (q, split-dot s rest) refl
      | inr q ↦ rw (q, split-dot s rest, e) refl
    ]

split-join-flat :
    (s : Text) (path : List Text) → split b'.' (join b'.' (s ∷ path)) ≡ flat (s ∷ path)
unfolding join
split-join-flat s [] = sym (append-nil (split b'.' s))
split-join-flat s (t ∷ path) =
    split-dot s (join b'.' (t ∷ path)) ∙ ap (λ l. split b'.' s ++ l) (split-join-flat t path)

-- No dot in any segment.
abbrev AreParts : List Text → Type 0
AreParts l = All (λ (s : Text). lacks b'.' s ≡ true) l

first-AreParts :
    (c : ℕ) (l : List Text) → (c == b'.') ≡ false → AreParts l → AreParts (first_cons c l)
first-AreParts c [] e h = (ground (arith, e), tt)
first-AreParts c (p ∷ ps) e h = (ground (arith, e, h.0), h.1)

split-AreParts : (s : Text) → AreParts (split b'.' s)
unfolding split
split-AreParts [] = (refl, tt)
split-AreParts (c ∷ s) =
    if_cases AreParts (c == b'.') _ _ (λ e. (refl, split-AreParts s))
      (λ e. first-AreParts c (split b'.' s) e (split-AreParts s))

star_single : star ≢ double_star
star_single h = cc

double-conservative :
    (pat : List Text) → conservative (double_star ∷ pat) ≡ double_star ∷ conservative pat
unfolding conservative text_eq
double-conservative pat = refl

-- "*" in a tree is one key, and so one segment or more.
star-flat :
    (s : Text) (rest pat : List Text)
    → match_segments pat (flat rest) ≡ true
    → match_segments (star ∷ double_star ∷ pat) (flat (s ∷ rest)) ≡ true
star-flat s rest pat h =
    let (p, ps, e) = split-eq-cons b'.' s in
    let tail : match_segments (double_star ∷ pat) (ps ++ flat rest) ≡ true =
      many-match pat (ps ++ flat rest) (some_tail-append (match_segments pat) ps (flat rest) h) in
    ap (λ l. match_segments (star ∷ double_star ∷ pat) (l ++ flat rest)) e
    ∙ one-match star (double_star ∷ pat) p (ps ++ flat rest) star_single (inl refl) tail

conservative-Fits :
    (pat path : List Text)
    → AreParts pat
    → Fits pat path
    → match_segments (conservative pat) (flat path) ≡ true
unfolding conservative
conservative-Fits [] path parts h = rw h (unfold match_segments in refl)
conservative-Fits (p ∷ pat) path parts (inl (xs, ys, d, q, k)) =
    rw (d, q, double-conservative pat, flat-append xs ys)
      (many-match (conservative pat) (flat xs ++ flat ys) (
        some_tail-append (match_segments (conservative pat)) (flat xs) (flat ys)
          (conservative-Fits pat ys parts.1 k)))
conservative-Fits (p ∷ pat) path parts (inr (s, rest, n, q, same, k)) =
    let ih : match_segments (conservative pat) (flat rest) ≡ true =
      conservative-Fits pat rest parts.1 k in
    elim (Bool-cases (text_eq p star)) [
      | inl e ↦ rw (e, q, (text_eq_iff p star).0 e) (star-flat s rest (conservative pat) ih)
      | inr e ↦ elim same [
        | inl r ↦ absurd (cc (e, (text_eq_iff p star).1 r))
        | inr r ↦
            rw (e, q, ← r, split-lacks b'.' p parts.0)
              (one-match p (conservative pat) p (flat rest) n (inr refl) ih)
      ]
    ]

some_prefix-append :
    (f : List Text → Bool) (before : List Text) (x : Text) (xs ys : List Text)
    → f (before ++ x ∷ xs) ≡ true
    → some_prefix f before (x ∷ xs ++ ys) ≡ true
unfolding some_prefix
some_prefix-append f before x [] ys h = rw h refl
some_prefix-append f before x (y ∷ xs) ys h =
    let later : some_prefix f (before ++ x ∷ []) (y ∷ xs ++ ys) ≡ true =
      some_prefix-append f (before ++ x ∷ []) y xs ys
        (rw (append_assoc before (x ∷ []) (y ∷ xs)) h) in
    ground (arith, later)

-- The pattern's conservative form matches a beginning of the dotted path.
prefix-found :
    (p k : Text) (path : List Text) (ys : List Text)
    → match_segments (split b'.' p) (k ∷ path) ≡ true
    → some_prefix (match_segments (conservative (split b'.' p))) [] (flat (k ∷ path) ++ ys) ≡ true
prefix-found p k path ys h =
    let found : match_segments (conservative (split b'.' p)) (flat (k ∷ path)) ≡ true =
      conservative-Fits (split b'.' p) (k ∷ path) (split-AreParts p)
        (match-Fits (split b'.' p) (k ∷ path) h) in
    let (s, ss, e) = split-eq-cons b'.' k in
    rw e (
      some_prefix-append (match_segments (conservative (split b'.' p))) [] s (ss ++ flat path) ys
        (rw e at found))

any-found :
    (patterns : List Text) (k : Text) (path ys : List Text)
    → any_match (compile_patterns patterns).tree (k ∷ path) ≡ true
    → any_prefix (compile_patterns patterns).provenance (flat (k ∷ path) ++ ys) ≡ true
unfolding any_match any_prefix compile_patterns
any-found [] k path ys h = cc
any-found (p ∷ ps) k path ys h = elim (Bool-cases (match_segments (split b'.' p) (k ∷ path))) [
  | inl e ↦ rw (prefix-found p k path ys e) refl
  | inr e ↦ ground (arith, any-found ps k path ys (rw e at h))
]

-- For all patterns: where a tree pattern matches the keys of a path, `matchesValue` finds a secret at
-- the dotted path of every value there or below, whatever dots are in the keys.
pub secret_found :
    (patterns : List Text) (value : Value) (k : Text) (path more : List Text)
    → any_match (compile_patterns patterns).tree (k ∷ path) ≡ true
    → matches_value (compile_patterns patterns) value (join b'.' (k ∷ path ++ more)) ≡ true
unfolding matches_value compile_patterns any_match
secret_found [] value k path more h = cc
secret_found (p ∷ ps) value k path more h =
    let found = any-found (p ∷ ps) k path (flat more) h in
    let same : split b'.' (join b'.' (k ∷ path ++ more)) ≡ flat (k ∷ path) ++ flat more =
      split-join-flat k (path ++ more) ∙ flat-append (k ∷ path) more in
    rw (same, found) refl
