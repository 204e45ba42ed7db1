-- ===== src/Providers/Escapes.antt =====
-- The quoted values and the keys of .env files, one piece at a time.
use fastconf.Base.{
  trim_text, trim_by, leading_width, trailing_width, ◌∙◌, ℕ, ◌≤◌, ◌≡◌, refl, sym, ap, ◌≢◌, inl, inr,
  Bool, true, false, not, ◌&&◌, some, [], ◌∷◌, ◌++◌, arith, ltb, ◌==◌, if◌then◌else◌, Bool-cases,
  Result, ok, Text, ==→eq, has_prefix, cut, is_space,
}
use mathlib.Core.List.{reverse, reverse-append, reverse-reverse, append_assoc}
use fastconf.Providers.Dotenv.{ParseError, double_quoted, prepend, drop_return}

abbrev pub escape_byte : ℕ → Text
escape_byte c =
    if c == 10
    then b'\\' ∷ b'n' ∷ []
    else if c == 9
    then b'\\' ∷ b't' ∷ []
    else if c == b'"'
    then b'\\' ∷ b'"' ∷ []
    else if c == b'\\'
    then b'\\' ∷ b'\\' ∷ []
    else c ∷ []

-- Newlines, tabs, quotes and backslashes by their escapes.
unfoldable pub escape : Text → Text
escape [] = []
escape (c ∷ s) = escape_byte c ++ escape s

prepend_same :
    (c n : ℕ) (r : Result ParseError Text)
    → (c == n) ≡ true
    → prepend (n ∷ []) r ≡ prepend (c ∷ []) r
prepend_same c n r h = ap (λ x. prepend (x ∷ []) r) (sym (==→eq c n h))

double_quoted-byte :
    (c : ℕ) (t : Text)
    → double_quoted false (escape_byte c ++ t) ≡ prepend (c ∷ []) (double_quoted false t)
unfolding double_quoted
double_quoted-byte c t =
    let r = double_quoted false t in
    elim (Bool-cases (c == 10)) [
      | inl e ↦ rw e (prepend_same c 10 r e)
      | inr e ↦ elim (Bool-cases (c == 9)) [
        | inl f ↦ rw (e, f) (prepend_same c 9 r f)
        | inr f ↦ elim (Bool-cases (c == b'"')) [
          | inl g ↦ rw (e, f, g) (prepend_same c b'"' r g)
          | inr g ↦ elim (Bool-cases (c == b'\\')) [
            | inl h ↦ rw (e, f, g, h) (prepend_same c b'\\' r h)
            | inr h ↦ rw (e, f, g, h) (rw (g, h) refl)
          ]
        ]
      ]
    ]

pub double_quoted-escape : (v rest : Text) → double_quoted false (escape v ++ (b'"' ∷ rest)) ≡ ok v
unfolding escape
double_quoted-escape [] rest = unfold double_quoted in refl
double_quoted-escape (c ∷ v) rest =
    rw
      (
        append_assoc (escape_byte c) (escape v) (b'"' ∷ rest),
        double_quoted-byte c (escape v ++ (b'"' ∷ rest)),
        double_quoted-escape v rest,
      )
      refl

-- A byte of a key: an ASCII byte that is no white space, no `=` and no `#`.
abbrev pub is_key_byte : ℕ → Bool
is_key_byte c = ltb c 128 && (not (is_space c) && (not (c == b'=') && not (c == b'#')))

-- Every byte has the property.
abbrev pub every : (ℕ → Bool) → Text → Bool
every test [] = true
every test (c ∷ s) = test c && every test s

pub every-append :
    (test : ℕ → Bool) (s t : Text)
    → every test s ≡ true
    → every test t ≡ true
    → every test (s ++ t) ≡ true
every-append test [] t h k = k
every-append test (c ∷ s) t h k = ground (arith, every-append test s t)

every-reverse : (test : ℕ → Bool) (s : Text) → every test s ≡ true → every test (reverse s) ≡ true
every-reverse test [] h = refl
every-reverse test (c ∷ s) h =
    rw (reverse-append (c ∷ []) s)
      (every-append test (reverse s) (c ∷ []) (every-reverse test s (ground arith)) (ground arith))

abbrev plain_byte : ℕ → Bool
plain_byte c = ltb c 128 && not (is_space c)

leading-plain : (c : ℕ) (s : Text) → plain_byte c ≡ true → leading_width (c ∷ s) ≡ 0
unfolding leading_width
leading-plain c [] h = ground arith
leading-plain c (d ∷ []) h = ground arith
leading-plain c (d ∷ e ∷ s) h = ground arith

trailing-plain : (c : ℕ) (s : Text) → plain_byte c ≡ true → trailing_width (c ∷ s) ≡ 0
unfolding trailing_width
trailing-plain c [] h = ground arith
trailing-plain c (d ∷ []) h = ground arith
trailing-plain c (d ∷ e ∷ s) h = ground arith

trim_by-stop :
    (width : Text → ℕ) (c : ℕ) (s : Text) → width (c ∷ s) ≡ 0 → trim_by width 0 (c ∷ s) ≡ c ∷ s
unfolding trim_by
trim_by-stop width c s h = rw (h, trim_by) refl

-- Neither end of the text is white space.
trim-ends :
    (c d : ℕ) (s t : Text)
    → plain_byte c ≡ true
    → plain_byte d ≡ true
    → reverse (c ∷ s) ≡ d ∷ t
    → trim_text (c ∷ s) ≡ c ∷ s
unfolding trim_text
trim-ends c d s t h k e =
    rw (trim_by-stop leading_width c s (leading-plain c s h), e)
      (ap reverse (trim_by-stop trailing_width d t (trailing-plain d t k))
        ∙ ap reverse (sym e)
        ∙ reverse-reverse (c ∷ s))

key-plain : (s : Text) → every is_key_byte s ≡ true → every plain_byte s ≡ true
key-plain [] h = refl
key-plain (c ∷ s) h = ground (arith, key-plain s)

pub trim_text-key : (s : Text) → every is_key_byte s ≡ true → trim_text s ≡ s
trim_text-key [] h = unfold trim_text trim_by in refl
trim_text-key (c ∷ s) h =
    go (reverse (c ∷ s)) refl (every-reverse plain_byte (c ∷ s) (key-plain (c ∷ s) h))
  where
    go : (r : Text) → reverse (c ∷ s) ≡ r → every plain_byte r ≡ true → trim_text (c ∷ s) ≡ c ∷ s
    go [] e k = absurd (cc (reverse-reverse (c ∷ s), ap reverse e))
    go (d ∷ t) e k = trim-ends c d s t (ground arith) (ground arith) e

-- A text that begins with a byte of a key and ends with a quote.
pub trim_text-quoted :
    (c : ℕ) (s : Text)
    → is_key_byte c ≡ true
    → trim_text (c ∷ (s ++ (b'"' ∷ []))) ≡ c ∷ (s ++ (b'"' ∷ []))
trim_text-quoted c s h =
    trim-ends c b'"' (s ++ (b'"' ∷ [])) (reverse (c ∷ s)) (ground arith) refl
      (reverse-append (c ∷ s) (b'"' ∷ []))

pub drop_return-quoted :
    (c : ℕ) (s : Text) → drop_return (c ∷ (s ++ (b'"' ∷ []))) ≡ c ∷ (s ++ (b'"' ∷ []))
unfolding drop_return
drop_return-quoted c [] = refl
drop_return-quoted c (d ∷ s) = ap (λ t. c ∷ t) (drop_return-quoted d s)

pub ltb-false : (a b : ℕ) → b ≤ a → ltb a b ≡ false
ltb-false a b h = ground arith

-- A key is not taken for one with "export " before it.
pub has_prefix-key :
    (p k rest : Text)
    → every is_key_byte k ≡ true
    → every (λ c. not (c == b'=')) p ≡ true
    → every is_key_byte p ≡ false
    → has_prefix (k ++ (b'=' ∷ rest)) p ≡ false
unfolding has_prefix
has_prefix-key [] k rest h n x = cc
has_prefix-key (d ∷ p) [] rest h n x = ground arith
has_prefix-key (d ∷ p) (c ∷ k) rest h n x = elim (Bool-cases (c == d)) [
  | inr e ↦ rw e refl
  | inl e ↦
      let key : is_key_byte d ≡ true = rw (sym (==→eq c d e)) (ground arith) in
      rw e (has_prefix-key p k rest (ground arith) (ground arith) (rw key at x))
]

pub cut-key :
    (k rest : Text) → every is_key_byte k ≡ true → cut b'=' (k ++ (b'=' ∷ rest)) ≡ some (k, rest)
unfolding cut
cut-key [] rest h = refl
cut-key (c ∷ k) rest h = rw (cut-key k rest (ground arith)) (ground arith)

-- A key has a byte, and all its bytes are bytes of keys.
abbrev pub IsKey : Text → Type 0
IsKey k = (k ≢ []) × (every is_key_byte k ≡ true)
