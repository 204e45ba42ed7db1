-- ===== src/Confmap/Pointer/Escapes.antt =====
-- A path that is written as a JSON pointer by RFC 6901 is the path that `pointer` reads.
use fastconf.Base.{
  has_prefix, trim_prefix, ==→eq, ℕ, ◌≡◌, refl, ap, ◌∙◌, inl, inr, true, false, List, [], ◌∷◌, ◌++◌,
  map, ◌==◌, if◌then◌else◌, Bool-cases, All, ok, Text, text_eq, split, join, split-join, lacks,
}
use mathlib.Core.List.{append-nil}
use fastconf.Confmap.Pointer.{
  text, replace_pair, decode_token, escapes_ok, decode_tokens, pointer, pointer_to_dotted,
  dotted_segments, all_digits,
}

-- RFC 6901: `~` is written `~0` and `/` is written `~1`.
abbrev pub encode_byte : ℕ → Text
encode_byte c =
    if c == b'~' then b'~' ∷ b'0' ∷ [] else if c == b'/' then b'~' ∷ b'1' ∷ [] else c ∷ []

unfoldable pub encode_token : Text → Text
encode_token [] = []
encode_token (c ∷ s) = encode_byte c ++ encode_token s

unfoldable pub write_pointer : List Text → Text
unfolding encode_token
write_pointer [] = []
write_pointer (t ∷ ts) = b'/' ∷ (encode_token t ++ write_pointer ts)

replace_pair-ne :
    (a b c x : ℕ) (s : Text)
    → (x == a) ≡ false
    → replace_pair a b c (x ∷ s) ≡ x ∷ replace_pair a b c s
unfolding replace_pair
replace_pair-ne a b c x [] h = refl
replace_pair-ne a b c x (y ∷ s) h = rw h refl

-- After `~1` is replaced, only the escapes of `~` are left.
abbrev half_byte : ℕ → Text
half_byte c = if c == b'~' then b'~' ∷ b'0' ∷ [] else c ∷ []

half : Text → Text
half [] = []
half (c ∷ s) = half_byte c ++ half s

decode_slash : (s : Text) → replace_pair b'~' b'1' b'/' (encode_token s) ≡ half s
unfolding replace_pair encode_token half
decode_slash [] = refl
decode_slash (c ∷ s) = elim (Bool-cases (c == b'~')) [
  | inl e ↦ rw e (
      ap (λ t. b'~' ∷ t)
        (replace_pair-ne b'~' b'1' b'/' b'0' (encode_token s) refl
          ∙ ap (λ t. b'0' ∷ t) (decode_slash s)))
  | inr e ↦ elim (Bool-cases (c == b'/')) [
    | inl f ↦ rw (e, f) (cc (==→eq c b'/' f, decode_slash s))
    | inr f ↦
        rw (e, f)
          (replace_pair-ne b'~' b'1' b'/' c (encode_token s) e ∙ ap (λ t. c ∷ t) (decode_slash s))
  ]
]

decode_tilde : (s : Text) → replace_pair b'~' b'0' b'~' (half s) ≡ s
unfolding replace_pair half
decode_tilde [] = refl
decode_tilde (c ∷ s) = elim (Bool-cases (c == b'~')) [
  | inl e ↦ rw e (cc (==→eq c b'~' e, decode_tilde s))
  | inr e ↦ rw e (replace_pair-ne b'~' b'0' b'~' c (half s) e ∙ ap (λ t. c ∷ t) (decode_tilde s))
]

decode-encode : (t : Text) → decode_token (encode_token t) ≡ t
unfolding decode_token
decode-encode t = rw decode_slash (decode_tilde t)

escapes_ok-ne : (c : ℕ) (s : Text) → (c == b'~') ≡ false → escapes_ok (c ∷ s) ≡ escapes_ok s
unfolding escapes_ok
escapes_ok-ne c [] h = rw h refl
escapes_ok-ne c (d ∷ s) h = rw h refl

escapes_ok-encode : (t : Text) → escapes_ok (encode_token t) ≡ true
unfolding escapes_ok encode_token
escapes_ok-encode [] = refl
escapes_ok-encode (c ∷ s) = elim (Bool-cases (c == b'~')) [
  | inl e ↦ rw e (escapes_ok-encode s)
  | inr e ↦ elim (Bool-cases (c == b'/')) [
    | inl f ↦ rw (e, f) (escapes_ok-encode s)
    | inr f ↦ rw (e, f) (escapes_ok-ne c (encode_token s) e ∙ escapes_ok-encode s)
  ]
]

lacks-encode : (t : Text) → lacks b'/' (encode_token t) ≡ true
unfolding encode_token
lacks-encode [] = refl
lacks-encode (c ∷ s) = elim (Bool-cases (c == b'~')) [
  | inl e ↦ rw e (lacks-encode s)
  | inr e ↦ elim (Bool-cases (c == b'/')) [
    | inl f ↦ rw (e, f) (lacks-encode s)
    | inr f ↦ rw (e, f, f) (lacks-encode s)
  ]
]

All-lacks : (ts : List Text) → All (λ t. lacks b'/' t ≡ true) (map encode_token ts)
All-lacks [] = tt
All-lacks (t ∷ ts) = (lacks-encode t, All-lacks ts)

write_pointer-cons :
    (t : Text) (ts : List Text)
    → write_pointer (t ∷ ts) ≡ b'/' ∷ join b'/' (map encode_token (t ∷ ts))
unfolding write_pointer join
write_pointer-cons t [] = rw append-nil
write_pointer-cons t (u ∷ us) = ap (λ s. b'/' ∷ (encode_token t ++ s)) (write_pointer-cons u us)

split-write :
    (t : Text) (ts : List Text)
    → split b'/' (join b'/' (map encode_token (t ∷ ts))) ≡ map encode_token (t ∷ ts)
split-write t ts = split-join b'/' (encode_token t) _ (lacks-encode t) (All-lacks ts)

decode_tokens-encode : (ts : List Text) → decode_tokens (map encode_token ts) ≡ ok ts
unfolding decode_tokens
decode_tokens-encode [] = refl
decode_tokens-encode (t ∷ ts) =
    rw (escapes_ok-encode t, decode_tokens-encode ts, decode-encode t) refl

write_pointer-nil : write_pointer [] ≡ []
unfolding write_pointer
write_pointer-nil = refl

-- Every path, whatever bytes its tokens hold, is read back from the JSON pointer that RFC 6901
-- writes for it.
pub pointer-write : (ts : List Text) → pointer (text (write_pointer ts)) ≡ ok ts
unfolding pointer
pointer-write [] = rw write_pointer-nil refl
pointer-write (t ∷ ts) = rw (write_pointer-cons, split-write) (decode_tokens-encode (t ∷ ts))

dotted_segments-encode :
    (ts : List Text)
    → All (λ t. all_digits t ≡ false) ts
    → dotted_segments (map encode_token ts) ≡ ts
unfolding dotted_segments
dotted_segments-encode [] h = refl
dotted_segments-encode (t ∷ ts) h = rw (decode-encode t, h.0, dotted_segments-encode ts h.1) refl

dotted-slash :
    (s : Text) → pointer_to_dotted (b'/' ∷ s) ≡ join b'.' (dotted_segments (split b'/' s))
unfolding pointer_to_dotted text_eq trim_prefix has_prefix split join
dotted-slash [] = refl
dotted-slash (c ∷ s) = refl

-- A path with no array index among its tokens is recorded, from its JSON pointer, under its dotted
-- path.
pub pointer_to_dotted-write :
    (t : Text) (ts : List Text)
    → All (λ u. all_digits u ≡ false) (t ∷ ts)
    → pointer_to_dotted (write_pointer (t ∷ ts)) ≡ join b'.' (t ∷ ts)
pointer_to_dotted-write t ts h =
    rw (write_pointer-cons, dotted-slash, split-write, dotted_segments-encode (t ∷ ts) h) refl
