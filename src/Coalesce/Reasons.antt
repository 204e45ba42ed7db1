-- ===== src/Coalesce/Reasons.antt =====
-- `joinUnique`: each reason once, in order of its first arrival.
use fastconf.Base.{
  ◌≡◌, refl, inl, inr, true, false, not, ◌&&◌, List, [], ◌∷◌, arith, leb, Bool-cases, length, Text,
  text_eq_iff, text_eq_refl, join,
}
use fastconf.Coalesce.{has_text, unique_from, join_unique}

-- No text stands twice.
abbrev pub IsUnique : List Text → Type 0
IsUnique [] = Unit
IsUnique (s ∷ l) = (has_text s l ≡ false) × IsUnique l

-- A text is kept exactly if it was not seen and occurs.
has_text_unique :
    (t : Text) (seen l : List Text)
    → has_text t (unique_from seen l) ≡ (not (has_text t seen) && has_text t l)
unfolding unique_from
has_text_unique t seen [] = ground arith
has_text_unique t seen (s ∷ l) =
    ground (arith, text_eq_iff s t, has_text_unique t seen l, has_text_unique t (s ∷ seen) l)

kept-IsUnique : (seen l : List Text) → IsUnique (unique_from seen l)
unfolding unique_from
kept-IsUnique seen [] = tt
kept-IsUnique seen (s ∷ l) = elim (Bool-cases (has_text s seen)) [
  | inl e ↦ rw e (kept-IsUnique seen l)
  | inr e ↦
      rw e (rw (has_text_unique s (s ∷ seen) l, text_eq_refl s) refl, kept-IsUnique (s ∷ seen) l)
]

short : (l : List Text) → leb (length l) 1 ≡ true → unique_from [] l ≡ l
unfolding unique_from
short [] h = refl
short (x ∷ []) h = refl
short (x ∷ y ∷ l) h = absurd (ground arith)

-- The joined reason of any burst lists texts without a repetition, and exactly those that occur
-- among the burst's reasons.
pub join_unique_lem :
    (l : List Text)
    → (u : List Text) × (join_unique l ≡ join b',' u)
      × IsUnique u
      × ((t : Text) → has_text t u ≡ has_text t l)
unfolding join_unique
join_unique_lem l = (
  unique_from [] l,
  elim (Bool-cases (leb (length l) 1)) [ inl e ↦ rw (e, short l e) refl | inr e ↦ rw e refl ],
  kept-IsUnique [] l,
  λ t. has_text_unique t [] l,
)
