-- ===== src/LayerCache/Entered.antt =====
-- Which keys the entries of the layer cache have, and how many entries there are.
use fastconf.Base.{
  suc, ◌≤◌, ◌≡◌, refl, ap, ◌∙◌, ◌↔◌, inl, inr, Bool, true, false, ◌||◌, none, some, [], ◌∷◌, arith,
  Bool-cases, length, text_eq, text_eq_iff, text_eq_refl, if_cases,
}
use fastconf.LayerCache.{
  LayerKey, same_key, DecodedLayer, Entries, find_entry, put_entry, delete_entry,
}

key_eq : (a b : LayerKey) → a.path ≡ b.path → a.codec ≡ b.codec → a ≡ b
key_eq a b h k =
    ap (λ p. record { path = p; codec = a.codec }) h
    ∙ ap (λ c. record { path = b.path; codec = c }) k

pub same_key_iff : (a b : LayerKey) → (same_key a b ≡ true) ↔ (a ≡ b)
same_key_iff a b = (
  λ h.
      key_eq a b ((text_eq_iff a.path b.path).0 (ground arith))
        ((text_eq_iff a.codec b.codec).0 (ground arith)),
  λ e. rw e (ground (arith, text_eq_refl b.path, text_eq_refl b.codec)),
)

unfoldable pub has_entry : LayerKey → Entries → Bool
unfolding text_eq
has_entry k [] = false
has_entry k ((j, e) ∷ l) = same_key j k || has_entry k l

pub has_entry-find : (k : LayerKey) (l : Entries) → find_entry k l ≡ none → has_entry k l ≡ false
unfolding has_entry find_entry
has_entry-find k [] h = refl
has_entry-find k ((j, e) ∷ l) h = elim (Bool-cases (same_key j k)) [
  | inl s ↦ cc (rw s at h)
  | inr s ↦ rw s (has_entry-find k l (rw s at h))
]

pub find-has_entry :
    (k : LayerKey) (l : Entries) (d : DecodedLayer) → find_entry k l ≡ some d → has_entry k l ≡ true
unfolding has_entry find_entry
find-has_entry k [] d h = cc
find-has_entry k ((j, e) ∷ l) d h = elim (Bool-cases (same_key j k)) [
  | inl s ↦ rw s refl
  | inr s ↦ rw s (find-has_entry k l d (rw s at h))
]

or_again : (a b : Bool) → (a || b) ≡ (a || (a || b))
or_again true b = refl
or_again false b = refl

or_swap : (a b c : Bool) → (a || (b || c)) ≡ (b || (a || c))
or_swap true true c = refl
or_swap true false c = refl
or_swap false b c = refl

-- A write gives its key an entry and takes none away.
pub has_entry-put :
    (k j : LayerKey) (e : DecodedLayer) (l : Entries)
    → has_entry j (put_entry k e l) ≡ (same_key k j || has_entry j l)
unfolding has_entry put_entry
has_entry-put k j e [] = refl
has_entry-put k j e ((i, d) ∷ l) = elim (Bool-cases (same_key i k)) [
  | inl s ↦
      rw (s, ap (λ z. same_key z j) ((same_key_iff i k).0 s))
        (or_again (same_key k j) (has_entry j l))
  | inr s ↦ rw (s, has_entry-put k j e l) (or_swap (same_key i j) (same_key k j) (has_entry j l))
]

pub has_entry-delete :
    (k j : LayerKey) (l : Entries)
    → same_key k j ≡ false
    → has_entry j (delete_entry k l) ≡ has_entry j l
unfolding has_entry delete_entry
has_entry-delete k j [] h = refl
has_entry-delete k j ((i, d) ∷ l) h = elim (Bool-cases (same_key i k)) [
  | inl s ↦ rw (s, ap (λ z. same_key z j) ((same_key_iff i k).0 s) ∙ h) (has_entry-delete k j l h)
  | inr s ↦ rw s (ap (λ b. same_key i j || b) (has_entry-delete k j l h))
]

pub length-put_new :
    (k : LayerKey) (e : DecodedLayer) (l : Entries)
    → has_entry k l ≡ false
    → length (put_entry k e l) ≡ suc (length l)
unfolding has_entry put_entry
length-put_new k e [] h = refl
length-put_new k e ((i, d) ∷ l) h = elim (Bool-cases (same_key i k)) [
  | inl s ↦ cc (rw s at h)
  | inr s ↦ rw s (ap suc (length-put_new k e l (rw s at h)))
]

pub length-put_old :
    (k : LayerKey) (e : DecodedLayer) (l : Entries)
    → has_entry k l ≡ true
    → length (put_entry k e l) ≡ length l
unfolding has_entry put_entry
length-put_old k e [] h = cc
length-put_old k e ((i, d) ∷ l) h = elim (Bool-cases (same_key i k)) [
  | inl s ↦ rw s refl
  | inr s ↦ rw s (ap suc (length-put_old k e l (rw s at h)))
]

length-delete_le : (k : LayerKey) (l : Entries) → length (delete_entry k l) ≤ length l
unfolding delete_entry
length-delete_le k [] = ground arith
length-delete_le k ((i, d) ∷ l) =
    if_cases (λ (m : Entries). length m ≤ suc (length l)) (same_key i k) _ _
      (λ s. omega (arith, length-delete_le k l)) (λ s. omega (arith, length-delete_le k l))

-- A deletion of a key that has an entry makes room.
pub length-delete :
    (k : LayerKey) (l : Entries) → has_entry k l ≡ true → suc (length (delete_entry k l)) ≤ length l
unfolding has_entry delete_entry
length-delete k [] h = cc
length-delete k ((i, d) ∷ l) h = elim (Bool-cases (same_key i k)) [
  | inl s ↦ rw s (omega (arith, length-delete_le k l))
  | inr s ↦ rw s (omega (arith, length-delete k l (rw s at h)))
]
