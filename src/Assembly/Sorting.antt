-- ===== src/Assembly/Sorting.antt =====
-- slices.SortStableFunc, by insertion, and what a stable sort guarantees.
use fastconf.Base.{
  ◌≡◌, refl, ◌∙◌, inl, inr, Bool, true, false, List, [], ◌∷◌, arith, if◌then◌else◌, Bool-cases, All,
}

module _ {A : Type 0} (less : A → A → Bool) where
  unfoldable pub insert_stable : A → List A → List A
  insert_stable x [] = x ∷ []
  insert_stable x (y ∷ l) = let rest = insert_stable x l in if less y x then y ∷ rest else x ∷ y ∷ l

  unfoldable pub sort_stable : List A → List A
  unfolding insert_stable
  sort_stable [] = []
  sort_stable (x ∷ l) = insert_stable x (sort_stable l)

  -- Nothing later is less than anything earlier.
  abbrev pub IsSorted : List A → Type 0
  IsSorted [] = Unit
  IsSorted (x ∷ l) = All (λ y. less y x ≡ false) l × IsSorted l

-- The items that pass a test, in order.
unfoldable pub keep : {A : Type 0} → (A → Bool) → List A → List A
keep test [] = []
keep test (x ∷ l) = if test x then x ∷ keep test l else keep test l

module _ {A : Type 0} (less : A → A → Bool) (test : A → Bool) where
  keep-insert :
      (x : A) (l : List A)
      → ((a b : A) → test a ≡ true → test b ≡ true → less a b ≡ false)
      → keep test (insert_stable less x l) ≡ keep test (x ∷ l)
  unfolding insert_stable keep
  keep-insert x [] h = refl
  keep-insert x (y ∷ l) h = ground (arith, keep-insert x l h, h y x)

  -- Items that are never less than each other keep their order.
  pub keep-sort :
      (l : List A)
      → ((a b : A) → test a ≡ true → test b ≡ true → less a b ≡ false)
      → keep test (sort_stable less l) ≡ keep test l
  unfolding sort_stable keep
  keep-sort [] h = refl
  keep-sort (x ∷ l) h = keep-insert x (sort_stable less l) h ∙ rw (keep-sort l h) refl

module _ {A : Type 0} (less : A → A → Bool) where
  pub All-insert :
      (P : A → Type 0) (x : A) (l : List A) → P x → All P l → All P (insert_stable less x l)
  unfolding insert_stable
  All-insert P x [] h k = (h, tt)
  All-insert P x (y ∷ l) h k = elim (Bool-cases (less y x)) [
    | inl e ↦ rw e (k.0, All-insert P x l h k.1)
    | inr e ↦ rw e (h, k)
  ]

  All-map : (P Q : A → Type 0) (l : List A) → ((a : A) → P a → Q a) → All P l → All Q l
  All-map P Q [] f h = tt
  All-map P Q (x ∷ l) f h = (f x h.0, All-map P Q l f h.1)

  -- A test that is a strict weak order.
  pub record IsOrder : Type 0 where
    pub asym : (a b : A) → less a b ≡ true → less b a ≡ false
    pub trans : (a b c : A) → less b a ≡ false → less c b ≡ false → less c a ≡ false

  IsSorted-insert :
      (x : A) (l : List A) → IsOrder → IsSorted less l → IsSorted less (insert_stable less x l)
  unfolding insert_stable
  IsSorted-insert x [] o s = (tt, tt)
  IsSorted-insert x (y ∷ l) o s = elim (Bool-cases (less y x)) [
    | inl e ↦
        rw e (All-insert (λ z. less z y ≡ false) x l (o.asym y x e) s.0, IsSorted-insert x l o s.1)
    | inr e ↦ rw e (
      (e, All-map (λ z. less z y ≡ false) (λ z. less z x ≡ false) l (λ z. o.trans x y z e) s.0),
      s,
    )
  ]

  pub sort_stable-IsSorted : (l : List A) → IsOrder → IsSorted less (sort_stable less l)
  unfolding sort_stable
  sort_stable-IsSorted [] o = tt
  sort_stable-IsSorted (x ∷ l) o =
      IsSorted-insert x (sort_stable less l) o (sort_stable-IsSorted l o)
