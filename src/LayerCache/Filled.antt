-- ===== src/LayerCache/Filled.antt =====
-- The invariant of the layer cache, and the three ways in which an entry is stored.
use fastconf.Base.{==→eq, ltb→lt, sym, set, get_or, length-set, get_or-set_self, get_or-set_ne}
use fastconf.Base.{
  ℕ, zero, suc, ◌+◌, ◌%◌, ◌≤◌, ◌<◌, ◌≡◌, refl, sym, ◌∙◌, ◌≢◌, inl, inr, true, false, List, [], ◌∷◌,
  ◌++◌, arith, ltb, ◌==◌, Bool-cases, length, length-append, ==→eq, ltb→lt, set, get_or, length-set,
  get_or-set_self, get_or-set_ne,
}
use fastconf.LayerCache.{
  LayerKey, same_key, DecodedLayer, Entries, put_entry, delete_entry, Cache, store_entry,
  max_cached_layers,
}
use fastconf.LayerCache.Entered.{
  has_entry, same_key_iff, has_entry-put, has_entry-delete, length-put_new, length-put_old,
  length-delete,
}

abbrev pub no_key : LayerKey
no_key = record { path = []; codec = [] }

abbrev pub key_at : Cache → ℕ → LayerKey
key_at c i = get_or c.keys i no_key

pub get_or-default :
    {A : Type 0} (xs : List A) (i : ℕ) (d e : A) → i < length xs → get_or xs i d ≡ get_or xs i e
get_or-default [] i d e h = ground arith
get_or-default (x ∷ xs) zero d e h = refl
get_or-default (x ∷ xs) (suc i) d e h = get_or-default xs i d e (omega arith)

get_or-append :
    {A : Type 0} (xs ys : List A) (i : ℕ) (d : A)
    → i < length xs
    → get_or (xs ++ ys) i d ≡ get_or xs i d
get_or-append [] ys i d h = ground arith
get_or-append (x ∷ xs) ys zero d h = refl
get_or-append (x ∷ xs) ys (suc i) d h = get_or-append xs ys i d (omega arith)

get_or-end :
    {A : Type 0} (xs : List A) (a d : A) (i : ℕ) → i ≡ length xs → get_or (xs ++ (a ∷ [])) i d ≡ a
get_or-end [] a d i h = rw h refl
get_or-end (x ∷ xs) a d zero h = ground arith
get_or-end (x ∷ xs) a d (suc i) h = get_or-end xs a d i (omega arith)

ltb_other : (i n : ℕ) → ltb i n ≡ false → n ≢ i → n < i
ltb_other i n h k = ground arith

pub below_bound :
    (n : ℕ) → (n == max_cached_layers) ≡ false → n ≤ max_cached_layers → n < max_cached_layers
below_bound n h k = ground arith

eq_false : (a b : ℕ) → (a == b) ≡ false → a ≢ b
eq_false a b h = ground arith

-- The keys are the places of entries, each for itself, and there are no more entries than keys.
pub record IsFilled (c : Cache) : Type 0 where
  pub entered : (i : ℕ) → i < length c.keys → has_entry (key_at c i) c.entries ≡ true
  pub apart : (i j : ℕ) → i < j → j < length c.keys → key_at c i ≢ key_at c j
  pub fits : length c.entries ≤ length c.keys
  pub bounded : length c.keys ≤ max_cached_layers
  pub turning : c.next < max_cached_layers

same_key_self : (k : LayerKey) → same_key k k ≡ true
same_key_self k = (same_key_iff k k).1 refl

same_key-ne : (j k : LayerKey) → j ≢ k → same_key j k ≡ false
same_key-ne j k h = elim (Bool-cases (same_key j k)) [
  | inl e ↦ absurd (h ((same_key_iff j k).0 e))
  | inr e ↦ e
]

-- A key with an entry is not one without.
entered-ne : (j k : LayerKey) (l : Entries) → has_entry j l ≡ true → has_entry k l ≡ false → j ≢ k
entered-ne j k l h n e = cc (rw e at h)

put-keeps :
    (k j : LayerKey) (e : DecodedLayer) (l : Entries)
    → has_entry j l ≡ true
    → has_entry j (put_entry k e l) ≡ true
put-keeps k j e l h = has_entry-put k j e l ∙ rw h (ground arith)

put_self : (k : LayerKey) (e : DecodedLayer) (l : Entries) → has_entry k (put_entry k e l) ≡ true
put_self k e l = has_entry-put k k e l ∙ rw (same_key_self k) refl

-- An entry that is there is replaced.
pub replaced-IsFilled :
    (k : LayerKey) (e : DecodedLayer) (c : Cache)
    → has_entry k c.entries ≡ true
    → IsFilled c
    → IsFilled (store_entry k e c)
replaced-IsFilled k e c h f = record {
  entered = λ i w. put-keeps k (key_at c i) e c.entries (f.entered i w);
  apart = f.apart;
  fits = rw (length-put_old k e c.entries h) f.fits;
  bounded = f.bounded;
  turning = f.turning;
}

-- A new key, while there are fewer keys than may be.
pub added-IsFilled :
    (k : LayerKey) (e : DecodedLayer) (c : Cache)
    → has_entry k c.entries ≡ false
    → length c.keys < max_cached_layers
    → IsFilled c
    → IsFilled (store_entry k e (record c { keys = c.keys ++ (k ∷ []) }))
added-IsFilled k e c h w f =
    let grown : length (c.keys ++ (k ∷ [])) ≡ suc (length c.keys) =
      length-append c.keys (k ∷ []) ∙ ground arith in
    record {
      entered = λ i v. elim (Bool-cases (ltb i (length c.keys))) [
        | inl x ↦
            rw (get_or-append c.keys (k ∷ []) i no_key (ltb→lt i (length c.keys) x))
              (put-keeps k (key_at c i) e c.entries (f.entered i (ltb→lt i (length c.keys) x)))
        | inr x ↦ rw (get_or-end c.keys k no_key i (ground (arith, grown))) (put_self k e c.entries)
      ];
      apart = λ i j v u. elim (Bool-cases (ltb j (length c.keys))) [
        | inl x ↦
            let low : j < length c.keys = ltb→lt j (length c.keys) x in
            rw
              (
                get_or-append c.keys (k ∷ []) i no_key (omega arith),
                get_or-append c.keys (k ∷ []) j no_key low,
              )
              (f.apart i j v low)
        | inr x ↦
            let at_end : j ≡ length c.keys = ground (arith, grown) in
            rw
              (
                get_or-append c.keys (k ∷ []) i no_key (omega arith),
                get_or-end c.keys k no_key j at_end,
              )
              (entered-ne (key_at c i) k c.entries (f.entered i (omega arith)) h)
      ];
      fits = rw (length-put_new k e c.entries h, grown) (omega (arith, f.fits));
      bounded = rw grown w;
      turning = f.turning;
    }

-- What stands at a place after the oldest key made way for `k`.
abbrev pub turned : LayerKey → Cache → Cache
turned k c = record {
  entries = delete_entry (key_at c c.next) c.entries;
  keys = set c.keys c.next k;
  next = (c.next + 1) % max_cached_layers;
}

key_at-turned : (k : LayerKey) (c : Cache) → c.next < length c.keys → key_at (turned k c) c.next ≡ k
key_at-turned k c h = get_or-set_self c.keys c.next k no_key h

key_at-other : (k : LayerKey) (c : Cache) (i : ℕ) → c.next ≢ i → key_at (turned k c) i ≡ key_at c i
key_at-other k c i h = get_or-set_ne c.keys c.next i k no_key h

-- The places that are kept are not the oldest's.
oldest-ne :
    (c : Cache) (i : ℕ)
    → IsFilled c
    → c.next < length c.keys
    → i < length c.keys
    → c.next ≢ i
    → key_at c c.next ≢ key_at c i
oldest-ne c i f h w n = elim (Bool-cases (ltb i c.next)) [
  | inl x ↦ λ e. f.apart i c.next (ltb→lt i c.next x) h (sym e)
  | inr x ↦ f.apart c.next i (ltb_other i c.next x n) w
]

turned-apart :
    (k : LayerKey) (c : Cache) (i j : ℕ)
    → has_entry k c.entries ≡ false
    → IsFilled c
    → c.next < length c.keys
    → i < j
    → j < length c.keys
    → key_at (turned k c) i ≢ key_at (turned k c) j
turned-apart k c i j h f w v u = elim (Bool-cases (c.next == i)) [
  | inl x ↦
      let here = ==→eq c.next i x in
      rw (key_at-other k c j (omega arith), ← here, key_at-turned k c w)
        (λ e. entered-ne (key_at c j) k c.entries (f.entered j u) h (sym e))
  | inr x ↦ elim (Bool-cases (c.next == j)) [
    | inl y ↦
        let here = ==→eq c.next j y in
        rw (key_at-other k c i (eq_false c.next i x), ← here, key_at-turned k c w)
          (entered-ne (key_at c i) k c.entries (f.entered i (omega arith)) h)
    | inr y ↦
        rw (key_at-other k c i (eq_false c.next i x), key_at-other k c j (eq_false c.next j y))
          (f.apart i j v u)
  ]
]

pub turned-IsFilled :
    (k : LayerKey) (e : DecodedLayer) (c : Cache)
    → has_entry k c.entries ≡ false
    → c.next < length c.keys
    → IsFilled c
    → IsFilled (store_entry k e (turned k c))
turned-IsFilled k e c h w f =
    let same : length (set c.keys c.next k) ≡ length c.keys = length-set c.keys c.next k in
    let oldest = key_at c c.next in
    let entered_oldest : has_entry oldest c.entries ≡ true = f.entered c.next w in
    let fresh : has_entry k (delete_entry oldest c.entries) ≡ false =
      has_entry-delete oldest k c.entries
        (same_key-ne oldest k (entered-ne oldest k c.entries entered_oldest h))
      ∙ h in
    record {
      entered = λ i v. elim (Bool-cases (c.next == i)) [
        | inl x ↦
            rw (← ==→eq c.next i x, key_at-turned k c w)
              (put_self k e (delete_entry oldest c.entries))
        | inr x ↦
            let other = eq_false c.next i x in
            rw (key_at-other k c i other) (
              put-keeps k (key_at c i) e (delete_entry oldest c.entries) (
                has_entry-delete oldest (key_at c i) c.entries
                  (same_key-ne oldest (key_at c i) (oldest-ne c i f w (rw same at v) other))
                ∙ f.entered i (rw same at v)))
      ];
      apart = λ i j v u. turned-apart k c i j h f w v (rw same at u);
      fits =
          rw (length-put_new k e (delete_entry oldest c.entries) fresh, same)
            (omega (arith, length-delete oldest c.entries entered_oldest, f.fits));
      bounded = rw same f.bounded;
      turning = ground arith;
    }
