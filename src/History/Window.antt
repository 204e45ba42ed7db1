-- ===== src/History/Window.antt =====
-- The ring is a window on what was pushed: it lists the last `cap` items, oldest first.
use native.Mathlib.Numerals.{add-one}
use fastconf.Base.{
  some_eq, ltb→lt, leb→le, ℕ, zero, suc, ◌+◌, ◌-◌, ◌%◌, ◌≤◌, ◌<◌, ◌≡◌, refl, sym, ap, ◌∙◌, ◌≢◌, inl,
  inr, Option, none, some, List, [], ◌∷◌, ◌++◌, map, arith, ltb, leb, Bool-cases, length,
  length-append, get_or, set, drop, get_or-set_self, get_or-set_ne, length-set, length-replicate,
}
use native.Mathlib.Nat.{mod-add-mod, zero-add}
use mathlib.Core.List.{append-nil, append_assoc}
use fastconf.History.{Ring, new_ring, push, collect, snapshot}

pub record IsRing {A : Type 0} (r : Ring A) : Type 0 where
  pub slots : length r.items ≡ r.cap
  pub open_cap : 0 < r.cap
  pub head_fits : r.head < r.cap
  pub size_fits : r.size ≤ r.cap

-- Two positions of the window lie in different slots.
slots_differ : (cap h i j : ℕ) → h < cap → i < j → j < cap → (h + j) % cap ≢ (h + i) % cap
slots_differ cap h i j a b c = grind arith

mod_lt : (cap a : ℕ) → 0 < cap → a % cap < cap
mod_lt cap a h = grind arith

shift_mod : (cap h i : ℕ) → ((h + 1) % cap + i) % cap ≡ (h + suc i) % cap
shift_mod cap h i = mod-add-mod (h + 1) cap i ∙ ap (λ n. n % cap) (omega arith)

wrap_mod : (cap h : ℕ) → h < cap → (h + cap) % cap ≡ h
wrap_mod cap h a = grind arith

pub push-IsRing : {A : Type 0} (x : Option A) (r : Ring A) → IsRing r → IsRing (push x r)
unfolding push
push-IsRing x r w = grind (arith, length-set, mod_lt)

length-collect : {A : Type 0} (r : Ring A) (i n : ℕ) → length (collect r i n) ≡ n
unfolding collect
length-collect r i zero = refl
length-collect r i (suc n) = ap suc (length-collect r (suc i) n)

collect-suc :
    {A : Type 0} (r : Ring A) (i n : ℕ)
    → collect r i (suc n) ≡ collect r i n ++ get_or r.items ((r.head + (i + n)) % r.cap) none ∷ []
unfolding collect
collect-suc r i zero = ap (λ k. get_or r.items ((r.head + k) % r.cap) none ∷ []) (omega arith)
collect-suc r i (suc n) =
    ap (λ l. get_or r.items ((r.head + i) % r.cap) none ∷ l)
      (collect-suc r (suc i) n
        ∙ ap (λ k. collect r (suc i) n ++ get_or r.items ((r.head + k) % r.cap) none ∷ [])
            (omega arith))

abbrev pub keep_last {ℓ} : {A : Type ℓ} → ℕ → List A → List A
keep_last n l = drop (length l - n) l

drop-zero {ℓ} : {A : Type ℓ} (k : ℕ) (l : List A) → k ≡ 0 → drop k l ≡ l
drop-zero k l h = rw h

module _ {A : Type 0} (x : Option A) (r : Ring A) (w : IsRing r) where
  abbrev written : List (Option A)
  written = set r.items ((r.head + r.size) % r.cap) x

  -- A push into a free slot leaves the window as it was.
  collect-free :
      (i n s : ℕ)
      → r.size < r.cap
      → i + n ≤ r.size
      → collect (record r { items = written; size = s }) i n ≡ collect r i n
  unfolding collect
  collect-free i zero s h k = refl
  collect-free i (suc n) s h k =
      rw
        (
          get_or-set_ne r.items ((r.head + r.size) % r.cap) ((r.head + i) % r.cap) x none
              (slots_differ r.cap r.head i r.size w.head_fits (omega arith) h),
          collect-free (suc i) n s h (omega arith),
        )
        refl

  full_slot : r.size ≡ r.cap → (r.head + r.size) % r.cap ≡ (r.head + 0) % r.cap
  full_slot h = grind (arith, w.head_fits)

  -- A push into a full ring moves the window on by one.
  collect-full :
      (i n : ℕ)
      → r.size ≡ r.cap
      → i + n < r.cap
      → collect (record r { items = written; head = (r.head + 1) % r.cap }) i n
        ≡ collect r (suc i) n
  unfolding collect
  collect-full i zero h k = refl
  collect-full i (suc n) h k =
      rw
        (
          shift_mod r.cap r.head i,
          get_or-set_ne r.items ((r.head + r.size) % r.cap) ((r.head + suc i) % r.cap) x none (λ e.
              slots_differ r.cap r.head 0 (suc i) w.head_fits (omega arith) (omega arith)
                (sym e ∙ full_slot h)),
          collect-full (suc i) n h (omega arith),
        )
        refl

  slot_fits : (r.head + r.size) % r.cap < length r.items
  slot_fits = grind (arith, w.slots, mod_lt r.cap (r.head + r.size) w.open_cap)

  free_snapshot :
      r.size < r.cap
      → collect (record r { items = written; size = r.size + 1 }) 0 (suc r.size)
        ≡ collect r 0 r.size ++ x ∷ []
  free_snapshot h =
      rw
        (
          collect-suc (record r { items = written; size = r.size + 1 }) 0 r.size,
          collect-free 0 r.size (r.size + 1) h (omega arith),
          zero-add r.size,
          get_or-set_self r.items ((r.head + r.size) % r.cap) x none slot_fits,
        )
        refl

  last_slot :
      (n : ℕ)
      → r.size ≡ suc n
      → ((r.head + 1) % r.cap + (0 + n)) % r.cap ≡ (r.head + r.size) % r.cap
  last_slot n h = shift_mod r.cap r.head (0 + n) ∙ ap (λ k. (r.head + k) % r.cap) (omega arith)

  full_snapshot :
      (n : ℕ)
      → r.size ≡ suc n
      → r.size ≡ r.cap
      → collect (record r { items = written; head = (r.head + 1) % r.cap }) 0 (suc n)
        ≡ collect r 1 n ++ x ∷ []
  full_snapshot n h k =
      rw
        (
          collect-suc (record r { items = written; head = (r.head + 1) % r.cap }) 0 n,
          collect-full 0 n k (omega arith),
          last_slot n h,
          get_or-set_self r.items ((r.head + r.size) % r.cap) x none slot_fits,
        )
        refl

  keep_full :
      (n : ℕ)
      → r.size ≡ suc n
      → r.size ≡ r.cap
      → keep_last r.cap (collect r 0 (suc n) ++ x ∷ []) ≡ collect r 1 n ++ x ∷ []
  unfolding collect
  keep_full n h k = ap (λ m. drop m (collect r 0 (suc n) ++ x ∷ [])) one_more
    where
      one_more : length (collect r 0 (suc n) ++ x ∷ []) - r.cap ≡ suc 0
      one_more =
          omega
            (arith, length-append {0} (collect r 0 (suc n)) (x ∷ []), length-collect r 0 (suc n))

  keep_free :
      r.size < r.cap → keep_last r.cap (collect r 0 r.size ++ x ∷ []) ≡ collect r 0 r.size ++ x ∷ []
  keep_free h =
      drop-zero _ _
        (omega (arith, length-append {0} (collect r 0 r.size) (x ∷ []), length-collect r 0 r.size))

  -- A push keeps the last `cap` of what the ring listed and the new item.
  pub snapshot-push : snapshot (push x r) ≡ keep_last r.cap (snapshot r ++ x ∷ [])
  unfolding push snapshot
  snapshot-push = elim (Bool-cases (ltb r.size r.cap)) [
    | inl free ↦
        rw (free, add-one) (free_snapshot (ltb→lt _ _ free) ∙ sym (keep_free (ltb→lt _ _ free)))
    | inr full ↦
        let size_cap : r.size ≡ r.cap = ground (arith, w.size_fits) in
        let size_suc : r.size ≡ suc (r.size - 1) = omega (arith, w.open_cap) in
        rw full (
          ap (collect (record r { items = written; head = (r.head + 1) % r.cap }) 0) size_suc
          ∙ full_snapshot (r.size - 1) size_suc size_cap
          ∙ sym (
              ap (λ k. keep_last r.cap (collect r 0 k ++ x ∷ [])) size_suc
              ∙ keep_full (r.size - 1) size_suc size_cap))
  ]

keep_last-cons {ℓ} :
    {A : Type ℓ} (n : ℕ) (x : A) (l : List A) → n ≤ length l → keep_last n (x ∷ l) ≡ keep_last n l
keep_last-cons n x l h = ap (λ k. drop k (x ∷ l)) one_more
  where
    one_more : suc (length l) - n ≡ suc (length l - n)
    one_more = omega arith

keep_last-append {ℓ} :
    {A : Type ℓ} (n : ℕ) (l ys : List A) → keep_last n (keep_last n l ++ ys) ≡ keep_last n (l ++ ys)
keep_last-append n [] ys = rw (drop-zero (0 - n) [] (omega arith))
keep_last-append n (x ∷ l) ys = elim (Bool-cases (leb n (length l))) [
  | inl e ↦ rw (keep_last-cons n x l (leb→le _ _ e)) (
      keep_last-append n l ys
      ∙ sym (keep_last-cons n x (l ++ ys) (omega (arith, leb→le _ _ e, length-append {ℓ} l ys))))
  | inr e ↦ rw (drop-zero (suc (length l) - n) (x ∷ l) (ground arith))
]

-- `Push`es, first to last.
abbrev pub push_all : {A : Type 0} → List A → Ring A → Ring A
push_all [] r = r
push_all (x ∷ xs) r = push_all xs (push (some x) r)

cap-push : {A : Type 0} (x : Option A) (r : Ring A) → (push x r).cap ≡ r.cap
unfolding push
cap-push x r = ground arith

keep_last-snapshot :
    {A : Type 0} (r : Ring A) → IsRing r → keep_last r.cap (snapshot r) ≡ snapshot r
unfolding snapshot
keep_last-snapshot r w = drop-zero _ _ (omega (arith, length-collect r 0 r.size, w.size_fits))

snapshot-push_all :
    {A : Type 0} (xs : List A) (r : Ring A)
    → IsRing r
    → snapshot (push_all xs r) ≡ keep_last r.cap (snapshot r ++ map some xs)
snapshot-push_all [] r w = rw append-nil (sym (keep_last-snapshot r w))
snapshot-push_all (x ∷ xs) r w =
    snapshot-push_all xs (push (some x) r) (push-IsRing (some x) r w)
    ∙ rw
        (
          snapshot-push (some x) r w,
          cap-push (some x) r,
          keep_last-append r.cap (snapshot r ++ some x ∷ []) (map some xs),
          append_assoc (snapshot r) (some x ∷ []) (map some xs),
        )
        refl

new_ring-IsRing :
    {A : Type 0} (n : ℕ) (r : Ring A)
    → new_ring n ≡ some r
    → IsRing r × (r.cap ≡ n) × (snapshot r ≡ [])
unfolding new_ring snapshot collect
new_ring-IsRing zero r h = cc
new_ring-IsRing (suc n) r h = rw (← some_eq h) (
  record {
    slots = length-replicate (suc n) none;
    open_cap = omega arith;
    head_fits = omega arith;
    size_fits = omega arith;
  },
  refl,
  refl,
)

-- After any sequence of pushes into a new ring of capacity `n`, `Snapshot` lists the last `n`
-- pushed items, oldest first.
pub history_window :
    {A : Type 0} (n : ℕ) (xs : List A) (r : Ring A)
    → new_ring n ≡ some r
    → snapshot (push_all xs r) ≡ keep_last n (map some xs)
history_window n xs r h =
    let (w, cap_eq, bare) = new_ring-IsRing n r h in
    rw (← cap_eq) (rw bare at (snapshot-push_all xs r w))
