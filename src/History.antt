-- ===== src/History.antt =====
-- history.go: the ring of retained snapshots.
pub mod Window
use fastconf.Base.{
  ℕ, zero, suc, ◌+◌, ◌%◌, Bool, Option, none, some, List, [], ◌∷◌, ltb, if◌then◌else◌, get_or, set,
  replicate,
}

-- `items` holds `cap` pointers, nil where nothing was stored yet.
pub record Ring (A : Type 0) : Type 0 where
  pub cap : ℕ
  pub items : List (Option A)
  pub head : ℕ
  pub size : ℕ

module _ {A : Type 0} where
  unfoldable pub new_ring : ℕ → Option (Ring A)
  new_ring zero = none
  new_ring (suc n) =
      some (record { cap = suc n; items = replicate (suc n) none; head = 0; size = 0 })

  unfoldable pub push : Option A → Ring A → Ring A
  push item r =
      let items' = set r.items ((r.head + r.size) % r.cap) item in
      if ltb r.size r.cap
      then record r { items = items'; size = r.size + 1 }
      else record r { items = items'; head = (r.head + 1) % r.cap }

  -- `Push` on a ring that may be nil.
  unfoldable pub push_opt : Option A → Option (Ring A) → Option (Ring A)
  unfolding push
  push_opt item none = none
  push_opt item (some r) = some (push item r)

  -- The `n` items from the `i`th on: the loop of `Snapshot`.
  unfoldable pub collect : Ring A → ℕ → ℕ → List (Option A)
  collect r i zero = []
  collect r i (suc n) = get_or r.items ((r.head + i) % r.cap) none ∷ collect r (suc i) n

  unfoldable pub snapshot : Ring A → List (Option A)
  unfolding collect
  snapshot r = collect r 0 r.size

  -- The first stored item that passes: the loop of `Find`.
  unfoldable pub find_in : (A → Bool) → List (Option A) → Option A
  find_in pred [] = none
  find_in pred (none ∷ xs) = find_in pred xs
  find_in pred (some x ∷ xs) = if pred x then some x else find_in pred xs

  unfoldable pub find : (A → Bool) → Option (Ring A) → Option A
  unfolding snapshot find_in
  find pred none = none
  find pred (some r) = find_in pred (snapshot r)
