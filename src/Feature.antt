-- ===== src/Feature.antt =====
-- feature/feature.go: a flag is decided by its targets, in order, then by its rollouts, in order.
-- `digest` stands for crypto/sha256: the first eight bytes of the hash of a text, big-endian.
pub mod Decision
mod Tests
use fastconf.Base.{
  ℕ, ◌%◌, Bool, true, false, ◌&&◌, Option, none, some, List, [], ◌∷◌, ltb, leb, if◌then◌else◌, Text,
  text_eq,
}
use fastconf.Base.Dict
use fastconf.Base.Dict.{Dict}
use fastconf.Base.Int.{ℤ, pos, negsuc}

pub record Target (V : Type 0) : Type 0 where
  pub conditions : Dict Text
  pub value : V

pub record Rollout (V : Type 0) : Type 0 where
  pub percent : ℤ
  pub hash_key : Text
  pub value : V

pub record Rule (V : Type 0) : Type 0 where
  pub default : V
  pub targets : List (Target V)
  pub rollouts : List (Rollout V)

-- got, ok := have[k]; ok && got == v
abbrev pub has_value : Option Text → Text → Bool
has_value none v = false
has_value (some got) v = text_eq got v

-- The loop of `matches`.
unfoldable pub all_match : Dict Text → Dict Text → Bool
all_match [] have = true
all_match ((k, v) ∷ want) have = has_value (Dict.get k have) v && all_match want have

unfoldable pub matches : Dict Text → Dict Text → Bool
unfolding all_match
matches [] have = false
matches (c ∷ want) have = all_match (c ∷ want) have

unfoldable pub in_bucket : (Text → ℕ) → Text → ℤ → Bool
in_bucket digest anchor (negsuc n) = false
in_bucket digest anchor (pos n) =
    if leb n 0 then false else if leb 100 n then true else ltb (digest anchor % 100) n

-- The anchor that a rollout hashes, if the context has one.
abbrev pub anchor_of : Option Text → Option Text
anchor_of (some (c ∷ s)) = some (c ∷ s)
anchor_of _ = none

unfoldable pub rollout_anchor : Text → Dict Text → Option Text
rollout_anchor [] ctx = none
rollout_anchor (c ∷ s) ctx = anchor_of (Dict.get (c ∷ s) ctx)

module _ {V : Type 0} (digest : Text → ℕ) where
  -- Whether a request lands in a rollout.
  unfoldable pub lands : Dict Text → Rollout V → Bool
  unfolding in_bucket rollout_anchor
  lands ctx ro = elim (rollout_anchor ro.hash_key ctx) [
    | none ↦ false
    | some anchor ↦ in_bucket digest anchor ro.percent
  ]

  unfoldable pub first_rollout : Dict Text → List (Rollout V) → V → V
  unfolding lands
  first_rollout ctx [] d = d
  first_rollout ctx (ro ∷ l) d = if lands ctx ro then ro.value else first_rollout ctx l d

  unfoldable pub first_target : Dict Text → List (Target V) → V → V
  unfolding matches
  first_target ctx [] d = d
  first_target ctx (t ∷ l) d = if matches t.conditions ctx then t.value else first_target ctx l d

  -- `Rule.Evaluate`
  unfoldable pub evaluate : Rule V → Dict Text → V
  unfolding first_target first_rollout
  evaluate r ctx = first_target ctx r.targets (first_rollout ctx r.rollouts r.default)

  -- `Eval`, where the nil map of rules has no key
  unfoldable pub eval : Dict (Rule V) → Text → Dict Text → V → V
  unfolding evaluate
  eval rules key ctx d = elim (Dict.get key rules) [ none ↦ d | some r ↦ evaluate r ctx ]
