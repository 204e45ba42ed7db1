-- ===== src/Feature/Tests.antt =====
-- Runs and instances: a flag with a target and a rollout of half of the users.
use fastconf.Base.{ℕ, ◌+◌, ◌≡◌, refl, [], ◌∷◌, length, Text, codes, text_eq}
use fastconf.Base.Dict
use fastconf.Base.Dict.{Dict}
use fastconf.Base.Int.{pos}
use fastconf.Feature.{Rollout, Rule, evaluate}
use fastconf.Feature.Decision.{Decides, evaluate-Decides}

-- A stand-in for the hash: the length of the text.
abbrev size_digest : Text → ℕ
size_digest s = 37 + length s

abbrev user_rollout : ℕ → Rollout ℕ
user_rollout n = record { percent = pos n; hash_key = codes "user"; value = 2 }

abbrev dark_mode : Rule ℕ
dark_mode = record {
  default = 0;
  targets = record { conditions = (codes "region", codes "eu") ∷ []; value = 1 } ∷ [];
  rollouts = user_rollout 50 ∷ [];
}

abbrev some_user : Dict Text
some_user = (codes "region", codes "us") ∷ (codes "user", codes "ann") ∷ []

evaluate_run : evaluate size_digest dark_mode some_user ≡ 2
unfolding evaluate Dict.get text_eq
evaluate_run = refl

abbrev ann_only : Dict Text
ann_only = (codes "user", codes "ann") ∷ []

evaluate-Decides_example :
    Decides size_digest dark_mode some_user (evaluate size_digest dark_mode some_user)
evaluate-Decides_example = evaluate-Decides size_digest some_user dark_mode
