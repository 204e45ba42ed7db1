-- ===== src/Migration/Tests.antt =====
-- Runs and instances: a chain whose last migration leads over its target.
use fastconf.Base.{digits, ℕ, ◌≡◌, refl, Option, none, some, [], ◌∷◌, ok, err, Text, codes, text_eq}
use fastconf.Confmap.Value.{Fields, str, end, field, put_field}
use fastconf.Base.Int.{ℤ, pos, ltℤ}
use fastconf.Assembly.Sorting.{sort_stable}
use fastconf.Migration.{
  Migration, Chain, new_chain, run_chain, current_version, not_rising, returns,
}
use fastconf.Migration.Target.{RunEnds, run_chain-RunEnds}

abbrev no_float : Text → Option ℤ
no_float s = none

abbrev renames : Migration ℕ
renames = record {
  from = pos 0;
  to = pos 2;
  apply = some (λ m. ok (put_field (codes "name") (str (codes "x")) m));
}

abbrev leaps : Migration ℕ
leaps = record { from = pos 2; to = pos 5; apply = some ok }

abbrev leap_chain : Chain ℕ
leap_chain = record {
  target = pos 3;
  by_from =
      record { from = pos 2; to = pos 5; apply = ok }
      ∷ record {
        from = pos 0;
        to = pos 2;
        apply = λ m. ok (put_field (codes "name") (str (codes "x")) m);
      }
      ∷ [];
}

chain_run : new_chain (pos 3) (leaps ∷ renames ∷ []) ≡ ok leap_chain
unfolding new_chain ltℤ sort_stable
chain_run = refl

refused_run :
    new_chain (pos 3) (record leaps { to = pos 2 } ∷ []) ≡ err (not_rising (pos 2) (pos 2))
unfolding new_chain ltℤ sort_stable
refused_run = refl

leap_run :
    (out : Fields) × (run_chain no_float leap_chain end ≡ returns (pos 5) out)
    × (current_version no_float out ≡ pos 5)
unfolding run_chain current_version put_field field text_eq ltℤ digits
leap_run = (_, refl, refl)

run_chain-RunEnds_example : RunEnds no_float leap_chain end (run_chain no_float leap_chain end)
run_chain-RunEnds_example =
    run_chain-RunEnds no_float (pos 3) (leaps ∷ renames ∷ []) leap_chain end chain_run
