-- ===== src/Assembly/Tests.antt =====
-- Runs and instances: an override stands above a provider of a greater priority.
use fastconf.Base.{ℕ, ◌+◌, ◌≡◌, refl, true, false, none, some, List, [], ◌∷◌, ◌++◌, ok, Text, codes}
use fastconf.Base.Int.{pos, ltℤ}
use fastconf.Confmap.Value.{end, entry, bool}
use fastconf.Assembly.{
  layer_provider, Inputs, Provider, StagedLayer, assemble, collect_layers, layer_before,
  blank_source, class_override, class_provider, tree,
}
use fastconf.Assembly.Sorting.{keep, sort_stable}
use fastconf.Assembly.Order.{same_rank, IsRanked, assemble_order}

abbrev provider : Text → ℕ → Provider ℕ
provider name p = record {
  name = name;
  priority = pos p;
  load = ok (record { tree = some end; revision = []; stale = false });
  canceled = λ e. false;
}

abbrev override : StagedLayer
override = record {
  src = blank_source;
  class = class_override;
  class_priority = pos 0;
  content = tree (entry (codes "debug") (bool true) end);
}

abbrev sources : Inputs ℕ
sources = record {
  context = none;
  discovery = none;
  generators = [];
  providers = provider (codes "b") 9 ∷ provider (codes "a") 2 ∷ [];
  extra = override ∷ [];
}

abbrev provided : Text → ℕ → StagedLayer
provided name p = record {
  src = record blank_source {
    path = codes "provider://" ++ name;
    kind = layer_provider;
    priority = pos (8000 + p);
  };
  class = class_provider;
  class_priority = pos p;
  content = tree end;
}

abbrev sorted_layers : List StagedLayer
sorted_layers = provided (codes "a") 2 ∷ provided (codes "b") 9 ∷ override ∷ []

assemble_run : assemble sources ≡ ok sorted_layers
unfolding assemble layer_before ltℤ sort_stable
assemble_run = refl

assemble_order_example :
    (all : List StagedLayer) × (collect_layers sources ≡ ok all)
    × IsRanked sorted_layers
    × ((l : StagedLayer) → keep (same_rank l) sorted_layers ≡ keep (same_rank l) all)
assemble_order_example = assemble_order sources sorted_layers assemble_run
