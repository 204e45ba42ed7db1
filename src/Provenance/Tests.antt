-- ===== src/Provenance/Tests.antt =====
-- Runs and instances: a file and an override that both write the port.
use fastconf.Base.{ℕ, ◌≡◌, refl, true, false, Option, [], ◌∷◌, codes, text_eq}
use fastconf.Confmap.Value.{Fields, bool, obj, end, entry}
use fastconf.Base.Dict
use fastconf.Provenance.{record_value, top_level, full, Index, record_tree, explain, new_index}

-- {"server": {"port": true}, "debug": false}
abbrev layer : Fields
layer =
    entry (codes "server") (obj (entry (codes "port") (bool true) end))
      (entry (codes "debug") (bool false) end)

abbrev full_index : Index ℕ
full_index = record { entries = []; level = full }

abbrev top_index : Index ℕ
top_index = record { entries = []; level = top_level }

abbrev two_layers : Option (Index ℕ)
two_layers = record_tree (record_tree (new_index full) [] layer 1) [] layer 2

explain_run :
    explain two_layers (codes "server.port")
    ≡ record { path = codes "server.port"; source = 1; value = bool true }
      ∷ record { path = codes "server.port"; source = 2; value = bool true }
      ∷ []
unfolding explain record_tree new_index Dict.get Dict.put text_eq record_value
explain_run = refl
