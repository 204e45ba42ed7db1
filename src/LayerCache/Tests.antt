-- ===== src/LayerCache/Tests.antt =====
-- Runs and instances: one file read twice, changed and read again.
use fastconf.LayerCache.Filled.{IsFilled}
use fastconf.LayerCache.Bounded.{serve_layers-bounded}
use fastconf.Base.{ℕ, ◌≡◌, refl, [], ◌∷◌, length, Result, ok, err, Text, codes}
use fastconf.Confmap.Value.{Fields, end, entry, str}
use fastconf.LayerCache.{LayerKey, empty_cache}
use fastconf.LayerCache.Transparent.{
  CacheCall, serve_layer, serve_layers, serve_layer-decoded, tree_of,
}

abbrev as_is : Text → Text
as_is s = s

abbrev decode : Text → ℕ → Text → Result ℕ Fields
decode codec generation [] = err 1
decode codec generation (c ∷ s) = ok (entry codec (str (c ∷ s)) end)

abbrev app : LayerKey
app = record { path = codes "base/app.yaml"; codec = codes "yaml" }

abbrev first : CacheCall
first = record { key = app; bytes = codes "a: 1"; generation = 5 }

abbrev second : CacheCall
second = record { key = app; bytes = codes "a: 2"; generation = 5 }

serve_layer-decoded_example :
    tree_of
      (serve_layer as_is decode second
        (serve_layers as_is decode (first ∷ first ∷ []) empty_cache)).0
    ≡ decode (codes "yaml") 5 (codes "a: 2")
serve_layer-decoded_example =
    serve_layer-decoded as_is decode (λ a b h. h) (first ∷ first ∷ []) second

cached_run :
    length (serve_layers as_is decode (first ∷ second ∷ first ∷ []) empty_cache).entries ≡ 1
unfolding serve_layers
cached_run = refl

serve_layers-bounded_example :
    IsFilled (serve_layers as_is decode (first ∷ second ∷ []) empty_cache)
serve_layers-bounded_example = serve_layers-bounded as_is decode (first ∷ second ∷ [])
