-- ===== src/LayerCache/Bounded.antt =====
-- The layer cache stays within its bound.
use fastconf.LayerCache.Transparent.{CacheCall, serve_layers, decoded}
use fastconf.Base.{==→eq, if_cases, Option-cases}
use fastconf.Base.{
  ℕ, ◌<◌, ◌≡◌, refl, inl, inr, Option, none, some, List, [], ◌∷◌, arith, ◌==◌, length, Result, ok,
  err, Text, ==→eq, if_cases, Option-cases,
}
use fastconf.Confmap.Value.{Fields}
use fastconf.LayerCache.{
  LayerKey, DecodedLayer, find_entry, Cache, empty_cache, room_for, store_entry, decode_into,
  is_current, get_or_decode, max_cached_layers,
}
use fastconf.LayerCache.Entered.{has_entry-find, find-has_entry}
use fastconf.LayerCache.Filled.{
  IsFilled, no_key, get_or-default, turned-IsFilled, added-IsFilled, replaced-IsFilled, below_bound,
}

stored-IsFilled :
    (k : LayerKey) (e : DecodedLayer) (c : Cache) (o : Option DecodedLayer)
    → find_entry k c.entries ≡ o
    → IsFilled c
    → IsFilled (store_entry k e (room_for k c o))
stored-IsFilled k e c (some d) h f = replaced-IsFilled k e c (find-has_entry k c.entries d h) f
stored-IsFilled k e c none h f =
    let missing = has_entry-find k c.entries h in
    if_cases (λ (d : Cache). IsFilled (store_entry k e d)) (length c.keys == max_cached_layers) _ _
      (λ x.
        let full : c.next < length c.keys =
          rw (==→eq (length c.keys) max_cached_layers x) f.turning in
        rw (get_or-default c.keys c.next k no_key full) (turned-IsFilled k e c missing full f))
      (λ x. added-IsFilled k e c missing (below_bound (length c.keys) x f.bounded) f)

empty-IsFilled : IsFilled empty_cache
empty-IsFilled = record {
  entered = λ i h. ground arith;
  apart = λ i j v u. ground arith;
  fits = ground arith;
  bounded = ground arith;
  turning = ground arith;
}

module _ {E : Type 0} where
  decode_into-IsFilled :
      (k : LayerKey) (sum : Text) (g : ℕ) (d : Result E Fields) (c : Cache)
      → IsFilled c
      → IsFilled (decode_into k sum g d c).1
  decode_into-IsFilled k sum g (err x) c f = f
  decode_into-IsFilled k sum g (ok tree) c f = stored-IsFilled k _ c (find_entry k c.entries) refl f

  get_or_decode-IsFilled :
      (k : LayerKey) (sum : Text) (g : ℕ) (d : Result E Fields) (c : Cache)
      → IsFilled c
      → IsFilled (get_or_decode k sum g d c).1
  unfolding get_or_decode
  get_or_decode-IsFilled k sum g d c f =
      elim (Option-cases (is_current sum g (find_entry k c.entries))) [
        | inl e ↦ rw (e, get_or_decode) (decode_into-IsFilled k sum g d c f)
        | inr (x, e) ↦ rw (e, get_or_decode) f
      ]

  module _ (sha256 : Text → Text) (decode : Text → ℕ → Text → Result E Fields) where
    serve_layers-IsFilled :
        (l : List CacheCall) (c : Cache) → IsFilled c → IsFilled (serve_layers sha256 decode l c)
    unfolding serve_layers
    serve_layers-IsFilled [] c f = f
    serve_layers-IsFilled (r ∷ l) c f =
        serve_layers-IsFilled l _
          (get_or_decode-IsFilled r.key (sha256 r.bytes) r.generation (decoded sha256 decode r) c f)

    -- After any sequence of calls of getOrDecode on a new cache: it has at most 512 keys, no two of
    -- them equal, an entry for each of them, and no more entries than keys.
    pub serve_layers-bounded :
        (l : List CacheCall) → IsFilled (serve_layers sha256 decode l empty_cache)
    serve_layers-bounded l = serve_layers-IsFilled l empty_cache empty-IsFilled
