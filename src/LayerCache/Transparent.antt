-- ===== src/LayerCache/Transparent.antt =====
-- What the caches give is what decoding or building gives, and the layer cache stays within its bound.
use fastconf.Base.{
  ==→eq, ℕ, ◌≡◌, refl, sym, ap, ◌∙◌, inl, inr, true, ◌&&◌, Option, none, some, List, [], ◌∷◌, arith,
  ◌==◌, Bool-cases, length, All, Result, ok, err, Text, text_eq, text_eq_iff, Option-cases, some_eq,
  if_cases, get_or,
}
use fastconf.Confmap.Value.{Fields}
use mathlib.Core.Path.{subst}
use fastconf.LayerCache.{
  max_cached_layers, LayerKey, same_key, DecodedLayer, Entries, find_entry, put_entry, delete_entry,
  Cache, empty_cache, make_room, room_for, decode_into, is_current, get_or_decode,
}

abbrev pub tree_of : {E : Type 0} → Result E DecodedLayer → Result E Fields
tree_of (err x) = err x
tree_of (ok e) = ok e.tree

-- A file that discovery read: where, with which codec, its bytes, and the registry's generation.
pub record CacheCall : Type 0 where
  pub key : LayerKey
  pub bytes : Text
  pub generation : ℕ

same_codec : (j k : LayerKey) → same_key j k ≡ true → j.codec ≡ k.codec
same_codec j k h = (text_eq_iff j.codec k.codec).0 (ground arith)

is_current-same :
    (sum : Text) (g : ℕ) (o : Option DecodedLayer) (d : DecodedLayer)
    → is_current sum g o ≡ some d
    → (o ≡ some d) × (d.sum ≡ sum) × (d.generation ≡ g)
is_current-same sum g none d h = cc
is_current-same sum g (some e) d h = elim (Bool-cases (text_eq e.sum sum && e.generation == g)) [
  | inr x ↦ cc (rw x at h)
  | inl x ↦
      let same : e ≡ d = some_eq (rw x at h) in
      (
        ap some same,
        sym (ap (λ (z : DecodedLayer). z.sum) same) ∙ (text_eq_iff e.sum sum).0 (ground arith),
        sym (ap (λ (z : DecodedLayer). z.generation) same) ∙ ==→eq e.generation g (ground arith),
      )
]

module _ {E : Type 0} (sha256 : Text → Text) (decode : Text → ℕ → Text → Result E Fields) where
  abbrev pub decoded : CacheCall → Result E Fields
  decoded r = decode r.key.codec r.generation r.bytes

  -- A call for one file.
  abbrev pub serve_layer : CacheCall → Cache → Result E DecodedLayer × Cache
  serve_layer r c = get_or_decode r.key (sha256 r.bytes) r.generation (decoded r) c

  -- The cache after so many calls.
  unfoldable pub serve_layers : List CacheCall → Cache → Cache
  unfolding get_or_decode
  serve_layers [] c = c
  serve_layers (r ∷ l) c = serve_layers l (serve_layer r c).1

  -- An entry holds what its key's codec decodes of some bytes with the entry's sum.
  abbrev pub IsDecoded : LayerKey × DecodedLayer → Type 0
  IsDecoded (k, e) =
      (bytes : Text) × (e.sum ≡ sha256 bytes) × (decode k.codec e.generation bytes ≡ ok e.tree)

  find_entry-IsDecoded :
      (k : LayerKey) (l : Entries) (e : DecodedLayer)
      → All IsDecoded l
      → find_entry k l ≡ some e
      → IsDecoded (k, e)
  unfolding find_entry
  find_entry-IsDecoded k [] e h x = cc
  find_entry-IsDecoded k ((j, d) ∷ l) e h x = elim (Bool-cases (same_key j k)) [
    | inl s ↦
        let same : d ≡ e = some_eq (rw s at x) in
        let (bytes, sum, tree) = h.0 in
        let codec : j.codec ≡ k.codec = same_codec j k s in
        subst (λ z. IsDecoded (k, z)) same
          (bytes, sum, subst (λ z. decode z d.generation bytes ≡ ok d.tree) codec tree)
    | inr s ↦ find_entry-IsDecoded k l e h.1 (rw s at x)
  ]

  put_entry-IsDecoded :
      (k : LayerKey) (e : DecodedLayer) (l : Entries)
      → IsDecoded (k, e)
      → All IsDecoded l
      → All IsDecoded (put_entry k e l)
  unfolding put_entry
  put_entry-IsDecoded k e [] h hs = (h, tt)
  put_entry-IsDecoded k e ((j, d) ∷ l) h hs =
      if_cases (All IsDecoded) (same_key j k) _ _ (λ s. (h, hs.1))
        (λ s. (hs.0, put_entry-IsDecoded k e l h hs.1))

  delete_entry-IsDecoded :
      (k : LayerKey) (l : Entries) → All IsDecoded l → All IsDecoded (delete_entry k l)
  unfolding delete_entry
  delete_entry-IsDecoded k [] hs = tt
  delete_entry-IsDecoded k ((j, d) ∷ l) hs =
      if_cases (All IsDecoded) (same_key j k) _ _ (λ s. delete_entry-IsDecoded k l hs.1)
        (λ s. (hs.0, delete_entry-IsDecoded k l hs.1))

  make_room-IsDecoded :
      (k : LayerKey) (c : Cache) → All IsDecoded c.entries → All IsDecoded (make_room k c).entries
  make_room-IsDecoded k c h =
      if_cases (λ (d : Cache). All IsDecoded d.entries) (length c.keys == max_cached_layers) _ _
        (λ e. delete_entry-IsDecoded (get_or c.keys c.next k) c.entries h) (λ e. h)

  room_for-IsDecoded :
      (k : LayerKey) (c : Cache) (o : Option DecodedLayer)
      → All IsDecoded c.entries
      → All IsDecoded (room_for k c o).entries
  room_for-IsDecoded k c none h = make_room-IsDecoded k c h
  room_for-IsDecoded k c (some e) h = h

  -- A result with the tree that decoding gives, in a cache of decoded entries.
  abbrev Answers : Result E Fields → Result E DecodedLayer × Cache → Type 0
  Answers direct (r, c) = (tree_of r ≡ direct) × All IsDecoded c.entries

  decode_into-Answers :
      (r : CacheCall) (d : Result E Fields) (c : Cache)
      → decoded r ≡ d
      → All IsDecoded c.entries
      → Answers d (decode_into r.key (sha256 r.bytes) r.generation d c)
  decode_into-Answers r (err x) c e h = (refl, h)
  decode_into-Answers r (ok tree) c e h =
      (refl, put_entry-IsDecoded r.key _ _ (r.bytes, refl, e) (room_for-IsDecoded r.key c _ h))

  module _ (distinct : (a b : Text) → sha256 a ≡ sha256 b → a ≡ b) where
    current-decoded :
        (r : CacheCall) (c : Cache) (d : DecodedLayer)
        → All IsDecoded c.entries
        → is_current (sha256 r.bytes) r.generation (find_entry r.key c.entries) ≡ some d
        → ok d.tree ≡ decoded r
    current-decoded r c d h e =
        let (found, sum, generation) =
          is_current-same (sha256 r.bytes) r.generation (find_entry r.key c.entries) d e in
        let (bytes, hashed, tree) = find_entry-IsDecoded r.key c.entries d h found in
        let same : bytes ≡ r.bytes = distinct bytes r.bytes (sym hashed ∙ sum) in
        sym tree
        ∙ (ap (λ g. decode r.key.codec g bytes) generation
            ∙ ap (λ b. decode r.key.codec r.generation b) same)

    serve_layer-Answers :
        (r : CacheCall) (c : Cache)
        → All IsDecoded c.entries
        → Answers (decoded r) (serve_layer r c)
    unfolding get_or_decode
    serve_layer-Answers r c h =
        elim (Option-cases
          (is_current (sha256 r.bytes) r.generation (find_entry r.key c.entries))) [
            | inl e ↦ rw (e, get_or_decode) (decode_into-Answers r (decoded r) c refl h)
            | inr (d, e) ↦ rw (e, get_or_decode) (current-decoded r c d h e, h)
          ]

    serve_layers-IsDecoded :
        (l : List CacheCall) (c : Cache)
        → All IsDecoded c.entries
        → All IsDecoded (serve_layers l c).entries
    unfolding serve_layers
    serve_layers-IsDecoded [] c h = h
    serve_layers-IsDecoded (r ∷ l) c h = serve_layers-IsDecoded l _ (serve_layer-Answers r c h).1

    -- If SHA-256 tells the files apart: whatever was asked for before, a call of getOrDecode gives the
    -- tree, or the error, that the decoder gives for the layer's bytes.
    pub serve_layer-decoded :
        (l : List CacheCall) (r : CacheCall)
        → tree_of (serve_layer r (serve_layers l empty_cache)).0 ≡ decoded r
    serve_layer-decoded l r = (serve_layer-Answers r _ (serve_layers-IsDecoded l empty_cache tt)).0
