-- ===== src/Codec.antt =====
-- codec/registry.go: the table of codecs by name and by file extension. The two sync.Maps and the
-- generation counter are one state.
use fastconf.Base.{
  has_prefix, trim_text, to_lower, cut, trim_prefix, ℕ, suc, Option, none, some, [], ◌∷◌, ◌==◌,
  if◌then◌else◌, Text, codes,
}
use fastconf.Base.Dict.{Dict, get, put}

pub record Registry (D : Type 0) : Type 0 where
  pub codecs : Dict D
  pub exts : Dict Text
  pub generation : ℕ

-- The text without one leading dot, lowercased.
unfoldable pub bare_ext : Text → Text
unfolding to_lower trim_prefix has_prefix
bare_ext ext = trim_prefix (to_lower ext) (codes ".")

module _ {D : Type 0} where
  abbrev pub empty_registry : Registry D
  empty_registry = record { codecs = []; exts = []; generation = 0 }

  -- `Register`
  unfoldable pub register : Text → D → Registry D → Registry D
  unfolding to_lower put
  register name c r = record r {
    codecs = put (to_lower name) c r.codecs;
    generation = suc r.generation;
  }

  unfoldable pub register_ext : Text → Text → Registry D → Registry D
  unfolding bare_ext to_lower put
  register_ext ext codec r = record r { exts = put (bare_ext ext) (to_lower codec) r.exts }

  -- `Lookup`
  unfoldable pub lookup_codec : Registry D → Text → Option D
  unfolding to_lower get
  lookup_codec r name = get (to_lower name) r.codecs

  -- `LookupExt`: no name for an unknown extension.
  unfoldable pub lookup_ext : Registry D → Text → Text
  unfolding bare_ext get
  lookup_ext r ext = elim (get (bare_ext ext) r.exts) [ none ↦ [] | some name ↦ name ]

-- What stands before the first `;`, without white space around it, if there is one.
abbrev pub media_type : Text → Text
media_type ct = elim (cut b';' ct) [ none ↦ ct | some (before, after) ↦ trim_text before ]

-- What stands after the last byte `sep`, if there is one.
unfoldable pub after_last : ℕ → Text → Option Text
after_last sep [] = none
after_last sep (c ∷ s) = elim (after_last sep s) [
  | some rest ↦ some rest
  | none ↦ if c == sep then some s else none
]

-- A subtype without its "x-".
abbrev pub subtype : Text → Text
subtype ct = elim (after_last b'/' ct) [ none ↦ ct | some sub ↦ trim_prefix sub (codes "x-") ]

module _ {D : Type 0} where
  unfoldable pub by_content_type : Registry D → Text → Option D
  unfolding to_lower trim_text cut after_last trim_prefix lookup_ext lookup_codec
  by_content_type r ct = elim (lookup_ext r (subtype (media_type (to_lower (trim_text ct))))) [
    | [] ↦ none
    | c ∷ name ↦ lookup_codec r (c ∷ name)
  ]
