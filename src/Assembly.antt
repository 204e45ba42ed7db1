-- ===== src/Assembly.antt =====
-- assemble.go: the layers of files, generators, providers and overrides, and their order. What a
-- source gave when it was read stands in the inputs: a codec's tree or its error, and a provider's
-- snapshot or its error.
pub mod Sorting
pub mod Order
pub mod Others
pub mod Scanned
mod Tests
use fastconf.Base.{
  ℕ, ◌+◌, ◌/◌, Bool, false, ◌&&◌, ◌||◌, Option, none, some, List, [], ◌∷◌, ◌++◌, ltb, ◌==◌,
  if◌then◌else◌, Result, ok, err, ◌>>=◌, Text, codes,
}
use fastconf.Base.Int.{ℤ, pos, ◌+ℤ◌, ltℤ}
use fastconf.Confmap.Value.{Fields}
use fastconf.Confmap.Patch.{PatchInput}
use fastconf.Assembly.Sorting.{sort_stable}

pub data LayerKind : Type 0 where
  layer_unknown layer_merge layer_patch layer_provider layer_secret layer_generator layer_override :
      LayerKind

pub record SourceRef : Type 0 where
  pub path : Text
  pub kind : LayerKind
  pub profile : Text
  pub priority : ℤ
  pub codec : Text
  pub revision : Text
  pub stale : Bool

pub data LayerClass : Type 0 where
  class_file class_generator class_provider class_override : LayerClass

abbrev pub class_number : LayerClass → ℕ
class_number class_file = 0
class_number class_generator = 1
class_number class_provider = 2
class_number class_override = 3

-- A layer's tree, or a patch with the "path" members of its operations, if they decode.
pub data Content : Type 0 where
  tree : Fields → Content
  patch : PatchInput → Option (List Text) → Content

pub record StagedLayer : Type 0 where
  pub src : SourceRef
  pub class : LayerClass
  pub class_priority : ℤ
  pub content : Content

-- `compareLayers` is negative.
unfoldable pub layer_before : StagedLayer → StagedLayer → Bool
layer_before a b =
    ltb (class_number a.class) (class_number b.class)
    || (class_number a.class == class_number b.class && ltℤ a.class_priority b.class_priority)

pub data AssemblyError (E : Type 0) : Type 0 where
  ctx_ended : E → AssemblyError E
  discovery_failed : E → AssemblyError E
  provider_failed : Text → E → AssemblyError E
  decode_failed : Text → E → AssemblyError E
  no_sources : AssemblyError E

abbrev pub rank_generator : ℤ
rank_generator = pos 7000

abbrev pub rank_provider : ℤ
rank_provider = pos 8000

-- A file that the scanner found, decoded.
pub record FileLayer (E : Type 0) : Type 0 where
  pub path : Text
  pub profile : Text
  pub priority : ℤ
  pub codec : Text
  pub content : Result E Content

pub record GeneratedSource (E : Type 0) : Type 0 where
  pub name : Text
  pub priority : ℤ
  pub codec : Text
  pub decoded : Result E Fields

pub record Generator (E : Type 0) : Type 0 where
  pub name : Text
  pub generated : Result E (List (GeneratedSource E))

pub record Snapshot : Type 0 where
  pub tree : Option Fields
  pub revision : Text
  pub stale : Bool

-- `canceled` tells whether a load error is the context's.
pub record Provider (E : Type 0) : Type 0 where
  pub name : Text
  pub priority : ℤ
  pub load : Result E Snapshot
  pub canceled : E → Bool

-- What `assemble` reads: the context's error, what the scan yielded unless discovery is skipped or
-- its settings fail, the generators, the providers, and the extra layers.
pub record Inputs (E : Type 0) : Type 0 where
  pub context : Option E
  pub discovery : Option (Result E (List (Result E (FileLayer E))))
  pub generators : List (Generator E)
  pub providers : List (Provider E)
  pub extra : List StagedLayer

abbrev pub blank_source : SourceRef
blank_source = record {
  path = [];
  kind = layer_unknown;
  profile = [];
  priority = pos 0;
  codec = [];
  revision = [];
  stale = false;
}

abbrev pub file_kind : Content → LayerKind
file_kind (tree m) = layer_merge
file_kind (patch p paths) = layer_patch

module _ {E : Type 0} where
  abbrev file_layer : FileLayer E → Content → StagedLayer
  file_layer f c = record {
    src = record blank_source {
      path = f.path;
      kind = file_kind c;
      profile = f.profile;
      priority = f.priority;
      codec = f.codec;
    };
    class = class_file;
    class_priority = f.priority;
    content = c;
  }

  -- The loop of `assembleFileLayers`.
  unfoldable pub file_layers :
      List (Result E (FileLayer E)) → Result (AssemblyError E) (List StagedLayer)
  file_layers [] = ok []
  file_layers (err e ∷ l) = err (discovery_failed e)
  file_layers (ok f ∷ l) = elim f.content [
    | err e ↦ err (decode_failed f.path e)
    | ok c ↦ file_layers l >>= λ rest. ok (file_layer f c ∷ rest)
  ]

  abbrev generator_layer : Text → GeneratedSource E → Fields → StagedLayer
  generator_layer name g m = record {
    src = record blank_source {
      path = codes "gen://" ++ (name ++ (b'/' ∷ g.name));
      kind = layer_generator;
      priority = rank_generator +ℤ g.priority;
      codec = g.codec;
    };
    class = class_generator;
    class_priority = g.priority;
    content = tree m;
  }

  unfoldable pub generated_layers :
      Text → List (GeneratedSource E) → Result (AssemblyError E) (List StagedLayer)
  unfolding ◌+ℤ◌
  generated_layers name [] = ok []
  generated_layers name (g ∷ l) = elim g.decoded [
    | err e ↦ err (decode_failed name e)
    | ok m ↦ generated_layers name l >>= λ rest. ok (generator_layer name g m ∷ rest)
  ]

  -- The outer loop of `assembleGeneratorLayers`.
  unfoldable pub generator_layers : List (Generator E) → Result (AssemblyError E) (List StagedLayer)
  unfolding generated_layers
  generator_layers [] = ok []
  generator_layers (g ∷ l) = elim g.generated [
    | err e ↦ err (provider_failed g.name e)
    | ok sources ↦ (do
      here ← generated_layers g.name sources
      rest ← generator_layers l
      ok (here ++ rest))
  ]

  abbrev provider_layer : Provider E → Snapshot → Fields → StagedLayer
  provider_layer p snap m = record {
    src = record blank_source {
      path = codes "provider://" ++ p.name;
      kind = layer_provider;
      priority = rank_provider +ℤ p.priority;
      revision = snap.revision;
      stale = snap.stale;
    };
    class = class_provider;
    class_priority = p.priority;
    content = tree m;
  }

  -- A provider with no map adds no layer.
  abbrev snapshot_layers :
      Provider E → Snapshot → Option Fields → List StagedLayer → List StagedLayer
  snapshot_layers p snap none rest = rest
  snapshot_layers p snap (some m) rest = provider_layer p snap m ∷ rest

  -- `assembleProviderLayers`
  unfoldable pub provider_layers : List (Provider E) → Result (AssemblyError E) (List StagedLayer)
  unfolding ◌+ℤ◌
  provider_layers [] = ok []
  provider_layers (p ∷ l) = elim p.load [
    | err e ↦ err (if p.canceled e then ctx_ended e else provider_failed p.name e)
    | ok snap ↦ provider_layers l >>= λ rest. ok (snapshot_layers p snap snap.tree rest)
  ]

  abbrev pub discovered :
      Option (Result E (List (Result E (FileLayer E))))
      → Result (AssemblyError E) (List StagedLayer)
  discovered none = ok []
  discovered (some (err e)) = err (discovery_failed e)
  discovered (some (ok l)) = file_layers l

  -- The layers of all sources, in the order in which `assemble` appends them.
  unfoldable pub collect_layers : Inputs E → Result (AssemblyError E) (List StagedLayer)
  unfolding file_layers generator_layers provider_layers
  collect_layers i = do
    files ← discovered i.discovery
    generated ← generator_layers i.generators
    provided ← provider_layers i.providers
    ok (files ++ (generated ++ (provided ++ i.extra)))

  abbrev pub ordered : List StagedLayer → Result (AssemblyError E) (List StagedLayer)
  ordered [] = err no_sources
  ordered (l ∷ ls) = ok (sort_stable layer_before (l ∷ ls))

  -- `assemble`, less the fingerprint and the merge settings that it passes on
  unfoldable pub assemble : Inputs E → Result (AssemblyError E) (List StagedLayer)
  unfolding collect_layers
  assemble i = elim i.context [ some e ↦ err (ctx_ended e) | none ↦ collect_layers i >>= ordered ]
