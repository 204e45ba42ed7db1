-- ===== src/Scan/Tests.antt =====
-- Runs and instances: a root with a base, two overlays of which one matches, and one axis.
use fastconf.Assembly.Scanned.{scanned, axes_scan, assemble-scan, IsFileOf}
use fastconf.Assembly.Others.{NoFile}
use fastconf.Assembly.{assemble, AssemblyError, Inputs, StagedLayer, Content, tree, layer_before}
use fastconf.Scan.{ScanEvent}
use fastconf.Confmap.Value.{end}
use fastconf.Assembly.Sorting.{sort_stable}
use fastconf.Base.{
  All, ◌++◌, ℕ, String, ◌≡◌, refl, true, false, Option, none, some, List, [], ◌∷◌, map,
  if◌then◌else◌, length, Result, ok, err, Text, codes, text_eq,
}
use fastconf.Base.Dict.{Dict, get}
use fastconf.Base.Int.{ℤ, pos, ltℤ}
use fastconf.Codec.{Registry}
use fastconf.Profile.{new_profile_set, eval_profile}
use fastconf.Scan.Paths.{text_less, valid_path}
use fastconf.Scan.Files.{
  FileSystem, FsError, not_exist, DirEntry, Stream, read_bounded, read_upto, read_tail,
}
use fastconf.Scan.Layers.{Options, Layer}
use fastconf.Scan.Axes.{AxisSpec, resolve_axes, axis_value}
use fastconf.Scan.Sizes.{IsLimited, read_bounded-IsLimited}
use fastconf.Scan.Windows.{RisesFrom}
use fastconf.Scan.Parts.{layers_of}
use fastconf.Scan.Rising.{IsInBands, scan-IsInBands, scan-RisesFrom}
use fastconf.Scan.{scan}

abbrev file : String → DirEntry
file name = record { name = codes name; is_dir = false }

abbrev dir : String → DirEntry
dir name = record { name = codes name; is_dir = true }

abbrev listings : Dict (List DirEntry)
listings =
    (
      codes "conf/base",
      file "b.patch.json" ∷ file "_meta.yaml" ∷ file "a.yaml" ∷ file "readme" ∷ [],
    )
    ∷ (codes "conf/overlays", dir "prod" ∷ dir "dev" ∷ [])
    ∷ (codes "conf/overlays/prod", file "z.yaml" ∷ [])
    ∷ (codes "conf/overlays/dev", file "y.yaml" ∷ [])
    ∷ (codes "conf/hosts/ua", file "h.yaml" ∷ [])
    ∷ []

abbrev or_missing {ℓ} : {A : Type ℓ} → Option A → Result FsError A
or_missing none = err not_exist
or_missing (some a) = ok a

abbrev meta_of_prod : Text → Option Text
meta_of_prod p =
    if text_eq p (codes "conf/overlays/prod/_meta.yaml")
    then some (codes "live")
    else if text_eq p (codes "conf/overlays/dev/_meta.yaml")
    then none
    else some (codes "x: 1")

abbrev disk : FileSystem
disk = record {
  read_dir = λ p. or_missing (get p listings);
  stat = λ p. elim (meta_of_prod p) [
    | none ↦ err not_exist
    | some t ↦ ok (record { regular = true; size = pos (length t) })
  ];
  open_file = λ p. elim (meta_of_prod p) [
    | none ↦ err not_exist
    | some t ↦ ok (record { content = t; fault = none; eager = false })
  ];
}

abbrev codecs : Registry ℕ
codecs = record {
  codecs = [];
  exts = (codes "yaml", codes "yaml") ∷ (codes "json", codes "json") ∷ [];
  generation = 0;
}

abbrev settings : Options
settings = record {
  base_dir = [];
  overlay_dir = [];
  profiles = codes "live" ∷ [];
  global_match = [];
  patch_suffixes = [];
  strict = false;
  axis_overlays = [];
}

abbrev hosts : AxisSpec
hosts = record { dir = codes "hosts"; env = codes "HOST"; priority = pos 7; from_hostname = true }

abbrev no_env : Text → Option Text
no_env name = none

abbrev summary : List Layer → List (Text × ℤ)
summary = map (λ l. (l.path, l.priority))

scan_run :
    summary (
      layers_of (
        scan codecs disk (codes "conf") ok (record settings {
          axis_overlays = (resolve_axes no_env (ok (codes "ua")) (hosts ∷ [])).0;
        })))
    ≡ (codes "conf/base/a.yaml", pos 1000)
      ∷ (codes "conf/base/b.patch.json", pos 1001)
      ∷ (codes "conf/overlays/prod/z.yaml", pos 2000)
      ∷ (codes "conf/hosts/ua/h.yaml", pos 3000)
      ∷ []
unfolding scan layers_of resolve_axes get text_less fastconf.Profile.peek
    fastconf.Profile.parse_ident
scan_run = refl

scan-IsInBands_example : IsInBands (layers_of (scan codecs disk (codes "conf") ok settings))
scan-IsInBands_example = scan-IsInBands codecs disk (codes "conf") ok settings

scan-RisesFrom_example : RisesFrom 1000 7000 (
    layers_of (
      scan codecs disk (codes "conf") ok (record settings {
        axis_overlays = (resolve_axes no_env (ok (codes "ua")) (hosts ∷ [])).0;
      })))
scan-RisesFrom_example =
    scan-RisesFrom no_env (ok (codes "ua")) codecs disk (codes "conf") ok settings (hosts ∷ [])

abbrev growing : Stream
growing = record { content = codes "a: 1"; fault = none; eager = true }

read_bounded-IsLimited_example : IsLimited growing (read_bounded growing (pos 2))
read_bounded-IsLimited_example = read_bounded-IsLimited growing (pos 2)

growing_run : read_bounded growing (pos 2) ≡ ok (codes "a: 1")
unfolding read_bounded read_tail read_upto
growing_run = refl

unsafe_run : (resolve_axes no_env (ok (codes "a/b")) (hosts ∷ [])).0 ≡ []
unfolding resolve_axes axis_value valid_path
unsafe_run = refl

abbrev undecoded : Layer → Result ℕ Content
undecoded l = ok (tree end)

abbrev with_hosts : List ScanEvent
with_hosts = axes_scan codecs disk (codes "conf") ok no_env (ok (codes "ua")) settings (hosts ∷ [])

abbrev of_disk : Inputs ℕ
of_disk = record {
  context = none;
  discovery = some (ok (scanned (λ e. 1) undecoded with_hosts));
  generators = [];
  providers =
      record {
        name = codes "p";
        priority = pos 0;
        load = ok (record { tree = some end; revision = []; stale = false });
        canceled = λ e. false;
      }
      ∷ [];
  extra = [];
}

abbrev staged_paths : Result (AssemblyError ℕ) (List StagedLayer) → List Text
staged_paths (err e) = []
staged_paths (ok l) = map (λ s. s.src.path) l

abbrev staged_or_none : Result (AssemblyError ℕ) (List StagedLayer) → List StagedLayer
staged_or_none (err e) = []
staged_or_none (ok l) = l

staged_run :
    staged_paths (assemble of_disk)
    ≡ codes "conf/base/a.yaml"
      ∷ codes "conf/base/b.patch.json"
      ∷ codes "conf/overlays/prod/z.yaml"
      ∷ codes "conf/hosts/ua/h.yaml"
      ∷ codes "provider://p"
      ∷ []
unfolding assemble layer_before ltℤ sort_stable scan layers_of resolve_axes get text_less
    fastconf.Profile.peek fastconf.Profile.parse_ident scanned
staged_run = refl

of_disk_run : assemble of_disk ≡ ok (staged_or_none (assemble of_disk))
unfolding assemble layer_before ltℤ sort_stable scan layers_of resolve_axes get text_less
    fastconf.Profile.peek fastconf.Profile.parse_ident scanned
of_disk_run = refl

assemble-scan_example :
    (files : List StagedLayer) × (others : List StagedLayer) × (staged_or_none (assemble of_disk)
      ≡ files ++ others)
    × IsFileOf files (layers_of with_hosts)
    × All NoFile others
assemble-scan_example =
    assemble-scan (λ e. 1) undecoded codecs disk (codes "conf") ok no_env (ok (codes "ua")) of_disk
      settings (hosts ∷ []) (staged_or_none (assemble of_disk)) refl tt of_disk_run
