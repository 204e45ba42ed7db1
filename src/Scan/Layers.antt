-- ===== src/Scan/Layers.antt =====
-- internal/scan/scan.go: the options, the layers and collectDir, which reads one directory.
use fastconf.Base.{
  to_lower, trim_prefix, has_prefix, ℕ, suc, ◌-◌, Bool, true, false, not, ◌&&◌, ◌||◌, Option, none,
  some, List, [], ◌∷◌, if◌then◌else◌, Result, ok, err, ◌>>=◌, Text, codes, text_eq,
}
use fastconf.Base.Int.{ℤ, pos, ◌+ℤ◌}
use fastconf.Assembly.Sorting.{sort_stable}
use fastconf.Codec.{Registry, lookup_ext}
use fastconf.Profile.{ExprError}
use fastconf.Scan.Paths.{text_less, has_suffix, ext_of, join_path}
use fastconf.Scan.Files.{
  FsError, not_exist, fs_failed, DirEntry, FileSystem, ReadError, read_regular_file,
}

pub data Kind : Type 0 where
  kind_unknown kind_merge kind_patch : Kind

pub record Layer : Type 0 where
  pub path : Text
  pub kind : Kind
  pub profile : Text
  pub priority : ℤ
  pub codec : Text
  pub bytes : Text

pub record AxisOverlay : Type 0 where
  pub dir : Text
  pub profile : Text
  pub priority : ℤ

-- The file system and OnDir are not among the fields.
pub record Options : Type 0 where
  pub base_dir : Text
  pub overlay_dir : Text
  pub profiles : List Text
  pub global_match : Text
  pub patch_suffixes : List Text
  pub strict : Bool
  pub axis_overlays : List AxisOverlay

abbrev pub text_or : Text → Text → Text
text_or [] d = d
text_or (c ∷ s) d = c ∷ s

abbrev pub suffixes_or_default : List Text → List Text
suffixes_or_default [] = codes ".patch.yaml" ∷ codes ".patch.json" ∷ []
suffixes_or_default (s ∷ l) = s ∷ l

-- `defaults`
unfoldable pub with_defaults : Options → Options
with_defaults o = record o {
  base_dir = text_or o.base_dir (codes "base");
  overlay_dir = text_or o.overlay_dir (codes "overlays");
  patch_suffixes = suffixes_or_default o.patch_suffixes;
}

pub data ScanError : Type 0 where
  dir_failed : Text → FsError → ScanError
  unknown_extension : Text → ScanError
  file_failed : Text → ReadError → ScanError
  base_too_wide : Text → ℕ → ScanError
  overlays_failed : Text → FsError → ScanError
  global_match_failed : ExprError → ScanError
  meta_unreadable : Text → ReadError → ScanError
  meta_malformed : Text → Text → ScanError
  match_failed : Text → ExprError → ScanError
  scoped_match_failed : ExprError → ScanError
  too_many_overlays : ScanError
  overlay_too_wide : Text → ℕ → ScanError
  extra_out_of_band : Text → ScanError
  extra_too_wide : Text → ℕ → ScanError

abbrev pub band_file_base : ℕ
band_file_base = 1000

abbrev pub band_file_overlay : ℕ
band_file_overlay = 2000

abbrev pub band_axis : ℕ
band_axis = 3000

abbrev pub band_file_end : ℕ
band_file_end = 7000

abbrev pub overlay_stride : ℕ
overlay_stride = 100

abbrev pub base_band_width : ℕ
base_band_width = band_file_overlay - band_file_base

-- An entry whose name does not begin with `_` or `.`, a directory or not.
abbrev pub is_visible : Bool → DirEntry → Bool
is_visible dir e =
    (if dir then e.is_dir else not e.is_dir)
    && (not (has_prefix e.name (codes "_")) && not (has_prefix e.name (codes ".")))

abbrev pub sort_entries : List DirEntry → List DirEntry
sort_entries = sort_stable (λ a b. text_less a.name b.name)

-- An error of a missing directory counts in strict mode, for the base directory.
abbrev pub missing_dir : Options → Text → Text → FsError → Result ScanError (List Layer)
missing_dir opt dir profile not_exist =
    if not (text_eq profile []) || not opt.strict then ok [] else err (dir_failed dir not_exist)
missing_dir opt dir profile (fs_failed e) = err (dir_failed dir (fs_failed e))

module _ {D : Type 0} (registry : Registry D) where
  abbrev pub plain_kind : Text → Option (Kind × Text)
  plain_kind [] = none
  plain_kind (c ∷ name) = some (kind_merge, c ∷ name)

  -- `classify`, of the lowercased name
  unfoldable pub classify_lower : Text → List Text → Option (Kind × Text)
  unfolding lookup_ext ext_of has_suffix
  classify_lower name [] = plain_kind (lookup_ext registry (ext_of name))
  classify_lower name (suffix ∷ suffixes) =
      let rest = classify_lower name suffixes in
      if has_suffix name suffix
      then some (kind_patch, lookup_ext registry (trim_prefix suffix (codes ".patch")))
      else rest

  unfoldable pub classify : Text → List Text → Option (Kind × Text)
  unfolding classify_lower to_lower
  classify name suffixes = classify_lower (to_lower name) suffixes

  module _ (fs : FileSystem) where
    -- What one entry gives to a directory's layers, with the priority that is next.
    unfoldable pub load_entry :
        Options → Text → Text → ℤ → DirEntry → Result ScanError (Option Layer)
    unfolding classify read_regular_file join_path
    load_entry opt dir profile priority e = elim (is_visible false e) [
      | false ↦ ok none
      | true ↦ elim (classify e.name opt.patch_suffixes) [
        | none ↦ if opt.strict then err (unknown_extension e.name) else ok none
        | some (kind, codec) ↦ elim (read_regular_file fs (join_path dir e.name) opt.strict) [
          | err x ↦ err (file_failed (join_path dir e.name) x)
          | ok none ↦ ok none
          | ok (some data') ↦ ok (
              some (record {
                path = join_path dir e.name;
                kind = kind;
                profile = profile;
                priority = priority;
                codec = codec;
                bytes = data';
              }))
        ]
      ]
    ]

    -- The loop of `collectDir`; `n` is the number of layers so far.
    unfoldable pub collect_entries :
        Options → Text → Text → ℤ → ℕ → List DirEntry → Result ScanError (List Layer)
    unfolding load_entry ◌+ℤ◌
    collect_entries opt dir profile base n [] = ok []
    collect_entries opt dir profile base n (e ∷ l) =
        elim (load_entry opt dir profile (base +ℤ pos n) e) [
          | err x ↦ err x
          | ok none ↦ collect_entries opt dir profile base n l
          | ok (some layer) ↦
              collect_entries opt dir profile base (suc n) l >>= λ rest. ok (layer ∷ rest)
        ]

    module _ (root : Text) where
      -- `collectDir`, after its call of OnDir
      unfoldable pub collect_dir : Options → Text → Text → ℤ → Result ScanError (List Layer)
      unfolding collect_entries text_eq join_path
      collect_dir opt sub profile base = elim (fs.read_dir (join_path root sub)) [
        | err e ↦ missing_dir opt (join_path root sub) profile e
        | ok entries ↦
            collect_entries opt (join_path root sub) profile base 0 (sort_entries entries)
      ]
