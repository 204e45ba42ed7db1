-- ===== src/Scan/Overlays.antt =====
-- internal/scan/scan.go: collectProfileOverlays and overlayMatches. The YAML decoder of an overlay's
-- _meta.yaml is a parameter, which gives the "match" member.
use fastconf.Base.{
  trim_text, ℕ, ◌+◌, Bool, true, false, ◌||◌, Option, none, some, List, [], ◌∷◌, ◌++◌, ltb, leb,
  if◌then◌else◌, length, Result, ok, err, ◌>>=◌, Text, codes, text_eq,
}
use fastconf.Base.Int.{pos}
use fastconf.Profile.{ProfileSet, new_profile_set, eval_profile}
use fastconf.Codec.{Registry}
use fastconf.Scan.Paths.{join_path}
use fastconf.Scan.Files.{DirEntry, FileSystem, not_exist, fs_failed, is_missing, read_regular_file}
use fastconf.Scan.Layers.{
  Options, Layer, ScanError, collect_dir, is_visible, sort_entries, band_axis, band_file_overlay,
  overlay_stride, match_failed, meta_unreadable, meta_malformed, scoped_match_failed,
  overlay_too_wide, too_many_overlays, global_match_failed, overlays_failed,
}

abbrev pub Collected : Type 0
Collected = List Text × Result ScanError (List Layer)

abbrev pub add_overlay : Text → Text → List Layer → Collected → Collected
add_overlay dir sub layers (dirs, rest) =
    if ltb overlay_stride (length layers)
    then (dir ∷ [], err (overlay_too_wide sub (length layers)))
    else (dir ∷ dirs, rest >>= λ more. ok (layers ++ more))

-- The active set with the overlay's name
abbrev pub scoped : ProfileSet → Text → ProfileSet
scoped active name = λ n. text_eq name n || active n

abbrev pub passes_global : Option Text → ProfileSet → Text → Result ScanError Bool
passes_global none active name = ok true
passes_global (some expr) active name = elim (eval_profile expr (scoped active name)) [
  | err x ↦ err (scoped_match_failed x)
  | ok b ↦ ok b
]

-- `GlobalMatch` if it is not blank, after its first evaluation.
abbrev pub global_expr : Text → ProfileSet → Result ScanError (Option Text)
global_expr expr active = elim (trim_text expr) [
  | [] ↦ ok none
  | c ∷ s ↦ elim (eval_profile expr active) [
    | err x ↦ err (global_match_failed x)
    | ok b ↦ ok (some expr)
  ]
]

module _ {D : Type 0} (registry : Registry D) (fs : FileSystem) (root : Text)
    (decode_match : Text → Result Text Text) where
  abbrev pub match_overlay : Text → Text → Text → ProfileSet → Result ScanError Bool
  match_overlay path name text active = elim (trim_text text) [
    | [] ↦ ok (active name)
    | c ∷ s ↦ elim (eval_profile text active) [ err x ↦ err (match_failed path x) | ok b ↦ ok b ]
  ]

  -- The path of an overlay's _meta.yaml
  abbrev pub meta_path : Text → Text
  meta_path sub = join_path (join_path root sub) (codes "_meta.yaml")

  unfoldable pub overlay_matches : Text → Text → ProfileSet → Result ScanError Bool
  unfolding read_regular_file join_path
  overlay_matches sub name active = elim (read_regular_file fs (meta_path sub) true) [
    | err x ↦ if is_missing x then ok (active name) else err (meta_unreadable (meta_path sub) x)
    | ok none ↦ match_overlay (meta_path sub) name [] active
    | ok (some data') ↦ elim (decode_match data') [
      | err x ↦ err (meta_malformed (meta_path sub) x)
      | ok text ↦ match_overlay (meta_path sub) name text active
    ]
  ]

  -- The tests that an entry of the overlay directory passes before it is read.
  unfoldable pub selects : Options → ProfileSet → Option Text → DirEntry → Result ScanError Bool
  unfolding overlay_matches eval_profile text_eq join_path
  selects opt active global e =
      if is_visible true e
      then elim (overlay_matches (join_path opt.overlay_dir e.name) e.name active) [
        | err x ↦ err x
        | ok false ↦ ok false
        | ok true ↦ passes_global global active e.name
      ]
      else ok false

  -- The loop of `collectProfileOverlays`; `base` is `priorityBase`. The first part is what
  -- OnDir is called with.
  unfoldable pub overlay_loop : Options → ProfileSet → Option Text → ℕ → List DirEntry → Collected
  unfolding selects collect_dir join_path
  overlay_loop opt active global base [] = ([], ok [])
  overlay_loop opt active global base (e ∷ l) = elim (selects opt active global e) [
    | err x ↦ ([], err x)
    | ok false ↦ overlay_loop opt active global base l
    | ok true ↦
        let sub = join_path opt.overlay_dir e.name in
        elim (leb band_axis base) [
          | true ↦ ([], err too_many_overlays)
          | false ↦ elim (collect_dir registry fs root opt sub e.name (pos base)) [
            | err x ↦ (join_path root sub ∷ [], err x)
            | ok layers ↦
                add_overlay (join_path root sub) sub layers
                  (overlay_loop opt active global (base + overlay_stride) l)
          ]
        ]
  ]

  unfoldable pub collect_profile_overlays : Options → Collected
  unfolding overlay_loop new_profile_set trim_text eval_profile join_path
  collect_profile_overlays opt =
      let dir = join_path root opt.overlay_dir in
      let active = new_profile_set opt.profiles in
      elim (fs.read_dir dir) [
        | err not_exist ↦ (dir ∷ [], ok [])
        | err (fs_failed e) ↦ (dir ∷ [], err (overlays_failed dir (fs_failed e)))
        | ok entries ↦ elim (global_expr opt.global_match active) [
          | err x ↦ (dir ∷ [], err x)
          | ok global ↦
              let (dirs, layers) =
                overlay_loop opt active global band_file_overlay (sort_entries entries) in
              (dir ∷ dirs, layers)
        ]
      ]
