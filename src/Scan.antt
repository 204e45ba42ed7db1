-- ===== src/Scan.antt =====
-- internal/scan/scan.go: the layers of a configuration root. What Scan does is the list of its
-- events: the directories that OnDir gets, the layers that it yields, and the error that ends it.
mod Tests
pub mod Paths
pub mod Files
pub mod Layers
pub mod Overlays
pub mod Axes
pub mod Sizes
pub mod Windows
pub mod Parts
pub mod Rising
use fastconf.Base.{
  ℕ, zero, suc, ◌+◌, ◌-◌, ◌*◌, ◌/◌, ◌%◌, ◌≤◌, ◌<◌, min, max, String, ◌≡◌, refl, sym, ap, ◌∙◌,
  ◌≡⟨◌⟩◌, ◌∎, fun_ext, ◌≢◌, ◌↔◌, ◌⊎◌, inl, inr, Bool, true, false, not, ◌&&◌, ◌||◌, Option, none,
  some, List, [], ◌∷◌, ◌++◌, map, arith, ltb, leb, ◌==◌, if◌then◌else◌, Bool-cases, length,
  get_elem?, length-append, All, Result, ok, err, ◌>>=◌, >>=-eq-ok, Text, codes, text_eq,
  text_eq_iff, text_eq_refl,
}
use fastconf.Base.Int.{ℤ, pos, ltℤ}
use fastconf.Assembly.Sorting.{sort_stable}
use fastconf.Codec.{Registry}
use fastconf.Scan.Paths.{join_path}
use fastconf.Scan.Files.{FileSystem}
use fastconf.Scan.Layers.{
  Options, Layer, AxisOverlay, ScanError, collect_dir, with_defaults, band_axis, band_file_base,
  band_file_end, base_band_width, overlay_stride, base_too_wide, extra_out_of_band, extra_too_wide,
}
use fastconf.Scan.Overlays.{collect_profile_overlays}

pub data ScanEvent : Type 0 where
  visits : Text → ScanEvent
  yields : Layer → ScanEvent
  fails : ScanError → ScanEvent

abbrev pub out_of_band : AxisOverlay → Bool
out_of_band x =
    ltℤ x.priority (pos band_axis) || ltℤ (pos (band_file_end - overlay_stride)) x.priority

-- One extra directory, and what follows it.
abbrev pub extra_layers :
    AxisOverlay → Result ScanError (List Layer) → List ScanEvent → List ScanEvent
extra_layers x (err e) rest = fails e ∷ []
extra_layers x (ok layers) rest =
    if ltb overlay_stride (length layers)
    then fails (extra_too_wide x.dir (length layers)) ∷ []
    else map yields layers ++ rest

abbrev pub overlay_events :
    List Text × Result ScanError (List Layer) → List ScanEvent → List ScanEvent
overlay_events (dirs, err e) rest = map visits dirs ++ (fails e ∷ [])
overlay_events (dirs, ok layers) rest = map visits dirs ++ (map yields layers ++ rest)

-- slices.SortStableFunc by priority
abbrev pub sort_axes : List AxisOverlay → List AxisOverlay
sort_axes = sort_stable (λ a b. ltℤ a.priority b.priority)

-- Overlays are read for active profiles only.
abbrev pub if_profiles :
    List Text → List Text × Result ScanError (List Layer) → List ScanEvent → List ScanEvent
if_profiles [] collected rest = rest
if_profiles (name ∷ names) collected rest = overlay_events collected rest

module _ {D : Type 0} (registry : Registry D) (fs : FileSystem) (root : Text) where
  -- The loop over the extra axes.
  unfoldable pub scan_extras : Options → List AxisOverlay → List ScanEvent
  unfolding ltℤ collect_dir join_path
  scan_extras opt [] = []
  scan_extras opt (x ∷ l) =
      let rest = scan_extras opt l in
      if out_of_band x
      then fails (extra_out_of_band x.dir) ∷ []
      else visits (join_path root x.dir)
        ∷ extra_layers x (collect_dir registry fs root opt x.dir x.profile x.priority) rest

  module _ (decode_match : Text → Result Text Text) where
    -- What follows the base layers.
    unfoldable pub scan_overlays : Options → List ScanEvent
    unfolding scan_extras collect_profile_overlays sort_stable ltℤ
    scan_overlays opt =
        let extras = scan_extras opt (sort_axes opt.axis_overlays) in
        if_profiles opt.profiles (collect_profile_overlays registry fs root decode_match opt) extras

    abbrev pub base_events : Options → Result ScanError (List Layer) → List ScanEvent
    base_events opt (err e) = fails e ∷ []
    base_events opt (ok layers) =
        if ltb base_band_width (length layers)
        then fails (base_too_wide opt.base_dir (length layers)) ∷ []
        else map yields layers ++ scan_overlays opt

    -- `Scan`, for options with defaults
    abbrev pub scan_all : Options → List ScanEvent
    scan_all opt =
        visits (join_path root opt.base_dir)
        ∷ base_events opt (collect_dir registry fs root opt opt.base_dir [] (pos band_file_base))

    unfoldable pub scan : Options → List ScanEvent
    unfolding with_defaults collect_dir scan_overlays join_path
    scan opt = scan_all (with_defaults opt)
