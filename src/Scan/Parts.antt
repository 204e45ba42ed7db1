-- ===== src/Scan/Parts.antt =====
-- The layers that a scan yields: those of the base and the overlays, then those of the extra axes.
use fastconf.Base.{
  ℕ, ◌+◌, ◌≤◌, ◌≡◌, refl, sym, ap, ◌∙◌, ◌⊎◌, inl, inr, List, [], ◌∷◌, ◌++◌, map, arith, ltb, length,
  Result, ok, err, Text,
}
use mathlib.Core.List.{append_assoc}
use fastconf.Base.{if_cases}
use fastconf.Base.Int.{pos}
use fastconf.Codec.{Registry}
use fastconf.Scan.Files.{FileSystem}
use fastconf.Scan.Layers.{
  Options, Layer, ScanError, collect_dir, with_defaults, band_axis, band_file_base,
  band_file_overlay, base_band_width,
}
use fastconf.Scan.Windows.{
  RisesFrom, RisesFrom-append, RisesFrom-widen, collect_dir-RisesFrom,
  collect_profile_overlays-Within, Within,
}
use fastconf.Scan.{
  if_profiles, ScanEvent, visits, yields, fails, scan_extras, scan_overlays, scan, overlay_events,
  base_events, sort_axes,
}

unfoldable pub layers_of : List ScanEvent → List Layer
layers_of [] = []
layers_of (yields l ∷ events) = l ∷ layers_of events
layers_of (visits dir ∷ events) = layers_of events
layers_of (fails e ∷ events) = layers_of events

pub layers_of-yields :
    (ls : List Layer) (rest : List ScanEvent)
    → layers_of (map yields ls ++ rest) ≡ ls ++ layers_of rest
unfolding layers_of
layers_of-yields [] rest = refl
layers_of-yields (l ∷ ls) rest = ap (λ x. l ∷ x) (layers_of-yields ls rest)

pub layers_of-visits :
    (dirs : List Text) (rest : List ScanEvent)
    → layers_of (map visits dirs ++ rest) ≡ layers_of rest
unfolding layers_of
layers_of-visits [] rest = refl
layers_of-visits (d ∷ dirs) rest = layers_of-visits dirs rest

module _ {D : Type 0} (registry : Registry D) (fs : FileSystem) (root : Text)
    (decode_match : Text → Result Text Text) where
  -- The layers of `opt`'s extra axes, as they are scanned.
  abbrev pub extras_of : Options → List Layer
  extras_of opt = layers_of (scan_extras registry fs root opt (sort_axes opt.axis_overlays))

  -- Layers up to the axes that rise from `b` on, then those of the axes or none.
  abbrev pub HasParts : ℕ → Options → List Layer → Type 0
  HasParts b opt ls =
      (xs : List Layer) × (ys : List Layer) × (ls ≡ xs ++ ys)
      × RisesFrom b band_axis xs
      × ((ys ≡ []) ⊎ (ys ≡ extras_of opt))

  overlay_events-HasParts :
      (opt : Options) (dirs : List Text) (r : Result ScanError (List Layer)) (rest : List ScanEvent)
      → Within band_file_overlay r
      → layers_of rest ≡ extras_of opt
      → HasParts band_file_overlay opt (layers_of (overlay_events (dirs, r) rest))
  unfolding layers_of
  overlay_events-HasParts opt dirs (err x) rest h k =
      ([], [], layers_of-visits dirs (fails x ∷ []), ground arith, inl refl)
  overlay_events-HasParts opt dirs (ok ls) rest h k = (
    ls,
    extras_of opt,
    layers_of-visits dirs _ ∙ (layers_of-yields ls rest ∙ rw k refl),
    h,
    inr refl,
  )

  if_profiles-HasParts :
      (opt : Options) (names : List Text) (c : List Text × Result ScanError (List Layer))
      → Within band_file_overlay c.1
      → HasParts band_file_overlay opt (
          layers_of
            (if_profiles names c (scan_extras registry fs root opt (sort_axes opt.axis_overlays))))
  if_profiles-HasParts opt [] c h = ([], extras_of opt, refl, ground arith, inr refl)
  if_profiles-HasParts opt (name ∷ names) (dirs, r) h = overlay_events-HasParts opt dirs r _ h refl

  scan_overlays-HasParts :
      (opt : Options)
      → HasParts band_file_overlay opt (layers_of (scan_overlays registry fs root decode_match opt))
  unfolding scan_overlays
  scan_overlays-HasParts opt =
      if_profiles-HasParts opt opt.profiles _
        (collect_profile_overlays-Within registry fs root decode_match opt)

  -- The base layers before what follows them.
  append-HasParts :
      (opt : Options) (ls ms : List Layer)
      → length ls ≤ base_band_width
      → RisesFrom band_file_base (band_file_base + length ls) ls
      → HasParts band_file_overlay opt ms
      → HasParts band_file_base opt (ls ++ ms)
  append-HasParts opt ls ms w h (xs, ys, e, r, k) = (
    ls ++ xs,
    ys,
    ap (λ l. ls ++ l) e ∙ sym (append_assoc ls xs ys),
    RisesFrom-append _ band_file_overlay _ ls xs
        (RisesFrom-widen _ _ _ _ ls (ground arith) (omega arith) h) r,
    k,
  )

  base_events-HasParts :
      (opt : Options) (r : Result ScanError (List Layer))
      → ((ls : List Layer) → r ≡ ok ls → RisesFrom band_file_base (band_file_base + length ls) ls)
      → HasParts band_file_base opt (layers_of (base_events registry fs root decode_match opt r))
  unfolding layers_of
  base_events-HasParts opt (err x) h = ([], [], refl, ground arith, inl refl)
  base_events-HasParts opt (ok ls) h =
      if_cases (λ es. HasParts band_file_base opt (layers_of es)) (ltb base_band_width (length ls))
        _ _ (λ e. ([], [], refl, ground arith, inl refl))
        (λ e.
          rw layers_of-yields
            (append-HasParts opt ls _ (ground arith) (h ls refl) (scan_overlays-HasParts opt)))

  pub scan-HasParts :
      (opt : Options)
      → HasParts band_file_base
          (with_defaults opt)
          (layers_of (scan registry fs root decode_match opt))
  unfolding scan layers_of
  scan-HasParts opt =
      let o = with_defaults opt in
      base_events-HasParts o (collect_dir registry fs root o o.base_dir [] (pos band_file_base))
        (λ ls. collect_dir-RisesFrom registry fs root o o.base_dir [] band_file_base ls)
