-- ===== src/Scan/Rising.antt =====
-- The priorities of all layers that a scan yields.
use fastconf.Base.{
  All-append, ℕ, suc, ◌+◌, ◌-◌, ◌*◌, ◌≤◌, ◌<◌, ◌≡◌, refl, sym, ◌∙◌, inl, inr, false, ◌||◌, Option,
  List, [], ◌∷◌, ◌++◌, arith, ltb, length, All, Result, ok, err, Text,
}
use fastconf.Base.{if_cases}
use fastconf.Base.Int.{ℤ, pos, negsuc, ltℤ}
use fastconf.Assembly.Sorting.{sort_stable, insert_stable}
use fastconf.Codec.{Registry}
use fastconf.Scan.Files.{FileSystem}
use fastconf.Scan.Layers.{
  Options, Layer, AxisOverlay, ScanError, collect_dir, with_defaults, band_axis, band_file_base,
  band_file_end, overlay_stride,
}
use fastconf.Scan.Axes.{
  add_axis, AxisValue, AxisError, AxisSpec, resolve_from, resolve_axes, sort_specs, opted_out,
  selected, axis_failed,
}
use fastconf.Scan.Windows.{RisesFrom, RisesFrom-append, RisesFrom-widen, collect_dir-RisesFrom}
use fastconf.Scan.Parts.{layers_of, layers_of-yields, scan-HasParts}
use fastconf.Scan.{ScanEvent, scan_extras, extra_layers, scan, sort_axes, out_of_band}

-- Every priority is one of the file bands'.
abbrev pub IsInBands : List Layer → Type 0
IsInBands = All (λ l. (p : ℕ) × (l.priority ≡ pos p) × (band_file_base ≤ p) × (p < band_file_end))

RisesFrom-low : (low high : ℕ) (ls : List Layer) → RisesFrom low high ls → low ≤ high
RisesFrom-low low high [] r = r
RisesFrom-low low high (l ∷ ls) (p, e, a, r) = omega (arith, a, RisesFrom-low (suc p) high ls r)

RisesFrom-IsInBands :
    (low high : ℕ) (ls : List Layer)
    → band_file_base ≤ low
    → high ≤ band_file_end
    → RisesFrom low high ls
    → IsInBands ls
RisesFrom-IsInBands low high [] h k r = tt
RisesFrom-IsInBands low high (l ∷ ls) h k (p, e, a, r) = (
  (p, e, omega arith, omega (arith, k, RisesFrom-low (suc p) high ls r)),
  RisesFrom-IsInBands (suc p) high ls (omega arith) k r,
)

-- The priority of an axis that passes the test.
in_band :
    (x : ℤ)
    → (ltℤ x (pos band_axis) || ltℤ (pos (band_file_end - overlay_stride)) x) ≡ false
    → (p : ℕ) × (x ≡ pos p) × (band_axis ≤ p) × (p + overlay_stride ≤ band_file_end)
unfolding ltℤ
in_band (pos p) h = (p, refl, ground arith, ground arith)
in_band (negsuc p) h = ground arith

abbrev pub IsSpaced : ℕ → List AxisOverlay → Type 0
IsSpaced low [] = Unit
IsSpaced low (x ∷ l) = (p : ℕ) × (x.priority ≡ pos p) × (low ≤ p) × IsSpaced (p + overlay_stride) l

pos_eq : {a b : ℕ} → pos a ≡ pos b → a ≡ b
pos_eq h = cc

module _ {D : Type 0} (registry : Registry D) (fs : FileSystem) (root : Text) where
  -- A property of lists of layers that holds of a scan of extra axes if it holds where the scan ends,
  -- and before each directory's layers.
  extra_layers-cases :
      (P : List Layer → Type 0) (x : AxisOverlay) (r : Result ScanError (List Layer))
      (rest : List ScanEvent)
      → P []
      → ((ls : List Layer) → r ≡ ok ls → length ls ≤ overlay_stride → P (ls ++ layers_of rest))
      → P (layers_of (extra_layers x r rest))
  unfolding layers_of
  extra_layers-cases P x (err e) rest h k = h
  extra_layers-cases P x (ok ls) rest h k =
      if_cases (λ es. P (layers_of es)) (ltb overlay_stride (length ls)) _ _ (λ e. h)
        (λ e. rw layers_of-yields (k ls refl (ground arith)))

  scan_extras-cases :
      (P : List Layer → Type 0) (opt : Options) (x : AxisOverlay) (l : List AxisOverlay)
      → P []
      → ((p : ℕ) (ls : List Layer)
          → x.priority ≡ pos p
          → band_axis ≤ p
          → p + overlay_stride ≤ band_file_end
          → RisesFrom p (p + overlay_stride) ls
          → P (ls ++ layers_of (scan_extras registry fs root opt l)))
      → P (layers_of (scan_extras registry fs root opt (x ∷ l)))
  unfolding scan_extras layers_of
  scan_extras-cases P opt x l h k =
      if_cases (λ es. P (layers_of es)) (out_of_band x) _ _ (λ e. h)
        (λ e.
          let (p, eq, a, b) = in_band x.priority e in
          let here = collect_dir registry fs root opt x.dir x.profile x.priority in
          extra_layers-cases P x here _ h (λ ls (r : here ≡ ok ls) w. k p ls eq a b (
            RisesFrom-widen p p (p + length ls) (p + overlay_stride) ls (omega arith) (omega arith)
              (collect_dir-RisesFrom registry fs root opt x.dir x.profile p ls (rw eq at r)))))

  scan_extras-IsInBands :
      (opt : Options) (l : List AxisOverlay)
      → IsInBands (layers_of (scan_extras registry fs root opt l))
  unfolding scan_extras layers_of
  scan_extras-IsInBands opt [] = tt
  scan_extras-IsInBands opt (x ∷ l) = scan_extras-cases IsInBands opt x l tt (λ p ls e a b r.
      All-append _ ls _ (RisesFrom-IsInBands p (p + overlay_stride) ls (omega arith) b r)
        (scan_extras-IsInBands opt l))

  scan_extras-RisesFrom :
      (opt : Options) (low : ℕ) (l : List AxisOverlay)
      → low ≤ band_file_end
      → IsSpaced low l
      → RisesFrom low band_file_end (layers_of (scan_extras registry fs root opt l))
  unfolding scan_extras layers_of
  scan_extras-RisesFrom opt low [] w s = w
  scan_extras-RisesFrom opt low (x ∷ l) w (q, e, a, s) =
      scan_extras-cases (RisesFrom low band_file_end) opt x l w (λ p ls d c b r.
        let same : p ≡ q = pos_eq (sym d ∙ e) in
        RisesFrom-append low (p + overlay_stride) band_file_end ls _
          (RisesFrom-widen p low (p + overlay_stride) _ ls (omega arith) (omega arith) r)
          (scan_extras-RisesFrom opt (p + overlay_stride) l b (rw same s)))

  module _ (decode_match : Text → Result Text Text) where
    -- Whatever the directories hold, also when the scan ends in an error: the priority of every layer
    -- that a scan yields lies in the file bands, from 1000 on and below 7000, where those of
    -- generators and providers begin.
    pub scan-IsInBands :
        (opt : Options) → IsInBands (layers_of (scan registry fs root decode_match opt))
    unfolding with_defaults
    scan-IsInBands opt =
        let (xs, ys, e, r, k) = scan-HasParts registry fs root decode_match opt in
        let first = RisesFrom-IsInBands band_file_base band_axis xs (omega arith) (omega arith) r in
        rw e (
          All-append _ xs ys first (elim k [
            | inl z ↦ rw z tt
            | inr z ↦ rw z (scan_extras-IsInBands (with_defaults opt) (sort_axes opt.axis_overlays))
          ]))

-- Axes that are spaced out are sorted.
sort_axes-same : (low : ℕ) (l : List AxisOverlay) → IsSpaced low l → sort_axes l ≡ l
unfolding sort_stable insert_stable ltℤ
sort_axes-same low [] s = refl
sort_axes-same low (x ∷ []) s = refl
sort_axes-same low (x ∷ y ∷ l) (p, e, a, (q, d, b, s)) =
    rw (sort_axes-same (p + overlay_stride) (y ∷ l) (q, d, b, s), e, d) (ground arith)

IsSpaced-low : (low high : ℕ) (l : List AxisOverlay) → low ≤ high → IsSpaced high l → IsSpaced low l
IsSpaced-low low high [] h s = tt
IsSpaced-low low high (x ∷ l) h (p, e, a, s) = (p, e, omega arith, s)

add_axis-IsSpaced :
    (ax : AxisSpec) (rank : ℕ) (v : AxisValue) (rest : List AxisOverlay × List AxisError)
    → IsSpaced (band_axis + suc rank * overlay_stride) rest.0
    → IsSpaced (band_axis + rank * overlay_stride) (add_axis ax rank v rest).0
add_axis-IsSpaced ax rank opted_out rest s = IsSpaced-low _ _ rest.0 (omega arith) s
add_axis-IsSpaced ax rank (selected value) (overlays, errors) s = (
  band_axis + rank * overlay_stride,
  refl,
  omega arith,
  IsSpaced-low _ _ overlays (omega arith) s,
)
add_axis-IsSpaced ax rank (axis_failed fault) (overlays, errors) s =
    IsSpaced-low _ _ overlays (omega arith) s

module _ (lookup_env : Text → Option Text) (host : Result Text Text) where
  resolve_from-IsSpaced :
      (rank : ℕ) (l : List AxisSpec)
      → IsSpaced (band_axis + rank * overlay_stride) (resolve_from lookup_env host rank l).0
  unfolding resolve_from
  resolve_from-IsSpaced rank [] = tt
  resolve_from-IsSpaced rank (ax ∷ l) =
      add_axis-IsSpaced ax rank _ _ (resolve_from-IsSpaced (suc rank) l)

  resolve_axes-IsSpaced :
      (specs : List AxisSpec) → IsSpaced band_axis (resolve_axes lookup_env host specs).0
  unfolding resolve_axes
  resolve_axes-IsSpaced specs =
      IsSpaced-low _ _ _ (omega arith) (resolve_from-IsSpaced 0 (sort_specs specs))

  module _ {D : Type 0} (registry : Registry D) (fs : FileSystem) (root : Text)
      (decode_match : Text → Result Text Text) where
    -- With the extra axes that ResolveAxes selects, whatever their number, and also when the scan ends
    -- in an error: the layers that a scan yields have strictly rising priorities in the file bands.
    pub scan-RisesFrom :
        (opt : Options) (specs : List AxisSpec)
        → RisesFrom band_file_base band_file_end (
            layers_of (
              scan registry fs root decode_match
                (record opt { axis_overlays = (resolve_axes lookup_env host specs).0 })))
    unfolding with_defaults
    scan-RisesFrom opt specs =
        let axes = (resolve_axes lookup_env host specs).0 in
        let o = record opt { axis_overlays = axes } in
        let (xs, ys, e, r, k) = scan-HasParts registry fs root decode_match o in
        let spaced = resolve_axes-IsSpaced specs in
        rw e (
          RisesFrom-append band_file_base band_axis band_file_end xs ys r (elim k [
            | inl z ↦ rw z (omega arith)
            | inr z ↦
                rw (z, sort_axes-same band_axis axes spaced)
                  (scan_extras-RisesFrom registry fs root (with_defaults o) band_axis axes
                    (omega arith) spaced)
          ]))
