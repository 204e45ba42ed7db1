-- ===== src/Scan/Axes.antt =====
-- internal/scan/axis.go: the overlays that axes select, and the settings of internal/scan/meta.go.
-- The environment and the host name are parameters.
use fastconf.Base.{
  lacks, ℕ, suc, ◌+◌, ◌*◌, Bool, true, false, not, ◌||◌, Option, none, some, List, [], ◌∷◌, ◌++◌,
  if◌then◌else◌, Result, ok, err, Text, codes, text_eq,
}
use fastconf.Base.Int.{ℤ, pos, ltℤ}
use fastconf.Assembly.Sorting.{sort_stable}
use fastconf.Scan.Paths.{join_path, valid_path}
use fastconf.Scan.Layers.{text_or, Options, AxisOverlay, band_axis, overlay_stride}

pub record AxisSpec : Type 0 where
  pub dir : Text
  pub env : Text
  pub priority : ℤ
  pub from_hostname : Bool

pub data AxisFault : Type 0 where
  no_hostname : Text → AxisFault
  unsafe_value : Text → AxisFault

pub record AxisError : Type 0 where
  pub axis : Text
  pub fault : AxisFault

-- What one axis selects.
pub data AxisValue : Type 0 where
  opted_out : AxisValue
  selected : Text → AxisValue
  axis_failed : AxisFault → AxisValue

-- strings.ContainsAny of `/` and `\`, with the names of the directory itself and its parent
abbrev pub is_unsafe : Text → Bool
is_unsafe value =
    text_eq value (codes ".")
    || (text_eq value (codes "..")
        || (not (lacks b'/' value) || (not (lacks b'\\' value) || not (valid_path value))))

abbrev pub checked_value : Text → AxisValue
checked_value [] = opted_out
checked_value (c ∷ s) =
    if is_unsafe (c ∷ s) then axis_failed (unsafe_value (c ∷ s)) else selected (c ∷ s)

-- The value of an axis whose variable did not give one.
abbrev pub fallback_value : Result Text Text → AxisSpec → AxisValue
fallback_value host ax = elim ax.from_hostname [
  | false ↦ opted_out
  | true ↦ elim host [ err e ↦ axis_failed (no_hostname e) | ok name ↦ checked_value name ]
]

abbrev pub axis_overlay : AxisSpec → Text → ℕ → AxisOverlay
axis_overlay ax value rank = record {
  dir = join_path ax.dir value;
  profile = ax.dir ++ (b':' ∷ value);
  priority = pos (band_axis + rank * overlay_stride);
}

abbrev pub sort_specs : List AxisSpec → List AxisSpec
sort_specs = sort_stable (λ a b. ltℤ a.priority b.priority)

-- What the axis of that rank adds to what those after it give.
abbrev pub add_axis :
    AxisSpec → ℕ → AxisValue → List AxisOverlay × List AxisError → List AxisOverlay × List AxisError
add_axis ax rank opted_out rest = rest
add_axis ax rank (selected value) (overlays, errors) =
    (axis_overlay ax value rank ∷ overlays, errors)
add_axis ax rank (axis_failed fault) (overlays, errors) =
    (overlays, record { axis = ax.dir; fault = fault } ∷ errors)

module _ (lookup_env : Text → Option Text) (host : Result Text Text) where
  unfoldable pub axis_value : AxisSpec → AxisValue
  unfolding valid_path text_eq
  axis_value ax = elim ax.env [
    | [] ↦ fallback_value host ax
    | c ∷ s ↦ elim (lookup_env (c ∷ s)) [
      | none ↦ fallback_value host ax
      | some [] ↦ opted_out
      | some (d ∷ t) ↦ checked_value (d ∷ t)
    ]
  ]

  -- The loop of `ResolveAxes` over the sorted axes.
  unfoldable pub resolve_from : ℕ → List AxisSpec → List AxisOverlay × List AxisError
  unfolding axis_value join_path
  resolve_from rank [] = ([], [])
  resolve_from rank (ax ∷ l) = add_axis ax rank (axis_value ax) (resolve_from (suc rank) l)

  unfoldable pub resolve_axes : List AxisSpec → List AxisOverlay × List AxisError
  unfolding resolve_from sort_stable ltℤ
  resolve_axes specs = resolve_from 0 (sort_specs specs)

-- `MetaSpec`, the members that ApplyTo reads
pub record MetaSpec : Type 0 where
  pub base_dir : Text
  pub overlay_dir : Text
  pub patch_suffixes : List Text
  pub strict : Bool

abbrev pub texts_or : List Text → List Text → List Text
texts_or [] d = d
texts_or (s ∷ l) d = s ∷ l

-- `ApplyTo`
unfoldable pub apply_meta : Option MetaSpec → Options → Options
apply_meta none o = o
apply_meta (some m) o = record o {
  base_dir = text_or m.base_dir o.base_dir;
  overlay_dir = text_or m.overlay_dir o.overlay_dir;
  patch_suffixes = texts_or m.patch_suffixes o.patch_suffixes;
  strict = m.strict || o.strict;
}
