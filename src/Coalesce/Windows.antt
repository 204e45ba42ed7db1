-- ===== src/Coalesce/Windows.antt =====
-- The windows of a coalescer, and the presets of internal/coalesce/profiles.go.
use fastconf.Base.{ℕ, zero, suc, ◌*◌, ◌≤◌, ◌<◌, min, ◌≡◌, refl, arith}
use fastconf.Coalesce.{Options, normalize, or_default, millisecond}

-- `other_profile` is any other number, which `Apply` takes for the default.
pub data Profile : Type 0 where
  k8s local_dev other_profile : Profile

unfoldable pub apply : Profile → Options
apply local_dev = record {
  quiet = 80 * millisecond;
  max_lag = 500 * millisecond;
  swap_hint = 20 * millisecond;
}
apply _ = record {
  quiet = 30 * millisecond;
  max_lag = 250 * millisecond;
  swap_hint = 5 * millisecond;
}

or_default-positive : (n d : ℕ) → 0 < d → 0 < or_default n d
or_default-positive zero d h = h
or_default-positive (suc n) d h = omega arith

or_default-kept : (n d : ℕ) → 0 < n → or_default n d ≡ n
or_default-kept zero d h = absurd (omega arith)
or_default-kept (suc n) d h = refl

min-min : (a b : ℕ) → min (min a b) b ≡ min a b
min-min a b = omega arith

preset_kept : (p : Profile) → normalize (apply p) ≡ apply p
unfolding normalize apply
preset_kept k8s = refl
preset_kept local_dev = refl
preset_kept other_profile = refl

-- Whatever windows are asked for, those that a coalescer uses are positive, a swap waits no longer
-- than other events, and normalizing them again changes nothing; the presets are used as they are.
pub normalize_lem :
    (o : Options) (p : Profile)
    → (0 < (normalize o).quiet)
      × (0 < (normalize o).max_lag)
      × (0 < (normalize o).swap_hint)
      × ((normalize o).swap_hint ≤ (normalize o).quiet)
      × (normalize (normalize o) ≡ normalize o)
      × (normalize (apply p) ≡ apply p)
unfolding normalize
normalize_lem o p =
    let q = or_default-positive o.quiet (30 * millisecond) (omega arith) in
    let l = or_default-positive o.max_lag (250 * millisecond) (omega arith) in
    let s = or_default-positive o.swap_hint (5 * millisecond) (omega arith) in
    let w : 0 < (normalize o).swap_hint = omega (arith, q, s) in
    (
      q,
      l,
      w,
      omega arith,
      rw
          (
            or_default-kept _ (30 * millisecond) q,
            or_default-kept _ (250 * millisecond) l,
            or_default-kept _ (5 * millisecond) w,
            min-min (or_default o.swap_hint (5 * millisecond))
                (or_default o.quiet (30 * millisecond)),
          )
          refl,
      preset_kept p,
    )
