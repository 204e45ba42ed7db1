-- ===== src/Scan/Windows.antt =====
-- The priorities of the layers of directories and overlays: each keeps to its window.
use fastconf.Scan.Overlays.{global_expr, collect_profile_overlays}
use fastconf.Profile.{new_profile_set}
use fastconf.Scan.Layers.{band_file_overlay}
use fastconf.Scan.Overlays.{add_overlay, Collected}
use fastconf.Scan.Layers.{sort_entries, missing_dir}
use fastconf.Scan.Files.{FsError, not_exist, fs_failed}
use fastconf.Base.{◌∙◌, sym}
use fastconf.Scan.Files.{read_regular_file}
use fastconf.Base.{if_cases, Result-cases, Option-cases, ok_eq}
use fastconf.Scan.Paths.{join_path}
use fastconf.Base.{
  ℕ, suc, ◌+◌, ◌-◌, ◌*◌, ◌≤◌, ◌<◌, ◌≡◌, refl, sym, ◌∙◌, inl, inr, true, false, Option, none, some,
  List, [], ◌∷◌, ◌++◌, arith, ltb, leb, Bool-cases, length, Result, ok, err, ◌>>=◌, >>=-eq-ok, Text,
}
use fastconf.Base.{if_cases, Result-cases, Option-cases, ok_eq}
use fastconf.Base.Int.{ℤ, pos, ◌+ℤ◌}
use fastconf.Codec.{Registry}
use fastconf.Profile.{ProfileSet}
use fastconf.Scan.Paths.{join_path}
use fastconf.Scan.Files.{FileSystem, DirEntry}
use fastconf.Scan.Layers.{
  Options, Layer, ScanError, is_visible, classify, load_entry, collect_entries, collect_dir,
  overlay_stride, band_axis,
}
use fastconf.Scan.Overlays.{overlay_loop, selects}

pub pos_add : (a b : ℕ) → pos a +ℤ pos b ≡ pos (a + b)
unfolding ◌+ℤ◌
pos_add a b = ground arith

leb-false : (a b : ℕ) → leb a b ≡ false → b < a
leb-false a b h = ground arith

-- Strictly rising priorities, from `low` on and below `high`.
abbrev pub RisesFrom : ℕ → ℕ → List Layer → Type 0
RisesFrom low high [] = low ≤ high
RisesFrom low high (l ∷ ls) = (p : ℕ) × (l.priority ≡ pos p) × (low ≤ p) × RisesFrom (suc p) high ls

pub RisesFrom-widen :
    (low low2 high high2 : ℕ) (ls : List Layer)
    → low2 ≤ low
    → high ≤ high2
    → RisesFrom low high ls
    → RisesFrom low2 high2 ls
RisesFrom-widen low low2 high high2 [] h k r = omega arith
RisesFrom-widen low low2 high high2 (l ∷ ls) h k (p, e, a, r) =
    (p, e, omega arith, RisesFrom-widen (suc p) (suc p) high high2 ls (omega arith) k r)

pub RisesFrom-append :
    (low mid high : ℕ) (ls ms : List Layer)
    → RisesFrom low mid ls
    → RisesFrom mid high ms
    → RisesFrom low high (ls ++ ms)
RisesFrom-append low mid high [] ms r q = RisesFrom-widen mid low high high ms r (omega arith) q
RisesFrom-append low mid high (l ∷ ls) ms (p, e, a, r) q =
    (p, e, a, RisesFrom-append (suc p) mid high ls ms r q)

-- The layers of a result, if it has any, rise from `b` on below the axes.
abbrev pub Within : ℕ → Result ScanError (List Layer) → Type 0
Within b (err x) = Unit
Within b (ok ls) = RisesFrom b band_axis ls

Within-append :
    (b c : ℕ) (ls : List Layer) (r : Result ScanError (List Layer))
    → RisesFrom b c ls
    → Within c r
    → Within b (r >>= λ more. ok (ls ++ more))
Within-append b c ls (err x) h k = tt
Within-append b c ls (ok more) h k = RisesFrom-append b c band_axis ls more h k

add_overlay-Within :
    (b : ℕ) (dir sub : Text) (ls : List Layer) (c : Collected)
    → RisesFrom b (b + length ls) ls
    → Within (b + overlay_stride) c.1
    → Within b (add_overlay dir sub ls c).1
add_overlay-Within b dir sub ls (dirs, rest) h k =
    elim (Bool-cases (ltb overlay_stride (length ls))) [
      | inl e ↦ rw e tt
      | inr e ↦ rw e (
          Within-append b (b + overlay_stride) ls rest
            (RisesFrom-widen b b (b + length ls) (b + overlay_stride) ls (omega arith)
              (ground arith) h)
            k)
    ]

module _ {D : Type 0} (registry : Registry D) (fs : FileSystem) where
  abbrev HasPriority : ℤ → Result ScanError (Option Layer) → Type 0
  HasPriority p (err e) = Unit
  HasPriority p (ok none) = Unit
  HasPriority p (ok (some l)) = l.priority ≡ p

  load_entry-HasPriority :
      (opt : Options) (dir profile : Text) (p : ℤ) (e : DirEntry)
      → HasPriority p (load_entry registry fs opt dir profile p e)
  unfolding load_entry
  load_entry-HasPriority opt dir profile p e = elim (Bool-cases (is_visible false e)) [
    | inr h ↦ rw (h, load_entry) tt
    | inl h ↦
        rw (h, load_entry)
          (elim (Option-cases (classify registry e.name opt.patch_suffixes)) [
            | inl k ↦ rw k (if_cases (HasPriority p) opt.strict _ _ (λ x. tt) (λ x. tt))
            | inr ((kind, codec), k) ↦
                rw k (elim (Result-cases (read_regular_file fs (join_path dir e.name) opt.strict)) [
                  | inr (x, r) ↦ rw r tt
                  | inl (none, r) ↦ rw r tt
                  | inl (some t, r) ↦ rw r refl
                ])
          ])
  ]

  -- The layers of one directory are numbered without a gap.
  collect_entries-RisesFrom :
      (opt : Options) (dir profile : Text) (b n : ℕ) (es : List DirEntry) (ls : List Layer)
      → collect_entries registry fs opt dir profile (pos b) n es ≡ ok ls
      → RisesFrom (b + n) (b + n + length ls) ls
  unfolding collect_entries
  collect_entries-RisesFrom opt dir profile b n [] ls h = rw (sym (ok_eq h)) (omega arith)
  collect_entries-RisesFrom opt dir profile b n (e ∷ es) ls h =
      elim (Result-cases (load_entry registry fs opt dir profile (pos b +ℤ pos n) e)) [
        | inr (x, k) ↦ cc
        | inl (none, k) ↦
            collect_entries-RisesFrom opt dir profile b n es ls (rw (k, collect_entries) at h)
        | inl (some l, k) ↦
            let (more, r, q) =
              >>=-eq-ok (collect_entries registry fs opt dir profile (pos b) (suc n) es)
                (λ rest. ok (l ∷ rest)) (rw (k, collect_entries) at h) in
            let rest = collect_entries-RisesFrom opt dir profile b (suc n) es more r in
            let first : l.priority ≡ pos b +ℤ pos n =
              rw k at (load_entry-HasPriority opt dir profile (pos b +ℤ pos n) e) in
            rw (sym (ok_eq q)) (
              b + n,
              first ∙ pos_add b n,
              omega arith,
              RisesFrom-widen (b + suc n) (suc (b + n)) (b + suc n + length more)
                  (b + n + suc (length more)) more (omega arith) (omega arith) rest,
            )
      ]

  module _ (root : Text) where
    missing_dir-empty :
        (opt : Options) (dir profile : Text) (e : FsError) (ls : List Layer)
        → missing_dir opt dir profile e ≡ ok ls
        → ls ≡ []
    missing_dir-empty opt dir profile not_exist ls h = ground arith
    missing_dir-empty opt dir profile (fs_failed x) ls h = cc

    pub collect_dir-RisesFrom :
        (opt : Options) (sub profile : Text) (b : ℕ) (ls : List Layer)
        → collect_dir registry fs root opt sub profile (pos b) ≡ ok ls
        → RisesFrom b (b + length ls) ls
    unfolding collect_dir
    collect_dir-RisesFrom opt sub profile b ls h =
        elim (Result-cases (fs.read_dir (join_path root sub))) [
          | inl (es, k) ↦
              RisesFrom-widen (b + 0) b (b + 0 + length ls) (b + length ls) ls (omega arith)
                (omega arith)
                (collect_entries-RisesFrom opt (join_path root sub) profile b 0 (sort_entries es) ls
                  (rw (k, collect_dir) at h))
          | inr (e, k) ↦
              rw
                (missing_dir-empty opt (join_path root sub) profile e ls (rw (k, collect_dir) at h))
                (omega arith)
        ]

    module _ (decode_match : Text → Result Text Text) where
      -- `m` windows are left.
      overlay_loop-Within :
          (opt : Options) (active : ProfileSet) (global : Option Text) (b m : ℕ)
          (es : List DirEntry)
          → b + m * overlay_stride ≡ band_axis
          → Within b (overlay_loop registry fs root decode_match opt active global b es).1
      unfolding overlay_loop
      overlay_loop-Within opt active global b m [] w = omega arith
      overlay_loop-Within opt active global b m (e ∷ es) w =
          elim (Result-cases (selects registry fs root decode_match opt active global e)) [
            | inr (x, h) ↦ rw (h, overlay_loop) tt
            | inl (false, h) ↦ rw (h, overlay_loop) (overlay_loop-Within opt active global b m es w)
            | inl (true, h) ↦ elim (Bool-cases (leb band_axis b)) [
              | inl k ↦ rw (h, k, overlay_loop) tt
              | inr k ↦
                  let sub = join_path opt.overlay_dir e.name in
                  let after =
                    overlay_loop-Within opt active global (b + overlay_stride) (m - 1) es
                      (omega (arith, w, leb-false band_axis b k)) in
                  elim (Result-cases (collect_dir registry fs root opt sub e.name (pos b))) [
                    | inr (x, r) ↦ rw (h, k, r, overlay_loop) tt
                    | inl (layers, r) ↦
                        rw (h, k, r, overlay_loop)
                          (add_overlay-Within b (join_path root sub) sub layers _
                            (collect_dir-RisesFrom opt sub e.name b layers r) after)
                  ]
            ]
          ]

      pub collect_profile_overlays-Within :
          (opt : Options)
          → Within band_file_overlay (collect_profile_overlays registry fs root decode_match opt).1
      unfolding collect_profile_overlays
      collect_profile_overlays-Within opt =
          elim (Result-cases (fs.read_dir (join_path root opt.overlay_dir))) [
            | inr (not_exist, h) ↦ rw (h, collect_profile_overlays) (ground arith)
            | inr (fs_failed x, h) ↦ rw (h, collect_profile_overlays) tt
            | inl (es, h) ↦
                elim (Result-cases (global_expr opt.global_match (new_profile_set opt.profiles))) [
                  | inr (x, k) ↦ rw (h, k, collect_profile_overlays) tt
                  | inl (global, k) ↦
                      rw (h, k, collect_profile_overlays)
                        (overlay_loop-Within opt (new_profile_set opt.profiles) global
                          band_file_overlay 10 (sort_entries es) refl)
                ]
          ]
