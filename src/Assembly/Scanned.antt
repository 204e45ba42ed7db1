-- ===== src/Assembly/Scanned.antt =====
-- assemble.go: the files that a scan found, as layers, and their place among all layers.
use fastconf.Codec.{Registry}
use fastconf.Scan.Files.{FileSystem}
use fastconf.Scan.Axes.{AxisSpec, resolve_axes}
use fastconf.Scan.{scan}
use fastconf.Scan.Rising.{scan-RisesFrom}
use fastconf.Assembly.Others.{NoFile, sort-NoFile, collect_layers-parts}
use fastconf.Assembly.Order.{assemble-collects}
use fastconf.Base.Int.{ltℤ, pos}
use fastconf.Assembly.{assemble, layer_before}
use fastconf.Scan.Windows.{RisesFrom}
use fastconf.Base.{
  ℕ, suc, ◌<◌, ◌≡◌, refl, sym, ap, ◌∙◌, inl, inr, false, Option, some, List, [], ◌∷◌, ◌++◌, arith,
  All, Result, ok, err, >>=-eq-ok, Text, All-append, All-weaken, Result-cases, ok_eq,
}
use fastconf.Scan.Layers.{band_file_end, band_file_base, Layer, ScanError, Options}
use fastconf.Scan.Parts.{layers_of}
use fastconf.Scan.{ScanEvent, visits, yields, fails}
use fastconf.Assembly.Sorting.{sort_stable, insert_stable}
use fastconf.Assembly.{
  Inputs, pos, ltℤ, Content, StagedLayer, FileLayer, class_file, layer_before, file_layers,
}

module _ {E : Type 0} (wrap : ScanError → E) (decode : Layer → Result E Content) where
  -- What the loop of `assembleFileLayers` gets from a scan; `decode` gives a layer's content.
  unfoldable pub scanned : List ScanEvent → List (Result E (FileLayer E))
  scanned [] = []
  scanned (visits dir ∷ l) = scanned l
  scanned (fails e ∷ l) = err (wrap e) ∷ scanned l
  scanned (yields layer ∷ l) =
      ok (record {
        path = layer.path;
        profile = layer.profile;
        priority = layer.priority;
        codec = layer.codec;
        content = decode layer;
      })
      ∷ scanned l

-- The layers of files, one for each file of the scan and in its order.
abbrev pub IsFileOf : List StagedLayer → List Layer → Type 0
IsFileOf [] [] = Unit
IsFileOf (s ∷ ss) (l ∷ ls) =
    (s.src.path ≡ l.path)
    × (s.class_priority ≡ l.priority)
    × (s.class ≡ class_file)
    × IsFileOf ss ls
IsFileOf _ _ = ⊥

module _ {E : Type 0} (wrap : ScanError → E) (decode : Layer → Result E Content) where
  file_layers-IsFileOf :
      (events : List ScanEvent) (files : List StagedLayer)
      → file_layers (scanned wrap decode events) ≡ ok files
      → IsFileOf files (layers_of events)
  unfolding scanned file_layers layers_of
  file_layers-IsFileOf [] files h = rw (sym (ok_eq h)) tt
  file_layers-IsFileOf (visits dir ∷ l) files h = file_layers-IsFileOf l files h
  file_layers-IsFileOf (fails e ∷ l) files h = cc
  file_layers-IsFileOf (yields layer ∷ l) files h = elim (Result-cases (decode layer)) [
    | inr (x, e) ↦ cc (rw (e, file_layers) at h)
    | inl (c, e) ↦
        let (more, rest, all) =
          >>=-eq-ok (file_layers (scanned wrap decode l)) _ (rw (e, file_layers) at h) in
        rw (sym (ok_eq all)) (refl, refl, refl, file_layers-IsFileOf l more rest)
  ]

insert-front :
    (x : StagedLayer) (l : List StagedLayer)
    → All (λ y. layer_before y x ≡ false) l
    → insert_stable layer_before x l ≡ x ∷ l
unfolding insert_stable
insert-front x [] h = refl
insert-front x (y ∷ l) h = rw h.0 refl

-- Another class does not come before a file.
NoFile-after : (x y : StagedLayer) → x.class ≡ class_file → NoFile y → layer_before y x ≡ false
unfolding layer_before
NoFile-after x y h k = rw h (ground arith)

file-after :
    (x y : StagedLayer) (p q : ℕ)
    → x.class ≡ class_file
    → x.class_priority ≡ pos p
    → y.class ≡ class_file
    → y.class_priority ≡ pos q
    → p < q
    → layer_before y x ≡ false
unfolding layer_before ltℤ
file-after x y p q h e k d w = rw (h, e, k, d) (ground arith)

files-after :
    (x : StagedLayer) (p low high : ℕ) (ss : List StagedLayer) (ls : List Layer)
    → x.class ≡ class_file
    → x.class_priority ≡ pos p
    → p < low
    → IsFileOf ss ls
    → RisesFrom low high ls
    → All (λ y. layer_before y x ≡ false) ss
files-after x p low high [] ls h e w f r = tt
files-after x p low high (s ∷ ss) [] h e w f r = absurd f
files-after x p low high (s ∷ ss) (l ∷ ls) h e w (path, priority, class', f) (q, d, a, r) = (
  file-after x s p q h e class' (priority ∙ d) (omega arith),
  files-after x p (suc q) high ss ls h e (omega arith) f r,
)

-- Files with rising priorities stay in front, in their order.
sort-files :
    (low high : ℕ) (ss : List StagedLayer) (ls : List Layer) (rest : List StagedLayer)
    → IsFileOf ss ls
    → RisesFrom low high ls
    → All NoFile rest
    → sort_stable layer_before (ss ++ rest) ≡ ss ++ sort_stable layer_before rest
unfolding sort_stable
sort-files low high [] ls rest f r n = refl
sort-files low high (s ∷ ss) [] rest f r n = absurd f
sort-files low high (s ∷ ss) (l ∷ ls) rest (path, priority, class', f) (p, e, a, r) n =
    ap (insert_stable layer_before s) (sort-files (suc p) high ss ls rest f r n)
    ∙ insert-front s (ss ++ sort_stable layer_before rest) (
        All-append _ ss (sort_stable layer_before rest)
          (files-after s p (suc p) high ss ls class' (priority ∙ e) (omega arith) f r)
          (All-weaken NoFile _ (sort_stable layer_before rest) (λ y k. NoFile-after s y class' k)
            (sort-NoFile rest n)))

module _ {D : Type 0} (registry : Registry D) (fs : FileSystem) (root : Text)
    (decode_match : Text → Result Text Text) (lookup_env : Text → Option Text)
    (host : Result Text Text) where
  -- The events of a scan with the extra axes that ResolveAxes selects.
  abbrev pub axes_scan : Options → List AxisSpec → List ScanEvent
  axes_scan opt specs =
      scan registry fs root decode_match
        (record opt { axis_overlays = (resolve_axes lookup_env host specs).0 })

module _ {E : Type 0} (wrap : ScanError → E) (decode : Layer → Result E Content) where
  assemble-files :
      (i : Inputs E) (events : List ScanEvent) (staged : List StagedLayer)
      → i.discovery ≡ some (ok (scanned wrap decode events))
      → RisesFrom band_file_base band_file_end (layers_of events)
      → All NoFile i.extra
      → assemble i ≡ ok staged
      → (files : List StagedLayer) × (others : List StagedLayer) × (staged ≡ files ++ others)
        × IsFileOf files (layers_of events)
        × All NoFile others
  assemble-files i events staged d r n h =
      let (all, collected, sorted) = assemble-collects i staged h in
      let (files, others, found, parts, none_file) =
        collect_layers-parts i (scanned wrap decode events) all d n collected in
      let of_scan = file_layers-IsFileOf wrap decode events files found in
      (
        files,
        sort_stable layer_before others,
        sorted
            ∙ (ap (sort_stable layer_before) parts
                ∙ sort-files band_file_base band_file_end files (layers_of events) others of_scan r
                    none_file),
        of_scan,
        sort-NoFile others none_file,
      )

  module _ {D : Type 0} (registry : Registry D) (fs : FileSystem) (root : Text)
      (decode_match : Text → Result Text Text) (lookup_env : Text → Option Text)
      (host : Result Text Text) where
    -- When assemble succeeds on what a scan with resolved axes found, and no extra layer is a file's:
    -- the layers begin with those of the scanned files, one for each and in the order of the scan,
    -- and no layer after them is a file's.
    pub assemble-scan :
        (i : Inputs E) (opt : Options) (specs : List AxisSpec) (staged : List StagedLayer)
        → i.discovery
          ≡ some (
              ok (
                scanned wrap decode
                  (axes_scan registry fs root decode_match lookup_env host opt specs)))
        → All NoFile i.extra
        → assemble i ≡ ok staged
        → (files : List StagedLayer) × (others : List StagedLayer) × (staged ≡ files ++ others)
          × IsFileOf files
              (layers_of (axes_scan registry fs root decode_match lookup_env host opt specs))
          × All NoFile others
    assemble-scan i opt specs staged d n h =
        assemble-files i (axes_scan registry fs root decode_match lookup_env host opt specs) staged
          d (scan-RisesFrom lookup_env host registry fs root decode_match opt specs) n h
