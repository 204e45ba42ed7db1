-- ===== src/Assembly/Others.antt =====
-- assemble.go: the layers that no file gives.
use fastconf.Assembly.{layer_before}
use fastconf.Base.{
  ◌<◌, ◌≡◌, sym, inl, inr, some, List, [], ◌∷◌, ◌++◌, arith, All, Result, ok, >>=-eq-ok, Text,
  All-append, Option-cases, Result-cases, ok_eq,
}
use fastconf.Assembly.Sorting.{sort_stable, All-insert}
use fastconf.Assembly.{
  discovered, Generator, Provider, GeneratedSource, Inputs, collect_layers, generator_layers,
  provider_layers, generated_layers, StagedLayer, FileLayer, class_number, layer_before,
  file_layers,
}

-- Not a file's layer.
abbrev pub NoFile : StagedLayer → Type 0
NoFile s = 0 < class_number s.class

pub sort-NoFile : (l : List StagedLayer) → All NoFile l → All NoFile (sort_stable layer_before l)
unfolding sort_stable
sort-NoFile [] h = tt
sort-NoFile (x ∷ l) h =
    All-insert layer_before NoFile x (sort_stable layer_before l) h.0 (sort-NoFile l h.1)

module _ {E : Type 0} where
  generated_layers-NoFile :
      (name : Text) (l : List (GeneratedSource E)) (out : List StagedLayer)
      → generated_layers name l ≡ ok out
      → All NoFile out
  unfolding generated_layers
  generated_layers-NoFile name [] out h = rw (sym (ok_eq h)) tt
  generated_layers-NoFile name (g ∷ l) out h = elim (Result-cases g.decoded) [
    | inr (x, e) ↦ cc (rw (e, generated_layers) at h)
    | inl (m, e) ↦
        let (more, rest, all) =
          >>=-eq-ok (generated_layers name l) _ (rw (e, generated_layers) at h) in
        rw (sym (ok_eq all)) (ground arith, generated_layers-NoFile name l more rest)
  ]

  generator_layers-NoFile :
      (l : List (Generator E)) (out : List StagedLayer)
      → generator_layers l ≡ ok out
      → All NoFile out
  unfolding generator_layers
  generator_layers-NoFile [] out h = rw (sym (ok_eq h)) tt
  generator_layers-NoFile (g ∷ l) out h = elim (Result-cases g.generated) [
    | inr (x, e) ↦ cc (rw (e, generator_layers) at h)
    | inl (sources, e) ↦
        let (here, first, rest) =
          >>=-eq-ok (generated_layers g.name sources) _ (rw (e, generator_layers) at h) in
        let (more, others, all) = >>=-eq-ok (generator_layers l) _ rest in
        rw (sym (ok_eq all)) (
          All-append NoFile here more (generated_layers-NoFile g.name sources here first)
            (generator_layers-NoFile l more others))
  ]

  provider_layers-NoFile :
      (l : List (Provider E)) (out : List StagedLayer) → provider_layers l ≡ ok out → All NoFile out
  unfolding provider_layers
  provider_layers-NoFile [] out h = rw (sym (ok_eq h)) tt
  provider_layers-NoFile (p ∷ l) out h = elim (Result-cases p.load) [
    | inr (x, e) ↦ cc (rw (e, provider_layers) at h)
    | inl (snap, e) ↦
        let (more, rest, all) = >>=-eq-ok (provider_layers l) _ (rw (e, provider_layers) at h) in
        rw (sym (ok_eq all)) (elim (Option-cases snap.tree) [
          | inl none' ↦ rw none' (provider_layers-NoFile l more rest)
          | inr (m, is_map) ↦ rw is_map (ground arith, provider_layers-NoFile l more rest)
        ])
  ]

  pub collect_layers-parts :
      (i : Inputs E) (found : List (Result E (FileLayer E))) (all : List StagedLayer)
      → i.discovery ≡ some (ok found)
      → All NoFile i.extra
      → collect_layers i ≡ ok all
      → (files : List StagedLayer) × (others : List StagedLayer) × (file_layers found ≡ ok files)
        × (all ≡ files ++ others)
        × All NoFile others
  unfolding collect_layers
  collect_layers-parts i found all d n h =
      let (files, first, r1) = >>=-eq-ok (discovered i.discovery) _ h in
      let (generated, second, r2) = >>=-eq-ok (generator_layers i.generators) _ r1 in
      let (provided, third, r3) = >>=-eq-ok (provider_layers i.providers) _ r2 in
      (
        files,
        generated ++ (provided ++ i.extra),
        rw d at first,
        sym (ok_eq r3),
        All-append NoFile generated (provided ++ i.extra)
            (generator_layers-NoFile i.generators generated second)
            (All-append NoFile provided i.extra (provider_layers-NoFile i.providers provided third)
              n),
      )
