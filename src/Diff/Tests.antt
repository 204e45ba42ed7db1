-- ===== src/Diff/Tests.antt =====
-- Runs and instances: a changed port, a new and a missing key.
use fastconf.Base.{String, ◌≡◌, refl, [], ◌∷◌, All, Text, codes}
use fastconf.Confmap.Value.{Value, Fields, null, str, num, obj, end, entry}
use fastconf.Confmap.Value.{signed}
use fastconf.Confmap.Path.{walk}
use fastconf.Diff.{added, removed, modified, entry_at, diff_maps}
use fastconf.Diff.Reported.{Reports, diff_maps-Reports}

abbrev marshal : Value → Text
marshal (num n) = n.literal
marshal v = []

abbrev port : String → Value
port s = num (record { kind = signed; literal = codes s })

abbrev old_tree : Fields
old_tree =
    entry (codes "db") (obj (entry (codes "port") (port "1") (entry (codes "b") null end)))
      (entry (codes "z") (str (codes "x")) end)

abbrev new_tree : Fields
new_tree =
    entry (codes "z") (str (codes "x"))
      (entry (codes "db") (obj (entry (codes "a") null (entry (codes "port") (port "2") end))) end)

diff_run :
    diff_maps marshal [] old_tree new_tree
    ≡ entry_at (codes "db" ∷ codes "a" ∷ []) added null null
      ∷ entry_at (codes "db" ∷ codes "b" ∷ []) removed null null
      ∷ entry_at (codes "db" ∷ codes "port" ∷ []) modified (port "1") (port "2")
      ∷ []
unfolding diff_maps fastconf.Scan.Paths.utf8_from
diff_run = refl

diff_maps-Reports_example :
    All
      (λ d. Reports marshal d (walk (obj old_tree) d.segs) (walk (obj new_tree) d.segs))
      (diff_maps marshal [] old_tree new_tree)
diff_maps-Reports_example = diff_maps-Reports marshal old_tree new_tree
