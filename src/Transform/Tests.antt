-- ===== src/Transform/Tests.antt =====
-- Runs and instances: `db` moves to `store.url`, and is lost when it moves to `db.url`.
use fastconf.Base.{◌≡◌, refl, ◌≢◌, true, false, [], ◌∷◌, codes, text_eq, split}
use fastconf.Confmap.Value.{Fields, bool, obj, end, entry, field, put_field, delete_field, as_map}
use fastconf.Confmap.Path.{
  walk, get, set, delete, split_path, get_dotted, set_dotted, delete_dotted,
}
use fastconf.Transform.{aliases}
use fastconf.Base.{if◌then◌else◌, Text, List, ok, some}
use fastconf.Confmap.Value.{Value, str, arr, cons, nil}
use fastconf.Transform.EnvSubst.{
  Ref, required, default_to, expand, expand_from, span_name, required_unset, env_subst,
}
use fastconf.Transform.Matched.{Piece, literal, reference, write_pieces, as_error}
use fastconf.Transform.Expanded.{pieces_text, first_missing, expand-pieces}
use fastconf.Transform.Substituted.{Step, key, index, read, Shows, env_subst-read}

-- {"db": true, "debug": false}
abbrev old_tree : Fields
old_tree = entry (codes "db") (bool true) (entry (codes "debug") (bool false) end)

aliases_run :
    aliases ((codes "db", codes "store.url") ∷ []) old_tree
    ≡ entry
        (codes "debug")
        (bool false)
        (entry (codes "store") (obj (entry (codes "url") (bool true) end)) end)
unfolding aliases get_dotted set_dotted delete_dotted set delete split_path split field put_field
    delete_field text_eq get walk as_map
aliases_run = refl

db-ne : split_path (codes "db") ≢ []
unfolding split_path split
db-ne h = cc

abbrev host_only : Text → Text
host_only name = if text_eq name (codes "HOST") then codes "db-${X}" else []

abbrev db_ref : Ref
db_ref = record { name = codes "HOST"; op = required; body = [] }

abbrev port_ref : Ref
port_ref = record { name = codes "PORT"; op = default_to; body = codes "5432" }

abbrev url_pieces : List Piece
url_pieces =
    literal (codes "tcp://") ∷ reference db_ref ∷ literal (codes ":") ∷ reference port_ref ∷ []

expand-pieces_example :
    expand host_only (write_pieces url_pieces)
    ≡ (pieces_text host_only url_pieces, as_error (first_missing host_only url_pieces))
expand-pieces_example =
    expand-pieces host_only url_pieces
      (refl, (((refl, refl), refl), (refl, (((refl, refl), refl), tt))))

expand_run :
    (expand host_only (codes "$HOST ${HOST:?} ${PORT:-5432} ${1} ${A:+b} ${X:?no x}")).1
    ≡ some (required_unset (codes "X") (codes "no x"))
unfolding expand_from span_name text_eq
expand_run = refl

expanded_run :
    (expand host_only (codes "$HOST ${HOST:?} ${PORT:-5432} ${1} ${A:+b}")).0
    ≡ codes "$HOST db-${X} 5432 ${1} ${A:+b}"
unfolding expand_from span_name text_eq
expanded_run = refl

abbrev url_list : Text → Value
url_list s = arr (cons (str s) (cons (bool true) nil))

abbrev url_tree : Fields
url_tree = entry (codes "db") (obj (entry (codes "urls") (url_list (codes "//${HOST}")) end)) end

abbrev expanded_tree : Fields
expanded_tree =
    entry (codes "db") (obj (entry (codes "urls") (url_list (codes "//db-${X}")) end)) end

env_subst_run : env_subst host_only url_tree ≡ ok expanded_tree
unfolding env_subst span_name text_eq
env_subst_run = refl

abbrev to_url : List Step
to_url = key (codes "db") ∷ key (codes "urls") ∷ index 0 ∷ []

env_subst-read_example :
    Shows host_only (read (obj url_tree) to_url) (read (obj expanded_tree) to_url)
env_subst-read_example = env_subst-read host_only url_tree expanded_tree to_url env_subst_run
