-- ===== src/Confmap/Tests.antt =====
-- Runs and instances: trees, merges and patches of a small server configuration.
use fastconf.Base.{
  ℕ, ◌+◌, ◌≡◌, refl, ◌≢◌, true, false, none, some, List, [], ◌∷◌, ok, Text, codes, text_eq, split,
}
use fastconf.Confmap.Value.{
  float, Value, Fields, null, bool, str, num, arr, obj, nil, cons, end, entry, field, put_field,
  as_map,
}
use fastconf.Confmap.Path.{get, set, delete, walk}
use fastconf.Confmap.Path.Laws.{diverges, get-set, get-delete}
use fastconf.Confmap.Deep.{Options, deep_at, deep, merge_scalar}
use fastconf.Confmap.Deep.ByKey.{deep_at_by_key, merged_at}
use fastconf.Confmap.Deep.Paths.{leaf_wins}
use fastconf.Confmap.Deep.Total.{deep_total}
use fastconf.Confmap.Pointer.{text, pointer}
use fastconf.Confmap.Pointer.Escapes.{write_pointer, pointer-write}
use fastconf.Confmap.Patch.{apply_op, PatchOp, edit_at, add_to, run_op, ops, apply_patch}

abbrev port : ℕ → Value
port n = num (record { kind = float; literal = b'8' ∷ (n + b'0') ∷ [] })

-- {"server": {"port": 80, "host": "a"}, "tags": ["x"]}
abbrev base_tree : Fields
base_tree =
    entry (codes "server")
      (obj (entry (codes "port") (port 0) (entry (codes "host") (str (codes "a")) end)))
      (entry (codes "tags") (arr (cons (str (codes "x")) nil)) end)

-- {"server": {"port": 81}, "debug": true}
abbrev overlay : Fields
overlay =
    entry (codes "server") (obj (entry (codes "port") (port 1) end))
      (entry (codes "debug") (bool true) end)

abbrev merged_tree : Fields
merged_tree =
    entry (codes "server")
      (obj (entry (codes "port") (port 1) (entry (codes "host") (str (codes "a")) end)))
      (entry (codes "tags") (arr (cons (str (codes "x")) nil))
        (entry (codes "debug") (bool true) end))

abbrev strict_options : Options
strict_options = record { append_slices = false; strict = true; merge_keys = [] }

abbrev lax_options : Options
lax_options = record { append_slices = false; strict = false; merge_keys = [] }

merge_run : deep_at strict_options [] base_tree overlay ≡ ok merged_tree
unfolding deep_at field text_eq merge_scalar put_field
merge_run = refl

abbrev server_port : List Text
server_port = codes "server" ∷ codes "port" ∷ []

get-set_example :
    get (set base_tree server_port (bool true)) (codes "server" ∷ codes "port" ∷ [])
    ≡ walk (bool true) []
get-set_example = get-set base_tree (codes "server") (codes "port" ∷ []) [] (bool true)

get-delete_example :
    (get (delete base_tree server_port) server_port ≡ none)
    × ((qs : List Text)
        → diverges server_port qs ≡ true
        → get (delete base_tree server_port) qs ≡ get base_tree qs)
get-delete_example = get-delete base_tree server_port

cons-ne : (codes "server.port") ≢ []
cons-ne h = cc

deep_at_by_key_example :
    merged_at strict_options
      (codes "server")
      (field (codes "server") base_tree)
      (field (codes "server") overlay)
    ≡ ok (field (codes "server") merged_tree)
unfolding field text_eq
deep_at_by_key_example =
    deep_at_by_key strict_options [] base_tree overlay merged_tree (codes "server")
      (refl, (refl, tt)) merge_run

leaf_wins_example : walk (obj merged_tree) server_port ≡ some (port 1)
unfolding field walk text_eq as_map
leaf_wins_example =
    leaf_wins strict_options [] base_tree overlay merged_tree (codes "server") (codes "port" ∷ [])
      (port 1) (refl, (refl, tt)) (((refl, tt), (tt, tt)), (tt, tt)) merge_run refl refl

deep_total_example :
    (r : Fields) × (deep lax_options (some base_tree) (entry (codes "tags") null end) ≡ ok (some r))
deep_total_example = deep_total lax_options base_tree (entry (codes "tags") null end) refl

pointer-write_example :
    pointer (text (write_pointer (codes "a/b" ∷ codes "~1" ∷ [])))
    ≡ ok (codes "a/b" ∷ codes "~1" ∷ [])
pointer-write_example = pointer-write (codes "a/b" ∷ codes "~1" ∷ [])

abbrev patched_tree : Value
patched_tree = obj (
    entry (codes "server")
      (obj (entry (codes "port") (port 2) (entry (codes "host") (str (codes "a")) end)))
      (entry (codes "tags") (arr (cons (str (codes "x")) nil)) end))

edit_run : edit_at (obj base_tree) server_port (add_to (port 2)) ≡ ok patched_tree
unfolding edit_at add_to put_field field text_eq
edit_run = refl

abbrev add_port : PatchOp
add_port = record {
  op = text (codes "add");
  path = text (codes "/server/port");
  from = text [];
  value = some (port 2);
}

add_run : run_op (obj base_tree) add_port (codes "add") server_port ≡ ok patched_tree
unfolding run_op add_to put_field field text_eq edit_at
add_run = refl

abbrev removed_tree : Value
removed_tree = obj (
    entry (codes "server") (obj (entry (codes "host") (str (codes "a")) end))
      (entry (codes "tags") (arr (cons (str (codes "x")) nil)) end))

patch_run :
    apply_patch base_tree (ops (add_port ∷ []))
    ≡ ok (
        entry
          (codes "server")
          (obj (entry (codes "port") (port 2) (entry (codes "host") (str (codes "a")) end)))
          (entry (codes "tags") (arr (cons (str (codes "x")) nil)) end))
unfolding apply_patch apply_op run_op pointer add_to put_field field text_eq split edit_at
patch_run = refl
