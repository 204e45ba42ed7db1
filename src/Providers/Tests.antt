-- ===== src/Providers/Tests.antt =====
-- Runs and instances: retries, replaced keys, a .env file and an environment.
use fastconf.Base.{
  ◌≡◌, refl, true, false, Option, none, some, List, [], ◌∷◌, map, arith, ok, err, Text, codes, join,
  ◌++◌,
}
use fastconf.Confmap.Value.{Value, Fields, end, entry, str, obj}
use fastconf.Confmap.Path.{get}
use fastconf.Confmap.Labels.{expand_labels, label_texts, LabelOptions}
use fastconf.Providers.Shared.{Backoff, delays, reset_delay, maybe_coerce}
use fastconf.Providers.Env.{Provider, dot_replacer, double_underscore_replacer, load_env, key_path}
use fastconf.Providers.Keys.{key_parts, dot_replacer-join}
use fastconf.Providers.Variables.{variable, load_env-get}
use fastconf.Providers.Dotenv.{EnvPair, parse_dotenv, unterminated_double, at_line}
use fastconf.Providers.Escapes.{escape}
use fastconf.Providers.Quoted.{write_pair, parse_dotenv-write}

abbrev retries : Backoff
retries = record { shortest = 1; longest = 6; cur = 4 }

delays_run : delays 4 (reset_delay retries) ≡ 1 ∷ 2 ∷ 4 ∷ 6 ∷ []
unfolding delays reset_delay
delays_run = refl

dot_replacer-join_example :
    dot_replacer (codes "__DB.Max_") ≡ join b'.' (key_parts (codes "__DB.Max_"))
dot_replacer-join_example = dot_replacer-join (codes "__DB.Max_")

dot_replacer_run : dot_replacer (codes "__DB.Max_") ≡ codes "db.max"
unfolding dot_replacer
dot_replacer_run = refl

double_underscore_run : double_underscore_replacer (codes "DB__MAX_SIZE") ≡ codes "db.max_size"
unfolding double_underscore_replacer fastconf.Confmap.Labels.split_from
double_underscore_run = refl

abbrev pairs : List EnvPair
pairs =
    record { key = codes "APP_PORT"; value = codes "80" }
    ∷ record { key = codes "NAME"; value = codes " a\"b\n" }
    ∷ []

parse_dotenv-write_example : parse_dotenv (join 10 (map write_pair pairs)) ≡ ok pairs
parse_dotenv-write_example = parse_dotenv-write pairs (
  ((λ e. cc, refl), unfold escape in ground arith),
  (((λ e. cc, refl), unfold escape in ground arith), tt),
)

dotenv_run :
    parse_dotenv (codes "# note\nexport A='x y'\nB = z \t\nC")
    ≡ ok (
        record { key = codes "A"; value = codes "x y" }
        ∷ record { key = codes "B"; value = codes " z" }
        ∷ [])
unfolding parse_dotenv
dotenv_run = refl

unterminated_run : parse_dotenv (codes "A=1\nB=\"x") ≡ err (at_line 2 unterminated_double)
unfolding parse_dotenv
unterminated_run = refl

abbrev no_float : Text → Option Value
no_float s = none

abbrev app : Provider
app = record {
  prefix = codes "APP_";
  coerces = false;
  replacer = dot_replacer;
  root = codes "env" ∷ [];
}

app_path :
    key_path (codes "APP_") dot_replacer (codes "APP_DB_URL") ≡ some (codes "db" ∷ codes "url" ∷ [])
unfolding key_path dot_replacer
app_path = refl

load_env-get_example :
    get
      (load_env no_float app (codes "APP_DB=x" ∷ variable (codes "APP_DB_URL") (codes "y") ∷ []))
      (codes "env" ∷ codes "db" ∷ codes "url" ∷ [])
    ≡ some (maybe_coerce no_float (codes "y") false)
load_env-get_example =
    load_env-get no_float app (codes "APP_DB=x" ∷ []) (codes "APP_DB_URL") (codes "y") (codes "db")
      (codes "url" ∷ []) refl app_path

abbrev routing : LabelOptions
routing = record {
  prefix = codes "routing";
  strip_prefix = true;
  separator = [];
  separators = codes "/" ∷ codes "." ∷ [];
  coerces = true;
}

labels_run :
    expand_labels no_float (label_texts (codes "routing.a/b.c=true" ∷ codes "x=1" ∷ [])) routing
    ≡ entry
        (codes "a")
        (obj (entry (codes "b") (obj (entry (codes "c") (Value.bool true) end)) end))
        end
unfolding expand_labels fastconf.Confmap.Value.put_field fastconf.Confmap.Value.field
labels_run = refl

-- U+00A0, NAME, U+2003, =1
spaced_run :
    parse_dotenv (194 ∷ 160 ∷ codes "NAME" ++ (226 ∷ 128 ∷ 131 ∷ codes "=1"))
    ≡ ok (record { key = codes "NAME"; value = codes "1" } ∷ [])
unfolding parse_dotenv
spaced_run = refl
