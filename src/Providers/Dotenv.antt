-- ===== src/Providers/Dotenv.antt =====
-- providers/dotenv/dotenv.go: trees from .env files. Reading a file is a parameter, and so is the
-- test whether the process has a variable.
use fastconf.Base.{
  trim_text, has_prefix, trim_prefix, cut, split, ℕ, suc, Bool, true, false, ◌||◌, Option, none,
  some, List, [], ◌∷◌, ◌++◌, ltb, ◌==◌, if◌then◌else◌, length, Result, ok, err, ◌>>=◌, Text, codes,
}
use fastconf.Confmap.Value.{Value, Fields, end}
use mathlib.Core.List.{reverse}
use fastconf.Confmap.Path.{set}
use fastconf.Scan.Files.{FsError, not_exist, fs_failed}
use fastconf.Providers.Shared.{graft_at, maybe_coerce}
use fastconf.Providers.Env.{key_path}

pub data ParseError : Type 0 where
  unterminated_single : ParseError
  unterminated_double : ParseError
  token_too_long : ParseError

pub data LineError : Type 0 where
  at_line : ℕ → ParseError → LineError
  scanner_failed : ParseError → LineError

-- A byte after a backslash; an unknown escape stands for itself.
abbrev pub unescaped : ℕ → Text
unescaped c =
    if c == b'n'
    then 10 ∷ []
    else if c == b't'
    then 9 ∷ []
    else if c == b'"'
    then b'"' ∷ []
    else if c == b'\\'
    then b'\\' ∷ []
    else b'\\' ∷ c ∷ []

abbrev pub prepend : Text → Result ParseError Text → Result ParseError Text
prepend t (ok s) = ok (t ++ s)
prepend t (err e) = err e

-- `parseDoubleQuoted`; the flag tells that a backslash went before.
unfoldable pub double_quoted : Bool → Text → Result ParseError Text
double_quoted escaped [] = err unterminated_double
double_quoted true (c ∷ s) = prepend (unescaped c) (double_quoted false s)
double_quoted false (c ∷ s) =
    let plain = double_quoted false s in
    let after = double_quoted true s in
    if c == b'"' then ok [] else if c == b'\\' then after else prepend (c ∷ []) plain

-- strings.TrimRight(s, " \t")
unfoldable pub drop_blanks : Text → Text
drop_blanks [] = []
drop_blanks (c ∷ s) = if c == b' ' || c == 9 then drop_blanks s else c ∷ s

abbrev pub until_quote : Option (Text × Text) → Result ParseError Text
until_quote none = err unterminated_single
until_quote (some (value, rest)) = ok value

unfoldable pub parse_value : Text → Result ParseError Text
unfolding double_quoted drop_blanks cut
parse_value [] = ok []
parse_value (c ∷ s) =
    if c == b'\''
    then until_quote (cut b'\'' s)
    else if c == b'"'
    then double_quoted false s
    else ok (reverse (drop_blanks (reverse (c ∷ s))))

pub record EnvPair : Type 0 where
  pub key : Text
  pub value : Text

abbrev pub keyed_value : Text → Result ParseError Text → Result ParseError (Option EnvPair)
keyed_value key (ok v) = ok (some (record { key = key; value = v }))
keyed_value key (err e) = err e

abbrev pub keyed_line : Option (Text × Text) → Result ParseError (Option EnvPair)
keyed_line none = ok none
keyed_line (some (before, raw)) = elim (trim_text before) [
  | [] ↦ ok none
  | c ∷ key ↦ keyed_value (c ∷ key) (parse_value raw)
]

-- One trimmed line; blank lines, comments and lines without `=` give no pair.
unfoldable pub parse_trimmed : Text → Result ParseError (Option EnvPair)
unfolding trim_text trim_prefix has_prefix cut parse_value
parse_trimmed [] = ok none
parse_trimmed (c ∷ s) =
    if c == b'#'
    then ok none
    else keyed_line (cut b'=' (trim_text (trim_prefix (c ∷ s) (codes "export "))))

unfoldable pub parse_line : Text → Result ParseError (Option EnvPair)
unfolding parse_trimmed trim_text
parse_line line = parse_trimmed (trim_text line)

abbrev pub add_pair : Option EnvPair → List EnvPair → List EnvPair
add_pair none l = l
add_pair (some p) l = p ∷ l

-- The longest line that bufio.Scanner takes, without its newline.
abbrev pub max_line : ℕ
max_line = 65535

-- The text without one `\r` at its end.
unfoldable pub drop_return : Text → Text
drop_return [] = []
drop_return (c ∷ []) = if c == 13 then [] else c ∷ []
drop_return (c ∷ d ∷ s) = c ∷ drop_return (d ∷ s)

-- The loop of `parseDotEnv`, over the lines that the newlines part; the last one counts if it is not
-- empty.
unfoldable pub parse_lines : ℕ → List Text → Result LineError (List EnvPair)
unfolding parse_line drop_return
parse_lines n [] = ok []
parse_lines n ([] ∷ []) = ok []
parse_lines n (line ∷ lines) =
    if ltb max_line (length line)
    then err (scanner_failed token_too_long)
    else elim (parse_line (drop_return line)) [
      | err e ↦ err (at_line (suc n) e)
      | ok pair ↦ parse_lines (suc n) lines >>= λ rest. ok (add_pair pair rest)
    ]

-- `parseDotEnv`
unfoldable pub parse_dotenv : Text → Result LineError (List EnvPair)
unfolding parse_lines split
parse_dotenv data' = parse_lines 0 (split 10 data')

pub data LoadError : Type 0 where
  unreadable : Text → FsError → LoadError
  unparsable : Text → LineError → LoadError

pub record Provider : Type 0 where
  pub prefix : Text
  pub paths : List Text
  pub coerces : Bool
  pub replacer : Text → Text
  pub root : List Text

module _ (parse_float : Text → Option Value) (read_file : Text → Result FsError Text) where
  abbrev pub set_pair : Provider → Fields → Option (List Text) → Text → Fields
  set_pair p inner none v = inner
  set_pair p inner (some path) v = set inner path (maybe_coerce parse_float v p.coerces)

  -- The pairs of one file; those that the process has, if it is asked, are left out.
  unfoldable pub load_pairs : Provider → Option (Text → Bool) → List EnvPair → Fields → Fields
  unfolding key_path set maybe_coerce
  load_pairs p has [] inner = inner
  load_pairs p none (e ∷ l) inner =
      load_pairs p none l (set_pair p inner (key_path p.prefix p.replacer e.key) e.value)
  load_pairs p (some present) (e ∷ l) inner = load_pairs p (some present) l (
      if present e.key
      then inner
      else set_pair p inner (key_path p.prefix p.replacer e.key) e.value)

  unfoldable pub load_files :
      Provider → Option (Text → Bool) → List Text → Fields → Result LoadError Fields
  unfolding parse_dotenv load_pairs
  load_files p has [] inner = ok inner
  load_files p has (path ∷ paths) inner = elim (read_file path) [
    | err not_exist ↦ load_files p has paths inner
    | err (fs_failed e) ↦ err (unreadable path (fs_failed e))
    | ok data' ↦ elim (parse_dotenv data') [
      | err e ↦ err (unparsable path e)
      | ok pairs ↦ load_files p has paths (load_pairs p has pairs inner)
    ]
  ]

  -- `loadMap`
  unfoldable pub load_dotenv : Provider → Option (Text → Bool) → Result LoadError Fields
  unfolding load_files graft_at
  load_dotenv p has = load_files p has p.paths end >>= λ inner. ok (graft_at inner p.root)
