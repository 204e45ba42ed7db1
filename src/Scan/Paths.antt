-- ===== src/Scan/Paths.antt =====
-- What the scanner uses of the packages strings, path, path/filepath, io/fs and unicode/utf8.
use fastconf.Base.{
  join, has_prefix, lacks, split, ℕ, Bool, true, false, not, ◌&&◌, ◌||◌, Option, none, some, List,
  [], ◌∷◌, ◌++◌, ltb, leb, ◌==◌, if◌then◌else◌, Text, codes, text_eq,
}
use mathlib.Core.List.{reverse}

-- strings.Compare is negative.
unfoldable pub text_less : Text → Text → Bool
text_less s [] = false
text_less [] (d ∷ t) = true
text_less (c ∷ s) (d ∷ t) = ltb c d || (c == d && text_less s t)

-- strings.HasSuffix
unfoldable pub has_suffix : Text → Text → Bool
unfolding has_prefix
has_suffix s suffix = has_prefix (reverse s) (reverse suffix)

-- filepath.Ext: from the last dot of the last element.
unfoldable pub ext_of : Text → Text
ext_of [] = []
ext_of (c ∷ s) = elim (ext_of s) [
  | d ∷ t ↦ d ∷ t
  | [] ↦ if c == b'.' && lacks b'/' s then c ∷ s else []
]

-- One element of a path on the stack of those before it, the last one first.
abbrev pub push_part : Bool → Text → List Text → List Text
push_part rooted part [] =
    if text_eq part [] || text_eq part (codes ".")
    then []
    else if text_eq part (codes "..") && rooted
    then []
    else part ∷ []
push_part rooted part (top ∷ rest) =
    if text_eq part [] || text_eq part (codes ".")
    then top ∷ rest
    else if text_eq part (codes "..") && not (text_eq top (codes ".."))
    then rest
    else part ∷ top ∷ rest

unfoldable pub push_parts : Bool → List Text → List Text → List Text
unfolding text_eq
push_parts rooted [] stack = stack
push_parts rooted (part ∷ parts) stack = push_parts rooted parts (push_part rooted part stack)

abbrev pub dot_if_empty : Text → Text
dot_if_empty [] = codes "."
dot_if_empty (c ∷ s) = c ∷ s

-- path.Clean
unfoldable pub clean_path : Text → Text
unfolding has_prefix split join push_parts
clean_path s =
    let rooted = has_prefix s (codes "/") in
    let parts = join b'/' (reverse (push_parts rooted (split b'/' s) [])) in
    if rooted then b'/' ∷ parts else dot_if_empty parts

-- path.Join of two elements
unfoldable pub join_path : Text → Text → Text
unfolding clean_path
join_path [] [] = []
join_path [] (c ∷ s) = clean_path (c ∷ s)
join_path (c ∷ s) [] = clean_path (c ∷ s)
join_path (c ∷ s) (d ∷ t) = clean_path ((c ∷ s) ++ (b'/' ∷ d ∷ t))

abbrev pub tail_range : ℕ × ℕ
tail_range = (128, 191)

-- The ranges of the bytes that must follow a first byte in UTF-8.
abbrev pub following : ℕ → Option (List (ℕ × ℕ))
following c =
    if ltb c 128
    then some []
    else if leb 194 c && leb c 223
    then some (tail_range ∷ [])
    else if c == 224
    then some ((160, 191) ∷ tail_range ∷ [])
    else if c == 237
    then some ((128, 159) ∷ tail_range ∷ [])
    else if leb 225 c && leb c 239
    then some (tail_range ∷ tail_range ∷ [])
    else if c == 240
    then some ((144, 191) ∷ tail_range ∷ tail_range ∷ [])
    else if leb 241 c && leb c 243
    then some (tail_range ∷ tail_range ∷ tail_range ∷ [])
    else if c == 244
    then some ((128, 143) ∷ tail_range ∷ tail_range ∷ [])
    else none

unfoldable pub utf8_from : List (ℕ × ℕ) → Text → Bool
utf8_from [] [] = true
utf8_from (range ∷ ranges) [] = false
utf8_from ((low, high) ∷ ranges) (c ∷ s) = leb low c && (leb c high && utf8_from ranges s)
utf8_from [] (c ∷ s) = elim (following c) [ none ↦ false | some ranges ↦ utf8_from ranges s ]

-- utf8.ValidString
abbrev pub valid_utf8 : Text → Bool
valid_utf8 s = utf8_from [] s

abbrev pub is_plain_part : Text → Bool
is_plain_part part =
    not (text_eq part []) && (not (text_eq part (codes ".")) && not (text_eq part (codes "..")))

unfoldable pub all_plain : List Text → Bool
unfolding text_eq
all_plain [] = true
all_plain (part ∷ parts) = is_plain_part part && all_plain parts

-- fs.ValidPath
unfoldable pub valid_path : Text → Bool
unfolding utf8_from text_eq all_plain split
valid_path s = valid_utf8 s && (text_eq s (codes ".") || all_plain (split b'/' s))
