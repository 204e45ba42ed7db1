-- ===== src/Confmap/Pointer.antt =====
-- The JSON pointers of confmap/patch.go: RFC 6901 tokens, array indices, and the dotted form that
-- provenance records. A patch operation is the object that encoding/json decoded.
pub mod Escapes
use fastconf.Base.{
  ℕ, ◌+◌, ◌-◌, ◌*◌, ◌/◌, Bool, true, false, not, ◌&&◌, ◌||◌, List, [], ◌∷◌, map, ltb, leb, ◌==◌,
  if◌then◌else◌, Result, ok, err, ◌>>=◌, Text, codes, text_eq, split, join, trim_prefix,
}

pub data PatchError : Type 0 where
  not_a_string missing_member bad_pointer bad_escape : PatchError
  bad_index index_range not_found not_container into_null : PatchError
  unknown_op into_child remove_root test_failed root_not_object : PatchError
  undecodable not_an_array panic : PatchError

-- A member of the operation that must be a string.
pub data Member : Type 0 where
  absent not_string : Member
  text : Text → Member

-- `strings.ReplaceAll` of the two bytes `a b` by the byte `c`.
unfoldable pub replace_pair : ℕ → ℕ → ℕ → Text → Text
replace_pair a b c [] = []
replace_pair a b c (x ∷ []) = x ∷ []
replace_pair a b c (x ∷ y ∷ s) =
    let hit = c ∷ replace_pair a b c s in
    let miss = x ∷ replace_pair a b c (y ∷ s) in if x == a && y == b then hit else miss

-- `~1` before `~0`
unfoldable pub decode_token : Text → Text
unfolding replace_pair
decode_token t = replace_pair b'~' b'0' b'~' (replace_pair b'~' b'1' b'/' t)

-- Each `~` is followed by `0` or `1`.
unfoldable pub escapes_ok : Text → Bool
escapes_ok [] = true
escapes_ok (c ∷ []) = not (c == b'~')
escapes_ok (c ∷ d ∷ s) =
    let after = escapes_ok s in
    let next = escapes_ok (d ∷ s) in if c == b'~' then (d == b'0' || d == b'1') && after else next

unfoldable pub decode_tokens : List Text → Result PatchError (List Text)
unfolding decode_token escapes_ok
decode_tokens [] = ok []
decode_tokens (t ∷ ts) =
    let rest = decode_tokens ts in
    if escapes_ok t then (rest >>= λ us. ok (decode_token t ∷ us)) else err bad_escape

-- `patchOp.pointer`
unfoldable pub pointer : Member → Result PatchError (List Text)
unfolding decode_tokens
pointer absent = err missing_member
pointer not_string = err not_a_string
pointer (text []) = ok []
pointer (text (c ∷ s)) = if c == b'/' then decode_tokens (split b'/' s) else err bad_pointer

abbrev pub is_digit : ℕ → Bool
is_digit c = leb b'0' c && leb c b'9'

-- `isAllDigits`
unfoldable pub all_digits : Text → Bool
all_digits [] = false
all_digits (c ∷ []) = is_digit c
all_digits (c ∷ d ∷ s) = is_digit c && all_digits (d ∷ s)

-- The number that a text of digits writes.
unfoldable pub digits_value : ℕ → Text → ℕ
digits_value n [] = n
digits_value n (c ∷ s) = digits_value (n * 10 + (c - b'0')) s

abbrev pub leading_zero : Text → Bool
leading_zero [] = false
leading_zero (c ∷ []) = false
leading_zero (c ∷ d ∷ s) = c == b'0'

-- strconv.Atoi on digits fails above the largest int.
abbrev pub max_int : ℕ
max_int = 9223372036854775807

abbrev in_range : ℕ → ℕ → Bool → Result PatchError ℕ
in_range i n for_add = if ltb n i || (i == n && not for_add) then err index_range else ok i

-- `arrayIndex`: `forAdd` admits the length and "-".
unfoldable pub array_index : Text → ℕ → Bool → Result PatchError ℕ
unfolding all_digits digits_value
array_index tok n for_add =
    if text_eq tok (codes "-") && for_add
    then ok n
    else if not (all_digits tok) || leading_zero tok || ltb max_int (digits_value 0 tok)
    then err bad_index
    else in_range (digits_value 0 tok) n for_add

-- The segments before the first array index, decoded.
unfoldable pub dotted_segments : List Text → List Text
unfolding decode_token all_digits
dotted_segments [] = []
dotted_segments (s ∷ segs) =
    let rest = dotted_segments segs in
    if all_digits (decode_token s) then [] else decode_token s ∷ rest

unfoldable pub pointer_to_dotted : Text → Text
unfolding dotted_segments
pointer_to_dotted ptr =
    if text_eq ptr [] || text_eq ptr (codes "/")
    then []
    else join b'.' (dotted_segments (split b'/' (trim_prefix ptr (codes "/"))))

-- `PatchPaths`, of the "path" members as they decode into strings.
unfoldable pub patch_paths : List Text → List Text
patch_paths = map pointer_to_dotted
