-- ===== src/Scan/Files.antt =====
-- The file reads of internal/scan/scan.go and contracts/body.go. A file system is a record of the
-- operations that the scanner calls.
use fastconf.Base.{
  drop, take, ℕ, zero, suc, ◌+◌, ◌-◌, Bool, true, false, ◌&&◌, ◌||◌, Option, none, some, List, [],
  ◌++◌, ltb, leb, ◌==◌, if◌then◌else◌, length, Result, ok, err, ◌>>=◌, Text,
}
use fastconf.Base.Int.{negsuc, ℤ, pos}

pub data FsError : Type 0 where
  not_exist : FsError
  fs_failed : Text → FsError

pub record DirEntry : Type 0 where
  pub name : Text
  pub is_dir : Bool

pub record FileInfo : Type 0 where
  pub regular : Bool
  pub size : ℤ

-- An open file: its bytes, then the end or a fault, which the Read of the last byte reports already
-- if `eager`.
pub record Stream : Type 0 where
  pub content : Text
  pub fault : Option Text
  pub eager : Bool

pub record FileSystem : Type 0 where
  pub read_dir : Text → Result FsError (List DirEntry)
  pub stat : Text → Result FsError FileInfo
  pub open_file : Text → Result FsError Stream

pub data ReadError : Type 0 where
  stat_failed : FsError → ReadError
  not_regular : Text → ReadError
  open_failed : FsError → ReadError
  read_failed : Text → ReadError
  too_large : ReadError

-- errors.Is(err, fs.ErrNotExist)
abbrev pub is_missing : ReadError → Bool
is_missing (stat_failed not_exist) = true
is_missing (open_failed not_exist) = true
is_missing _ = false

-- `DefaultMaxBodyBytes`, which is `MaxFileBytes`
abbrev pub max_file_bytes : ℕ
max_file_bytes = 4194304

-- How reading stopped: at the wanted count, at the end, or at a fault.
pub data Ending : Type 0 where
  filled : Ending
  at_eof : Ending
  faulty : Text → Ending

abbrev pub ending_of : Option Text → Ending
ending_of none = at_eof
ending_of (some e) = faulty e

-- Reads until `n` bytes are there or a Read reports the end or a fault.
unfoldable pub read_upto : ℕ → Stream → Text × Ending
read_upto zero s = ([], filled)
read_upto (suc n) s = (
  take (suc n) s.content,
  if leb (length s.content) n || (length s.content == suc n && s.eager)
      then ending_of s.fault
      else filled,
)

abbrev pub stream_after : ℕ → Stream → Stream
stream_after n s = record s { content = drop n s.content }

abbrev pub bounded : ℕ → Text → Result ReadError Text
bounded limit data' = if ltb limit (length data') then err too_large else ok data'

abbrev pub whole : Text × Ending → Result ReadError Text
whole (data', filled) = ok data'
whole (data', at_eof) = ok data'
whole (data', faulty e) = err (read_failed e)

-- io.ReadAll of an io.LimitReader
abbrev pub read_limited : ℕ → Stream → Result ReadError Text
read_limited limit s = whole (read_upto limit s)

-- `ReadAllMax`, for a positive `max` below the largest int64
unfoldable pub read_all_max : Stream → ℕ → Result ReadError Text
unfolding read_upto
read_all_max s limit = read_limited (suc limit) s >>= bounded limit

-- `ReadAllMax` of an io.LimitReader whose limit is not above `max`
unfoldable pub read_tail : Stream → ℕ → ℕ → Result ReadError Text
unfolding read_upto
read_tail s count limit = read_limited count s >>= bounded limit

-- What `readBounded` does when its buffer of `n` bytes was read.
abbrev pub after_buffer : ℕ → Stream → Text × Ending → Result ReadError Text
after_buffer n s (data', faulty e) = err (read_failed e)
after_buffer n s (data', at_eof) = bounded max_file_bytes data'
after_buffer n s (data', filled) = (do
  tail ← read_tail (stream_after n s) (max_file_bytes + 1 - n) max_file_bytes
  bounded max_file_bytes (data' ++ tail))

unfoldable pub read_bounded : Stream → ℤ → Result ReadError Text
unfolding read_all_max read_upto read_tail
read_bounded s (negsuc n) = read_all_max s max_file_bytes
read_bounded s (pos size) =
    if ltb max_file_bytes size
    then read_all_max s max_file_bytes
    else after_buffer (suc size) s (read_upto (suc size) s)

-- No data for a file that is not regular, without strict mode.
unfoldable pub read_regular_file : FileSystem → Text → Bool → Result ReadError (Option Text)
unfolding read_bounded
read_regular_file fs p strict = elim (fs.stat p) [
  | err e ↦ err (stat_failed e)
  | ok info ↦ elim info.regular [
    | false ↦ if strict then err (not_regular p) else ok none
    | true ↦ elim (fs.open_file p) [
      | err e ↦ err (open_failed e)
      | ok s ↦ elim (read_bounded s info.size) [ err e ↦ err e | ok data' ↦ ok (some data') ]
    ]
  ]
]
