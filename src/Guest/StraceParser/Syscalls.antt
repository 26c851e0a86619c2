-- ===== src/Guest/StraceParser/Syscalls.antt =====
-- src/guest/strace-parser.ts: the parser of each system call, given its arguments and what it returned,
-- and `parseConnectStruct`.
pub mod Opened
pub mod Numbers
pub mod Tokens
use Prim.Native.Nat.{◌*◌}
use script_jail.Base.{
  ℕ, zero, suc, ◌+◌, ◌-◌, Bool, true, false, not, ◌&&◌, ◌||◌, List, [], ◌∷◌, ◌++◌, Option, none,
  some, Text, codes, text_eq, starts_with, includes, any, get_elem?, length, drop, trim, trim_start,
  leb, ◌==◌, if◌then◌else◌,
}
use script_jail.Lock.Schema.{
  ℤ, pos, negsuc, Errno, FsEvent, SpawnEvent, SpawnResult, NetworkEvent, ConnectResult, RawEvent,
}
use script_jail.Guest.StraceParser.Strings.{hex_digit, extract_quoted_string}
use script_jail.Guest.StraceParser.Argv.{parse_argv_token}

-- What a call returned: the number as it is printed, whether it is -1, and then the name of the error.
pub record RetVal : Type 0 where
  pub raw : Text
  pub is_error : Bool
  pub errno : Option Text

-- `null`, or the events of a line
abbrev pub Parsed : Type 0
Parsed = Option (List RawEvent)

abbrev pub if_some {ℓ κ} : {A : Type ℓ} {B : Type κ} → Option A → (A → Option B) → Option B
if_some none next = none
if_some (some a) next = next a

abbrev or_no_text : Option Text → Text
or_no_text none = []
or_no_text (some t) = t

-- `args[i] ?? ''`
abbrev pub arg : List Text → ℕ → Text
arg args i = or_no_text (get_elem? args i)

abbrev pub path_of : Option (Text × Text) → Option Text
path_of none = none
path_of (some (path, rest)) = some path

-- The path of a token that is a string.
abbrev pub path_at : List Text → ℕ → Option Text
path_at args i = path_of (extract_quoted_string (arg args i))

abbrev pub write_flags : List Text
write_flags =
    codes "O_WRONLY" ∷ codes "O_RDWR" ∷ codes "O_CREAT" ∷ codes "O_TRUNC" ∷ codes "O_APPEND" ∷ []

unfoldable pub flags_imply_write : Text → Bool
unfolding includes
flags_imply_write flags = any (λ f. includes flags f) write_flags

abbrev pub is_decimal : ℕ → Bool
is_decimal c = leb b'0' c && leb c b'9'

-- The value of the decimal digits in front.
unfoldable pub decimal_value : ℕ → Text → ℕ
decimal_value value [] = value
decimal_value value (c ∷ s) =
    let rest = decimal_value (value * 10 + (c - b'0')) s in if is_decimal c then rest else value

abbrev negated : ℕ → ℤ
negated zero = pos 0
negated (suc n) = negsuc n

-- `/^\d+/`, as a number
abbrev pub leading_digits : Text → Option ℕ
leading_digits [] = none
leading_digits (c ∷ s) = if is_decimal c then some (decimal_value 0 (c ∷ s)) else none

abbrev minus : Option ℕ → Option ℤ
minus none = none
minus (some n) = some (negated n)

abbrev plus : Option ℕ → Option ℤ
plus none = none
plus (some n) = some (pos n)

-- `/^(-?\d+)/`, as a number
unfoldable pub leading_int : Text → Option ℤ
unfolding decimal_value
leading_int [] = none
leading_int (c ∷ s) = if c == b'-' then minus (leading_digits s) else plus (leading_digits (c ∷ s))

abbrev pub at_fdcwd : Text
at_fdcwd = codes "AT_FDCWD"

-- The descriptor of the directory, `some none` for the working directory.
unfoldable pub dirfd_of : Text → Option (Option ℤ)
unfolding text_eq leading_int
dirfd_of token =
    if text_eq token at_fdcwd then some none else if_some (leading_int token) (λ n. some (some n))

abbrev known_errno : Option Text → Option (Option Errno)
known_errno none = none
known_errno (some name) =
    if text_eq name (codes "ENOENT")
    then some (some Errno.enoent)
    else (if text_eq name (codes "EACCES") then some (some Errno.eacces) else none)

-- The error that the event carries; other errors drop it.
unfoldable pub open_errno : RetVal → Option (Option Errno)
unfolding text_eq
open_errno r = if r.is_error then known_errno r.errno else some none

abbrev hex_step : Option ℕ → ℕ → (ℕ → ℕ) → ℕ
hex_step none value next = value
hex_step (some d) value next = next (value * 16 + d)

unfoldable pub hex_value : ℕ → Text → ℕ
unfolding hex_digit
hex_value value [] = value
hex_value value (c ∷ s) = hex_step (hex_digit c) value (λ v. hex_value v s)

abbrev has_digit : Option ℕ → Text → Option ℕ
has_digit none s = none
has_digit (some d) s = some (hex_value 0 s)

abbrev hex_number : Text → Option ℕ
hex_number [] = none
hex_number (c ∷ s) = has_digit (hex_digit c) (c ∷ s)

abbrev natural : Option ℤ → Option ℕ
natural none = none
natural (some (pos n)) = some n
natural (some (negsuc n)) = none

-- The new descriptor of a call that did not fail.
unfoldable pub ret_fd_of : RetVal → Option ℕ
unfolding starts_with leading_int hex_value
ret_fd_of r =
    if r.is_error
    then none
    else (if starts_with r.raw (codes "0x")
        then hex_number (drop 2 r.raw)
        else natural (leading_int r.raw))

abbrev pub file_event : Text → Option Errno → Option ℤ → Option ℕ → ℕ → ℕ → FsEvent
file_event path errno dirfd ret_fd pid ts = record {
  path = path;
  pid = pid;
  ts = ts;
  hidden = false;
  errno = errno;
  dirfd = dirfd;
  ret_fd = ret_fd;
  root_anchored = none;
}

abbrev pub of_kind : Bool → FsEvent → RawEvent
of_kind true e = RawEvent.write e
of_kind false e = RawEvent.read e

-- The common end of the calls that open a file.
abbrev pub opened : Bool → Text → Option ℤ → RetVal → ℕ → ℕ → Parsed
opened is_write path dirfd r pid ts =
    if_some (open_errno r)
      (λ errno. some (of_kind is_write (file_event path errno dirfd (ret_fd_of r) pid ts) ∷ []))

unfoldable pub parse_openat : List Text → RetVal → ℕ → ℕ → Parsed
unfolding dirfd_of extract_quoted_string flags_imply_write open_errno ret_fd_of
parse_openat args r pid ts = if_some (dirfd_of (arg args 0)) (λ dirfd.
    if_some (path_at args 1) (λ path. opened (flags_imply_write (arg args 2)) path dirfd r pid ts))

unfoldable pub until_end : Text → Text
until_end [] = []
until_end (c ∷ s) = let rest = until_end s in if c == b',' || c == b'}' then [] else c ∷ rest

abbrev nonempty_or : Text → Text → Text
nonempty_or [] other = other
nonempty_or (c ∷ s) other = c ∷ s

-- `/flags=([^,}]+)/`, at its first match
unfoldable pub flags_field : Text → Text
unfolding starts_with until_end
flags_field [] = []
flags_field (c ∷ s) =
    let later = flags_field s in
    if starts_with (c ∷ s) (codes "flags=") then nonempty_or (until_end (drop 5 s)) later else later

unfoldable pub parse_openat2 : List Text → RetVal → ℕ → ℕ → Parsed
unfolding dirfd_of extract_quoted_string flags_imply_write open_errno ret_fd_of flags_field trim
parse_openat2 args r pid ts = if_some (dirfd_of (arg args 0)) (λ dirfd.
    if_some (path_at args 1)
      (λ path. opened (flags_imply_write (trim (flags_field (arg args 2)))) path dirfd r pid ts))

unfoldable pub parse_open : List Text → RetVal → ℕ → ℕ → Parsed
unfolding extract_quoted_string flags_imply_write open_errno ret_fd_of
parse_open args r pid ts =
    if_some (path_at args 0) (λ path. opened (flags_imply_write (arg args 1)) path none r pid ts)

unfoldable pub parse_creat : List Text → RetVal → ℕ → ℕ → Parsed
unfolding extract_quoted_string open_errno ret_fd_of
parse_creat args r pid ts = if_some (path_at args 0) (λ path. opened true path none r pid ts)
