-- ===== src/Guest/StraceParser/Syscalls/Tokens.antt =====
-- What strace prints for the descriptor of a directory, for flags and for what a call returned, said
-- without the parser.
use mathlib.Core.List.{Memᴰ}
use script_jail.Base.{
  ℕ, Bool, true, false, ◌||◌, List, [], ◌∷◌, ◌++◌, Option, none, some, Text, codes, text_eq,
  starts_with, starts_with-append, includes, any, any_of_mem, trim, decimal, ◌==◌, All, ◌≡◌, ◌≢◌,
  refl, arith,
}
use script_jail.Lock.Schema.{ℤ, pos, Errno}
use script_jail.Guest.StraceParser.Syscalls.{
  RetVal, flags_imply_write, dirfd_of, open_errno, ret_fd_of, until_end, nonempty_or, flags_field,
}
use script_jail.Guest.StraceParser.Syscalls.Numbers.{
  decimal-IsDigits, digits_no_hex, digits_no_cwd, leading_int-decimal,
}

-- The working directory, or a descriptor.
pub data IsDirectory : Text → Option ℤ → Type 0 where
  working : IsDirectory (codes "AT_FDCWD") none
  descriptor : (n : ℕ) → IsDirectory (decimal n) (some (pos n))

pub dirfd_of-IsDirectory :
    {token : Text} {dirfd : Option ℤ} → IsDirectory token dirfd → dirfd_of token ≡ some dirfd
unfolding dirfd_of
dirfd_of-IsDirectory IsDirectory.working = unfold text_eq in refl
dirfd_of-IsDirectory (IsDirectory.descriptor n) =
    rw (digits_no_cwd (decimal n) (decimal-IsDigits n), leading_int-decimal n) refl

-- A call returned a descriptor, or failed as the path is not there, or as it must not be opened.
pub data Returned : RetVal → Option Errno → Option ℕ → Type 0 where
  succeeds :
      (fd : ℕ)
      → Returned (record { raw = decimal fd; is_error = false; errno = none }) none (some fd)
  missing :
      (raw : Text)
      → Returned
          (record { raw = raw; is_error = true; errno = some (codes "ENOENT") })
          (some Errno.enoent)
          none
  denied :
      (raw : Text)
      → Returned
          (record { raw = raw; is_error = true; errno = some (codes "EACCES") })
          (some Errno.eacces)
          none

pub open_errno-Returned :
    {r : RetVal} {errno : Option Errno} {fd : Option ℕ}
    → Returned r errno fd
    → open_errno r ≡ some errno
unfolding open_errno text_eq
open_errno-Returned (Returned.succeeds fd) = refl
open_errno-Returned (Returned.missing raw) = refl
open_errno-Returned (Returned.denied raw) = refl

pub ret_fd_of-Returned :
    {r : RetVal} {errno : Option Errno} {fd : Option ℕ} → Returned r errno fd → ret_fd_of r ≡ fd
unfolding ret_fd_of
ret_fd_of-Returned (Returned.succeeds fd) =
    rw (digits_no_hex (decimal fd) (decimal-IsDigits fd), leading_int-decimal fd) refl
ret_fd_of-Returned (Returned.missing raw) = refl
ret_fd_of-Returned (Returned.denied raw) = refl

-- The flags with which a file may be written or made.
abbrev pub writing : List Text
writing =
    codes "O_WRONLY" ∷ codes "O_RDWR" ∷ codes "O_CREAT" ∷ codes "O_TRUNC" ∷ codes "O_APPEND" ∷ []

-- One of these flags is printed, or none.
pub data Access : Text → Bool → Type 0 where
  writes : (before flag after : Text) → Memᴰ flag writing → Access (before ++ (flag ++ after)) true
  reads : {flags : Text} → All (λ flag. includes flags flag ≡ false) writing → Access flags false

includes_front : (s t : Text) → starts_with s t ≡ true → includes s t ≡ true
unfolding includes
includes_front [] t h = h
includes_front (c ∷ s) t h = rw h refl

includes-append : (a t b : Text) → includes (a ++ (t ++ b)) t ≡ true
unfolding includes
includes-append [] t b = includes_front (t ++ b) t (starts_with-append t b)
includes-append (c ∷ a) t b = rw (includes-append a t b) (ground arith)

none_passes : (p : Text → Bool) (xs : List Text) → All (λ x. p x ≡ false) xs → any p xs ≡ false
none_passes p [] _ = refl
none_passes p (x ∷ xs) (h, hs) = rw h (none_passes p xs hs)

pub flags_imply_write-Access :
    {flags : Text} {is_write : Bool} → Access flags is_write → flags_imply_write flags ≡ is_write
unfolding flags_imply_write
flags_imply_write-Access (Access.writes before flag after m) =
    any_of_mem (λ f. includes (before ++ (flag ++ after)) f) writing m
      (includes-append before flag after)
flags_imply_write-Access {flags} (Access.reads none_there) =
    none_passes (λ f. includes flags f) writing none_there

-- The struct of `openat2`, with the flags in front: they are some, have no blanks at their ends, and
-- end at a comma or a brace.
pub data IsHow (flags : Text) : Text → Type 0 where
  how_of :
      (stop : ℕ) (after : Text)
      → flags ≢ []
      → trim flags ≡ flags
      → All (λ c. (c == b',' || c == b'}') ≡ false) flags
      → (stop == b',' || stop == b'}') ≡ true
      → IsHow flags (codes "{flags=" ++ (flags ++ stop ∷ after))

until_end-append :
    (flags : Text) (stop : ℕ) (after : Text)
    → All (λ c. (c == b',' || c == b'}') ≡ false) flags
    → (stop == b',' || stop == b'}') ≡ true
    → until_end (flags ++ stop ∷ after) ≡ flags
unfolding until_end
until_end-append [] stop after _ e = rw e refl
until_end-append (c ∷ flags) stop after (h, hs) e =
    rw (h, until_end-append flags stop after hs e) refl

nonempty_or-left : (flags other : Text) → flags ≢ [] → nonempty_or flags other ≡ flags
nonempty_or-left [] other n = absurd (n refl)
nonempty_or-left (c ∷ flags) other n = refl

pub flags_field-IsHow : {flags how : Text} → IsHow flags how → trim (flags_field how) ≡ flags
unfolding flags_field starts_with
flags_field-IsHow {flags} (IsHow.how_of stop after some_there bare inside e) =
    rw (until_end-append flags stop after inside e, nonempty_or-left flags _ some_there) bare
