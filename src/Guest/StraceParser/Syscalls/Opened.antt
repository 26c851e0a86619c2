-- ===== src/Guest/StraceParser/Syscalls/Opened.antt =====
-- The event of the calls that open a file.
use script_jail.Base.{
  ℕ, Bool, true, false, List, [], ◌∷◌, ◌++◌, Option, none, some, Text, refl, ◌≡◌, ◌∙◌, ap,
}
use script_jail.Lock.Schema.{ℤ, Errno, RawEvent}
use script_jail.Guest.StraceParser.Strings.{double_quote, extract_quoted_string}
use script_jail.Guest.StraceParser.Strings.Spelled.{Spells, extract_quoted_string-Spells}
use script_jail.Guest.StraceParser.Syscalls.{
  RetVal, Parsed, if_some, path_of, ret_fd_of, file_event, of_kind, opened, parse_openat,
  parse_openat2, parse_open, parse_creat,
}
use script_jail.Guest.StraceParser.Syscalls.Tokens.{
  IsDirectory, dirfd_of-IsDirectory, Returned, open_errno-Returned, ret_fd_of-Returned, Access,
  flags_imply_write-Access, IsHow, flags_field-IsHow,
}

-- The one event of a file that was opened, or that could not be.
abbrev pub event_of : Bool → Text → Option Errno → Option ℤ → Option ℕ → ℕ → ℕ → Parsed
event_of true path errno dirfd fd pid ts = some (
    RawEvent.write (record {
      path = path;
      pid = pid;
      ts = ts;
      hidden = false;
      errno = errno;
      dirfd = dirfd;
      ret_fd = fd;
      root_anchored = none;
    })
    ∷ [])
event_of false path errno dirfd fd pid ts = some (
    RawEvent.read (record {
      path = path;
      pid = pid;
      ts = ts;
      hidden = false;
      errno = errno;
      dirfd = dirfd;
      ret_fd = fd;
      root_anchored = none;
    })
    ∷ [])

of_kind-event_of :
    (is_write : Bool) (path : Text) (errno : Option Errno) (dirfd : Option ℤ) (fd : Option ℕ)
    (pid ts : ℕ)
    → some (of_kind is_write (file_event path errno dirfd fd pid ts) ∷ [])
      ≡ event_of is_write path errno dirfd fd pid ts
of_kind-event_of true path errno dirfd fd pid ts = refl
of_kind-event_of false path errno dirfd fd pid ts = refl

module _ {meant written : Text} (s : Spells meant written) (rest : Text) {r : RetVal}
    {errno : Option Errno} {fd : Option ℕ} (o : Returned r errno fd) (pid ts : ℕ) where
  abbrev token : Text
  token = double_quote ∷ (written ++ double_quote ∷ rest)

  opened_lem :
      (is_write : Bool) (dirfd : Option ℤ)
      → if_some
          (path_of (extract_quoted_string token))
          (λ path. opened is_write path dirfd r pid ts)
        ≡ event_of is_write meant errno dirfd fd pid ts
  opened_lem is_write dirfd =
      ap (λ p. if_some (path_of p) (λ path. opened is_write path dirfd r pid ts))
        (extract_quoted_string-Spells rest s)
      ∙ ap
          (λ e.
            if_some e
              (λ e'. some (of_kind is_write (file_event meant e' dirfd (ret_fd_of r) pid ts) ∷ [])))
          (open_errno-Returned o)
      ∙ ap (λ f. some (of_kind is_write (file_event meant errno dirfd f pid ts) ∷ []))
          (ret_fd_of-Returned o)
      ∙ of_kind-event_of is_write meant errno dirfd fd pid ts

  pub openat_lem :
      {dir_token flags : Text} {dirfd : Option ℤ} {is_write : Bool} (more : List Text)
      → IsDirectory dir_token dirfd
      → Access flags is_write
      → parse_openat (dir_token ∷ token ∷ flags ∷ more) r pid ts
        ≡ event_of is_write meant errno dirfd fd pid ts
  unfolding parse_openat
  openat_lem {dirfd = dirfd} {is_write = is_write} more d a =
      rw (dirfd_of-IsDirectory d, flags_imply_write-Access a) (opened_lem is_write dirfd)

  openat2_lem :
      {dir_token flags how : Text} {dirfd : Option ℤ} {is_write : Bool} (more : List Text)
      → IsDirectory dir_token dirfd
      → Access flags is_write
      → IsHow flags how
      → parse_openat2 (dir_token ∷ token ∷ how ∷ more) r pid ts
        ≡ event_of is_write meant errno dirfd fd pid ts
  unfolding parse_openat2
  openat2_lem {dirfd = dirfd} {is_write = is_write} more d a h =
      rw (dirfd_of-IsDirectory d, flags_field-IsHow h, flags_imply_write-Access a)
        (opened_lem is_write dirfd)

  open_lem :
      {flags : Text} {is_write : Bool} (more : List Text)
      → Access flags is_write
      → (parse_open (token ∷ flags ∷ more) r pid ts ≡ event_of is_write meant errno none fd pid ts)
        × (parse_creat (token ∷ flags ∷ more) r pid ts ≡ event_of true meant errno none fd pid ts)
  unfolding parse_open parse_creat
  open_lem {is_write = is_write} more a =
      (rw (flags_imply_write-Access a) (opened_lem is_write none), opened_lem true none)

-- A call that opens a file and returns a descriptor, or fails because the path is not there or must not
-- be opened, gives one event: its path is the one that strace spelled, its error that of the call, its
-- descriptors those of the directory (if the call has one) and of the file (if it was opened). It is a
-- write if one of the five flags that write or make a file is printed, and for `creat`, and else a read.
-- `openat2` takes the flags from its struct.
pub parse_open-Spells :
    {meant written dir_token flags how : Text} {dirfd : Option ℤ} {is_write : Bool} {r : RetVal}
    {errno : Option Errno} {fd : Option ℕ} (rest : Text) (more : List Text) (pid ts : ℕ)
    → Spells meant written
    → IsDirectory dir_token dirfd
    → Access flags is_write
    → IsHow flags how
    → Returned r errno fd
    → let path = double_quote ∷ (written ++ double_quote ∷ rest) in
      (parse_openat (dir_token ∷ path ∷ flags ∷ more) r pid ts
        ≡ event_of is_write meant errno dirfd fd pid ts)
      × (parse_openat2 (dir_token ∷ path ∷ how ∷ more) r pid ts
          ≡ event_of is_write meant errno dirfd fd pid ts)
      × (parse_open (path ∷ flags ∷ more) r pid ts ≡ event_of is_write meant errno none fd pid ts)
      × (parse_creat (path ∷ flags ∷ more) r pid ts ≡ event_of true meant errno none fd pid ts)
parse_open-Spells rest more pid ts s d a h o =
    let (open_ok, creat_ok) = open_lem s rest o pid ts more a in
    (openat_lem s rest o pid ts more d a, openat2_lem s rest o pid ts more d a h, open_ok, creat_ok)
